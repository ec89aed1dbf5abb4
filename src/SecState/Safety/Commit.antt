-- ===== src/SecState/Safety/Commit.antt =====
-- state_commit of fw/lms_sec_state.c keeps the safety invariant.
use sec_lms.Prelude.{
  ℕ, ◌+◌, ◌^◌, ◌≤◌, ◌<◌, ◌≡◌, ◌≢◌, inl, inr, sym, subst, List, ◌++◌, take, arith, ◌∙◌,
}
use sec_lms.SecState.{
  Device, slot_a, slot_b, other, slot_cases, Sec, slot, booting, error_locked, reserved,
  state_tag_len,
}
use sec_lms.SecState.Record.{encode_body}
use sec_lms.SecState.Record.Laws.{encode_body_state_ctr, written_not_zero}
use sec_lms.SecState.Commit.{state_commit}
use sec_lms.SecState.Commit.Laws.{Commits, Keeps, state_commit-Outcome}
use sec_lms.SecState.Safety.{Resumes, SlotSafe, Safe}

-- A record for `ctr` resumes at `ctr`, or at `ctr + 1` if it is reserved.
pub encode_body-Resumes :
    (n state ctr tx : ℕ) (rest : List ℕ)
    → state < 2 ^ 16
    → ctr < 2 ^ 32
    → (state ≡ reserved → ctr + 1 < 2 ^ 32)
    → (state ≢ reserved → n ≤ ctr)
    → n ≤ ctr + 1
    → Resumes n (encode_body state ctr tx ++ rest)
encode_body-Resumes n state ctr tx rest hs hc hr above bound =
    let (es, ec) = encode_body_state_ctr state ctr tx rest hs hc in
    (λ r. (omega arith, rw ec (hr (sym es ∙ r))), λ ne. rw ec (above (λ e. ne (es ∙ e))))

module _ {H : Type 0} (dev : Device H) where
  -- The bound may grow to the counter that was committed, if the slot that is kept allows it.
  pub Commits-Safe :
      (n state ctr : ℕ) {s t : Sec H}
      → Commits s state ctr t
      → SlotSafe dev n (slot s s.active).bytes s.active
      → state < 2 ^ 16
      → ctr < 2 ^ 32
      → (state ≡ reserved → ctr + 1 < 2 ^ 32)
      → n ≤ ctr
      → Safe dev n t
  Commits-Safe n state ctr {s} {t} c kept hs hc hr bound = record {
    counter = λ _ _. omega (arith, c.ctr_set);
    slots = λ i. elim (slot_cases i s.active) [
      | inl e ↦
          subst (λ k. SlotSafe dev n (slot t k).bytes k) (sym e)
            (subst (λ rec. SlotSafe dev n rec s.active) (sym c.kept) kept)
      | inr e ↦
          subst (λ k. SlotSafe dev n (slot t k).bytes k) (sym e)
            (subst (λ rec. SlotSafe dev n rec (other s.active)) (sym c.stored)
              (inr (
                encode_body-Resumes n state ctr t.last_tx (take state_tag_len c.tag) hs hc hr
                  (λ _. bound) (omega arith))))
    ];
    started = λ z.
        let w =
          written_not_zero t (other s.active) state ctr t.last_tx (take state_tag_len c.tag)
            c.stored in
        cc;
  }

  -- The invariant speaks of the bytes of the slots, and of the counter.
  pub Safe-of_bytes :
      {n : ℕ} {s t : Sec H}
      → Safe dev n s
      → t.a.bytes ≡ s.a.bytes
      → t.b.bytes ≡ s.b.bytes
      → (t.state ≢ booting → t.state ≢ error_locked → n ≤ t.ctr)
      → Safe dev n t
  Safe-of_bytes {n} {s} {t} v a b counter = record {
    counter = counter;
    slots = elim [
      | slot_a ↦ subst (λ rec. SlotSafe dev n rec slot_a) (sym a) (v.slots slot_a)
      | slot_b ↦ subst (λ rec. SlotSafe dev n rec slot_b) (sym b) (v.slots slot_b)
    ];
    started = λ z. v.started (rw (← a, ← b) z);
  }

  -- A commit that fails changes nothing that the invariant speaks of.
  Keeps-Safe : (n : ℕ) {s t : Sec H} → Keeps s t → Safe dev n s → Safe dev n t
  Keeps-Safe n k v =
      Safe-of_bytes v k.a k.b
        (λ nb nl. rw k.ctr (v.counter (λ e. nb (k.state ∙ e)) (λ e. nl (k.state ∙ e))))

  -- state_commit keeps the invariant, whether it succeeds or fails.
  pub state_commit-Safe :
      (n : ℕ) (s : Sec H) (state ctr : ℕ)
      → Safe dev n s
      → state < 2 ^ 16
      → ctr < 2 ^ 32
      → (state ≡ reserved → ctr + 1 < 2 ^ 32)
      → n ≤ ctr
      → Safe dev n (state_commit dev s state ctr).0
  state_commit-Safe n s state ctr v hs hc hr bound = elim (state_commit-Outcome dev s state ctr) [
    | inl (c, _) ↦ Commits-Safe n state ctr c (v.slots s.active) hs hc hr bound
    | inr (k, _) ↦ Keeps-Safe n k v
  ]
