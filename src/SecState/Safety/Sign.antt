-- ===== src/SecState/Safety/Sign.antt =====
-- sec_sign of fw/lms_sec_state.c: what it releases, and that it keeps the safety invariant.
use sec_lms.Prelude.{
  ℕ, ◌+◌, ◌^◌, ◌≤◌, ◌<◌, ◌≡◌, refl, inl, inr, sym, subst, ◌∙◌, false, not, List, ◌++◌, ◌||◌, take,
  none, some, arith, leb, ◌==◌, Bool-cases, if_cases,
}
use sec_lms.SecState.{
  Device, SlotId, slot_a, slot_b, other, Sec, slot, error_locked, idle, reserved, ok, state_tag_len,
}
use sec_lms.SecState.Record.{encode_body}
use sec_lms.SecState.Commit.{state_commit}
use sec_lms.SecState.Commit.Laws.{Commits, state_commit-Outcome}
use sec_lms.SecState.Sign.{
  DoSign, Signed, next_q, run_sign, sign_reserved, reserve_and_sign, sec_sign,
}
use sec_lms.SecState.Safety.{SlotSafe, Safe}
use sec_lms.SecState.Safety.Commit.{
  encode_body-Resumes, Commits-Safe, Safe-of_bytes, state_commit-Safe,
}

module _ {H : Type 0} (dev : Device H) where
  -- After a call that released `q`, the bound is `q + 1`; `q` itself was not below the old one.
  abbrev pub After : ℕ → Signed H → Type 0
  After n (t, ok, q) = (n ≤ q) × Safe dev (q + 1) t
  After n (t, other, q) = Safe dev n t

  pub Safe-of_hw : (n : ℕ) (s : Sec H) (h : H) → Safe dev n s → Safe dev n (record s { hw = h })
  Safe-of_hw n s h v = Safe-of_bytes dev v refl refl v.counter

  pub run_sign-Safe :
      (n q : ℕ) (f : DoSign H) (s : Sec H) → Safe dev n s → Safe dev n (run_sign f q s).0
  run_sign-Safe n q none s v = v
  run_sign-Safe n q (some f) s v = Safe-of_hw n s (f q s.hw).0 v

  slot_of_run_sign :
      (q : ℕ) (f : DoSign H) (s : Sec H)
      → (slot (run_sign f q s).0 (run_sign f q s).0.active).bytes ≡ (slot s s.active).bytes
  slot_of_run_sign q none s = refl
  slot_of_run_sign q (some f) s = same s.active
    where
      same : (i : SlotId) → (slot (record s { hw = (f q s.hw).0 }) i).bytes ≡ (slot s i).bytes
      same slot_a = refl
      same slot_b = refl

  -- The signature's commit, when it succeeds: the reserved record in the other slot resumes at
  -- `q + 1` too.
  committed-Safe :
      (n q tx : ℕ) (rest : List ℕ) {s t : Sec H}
      → (slot s s.active).bytes ≡ encode_body reserved q tx ++ rest
      → q + 1 < 2 ^ 32
      → Commits s idle (q + 1) t
      → Safe dev (q + 1) t
  committed-Safe n q tx rest {s} {t} e hq c =
      Commits-Safe dev (q + 1) idle (q + 1) c
        (subst (λ rec. SlotSafe dev (q + 1) rec s.active) (sym e)
          (inr (
            encode_body-Resumes (q + 1) reserved q tx rest (omega arith) (omega arith) (λ _. hq)
              (λ ne. absurd (ne refl)) (omega arith))))
        (omega arith) (omega arith) (λ r. absurd (omega arith)) (omega arith)

  next_q_eq : (q : ℕ) → q + 1 < 2 ^ 32 → next_q q ≡ q + 1
  next_q_eq q h = omega arith

  -- The end of a call, with the reserved record in the active slot.
  sign_reserved-After :
      (n q tx : ℕ) (rest : List ℕ) (f : DoSign H) (s : Sec H)
      → Safe dev n s
      → (slot s s.active).bytes ≡ encode_body reserved q tx ++ rest
      → n ≤ q
      → q + 1 < 2 ^ 32
      → After n (sign_reserved dev f q s)
  unfolding sign_reserved
  sign_reserved-After n q tx rest f s v e bound hq =
      rw (next_q_eq q hq) (elim (Bool-cases (run_sign f q s).1) [
        | inr failed ↦ rw failed (burn (run_sign f q s).0 v')
        | inl signed ↦ rw signed (elim (state_commit-Outcome dev (run_sign f q s).0 idle (q + 1)) [
          | inl (c, done) ↦
              rw done (bound, committed-Safe n q tx rest (slot_of_run_sign q f s ∙ e) hq c)
          | inr (k, failed) ↦ rw failed (burn _ (burn (run_sign f q s).0 v'))
        ])
      ])
    where
      v' : Safe dev n (run_sign f q s).0
      v' = run_sign-Safe n q f s v

      burn : (t : Sec H) → Safe dev n t → Safe dev n (state_commit dev t idle (q + 1)).0
      burn t w =
          state_commit-Safe dev n t idle (q + 1) w (omega arith) (omega arith)
            (λ r. absurd (omega arith)) (omega arith)

  reserve_and_sign-After :
      (n : ℕ) (f : DoSign H) (s : Sec H)
      → s.ctr + 1 < 2 ^ 32
      → n ≤ s.ctr
      → Safe dev n s
      → After n (reserve_and_sign dev f s)
  unfolding reserve_and_sign
  reserve_and_sign-After n f s hq bound v = elim (state_commit-Outcome dev s reserved s.ctr) [
    | inl (c, done) ↦ rw done (
        sign_reserved-After n s.ctr _ _ f _ reserving
          (subst
            (λ k.
              (slot s1 k).bytes ≡ encode_body reserved s.ctr s1.last_tx ++ take state_tag_len c.tag)
            (sym c.active) c.stored)
          bound hq)
    | inr (k, failed) ↦ rw failed (
        state_commit-Safe dev n s1 idle (next_q s.ctr) reserving (omega arith) (omega arith)
          (λ r. absurd (omega arith)) (omega arith))
  ]
    where
      s1 : Sec H
      s1 = (state_commit dev s reserved s.ctr).0

      reserving : Safe dev n s1
      reserving =
          state_commit-Safe dev n s reserved s.ctr v (omega arith) (omega arith) (λ _. hq) bound

  -- With a limit below 2^32, from a safe state of bound `n`: where sec_sign releases an index `q`, `q`
  -- is at least `n` and the state after is safe with bound `q + 1`; in all other cases, failed
  -- reservations, signatures and commits included, the state after is safe with bound `n`.
  pub sec_sign-After :
      (n max_ctr : ℕ) (f : DoSign H) (s : Sec H)
      → max_ctr < 2 ^ 32
      → Safe dev n s
      → After n (sec_sign dev max_ctr f s)
  unfolding sec_sign
  sec_sign-After n max_ctr f s hm v =
      if_cases (After n) (s.state == error_locked) (λ _. v)
        λ _.
          if_cases (After n) (not (s.state == idle)) (λ _. v)
            λ ready.
              if_cases (After n) (not s.key_loaded) (λ _. v)
                λ _.
                  if_cases (After n) (max_ctr == 0 || leb max_ctr s.ctr)
                    (λ _. Safe-of_bytes dev v refl refl (λ _ _. idle_counter ready))
                    λ room. reserve_and_sign-After n f s (ground arith) (idle_counter ready) v
    where
      idle_counter : not (s.state == idle) ≡ false → n ≤ s.ctr
      idle_counter e = v.counter (ground arith) (ground arith)
