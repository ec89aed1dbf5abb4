-- ===== src/SecState/Commit/Laws.antt =====
-- What state_commit and commit_finish of fw/lms_sec_state.c change, and what they leave alone.
use sec_lms.Prelude.{
  ℕ, zero, suc, ◌<◌, ◌≡◌, refl, ap, ◌⊎◌, inl, inr, Bool, true, false, List, [], ◌∷◌, ◌++◌, take,
  leb, if◌then◌else◌, arith, Bool-cases, Option-cases,
}
use sec_lms.Prelude.Bytes.{same_bytes_refl}
use sec_lms.SecState.{
  Device, SlotId, slot_a, slot_b, slot_num, other, Sec, slot, put_slot, state_tag_len,
}
use sec_lms.SecState.Record.{encode_body, compute_tag, rec_valid_check}
use sec_lms.SecState.Commit.{
  commit_finish, fused_commit, two_step_tag, two_step_commit, state_commit, set_valid,
}

take-take {ℓ} : {A : Type ℓ} (n : ℕ) (xs : List A) → take n (take n xs) ≡ take n xs
take-take zero xs = refl
take-take (suc n) [] = refl
take-take (suc n) (x ∷ xs) = ap (λ r. x ∷ r) (take-take n xs)

-- The variables that no commit touches.
pub record Frame {H : Type 0} (s t : Sec H) : Type 0 where
  pub factory_locked : t.factory_locked ≡ s.factory_locked
  pub key_loaded : t.key_loaded ≡ s.key_loaded
  pub key_I : t.key_I ≡ s.key_I
  pub wrapped_valid : t.wrapped_valid ≡ s.wrapped_valid
  pub key_index : t.key_index ≡ s.key_index

-- A commit that succeeds.
pub record Commits {H : Type 0} (s : Sec H) (new_state ctr : ℕ) (t : Sec H) : Type 0 where
  pub active : t.active ≡ other s.active
  pub state : t.state ≡ new_state
  pub ctr_set : t.ctr ≡ ctr
  pub tx_grows : s.last_tx < t.last_tx
  pub kept : (slot t s.active).bytes ≡ (slot s s.active).bytes
  pub tag : List ℕ
  pub stored :
      (slot t (other s.active)).bytes
      ≡ encode_body new_state ctr t.last_tx ++ take state_tag_len tag
  pub valid : (slot t (other s.active)).valid ≡ true
  pub frame : Frame s t

-- A commit that fails.
pub record Keeps {H : Type 0} (s t : Sec H) : Type 0 where
  pub active : t.active ≡ s.active
  pub state : t.state ≡ s.state
  pub ctr : t.ctr ≡ s.ctr
  pub last_tx : t.last_tx ≡ s.last_tx
  pub a : t.a.bytes ≡ s.a.bytes
  pub b : t.b.bytes ≡ s.b.bytes
  pub frame : Frame s t

abbrev pub Outcome : {H : Type 0} → Sec H → ℕ → ℕ → Sec H × Bool → Type 0
Outcome s new_state ctr (t, done) =
    (Commits s new_state ctr t × (done ≡ true)) ⊎ (Keeps s t × (done ≡ false))

module _ {H : Type 0} where
  -- A record that was just encoded passes the check after the write.
  rec_valid_check-encode_body :
      (s : Sec H) (i : SlotId) (new_state ctr tx : ℕ) (tag : List ℕ)
      → (rec_valid_check s (encode_body new_state ctr tx ++ take state_tag_len tag) i tag)
        ≡ (put_slot s i (record (slot s i) { diag = 0 }), true)
  unfolding rec_valid_check encode_body
  rec_valid_check-encode_body s i new_state ctr tx tag =
      rw (take-take state_tag_len tag, same_bytes_refl (take state_tag_len tag))

  -- What a successful commit_finish leaves.
  abbrev pub installed : Sec H → SlotId → ℕ → ℕ → ℕ → List ℕ → Sec H
  installed s i new_state ctr tx tag =
      record (put_slot s i (record (slot s i) {
        bytes = encode_body new_state ctr tx ++ take state_tag_len tag;
        valid = true;
        diag = 0;
      })) { active = i; last_tx = tx; state = new_state; ctr = ctr }

  pub commit_finish-eq :
      (s : Sec H) (i : SlotId) (new_state ctr tx : ℕ) (tag : List ℕ)
      → commit_finish s i new_state ctr tx tag
        ≡ (if leb tx s.last_tx then (s, false) else (installed s i new_state ctr tx tag, true))
  unfolding commit_finish
  commit_finish-eq s slot_a new_state ctr tx tag =
      rw (rec_valid_check-encode_body _ slot_a new_state ctr tx tag)
  commit_finish-eq s slot_b new_state ctr tx tag =
      rw (rec_valid_check-encode_body _ slot_b new_state ctr tx tag)

  installed-Commits :
      (s : Sec H) (i : SlotId) (new_state ctr tx : ℕ) (tag : List ℕ)
      → i ≡ other s.active
      → s.last_tx < tx
      → Commits s new_state ctr (installed s i new_state ctr tx tag)
  installed-Commits s slot_a new_state ctr tx tag e lt = record {
    active = e;
    state = refl;
    ctr_set = refl;
    tx_grows = lt;
    kept = ground arith;
    tag = tag;
    stored = ground arith;
    valid = ground arith;
    frame = ground arith;
  }
  installed-Commits s slot_b new_state ctr tx tag e lt = record {
    active = e;
    state = refl;
    ctr_set = refl;
    tx_grows = lt;
    kept = ground arith;
    tag = tag;
    stored = ground arith;
    valid = ground arith;
    frame = ground arith;
  }

  commit_finish-Outcome :
      (s : Sec H) (i : SlotId) (new_state ctr tx : ℕ) (tag : List ℕ)
      → i ≡ other s.active
      → Outcome s new_state ctr (commit_finish s i new_state ctr tx tag)
  commit_finish-Outcome s i new_state ctr tx tag e =
      rw (commit_finish-eq s i new_state ctr tx tag) (elim (Bool-cases (leb tx s.last_tx)) [
        | inl h ↦ rw h (inr (ground arith, refl))
        | inr h ↦ rw h (inl (installed-Commits s i new_state ctr tx tag e (ground arith), refl))
      ])

  -- The hardware's state and a slot's flag do not matter for what a commit keeps.
  Outcome-of_hw :
      (s : Sec H) (h : H) (new_state ctr : ℕ) (r : Sec H × Bool)
      → Outcome (record s { hw = h }) new_state ctr r
      → Outcome s new_state ctr r
  Outcome-of_hw s h new_state ctr (t, done) (inl (c, e)) = inl (
    record {
      active = c.active;
      state = c.state;
      ctr_set = c.ctr_set;
      tx_grows = c.tx_grows;
      kept = c.kept;
      tag = c.tag;
      stored = c.stored;
      valid = c.valid;
      frame = ground arith;
    },
    e,
  )
  Outcome-of_hw s h new_state ctr (t, done) (inr (k, e)) = inr (ground arith, e)

module _ {H : Type 0} (dev : Device H) where
  fused_commit-Outcome :
      (s : Sec H) (new_state ctr : ℕ) → Outcome s new_state ctr (fused_commit dev s new_state ctr)
  unfolding fused_commit
  fused_commit-Outcome s new_state ctr =
      let i = other s.active in
      let (h, r) = dev.state_commit s.hw new_state ctr (slot_num i) in
      elim (Option-cases r) [
        | inl e ↦ rw (e, fused_commit) (inr (ground arith, refl))
        | inr ((tx, tag), e) ↦
            rw (e, fused_commit)
              (Outcome-of_hw s h new_state ctr _
                (commit_finish-Outcome (record s { hw = h }) i new_state ctr tx tag refl))
      ]

  two_step_tag-Outcome :
      (s : Sec H) (i : SlotId) (new_state ctr tx : ℕ)
      → i ≡ other s.active
      → Outcome s new_state ctr (two_step_tag dev s i new_state ctr tx)
  unfolding two_step_tag compute_tag
  two_step_tag-Outcome s i new_state ctr tx e =
      let (h, r) = dev.hmac_kstate s.hw (encode_body new_state ctr tx ++ (slot_num i ∷ [])) in
      elim (Option-cases r) [
        | inl n ↦ rw (n, two_step_tag) (inr (unflagged h i, refl))
        | inr (d, n) ↦
            rw (n, two_step_tag)
              (Outcome-of_hw s h new_state ctr _ (
                commit_finish-Outcome (record s { hw = h }) i new_state ctr tx
                  (take state_tag_len d) e))
      ]
    where
      unflagged : (h : H) (i : SlotId) → Keeps s (set_valid (record s { hw = h }) i false)
      unflagged h slot_a = ground arith
      unflagged h slot_b = ground arith

  two_step_commit-Outcome :
      (s : Sec H) (new_state ctr : ℕ)
      → Outcome s new_state ctr (two_step_commit dev s new_state ctr)
  unfolding two_step_commit
  two_step_commit-Outcome s new_state ctr =
      let (h, r) = dev.mc_step s.hw in
      elim (Option-cases r) [
        | inl n ↦ rw (n, two_step_commit) (inr (ground arith, refl))
        | inr (tx, n) ↦
            rw (n, two_step_commit)
              (elim (Bool-cases (leb tx s.last_tx)) [
                | inl old ↦ rw old (inr (ground arith, refl))
                | inr new ↦ rw new (
                    Outcome-of_hw s h new_state ctr _ (
                      two_step_tag-Outcome (record s { hw = h }) (other s.active) new_state ctr tx
                        refl))
              ])
      ]

  -- state_commit either succeeds, and the other slot is active, valid, and holds the new state, the
  -- counter, a transaction number greater than the last and a tag, the state and the counter being
  -- those in memory, and the slot that was active as it was; or it fails, and the bytes of both slots,
  -- the state, the counter and the last transaction are as they were. What else it must not touch is
  -- as it was in both cases.
  pub state_commit-Outcome :
      (s : Sec H) (new_state ctr : ℕ) → Outcome s new_state ctr (state_commit dev s new_state ctr)
  unfolding state_commit
  state_commit-Outcome s new_state ctr = elim (Bool-cases (dev.cap_state_commit s.hw)) [
    | inl e ↦ rw e (fused_commit-Outcome s new_state ctr)
    | inr e ↦ rw e (two_step_commit-Outcome s new_state ctr)
  ]
