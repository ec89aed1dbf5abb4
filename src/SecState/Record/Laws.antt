-- ===== src/SecState/Record/Laws.antt =====
-- Reading back what encode_body of fw/lms_sec_state.c wrote, and what a validation changes.
use sec_lms.Prelude.{
  ℕ, ◌^◌, ◌<◌, ◌≡◌, refl, false, List, ◌++◌, Option, none, some, ◌==◌, arith, Bool-cases, ◌≢◌, inl,
  inr, and_false,
}
use sec_lms.Prelude.Bytes.{get_be32, same_bytes}
use sec_lms.SecState.{Device, SlotId, slot_a, slot_b, Sec, slot}
use sec_lms.SecState.Record.{
  encode_body, rec_state, rec_ctr, rec_tx, magic_state, rec_valid, compute_tag, tag_of,
  slots_all_zero, set_diag, tag_matches,
}

-- The fields of a record, state, counter and transaction in their ranges, are read back as they were
-- written, with the magic, whatever stands behind the body.
pub encode_body_fields :
    (state ctr tx : ℕ) (rest : List ℕ)
    → state < 2 ^ 16
    → ctr < 2 ^ 32
    → tx < 2 ^ 32
    → let rec = encode_body state ctr tx ++ rest in
      (get_be32 rec 0 ≡ magic_state)
      × (rec_state rec ≡ state)
      × (rec_ctr rec ≡ ctr)
      × (rec_tx rec ≡ tx)
unfolding encode_body
encode_body_fields state ctr tx rest hs hc ht = (refl, omega arith, omega arith, omega arith)

-- The same, for what does not depend on the transaction.
pub encode_body_state_ctr :
    (state ctr tx : ℕ) (rest : List ℕ)
    → state < 2 ^ 16
    → ctr < 2 ^ 32
    → let rec = encode_body state ctr tx ++ rest in (rec_state rec ≡ state) × (rec_ctr rec ≡ ctr)
unfolding encode_body
encode_body_state_ctr state ctr tx rest hs hc = (omega arith, omega arith)

module _ {H : Type 0} where
  -- A validation changes the hardware and the diagnosis of the slot.
  pub record Examined (s t : Sec H) : Type 0 where
    pub active : t.active ≡ s.active
    pub state : t.state ≡ s.state
    pub ctr : t.ctr ≡ s.ctr
    pub last_tx : t.last_tx ≡ s.last_tx
    pub a : t.a.bytes ≡ s.a.bytes
    pub b : t.b.bytes ≡ s.b.bytes
    pub factory_locked : t.factory_locked ≡ s.factory_locked
    pub key_loaded : t.key_loaded ≡ s.key_loaded

  diag-Examined :
      (s : Sec H) (h : H) (i : SlotId) (d : ℕ) → Examined s (set_diag (record s { hw = h }) i d)
  diag-Examined s h slot_a d = ground arith
  diag-Examined s h slot_b d = ground arith

  tag_matches-Examined :
      (s : Sec H) (h : H) (rec : List ℕ) (i : SlotId) (tag : Option (List ℕ))
      → Examined s (tag_matches (record s { hw = h }) rec i tag).0
  tag_matches-Examined s h rec i none = diag-Examined s h i 3
  tag_matches-Examined s h rec i (some tag) = elim (Bool-cases (same_bytes tag (tag_of rec))) [
    | inl e ↦ rw e (diag-Examined s h i 0)
    | inr e ↦ rw e (diag-Examined s h i 4)
  ]

  module _ (dev : Device H) where
    pub rec_valid-Examined :
        (s : Sec H) (rec : List ℕ) (i : SlotId) → Examined s (rec_valid dev s rec i).0
    unfolding rec_valid compute_tag
    rec_valid-Examined s rec i = elim (Bool-cases (get_be32 rec 0 == magic_state)) [
      | inl e ↦ rw e (tag_matches-Examined s _ rec i _)
      | inr e ↦ rw e (diag-Examined s s.hw i 1)
    ]

    -- Only a record with the magic is valid.
    pub rec_valid_magic :
        (s : Sec H) (rec : List ℕ) (i : SlotId)
        → get_be32 rec 0 ≢ magic_state
        → (rec_valid dev s rec i).1 ≡ false
    unfolding rec_valid
    rec_valid_magic s rec i h = elim (Bool-cases (get_be32 rec 0 == magic_state)) [
      | inl e ↦ absurd (h (ground arith))
      | inr e ↦ rw e refl
    ]

  -- A slot with an encoded record is not all zero.
  pub written_not_zero :
      (s : Sec H) (i : SlotId) (state ctr tx : ℕ) (rest : List ℕ)
      → (slot s i).bytes ≡ encode_body state ctr tx ++ rest
      → slots_all_zero s ≡ false
  unfolding encode_body
  written_not_zero s slot_a state ctr tx rest e = rw e refl
  written_not_zero s slot_b state ctr tx rest e = rw e (and_false _)
