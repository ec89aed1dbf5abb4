-- ===== src/SecState/Commit.antt =====
-- The STATE_COMMIT primitive of fw/lms_sec_state.c: commit_finish and state_commit.
pub mod Laws
pub mod Reliable
use sec_lms.Prelude.{ℕ, Bool, true, false, List, ◌++◌, Option, none, some, take, leb, if◌then◌else◌}
use sec_lms.SecState.{Device, SlotId, slot_num, other, Slot, Sec, slot, put_slot, state_tag_len}
use sec_lms.SecState.Record.{encode_body, compute_tag, rec_valid_check}

module _ {H : Type 0} where
  -- The bytes of a slot, written in place.
  abbrev write_slot : Sec H → SlotId → List ℕ → Sec H
  write_slot s i rec = put_slot s i (record (slot s i) { bytes = rec })

  abbrev pub set_valid : Sec H → SlotId → Bool → Sec H
  set_valid s i v = put_slot s i (record (slot s i) { valid = v })

  -- commit_finish: the transaction test, the write, the check after it, the switch of slots.
  unfoldable pub commit_finish : Sec H → SlotId → ℕ → ℕ → ℕ → List ℕ → Sec H × Bool
  commit_finish s i new_state ctr tx tag =
      let rec = encode_body new_state ctr tx ++ take state_tag_len tag in
      let (s', good) = rec_valid_check (write_slot s i rec) rec i tag in
      if leb tx s.last_tx
      then (s, false)
      else if good
      then (
        record (set_valid s' i true) { active = i; last_tx = tx; state = new_state; ctr = ctr },
        true,
      )
      else (set_valid s' i false, false)

module _ {H : Type 0} (dev : Device H) where
  -- The fused transaction: the hardware steps its counter and computes the tag.
  fused_commit : Sec H → ℕ → ℕ → Sec H × Bool
  fused_commit s new_state ctr =
      let i = other s.active in
      let (h, r) = dev.state_commit s.hw new_state ctr (slot_num i) in
      elim r [
        | none ↦ (record s { hw = h }, false)
        | some (tx, tag) ↦ commit_finish (record s { hw = h }) i new_state ctr tx tag
      ]

  -- The second half of the fallback: the tag of the body, computed with the slot's number.
  two_step_tag : Sec H → SlotId → ℕ → ℕ → ℕ → Sec H × Bool
  two_step_tag s i new_state ctr tx =
      let (s', r) = compute_tag dev s (encode_body new_state ctr tx) i in
      elim r [
        | none ↦ (set_valid s' i false, false)
        | some tag ↦ commit_finish s' i new_state ctr tx tag
      ]

  -- The fallback without CAP_STATE_COMMIT.
  two_step_commit : Sec H → ℕ → ℕ → Sec H × Bool
  two_step_commit s new_state ctr =
      let (h, r) = dev.mc_step s.hw in
      let s' = record s { hw = h } in
      elim r [
        | none ↦ (s', false)
        | some tx ↦
            if leb tx s.last_tx
            then (s', false)
            else two_step_tag s' (other s.active) new_state ctr tx
      ]

  -- state_commit.
  pub state_commit : Sec H → ℕ → ℕ → Sec H × Bool
  state_commit s new_state ctr =
      if dev.cap_state_commit s.hw
      then fused_commit s new_state ctr
      else two_step_commit s new_state ctr
