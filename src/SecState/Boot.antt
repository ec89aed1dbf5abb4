-- ===== src/SecState/Boot.antt =====
-- sec_boot of fw/lms_sec_state.c: keys from the PUF, selection of a slot, the burn of a reserved
-- index.
use sec_lms.Prelude.{
  ℕ, ◌+◌, ◌%◌, ◌^◌, Bool, true, false, not, ◌&&◌, ◌||◌, List, take, ltb, ◌==◌, if◌then◌else◌,
}
use sec_lms.Prelude.Bytes.{same_bytes}
use sec_lms.SecState.{
  Build, Device, SlotId, slot_a, slot_b, Sec, slot, error_locked, idle, reserved, exhausted,
  pending, booting,
}
use sec_lms.SecState.Record.{rec_valid, body_of, slots_all_zero, rec_state, rec_ctr, rec_tx}
use sec_lms.SecState.Keys.{load_keys, i_len}
use sec_lms.SecState.Commit.{state_commit}

-- What the two validations and transactions decide: `chosen`, or the refusal of two records of one
-- transaction that differ.
pub data Choice : Type 0 where
  chosen : SlotId → Choice
  no_slot conflict : Choice

unfoldable pub choose : List ℕ → List ℕ → Bool → Bool → Choice
choose a b true true =
    if rec_tx a == rec_tx b
    then (if same_bytes (body_of a) (body_of b) then chosen slot_a else conflict)
    else if ltb (rec_tx b) (rec_tx a)
    then chosen slot_a
    else chosen slot_b
choose a b true false = chosen slot_a
choose a b false true = chosen slot_b
choose a b false false = no_slot

module _ {H : Type 0} where
  abbrev pub lock : Sec H → Sec H
  lock s = record s { state = error_locked }

  -- The chosen slot becomes the active one.
  abbrev pub adopt : Sec H → SlotId → Bool → Bool → Sec H
  adopt s i valid_a valid_b = record s {
    active = i;
    a = record (s.a) { valid = valid_a };
    b = record (s.b) { valid = valid_b };
    last_tx = rec_tx (slot s i).bytes;
  }

  -- With no valid record: a fresh device starts at 0, one with a history is locked.
  unfoldable pub no_record : Sec H → Sec H
  no_record s =
      if s.factory_locked
      then (if slots_all_zero s then record s { state = idle; ctr = 0 } else lock s)
      else s

  -- "BOOT success proves the device is initialized."
  abbrev pub mark_initialized : Sec H → Sec H
  mark_initialized s =
      if s.state == error_locked || s.state == booting
      then s
      else record s { factory_locked = true }

module _ {H : Type 0} (dev : Device H) where
  -- The record that was chosen becomes the state; a reserved index is burnt.
  unfoldable pub restore : Sec H → SlotId → Bool → Bool → Sec H
  restore s i valid_a valid_b =
      let rec = (slot s i).bytes in
      let s1 = adopt s i valid_a valid_b in
      let (s2, burnt) = state_commit dev s1 idle ((rec_ctr rec + 1) % 2 ^ 32) in
      if rec_state rec == reserved
      then (if burnt then s2 else lock s2)
      else if rec_state rec == pending
      then record s1 { keygen_pending = true; state = pending; ctr = rec_ctr rec }
      else if rec_state rec == idle || rec_state rec == exhausted
      then record s1 { state = rec_state rec; ctr = rec_ctr rec }
      else lock s1

  abbrev pub settle : Sec H → Choice → Bool → Bool → Sec H
  settle s (chosen i) valid_a valid_b = restore s i valid_a valid_b
  settle s no_slot valid_a valid_b = no_record s
  settle s conflict valid_a valid_b = lock s

  -- The second half of sec_boot, from the validation of both slots on.
  unfoldable pub recover : Sec H → Sec H
  recover s =
      let (s1, valid_a) = rec_valid dev s (s.a.bytes) slot_a in
      let (s2, valid_b) = rec_valid dev s1 (s.b.bytes) slot_b in
      let s3 = record s2 {
        a = record (s2.a) { boot_valid = valid_a };
        b = record (s2.b) { boot_valid = valid_b };
      } in
      mark_initialized (settle s3 (choose (s.a.bytes) (s.b.bytes) valid_a valid_b) valid_a valid_b)

  -- The unwrapping of the seed in a deploy build, then the recovery.
  unfoldable pub boot_keyed : Build → Sec H → Sec H
  boot_keyed build s =
      let (h, unwrapped) = dev.unwrap_seed s.hw s.wrapped_blob in
      let s' = record s { hw = h; factory_locked = true } in
      if not build.test_mode && s.wrapped_valid
      then (if unwrapped then recover s' else lock s')
      else recover s

  -- sec_boot. Its result is the field `state`.
  unfoldable pub sec_boot : Build → Sec H → List ℕ → Sec H
  sec_boot build s I =
      let (s', loaded) = load_keys dev (record s { state = booting; key_I = take i_len I }) in
      if not loaded then lock s' else boot_keyed build (record s' { key_loaded = true })
