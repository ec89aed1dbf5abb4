-- ===== src/SecState/Record.antt =====
-- STATE_REC of fw/lms_sec_state.c: encoding, tag, validation.
pub mod Laws
use sec_lms.Prelude.{
  ℕ, ◌+◌, Bool, true, false, not, List, [], ◌∷◌, ◌++◌, Option, none, some, take, drop, replicate,
  ◌==◌, if◌then◌else◌, ◌&&◌,
}
use sec_lms.Prelude.Bytes.{put_be32, put_be16, get_be32, get_be16, same_bytes}
use sec_lms.SecState.{
  Device, SlotId, slot_num, Slot, Sec, slot, put_slot, state_tag_len, state_rec_len,
}

-- SEC_MAGIC_STATE, "LMSS".
abbrev pub magic_state : ℕ
magic_state = 0x4c4d5353

-- encode_body: magic, state, counter, transaction, and the reserved region of zeros.
unfoldable pub encode_body : ℕ → ℕ → ℕ → List ℕ
encode_body state ctr tx_id =
    put_be32 magic_state ++ (put_be16 state ++ (put_be32 ctr ++ (put_be32 tx_id ++ replicate 34 0)))

-- SEC_OFF_TAG.
abbrev pub tag_of : List ℕ → List ℕ
tag_of rec = take state_tag_len (drop 48 rec)

-- The body of a record: the bytes before SEC_OFF_TAG.
abbrev pub body_of : List ℕ → List ℕ
body_of rec = take 48 rec

-- The fields of a record, at SEC_OFF_STATE, SEC_OFF_CTR and SEC_OFF_TXID.
abbrev pub rec_state : List ℕ → ℕ
rec_state rec = get_be16 rec 4

abbrev pub rec_ctr : List ℕ → ℕ
rec_ctr rec = get_be32 rec 6

abbrev pub rec_tx : List ℕ → ℕ
rec_tx rec = get_be32 rec 10

module _ {H : Type 0} where
  -- Writes sec_rec_diag.
  abbrev pub set_diag : Sec H → SlotId → ℕ → Sec H
  set_diag s i d = put_slot s i (record (slot s i) { diag = d })

  -- The end of rec_valid, with the tag that the hardware computed.
  abbrev tag_matches : Sec H → List ℕ → SlotId → Option (List ℕ) → Sec H × Bool
  tag_matches s rec i none = (set_diag s i 3, false)
  tag_matches s rec i (some tag) =
      if same_bytes tag (tag_of rec) then (set_diag s i 0, true) else (set_diag s i 4, false)

  -- rec_valid_check, against a tag at hand.
  unfoldable pub rec_valid_check : Sec H → List ℕ → SlotId → List ℕ → Sec H × Bool
  rec_valid_check s rec i expected_tag =
      if get_be32 rec 0 == magic_state
      then (if same_bytes (tag_of rec) (take state_tag_len expected_tag)
          then (set_diag s i 0, true)
          else (set_diag s i 4, false))
      else (set_diag s i 1, false)

module _ {H : Type 0} (dev : Device H) where
  -- compute_tag: the tag is the first 16 bytes of the HMAC of body and slot number.
  unfoldable pub compute_tag : Sec H → List ℕ → SlotId → Sec H × Option (List ℕ)
  compute_tag s body i =
      let (h, full) = dev.hmac_kstate s.hw (body ++ (slot_num i ∷ [])) in
      (record s { hw = h }, elim full [ none ↦ none | some d ↦ some (take state_tag_len d) ])

  -- rec_valid, which computes the tag anew.
  unfoldable pub rec_valid : Sec H → List ℕ → SlotId → Sec H × Bool
  unfolding compute_tag
  rec_valid s rec i =
      let (s', tag) = compute_tag s (body_of rec) i in
      if get_be32 rec 0 == magic_state then tag_matches s' rec i tag else (set_diag s i 1, false)

-- Every byte is zero.
abbrev pub all_zero : List ℕ → Bool
all_zero [] = true
all_zero (x ∷ xs) = (x == 0) && all_zero xs

-- slots_all_zero.
abbrev pub slots_all_zero : {H : Type 0} → Sec H → Bool
slots_all_zero s =
    all_zero (take state_rec_len (s.a.bytes)) && all_zero (take state_rec_len (s.b.bytes))
