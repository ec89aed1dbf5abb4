-- ===== src/SecState/Keys.antt =====
-- The key hierarchy of fw/lms_sec_state.c: the simulated PUF, the KDF, KEYGEN, KEYGEN_NEW and
-- FACTORY_INIT. The copies of key material that the code clears are not kept.
pub mod Laws
use sec_lms.Prelude.{
  ℕ, suc, zero, ◌+◌, ◌%◌, ◌^◌, Bool, true, false, not, ◌&&◌, List, [], ◌∷◌, ◌++◌, Option, none,
  some, take, replicate, if◌then◌else◌,
}
use sec_lms.SecState.{
  Build, Device, Slot, Sec, slot_a, idle, Code, ok, err_auth, err_factory_locked, err_unsupported,
  state_rec_len,
}

-- The bytes `from`, `from + 1`, ..., `n` of them, each cut to eight bits.
abbrev pub counted : ℕ → ℕ → List ℕ
counted from zero = []
counted from (suc n) = (from % 256) ∷ counted (from + 1) n

-- sim_puf_read.
abbrev pub sim_puf : List ℕ
sim_puf = counted 0x60 32

-- The helper data of fe_gen.
abbrev pub fe_helper : List ℕ
fe_helper = counted 0xa0 32

-- "LMS-FE", SEC_KDF_DOMAIN, SEC_KDF_LABEL_WRAP and SEC_KDF_LABEL_STATE.
abbrev fe_domain : List ℕ
fe_domain = b'L' ∷ b'M' ∷ b'S' ∷ b'-' ∷ b'F' ∷ b'E' ∷ []

abbrev kdf_domain : List ℕ
kdf_domain = b'L' ∷ b'M' ∷ b'S' ∷ b'-' ∷ b'K' ∷ b'D' ∷ b'F' ∷ []

abbrev pub label_wrap : List ℕ
label_wrap = b'w' ∷ b'r' ∷ b'a' ∷ b'p' ∷ []

abbrev pub label_state : List ℕ
label_state = b's' ∷ b't' ∷ b'a' ∷ b't' ∷ b'e' ∷ []

-- LMS_MMIO_KEY_KWRAP and LMS_MMIO_KEY_KSTATE.
abbrev pub key_kwrap : ℕ
key_kwrap = 1

abbrev pub key_kstate : ℕ
key_kstate = 2

-- LMS_I_LEN, LMS_SEED_LEN and LMS_MMIO_WRAPPED_LEN.
abbrev pub i_len : ℕ
i_len = 16

abbrev pub seed_len : ℕ
seed_len = 32

abbrev pub wrapped_len : ℕ
wrapped_len = 48

module _ {H : Type 0} where
  keep_blob : Sec H → Option (List ℕ) → Sec H × Bool
  keep_blob s none = (s, false)
  keep_blob s (some w) =
      (record s { wrapped_blob = take wrapped_len w; wrapped_valid = true }, true)

module _ {H : Type 0} (dev : Device H) where
  -- The K_DEV of fe_gen, and of fe_rep, which computes it in the same way.
  abbrev fe_key : List ℕ → ℕ → List ℕ
  fe_key puf_resp ctx = dev.sha256 (fe_domain ++ (puf_resp ++ (ctx ∷ [])))

  -- sec_kdf.
  unfoldable pub sec_kdf : List ℕ → List ℕ → List ℕ → List ℕ
  sec_kdf k_dev I label =
      dev.sha256 (kdf_domain ++ (0 ∷ (label ++ (0 ∷ (take i_len I ++ (0 ∷ take 32 k_dev))))))

  -- sec_load_hw_keys_i.
  unfoldable pub load_hw_keys : H → List ℕ → List ℕ → H × Bool
  load_hw_keys h k_dev I =
      let (h1, wrap) = dev.key_slot_load_test h key_kwrap (sec_kdf k_dev I label_wrap) in
      if wrap
      then dev.key_slot_load_test h1 key_kstate (sec_kdf k_dev I label_state)
      else (h1, false)

  -- The keys of the active identifier, from the PUF.
  unfoldable pub load_keys : Sec H → Sec H × Bool
  load_keys s =
      let (h, good) = load_hw_keys s.hw (fe_key sim_puf 0) s.key_I in (record s { hw = h }, good)

  -- The end of the key generations: the wrapped seed is kept.
  wrap_into : Sec H → Sec H × Bool
  unfolding keep_blob
  wrap_into s = let (h, r) = dev.wrap_seed s.hw in keep_blob (record s { hw = h }) r

  module _ (build : Build) where
    -- sec_keygen_key: the identifier of the current key, which goes to the caller in `key_I`.
    abbrev sec_keygen_key : Sec H → Sec H × Code
    sec_keygen_key s =
        let (h, I) = dev.rnd s.hw i_len in
        let s0 = if build.test_mode then s else record s { hw = h; key_I = I } in
        let (s1, loaded) = load_keys s0 in
        let (s2, wrapped) = wrap_into s1 in
        if not loaded
        then (s1, err_auth)
        else if not wrapped
        then (s2, err_auth)
        else (record s2 { key_loaded = true }, ok)

    -- The source of the new identifier and seed in sec_keygen_new.
    abbrev new_key_source : Sec H → List ℕ → Sec H × Bool
    new_key_source s I_new =
        let (h1, I) = dev.rnd s.hw i_len in
        let (h2, seed) = dev.rnd h1 seed_len in
        let (h3, good) = dev.seed_load_safe h2 seed in
        if build.test_mode
        then (record s { key_I = take i_len I_new }, true)
        else if build.rnd_trng && dev.trng_fault h2
        then (record s { hw = h2; key_I = replicate i_len 0 }, false)
        else if good
        then (record s { hw = h3; key_I = I }, true)
        else (record s { hw = h3; key_I = replicate i_len 0 }, false)

    -- Steps 3 and 4 of sec_keygen_new: both slots and the counter start anew.
    abbrev reset_for_new_key : Sec H → Sec H
    reset_for_new_key s = record s {
      a = record (s.a) { bytes = replicate state_rec_len 0; valid = false };
      b = record (s.b) { bytes = replicate state_rec_len 0; valid = false };
      active = slot_a;
      state = idle;
      ctr = 0;
      last_tx = 0;
      key_loaded = true;
      factory_locked = true;
      keygen_pending = false;
      key_index = (s.key_index + 1) % 2 ^ 32;
    }

    -- sec_keygen_new.
    abbrev sec_keygen_new : Sec H → List ℕ → Sec H × Code
    sec_keygen_new s I_new =
        let (s0, sourced) = new_key_source s I_new in
        let (s1, loaded) = load_keys s0 in
        let (s2, wrapped) = wrap_into s1 in
        if not sourced
        then (s0, err_auth)
        else if not loaded
        then (s1, err_auth)
        else if not wrapped
        then (s2, err_auth)
        else (reset_for_new_key s2, ok)

    -- sec_factory_init. The second part is what it writes to response[4] and response[20..31].
    pub sec_factory_init : Sec H → List ℕ → Sec H × Code
    sec_factory_init s I =
        let s0 = record s { helper = fe_helper; key_I = take i_len I } in
        let (s1, loaded) = load_keys s0 in
        let (h2, seeded) = dev.seed_load_test s1.hw 0 (counted 0 seed_len) in
        let (s3, wrapped) = wrap_into (record s1 { hw = h2 }) in
        if not build.test_mode
        then (s, err_unsupported)
        else if s.factory_locked
        then (s, err_factory_locked)
        else if not loaded
        then (s1, err_auth)
        else if not seeded
        then (record s1 { hw = h2 }, err_auth)
        else if not wrapped
        then (s3, err_auth)
        else (record s3 { factory_locked = true; keygen_pending = false }, ok)
