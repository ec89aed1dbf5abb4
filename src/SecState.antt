-- ===== src/SecState.antt =====
-- The security state domain of the firmware (fw/lms_sec_state.c, fw/lms_sec_state.h): its static
-- variables, the hardware that it drives, and the constants of its interface.
pub mod Record
pub mod Keys
pub mod Commit
pub mod Sign
pub mod Boot
pub mod Uart
pub mod Safety
pub mod Trace
pub mod Limits
pub mod Progress
mod Tests
use sec_lms.Prelude.{ℕ, Bool, true, false, List, Option, replicate, ◌≡◌, refl, ◌⊎◌, inl, inr}

-- The switches of a build: LMS_FW_SEC_TEST_MODE and LMS_RND_IMPL_TRNG.
pub record Build : Type 0 where
  pub test_mode : Bool
  pub rnd_trng : Bool

-- What the domain calls. `H` is the state of the hardware behind the MMIO client. A call returns
-- the next state, and nothing, or `false`, where the C function does not return LMS_MMIO_OK.
-- `sha256` is the digest of all bytes given to SHA256_Update.
pub record Device (H : Type 0) : Type 0 where
  pub cap_state_commit : H → Bool
  pub state_commit : H → ℕ → ℕ → ℕ → H × Option (ℕ × List ℕ)
  pub mc_step : H → H × Option ℕ
  pub mc_load : H → ℕ → H × Bool
  pub hmac_kstate : H → List ℕ → H × Option (List ℕ)
  pub key_slot_load_test : H → ℕ → List ℕ → H × Bool
  pub seed_load_test : H → ℕ → List ℕ → H × Bool
  pub seed_load_safe : H → List ℕ → H × Bool
  pub wrap_seed : H → H × Option (List ℕ)
  pub unwrap_seed : H → List ℕ → H × Bool
  pub rnd : H → ℕ → H × List ℕ
  pub trng_fault : H → Bool
  pub sha256 : List ℕ → List ℕ

-- The two slots, A and B.
pub data SlotId : Type 0 where
  slot_a slot_b : SlotId

-- The number of a slot, which is also the AAD of its tag.
abbrev pub slot_num : SlotId → ℕ
slot_num slot_a = 0
slot_num slot_b = 1

-- `1u - sec_active_slot`.
abbrev pub other : SlotId → SlotId
other slot_a = slot_b
other slot_b = slot_a

pub slot_cases : (i j : SlotId) → (i ≡ j) ⊎ (i ≡ other j)
slot_cases slot_a slot_a = inl refl
slot_cases slot_a slot_b = inr refl
slot_cases slot_b slot_a = inr refl
slot_cases slot_b slot_b = inl refl

-- The entries of sec_slots, sec_slot_valid, sec_boot_valid and sec_rec_diag at one index.
pub record Slot : Type 0 where
  pub bytes : List ℕ
  pub valid : Bool
  pub boot_valid : Bool
  pub diag : ℕ

-- The module's static variables, and the hardware.
pub record Sec (H : Type 0) : Type 0 where
  pub hw : H
  pub a : Slot
  pub b : Slot
  pub active : SlotId
  pub state : ℕ
  pub ctr : ℕ
  pub last_tx : ℕ
  pub factory_locked : Bool
  pub key_loaded : Bool
  pub keygen_pending : Bool
  pub helper : List ℕ
  pub wrapped_blob : List ℕ
  pub wrapped_valid : Bool
  pub key_I : List ℕ
  pub key_index : ℕ

module _ {H : Type 0} where
  abbrev pub slot : Sec H → SlotId → Slot
  slot s slot_a = s.a
  slot s slot_b = s.b

  abbrev pub put_slot : Sec H → SlotId → Slot → Sec H
  put_slot s slot_a x = record s { a = x }
  put_slot s slot_b x = record s { b = x }

-- The states of the machine, SEC_ST_*.
abbrev pub error_locked : ℕ
error_locked = 0

abbrev pub idle : ℕ
idle = 1

abbrev pub reserved : ℕ
reserved = 2

abbrev pub pending : ℕ
pending = 3

abbrev pub exhausted : ℕ
exhausted = 4

abbrev pub booting : ℕ
booting = 5

-- SEC_STATE_REC_LEN and SEC_STATE_TAG_LEN.
abbrev pub state_rec_len : ℕ
state_rec_len = 64

abbrev pub state_tag_len : ℕ
state_tag_len = 16

-- The error codes, SEC_OK to SEC_ERR_UNSUPPORTED.
pub data Code : Type 0 where
  ok busy err_locked err_commit err_auth err_path err_exhausted err_param : Code
  err_factory_locked err_unsupported : Code

abbrev pub code_num : Code → ℕ
code_num ok = 0
code_num busy = 1
code_num err_locked = 2
code_num err_commit = 3
code_num err_auth = 4
code_num err_path = 5
code_num err_exhausted = 6
code_num err_param = 7
code_num err_factory_locked = 8
code_num err_unsupported = 9

-- sec_init: only the variables that it writes are new.
unfoldable pub sec_init : {H : Type 0} → Sec H → H → Sec H
sec_init s client = record s {
  hw = client;
  a = record (s.a) { bytes = replicate state_rec_len 0; valid = false };
  b = record (s.b) { bytes = replicate state_rec_len 0; valid = false };
  active = slot_a;
  state = booting;
  ctr = 0;
  last_tx = 0;
  factory_locked = false;
  key_loaded = false;
  keygen_pending = false;
  helper = replicate 32 0;
  key_index = 0;
}
