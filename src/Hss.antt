-- ===== src/Hss.antt =====
-- The hierarchical scheme of src/hss.c and include/hss.h: its keys and constants.
pub mod Counter
pub mod Levels
pub mod Sign
pub mod Verify
pub mod Ready
pub mod Build
pub mod Certify
pub mod Init
pub mod Chain
pub mod Accepts
pub mod Trust
pub mod Codec
mod Tests
pub mod Renew
pub mod Refresh
use sec_lms.Prelude.{ℕ, ◌+◌, ◌≡◌, ◌≢◌, refl, List, if◌then◌else◌, if_cases, ◌==◌, arith}
use sec_lms.Lms.{public_key_len, PublicKey, PrivateKey}

-- HSS_MAX_LEVELS, HSS_MASTER_SEED_LEN, HSS_GENERATION_LEN, HSS_PUBLIC_KEY_LEN.
abbrev pub max_levels : ℕ
max_levels = 8

abbrev pub master_seed_len : ℕ
master_seed_len = 32

abbrev pub generation_len : ℕ
generation_len = 32

abbrev pub hss_public_key_len : ℕ
hss_public_key_len = 4 + public_key_len

-- An array by its levels, and `array[i] = value`.
abbrev pub put {ℓ} : {A : Type ℓ} → (ℕ → A) → ℕ → A → ℕ → A
put array i value j = if j == i then value else array j

pub put_self {ℓ} : {A : Type ℓ} (array : ℕ → A) (i : ℕ) (value : A) → put array i value i ≡ value
put_self array i value = if_cases (λ r. r ≡ value) (i == i) (λ e. refl) (λ e. absurd (ground arith))

pub put_ne {ℓ} :
    {A : Type ℓ} (array : ℕ → A) (i : ℕ) (value : A) (j : ℕ) → j ≢ i → put array i value j ≡ array j
put_ne array i value j ne =
    if_cases (λ r. r ≡ array j) (j == i) (λ e. absurd (ne (ground arith))) (λ e. refl)

-- hss_public_key_t.
pub record HssPublicKey : Type 0 where
  pub levels : ℕ
  pub root_pub : PublicKey

-- hss_private_key_t. `cert i` is the first cert_len[i] bytes of cert_sig[i].
pub record HssPrivateKey : Type 0 where
  pub levels : ℕ
  pub master_seed : List ℕ
  pub lms_types : ℕ → ℕ
  pub lmots_types : ℕ → ℕ
  pub generation : ℕ → List ℕ
  pub keys : ℕ → PrivateKey
  pub pubs : ℕ → PublicKey
  pub cert : ℕ → List ℕ
