-- ===== src/Lms.antt =====
-- The LMS scheme of src/ and include/: status codes, constants, keys, and results.
pub mod Results
pub mod Params
pub mod Codec
pub mod Coef
pub mod Hash
pub mod Ots
pub mod Tree
pub mod Sign
pub mod Verify
pub mod Coprocess
pub mod Subtree
pub mod Tests
use sec_lms.Prelude.{arith, ℕ, ◌+◌, ◌≡◌, refl, Bool, true, false, List, Option, none, some}

-- The errors of lms_status_t; LMS_OK is `ok` of a result.
pub data Error : Type 0 where
  invalid buffer_too_small exhausted verify : Error

pub data Result {ℓ} (A : Type ℓ) : Type ℓ where
  err : (code : Error) → Result A
  ok : (value : A) → Result A

-- LMS_N, LMS_I_LEN, LMS_SEED_LEN, and the lengths of the encoded keys.
abbrev pub lms_n : ℕ
lms_n = 32

abbrev pub i_len : ℕ
i_len = 16

abbrev pub seed_len : ℕ
seed_len = 32

abbrev pub public_key_len : ℕ
public_key_len = 4 + 4 + i_len + lms_n

abbrev pub private_key_len : ℕ
private_key_len = 4 + 4 + i_len + seed_len + 4

-- `if (call != LMS_OK) return e;`
abbrev pub or_fail {ℓ} : {A : Type ℓ} → Result A → Error → Result A
or_fail (err _) code = err code
or_fail (ok value) code = ok value

-- `if (!test) return e;`
abbrev pub guard : (test : Bool) (code : Error) → Result (Unit {0})
guard false code = err code
guard true code = ok tt

-- A call, then the rest of the function with what the call gave, unless it failed.
infixl 5 ◌>>=◌
abbrev pub ◌>>=◌ {ℓ κ} : {V : Type ℓ} {W : Type κ} → Result V → (V → Result W) → Result W
err code >>= rest = err code
ok value >>= rest = rest value

infixl 5 ◌>>◌
abbrev pub ◌>>◌ {κ} : {W : Type κ} → Result (Unit {0}) → Result W → Result W
first >> rest = first >>= λ _. rest

-- lms_hash_alg_t.
pub data HashAlg : Type 0 where
  sha256 shake256 haraka : HashAlg

-- `==` of two algorithms.
abbrev pub same_alg : HashAlg → HashAlg → Bool
same_alg sha256 sha256 = true
same_alg shake256 shake256 = true
same_alg haraka haraka = true
same_alg _ _ = false

pub same_alg_sound : (a b : HashAlg) → same_alg a b ≡ true → a ≡ b
same_alg_sound a b h = ground arith

pub same_alg_refl : (a : HashAlg) → same_alg a a ≡ true
same_alg_refl sha256 = refl
same_alg_refl shake256 = refl
same_alg_refl haraka = refl

-- lms_public_key_t and lms_private_key_t. The arrays are lists of their declared lengths.
pub record PublicKey : Type 0 where
  pub lms_type : ℕ
  pub lmots_type : ℕ
  pub I : List ℕ
  pub root : List ℕ

pub record PrivateKey : Type 0 where
  pub lms_type : ℕ
  pub lmots_type : ℕ
  pub I : List ℕ
  pub seed : List ℕ
  pub q : ℕ
