-- ===== src/Lms/Params.antt =====
-- The parameter sets of src/lms_params.c, and the cache in front of their tables.
pub mod Cache
pub mod Matching
use sec_lms.Prelude.{
  ℕ, ◌+◌, ◌*◌, ◌≡◌, Bool, true, false, List, Option, none, some, ◌==◌, if◌then◌else◌,
}
use sec_lms.Lms.{
  Error, invalid, Result, ok, err, ◌>>=◌, ◌>>◌, guard, or_fail, lms_n, HashAlg, sha256, shake256,
  haraka, same_alg, PublicKey, PrivateKey,
}

-- lms_param_t and lmots_param_t.
pub record LmsParam : Type 0 where
  pub type : ℕ
  pub hash_alg : HashAlg
  pub height : ℕ
  pub n : ℕ

pub record LmotsParam : Type 0 where
  pub type : ℕ
  pub hash_alg : HashAlg
  pub n : ℕ
  pub w : ℕ
  pub p : ℕ
  pub ls : ℕ

-- The rows of the two switches.
abbrev pub lms_row : HashAlg → ℕ → ℕ → Result LmsParam
lms_row alg height type = ok (record { type = type; hash_alg = alg; height = height; n = lms_n })

abbrev pub lmots_row : HashAlg → ℕ → ℕ → ℕ → ℕ → Result LmotsParam
lmots_row alg w p ls type =
    ok (record { type = type; hash_alg = alg; n = lms_n; w = w; p = p; ls = ls })

-- The switch of lms_get_lms_param.
unfoldable pub lms_param : ℕ → Result LmsParam
lms_param type =
    if type == 0x15
    then lms_row shake256 5 type
    else if type == 0x16
    then lms_row shake256 10 type
    else if type == 0x17
    then lms_row shake256 15 type
    else if type == 0x18
    then lms_row shake256 20 type
    else if type == 0x19
    then lms_row shake256 25 type
    else if type == 0x05
    then lms_row sha256 5 type
    else if type == 0x06
    then lms_row sha256 10 type
    else if type == 0x07
    then lms_row sha256 15 type
    else if type == 0x08
    then lms_row sha256 20 type
    else if type == 0x09
    then lms_row sha256 25 type
    else if type == 0x25
    then lms_row haraka 5 type
    else if type == 0x26
    then lms_row haraka 10 type
    else if type == 0x27
    then lms_row haraka 15 type
    else if type == 0x28
    then lms_row haraka 20 type
    else if type == 0x29
    then lms_row haraka 25 type
    else err invalid

-- The switch of lms_get_lmots_param.
unfoldable pub lmots_param : ℕ → Result LmotsParam
lmots_param type =
    if type == 0x01
    then lmots_row sha256 1 265 7 type
    else if type == 0x02
    then lmots_row sha256 2 133 6 type
    else if type == 0x03
    then lmots_row sha256 4 67 4 type
    else if type == 0x04
    then lmots_row sha256 8 34 0 type
    else if type == 0x11
    then lmots_row shake256 1 265 7 type
    else if type == 0x12
    then lmots_row shake256 2 133 6 type
    else if type == 0x13
    then lmots_row shake256 4 67 4 type
    else if type == 0x14
    then lmots_row shake256 8 34 0 type
    else if type == 0x21
    then lmots_row haraka 1 265 7 type
    else if type == 0x22
    then lmots_row haraka 2 133 6 type
    else if type == 0x23
    then lmots_row haraka 4 67 4 type
    else if type == 0x24
    then lmots_row haraka 8 34 0 type
    else err invalid

-- The two parameter sets of a key, if both are known and use one hash.
unfoldable pub matching_params : ℕ → ℕ → Result (LmsParam × LmotsParam)
matching_params lms_type lmots_type = do
  lms ← or_fail (lms_param lms_type) invalid
  ots ← or_fail (lmots_param lmots_type) invalid
  guard (same_alg lms.hash_alg ots.hash_alg) invalid
  ok (lms, ots)

-- lms_get_private_hash_alg and lms_get_public_hash_alg.
abbrev pub private_hash_alg : PrivateKey → Result HashAlg
private_hash_alg priv = do
  (lms, ots) ← matching_params priv.lms_type priv.lmots_type
  ok lms.hash_alg

abbrev pub public_hash_alg : PublicKey → Result HashAlg
public_hash_alg key = do (lms, ots) ← matching_params key.lms_type key.lmots_type; ok lms.hash_alg

-- The length of the LM-OTS part, and of the whole signature.
abbrev pub ots_len : LmotsParam → ℕ
ots_len ots = 4 + ots.n + ots.p * ots.n

abbrev pub total_len : LmsParam → LmotsParam → ℕ
total_len lms ots = 4 + 4 + ots.n + ots.p * ots.n + 4 + lms.height * lms.n

abbrev len_of : Result (LmsParam × LmotsParam) → ℕ
len_of (ok (lms, ots)) = total_len lms ots
len_of (err e) = 0

-- lms_signature_len.
unfoldable pub lms_signature_len : ℕ → ℕ → ℕ
lms_signature_len lms_type lmots_type = len_of (matching_params lms_type lmots_type)
