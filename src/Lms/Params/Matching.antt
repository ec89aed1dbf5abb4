-- ===== src/Lms/Params/Matching.antt =====
-- What lms_get_private_hash_alg of src/lms_params.c has looked up when it succeeds.
use sec_lms.Prelude.{ℕ, ◌<◌, ◌≤◌, ◌^◌, ◌≡◌, true, arith}
use sec_lms.Lms.{Result, ok, err, invalid, ◌>>=◌, ◌>>◌, guard, or_fail, same_alg}
use sec_lms.Lms.Params.{LmsParam, LmotsParam, lms_param, lmots_param, matching_params}

-- The look-ups of matching_params, on what they found.
abbrev both : Result LmsParam → Result LmotsParam → Result (LmsParam × LmotsParam)
both x y = do
  lms ← or_fail x invalid
  ots ← or_fail y invalid
  guard (same_alg lms.hash_alg ots.hash_alg) invalid
  ok (lms, ots)

abbrev Parts : Result LmsParam → Result LmotsParam → LmsParam → LmotsParam → Type 0
Parts x y lms p = (x ≡ ok lms) × (y ≡ ok p) × (same_alg lms.hash_alg p.hash_alg ≡ true)

parts :
    (x : Result LmsParam) (y : Result LmotsParam) (lms : LmsParam) (p : LmotsParam)
    → both x y ≡ ok (lms, p)
    → Parts x y lms p
parts (err _) y lms p e = ground arith
parts (ok a) (err _) lms p e = ground arith
parts (ok a) (ok b) lms p e = ground arith

-- Both types are known, and they use one hash function.
pub matching_params-parts :
    (a b : ℕ) (lms : LmsParam) (p : LmotsParam)
    → matching_params a b ≡ ok (lms, p)
    → (lms_param a ≡ ok lms) × (lmots_param b ≡ ok p) × (same_alg lms.hash_alg p.hash_alg ≡ true)
unfolding matching_params
matching_params-parts a b lms p e = parts (lms_param a) (lmots_param b) lms p e

-- What all rows of the table have in common.
pub lms_param_bounds :
    (type : ℕ) (lms : LmsParam)
    → lms_param type ≡ ok lms
    → (type < 2 ^ 32) × (lms.height ≤ 25) × (lms.n ≡ 32) × (0 < lms.height)
unfolding lms_param
lms_param_bounds type lms e = ground arith
