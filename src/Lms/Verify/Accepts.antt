-- ===== src/Lms/Verify/Accepts.antt =====
-- What lms_verify of src/lms.c has found when it accepts, with whatever backends.
use sec_lms.Prelude.{
  ℕ, ◌^◌, ◌<◌, ◌≡◌, ap, ◌∙◌, true, not, List, drop, length, leb, ◌==◌, ==_iff, arith,
}
use sec_lms.Prelude.Bytes.{get_be32, same_bytes_sound}
use sec_lms.Lms.{invalid, verify, ok, guard, or_fail, PublicKey}
use sec_lms.Lms.Results.{>>=-Went, or_fail_inv, guard_inv}
use sec_lms.Lms.Params.{
  LmsParam, LmotsParam, lms_param, lmots_param, public_hash_alg, ots_len, total_len,
}
use sec_lms.Lms.Hash.{HashLib}
use sec_lms.Lms.Ots.{Backends}
use sec_lms.Lms.Verify.{AuthRoot, lms_root_from_signature, lms_verify}

-- The types of the key are known; the signature has their length, an index below the number of
-- leaves, and the type of the key.
pub record WellFormed (key : PublicKey) (signature : List ℕ) : Type 0 where
  pub lms : LmsParam
  pub ots : LmotsParam
  pub lms_known : lms_param key.lms_type ≡ ok lms
  pub ots_known : lmots_param key.lmots_type ≡ ok ots
  pub exact_length : length signature ≡ total_len lms ots
  pub index_below : get_be32 signature 0 < 2 ^ lms.height
  pub same_type : get_be32 (drop 4 signature) (ots_len ots) ≡ key.lms_type

below : (a b : ℕ) → not (leb a b) ≡ true → b < a
below a b h = ground arith

module _ (lib : HashLib) (be : Backends) where
  root-WellFormed :
      (backend : AuthRoot) (key : PublicKey) (message signature root : List ℕ)
      → lms_root_from_signature lib be backend key message signature ≡ ok root
      → WellFormed key signature
  unfolding lms_root_from_signature
  root-WellFormed backend key message signature root e =
      let a = >>=-Went (or_fail (lms_param key.lms_type) invalid) _ root e in
      let b = >>=-Went (or_fail (lmots_param key.lmots_type) invalid) _ root (a.after) in
      let c = >>=-Went (or_fail (public_hash_alg key) invalid) _ root (b.after) in
      let d =
        >>=-Went (guard (length signature == total_len a.value b.value) invalid) _ root (c.after) in
      let f =
        >>=-Went (guard (not (leb (2 ^ a.value.height) (get_be32 signature 0))) verify) _ root
          (d.after) in
      let g =
        >>=-Went (guard (get_be32 (drop 4 signature) (ots_len b.value) == key.lms_type) verify) _
          root (f.after) in
      record {
        lms = a.value;
        ots = b.value;
        lms_known = or_fail_inv _ invalid a.value a.call;
        ots_known = or_fail_inv _ invalid b.value b.call;
        exact_length = (==_iff _ _).0 (guard_inv _ invalid d.call);
        index_below = below _ _ (guard_inv _ verify f.call);
        same_type = (==_iff _ _).0 (guard_inv _ verify g.call);
      }

  -- Whatever the backends, when lms_verify accepts a signature, the root that lms_root_from_signature
  -- computes from it is the key's root, and the signature is well-formed: the key's types are known, and
  -- the signature has exactly their length, an index below the number of leaves, and the key's type.
  pub lms_verify-WellFormed :
      (backend : AuthRoot) (key : PublicKey) (message signature : List ℕ)
      → lms_verify lib be backend key message signature ≡ ok tt
      → (lms_root_from_signature lib be backend key message signature ≡ ok key.root)
        × WellFormed key signature
  unfolding lms_verify
  lms_verify-WellFormed backend key message signature e =
      let a =
        >>=-Went (or_fail (lms_root_from_signature lib be backend key message signature) verify) _
          tt e in
      let called = or_fail_inv _ verify a.value a.call in
      let same = same_bytes_sound a.value key.root (guard_inv _ verify a.after) in
      (called ∙ ap ok same, root-WellFormed backend key message signature a.value called)
