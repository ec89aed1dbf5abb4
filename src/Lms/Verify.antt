-- ===== src/Lms/Verify.antt =====
-- lms_root_from_signature of src/lms_verify.c and lms_verify of src/lms.c.
pub mod Path
pub mod Correct
pub mod Accepts
pub mod Pair
use sec_lms.Prelude.{
  ℕ, zero, suc, ◌+◌, ◌*◌, ◌/◌, ◌%◌, ◌^◌, Bool, true, false, not, List, [], ◌++◌, Option, none, some,
  take, drop, length, leb, ◌==◌, if◌then◌else◌,
}
use sec_lms.Prelude.Bytes.{get_be32, same_bytes}
use sec_lms.Lms.{
  Error, invalid, verify, Result, ok, err, ◌>>=◌, ◌>>◌, guard, or_fail, lms_n, HashAlg, PublicKey,
}
use sec_lms.Lms.Params.{lms_param, lmots_param, public_hash_alg, ots_len, total_len}
use sec_lms.Lms.Hash.{HashLib}
use sec_lms.Lms.Ots.{Backends, lmots_verify_leaf}
use sec_lms.Lms.Tree.{lms_internal_node}

-- The verify auth-path backend: I, hash, the leaf's node number, the leaf, the path, the height.
abbrev pub AuthRoot : Type 0
AuthRoot = Option (List ℕ → HashAlg → ℕ → List ℕ → List ℕ → ℕ → Result (List ℕ))

module _ (lib : HashLib) (be : Backends) where
  -- The loop up the authentication path.
  unfoldable pub climb : ℕ → List ℕ → HashAlg → ℕ → List ℕ → List ℕ → Result (List ℕ)
  climb zero I alg node_num node path = ok node
  climb (suc k) I alg node_num node path =
      let other = take lms_n path in
      or_fail
        (if node_num % 2 == 0
          then lms_internal_node lib be I alg (node_num / 2) node other
          else lms_internal_node lib be I alg (node_num / 2) other node)
        invalid
      >>= λ parent. climb k I alg (node_num / 2) parent (drop lms_n path)

  -- lms_root_from_signature.
  unfoldable pub lms_root_from_signature : AuthRoot → PublicKey → List ℕ → List ℕ → Result (List ℕ)
  lms_root_from_signature backend key message signature = do
    lms ← or_fail (lms_param key.lms_type) invalid
    ots ← or_fail (lmots_param key.lmots_type) invalid
    alg ← or_fail (public_hash_alg key) invalid
    guard (length signature == total_len lms ots) invalid
    let q = get_be32 signature 0
    guard (not (leb (2 ^ lms.height) q)) verify
    let ots_sig = drop 4 signature
    guard (get_be32 ots_sig (ots_len ots) == key.lms_type) verify
    let path = drop (ots_len ots + 4) ots_sig
    let node_num = 2 ^ lms.height + q
    leaf ←
        or_fail
          (lmots_verify_leaf lib be key.I alg q key.lmots_type node_num message
            (take (ots_len ots) ots_sig))
          verify
    elim backend [
      | some f ↦ or_fail (f key.I alg node_num leaf path lms.height) verify
      | none ↦ climb lms.height key.I alg node_num leaf path
    ]

  -- lms_verify: `ok tt` is LMS_OK. The bytes are compared without an early exit, which does not
  -- change the result.
  unfoldable pub lms_verify : AuthRoot → PublicKey → List ℕ → List ℕ → Result (Unit {0})
  lms_verify backend key message signature = do
    root ← or_fail (lms_root_from_signature backend key message signature) verify
    guard (same_bytes root key.root) verify
