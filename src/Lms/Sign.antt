-- ===== src/Lms/Sign.antt =====
-- lms_do_sign of src/lms_sign.c, which lms_sign of src/lms.c calls.
use sec_lms.Prelude.{
  ℕ, zero, suc, ◌+◌, ◌-◌, ◌/◌, ◌%◌, ◌^◌, not, List, [], ◌++◌, Option, none, some, leb, ◌==◌,
  if◌then◌else◌,
}
use sec_lms.Prelude.Bytes.{put_be32}
use sec_lms.Lms.{
  invalid, buffer_too_small, exhausted, Result, ok, ◌>>=◌, ◌>>◌, guard, or_fail, PrivateKey,
}
use sec_lms.Lms.Params.{lms_param, lmots_param, lms_signature_len, ots_len}
use sec_lms.Lms.Hash.{HashLib}
use sec_lms.Lms.Ots.{Backends, lmots_sign}
use sec_lms.Lms.Tree.{lms_tree_node}

-- `node_num ^ 1u`.
abbrev pub sibling : ℕ → ℕ
sibling node_num = if node_num % 2 == 0 then node_num + 1 else node_num - 1

-- The auth-path backend: the key, the index; the siblings one behind the other.
abbrev pub AuthPath : Type 0
AuthPath = Option (PrivateKey → ℕ → Result (List ℕ))

module _ (lib : HashLib) (be : Backends) where
  -- The default loop: the siblings of `k` levels, from the leaf up.
  unfoldable pub auth_path : ℕ → PrivateKey → ℕ → Result (List ℕ)
  auth_path zero priv node_num = ok []
  auth_path (suc k) priv node_num =
      or_fail (lms_tree_node lib be priv (sibling node_num)) invalid >>= λ node.
      auth_path k priv (node_num / 2) >>= λ rest. ok (node ++ rest)

  -- lms_do_sign: the key with the next index, and the signature. Where it fails, the key is as it
  -- was.
  unfoldable pub lms_do_sign : AuthPath → PrivateKey → List ℕ → ℕ → Result (PrivateKey × List ℕ)
  lms_do_sign backend priv message signature_len = do
    lms ← or_fail (lms_param priv.lms_type) invalid
    ots ← or_fail (lmots_param priv.lmots_type) invalid
    guard (leb (lms_signature_len priv.lms_type priv.lmots_type) signature_len) buffer_too_small
    guard (not (leb (2 ^ lms.height) priv.q)) exhausted
    ots_sig ← or_fail (lmots_sign lib be priv priv.q message (ots_len ots)) invalid
    path ← elim backend [
      | some f ↦ or_fail (f priv priv.q) invalid
      | none ↦ auth_path lms.height priv (2 ^ lms.height + priv.q)
    ]
    ok (
      record priv { q = (priv.q + 1) % 2 ^ 32 },
      put_be32 priv.q ++ (ots_sig ++ (put_be32 priv.lms_type ++ path)),
    )
