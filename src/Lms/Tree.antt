-- ===== src/Lms/Tree.antt =====
-- The Merkle tree of src/lms_tree.c. Nodes are numbered from the root, 1; the leaves begin at 2^h.
pub mod Laws
use sec_lms.Prelude.{
  ℕ, zero, suc, ◌+◌, ◌-◌, ◌*◌, ◌^◌, Bool, true, false, List, [], ◌++◌, Option, none, some, leb,
  if◌then◌else◌,
}
use sec_lms.Lms.{
  Error, invalid, exhausted, Result, ok, err, ◌>>=◌, or_fail, HashAlg, PrivateKey, PublicKey,
}
use sec_lms.Lms.Params.{lms_param, lmots_param, private_hash_alg}
use sec_lms.Lms.Hash.{HashLib, lms_hash_parts}
use sec_lms.Lms.Ots.{Backends, prefix, d_leaf, d_intr, lmots_public_from_private}

module _ (lib : HashLib) (be : Backends) where
  -- lms_leaf.
  unfoldable pub lms_leaf : PrivateKey → ℕ → Result (List ℕ)
  lms_leaf priv q = do
    lms ← or_fail (lms_param priv.lms_type) invalid
    alg ← or_fail (private_hash_alg priv) invalid
    K ← or_fail (lmots_public_from_private lib be priv q) invalid
    lms_hash_parts lib (prefix priv.I (2 ^ lms.height + q) d_leaf) K [] [] alg

  -- lms_internal_node.
  unfoldable pub lms_internal_node : List ℕ → HashAlg → ℕ → List ℕ → List ℕ → Result (List ℕ)
  lms_internal_node I alg node_num left right = elim be.intr [
    | some f ↦ f I alg node_num left right
    | none ↦ lms_hash_parts lib (prefix I node_num d_intr) left right [] alg
  ]

  -- The recursion of lms_tree_node below its look-ups. The fuel is the depth that is left; C has
  -- none, and without fuel the model answers with an error that C does not give.
  pub tree_node_at : ℕ → PrivateKey → HashAlg → ℕ → ℕ → Result (List ℕ)
  tree_node_at zero priv alg leaf_base node_num =
      if leb leaf_base node_num then lms_leaf priv (node_num - leaf_base) else err exhausted
  tree_node_at (suc fuel) priv alg leaf_base node_num =
      let children =
        (or_fail (tree_node_at fuel priv alg leaf_base (node_num * 2)) invalid >>= λ left.
        or_fail (tree_node_at fuel priv alg leaf_base (node_num * 2 + 1)) invalid >>= λ right.
        lms_internal_node priv.I alg node_num left right) in
      if leb leaf_base node_num then lms_leaf priv (node_num - leaf_base) else children

  -- lms_tree_node, with the height of the tree as fuel.
  unfoldable pub lms_tree_node : PrivateKey → ℕ → Result (List ℕ)
  lms_tree_node priv node_num = do
    lms ← or_fail (lms_param priv.lms_type) invalid
    alg ← or_fail (private_hash_alg priv) invalid
    tree_node_at lms.height priv alg (2 ^ lms.height) node_num

  -- lms_public_key_generate.
  unfoldable pub lms_public_key_generate : PrivateKey → Result PublicKey
  lms_public_key_generate priv = do
    lms ← or_fail (lms_param priv.lms_type) invalid
    ots ← or_fail (lmots_param priv.lmots_type) invalid
    root ← lms_tree_node priv 1
    ok (record { lms_type = priv.lms_type; lmots_type = priv.lmots_type; I = priv.I; root = root })
