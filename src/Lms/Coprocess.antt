-- ===== src/Lms/Coprocess.antt =====
-- The full-tree co-processor of src/lms_coprocess.c and src/lms_coprocess.h: it keeps every node of
-- the Merkle tree, by number from the root, 1.
pub mod Filled
pub mod Correct
use sec_lms.Prelude.{
  ℕ, zero, suc, ◌+◌, ◌-◌, ◌*◌, ◌/◌, ◌^◌, Bool, true, false, not, List, [], ◌++◌, Option, none, some,
  replicate, take, leb, ltb, ◌==◌, ◌||◌, if◌then◌else◌,
}
use sec_lms.Prelude.Bytes.{same_bytes}
use sec_lms.Lms.{
  Error, invalid, verify, Result, ok, err, ◌>>=◌, ◌>>◌, guard, or_fail, i_len, HashAlg, PrivateKey,
}
use sec_lms.Lms.Params.{lms_param, private_hash_alg}
use sec_lms.Lms.Hash.{HashLib, lms_hash_parts}
use sec_lms.Lms.Ots.{Backends, prefix, d_leaf, lmots_public_from_private}
use sec_lms.Lms.Tree.{lms_internal_node}
use sec_lms.Lms.Sign.{sibling}
use sec_lms.Lms.Verify.{climb}

-- LMS_COPROCESS_MAX_HEIGHT.
abbrev pub max_height : ℕ
max_height = 10

-- A buffer of nodes, by their numbers, and `nodes[num] = value`.
abbrev pub Nodes : Type 0
Nodes = ℕ → List ℕ

abbrev pub store : Nodes → ℕ → List ℕ → Nodes
store nodes num value m = if m == num then value else nodes m

-- lms_coprocess_tree_t.
pub record Tree : Type 0 where
  pub lms_type : ℕ
  pub height : ℕ
  pub n : ℕ
  pub leaf_count : ℕ
  pub I : List ℕ
  pub nodes : Nodes

-- lms_coprocess_ots_pub_fn, which may be null.
abbrev pub OtsPub : Type 0
OtsPub = PrivateKey → ℕ → Result (List ℕ)

-- lms_coprocess_tree_init.
unfoldable pub tree_init : ℕ → List ℕ → Result Tree
tree_init lms_type I = do
  lms ← or_fail (lms_param lms_type) invalid
  guard (not (lms.height == 0 || ltb max_height lms.height)) invalid
  ok (record {
    lms_type = lms_type;
    height = lms.height;
    n = lms.n;
    leaf_count = 2 ^ lms.height;
    I = take i_len I;
    nodes = λ num. replicate 32 0;
  })

-- The loop of lms_coprocess_auth_path.
abbrev pub siblings_from : Nodes → ℕ → ℕ → List ℕ
siblings_from nodes zero num = []
siblings_from nodes (suc k) num = nodes (sibling num) ++ siblings_from nodes k (num / 2)

-- lms_coprocess_root, lms_coprocess_node and lms_coprocess_auth_path.
unfoldable pub tree_root : Tree → Result (List ℕ)
tree_root tree = do guard (not (tree.leaf_count == 0)) invalid; ok (tree.nodes 1)

unfoldable pub tree_node : Tree → ℕ → Result (List ℕ)
tree_node tree num = do
  guard (not (tree.leaf_count == 0)) invalid
  guard (not (num == 0 || ltb (tree.leaf_count * 2 - 1) num)) invalid
  ok (tree.nodes num)

unfoldable pub tree_auth_path : Tree → ℕ → Result (List ℕ)
tree_auth_path tree q = do
  guard (not (tree.leaf_count == 0)) invalid
  guard (ltb q tree.leaf_count) invalid
  ok (siblings_from tree.nodes tree.height (tree.leaf_count + q))

module _ (lib : HashLib) (be : Backends) where
  -- default_ots_pub where no source of one-time keys is given.
  abbrev pub source : Option OtsPub → OtsPub
  source none = lmots_public_from_private lib be
  source (some f) = f

  -- The leaves from `q` on, `k` of them.
  unfoldable pub build_leaves :
      OtsPub → PrivateKey → List ℕ → HashAlg → ℕ → ℕ → ℕ → Nodes → Result Nodes
  build_leaves ots priv I alg base zero q nodes = ok nodes
  build_leaves ots priv I alg base (suc k) q nodes = or_fail (ots priv q) invalid >>= λ K.
      or_fail (lms_hash_parts lib (prefix I (base + q) d_leaf) K [] [] alg) invalid >>= λ leaf.
      build_leaves ots priv I alg base k (q + 1) (store nodes (base + q) leaf)

  -- The internal nodes from `r` down to 1.
  unfoldable pub build_internal : List ℕ → HashAlg → ℕ → Nodes → Result Nodes
  build_internal I alg zero nodes = ok nodes
  build_internal I alg (suc r) nodes =
      or_fail (lms_internal_node lib be I alg (suc r) (nodes (suc r * 2)) (nodes (suc r * 2 + 1)))
        invalid
      >>= λ value. build_internal I alg r (store nodes (suc r) value)

  -- lms_coprocess_build. Where it fails, C has written some nodes; the model gives the error alone.
  unfoldable pub build : Tree → PrivateKey → Option OtsPub → Result Tree
  build tree priv ots = do
    guard (not (tree.leaf_count == 0)) invalid
    guard (priv.lms_type == tree.lms_type) invalid
    alg ← or_fail (private_hash_alg priv) invalid
    leaves ← build_leaves (source ots) priv tree.I alg tree.leaf_count tree.leaf_count 0 tree.nodes
    nodes ← build_internal tree.I alg (tree.leaf_count - 1) leaves
    ok (record tree { nodes = nodes })

  -- lms_coprocess_root_from_kv. Its loop is that of lms_root_from_signature.
  unfoldable pub root_from_kv : Tree → ℕ → List ℕ → List ℕ → Result (List ℕ)
  root_from_kv tree q kv path = do
    guard (not (tree.leaf_count == 0)) invalid
    guard (ltb q tree.leaf_count) invalid
    lms ← or_fail (lms_param tree.lms_type) invalid
    leaf ←
        or_fail
          (lms_hash_parts lib (prefix tree.I (tree.leaf_count + q) d_leaf) kv [] [] lms.hash_alg)
          invalid
    climb lib be tree.height tree.I lms.hash_alg (tree.leaf_count + q) leaf path

  -- lms_coprocess_verify.
  unfoldable pub tree_verify : Tree → ℕ → List ℕ → List ℕ → Result (Unit {0})
  tree_verify tree q kv path = do
    root ← or_fail (root_from_kv tree q kv path) invalid
    expected ← or_fail (tree_root tree) invalid
    guard (same_bytes root expected) verify
