-- ===== src/Lms/Subtree.antt =====
-- The subtrees of src/lms_subtree.c and src/lms_subtree.h: a cache for authentication paths.
pub mod Config
pub mod Context
pub mod Cache
pub mod Stream
pub mod Geometry
pub mod Fill
pub mod Held
pub mod Rebuild
pub mod Cached
pub mod Keygen
pub mod Scanned
pub mod Optimal
pub mod Layers
pub mod Sized
pub mod Start
mod Tests
pub mod Paths
pub mod Refine
use sec_lms.Prelude.{
  ℕ, zero, suc, ◌+◌, ◌-◌, ◌*◌, ◌/◌, ◌%◌, ◌^◌, Bool, true, false, not, List, leb, ltb, ◌==◌, ◌||◌,
  if◌then◌else◌,
}
use sec_lms.Lms.{Error, invalid, Result, ok, err, ◌>>=◌, ◌>>◌, guard, or_fail, lms_n, HashAlg}
use sec_lms.Lms.Hash.{HashLib}
use sec_lms.Lms.Ots.{Backends}
use sec_lms.Lms.Tree.{lms_internal_node}
use sec_lms.Lms.Coprocess.{Nodes, store}

-- LMS_MAX_HEIGHT and LMS_SUBTREE_MIN_J.
abbrev pub lms_max_height : ℕ
lms_max_height = 25

abbrev pub min_j : ℕ
min_j = 2

-- lms_subtree_t. The buffers are functions of the index, `stack i` being the n bytes from i * n on.
pub record Subtree : Type 0 where
  pub height : ℕ
  pub level : ℕ
  pub levels_below : ℕ
  pub tree_height : ℕ
  pub left_leaf : ℕ
  pub current_index : ℕ
  pub nodes : Nodes
  pub stack : Nodes

-- The loop `while ((1u << (d + 1u)) <= local)`.
abbrev pub depth_from : ℕ → ℕ → ℕ → ℕ
depth_from zero d local = d
depth_from (suc fuel) d local =
    let deeper = depth_from fuel (suc d) local in if leb (2 ^ suc d) local then deeper else d

-- subtree_local_to_global. A tree of at most 25 levels has node numbers below 2^26, so that nothing
-- wraps; the depth of a node is at most its number, which is the fuel.
abbrev pub local_to_global : ℕ → ℕ → ℕ → ℕ → ℕ → ℕ
local_to_global tree_height sub_h root_level left_leaf local =
    let k0 = left_leaf / 2 ^ sub_h in
    let d = depth_from local 0 local in
    2 ^ (tree_height - (root_level - d)) + (k0 * 2 ^ d + (local - 2 ^ d))

module _ (lib : HashLib) (be : Backends) where
  -- The merging loop of lms_tree_add_next_node, `k` levels below the subtree's root, `i` above its
  -- leaves, at the node `seq` of that level. At the root `cur_local` is 1.
  unfoldable pub merge : ℕ → ℕ → ℕ → List ℕ → List ℕ → HashAlg → Subtree → Result Subtree
  merge zero i seq cur I alg sub = ok sub
  merge (suc k) i seq cur I alg sub =
      let cur_local = 2 ^ suc k + seq in
      let parent = cur_local / 2 in
      let node_num = local_to_global sub.tree_height sub.height sub.level sub.left_leaf parent in
      let merged =
        (or_fail (lms_internal_node lib be I alg node_num (sub.stack i) cur) invalid >>= λ value.
        merge k (suc i) (seq / 2) value I alg
          (record sub { nodes = store sub.nodes parent value })) in
      if cur_local == 1
      then ok sub
      else if seq % 2 == 0
      then ok (record sub { stack = store sub.stack i cur })
      else merged

  -- lms_tree_add_next_node: the subtree, and whether it is complete.
  unfoldable pub add_next_node : Subtree → List ℕ → List ℕ → HashAlg → ℕ → Result (Subtree × Bool)
  add_next_node sub leaf I alg n = do
    guard (not (n == 0 || ltb lms_n n)) invalid
    guard (not (sub.height == 0 || ltb lms_max_height sub.height)) invalid
    let ci = sub.current_index
    guard (ltb ci (2 ^ sub.height)) invalid
    merged ←
        merge sub.height 0 ci leaf I alg
          (record sub { nodes = store sub.nodes (2 ^ sub.height + ci) leaf })
    ok (record merged { current_index = ci + 1 }, leb (2 ^ sub.height) (ci + 1))
