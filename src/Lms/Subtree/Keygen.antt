-- ===== src/Lms/Subtree/Keygen.antt =====
-- Building the whole tree, or its root alone, in src/lms_subtree.c.
use sec_lms.Prelude.{ℕ, zero, suc, ◌+◌, ◌-◌, ◌*◌, ◌^◌, List, ◌==◌, if◌then◌else◌}
use sec_lms.Lms.{invalid, Result, ok, ◌>>=◌, ◌>>◌, guard, or_fail, PrivateKey}
use sec_lms.Lms.Hash.{HashLib}
use sec_lms.Lms.Ots.{Backends}
use sec_lms.Lms.Tree.{lms_internal_node}
use sec_lms.Lms.Coprocess.{store}
use sec_lms.Lms.Subtree.{Subtree, local_to_global, add_next_node}
use sec_lms.Lms.Subtree.Context.{TreeCtx}
use sec_lms.Lms.Subtree.Cache.{hashed_leaf, push_leaf, reset_to, set_active, set_upcoming}

-- The number of a local node in the whole tree.
abbrev pub number_in : TreeCtx → Subtree → ℕ → ℕ
number_in ctx sub local = local_to_global ctx.height sub.height sub.level sub.left_leaf local

module _ (lib : HashLib) (be : Backends) where
  -- The loop of subtree_build_internal, from `local` down to 1.
  abbrev pub internal_from : ℕ → TreeCtx → Subtree → Result Subtree
  internal_from zero ctx sub = ok sub
  internal_from (suc local) ctx sub =
      or_fail
        (lms_internal_node lib be ctx.I ctx.hash_alg (number_in ctx sub (suc local))
          (sub.nodes (suc local * 2)) (sub.nodes (suc local * 2 + 1)))
        invalid
      >>= λ value.
          internal_from local ctx (record sub { nodes = store sub.nodes (suc local) value })

  -- The loop of lms_tree_build_active over the leaves, `count` of them from `i` on.
  abbrev pub leaves_from : ℕ → TreeCtx → PrivateKey → ℕ → Subtree → Result Subtree
  leaves_from zero ctx priv i sub = ok sub
  leaves_from (suc count) ctx priv i sub =
      let local = 2 ^ sub.height + i in
      or_fail (hashed_leaf lib be ctx priv (sub.left_leaf + i) (number_in ctx sub local)) invalid
      >>= λ leaf.
          leaves_from count ctx priv (suc i) (record sub { nodes = store sub.nodes local leaf })

  -- lms_tree_build_active, which does one sublevel only.
  unfoldable pub build_active : TreeCtx → PrivateKey → Result TreeCtx
  build_active ctx priv = do
    guard (priv.lms_type == ctx.lms_type) invalid
    guard (ctx.sublevels == 1) invalid
    let active = (ctx.levels 0).active
    leaves ← leaves_from (2 ^ active.height) ctx priv 0 active
    sub ← or_fail (internal_from (2 ^ active.height - 1) ctx leaves) invalid
    ok (set_active ctx 0 sub)

  -- The first loop of lms_tree_keygen_root: `count` sublevels from `s` on.
  abbrev pub reset_from : ℕ → ℕ → TreeCtx → TreeCtx
  reset_from zero s ctx = ctx
  reset_from (suc count) s ctx =
      let cleared = set_active ctx s (reset_to (ctx.levels s).active 0) in
      reset_from count (suc s)
        (set_upcoming cleared s (record ((cleared.levels s).upcoming) { current_index = 0 }))

  -- A complete subtree is emptied, to take the next ones.
  abbrev pub emptied : Subtree → Subtree
  emptied sub = reset_to sub (sub.left_leaf + 2 ^ sub.height)

  -- Its inner loop: a root goes up as a leaf, while sublevels become complete.
  abbrev pub carry_from : ℕ → ℕ → TreeCtx → List ℕ → Result TreeCtx
  carry_from zero s ctx leaf = ok ctx
  carry_from (suc count) s ctx leaf = do
    (up, complete) ←
        or_fail (add_next_node lib be (ctx.levels s).active leaf ctx.I ctx.hash_alg ctx.n) invalid
    let carried = carry_from count (suc s) (set_active ctx s (emptied up)) (up.nodes 1)
    if complete then carried else ok (set_active ctx s up)

  -- Its loop over the leaves, `count` of them from `q` on.
  abbrev pub stream_from : ℕ → ℕ → TreeCtx → PrivateKey → Result TreeCtx
  stream_from zero q ctx priv = ok ctx
  stream_from (suc count) q ctx priv = do
    (bottom, complete) ← or_fail (push_leaf lib be ctx priv (ctx.levels 0).active q) invalid
    let carried =
        carry_from (ctx.sublevels - 1) 1 (set_active ctx 0 (emptied bottom)) (bottom.nodes 1)
    next ← if complete then carried else ok (set_active ctx 0 bottom)
    stream_from count (suc q) next priv

  -- lms_tree_keygen_root: the context and the root.
  unfoldable pub keygen_root : TreeCtx → PrivateKey → Result (TreeCtx × List ℕ)
  keygen_root ctx priv = do
    guard (priv.lms_type == ctx.lms_type) invalid
    done ← stream_from (2 ^ ctx.height) 0 (reset_from ctx.sublevels 0 ctx) priv
    ok (done, (done.levels (done.sublevels - 1)).active.nodes 1)
