-- ===== src/Lms/Subtree/Cache.antt =====
-- Building the subtrees of src/lms_subtree.c, moving them on, and looking up in them.
use sec_lms.Prelude.{
  ℕ, zero, suc, ◌+◌, ◌-◌, ◌*◌, ◌/◌, ◌%◌, ◌^◌, Bool, false, not, List, [], ◌++◌, none, some, ltb,
  leb, ◌==◌, if◌then◌else◌,
}
use sec_lms.Lms.{invalid, Result, ok, err, ◌>>=◌, ◌>>◌, guard, or_fail, PrivateKey}
use sec_lms.Lms.Hash.{HashLib, lms_hash_parts}
use sec_lms.Lms.Ots.{Backends, prefix, d_leaf}
use sec_lms.Lms.Coprocess.{Nodes, store, source, siblings_from}
use sec_lms.Lms.Subtree.{Subtree, add_next_node}
use sec_lms.Lms.Subtree.Context.{TreeCtx, set_level}

-- Writes to the active or the upcoming subtree of a sublevel.
abbrev pub set_active : TreeCtx → ℕ → Subtree → TreeCtx
set_active ctx s sub = record ctx {
  levels = set_level ctx.levels s (record (ctx.levels s) { active = sub });
}

abbrev pub set_upcoming : TreeCtx → ℕ → Subtree → TreeCtx
set_upcoming ctx s sub = record ctx {
  levels = set_level ctx.levels s (record (ctx.levels s) { upcoming = sub });
}

-- lms_tree_root: the root of the top subtree.
abbrev pub ctx_root : TreeCtx → Result (List ℕ)
ctx_root ctx = do
  guard (not (ctx.sublevels == 0)) invalid
  ok ((ctx.levels (ctx.sublevels - 1)).active.nodes 1)

-- The loop of lms_tree_auth_path over `count` sublevels from `s` on.
abbrev pub path_from : ℕ → TreeCtx → ℕ → ℕ → List ℕ
path_from zero ctx s leaf_pos = []
path_from (suc count) ctx s leaf_pos =
    let active = (ctx.levels s).active in
    let local = 2 ^ active.height + leaf_pos % 2 ^ active.height in
    siblings_from active.nodes active.height local
    ++ path_from count ctx (suc s) (leaf_pos / 2 ^ active.height)

-- lms_tree_auth_path, which is also lms_tree_sign_auth_path.
unfoldable pub ctx_auth_path : TreeCtx → ℕ → Result (List ℕ)
ctx_auth_path ctx q = do
  guard (not (ctx.sublevels == 0)) invalid
  guard (ltb q (2 ^ ctx.height)) invalid
  ok (path_from ctx.sublevels ctx 0 q)

-- subtree_reset_to.
abbrev pub reset_to : Subtree → ℕ → Subtree
reset_to sub left_leaf = record sub { left_leaf = left_leaf; current_index = 0 }

-- subtree_leaf_lo and subtree_leaf_span.
abbrev pub leaf_lo : Subtree → ℕ
leaf_lo sub = sub.left_leaf / 2 ^ sub.height * 2 ^ sub.level

abbrev pub leaf_span : Subtree → ℕ
leaf_span sub = 2 ^ sub.level

-- `(uint64_t)q - lo`.
abbrev pub sub64 : ℕ → ℕ → ℕ
sub64 a b = if leb b a then a - b else 2 ^ 64 + a - b

module _ (lib : HashLib) (be : Backends) where
  -- The leaf of subtree_compute_leaf where no leaf callback is set, and lms_tree_build_active's.
  abbrev pub hashed_leaf : TreeCtx → PrivateKey → ℕ → ℕ → Result (List ℕ)
  hashed_leaf ctx priv q node_num = do
    K ← or_fail (source lib be ctx.ots_pub priv q) invalid
    lms_hash_parts lib (prefix ctx.I node_num d_leaf) K [] [] ctx.hash_alg

  -- subtree_compute_leaf.
  unfoldable pub compute_leaf : TreeCtx → PrivateKey → ℕ → Result (List ℕ)
  compute_leaf ctx priv q = elim (ctx.leaf_fn) [
    | some f ↦ f priv q
    | none ↦ hashed_leaf ctx priv q (2 ^ ctx.height + q)
  ]

  -- subtree_push_leaf.
  abbrev pub push_leaf : TreeCtx → PrivateKey → Subtree → ℕ → Result (Subtree × Bool)
  push_leaf ctx priv sub q = do
    leaf ← or_fail (compute_leaf ctx priv q) invalid
    add_next_node lib be sub leaf ctx.I ctx.hash_alg ctx.n

  -- The loop of subtree_build_bottom: `count` leaves from `i` on; `done` is what the last call gave.
  unfoldable pub bottom_from : ℕ → TreeCtx → PrivateKey → ℕ → ℕ → Subtree → Bool → Result Subtree
  bottom_from zero ctx priv left_leaf i sub done = if done then ok sub else err invalid
  bottom_from (suc count) ctx priv left_leaf i sub done =
      or_fail (push_leaf ctx priv sub (left_leaf + i)) invalid >>= λ r.
      bottom_from count ctx priv left_leaf (suc i) r.0 r.1

  -- subtree_build_bottom.
  abbrev pub build_bottom : TreeCtx → PrivateKey → Subtree → ℕ → Result Subtree
  build_bottom ctx priv sub left_leaf =
      bottom_from (2 ^ sub.height) ctx priv left_leaf 0 (reset_to sub left_leaf) false

  -- The loop of subtree_build_upper, over the roots of the subtrees below.
  unfoldable pub upper_from : ℕ → TreeCtx → Nodes → ℕ → Subtree → Bool → Result Subtree
  upper_from zero ctx roots i sub done = if done then ok sub else err invalid
  upper_from (suc count) ctx roots i sub done =
      or_fail (add_next_node lib be sub (roots i) ctx.I ctx.hash_alg ctx.n) invalid >>= λ r.
      upper_from count ctx roots (suc i) r.0 r.1

  -- subtree_build_upper.
  abbrev pub build_upper : TreeCtx → Subtree → ℕ → Nodes → Result Subtree
  build_upper ctx sub left_leaf roots =
      upper_from (2 ^ sub.height) ctx roots 0 (reset_to sub left_leaf) false

  -- The loop of subtree_build_at, which is `below` for the sublevel below: `count` of its subtrees
  -- from the `k`-th on, each in its upcoming subtree.
  abbrev pub roots_from :
      (TreeCtx → ℕ → Subtree → Result (TreeCtx × Subtree))
      → ℕ
      → ℕ
      → ℕ
      → ℕ
      → ℕ
      → TreeCtx
      → Nodes
      → Result (TreeCtx × Nodes)
  roots_from below s lo span zero k ctx roots = ok (ctx, roots)
  roots_from below s lo span (suc count) k ctx roots =
      or_fail (below ctx (lo + k * span) (ctx.levels s).upcoming) invalid >>= λ r.
      roots_from below s lo span count (suc k) (set_upcoming r.0 s r.1)
        (store roots k (r.1.nodes 1))

  -- subtree_build_at: the context, of which only upcoming subtrees below `s` change, and the scratch
  -- subtree, which lies elsewhere in it.
  unfoldable pub build_at : ℕ → PrivateKey → TreeCtx → ℕ → Subtree → Result (TreeCtx × Subtree)
  build_at zero priv ctx lo scratch =
      build_bottom ctx priv
        (record scratch { level = scratch.height; levels_below = 0; tree_height = ctx.height }) lo
      >>= λ sub. ok (ctx, sub)
  build_at (suc s) priv ctx lo scratch =
      let j = ctx.subtree_size in
      let placed = record scratch {
        level = suc s * j + scratch.height;
        levels_below = suc s * j;
        tree_height = ctx.height;
      } in
      let span = 2 ^ (s * j + (ctx.levels s).upcoming.height) in
      guard (ctx.alloc (2 ^ scratch.height * ctx.n)) invalid >>= λ _.
      roots_from (build_at s priv) s lo span (2 ^ scratch.height) 0 ctx (λ k. []) >>= λ r.
      build_upper r.0 placed (lo / 2 ^ (suc s * j)) r.1 >>= λ sub. ok (r.0, sub)

  -- The loop of lms_tree_sign_init: `count` sublevels from `s` on.
  abbrev pub init_from : ℕ → PrivateKey → ℕ → TreeCtx → Result TreeCtx
  init_from zero priv s ctx = ok ctx
  init_from (suc count) priv s ctx =
      or_fail (build_at s priv ctx 0 (ctx.levels s).active) invalid >>= λ r.
      init_from count priv (suc s) (set_active r.0 s r.1)

  -- lms_tree_sign_init.
  unfoldable pub sign_init : TreeCtx → PrivateKey → Result TreeCtx
  sign_init ctx priv = do
    guard (priv.lms_type == ctx.lms_type) invalid
    init_from ctx.sublevels priv 0 ctx

  -- The body of the loop of lms_tree_sign_advance.
  abbrev pub advance_one : PrivateKey → ℕ → ℕ → TreeCtx → Result TreeCtx
  advance_one priv q s ctx =
      let active = (ctx.levels s).active in
      let rebuilt =
        (or_fail (build_at s priv ctx (q / leaf_span active * leaf_span active) active) invalid
          >>= λ r. ok (set_active r.0 s r.1)) in
      if ltb (sub64 q (leaf_lo active)) (leaf_span active) then ok ctx else rebuilt

  -- The loop: `count` sublevels from `s` on.
  abbrev pub advance_from : ℕ → PrivateKey → ℕ → ℕ → TreeCtx → Result TreeCtx
  advance_from zero priv q s ctx = ok ctx
  advance_from (suc count) priv q s ctx =
      advance_one priv q s ctx >>= λ next. advance_from count priv q (suc s) next

  -- lms_tree_sign_advance.
  unfoldable pub sign_advance : TreeCtx → PrivateKey → ℕ → Result TreeCtx
  sign_advance ctx priv q = do
    guard (priv.lms_type == ctx.lms_type) invalid
    guard (ltb q (2 ^ ctx.height)) invalid
    advance_from (ctx.sublevels - 1) priv q 0 ctx

  -- lms_subtree_auth_path_backend: the context, and the path. Where building fails, C leaves the
  -- context with what was built; the model gives the error alone.
  unfoldable pub auth_path_backend : TreeCtx → PrivateKey → ℕ → Result (TreeCtx × List ℕ)
  auth_path_backend ctx priv q = do
    next ← or_fail (sign_advance ctx priv q) invalid
    path ← ctx_auth_path next q
    ok (next, path)
