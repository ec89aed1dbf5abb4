-- ===== src/Lms/Subtree/Held.antt =====
-- Contexts of src/lms_subtree.c that fit a key, and subtrees that hold their part of its tree.
use native.Mathlib.Nat.{mul-le-mul_right}
use sec_lms.Prelude.{
  ℕ, suc, ◌+◌, ◌-◌, ◌*◌, ◌^◌, ◌≤◌, ◌<◌, ◌≡◌, ◌≢◌, refl, ◌∙◌, ap, ap₂, true, List, none, length,
  arith, ltb, ◌==◌, if_cases, if◌then◌else◌, ℕ_discrete,
}
use sec_lms.Lms.{ok, PrivateKey}
use sec_lms.Lms.Params.{LmsParam, LmotsParam, matching_params}
use sec_lms.Lms.Hash.{HashLib, IsHashLib}
use sec_lms.Lms.Ots.{software}
use sec_lms.Lms.Ots.Refine.{lmots_public_from_private_lem}
use sec_lms.Lms.Tree.{lms_internal_node}
use sec_lms.Lms.Tree.Laws.{AtLevel, node, internal-ok}
use sec_lms.Lms.Coprocess.Filled.{Filled, leaf_hash}
use sec_lms.Lms.Subtree.{Subtree, local_to_global}
use sec_lms.Lms.Subtree.Context.{Sublevel, TreeCtx, set_level}
use sec_lms.Lms.Subtree.Cache.{compute_leaf}
use sec_lms.Lms.Subtree.Geometry.{
  global, local_to_global-global, global_left, global_right, local_value,
}

-- A write to the sublevels.
pub set_level_self : (levels : ℕ → Sublevel) (s : ℕ) (v : Sublevel) → set_level levels s v s ≡ v
set_level_self levels s v = if_cases (λ r. r ≡ v) (s == s) (λ e. refl) (λ e. absurd (ground arith))

pub set_level_ne :
    (levels : ℕ → Sublevel) (s : ℕ) (v : Sublevel) (i : ℕ)
    → i ≢ s
    → set_level levels s v i ≡ levels i
set_level_ne levels s v i n =
    if_cases (λ r. r ≡ levels i) (i == s) (λ e. absurd (n (ground arith))) (λ e. refl)

-- The height of the subtrees of a sublevel, and the level of their roots.
abbrev pub size : ℕ → ℕ → ℕ → ℕ → ℕ
size S j top s = if ltb (suc s) S then j else top

abbrev pub root_level : ℕ → ℕ → ℕ → ℕ → ℕ
root_level S j top s = s * j + size S j top s

pub size_low : (S j top s : ℕ) → suc s < S → size S j top s ≡ j
size_low S j top s lt =
    if_cases (λ x. x ≡ j) (ltb (suc s) S) (λ e. refl) (λ e. absurd (ground arith))

pub size_top : (S j top s : ℕ) → suc s ≡ S → size S j top s ≡ top
size_top S j top s e =
    if_cases (λ x. x ≡ top) (ltb (suc s) S) (λ lt. absurd (ground arith)) (λ lt. refl)

same_pred : (s S : ℕ) → suc s ≡ S → s ≡ S - 1
same_pred s S e = omega arith

le_pred : (s S : ℕ) → suc s < S → suc s ≤ S - 1
le_pred s S lt = omega arith

-- The sizes fill the height of the tree.
pub record Fits (height S j top : ℕ) : Type 0 where
  pub some_level : 0 < S
  pub some_height : 0 < j
  pub bounded : j ≤ 25
  pub some_top : 0 < top
  pub top_le : top ≤ j
  pub total : (S - 1) * j + top ≡ height

module _ (height S j top : ℕ) (f : Fits height S j top) where
  suc_times : (s : ℕ) → suc s * j ≡ s * j + j
  suc_times s = omega arith

  last_level : (s : ℕ) → suc s ≡ S → root_level S j top s ≡ height
  last_level s e = omega (arith, size_top S j top s e, f.total, ap (λ x. x * j) (same_pred s S e))

  pub root_level_le : (s : ℕ) → s < S → root_level S j top s ≤ height
  root_level_le s lt = elim (ℕ_discrete (suc s) S) [
    | yes e ↦ omega (arith, last_level s e)
    | no n ↦ omega (
      arith,
      size_low S j top s (omega (arith, n)),
      suc_times s,
      f.total,
      mul-le-mul_right j (le_pred s S (omega (arith, n))),
    )
  ]

  pub size_pos : (s : ℕ) → 0 < size S j top s
  size_pos s = if_cases (λ x. 0 < x) (ltb (suc s) S) (λ e. f.some_height) (λ e. f.some_top)

  pub size_le : (s : ℕ) → size S j top s ≤ 25
  size_le s =
      if_cases (λ x. x ≤ 25) (ltb (suc s) S) (λ e. f.bounded)
        (λ e. omega (arith, f.top_le, f.bounded))

  pub next_level : (s : ℕ) → suc s < S → root_level S j top s ≡ suc s * j
  next_level s lt = omega (arith, size_low S j top s lt, suc_times s)

root_number : (t c : ℕ) → global t c 0 1 ≡ 2 ^ t + c
root_number t c = omega (arith, ap (λ x. 2 ^ x) (add_zero t))
  where
    add_zero : (n : ℕ) → n + 0 ≡ n
    add_zero n = omega arith

module _ (lib : HashLib) (h : IsHashLib lib) (big : 0xffff ≤ lib.size_max) (priv : PrivateKey)
    (lms : LmsParam) (p : LmotsParam)
    (known : matching_params priv.lms_type priv.lmots_type ≡ ok (lms, p))
    (len_I : length priv.I ≡ 16) (S j top : ℕ) (fit : Fits lms.height S j top) where
  abbrev pub V : ℕ → ℕ → List ℕ
  V d num = node lib priv lms.hash_alg p (2 ^ lms.height) d num

  -- A context for the key, without callbacks, with an allocator that gives what building asks for.
  pub record Shaped (ctx : TreeCtx) : Type 0 where
    pub lms_type : ctx.lms_type ≡ priv.lms_type
    pub height : ctx.height ≡ lms.height
    pub n_32 : ctx.n ≡ 32
    pub subtree_size : ctx.subtree_size ≡ j
    pub sublevels : ctx.sublevels ≡ S
    pub hash_alg : ctx.hash_alg ≡ lms.hash_alg
    pub I : ctx.I ≡ priv.I
    pub no_ots_pub : ctx.ots_pub ≡ none
    pub no_leaf_fn : ctx.leaf_fn ≡ none
    pub alloc : (s : ℕ) → s < S → ctx.alloc (2 ^ size S j top s * 32) ≡ true
    pub active_height : (s : ℕ) → s < S → (ctx.levels s).active.height ≡ size S j top s
    pub upcoming_height : (s : ℕ) → suc s < S → (ctx.levels s).upcoming.height ≡ size S j top s

  -- How far the root of sublevel `s` is below that of the tree.
  abbrev pub above : ℕ → ℕ
  above s = lms.height - root_level S j top s

  abbrev pub values : ℕ → ℕ → ℕ → ℕ → List ℕ
  values s c d m = local_value V (s * j) (size S j top s) (above s) c d m

  -- The complete subtree of sublevel `s` with `c` of them on its left.
  pub record Held (s c : ℕ) (sub : Subtree) : Type 0 where
    pub height : sub.height ≡ size S j top s
    pub level : sub.level ≡ root_level S j top s
    pub left_leaf : sub.left_leaf ≡ c * 2 ^ size S j top s
    pub filled : Filled (size S j top s) (values s c) 1 sub.nodes

  -- Merging two nodes of the subtree gives their parent in the whole tree.
  pub step :
      (ctx : TreeCtx) (s c : ℕ)
      → Shaped ctx
      → s < S
      → (d k num : ℕ) → suc d + k ≡ size S j top s
      → AtLevel k num
      → lms_internal_node lib software ctx.I ctx.hash_alg
          (local_to_global lms.height
            (size S j top s)
            (root_level S j top s)
            (c * 2 ^ size S j top s)
            num)
          (values s c d (num * 2))
          (values s c d (num * 2 + 1))
        ≡ ok (values s c (suc d) num)
  step ctx s c shape lt d k num sum l =
      rw
        (
          shape.I,
          shape.hash_alg,
          local_to_global-global lms.height (size S j top s) (root_level S j top s) c (above s) k
              num (omega (arith, root_level_le lms.height S j top fit s lt)) (omega arith) l,
        )
        (ap₂ (lms_internal_node lib software priv.I lms.hash_alg (global (above s) c k num))
            (ap (V (s * j + d)) (
              ap (λ e. global (above s) c e (num * 2)) (omega arith)
              ∙ global_left (above s) c k num l))
            (ap (V (s * j + d)) (
              ap (λ e. global (above s) c e (num * 2 + 1)) (omega arith)
              ∙ global_right (above s) c k num l))
          ∙ internal-ok lib h big priv lms p known len_I (s * j + d) (global (above s) c k num)
          ∙ ap₂ (λ x y. ok (V x (global (above s) c y num))) (omega arith) (omega arith))

  -- The root of a held subtree.
  pub Held-root :
      (s c : ℕ) (sub : Subtree)
      → Held s c sub
      → sub.nodes 1 ≡ V (root_level S j top s) (2 ^ above s + c)
  Held-root s c sub v =
      v.filled (size S j top s) 0 1 (omega arith) (omega arith, omega arith) (omega arith)
      ∙ ap (V (root_level S j top s))
          (ap (λ e. global (above s) c e 1) (cancel (size S j top s)) ∙ root_number (above s) c)
    where
      cancel : (n : ℕ) → n - n ≡ 0
      cancel n = omega arith

  -- The leaf that subtree_compute_leaf gives.
  pub compute_leaf-ok :
      (ctx : TreeCtx) (q : ℕ)
      → Shaped ctx
      → compute_leaf lib software ctx priv q ≡ ok (V 0 (2 ^ lms.height + q))
  unfolding compute_leaf
  compute_leaf-ok ctx q shape =
      rw (shape.no_leaf_fn, shape.no_ots_pub)
        (rw (lmots_public_from_private_lem lib h big priv lms p known len_I q) (
          rw (shape.I, shape.height, shape.hash_alg)
            (leaf_hash lib h big priv lms p known len_I q)))
