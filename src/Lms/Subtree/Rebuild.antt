-- ===== src/Lms/Subtree/Rebuild.antt =====
-- subtree_build_at of src/lms_subtree.c gives subtrees that hold their part of the tree.
use native.Mathlib.Nat.{mul-div_cancel}
use sec_lms.Prelude.{
  ℕ, zero, suc, ◌+◌, ◌-◌, ◌*◌, ◌/◌, ◌^◌, ◌≤◌, ◌<◌, ◌≡◌, refl, sym, subst, ◌∙◌, ap, ap₂, true, false,
  List, [], length, arith, ℕ_discrete,
}
use sec_lms.Lms.{Result, ok, invalid, ◌>>=◌, or_fail, PrivateKey}
use sec_lms.Lms.Results.{Gives, Gives-bind, Gives-or_fail, Gives_map}
use sec_lms.Lms.Params.{LmsParam, LmotsParam, matching_params}
use sec_lms.Lms.Hash.{HashLib, IsHashLib}
use sec_lms.Lms.Ots.{software}
use sec_lms.Lms.Tree.Laws.{pow_double, zero_add, suc_add}
use sec_lms.Lms.Coprocess.{Nodes, store}
use sec_lms.Lms.Coprocess.Filled.{store_self, store_ne, pow_pos}
use sec_lms.Lms.Subtree.{Subtree}
use sec_lms.Lms.Subtree.Context.{Sublevel, TreeCtx, set_level}
use sec_lms.Lms.Subtree.Cache.{
  compute_leaf, set_upcoming, reset_to, bottom_from, build_bottom, upper_from, build_upper,
  roots_from, build_at,
}
use sec_lms.Lms.Subtree.Fill.{Built, begin, bottom_from-Built, upper_from-Built}
use sec_lms.Lms.Subtree.Geometry.{global}
use sec_lms.Lms.Subtree.Held.{
  Fits, size, root_level, size_pos, size_le, next_level, root_level_le, set_level_self,
  set_level_ne, V, values, above, Shaped, Held, Held-root, step, compute_leaf-ok,
}

sub_zero : (n : ℕ) → n ≡ n - 0
sub_zero n = omega arith

pub leaf_number : (t c e i : ℕ) → global t c e (2 ^ e + i) ≡ 2 ^ (t + e) + (c * 2 ^ e + i)
leaf_number t c e i = omega arith

pow_sum : (a b : ℕ) → 2 ^ (a + b) ≡ 2 ^ a * 2 ^ b
pow_sum zero b = ap (λ n. 2 ^ n) (zero_add b) ∙ omega arith
pow_sum (suc a) b =
    ap (λ n. 2 ^ n) (suc_add a b)
    ∙ pow_double (a + b)
    ∙ ap (λ n. n * 2) (pow_sum a b)
    ∙ swap (2 ^ a) (2 ^ b)
    ∙ ap (λ n. n * 2 ^ b) (sym (pow_double a))
  where
    swap : (x y : ℕ) → x * y * 2 ≡ x * 2 * y
    swap x y = omega arith

module _ (lib : HashLib) (h : IsHashLib lib) (big : 0xffff ≤ lib.size_max) (priv : PrivateKey)
    (lms : LmsParam) (p : LmotsParam)
    (known : matching_params priv.lms_type priv.lmots_type ≡ ok (lms, p))
    (len_I : length priv.I ≡ 16) (S j top : ℕ) (fit : Fits lms.height S j top) where
  abbrev pub Fine : TreeCtx → Type 0
  Fine ctx = Shaped lib h big priv lms p known len_I S j top fit ctx

  abbrev pub Holds : ℕ → ℕ → Subtree → Type 0
  Holds s c sub = Held lib h big priv lms p known len_I S j top fit s c sub

  abbrev tree : ℕ → ℕ → List ℕ
  tree d num = V lib h big priv lms p known len_I S j top fit d num

  abbrev value : ℕ → ℕ → ℕ → ℕ → List ℕ
  value s c d m = values lib h big priv lms p known len_I S j top fit s c d m

  abbrev up : ℕ → ℕ
  up s = above lib h big priv lms p known len_I S j top fit s

  abbrev H : ℕ → ℕ
  H s = size S j top s

  abbrev at_root : ℕ → ℕ
  at_root s = root_level S j top s

  -- The context fits, and its active subtrees are as they were.
  pub record Moved (ctx ctx' : TreeCtx) : Type 0 where
    pub fine : Fine ctx'
    pub active : (i : ℕ) → (ctx'.levels i).active ≡ (ctx.levels i).active

  -- What subtree_build_at has done.
  abbrev pub Done : ℕ → ℕ → TreeCtx → TreeCtx × Subtree → Type 0
  Done s c ctx r = Moved ctx r.0 × Holds s c r.1

  module _ (ctx : TreeCtx) (shape : Fine ctx) (s c : ℕ) (lt : s < S) where
    abbrev B : Subtree → Type 0
    B =
        Built lib ctx shape.n_32 (H s) lms.height (at_root s) (c * 2 ^ H s) (value s c)
          (step lib h big priv lms p known len_I S j top fit ctx s c shape lt)
          (size_pos lms.height S j top fit s) (size_le lms.height S j top fit s)

    Built-Held : (sub : Subtree) → B sub → Holds s c sub
    Built-Held sub b = record {
      height = b.placed.height;
      level = b.placed.level;
      left_leaf = b.placed.left_leaf;
      filled = b.filled;
    }

    module _ (sub : Subtree) (height : sub.height ≡ H s) (level : sub.level ≡ at_root s)
        (tree_height : sub.tree_height ≡ lms.height) where
      abbrev reset : Subtree
      reset = reset_to sub (c * 2 ^ H s)

      build_bottom-Built : s ≡ 0 → Gives B (build_bottom lib software ctx priv sub (c * 2 ^ H s))
      build_bottom-Built bottom =
          subst (λ n. Gives B (bottom_from lib software n ctx priv (c * 2 ^ H s) 0 reset false))
            (ap (λ n. 2 ^ n) (sym height))
            (bottom_from-Built lib ctx shape.n_32 (H s) lms.height (at_root s) (c * 2 ^ H s)
              (value s c) _ _ _ priv leaf (2 ^ H s) 0 reset false (omega arith)
              (begin lib ctx shape.n_32 (H s) lms.height (at_root s) (c * 2 ^ H s) (value s c) _ _ _
                reset
                (record {
                  height = height;
                  tree_height = tree_height;
                  level = level;
                  left_leaf = refl;
                })
                refl))
        where
          leaf :
              (i : ℕ)
              → i < 2 ^ H s
              → compute_leaf lib software ctx priv (c * 2 ^ H s + i)
                ≡ ok (value s c 0 (2 ^ H s + i))
          leaf i small =
              compute_leaf-ok lib h big priv lms p known len_I S j top fit ctx (c * 2 ^ H s + i)
                shape
              ∙ ap₂ (λ d m. ok (tree d m)) (below bottom) (here bottom)
            where
              below : s ≡ 0 → 0 ≡ s * j + 0
              below e = omega (arith, ap (λ x. x * j) e)

              here :
                  s ≡ 0
                  → 2 ^ lms.height + (c * 2 ^ H s + i) ≡ global (up s) c (H s - 0) (2 ^ H s + i)
              here e =
                  ap (λ x. 2 ^ x + (c * 2 ^ H s + i)) (total e)
                  ∙ sym (leaf_number (up s) c (H s) i)
                  ∙ ap (λ n. global (up s) c n (2 ^ H s + i)) (sub_zero (H s))
                where
                  total : s ≡ 0 → lms.height ≡ up s + H s
                  total e =
                      omega (arith, ap (λ x. x * j) e, root_level_le lms.height S j top fit s lt)

      build_upper-Built :
          (roots : Nodes)
          → ((i : ℕ) → i < 2 ^ H s → roots i ≡ value s c 0 (2 ^ H s + i))
          → Gives B (build_upper lib software ctx sub (c * 2 ^ H s) roots)
      build_upper-Built roots right =
          subst (λ n. Gives B (upper_from lib software n ctx roots 0 reset false))
            (ap (λ n. 2 ^ n) (sym height))
            (upper_from-Built lib ctx shape.n_32 (H s) lms.height (at_root s) (c * 2 ^ H s)
              (value s c) _ _ _ roots right (2 ^ H s) 0 reset false (omega arith)
              (begin lib ctx shape.n_32 (H s) lms.height (at_root s) (c * 2 ^ H s) (value s c) _ _ _
                reset
                (record {
                  height = height;
                  tree_height = tree_height;
                  level = level;
                  left_leaf = refl;
                })
                refl))

  -- The roots of the first `k` subtrees of sublevel `s` under subtree `c` of the next sublevel.
  abbrev Roots : ℕ → ℕ → ℕ → Nodes → Type 0
  Roots s c k roots =
      (i : ℕ) → i < k → roots i ≡ tree (at_root s) (2 ^ up s + (c * 2 ^ H (suc s) + i))

  -- The sublevel below, by the induction.
  abbrev pub Below : (TreeCtx → ℕ → Subtree → Result (TreeCtx × Subtree)) → ℕ → Type 0
  Below below s =
      (ctx : TreeCtx) (c lo : ℕ) (scratch : Subtree)
      → Fine ctx
      → s < S
      → scratch.height ≡ H s
      → lo ≡ c * 2 ^ at_root s
      → Gives (Done s c ctx) (below ctx lo scratch)

  set_upcoming-Moved :
      (ctx ctx' : TreeCtx) (s : ℕ) (sub : Subtree)
      → Moved ctx ctx'
      → sub.height ≡ H s
      → Moved ctx (set_upcoming ctx' s sub)
  set_upcoming-Moved ctx ctx' s sub m e = record {
    fine = record {
      lms_type = m.fine.lms_type;
      height = m.fine.height;
      n_32 = m.fine.n_32;
      subtree_size = m.fine.subtree_size;
      sublevels = m.fine.sublevels;
      hash_alg = m.fine.hash_alg;
      I = m.fine.I;
      no_ots_pub = m.fine.no_ots_pub;
      no_leaf_fn = m.fine.no_leaf_fn;
      alloc = m.fine.alloc;
      active_height = λ i lt. ap (λ x. x.height) (same i) ∙ m.fine.active_height i lt;
      upcoming_height = λ i lt. elim (ℕ_discrete i s) [
        | yes eq ↦
            subst (λ x. (set_level ctx'.levels s written x).upcoming.height ≡ H x) (sym eq)
              (ap (λ l. l.upcoming.height) (set_level_self ctx'.levels s written) ∙ e)
        | no n ↦
            ap (λ l. l.upcoming.height) (set_level_ne ctx'.levels s written i n)
            ∙ m.fine.upcoming_height i lt
      ];
    };
    active = λ i. same i ∙ m.active i;
  }
    where
      written : Sublevel
      written = record (ctx'.levels s) { upcoming = sub }

      same : (i : ℕ) → (set_level ctx'.levels s written i).active ≡ (ctx'.levels i).active
      same i = elim (ℕ_discrete i s) [
        | yes eq ↦
            subst (λ x. (set_level ctx'.levels s written x).active ≡ (ctx'.levels x).active)
              (sym eq) (ap (λ l. l.active) (set_level_self ctx'.levels s written))
        | no n ↦ ap (λ l. l.active) (set_level_ne ctx'.levels s written i n)
      ]

  Moved-trans : (a b c : TreeCtx) → Moved a b → Moved b c → Moved a c
  Moved-trans a b c m n = record { fine = n.fine; active = λ i. n.active i ∙ m.active i }

  store-Roots :
      (s c k : ℕ) (roots : Nodes) (root : List ℕ)
      → Roots s c k roots
      → root ≡ tree (at_root s) (2 ^ up s + (c * 2 ^ H (suc s) + k))
      → Roots s c (suc k) (store roots k root)
  store-Roots s c k roots root r e i lt = elim (ℕ_discrete i k) [
    | yes same ↦
        subst (λ x. store roots k root x ≡ tree (at_root s) (2 ^ up s + (c * 2 ^ H (suc s) + x)))
          (sym same) (store_self roots k root ∙ e)
    | no n ↦ store_ne roots k i root n ∙ r i (omega (arith, n))
  ]

  roots_from-Roots :
      (below : TreeCtx → ℕ → Subtree → Result (TreeCtx × Subtree)) (s c lo span : ℕ)
      → Below below s
      → suc s < S
      → ((k : ℕ) → lo + k * span ≡ (c * 2 ^ H (suc s) + k) * 2 ^ at_root s)
      → (count k : ℕ) (ctx : TreeCtx) (roots : Nodes) → Fine ctx
      → Roots s c k roots
      → Gives
          (λ r. Moved ctx r.0 × Roots s c (k + count) r.1)
          (roots_from lib software below s lo span count k ctx roots)
  roots_from-Roots below s c lo span hyp lt place zero k ctx roots fine r =
      (record { fine = fine; active = λ i. refl }, λ i small. r i (omega arith))
  roots_from-Roots below s c lo span hyp lt place (suc count) k ctx roots fine r =
      Gives-bind (Done s (c * 2 ^ H (suc s) + k) ctx)
        (λ x. Moved ctx x.0 × Roots s c (k + suc count) x.1)
        (or_fail (below ctx (lo + k * span) (ctx.levels s).upcoming) invalid)
        (λ x.
          roots_from lib software below s lo span count (suc k) (set_upcoming x.0 s x.1)
            (store roots k (x.1.nodes 1)))
        (Gives-or_fail (Done s (c * 2 ^ H (suc s) + k) ctx)
          (below ctx (lo + k * span) (ctx.levels s).upcoming) invalid
          (hyp ctx (c * 2 ^ H (suc s) + k) (lo + k * span) (ctx.levels s).upcoming fine
            (omega arith) (fine.upcoming_height s lt) (place k)))
        λ x (m, held).
          let m' = set_upcoming-Moved ctx x.0 s x.1 m held.height in
          Gives_map (λ y. Moved (set_upcoming x.0 s x.1) y.0 × Roots s c (suc k + count) y.1)
            (λ y. Moved ctx y.0 × Roots s c (k + suc count) y.1)
            (roots_from lib software below s lo span count (suc k) (set_upcoming x.0 s x.1)
              (store roots k (x.1.nodes 1)))
            (roots_from-Roots below s c lo span hyp lt place count (suc k) (set_upcoming x.0 s x.1)
              (store roots k (x.1.nodes 1)) m'.fine
              (store-Roots s c k roots (x.1.nodes 1) r (
                Held-root lib h big priv lms p known len_I S j top fit s (c * 2 ^ H (suc s) + k) x.1
                  held)))
            λ y (n, rs).
              (Moved-trans ctx (set_upcoming x.0 s x.1) y.0 m' n, λ i small. rs i (omega arith))

  -- The place of a lower subtree, and that of its root.
  shifted : (s c : ℕ) → suc s < S → c * 2 ^ at_root (suc s) ≡ c * 2 ^ H (suc s) * 2 ^ at_root s
  shifted s c lt =
      ap (λ n. c * 2 ^ n) (level (suc s * j) (H (suc s)))
      ∙ ap (λ n. c * n) (pow_sum (H (suc s)) (suc s * j))
      ∙ assoc c (2 ^ H (suc s)) (2 ^ (suc s * j))
      ∙ ap (λ n. c * 2 ^ H (suc s) * 2 ^ n) (sym (next_level lms.height S j top fit s lt))
    where
      level : (a b : ℕ) → a + b ≡ b + a
      level a b = omega arith

      assoc : (a b c : ℕ) → a * (b * c) ≡ a * b * c
      assoc a b c = omega arith

  add_times : (a k m : ℕ) → a * m + k * m ≡ (a + k) * m
  add_times a k m = omega arith

  root_place : (s : ℕ) → suc s < S → up s ≡ up (suc s) + H (suc s)
  root_place s lt = omega (
    arith,
    next_level lms.height S j top fit s lt,
    root_level_le lms.height S j top fit (suc s) lt,
  )

  upper_value :
      (s c i : ℕ)
      → suc s < S
      → tree (at_root s) (2 ^ up s + (c * 2 ^ H (suc s) + i))
        ≡ value (suc s) c 0 (2 ^ H (suc s) + i)
  upper_value s c i lt = ap₂ tree (next_level lms.height S j top fit s lt ∙ omega arith) (
      ap (λ n. 2 ^ n + (c * 2 ^ H (suc s) + i)) (root_place s lt)
      ∙ sym (leaf_number (up (suc s)) c (H (suc s)) i)
      ∙ ap (λ n. global (up (suc s)) c n (2 ^ H (suc s) + i)) (sub_zero (H (suc s))))

  -- From one sublevel to the next.
  above-Done :
      (s : ℕ)
      → Below (build_at lib software s priv) s
      → Below (build_at lib software (suc s) priv) (suc s)
  unfolding build_at
  above-Done s hyp ctx c lo scratch fine lt height e = rw (room) (
      Gives-bind (λ r. Moved ctx r.0 × Roots s c (0 + 2 ^ scratch.height) r.1) (Done (suc s) c ctx)
        (roots_from lib software (build_at lib software s priv) s lo span (2 ^ scratch.height) 0 ctx
          (λ k. []))
        (λ r.
          build_upper lib software r.0 placed (lo / 2 ^ (suc s * ctx.subtree_size)) r.1 >>= λ sub.
          ok (r.0, sub))
        (roots_from-Roots (build_at lib software s priv) s c lo span hyp lt place
          (2 ^ scratch.height) 0 ctx (λ k. []) fine (λ i small. absurd (omega arith)))
        λ r (m, rs).
          Gives-bind (B r.0 m.fine (suc s) c lt) (Done (suc s) c ctx)
            (build_upper lib software r.0 placed (lo / 2 ^ (suc s * ctx.subtree_size)) r.1)
            (λ sub. ok (r.0, sub))
            (subst
              (λ x. Gives (B r.0 m.fine (suc s) c lt) (build_upper lib software r.0 placed x r.1))
              (sym left)
              (build_upper-Built r.0 m.fine (suc s) c lt placed height level (fine.height) r.1
                (λ i small. rs i (omega (arith, ap (λ n. 2 ^ n) height)) ∙ upper_value s c i lt)))
            λ sub b. (m, Built-Held r.0 m.fine (suc s) c lt sub b))
    where
      placed : Subtree
      placed = record scratch {
        level = suc s * ctx.subtree_size + scratch.height;
        levels_below = suc s * ctx.subtree_size;
        tree_height = ctx.height;
      }

      span : ℕ
      span = 2 ^ (s * ctx.subtree_size + (ctx.levels s).upcoming.height)

      room : ctx.alloc (2 ^ scratch.height * ctx.n) ≡ true
      room = ap₂ (λ a b. ctx.alloc (2 ^ a * b)) height (fine.n_32) ∙ fine.alloc (suc s) lt

      span_eq : span ≡ 2 ^ at_root s
      span_eq = ap₂ (λ a b. 2 ^ (s * a + b)) (fine.subtree_size) (fine.upcoming_height s lt)

      place : (k : ℕ) → lo + k * span ≡ (c * 2 ^ H (suc s) + k) * 2 ^ at_root s
      place k =
          ap₂ (λ a b. a + k * b) (e ∙ shifted s c lt) span_eq
          ∙ add_times (c * 2 ^ H (suc s)) k (2 ^ at_root s)

      left : lo / 2 ^ (suc s * ctx.subtree_size) ≡ c * 2 ^ H (suc s)
      left =
          ap₂ (λ a b. a / 2 ^ b) (e ∙ shifted s c lt)
            (ap (λ n. suc s * n) (fine.subtree_size) ∙ sym (next_level lms.height S j top fit s lt))
          ∙ mul-div_cancel (c * 2 ^ H (suc s)) (pow_pos (at_root s))

      level : suc s * ctx.subtree_size + scratch.height ≡ at_root (suc s)
      level = ap₂ (λ a b. suc s * a + b) (fine.subtree_size) height

  -- The lowest sublevel.
  bottom-Done : Below (build_at lib software zero priv) zero
  unfolding build_at
  bottom-Done ctx c lo scratch fine lt height e =
      Gives-bind (B ctx fine 0 c lt) (Done 0 c ctx) (build_bottom lib software ctx priv placed lo)
        (λ sub. ok (ctx, sub))
        (subst (λ x. Gives (B ctx fine 0 c lt) (build_bottom lib software ctx priv placed x))
          (sym (e ∙ ap (λ n. c * 2 ^ n) (plain j)))
          (build_bottom-Built ctx fine 0 c lt placed height (height ∙ sym (plain j)) (fine.height)
            refl))
        (λ sub b. (record { fine = fine; active = λ i. refl }, Built-Held ctx fine 0 c lt sub b))
    where
      placed : Subtree
      placed = record scratch { level = scratch.height; levels_below = 0; tree_height = ctx.height }

      plain : (j : ℕ) → 0 * j + H 0 ≡ H 0
      plain j = omega arith

  -- Subtree `c` of sublevel `s` is built.
  pub build_at-Done : (s : ℕ) → Below (build_at lib software s priv) s
  build_at-Done zero = bottom-Done
  build_at-Done (suc s) = above-Done s (build_at-Done s)
