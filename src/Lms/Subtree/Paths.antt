-- ===== src/Lms/Subtree/Paths.antt =====
-- lms_tree_auth_path of src/lms_subtree.c, over all sublevels.
use native.Mathlib.Nat.{div-add-mod, mod-lt, div-one}
use sec_lms.Prelude.{
  ℕ, zero, suc, ◌+◌, ◌-◌, ◌*◌, ◌/◌, ◌%◌, ◌^◌, ◌≤◌, ◌<◌, ◌≡◌, sym, ◌∙◌, ap, ap₂, true, not, List,
  ◌++◌, length, arith, ◌==◌, lt→ltb,
}
use sec_lms.Lms.{ok, PrivateKey}
use sec_lms.Lms.Params.{LmsParam, LmotsParam, matching_params}
use sec_lms.Lms.Hash.{HashLib, IsHashLib}
use sec_lms.Lms.Tree.Laws.{AtLevel, pow_double, zero_add}
use sec_lms.Lms.Verify.Path.{siblings}
use sec_lms.Lms.Coprocess.{siblings_from}
use sec_lms.Lms.Coprocess.Filled.{siblings_from-siblings, pow_pos}
use sec_lms.Lms.Subtree.Context.{TreeCtx}
use sec_lms.Lms.Subtree.Cache.{path_from, ctx_auth_path}
use sec_lms.Lms.Subtree.Stream.{half}
use sec_lms.Lms.Subtree.Geometry.{global, siblings-local_value, siblings-add, half_add, half_div}
use sec_lms.Lms.Subtree.Held.{
  Fits, size, root_level, root_level_le, next_level, size_top, V, values,
}
use sec_lms.Lms.Subtree.Rebuild.{leaf_number}
use sec_lms.Lms.Subtree.Cached.{Cached}

div_pow : (a b x : ℕ) → x / 2 ^ a / 2 ^ b ≡ x / 2 ^ (a + b)
div_pow a b x =
    sym (half_div b (x / 2 ^ a))
    ∙ ap (half b) (sym (half_div a x))
    ∙ half_half a b x
    ∙ half_div (a + b) x
  where
    add_zero : (n : ℕ) → n ≡ n + 0
    add_zero n = omega arith

    add_suc : (n m : ℕ) → suc (n + m) ≡ n + suc m
    add_suc n m = omega arith

    half_half : (a b x : ℕ) → half b (half a x) ≡ half (a + b) x
    half_half a zero x = ap (λ n. half n x) (add_zero a)
    half_half a (suc b) x = ap (λ n. n / 2) (half_half a b x) ∙ ap (λ n. half n x) (add_suc a b)

module _ (lib : HashLib) (h : IsHashLib lib) (big : 0xffff ≤ lib.size_max) (priv : PrivateKey)
    (lms : LmsParam) (p : LmotsParam)
    (known : matching_params priv.lms_type priv.lmots_type ≡ ok (lms, p))
    (len_I : length priv.I ≡ 16) (S j top : ℕ) (fit : Fits lms.height S j top) where
  abbrev tree : ℕ → ℕ → List ℕ
  tree d num = V lib h big priv lms p known len_I S j top fit d num

  abbrev value : ℕ → ℕ → ℕ → ℕ → List ℕ
  value s c d m = values lib h big priv lms p known len_I S j top fit s c d m

  abbrev at_root : ℕ → ℕ
  at_root s = root_level S j top s

  abbrev H : ℕ → ℕ
  H s = size S j top s

  abbrev up : ℕ → ℕ
  up s = lms.height - at_root s

  abbrev IsCached : ℕ → TreeCtx → Type 0
  IsCached q ctx = Cached lib h big priv lms p known len_I S j top fit q ctx

  -- The ancestor of leaf `q` on the level of the leaves of sublevel `s`.
  abbrev leaf_num : ℕ → ℕ → ℕ
  leaf_num s x = 2 ^ (up s + H s) + x

  local_leaf :
      (s q x : ℕ)
      → x ≡ q / 2 ^ (s * j)
      → global (up s) (q / 2 ^ at_root s) (H s) (2 ^ H s + x % 2 ^ H s) ≡ leaf_num s x
  local_leaf s q x e =
      leaf_number (up s) (q / 2 ^ at_root s) (H s) (x % 2 ^ H s)
      ∙ omega (arith, div-add-mod x (2 ^ H s), ap (λ n. 2 ^ H s * n) quotient)
    where
      quotient : x / 2 ^ H s ≡ q / 2 ^ at_root s
      quotient = ap (λ n. n / 2 ^ H s) e ∙ div_pow (s * j) (H s) q

  in_subtree : (H x : ℕ) → AtLevel H (2 ^ H + x % 2 ^ H)
  in_subtree H x = (omega arith, omega (arith, pow_double H, mod-lt x (pow_pos H)))

  -- One sublevel's part of the path.
  part :
      (ctx : TreeCtx) (s q x : ℕ)
      → s < S
      → IsCached q ctx
      → x ≡ q / 2 ^ (s * j)
      → siblings_from (ctx.levels s).active.nodes (H s) (2 ^ H s + x % 2 ^ H s)
        ≡ siblings tree (H s) (s * j) (leaf_num s x)
  part ctx s q x lt c e =
      siblings_from-siblings (H s) (value s (q / 2 ^ at_root s)) (ctx.levels s).active.nodes
        ((c.covers s lt).filled) (H s) 0 (2 ^ H s + x % 2 ^ H s) (zero_add (H s))
        (in_subtree (H s) x)
      ∙ siblings-local_value tree (s * j) (H s) (up s) (q / 2 ^ at_root s) (H s) 0
          (2 ^ H s + x % 2 ^ H s) (zero_add (H s)) (in_subtree (H s) x)
      ∙ ap₂ (siblings tree (H s)) (add_zero (s * j)) (local_leaf s q x e)
    where
      add_zero : (n : ℕ) → n + 0 ≡ n
      add_zero n = omega arith

  joined :
      (count s q x : ℕ) (ctx : TreeCtx)
      → s < S
      → IsCached q ctx
      → x ≡ q / 2 ^ (s * j)
      → path_from count ctx (suc s) (x / 2 ^ H s)
        ≡ siblings tree (up s) (s * j + H s) (2 ^ up s + x / 2 ^ H s)
      → path_from (suc count) ctx s x ≡ siblings tree (H s + up s) (s * j) (leaf_num s x)
  joined count s q x ctx lt c e rest =
      ap
        (λ n.
          siblings_from (ctx.levels s).active.nodes n (2 ^ n + x % 2 ^ n)
          ++ path_from count ctx (suc s) (x / 2 ^ n))
        (c.fine.active_height s lt)
      ∙ ap₂ (λ xs ys. xs ++ ys) (part ctx s q x lt c e)
          (rest
            ∙ ap (siblings tree (up s) (s * j + H s))
                (sym (half_add (H s) (up s) x ∙ ap (λ n. 2 ^ up s + n) (half_div (H s) x))))
      ∙ sym (siblings-add tree (H s) (up s) (s * j) (leaf_num s x))

  path_from-siblings :
      (count s q x : ℕ) (ctx : TreeCtx)
      → s + suc count ≡ S
      → IsCached q ctx
      → x ≡ q / 2 ^ (s * j)
      → path_from (suc count) ctx s x ≡ siblings tree (H s + up s) (s * j) (leaf_num s x)
  path_from-siblings zero s q x ctx sum c e = joined zero s q x ctx (omega arith) c e (
      ap (λ k. siblings tree k (s * j + H s) (2 ^ up s + x / 2 ^ H s))
        (sym (nothing_above (omega arith))))
    where
      pred : (s S : ℕ) → suc s ≡ S → s ≡ S - 1
      pred s S last = omega arith

      nothing_above : suc s ≡ S → up s ≡ 0
      nothing_above last =
          omega (arith, size_top S j top s last, fit.total, ap (λ n. n * j) (pred s S last))
  path_from-siblings (suc count) s q x ctx sum c e =
      joined (suc count) s q x ctx (omega arith) c e (
        path_from-siblings count (suc s) q (x / 2 ^ H s) ctx (omega arith) c (
          ap (λ n. n / 2 ^ H s) e
          ∙ div_pow (s * j) (H s) q
          ∙ ap (λ n. q / 2 ^ n) (next_level lms.height S j top fit s (omega arith)))
        ∙ ap₂ (λ k d. siblings tree k d (2 ^ (up (suc s) + H (suc s)) + x / 2 ^ H s))
            (rest (omega arith)) (sym (next_level lms.height S j top fit s (omega arith)))
        ∙ ap (λ k. siblings tree (up s) (s * j + H s) (2 ^ k + x / 2 ^ H s)) (rest' (omega arith)))
    where
      rest : suc s < S → H (suc s) + up (suc s) ≡ up s
      rest lt = omega (
        arith,
        next_level lms.height S j top fit s lt,
        root_level_le lms.height S j top fit (suc s) lt,
      )

      rest' : suc s < S → up (suc s) + H (suc s) ≡ up s
      rest' lt = omega (arith, rest lt)

  -- The path that is looked up is that of the tree.
  pub ctx_auth_path-siblings :
      (q : ℕ) (ctx : TreeCtx)
      → q < 2 ^ lms.height
      → IsCached q ctx
      → ctx_auth_path ctx q ≡ ok (siblings tree lms.height 0 (2 ^ lms.height + q))
  unfolding ctx_auth_path
  ctx_auth_path-siblings q ctx lt c =
      rw (some_sublevel (ctx.sublevels) (omega (arith, c.fine.sublevels, fit.some_level))) (
        rw (lt→ltb q (2 ^ ctx.height) (omega (arith, lt, ap (λ n. 2 ^ n) (c.fine.height)))) (
          ap ok (
            ap (λ n. path_from n ctx 0 q) (c.fine.sublevels ∙ count_eq S fit.some_level)
            ∙ path_from-siblings (S - 1) 0 q q ctx (omega (arith, fit.some_level)) c
                (sym (div-one q) ∙ ap (λ n. q / 2 ^ n) (no_levels j))
            ∙ ap₂ (λ k d. siblings tree k d (2 ^ (up 0 + H 0) + q))
                (all (root_level_le lms.height S j top fit 0 fit.some_level)) (sym (no_levels j))
            ∙ ap (λ k. siblings tree lms.height 0 (2 ^ k + q))
                (all' (root_level_le lms.height S j top fit 0 fit.some_level)))))
    where
      some_sublevel : (n : ℕ) → 0 < n → not (n == 0) ≡ true
      some_sublevel n lt = ground arith

      count_eq : (n : ℕ) → 0 < n → n ≡ suc (n - 1)
      count_eq n lt = omega arith

      no_levels : (j : ℕ) → 0 ≡ 0 * j
      no_levels j = omega arith

      all : at_root 0 ≤ lms.height → H 0 + up 0 ≡ lms.height
      all le = omega arith

      all' : at_root 0 ≤ lms.height → up 0 + H 0 ≡ lms.height
      all' le = omega arith
