-- ===== src/Lms/Subtree/Refine.antt =====
-- The authentication paths of the cache of src/lms_subtree.c, against the loop of lms_do_sign
-- (src/lms_sign.c).
use native.Mathlib.Nat.{mul-div_cancel, div-eq_of_lt, pow-le-pow_right, div-mul-le_self}
use sec_lms.Prelude.{
  ℕ, zero, suc, ◌+◌, ◌-◌, ◌*◌, ◌/◌, ◌^◌, ◌≤◌, ◌<◌, ◌≡◌, inl, inr, sym, subst, ◌∙◌, ap, ap₂, false,
  List, length, arith, ℕ_discrete, Bool-cases, ltb, leb, leb→le, eq→==, lt→ltb, ltb→lt, if_cases,
}
use sec_lms.Lms.{ok, invalid, ◌>>=◌, or_fail, PrivateKey}
use sec_lms.Lms.Results.{Gives, Gives-bind, Gives-or_fail, Gives_map}
use sec_lms.Lms.Params.{LmsParam, LmotsParam, matching_params}
use sec_lms.Lms.Params.Matching.{lms_param_bounds}
use sec_lms.Lms.Hash.{HashLib, IsHashLib}
use sec_lms.Lms.Ots.{software}
use sec_lms.Lms.Tree.Laws.{zero_add, lms_known}
use sec_lms.Lms.Sign.{auth_path}
use sec_lms.Lms.Verify.Path.{auth_path-siblings}
use sec_lms.Lms.Verify.Correct.{leaf_AtLevel}
use sec_lms.Lms.Coprocess.Filled.{pow_pos}
use sec_lms.Lms.Subtree.{Subtree}
use sec_lms.Lms.Subtree.Context.{TreeCtx}
use sec_lms.Lms.Subtree.Cache.{
  set_active, build_at, sub64, leaf_lo, leaf_span, advance_one, advance_from, sign_advance,
  ctx_auth_path, auth_path_backend,
}
use sec_lms.Lms.Subtree.Geometry.{div_of}
use sec_lms.Lms.Subtree.Held.{Fits, size, root_level, root_level_le, size_top, V}
use sec_lms.Lms.Subtree.Rebuild.{build_at-Done}
use sec_lms.Lms.Subtree.Paths.{ctx_auth_path-siblings}
use sec_lms.Lms.Subtree.Cached.{Cached, FineCtx, HoldsAt, DoneAt, set_active-Fine, set_active-Holds}

wrapped : (q lo : ℕ) → q < lo → lo < 2 ^ 25 → 2 ^ 25 ≤ sub64 q lo
wrapped q lo lt small = ground arith

plain : (q lo : ℕ) → lo ≤ q → sub64 q lo ≡ q - lo
plain q lo le = ground arith

ge : (a b : ℕ) → leb a b ≡ false → b < a
ge a b e = ground arith

-- The subtree above a leaf, from the test of lms_tree_sign_advance.
same_subtree :
    (q q' l : ℕ)
    → q < 2 ^ 25
    → q' < 2 ^ 25
    → 2 ^ l ≤ 2 ^ 25
    → sub64 q (q' / 2 ^ l * 2 ^ l) < 2 ^ l
    → q / 2 ^ l ≡ q' / 2 ^ l
same_subtree q q' l lt lt' small within = elim (Bool-cases (leb (q' / 2 ^ l * 2 ^ l) q)) [
  | inl e ↦
      div_of q (2 ^ l) (q' / 2 ^ l) (q - q' / 2 ^ l * 2 ^ l) (pow_pos l)
        (omega (arith, plain q (q' / 2 ^ l * 2 ^ l) (leb→le (q' / 2 ^ l * 2 ^ l) q e)))
        (omega (arith, leb→le (q' / 2 ^ l * 2 ^ l) q e))
  | inr e ↦ absurd (
      omega (
        arith,
        wrapped q (q' / 2 ^ l * 2 ^ l) (ge (q' / 2 ^ l * 2 ^ l) q e)
            (omega (arith, div-mul-le_self q' (2 ^ l))),
      ))
]

module _ (lib : HashLib) (h : IsHashLib lib) (big : 0xffff ≤ lib.size_max) (priv : PrivateKey)
    (lms : LmsParam) (p : LmotsParam)
    (known : matching_params priv.lms_type priv.lmots_type ≡ ok (lms, p))
    (len_I : length priv.I ≡ 16) (S j top : ℕ) (fit : Fits lms.height S j top) where
  abbrev Fine' : TreeCtx → Type 0
  Fine' ctx = FineCtx lib h big priv lms p known len_I S j top fit ctx

  abbrev Holds' : ℕ → ℕ → Subtree → Type 0
  Holds' s c sub = HoldsAt lib h big priv lms p known len_I S j top fit s c sub

  abbrev at_root : ℕ → ℕ
  at_root s = root_level S j top s

  abbrev H : ℕ → ℕ
  H s = size S j top s

  abbrev tree : ℕ → ℕ → List ℕ
  tree d num = V lib h big priv lms p known len_I S j top fit d num

  abbrev IsCached : ℕ → TreeCtx → Type 0
  IsCached q ctx = Cached lib h big priv lms p known len_I S j top fit q ctx

  height_le : 2 ^ lms.height ≤ 2 ^ 25
  height_le =
      pow-le-pow_right (omega arith)
        (lms_param_bounds priv.lms_type lms (lms_known lib h big priv lms p known len_I)).1

  root_le : (s : ℕ) → s < S → 2 ^ at_root s ≤ 2 ^ 25
  root_le s lt = omega (
    arith,
    height_le,
    pow-le-pow_right {n = 2} (omega arith) (root_level_le lms.height S j top fit s lt),
  )

  -- Sublevels below `s` are those of leaf `q`, the others those of leaf `q'`.
  record Between (s q q' : ℕ) (ctx : TreeCtx) : Type 0 where
    fine : Fine' ctx
    moved_on : (i : ℕ) → i < s → Holds' i (q / 2 ^ at_root i) (ctx.levels i).active
    before : (i : ℕ) → s ≤ i → i < S → Holds' i (q' / 2 ^ at_root i) (ctx.levels i).active

  lo_of : (s c : ℕ) (sub : Subtree) → Holds' s c sub → leaf_lo sub ≡ c * 2 ^ at_root s
  lo_of s c sub held =
      ap₂ (λ a b. a / 2 ^ b * 2 ^ sub.level) (held.left_leaf) (held.height)
      ∙ ap₂ (λ a b. a * 2 ^ b) (mul-div_cancel c (pow_pos (H s))) (held.level)

  advance_one-Between :
      (s q q' : ℕ) (ctx : TreeCtx)
      → s < S
      → q < 2 ^ lms.height
      → q' < 2 ^ lms.height
      → Between s q q' ctx
      → Gives (Between (suc s) q q') (advance_one lib software priv q s ctx)
  advance_one-Between s q q' ctx lt small small' b =
      if_cases (Gives (Between (suc s) q q')) (ltb (sub64 q (leaf_lo active)) (leaf_span active))
        (λ e. record {
          fine = b.fine;
          moved_on = λ i le. elim (ℕ_discrete i s) [
            | yes same ↦
                subst (λ x. Holds' x (q / 2 ^ at_root x) (ctx.levels x).active) (sym same)
                  (subst (λ c. Holds' s c active)
                    (sym (stays (ltb→lt (sub64 q (leaf_lo active)) (leaf_span active) e))) held)
            | no n ↦ b.moved_on i (omega (arith, n))
          ];
          before = λ i le small_i. b.before i (omega arith) small_i;
        })
        (λ e.
          Gives-bind D (Between (suc s) q q')
            (or_fail
              (build_at lib software s priv ctx (q / leaf_span active * leaf_span active) active)
              invalid)
            (λ r. ok (set_active r.0 s r.1))
            (Gives-or_fail D
              (build_at lib software s priv ctx (q / leaf_span active * leaf_span active) active)
              invalid
              (build_at-Done lib h big priv lms p known len_I S j top fit s ctx (q / 2 ^ at_root s)
                (q / leaf_span active * leaf_span active) active b.fine lt held.height
                (ap (λ n. q / 2 ^ n * 2 ^ n) held.level)))
            rebuilt)
    where
      active : Subtree
      active = (ctx.levels s).active

      held : Holds' s (q' / 2 ^ at_root s) (ctx.levels s).active
      held = b.before s (omega arith) lt

      D : TreeCtx × Subtree → Type 0
      D = DoneAt lib h big priv lms p known len_I S j top fit s (q / 2 ^ at_root s) ctx

      stays :
          sub64 q (leaf_lo (ctx.levels s).active) < leaf_span (ctx.levels s).active
          → q / 2 ^ at_root s ≡ q' / 2 ^ at_root s
      stays within =
          same_subtree q q' (at_root s) (omega (arith, height_le)) (omega (arith, height_le))
            (root_le s lt)
            (subst (λ n. sub64 q n < 2 ^ at_root s)
              (lo_of s (q' / 2 ^ at_root s) (ctx.levels s).active held)
              (subst (λ n. sub64 q (leaf_lo (ctx.levels s).active) < 2 ^ n) held.level within))

      rebuilt : (r : TreeCtx × Subtree) → D r → Between (suc s) q q' (set_active r.0 s r.1)
      rebuilt r (m, new) = record {
        fine =
            set_active-Fine lib h big priv lms p known len_I S j top fit ctx r.0 s
              (q / 2 ^ at_root s) r.1 m new;
        moved_on = λ i le.
            set_active-Holds lib h big priv lms p known len_I S j top fit ctx r.0 s
              (q / 2 ^ at_root s) r.1 m new i (q / 2 ^ at_root i)
              (λ e. ap (λ x. q / 2 ^ at_root x) e) (λ n. b.moved_on i (omega (arith, n)));
        before = λ i le small_i.
            set_active-Holds lib h big priv lms p known len_I S j top fit ctx r.0 s
              (q / 2 ^ at_root s) r.1 m new i (q' / 2 ^ at_root i) (λ e. absurd (omega arith))
              (λ n. b.before i (omega arith) small_i);
      }

  advance_from-Between :
      (count s q q' : ℕ) (ctx : TreeCtx)
      → s + suc count ≡ S
      → q < 2 ^ lms.height
      → q' < 2 ^ lms.height
      → Between s q q' ctx
      → Gives (Between (S - 1) q q') (advance_from lib software count priv q s ctx)
  advance_from-Between zero s q q' ctx sum small small' b =
      subst (λ n. Between n q q' ctx) (omega arith) b
  advance_from-Between (suc count) s q q' ctx sum small small' b =
      Gives-bind (Between (suc s) q q') (Between (S - 1) q q')
        (advance_one lib software priv q s ctx)
        (λ next. advance_from lib software count priv q (suc s) next)
        (advance_one-Between s q q' ctx (omega arith) small small' b)
        λ next b'. advance_from-Between count (suc s) q q' next (omega arith) small small' b'

  -- The top subtree is the whole rest of the tree, whatever the leaf.
  top_root : at_root (S - 1) ≡ lms.height
  top_root = omega (arith, size_top S j top (S - 1) (omega (arith, fit.some_level)), fit.total)

  at_top : (q : ℕ) → q < 2 ^ lms.height → q / 2 ^ at_root (S - 1) ≡ 0
  at_top q lt = ap (λ n. q / 2 ^ n) top_root ∙ div-eq_of_lt lt

  all_Between :
      (q q' : ℕ) (ctx : TreeCtx)
      → q < 2 ^ lms.height
      → q' < 2 ^ lms.height
      → Between (S - 1) q q' ctx
      → IsCached q ctx
  all_Between q q' ctx small small' b = record {
    fine = b.fine;
    covers = λ s lt. elim (ℕ_discrete s (S - 1)) [
      | yes e ↦
          subst (λ x. Holds' x (q / 2 ^ at_root x) (ctx.levels x).active) (sym e)
            (subst (λ c. Holds' (S - 1) c (ctx.levels (S - 1)).active)
              (at_top q' small' ∙ sym (at_top q small))
              (b.before (S - 1) (omega arith) (omega (arith, fit.some_level))))
      | no n ↦ b.moved_on s (omega (arith, n))
    ];
  }

  sign_advance-Cached :
      (q q' : ℕ) (ctx : TreeCtx)
      → q < 2 ^ lms.height
      → q' < 2 ^ lms.height
      → IsCached q' ctx
      → Gives (IsCached q) (sign_advance lib software ctx priv q)
  unfolding sign_advance
  sign_advance-Cached q q' ctx small small' c = rw (eq→== (sym c.fine.lms_type)) (
      rw (lt→ltb q (2 ^ ctx.height) (omega (arith, small, ap (λ n. 2 ^ n) (c.fine.height)))) (
        Gives_map (Between (S - 1) q q') (IsCached q)
          (advance_from lib software (ctx.sublevels - 1) priv q 0 ctx)
          (advance_from-Between (ctx.sublevels - 1) 0 q q' ctx
            (omega (arith, c.fine.sublevels, fit.some_level)) small small'
            (record {
              fine = c.fine;
              moved_on = λ i lt. absurd (omega arith);
              before = λ i le lt. c.covers i lt;
            }))
          (λ next b. all_Between q q' next small small' b)))

  -- Without backends, for a key of known types of one hash function, with an I of 16 bytes, and a
  -- context that fits it, in which every active subtree is complete and the one above some leaf: for
  -- each leaf, lms_subtree_auth_path_backend succeeds; it gives the authentication path that the loop
  -- of lms_do_sign computes for that leaf, and every active subtree is the one above that leaf.
  pub auth_path_backend-Cached :
      (q q' : ℕ) (ctx : TreeCtx)
      → q < 2 ^ lms.height
      → q' < 2 ^ lms.height
      → IsCached q' ctx
      → Gives
          (λ r.
            IsCached q r.0 × (ok r.1 ≡ auth_path lib software lms.height priv (2 ^ lms.height + q)))
          (auth_path_backend lib software ctx priv q)
  unfolding auth_path_backend
  auth_path_backend-Cached q q' ctx small small' c =
      Gives-bind (IsCached q)
        (λ r.
          IsCached q r.0 × (ok r.1 ≡ auth_path lib software lms.height priv (2 ^ lms.height + q)))
        (or_fail (sign_advance lib software ctx priv q) invalid)
        (λ next. ctx_auth_path next q >>= λ path. ok (next, path))
        (Gives-or_fail (IsCached q) (sign_advance lib software ctx priv q) invalid
          (sign_advance-Cached q q' ctx small small' c))
        λ next n.
          rw (ctx_auth_path-siblings lib h big priv lms p known len_I S j top fit q next small n) (
            n,
            sym (
                auth_path-siblings lib h big priv lms p known len_I lms.height 0
                  (2 ^ lms.height + q) (zero_add lms.height) (leaf_AtLevel lms.height q small)),
          )
