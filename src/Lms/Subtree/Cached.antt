-- ===== src/Lms/Subtree/Cached.antt =====
-- The state of the cache of src/lms_subtree.c between signatures, and lms_tree_sign_init.
use native.Mathlib.Nat.{div-eq_of_lt}
use sec_lms.Prelude.{
  ℕ, zero, suc, ◌+◌, ◌/◌, ◌^◌, ◌≤◌, ◌<◌, ◌≡◌, ◌≢◌, sym, subst, ◌∙◌, ap, length, arith, ℕ_discrete,
  eq→==,
}
use sec_lms.Lms.{ok, invalid, or_fail, PrivateKey}
use sec_lms.Lms.Results.{Gives, Gives-bind, Gives-or_fail}
use sec_lms.Lms.Params.{LmsParam, LmotsParam, matching_params}
use sec_lms.Lms.Hash.{HashLib, IsHashLib}
use sec_lms.Lms.Ots.{software}
use sec_lms.Lms.Coprocess.Filled.{pow_pos}
use sec_lms.Lms.Subtree.{Subtree}
use sec_lms.Lms.Subtree.Context.{Sublevel, TreeCtx, set_level}
use sec_lms.Lms.Subtree.Cache.{set_active, build_at, init_from, sign_init}
use sec_lms.Lms.Subtree.Held.{Fits, size, root_level, set_level_self, set_level_ne}
use sec_lms.Lms.Subtree.Rebuild.{Fine, Holds, Moved, Done, build_at-Done}

module _ (lib : HashLib) (h : IsHashLib lib) (big : 0xffff ≤ lib.size_max) (priv : PrivateKey)
    (lms : LmsParam) (p : LmotsParam)
    (known : matching_params priv.lms_type priv.lmots_type ≡ ok (lms, p))
    (len_I : length priv.I ≡ 16) (S j top : ℕ) (fit : Fits lms.height S j top) where
  abbrev pub FineCtx : TreeCtx → Type 0
  FineCtx ctx = Fine lib h big priv lms p known len_I S j top fit ctx

  abbrev pub HoldsAt : ℕ → ℕ → Subtree → Type 0
  HoldsAt s c sub = Holds lib h big priv lms p known len_I S j top fit s c sub

  abbrev pub DoneAt : ℕ → ℕ → TreeCtx → TreeCtx × Subtree → Type 0
  DoneAt s c ctx r = Done lib h big priv lms p known len_I S j top fit s c ctx r

  abbrev pub MovedTo : TreeCtx → TreeCtx → Type 0
  MovedTo ctx ctx' = Moved lib h big priv lms p known len_I S j top fit ctx ctx'

  abbrev pub H : ℕ → ℕ
  H s = size S j top s

  abbrev pub at_root : ℕ → ℕ
  at_root s = root_level S j top s

  -- The active subtrees of the sublevels below `n` are those above leaf `q`.
  abbrev pub Covers : ℕ → ℕ → TreeCtx → Type 0
  Covers n q ctx = (s : ℕ) → s < n → HoldsAt s (q / 2 ^ at_root s) (ctx.levels s).active

  -- The state between signatures: every active subtree is the one above leaf `q`.
  pub record Cached (q : ℕ) (ctx : TreeCtx) : Type 0 where
    pub fine : FineCtx ctx
    pub covers : Covers S q ctx

  -- A rebuilt subtree becomes the active one.
  pub set_active-Fine :
      (ctx ctx' : TreeCtx) (s c : ℕ) (sub : Subtree)
      → MovedTo ctx ctx'
      → HoldsAt s c sub
      → FineCtx (set_active ctx' s sub)
  set_active-Fine ctx ctx' s c sub m held = record {
    lms_type = m.fine.lms_type;
    height = m.fine.height;
    n_32 = m.fine.n_32;
    subtree_size = m.fine.subtree_size;
    sublevels = m.fine.sublevels;
    hash_alg = m.fine.hash_alg;
    I = m.fine.I;
    no_ots_pub = m.fine.no_ots_pub;
    no_leaf_fn = m.fine.no_leaf_fn;
    alloc = m.fine.alloc;
    active_height = λ i lt. elim (ℕ_discrete i s) [
      | yes eq ↦
          subst (λ x. (set_level ctx'.levels s written x).active.height ≡ H x) (sym eq)
            (ap (λ l. l.active.height) (set_level_self ctx'.levels s written) ∙ held.height)
      | no n ↦
          ap (λ l. l.active.height) (set_level_ne ctx'.levels s written i n)
          ∙ m.fine.active_height i lt
    ];
    upcoming_height = λ i lt. elim (ℕ_discrete i s) [
      | yes eq ↦
          subst (λ x. (set_level ctx'.levels s written x).upcoming.height ≡ H x) (sym eq)
            (ap (λ l. l.upcoming.height) (set_level_self ctx'.levels s written)
              ∙ m.fine.upcoming_height s (subst (λ x. suc x < S) eq lt))
      | no n ↦
          ap (λ l. l.upcoming.height) (set_level_ne ctx'.levels s written i n)
          ∙ m.fine.upcoming_height i lt
    ];
  }
    where
      written : Sublevel
      written = record (ctx'.levels s) { active = sub }

  -- What is held afterwards: the new subtree, and elsewhere what was held before.
  pub set_active-Holds :
      (ctx ctx' : TreeCtx) (s c : ℕ) (sub : Subtree)
      → MovedTo ctx ctx'
      → HoldsAt s c sub
      → (i c' : ℕ) → (i ≡ s → c' ≡ c)
      → (i ≢ s → HoldsAt i c' (ctx.levels i).active)
      → HoldsAt i c' (set_level ctx'.levels s (record (ctx'.levels s) { active = sub }) i).active
  set_active-Holds ctx ctx' s c sub m held i c' same other = elim (ℕ_discrete i s) [
    | yes eq ↦
        subst (λ x. HoldsAt x c' (set_level ctx'.levels s written x).active) (sym eq)
          (subst (λ x. HoldsAt s x (set_level ctx'.levels s written s).active) (sym (same eq))
            (subst (λ (l : Sublevel). HoldsAt s c l.active)
              (sym (set_level_self ctx'.levels s written)) held))
    | no n ↦
        subst (λ (l : Sublevel). HoldsAt i c' l.active)
          (sym (set_level_ne ctx'.levels s written i n))
          (subst (λ x. HoldsAt i c' x) (sym (m.active i)) (other n))
  ]
    where
      written : Sublevel
      written = record (ctx'.levels s) { active = sub }

  -- The loop of lms_tree_sign_init.
  init_from-Cached :
      (count s : ℕ) (ctx : TreeCtx)
      → s + count ≡ S
      → FineCtx ctx
      → Covers s 0 ctx
      → Gives (Cached 0) (init_from lib software count priv s ctx)
  init_from-Cached zero s ctx sum fine c = record {
    fine = fine;
    covers = λ i lt. c i (omega arith);
  }
  init_from-Cached (suc count) s ctx sum fine c =
      Gives-bind (DoneAt s 0 ctx) (Cached 0)
        (or_fail (build_at lib software s priv ctx 0 (ctx.levels s).active) invalid)
        (λ r. init_from lib software count priv (suc s) (set_active r.0 s r.1))
        (Gives-or_fail (DoneAt s 0 ctx) (build_at lib software s priv ctx 0 (ctx.levels s).active)
          invalid
          (build_at-Done lib h big priv lms p known len_I S j top fit s ctx 0 0
            (ctx.levels s).active fine (omega arith) (fine.active_height s (omega arith))
            (omega arith)))
        λ r (m, held).
          init_from-Cached count (suc s) (set_active r.0 s r.1) (omega arith)
            (set_active-Fine ctx r.0 s 0 r.1 m held)
            (λ i lt.
              set_active-Holds ctx r.0 s 0 r.1 m held i (0 / 2 ^ at_root i)
                (λ e. zero_div (at_root i)) (λ n. c i (omega (arith, n))))
    where
      zero_div : (k : ℕ) → 0 / 2 ^ k ≡ 0
      zero_div k = div-eq_of_lt (pow_pos k)

  -- Without backends, for a key of known types of one hash function, with an I of 16 bytes, and a
  -- context that fits it: lms_tree_sign_init succeeds, and every active subtree is complete, the one
  -- above the first leaf, with the values of the tree.
  pub sign_init-Cached :
      (ctx : TreeCtx) → FineCtx ctx → Gives (Cached 0) (sign_init lib software ctx priv)
  unfolding sign_init
  sign_init-Cached ctx fine = rw (eq→== (sym fine.lms_type)) (
      init_from-Cached ctx.sublevels 0 ctx (omega (arith, fine.sublevels)) fine
        (λ i lt. absurd (omega arith)))
