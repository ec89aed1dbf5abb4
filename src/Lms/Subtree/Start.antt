-- ===== src/Lms/Subtree/Start.antt =====
-- lms_tree_ctx_init of src/lms_subtree.c, on what lms_tree_configure gives.
use sec_lms.Prelude.{
  ℕ, ◌+◌, ◌-◌, ◌*◌, ◌%◌, ◌^◌, ◌≤◌, ◌<◌, ◌≡◌, ◌∙◌, refl, sym, subst, Bool, true, not, none, length,
  ltb, ◌==◌, ◌||◌, take-length, arith,
}
use sec_lms.Lms.{ok, ◌>>=◌, PrivateKey}
use sec_lms.Lms.Results.{Gives, Gives-bind, Gives_map}
use sec_lms.Lms.Params.{LmsParam, LmotsParam, lms_param, matching_params}
use sec_lms.Lms.Params.Matching.{matching_params-parts, lms_param_bounds}
use sec_lms.Lms.Hash.{HashLib, IsHashLib}
use sec_lms.Lms.Ots.{software}
use sec_lms.Lms.Subtree.Config.{TreeConfig, tree_configure}
use sec_lms.Lms.Subtree.Context.{TreeCtx, empty_sublevel, init_levels, tree_ctx_init}
use sec_lms.Lms.Subtree.Cache.{sign_init}
use sec_lms.Lms.Subtree.Held.{Fits, Shaped}
use sec_lms.Lms.Subtree.Optimal.{Optimal, tree_configure-Optimal}
use sec_lms.Lms.Subtree.Cached.{Cached, sign_init-Cached}
use sec_lms.Lms.Subtree.Layers.{layers-Fits, estimate_layers}
use sec_lms.Lms.Subtree.Sized.{all_sized}

-- The height of the top subtree, as lms_tree_ctx_init computes it on 32 bits.
top_height :
    (height S j : ℕ)
    → (S - 1) * j ≤ height
    → height ≤ 25
    → (height + 2 ^ 32 - (S - 1) * j % 2 ^ 32) % 2 ^ 32 ≡ height - (S - 1) * j
top_height height S j le small = wraps ((S - 1) * j) le
  where
    wraps : (x : ℕ) → x ≤ height → (height + 2 ^ 32 - x % 2 ^ 32) % 2 ^ 32 ≡ height - x
    wraps x le = omega (arith, small)

accepted :
    (S j n height : ℕ)
    → 0 < S
    → 2 ≤ j
    → n ≡ 32
    → 0 < height
    → height ≤ 25
    → not (S == 0 || ltb j 2 || n == 0 || height == 0 || ltb 25 height) ≡ true
accepted S j n height s two e lo hi = ground arith

module _ (lib : HashLib) (h : IsHashLib lib) (big : 0xffff ≤ lib.size_max) (priv : PrivateKey)
    (lms : LmsParam) (p : LmotsParam)
    (known : matching_params priv.lms_type priv.lmots_type ≡ ok (lms, p))
    (len_I : length priv.I ≡ 16) where
  -- The subtrees of a context, which cache the path of leaf 0.
  abbrev pub Started : TreeCtx → Type 0
  Started ctx =
      (S : ℕ) × (j : ℕ) × (top : ℕ) × (fit : Fits lms.height S j top) × Cached lib h big priv lms p
        known len_I S j top fit 0 ctx

  known_lms : lms_param priv.lms_type ≡ ok lms
  known_lms = (matching_params-parts priv.lms_type priv.lmots_type lms p known).0

  config-Fits :
      (target : ℕ) (c : TreeConfig)
      → Optimal priv.lms_type lms target c
      → Fits lms.height c.sublevels c.subtree_size (lms.height - (c.sublevels - 1) * c.subtree_size)
  config-Fits target c o =
      let (w, hi, n, lo) = lms_param_bounds priv.lms_type lms known_lms in
      subst (λ S. Fits lms.height S c.subtree_size (lms.height - (S - 1) * c.subtree_size))
        (sym (estimate_layers lms.height c.subtree_size lms.n o.lower o.upper n) ∙ sym o.sublevels)
        (layers-Fits lms.height c.subtree_size o.lower o.upper hi)

  tree_ctx_init-Shaped :
      (target unit : ℕ) (alloc : ℕ → Bool)
      → ((b : ℕ) → alloc b ≡ true)
      → (c : TreeConfig) (o : Optimal priv.lms_type lms target c) → c.lms_type ≡ priv.lms_type
      → c.n ≡ 32
      → Gives
          (Shaped lib h big priv lms p known len_I c.sublevels c.subtree_size
            (lms.height - (c.sublevels - 1) * c.subtree_size)
            (config-Fits target c o))
          (tree_ctx_init unit c priv.I none alloc)
  unfolding tree_ctx_init
  tree_ctx_init-Shaped target unit alloc gives c o type n =
      let (w, hi, n', lo) = lms_param_bounds priv.lms_type lms known_lms in
      let fit = config-Fits target c o in
      rw
        (accepted c.sublevels c.subtree_size c.n c.height fit.some_level o.lower n
          (omega (arith, o.same_height, lo)) (omega (arith, o.same_height, hi)))
        (rw (type) (
          rw known_lms (
            rw (gives (c.sublevels * unit)) (
              rw (o.same_height) (
                rw (top_height lms.height c.sublevels c.subtree_size (omega (arith, fit.total)) hi)
                  (Gives-bind _ _ (init_levels c.sublevels alloc _ _ 0 (λ s. empty_sublevel)) _
                    (all_sized alloc gives
                      (record c { lms_type = priv.lms_type; height = lms.height })
                      (lms.height - (c.sublevels - 1) * c.subtree_size))
                    λ levels sized. record {
                      lms_type = refl;
                      height = refl;
                      n_32 = n;
                      subtree_size = refl;
                      sublevels = refl;
                      hash_alg = refl;
                      I = take-length 16 priv.I len_I;
                      no_ots_pub = refl;
                      no_leaf_fn = refl;
                      alloc = λ s lt. gives _;
                      active_height = λ s lt. (sized s lt).0;
                      upcoming_height = λ s lt. (sized s (omega arith)).1 lt;
                    }))))))

  -- For a key of known types of one hash function, with an I of 16 bytes, an allocator that never
  -- refuses, and any memory target: lms_tree_configure, lms_tree_ctx_init on what it gives and
  -- lms_tree_sign_init on the context, without backends, all succeed, and the subtrees of the context
  -- then cache the authentication path of leaf 0.
  pub configured-Started :
      (target unit : ℕ) (alloc : ℕ → Bool)
      → ((b : ℕ) → alloc b ≡ true)
      → Gives Started (
          tree_configure priv.lms_type target >>= λ c.
          tree_ctx_init unit c priv.I none alloc >>= λ ctx. sign_init lib software ctx priv)
  configured-Started target unit alloc gives =
      Gives-bind (λ c. Optimal priv.lms_type lms target c) Started
        (tree_configure priv.lms_type target) _
        (tree_configure-Optimal priv.lms_type target lms known_lms)
        λ c o.
          Gives-bind _ Started (tree_ctx_init unit c priv.I none alloc) _
            (tree_ctx_init-Shaped target unit alloc gives c o o.same_type
              (o.same_n ∙ (lms_param_bounds priv.lms_type lms known_lms).2))
            λ ctx shape.
              Gives_map _ Started (sign_init lib software ctx priv)
                (sign_init-Cached lib h big priv lms p known len_I c.sublevels c.subtree_size
                  (lms.height - (c.sublevels - 1) * c.subtree_size) (config-Fits target c o) ctx
                  shape)
                λ ctx' cached. (
                  c.sublevels,
                  c.subtree_size,
                  lms.height - (c.sublevels - 1) * c.subtree_size,
                  config-Fits target c o,
                  cached,
                )
