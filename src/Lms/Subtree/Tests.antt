-- ===== src/Lms/Subtree/Tests.antt =====
-- The theorems on src/lms_subtree.c at a tree of height 5 in subtrees of 2, 2 and 1 levels.
use sec_lms.Prelude.{ℕ, suc, ◌+◌, ◌^◌, ◌≤◌, ◌≡◌, refl, true, none, arith, ltb}
use sec_lms.Lms.{ok, sha256, ◌>>=◌}
use sec_lms.Lms.Results.{Gives, Gives-value}
use sec_lms.Lms.Params.{lms_param}
use sec_lms.Lms.Ots.{software}
use sec_lms.Lms.Sign.{auth_path}
use sec_lms.Lms.Tests.{toy, toy-IsHashLib, toy_key, toy_lms, toy_ots, toy_known}
use sec_lms.Lms.Subtree.Config.{tree_configure}
use sec_lms.Lms.Subtree.Optimal.{Optimal, tree_configure-Optimal}
use sec_lms.Lms.Subtree.Context.{TreeCtx, Sublevel, zeroed, empty_subtree, tree_ctx_init}
use sec_lms.Lms.Subtree.Cache.{sign_init, auth_path_backend}
use sec_lms.Lms.Subtree.Held.{Fits, size, Shaped}
use sec_lms.Lms.Subtree.Cached.{Cached, sign_init-Cached}
use sec_lms.Lms.Subtree.Start.{Started, configured-Started}
use sec_lms.Lms.Subtree.Refine.{auth_path_backend-Cached}

toy_fits : Fits 5 3 2 1
toy_fits = record {
  some_level = omega arith;
  some_height = omega arith;
  bounded = omega arith;
  some_top = omega arith;
  top_le = omega arith;
  total = refl;
}

big : 0xffff ≤ toy.size_max
big = omega arith

abbrev toy_sublevel : ℕ → Sublevel
toy_sublevel s = record {
  active = record empty_subtree { height = size 3 2 1 s; nodes = zeroed 32; stack = zeroed 32 };
  upcoming = record empty_subtree { height = size 3 2 1 s; nodes = zeroed 32; stack = zeroed 32 };
  has_upcoming = ltb (suc s) 3;
}

abbrev toy_ctx : TreeCtx
toy_ctx = record {
  lms_type = 5;
  height = 5;
  n = 32;
  subtree_size = 2;
  sublevels = 3;
  top_subtree_size = 1;
  hash_alg = sha256;
  I = toy_key.I;
  levels = toy_sublevel;
  ots_pub = none;
  leaf_fn = none;
  alloc = λ n. true;
}

toy-Shaped :
    Shaped toy toy-IsHashLib big toy_key toy_lms toy_ots toy_known refl 3 2 1 toy_fits toy_ctx
toy-Shaped = record {
  lms_type = refl;
  height = refl;
  n_32 = refl;
  subtree_size = refl;
  sublevels = refl;
  hash_alg = refl;
  I = refl;
  no_ots_pub = refl;
  no_leaf_fn = refl;
  alloc = λ s lt. refl;
  active_height = λ s lt. refl;
  upcoming_height = λ s lt. refl;
}

abbrev IsCached : ℕ → TreeCtx → Type 0
IsCached q ctx =
    Cached toy toy-IsHashLib big toy_key toy_lms toy_ots toy_known refl 3 2 1 toy_fits q ctx

sign_init-Cached_example : Gives (IsCached 0) (sign_init toy software toy_ctx toy_key)
sign_init-Cached_example =
    sign_init-Cached toy toy-IsHashLib big toy_key toy_lms toy_ots toy_known refl 3 2 1 toy_fits
      toy_ctx toy-Shaped

-- The context after initialization.
started : (ctx : TreeCtx) × (sign_init toy software toy_ctx toy_key ≡ ok ctx) × IsCached 0 ctx
started = Gives-value (IsCached 0) (sign_init toy software toy_ctx toy_key) (
    sign_init-Cached toy toy-IsHashLib big toy_key toy_lms toy_ots toy_known refl 3 2 1 toy_fits
      toy_ctx toy-Shaped)

-- The path of leaf 13, for which two of the three sublevels are rebuilt.
auth_path_backend-Cached_example :
    Gives
      (λ r. IsCached 13 r.0 × (ok r.1 ≡ auth_path toy software 5 toy_key (2 ^ 5 + 13)))
      (auth_path_backend toy software started.0 toy_key 13)
auth_path_backend-Cached_example =
    auth_path_backend-Cached toy toy-IsHashLib big toy_key toy_lms toy_ots toy_known refl 3 2 1
      toy_fits 13 0 started.0 (omega arith) (omega arith) (started.2)

configured-Started_example :
    Gives (Started toy toy-IsHashLib big toy_key toy_lms toy_ots toy_known refl) (
      tree_configure 5 1000 >>= λ c.
      tree_ctx_init 72 c toy_key.I none (λ b. true) >>= λ ctx. sign_init toy software ctx toy_key)
configured-Started_example =
    configured-Started toy toy-IsHashLib big toy_key toy_lms toy_ots toy_known refl 1000 72
      (λ b. true) (λ b. refl)

-- With 1000 bytes for a tree of height 5.
tree_configure-Optimal_example : Gives (Optimal 5 toy_lms 1000) (tree_configure 5 1000)
unfolding lms_param
tree_configure-Optimal_example = tree_configure-Optimal 5 1000 toy_lms refl
