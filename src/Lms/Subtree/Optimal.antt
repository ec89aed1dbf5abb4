-- ===== src/Lms/Subtree/Optimal.antt =====
-- lms_tree_configure of src/lms_subtree.c takes the best size of subtrees.
use sec_lms.Prelude.{
  ℕ, suc, ◌+◌, ◌-◌, ◌≤◌, ◌<◌, ◌≡◌, ◌⊎◌, inl, inr, refl, Bool, true, false, not, ltb, ◌==◌, ◌||◌,
  if◌then◌else◌, subst, arith,
}
use sec_lms.Lms.{ok, invalid, ◌>>◌, guard}
use sec_lms.Lms.Results.{Gives}
use sec_lms.Lms.Params.{LmsParam, lms_param}
use sec_lms.Lms.Params.Matching.{lms_param_bounds}
use sec_lms.Lms.Subtree.{min_j}
use sec_lms.Lms.Subtree.Config.{
  estimate_memory, Scan, take_size, scan_from, TreeConfig, within_budget, over_budget,
  tree_configure,
}
use sec_lms.Lms.Subtree.Scanned.{Best, Scanned, scan_from-Scanned, first-Scanned}

-- What the configurator promises.
pub record Optimal (type : ℕ) (lms : LmsParam) (target : ℕ) (c : TreeConfig) : Type 0 where
  pub same_type : c.lms_type ≡ type
  pub same_height : c.height ≡ lms.height
  pub same_n : c.n ≡ lms.n
  pub lower : min_j ≤ c.subtree_size
  pub upper : c.subtree_size ≤ lms.height
  pub memory : c.est_memory ≡ (estimate_memory lms.height c.subtree_size lms.n).0
  pub sublevels : c.sublevels ≡ (estimate_memory lms.height c.subtree_size lms.n).1
  pub best :
      ((c.fit ≡ within_budget)
        × Best target lms.height lms.n min_j (suc lms.height) c.subtree_size true)
      ⊎ ((c.fit ≡ over_budget)
          × Best target lms.height lms.n min_j (suc lms.height) c.subtree_size false)

two_levels : (type : ℕ) (lms : LmsParam) → lms_param type ≡ ok lms → 2 ≤ lms.height
unfolding lms_param
two_levels type lms e = ground arith

in_bounds :
    (height n : ℕ)
    → 0 < height
    → height ≤ 25
    → n ≡ 32
    → not (height == 0 || n == 0 || ltb 25 height) ≡ true
in_bounds height n lo hi e = ground arith

count_eq : (height : ℕ) → 2 ≤ height → suc (height - 2) ≡ height - 1
count_eq height le = omega arith

reached : (height : ℕ) → 2 ≤ height → 3 + (height - 2) ≡ suc height
reached height le = omega arith

finish :
    (type target : ℕ) (lms : LmsParam) (s : Scan)
    → Scanned target lms.height lms.n (suc lms.height) s
    → Gives (Optimal type lms target) (
        guard (s.found_over || s.found_within) invalid
        >> ok (record {
          lms_type = type;
          height = lms.height;
          n = lms.n;
          subtree_size = s.best_j;
          sublevels = s.best_levels;
          est_memory = s.best_mem;
          fit = if s.found_within then within_budget else over_budget;
        }))
finish type target lms s g = rw (g.found) (record {
  same_type = refl;
  same_height = refl;
  same_n = refl;
  lower = g.lower;
  upper = omega (arith, g.upper);
  memory = g.memory;
  sublevels = g.sublevels;
  best = which s.found_within g.best;
})
  where
    which :
        (w : Bool)
        → Best target lms.height lms.n min_j (suc lms.height) s.best_j w
        → (((if w then within_budget else over_budget) ≡ within_budget)
            × Best target lms.height lms.n min_j (suc lms.height) s.best_j true)
          ⊎ (((if w then within_budget else over_budget) ≡ over_budget)
              × Best target lms.height lms.n min_j (suc lms.height) s.best_j false)
    which true b = inl (refl, b)
    which false b = inr (refl, b)

-- For a known type, lms_tree_configure succeeds for that type, with the height and the hash length
-- of its parameters, with a size from 2 to the height of the tree and with
-- the estimate and the number of sublevels that belong to it. Where it says that it is within the
-- budget, it is, and no size within the budget has fewer sublevels, or as many with less memory;
-- where it says over budget, every size is, and none takes less memory.
pub tree_configure-Optimal :
    (type target : ℕ) (lms : LmsParam)
    → lms_param type ≡ ok lms
    → Gives (Optimal type lms target) (tree_configure type target)
unfolding tree_configure
tree_configure-Optimal type target lms known =
    let (w, hi, n, lo) = lms_param_bounds type lms known in
    rw (known) (
      rw (in_bounds lms.height lms.n lo hi n) (
        finish type target lms
          (scan_from (lms.height - 1) target lms.height lms.n min_j (take_size false false 0 0 0))
          (subst
            (λ c.
              Scanned target lms.height lms.n (suc lms.height)
                (scan_from c target lms.height lms.n min_j (take_size false false 0 0 0)))
            (count_eq lms.height (two_levels type lms known))
            (subst
              (λ x. Scanned target lms.height lms.n x (
                scan_from (suc (lms.height - 2)) target lms.height lms.n min_j
                  (take_size false false 0 0 0)))
              (reached lms.height (two_levels type lms known))
              (scan_from-Scanned target lms.height lms.n (lms.height - 2) 3 _
                (first-Scanned target lms.height lms.n))))))
