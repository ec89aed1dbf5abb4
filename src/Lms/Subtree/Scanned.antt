-- ===== src/Lms/Subtree/Scanned.antt =====
-- The loop of lms_tree_configure (src/lms_subtree.c) over the sizes of subtrees.
use sec_lms.Prelude.{
  ℕ, zero, suc, ◌+◌, ◌≤◌, ◌<◌, ◌≡◌, ◌⊎◌, inr, refl, Bool, true, false, ltb, ◌==◌, ◌||◌, ◌&&◌,
  if◌then◌else◌, if_cases, ℕ_discrete, subst, sym, arith,
}
use sec_lms.Lms.Subtree.{min_j}
use sec_lms.Lms.Subtree.Config.{estimate_memory, Scan, take_size, scan_one, scan_from}

module _ (target height n : ℕ) where
  abbrev mem : ℕ → ℕ
  mem j = (estimate_memory height j n).0

  abbrev levels : ℕ → ℕ
  levels j = (estimate_memory height j n).1

  -- A size within the budget with the fewest sublevels, and of these with the least memory; or, where
  -- none is within the budget, one with the least memory. Of the sizes from `from` on, below `to`.
  abbrev pub Best : ℕ → ℕ → ℕ → Bool → Type 0
  Best from to j true =
      (mem j ≤ target)
      × ((i : ℕ)
          → from ≤ i
          → i < to
          → mem i ≤ target
          → (levels j < levels i) ⊎ ((levels j ≡ levels i) × (mem j ≤ mem i)))
  Best from to j false = (i : ℕ) → from ≤ i → i < to → (target < mem i) × (mem j ≤ mem i)

  pub record Scanned (to : ℕ) (s : Scan) : Type 0 where
    pub found : (s.found_over || s.found_within) ≡ true
    pub lower : min_j ≤ s.best_j
    pub upper : s.best_j < to
    pub memory : s.best_mem ≡ mem s.best_j
    pub sublevels : s.best_levels ≡ levels s.best_j
    pub best : Best min_j to s.best_j s.found_within

  -- One more size that is no better.
  keep :
      (to : ℕ) (s : Scan)
      → Scanned to s
      → Best to (suc to) s.best_j s.found_within
      → Scanned (suc to) s
  keep to s g b = record {
    found = g.found;
    lower = g.lower;
    upper = omega (arith, g.upper);
    memory = g.memory;
    sublevels = g.sublevels;
    best = join s.found_within to s.best_j g.best b;
  }
    where
      join :
          (w : Bool) (to j : ℕ) → Best min_j to j w → Best to (suc to) j w → Best min_j (suc to) j w
      join true to j (le, a) (le', b) = (
        le,
        λ i lo hi. elim (ℕ_discrete i to) [
          | yes e ↦ b i (omega arith) (omega arith)
          | no n ↦ a i lo (omega (arith, n))
        ],
      )
      join false to j a b = λ i lo hi. elim (ℕ_discrete i to) [
        | yes e ↦ b i (omega arith) (omega arith)
        | no n ↦ a i lo (omega (arith, n))
      ]

  -- A size that is taken.
  take :
      (over within : Bool) (to : ℕ)
      → min_j ≤ to
      → (over || within) ≡ true
      → Best min_j (suc to) to within
      → Scanned (suc to) (take_size over within (mem to) (levels to) to)
  take over within to le found best = record {
    found = found;
    lower = le;
    upper = omega arith;
    memory = refl;
    sublevels = refl;
    best = best;
  }

  at_to : (to i : ℕ) → to ≤ i → i < suc to → i ≡ to
  at_to to i lo hi = omega arith

  gt : (a b : ℕ) → ltb a b ≡ true → a < b
  gt a b e = ground arith

  le : (a b : ℕ) → ltb a b ≡ false → b ≤ a
  le a b e = ground arith

  over_one :
      (to : ℕ) (over within : Bool) (m l j : ℕ)
      → Scanned to (take_size over within m l j)
      → target < mem to
      → Scanned (suc to) (
          if (over || within) && ltb m (mem to)
          then take_size over within m l j
          else take_size true within (mem to) (levels to) to)
  over_one to over within m l j g lt = rw (g.found) (
      if_cases (Scanned (suc to)) (ltb m (mem to))
        (λ e.
          keep to (take_size over within m l j) g
            (worse within (gt m (mem to) e) (g.memory) (g.best)))
        (λ e.
          take true within to (omega (arith, g.lower, g.upper)) refl
            (better within (g.best) (omega (arith, le m (mem to) e, g.memory)))))
    where
      worse : (w : Bool) → m < mem to → m ≡ mem j → Best min_j to j w → Best to (suc to) j w
      worse true less e b = (
        b.0,
        λ i lo hi small.
            absurd (omega (arith, subst (λ x. mem x ≤ target) (at_to to i lo hi) small)),
      )
      worse false less e b = λ i lo hi.
          subst (λ x. (target < mem x) × (mem j ≤ mem x)) (sym (at_to to i lo hi)) (lt, omega arith)

      better : (w : Bool) → Best min_j to j w → mem to ≤ mem j → Best min_j (suc to) to w
      better true b less = absurd (omega (arith, b.0))
      better false b less = λ i lo hi. elim (ℕ_discrete i to) [
        | yes e ↦ subst (λ x. (target < mem x) × (mem to ≤ mem x)) (sym e) (lt, omega arith)
        | no n ↦ (
          omega (arith, (b i lo (omega (arith, n))).0),
          omega (arith, (b i lo (omega (arith, n))).1),
        )
      ]

  -- The test by which a size within the budget is passed over, and what it says.
  abbrev passed : ℕ → ℕ → ℕ → Bool
  passed to m l = ltb l (levels to) || ((levels to == l) && ltb m (mem to))

  passed-true :
      (to m l : ℕ) → passed to m l ≡ true → (l < levels to) ⊎ ((l ≡ levels to) × (m ≤ mem to))
  passed-true to m l e = said (levels to) (mem to) e
    where
      said : (a b : ℕ) → (ltb l a || ((a == l) && ltb m b)) ≡ true → (l < a) ⊎ ((l ≡ a) × (m ≤ b))
      said a b e = ground arith

  passed-false :
      (to m l : ℕ) → passed to m l ≡ false → (levels to < l) ⊎ ((levels to ≡ l) × (mem to ≤ m))
  passed-false to m l e = said (levels to) (mem to) e
    where
      said : (a b : ℕ) → (ltb l a || ((a == l) && ltb m b)) ≡ false → (a < l) ⊎ ((a ≡ l) × (b ≤ m))
      said a b e = ground arith

  -- To be no worse is transitive.
  chosen :
      (a b c x y z : ℕ)
      → (a < b) ⊎ ((a ≡ b) × (x ≤ y))
      → (b < c) ⊎ ((b ≡ c) × (y ≤ z))
      → (a < c) ⊎ ((a ≡ c) × (x ≤ z))
  chosen a b c x y z p q = ground arith

  within_one :
      (to : ℕ) (over within : Bool) (m l j : ℕ)
      → Scanned to (take_size over within m l j)
      → mem to ≤ target
      → Scanned (suc to) (
          if within && passed to m l
          then take_size over within m l j
          else take_size over true (mem to) (levels to) to)
  within_one to over true m l j g small =
      if_cases (Scanned (suc to)) (passed to m l)
        (λ e. keep to (take_size over true m l j) g (
          (g.best).0,
          λ i lo hi ok_i.
              subst (λ x. (levels j < levels x) ⊎ ((levels j ≡ levels x) × (mem j ≤ mem x)))
                (sym (at_to to i lo hi))
                (subst (λ x. (levels j < levels to) ⊎ ((levels j ≡ levels to) × (x ≤ mem to)))
                  (g.memory)
                  (subst (λ x. (x < levels to) ⊎ ((x ≡ levels to) × (m ≤ mem to))) (g.sublevels)
                    (passed-true to m l e))),
        ))
        (λ e. take over true to (omega (arith, g.lower, g.upper)) (always over) (
          small,
          λ i lo hi ok_i. elim (ℕ_discrete i to) [
            | yes same ↦
                subst (λ x. (levels to < levels x) ⊎ ((levels to ≡ levels x) × (mem to ≤ mem x)))
                  (sym same) (inr (refl, omega arith))
            | no n ↦
                chosen (levels to) (levels j) (levels i) (mem to) (mem j) (mem i)
                  (subst (λ x. (levels to < levels j) ⊎ ((levels to ≡ levels j) × (mem to ≤ x)))
                    (g.memory)
                    (subst (λ x. (levels to < x) ⊎ ((levels to ≡ x) × (mem to ≤ m))) (g.sublevels)
                      (passed-false to m l e)))
                  ((g.best).1 i lo (omega (arith, n)) ok_i)
          ],
        ))
    where
      always : (b : Bool) → (b || true) ≡ true
      always b = ground arith
  within_one to over false m l j g small =
      take over true to (omega (arith, g.lower, g.upper)) (always over) (
        small,
        λ i lo hi ok_i. elim (ℕ_discrete i to) [
          | yes same ↦
              subst (λ x. (levels to < levels x) ⊎ ((levels to ≡ levels x) × (mem to ≤ mem x)))
                (sym same) (inr (refl, omega arith))
          | no n ↦ absurd (omega (arith, (g.best i lo (omega (arith, n))).0, ok_i))
        ],
      )
    where
      always : (b : Bool) → (b || true) ≡ true
      always b = ground arith

  scan_one-Scanned :
      (to : ℕ) (s : Scan)
      → Scanned to s
      → Scanned (suc to) (scan_one target to (mem to) (levels to) s)
  scan_one-Scanned to s g =
      if_cases (Scanned (suc to)) (ltb target (mem to))
        (λ e.
          over_one to s.found_over s.found_within s.best_mem s.best_levels s.best_j g
            (gt target (mem to) e))
        (λ e.
          within_one to s.found_over s.found_within s.best_mem s.best_levels s.best_j g
            (le target (mem to) e))

  pub scan_from-Scanned :
      (count to : ℕ) (s : Scan)
      → Scanned to s
      → Scanned (to + count) (scan_from count target height n to s)
  scan_from-Scanned zero to s g = subst (λ x. Scanned x s) (omega arith) g
  scan_from-Scanned (suc count) to s g =
      subst
        (λ x.
          Scanned x
            (scan_from count target height n (suc to) (scan_one target to (mem to) (levels to) s)))
        (omega arith)
        (scan_from-Scanned count (suc to) (scan_one target to (mem to) (levels to) s)
          (scan_one-Scanned to s g))

  -- The first size is taken.
  pub first-Scanned : Scanned 3 (scan_one target 2 (mem 2) (levels 2) (take_size false false 0 0 0))
  first-Scanned =
      if_cases (Scanned 3) (ltb target (mem 2))
        (λ e. take true false 2 (omega arith) refl (λ i lo hi.
          subst (λ x. (target < mem x) × (mem 2 ≤ mem x)) (two i lo hi)
            (gt target (mem 2) e, omega arith)))
        (λ e. take false true 2 (omega arith) refl (
          le target (mem 2) e,
          λ i lo hi ok_i.
              subst (λ x. (levels 2 < levels x) ⊎ ((levels 2 ≡ levels x) × (mem 2 ≤ mem x)))
                (two i lo hi) (inr (refl, omega arith)),
        ))
    where
      two : (i : ℕ) → 2 ≤ i → i < 3 → 2 ≡ i
      two i lo hi = omega arith
