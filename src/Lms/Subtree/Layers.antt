-- ===== src/Lms/Subtree/Layers.antt =====
-- The subtrees one on another that src/lms_subtree.c fits into the height of a tree.
use native.Mathlib.Nat.{div-add-mod, mod-lt}
use sec_lms.Prelude.{
  ℕ, zero, suc, ◌+◌, ◌-◌, ◌*◌, ◌/◌, ◌%◌, ◌≤◌, ◌<◌, ◌≡◌, refl, ap, false, ◌==◌, ◌||◌, arith,
}
use sec_lms.Lms.Subtree.Config.{estimate_memory}
use sec_lms.Lms.Subtree.Held.{Fits}

-- The number of subtrees of height `j` in a tree, one on another, and the height of the top one.
abbrev pub layers : ℕ → ℕ → ℕ
layers height j = (height + j - 1) / j

abbrev pub rest : ℕ → ℕ → ℕ
rest height j = height - (layers height j - 1) * j

quotient :
    (height j q r : ℕ)
    → j * q + r ≡ height + j - 1
    → r < j
    → 2 ≤ j
    → j ≤ height
    → (0 < q) × ((q - 1) * j < height) × (height ≤ (q - 1) * j + j)
quotient height j zero r e lt two le = absurd (omega (arith, e))
quotient height j (suc q) r e lt two le =
    (omega arith, omega (arith, e, swap, same), omega (arith, e, swap, same))
  where
    same : (suc q - 1) * j ≡ q * j
    same = ap (λ x. x * j) (omega arith)

    swap : j * suc q ≡ q * j + j
    swap = omega arith

layers_fit :
    (height j : ℕ)
    → 2 ≤ j
    → j ≤ height
    → (0 < layers height j)
      × ((layers height j - 1) * j < height)
      × (height ≤ (layers height j - 1) * j + j)
layers_fit height j two le =
    quotient height j (layers height j) ((height + j - 1) % j) (div-add-mod (height + j - 1) j)
      (mod-lt (height + j - 1) (omega arith)) two le

pub layers-Fits :
    (height j : ℕ)
    → 2 ≤ j
    → j ≤ height
    → height ≤ 25
    → Fits height (layers height j) j (rest height j)
layers-Fits height j two le small =
    let (some, below, above) = layers_fit height j two le in
    record {
      some_level = some;
      some_height = omega arith;
      bounded = omega arith;
      some_top = omega (arith, below);
      top_le = omega (arith, above);
      total = omega (arith, below);
    }

-- The sublevels that lms_tree_estimate_memory counts.
pub estimate_layers :
    (height j n : ℕ)
    → 2 ≤ j
    → j ≤ height
    → n ≡ 32
    → (estimate_memory height j n).1 ≡ layers height j
unfolding estimate_memory
estimate_layers height j n two le e =
    rw (no_zero j n (omega arith) (omega (arith, e)))
      (rw (positive (layers height j) ((layers_fit height j two le).0)) refl)
  where
    no_zero : (a b : ℕ) → 0 < a → 0 < b → (a == 0 || b == 0) ≡ false
    no_zero a b x y = ground arith

    positive : (a : ℕ) → 0 < a → (a == 0) ≡ false
    positive a x = ground arith
