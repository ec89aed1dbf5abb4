-- ===== src/Lms/Subtree/Geometry.antt =====
-- Where a subtree of src/lms_subtree.c lies in the whole tree: subtree_local_to_global.
use native.Mathlib.Nat.{
  pow-le-pow_right, mul-div_cancel, add-mul-div_right, div-eq_of_lt, div-one, mod-lt, div-add-mod,
}
use sec_lms.Prelude.{
  ℕ, zero, suc, ◌+◌, ◌-◌, ◌*◌, ◌/◌, ◌%◌, ◌^◌, ◌≤◌, ◌<◌, ◌≡◌, refl, sym, ◌∙◌, ap, ap₂, append_assoc,
  inl, inr, Bool-cases, true, false, List, ◌++◌, arith, leb, leb→le, ◌==◌, if_cases,
}
use sec_lms.Lms.Tree.Laws.{AtLevel, pow_double, zero_add, suc_add}
use sec_lms.Lms.Sign.{sibling}
use sec_lms.Lms.Verify.Path.{siblings, parent-AtLevel}
use sec_lms.Lms.Coprocess.Filled.{pow_pos}
use sec_lms.Lms.Subtree.Stream.{half}
use sec_lms.Lms.Subtree.{depth_from, local_to_global}

not_le : (a b : ℕ) → leb a b ≡ false → b < a
not_le a b h = ground arith

le_pow : (n : ℕ) → n ≤ 2 ^ n
le_pow zero = omega arith
le_pow (suc n) = omega (arith, le_pow n, pow_double n, pow_pos n)

even_half : (m : ℕ) → (m % 2 == 0) ≡ true → m ≡ m / 2 * 2
even_half m e = grind arith

odd_half : (m : ℕ) → (m % 2 == 0) ≡ false → m ≡ m / 2 * 2 + 1
odd_half m e = grind arith

-- A node on level `e` is not on a level below.
above_level : (e d num : ℕ) → AtLevel e num → 2 ^ suc d ≤ num → d ≤ e → suc d ≤ e
above_level e d num l le small = elim (Bool-cases (leb (suc d) e)) [
  | inl yes_le ↦ leb→le (suc d) e yes_le
  | inr no_le ↦ absurd (
      omega (
        arith,
        l.1,
        pow-le-pow_right {n = 2} (omega arith) {i = suc e} {j = suc d} (not_le (suc d) e no_le),
      ))
]

depth_from-AtLevel :
    (fuel d e num : ℕ) → AtLevel e num → d ≤ e → e ≤ d + fuel → depth_from fuel d num ≡ e
depth_from-AtLevel zero d e num l le enough = omega arith
depth_from-AtLevel (suc fuel) d e num l le enough =
    if_cases (λ x. x ≡ e) (leb (2 ^ suc d) num)
      (λ deep.
        depth_from-AtLevel fuel (suc d) e num l
          (above_level e d num l (leb→le (2 ^ suc d) num deep) le) (omega arith))
      (λ here. omega (arith, le, not_above e d num l (not_le (2 ^ suc d) num here)))
  where
    not_above : (e d num : ℕ) → AtLevel e num → num < 2 ^ suc d → e ≤ d
    not_above e d num l lt = elim (Bool-cases (leb e d)) [
      | inl yes_le ↦ leb→le e d yes_le
      | inr no_le ↦ absurd (
          omega (
            arith,
            l.0,
            pow-le-pow_right {n = 2} (omega arith) {i = suc d} {j = e} (not_le e d no_le),
          ))
    ]

-- The number of node `m` of a subtree on level `e`, whose root is node 2^t + c of the whole tree.
abbrev pub global : ℕ → ℕ → ℕ → ℕ → ℕ
global t c e m = 2 ^ (t + e) + (c * 2 ^ e + (m - 2 ^ e))

pub local_to_global-global :
    (tree_height sub_h root_level c t e m : ℕ)
    → t + root_level ≡ tree_height
    → e ≤ root_level
    → AtLevel e m
    → local_to_global tree_height sub_h root_level (c * 2 ^ sub_h) m ≡ global t c e m
local_to_global-global tree_height sub_h root_level c t e m sum le l =
    rw
      (
        mul-div_cancel c (pow_pos sub_h),
        depth_from-AtLevel m 0 e m l (omega arith) (omega (arith, le_pow e, l.0)),
      )
      (ap (λ x. 2 ^ x + (c * 2 ^ e + (m - 2 ^ e))) (omega arith))

pub global_left : (t c e m : ℕ) → AtLevel e m → global t c (suc e) (m * 2) ≡ global t c e m * 2
global_left t c e m l =
    omega (arith, ap (λ x. 2 ^ x) (up t e), pow_double (t + e), pow_double e, times c e)
  where
    up : (t e : ℕ) → t + suc e ≡ suc (t + e)
    up t e = omega arith

    times : (c e : ℕ) → c * 2 ^ suc e ≡ c * 2 ^ e * 2
    times c e = rw (pow_double e) (omega arith)

pub global_right :
    (t c e m : ℕ) → AtLevel e m → global t c (suc e) (m * 2 + 1) ≡ global t c e m * 2 + 1
global_right t c e m l = omega (arith, global_left t c e m l, pow_double e)

-- Parents and siblings in the subtree are those in the whole tree.
pub global_half :
    (t c e m : ℕ) → AtLevel (suc e) m → global t c (suc e) m / 2 ≡ global t c e (m / 2)
global_half t c e m l = elim (Bool-cases (m % 2 == 0)) [
  | inl even ↦
      omega (arith, ap (global t c (suc e)) (even_half m even), global_left t c e (m / 2) up)
  | inr odd ↦ omega (arith, ap (global t c (suc e)) (odd_half m odd), global_right t c e (m / 2) up)
]
  where
    up : AtLevel e (m / 2)
    up = parent-AtLevel e m l

sibling_even : (m : ℕ) → m % 2 ≡ 0 → sibling m ≡ m + 1
sibling_even m e = ground arith

sibling_odd : (m : ℕ) → m % 2 ≡ 1 → sibling m ≡ m - 1
sibling_odd m e = ground arith

pub global-sibling :
    (t c e m : ℕ)
    → AtLevel (suc e) m
    → global t c (suc e) (sibling m) ≡ sibling (global t c (suc e) m)
global-sibling t c e m l = elim (Bool-cases (m % 2 == 0)) [
  | inl even ↦
      ap (global t c (suc e)) (sibling_even m (omega (arith, even_half m even)))
      ∙ omega (
        arith,
        sibling_even (global t c (suc e) m) (
            omega
              (arith, ap (global t c (suc e)) (even_half m even), global_left t c e (m / 2) up)),
        l.0,
      )
  | inr odd ↦
      ap (global t c (suc e)) (sibling_odd m (omega (arith, odd_half m odd)))
      ∙ omega (
        arith,
        sibling_odd (global t c (suc e) m) (
            omega (arith, ap (global t c (suc e)) (odd_half m odd), global_right t c e (m / 2) up)),
        l.0,
        odd_half m odd,
        pow_double e,
      )
]
  where
    up : AtLevel e (m / 2)
    up = parent-AtLevel e m l

-- The values of a subtree's nodes, of which `lb` levels of the whole tree lie below its leaves.
abbrev pub local_value : (ℕ → ℕ → List ℕ) → ℕ → ℕ → ℕ → ℕ → ℕ → ℕ → List ℕ
local_value V lb H t c d m = V (lb + d) (global t c (H - d) m)

pub siblings-local_value :
    (V : ℕ → ℕ → List ℕ) (lb H t c k d m : ℕ)
    → d + k ≡ H
    → AtLevel k m
    → siblings (local_value V lb H t c) k d m ≡ siblings V k (lb + d) (global t c k m)
siblings-local_value V lb H t c zero d m sum l = refl
siblings-local_value V lb H t c (suc k) d m sum l =
    ap₂ (λ xs ys. xs ++ ys)
      (ap (V (lb + d))
        (ap (λ e. global t c e (sibling m)) (omega arith) ∙ global-sibling t c k m l))
      (siblings-local_value V lb H t c k (suc d) (m / 2) (omega arith) (parent-AtLevel k m l)
        ∙ ap₂ (siblings V k) (omega arith) (sym (global_half t c k m l)))

half_inner : (a num : ℕ) → half a (num / 2) ≡ half a num / 2
half_inner zero num = refl
half_inner (suc a) num = ap (λ m. m / 2) (half_inner a num)

pub div_of : (x m q r : ℕ) → 0 < m → r < m → x ≡ r + q * m → x / m ≡ q
div_of x m q r pos lt e =
    ap (λ y. y / m) e ∙ add-mul-div_right r q pos ∙ omega (arith, div-eq_of_lt lt)

pub half_div : (d x : ℕ) → half d x ≡ x / 2 ^ d
half_div zero x = sym (div-one x)
half_div (suc d) x =
    ap (λ m. m / 2) (half_div d x)
    ∙ sym (elim (Bool-cases (x / 2 ^ d % 2 == 0)) [
      | inl even ↦
          div_of x (2 ^ suc d) (x / 2 ^ d / 2) (x % 2 ^ d) (pow_pos (suc d))
            (omega (arith, pow_double d, mod-lt x (pow_pos d)))
            (omega (
              arith,
              div-add-mod x (2 ^ d),
              pow_double d,
              product (x / 2 ^ d / 2) d,
              ap (λ y. 2 ^ d * y) (even_half (x / 2 ^ d) even),
              split (x / 2 ^ d / 2) d,
            ))
      | inr odd ↦
          div_of x (2 ^ suc d) (x / 2 ^ d / 2) (x % 2 ^ d + 2 ^ d) (pow_pos (suc d))
            (omega (arith, pow_double d, mod-lt x (pow_pos d)))
            (omega (
              arith,
              div-add-mod x (2 ^ d),
              pow_double d,
              product (x / 2 ^ d / 2) d,
              ap (λ y. 2 ^ d * y) (odd_half (x / 2 ^ d) odd),
              split_odd (x / 2 ^ d / 2) d,
            ))
    ])
  where
    product : (y d : ℕ) → y * 2 ^ suc d ≡ y * 2 ^ d * 2
    product y d = rw (pow_double d) (omega arith)

    split : (y d : ℕ) → 2 ^ d * (y * 2) ≡ y * 2 ^ d * 2
    split y d = omega arith

    split_odd : (y d : ℕ) → 2 ^ d * (y * 2 + 1) ≡ y * 2 ^ d * 2 + 2 ^ d
    split_odd y d = omega arith

-- The ancestor of a node whose number is that of the leftmost one, and `x`.
pub half_add : (d t x : ℕ) → half d (2 ^ (t + d) + x) ≡ 2 ^ t + half d x
half_add zero t x = ap (λ m. 2 ^ m + x) (omega arith)
half_add (suc d) t x =
    ap (λ m. half d (2 ^ m + x) / 2) (shift t d)
    ∙ ap (λ m. m / 2) (half_add d (suc t) x)
    ∙ omega (arith, pow_double t)
  where
    shift : (t d : ℕ) → t + suc d ≡ suc t + d
    shift t d = omega arith

-- A path in two parts.
pub siblings-add :
    (V : ℕ → ℕ → List ℕ) (a b d num : ℕ)
    → siblings V (a + b) d num ≡ siblings V a d num ++ siblings V b (d + a) (half a num)
siblings-add V zero b d num = ap₂ (λ k e. siblings V k e num) (zero_add b) (omega arith)
siblings-add V (suc a) b d num =
    ap (λ k. siblings V k d num) (suc_add a b)
    ∙ ap (λ xs. V d (sibling num) ++ xs)
        (siblings-add V a b (suc d) (num / 2)
          ∙ ap₂ (λ x y. siblings V a (suc d) (num / 2) ++ siblings V b x y) (omega arith)
              (half_inner a num))
    ∙ sym (
        append_assoc (V d (sibling num)) (siblings V a (suc d) (num / 2))
          (siblings V b (d + suc a) (half a num / 2)))
