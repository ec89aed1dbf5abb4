-- ===== src/Lms/Coef/Bounds.antt =====
-- Bounds of the Winternitz digits and checksum of src/lms_params.c, for the parameter sets that
-- lms_get_lmots_param knows.
use native.Mathlib.Nat.{mod-lt}
use native.Mathlib.Nat.{pow-suc}
use sec_lms.Prelude.{
  ℕ, zero, suc, ◌+◌, ◌-◌, ◌*◌, ◌/◌, ◌^◌, ◌≤◌, ◌<◌, ◌≡◌, ◌⊎◌, inl, inr, ◌≢◌, List, arith,
}
use sec_lms.Lms.{ok}
use sec_lms.Lms.Params.{LmotsParam, lmots_param}
use sec_lms.Lms.Coef.{coef, digit_sum, checksum}

-- The four Winternitz rows of RFC 8554 for n = 32.
abbrev pub Row : ℕ → ℕ → ℕ → Type 0
Row w p ls =
    ((w ≡ 1) × (p ≡ 265) × (ls ≡ 7))
    ⊎ ((w ≡ 2) × (p ≡ 133) × (ls ≡ 6))
    ⊎ ((w ≡ 4) × (p ≡ 67) × (ls ≡ 4))
    ⊎ ((w ≡ 8) × (p ≡ 34) × (ls ≡ 0))

-- Every LM-OTS type that is known has one of the four rows, with n = 32, under its own number.
pub lmots_param-Row :
    (type : ℕ) (p : LmotsParam)
    → lmots_param type ≡ ok p
    → Row p.w p.p p.ls × (p.n ≡ 32) × (p.type ≡ type)
unfolding lmots_param
lmots_param-Row type p e = ground arith

pow2_pos : (w : ℕ) → 0 < 2 ^ w
pow2_pos zero = omega arith
pow2_pos (suc w) = rw pow-suc (omega (arith, pow2_pos w))

-- A digit has `w` bits.
pub coef-lt : (Q : List ℕ) (i w : ℕ) → coef Q i w < 2 ^ w
unfolding coef
coef-lt Q i w = mod-lt _ (pow2_pos w)

digit_sum-le : (Q : List ℕ) (w i k : ℕ) → digit_sum Q w i k ≤ k * (2 ^ w - 1)
unfolding digit_sum
digit_sum-le Q w i zero = omega arith
digit_sum-le Q w i (suc k) = omega (arith, digit_sum-le Q w (i + 1) k)

-- The checksum of a digest is its sum of complements, shifted, with no bit lost in the 32-bit
-- shift nor in the cast to 16 bits.
checksum_fits :
    (Q : List ℕ) (w p ls : ℕ)
    → Row w p ls
    → (checksum Q 32 w ls < 2 ^ 16) × (checksum Q 32 w ls ≡ digit_sum Q w 0 (256 / w) * 2 ^ ls)
unfolding checksum
checksum_fits Q w p ls (inl (ew, ep, el)) = rw (ew, el) (omega (arith, digit_sum-le Q 1 0 256))
checksum_fits Q w p ls (inr (inl (ew, ep, el))) =
    rw (ew, el) (omega (arith, digit_sum-le Q 2 0 128))
checksum_fits Q w p ls (inr (inr (inl (ew, ep, el)))) =
    rw (ew, el) (omega (arith, digit_sum-le Q 4 0 64))
checksum_fits Q w p ls (inr (inr (inr (ew, ep, el)))) =
    rw (ew, el) (omega (arith, digit_sum-le Q 8 0 32))

-- Of each known LM-OTS type, the checksum is the sum of the digits' complements, shifted: no bit is
-- lost in the 32-bit shift, nor in the cast to 16 bits.
pub checksum_lem :
    (type : ℕ) (p : LmotsParam) (Q : List ℕ)
    → lmots_param type ≡ ok p
    → (checksum Q p.n p.w p.ls < 2 ^ 16)
      × (checksum Q p.n p.w p.ls ≡ digit_sum Q p.w 0 (8 * p.n / p.w) * 2 ^ p.ls)
checksum_lem type p Q e =
    let (row, n32, _) = lmots_param-Row type p e in rw n32 (checksum_fits Q p.w p.p p.ls row)

-- The `k` digits from `i` on of the second digest are none of them below those of the first.
abbrev pub Dominates : List ℕ → List ℕ → ℕ → ℕ → ℕ → Type 0
Dominates Q R w i zero = Unit
Dominates Q R w i (suc k) = (coef Q i w ≤ coef R i w) × Dominates Q R w (i + 1) k

-- Some of these digits differ.
abbrev pub Differs : List ℕ → List ℕ → ℕ → ℕ → ℕ → Type 0
Differs Q R w i zero = ⊥
Differs Q R w i (suc k) = (coef Q i w ≢ coef R i w) ⊎ Differs Q R w (i + 1) k

digit_sum_mono :
    (Q R : List ℕ) (w i k : ℕ) → Dominates Q R w i k → digit_sum R w i k ≤ digit_sum Q w i k
unfolding digit_sum
digit_sum_mono Q R w i zero d = omega arith
digit_sum_mono Q R w i (suc k) d = omega (arith, digit_sum_mono Q R w (i + 1) k d.1)

-- Of two digests whose digits in a range are nowhere lower in the second, and differ somewhere, the
-- second has the smaller sum of complements: no signature can be advanced in all of its chains.
pub digit_sum_strict :
    (Q R : List ℕ) (w i k : ℕ)
    → Dominates Q R w i k
    → Differs Q R w i k
    → digit_sum R w i k < digit_sum Q w i k
unfolding digit_sum
digit_sum_strict Q R w i zero d x = absurd x
digit_sum_strict Q R w i (suc k) d (inl ne) =
    omega (arith, coef-lt R i w, digit_sum_mono Q R w (i + 1) k d.1)
digit_sum_strict Q R w i (suc k) d (inr x) = omega (arith, digit_sum_strict Q R w (i + 1) k d.1 x)
