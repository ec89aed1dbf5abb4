-- ===== src/Lms/Coef/Digits.antt =====
-- The digits that lms_lmots_coef (src/lms_params.c) reads, as digits of one number.
use native.Mathlib.Nat.{
  div-add-mod, mul-add-div, mul-add-mod_self_left, div-eq_of_lt, div-div-eq-div-mul, pow-suc,
  mul-le-mul_right, mul-add-div_right,
}
use native.Mathlib.Numerals.{unary_clauses}
use sec_lms.Prelude.{
  ℕ, zero, suc, ◌+◌, ◌-◌, ◌*◌, ◌/◌, ◌%◌, ◌^◌, ◌<◌, ◌≤◌, ◌≡◌, refl, sym, subst, ap, ◌∙◌, inl, inr,
  List, [], ◌∷◌, length, arith,
}
use sec_lms.Prelude.Bytes.{byte, value, Bytes}
use sec_lms.Lms.{ok}
use sec_lms.Lms.Params.{LmotsParam, lmots_param}
use sec_lms.Lms.Coef.{coef}
use sec_lms.Lms.Coef.Bounds.{Row, lmots_param-Row}

pow_suc : (n : ℕ) → 256 ^ suc n ≡ 256 * 256 ^ n
pow_suc n = simp unary_clauses (omega arith)

pow_pos : (n : ℕ) → 0 < 256 ^ n
pow_pos zero = omega arith
pow_pos (suc n) = omega (arith, pow_suc n, pow_pos n)

pow_behind : (k m : ℕ) → 256 ^ (k + suc m) ≡ 256 ^ k * 256 * 256 ^ m
pow_behind zero m = ap (λ n. 256 ^ n) (omega arith) ∙ pow_suc m ∙ omega arith
pow_behind (suc k) m =
    ap (λ n. 256 ^ n) (omega arith)
    ∙ pow_suc (k + suc m)
    ∙ ap (λ n. 256 * n) (pow_behind k m)
    ∙ swap (256 ^ k) (256 ^ m)
    ∙ ap (λ n. n * 256 * 256 ^ m) (sym (pow_suc k))
  where
    swap : (a b : ℕ) → 256 * (a * 256 * b) ≡ 256 * a * 256 * b
    swap a b = omega arith

value-lt : (xs : List ℕ) → Bytes xs → value xs < 256 ^ length xs
value-lt [] b = omega arith
value-lt (x ∷ xs) b =
    below (256 ^ length xs) (b 0) (value-lt xs (λ i. b (suc i))) (pow_suc (length xs))
  where
    below :
        (w : ℕ)
        → x < 256
        → value xs < w
        → 256 ^ suc (length xs) ≡ 256 * w
        → x * w + value xs < 256 ^ suc (length xs)
    below w lx lv e = omega (arith, mul-le-mul_right w (le x lx))
      where
        le : (x : ℕ) → x < 256 → x ≤ 255
        le x lt = omega arith

-- The byte at `k`, with `m` bytes behind it.
byte-value :
    (xs : List ℕ) (k m : ℕ)
    → Bytes xs
    → k + suc m ≡ length xs
    → byte xs k ≡ value xs / 256 ^ m % 256
byte-value [] k m b e = absurd (omega arith)
byte-value (x ∷ xs) zero m b e =
    let len : length xs ≡ m = omega (arith, e) in
    rw len (
      omega (
        arith,
        b 0,
        mul-add-div_right (pow_pos m) x (value xs),
        div-eq_of_lt (subst (λ n. value xs < 256 ^ n) len (value-lt xs (λ i. b (suc i)))),
      ))
byte-value (x ∷ xs) (suc k) m b e =
    byte-value xs k m (λ i. b (suc i)) (omega (arith, e))
    ∙ omega (arith, mul-add-div_right (pow_pos m) (x * 256 ^ k * 256) (value xs))
    ∙ ap (λ n. n / 256 ^ m % 256)
        (swap x (256 ^ k) (256 ^ m)
          ∙ ap (λ n. x * n + value xs)
              (sym (pow_behind k m) ∙ ap (λ n. 256 ^ n) (omega (arith, e))))
  where
    swap : (x a b : ℕ) → x * a * 256 * b + value xs ≡ x * (a * 256 * b) + value xs
    swap x a b = omega arith

pow2_pos : (n : ℕ) → 0 < 2 ^ n
pow2_pos zero = omega arith
pow2_pos (suc n) = rw pow-suc (omega (arith, pow2_pos n))

pow2_add : (m n : ℕ) → 2 ^ (m + n) ≡ 2 ^ m * 2 ^ n
pow2_add zero n = ap (λ k. 2 ^ k) {y = n} (omega arith) ∙ omega arith
pow2_add (suc m) n =
    ap (λ k. 2 ^ k) {y = suc (m + n)} (omega arith)
    ∙ pow-suc 2 (m + n)
    ∙ ap (λ k. k * 2) (pow2_add m n)
    ∙ swap (2 ^ m) (2 ^ n)
    ∙ ap (λ k. k * 2 ^ n) (sym (pow-suc 2 m))
  where
    swap : (a b : ℕ) → a * b * 2 ≡ a * 2 * b
    swap a b = omega arith

-- A field of `w` bits above `s` bits, within the last byte of a number.
field : (x s w t : ℕ) → s + w + t ≡ 8 → x % 256 / 2 ^ s % 2 ^ w ≡ x / 2 ^ s % 2 ^ w
field x s w t e =
    sym (mul-add-mod_self_left (2 ^ w) (2 ^ t * (x / 256)) (x % 256 / 2 ^ s))
    ∙ ap (λ n. n % 2 ^ w)
        (sym (mul-add-div (pow2_pos s) (2 ^ w * (2 ^ t * (x / 256))) (x % 256))
          ∙ ap (λ n. n / 2 ^ s)
              (ap (λ n. n + x % 256)
                  (swap (2 ^ s) (2 ^ w) (2 ^ t) (x / 256) ∙ ap (λ n. n * (x / 256)) split)
                ∙ div-add-mod x 256))
  where
    swap : (a b c d : ℕ) → a * (b * (c * d)) ≡ a * b * c * d
    swap a b c d = omega arith

    split : 2 ^ s * 2 ^ w * 2 ^ t ≡ 256
    split = ap (λ n. n * 2 ^ t) (sym (pow2_add s w)) ∙ sym (pow2_add (s + w) t) ∙ ap (λ n. 2 ^ n) e

bytes_bits : (m : ℕ) → 256 ^ m ≡ 2 ^ (8 * m)
bytes_bits zero = refl
bytes_bits (suc m) =
    pow_suc m
    ∙ ap (λ n. 256 * n) (bytes_bits m)
    ∙ sym (pow2_add 8 (8 * m))
    ∙ ap (λ n. 2 ^ n) (omega arith)

-- The field of `w` bits above `s` bits of the byte at `k`.
byte_field :
    (xs : List ℕ) (k m s w t : ℕ)
    → Bytes xs
    → k + suc m ≡ length xs
    → s + w + t ≡ 8
    → byte xs k / 2 ^ s % 2 ^ w ≡ value xs / 2 ^ (8 * m + s) % 2 ^ w
byte_field xs k m s w t b e f =
    ap (λ n. n / 2 ^ s % 2 ^ w) (byte-value xs k m b e)
    ∙ field (value xs / 256 ^ m) s w t f
    ∙ ap (λ n. n % 2 ^ w)
        (div-div-eq-div-mul (value xs) (256 ^ m) (2 ^ s)
          ∙ ap (λ n. value xs / n) (ap (λ n. n * 2 ^ s) (bytes_bits m) ∙ sym (pow2_add (8 * m) s)))

digit_at :
    (i w k s m : ℕ) (Q : List ℕ)
    → i * w / 8 ≡ k
    → w * (8 / w - 1 - i % (8 / w)) ≡ s
    → k + suc m ≡ 34
    → s + w ≤ 8
    → 8 * m + s ≡ 8 * 34 - (i + 1) * w
    → Bytes Q
    → length Q ≡ 34
    → coef Q i w ≡ value Q / 2 ^ (8 * 34 - (i + 1) * w) % 2 ^ w
unfolding coef
digit_at i w k s m Q place shift behind room bits b len =
    ap (λ n. byte Q n / 2 ^ (w * (8 / w - 1 - i % (8 / w))) % 2 ^ w) place
    ∙ ap (λ n. byte Q k / 2 ^ n % 2 ^ w) shift
    ∙ byte_field Q k m s w (8 - (s + w)) b (omega (arith, behind, len)) (omega (arith, room))
    ∙ ap (λ n. value Q / 2 ^ n % 2 ^ w) bits

digit_of :
    (w p ls i : ℕ) (Q : List ℕ)
    → Row w p ls
    → i < p
    → Bytes Q
    → length Q ≡ 34
    → coef Q i w ≡ value Q / 2 ^ (8 * 34 - (i + 1) * w) % 2 ^ w
digit_of w p ls i Q (inl (ew, ep, el)) lt b e = rw ew (
    digit_at i 1 (i / 8) (7 - i % 8) (33 - i / 8) Q (omega arith) (omega arith) (omega arith)
      (omega arith) (omega arith) b e)
digit_of w p ls i Q (inr (inl (ew, ep, el))) lt b e = rw ew (
    digit_at i 2 (i / 4) (2 * (3 - i % 4)) (33 - i / 4) Q (omega arith) (omega arith) (omega arith)
      (omega arith) (omega arith) b e)
digit_of w p ls i Q (inr (inr (inl (ew, ep, el)))) lt b e = rw ew (
    digit_at i 4 (i / 2) (4 * (1 - i % 2)) (33 - i / 2) Q (omega arith) (omega arith) (omega arith)
      (omega arith) (omega arith) b e)
digit_of w p ls i Q (inr (inr (inr (ew, ep, el)))) lt b e = rw ew (
    digit_at i 8 i 0 (33 - i) Q (omega arith) (omega arith) (omega arith) (omega arith)
      (omega arith) b e)

-- Of each known LM-OTS type, the digits that lms_lmots_coef gives for digest and checksum, of `n + 2`
-- bytes, at positions below `p` are the digits to the base 2^w of the number that these bytes stand
-- for, the most significant first.
pub coef_lem :
    (type : ℕ) (p : LmotsParam) (Q : List ℕ) (i : ℕ)
    → lmots_param type ≡ ok p
    → i < p.p
    → Bytes Q
    → length Q ≡ p.n + 2
    → coef Q i p.w ≡ value Q / 2 ^ (8 * (p.n + 2) - (i + 1) * p.w) % 2 ^ p.w
coef_lem type p Q i e lt b len =
    let (row, n32, _) = lmots_param-Row type p e in
    digit_of p.w p.p p.ls i Q row lt b (omega (arith, len, n32))
    ∙ ap (λ n. value Q / 2 ^ (8 * (n + 2) - (i + 1) * p.w) % 2 ^ p.w) (sym n32)
