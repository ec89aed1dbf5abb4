-- ===== src/Hss/Counter.antt =====
-- increment_generation of src/hss.c: a counter of bytes, the most significant first.
use native.Mathlib.Numerals.{unary_clauses}
use sec_lms.Prelude.{
  ℕ, zero, suc, ◌+◌, ◌*◌, ◌%◌, ◌^◌, ◌<◌, ◌≤◌, ◌≡◌, refl, true, false, List, [], ◌∷◌, length, set,
  ◌==◌, if◌then◌else◌, if_cases, subst, ◌∙◌, ap, length-set, arith,
}
use sec_lms.Prelude.Bytes.{byte, value, Bytes}
use sec_lms.Lms.{exhausted, Result, ok, err}

-- The loop: the byte before `i`, then the carry.
abbrev pub count_from : ℕ → List ℕ → Result (List ℕ)
count_from zero g = err exhausted
count_from (suc i) g =
    let next = set g i ((byte g i + 1) % 256) in
    let carry = count_from i next in if byte next i == 0 then carry else ok next

-- increment_generation.
unfoldable pub increment_generation : List ℕ → Result (List ℕ)
increment_generation g = count_from (length g) g

-- The counter is one further, or it was at its end.
abbrev pub Counted : ℕ → List ℕ → Result (List ℕ) → Type 0
Counted step g (ok g') = (value g' ≡ value g + step) × Bytes g' × (length g' ≡ length g)
Counted step g (err code) = (code ≡ exhausted) × (256 ^ length g ≤ value g + step)

-- The weight of the byte before `i` of `n`.
abbrev weight : ℕ → ℕ → ℕ
weight zero n = 256 ^ n
weight (suc i) zero = 1
weight (suc i) (suc n) = weight i n

value-set :
    (g : List ℕ) (i v : ℕ)
    → i < length g
    → value (set g i v) + byte g i * weight (suc i) (length g)
      ≡ value g + v * weight (suc i) (length g)
value-set [] i v lt = absurd (omega arith)
value-set (x ∷ g) zero v lt = omega arith
value-set (x ∷ g) (suc i) v lt =
    rw (length-set g i v) (omega (arith, value-set g i v (omega arith)))

byte-set : (g : List ℕ) (i v j : ℕ) → Bytes g → v < 256 → byte (set g i v) j < 256
byte-set [] i v j b lt = omega arith
byte-set (x ∷ g) zero v zero b lt = lt
byte-set (x ∷ g) zero v (suc j) b lt = b (suc j)
byte-set (x ∷ g) (suc i) v zero b lt = b 0
byte-set (x ∷ g) (suc i) v (suc j) b lt = byte-set g i v j (λ k. b (suc k)) lt

byte-set_self : (g : List ℕ) (i v : ℕ) → i < length g → byte (set g i v) i ≡ v
byte-set_self [] i v lt = absurd (omega arith)
byte-set_self (x ∷ g) zero v lt = refl
byte-set_self (x ∷ g) (suc i) v lt = byte-set_self g i v (omega arith)

pow_suc : (n : ℕ) → 256 ^ suc n ≡ 256 * 256 ^ n
pow_suc n = simp unary_clauses (omega arith)

-- A byte weighs 256 times as much as the one behind it.
weight-suc : (i n : ℕ) → i < n → weight i n ≡ 256 * weight (suc i) n
weight-suc i zero lt = absurd (omega arith)
weight-suc zero (suc n) lt = omega (arith, pow_suc n)
weight-suc (suc i) (suc n) lt = weight-suc i n (omega arith)

weight_self : (n : ℕ) → weight n n ≡ 1
weight_self zero = refl
weight_self (suc n) = weight_self n

Counted-carry :
    (u w : ℕ) (g next : List ℕ) (r : Result (List ℕ))
    → Counted u next r
    → u ≡ 256 * w
    → value next + 255 * w ≡ value g
    → length next ≡ length g
    → Counted w g r
Counted-carry u w g next (ok g') (e, b, l) weighs less same = (omega arith, b, omega arith)
Counted-carry u w g next (err code) (e, le) weighs less same =
    (e, omega (arith, ap (λ n. 256 ^ n) same))

count_from-Counted :
    (i : ℕ) (g : List ℕ) → i ≤ length g → Bytes g → Counted (weight i (length g)) g (count_from i g)
count_from-Counted zero g le b = (refl, omega arith)
count_from-Counted (suc i) g le b =
    if_cases (Counted w g) (byte next i == 0) (carry λ g' le' b'. count_from-Counted i g' le' b')
      stop
  where
    w : ℕ
    w = weight (suc i) (length g)

    next : List ℕ
    next = set g i ((byte g i + 1) % 256)

    same : length next ≡ length g
    same = length-set g i ((byte g i + 1) % 256)

    written : byte next i ≡ (byte g i + 1) % 256
    written = byte-set_self g i ((byte g i + 1) % 256) (omega arith)

    valued : value next + byte g i * w ≡ value g + (byte g i + 1) % 256 * w
    valued = value-set g i ((byte g i + 1) % 256) (omega arith)

    bytes : Bytes next
    bytes j = byte-set g i ((byte g i + 1) % 256) j b (omega arith)

    carry :
        ((g' : List ℕ)
          → i ≤ length g'
          → Bytes g'
          → Counted (weight i (length g')) g' (count_from i g'))
        → (byte next i == 0) ≡ true
        → Counted w g (count_from i next)
    carry rest e =
        let full : byte g i ≡ 255 = ground (arith, written, b i) in
        Counted-carry (weight i (length next)) w g next (count_from i next)
          (rest next (omega (arith, same)) bytes)
          (ap (weight i) same ∙ weight-suc i (length g) (omega arith)) (wrapped full) same
      where
        wrapped : byte g i ≡ 255 → value next + 255 * w ≡ value g
        wrapped e = omega (arith, ap (λ x. x * w) e, ap (λ x. (x + 1) % 256 * w) e, valued)

    stop : (byte next i == 0) ≡ false → Counted w g (ok next)
    stop e = (one_more (ground (arith, written, b i)), bytes, same)
      where
        one_more : (byte g i + 1) % 256 ≡ byte g i + 1 → value next ≡ value g + w
        one_more e = omega (arith, ap (λ x. x * w) e, valued)

-- On bytes, increment_generation either gives bytes, as many, that stand for the next number, or it
-- fails with LMS_ERR_EXHAUSTED and there is no next number in so many bytes.
pub increment_generation-Counted : (g : List ℕ) → Bytes g → Counted 1 g (increment_generation g)
unfolding increment_generation
increment_generation-Counted g b =
    subst (λ w. Counted w g (count_from (length g) g)) (weight_self (length g))
      (count_from-Counted (length g) g (omega arith) b)
