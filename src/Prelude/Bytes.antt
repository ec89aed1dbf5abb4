-- ===== src/Prelude/Bytes.antt =====
-- Bytes, big-endian words and byte strings as lists of numbers: the C helpers put_be32, get_be32,
-- lms_store_u32, lms_load_u32 and memcmp. A byte is a number below 256.
use Prim.Native.Nat.{ℕ, zero, suc, ◌+◌, ◌*◌, ◌/◌, ◌%◌, ◌^◌, ◌<◌}
use mathlib.Core.Path.{◌≡◌, refl, ap}
use mathlib.Core.Bool.{Bool, true, false, ◌&&◌}
use mathlib.Core.List.{List, [], ◌∷◌, ◌++◌}
use native.Mathlib.Omega.{arith}
use sec_lms.Prelude.Tests.{◌==◌}
use sec_lms.Prelude.Lists.{get_or, length}

-- The byte of `p` at an offset.
abbrev pub byte : List ℕ → ℕ → ℕ
byte p i = get_or p i 0

-- The number that the bytes stand for, the most significant first.
abbrev pub value : List ℕ → ℕ
value [] = 0
value (x ∷ xs) = x * 256 ^ length xs + value xs

-- Every element is a byte.
abbrev pub Bytes : List ℕ → Type 0
Bytes g = (i : ℕ) → byte g i < 256

-- `(uint8_t)(v >> 24)`, ..., `(uint8_t)v`.
abbrev pub put_be32 : ℕ → List ℕ
put_be32 v = (v / 2 ^ 24 % 256) ∷ (v / 2 ^ 16 % 256) ∷ (v / 2 ^ 8 % 256) ∷ (v % 256) ∷ []

abbrev pub put_be16 : ℕ → List ℕ
put_be16 v = (v / 2 ^ 8 % 256) ∷ (v % 256) ∷ []

-- The shifted bytes have no common bits, so that `|` is `+`.
abbrev pub get_be32 : List ℕ → ℕ → ℕ
get_be32 p i = byte p i * 2 ^ 24 + byte p (i + 1) * 2 ^ 16 + byte p (i + 2) * 2 ^ 8 + byte p (i + 3)

abbrev pub get_be16 : List ℕ → ℕ → ℕ
get_be16 p i = byte p i * 2 ^ 8 + byte p (i + 1)

-- `memcmp(a, b, n) == 0` for two lists of the `n` bytes.
abbrev pub same_bytes : List ℕ → List ℕ → Bool
same_bytes [] [] = true
same_bytes (x ∷ xs) (y ∷ ys) = (x == y) && same_bytes xs ys
same_bytes _ _ = false

pub same_bytes_refl : (xs : List ℕ) → same_bytes xs xs ≡ true
same_bytes_refl [] = refl
same_bytes_refl (x ∷ xs) = ground (arith, same_bytes_refl xs)

pub same_bytes_sound : (xs ys : List ℕ) → same_bytes xs ys ≡ true → xs ≡ ys
same_bytes_sound [] [] h = refl
same_bytes_sound [] (y ∷ ys) h = ground arith
same_bytes_sound (x ∷ xs) [] h = ground arith
same_bytes_sound (x ∷ xs) (y ∷ ys) h = ground (arith, same_bytes_sound xs ys)

-- Reading back a word that was written.
pub get_be32-put : (v : ℕ) (rest : List ℕ) → v < 2 ^ 32 → get_be32 (put_be32 v ++ rest) 0 ≡ v
get_be32-put v rest h = omega arith

-- A byte, or a word, behind a part of known length.
pub byte-append :
    (n j i : ℕ) (xs ys : List ℕ) → length xs ≡ n → j ≡ n + i → byte (xs ++ ys) j ≡ byte ys i
byte-append n j i [] ys e h = ap (byte ys) (omega arith)
byte-append n zero i (x ∷ xs) ys e h = absurd (omega arith)
byte-append n (suc j) i (x ∷ xs) ys e h = byte-append (length xs) j i xs ys refl (omega arith)

pub get_be32-append :
    (n k : ℕ) (xs ys : List ℕ) → length xs ≡ n → get_be32 (xs ++ ys) (n + k) ≡ get_be32 ys k
get_be32-append n k xs ys e = rw (
  byte-append n (n + k) k xs ys e (omega arith),
  byte-append n (n + k + 1) (k + 1) xs ys e (omega arith),
  byte-append n (n + k + 2) (k + 2) xs ys e (omega arith),
  byte-append n (n + k + 3) (k + 3) xs ys e (omega arith),
)
