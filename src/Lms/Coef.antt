-- ===== src/Lms/Coef.antt =====
-- The Winternitz digits and their checksum (lms_lmots_coef, lms_lmots_checksum of src/lms_params.c).
pub mod Bounds
pub mod Digits
use sec_lms.Prelude.{ℕ, zero, suc, ◌+◌, ◌-◌, ◌*◌, ◌/◌, ◌%◌, ◌^◌, ◌≤◌, ◌<◌, ◌≡◌, refl, List, arith}
use sec_lms.Prelude.Bytes.{byte}

-- lms_lmots_coef. With `d` digits to a byte, a power of two, `~i & (d - 1)` is `d - 1 - i % d`.
unfoldable pub coef : List ℕ → ℕ → ℕ → ℕ
coef bytes i w =
    let shift = w * (8 / w - 1 - i % (8 / w)) in byte bytes (i * w / 8) / 2 ^ shift % 2 ^ w

-- The sum of lms_lmots_checksum over the digits from `i` on, `k` of them.
pub digit_sum : List ℕ → ℕ → ℕ → ℕ → ℕ
digit_sum Q w i zero = 0
digit_sum Q w i (suc k) = (2 ^ w - 1 - coef Q i w) + digit_sum Q w (i + 1) k

-- lms_lmots_checksum, a 32-bit number.
unfoldable pub checksum : List ℕ → ℕ → ℕ → ℕ → ℕ
checksum Q q_len w ls = digit_sum Q w 0 (8 * q_len / w) * 2 ^ ls % 2 ^ 32
