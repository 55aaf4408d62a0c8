-- ===== src/Prelude/Words.antt =====
-- The machine integers of the source: a u64 is a native number below 2 ^ 64, an i64 an integer
-- between -2 ^ 63 and 2 ^ 63 - 1. Each operation writes the wrap, the clamp or the cast out.
mod Xor
mod Bytes
pub use Xor.{bit_xor-lt}
unfoldable pub use Bytes.{le_bytes, le_value}
pub use Bytes.{
  length-le_bytes, le_value-le_bytes, le_bytes_split, le_bytes-injective, le_bytes-IsByte,
}
use chesscoin.Prelude.{
  ℕ, ◌+◌, ◌-◌, ◌*◌, ◌/◌, ◌%◌, ◌^◌, ◌≤◌, ◌<◌, bit_xor, ◌≡◌, arith, ltb, leb, Bool, if◌then◌else◌,
}
use chesscoin.Prelude.Int.{ℤ, pos, negsuc, ◌-ℤ◌, ◌+ℤ◌, ◌*ℤ◌, ◌≤ℤ◌, ltb_ℤ, pos_part, neg_part}

abbrev pub u64_size : ℕ
u64_size = 2 ^ 64

-- `x as u64` of a wider count, and the sums and products that wrap.
abbrev pub as_u64 : ℕ → ℕ
as_u64 x = x % 2 ^ 64

abbrev pub wrapping_add : ℕ → ℕ → ℕ
wrapping_add a b = (a + b) % 2 ^ 64

abbrev pub wrapping_mul : ℕ → ℕ → ℕ
wrapping_mul a b = (a * b) % 2 ^ 64

abbrev pub shr : ℕ → ℕ → ℕ
shr x k = x / 2 ^ k

-- `x.rotate_left(k)` for k up to 64.
abbrev pub rotate_left : ℕ → ℕ → ℕ
rotate_left x k = (x * 2 ^ k) % 2 ^ 64 + x / 2 ^ (64 - k)

abbrev pub rotate_right : ℕ → ℕ → ℕ
rotate_right x k = rotate_left x (64 - k)

-- The bit pattern of an i64, `w as u64`.
abbrev pub i64_bits : ℤ → ℕ
i64_bits (pos n) = n
i64_bits (negsuc n) = 2 ^ 64 - 1 - n

abbrev pub i64_min : ℤ
i64_min = negsuc (2 ^ 63 - 1)

abbrev pub i64_max : ℤ
i64_max = pos (2 ^ 63 - 1)

abbrev pub IsI64 : ℤ → Type 0
IsI64 a = (i64_min ≤ℤ a) × (a ≤ℤ i64_max)

abbrev pub saturate : ℤ → ℤ
saturate a = if ltb_ℤ a i64_min then i64_min else if ltb_ℤ i64_max a then i64_max else a

unfoldable pub saturating_sub : ℤ → ℤ → ℤ
saturating_sub a b = saturate (a -ℤ b)

unfoldable pub saturating_add : ℤ → ℤ → ℤ
saturating_add a b = saturate (a +ℤ b)

-- `a / d` on i64 rounds towards zero.
abbrev pub quot : ℤ → ℕ → ℤ
quot (pos n) d = pos (n / d)
quot (negsuc n) d = pos 0 -ℤ pos ((n + 1) / d)

pub saturate-IsI64 : (a : ℤ) → IsI64 (saturate a)
saturate-IsI64 a = ground arith

pub i64_bits-lt : (a : ℤ) → IsI64 a → i64_bits a < 2 ^ 64
i64_bits-lt (pos n) h = omega arith
i64_bits-lt (negsuc n) h = omega arith

-- Within the i64 range the bit pattern determines the number.
pub i64_bits-injective : (a b : ℤ) → IsI64 a → IsI64 b → i64_bits a ≡ i64_bits b → a ≡ b
i64_bits-injective (pos n) (pos m) h k e = ground arith
i64_bits-injective (pos n) (negsuc m) h k e = absurd (omega arith)
i64_bits-injective (negsuc n) (pos m) h k e = absurd (omega arith)
i64_bits-injective (negsuc n) (negsuc m) h k e = ground arith
