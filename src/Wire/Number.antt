-- ===== src/Wire/Number.antt =====
-- Numbers as text: `to_string` and `parse` of the standard library, as the wire format uses them.
pub mod RoundTrip
use chesscoin.Prelude.{
  ℕ, zero, suc, ◌+◌, ◌-◌, ◌*◌, ◌/◌, ◌%◌, ◌^◌, Bool, Option, some, none, List, [], ◌∷◌, Bytes, ltb,
  leb, if◌then◌else◌, ◌==◌, nat_eq, ◌&&◌, ◌||◌,
}
use chesscoin.Prelude.Int.{ℤ, pos, negsuc, ◌-ℤ◌}
use mathlib.Core.Option

-- The decimal digits of a number in front of what follows; k digits are enough below 10 ^ k.
unfoldable pub digits : ℕ → ℕ → Bytes → Bytes
digits zero n rest = rest
digits (suc k) n rest =
    let more = digits k (n / 10) ((n % 10 + b'0') ∷ rest) in
    if ltb n 10 then (n + b'0') ∷ rest else more

-- A number below 2 ^ 64 has at most 20 digits.
abbrev pub u64_text : ℕ → Bytes
u64_text n = digits 20 n []

unfoldable pub i64_text : ℤ → Bytes
i64_text (pos n) = u64_text n
i64_text (negsuc n) = b'-' ∷ u64_text (n + 1)

abbrev pub is_digit : ℕ → Bool
is_digit b = leb b'0' b && leb b b'9'

-- The value of a run of digits after a value; any other byte is an error.
unfoldable pub digits_value : ℕ → Bytes → Option ℕ
digits_value value [] = some value
digits_value value (b ∷ bs) =
    let rest = digits_value (value * 10 + (b - b'0')) bs in if is_digit b then rest else none

abbrev digits_only : Bytes → Option ℕ
digits_only [] = none
digits_only (b ∷ bs) = digits_value 0 (b ∷ bs)

-- An unsigned number may have a plus sign.
abbrev unsigned : Bytes → Option ℕ
unsigned [] = none
unsigned (b ∷ bs) = if b == b'+' then digits_only bs else digits_only (b ∷ bs)

abbrev below : ℕ → ℕ → Option ℕ
below limit n = if ltb n limit then some n else none

-- `parse::<u64>` and the other unsigned types, by the first number that is too large for the type.
unfoldable pub parse_below : ℕ → Bytes → Option ℕ
unfolding digits_value
parse_below limit input = Option.bind (unsigned input) (below limit)

abbrev pub parse_u64 : Bytes → Option ℕ
parse_u64 = parse_below (2 ^ 64)

abbrev negative : ℕ → Option ℤ
negative n = if leb n (2 ^ 63) then some (pos 0 -ℤ pos n) else none

abbrev positive : ℕ → Option ℤ
positive n = if ltb n (2 ^ 63) then some (pos n) else none

unfoldable pub parse_i64 : Bytes → Option ℤ
unfolding digits_value
parse_i64 [] = none
parse_i64 (b ∷ bs) =
    if b == b'-'
    then Option.bind (digits_only bs) negative
    else Option.bind (unsigned (b ∷ bs)) positive
