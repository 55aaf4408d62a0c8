-- ===== src/Wire/Number/RoundTrip.antt =====
-- Numbers through their decimal text and back.
use mathlib.Core.Option.{bind}
use native.Mathlib.Nat.{pow-suc}
use chesscoin.Prelude.{
  ℕ, zero, suc, ◌+◌, ◌*◌, ◌/◌, ◌%◌, ◌^◌, ◌≤◌, ◌<◌, ◌≡◌, refl, arith, All, false, Bool-cases, inl,
  inr, some, [], ◌∷◌, length, Bytes, ltb, nat_eq, ◌∙◌, ap, ◌==◌, ==_iff,
}
use chesscoin.Prelude.Int.{ℤ, pos, negsuc, ◌-ℤ◌}
use chesscoin.Prelude.Words.{IsI64}
use chesscoin.Wire.Text.Fields.{All-mono}
use chesscoin.Wire.Number.{
  digits, u64_text, i64_text, digits_value, digits_only, unsigned, parse_below, parse_i64, positive,
  negative,
}

abbrev pub IsDigit : ℕ → Type 0
IsDigit b = (48 ≤ b) × (b ≤ 57)

pub digits-IsDigit : (k n : ℕ) (rest : Bytes) → All IsDigit rest → All IsDigit (digits k n rest)
unfolding digits
digits-IsDigit zero n rest h = h
digits-IsDigit (suc k) n rest h = elim (Bool-cases (ltb n 10)) [
  | inl small ↦ rw small (ground arith, h)
  | inr large ↦ rw large (digits-IsDigit k (n / 10) _ (omega arith, h))
]

length-digits : (k n : ℕ) (rest : Bytes) → length rest ≤ length (digits k n rest)
unfolding digits
length-digits zero n rest = omega arith
length-digits (suc k) n rest = ground (arith, length-digits k (n / 10) ((n % 10 + 48) ∷ rest))

u64_text-some : (n : ℕ) → 0 < length (u64_text n)
unfolding digits
u64_text-some n = ground (arith, length-digits 19 (n / 10) ((n % 10 + 48) ∷ []))

value_digit :
    (v n : ℕ) (rest : Bytes)
    → n < 10
    → digits_value v ((n + 48) ∷ rest) ≡ digits_value (v * 10 + n) rest
unfolding digits_value
value_digit v n rest h = ground arith

digits_value-digits :
    (k n : ℕ) (rest : Bytes) → n < 10 ^ k → digits_value 0 (digits k n rest) ≡ digits_value n rest
unfolding digits
digits_value-digits zero n rest h =
    let none_left : 0 ≡ n = omega arith in ap (λ m. digits_value m rest) none_left
digits_value-digits (suc k) n rest h = elim (Bool-cases (ltb n 10)) [
  | inl small ↦
      let first : 0 * 10 + n ≡ n = omega arith in
      rw small (value_digit 0 n rest (ground arith) ∙ ap (λ m. digits_value m rest) first)
  | inr large ↦
      let join_eq : n / 10 * 10 + n % 10 ≡ n = omega arith in
      rw large (
        digits_value-digits k (n / 10) ((n % 10 + 48) ∷ rest) (omega (arith, pow-suc 10 k, h))
        ∙ value_digit (n / 10) (n % 10) rest (omega arith)
        ∙ ap (λ m. digits_value m rest) join_eq)
]

unsigned_digits : (bs : Bytes) → All IsDigit bs → 0 < length bs → unsigned bs ≡ digits_value 0 bs
unsigned_digits [] h some_bytes = absurd (omega arith)
unsigned_digits (b ∷ bs) h some_bytes = ground (arith, h.0, ==_iff b 43)

digits_only_digits : (bs : Bytes) → 0 < length bs → digits_only bs ≡ digits_value 0 bs
digits_only_digits [] some_bytes = absurd (omega arith)
digits_only_digits (b ∷ bs) some_bytes = refl

-- The digits of a u64, and their value.
u64_text-IsDigit : (n : ℕ) → All IsDigit (u64_text n)
u64_text-IsDigit n = digits-IsDigit 20 n [] tt

value-u64_text : (n : ℕ) → n < 2 ^ 64 → digits_value 0 (u64_text n) ≡ some n
unfolding digits_value
value-u64_text n h = digits_value-digits 20 n [] (omega arith)

unsigned-u64_text : (n : ℕ) → n < 2 ^ 64 → unsigned (u64_text n) ≡ some n
unsigned-u64_text n h =
    unsigned_digits (u64_text n) (u64_text-IsDigit n) (u64_text-some n) ∙ value-u64_text n h

-- Every number below a limit of at most 2 ^ 64 is read back from its text.
pub parse_below-u64_text :
    (limit n : ℕ) → limit ≤ 2 ^ 64 → n < limit → parse_below limit (u64_text n) ≡ some n
unfolding parse_below bind
parse_below-u64_text limit n fits h = rw (unsigned-u64_text n (omega arith)) (ground arith)

positive_lem : (n : ℕ) → n < 2 ^ 63 → positive n ≡ some (pos n)
positive_lem n h = ground arith

negative_lem : (n : ℕ) → n < 2 ^ 63 → negative (n + 1) ≡ some (negsuc n)
unfolding ◌-ℤ◌
negative_lem n h = ground arith

not_minus :
    (bs : Bytes) (n : ℕ)
    → All IsDigit bs
    → unsigned bs ≡ some n
    → n < 2 ^ 63
    → parse_i64 bs ≡ some (pos n)
unfolding parse_i64 bind
not_minus [] n h read fits = absurd (cc read)
not_minus (b ∷ bs) n h read fits =
    let apart : (b == 45) ≡ false = ground (arith, ==_iff b 45, h.0) in
    rw apart (ap (λ r. bind r positive) read ∙ positive_lem n fits)

-- Every i64 is read back from its text.
pub parse_i64-i64_text : (w : ℤ) → IsI64 w → parse_i64 (i64_text w) ≡ some w
unfolding i64_text parse_i64 bind
parse_i64-i64_text (pos n) h =
    not_minus (u64_text n) n (u64_text-IsDigit n) (unsigned-u64_text n (omega arith)) (omega arith)
parse_i64-i64_text (negsuc n) h =
    let read =
      digits_only_digits (u64_text (n + 1)) (u64_text-some (n + 1))
      ∙ value-u64_text (n + 1) (omega arith) in
    ap (λ r. bind r negative) read ∙ negative_lem n (omega arith)

-- The bytes of a number: a sign or digits.
abbrev pub IsNumeric : ℕ → Type 0
IsNumeric b = (45 ≤ b) × (b ≤ 57)

pub u64_text-IsNumeric : (n : ℕ) → All IsNumeric (u64_text n)
u64_text-IsNumeric n = All-mono IsDigit IsNumeric _ (λ b h. omega arith) (u64_text-IsDigit n)

pub i64_text-IsNumeric : (w : ℤ) → All IsNumeric (i64_text w)
unfolding i64_text
i64_text-IsNumeric (pos n) = u64_text-IsNumeric n
i64_text-IsNumeric (negsuc n) = (omega arith, u64_text-IsNumeric (n + 1))
