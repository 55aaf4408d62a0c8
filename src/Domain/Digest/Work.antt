-- ===== src/Domain/Digest/Work.antt =====
-- The leading zero bits of a digest against the number that its bytes spell, the highest first.
use native.Mathlib.Nat.{
  pow-suc, mul-le-mul_right, mul-le-mul_left, add-suc, add-zero, pow-le-pow_right, one-le-pow,
}
use native.Mathlib.Decide.{dec_le}
use chesscoin.Prelude.{
  ℕ, zero, suc, ◌+◌, ◌*◌, ◌^◌, ◌≤◌, ◌<◌, ◌≡◌, ◌↔◌, List, [], ◌∷◌, length, arith, All, ap, nat_beq,
  false,
}
use chesscoin.Domain.Digest.{Digest, IsDigest, leading_zeros, zero_bits, leading_zero_bits}

-- The bytes read as one number, the first byte the most significant.
abbrev pub be_value : List ℕ → ℕ
be_value [] = 0
be_value (b ∷ bs) = b * 256 ^ length bs + be_value bs

be_value-lt : (bs : List ℕ) → All (λ b. b < 256) bs → be_value bs < 256 ^ length bs
be_value-lt [] h = omega arith
be_value-lt (b ∷ bs) h = grind (arith, pow-suc 256 (length bs), be_value-lt bs h.1)

-- One byte: its leading zeros are those of its eight digits.
leading_zeros_bounds :
    (b : ℕ)
    → 0 < b
    → b < 256
    → ((b + 1) * 2 ^ leading_zeros b ≤ 256)
      × (256 ≤ b * 2 ^ suc (leading_zeros b))
      × (leading_zeros b < 8)
unfolding leading_zeros
leading_zeros_bounds b h k = ground arith

scale_below : (b v n p : ℕ) → v < n → 0 < p → (b + 1) * p ≤ 256 → (b * n + v) * p < n * 256
scale_below b v n p hv hp hb =
    omega (arith, mul-le-mul_right {m = suc v} {n = n} p hv, mul-le-mul_right n hb)

scale_above : (b v n p : ℕ) → 256 ≤ b * p → n * 256 ≤ (b * n + v) * p
scale_above b v n p hb = omega (arith, mul-le-mul_right n hb)

two_pow_add : (k n : ℕ) → 2 ^ (n + k) ≡ 2 ^ n * 2 ^ k
two_pow_add zero n = rw add-zero (omega arith)
two_pow_add (suc k) n =
    rw add-suc
      (omega (arith, pow-suc 2 (n + k), ap (λ (t : ℕ). 2 ^ n * t) (pow-suc 2 k), two_pow_add k n))

-- The two powers of two that enclose the number, and the width.
record IsMeasure (bs : List ℕ) (z : ℕ) : Type 0 where
  below : be_value bs * 2 ^ z < 256 ^ length bs
  above : z < 8 * length bs → 256 ^ length bs ≤ be_value bs * 2 ^ suc z
  width : z ≤ 8 * length bs

-- A zero byte in front doubles the power eight times.
zero_byte : (bs : List ℕ) (z : ℕ) → IsMeasure bs z → IsMeasure (0 ∷ bs) (8 + z)
zero_byte bs z m = record {
  below =
      omega (
        arith,
        eight z,
        pow-suc 256 (length bs),
        ap (λ (t : ℕ). be_value bs * t) (eight z),
        m.below,
      );
  above = λ k. omega (
    arith,
    ap (λ (t : ℕ). be_value bs * t) (eight (suc z)),
    ap (λ (t : ℕ). be_value bs * 2 ^ t) (plus_suc z),
    pow-suc 256 (length bs),
    m.above (omega arith),
  );
  width = omega (arith, m.width);
}
  where
    eight : (n : ℕ) → 2 ^ (8 + n) ≡ 256 * 2 ^ n
    eight n = two_pow_add n 8

    plus_suc : (n : ℕ) → 8 + suc n ≡ suc (8 + n)
    plus_suc n = omega arith

first_byte :
    (b : ℕ) (bs : List ℕ)
    → 0 < b
    → b < 256
    → be_value bs < 256 ^ length bs
    → IsMeasure (b ∷ bs) (leading_zeros b)
first_byte b bs h k v =
    let (up, down, narrow) = leading_zeros_bounds b h k in
    record {
      below = omega (
        arith,
        scale_below b (be_value bs) (256 ^ length bs) (2 ^ leading_zeros b) v
            (one-le-pow _ 2 (omega arith)) up,
        pow-suc 256 (length bs),
      );
      above = λ _. omega (
        arith,
        scale_above b (be_value bs) (256 ^ length bs) (2 ^ suc (leading_zeros b)) down,
        pow-suc 256 (length bs),
      );
      width = omega (arith, narrow);
    }

nat_beq-suc-zero : (b : ℕ) → nat_beq (suc b) 0 ≡ false
nat_beq-suc-zero b = ground arith

zero_bits-IsMeasure : (bs : List ℕ) → All (λ b. b < 256) bs → IsMeasure bs (zero_bits bs)
unfolding zero_bits
zero_bits-IsMeasure [] h = record {
  below = omega arith;
  above = λ k. absurd (omega arith);
  width = omega arith;
}
zero_bits-IsMeasure (zero ∷ bs) h = zero_byte bs (zero_bits bs) (zero_bits-IsMeasure bs h.1)
zero_bits-IsMeasure (suc b ∷ bs) h =
    rw (nat_beq-suc-zero b) (first_byte (suc b) bs (omega arith) h.0 (be_value-lt bs h.1))

-- At least k zero bits is a number below 2 ^ (256 - k), written without the subtraction.
pub leading_zero_bits_iff :
    (d : Digest) (k : ℕ)
    → IsDigest d
    → k ≤ 256
    → (k ≤ leading_zero_bits d) ↔ (be_value d.bytes * 2 ^ k < 2 ^ 256)
unfolding leading_zero_bits
leading_zero_bits_iff d k h bound = (
  λ le. omega (
    arith,
    m.below,
    ap (λ (n : ℕ). 256 ^ n) h.0,
    mul-le-mul_left (be_value d.bytes) (pow-le-pow_right {n = 2} (omega arith) le),
  ),
  λ lt. elim (dec_le k (zero_bits d.bytes)) [
    | yes le ↦ le
    | no more ↦ absurd (
        omega (
          arith,
          m.above (omega (arith, h.0, more)),
          ap (λ (n : ℕ). 256 ^ n) h.0,
          mul-le-mul_left (be_value d.bytes) (
              pow-le-pow_right {n = 2} (omega arith) {i = suc (zero_bits d.bytes)} {j = k}
                (omega (arith, more))),
        ))
  ],
)
  where
    m : IsMeasure d.bytes (zero_bits d.bytes)
    m = zero_bits-IsMeasure d.bytes h.1
