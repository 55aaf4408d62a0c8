-- ===== src/Prelude/Words/Xor.antt =====
-- The width of an exclusive or, from the digit recursion of the library.
use Prim.Native.Nat.{digits, differ, bit_xor-bitwise}
use native.Mathlib.Nat.{pow-suc}
use chesscoin.Prelude.{ℕ, zero, suc, ◌/◌, ◌%◌, ◌^◌, ◌≤◌, ◌<◌, bit_xor, arith}

differ-le : (a b : ℕ) {m : ℕ} → a ≤ m → b ≤ m → differ a b ≤ m
differ-le zero b ha hb = hb
differ-le (suc a) zero ha hb = ha
differ-le (suc a) (suc b) ha hb = differ-le a b (omega arith) (omega arith)

digits-lt : (n k a b : ℕ) → a < 2 ^ k → b < 2 ^ k → digits (λ y. y) differ n a b < 2 ^ k
digits-lt zero k a b ha hb = hb
digits-lt (suc n) k zero b ha hb = hb
digits-lt (suc n) zero (suc a) b ha hb = absurd (omega arith)
digits-lt (suc n) (suc k) (suc a) b ha hb = omega (
  arith,
  pow-suc 2 k,
  differ-le (suc a % 2) (b % 2) {m = 1} (omega arith) (omega arith),
  digits-lt n k (suc a / 2) (b / 2) (omega (arith, pow-suc 2 k)) (omega (arith, pow-suc 2 k)),
)

pub bit_xor-lt : (k a b : ℕ) → a < 2 ^ k → b < 2 ^ k → bit_xor a b < 2 ^ k
bit_xor-lt k a b ha hb = rw (bit_xor-bitwise a b) (digits-lt a k a b ha hb)
