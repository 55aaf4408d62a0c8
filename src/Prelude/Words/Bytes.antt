-- ===== src/Prelude/Words/Bytes.antt =====
-- `to_le_bytes` and its inverse.
use native.Mathlib.Nat.{pow-suc}
use chesscoin.Prelude.{
  ℕ, zero, suc, ◌+◌, ◌*◌, ◌/◌, ◌%◌, ◌^◌, ◌<◌, ◌≡◌, refl, ap, arith, List, [], ◌∷◌, length, All,
  append_split, ◌++◌, sym, ◌∙◌,
}

-- The k lowest bytes of a number, the lowest first.
unfoldable pub le_bytes : ℕ → ℕ → List ℕ
le_bytes zero x = []
le_bytes (suc k) x = (x % 256) ∷ le_bytes k (x / 256)

-- `from_le_bytes`.
unfoldable pub le_value : List ℕ → ℕ
le_value [] = 0
le_value (b ∷ bs) = b + 256 * le_value bs

pub length-le_bytes : (k x : ℕ) → length (le_bytes k x) ≡ k
unfolding le_bytes
length-le_bytes zero x = refl
length-le_bytes (suc k) x = ap suc (length-le_bytes k (x / 256))

pub le_value-le_bytes : (k x : ℕ) → x < 256 ^ k → le_value (le_bytes k x) ≡ x
unfolding le_bytes le_value
le_value-le_bytes zero x h = omega arith
le_value-le_bytes (suc k) x h =
    omega (arith, pow-suc 256 k, le_value-le_bytes k (x / 256) (omega (arith, pow-suc 256 k)))

pub le_bytes-injective :
    (k x y : ℕ) → x < 256 ^ k → y < 256 ^ k → le_bytes k x ≡ le_bytes k y → x ≡ y
le_bytes-injective k x y hx hy e =
    sym (le_value-le_bytes k x hx) ∙ ap le_value e ∙ le_value-le_bytes k y hy

-- Eight bytes at the front of two equal texts hold the same number.
pub le_bytes_split :
    (x y : ℕ) {us vs : List ℕ}
    → x < 2 ^ 64
    → y < 2 ^ 64
    → le_bytes 8 x ++ us ≡ le_bytes 8 y ++ vs
    → (x ≡ y) × (us ≡ vs)
le_bytes_split x y hx hy e =
    let (p, q) =
      append_split (le_bytes 8 x) (le_bytes 8 y) (length-le_bytes 8 x ∙ sym (length-le_bytes 8 y))
        e in
    (le_bytes-injective 8 x y hx hy p, q)

pub le_bytes-IsByte : (k x : ℕ) → All (λ b. b < 256) (le_bytes k x)
unfolding le_bytes
le_bytes-IsByte zero x = tt
le_bytes-IsByte (suc k) x = (omega arith, le_bytes-IsByte k (x / 256))
