-- ===== src/Prelude/Results.antt =====
-- `Result`, `?` and `String`. A string is the list of its UTF-8 bytes.
use Prim.Native.Char.{code}
use Prim.Native.String.{String}
use mathlib.Core.Path.{◌≡◌, refl}
use mathlib.Core.Logic.{◌⊎◌, inl, inr}
use mathlib.Core.List.{List, [], ◌∷◌}
use Prim.Native.Nat.{ℕ}

abbrev pub Bytes : Type 0
Bytes = List ℕ

-- The bytes of an ASCII literal.
abbrev pub text : String → Bytes
text String.[] = []
text (String.◌∷◌ c s) = code c ∷ text s

pub data Result {ℓ} (A E : Type ℓ) : Type ℓ where
  ok : A → Result A E
  err : E → Result A E

infixl 5 ◌>>=◌ ◌>>◌
abbrev pub ◌>>=◌ {ℓ} : {A B E : Type ℓ} → Result A E → (A → Result B E) → Result B E
ok a >>= f = f a
err e >>= f = err e

abbrev pub ◌>>◌ {ℓ} : {B E : Type ℓ} → Result (Unit {ℓ}) E → Result B E → Result B E
m >> k = m >>= λ _. k

abbrev pub map_err {ℓ} : {A E F : Type ℓ} → (E → F) → Result A E → Result A F
map_err f (ok a) = ok a
map_err f (err e) = err (f e)

-- To split on a computed result and keep the equation.
pub Result-cases {ℓ} :
    {A E : Type ℓ} (r : Result A E) → ((a : A) × (r ≡ ok a)) ⊎ ((e : E) × (r ≡ err e))
Result-cases (ok a) = inl (a, refl)
Result-cases (err e) = inr (e, refl)

pub ok-injective {ℓ} : {A E : Type ℓ} {a b : A} → ◌≡◌ {A = Result A E} (ok a) (ok b) → a ≡ b
ok-injective e = cc
