-- ===== src/Prelude/Equality.antt =====
-- The `==` of the source: a Boolean test that decides equality, found by the type.
use mathlib.Core.Path.{◌≡◌, refl}
use mathlib.Core.Logic.{◌↔◌}
use mathlib.Core.Bool.{Bool, true, false, ◌&&◌, ◌||◌}
use mathlib.Core.List.{List, [], ◌∷◌}
use native.Mathlib.Omega.{arith}
use Prim.Native.Nat.{ℕ}
use chesscoin.Prelude.Tests.{nat_beq, nat_beq_iff}

pub record Eq {ℓ} (A : Type ℓ) : Type ℓ where
  pub eq : A → A → Bool
  pub decides : (a b : A) → (eq a b ≡ true) ↔ (a ≡ b)

infix 50 ◌==◌
abbrev pub ◌==◌ {ℓ} : {A : Type ℓ} ⦃e : Eq A⦄ → A → A → Bool
◌==◌ ⦃e⦄ = e.eq

pub ==_iff {ℓ} : {A : Type ℓ} ⦃e : Eq A⦄ (a b : A) → ((a == b) ≡ true) ↔ (a ≡ b)
==_iff ⦃e⦄ = e.decides

pub ==_refl {ℓ} : {A : Type ℓ} ⦃e : Eq A⦄ (a : A) → (a == a) ≡ true
==_refl a = (==_iff a a).1 refl

instance abbrev pub nat_eq : Eq ℕ
nat_eq = record { eq = nat_beq; decides = nat_beq_iff }

module _ {ℓ} {A : Type ℓ} ⦃e : Eq A⦄ where
  abbrev pub list_beq : List A → List A → Bool
  list_beq [] [] = true
  list_beq [] (y ∷ ys) = false
  list_beq (x ∷ xs) [] = false
  list_beq (x ∷ xs) (y ∷ ys) = x == y && list_beq xs ys

  pub list_beq_iff : (xs ys : List A) → (list_beq xs ys ≡ true) ↔ (xs ≡ ys)
  list_beq_iff [] [] = ground arith
  list_beq_iff [] (y ∷ ys) = ground arith
  list_beq_iff (x ∷ xs) [] = ground arith
  list_beq_iff (x ∷ xs) (y ∷ ys) = ground (arith, ==_iff x y, list_beq_iff xs ys)

instance abbrev pub list_eq {ℓ} : {A : Type ℓ} ⦃e : Eq A⦄ → Eq (List A)
list_eq = record { eq = list_beq; decides = list_beq_iff }

-- `contains` of a slice.
module _ {ℓ} {A : Type ℓ} ⦃e : Eq A⦄ where
  abbrev pub contains : List A → A → Bool
  contains [] a = false
  contains (x ∷ xs) a = a == x || contains xs a
