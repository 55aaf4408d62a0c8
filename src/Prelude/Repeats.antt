-- ===== src/Prelude/Repeats.antt =====
-- Lists that hold nothing twice.
use mathlib.Core.Path.{◌≡◌, refl}
use mathlib.Core.Logic.{inl, inr}
use mathlib.Core.Bool.{false, ◌||◌}
use mathlib.Core.List.{List, [], ◌∷◌, ◌++◌}
use native.Mathlib.Omega.{arith}
use chesscoin.Prelude.Tests.{Bool-cases}
use chesscoin.Prelude.Equality.{Eq, ◌==◌, ==_iff, contains}
use mathlib.Core.Path.{sym}

module _ {ℓ} {A : Type ℓ} ⦃e : Eq A⦄ where
  abbrev pub Distinct : List A → Type ℓ
  Distinct [] = Unit
  Distinct (x ∷ xs) = (contains xs x ≡ false) × Distinct xs

  -- A test for equality that fails fails from the other side too.
  pub ==_comm_false : (a b : A) → (a == b) ≡ false → (b == a) ≡ false
  ==_comm_false a b h = elim (Bool-cases (b == a)) [
    | inl same ↦ absurd (cc ((==_iff a b).1 (sym ((==_iff b a).0 same)), h))
    | inr apart ↦ apart
  ]

  pub contains-push :
      (xs : List A) (a x : A) → contains (xs ++ a ∷ []) x ≡ (contains xs x || x == a)
  contains-push [] a x = ground arith
  contains-push (y ∷ ys) a x = ground (arith, contains-push ys a x)

  pub contains-append :
      (xs ys : List A) (x : A) → contains (xs ++ ys) x ≡ (contains xs x || contains ys x)
  contains-append [] ys x = refl
  contains-append (y ∷ xs) ys x = ground (arith, contains-append xs ys x)

  pub push-Distinct :
      (xs : List A) (a : A) → Distinct xs → contains xs a ≡ false → Distinct (xs ++ a ∷ [])
  push-Distinct [] a h apart = (refl, tt)
  push-Distinct (x ∷ xs) a h apart = (
    ground (arith, contains-push xs a x, ==_comm_false a x, h.0),
    push-Distinct xs a h.1 (ground arith),
  )
