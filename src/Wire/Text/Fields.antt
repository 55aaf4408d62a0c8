-- ===== src/Wire/Text/Fields.antt =====
-- Lemmas on splitting and joining fields.
use chesscoin.Prelude.{
  ℕ, ◌≡◌, ◌≢◌, refl, All, Bool-cases, inl, inr, List, [], ◌∷◌, ◌++◌, All-append, Bytes, nat_eq, ◌∙◌,
  ap, ◌==◌, ==_iff, ==_refl,
}
use chesscoin.Wire.Text.{split, join, add_to_first}

-- The text does not hold the separator.
abbrev pub Lacks : ℕ → Bytes → Type 0
Lacks sep = All (λ b. b ≢ sep)

pub split-Lacks : (sep : ℕ) (bs : Bytes) → Lacks sep bs → split sep bs ≡ bs ∷ []
unfolding split
split-Lacks sep [] h = refl
split-Lacks sep (b ∷ bs) h = elim (Bool-cases (b == sep)) [
  | inl same ↦ absurd (h.0 ((==_iff b sep).0 same))
  | inr apart ↦ rw apart (ap (add_to_first b) (split-Lacks sep bs h.1))
]

split_field :
    (sep : ℕ) (bs rest : Bytes) → Lacks sep bs → split sep (bs ++ sep ∷ rest) ≡ bs ∷ split sep rest
unfolding split
split_field sep [] rest h = rw (==_refl sep) refl
split_field sep (b ∷ bs) rest h = elim (Bool-cases (b == sep)) [
  | inl same ↦ absurd (h.0 ((==_iff b sep).0 same))
  | inr apart ↦ rw apart (ap (add_to_first b) (split_field sep bs rest h.1))
]

-- Splitting a join gives the fields back, if there is one and none holds the separator.
pub split-join :
    (sep : ℕ) (field : Bytes) (fields : List Bytes)
    → All (Lacks sep) (field ∷ fields)
    → split sep (join sep (field ∷ fields)) ≡ field ∷ fields
unfolding join
split-join sep field [] h = split-Lacks sep field h.0
split-join sep field (next ∷ fields) h =
    split_field sep field (join sep (next ∷ fields)) h.0
    ∙ ap (λ fs. field ∷ fs) (split-join sep next fields h.1)

pub All-join :
    (P : ℕ → Type 0) (sep : ℕ) (fields : List Bytes)
    → P sep
    → All (All P) fields
    → All P (join sep fields)
unfolding join
All-join P sep [] p h = tt
All-join P sep (field ∷ []) p h = h.0
All-join P sep (field ∷ next ∷ fields) p h =
    All-append P field (sep ∷ join sep (next ∷ fields)) h.0
      (p, All-join P sep (next ∷ fields) p h.1)

pub All-mono : (P Q : ℕ → Type 0) (bs : Bytes) → ((b : ℕ) → P b → Q b) → All P bs → All Q bs
All-mono P Q [] f h = tt
All-mono P Q (b ∷ bs) f h = (f b h.0, All-mono P Q bs f h.1)
