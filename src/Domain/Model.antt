-- ===== src/Domain/Model.antt =====
-- `ModelState` of crates/chesscoin-core/src/domain.rs: eight i64 weights.
pub mod Encode
use chesscoin.Prelude.{
  ℕ, ◌≡◌, ◌↔◌, Bool, true, List, [], ◌∷◌, ◌++◌, length, arith, Eq, ◌==◌, ==_iff, All, Bytes,
  list_eq,
}
use chesscoin.Prelude.Int.{ℤ, pos, negsuc, int_eq}
use chesscoin.Prelude.Words.{le_bytes, i64_bits, IsI64}

abbrev pub model_width : ℕ
model_width = 8

pub record ModelState : Type 0 where
  pub weights : List ℤ

-- The type `[i64; MODEL_WIDTH]`.
abbrev pub IsModel : ModelState → Type 0
IsModel m = (length m.weights ≡ model_width) × All IsI64 m.weights

abbrev pub genesis : ModelState
genesis = record {
  weights = pos 120 ∷ negsuc 79 ∷ pos 45 ∷ pos 210 ∷ negsuc 134 ∷ pos 65 ∷ pos 15 ∷ negsuc 29 ∷ [];
}

unfoldable pub model_beq : ModelState → ModelState → Bool
model_beq a b = a.weights == b.weights

pub model_beq_iff : (a b : ModelState) → (model_beq a b ≡ true) ↔ (a ≡ b)
unfolding model_beq
model_beq_iff a b = ground (arith, ==_iff a.weights b.weights)

instance abbrev pub model_eq : Eq ModelState
model_eq = record { eq = model_beq; decides = model_beq_iff }

pub encode_weights : List ℤ → Bytes
encode_weights [] = []
encode_weights (weight ∷ weights) = le_bytes 8 (i64_bits weight) ++ encode_weights weights

unfoldable pub encode : ModelState → Bytes
unfolding encode_weights
encode m = encode_weights m.weights

pub genesis-IsModel : IsModel genesis
genesis-IsModel = omega arith
