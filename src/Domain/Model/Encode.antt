-- ===== src/Domain/Model/Encode.antt =====
-- The encoding of a model state: its length, and that it determines the state.
use chesscoin.Prelude.{
  ℕ, ◌*◌, ◌≡◌, refl, List, [], ◌∷◌, ◌++◌, length, length-append, append_split, arith, All, sym, ◌∙◌,
}
use chesscoin.Prelude.Int.{ℤ}
use chesscoin.Prelude.Words.{
  le_bytes, length-le_bytes, le_bytes_split, i64_bits, i64_bits-lt, i64_bits-injective, IsI64,
}
use chesscoin.Domain.Model.{ModelState, IsModel, encode, encode_weights}

length-encode_weights : (ws : List ℤ) → length (encode_weights ws) ≡ 8 * length ws
unfolding encode_weights
length-encode_weights [] = refl
length-encode_weights (w ∷ ws) = omega (
  arith,
  length-append (le_bytes 8 (i64_bits w)) (encode_weights ws),
  length-le_bytes 8 (i64_bits w),
  length-encode_weights ws,
)

pub length-encode : (m : ModelState) → IsModel m → length (encode m) ≡ 64
unfolding encode
length-encode m h = omega (arith, length-encode_weights m.weights, h.0)

encode_weights-injective :
    (us vs : List ℤ)
    → length us ≡ length vs
    → All IsI64 us
    → All IsI64 vs
    → encode_weights us ≡ encode_weights vs
    → us ≡ vs
unfolding encode_weights
encode_weights-injective [] [] n hu hv e = refl
encode_weights-injective [] (v ∷ vs) n hu hv e = absurd (omega arith)
encode_weights-injective (u ∷ us) [] n hu hv e = absurd (omega arith)
encode_weights-injective (u ∷ us) (v ∷ vs) n hu hv e =
    let (p, q) =
      le_bytes_split (i64_bits u) (i64_bits v) (i64_bits-lt u hu.0) (i64_bits-lt v hv.0) e in
    let head : u ≡ v = i64_bits-injective u v hu.0 hv.0 p in
    let tail : us ≡ vs = encode_weights-injective us vs (omega arith) hu.1 hv.1 q in cc

pub encode-injective : (a b : ModelState) → IsModel a → IsModel b → encode a ≡ encode b → a ≡ b
unfolding encode
encode-injective a b ha hb e =
    let same : a.weights ≡ b.weights =
      encode_weights-injective a.weights b.weights (ha.0 ∙ sym hb.0) ha.1 hb.1 e in
    ground arith

-- A state at the front of two equal texts is the same state.
pub encode_split :
    (a b : ModelState) {us vs : List ℕ}
    → IsModel a
    → IsModel b
    → encode a ++ us ≡ encode b ++ vs
    → (a ≡ b) × (us ≡ vs)
encode_split a b ha hb e =
    let (p, q) =
      append_split (encode a) (encode b) (length-encode a ha ∙ sym (length-encode b hb)) e in
    (encode-injective a b ha hb p, q)
