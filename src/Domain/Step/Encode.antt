-- ===== src/Domain/Step/Encode.antt =====
-- Lemmas on the encoding of a step.
use chesscoin.Prelude.{◌≡◌, text, append_split, refl}
use chesscoin.Prelude.Words.{i64_bits-lt, i64_bits-injective, le_bytes_split, i64_bits}
use chesscoin.Domain.Model.Encode.{encode_split, encode-injective as model_encode-injective}
use chesscoin.Domain.Step.{TrainingStep, encode}
use chesscoin.Domain.Step.Bounds.{IsStep}

-- Two steps in range with the same encoding are the same step.
pub step_encode-injective : (a b : TrainingStep) → IsStep a → IsStep b → encode a ≡ encode b → a ≡ b
unfolding encode
step_encode-injective a b ha hb e₀ =
    let (_, e₁) =
      append_split (text "chesscoin.trace-step.v1") (text "chesscoin.trace-step.v1") refl e₀ in
    let (index, e₂) = le_bytes_split a.index b.index ha.index_fits hb.index_fits e₁ in
    let (seed, e₃) = le_bytes_split a.seed b.seed ha.seed_fits hb.seed_fits e₂ in
    let (batch_id, e₄) =
      le_bytes_split a.batch_id b.batch_id ha.batch_id_fits hb.batch_id_fits e₃ in
    let (weight_index, e₅) =
      le_bytes_split a.weight_index b.weight_index ha.weight_index_fits hb.weight_index_fits e₄ in
    let (gradient_bits, e₆) =
      le_bytes_split (i64_bits a.gradient) (i64_bits b.gradient) (i64_bits-lt _ ha.gradient_fits)
        (i64_bits-lt _ hb.gradient_fits) e₅ in
    let (rate_bits, e₇) =
      le_bytes_split (i64_bits a.learning_rate_ppm) (i64_bits b.learning_rate_ppm)
        (i64_bits-lt _ ha.learning_rate_ppm_fits) (i64_bits-lt _ hb.learning_rate_ppm_fits) e₆ in
    let (before, e₈) =
      encode_split a.state_before b.state_before ha.before_IsModel hb.before_IsModel e₇ in
    let after =
      model_encode-injective a.state_after b.state_after ha.after_IsModel hb.after_IsModel e₈ in
    let gradient = i64_bits-injective _ _ ha.gradient_fits hb.gradient_fits gradient_bits in
    let rate =
      i64_bits-injective _ _ ha.learning_rate_ppm_fits hb.learning_rate_ppm_fits rate_bits in
    λ i. record {
      index = index i;
      seed = seed i;
      batch_id = batch_id i;
      weight_index = weight_index i;
      gradient = gradient i;
      learning_rate_ppm = rate i;
      state_before = before i;
      state_after = after i;
    }
