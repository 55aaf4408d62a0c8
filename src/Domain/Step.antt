-- ===== src/Domain/Step.antt =====
-- `TrainingStep` of crates/chesscoin-core/src/domain.rs: the deterministic transition rule and its
-- byte encoding.
pub mod Bounds
pub mod Encode
use chesscoin.Prelude.{
  ℕ, ◌%◌, bit_xor, ◌≡◌, ◌↔◌, ◌&&◌, Bool, true, ◌++◌, arith, Eq, ◌==◌, ==_iff, Bytes, text, set,
  get_or, nat_eq,
}
use chesscoin.Prelude.Int.{ℤ, pos, ◌*ℤ◌, int_eq}
use chesscoin.Prelude.Words.{wrapping_mul, le_bytes, i64_bits, quot, saturating_sub}
use chesscoin.Domain.Model.{ModelState, model_eq, model_width}
use chesscoin.Domain.Model
use chesscoin.Domain.Mix.{mix64, deterministic_gradient}

abbrev pub learning_rate_ppm_const : ℤ
learning_rate_ppm_const = pos 125_000

pub record TrainingStep : Type 0 where
  pub index : ℕ
  pub seed : ℕ
  pub batch_id : ℕ
  pub weight_index : ℕ
  pub gradient : ℤ
  pub learning_rate_ppm : ℤ
  pub state_before : ModelState
  pub state_after : ModelState

unfoldable pub step_beq : TrainingStep → TrainingStep → Bool
step_beq a b =
    a.index == b.index
    && a.seed == b.seed
    && a.batch_id == b.batch_id
    && a.weight_index == b.weight_index
    && a.gradient == b.gradient
    && a.learning_rate_ppm == b.learning_rate_ppm
    && a.state_before == b.state_before
    && a.state_after == b.state_after

pub step_beq_iff : (a b : TrainingStep) → (step_beq a b ≡ true) ↔ (a ≡ b)
unfolding step_beq
step_beq_iff a b = ground (
  arith,
  ==_iff a.index b.index,
  ==_iff a.seed b.seed,
  ==_iff a.batch_id b.batch_id,
  ==_iff a.weight_index b.weight_index,
  ==_iff a.gradient b.gradient,
  ==_iff a.learning_rate_ppm b.learning_rate_ppm,
  ==_iff a.state_before b.state_before,
  ==_iff a.state_after b.state_after,
)

instance abbrev pub step_eq : Eq TrainingStep
step_eq = record { eq = step_beq; decides = step_beq_iff }

-- The change of the chosen weight, in i64 with rounding towards zero.
unfoldable pub delta : ℤ → ℤ → ℤ
unfolding ◌*ℤ◌
delta gradient learning_rate_ppm = quot (gradient *ℤ learning_rate_ppm) 1_000_000

unfoldable pub deterministic : ℕ → ℕ → ModelState → TrainingStep
unfolding mix64 deterministic_gradient delta saturating_sub
deterministic seed index state_before =
    let mixed = mix64 (bit_xor seed (wrapping_mul index 0x9e37_79b9_7f4a_7c15)) in
    let weight_index = mixed % model_width in
    let gradient = deterministic_gradient seed index state_before mixed in
    let weights = state_before.weights in
    record {
      index = index;
      seed = seed;
      batch_id = mix64 (bit_xor mixed 0xa076_1d64_78bd_642f);
      weight_index = weight_index;
      gradient = gradient;
      learning_rate_ppm = learning_rate_ppm_const;
      state_before = state_before;
      state_after = record {
        weights = set weights weight_index (
            saturating_sub (get_or weights weight_index (pos 0))
              (delta gradient learning_rate_ppm_const));
      };
    }

unfoldable pub encode : TrainingStep → Bytes
encode step =
    text "chesscoin.trace-step.v1"
    ++ (le_bytes 8 step.index
        ++ (le_bytes 8 step.seed
            ++ (le_bytes 8 step.batch_id
                ++ (le_bytes 8 step.weight_index
                    ++ (le_bytes 8 (i64_bits step.gradient)
                        ++ (le_bytes 8 (i64_bits step.learning_rate_ppm)
                            ++ (Model.encode step.state_before
                                ++ Model.encode step.state_after)))))))
