-- ===== src/Domain/Tests.antt =====
-- The theorems about the domain at concrete inputs, and runs of its functions.
use chesscoin.Prelude.{◌*◌, ◌^◌, ◌≤◌, ◌<◌, ◌≡◌, ◌↔◌, refl, arith, replicate, ok}
use chesscoin.Domain.Digest.{Digest, IsDigest, zero_digest, to_hex, from_hex, leading_zero_bits}
use chesscoin.Domain.Digest.Hex.{from_hex-to_hex}
use chesscoin.Domain.Digest.Work.{be_value, leading_zero_bits_iff}
use chesscoin.Domain.Model.{genesis, genesis-IsModel}
use chesscoin.Domain.Step.{TrainingStep, deterministic}
use chesscoin.Domain.Step.Bounds.{IsUpdate, deterministic-IsUpdate, deterministic-IsStep}
use chesscoin.Domain.Step.Encode.{step_encode-injective}
use chesscoin.Domain.Trace.{BlockHeader}
use chesscoin.Domain.Trace.Encode.{header_encode-injective}

abbrev sevens : Digest
sevens = record { bytes = replicate 32 7 }

sevens-IsDigest : IsDigest sevens
sevens-IsDigest = omega arith

from_hex-to_hex_example : from_hex (to_hex sevens) ≡ ok sevens
from_hex-to_hex_example = from_hex-to_hex sevens sevens-IsDigest

leading_zero_bits_iff_example :
    (5 ≤ leading_zero_bits sevens) ↔ (be_value sevens.bytes * 2 ^ 5 < 2 ^ 256)
leading_zero_bits_iff_example = leading_zero_bits_iff sevens 5 sevens-IsDigest (omega arith)

five_zero_bits : leading_zero_bits sevens ≡ 5
unfolding leading_zero_bits
five_zero_bits = refl

deterministic-IsUpdate_example : IsUpdate (deterministic 42 0 genesis)
deterministic-IsUpdate_example = deterministic-IsUpdate 42 0 genesis genesis-IsModel

abbrev first_step : TrainingStep
first_step = deterministic 42 0 genesis

step_encode-injective_example : first_step ≡ first_step
step_encode-injective_example =
    step_encode-injective first_step first_step
      (deterministic-IsStep 42 0 genesis (omega arith) (omega arith) genesis-IsModel)
      (deterministic-IsStep 42 0 genesis (omega arith) (omega arith) genesis-IsModel) refl

abbrev some_header : BlockHeader
some_header = record {
  height = 3;
  previous_block = sevens;
  model_before = genesis;
  model_after = genesis;
  trace_root = zero_digest;
  training_seed = 42;
  sampling_entropy = 2026;
  sample_count = 6;
  nonce = 17;
}

header_encode-injective_example : some_header ≡ some_header
header_encode-injective_example =
    header_encode-injective some_header some_header (omega arith) (omega arith) refl
