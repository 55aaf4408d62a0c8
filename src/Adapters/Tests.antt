-- ===== src/Adapters/Tests.antt =====
-- The toy hash and the sampler at concrete inputs.
use chesscoin.Prelude.{ℕ, ◌≤◌, ◌<◌, ◌≡◌, refl, arith, some, List, [], length, replicate}
use chesscoin.Prelude.Words.{le_bytes, le_value}
use chesscoin.Domain.Digest.{Digest, IsDigest}
use chesscoin.Domain.Mix.{mix64}
use chesscoin.Adapters.{absorb, absorb_all, finish, toy_digest, draw, sample_indices}
use chesscoin.Adapters.Nonce.{draw_low_byte}
use chesscoin.Adapters.Sampling.{distinct_draws, IsSample, sample_indices_result}

abbrev root : Digest
root = record { bytes = replicate 32 7 }

enough_draws : 1 < 16 → 1 ≤ length (distinct_draws (draw 16 root 99) 1 0 [])
unfolding distinct_draws draw toy_digest absorb_all absorb finish mix64 le_bytes le_value
enough_draws h = omega arith

sample_indices_result_example :
    (indices : List ℕ) × (sample_indices 2 16 1 root 99 ≡ some indices) × IsSample 16 1 indices
sample_indices_result_example = sample_indices_result 1 16 1 root 99 enough_draws

root-IsDigest : IsDigest root
root-IsDigest = omega arith

draw_low_byte_example : draw 16 root 99 0 ≡ draw 16 root 99 255
draw_low_byte_example = draw_low_byte 16 root 99 0 255 root-IsDigest refl
