-- ===== src/Node/Tests.antt =====
-- A node with one block, and a peer with a second block behind it.
pub mod Peers
pub mod Blocks
pub mod Runs
pub mod Steps
mod Loop
mod Start
use chesscoin.Prelude.{ℕ, ◌≡◌, refl, false, [], ◌∷◌, ◌==◌}
use chesscoin.Prelude.Words.{le_bytes}
use chesscoin.Domain.Digest.{zero_digest, digest_eq, digest_beq}
use chesscoin.Domain.Model.{genesis}
use chesscoin.Domain.Model
use chesscoin.Domain.Mix.{mix64}
use chesscoin.Domain.Trace
use chesscoin.Domain.Trace.{Block}
use chesscoin.Application.Config.{default_config}
use chesscoin.Application.Validation.{block_header_hash}
use chesscoin.Adapters.{absorb, absorb_all, finish, toy_digest}
use chesscoin.Node.Locator.{
  hash_of, blocks_after_locator, block_locator, blocks_after-block_locator,
}

abbrev pub block_at : ℕ → Block
block_at height = record {
  header = record {
    height = height;
    previous_block = zero_digest;
    model_before = genesis;
    model_after = genesis;
    trace_root = zero_digest;
    training_seed = 42;
    sampling_entropy = 7;
    sample_count = 0;
    nonce = 0;
  };
  trace = record {
    initial_model = genesis;
    candidate_model = genesis;
    entries = [];
    root = zero_digest;
  };
}

pub first_nonzero : (hash_of (block_at 0) == zero_digest) ≡ false
unfolding block_header_hash toy_digest absorb_all absorb finish mix64 le_bytes Trace.encode
    Model.encode digest_beq
first_nonzero = refl

blocks_after-block_locator_example :
    blocks_after_locator
      (record { config = default_config; blocks = block_at 0 ∷ block_at 1 ∷ [] })
      (block_locator (record { config = default_config; blocks = block_at 0 ∷ [] }) 8)
      16
    ≡ block_at 1 ∷ []
blocks_after-block_locator_example =
    blocks_after-block_locator default_config [] (block_at 0) (block_at 1 ∷ []) 7 16 first_nonzero
      refl
