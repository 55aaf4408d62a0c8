-- ===== src/Application/Chain.antt =====
-- `ChainState` of crates/chesscoin-core/src/application.rs: a list of blocks, mining, and the
-- application of a block.
pub mod Mining
pub mod Valid
use chesscoin.Prelude.{
  ℕ, zero, suc, ◌+◌, ◌%◌, ◌^◌, Option, none, some, List, [], ◌∷◌, ◌++◌, length, leb, if◌then◌else◌,
  Result, ok, err, ◌>>=◌, ◌>>◌,
}
use chesscoin.Prelude.Words.{as_u64, wrapping_add}
use chesscoin.Domain.Digest.{Digest, zero_digest, leading_zero_bits}
use chesscoin.Domain.Model.{ModelState, genesis}
use chesscoin.Domain.Trace.{Block, BlockHeader, TrainingTrace}
use chesscoin.Ports.{HashPort, SamplingPort}
use chesscoin.Application.Config.{ChainConfig}
use chesscoin.Application.Simulator.{build_trace_from}
use chesscoin.Application.Validation.{
  BlockValidationError, ParentContext, Checked, block_hash, validate_block_after,
}

pub record ChainState : Type 0 where
  pub config : ChainConfig
  pub blocks : List Block

abbrev pub new : ChainConfig → ChainState
new config = record { config = config; blocks = [] }

abbrev pub height : ChainState → ℕ
height chain = as_u64 (length chain.blocks)

abbrev last : List Block → Option Block
last [] = none
last (block ∷ []) = some block
last (block ∷ next ∷ blocks) = last (next ∷ blocks)

abbrev model_or_genesis : Option Block → ModelState
model_or_genesis none = genesis
model_or_genesis (some block) = block.header.model_after

abbrev pub current_model : ChainState → ModelState
current_model chain = model_or_genesis (last chain.blocks)

abbrev hash_or_zero : HashPort → Option Block → Digest
hash_or_zero hasher none = zero_digest
hash_or_zero hasher (some block) = block_hash hasher block

abbrev pub head_hash : HashPort → ChainState → Digest
head_hash hasher chain = hash_or_zero hasher (last chain.blocks)

-- The `loop` of `mine_next_block` on fuel: `none` is a search that has not ended yet.
unfoldable pub mine_loop : HashPort → ℕ → ℕ → BlockHeader → TrainingTrace → Option Block
mine_loop hasher difficulty zero header trace = none
mine_loop hasher difficulty (suc fuel) header trace =
    let candidate : Block = record { header = header; trace = trace } in
    let again =
      mine_loop hasher difficulty fuel (record header { nonce = wrapping_add header.nonce 1 })
        trace in
    if leb difficulty (leading_zero_bits (block_hash hasher candidate))
    then some candidate
    else again

-- The block that mining starts from, which `ChainState` and `ForkChoiceState` build alike.
abbrev pub first_header : ChainConfig → ParentContext → TrainingTrace → ℕ → ℕ → BlockHeader
first_header config parent trace training_seed sampling_entropy = record {
  height = parent.height;
  previous_block = parent.hash;
  model_before = trace.initial_model;
  model_after = trace.candidate_model;
  trace_root = trace.root;
  training_seed = training_seed;
  sampling_entropy = sampling_entropy;
  sample_count = config.samples_per_block;
  nonce = 0;
}

unfoldable pub mine_on : HashPort → ℕ → ChainConfig → ParentContext → ℕ → ℕ → Option Block
unfolding mine_loop
mine_on hasher fuel config parent training_seed sampling_entropy =
    let trace = build_trace_from hasher parent.model training_seed config.steps_per_block in
    mine_loop hasher config.difficulty_zero_bits fuel
      (first_header config parent trace training_seed sampling_entropy) trace

abbrev pub chain_context : HashPort → ChainState → ParentContext
chain_context hasher chain = record {
  height = height chain;
  hash = head_hash hasher chain;
  model = current_model chain;
}

-- `sampler` is a parameter of the source's function that it does not call.
abbrev pub mine_next_block : HashPort → ℕ → ChainState → ℕ → ℕ → Option Block
mine_next_block hasher fuel chain training_seed sampling_entropy =
    mine_on hasher fuel chain.config (chain_context hasher chain) training_seed sampling_entropy

module _ (hasher : HashPort) (sampler : SamplingPort) where
  unfoldable pub validate_next_block : ChainState → Block → Checked
  validate_next_block chain block =
      validate_block_after chain.config hasher sampler (chain_context hasher chain) block

  -- The new state and the result; a refused block changes nothing.
  unfoldable pub apply_block : ChainState → Block → ChainState × Result Digest BlockValidationError
  unfolding validate_next_block
  apply_block chain block = elim (validate_next_block chain block) [
    | ok _ ↦ (record chain { blocks = chain.blocks ++ block ∷ [] }, ok (block_hash hasher block))
    | err e ↦ (chain, err e)
  ]
