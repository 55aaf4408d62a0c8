-- ===== src/Application/Validation.antt =====
-- `validate_block_after` of crates/chesscoin-core/src/application.rs and the checks below it.
pub mod Valid
pub mod Sound
use chesscoin.Prelude.{
  ℕ, zero, suc, ◌+◌, ◌||◌, not, Option, none, some, List, [], ◌∷◌, ◌++◌, length, get_elem?, ltb,
  if◌then◌else◌, ◌==◌, nat_eq, Result, ok, err, ◌>>◌, ◌>>=◌,
}
use chesscoin.Domain.Digest.{Digest, zero_digest, digest_eq, leading_zero_bits}
use chesscoin.Domain.Model.{ModelState, genesis, model_eq}
use chesscoin.Domain.Trace.{Block, BlockHeader, TraceEntry, accepted}
use chesscoin.Domain.Trace
use chesscoin.Ports.{HashPort, SamplingPort}
use chesscoin.Application.Config.{ChainConfig}
use chesscoin.Application.Simulator.{commit_step, verify_sample}

pub data BlockValidationError : Type 0 where
  wrong_height : ℕ → ℕ → BlockValidationError
  wrong_previous_block wrong_model_before wrong_model_after : BlockValidationError
  wrong_trace_length : ℕ → ℕ → BlockValidationError
  wrong_sample_count : ℕ → ℕ → BlockValidationError
  wrong_trace_continuity : ℕ → BlockValidationError
  wrong_trace_root : BlockValidationError
  invalid_sample : ℕ → BlockValidationError
  insufficient_work : ℕ → ℕ → BlockValidationError

pub record ParentContext : Type 0 where
  pub height : ℕ
  pub hash : Digest
  pub model : ModelState

abbrev pub genesis_context : ParentContext
genesis_context = record { height = 0; hash = zero_digest; model = genesis }

abbrev pub next_height : ParentContext → ℕ
next_height parent = parent.height

abbrev pub Checked : Type 0
Checked = Result (Unit {0}) BlockValidationError

module _ (hasher : HashPort) where
  unfoldable pub block_header_hash : BlockHeader → Digest
  block_header_hash header = hasher.digest (Trace.encode header ++ header.trace_root.bytes)

  abbrev pub block_hash : Block → Digest
  block_hash block = block_header_hash block.header

-- The loop over the entries, with their index, and the check after it.
continuity_loop : ℕ → ModelState → List TraceEntry → ModelState → Checked
continuity_loop index expected_state [] candidate_model =
    if not (candidate_model == expected_state) then err (wrong_trace_continuity index) else ok tt
continuity_loop index expected_state (entry ∷ entries) candidate_model =
    let rest = continuity_loop (index + 1) entry.step.state_after entries candidate_model in
    if not (entry.step.state_before == expected_state)
    then err (wrong_trace_continuity index)
    else rest

unfoldable pub validate_trace_continuity : Block → Checked
unfolding continuity_loop
validate_trace_continuity block =
    continuity_loop 0 block.trace.initial_model block.trace.entries block.trace.candidate_model

module _ (hasher : HashPort) where
  commitment_loop : Digest → List TraceEntry → Digest → Checked
  commitment_loop previous_commitment [] root =
      if not (previous_commitment == root) then err wrong_trace_root else ok tt
  commitment_loop previous_commitment (entry ∷ entries) root =
      let rest = commitment_loop entry.commitment entries root in
      if not (entry.previous_commitment == previous_commitment)
      then err wrong_trace_root
      else if not (entry.commitment == commit_step hasher previous_commitment entry.step)
      then err wrong_trace_root
      else rest

  unfoldable pub validate_commitment_chain : Block → Checked
  unfolding commitment_loop
  validate_commitment_chain block = commitment_loop zero_digest block.trace.entries block.trace.root

  -- The loop over the sampled indices; an entry is checked against itself.
  unfoldable pub sample_loop : ℕ → List TraceEntry → List ℕ → Checked
  sample_loop training_seed entries [] = ok tt
  sample_loop training_seed entries (index ∷ indices) =
      let rest = sample_loop training_seed entries indices in
      elim (get_elem? entries index) [
        | none ↦ err (invalid_sample index)
        | some entry ↦
            if not (accepted (verify_sample hasher training_seed index entry entry))
            then err (invalid_sample index)
            else rest
      ]

module _ (config : ChainConfig) where
  -- The checks of the header and of the trace's outline, in the source's order.
  unfoldable pub validate_outline : ParentContext → Block → Checked
  validate_outline parent block =
      if not (block.header.height == next_height parent)
      then err (wrong_height (next_height parent) block.header.height)
      else if not (block.header.previous_block == parent.hash)
      then err wrong_previous_block
      else if not (block.header.model_before == parent.model)
          || not (block.trace.initial_model == block.header.model_before)
      then err wrong_model_before
      else if not (block.trace.candidate_model == block.header.model_after)
      then err wrong_model_after
      else if not (length block.trace.entries == config.steps_per_block)
      then err (wrong_trace_length config.steps_per_block (length block.trace.entries))
      else if not (block.header.sample_count == config.samples_per_block)
      then err (wrong_sample_count config.samples_per_block block.header.sample_count)
      else if not (block.trace.root == block.header.trace_root)
      then err wrong_trace_root
      else ok tt

  unfoldable pub validate_work : HashPort → Block → Checked
  validate_work hasher block =
      let actual_work = leading_zero_bits (block_hash hasher block) in
      if ltb actual_work config.difficulty_zero_bits
      then err (insufficient_work config.difficulty_zero_bits actual_work)
      else ok tt

unfoldable pub validate_samples : HashPort → SamplingPort → Block → Checked
unfolding sample_loop
validate_samples hasher sampler block =
    let sampled_indices =
      sampler.sample_indices (length block.trace.entries) block.header.sample_count block.trace.root
        block.header.sampling_entropy in
    sample_loop hasher block.header.training_seed block.trace.entries sampled_indices

module _ (config : ChainConfig) (hasher : HashPort) (sampler : SamplingPort) where
  unfoldable pub validate_block_after : ParentContext → Block → Checked
  unfolding validate_outline validate_commitment_chain validate_trace_continuity validate_work
      validate_samples
  validate_block_after parent block = do
    validate_outline config parent block
    validate_commitment_chain hasher block
    validate_trace_continuity block
    validate_work config hasher block
    validate_samples hasher sampler block
