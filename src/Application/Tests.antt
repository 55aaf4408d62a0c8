-- ===== src/Application/Tests.antt =====
-- The theorems about the protocol at concrete inputs, with a hasher and a sampler that are small
-- enough to run: the hash of a text is its first 32 bytes, and the only sample is the first step.
use chesscoin.Prelude.{
  ℕ, zero, suc, ◌≤◌, ◌<◌, ◌≡◌, ◌↔◌, ◌⊎◌, refl, arith, All, some, List, [], ◌∷◌, length, nat_eq,
  true, ok, err, contains,
}
use chesscoin.Prelude.Words.{le_bytes, le_value, length-le_bytes, le_bytes-IsByte}
use chesscoin.Domain.Digest.{Digest, leading_zero_bits}
use chesscoin.Domain.Model
use chesscoin.Domain.Step
use chesscoin.Domain.Trace
use chesscoin.Domain.Trace.{Block, TrainingTrace}
use chesscoin.Ports.{HashPort, SamplingPort, InRange}
use chesscoin.Application.Config.{ChainConfig, default_config, validate, validate_iff}
use chesscoin.Application.Simulator.{
  SimulationRequest, SimulationReport, run, filter_index, outcome_of, build_trace_from, commit_step,
}
use chesscoin.Application.Simulator.Detect.{hits, run_outcome}
use chesscoin.Application.Validation.{
  BlockValidationError, genesis_context, validate_block_after, block_hash, block_header_hash,
}
use chesscoin.Application.Validation.Valid.{IsValidBlock, validate_block_after_iff}
use chesscoin.Application.Validation.Sound.{validated_trace}
use chesscoin.Application.Chain.{
  ChainState, mine_on, first_header, apply_block, chain_context, validate_next_block,
}
use mathlib.Core.Option.{bind}
use chesscoin.Application.Chain.Mining.{with_nonce, mine_on-returns, mine_on-validates}
use chesscoin.Application.Chain.Valid.{
  ValidChain, IsChain, apply_block-IsChain, apply_block_outcome,
}
use chesscoin.Application.ForkChoice.{
  ForkNode, ForkChoiceState, ForkChoiceError, get, contains_key, contains_block, insert_block,
  best_chain, fork_context, mine_next_block,
}
use chesscoin.Application.ForkChoice
use chesscoin.Application.ForkChoice.Insert.{
  IsForkChoice, new-IsForkChoice, insert_block-IsForkChoice, insert_block_result,
}
use chesscoin.Application.ForkChoice.BestChain.{best_chain-ValidChain}
use chesscoin.Application.ForkChoice.Mined.{mine-insert_block}

first_bytes : HashPort
first_bytes = record {
  digest = λ bytes. record { bytes = le_bytes 32 (le_value bytes) };
  digest_IsDigest = λ bytes. (length-le_bytes 32 _, le_bytes-IsByte 32 _);
}

abbrev first_index : ℕ → List ℕ
first_index zero = []
first_index (suc n) = 0 ∷ []

abbrev first_only : SamplingPort
first_only = record {
  sample_indices = λ trace_len sample_count trace_root entropy. first_index trace_len;
}

first_index-lt : (n : ℕ) → All (λ i. i < n) (first_index n)
first_index-lt zero = tt
first_index-lt (suc n) = omega arith

first_only-InRange : InRange first_only
first_only-InRange n k root entropy = first_index-lt n

abbrev tiny : ChainConfig
tiny = record { steps_per_block = 1; samples_per_block = 1; difficulty_zero_bits = 1 }

abbrev honest_trace : TrainingTrace
honest_trace = build_trace_from first_bytes genesis_context.model 42 1

-- The first nonce has the work already.
abbrev first_block : Block
first_block = with_nonce (first_header tiny genesis_context honest_trace 42 7) honest_trace 0

first_work : 1 ≤ leading_zero_bits (block_hash first_bytes first_block)
unfolding first_bytes le_bytes le_value leading_zero_bits block_header_hash Trace.encode
    Model.encode build_trace_from Step.deterministic commit_step Step.encode
first_work = omega arith

first_block_mined : mine_on first_bytes 1 tiny genesis_context 42 7 ≡ some first_block
unfolding mine_on first_bytes le_bytes le_value leading_zero_bits block_header_hash Trace.encode
    Model.encode build_trace_from Step.deterministic commit_step Step.encode
first_block_mined = refl

validate_iff_example : (validate default_config ≡ ok tt) ↔ ((0 < 6) × (6 ≤ 16) × (8 ≤ 256))
validate_iff_example = validate_iff default_config

abbrev tampered : SimulationRequest
tampered = record { steps = 2; samples = 1; seed = 42; sampling_entropy = 7; tamper_step = some 0 }

run_outcome_example :
    (report : SimulationReport) × (run first_bytes first_only tampered ≡ some report)
    × (report.tamper_applied ≡ filter_index (some 0) 2)
    × (report.outcome ≡ outcome_of (hits report.tamper_applied report.sampled_indices))
run_outcome_example = run_outcome first_bytes first_only tampered first_only-InRange (omega arith)

mine_on-returns_example :
    (block : Block) × (mine_on first_bytes 1 tiny genesis_context 42 7 ≡ some block)
mine_on-returns_example = mine_on-returns first_bytes 0 tiny genesis_context 42 7 first_work

mine_on-validates_example :
    validate_block_after tiny first_bytes first_only genesis_context first_block ≡ ok tt
mine_on-validates_example =
    mine_on-validates first_bytes first_only 1 tiny genesis_context 42 7 first_block
      first_only-InRange (omega arith) first_block_mined

first_block-validates :
    validate_block_after tiny first_bytes first_only genesis_context first_block ≡ ok tt
first_block-validates =
    mine_on-validates first_bytes first_only 1 tiny genesis_context 42 7 first_block
      first_only-InRange (omega arith) first_block_mined

validate_block_after_iff_example :
    (validate_block_after tiny first_bytes first_only genesis_context first_block ≡ ok tt)
    ↔ IsValidBlock tiny first_bytes first_only genesis_context first_block
validate_block_after_iff_example =
    validate_block_after_iff tiny first_bytes first_only genesis_context first_block

first_covers : (i : ℕ) → i < 1 → contains (0 ∷ []) i ≡ true
first_covers i h = ground arith

validated_trace_example : honest_trace ≡ build_trace_from first_bytes genesis_context.model 42 1
unfolding build_trace_from
validated_trace_example =
    validated_trace tiny first_bytes first_only genesis_context first_block (omega arith)
      first_covers first_block-validates

abbrev empty_chain : ChainState
empty_chain = record { config = tiny; blocks = [] }

apply_block_outcome_example :
    (IsValidBlock tiny first_bytes first_only (chain_context first_bytes empty_chain) first_block
      × (apply_block first_bytes first_only empty_chain first_block ≡ (
        record empty_chain { blocks = first_block ∷ [] },
        ok (block_hash first_bytes first_block),
      )))
    ⊎ (¬ IsValidBlock tiny first_bytes first_only
          (chain_context first_bytes empty_chain)
          first_block
        × ((e : BlockValidationError) × (validate_next_block first_bytes first_only empty_chain
                first_block
              ≡ err e)
            × (apply_block first_bytes first_only empty_chain first_block ≡ (empty_chain, err e))))
apply_block_outcome_example = apply_block_outcome first_bytes first_only empty_chain first_block

apply_block-IsChain_example :
    IsChain first_bytes first_only (apply_block first_bytes first_only empty_chain first_block).0
apply_block-IsChain_example =
    apply_block-IsChain first_bytes first_only empty_chain first_block refl

abbrev empty_tree : ForkChoiceState
empty_tree = ForkChoice.new tiny

empty_tree-IsForkChoice : IsForkChoice first_bytes first_only empty_tree
empty_tree-IsForkChoice = new-IsForkChoice first_bytes first_only tiny

insert_block-IsForkChoice_example :
    IsForkChoice first_bytes first_only
      (insert_block first_bytes first_only empty_tree first_block).0
insert_block-IsForkChoice_example =
    insert_block-IsForkChoice first_bytes first_only empty_tree first_block empty_tree-IsForkChoice

abbrev one_block : ForkChoiceState
one_block = (insert_block first_bytes first_only empty_tree first_block).0

one_block-IsForkChoice : IsForkChoice first_bytes first_only one_block
one_block-IsForkChoice =
    insert_block-IsForkChoice first_bytes first_only empty_tree first_block empty_tree-IsForkChoice

best_chain-ValidChain_example :
    (blocks : List Block) × (best_chain (suc (length one_block.nodes)) one_block ≡ some blocks)
    × ValidChain one_block.config first_bytes first_only genesis_context blocks
        (fork_context one_block)
best_chain-ValidChain_example =
    best_chain-ValidChain first_bytes first_only (length one_block.nodes) one_block
      one_block-IsForkChoice (omega arith)

insert_block_result_example :
    ((insert_block first_bytes first_only empty_tree first_block).1
        ≡ ok (block_hash first_bytes first_block))
      × (contains_block one_block (block_hash first_bytes first_block) ≡ true)
      × ((key : Digest) (node : ForkNode)
          → get [] key ≡ some node
          → get one_block.nodes key ≡ some node)
    ⊎ ((e : ForkChoiceError) × (insert_block first_bytes first_only empty_tree first_block
          ≡ (empty_tree, err e)))
insert_block_result_example = insert_block_result first_bytes first_only empty_tree first_block

empty_tree_mined : mine_next_block first_bytes 1 empty_tree 42 7 ≡ some first_block
unfolding ForkChoice.get ForkChoice.best_height ForkChoice.best_hash ForkChoice.best_model
    ForkChoice.mine_next_block bind
empty_tree_mined = first_block_mined

mine-insert_block_example :
    let (after, result) = insert_block first_bytes first_only empty_tree first_block in
    (result ≡ ok (block_hash first_bytes first_block))
    × (contains_block after (block_hash first_bytes first_block) ≡ true)
    × ((key : Digest) (node : ForkNode)
        → get empty_tree.nodes key ≡ some node
        → get after.nodes key ≡ some node)
unfolding ForkChoice.get
mine-insert_block_example =
    mine-insert_block first_bytes first_only 1 empty_tree 42 7 first_block first_only-InRange
      (omega arith) empty_tree-IsForkChoice refl empty_tree_mined
