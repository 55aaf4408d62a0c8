-- ===== src/Node/Tests/Runs.antt =====
-- A node with no block, computed.
use mathlib.Core.Option.{bind}
use chesscoin.Prelude.{◌≡◌, refl, arith, All, true, some, none, [], ◌∷◌, ok, ◌≢◌, ◌⊎◌, ◌++◌, ◌+◌}
use chesscoin.Prelude.Words.{le_bytes}
use chesscoin.Domain.Digest.{digest_eq, digest_beq, leading_zero_bits}
use chesscoin.Domain.Mix.{mix64}
use chesscoin.Domain.Model
use chesscoin.Domain.Model.{model_beq}
use chesscoin.Domain.Trace
use chesscoin.Domain.Trace.{Block}
use chesscoin.Application.Simulator.{build_trace_from}
use chesscoin.Application.Chain.{mine_on, apply_block, validate_next_block}
use chesscoin.Application.Validation.{
  block_header_hash, validate_block_after, validate_outline, validate_commitment_chain,
  validate_trace_continuity, validate_work, validate_samples, sample_loop,
}
use chesscoin.Adapters.{toy_digest, toy_hash}
use chesscoin.Application.ForkChoice.{
  get, contains_block, find_parent, insert, new_node, configured_block_work_score,
  maybe_update_best, best_chain, walk, insert_block, mine_next_block, best_hash, best_model,
  best_height,
}
use chesscoin.Node.Chains.{
  gossip, validate_sync_batch, apply_incoming_block, trial_loop, chain_from_blocks, apply_all,
  settle_block, persist_block, apply_batch, mined, mine_once, activate_best_chain,
}
use chesscoin.Node.Storage.{healthy}
use chesscoin.Node.State.{NodeState}
use chesscoin.Node.Locator.{hash_of}
use chesscoin.Node.Chains.Current.{IsCurrent}
use chesscoin.Node.Chains.Outcome.{apply_incoming_block-IsCurrent}
use chesscoin.Node.Chains.Reorg.{apply_incoming_block-reorgs}
use chesscoin.Node.Chains.Whole.{validate-apply_batch}
use chesscoin.Node.Chains.Mine.{mine_once_result}
use chesscoin.Node.Tests.{block_at, first_nonzero}
use chesscoin.Node.Tests.Peers.{idle}
use chesscoin.Node.Tests.Blocks.{no_sampler, idle-IsCurrent}

pub mines : mine_next_block toy_hash 1 (idle none).fork_choice 42 7 ≡ some (block_at 0)
unfolding mine_next_block mine_on leading_zero_bits block_header_hash toy_digest le_bytes mix64
    Trace.encode best_hash Model.encode build_trace_from best_model bind best_height
mines = refl

passes : validate_sync_batch no_sampler (idle none) (block_at 0 ∷ []) ≡ ok tt
unfolding validate_sync_batch apply_incoming_block trial_loop contains_block get insert_block
    find_parent validate_block_after validate_outline validate_commitment_chain
    validate_trace_continuity validate_work validate_samples sample_loop insert new_node
    configured_block_work_score maybe_update_best best_chain walk chain_from_blocks apply_all
    apply_block validate_next_block settle_block persist_block activate_best_chain best_hash
    leading_zero_bits block_header_hash toy_digest digest_beq model_beq le_bytes mix64 Trace.encode
    Model.encode bind best_height best_model
passes = refl

abbrev grown : NodeState
grown = (apply_incoming_block no_sampler healthy (idle none) (block_at 0) gossip).0

grown_blocks : grown.chain.blocks ≡ block_at 0 ∷ []
unfolding validate_sync_batch apply_incoming_block trial_loop contains_block get insert_block
    find_parent validate_block_after validate_outline validate_commitment_chain
    validate_trace_continuity validate_work validate_samples sample_loop insert new_node
    configured_block_work_score maybe_update_best best_chain walk chain_from_blocks apply_all
    apply_block validate_next_block settle_block persist_block activate_best_chain best_hash
    leading_zero_bits block_header_hash toy_digest digest_beq model_beq le_bytes mix64 Trace.encode
    Model.encode bind best_height best_model
grown_blocks = refl

quiet :
    (apply_incoming_block no_sampler healthy grown (block_at 0) gossip).0.counters.reorgs
    ≡ grown.counters.reorgs
unfolding validate_sync_batch apply_incoming_block trial_loop contains_block get insert_block
    find_parent validate_block_after validate_outline validate_commitment_chain
    validate_trace_continuity validate_work validate_samples sample_loop insert new_node
    configured_block_work_score maybe_update_best best_chain walk chain_from_blocks apply_all
    apply_block validate_next_block settle_block persist_block activate_best_chain best_hash
    leading_zero_bits block_header_hash toy_digest digest_beq model_beq le_bytes mix64 Trace.encode
    Model.encode bind best_height best_model
quiet = refl

grown-IsCurrent : IsCurrent no_sampler grown.chain grown.fork_choice
grown-IsCurrent =
    apply_incoming_block-IsCurrent no_sampler healthy (idle none) (block_at 0) gossip
      (idle-IsCurrent none) first_nonzero

some_chain : grown.chain.blocks ≢ []
some_chain h = cc (grown_blocks, h)

apply_incoming_block-reorgs_example :
    let s' = (apply_incoming_block no_sampler healthy grown (block_at 0) gossip).0 in
    (s'.chain ≡ grown.chain) ⊎ (s'.chain.blocks ≡ grown.chain.blocks ++ block_at 0 ∷ [])
apply_incoming_block-reorgs_example =
    apply_incoming_block-reorgs no_sampler healthy grown (block_at 0) gossip grown-IsCurrent
      first_nonzero some_chain quiet

validate-apply_batch_example :
    let (s', result) = apply_batch no_sampler (idle none) ((healthy, block_at 0) ∷ []) in
    (result ≡ ok tt)
    × IsCurrent no_sampler s'.chain s'.fork_choice
    × All (λ b. contains_block s'.fork_choice (hash_of b) ≡ true) (block_at 0 ∷ [])
validate-apply_batch_example =
    validate-apply_batch no_sampler (idle none) ((healthy, block_at 0) ∷ []) (idle-IsCurrent none)
      (first_nonzero, tt) passes

mine_once_result_example :
    (s' : NodeState) × (mine_once no_sampler healthy 1 (idle none) 42 7 ≡ mined s' (block_at 0))
    × IsCurrent no_sampler s'.chain s'.fork_choice
    × (contains_block s'.fork_choice (hash_of (block_at 0)) ≡ true)
    × (s'.counters.mined_blocks ≡ (idle none).counters.mined_blocks + 1)
    × (s' ≡ record (idle none) {
      chain = s'.chain;
      fork_choice = s'.fork_choice;
      log = s'.log;
      counters = s'.counters;
    })
mine_once_result_example =
    mine_once_result no_sampler healthy 1 (idle none) 42 7 (block_at 0) (λ n k root entropy. tt)
      (omega arith) (idle-IsCurrent none) mines first_nonzero
