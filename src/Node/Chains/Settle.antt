-- ===== src/Node/Chains/Settle.antt =====
-- What storing a block changes in the state of a node.
use chesscoin.Prelude.{ℕ, ◌≡◌, refl, Bool, not, ◌&&◌, Option, some, none, Bytes, ◌==◌, ◌∙◌, ap}
use chesscoin.Domain.Digest.{Digest, digest_eq, zero_digest}
use chesscoin.Domain.Trace.{Block}
use chesscoin.Ports.{SamplingPort}
use chesscoin.Application.Chain.{head_hash}
use chesscoin.Application.ForkChoice.{ForkChoiceState, best_hash}
use chesscoin.Application.ForkChoice.Insert.{IsForkChoice}
use chesscoin.Adapters.{toy_hash}
use chesscoin.Node.Locator.{hash_of}
use chesscoin.Node.State.{NodeState}
use chesscoin.Node.Storage.{Disk, append_block}
use chesscoin.Node.Chains.{
  BlockSource, persist_block, activate_best_chain, finish_block, settle_block, count_accepted,
  count_reorg,
}
use chesscoin.Node.Chains.Current.{best_state, activate_best_chain_lem}

persist_at :
    (stops_after : Option ℕ) (log : Option Bytes) (disk : Disk) (s : NodeState) (b : Block)
    → let d : Disk = record disk { stops_after = stops_after } in
      let t : NodeState = record s { log = log } in
      persist_block d t b
      ≡ record t { log = (persist_block d t b).log; counters = (persist_block d t b).counters }
unfolding persist_block append_block
persist_at stops_after none disk s b = refl
persist_at none (some file) disk s b = refl
persist_at (some n) (some file) disk s b = refl

counters_at :
    (stops_after : Option ℕ) (log : Option Bytes) (disk : Disk) (s : NodeState) (b : Block)
    → let d : Disk = record disk { stops_after = stops_after } in
      let c = (persist_block d (record s { log = log }) b).counters in
      c ≡ record s.counters { storage_failures = c.storage_failures }
unfolding persist_block append_block
counters_at stops_after none disk s b = refl
counters_at none (some file) disk s b = refl
counters_at (some n) (some file) disk s b = refl

-- A failure of the storage is counted, and nothing else.
pub persist_counters :
    (disk : Disk) (s : NodeState) (b : Block)
    → let c = (persist_block disk s b).counters in
      c ≡ record s.counters { storage_failures = c.storage_failures }
persist_counters disk s b = counters_at disk.stops_after s.log disk s b

-- Only the log and the counters change.
pub persist_block_lem :
    (disk : Disk) (s : NodeState) (b : Block)
    → persist_block disk s b ≡ record s {
      log = (persist_block disk s b).log;
      counters = (persist_block disk s b).counters;
    }
persist_block_lem disk s b = persist_at disk.stops_after s.log disk s b

-- Whether the block moves the head to another branch.
abbrev pub is_reorg : Digest → Block → ForkChoiceState → Bool
is_reorg old_head b fork =
    not (old_head == zero_digest)
    && not (b.header.previous_block == old_head)
    && head_hash toy_hash (best_state fork) == hash_of b

module _ (sampler : SamplingPort) where
  abbrev pub settled : Disk → NodeState → Block → BlockSource → Digest → NodeState
  settled disk s b source old_head = record s {
    chain = best_state s.fork_choice;
    log = (persist_block disk s b).log;
    counters =
        count_accepted source
          (count_reorg (is_reorg old_head b s.fork_choice) (persist_block disk s b).counters);
  }

  pub settle_block_lem :
      (disk : Disk) (s : NodeState) (b : Block) (source : BlockSource) (old_head : Digest)
      → IsForkChoice toy_hash sampler s.fork_choice
      → (head_hash toy_hash s.chain ≡ best_hash s.fork_choice → s.chain ≡ best_state s.fork_choice)
      → settle_block sampler disk s b source old_head ≡ settled disk s b source old_head
  unfolding settle_block
  settle_block_lem disk s b source old_head h skips =
      let t : NodeState = record s {
        log = (persist_block disk s b).log;
        counters = (persist_block disk s b).counters;
      } in
      let (changed, activated) = activate_best_chain_lem sampler t h skips in
      let moved = ap (activate_best_chain sampler) (persist_block_lem disk s b) ∙ activated in
      ap (λ r. finish_block r b source old_head) moved
