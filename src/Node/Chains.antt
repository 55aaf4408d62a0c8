-- ===== src/Node/Chains.antt =====
-- Mining and the blocks that a node receives, in crates/chesscoin-node/src/runtime.rs. The sampler
-- stands for `DeterministicSampler`, whose loop runs on fuel.
pub mod Current
pub mod Settle
pub mod Outcome
pub mod Batch
pub mod Whole
pub mod Reorg
pub mod Mine
use chesscoin.Prelude.{
  ℕ, suc, ◌+◌, Bool, true, false, not, ◌&&◌, Option, none, some, List, [], ◌∷◌, length, Bytes,
  if◌then◌else◌, ◌==◌, Result, ok, err, ◌>>=◌,
}
use chesscoin.Domain.Digest.{Digest, zero_digest, digest_eq}
use chesscoin.Domain.Trace.{Block}
use chesscoin.Ports.{SamplingPort}
use chesscoin.Application.Config.{ChainConfig}
use chesscoin.Application.Validation.{BlockValidationError}
use chesscoin.Application.Chain.{ChainState, head_hash, apply_block}
use chesscoin.Application.Chain
use chesscoin.Application.ForkChoice.{
  ForkChoiceState, ForkChoiceError, best_chain, best_hash, contains_block, insert_block,
  mine_next_block,
}
use chesscoin.Adapters.{toy_hash}
use chesscoin.Node.Locator.{hash_of}
use chesscoin.Node.Storage.{Disk, append_block}
use chesscoin.Node.State.{NodeState, Counters}

-- The walk of `best_chain` visits every node at most once, so that this fuel is enough.
abbrev pub walked_blocks : Option (List Block) → List Block
walked_blocks none = []
walked_blocks (some blocks) = blocks

abbrev pub best_blocks : ForkChoiceState → List Block
best_blocks s = walked_blocks (best_chain (suc (length s.nodes)) s)

abbrev pub count_storage_failure : NodeState → NodeState
count_storage_failure s = record s {
  counters = record s.counters { storage_failures = s.counters.storage_failures + 1 };
}

unfoldable pub persist_block : Disk → NodeState → Block → NodeState
persist_block disk s block = elim s.log [
  | none ↦ s
  | some file ↦
      let (file', result) = append_block disk file s.chain.config block in
      elim result [
        | ok _ ↦ record s { log = some file' }
        | err _ ↦ count_storage_failure (record s { log = some file' })
      ]
]

pub data BlockSource : Type 0 where
  gossip sync : BlockSource

pub data BlockApplication : Type 0 where
  accepted already_known rejected : BlockApplication

abbrev pub count_accepted : BlockSource → Counters → Counters
count_accepted gossip c = record c { accepted_blocks = c.accepted_blocks + 1 }
count_accepted sync c = record c { synced_blocks = c.synced_blocks + 1 }

abbrev pub count_rejected : BlockSource → Counters → Counters
count_rejected gossip c = record c { rejected_blocks = c.rejected_blocks + 1 }
count_rejected sync c = c

abbrev pub count_reorg : Bool → Counters → Counters
count_reorg true c = record c { reorgs = c.reorgs + 1 }
count_reorg false c = c

abbrev is_ok : Result Bool BlockValidationError → Bool
is_ok (ok changed) = true
is_ok (err e) = false

-- After the activation: the counters.
abbrev pub finish_block :
    NodeState × Result Bool BlockValidationError → Block → BlockSource → Digest → NodeState
finish_block (s, activated) block source old_head =
    let reorg =
      is_ok activated
      && not (old_head == zero_digest)
      && not (block.header.previous_block == old_head)
      && head_hash toy_hash s.chain == hash_of block in
    record s { counters = count_accepted source (count_reorg reorg s.counters) }

-- What mining does to the state: it still searches, an `expect` fails, or the block is stored.
pub data Mined : Type 0 where
  searching panicked : Mined
  mined : NodeState → Block → Mined

abbrev pub count_mined : NodeState → NodeState
count_mined s = record s {
  counters = record s.counters { mined_blocks = s.counters.mined_blocks + 1 };
}

-- After the insertion and the activation.
abbrev pub after_mined :
    Disk
    → Block
    → Result Digest ForkChoiceError
    → NodeState × Result Bool BlockValidationError
    → Mined
after_mined disk block (err e) activated = panicked
after_mined disk block (ok _) (s, err e) = panicked
after_mined disk block (ok _) (s, ok changed) =
    mined (count_mined (persist_block disk s block)) block

module _ (sampler : SamplingPort) where
  unfoldable pub apply_all : ChainState → List Block → Result ChainState BlockValidationError
  apply_all chain [] = ok chain
  apply_all chain (block ∷ blocks) =
      let (chain', result) = apply_block toy_hash sampler chain block in
      let rest = apply_all chain' blocks in elim result [ ok _ ↦ rest | err e ↦ err e ]

  unfoldable pub chain_from_blocks :
      ChainConfig → List Block → Result ChainState BlockValidationError
  chain_from_blocks config blocks = apply_all (Chain.new config) blocks

  -- The new state and whether the head changed; a failure changes nothing.
  unfoldable pub activate_best_chain : NodeState → NodeState × Result Bool BlockValidationError
  activate_best_chain s =
      if head_hash toy_hash s.chain == best_hash s.fork_choice
      then (s, ok false)
      else elim (chain_from_blocks s.fork_choice.config (best_blocks s.fork_choice)) [
        | ok chain ↦ (record s { chain = chain }, ok true)
        | err e ↦ (s, err e)
      ]

  -- After the block is stored: the log, the head and the counters.
  unfoldable pub settle_block : Disk → NodeState → Block → BlockSource → Digest → NodeState
  settle_block disk s block source old_head =
      finish_block (activate_best_chain (persist_block disk s block)) block source old_head

  -- After the insertion: the new fork choice and its result.
  abbrev pub after_insert :
      Disk
      → NodeState
      → Block
      → BlockSource
      → ForkChoiceState × Result Digest ForkChoiceError
      → NodeState × BlockApplication
  after_insert disk s block source (fork_choice, ok _) = (
    settle_block disk (record s { fork_choice = fork_choice }) block source
        (head_hash toy_hash s.chain),
    accepted,
  )
  after_insert disk s block source (fork_choice, err _) =
      (record s { counters = count_rejected source s.counters }, rejected)

  unfoldable pub apply_incoming_block :
      Disk → NodeState → Block → BlockSource → NodeState × BlockApplication
  apply_incoming_block disk s block source =
      if contains_block s.fork_choice (hash_of block)
      then (s, already_known)
      else after_insert disk s block source (insert_block toy_hash sampler s.fork_choice block)

  -- The loop over a copy of the fork choice.
  unfoldable pub trial_loop : ForkChoiceState → List Block → Result ForkChoiceState (Unit {0})
  trial_loop fork_choice [] = ok fork_choice
  trial_loop fork_choice (block ∷ blocks) =
      let (fork_choice', result) = insert_block toy_hash sampler fork_choice block in
      let skipped = trial_loop fork_choice blocks in
      let inserted = trial_loop fork_choice' blocks in
      if contains_block fork_choice (hash_of block)
      then skipped
      else elim result [ ok _ ↦ inserted | err _ ↦ err tt ]

  unfoldable pub validate_sync_batch : NodeState → List Block → Result (Unit {0}) (Unit {0})
  validate_sync_batch s blocks = do
    fork_choice ← trial_loop s.fork_choice blocks
    elim (chain_from_blocks fork_choice.config (best_blocks fork_choice)) [
      | ok chain ↦ ok tt
      | err e ↦ err tt
    ]

  -- The loop of `blocks_from_peer` over the received blocks: it stops at a rejected one.
  unfoldable pub apply_batch :
      NodeState → List (Disk × Block) → NodeState × Result (Unit {0}) (Unit {0})
  apply_batch s [] = (s, ok tt)
  apply_batch s ((disk, block) ∷ blocks) =
      let (s', application) = apply_incoming_block disk s block sync in
      let rest = apply_batch s' blocks in
      elim application [ accepted ↦ rest | already_known ↦ rest | rejected ↦ (s', err tt) ]

  unfoldable pub store_mined : Disk → NodeState → Block → Mined
  store_mined disk s block =
      let (fork_choice, result) = insert_block toy_hash sampler s.fork_choice block in
      after_mined disk block result (activate_best_chain (record s { fork_choice = fork_choice }))

  abbrev pub store_found : Disk → NodeState → Option Block → Mined
  store_found disk s none = searching
  store_found disk s (some block) = store_mined disk s block

  -- The part of `mine_once` under the lock.
  unfoldable pub mine_once : Disk → ℕ → NodeState → ℕ → ℕ → Mined
  mine_once disk fuel s training_seed sampling_entropy =
      store_found disk s
        (mine_next_block toy_hash fuel s.fork_choice training_seed sampling_entropy)
