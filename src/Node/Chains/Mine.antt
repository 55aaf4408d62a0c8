-- ===== src/Node/Chains/Mine.antt =====
-- `mine_once`: the mined block is stored and served.
use mathlib.Core.Path.{subst}
use chesscoin.Prelude.{
  ℕ, ◌+◌, ◌^◌, ◌≤◌, ◌≡◌, refl, true, false, Bool-cases, some, inl, inr, ◌==◌, ok, ◌∙◌, ap, sym,
}
use chesscoin.Domain.Digest.{digest_eq, zero_digest}
use chesscoin.Domain.Trace.{Block}
use chesscoin.Ports.{HashPort, SamplingPort, InRange}
use chesscoin.Application.Validation.{block_hash}
use chesscoin.Application.Chain.{head_hash}
use chesscoin.Application.ForkChoice.{
  ForkChoiceState, best_hash, contains_key, contains_block, insert_block, mine_next_block,
}
use chesscoin.Application.ForkChoice.Fresh.{insert_block_fresh}
use chesscoin.Application.ForkChoice.Insert.{insert_block_result}
use chesscoin.Application.ForkChoice.Mined.{mine-insert_block}
use chesscoin.Adapters.{toy_hash}
use chesscoin.Node.Locator.{hash_of}
use chesscoin.Node.State.{NodeState, Counters}
use chesscoin.Node.Storage.{Disk}
use chesscoin.Node.Chains.{
  mined, count_mined, store_found, after_mined, persist_block, store_mined, mine_once,
}
use chesscoin.Node.Chains.Current.{IsCurrent, best_state, activate_best_chain_lem}
use chesscoin.Node.Chains.Settle.{persist_counters, persist_block_lem}
use chesscoin.Node.Chains.Outcome.{still_served, stored-IsCurrent}

known_insert :
    (hasher : HashPort) (sampler : SamplingPort) (s : ForkChoiceState) (b : Block)
    → contains_key s.nodes (block_hash hasher b) ≡ true
    → insert_block hasher sampler s b ≡ (s, ok (block_hash hasher b))
unfolding insert_block
known_insert hasher sampler s b known = rw known refl

module _ (sampler : SamplingPort) (s : NodeState) (b : Block)
    (current : IsCurrent sampler s.chain s.fork_choice)
    (nonzero : (hash_of b == zero_digest) ≡ false)
    (inserts : (insert_block toy_hash sampler s.fork_choice b).1 ≡ ok (hash_of b)) where
  abbrev fork' : ForkChoiceState
  fork' = (insert_block toy_hash sampler s.fork_choice b).0

  -- After the insertion the best chain can be activated, whether the block was known or not.
  may_activate :
      IsCurrent sampler (best_state fork') fork'
      × (head_hash toy_hash s.chain ≡ best_hash fork' → s.chain ≡ best_state fork')
  may_activate = elim (Bool-cases (contains_key s.fork_choice.nodes (hash_of b))) [
    | inl known ↦
        let same = ap (λ r. r.0) (known_insert toy_hash sampler s.fork_choice b known) in
        subst
          (λ f.
            IsCurrent sampler (best_state f) f
            × (head_hash toy_hash s.chain ≡ best_hash f → s.chain ≡ best_state f))
          (sym same)
          (
            record { tree = current.tree; served = refl; no_zero = current.no_zero },
            λ _. current.served,
          )
    | inr unknown ↦
        elim (insert_block_fresh toy_hash sampler s.fork_choice b current.tree unknown) [
          | inr (e, refused) ↦ absurd (cc (inserts, ap (λ r. r.1) refused))
          | inl (_, stored) ↦ (
            stored-IsCurrent sampler s.chain s.fork_choice fork' b current stored nonzero,
            still_served sampler s.chain s.fork_choice fork' b current stored nonzero,
          )
        ]
  ]

  abbrev active : NodeState
  active = record s { fork_choice = fork'; chain = best_state fork' }

  store_mined_lem :
      (disk : Disk)
      → store_mined sampler disk s b ≡ mined (count_mined (persist_block disk active b)) b
  unfolding store_mined
  store_mined_lem disk =
      let (now, skips) = may_activate in
      let (changed, activated) =
        activate_best_chain_lem sampler (record s { fork_choice = fork' }) now.tree skips in
      λ i. after_mined disk b (inserts i) (activated i)

  stored_mined : contains_block fork' (hash_of b) ≡ true
  stored_mined = elim (insert_block_result toy_hash sampler s.fork_choice b) [
    | inl (_, stored, _) ↦ stored
    | inr (e, refused) ↦ absurd (cc (inserts, ap (λ r. r.1) refused))
  ]

-- A block that is mined on a node's best tip is stored and counted, and the node serves the best
-- chain of its fork choice afterwards, with its other fields as before; no assertion fails, unless
-- the block hashes to the zero digest.
pub mine_once_result :
    (sampler : SamplingPort) (disk : Disk) (fuel : ℕ) (s : NodeState)
    (training_seed sampling_entropy : ℕ) (b : Block)
    → InRange sampler
    → s.fork_choice.config.steps_per_block ≤ 2 ^ 64
    → IsCurrent sampler s.chain s.fork_choice
    → mine_next_block toy_hash fuel s.fork_choice training_seed sampling_entropy ≡ some b
    → (hash_of b == zero_digest) ≡ false
    → (s' : NodeState) × (mine_once sampler disk fuel s training_seed sampling_entropy ≡ mined s' b)
      × IsCurrent sampler s'.chain s'.fork_choice
      × (contains_block s'.fork_choice (hash_of b) ≡ true)
      × (s'.counters.mined_blocks ≡ s.counters.mined_blocks + 1)
      × (s' ≡ record s {
        chain = s'.chain;
        fork_choice = s'.fork_choice;
        log = s'.log;
        counters = s'.counters;
      })
unfolding mine_once
mine_once_result sampler disk fuel s seed entropy b in_range bound current mines nonzero =
    let inserts =
      (mine-insert_block toy_hash sampler fuel s.fork_choice seed entropy b in_range bound
        current.tree current.no_zero mines).0 in
    let (now, _) = may_activate sampler s b current nonzero inserts in
    let kept = persist_block_lem disk (active sampler s b current nonzero inserts) b in
    let fork' = (insert_block toy_hash sampler s.fork_choice b).0 in
    let t = persist_block disk (active sampler s b current nonzero inserts) b in
    (
      count_mined t,
      ap (store_found sampler disk s) mines
          ∙ store_mined_lem sampler s b current nonzero inserts disk,
      subst (λ (t : NodeState). IsCurrent sampler t.chain t.fork_choice) (sym kept) now,
      ap (λ (t : NodeState). contains_block t.fork_choice (hash_of b)) kept
          ∙ stored_mined sampler s b current nonzero inserts,
      ap (λ (c : Counters). c.mined_blocks + 1)
          (persist_counters disk (active sampler s b current nonzero inserts) b),
      λ i. record (count_mined t) {
        node_id = (kept i).node_id;
        bound_addr = (kept i).bound_addr;
        advertised_addr = (kept i).advertised_addr;
        peers = (kept i).peers;
        network = (kept i).network;
        sync = (kept i).sync;
      },
    )
