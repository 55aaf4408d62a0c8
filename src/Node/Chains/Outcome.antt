-- ===== src/Node/Chains/Outcome.antt =====
-- `apply_incoming_block` on every branch, and the served chain after it.
use chesscoin.Prelude.{
  ◌≡◌, ◌⊎◌, refl, arith, true, false, Bool-cases, Option, some, none, inl, inr, ◌==◌, ◌∙◌, ap, sym,
  ◌∷◌, ok, err,
}
use chesscoin.Domain.Digest.{Digest, digest_eq, zero_digest}
use chesscoin.Domain.Trace.{Block}
use chesscoin.Ports.{SamplingPort}
use chesscoin.Application.Chain.{ChainState, head_hash}
use chesscoin.Application.ForkChoice.{
  ForkChoiceState, ForkChoiceError, Nodes, ForkNode, get, best_hash, contains_key, contains_block,
  insert_block,
}
use chesscoin.Application.ForkChoice.Tip.{HasTip}
use chesscoin.Application.ForkChoice.Fresh.{Stored, insert_block_fresh, best_chain_kept}
use chesscoin.Application.ForkChoice.Mined.{absent_zero}
use chesscoin.Adapters.{toy_hash}
use chesscoin.Node.Locator.{hash_of}
use chesscoin.Node.State.{NodeState}
use chesscoin.Node.Storage.{Disk}
use chesscoin.Node.Chains.{
  BlockSource, BlockApplication, accepted, already_known, rejected, walked_blocks, after_insert,
  apply_incoming_block, count_rejected,
}
use chesscoin.Node.Chains.Current.{IsCurrent, best_state, current_head}
use chesscoin.Node.Chains.Settle.{settled, settle_block_lem}

abbrev pub tip_hash : Option Digest → Digest
tip_hash none = zero_digest
tip_hash (some hash) = hash

pub best_hash_tip : (fork : ForkChoiceState) → best_hash fork ≡ tip_hash fork.best_tip
unfolding best_hash
best_hash_tip fork = ground arith

-- Tips of the same hash are the same, where no node has the zero digest.
same_tip :
    (nodes nodes' : Nodes) (tip tip' : Option Digest)
    → HasTip nodes tip
    → HasTip nodes' tip'
    → contains_key nodes zero_digest ≡ false
    → contains_key nodes' zero_digest ≡ false
    → tip_hash tip ≡ tip_hash tip'
    → tip' ≡ tip
same_tip nodes nodes' none none h h' z z' e = refl
same_tip nodes nodes' (some t) (some t') h h' z z' e = ap some (sym e)
same_tip nodes nodes' none (some t') h (best, at, _) z z' e =
    absurd (absent_zero nodes' best (ap (get nodes') e ∙ at) z')
same_tip nodes nodes' (some t) none (best, at, _) h' z z' e =
    absurd (absent_zero nodes best (ap (get nodes) (sym e) ∙ at) z)

-- A new node under another hash than the zero digest.
still_no_zero :
    (older : Nodes) (key : Digest) (node : ForkNode)
    → contains_key older zero_digest ≡ false
    → (key == zero_digest) ≡ false
    → contains_key ((key, node) ∷ older) zero_digest ≡ false
unfolding get
still_no_zero older key node z nonzero = rw nonzero z

module _ (sampler : SamplingPort) (chain : ChainState) (fork fork' : ForkChoiceState) (b : Block)
    (current : IsCurrent sampler chain fork) (stored : Stored toy_hash sampler fork fork' b)
    (nonzero : (hash_of b == zero_digest) ≡ false) where
  stored_no_zero : contains_key fork'.nodes zero_digest ≡ false
  stored_no_zero =
      ap (λ ns. contains_key ns zero_digest) stored.nodes_eq
      ∙ still_no_zero fork.nodes (hash_of b) stored.node current.no_zero nonzero

  -- While the head stays, the chain is still the best one.
  pub still_served : head_hash toy_hash chain ≡ best_hash fork' → chain ≡ best_state fork'
  still_served same =
      let heads : tip_hash fork.best_tip ≡ tip_hash fork'.best_tip =
        sym (best_hash_tip fork)
        ∙ sym (current_head sampler chain fork current)
        ∙ same
        ∙ best_hash_tip fork' in
      let tips =
        same_tip fork.nodes fork'.nodes fork.best_tip fork'.best_tip current.tree.tip
          stored.after.tip current.no_zero stored_no_zero heads in
      let blocks =
        ap walked_blocks (best_chain_kept toy_hash sampler fork fork' b current.tree stored tips) in
      current.served ∙ λ i. record { config = sym stored.config_eq i; blocks = sym blocks i }

  pub stored-IsCurrent : IsCurrent sampler (best_state fork') fork'
  stored-IsCurrent = record { tree = stored.after; served = refl; no_zero = stored_no_zero }

module _ (sampler : SamplingPort) (disk : Disk) (s : NodeState) (b : Block)
    (source : BlockSource) where
  abbrev result : NodeState × BlockApplication
  result = apply_incoming_block sampler disk s b source

  abbrev inserted : ForkChoiceState
  inserted = (insert_block toy_hash sampler s.fork_choice b).0

  -- A known block changes nothing; a block that the fork choice refuses only the counter of its
  -- source; any other is stored, and the node serves the best chain with it.
  pub apply_incoming_block_outcome :
      IsCurrent sampler s.chain s.fork_choice
      → (hash_of b == zero_digest) ≡ false
      → ((contains_block s.fork_choice (hash_of b) ≡ true) × (result ≡ (s, already_known)))
        ⊎ (((e : ForkChoiceError) × (insert_block toy_hash sampler s.fork_choice b
                ≡ (s.fork_choice, err e)))
            × (result ≡ (record s { counters = count_rejected source s.counters }, rejected)))
        ⊎ (Stored toy_hash sampler s.fork_choice inserted b
            × ((insert_block toy_hash sampler s.fork_choice b).1 ≡ ok (hash_of b))
            × IsCurrent sampler (best_state inserted) inserted
            × (result ≡ (
              settled sampler disk
                  (record s { fork_choice = inserted })
                  b
                  source
                  (head_hash toy_hash s.chain),
              accepted,
            )))
  unfolding apply_incoming_block contains_block
  apply_incoming_block_outcome current nonzero =
      elim (Bool-cases (contains_key s.fork_choice.nodes (hash_of b))) [
        | inl known ↦ rw known (inl (refl, refl))
        | inr unknown ↦
            elim (insert_block_fresh toy_hash sampler s.fork_choice b current.tree unknown) [
              | inr (e, refused) ↦ rw (unknown, refused) (inr (inl ((e, refl), refl)))
              | inl (stores, stored) ↦
                  let settles =
                    settle_block_lem sampler disk (record s { fork_choice = inserted }) b source
                      (head_hash toy_hash s.chain) stored.after
                      (still_served sampler s.chain s.fork_choice inserted b current stored
                        nonzero) in
                  let result_eq : insert_block toy_hash sampler s.fork_choice b
                      ≡ (inserted, ok (hash_of b)) =
                    λ i. (inserted, stores i) in
                  let taken : result
                      ≡ after_insert sampler disk s b source (inserted, ok (hash_of b)) =
                    rw unknown (ap (after_insert sampler disk s b source) result_eq) in
                  inr (
                    inr (
                      stored,
                      stores,
                      stored-IsCurrent sampler s.chain s.fork_choice inserted b current stored
                          nonzero,
                      taken ∙ ap (λ t. (t, accepted)) settles,
                    ))
            ]
      ]

  -- Whatever block comes in, the node serves the best chain of its fork choice afterwards, unless
  -- the block hashes to the zero digest.
  pub apply_incoming_block-IsCurrent :
      IsCurrent sampler s.chain s.fork_choice
      → (hash_of b == zero_digest) ≡ false
      → IsCurrent sampler result.0.chain result.0.fork_choice
  apply_incoming_block-IsCurrent current nonzero =
      elim (apply_incoming_block_outcome current nonzero) [
        | inl (_, same) ↦ rw same current
        | inr (inl (_, same)) ↦ rw same current
        | inr (inr (_, _, now, same)) ↦ rw same now
      ]
