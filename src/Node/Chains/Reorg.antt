-- ===== src/Node/Chains/Reorg.antt =====
-- When a block moves the head to another branch.
use mathlib.Core.List.{reverse}
use mathlib.Core.Option
use chesscoin.Prelude.{
  ℕ, suc, ◌+◌, ◌≡◌, ◌≢◌, ◌⊎◌, refl, arith, Bool, true, false, some, none, Option-cases, inl, inr,
  [], ◌∷◌, ◌++◌, length, ◌==◌, ==_iff, ◌∙◌, ap, sym, if◌then◌else◌,
}
use chesscoin.Domain.Digest.{Digest, digest_eq, zero_digest}
use chesscoin.Domain.Trace.{Block}
use chesscoin.Ports.{SamplingPort}
use chesscoin.Application.Validation.{ParentContext}
use chesscoin.Application.ForkChoice.Mined.{tip_apart}
use chesscoin.Application.Chain.{ChainState, head_hash}
use chesscoin.Application.ForkChoice.{ForkChoiceState, walk, best_chain, insert_block}
use chesscoin.Application.ForkChoice.Fresh.{Stored, best_chain_kept, best_chain_grown}
use chesscoin.Adapters.{toy_hash}
use chesscoin.Node.Locator.{hash_of}
use chesscoin.Node.State.{NodeState, Counters}
use chesscoin.Node.Storage.{Disk}
use chesscoin.Node.Chains.{
  BlockSource, gossip, sync, walked_blocks, best_blocks, persist_block, count_accepted, count_reorg,
  apply_incoming_block,
}
use chesscoin.Node.Chains.Current.{
  IsCurrent, best_state, current_head, best_blocks_lem, best_state_lem,
}
use chesscoin.Node.Chains.Settle.{persist_counters, is_reorg}
use chesscoin.Node.Chains.Outcome.{tip_hash, best_hash_tip, apply_incoming_block_outcome}

reorgs_counted :
    (source : BlockSource) (reorg : Bool) (c : Counters)
    → (count_accepted source (count_reorg reorg c)).reorgs
      ≡ (if reorg then c.reorgs + 1 else c.reorgs)
reorgs_counted gossip true c = refl
reorgs_counted gossip false c = refl
reorgs_counted sync true c = refl
reorgs_counted sync false c = refl

not_counted :
    (reorg : Bool) (n old : ℕ) → (if reorg then n + 1 else n) ≡ old → n ≡ old → reorg ≡ false
not_counted true n old h same = absurd (omega arith)
not_counted false n old h same = refl

module _ (sampler : SamplingPort) (chain : ChainState) (fork fork' : ForkChoiceState) (b : Block)
    (current : IsCurrent sampler chain fork) (stored : Stored toy_hash sampler fork fork' b) where
  abbrev Kept : Type 0
  Kept = best_state fork' ≡ chain

  abbrev Grown : Type 0
  Grown = (best_state fork').blocks ≡ chain.blocks ++ b ∷ []

  tip_kept : fork'.best_tip ≡ fork.best_tip → Kept
  tip_kept same =
      let blocks =
        ap walked_blocks (best_chain_kept toy_hash sampler fork fork' b current.tree stored same) in
      (λ i. record { config = stored.config_eq i; blocks = blocks i }) ∙ sym current.served

  tip_grown :
      (tip : Digest)
      → fork.best_tip ≡ some tip
      → fork'.best_tip ≡ some (hash_of b)
      → b.header.previous_block ≡ tip
      → (tip == zero_digest) ≡ false
      → Grown
  tip_grown tip old_tip new_tip parent child =
      ap walked_blocks (
        best_chain_grown toy_hash sampler fork fork' b current.tree stored tip (best_blocks fork)
          old_tip new_tip parent child (best_blocks_lem sampler fork current.tree).0)
      ∙ ap (λ (c : ChainState). c.blocks ++ b ∷ []) (sym current.served)

  no_tip : fork.best_tip ≡ none → chain.blocks ≡ []
  unfolding best_chain walk
  no_tip none_yet =
      let empty : best_blocks fork ≡ [] =
        ap
          (λ t. walked_blocks (Option.map reverse (walk fork.nodes (suc (length fork.nodes)) t [])))
          none_yet in
      ap (λ (c : ChainState). c.blocks) current.served ∙ empty

  old_apart : (tip : Digest) → fork.best_tip ≡ some tip → (tip == zero_digest) ≡ false
  old_apart tip old_tip =
      let (best, at, _) = rw old_tip at current.tree.tip in
      tip_apart fork.nodes tip best at current.no_zero

  -- A block that does not move the head elsewhere leaves the chain, or is added to it.
  no_reorg :
      (old_head : Digest)
      → head_hash toy_hash chain ≡ old_head
      → is_reorg old_head b fork' ≡ false
      → (chain.blocks ≡ []) ⊎ Kept ⊎ Grown
  no_reorg old_head head quiet = elim stored.tip_cases [
    | inl same ↦ inr (inl (tip_kept same))
    | inr new_tip ↦ elim (Option-cases fork.best_tip) [
      | inl none_yet ↦ inl (no_tip none_yet)
      | inr (tip, old_tip) ↦
          let apart = old_apart tip old_tip in
          let old : old_head ≡ tip =
            sym head
            ∙ current_head sampler chain fork current
            ∙ best_hash_tip fork
            ∙ ap tip_hash old_tip in
          let new_head : head_hash toy_hash (best_state fork') ≡ hash_of b =
            ap (λ (p : ParentContext). p.hash) (best_state_lem sampler fork' stored.after).1
            ∙ best_hash_tip fork'
            ∙ ap tip_hash new_tip in
          let reached = (==_iff (head_hash toy_hash (best_state fork')) (hash_of b)).1 new_head in
          let parent : (b.header.previous_block == tip) ≡ true =
            ground (arith, rw old at quiet, apart, reached) in
          inr (
            inr
              (tip_grown tip old_tip new_tip ((==_iff b.header.previous_block tip).0 parent) apart))
    ]
  ]

-- As long as no reorganisation is counted, an incoming block leaves the served chain as it is or is
-- added at its end, if there is a chain yet and the block does not hash to the zero digest.
pub apply_incoming_block-reorgs :
    (sampler : SamplingPort) (disk : Disk) (s : NodeState) (b : Block) (source : BlockSource)
    → IsCurrent sampler s.chain s.fork_choice
    → (hash_of b == zero_digest) ≡ false
    → s.chain.blocks ≢ []
    → (apply_incoming_block sampler disk s b source).0.counters.reorgs ≡ s.counters.reorgs
    → let s' = (apply_incoming_block sampler disk s b source).0 in
      (s'.chain ≡ s.chain) ⊎ (s'.chain.blocks ≡ s.chain.blocks ++ b ∷ [])
apply_incoming_block-reorgs sampler disk s b source current nonzero some_chain =
    let fork' = (insert_block toy_hash sampler s.fork_choice b).0 in
    elim (apply_incoming_block_outcome sampler disk s b source current nonzero) [
      | inl (_, same) ↦ rw same (λ _. inl refl)
      | inr (inl (_, same)) ↦ rw same (λ _. inl refl)
      | inr (inr (stored, _, now, same)) ↦ rw same (λ quiet.
          let counted =
            reorgs_counted source (is_reorg (head_hash toy_hash s.chain) b fork')
              (persist_block disk (record s { fork_choice = fork' }) b).counters in
          let before =
            ap (λ (c : Counters). c.reorgs)
              (persist_counters disk (record s { fork_choice = fork' }) b) in
          let still : is_reorg (head_hash toy_hash s.chain) b fork' ≡ false =
            not_counted _ _ s.counters.reorgs (sym counted ∙ quiet) before in
          elim (no_reorg sampler s.chain s.fork_choice fork' b current stored
            (head_hash toy_hash s.chain) refl still) [
              | inl empty ↦ absurd (some_chain empty)
              | inr (inl kept) ↦ inl kept
              | inr (inr grown) ↦ inr grown
            ])
    ]
