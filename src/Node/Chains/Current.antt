-- ===== src/Node/Chains/Current.antt =====
-- The served chain and the best chain of the fork choice.
use mathlib.Core.Path.{subst}
use chesscoin.Prelude.{
  suc, ◌≡◌, refl, arith, Bool, true, false, Bool-cases, some, inl, inr, List, [], ◌∷◌, ◌++◌,
  append_assoc, append-nil, length, ◌==◌, ==_iff, ◌∙◌, ap, sym, ok, err,
}
use chesscoin.Domain.Digest.{Digest, digest_eq, zero_digest}
use chesscoin.Domain.Trace.{Block}
use chesscoin.Ports.{SamplingPort}
use chesscoin.Application.Validation.{ParentContext, genesis_context}
use chesscoin.Application.Chain.{ChainState, chain_context, head_hash, apply_block}
use chesscoin.Application.Chain.Valid.{ValidChain, context-append, apply_block_valid}
use chesscoin.Application.ForkChoice.{
  ForkChoiceState, best_chain, best_hash, contains_key, fork_context,
}
use chesscoin.Application.ForkChoice.Insert.{IsForkChoice}
use chesscoin.Application.ForkChoice.BestChain.{best_chain-ValidChain}
use chesscoin.Adapters.{toy_hash}
use chesscoin.Node.State.{NodeState}
use chesscoin.Node.Chains.{
  walked_blocks, best_blocks, apply_all, chain_from_blocks, activate_best_chain,
}

abbrev pub best_state : ForkChoiceState → ChainState
best_state fork = record { config = fork.config; blocks = best_blocks fork }

module _ (sampler : SamplingPort) where
  -- The chain that a node serves is the best one of its fork choice.
  pub record IsCurrent (chain : ChainState) (fork : ForkChoiceState) : Type 0 where
    pub tree : IsForkChoice toy_hash sampler fork
    pub served : chain ≡ best_state fork
    pub no_zero : contains_key fork.nodes zero_digest ≡ false

  apply_all_step :
      (chain next : ChainState) (b : Block) (bs : List Block) (hash : Digest)
      → apply_block toy_hash sampler chain b ≡ (next, ok hash)
      → apply_all sampler chain (b ∷ bs) ≡ apply_all sampler next bs
  unfolding apply_all
  apply_all_step chain next b bs hash applied =
      ap (λ r. elim r.1 [ ok _ ↦ apply_all sampler r.0 bs | err e ↦ err e ]) applied

  -- Blocks that are valid one after another are applied, and leave their last context.
  apply_all-ValidChain :
      (chain : ChainState) (blocks : List Block) (tip : ParentContext)
      → ValidChain chain.config toy_hash sampler (chain_context toy_hash chain) blocks tip
      → let longer : ChainState = record chain { blocks = chain.blocks ++ blocks } in
        (apply_all sampler chain blocks ≡ ok longer) × (chain_context toy_hash longer ≡ tip)
  unfolding apply_all
  apply_all-ValidChain chain [] tip v =
      let same : chain.blocks ≡ chain.blocks ++ [] = sym (append-nil chain.blocks) in
      (
        ap (λ bs. ok (record chain { blocks = bs })) same,
        ap (λ bs. chain_context toy_hash (record chain { blocks = bs })) (sym same) ∙ sym v,
      )
  apply_all-ValidChain chain (b ∷ bs) tip v =
      let next : ChainState = record chain { blocks = chain.blocks ++ b ∷ [] } in
      let valid =
        subst (λ p. ValidChain chain.config toy_hash sampler p bs tip)
          (sym (context-append toy_hash chain b)) v.1 in
      let (applied, ends) = apply_all-ValidChain next bs tip valid in
      let moved : (chain.blocks ++ b ∷ []) ++ bs ≡ chain.blocks ++ b ∷ bs =
        append_assoc chain.blocks (b ∷ []) bs in
      (
        apply_all_step chain next b bs _ (apply_block_valid toy_hash sampler chain b v.0)
            ∙ applied
            ∙ ap (λ l. ok (record chain { blocks = l })) moved,
        ap (λ l. chain_context toy_hash (record chain { blocks = l })) (sym moved) ∙ ends,
      )

  pub best_blocks_lem :
      (fork : ForkChoiceState)
      → IsForkChoice toy_hash sampler fork
      → (best_chain (suc (length fork.nodes)) fork ≡ some (best_blocks fork))
        × ValidChain fork.config toy_hash sampler genesis_context
            (best_blocks fork)
            (fork_context fork)
  best_blocks_lem fork h =
      let (blocks, walked, valid) =
        best_chain-ValidChain toy_hash sampler (length fork.nodes) fork h (omega arith) in
      let same : best_blocks fork ≡ blocks = ap walked_blocks walked in
      (
        walked ∙ ap some (sym same),
        subst (λ bs. ValidChain fork.config toy_hash sampler genesis_context bs (fork_context fork))
            (sym same) valid,
      )

  -- The best chain is built again from its blocks, and ends at the tip of the fork choice.
  pub best_state_lem :
      (fork : ForkChoiceState)
      → IsForkChoice toy_hash sampler fork
      → (chain_from_blocks sampler fork.config (best_blocks fork) ≡ ok (best_state fork))
        × (chain_context toy_hash (best_state fork) ≡ fork_context fork)
  unfolding chain_from_blocks
  best_state_lem fork h =
      apply_all-ValidChain (record { config = fork.config; blocks = [] }) (best_blocks fork)
        (fork_context fork) (best_blocks_lem fork h).1

  pub current_head :
      (chain : ChainState) (fork : ForkChoiceState)
      → IsCurrent chain fork
      → head_hash toy_hash chain ≡ best_hash fork
  unfolding best_hash
  current_head chain fork c =
      ap (head_hash toy_hash) c.served
      ∙ ap (λ (p : ParentContext). p.hash) (best_state_lem fork c.tree).1

  -- Unless the head is that of the fork choice already, the best chain becomes the chain.
  pub activate_best_chain_lem :
      (s : NodeState)
      → IsForkChoice toy_hash sampler s.fork_choice
      → (head_hash toy_hash s.chain ≡ best_hash s.fork_choice → s.chain ≡ best_state s.fork_choice)
      → (changed : Bool) × (activate_best_chain sampler s
          ≡ (record s { chain = best_state s.fork_choice }, ok changed))
  unfolding activate_best_chain
  activate_best_chain_lem s h skips =
      elim (Bool-cases (head_hash toy_hash s.chain == best_hash s.fork_choice)) [
        | inl same ↦
            let served =
              skips ((==_iff (head_hash toy_hash s.chain) (best_hash s.fork_choice)).0 same) in
            (false, rw same (ap (λ chain. (record s { chain = chain }, ok false)) served))
        | inr apart ↦ (true, rw (apart, (best_state_lem s.fork_choice h).0) refl)
      ]
