-- ===== src/Application/Chain/Valid.antt =====
-- A chain whose every block is valid after the blocks before it, and `apply_block`.
use mathlib.Core.Path.{subst}
use chesscoin.Prelude.{
  ℕ, ◌+◌, ◌^◌, ◌≤◌, ◌≡◌, refl, some, List, [], ◌∷◌, ◌++◌, length, length-append, arith, ok, err,
  sym, ap, inl, inr, ◌⊎◌, Result-cases,
}
use chesscoin.Prelude.Words.{as_u64}
use chesscoin.Domain.Trace.{Block}
use chesscoin.Ports.{HashPort, SamplingPort, InRange}
use chesscoin.Application.Config.{ChainConfig}
use chesscoin.Application.Validation.{
  BlockValidationError, ParentContext, block_hash, genesis_context,
}
use chesscoin.Application.Validation.Valid.{IsValidBlock, validate_block_after_iff}
use chesscoin.Application.Chain.{
  ChainState, chain_context, apply_block, validate_next_block, mine_next_block, last,
  model_or_genesis, hash_or_zero,
}
use chesscoin.Application.Chain.Mining.{mine_on-validates}

-- The context that a block leaves for the next one.
abbrev pub context_after : HashPort → ParentContext → Block → ParentContext
context_after hasher parent block = record {
  height = as_u64 (parent.height + 1);
  hash = block_hash hasher block;
  model = block.header.model_after;
}

module _ (config : ChainConfig) (hasher : HashPort) (sampler : SamplingPort) where
  -- The blocks are valid one after the other, from a first context to a last one.
  abbrev pub ValidChain : ParentContext → List Block → ParentContext → Type 0
  ValidChain parent [] tip = tip ≡ parent
  ValidChain parent (block ∷ blocks) tip =
      IsValidBlock config hasher sampler parent block
      × ValidChain (context_after hasher parent block) blocks tip

  pub ValidChain-append :
      (parent tip : ParentContext) (blocks : List Block) (block : Block)
      → ValidChain parent blocks tip
      → IsValidBlock config hasher sampler tip block
      → ValidChain parent (blocks ++ block ∷ []) (context_after hasher tip block)
  ValidChain-append parent tip [] block h v = (
    subst (λ p. IsValidBlock config hasher sampler p block) h v,
    ap (λ p. context_after hasher p block) h,
  )
  ValidChain-append parent tip (b ∷ bs) block h v =
      (h.0, ValidChain-append (context_after hasher parent b) tip bs block h.1 v)

-- A chain state holds blocks that are valid from the genesis on, and ends at its own context.
abbrev pub IsChain : HashPort → SamplingPort → ChainState → Type 0
IsChain hasher sampler chain =
    ValidChain chain.config hasher sampler genesis_context chain.blocks (chain_context hasher chain)

last-append : (blocks : List Block) (block : Block) → last (blocks ++ block ∷ []) ≡ some block
last-append [] block = refl
last-append (b ∷ []) block = refl
last-append (b ∷ c ∷ bs) block = last-append (c ∷ bs) block

-- The context of a longer chain is the one that the new block leaves.
pub context-append :
    (hasher : HashPort) (chain : ChainState) (block : Block)
    → chain_context hasher (record chain { blocks = chain.blocks ++ block ∷ [] })
      ≡ context_after hasher (chain_context hasher chain) block
context-append hasher chain block = λ i. record {
  height = heights i;
  hash = hash_or_zero hasher (last-append chain.blocks block i);
  model = model_or_genesis (last-append chain.blocks block i);
}
  where
    heights :
        as_u64 (length (chain.blocks ++ block ∷ [])) ≡ as_u64 (as_u64 (length chain.blocks) + 1)
    heights = omega (arith, length-append chain.blocks (block ∷ []))

module _ (hasher : HashPort) (sampler : SamplingPort) (chain : ChainState) (block : Block) where
  abbrev Applied : Type 0
  Applied =
      apply_block hasher sampler chain block
      ≡ (record chain { blocks = chain.blocks ++ block ∷ [] }, ok (block_hash hasher block))

  abbrev Valid : Type 0
  Valid = IsValidBlock chain.config hasher sampler (chain_context hasher chain) block

  -- A block that is valid after the head is appended, and its hash returned.
  pub apply_block_valid : Valid → Applied
  unfolding apply_block
  apply_block_valid v = rw (
    (validate_block_after_iff chain.config hasher sampler (chain_context hasher chain) block).1 v,
    apply_block,
  )

  -- A block that is valid after the head is appended and its hash returned; any other is refused
  -- with the error of the validation, and the chain stays as it is.
  pub apply_block_outcome :
      (Valid × Applied)
      ⊎ (¬ Valid
          × ((e : BlockValidationError) × (validate_next_block hasher sampler chain block ≡ err e)
              × (apply_block hasher sampler chain block ≡ (chain, err e))))
  unfolding apply_block validate_next_block
  apply_block_outcome =
      let decides =
        validate_block_after_iff chain.config hasher sampler (chain_context hasher chain) block in
      elim (Result-cases (validate_next_block hasher sampler chain block)) [
        | inl (u, passed) ↦ inl (decides.0 passed, apply_block_valid (decides.0 passed))
        | inr (e, refused) ↦
            inr (λ v. absurd (cc (decides.1 v, refused)), (e, refused, rw (refused, apply_block)))
      ]

-- Applying a block, accepted or refused, keeps a chain of blocks that are valid one after another.
pub apply_block-IsChain :
    (hasher : HashPort) (sampler : SamplingPort) (chain : ChainState) (block : Block)
    → IsChain hasher sampler chain
    → IsChain hasher sampler (apply_block hasher sampler chain block).0
apply_block-IsChain hasher sampler chain block h =
    elim (apply_block_outcome hasher sampler chain block) [
      | inl (v, applied) ↦ rw applied (
          subst
            (ValidChain chain.config hasher sampler genesis_context (chain.blocks ++ block ∷ []))
            (sym (context-append hasher chain block))
            (ValidChain-append chain.config hasher sampler genesis_context
              (chain_context hasher chain) chain.blocks block h v))
      | inr (_, (e, _, same)) ↦ rw same h
    ]

-- A block that mining returns is applied to the chain that it was mined on.
pub mine-apply_block :
    (hasher : HashPort) (sampler : SamplingPort) (fuel : ℕ) (chain : ChainState)
    (training_seed sampling_entropy : ℕ) (block : Block)
    → InRange sampler
    → chain.config.steps_per_block ≤ 2 ^ 64
    → mine_next_block hasher fuel chain training_seed sampling_entropy ≡ some block
    → apply_block hasher sampler chain block
      ≡ (record chain { blocks = chain.blocks ++ block ∷ [] }, ok (block_hash hasher block))
mine-apply_block hasher sampler fuel chain seed entropy block in_range bound mined =
    apply_block_valid hasher sampler chain block (
      (validate_block_after_iff chain.config hasher sampler (chain_context hasher chain) block).0 (
        mine_on-validates hasher sampler fuel chain.config (chain_context hasher chain) seed entropy
          block in_range bound mined))
