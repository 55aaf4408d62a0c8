-- ===== src/Node/Headers/Served.antt =====
-- The headers that a peer on the same branch sends.
use mathlib.Core.Path.{subst}
use chesscoin.Prelude.{
  ℕ, zero, suc, ◌+◌, ◌≡◌, inr, refl, arith, false, List, [], ◌∷◌, ◌++◌, map, contains, take, length,
  ◌==◌, ==_iff, ==_refl, ok, ◌∙◌, ap, sym,
}
use chesscoin.Prelude.Words.{as_u64}
use chesscoin.Domain.Digest.{Digest, zero_digest, digest_eq}
use chesscoin.Domain.Trace.{Block, BlockHeader}
use chesscoin.Ports.{SamplingPort}
use chesscoin.Application.Config.{ChainConfig}
use chesscoin.Application.Validation.{ParentContext, genesis_context}
use chesscoin.Application.Chain.{ChainState, chain_context}
use chesscoin.Application.Chain.Valid.{ValidChain, IsChain, context_after}
use chesscoin.Adapters.{toy_hash}
use chesscoin.Node.Locator.{
  hash_of, position_behind, locator_starts, block_locator, headers_after_locator,
  blocks_after-block_locator,
}
use chesscoin.Node.Headers.{validate_headers_after_locator}
use chesscoin.Node.Headers.Follow.{IsHeaderChain, Joins, Follows, validate_headers_iff}

abbrev header_of : Block → BlockHeader
header_of block = block.header

-- The headers of valid blocks are linked.
take-IsHeaderChain :
    (config : ChainConfig) (sampler : SamplingPort) (parent tip : ParentContext)
    (blocks : List Block) (limit : ℕ)
    → ValidChain config toy_hash sampler parent blocks tip
    → IsHeaderChain config parent.height parent.hash (map header_of (take limit blocks))
take-IsHeaderChain config sampler parent tip blocks zero v = tt
take-IsHeaderChain config sampler parent tip [] (suc limit) v = tt
take-IsHeaderChain config sampler parent tip (block ∷ blocks) (suc limit) v = (
  v.0.previous_eq,
  v.0.height_eq,
  v.0.sample_count_eq,
  v.0.work,
  take-IsHeaderChain config sampler (context_after toy_hash parent block) tip blocks limit v.1,
)

-- The blocks behind a block of a valid chain are valid after it.
ValidChain-behind :
    (config : ChainConfig) (sampler : SamplingPort) (parent tip : ParentContext)
    (older : List Block) (block : Block) (more : List Block)
    → ValidChain config toy_hash sampler parent (older ++ block ∷ more) tip
    → (after : ParentContext) × (after.height ≡ as_u64 (parent.height + length older + 1))
      × (after.hash ≡ hash_of block)
      × ValidChain config toy_hash sampler after more tip
ValidChain-behind config sampler parent tip [] block more v =
    (context_after toy_hash parent block, ap as_u64 (omega arith), refl, v.1)
ValidChain-behind config sampler parent tip (b ∷ bs) block more v =
    let (after, height, hash, valid) =
      ValidChain-behind config sampler (context_after toy_hash parent b) tip bs block more v.1 in
    (after, omega (arith, height), hash, valid)

linked-Follows :
    (chain : ChainState) (locator : List Digest) (height : ℕ) (previous : Digest)
    (headers : List BlockHeader)
    → Joins chain locator previous height
    → IsHeaderChain chain.config height previous headers
    → Follows chain locator headers
linked-Follows chain locator height previous [] joins linked = tt
linked-Follows chain locator height previous (first ∷ headers) joins linked = (
  height,
  subst (λ p. Joins chain locator p height) (sym linked.0) joins,
  (refl, linked.1, linked.2, linked.3, linked.4),
)

-- A node whose last block is on the valid chain of a peer accepts the headers that the peer sends for the
-- node's locator, if that block's hash is not the zero digest and no block before it has the same
-- hash.
pub headers_after-validates :
    (config : ChainConfig) (sampler : SamplingPort) (older : List Block) (block : Block)
    (more : List Block) (max_hashes limit : ℕ)
    → IsChain toy_hash sampler (record { config = config; blocks = older ++ block ∷ more })
    → (hash_of block == zero_digest) ≡ false
    → contains (map hash_of older) (hash_of block) ≡ false
    → let own : ChainState = record { config = config; blocks = older ++ block ∷ [] } in
      let locator = block_locator own (suc max_hashes) in
      validate_headers_after_locator own locator (
        headers_after_locator
          (record { config = config; blocks = older ++ block ∷ more })
          locator
          limit)
      ≡ ok tt
unfolding headers_after_locator
headers_after-validates config sampler older block more max_hashes limit v nonzero fresh =
    let own : ChainState = record { config = config; blocks = older ++ block ∷ [] } in
    let peer : ChainState = record { config = config; blocks = older ++ block ∷ more } in
    let locator = block_locator own (suc max_hashes) in
    let (after, height, hash, valid) =
      ValidChain-behind config sampler genesis_context (chain_context toy_hash peer) older block
        more v in
    let linked =
      take-IsHeaderChain config sampler after (chain_context toy_hash peer) more limit valid in
    let (rest, starts) = locator_starts config older block max_hashes in
    let joins : Joins own locator after.hash after.height = inr (
      (λ same. absurd (cc ((==_iff (hash_of block) zero_digest).1 (sym hash ∙ same), nonzero))),
      rw (hash, starts, ==_refl (hash_of block)) refl,
      (
        length older,
        rw hash (position_behind older block [] fresh),
        height ∙ ap as_u64 (omega arith),
      ),
    ) in
    rw (blocks_after-block_locator config older block more max_hashes limit nonzero fresh) (
      (validate_headers_iff own locator (map header_of (take limit more))).1
        (linked-Follows own locator after.height after.hash _ joins linked))
