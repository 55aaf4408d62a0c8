-- ===== src/Node/Headers/Follow.antt =====
-- Which headers follow a chain.
use chesscoin.Prelude.{
  ℕ, ◌+◌, ◌≤◌, ◌≡◌, ◌≢◌, ◌↔◌, ◌⊎◌, inl, inr, refl, arith, true, Option-cases, Result-cases, some,
  List, [], ◌∷◌, map, contains, ==_iff, ok,
}
use chesscoin.Prelude.Words.{as_u64, wrapping_add}
use chesscoin.Domain.Digest.{Digest, zero_digest, digest_eq, leading_zero_bits}
use chesscoin.Domain.Trace.{BlockHeader}
use chesscoin.Application.Config.{ChainConfig}
use chesscoin.Application.Validation.{block_header_hash}
use chesscoin.Application.Chain.{ChainState}
use chesscoin.Adapters.{toy_hash}
use chesscoin.Node.Locator.{hash_of, is_empty, position}
use chesscoin.Node.Headers.{first_height, header_loop, validate_headers_after_locator}

-- One header after the other, each with the hash of the one before it and enough work.
abbrev pub IsHeaderChain : ChainConfig → ℕ → Digest → List BlockHeader → Type 0
IsHeaderChain config height previous [] = Unit
IsHeaderChain config height previous (header ∷ headers) =
    let hash = block_header_hash toy_hash header in
    (header.previous_block ≡ previous)
    × (header.height ≡ height)
    × (header.sample_count ≡ config.samples_per_block)
    × (config.difficulty_zero_bits ≤ leading_zero_bits hash)
    × IsHeaderChain config (wrapping_add height 1) hash headers

-- Where a header may join the chain: at the genesis, or behind a block that the locator named.
abbrev pub Joins : ChainState → List Digest → Digest → ℕ → Type 0
Joins chain locator parent height =
    ((parent ≡ zero_digest)
      × (is_empty chain.blocks ≡ true ⊎ contains locator zero_digest ≡ true)
      × (height ≡ 0))
    ⊎ ((parent ≢ zero_digest)
        × (contains locator parent ≡ true)
        × ((index : ℕ) × (position (map hash_of chain.blocks) parent ≡ some index)
            × (height ≡ as_u64 (index + 1))))

abbrev pub Follows : ChainState → List Digest → List BlockHeader → Type 0
Follows chain locator [] = Unit
Follows chain locator (first ∷ headers) =
    (height : ℕ) × Joins chain locator first.previous_block height
    × IsHeaderChain chain.config height first.previous_block (first ∷ headers)

header_loop_iff :
    (config : ChainConfig) (height : ℕ) (previous : Digest) (headers : List BlockHeader)
    → (header_loop config height previous headers ≡ ok tt)
      ↔ IsHeaderChain config height previous headers
unfolding header_loop
header_loop_iff config height previous [] = ((λ h. tt), (λ h. refl))
header_loop_iff config height previous (header ∷ headers) = ground (
  arith,
  ==_iff header.previous_block previous,
  header_loop_iff config (wrapping_add height 1) (block_header_hash toy_hash header) headers,
)

first_height_iff :
    (chain : ChainState) (locator : List Digest) (parent : Digest) (height : ℕ)
    → (first_height chain locator parent ≡ ok height) ↔ Joins chain locator parent height
unfolding first_height
first_height_iff chain locator parent height =
    elim (Option-cases (position (map hash_of chain.blocks) parent)) [
      | inl missing ↦ rw (missing, first_height) (ground (arith, ==_iff parent zero_digest))
      | inr (index, found) ↦ rw (found, first_height) (ground (arith, ==_iff parent zero_digest))
    ]

-- The check accepts exactly the headers that follow the chain.
pub validate_headers_iff :
    (chain : ChainState) (locator : List Digest) (headers : List BlockHeader)
    → (validate_headers_after_locator chain locator headers ≡ ok tt) ↔ Follows chain locator headers
unfolding validate_headers_after_locator
validate_headers_iff chain locator [] = ((λ h. tt), (λ h. refl))
validate_headers_iff chain locator (first ∷ headers) = (accepts, complete)
  where
    parent : Digest
    parent = first.previous_block

    accepts :
        validate_headers_after_locator chain locator (first ∷ headers) ≡ ok tt
        → Follows chain locator (first ∷ headers)
    accepts h = elim (Result-cases (first_height chain locator parent)) [
      | inl (height, joins) ↦
          let loop : header_loop chain.config height parent (first ∷ headers) ≡ ok tt =
            rw joins at h in
          (
            height,
            (first_height_iff chain locator parent height).0 joins,
            (header_loop_iff chain.config height parent (first ∷ headers)).0 loop,
          )
      | inr (e, refused) ↦ absurd (cc (rw refused at h))
    ]

    complete :
        Follows chain locator (first ∷ headers)
        → validate_headers_after_locator chain locator (first ∷ headers) ≡ ok tt
    complete (height, joins, linked) =
        rw ((first_height_iff chain locator parent height).1 joins)
          ((header_loop_iff chain.config height parent (first ∷ headers)).1 linked)
