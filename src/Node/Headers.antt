-- ===== src/Node/Headers.antt =====
-- The check of a peer's headers in crates/chesscoin-node/src/runtime.rs.
pub mod Follow
pub mod Served
use chesscoin.Prelude.{
  ℕ, ◌+◌, Bool, true, false, not, ◌&&◌, Option, none, some, List, [], ◌∷◌, map, contains, ltb,
  if◌then◌else◌, ◌==◌, nat_eq, Result, ok, err, ◌>>=◌, ◌>>◌,
}
use chesscoin.Prelude.Words.{as_u64, wrapping_add}
use chesscoin.Domain.Digest.{Digest, zero_digest, digest_eq, leading_zero_bits}
use chesscoin.Domain.Trace.{BlockHeader}
use chesscoin.Application.Config.{ChainConfig}
use chesscoin.Application.Validation.{block_header_hash}
use chesscoin.Application.Chain.{ChainState}
use chesscoin.Adapters.{toy_hash}
use chesscoin.Node.Locator.{hash_of, is_empty, position}

-- The height that the first header must have, from the block that it names as its parent.
unfoldable pub first_height : ChainState → List Digest → Digest → Result ℕ (Unit {0})
unfolding position
first_height chain locator first_parent =
    if first_parent == zero_digest
    then (if not (is_empty chain.blocks) && not (contains locator zero_digest)
        then err tt
        else ok 0)
    else if not (contains locator first_parent)
    then err tt
    else elim (position (map hash_of chain.blocks) first_parent) [
      | none ↦ err tt
      | some parent_index ↦ ok (as_u64 (parent_index + 1))
    ]

-- The loop over the headers.
unfoldable pub header_loop :
    ChainConfig → ℕ → Digest → List BlockHeader → Result (Unit {0}) (Unit {0})
header_loop config expected_height expected_previous [] = ok tt
header_loop config expected_height expected_previous (header ∷ headers) =
    let hash = block_header_hash toy_hash header in
    let rest = header_loop config (wrapping_add expected_height 1) hash headers in
    if not (header.previous_block == expected_previous)
    then err tt
    else if not (header.height == expected_height)
    then err tt
    else if not (header.sample_count == config.samples_per_block)
    then err tt
    else if ltb (leading_zero_bits hash) config.difficulty_zero_bits
    then err tt
    else rest

unfoldable pub validate_headers_after_locator :
    ChainState → List Digest → List BlockHeader → Result (Unit {0}) (Unit {0})
unfolding first_height header_loop
validate_headers_after_locator chain locator [] = ok tt
validate_headers_after_locator chain locator (first ∷ headers) = do
  expected_height ← first_height chain locator first.previous_block
  header_loop chain.config expected_height first.previous_block (first ∷ headers)
