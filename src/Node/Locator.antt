-- ===== src/Node/Locator.antt =====
-- Locators: the hashes that a node sends, and the blocks that a peer answers with.
use mathlib.Core.List.{map, reverse, reverse-append}
use mathlib.Core.Option
use chesscoin.Prelude.{
  ℕ, suc, ◌+◌, ◌≡◌, refl, arith, Bool, true, false, not, ◌&&◌, Option, some, none, List, [], ◌∷◌,
  ◌++◌, length, take, drop, contains, nat_eq, ltb, if◌then◌else◌, ◌==◌, ==_refl, ==_iff,
  ==_comm_false, ◌∙◌, ap, ◌||◌,
}
use chesscoin.Domain.Digest.{Digest, zero_digest, digest_eq}
use chesscoin.Domain.Trace.{Block, BlockHeader}
use chesscoin.Application.Config.{ChainConfig}
use chesscoin.Application.Validation.{block_hash}
use chesscoin.Application.Chain.{ChainState}
use chesscoin.Adapters.{toy_hash}

abbrev pub hash_of : Block → Digest
hash_of block = block_hash toy_hash block

abbrev pub is_empty : List Block → Bool
is_empty [] = true
is_empty (block ∷ blocks) = false

-- The newest hashes first, and the zero digest if the whole chain fits.
unfoldable pub block_locator : ChainState → ℕ → List Digest
block_locator chain max_hashes =
    let hashes = map hash_of (take max_hashes (reverse chain.blocks)) in
    if max_hashes == 0
    then []
    else if ltb (length hashes) max_hashes && not (is_empty chain.blocks)
    then hashes ++ zero_digest ∷ []
    else hashes

unfoldable pub position : List Digest → Digest → Option ℕ
position [] hash = none
position (candidate ∷ candidates) hash =
    let rest = position candidates hash in
    if candidate == hash then some 0 else Option.map (λ index. index + 1) rest

-- Where the blocks start that one hash of a locator asks for.
abbrev start_after : List Digest → Digest → Option ℕ
start_after chain_hashes hash =
    if hash == zero_digest
    then some 0
    else Option.map (λ index. index + 1) (position chain_hashes hash)

-- `find_map` and `unwrap_or(0)`.
unfoldable pub find_start : List Digest → List Digest → ℕ
find_start chain_hashes [] = 0
find_start chain_hashes (hash ∷ locator) = elim (start_after chain_hashes hash) [
  | none ↦ find_start chain_hashes locator
  | some start ↦ start
]

unfoldable pub blocks_after_locator : ChainState → List Digest → ℕ → List Block
unfolding find_start position
blocks_after_locator chain locator limit =
    take limit (drop (find_start (map hash_of chain.blocks) locator) chain.blocks)

unfoldable pub inventory_after_locator : ChainState → List Digest → ℕ → List Digest
unfolding blocks_after_locator
inventory_after_locator chain locator limit = map hash_of (blocks_after_locator chain locator limit)

unfoldable pub headers_after_locator : ChainState → List Digest → ℕ → List BlockHeader
unfolding blocks_after_locator
headers_after_locator chain locator limit =
    map (λ (b : Block). b.header) (blocks_after_locator chain locator limit)

or_false : (a b : Bool) → (a || b) ≡ false → (a ≡ false) × (b ≡ false)
or_false true b h = absurd (cc)
or_false false b h = (refl, h)

starts_with :
    (more : Bool) (hash : Digest) (hashes : List Digest)
    → (rest : List Digest) × ((if more then hash ∷ hashes ++ zero_digest ∷ [] else hash ∷ hashes)
        ≡ hash ∷ rest)
starts_with true hash hashes = (hashes ++ zero_digest ∷ [], refl)
starts_with false hash hashes = (hashes, refl)

-- A hash that no older block has is found behind the older ones.
pub position_behind :
    (older : List Block) (block : Block) (more : List Block)
    → contains (map hash_of older) (hash_of block) ≡ false
    → position (map hash_of (older ++ block ∷ more)) (hash_of block) ≡ some (length older)
unfolding position
position_behind [] block more h = rw (==_refl (hash_of block)) refl
position_behind (b ∷ bs) block more h =
    let (first, later) = or_false (hash_of block == hash_of b) _ h in
    let next : length bs + 1 ≡ suc (length bs) = omega arith in
    rw (==_comm_false (hash_of block) (hash_of b) first, position_behind bs block more later)
      (ap some next)

drop_behind :
    (older : List Block) (block : Block) (more : List Block)
    → drop (length older + 1) (older ++ block ∷ more) ≡ more
drop_behind [] block more = refl
drop_behind (b ∷ bs) block more =
    let next : suc (length bs) + 1 ≡ suc (length bs + 1) = omega arith in
    ap (λ n. drop n (b ∷ (bs ++ block ∷ more))) next ∙ drop_behind bs block more

-- The locator of a chain starts with the hash of its last block.
pub locator_starts :
    (config : ChainConfig) (older : List Block) (block : Block) (max_hashes : ℕ)
    → (rest : List Digest) × (block_locator
          (record { config = config; blocks = older ++ block ∷ [] })
          (suc max_hashes)
        ≡ hash_of block ∷ rest)
unfolding block_locator
locator_starts config older block max_hashes =
    let newest : reverse (older ++ block ∷ []) ≡ block ∷ reverse older =
      reverse-append older (block ∷ []) in
    let some_hashes : (suc max_hashes == 0) ≡ false = ground (arith, ==_iff (suc max_hashes) 0) in
    rw (newest, some_hashes)
      (starts_with _ (hash_of block) (map hash_of (take max_hashes (reverse older))))

found_first :
    (chain_hashes : List Digest) (hash : Digest) (rest : List Digest) (index : ℕ)
    → (hash == zero_digest) ≡ false
    → position chain_hashes hash ≡ some index
    → find_start chain_hashes (hash ∷ rest) ≡ index + 1
unfolding find_start
found_first chain_hashes hash rest index nonzero place = rw (nonzero, place, find_start)

-- A node whose last block is on the chain of a peer gets the peer's blocks behind it, up to the limit,
-- if that block's hash is not the zero digest and no block before it has the same hash.
pub blocks_after-block_locator :
    (config : ChainConfig) (older : List Block) (block : Block) (more : List Block)
    (max_hashes limit : ℕ)
    → (hash_of block == zero_digest) ≡ false
    → contains (map hash_of older) (hash_of block) ≡ false
    → blocks_after_locator
        (record { config = config; blocks = older ++ block ∷ more })
        (block_locator (record { config = config; blocks = older ++ block ∷ [] }) (suc max_hashes))
        limit
      ≡ take limit more
unfolding blocks_after_locator find_start
blocks_after-block_locator config older block more max_hashes limit nonzero fresh =
    let (rest, starts) = locator_starts config older block max_hashes in
    let place = position_behind older block more fresh in
    let blocks = older ++ block ∷ more in
    ap (λ l. take limit (drop (find_start (map hash_of blocks) l) blocks)) starts
    ∙ ap (λ n. take limit (drop n blocks))
        (found_first (map hash_of blocks) (hash_of block) rest (length older) nonzero place)
    ∙ ap (take limit) (drop_behind older block more)
