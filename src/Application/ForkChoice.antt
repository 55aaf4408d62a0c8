-- ===== src/Application/ForkChoice.antt =====
-- `ForkChoiceState` of crates/chesscoin-core/src/application.rs: the block tree and its best tip.
pub mod Tree
pub mod Order
pub mod Tip
pub mod Insert
pub mod BestChain
pub mod Mined
pub mod Fresh
use Prim.Native.Nat.{compare, Ordering}
use chesscoin.Prelude.{
  ℕ, zero, suc, ◌+◌, ◌%◌, ◌^◌, Bool, true, false, Option, none, some, List, [], ◌∷◌, ◌++◌, length,
  min, if◌then◌else◌, ◌==◌, nat_eq, Result, ok, err,
}
use mathlib.Core.List.{reverse}
use mathlib.Core.Option
use chesscoin.Prelude.Words.{wrapping_add}
use chesscoin.Domain.Digest.{Digest, zero_digest, digest_eq}
use chesscoin.Domain.Model.{ModelState, genesis}
use chesscoin.Domain.Trace.{Block}
use chesscoin.Ports.{HashPort, SamplingPort}
use chesscoin.Application.Config.{ChainConfig}
use chesscoin.Application.Validation.{
  BlockValidationError, ParentContext, genesis_context, block_hash, validate_block_after,
}
use chesscoin.Application.Chain.{mine_on}

pub record ForkNode : Type 0 where
  pub hash : Digest
  pub parent : Digest
  pub block : Block
  pub next_height : ℕ
  pub work_score : ℕ

pub data ForkChoiceError : Type 0 where
  unknown_parent : Digest → ForkChoiceError
  invalid_block : BlockValidationError → ForkChoiceError

-- `HashMap<Digest, ForkNode>` as an association list. The source never iterates over it.
abbrev pub Nodes : Type 0
Nodes = List (Digest × ForkNode)

unfoldable pub get : Nodes → Digest → Option ForkNode
get [] key = none
get ((k, node) ∷ nodes) key = if k == key then some node else get nodes key

abbrev is_some : Option ForkNode → Bool
is_some none = false
is_some (some node) = true

abbrev pub contains_key : Nodes → Digest → Bool
contains_key nodes key = is_some (get nodes key)

pub remove : Nodes → Digest → Nodes
remove [] key = []
remove ((k, node) ∷ nodes) key =
    let rest = remove nodes key in if k == key then rest else (k, node) ∷ rest

-- `insert` replaces what the key had.
unfoldable pub insert : Nodes → Digest → ForkNode → Nodes
unfolding remove
insert nodes key node = (key, node) ∷ remove nodes key

pub record ForkChoiceState : Type 0 where
  pub config : ChainConfig
  pub nodes : Nodes
  pub best_tip : Option Digest

abbrev pub new : ChainConfig → ForkChoiceState
new config = record { config = config; nodes = []; best_tip = none }

-- `best_tip.and_then(|hash| nodes.get(&hash))`.
abbrev pub best_node : ForkChoiceState → Option ForkNode
best_node s = Option.bind s.best_tip (get s.nodes)

unfoldable pub best_height : ForkChoiceState → ℕ
best_height s = elim (best_node s) [ none ↦ 0 | some node ↦ node.next_height ]

unfoldable pub best_hash : ForkChoiceState → Digest
best_hash s = elim s.best_tip [ none ↦ zero_digest | some hash ↦ hash ]

unfoldable pub best_model : ForkChoiceState → ModelState
best_model s = elim (best_node s) [ none ↦ genesis | some node ↦ node.block.header.model_after ]

unfoldable pub contains_block : ForkChoiceState → Digest → Bool
contains_block s hash = contains_key s.nodes hash

-- `known_block_count`.
unfoldable pub known_block_count : ForkChoiceState → ℕ
known_block_count s = length s.nodes

-- The `while` loop of `best_chain` on fuel; `none` is a walk that has not ended yet.
unfoldable pub walk : Nodes → ℕ → Option Digest → List Block → Option (List Block)
walk nodes zero cursor chain = none
walk nodes (suc fuel) none chain = some chain
walk nodes (suc fuel) (some hash) chain = elim (get nodes hash) [
  | none ↦ some chain
  | some node ↦
      walk nodes fuel (if node.parent == zero_digest then none else some node.parent)
        (chain ++ node.block ∷ [])
]

unfoldable pub best_chain : ℕ → ForkChoiceState → Option (List Block)
unfolding walk
best_chain fuel s = Option.map reverse (walk s.nodes fuel s.best_tip [])

-- `1_u128 << difficulty_zero_bits.min(120)`.
unfoldable pub configured_block_work_score : ℕ → ℕ
configured_block_work_score difficulty_zero_bits = 2 ^ min difficulty_zero_bits 120

-- `cmp` of byte arrays is lexicographic.
unfoldable pub compare_bytes : List ℕ → List ℕ → Ordering
compare_bytes [] [] = Ordering.eq
compare_bytes [] (b ∷ bs) = Ordering.lt
compare_bytes (a ∷ as') [] = Ordering.gt
compare_bytes (a ∷ as') (b ∷ bs) =
    let rest = compare_bytes as' bs in
    elim (compare a b) [
      | Ordering.lt ↦ Ordering.lt
      | Ordering.eq ↦ rest
      | Ordering.gt ↦ Ordering.gt
    ]

abbrev then_with : Ordering → Ordering → Ordering
then_with Ordering.lt next = Ordering.lt
then_with Ordering.eq next = next
then_with Ordering.gt next = Ordering.gt

unfoldable pub compare_nodes : ForkNode → ForkNode → Ordering
unfolding compare_bytes
compare_nodes candidate best =
    then_with
      (then_with (compare candidate.work_score best.work_score)
        (compare candidate.next_height best.next_height))
      (compare_bytes candidate.hash.bytes best.hash.bytes)

abbrev pub is_better_tip : ForkNode → ForkNode → Bool
is_better_tip candidate best = elim (compare_nodes candidate best) [
  | Ordering.gt ↦ true
  | _ ↦ false
]

should_update : ForkNode → Option ForkNode → Bool
should_update candidate none = true
should_update candidate (some best) = is_better_tip candidate best

unfoldable pub maybe_update_best : Digest → ForkChoiceState → ForkChoiceState
unfolding should_update
maybe_update_best candidate_hash s = elim (get s.nodes candidate_hash) [
  | none ↦ s
  | some candidate ↦
      if should_update candidate (best_node s)
      then record s { best_tip = some candidate_hash }
      else s
]

-- The context of the parent and its work, or that of the genesis.
unfoldable pub find_parent : Nodes → Digest → Result (ParentContext × ℕ) ForkChoiceError
find_parent nodes previous_block =
    if previous_block == zero_digest
    then ok (genesis_context, 0)
    else elim (get nodes previous_block) [
      | none ↦ err (unknown_parent previous_block)
      | some parent ↦ ok (
        record {
          height = parent.next_height;
          hash = parent.hash;
          model = parent.block.header.model_after;
        },
        parent.work_score,
      )
    ]

-- The release build's u64 and u128 sums wrap.
unfoldable pub new_node : ChainConfig → Digest → ℕ → Block → ForkNode
new_node config hash parent_score block = record {
  hash = hash;
  parent = block.header.previous_block;
  block = block;
  next_height = wrapping_add block.header.height 1;
  work_score = (parent_score + configured_block_work_score config.difficulty_zero_bits) % 2 ^ 128;
}

module _ (hasher : HashPort) (sampler : SamplingPort) where
  insert_after :
      ForkChoiceState → Block → ParentContext → ℕ → ForkChoiceState × Result Digest ForkChoiceError
  insert_after s block parent_context parent_score =
      let hash = block_hash hasher block in
      elim (validate_block_after s.config hasher sampler parent_context block) [
        | err e ↦ (s, err (invalid_block e))
        | ok _ ↦ (
          maybe_update_best hash (record s {
            nodes = insert s.nodes hash (new_node s.config hash parent_score block);
          }),
          ok hash,
        )
      ]

  -- The new state and the result.
  unfoldable pub insert_block :
      ForkChoiceState → Block → ForkChoiceState × Result Digest ForkChoiceError
  unfolding insert_after
  insert_block s block =
      let hash = block_hash hasher block in
      if contains_key s.nodes hash
      then (s, ok hash)
      else elim (find_parent s.nodes block.header.previous_block) [
        | err e ↦ (s, err e)
        | ok (parent_context, parent_score) ↦ insert_after s block parent_context parent_score
      ]

-- Mining on the best tip; the loop is that of `ChainState`.
abbrev pub fork_context : ForkChoiceState → ParentContext
fork_context s = record { height = best_height s; hash = best_hash s; model = best_model s }

unfoldable pub mine_next_block : HashPort → ℕ → ForkChoiceState → ℕ → ℕ → Option Block
mine_next_block hasher fuel s training_seed sampling_entropy =
    mine_on hasher fuel s.config (fork_context s) training_seed sampling_entropy
