-- ===== src/Application/ForkChoice/Fresh.antt =====
-- `insert_block` of a block that is not known yet, and the best chain before and after.
use mathlib.Core.List.{reverse, reverse-cons}
use mathlib.Core.Option
use mathlib.Core.Option.{some-injective}
use chesscoin.Prelude.{
  ℕ, suc, ◌≤◌, ◌≡◌, ◌⊎◌, inl, inr, refl, arith, false, Option, some, none, Result-cases, List, [],
  ◌∷◌, ◌++◌, length, ◌==◌, if◌then◌else◌, ◌∙◌, ap, sym, ok, err,
}
use chesscoin.Domain.Digest.{Digest, digest_eq, zero_digest}
use chesscoin.Domain.Trace.{Block}
use chesscoin.Ports.{HashPort, SamplingPort}
use chesscoin.Application.Config.{ChainConfig}
use chesscoin.Application.Validation.{block_hash, validate_block_after}
use chesscoin.Application.Validation.Valid.{validate_block_after_iff}
use chesscoin.Application.ForkChoice.{
  ForkNode, Nodes, ForkChoiceState, ForkChoiceError, get, contains_key, insert, find_parent,
  new_node, insert_block, insert_after, invalid_block, maybe_update_best, best_chain, walk,
}
use chesscoin.Application.ForkChoice.Tree.{
  IsTree, Branch, branch, Extends, get_newest, get_older, walk_node,
}
use chesscoin.Application.ForkChoice.Tip.{HasTip}
use chesscoin.Application.ForkChoice.Insert.{
  IsForkChoice, absent, maybe_update_best-nodes, stored_nodes, stored_branch,
}

module _ (hasher : HashPort) (sampler : SamplingPort) where
  -- The state that has the block's node besides the old ones.
  pub record Stored (s s' : ForkChoiceState) (b : Block) : Type 0 where
    pub node : ForkNode
    pub block_eq : node.block ≡ b
    pub parent_eq : node.parent ≡ b.header.previous_block
    pub fresh : get s.nodes (block_hash hasher b) ≡ none
    pub nodes_eq : s'.nodes ≡ (block_hash hasher b, node) ∷ s.nodes
    pub config_eq : s'.config ≡ s.config
    pub tip_cases : (s'.best_tip ≡ s.best_tip) ⊎ (s'.best_tip ≡ some (block_hash hasher b))
    pub after : IsForkChoice hasher sampler s'

  tip_after :
      (key : Digest) (s : ForkChoiceState)
      → ((maybe_update_best key s).best_tip ≡ s.best_tip)
        ⊎ ((maybe_update_best key s).best_tip ≡ some key)
  unfolding maybe_update_best
  tip_after key s = ground arith

  abbrev Stores : ForkChoiceState → Block → Type 0
  Stores s b =
      ((insert_block hasher sampler s b).1 ≡ ok (block_hash hasher b))
      × Stored s (insert_block hasher sampler s b).0 b

  -- An unknown block is stored, or refused and nothing changes.
  pub insert_block_fresh :
      (s : ForkChoiceState) (b : Block)
      → IsForkChoice hasher sampler s
      → contains_key s.nodes (block_hash hasher b) ≡ false
      → Stores s b ⊎ ((e : ForkChoiceError) × (insert_block hasher sampler s b ≡ (s, err e)))
  unfolding insert_block new_node
  insert_block_fresh s b h unknown =
      elim (Result-cases (find_parent s.nodes b.header.previous_block)) [
        | inr (e, orphan) ↦ rw (unknown, orphan, insert_block) (inr (e, refl))
        | inl ((context, score), found) ↦
            elim (Result-cases (validate_block_after s.config hasher sampler context b)) [
              | inr (e, invalid) ↦
                  rw (unknown, found, invalid, insert_block, insert_after)
                    (inr (invalid_block e, refl))
              | inl (u, valid) ↦
                  let hash = block_hash hasher b in
                  let node = new_node s.config hash score b in
                  let fresh = absent hasher sampler s.nodes hash unknown in
                  rw (unknown, found, valid, insert_block, insert_after)
                    (inl (
                      refl,
                      record {
                        node = node;
                        block_eq = refl;
                        parent_eq = refl;
                        fresh = fresh;
                        nodes_eq = stored_nodes hasher sampler s hash node fresh;
                        config_eq =
                            (maybe_update_best-nodes hasher sampler hash
                              (record s { nodes = insert s.nodes hash node })).1;
                        tip_cases = tip_after hash (record s { nodes = insert s.nodes hash node });
                        after =
                            stored_branch hasher sampler s b context score h fresh found (
                              (validate_block_after_iff s.config hasher sampler context b).0 valid);
                      },
                    ))
            ]
      ]

module _ (config : ChainConfig) (hasher : HashPort) (sampler : SamplingPort) where
  -- The best chain is the branch of the tip, whatever nodes there are besides.
  best_chain_tip :
      (nodes older : Nodes) (fuel : ℕ) (tip : Digest) (best : ForkNode)
      (b : Branch config hasher sampler older tip best)
      → Extends nodes older
      → length older ≤ fuel
      → best_chain (suc fuel) (record { config = config; nodes = nodes; best_tip = some tip })
        ≡ some (reverse b.blocks)
  unfolding best_chain
  best_chain_tip nodes older fuel tip best b extends enough =
      rw (b.walked nodes fuel [] extends enough) refl

  -- While the tip stays, a new node does not change the best chain.
  kept_tip :
      (older : Nodes) (key : Digest) (node : ForkNode) (tip : Option Digest)
      → IsTree config hasher sampler older
      → HasTip older tip
      → get older key ≡ none
      → best_chain
          (suc (suc (length older)))
          (record { config = config; nodes = (key, node) ∷ older; best_tip = tip })
        ≡ best_chain
            (suc (length older))
            (record { config = config; nodes = older; best_tip = tip })
  unfolding best_chain walk
  kept_tip older key node none tree empty fresh = refl
  kept_tip older key node (some tip) tree (best, at, _) fresh =
      let b = branch config hasher sampler older tip best tree at in
      best_chain_tip ((key, node) ∷ older) older (suc (length older)) tip best b
        (λ k n found. get_older key k node n older fresh found) (omega arith)
      ∙ sym
          (best_chain_tip older older (length older) tip best b (λ k n found. found) (omega arith))

  -- When the new node becomes the tip and its parent was the tip, the best chain gets its block.
  grown_tip :
      (older : Nodes) (key tip : Digest) (node best : ForkNode) (blocks : List Block)
      → IsTree config hasher sampler older
      → get older tip ≡ some best
      → get older key ≡ none
      → node.parent ≡ tip
      → (tip == zero_digest) ≡ false
      → best_chain
          (suc (length older))
          (record { config = config; nodes = older; best_tip = some tip })
        ≡ some blocks
      → best_chain
          (suc (suc (length older)))
          (record { config = config; nodes = (key, node) ∷ older; best_tip = some key })
        ≡ some (blocks ++ node.block ∷ [])
  unfolding best_chain
  grown_tip older key tip node best blocks tree at fresh parent child old =
      let b = branch config hasher sampler older tip best tree at in
      let nodes : Nodes = (key, node) ∷ older in
      let same : reverse b.blocks ≡ blocks = some-injective _ _ (
        sym
          (best_chain_tip older older (length older) tip best b (λ k n found. found) (omega arith))
        ∙ old) in
      let next : (if node.parent == zero_digest then none else some node.parent) ≡ some tip =
        ground (arith, parent, child) in
      let steps : walk nodes (suc (suc (length older))) (some key) []
          ≡ some (node.block ∷ b.blocks) =
        walk_node nodes (suc (length older)) key node [] (get_newest key node older)
        ∙ ap (λ c. walk nodes (suc (length older)) c (node.block ∷ [])) next
        ∙ b.walked nodes (length older) (node.block ∷ [])
            (λ k n found. get_older key k node n older fresh found) (omega arith) in
      ap (Option.map reverse) steps
      ∙ ap some (reverse-cons node.block b.blocks ∙ ap (λ bs. bs ++ node.block ∷ []) same)

module _ (hasher : HashPort) (sampler : SamplingPort) (s s' : ForkChoiceState) (b : Block)
    (h : IsForkChoice hasher sampler s) (stored : Stored hasher sampler s s' b) where
  -- A block that does not become the tip leaves the best chain as it is.
  pub best_chain_kept :
      s'.best_tip ≡ s.best_tip
      → best_chain (suc (length s'.nodes)) s' ≡ best_chain (suc (length s.nodes)) s
  unfolding best_chain
  best_chain_kept same =
      rw (stored.nodes_eq, same)
        (kept_tip s.config hasher sampler s.nodes (block_hash hasher b) stored.node s.best_tip
          h.tree h.tip stored.fresh)

  -- A block that becomes the tip after the old one is added to the best chain.
  pub best_chain_grown :
      (tip : Digest) (blocks : List Block)
      → s.best_tip ≡ some tip
      → s'.best_tip ≡ some (block_hash hasher b)
      → b.header.previous_block ≡ tip
      → (tip == zero_digest) ≡ false
      → best_chain (suc (length s.nodes)) s ≡ some blocks
      → best_chain (suc (length s'.nodes)) s' ≡ some (blocks ++ b ∷ [])
  unfolding best_chain
  best_chain_grown tip blocks old_tip new_tip parent child old =
      let (best, at, _) = rw old_tip at h.tip in
      rw (stored.nodes_eq, new_tip)
        (grown_tip s.config hasher sampler s.nodes (block_hash hasher b) tip stored.node best blocks
            h.tree at stored.fresh (stored.parent_eq ∙ parent) child (rw old_tip at old)
          ∙ ap (λ x. some (blocks ++ x ∷ [])) stored.block_eq)
