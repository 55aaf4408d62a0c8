-- ===== src/Application/ForkChoice/Insert.antt =====
-- `insert_block` on every branch, and the invariant of the fork choice.
use mathlib.Core.Path.{subst, subst₂}
use chesscoin.Prelude.{
  ℕ, ◌≡◌, refl, true, false, Bool-cases, some, none, ◌∷◌, arith, ◌∙◌, sym, ap, inl, inr, ◌⊎◌, ok,
  err, Result-cases,
}
use chesscoin.Domain.Digest.{Digest}
use chesscoin.Domain.Trace.{Block}
use chesscoin.Ports.{HashPort, SamplingPort}
use chesscoin.Application.Config.{ChainConfig}
use chesscoin.Application.Validation.{ParentContext, block_hash, validate_block_after}
use chesscoin.Application.Validation.Valid.{IsValidBlock, validate_block_after_iff}
use chesscoin.Application.ForkChoice.{
  ForkNode, Nodes, ForkChoiceState, new, get, contains_key, insert, find_parent, new_node,
  maybe_update_best, insert_block, insert_after, contains_block, invalid_block, ForkChoiceError,
}
use chesscoin.Application.ForkChoice.Tree.{IsTree, remove_absent, get_newest, get_older}
use chesscoin.Application.ForkChoice.Tip.{HasTip, maybe_update_best-HasTip}

module _ (hasher : HashPort) (sampler : SamplingPort) where
  -- The stored blocks form a tree, and the tip is a best one.
  pub record IsForkChoice (s : ForkChoiceState) : Type 0 where
    pub tree : IsTree s.config hasher sampler s.nodes
    pub tip : HasTip s.nodes s.best_tip

  pub new-IsForkChoice : (config : ChainConfig) → IsForkChoice (new config)
  new-IsForkChoice config = record { tree = tt; tip = refl }

  pub absent :
      (nodes : Nodes) (key : Digest) → contains_key nodes key ≡ false → get nodes key ≡ none
  absent nodes key h = ground arith

  pub maybe_update_best-nodes :
      (key : Digest) (s : ForkChoiceState)
      → ((maybe_update_best key s).nodes ≡ s.nodes) × ((maybe_update_best key s).config ≡ s.config)
  unfolding maybe_update_best
  maybe_update_best-nodes key s = ground arith

  pub stored_nodes :
      (s : ForkChoiceState) (hash : Digest) (node : ForkNode)
      → get s.nodes hash ≡ none
      → (maybe_update_best hash (record s { nodes = insert s.nodes hash node })).nodes
        ≡ (hash, node) ∷ s.nodes
  unfolding insert
  stored_nodes s hash node fresh =
      (maybe_update_best-nodes hash _).0
      ∙ ap (λ ns. (hash, node) ∷ ns) (remove_absent s.nodes hash fresh)

  -- The branch that stores the block: its parent is known and it is valid after it.
  pub stored_branch :
      (s : ForkChoiceState) (block : Block) (context : ParentContext) (score : ℕ)
      → IsForkChoice s
      → get s.nodes (block_hash hasher block) ≡ none
      → find_parent s.nodes block.header.previous_block ≡ ok (context, score)
      → IsValidBlock s.config hasher sampler context block
      → let hash = block_hash hasher block in
        IsForkChoice (
          maybe_update_best hash
            (record s { nodes = insert s.nodes hash (new_node s.config hash score block) }))
  unfolding insert new_node
  stored_branch s block context score h fresh found valid =
      let hash = block_hash hasher block in
      let node = new_node s.config hash score block in
      let s' : ForkChoiceState = record s { nodes = (hash, node) ∷ s.nodes } in
      let (nodes_eq, config_eq) = maybe_update_best-nodes hash s' in
      rw (remove_absent s.nodes hash fresh) (record {
        tree =
            subst₂ (λ config nodes. IsTree config hasher sampler nodes) (sym config_eq)
              (sym nodes_eq)
              (
                record {
                  parent_context = context;
                  parent_score = score;
                  key_eq = refl;
                  node_eq = refl;
                  fresh = fresh;
                  found = found;
                  valid = valid;
                },
                h.tree,
              );
        tip =
            subst (λ nodes. HasTip nodes (maybe_update_best hash s').best_tip) (sym nodes_eq)
              (maybe_update_best-HasTip s.nodes hash node fresh s.config s.best_tip h.tip);
      })

  -- Inserting a block, whatever its result, keeps the tree and its best tip.
  pub insert_block-IsForkChoice :
      (s : ForkChoiceState) (block : Block)
      → IsForkChoice s
      → IsForkChoice (insert_block hasher sampler s block).0
  unfolding insert_block
  insert_block-IsForkChoice s block h =
      let hash = block_hash hasher block in
      elim (Bool-cases (contains_key s.nodes hash)) [
        | inl known ↦ rw (known, insert_block) h
        | inr new_block ↦ elim (Result-cases (find_parent s.nodes block.header.previous_block)) [
          | inr (e, orphan) ↦ rw (new_block, orphan, insert_block) h
          | inl ((context, score), found) ↦
              elim (Result-cases (validate_block_after s.config hasher sampler context block)) [
                | inr (e, invalid) ↦ rw (new_block, found, invalid, insert_block, insert_after) h
                | inl (u, valid) ↦
                    rw (new_block, found, valid, insert_block, insert_after)
                      (stored_branch s block context score h (absent s.nodes hash new_block) found
                        ((validate_block_after_iff s.config hasher sampler context block).0 valid))
              ]
        ]
      ]

  -- An insertion either returns the block's hash, stores it, and keeps every stored node, or returns
  -- an error and changes nothing.
  pub insert_block_result :
      (s : ForkChoiceState) (block : Block)
      → (((insert_block hasher sampler s block).1 ≡ ok (block_hash hasher block))
          × (contains_block (insert_block hasher sampler s block).0 (block_hash hasher block)
              ≡ true)
          × ((key : Digest) (node : ForkNode)
              → get s.nodes key ≡ some node
              → get (insert_block hasher sampler s block).0.nodes key ≡ some node))
        ⊎ ((e : ForkChoiceError) × (insert_block hasher sampler s block ≡ (s, err e)))
  unfolding insert_block contains_block
  insert_block_result s block =
      let hash = block_hash hasher block in
      elim (Bool-cases (contains_key s.nodes hash)) [
        | inl known ↦ rw (known, insert_block) (inl (refl, known, λ key node at. at))
        | inr new_block ↦ elim (Result-cases (find_parent s.nodes block.header.previous_block)) [
          | inr (e, orphan) ↦ rw (new_block, orphan, insert_block) (inr (e, refl))
          | inl ((context, score), found) ↦
              elim (Result-cases (validate_block_after s.config hasher sampler context block)) [
                | inr (e, invalid) ↦
                    rw (new_block, found, invalid, insert_block, insert_after)
                      (inr (invalid_block e, refl))
                | inl (u, valid) ↦
                    rw (new_block, found, valid, insert_block, insert_after)
                      (inl (
                        refl,
                        rw (
                          stored_nodes s hash (new_node s.config hash score block)
                              (absent s.nodes hash new_block),
                          get_newest hash (new_node s.config hash score block) s.nodes,
                        ),
                        λ key node at.
                            rw
                              (stored_nodes s hash (new_node s.config hash score block)
                                (absent s.nodes hash new_block))
                              (get_older hash key (new_node s.config hash score block) node s.nodes
                                (absent s.nodes hash new_block) at),
                      ))
              ]
        ]
      ]
