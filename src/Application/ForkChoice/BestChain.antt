-- ===== src/Application/ForkChoice/BestChain.antt =====
-- `best_chain`: the walk back from the best tip.
use mathlib.Core.List.{reverse}
use mathlib.Core.Option.{bind}
use chesscoin.Prelude.{ℕ, suc, ◌≤◌, ◌≡◌, refl, Option, some, none, List, [], length, sym}
use mathlib.Core.Path.{subst}
use chesscoin.Domain.Trace.{Block}
use chesscoin.Domain.Digest.{Digest}
use chesscoin.Application.Config.{ChainConfig}
use chesscoin.Ports.{HashPort, SamplingPort}
use chesscoin.Application.Validation.{genesis_context}
use chesscoin.Application.Chain.Valid.{ValidChain}
use chesscoin.Application.ForkChoice.{
  ForkNode, Nodes, ForkChoiceState, get, best_chain, best_height, best_hash, best_model,
  fork_context,
}
use chesscoin.Application.ForkChoice.Tree.{node_context, branch, IsTree}
use chesscoin.Application.ForkChoice.Tip.{HasTip}
use chesscoin.Application.ForkChoice.Insert.{IsForkChoice}

-- The context of the fork choice is that of its tip's node.
pub tip_context :
    (config : ChainConfig) (nodes : Nodes) (tip : Digest) (best : ForkNode)
    → get nodes tip ≡ some best
    → best.hash ≡ tip
    → fork_context (record { config = config; nodes = nodes; best_tip = some tip })
      ≡ node_context best
unfolding best_height best_hash best_model bind
tip_context config nodes tip best at same =
    let s : ForkChoiceState = record { config = config; nodes = nodes; best_tip = some tip } in
    let heights : best_height s ≡ best.next_height = rw (at, best_height) in
    let models : best_model s ≡ best.block.header.model_after = rw (at, best_model) in
    λ i. record { height = heights i; hash = sym same i; model = models i }

module _ (hasher : HashPort) (sampler : SamplingPort) where
  abbrev Ends : ℕ → ForkChoiceState → Type 0
  Ends fuel s =
      (blocks : List Block) × (best_chain fuel s ≡ some blocks)
      × ValidChain s.config hasher sampler genesis_context blocks (fork_context s)

  -- By the tip: the walk is over at once, or collects the branch of the tip's node.
  best_chain_from :
      (fuel : ℕ) (config : ChainConfig) (nodes : Nodes) (tip : Option Digest)
      → IsTree config hasher sampler nodes
      → HasTip nodes tip
      → length nodes ≤ fuel
      → Ends (suc fuel) (record { config = config; nodes = nodes; best_tip = tip })
  unfolding best_chain best_height best_hash best_model bind
  best_chain_from fuel config nodes none tree empty enough = ([], refl, refl)
  best_chain_from fuel config nodes (some tip) tree (best, at, _) enough =
      let b = branch config hasher sampler nodes tip best tree at in
      (
        reverse b.blocks,
        rw (b.walked nodes fuel [] (λ key node stored. stored) enough),
        subst (ValidChain config hasher sampler genesis_context (reverse b.blocks))
            (sym (tip_context config nodes tip best at b.hash_eq)) b.valid,
      )

  -- With one round more than there are nodes the walk ends, and its blocks are valid one after
  -- another, from the genesis to the height, the hash and the model of the best tip.
  pub best_chain-ValidChain :
      (fuel : ℕ) (s : ForkChoiceState)
      → IsForkChoice hasher sampler s
      → length s.nodes ≤ fuel
      → (blocks : List Block) × (best_chain (suc fuel) s ≡ some blocks)
        × ValidChain s.config hasher sampler genesis_context blocks (fork_context s)
  best_chain-ValidChain fuel s h enough =
      best_chain_from fuel s.config s.nodes s.best_tip h.tree h.tip enough
