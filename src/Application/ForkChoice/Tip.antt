-- ===== src/Application/ForkChoice/Tip.antt =====
-- The best tip, and `maybe_update_best`.
use mathlib.Core.Option.{bind}
use chesscoin.Prelude.{
  ◌≡◌, refl, true, false, Bool-cases, Option, some, none, [], ◌∷◌, arith, inl, inr, if◌then◌else◌,
}
use chesscoin.Domain.Digest.{Digest}
use chesscoin.Application.Config.{ChainConfig}
use chesscoin.Application.ForkChoice.{
  ForkNode, Nodes, ForkChoiceState, get, is_better_tip, should_update, best_node, maybe_update_best,
}
use chesscoin.Application.ForkChoice.Tree.{get_newest, get_older, get_cons_cases}
use chesscoin.Application.ForkChoice.Order.{is_better_tip_irrefl, is_better_tip_trans}

abbrev pub IsBest : Nodes → ForkNode → Type 0
IsBest nodes best =
    (key : Digest) (node : ForkNode) → get nodes key ≡ some node → is_better_tip node best ≡ false

-- There is a tip as soon as there is a node; it is stored, and no stored node is better.
abbrev pub HasTip : Nodes → Option Digest → Type 0
HasTip nodes none = nodes ≡ []
HasTip nodes (some tip) = (best : ForkNode) × (get nodes tip ≡ some best) × IsBest nodes best

update_tip :
    (s : ForkChoiceState) (key : Digest) (node : ForkNode) (best : Option ForkNode)
    → get s.nodes key ≡ some node
    → best_node s ≡ best
    → (maybe_update_best key s).best_tip
      ≡ (if should_update node best then some key else s.best_tip)
unfolding maybe_update_best
update_tip s key node best at found = ground (arith, at, found)

no_node : (key : Digest) (node : ForkNode) → get [] key ≡ some node → ⊥
unfolding get
no_node key node at = ground arith

module _ (older : Nodes) (key : Digest) (node : ForkNode) (fresh : get older key ≡ none) where
  abbrev newer : Nodes
  newer = (key, node) ∷ older

  -- The new node is best if it is not worse than the old best.
  new-IsBest :
      (best : ForkNode) → IsBest older best → is_better_tip node best ≡ true → IsBest newer node
  new-IsBest best old better k m at = elim (get_cons_cases key k node m older at) [
    | inl (_, same) ↦ rw (← same) (is_better_tip_irrefl node)
    | inr stored ↦ elim (Bool-cases (is_better_tip m node)) [
      | inl above ↦ absurd (cc (old k m stored, is_better_tip_trans m node best above better))
      | inr not_above ↦ not_above
    ]
  ]

  old-IsBest :
      (best : ForkNode) → IsBest older best → is_better_tip node best ≡ false → IsBest newer best
  old-IsBest best old worse k m at = elim (get_cons_cases key k node m older at) [
    | inl (_, same) ↦ rw (← same) worse
    | inr stored ↦ old k m stored
  ]

  only-IsBest : older ≡ [] → IsBest newer node
  only-IsBest empty k m at = elim (get_cons_cases key k node m older at) [
    | inl (_, same) ↦ rw (← same) (is_better_tip_irrefl node)
    | inr stored ↦ absurd (no_node k m (rw empty at stored))
  ]

  abbrev pub stored_state : ChainConfig → Option Digest → ForkChoiceState
  stored_state config tip = record { config = config; nodes = newer; best_tip = tip }

  -- After a node is stored under a fresh key, the update finds the best tip again.
  pub maybe_update_best-HasTip :
      (config : ChainConfig) (tip : Option Digest)
      → HasTip older tip
      → HasTip newer (maybe_update_best key (stored_state config tip)).best_tip
  unfolding should_update bind
  maybe_update_best-HasTip config none empty =
      rw (update_tip (stored_state config none) key node none (get_newest key node older) refl)
        (node, get_newest key node older, only-IsBest empty)
  maybe_update_best-HasTip config (some k) (best, at, old) =
      let kept = get_older key k node best older fresh at in
      elim (Bool-cases (is_better_tip node best)) [
        | inl better ↦
            rw
              (
                update_tip (stored_state config (some k)) key node (some best)
                    (get_newest key node older) kept,
                better,
              )
              (node, get_newest key node older, new-IsBest best old better)
        | inr worse ↦
            rw
              (
                update_tip (stored_state config (some k)) key node (some best)
                    (get_newest key node older) kept,
                worse,
              )
              (best, kept, old-IsBest best old worse)
      ]
