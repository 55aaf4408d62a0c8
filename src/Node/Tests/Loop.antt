-- ===== src/Node/Tests/Loop.antt =====
-- The loop of a node with one peer, which is told to stop in the first of two turns.
use chesscoin.Prelude.{
  ◌≡◌, Bool, true, false, ◌&&◌, leb, Option, some, none, List, [], ◌∷◌, ◌∙◌, ap,
}
use chesscoin.Node.Config.{MinerConfig, default_miner, default_sync}
use chesscoin.Node.Steps.{IsNode}
use chesscoin.Node.Loop.{
  LoopState, LoopResult, Surroundings, Turn, mine_once, add_peer, stop_mining, stop, running,
  still_searching, dead, handle_command, handle_commands, loop_turn, mine_if_due, node_loop,
}
use chesscoin.Node.Loop.Turns.{taken, PermitsTurns, node_loop_result}
use chesscoin.Node.Tests.Blocks.{no_sampler, no_address}
use chesscoin.Node.Tests.Peers.{host}
use chesscoin.Node.Tests.Steps.{no_text, linked, linked-IsNode, outside, silent}

abbrev around : Surroundings
around = record { now = 0; seed = 0; waiting = 1; outside = outside; replies = silent; fuel = 1 }

abbrev mining : LoopState
mining = record {
  node = linked;
  miner = some default_miner;
  sync = default_sync;
  next_mine_at = 0;
  next_sync_at = 1;
  stopped = false;
}

abbrev two_turns : List Turn
two_turns =
    record { around = around; commands = stop_mining ∷ add_peer (host 3) ∷ stop ∷ [] }
    ∷ record { around = around; commands = mine_once 42 7 ∷ [] }
    ∷ []

abbrev state_of : LoopResult → LoopState
state_of (running l) = l
state_of still_searching = mining
state_of dead = mining

abbrev mined_by : Option MinerConfig → Bool
mined_by none = false
mined_by (some config) = true

abbrev is_due : LoopState → Bool
is_due l = l.sync.enabled && leb l.next_sync_at around.now

two_turns_permitted : PermitsTurns no_sampler no_text no_address two_turns mining
unfolding loop_turn handle_commands handle_command
two_turns_permitted going = (
  (
    (tt, λ _ _. (tt, λ _ _. (tt, λ _ _. tt))),
    λ l₁ heard. (
      λ config set due. absurd (cc (ap (λ r. mined_by (state_of r).miner) heard, set)),
      λ l₂ mined due. absurd (
          cc (
            ap (λ r. is_due (state_of r))
                (ap
                    (λ r.
                      mine_if_due no_sampler no_text no_address around (state_of r)
                        (state_of r).miner)
                    heard
                  ∙ mined),
            due,
          )),
    ),
  ),
  λ l' ran going'. absurd (cc (ap (λ r. (state_of r).stopped) ran, going')),
)

node_loop_result_example :
    (l : LoopState) × (node_loop no_sampler no_text no_address two_turns mining ≡ running l)
    × (node_loop no_sampler no_text no_address (taken false two_turns) mining ≡ running l)
    × (l.stopped ≡ true)
    × (l.miner ≡ none)
    × IsNode no_sampler l.node
node_loop_result_example =
    node_loop_result no_sampler no_text no_address two_turns mining (λ n k root entropy. tt)
      two_turns_permitted linked-IsNode
