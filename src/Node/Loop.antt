-- ===== src/Node/Loop.antt =====
-- `node_loop` of crates/chesscoin-node/src/runtime.rs. The clock, which is read once for a turn, the
-- connections that wait and the command channel come in as arguments. A turn hears the commands that
-- are in the channel; the handlers of connections are threads of their own.
pub mod Commands
pub mod Turns
use chesscoin.Prelude.{
  ℕ, zero, suc, ◌+◌, Bool, true, false, ◌&&◌, Option, none, some, List, [], ◌∷◌, Bytes, Result, ok,
  err, if◌then◌else◌, leb,
}
use chesscoin.Prelude.Words.{rotate_left}
use chesscoin.Ports.{SamplingPort}
use chesscoin.Domain.Trace.{Block}
use chesscoin.Node.Address.{SocketAddr}
use chesscoin.Node.Config.{MinerConfig, SyncConfig, Checked, validate_miner_config}
use chesscoin.Node.State.{NodeState}
use chesscoin.Node.Peers
use chesscoin.Node.Serve.{count_malformed}
use chesscoin.Node.Chains.{Mined, searching, panicked, mined}
use chesscoin.Node.Dispatch.{Outside, accept_connection, announce_to_peer_and_count, mine_and_tell}
use chesscoin.Node.Exchange.{PeerReplies}
use chesscoin.Node.Exchange

pub data NodeCommand : Type 0 where
  mine_once : (training_seed sampling_entropy : ℕ) → NodeCommand
  add_peer : SocketAddr → NodeCommand
  start_mining : MinerConfig → NodeCommand
  stop_mining sync_once stop : NodeCommand

-- What the loop keeps, with the time of the next block and of the next round of synchronisation.
pub record LoopState : Type 0 where
  pub node : NodeState
  pub miner : Option MinerConfig
  pub sync : SyncConfig
  pub next_mine_at : ℕ
  pub next_sync_at : ℕ
  pub stopped : Bool

-- What surrounds a turn: the time, and the seed by the time, how many connections wait, the disk and
-- the peers, what they reply, and how many nonces are tried.
pub record Surroundings : Type 0 where
  pub now : ℕ
  pub seed : ℕ
  pub waiting : ℕ
  pub outside : Outside
  pub replies : SocketAddr → PeerReplies
  pub fuel : ℕ

pub record Turn : Type 0 where
  pub around : Surroundings
  pub commands : List NodeCommand

-- The loop has a state, has not found a nonce yet, or has panicked.
pub data LoopResult : Type 0 where
  running : LoopState → LoopResult
  still_searching dead : LoopResult

-- The connections that wait, one after the other.
unfoldable pub accept_ready_connections : ℕ → NodeState → NodeState
accept_ready_connections zero s = s
accept_ready_connections (suc n) s = accept_ready_connections n (accept_connection s).0

abbrev pub with_node : LoopState → NodeState → LoopState
with_node l s = record l { node = s }

abbrev pub after_mining : LoopState → Mined → LoopResult
after_mining l searching = still_searching
after_mining l panicked = dead
after_mining l (mined s b) = running (with_node l s)

abbrev pub after_add_peer : Surroundings → SocketAddr → NodeState × Bool → NodeState
after_add_peer around peer (s, true) = announce_to_peer_and_count around.outside.reaches s peer
after_add_peer around peer (s, false) = s

-- `start_mining` with a miner that was checked.
abbrev pub checked_miner : Surroundings → LoopState → MinerConfig → Checked → LoopState
checked_miner around l config (ok _) = record l { miner = some config; next_mine_at = around.now }
checked_miner around l config (err e) = with_node l (count_malformed l.node)

abbrev pub and_then : LoopResult → (LoopState → LoopResult) → LoopResult
and_then (running l) rest = rest l
and_then still_searching rest = still_searching
and_then dead rest = dead

module _ (sampler : SamplingPort) (addr_text : SocketAddr → Bytes)
    (parse_addr : Bytes → Option SocketAddr) where
  abbrev pub sync_now : Surroundings → LoopState → LoopState
  sync_now around l = record l {
    node = Exchange.sync_once sampler parse_addr around.replies l.node;
    next_sync_at = around.now + l.sync.interval;
  }

  unfoldable pub handle_command : Surroundings → LoopState → NodeCommand → LoopResult
  handle_command around l (mine_once training_seed sampling_entropy) = after_mining l (
      mine_and_tell sampler addr_text parse_addr around.outside around.fuel l.node training_seed
        sampling_entropy)
  handle_command around l (add_peer peer) =
      running (with_node l (after_add_peer around peer (Peers.add_peer l.node peer)))
  handle_command around l (start_mining config) =
      running (checked_miner around l config (validate_miner_config config))
  handle_command around l stop_mining = running (record l { miner = none })
  handle_command around l sync_once = running (sync_now around l)
  handle_command around l stop = running (record l { stopped = true })

  unfoldable pub handle_commands : Surroundings → LoopState → List NodeCommand → LoopResult
  unfolding handle_command
  handle_commands around l [] = running l
  handle_commands around l (command ∷ commands) =
      and_then (handle_command around l command) (λ l'. handle_commands around l' commands)

  -- The blocks that a miner mines by the clock: the time is the seed.
  abbrev pub mine_if_due : Surroundings → LoopState → Option MinerConfig → LoopResult
  mine_if_due around l none = running l
  mine_if_due around l (some config) =
      if leb l.next_mine_at around.now
      then and_then
          (after_mining l (
            mine_and_tell sampler addr_text parse_addr around.outside around.fuel l.node around.seed
              (rotate_left around.seed 7)))
          (λ l'. running (record l' { next_mine_at = around.now + config.interval }))
      else running l

  abbrev pub sync_if_due : Surroundings → LoopState → LoopResult
  sync_if_due around l =
      running (if l.sync.enabled && leb l.next_sync_at around.now then sync_now around l else l)

  -- A turn of the loop, from the connections that wait.
  unfoldable pub loop_turn : Surroundings → LoopState → List NodeCommand → LoopResult
  unfolding handle_commands accept_ready_connections
  loop_turn around l commands =
      and_then
        (and_then
          (handle_commands around (with_node l (accept_ready_connections around.waiting l.node))
            commands)
          (λ l'. mine_if_due around l' l'.miner))
        (sync_if_due around)

  -- The loop over the turns that there is time for; it ends once the node is stopped.
  unfoldable pub node_loop : List Turn → LoopState → LoopResult
  unfolding loop_turn
  node_loop [] l = running l
  node_loop (turn ∷ turns) l = elim l.stopped [
    | true ↦ running l
    | false ↦ and_then (loop_turn turn.around l turn.commands) (λ l'. node_loop turns l')
  ]
