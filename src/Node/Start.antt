-- ===== src/Node/Start.antt =====
-- `start_node` of crates/chesscoin-node/src/runtime.rs, as far as it makes the state that the threads
-- share; the loop of the node and its command channel are not part of it.
pub mod Outcome
use chesscoin.Prelude.{
  ℕ, Bool, true, false, not, Option, none, some, Bytes, if◌then◌else◌, Result, ok, err, ◌>>=◌, ◌>>◌,
  map_err,
}
use chesscoin.Ports.{SamplingPort}
use chesscoin.Application.Config.{ChainConfig}
use chesscoin.Application.Chain.{ChainState}
use chesscoin.Application.Chain
use chesscoin.Application.ForkChoice.{ForkChoiceState}
use chesscoin.Application.ForkChoice
use chesscoin.Wire.Message.{fingerprint}
use chesscoin.Node.Address.{SocketAddr, peer_address_is_dialable}
use chesscoin.Node.Config.{NodeConfig, StorageConfig, NodeConfigError, validate_node_config}
use chesscoin.Node.State.{NodeState, no_counts}
use chesscoin.Node.Peers.{normalize_initial_peers}
use chesscoin.Node.Load.{LoadError, load_chains}
use chesscoin.Node.Dispatch.{announce_to_peers}

pub data StartError : Type 0 where
  invalid_config : NodeConfigError → StartError
  no_listener storage_locked unreadable_storage : StartError
  undialable_address : SocketAddr → StartError
  invalid_storage : LoadError → StartError

-- What the node finds outside: the address that it listens on, if it can, whether it gets the lock of
-- the directory, the text of its file, if that can be read, and which peers can be reached. A file
-- that does not exist is the empty text.
pub record Machine : Type 0 where
  pub listens_on : Option SocketAddr
  pub locks : Bool
  pub file : Option Bytes
  pub reaches : SocketAddr → Bool

abbrev bind : Option SocketAddr → Result SocketAddr StartError
bind none = err no_listener
bind (some addr) = ok addr

abbrev pub unwrap_or : Option SocketAddr → SocketAddr → SocketAddr
unwrap_or none addr = addr
unwrap_or (some advertised) addr = advertised

abbrev check_dialable : SocketAddr → Result (Unit {0}) StartError
check_dialable addr = if peer_address_is_dialable addr then ok tt else err (undialable_address addr)

-- The file of the node, if it has storage.
abbrev pub log_of : Option StorageConfig → Machine → Option Bytes
log_of none machine = none
log_of (some storage) machine = machine.file

module _ (sampler : SamplingPort) (parse_addr : Bytes → Option SocketAddr) where
  abbrev pub read_chains :
      Option Bytes → ChainConfig → Result (ChainState × ForkChoiceState) StartError
  read_chains none config = err unreadable_storage
  read_chains (some content) config =
      map_err invalid_storage (load_chains sampler parse_addr content config)

  -- The chains that the node starts with: those of its file, or new ones.
  unfoldable pub initial_chains :
      Machine
      → Option StorageConfig
      → ChainConfig
      → Result (ChainState × ForkChoiceState) StartError
  initial_chains machine none config = ok (Chain.new config, ForkChoice.new config)
  initial_chains machine (some storage) config =
      if machine.locks then read_chains machine.file config else err storage_locked

  -- The state before the peers are told.
  unfoldable pub initial_state :
      Machine → NodeConfig → SocketAddr → SocketAddr → ChainState × ForkChoiceState → NodeState
  initial_state machine config bound_addr advertised_addr (chain, fork_choice) =
      let (peers, peer_rejections) =
        normalize_initial_peers bound_addr advertised_addr config.peers config.network.max_peers in
      record {
        node_id = config.node_id;
        bound_addr = bound_addr;
        advertised_addr = advertised_addr;
        chain = chain;
        fork_choice = fork_choice;
        peers = peers;
        counters = record no_counts { peer_rejections = peer_rejections };
        log = log_of config.storage machine;
        network = record config.network {
          wire = record config.network.wire { chain_fingerprint = fingerprint config.chain };
        };
        sync = config.sync;
      }

  unfoldable pub start_node : Machine → NodeConfig → Result NodeState StartError
  unfolding initial_chains initial_state
  start_node machine config = do
    map_err invalid_config (validate_node_config config)
    bound_addr ← bind machine.listens_on
    let advertised_addr = unwrap_or config.advertise_addr bound_addr
    check_dialable advertised_addr
    chains ← initial_chains machine config.storage config.chain
    ok (
        announce_to_peers machine.reaches
          (initial_state machine config bound_addr advertised_addr chains))
