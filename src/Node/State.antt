-- ===== src/Node/State.antt =====
-- `NodeState` of crates/chesscoin-node/src/runtime.rs: what the threads of a node share behind one lock.
use chesscoin.Prelude.{ℕ, Option, List, Bytes}
use chesscoin.Domain.Digest.{Digest}
use chesscoin.Application.Chain.{ChainState, height, head_hash}
use chesscoin.Application.ForkChoice.{ForkChoiceState, known_block_count}
use chesscoin.Adapters.{toy_hash}
use chesscoin.Node.Address.{SocketAddr}
use chesscoin.Node.Config.{NetworkConfig, SyncConfig}

-- The counters of the state; `active_inbound_connections` is the shared atomic.
pub record Counters : Type 0 where
  pub accepted_blocks : ℕ
  pub rejected_blocks : ℕ
  pub mined_blocks : ℕ
  pub reorgs : ℕ
  pub malformed_messages : ℕ
  pub incompatible_messages : ℕ
  pub oversized_messages : ℕ
  pub outbound_blocks : ℕ
  pub failed_broadcasts : ℕ
  pub failed_responses : ℕ
  pub hello_announcements : ℕ
  pub failed_hello_announcements : ℕ
  pub active_inbound_connections : ℕ
  pub dropped_inbound_connections : ℕ
  pub peer_rejections : ℕ
  pub synced_blocks : ℕ
  pub failed_syncs : ℕ
  pub storage_failures : ℕ

-- The log is the text of the file at `storage_path`, if the node has one.
pub record NodeState : Type 0 where
  pub node_id : Bytes
  pub bound_addr : SocketAddr
  pub advertised_addr : SocketAddr
  pub chain : ChainState
  pub fork_choice : ForkChoiceState
  pub peers : List SocketAddr
  pub counters : Counters
  pub log : Option Bytes
  pub network : NetworkConfig
  pub sync : SyncConfig

abbrev pub no_counts : Counters
no_counts = record {
  accepted_blocks = 0;
  rejected_blocks = 0;
  mined_blocks = 0;
  reorgs = 0;
  malformed_messages = 0;
  incompatible_messages = 0;
  oversized_messages = 0;
  outbound_blocks = 0;
  failed_broadcasts = 0;
  failed_responses = 0;
  hello_announcements = 0;
  failed_hello_announcements = 0;
  active_inbound_connections = 0;
  dropped_inbound_connections = 0;
  peer_rejections = 0;
  synced_blocks = 0;
  failed_syncs = 0;
  storage_failures = 0;
}

pub record NodeSnapshot : Type 0 where
  pub node_id : Bytes
  pub bound_addr : SocketAddr
  pub advertised_addr : SocketAddr
  pub height : ℕ
  pub head : Digest
  pub counters : Counters
  pub known_blocks : ℕ
  pub known_peers : List SocketAddr

unfoldable pub snapshot : NodeState → NodeSnapshot
unfolding known_block_count
snapshot s = record {
  node_id = s.node_id;
  bound_addr = s.bound_addr;
  advertised_addr = s.advertised_addr;
  height = height s.chain;
  head = head_hash toy_hash s.chain;
  counters = s.counters;
  known_blocks = known_block_count s.fork_choice;
  known_peers = s.peers;
}
