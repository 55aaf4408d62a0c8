-- ===== src/Node/Dispatch.antt =====
-- The handling of a connection in crates/chesscoin-node/src/runtime.rs, and what a node tells its
-- peers. Between two locks of the state other threads may run; here the steps of one connection
-- follow each other.
use chesscoin.Prelude.{
  ℕ, ◌+◌, ◌-◌, ◌%◌, ◌^◌, Bool, true, false, ◌&&◌, Option, none, some, List, [], ◌∷◌, length, Bytes,
  leb, if◌then◌else◌, ◌==◌, nat_eq, Result, ok, err,
}
use chesscoin.Ports.{SamplingPort}
use chesscoin.Application.Chain.{height, head_hash}
use chesscoin.Adapters.{toy_hash}
use chesscoin.Wire.Message.{
  PeerMessage, wire_magic, hello, get_blocks, get_blocks_by_locator, get_inventory, inventory,
  get_headers, headers, get_peers, peers, block, end_blocks,
}
use chesscoin.Wire.Receive.{decode_network_message}
use chesscoin.Node.Address.{SocketAddr}
use chesscoin.Node.State.{NodeState}
use chesscoin.Node.Peers.{add_peer}
use chesscoin.Node.Storage.{Disk, starts_with}
use chesscoin.Node.Stream.{Read, IncomingReadError, oversized, io, Stream, read_limited_line_from}
use chesscoin.Node.Serve.{
  count_malformed, locator_is_within_limit, serve_inventory, serve_headers, serve_peers,
  serve_blocks, serve_blocks_by_locator,
}
use chesscoin.Node.Chains.{
  BlockApplication, gossip, accepted, already_known, rejected, apply_incoming_block, Mined,
  searching, panicked, mined, mine_once,
}

abbrev pub count_broadcast : NodeState → ℕ → ℕ → NodeState
count_broadcast s sent failed = record s {
  counters = record s.counters {
    outbound_blocks = s.counters.outbound_blocks + sent;
    failed_broadcasts = s.counters.failed_broadcasts + failed;
  };
}

-- How many of the peers the message reaches: a connection is made, written and flushed.
unfoldable pub count_reached : (SocketAddr → Bool) → List SocketAddr → ℕ × ℕ
count_reached reaches [] = (0, 0)
count_reached reaches (peer ∷ others) =
    let (sent, failed) = count_reached reaches others in
    if reaches peer then (sent + 1, failed) else (sent, failed + 1)

unfoldable pub broadcast_block : (SocketAddr → Bool) → NodeState → NodeState
broadcast_block reaches s =
    let (sent, failed) = count_reached reaches s.peers in count_broadcast s sent failed

unfoldable pub record_hello_announcements : NodeState → ℕ → ℕ → NodeState
record_hello_announcements s sent failed = if sent == 0 && failed == 0 then s else record s {
  counters = record s.counters {
    hello_announcements = s.counters.hello_announcements + sent;
    failed_hello_announcements = s.counters.failed_hello_announcements + failed;
  };
}

unfoldable pub announce_to_peers : (SocketAddr → Bool) → NodeState → NodeState
announce_to_peers reaches s =
    let (sent, failed) = count_reached reaches s.peers in record_hello_announcements s sent failed

unfoldable pub announce_to_peer_and_count : (SocketAddr → Bool) → NodeState → SocketAddr → NodeState
announce_to_peer_and_count reaches s peer =
    if reaches peer then record_hello_announcements s 1 0 else record_hello_announcements s 0 1

-- The greeting of a node.
abbrev pub hello_message : NodeState → PeerMessage SocketAddr
hello_message s = hello s.node_id (height s.chain) (head_hash toy_hash s.chain) s.advertised_addr

-- The number of active connections after a place was taken, if one is free.
unfoldable pub reserve_inbound_connection : ℕ → ℕ → Option ℕ
reserve_inbound_connection active limit = if leb limit active then none else some (active + 1)

abbrev pub count_dropped : NodeState → NodeState
count_dropped s = record s {
  counters = record s.counters {
    dropped_inbound_connections = s.counters.dropped_inbound_connections + 1;
  };
}

-- What the start and the end of a connection do to the state.
unfoldable pub accept_connection : NodeState → NodeState × Bool
accept_connection s =
    elim (reserve_inbound_connection s.counters.active_inbound_connections
      s.network.max_inbound_connections) [
        | none ↦ (count_dropped s, false)
        | some active ↦ (
          record s { counters = record s.counters { active_inbound_connections = active } },
          true,
        )
      ]

abbrev pub release_connection : NodeState → NodeState
release_connection s = record s {
  counters = record s.counters {
    active_inbound_connections = (s.counters.active_inbound_connections + (2 ^ 64 - 1)) % 2 ^ 64;
  };
}

-- A read that fails, and a message that cannot be decoded.
abbrev pub count_oversized : NodeState → NodeState
count_oversized s = record s {
  counters = record s.counters {
    rejected_blocks = s.counters.rejected_blocks + 1;
    oversized_messages = s.counters.oversized_messages + 1;
  };
}

abbrev pub count_undecodable : NodeState → Bytes → NodeState
count_undecodable s line =
    if starts_with line wire_magic
    then record s {
      counters = record s.counters {
        rejected_blocks = s.counters.rejected_blocks + 1;
        incompatible_messages = s.counters.incompatible_messages + 1;
      };
    }
    else record s {
      counters = record s.counters {
        rejected_blocks = s.counters.rejected_blocks + 1;
        malformed_messages = s.counters.malformed_messages + 1;
      };
    }

-- What surrounds a connection: the disk, and which peers can be reached.
pub record Outside : Type 0 where
  pub disk : Disk
  pub reaches : SocketAddr → Bool

module _ (sampler : SamplingPort) (addr_text : SocketAddr → Bytes)
    (parse_addr : Bytes → Option SocketAddr) where
  abbrev pub gossip_on : Outside → NodeState × BlockApplication → NodeState
  gossip_on outside (s, accepted) = broadcast_block outside.reaches s
  gossip_on outside (s, already_known) = s
  gossip_on outside (s, rejected) = s

  -- A reply that a locator asks for, if the locator is not too long.
  abbrev pub within_limit :
      NodeState × Bool → Stream → (NodeState → NodeState × Stream) → NodeState × Stream
  within_limit (s, true) stream reply = reply s
  within_limit (s, false) stream reply = (s, stream)

  unfoldable pub handle_message :
      Outside → NodeState → Stream → PeerMessage SocketAddr → NodeState × Stream
  handle_message outside s stream (hello node_id height head listen_addr) =
      ((add_peer s listen_addr).0, stream)
  handle_message outside s stream (get_blocks from_height limit) =
      serve_blocks addr_text stream s from_height limit
  handle_message outside s stream (get_blocks_by_locator locator limit) =
      within_limit (locator_is_within_limit s (length locator)) stream
        (λ t. serve_blocks_by_locator addr_text stream t locator limit)
  handle_message outside s stream (get_inventory locator limit) =
      within_limit (locator_is_within_limit s (length locator)) stream
        (λ t. serve_inventory addr_text stream t locator limit)
  handle_message outside s stream (get_headers locator limit) =
      within_limit (locator_is_within_limit s (length locator)) stream
        (λ t. serve_headers addr_text stream t locator limit)
  handle_message outside s stream (get_peers limit) = serve_peers addr_text stream s limit
  handle_message outside s stream (block b) =
      (gossip_on outside (apply_incoming_block sampler outside.disk s b gossip), stream)
  handle_message outside s stream end_blocks = (count_malformed s, stream)
  handle_message outside s stream (inventory hashes) = (count_malformed s, stream)
  handle_message outside s stream (headers hs) = (count_malformed s, stream)
  handle_message outside s stream (peers addrs) = (count_malformed s, stream)

  abbrev pub handle_line : Outside → NodeState → Stream → Bytes → NodeState × Stream
  handle_line outside s stream line = elim (decode_network_message parse_addr line s.network.wire) [
    | ok message ↦ handle_message outside s stream message
    | err e ↦ (count_undecodable s line, stream)
  ]

  abbrev pub handle_read :
      Outside → NodeState → Stream → Result (Option Bytes) IncomingReadError → NodeState × Stream
  handle_read outside s stream (ok (some line)) = handle_line outside s stream line
  handle_read outside s stream (ok none) = (s, stream)
  handle_read outside s stream (err oversized) = (count_oversized s, stream)
  handle_read outside s stream (err io) = (count_malformed s, stream)

  unfoldable pub handle_stream : Outside → NodeState → Stream → List Read → NodeState × Stream
  handle_stream outside s stream reads =
      handle_read outside s stream (read_limited_line_from reads s.network.max_message_bytes).0

  -- Mining as the message loop does it: the block is announced and broadcast.
  abbrev pub tell_mined : Outside → Mined → Mined
  tell_mined outside searching = searching
  tell_mined outside panicked = panicked
  tell_mined outside (mined s b) =
      mined (broadcast_block outside.reaches (announce_to_peers outside.reaches s)) b

  unfoldable pub mine_and_tell : Outside → ℕ → NodeState → ℕ → ℕ → Mined
  mine_and_tell outside fuel s training_seed sampling_entropy =
      tell_mined outside (mine_once sampler outside.disk fuel s training_seed sampling_entropy)
