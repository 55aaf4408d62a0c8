-- ===== src/Node/Serve.antt =====
-- The replies of a node, in crates/chesscoin-node/src/runtime.rs.
use chesscoin.Prelude.{
  ℕ, ◌+◌, Bool, true, false, List, [], ◌∷◌, Bytes, take, drop, min, ltb, if◌then◌else◌, Result, ok,
  err,
}
use chesscoin.Domain.Digest.{Digest}
use chesscoin.Domain.Trace.{Block}
use chesscoin.Wire.Message.{WireConfig, PeerMessage, block, end_blocks, inventory, headers, peers}
use chesscoin.Node.Address.{SocketAddr}
use chesscoin.Node.State.{NodeState}
use chesscoin.Node.Peers.{peer_advertisement}
use chesscoin.Node.Locator.{blocks_after_locator, inventory_after_locator, headers_after_locator}
use chesscoin.Node.Stream.{Stream, Written, write_peer_message, then_flush}

abbrev pub count_malformed : NodeState → NodeState
count_malformed s = record s {
  counters = record s.counters { malformed_messages = s.counters.malformed_messages + 1 };
}

abbrev pub count_failed_response : NodeState → NodeState
count_failed_response s = record s {
  counters = record s.counters { failed_responses = s.counters.failed_responses + 1 };
}

-- The new state and whether the locator may be answered.
unfoldable pub locator_is_within_limit : NodeState → ℕ → NodeState × Bool
locator_is_within_limit s locator_len =
    if ltb s.sync.max_locator_hashes locator_len then (count_malformed s, false) else (s, true)

abbrev pub record_response_result : NodeState → Result (Unit {0}) (Unit {0}) → NodeState
record_response_result s (ok _) = s
record_response_result s (err _) = count_failed_response s

abbrev pub record_written : NodeState → Written → NodeState × Stream
record_written s (stream, result) = (record_response_result s result, stream)

abbrev pub block_limit : NodeState → ℕ → ℕ
block_limit s requested_limit = min requested_limit s.sync.max_blocks_per_response

module _ (addr_text : SocketAddr → Bytes) where
  -- One message, flushed.
  abbrev pub answer : NodeState → PeerMessage SocketAddr → Stream → NodeState × Stream
  answer s message stream =
      record_written s (then_flush (write_peer_message addr_text s.network.wire message stream))

  unfoldable pub serve_inventory : Stream → NodeState → List Digest → ℕ → NodeState × Stream
  serve_inventory stream s locator requested_limit =
      answer s (inventory (inventory_after_locator s.chain locator (block_limit s requested_limit)))
        stream

  unfoldable pub serve_headers : Stream → NodeState → List Digest → ℕ → NodeState × Stream
  serve_headers stream s locator requested_limit =
      answer s (headers (headers_after_locator s.chain locator (block_limit s requested_limit)))
        stream

  unfoldable pub serve_peers : Stream → NodeState → ℕ → NodeState × Stream
  serve_peers stream s requested_limit =
      answer s (peers (peer_advertisement s (min requested_limit s.network.max_peers))) stream

  -- The loop over the blocks: it stops at the first one that cannot be written.
  unfoldable pub write_blocks : WireConfig → List Block → Stream → Written
  write_blocks wire [] stream = (stream, ok tt)
  write_blocks wire (b ∷ blocks) stream =
      let (stream', result) = write_peer_message addr_text wire (block b) stream in
      let rest = write_blocks wire blocks stream' in
      elim result [ ok _ ↦ rest | err e ↦ (stream', err e) ]

  abbrev pub then_end : WireConfig → Written → Written
  then_end wire (stream, ok _) = then_flush (write_peer_message addr_text wire end_blocks stream)
  then_end wire (stream, err e) = (stream, err e)

  -- What both replies with blocks do.
  unfoldable pub answer_blocks : NodeState → List Block → Stream → NodeState × Stream
  answer_blocks s blocks stream =
      record_written s (then_end s.network.wire (write_blocks s.network.wire blocks stream))

  unfoldable pub serve_blocks : Stream → NodeState → ℕ → ℕ → NodeState × Stream
  serve_blocks stream s from_height requested_limit =
      answer_blocks s (take (block_limit s requested_limit) (drop from_height s.chain.blocks))
        stream

  unfoldable pub serve_blocks_by_locator : Stream → NodeState → List Digest → ℕ → NodeState × Stream
  serve_blocks_by_locator stream s locator requested_limit =
      answer_blocks s (blocks_after_locator s.chain locator (block_limit s requested_limit)) stream
