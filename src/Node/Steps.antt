-- ===== src/Node/Steps.antt =====
-- What stays true of a node, whatever it does.
pub mod Ask
pub mod Reach
use chesscoin.Prelude.{
  ℕ, ◌+◌, ◌^◌, ◌≤◌, ◌≡◌, refl, All, Bool, true, false, Bool-cases, Option, some, none, inl, inr,
  List, [], ◌∷◌, length, take, drop, min, Bytes, ltb, ◌==◌, Result, ok, err, Result-cases, ◌∙◌, ap,
  sym,
}
use mathlib.Core.Path.{subst}
use chesscoin.Domain.Digest.{digest_eq, zero_digest}
use chesscoin.Domain.Trace.{Block}
use chesscoin.Ports.{SamplingPort}
use chesscoin.Wire.Message.{
  PeerMessage, hello, get_blocks, get_blocks_by_locator, get_inventory, inventory, get_headers,
  headers, get_peers, peers, block, end_blocks, wire_magic,
}
use chesscoin.Wire.Receive.{decode_network_message}
use chesscoin.Node.Address.{SocketAddr}
use chesscoin.Node.State.{NodeState}
use chesscoin.Node.Locator.{blocks_after_locator, inventory_after_locator, headers_after_locator}
use chesscoin.Node.Peers.{
  peer_advertisement, is_refused, add_peer_to_state, add_peer, count_rejection,
}
use chesscoin.Node.Peers.Book.{HasBook, add_peer-HasBook}
use chesscoin.Node.Storage.{Disk, starts_with}
use chesscoin.Node.Stream.{
  Read, IncomingReadError, oversized, io, Stream, Written, write_peer_message, then_flush,
  read_limited_line_from,
}
use chesscoin.Node.Serve.{
  count_malformed, locator_is_within_limit, record_response_result, record_written, answer,
  write_blocks, then_end, block_limit, serve_inventory, serve_headers, serve_peers, answer_blocks,
  serve_blocks, serve_blocks_by_locator,
}
use chesscoin.Node.Chains.{
  BlockSource, BlockApplication, gossip, accepted, already_known, rejected, apply_incoming_block,
}
use chesscoin.Node.Chains.Current.{IsCurrent}
use chesscoin.Node.Chains.Outcome.{apply_incoming_block_outcome}
use chesscoin.Node.Chains.Whole.{NonZero}
use chesscoin.Node.Dispatch.{
  Outside, gossip_on, within_limit, broadcast_block, handle_message, handle_line, handle_read,
  handle_stream, count_undecodable, count_oversized,
}

-- The node serves its best chain, and its peer book is in order.
pub record IsNode (sampler : SamplingPort) (s : NodeState) : Type 0 where
  pub current : IsCurrent sampler s.chain s.fork_choice
  pub book : HasBook s

module _ (sampler : SamplingPort) (addr_text : SocketAddr → Bytes)
    (parse_addr : Bytes → Option SocketAddr) where
  pub apply_incoming_block-IsNode :
      (disk : Disk) (s : NodeState) (b : Block) (source : BlockSource)
      → NonZero b
      → IsNode sampler s
      → IsNode sampler (apply_incoming_block sampler disk s b source).0
  apply_incoming_block-IsNode disk s b source nonzero n =
      elim (apply_incoming_block_outcome sampler disk s b source n.current nonzero) [
        | inl (_, same) ↦ rw same n
        | inr (inl (_, same)) ↦ rw same (record { current = n.current; book = n.book })
        | inr (inr (_, _, now, same)) ↦ rw same (record { current = now; book = n.book })
      ]

  add_peer-chain :
      (s : NodeState) (peer : SocketAddr)
      → ((add_peer s peer).0.chain ≡ s.chain) × ((add_peer s peer).0.fork_choice ≡ s.fork_choice)
  unfolding add_peer add_peer_to_state
  add_peer-chain s peer =
      elim (Bool-cases
        (is_refused s.bound_addr s.advertised_addr s.network.max_peers s.peers peer)) [
          | inl refused ↦ rw refused (refl, refl)
          | inr added ↦ rw added (refl, refl)
        ]

  pub add_peer-IsNode :
      (s : NodeState) (peer : SocketAddr) → IsNode sampler s → IsNode sampler (add_peer s peer).0
  add_peer-IsNode s peer n =
      let (chain_eq, fork_eq) = add_peer-chain s peer in
      record { current = rw (chain_eq, fork_eq) n.current; book = add_peer-HasBook s peer n.book }

  gossip_on-IsNode :
      (outside : Outside) (r : NodeState × BlockApplication)
      → IsNode sampler r.0
      → IsNode sampler (gossip_on sampler addr_text parse_addr outside r)
  unfolding broadcast_block
  gossip_on-IsNode outside (s, accepted) n = record { current = n.current; book = n.book }
  gossip_on-IsNode outside (s, already_known) n = n
  gossip_on-IsNode outside (s, rejected) n = n

  written-IsNode :
      (s : NodeState) (w : Written) → IsNode sampler s → IsNode sampler (record_written s w).0
  written-IsNode s (stream, ok u) n = n
  written-IsNode s (stream, err e) n = record { current = n.current; book = n.book }

  answer-IsNode :
      (s : NodeState) (message : PeerMessage SocketAddr) (stream : Stream)
      → IsNode sampler s
      → IsNode sampler (answer addr_text s message stream).0
  answer-IsNode s message stream n =
      written-IsNode s (then_flush (write_peer_message addr_text s.network.wire message stream)) n

  answer_blocks-IsNode :
      (s : NodeState) (blocks : List Block) (stream : Stream)
      → IsNode sampler s
      → IsNode sampler (answer_blocks addr_text s blocks stream).0
  unfolding answer_blocks
  answer_blocks-IsNode s blocks stream n =
      written-IsNode s
        (then_end addr_text s.network.wire (write_blocks addr_text s.network.wire blocks stream)) n

  within_limit-IsNode :
      (s : NodeState) (len : ℕ) (stream : Stream) (reply : NodeState → NodeState × Stream)
      → ((t : NodeState) → IsNode sampler t → IsNode sampler (reply t).0)
      → IsNode sampler s
      → IsNode sampler
          (within_limit sampler addr_text parse_addr (locator_is_within_limit s len) stream reply).0
  unfolding locator_is_within_limit
  within_limit-IsNode s len stream reply go n =
      elim (Bool-cases (ltb s.sync.max_locator_hashes len)) [
        | inl long ↦ rw long (record { current = n.current; book = n.book })
        | inr fits ↦ rw fits (go s n)
      ]

  -- A block among the messages does not hash to the zero digest.
  abbrev pub IsSafe : PeerMessage SocketAddr → Type 0
  IsSafe (block b) = NonZero b
  IsSafe message = Unit

  handle_message-IsNode :
      (outside : Outside) (s : NodeState) (stream : Stream) (message : PeerMessage SocketAddr)
      → IsSafe message
      → IsNode sampler s
      → IsNode sampler (handle_message sampler addr_text parse_addr outside s stream message).0
  unfolding handle_message serve_inventory serve_headers serve_peers serve_blocks
      serve_blocks_by_locator
  handle_message-IsNode outside s stream (hello node_id height head addr) safe n =
      add_peer-IsNode s addr n
  handle_message-IsNode outside s stream (get_blocks from_height limit) safe n =
      answer_blocks-IsNode s (take (block_limit s limit) (drop from_height s.chain.blocks)) stream n
  handle_message-IsNode outside s stream (get_blocks_by_locator locator limit) safe n =
      within_limit-IsNode s (length locator) stream
        (λ t. serve_blocks_by_locator addr_text stream t locator limit)
        (λ t.
          answer_blocks-IsNode t (blocks_after_locator t.chain locator (block_limit t limit))
            stream)
        n
  handle_message-IsNode outside s stream (get_inventory locator limit) safe n =
      within_limit-IsNode s (length locator) stream
        (λ t. serve_inventory addr_text stream t locator limit)
        (λ t.
          answer-IsNode t
            (inventory (inventory_after_locator t.chain locator (block_limit t limit))) stream)
        n
  handle_message-IsNode outside s stream (get_headers locator limit) safe n =
      within_limit-IsNode s (length locator) stream
        (λ t. serve_headers addr_text stream t locator limit)
        (λ t.
          answer-IsNode t (headers (headers_after_locator t.chain locator (block_limit t limit)))
            stream)
        n
  handle_message-IsNode outside s stream (get_peers limit) safe n =
      answer-IsNode s (peers (peer_advertisement s (min limit s.network.max_peers))) stream n
  handle_message-IsNode outside s stream (block b) safe n =
      gossip_on-IsNode outside (apply_incoming_block sampler outside.disk s b gossip)
        (apply_incoming_block-IsNode outside.disk s b gossip safe n)
  handle_message-IsNode outside s stream end_blocks safe n = record {
    current = n.current;
    book = n.book;
  }
  handle_message-IsNode outside s stream (inventory hashes) safe n = record {
    current = n.current;
    book = n.book;
  }
  handle_message-IsNode outside s stream (headers hs) safe n = record {
    current = n.current;
    book = n.book;
  }
  handle_message-IsNode outside s stream (peers addrs) safe n = record {
    current = n.current;
    book = n.book;
  }

  handle_line-IsNode :
      (outside : Outside) (s : NodeState) (stream : Stream) (line : Bytes)
      → ((m : PeerMessage SocketAddr)
          → decode_network_message parse_addr line s.network.wire ≡ ok m
          → IsSafe m)
      → IsNode sampler s
      → IsNode sampler (handle_line sampler addr_text parse_addr outside s stream line).0
  handle_line-IsNode outside s stream line safe n =
      elim (Result-cases (decode_network_message parse_addr line s.network.wire)) [
        | inl (m, read) ↦
            rw (read, handle_line) (handle_message-IsNode outside s stream m (safe m read) n)
        | inr (e, failed) ↦ elim (Bool-cases (starts_with line wire_magic)) [
          | inl magic ↦
              rw (failed, handle_line, magic) (record { current = n.current; book = n.book })
          | inr other ↦
              rw (failed, handle_line, other) (record { current = n.current; book = n.book })
        ]
      ]

  -- A connection, whatever is read from it, leaves a node that serves its best chain, and whose peer
  -- book is in order; no block that is read hashes to the zero digest.
  pub handle_stream-IsNode :
      (outside : Outside) (s : NodeState) (stream : Stream) (reads : List Read)
      → ((line : Bytes) (m : PeerMessage SocketAddr)
          → (read_limited_line_from reads s.network.max_message_bytes).0 ≡ ok (some line)
          → decode_network_message parse_addr line s.network.wire ≡ ok m
          → IsSafe m)
      → IsNode sampler s
      → IsNode sampler (handle_stream sampler addr_text parse_addr outside s stream reads).0
  unfolding handle_stream
  handle_stream-IsNode outside s stream reads safe n =
      go (read_limited_line_from reads s.network.max_message_bytes).0 safe
    where
      go :
          (r : Result (Option Bytes) IncomingReadError)
          → ((line : Bytes) (m : PeerMessage SocketAddr)
              → r ≡ ok (some line)
              → decode_network_message parse_addr line s.network.wire ≡ ok m
              → IsSafe m)
          → IsNode sampler (handle_read sampler addr_text parse_addr outside s stream r).0
      go (ok (some line)) safe = handle_line-IsNode outside s stream line (λ m. safe line m refl) n
      go (ok none) safe = n
      go (err oversized) safe = record { current = n.current; book = n.book }
      go (err io) safe = record { current = n.current; book = n.book }
