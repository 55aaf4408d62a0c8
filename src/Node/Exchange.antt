-- ===== src/Node/Exchange.antt =====
-- What a node asks its peers for, in crates/chesscoin-node/src/runtime.rs.
pub mod Blocks
use mathlib.Core.List.{map}
use chesscoin.Prelude.{
  ℕ, ◌+◌, Bool, true, false, not, ◌||◌, Option, none, some, List, [], ◌∷◌, ◌++◌, length, Bytes, leb,
  if◌then◌else◌, ◌==◌, Result, ok, err, ◌>>=◌, ◌>>◌, map_err,
}
use chesscoin.Domain.Digest.{Digest, digest_eq}
use chesscoin.Domain.Trace.{Block, BlockHeader}
use chesscoin.Ports.{SamplingPort}
use chesscoin.Application.Validation.{block_header_hash}
use chesscoin.Application.ForkChoice.{ForkChoiceState, contains_block}
use chesscoin.Adapters.{toy_hash}
use chesscoin.Wire.Message.{PeerMessage, block, end_blocks, headers, peers}
use chesscoin.Wire.Receive.{decode_network_message}
use chesscoin.Node.Address.{SocketAddr}
use chesscoin.Node.Config.{NetworkConfig}
use chesscoin.Node.State.{NodeState}
use chesscoin.Node.Peers.{add_advertised}
use chesscoin.Node.Locator.{hash_of, block_locator}
use chesscoin.Node.Headers.{validate_headers_after_locator}
use chesscoin.Node.Storage.{Disk}
use chesscoin.Node.Stream.{Read, IncomingReadError, oversized, io, read_limited_line_from}
use chesscoin.Node.Chains.{validate_sync_batch, apply_batch}

-- What a connection to a peer gives back after the request, if the request could be sent.
abbrev pub Reply : Type 0
Reply = Option (List Read)

-- The disk while one block after another is appended.
abbrev pub with_disks : (ℕ → Disk) → ℕ → List Block → List (Disk × Block)
with_disks disks n [] = []
with_disks disks n (b ∷ blocks) = (disks n, b) ∷ with_disks disks (n + 1) blocks

abbrev pub count_oversized_reply : NodeState → NodeState
count_oversized_reply s = record s {
  counters = record s.counters { oversized_messages = s.counters.oversized_messages + 1 };
}

abbrev pub count_failed_sync : NodeState → Result (Unit {0}) (Unit {0}) → NodeState
count_failed_sync s (ok _) = s
count_failed_sync s (err _) = record s {
  counters = record s.counters { failed_syncs = s.counters.failed_syncs + 1 };
}

-- What a peer answers to the three requests.
pub record PeerReplies : Type 0 where
  pub peers_reply : Reply
  pub headers_reply : Reply
  pub blocks_reply : Reply
  pub disks : ℕ → Disk

abbrev pub count_result : NodeState × Result (Unit {0}) (Unit {0}) → NodeState
count_result (s, result) = count_failed_sync s result

abbrev pub has_unknown_block : ForkChoiceState → List Digest → Bool
has_unknown_block fork_choice [] = false
has_unknown_block fork_choice (hash ∷ hashes) =
    not (contains_block fork_choice hash) || has_unknown_block fork_choice hashes

-- What the next line means, while blocks are received: a block, the end, an error that is counted,
-- or another error.
pub data Next : Type 0 where
  next_block : Block → Next
  no_more too_long failed : Next

module _ (sampler : SamplingPort) (parse_addr : Bytes → Option SocketAddr) where
  abbrev line_of :
      Result (Option Bytes) IncomingReadError
      → NetworkConfig
      → Result (PeerMessage SocketAddr) (Unit {0})
  line_of (ok (some line)) network =
      map_err (λ _. tt) (decode_network_message parse_addr line network.wire)
  line_of (ok none) network = err tt
  line_of (err e) network = err tt

  -- The one message that a peer replies with.
  unfoldable pub read_reply : Reply → NetworkConfig → Result (PeerMessage SocketAddr) (Unit {0})
  read_reply none network = err tt
  read_reply (some reads) network =
      line_of (read_limited_line_from reads network.max_message_bytes).0 network

  abbrev pub only_peers : ℕ → PeerMessage SocketAddr → Result (List SocketAddr) (Unit {0})
  only_peers limit (peers addrs) = if leb (length addrs) limit then ok addrs else err tt
  only_peers limit message = err tt

  unfoldable pub peers_from_peer : Reply → ℕ → NetworkConfig → Result (List SocketAddr) (Unit {0})
  peers_from_peer reply limit network = do
    message ← read_reply reply network
    only_peers limit message

  unfoldable pub exchange_peers_with :
      NodeState → Reply → ℕ → NetworkConfig → NodeState × Result (Unit {0}) (Unit {0})
  exchange_peers_with s reply limit network = elim (peers_from_peer reply limit network) [
    | ok advertised ↦ (add_advertised s advertised, ok tt)
    | err e ↦ (s, err e)
  ]

  abbrev pub only_headers : ℕ → PeerMessage SocketAddr → Result (List BlockHeader) (Unit {0})
  only_headers limit (headers hs) = if leb (length hs) limit then ok hs else err tt
  only_headers limit message = err tt

  unfoldable pub headers_from_peer :
      Reply → ℕ → NetworkConfig → Result (List BlockHeader) (Unit {0})
  headers_from_peer reply limit network = do
    message ← read_reply reply network
    only_headers limit message

  abbrev pub next_of : Result (Option Bytes) IncomingReadError → NetworkConfig → Next
  next_of (ok none) network = failed
  next_of (err oversized) network = too_long
  next_of (err io) network = failed
  next_of (ok (some line)) network = elim (decode_network_message parse_addr line network.wire) [
    | ok (block b) ↦ next_block b
    | ok end_blocks ↦ no_more
    | ok _ ↦ failed
    | err _ ↦ failed
  ]

  -- All expected blocks were received: the batch is tried, and applied.
  unfoldable pub finish_blocks :
      (ℕ → Disk) → NodeState → List Block → NodeState × Result (Unit {0}) (Unit {0})
  finish_blocks disks s received = elim (validate_sync_batch sampler s received) [
    | ok _ ↦ apply_batch sampler s (with_disks disks 0 received)
    | err e ↦ (s, err e)
  ]

  -- After the last expected block, and where another one is expected.
  abbrev pub after_last :
      (ℕ → Disk) → NodeState → List Block → Next → NodeState × Result (Unit {0}) (Unit {0})
  after_last disks s received (next_block b) = (s, err tt)
  after_last disks s received no_more = finish_blocks disks s received
  after_last disks s received too_long = (count_oversized_reply s, err tt)
  after_last disks s received failed = (s, err tt)

  abbrev pub after_next :
      NodeState
      → Digest
      → (Block → NodeState × Result (Unit {0}) (Unit {0}))
      → Next
      → NodeState × Result (Unit {0}) (Unit {0})
  after_next s expected rest (next_block b) =
      if not (hash_of b == expected) then (s, err tt) else rest b
  after_next s expected rest no_more = (s, err tt)
  after_next s expected rest too_long = (count_oversized_reply s, err tt)
  after_next s expected rest failed = (s, err tt)

  -- The loop, by the hashes that are still expected.
  unfoldable pub blocks_loop :
      (ℕ → Disk)
      → NodeState
      → NetworkConfig
      → List Digest
      → List Block
      → List Read
      → NodeState × Result (Unit {0}) (Unit {0})
  blocks_loop disks s network [] received reads =
      after_last disks s received
        (next_of (read_limited_line_from reads network.max_message_bytes).0 network)
  blocks_loop disks s network (expected ∷ hashes) received reads =
      let (line, left) = read_limited_line_from reads network.max_message_bytes in
      after_next s expected (λ b. blocks_loop disks s network hashes (received ++ b ∷ []) left)
        (next_of line network)

  unfoldable pub blocks_from_peer :
      (ℕ → Disk)
      → NodeState
      → Reply
      → List Digest
      → NetworkConfig
      → NodeState × Result (Unit {0}) (Unit {0})
  blocks_from_peer disks s none expected_hashes network = (s, err tt)
  blocks_from_peer disks s (some reads) expected_hashes network =
      blocks_loop disks s network expected_hashes [] reads

  -- The hashes of the headers that a peer replies with, if they follow the chain.
  unfoldable pub expected_from :
      NodeState → Reply → List Digest → ℕ → NetworkConfig → Result (List Digest) (Unit {0})
  expected_from s reply locator limit network = do
    hs ← headers_from_peer reply limit network
    validate_headers_after_locator s.chain locator hs
    ok (map (block_header_hash toy_hash) hs)

  abbrev pub after_headers :
      NodeState
      → PeerReplies
      → NetworkConfig
      → Result (List Digest) (Unit {0})
      → NodeState × Result (Unit {0}) (Unit {0})
  after_headers s replies network (err e) = (s, err e)
  after_headers s replies network (ok expected_hashes) =
      if not (has_unknown_block s.fork_choice expected_hashes)
      then (s, ok tt)
      else blocks_from_peer replies.disks s replies.blocks_reply expected_hashes network

  unfoldable pub sync_from_peer :
      NodeState
      → PeerReplies
      → List Digest
      → ℕ
      → NetworkConfig
      → NodeState × Result (Unit {0}) (Unit {0})
  sync_from_peer s replies locator limit network =
      after_headers s replies network (expected_from s replies.headers_reply locator limit network)

  -- The two loops of `sync_once` over the peers.
  unfoldable pub exchange_loop :
      (SocketAddr → PeerReplies) → NodeState → List SocketAddr → ℕ → NetworkConfig → NodeState
  exchange_loop replies s [] limit network = s
  exchange_loop replies s (peer ∷ others) limit network =
      exchange_loop replies
        (count_result (exchange_peers_with s (replies peer).peers_reply limit network)) others limit
        network

  unfoldable pub sync_loop :
      (SocketAddr → PeerReplies)
      → NodeState
      → List SocketAddr
      → List Digest
      → ℕ
      → NetworkConfig
      → NodeState
  sync_loop replies s [] locator limit network = s
  sync_loop replies s (peer ∷ others) locator limit network =
      sync_loop replies (count_result (sync_from_peer s (replies peer) locator limit network))
        others locator limit network

  unfoldable pub sync_once : (SocketAddr → PeerReplies) → NodeState → NodeState
  sync_once replies s =
      let locator = block_locator s.chain s.sync.max_locator_hashes in
      let s' = exchange_loop replies s s.peers s.network.max_peers s.network in
      sync_loop replies s' s'.peers locator s.sync.max_blocks_per_response s.network
