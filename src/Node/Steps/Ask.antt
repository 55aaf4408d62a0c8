-- ===== src/Node/Steps/Ask.antt =====
-- What a node asks its peers for leaves it in order.
use mathlib.Core.List.{map}
use chesscoin.Prelude.{
  ℕ, ◌≡◌, All, false, Bool-cases, Option, some, none, inl, inr, List, [], ◌∷◌, Bytes, ◌==◌, Result,
  ok, err, Result-cases, ok-injective,
}
use chesscoin.Domain.Digest.{Digest, digest_eq, zero_digest}
use chesscoin.Domain.Trace.{BlockHeader}
use chesscoin.Ports.{SamplingPort}
use chesscoin.Application.Validation.{block_header_hash}
use chesscoin.Adapters.{toy_hash}
use chesscoin.Node.Address.{SocketAddr}
use chesscoin.Node.Config.{NetworkConfig}
use chesscoin.Node.State.{NodeState}
use chesscoin.Node.Peers.{add_peer, add_advertised}
use chesscoin.Node.Locator.{block_locator}
use chesscoin.Node.Headers.{validate_headers_after_locator}
use chesscoin.Node.Storage.{Disk}
use chesscoin.Node.Chains.{sync}
use chesscoin.Node.Chains.Whole.{apply_batch_keeps}
use chesscoin.Node.Exchange.{
  Reply, PeerReplies, with_disks, count_result, peers_from_peer, exchange_peers_with,
  headers_from_peer, blocks_from_peer, has_unknown_block, expected_from, sync_from_peer,
  exchange_loop, sync_loop, sync_once,
}
use chesscoin.Node.Exchange.Blocks.{blocks_loop_lem, blocks_of, All-map}
use chesscoin.Node.Steps.{IsNode, add_peer-IsNode, apply_incoming_block-IsNode}

abbrev pub AllNonZero : List Digest → Type 0
AllNonZero = All (λ h. (h == zero_digest) ≡ false)

module _ (sampler : SamplingPort) (addr_text : SocketAddr → Bytes)
    (parse_addr : Bytes → Option SocketAddr) where
  add_advertised-IsNode :
      (s : NodeState) (peers : List SocketAddr)
      → IsNode sampler s
      → IsNode sampler (add_advertised s peers)
  unfolding add_advertised
  add_advertised-IsNode s [] n = n
  add_advertised-IsNode s (peer ∷ peers) n =
      add_advertised-IsNode (add_peer s peer).0 peers
        (add_peer-IsNode sampler addr_text parse_addr s peer n)

  count_result-IsNode :
      (r : NodeState × Result (Unit {0}) (Unit {0}))
      → IsNode sampler r.0
      → IsNode sampler (count_result r)
  count_result-IsNode (s, ok u) n = n
  count_result-IsNode (s, err e) n = record { current = n.current; book = n.book }

  exchange_peers_with-IsNode :
      (s : NodeState) (reply : Reply) (limit : ℕ) (network : NetworkConfig)
      → IsNode sampler s
      → IsNode sampler (exchange_peers_with sampler parse_addr s reply limit network).0
  unfolding exchange_peers_with
  exchange_peers_with-IsNode s reply limit network n =
      elim (Result-cases (peers_from_peer sampler parse_addr reply limit network)) [
        | inl (advertised, asked) ↦
            rw (asked, exchange_peers_with) (add_advertised-IsNode s advertised n)
        | inr (e, failed) ↦ rw (failed, exchange_peers_with) n
      ]

  blocks_from_peer-IsNode :
      (disks : ℕ → Disk) (s : NodeState) (reply : Reply) (hashes : List Digest)
      (network : NetworkConfig)
      → AllNonZero hashes
      → IsNode sampler s
      → IsNode sampler (blocks_from_peer sampler parse_addr disks s reply hashes network).0
  unfolding blocks_from_peer
  blocks_from_peer-IsNode disks s none hashes network nonzero n = n
  blocks_from_peer-IsNode disks s (some reads) hashes network nonzero n =
      elim (blocks_loop_lem sampler parse_addr disks s network hashes [] reads) [
        | inl (_, inl same) ↦ rw same n
        | inl (_, inr same) ↦ rw same (record { current = n.current; book = n.book })
        | inr (blocks, hashes_eq, _, applied) ↦
            let apart = All-map (λ h. (h == zero_digest) ≡ false) blocks (rw hashes_eq nonzero) in
            rw applied (
              apply_batch_keeps sampler (IsNode sampler)
                (λ t disk b. apply_incoming_block-IsNode sampler addr_text parse_addr disk t b sync)
                s (with_disks disks 0 blocks) (rw (blocks_of disks 0 blocks) apart) n)
      ]

  -- The headers that a peer replies with do not hash to the zero digest.
  abbrev pub SafeReplies : PeerReplies → ℕ → NetworkConfig → Type 0
  SafeReplies replies limit network =
      (hs : List BlockHeader)
      → headers_from_peer sampler parse_addr replies.headers_reply limit network ≡ ok hs
      → AllNonZero (map (block_header_hash toy_hash) hs)

  expected_from_ok :
      (s : NodeState) (reply : Reply) (locator : List Digest) (limit : ℕ) (network : NetworkConfig)
      (hashes : List Digest)
      → expected_from sampler parse_addr s reply locator limit network ≡ ok hashes
      → (hs : List BlockHeader) × (headers_from_peer sampler parse_addr reply limit network ≡ ok hs)
        × (map (block_header_hash toy_hash) hs ≡ hashes)
  unfolding expected_from
  expected_from_ok s reply locator limit network hashes h =
      elim (Result-cases (headers_from_peer sampler parse_addr reply limit network)) [
        | inr (e, failed) ↦ absurd (cc (rw failed at h))
        | inl (hs, read) ↦ elim (Result-cases (validate_headers_after_locator s.chain locator hs)) [
          | inr (e, refused) ↦ absurd (cc (rw (read, refused) at h))
          | inl (u, follows) ↦ (hs, read, ok-injective (rw (read, follows) at h))
        ]
      ]

  sync_from_peer-IsNode :
      (s : NodeState) (replies : PeerReplies) (locator : List Digest) (limit : ℕ)
      (network : NetworkConfig)
      → SafeReplies replies limit network
      → IsNode sampler s
      → IsNode sampler (sync_from_peer sampler parse_addr s replies locator limit network).0
  unfolding sync_from_peer
  sync_from_peer-IsNode s replies locator limit network safe n =
      elim (Result-cases
        (expected_from sampler parse_addr s replies.headers_reply locator limit network)) [
          | inr (e, failed) ↦ rw failed n
          | inl (hashes, expected) ↦
              let (hs, read, hashes_eq) =
                expected_from_ok s replies.headers_reply locator limit network hashes expected in
              elim (Bool-cases (has_unknown_block s.fork_choice hashes)) [
                | inr all_known ↦ rw (expected, all_known) n
                | inl unknown ↦
                    rw (expected, unknown)
                      (blocks_from_peer-IsNode replies.disks s replies.blocks_reply hashes network
                        (rw (← hashes_eq) (safe hs read)) n)
              ]
        ]

  exchange_loop-IsNode :
      (replies : SocketAddr → PeerReplies) (s : NodeState) (peers : List SocketAddr) (limit : ℕ)
      (network : NetworkConfig)
      → IsNode sampler s
      → IsNode sampler (exchange_loop sampler parse_addr replies s peers limit network)
  unfolding exchange_loop
  exchange_loop-IsNode replies s [] limit network n = n
  exchange_loop-IsNode replies s (peer ∷ peers) limit network n =
      let exchanged =
        exchange_peers_with sampler parse_addr s (replies peer).peers_reply limit network in
      exchange_loop-IsNode replies (count_result exchanged) peers limit network (
        count_result-IsNode exchanged
          (exchange_peers_with-IsNode s (replies peer).peers_reply limit network n))

  sync_loop-IsNode :
      (replies : SocketAddr → PeerReplies) (s : NodeState) (peers : List SocketAddr)
      (locator : List Digest) (limit : ℕ) (network : NetworkConfig)
      → ((peer : SocketAddr) → SafeReplies (replies peer) limit network)
      → IsNode sampler s
      → IsNode sampler (sync_loop sampler parse_addr replies s peers locator limit network)
  unfolding sync_loop
  sync_loop-IsNode replies s [] locator limit network safe n = n
  sync_loop-IsNode replies s (peer ∷ peers) locator limit network safe n =
      let synced = sync_from_peer sampler parse_addr s (replies peer) locator limit network in
      sync_loop-IsNode replies (count_result synced) peers locator limit network safe (
        count_result-IsNode synced
          (sync_from_peer-IsNode s (replies peer) locator limit network (safe peer) n))

  -- A round of synchronisation, whatever the peers reply, leaves a node in order; no header that they send
  -- hashes to the zero digest.
  pub sync_once-IsNode :
      (replies : SocketAddr → PeerReplies) (s : NodeState)
      → ((peer : SocketAddr) → SafeReplies (replies peer) s.sync.max_blocks_per_response s.network)
      → IsNode sampler s
      → IsNode sampler (sync_once sampler parse_addr replies s)
  unfolding sync_once
  sync_once-IsNode replies s safe n =
      let s' = exchange_loop sampler parse_addr replies s s.peers s.network.max_peers s.network in
      sync_loop-IsNode replies s' s'.peers (block_locator s.chain s.sync.max_locator_hashes)
        s.sync.max_blocks_per_response s.network safe
        (exchange_loop-IsNode replies s s.peers s.network.max_peers s.network n)
