-- ===== src/Node/Steps/Reach.antt =====
-- The states that a node can get into.
use mathlib.Core.Path.{subst}
use chesscoin.Prelude.{
  ℕ, ◌^◌, ◌≤◌, ◌≡◌, Bool-cases, ◌&&◌, nat_eq, Option, some, inl, inr, List, Bytes, ◌==◌, ok,
  Option-cases, ◌∙◌, ap, sym,
}
use chesscoin.Domain.Digest.{digest_eq}
use chesscoin.Domain.Trace.{Block}
use chesscoin.Ports.{SamplingPort, InRange}
use chesscoin.Application.ForkChoice.{mine_next_block}
use chesscoin.Adapters.{toy_hash}
use chesscoin.Wire.Message.{PeerMessage}
use chesscoin.Wire.Receive.{decode_network_message}
use chesscoin.Node.Address.{SocketAddr}
use chesscoin.Node.State.{NodeState}
use chesscoin.Node.Peers.Book.{HasBook}
use chesscoin.Node.Stream.{Read, Stream, read_limited_line_from}
use chesscoin.Node.Chains.{mined}
use chesscoin.Node.Chains.Mine.{mine_once_result}
use chesscoin.Node.Chains.Whole.{NonZero}
use chesscoin.Node.Dispatch.{
  Outside, count_reached, broadcast_block, announce_to_peers, record_hello_announcements,
  tell_mined, handle_stream, reserve_inbound_connection, accept_connection, release_connection,
  mine_and_tell,
}
use chesscoin.Node.Exchange.{PeerReplies, sync_once}
use chesscoin.Node.Steps.{IsNode, IsSafe, handle_stream-IsNode}
use chesscoin.Node.Steps.Ask.{SafeReplies, sync_once-IsNode}

module _ (sampler : SamplingPort) (addr_text : SocketAddr → Bytes)
    (parse_addr : Bytes → Option SocketAddr) where
  -- One step: a connection is accepted or refused, handled, or over, a round of synchronisation, or a
  -- block that is mined.
  pub data Step : NodeState → NodeState → Type 0 where
    accepts : (s : NodeState) → Step s (accept_connection s).0
    handles :
        (outside : Outside) (s : NodeState) (stream : Stream) (reads : List Read)
        → ((line : Bytes) (m : PeerMessage SocketAddr)
            → (read_limited_line_from reads s.network.max_message_bytes).0 ≡ ok (some line)
            → decode_network_message parse_addr line s.network.wire ≡ ok m
            → IsSafe sampler addr_text parse_addr m)
        → Step s (handle_stream sampler addr_text parse_addr outside s stream reads).0
    releases : (s : NodeState) → Step s (release_connection s)
    syncs :
        (replies : SocketAddr → PeerReplies) (s : NodeState)
        → ((peer : SocketAddr)
            → SafeReplies sampler addr_text parse_addr
                (replies peer)
                s.sync.max_blocks_per_response
                s.network)
        → Step s (sync_once sampler parse_addr replies s)
    mines :
        (outside : Outside) (fuel : ℕ) (s : NodeState) (training_seed sampling_entropy : ℕ)
        (b : Block)
        → InRange sampler
        → s.fork_choice.config.steps_per_block ≤ 2 ^ 64
        → mine_next_block toy_hash fuel s.fork_choice training_seed sampling_entropy ≡ some b
        → NonZero b
        → (t : NodeState)
        → mine_and_tell sampler addr_text parse_addr outside fuel s training_seed sampling_entropy
          ≡ mined t b
        → Step s t

  pub data Reaches : NodeState → NodeState → Type 0 where
    here : (s : NodeState) → Reaches s s
    then_step : (s t u : NodeState) → Reaches s t → Step t u → Reaches s u

  pub accept_connection-IsNode :
      (s : NodeState) → IsNode sampler s → IsNode sampler (accept_connection s).0
  unfolding accept_connection
  accept_connection-IsNode s n =
      elim (Option-cases (
        reserve_inbound_connection s.counters.active_inbound_connections
          s.network.max_inbound_connections)) [
            | inl full ↦
                rw (full, accept_connection) (record { current = n.current; book = n.book })
            | inr (active, free) ↦
                rw (free, accept_connection) (record { current = n.current; book = n.book })
          ]

  mined-injective : {t t' : NodeState} {b b' : Block} → mined t b ≡ mined t' b' → t ≡ t'
  mined-injective e = cc

  pub record_hello_announcements-IsNode :
      (s : NodeState) (sent failed : ℕ)
      → IsNode sampler s
      → IsNode sampler (record_hello_announcements s sent failed)
  unfolding record_hello_announcements
  record_hello_announcements-IsNode s sent failed n = elim (Bool-cases (sent == 0 && failed == 0)) [
    | inl nothing ↦ rw nothing n
    | inr some_peer ↦ rw some_peer (record { current = n.current; book = n.book })
  ]

  told-IsNode :
      (outside : Outside) (s : NodeState)
      → IsNode sampler s
      → IsNode sampler (broadcast_block outside.reaches (announce_to_peers outside.reaches s))
  unfolding broadcast_block announce_to_peers
  told-IsNode outside s n =
      let (sent, failed) = count_reached outside.reaches s.peers in
      let announced = record_hello_announcements-IsNode s sent failed n in
      record { current = announced.current; book = announced.book }

  pub mine_and_tell-IsNode :
      (outside : Outside) (fuel : ℕ) (s : NodeState) (seed entropy : ℕ) (b : Block)
      → InRange sampler
      → s.fork_choice.config.steps_per_block ≤ 2 ^ 64
      → mine_next_block toy_hash fuel s.fork_choice seed entropy ≡ some b
      → NonZero b
      → (t : NodeState)
      → mine_and_tell sampler addr_text parse_addr outside fuel s seed entropy ≡ mined t b
      → IsNode sampler s
      → IsNode sampler t
  unfolding mine_and_tell broadcast_block announce_to_peers
  mine_and_tell-IsNode outside fuel s seed entropy b in_range bound found nonzero t result n =
      let (s', stored, now, _, _, kept) =
        mine_once_result sampler outside.disk fuel s seed entropy b in_range bound n.current found
          nonzero in
      let told = ap (tell_mined sampler addr_text parse_addr outside) stored in
      let same = mined-injective (sym told ∙ result) in
      let before : IsNode sampler s' = record {
        current = now;
        book = subst HasBook (sym kept) n.book;
      } in
      subst (IsNode sampler) same (told-IsNode outside s' before)

  Step-IsNode : (s t : NodeState) → Step s t → IsNode sampler s → IsNode sampler t
  Step-IsNode _ _ (accepts s) n = accept_connection-IsNode s n
  Step-IsNode _ _ (handles outside s stream reads safe) n =
      handle_stream-IsNode sampler addr_text parse_addr outside s stream reads safe n
  Step-IsNode _ _ (releases s) n = record { current = n.current; book = n.book }
  Step-IsNode _ _ (mines outside fuel s seed entropy b in_range bound found nonzero t result) n =
      mine_and_tell-IsNode outside fuel s seed entropy b in_range bound found nonzero t result n
  Step-IsNode _ _ (syncs replies s safe) n =
      sync_once-IsNode sampler addr_text parse_addr replies s safe n

  -- Whatever connections a node accepts, whatever is read from them, whatever it mines and whatever
  -- its peers reply, the node serves the best chain of its fork choice, and its peers may all be
  -- dialed, none is itself, none stands twice and there are no more than allowed; no block and no
  -- header that arrives hashes to the zero digest.
  pub Reaches-IsNode : (s t : NodeState) → Reaches s t → IsNode sampler s → IsNode sampler t
  Reaches-IsNode _ _ (here s) n = n
  Reaches-IsNode _ _ (then_step s t u before step) n =
      Step-IsNode t u step (Reaches-IsNode s t before n)
