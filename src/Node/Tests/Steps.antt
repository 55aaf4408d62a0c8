-- ===== src/Node/Tests/Steps.antt =====
-- A node with one peer: a connection, and a round of synchronisation.
use mathlib.Core.List.{map}
use chesscoin.Prelude.{
  ◌≤◌, ◌≡◌, ◌⊎◌, refl, arith, All, true, some, none, [], ◌∷◌, ◌++◌, length, Bytes, text, Distinct,
  ok, err,
}
use chesscoin.Domain.Digest.{digest_eq}
use chesscoin.Application.ForkChoice.{contains_block}
use chesscoin.Node.Address.{SocketAddr, addr_eq, peer_address_is_dialable, addr_beq}
use chesscoin.Node.Config.{default_network}
use chesscoin.Node.State.{NodeState}
use chesscoin.Node.Locator.{hash_of}
use chesscoin.Node.Peers.{peer_advertisement}
use chesscoin.Node.Peers.Advertise.{peer_advertisement-Distinct}
use chesscoin.Node.Storage.{healthy}
use chesscoin.Node.Stream.{byte, fails, Stream, read_limited_line_from, is_utf8, read_loop}
use chesscoin.Node.Stream.Limit.{read_limited_line_from-line}
use chesscoin.Node.Chains.Current.{IsCurrent}
use chesscoin.Node.Dispatch.{Outside, accept_connection, handle_stream}
use chesscoin.Node.Exchange.{
  PeerReplies, count_oversized_reply, read_reply, headers_from_peer, blocks_from_peer, sync_once,
}
use chesscoin.Node.Exchange.Blocks.{blocks_from_peer_outcome}
use chesscoin.Node.Steps.{IsNode}
use chesscoin.Node.Steps.Reach.{Step, accepts, handles, syncs, here, then_step, Reaches-IsNode}
use chesscoin.Node.Tests.{block_at, first_nonzero}
use chesscoin.Node.Tests.Peers.{host, idle}
use chesscoin.Node.Tests.Blocks.{no_sampler, no_address, idle-IsCurrent}

abbrev pub no_text : SocketAddr → Bytes
no_text addr = []

abbrev pub linked : NodeState
linked = record (idle none) { peers = host 2 ∷ [] }

pub linked-IsNode : IsNode no_sampler linked
unfolding peer_address_is_dialable addr_beq default_network
linked-IsNode = record {
  current = idle-IsCurrent none;
  book = record {
    each = (record { dialable = refl; not_bound = refl; not_advertised = refl }, tt);
    distinct = (refl, tt);
    bounded = omega arith;
  };
}

abbrev pub outside : Outside
outside = record { disk = healthy; reaches = λ peer. true }

abbrev nothing_sent : Stream
nothing_sent = record { takes = none; flushes = true; sent = [] }

abbrev pub silent : SocketAddr → PeerReplies
silent peer = record {
  peers_reply = some (fails ∷ []);
  headers_reply = some (fails ∷ []);
  blocks_reply = none;
  disks = λ n. healthy;
}

abbrev accepted_state : NodeState
accepted_state = (accept_connection linked).0

abbrev handled : NodeState
handled =
    (handle_stream no_sampler no_text no_address outside accepted_state nothing_sent (fails ∷ [])).0

abbrev synced : NodeState
synced = sync_once no_sampler no_address silent handled

handles_failure : Step no_sampler no_text no_address accepted_state handled
unfolding read_limited_line_from read_loop
handles_failure =
    handles outside accepted_state nothing_sent (fails ∷ []) (λ line m read decoded. absurd (cc))

syncs_in_vain : Step no_sampler no_text no_address handled synced
unfolding headers_from_peer read_reply read_limited_line_from read_loop
syncs_in_vain = syncs silent handled (λ peer hs read. absurd (cc))

Reaches-IsNode_example : IsNode no_sampler synced
Reaches-IsNode_example =
    Reaches-IsNode no_sampler no_text no_address linked synced
      (then_step linked handled synced
        (then_step linked accepted_state handled
          (then_step linked linked accepted_state (here linked) (accepts linked)) handles_failure)
        syncs_in_vain)
      linked-IsNode

blocks_from_peer_outcome_example :
    let (s', result) =
      blocks_from_peer no_sampler no_address
        (λ n. healthy)
        linked
        (some (fails ∷ []))
        (hash_of (block_at 0) ∷ [])
        linked.network in
    ((result ≡ err tt) × ((s' ≡ linked) ⊎ (s' ≡ count_oversized_reply linked)))
    ⊎ ((result ≡ ok tt)
        × IsCurrent no_sampler s'.chain s'.fork_choice
        × All (λ h. contains_block s'.fork_choice h ≡ true) (hash_of (block_at 0) ∷ []))
blocks_from_peer_outcome_example =
    blocks_from_peer_outcome no_sampler no_address (λ n. healthy) linked (some (fails ∷ []))
      (hash_of (block_at 0) ∷ []) linked.network (idle-IsCurrent none) (first_nonzero, tt)

valid_text : is_utf8 (text "hi" ++ b'\n' ∷ []) ≡ true
unfolding is_utf8
valid_text = refl

read_limited_line_from-line_example :
    read_limited_line_from (map byte (text "hi" ++ b'\n' ∷ []) ++ fails ∷ []) 128
    ≡ (ok (some (text "hi" ++ b'\n' ∷ [])), fails ∷ [])
read_limited_line_from-line_example =
    read_limited_line_from-line (text "hi") (fails ∷ []) 128 (ground arith) (omega arith) valid_text

peer_advertisement-Distinct_example :
    let advertised = peer_advertisement linked 1 in Distinct advertised × (length advertised ≤ 1)
peer_advertisement-Distinct_example = peer_advertisement-Distinct linked 1
