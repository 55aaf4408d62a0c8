-- ===== src/Node/Peers.antt =====
-- The peer book of crates/chesscoin-node/src/runtime.rs.
pub mod Book
pub mod Advertise
use chesscoin.Prelude.{
  ℕ, zero, suc, ◌+◌, ◌≤◌, ◌<◌, ◌≡◌, refl, Bool, true, false, ◌||◌, not, List, [], ◌∷◌, ◌++◌, length,
  contains, leb, if◌then◌else◌, ◌==◌,
}
use chesscoin.Node.Address.{SocketAddr, addr_eq, peer_address_is_dialable}
use chesscoin.Node.State.{NodeState, Counters}

-- Why a peer is refused.
abbrev pub is_refused : SocketAddr → SocketAddr → ℕ → List SocketAddr → SocketAddr → Bool
is_refused bound_addr advertised_addr max_peers peers peer =
    not (peer_address_is_dialable peer)
    || peer == bound_addr
    || peer == advertised_addr
    || contains peers peer
    || leb max_peers (length peers)

-- The loop of `normalize_initial_peers`: the peers accepted and the number rejected.
unfoldable pub normalize_loop :
    SocketAddr → SocketAddr → ℕ → List SocketAddr → List SocketAddr → ℕ → List SocketAddr × ℕ
normalize_loop bound_addr advertised_addr max_peers [] accepted rejected = (accepted, rejected)
normalize_loop bound_addr advertised_addr max_peers (peer ∷ peers) accepted rejected =
    let refused =
      normalize_loop bound_addr advertised_addr max_peers peers accepted (rejected + 1) in
    let added =
      normalize_loop bound_addr advertised_addr max_peers peers (accepted ++ peer ∷ []) rejected in
    if is_refused bound_addr advertised_addr max_peers accepted peer then refused else added

unfoldable pub normalize_initial_peers :
    SocketAddr → SocketAddr → List SocketAddr → ℕ → List SocketAddr × ℕ
unfolding normalize_loop
normalize_initial_peers bound_addr advertised_addr peers max_peers =
    normalize_loop bound_addr advertised_addr max_peers peers [] 0

-- The new state and whether the peer was added.
unfoldable pub add_peer_to_state : NodeState → SocketAddr → NodeState × Bool
add_peer_to_state s peer =
    if is_refused s.bound_addr s.advertised_addr s.network.max_peers s.peers peer
    then (s, false)
    else (record s { peers = s.peers ++ peer ∷ [] }, true)

abbrev pub count_rejection : NodeState → NodeState
count_rejection s = record s {
  counters = record s.counters { peer_rejections = s.counters.peer_rejections + 1 };
}

unfoldable pub add_peer : NodeState → SocketAddr → NodeState × Bool
unfolding add_peer_to_state
add_peer s peer =
    let (s', added) = add_peer_to_state s peer in
    if added then (s', true) else (count_rejection s', false)

-- The loop of `exchange_peers_with` over what a peer advertised.
unfoldable pub add_advertised : NodeState → List SocketAddr → NodeState
unfolding add_peer
add_advertised s [] = s
add_advertised s (peer ∷ peers) = add_advertised (add_peer s peer).0 peers

-- The loop of `peer_advertisement`: it stops at the limit and leaves out what it has.
unfoldable pub advertise_loop : ℕ → List SocketAddr → List SocketAddr → List SocketAddr
advertise_loop limit [] peers = peers
advertise_loop limit (peer ∷ rest) peers =
    let next =
      advertise_loop limit rest (if contains peers peer then peers else peers ++ peer ∷ []) in
    if leb limit (length peers) then peers else next

unfoldable pub peer_advertisement : NodeState → ℕ → List SocketAddr
unfolding advertise_loop
peer_advertisement s limit = advertise_loop limit (s.advertised_addr ∷ s.peers) []
