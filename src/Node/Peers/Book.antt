-- ===== src/Node/Peers/Book.antt =====
-- Which peers the book holds, and which ones are advertised.
use mathlib.Core.Path.{subst}
use mathlib.Core.List.{Sublist, nil-sublist}
use mathlib.Core.List.Sublist
use chesscoin.Prelude.{
  ℕ, ◌+◌, ◌≤◌, ◌≡◌, refl, ◌∙◌, sym, ◌⊎◌, ==_iff, append-nil, append_assoc, contains,
  contains-append, arith, All, All-append, true, false, Bool-cases, inl, inr, List, [], ◌∷◌, ◌++◌,
  length, length-append, Distinct, push-Distinct, ◌==◌,
}
use chesscoin.Node.Address.{SocketAddr, addr_eq, peer_address_is_dialable}
use chesscoin.Node.State.{NodeState}
use chesscoin.Node.Peers.{
  is_refused, normalize_loop, normalize_initial_peers, add_peer_to_state, add_peer, add_advertised,
}

-- A peer that a node may dial: not one of its own addresses.
pub record IsPeer (bound_addr advertised_addr peer : SocketAddr) : Type 0 where
  pub dialable : peer_address_is_dialable peer ≡ true
  pub not_bound : (peer == bound_addr) ≡ false
  pub not_advertised : (peer == advertised_addr) ≡ false

-- The peers of a node: dialable, none of them itself, none twice, and no more than allowed.
pub record IsBook (bound_addr advertised_addr : SocketAddr) (max_peers : ℕ)
    (peers : List SocketAddr) : Type 0 where
  pub each : All (IsPeer bound_addr advertised_addr) peers
  pub distinct : Distinct peers
  pub bounded : length peers ≤ max_peers

module _ (bound_addr advertised_addr : SocketAddr) (max_peers : ℕ) where
  empty-IsBook : IsBook bound_addr advertised_addr max_peers []
  empty-IsBook = record { each = tt; distinct = tt; bounded = omega arith }

  -- A peer that is not refused may join.
  push-IsBook :
      (peers : List SocketAddr) (peer : SocketAddr)
      → IsBook bound_addr advertised_addr max_peers peers
      → is_refused bound_addr advertised_addr max_peers peers peer ≡ false
      → IsBook bound_addr advertised_addr max_peers (peers ++ peer ∷ [])
  push-IsBook peers peer b h =
      let joined : IsPeer bound_addr advertised_addr peer = ground arith in
      record {
        each = All-append (IsPeer bound_addr advertised_addr) peers (peer ∷ []) b.each (joined, tt);
        distinct = push-Distinct peers peer b.distinct (ground arith);
        bounded = ground (arith, length-append peers (peer ∷ []));
      }

  normalize_loop-IsBook :
      (peers accepted : List SocketAddr) (rejected : ℕ)
      → IsBook bound_addr advertised_addr max_peers accepted
      → let (book, refused) =
          normalize_loop bound_addr advertised_addr max_peers peers accepted rejected in
        IsBook bound_addr advertised_addr max_peers book
        × (length book + refused ≡ length accepted + rejected + length peers)
  unfolding normalize_loop
  normalize_loop-IsBook [] accepted rejected b = (b, omega arith)
  normalize_loop-IsBook (peer ∷ peers) accepted rejected b =
      elim (Bool-cases (is_refused bound_addr advertised_addr max_peers accepted peer)) [
        | inl refused ↦
            let (book, count) = normalize_loop-IsBook peers accepted (rejected + 1) b in
            rw refused (book, omega (arith, count))
        | inr added ↦
            let (book, count) =
              normalize_loop-IsBook peers (accepted ++ peer ∷ []) rejected
                (push-IsBook accepted peer b added) in
            rw added (book, omega (arith, count, length-append accepted (peer ∷ [])))
      ]

module _ (bound_addr advertised_addr : SocketAddr) (max_peers : ℕ) where
  -- What became of a configured peer: it is in the book, or it may not be dialed, is the node itself,
  -- or the book is full.
  abbrev pub IsSettled : List SocketAddr → SocketAddr → Type 0
  IsSettled book peer =
      (contains book peer ≡ true)
      ⊎ (peer_address_is_dialable peer ≡ false)
      ⊎ (peer ≡ bound_addr)
      ⊎ (peer ≡ advertised_addr)
      ⊎ (max_peers ≤ length book)

  -- The book holds peers of the configuration, in its order, and leaves none out without a reason.
  pub record IsChoice (peers book : List SocketAddr) : Type 0 where
    pub from : Sublist book peers
    pub settled : All (IsSettled book) peers

  settled_now :
      (accepted more : List SocketAddr) (peer : SocketAddr)
      → is_refused bound_addr advertised_addr max_peers accepted peer ≡ true
      → IsSettled (accepted ++ more) peer
  settled_now accepted more peer h = elim (Bool-cases (peer_address_is_dialable peer)) [
    | inr undialable ↦ inr (inl undialable)
    | inl dialable ↦ elim (Bool-cases (peer == bound_addr)) [
      | inl own ↦ inr (inr (inl ((==_iff peer bound_addr).0 own)))
      | inr not_bound ↦ elim (Bool-cases (peer == advertised_addr)) [
        | inl own ↦ inr (inr (inr (inl ((==_iff peer advertised_addr).0 own))))
        | inr not_advertised ↦ elim (Bool-cases (contains accepted peer)) [
          | inl known ↦ inl (rw (contains-append accepted more peer, known) refl)
          | inr unknown ↦
              let full : max_peers ≤ length accepted = ground (arith) in
              inr (inr (inr (inr (omega (arith, full, length-append accepted more)))))
        ]
      ]
    ]
  ]

  -- What the loop adds to the peers accepted so far.
  normalize_loop_lem :
      (peers accepted : List SocketAddr) (rejected : ℕ)
      → let book =
          (normalize_loop bound_addr advertised_addr max_peers peers accepted rejected).0 in
        (more : List SocketAddr) × (book ≡ accepted ++ more)
        × Sublist more peers
        × All (IsSettled (accepted ++ more)) peers
  unfolding normalize_loop
  normalize_loop_lem [] accepted rejected = ([], sym (append-nil accepted), nil-sublist [], tt)
  normalize_loop_lem (peer ∷ peers) accepted rejected =
      elim (Bool-cases (is_refused bound_addr advertised_addr max_peers accepted peer)) [
        | inl refused ↦
            let (more, same, from, rest) = normalize_loop_lem peers accepted (rejected + 1) in
            (
              more,
              rw refused same,
              Sublist.cons peer from,
              (settled_now accepted more peer refused, rest),
            )
        | inr added ↦
            let (more, same, from, rest) =
              normalize_loop_lem peers (accepted ++ peer ∷ []) rejected in
            let moved = append_assoc accepted (peer ∷ []) more in
            (
              peer ∷ more,
              rw added (same ∙ moved),
              Sublist.cons-cons peer from,
              (
                inl (ground (arith, contains-append accepted (peer ∷ more) peer, ==_iff peer peer)),
                subst (λ book. All (IsSettled book) peers) moved rest,
              ),
            )
      ]

-- The peers that a node starts with are peers of the configuration, in its order, may all be dialed,
-- none is itself, none stands twice and there are no more than allowed; a configured peer that is not
-- among them may not be dialed, is the node itself, or there are as many as allowed; as many peers as
-- are left out are counted as rejected.
pub normalize_initial_peers-IsBook :
    (bound_addr advertised_addr : SocketAddr) (peers : List SocketAddr) (max_peers : ℕ)
    → let (book, rejected) = normalize_initial_peers bound_addr advertised_addr peers max_peers in
      IsBook bound_addr advertised_addr max_peers book
      × IsChoice bound_addr advertised_addr max_peers peers book
      × (length book + rejected ≡ length peers)
unfolding normalize_initial_peers
normalize_initial_peers-IsBook bound_addr advertised_addr peers max_peers =
    let (book, count) =
      normalize_loop-IsBook bound_addr advertised_addr max_peers peers [] 0
        (empty-IsBook bound_addr advertised_addr max_peers) in
    let (more, same, from, settled) =
      normalize_loop_lem bound_addr advertised_addr max_peers peers [] 0 in
    (book, rw same (record { from = from; settled = settled }), omega (arith, count))

abbrev pub HasBook : NodeState → Type 0
HasBook s = IsBook s.bound_addr s.advertised_addr s.network.max_peers s.peers

pub add_peer_to_state-HasBook :
    (s : NodeState) (peer : SocketAddr) → HasBook s → HasBook (add_peer_to_state s peer).0
unfolding add_peer_to_state
add_peer_to_state-HasBook s peer b =
    elim (Bool-cases (is_refused s.bound_addr s.advertised_addr s.network.max_peers s.peers peer)) [
      | inl refused ↦ rw refused b
      | inr added ↦
          rw added
            (push-IsBook s.bound_addr s.advertised_addr s.network.max_peers s.peers peer b added)
    ]

-- Adding a peer, with its rejection counted, keeps the book.
pub add_peer-HasBook : (s : NodeState) (peer : SocketAddr) → HasBook s → HasBook (add_peer s peer).0
unfolding add_peer
add_peer-HasBook s peer b =
    let kept = add_peer_to_state-HasBook s peer b in
    elim (Bool-cases (add_peer_to_state s peer).1) [
      | inl added ↦ rw added kept
      | inr refused ↦ rw refused kept
    ]

-- Whatever a peer advertises, the peers of the node may all be dialed, none is itself, none stands
-- twice and there are no more than allowed, if that was so before.
pub add_advertised-HasBook :
    (s : NodeState) (peers : List SocketAddr) → HasBook s → HasBook (add_advertised s peers)
unfolding add_advertised
add_advertised-HasBook s [] b = b
add_advertised-HasBook s (peer ∷ peers) b =
    add_advertised-HasBook (add_peer s peer).0 peers (add_peer-HasBook s peer b)
