-- ===== src/Node/Peers/Advertise.antt =====
-- The peers that a node tells of.
use chesscoin.Prelude.{
  ℕ, ◌≤◌, arith, Bool-cases, inl, inr, List, [], ◌∷◌, ◌++◌, length, length-append, contains,
  Distinct, push-Distinct, leb,
}
use chesscoin.Node.Address.{SocketAddr, addr_eq}
use chesscoin.Node.State.{NodeState}
use chesscoin.Node.Peers.{advertise_loop, peer_advertisement}

advertise_loop-Distinct :
    (limit : ℕ) (rest peers : List SocketAddr)
    → Distinct peers
    → length peers ≤ limit
    → let advertised = advertise_loop limit rest peers in
      Distinct advertised × (length advertised ≤ limit)
unfolding advertise_loop
advertise_loop-Distinct limit [] peers d fits = (d, fits)
advertise_loop-Distinct limit (peer ∷ rest) peers d fits =
    elim (Bool-cases (leb limit (length peers))) [
      | inl full ↦ rw full (d, fits)
      | inr free ↦ elim (Bool-cases (contains peers peer)) [
        | inl known ↦ rw (free, known) (advertise_loop-Distinct limit rest peers d fits)
        | inr new_peer ↦
            rw (free, new_peer)
              (advertise_loop-Distinct limit rest (peers ++ peer ∷ [])
                (push-Distinct peers peer d new_peer)
                (ground (arith, length-append peers (peer ∷ []))))
      ]
    ]

-- A node tells of no more peers than it is asked for, and of none twice.
pub peer_advertisement-Distinct :
    (s : NodeState) (limit : ℕ)
    → let advertised = peer_advertisement s limit in
      Distinct advertised × (length advertised ≤ limit)
unfolding peer_advertisement
peer_advertisement-Distinct s limit =
    advertise_loop-Distinct limit (s.advertised_addr ∷ s.peers) [] tt (omega arith)
