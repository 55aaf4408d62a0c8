-- ===== src/Node/Start/Outcome.antt =====
-- What `start_node` of crates/chesscoin-node/src/runtime.rs starts with.
use mathlib.Core.Path.{subst}
use chesscoin.Prelude.{
  ◌≡◌, refl, All, Bool, true, Bool-cases, ◌&&◌, Option, none, some, inl, inr, Bytes, length, ◌+◌,
  ◌==◌, nat_eq, Result, ok, err, ap, sym, ◌∙◌, map_err,
}
use chesscoin.Ports.{SamplingPort}
use chesscoin.Application.Config.{ChainConfig}
use chesscoin.Application.Chain.{ChainState}
use chesscoin.Application.ForkChoice.{ForkChoiceState}
use chesscoin.Wire.Message.{fingerprint}
use chesscoin.Node.Address.{SocketAddr, peer_address_is_dialable}
use chesscoin.Node.Config.{NodeConfig, StorageConfig, validate_node_config}
use chesscoin.Node.State.{NodeState}
use chesscoin.Node.Peers.Book.{IsChoice, normalize_initial_peers-IsBook}
use chesscoin.Node.Chains.Current.{IsCurrent}
use chesscoin.Node.Load.{LoadError, lines}
use chesscoin.Node.Load.Loaded.{LoadsChains, IsSafeLine, new-IsCurrent, load_chains-IsCurrent}
use chesscoin.Node.Dispatch.{count_reached, announce_to_peers, record_hello_announcements}
use chesscoin.Node.Steps.{IsNode}
use chesscoin.Node.Start.{
  StartError, Machine, unwrap_or, invalid_storage, read_chains, initial_chains, initial_state,
  start_node,
}

-- The announcements change nothing but their own counters.
announced :
    (reaches : SocketAddr → Bool) (s : NodeState)
    → let s' = announce_to_peers reaches s in
      (s' ≡ record s { counters = s'.counters })
      × (s'.counters.peer_rejections ≡ s.counters.peer_rejections)
unfolding announce_to_peers record_hello_announcements
announced reaches s =
    let (sent, failed) = count_reached reaches s.peers in
    elim (Bool-cases (sent == 0 && failed == 0)) [
      | inl nothing ↦ rw nothing (refl, refl)
      | inr some_peer ↦ rw some_peer (refl, refl)
    ]

module _ (sampler : SamplingPort) (parse_addr : Bytes → Option SocketAddr) where
  -- No block of the file hashes to the zero digest.
  abbrev pub IsSafeFile : ChainConfig → Option Bytes → Type 0
  IsSafeFile config none = Unit
  IsSafeFile config (some content) = All (IsSafeLine sampler parse_addr config) (lines content)

  abbrev Serves : Result (ChainState × ForkChoiceState) StartError → Type 0
  Serves (ok (chain, fork)) = IsCurrent sampler chain fork
  Serves (err e) = Unit

  loaded_chains :
      (config : ChainConfig) (r : Result (ChainState × ForkChoiceState) LoadError)
      → LoadsChains sampler parse_addr config r
      → Serves (map_err invalid_storage r)
  loaded_chains config (ok chains) h = h
  loaded_chains config (err e) h = tt

  read_chains-Serves :
      (file : Option Bytes) (config : ChainConfig)
      → IsSafeFile config file
      → Serves (read_chains sampler parse_addr file config)
  read_chains-Serves none config safe = tt
  read_chains-Serves (some content) config safe =
      loaded_chains config _ (load_chains-IsCurrent sampler parse_addr config content safe)

  initial_chains-Serves :
      (machine : Machine) (storage : Option StorageConfig) (config : ChainConfig)
      → IsSafeFile config machine.file
      → Serves (initial_chains sampler parse_addr machine storage config)
  unfolding initial_chains
  initial_chains-Serves machine none config safe = new-IsCurrent sampler parse_addr config
  initial_chains-Serves machine (some storage) config safe = elim (Bool-cases machine.locks) [
    | inr locked ↦ rw locked tt
    | inl free ↦ rw free (read_chains-Serves machine.file config safe)
  ]

  -- A valid configuration whose address is dialable starts a node, if the chains can be loaded: it
  -- has these chains and the addresses that it listens on and advertises, and serves the best chain of
  -- its fork choice. Its peers are peers of the configuration, in its order, may all be dialed, none is
  -- itself, none stands twice and there are no more than allowed; a configured peer that is not among
  -- them may not be dialed, is the node itself, or there are as many as allowed, and as many as are left
  -- out are counted as rejected. The fingerprint of its wire is that of its chain configuration. No
  -- stored block hashes to the zero digest.
  pub start_node_result :
      (machine : Machine) (config : NodeConfig) (bound_addr : SocketAddr) (chain : ChainState)
      (fork : ForkChoiceState)
      → validate_node_config config ≡ ok tt
      → machine.listens_on ≡ some bound_addr
      → peer_address_is_dialable (unwrap_or config.advertise_addr bound_addr) ≡ true
      → initial_chains sampler parse_addr machine config.storage config.chain ≡ ok (chain, fork)
      → IsSafeFile config.chain machine.file
      → (s : NodeState) × (start_node sampler parse_addr machine config ≡ ok s)
        × IsNode sampler s
        × (s.chain ≡ chain)
        × (s.fork_choice ≡ fork)
        × (s.bound_addr ≡ bound_addr)
        × (s.advertised_addr ≡ unwrap_or config.advertise_addr bound_addr)
        × IsChoice s.bound_addr s.advertised_addr config.network.max_peers config.peers s.peers
        × (length s.peers + s.counters.peer_rejections ≡ length config.peers)
        × (s.network.wire.chain_fingerprint ≡ fingerprint config.chain)
  unfolding start_node initial_state
  start_node_result machine config bound_addr chain fork valid listens dialable found safe =
      let advertised_addr = unwrap_or config.advertise_addr bound_addr in
      let s =
        initial_state sampler parse_addr machine config bound_addr advertised_addr (chain, fork) in
      let (same, counted) = announced machine.reaches s in
      let (book, choice, count) =
        normalize_initial_peers-IsBook bound_addr advertised_addr config.peers
          config.network.max_peers in
      let current =
        subst Serves found (initial_chains-Serves machine config.storage config.chain safe) in
      (
        announce_to_peers machine.reaches s,
        rw (valid, listens, dialable, found) refl,
        subst (IsNode sampler) (sym same) (record { current = current; book = book }),
        ap (λ (t : NodeState). t.chain) same,
        ap (λ (t : NodeState). t.fork_choice) same,
        ap (λ (t : NodeState). t.bound_addr) same,
        ap (λ (t : NodeState). t.advertised_addr) same,
        subst
            (λ (t : NodeState).
              IsChoice t.bound_addr t.advertised_addr config.network.max_peers config.peers t.peers)
            (sym same) choice,
        ap
              (λ (t : NodeState).
                length t.peers + (announce_to_peers machine.reaches s).counters.peer_rejections)
              same
            ∙ ap (λ n. length s.peers + n) counted
            ∙ count,
        ap (λ (t : NodeState). t.network.wire.chain_fingerprint) same,
      )
