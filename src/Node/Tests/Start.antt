-- ===== src/Node/Tests/Start.antt =====
-- A node that starts with an empty file and three configured peers.
use chesscoin.Prelude.{◌≡◌, refl, true, some, none, [], ◌∷◌, text, length, ◌+◌, ok}
use chesscoin.Application.Config.{validate, default_config}
use chesscoin.Application.Chain
use chesscoin.Application.ForkChoice
use chesscoin.Wire.Message.{fingerprint, default_wire_config}
use chesscoin.Node.Address.{peer_address_is_dialable, ip_is_unspecified, is_multicast}
use chesscoin.Node.Config.{
  NodeConfig, is_blank, default_network, localhost_ephemeral, validate_node_config,
}
use chesscoin.Node.State.{NodeState}
use chesscoin.Node.Chains.{chain_from_blocks, apply_all}
use chesscoin.Node.Peers.Book.{IsChoice}
use chesscoin.Node.Load.{lines, lines_from, load_loop, load_chains}
use chesscoin.Node.Steps.{IsNode}
use chesscoin.Node.Start.{Machine, initial_chains, start_node}
use chesscoin.Node.Start.Outcome.{start_node_result}
use chesscoin.Node.Tests.Peers.{host}
use chesscoin.Node.Tests.Blocks.{no_sampler, no_address}

abbrev machine : Machine
machine = record {
  listens_on = some (host 1);
  locks = true;
  file = some [];
  reaches = λ peer. true;
}

abbrev configured : NodeConfig
configured = record (localhost_ephemeral (text "node")) {
  advertise_addr = none;
  peers = host 2 ∷ host 1 ∷ host 2 ∷ [];
  storage = some (record { data_dir = text "data" });
}

configured_valid : validate_node_config configured ≡ ok tt
unfolding validate_node_config localhost_ephemeral default_network default_wire_config is_blank
    validate ip_is_unspecified
configured_valid = refl

machine_dialable : peer_address_is_dialable (host 1) ≡ true
unfolding peer_address_is_dialable ip_is_unspecified is_multicast
machine_dialable = refl

empty_file :
    initial_chains no_sampler no_address machine configured.storage configured.chain
    ≡ ok (Chain.new default_config, ForkChoice.new default_config)
unfolding initial_chains localhost_ephemeral load_chains lines lines_from load_loop
    ForkChoice.best_chain chain_from_blocks apply_all
empty_file = refl

start_node_result_example :
    (s : NodeState) × (start_node no_sampler no_address machine configured ≡ ok s)
    × IsNode no_sampler s
    × (s.chain ≡ Chain.new default_config)
    × (s.fork_choice ≡ ForkChoice.new default_config)
    × (s.bound_addr ≡ host 1)
    × (s.advertised_addr ≡ host 1)
    × IsChoice s.bound_addr s.advertised_addr configured.network.max_peers configured.peers s.peers
    × (length s.peers + s.counters.peer_rejections ≡ 3)
    × (s.network.wire.chain_fingerprint ≡ fingerprint default_config)
unfolding lines lines_from localhost_ephemeral
start_node_result_example =
    start_node_result no_sampler no_address machine configured (host 1) (Chain.new default_config)
      (ForkChoice.new default_config) configured_valid refl machine_dialable empty_file tt
