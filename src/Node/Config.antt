-- ===== src/Node/Config.antt =====
-- The configuration of a node: `NodeConfig` and its parts, with `validate_node_config`, of
-- crates/chesscoin-node/src/runtime.rs. A duration is a number of nanoseconds.
use chesscoin.Prelude.{
  ℕ, ◌+◌, ◌*◌, ◌^◌, Bool, true, false, ◌&&◌, ◌||◌, not, Option, some, none, List, [], ◌∷◌, Bytes,
  ltb, leb, if◌then◌else◌, ◌==◌, nat_eq, list_eq, Result, ok, err, ◌>>◌, map_err,
}
use chesscoin.Application.Config.{ChainConfig, ChainConfigError, default_config, validate}
use chesscoin.Wire.Message.{WireConfig, default_wire_config}
use chesscoin.Node.Address.{SocketAddr, v4, peer_address_is_dialable, ip_is_unspecified}

abbrev pub min_max_message_bytes : ℕ
min_max_message_bytes = 128

pub record MinerConfig : Type 0 where
  pub interval : ℕ

abbrev pub default_miner : MinerConfig
default_miner = record { interval = 5_000_000_000 }

pub record StorageConfig : Type 0 where
  pub data_dir : Bytes

pub record NetworkConfig : Type 0 where
  pub wire : WireConfig
  pub max_message_bytes : ℕ
  pub max_peers : ℕ
  pub max_inbound_connections : ℕ
  pub connect_timeout : ℕ
  pub read_timeout : ℕ
  pub write_timeout : ℕ

pub record SyncConfig : Type 0 where
  pub enabled : Bool
  pub interval : ℕ
  pub max_blocks_per_response : ℕ
  pub max_locator_hashes : ℕ

abbrev pub default_sync : SyncConfig
default_sync = record {
  enabled = true;
  interval = 5_000_000_000;
  max_blocks_per_response = 128;
  max_locator_hashes = 32;
}

unfoldable pub default_network : NetworkConfig
unfolding default_wire_config
default_network = record {
  wire = default_wire_config;
  max_message_bytes = 1024 * 1024;
  max_peers = 64;
  max_inbound_connections = 64;
  connect_timeout = 500_000_000;
  read_timeout = 5_000_000_000;
  write_timeout = 5_000_000_000;
}

pub record NodeConfig : Type 0 where
  pub node_id : Bytes
  pub listen_addr : SocketAddr
  pub advertise_addr : Option SocketAddr
  pub peers : List SocketAddr
  pub chain : ChainConfig
  pub mine_once_on_start : Bool
  pub miner : Option MinerConfig
  pub storage : Option StorageConfig
  pub network : NetworkConfig
  pub sync : SyncConfig

abbrev localhost : SocketAddr
localhost = record { ip = v4 (127 * 2 ^ 24 + 1); port = 0; flow_info = 0; scope_id = 0 }

unfoldable pub localhost_ephemeral : Bytes → NodeConfig
unfolding default_network
localhost_ephemeral node_id = record {
  node_id = node_id;
  listen_addr = localhost;
  advertise_addr = none;
  peers = [];
  chain = default_config;
  mine_once_on_start = false;
  miner = none;
  storage = none;
  network = default_network;
  sync = default_sync;
}

-- `trim().is_empty()`: nothing but white space, whose characters beyond ASCII have two or three
-- bytes.
unfoldable pub is_blank : Bytes → Bool
is_blank [] = true
is_blank (b ∷ []) = (leb 9 b && leb b 13) || b == 32
is_blank (b ∷ c ∷ []) =
    let rest = is_blank (c ∷ []) in
    if (leb 9 b && leb b 13) || b == 32 then rest else b == 0xc2 && (c == 0x85 || c == 0xa0)
is_blank (b ∷ c ∷ d ∷ bs) =
    let one = is_blank (c ∷ d ∷ bs) in
    let two = is_blank (d ∷ bs) in
    let three = is_blank bs in
    if (leb 9 b && leb b 13) || b == 32
    then one
    else if b == 0xc2 && (c == 0x85 || c == 0xa0)
    then two
    else if (b == 0xe1 && c == 0x9a && d == 0x80)
        || (b == 0xe2
            && c == 0x80
            && ((leb 0x80 d && leb d 0x8a) || d == 0xa8 || d == 0xa9 || d == 0xaf))
        || (b == 0xe2 && c == 0x81 && d == 0x9f)
        || (b == 0xe3 && c == 0x80 && d == 0x80)
    then three
    else false

-- What `validate_node_config` refuses; the source has a text for each.
pub data NodeConfigError : Type 0 where
  empty_node_id empty_network_id zero_protocol_version missing_advertise_addr : NodeConfigError
  invalid_chain : ChainConfigError → NodeConfigError
  undialable_advertise_addr : SocketAddr → NodeConfigError
  small_max_message_bytes zero_max_peers zero_max_inbound_connections : NodeConfigError
  zero_connect_timeout zero_read_timeout zero_write_timeout : NodeConfigError
  zero_sync_interval zero_max_blocks_per_response zero_max_locator_hashes : NodeConfigError
  zero_miner_interval empty_data_dir : NodeConfigError

abbrev pub Checked : Type 0
Checked = Result (Unit {0}) NodeConfigError

abbrev refuse_if : Bool → NodeConfigError → Checked
refuse_if true e = err e
refuse_if false e = ok tt

unfoldable pub validate_miner_config : MinerConfig → Checked
validate_miner_config config = refuse_if (config.interval == 0) zero_miner_interval

abbrev check_advertise : Option SocketAddr → SocketAddr → Checked
check_advertise none listen_addr =
    refuse_if (ip_is_unspecified listen_addr.ip) missing_advertise_addr
check_advertise (some addr) listen_addr =
    refuse_if (not (peer_address_is_dialable addr)) (undialable_advertise_addr addr)

abbrev check_network : NetworkConfig → Checked
check_network network = do
  refuse_if (ltb network.max_message_bytes min_max_message_bytes) small_max_message_bytes
  refuse_if (network.max_peers == 0) zero_max_peers
  refuse_if (network.max_inbound_connections == 0) zero_max_inbound_connections
  refuse_if (network.connect_timeout == 0) zero_connect_timeout
  refuse_if (network.read_timeout == 0) zero_read_timeout
  refuse_if (network.write_timeout == 0) zero_write_timeout

abbrev check_sync : SyncConfig → Checked
check_sync sync =
    if sync.enabled
    then (do
      refuse_if (sync.interval == 0) zero_sync_interval
      refuse_if (sync.max_blocks_per_response == 0) zero_max_blocks_per_response
      refuse_if (sync.max_locator_hashes == 0) zero_max_locator_hashes)
    else ok tt

abbrev check_miner : Option MinerConfig → Checked
check_miner none = ok tt
check_miner (some miner) = validate_miner_config miner

abbrev check_storage : Option StorageConfig → Checked
check_storage none = ok tt
check_storage (some storage) = refuse_if (storage.data_dir == []) empty_data_dir

unfoldable pub validate_node_config : NodeConfig → Checked
unfolding is_blank validate_miner_config validate peer_address_is_dialable ip_is_unspecified
validate_node_config config = do
  refuse_if (is_blank config.node_id) empty_node_id
  map_err invalid_chain (validate config.chain)
  refuse_if (is_blank config.network.wire.network_id) empty_network_id
  refuse_if (config.network.wire.protocol_version == 0) zero_protocol_version
  check_advertise config.advertise_addr config.listen_addr
  check_network config.network
  check_sync config.sync
  check_miner config.miner
  check_storage config.storage
