-- ===== src/Wire/Message.antt =====
-- The messages and the configuration of the wire format. The type of socket addresses is that of
-- the standard library's networking, a parameter.
use chesscoin.Prelude.{ℕ, List, ◌++◌, Bytes, text}
use chesscoin.Domain.Digest.{Digest}
use chesscoin.Domain.Trace.{Block, BlockHeader}
use chesscoin.Application.Config.{ChainConfig, default_config}
use chesscoin.Wire.Number.{u64_text}

abbrev pub wire_magic : Bytes
wire_magic = text "CHESSCOIN"

abbrev pub protocol_version_const : ℕ
protocol_version_const = 6

pub record WireConfig : Type 0 where
  pub network_id : Bytes
  pub chain_fingerprint : Bytes
  pub protocol_version : ℕ

-- `chain_fingerprint`; the model width and the learning rate are constants.
unfoldable pub fingerprint : ChainConfig → Bytes
fingerprint config =
    text "rules=v1;model_width=8;learning_rate_ppm=125000;steps="
    ++ u64_text config.steps_per_block
    ++ text ";samples="
    ++ u64_text config.samples_per_block
    ++ text ";difficulty="
    ++ u64_text config.difficulty_zero_bits

unfoldable pub default_wire_config : WireConfig
unfolding fingerprint
default_wire_config = record {
  network_id = text "chesscoin-local";
  chain_fingerprint = fingerprint default_config;
  protocol_version = protocol_version_const;
}

pub data PeerMessage (Addr : Type 0) : Type 0 where
  hello : Bytes → ℕ → Digest → Addr → PeerMessage Addr
  get_blocks : ℕ → ℕ → PeerMessage Addr
  get_blocks_by_locator : List Digest → ℕ → PeerMessage Addr
  get_inventory : List Digest → ℕ → PeerMessage Addr
  inventory : List Digest → PeerMessage Addr
  get_headers : List Digest → ℕ → PeerMessage Addr
  headers : List BlockHeader → PeerMessage Addr
  get_peers : ℕ → PeerMessage Addr
  peers : List Addr → PeerMessage Addr
  block : Block → PeerMessage Addr
  end_blocks : PeerMessage Addr
