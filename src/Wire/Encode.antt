-- ===== src/Wire/Encode.antt =====
-- The encoders: every message is a line of fields.
use mathlib.Core.List.{map}
use chesscoin.Prelude.{List, [], ◌∷◌, ◌++◌, Bytes, text}
use chesscoin.Domain.Digest.{Digest, to_hex}
use chesscoin.Domain.Model.{ModelState}
use chesscoin.Domain.Trace.{Block, BlockHeader, TraceEntry}
use chesscoin.Wire.Number.{u64_text, i64_text}
use chesscoin.Wire.Text.{join, escape}
use chesscoin.Wire.Message.{
  WireConfig, PeerMessage, wire_magic, hello, get_blocks, get_blocks_by_locator, get_inventory,
  inventory, get_headers, headers, get_peers, peers, block, end_blocks,
}

unfoldable pub encode_model : ModelState → Bytes
encode_model model = join b'_' (map i64_text model.weights)

abbrev pub header_fields : BlockHeader → List Bytes
header_fields header =
    u64_text header.height
    ∷ to_hex header.previous_block
    ∷ encode_model header.model_before
    ∷ encode_model header.model_after
    ∷ to_hex header.trace_root
    ∷ u64_text header.training_seed
    ∷ u64_text header.sampling_entropy
    ∷ u64_text header.sample_count
    ∷ u64_text header.nonce
    ∷ []

unfoldable pub encode_header : BlockHeader → Bytes
encode_header header = join b',' (header_fields header)

abbrev pub entry_fields : TraceEntry → List Bytes
entry_fields entry =
    let step = entry.step in
    to_hex entry.previous_commitment
    ∷ to_hex entry.commitment
    ∷ u64_text step.index
    ∷ u64_text step.seed
    ∷ u64_text step.batch_id
    ∷ u64_text step.weight_index
    ∷ i64_text step.gradient
    ∷ i64_text step.learning_rate_ppm
    ∷ encode_model step.state_before
    ∷ encode_model step.state_after
    ∷ []

unfoldable pub encode_entry : TraceEntry → Bytes
encode_entry entry = join b',' (entry_fields entry)

abbrev pub block_fields : Block → List Bytes
block_fields b =
    text "BLOCK" ∷ header_fields b.header
    ++ encode_model b.trace.initial_model
      ∷ encode_model b.trace.candidate_model
      ∷ to_hex b.trace.root
      ∷ join b';' (map encode_entry b.trace.entries)
      ∷ []

unfoldable pub encode_block : Block → Bytes
encode_block b = join b'|' (block_fields b)

unfoldable pub encode_digests : List Digest → Bytes
encode_digests digests = join b',' (map to_hex digests)

module _ {Addr : Type 0} (addr_text : Addr → Bytes) where
  -- The fields of a message, the name of its kind first.
  unfoldable pub message_fields : PeerMessage Addr → List Bytes
  message_fields (hello node_id height head listen_addr) =
      text "HELLO" ∷ escape node_id ∷ u64_text height ∷ to_hex head ∷ addr_text listen_addr ∷ []
  message_fields (get_blocks from_height limit) =
      text "GET_BLOCKS" ∷ u64_text from_height ∷ u64_text limit ∷ []
  message_fields (get_blocks_by_locator locator limit) =
      text "GET_BLOCKS_LOCATOR" ∷ encode_digests locator ∷ u64_text limit ∷ []
  message_fields (get_inventory locator limit) =
      text "GET_INVENTORY" ∷ encode_digests locator ∷ u64_text limit ∷ []
  message_fields (inventory hashes) = text "INVENTORY" ∷ encode_digests hashes ∷ []
  message_fields (get_headers locator limit) =
      text "GET_HEADERS" ∷ encode_digests locator ∷ u64_text limit ∷ []
  message_fields (headers hs) = text "HEADERS" ∷ join b';' (map encode_header hs) ∷ []
  message_fields (get_peers limit) = text "GET_PEERS" ∷ u64_text limit ∷ []
  message_fields (peers addrs) = text "PEERS" ∷ join b',' (map addr_text addrs) ∷ []
  message_fields (block b) = block_fields b
  message_fields end_blocks = text "END_BLOCKS" ∷ []

  unfoldable pub encode_message : PeerMessage Addr → Bytes
  unfolding message_fields
  encode_message message = join b'|' (message_fields message)

  unfoldable pub encode_network_message : WireConfig → PeerMessage Addr → Bytes
  unfolding encode_message
  encode_network_message config message = join b'|' (
      wire_magic
      ∷ u64_text config.protocol_version
      ∷ escape config.network_id
      ∷ escape config.chain_fingerprint
      ∷ encode_message message
      ∷ [])
