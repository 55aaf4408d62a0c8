-- ===== src/Wire/Receive.antt =====
-- Decoding a line into a message, and the envelope with the network that a node belongs to.
pub mod Fields
pub mod RoundTrip
use chesscoin.Prelude.{
  ℕ, ◌^◌, Option, List, [], ◌∷◌, ◌++◌, Bytes, text, length, not, if◌then◌else◌, ◌==◌, nat_eq,
  list_eq, Result, ok, err, ◌>>=◌,
}
use chesscoin.Domain.Digest.{Digest, from_hex}
use chesscoin.Domain.Trace.{Block}
use chesscoin.Wire.Number.{parse_below, parse_u64}
use chesscoin.Wire.Text.{split, splitn, trim_end, unescape}
use chesscoin.Wire.Message.{
  WireConfig, PeerMessage, wire_magic, hello, get_blocks, get_blocks_by_locator, get_inventory,
  inventory, get_headers, headers, get_peers, peers, block, end_blocks,
}
use chesscoin.Wire.Decode.{
  parse_field, decode_list, decode_digest_list, decode_model, read_header, decode_header,
  decode_entry,
}

unfoldable pub decode_block : List Bytes → Result Block Bytes
decode_block (kind ∷ f₁ ∷ f₂ ∷ f₃ ∷ f₄ ∷ f₅ ∷ f₆ ∷ f₇ ∷ f₈ ∷ f₉ ∷ f₁₀ ∷ f₁₁ ∷ f₁₂ ∷ f₁₃ ∷ []) = do
  header ←
      read_header (f₁ ∷ f₂ ∷ f₃ ∷ f₄ ∷ f₅ ∷ f₆ ∷ f₇ ∷ f₈ ∷ f₉ ∷ [])
        (text "BLOCK requires 13 fields")
  entries ← decode_list b';' decode_entry f₁₃
  initial_model ← decode_model f₁₀
  candidate_model ← decode_model f₁₁
  root ← from_hex f₁₂
  ok (record {
    header = header;
    trace = record {
      initial_model = initial_model;
      candidate_model = candidate_model;
      entries = entries;
      root = root;
    };
  })
decode_block fields = err (text "BLOCK requires 13 fields")

abbrev limit_field : Bytes → Result ℕ Bytes
limit_field field = parse_field parse_u64 field (text "limit")

module _ {Addr : Type 0} (parse_addr : Bytes → Option Addr) where
  unfoldable pub decode_hello : List Bytes → Result (PeerMessage Addr) Bytes
  decode_hello (kind ∷ f₁ ∷ f₂ ∷ f₃ ∷ f₄ ∷ []) = do
    node_id ← unescape f₁
    height ← parse_field parse_u64 f₂ (text "height")
    head ← from_hex f₃
    listen_addr ← parse_field parse_addr f₄ (text "listen_addr")
    ok (hello node_id height head listen_addr)
  decode_hello fields = err (text "HELLO requires 4 fields")

  unfoldable pub decode_get_blocks : List Bytes → Result (PeerMessage Addr) Bytes
  decode_get_blocks (kind ∷ f₁ ∷ f₂ ∷ []) = do
    from_height ← parse_field parse_u64 f₁ (text "from_height")
    limit ← limit_field f₂
    ok (get_blocks from_height limit)
  decode_get_blocks fields = err (text "GET_BLOCKS requires 2 fields")

  -- The requests with a locator and a limit: GET_BLOCKS_LOCATOR, GET_INVENTORY and GET_HEADERS.
  unfoldable pub decode_with_locator :
      (List Digest → ℕ → PeerMessage Addr) → Bytes → List Bytes → Result (PeerMessage Addr) Bytes
  decode_with_locator request name (kind ∷ f₁ ∷ f₂ ∷ []) = do
    locator ← decode_digest_list f₁
    limit ← limit_field f₂
    ok (request locator limit)
  decode_with_locator request name fields = err (name ++ text " requires 2 fields")

  unfoldable pub decode_inventory : List Bytes → Result (PeerMessage Addr) Bytes
  decode_inventory (kind ∷ f₁ ∷ []) = do ok (inventory (← decode_digest_list f₁))
  decode_inventory fields = err (text "INVENTORY requires 1 field")

  unfoldable pub decode_headers : List Bytes → Result (PeerMessage Addr) Bytes
  decode_headers (kind ∷ f₁ ∷ []) = do ok (headers (← decode_list b';' decode_header f₁))
  decode_headers fields = err (text "HEADERS requires 1 field")

  unfoldable pub decode_get_peers : List Bytes → Result (PeerMessage Addr) Bytes
  decode_get_peers (kind ∷ f₁ ∷ []) = do ok (get_peers (← limit_field f₁))
  decode_get_peers fields = err (text "GET_PEERS requires 1 field")

  unfoldable pub decode_peers : List Bytes → Result (PeerMessage Addr) Bytes
  decode_peers (kind ∷ f₁ ∷ []) = do
    addrs ← decode_list b',' (λ field. parse_field parse_addr field (text "peer address")) f₁
    ok (peers addrs)
  decode_peers fields = err (text "PEERS requires 1 field")

  abbrev decode_end_blocks : List Bytes → Result (PeerMessage Addr) Bytes
  decode_end_blocks (kind ∷ []) = ok end_blocks
  decode_end_blocks fields = err (text "END_BLOCKS requires no fields")

  -- By the first field.
  unfoldable pub decode_kind : Bytes → List Bytes → Result (PeerMessage Addr) Bytes
  unfolding decode_hello decode_get_blocks decode_with_locator decode_inventory decode_headers
      decode_get_peers decode_peers decode_block
  decode_kind kind fields =
      if kind == text "HELLO"
      then decode_hello fields
      else if kind == text "GET_BLOCKS"
      then decode_get_blocks fields
      else if kind == text "GET_BLOCKS_LOCATOR"
      then decode_with_locator get_blocks_by_locator (text "GET_BLOCKS_LOCATOR") fields
      else if kind == text "GET_INVENTORY"
      then decode_with_locator get_inventory (text "GET_INVENTORY") fields
      else if kind == text "INVENTORY"
      then decode_inventory fields
      else if kind == text "GET_HEADERS"
      then decode_with_locator get_headers (text "GET_HEADERS") fields
      else if kind == text "HEADERS"
      then decode_headers fields
      else if kind == text "GET_PEERS"
      then decode_get_peers fields
      else if kind == text "PEERS"
      then decode_peers fields
      else if kind == text "BLOCK"
      then (do ok (block (← decode_block fields)))
      else if kind == text "END_BLOCKS"
      then decode_end_blocks fields
      else err (text "unknown message type '" ++ (kind ++ text "'"))

  abbrev decode_fields : List Bytes → Result (PeerMessage Addr) Bytes
  decode_fields [] = err (text "empty message")
  decode_fields (kind ∷ fields) = decode_kind kind (kind ∷ fields)

  unfoldable pub decode_message : Bytes → Result (PeerMessage Addr) Bytes
  unfolding decode_kind
  decode_message line = decode_fields (split b'|' (trim_end line))

  abbrev only_block : PeerMessage Addr → Result Block Bytes
  only_block (block b) = ok b
  only_block message = err (text "expected BLOCK message")

  unfoldable pub decode_block_message : Bytes → Result Block Bytes
  unfolding decode_message
  decode_block_message line = do message ← decode_message line; only_block message

  -- The checks of the envelope, in order; the last field is the message.
  unfoldable pub decode_envelope : List Bytes → WireConfig → Result (PeerMessage Addr) Bytes
  unfolding decode_message
  decode_envelope (f₀ ∷ f₁ ∷ f₂ ∷ f₃ ∷ f₄ ∷ []) config =
      if not (f₀ == wire_magic) then err (text "invalid network magic") else do
        protocol_version ← parse_field (parse_below (2 ^ 16)) f₁ (text "protocol_version")
        if not (protocol_version == config.protocol_version)
            then err (text "incompatible protocol version")
            else do
              network_id ← unescape f₂
              if not (network_id == config.network_id)
                  then err (text "incompatible network id")
                  else do
                    chain_fingerprint ← unescape f₃
                    if not (chain_fingerprint == config.chain_fingerprint)
                        then err (text "incompatible chain fingerprint")
                        else decode_message f₄
  decode_envelope fields config = err (text "network message requires envelope")

  unfoldable pub decode_network_message : Bytes → WireConfig → Result (PeerMessage Addr) Bytes
  unfolding decode_envelope
  decode_network_message line config = decode_envelope (splitn 5 b'|' (trim_end line)) config
