-- ===== src/Wire/Receive/RoundTrip.antt =====
-- Messages through crates/chesscoin-node/src/wire.rs and back.
use mathlib.Core.List.{map}
use chesscoin.Prelude.{
  ◌^◌, ◌<◌, ◌≡◌, ◌≢◌, refl, arith, All, Option, some, List, length, Bytes, text, nat_eq, list_eq,
  ◌∙◌, ap, ok,
}
use chesscoin.Domain.Digest.{IsDigest}
use chesscoin.Domain.Digest.Hex.{from_hex-to_hex}
use chesscoin.Domain.Trace.Encode.{IsHeader}
use chesscoin.Wire.Text.{join}
use chesscoin.Wire.Text.Fields.{All-mono}
use chesscoin.Wire.Text.Escape.{unescape-escape}
use chesscoin.Wire.Message.{
  PeerMessage, hello, get_blocks, get_blocks_by_locator, get_inventory, inventory, get_headers,
  headers, get_peers, peers, block, end_blocks,
}
use chesscoin.Wire.Encode.{encode_header, message_fields, encode_message}
use chesscoin.Wire.Decode.{parse_field, decode_list}
use chesscoin.Wire.Decode.Fields.{to_hex-IsPlain, u64_field, parse_field-some, decode_list-join}
use chesscoin.Wire.Decode.RoundTrip.{encode_header-IsLineByte}
use chesscoin.Wire.Receive.{decode_kind, decode_message, decode_fields}
use chesscoin.Wire.Receive.Fields.{
  IsBlock, headers_read, decode_block-block_fields, IsFieldByte, digests_read, line_field,
  plain_field, digests_field, u64_part, line_part, block_fields-lines, line_split, IsNameByte,
  escape_field,
}

-- What the standard library's text of a socket address promises: it is read back, and it holds
-- neither a separator nor the end of a line.
pub record IsAddrText {Addr : Type 0} (addr_text : Addr → Bytes) (parse_addr : Bytes → Option Addr)
    (a : Addr) : Type 0 where
  pub read_back : parse_addr (addr_text a) ≡ some a
  pub some_text : 0 < length (addr_text a)
  pub no_comma : All (λ b. b ≢ 44) (addr_text a)
  pub in_field : All IsFieldByte (addr_text a)

module _ {Addr : Type 0} (addr_text : Addr → Bytes) (parse_addr : Bytes → Option Addr) where
  -- The ranges of a message.
  unfoldable pub IsMessage : PeerMessage Addr → Type 0
  IsMessage (hello node_id height head listen_addr) =
      All IsNameByte node_id
      × (height < 2 ^ 64)
      × IsDigest head
      × IsAddrText addr_text parse_addr listen_addr
  IsMessage (get_blocks from_height limit) = (from_height < 2 ^ 64) × (limit < 2 ^ 64)
  IsMessage (get_blocks_by_locator locator limit) = All IsDigest locator × (limit < 2 ^ 64)
  IsMessage (get_inventory locator limit) = All IsDigest locator × (limit < 2 ^ 64)
  IsMessage (inventory hashes) = All IsDigest hashes
  IsMessage (get_headers locator limit) = All IsDigest locator × (limit < 2 ^ 64)
  IsMessage (headers hs) = All IsHeader hs
  IsMessage (get_peers limit) = limit < 2 ^ 64
  IsMessage (peers addrs) = All (IsAddrText addr_text parse_addr) addrs
  IsMessage (block b) = IsBlock b
  IsMessage end_blocks = Unit

  addrs_read :
      (addrs : List Addr)
      → All (IsAddrText addr_text parse_addr) addrs
      → decode_list 44
          (λ field. parse_field parse_addr field (text "peer address"))
          (join 44 (map addr_text addrs))
        ≡ ok addrs
  addrs_read addrs h =
      decode_list-join (IsAddrText addr_text parse_addr) 44
        (λ field. parse_field parse_addr field (text "peer address")) addr_text addrs
        (λ a r. parse_field-some parse_addr (addr_text a) (text "peer address") r.read_back)
        (λ a r. r.no_comma) (λ a r. r.some_text) h

  fields_read :
      (m : PeerMessage Addr)
      → IsMessage m
      → decode_fields parse_addr (message_fields addr_text m) ≡ ok m
  unfolding IsMessage message_fields decode_kind
  fields_read (hello node_id height head a) (r₀, r₁, r₂, r₃) =
      rw
        (
          unescape-escape node_id (All-mono IsNameByte (λ b. b < 128) node_id (λ b k. k.0) r₀),
          u64_field height (text "height") r₁,
          from_hex-to_hex head r₂,
          parse_field-some parse_addr (addr_text a) (text "listen_addr") r₃.read_back,
        )
        refl
  fields_read (get_blocks from_height limit) (r₀, r₁) =
      rw (u64_field from_height (text "from_height") r₀, u64_field limit (text "limit") r₁) refl
  fields_read (get_blocks_by_locator locator limit) (r₀, r₁) =
      rw (digests_read locator r₀, u64_field limit (text "limit") r₁) refl
  fields_read (get_inventory locator limit) (r₀, r₁) =
      rw (digests_read locator r₀, u64_field limit (text "limit") r₁) refl
  fields_read (inventory hashes) r = rw (digests_read hashes r) refl
  fields_read (get_headers locator limit) (r₀, r₁) =
      rw (digests_read locator r₀, u64_field limit (text "limit") r₁) refl
  fields_read (headers hs) r = rw (headers_read hs r) refl
  fields_read (get_peers limit) r = rw (u64_field limit (text "limit") r) refl
  fields_read (peers addrs) r = rw (addrs_read addrs r) refl
  fields_read (block b) r = rw (decode_block-block_fields b r) refl
  fields_read end_blocks r = refl

  fields_lines :
      (m : PeerMessage Addr)
      → IsMessage m
      → All (All IsFieldByte) (message_fields addr_text m)
        × (0 < length (message_fields addr_text m))
  unfolding IsMessage message_fields
  fields_lines (hello node_id height head a) (r₀, r₁, r₂, r₃) = (
    (
      ground arith,
      (
        escape_field node_id r₀,
        (u64_part height, (plain_field _ (to_hex-IsPlain head r₂), (r₃.in_field, tt))),
      ),
    ),
    omega arith,
  )
  fields_lines (get_blocks from_height limit) r =
      ((ground arith, (u64_part from_height, (u64_part limit, tt))), omega arith)
  fields_lines (get_blocks_by_locator locator limit) (r₀, r₁) =
      ((ground arith, (digests_field locator r₀, (u64_part limit, tt))), omega arith)
  fields_lines (get_inventory locator limit) (r₀, r₁) =
      ((ground arith, (digests_field locator r₀, (u64_part limit, tt))), omega arith)
  fields_lines (inventory hashes) r = ((ground arith, (digests_field hashes r, tt)), omega arith)
  fields_lines (get_headers locator limit) (r₀, r₁) =
      ((ground arith, (digests_field locator r₀, (u64_part limit, tt))), omega arith)
  fields_lines (headers hs) r = (
    (
      ground arith,
      (
        line_field IsHeader 59 encode_header hs (ground arith)
            (λ e k. line_part _ (encode_header-IsLineByte e k)) r,
        tt,
      ),
    ),
    omega arith,
  )
  fields_lines (get_peers limit) r = ((ground arith, (u64_part limit, tt)), omega arith)
  fields_lines (peers addrs) r = (
    (
      ground arith,
      (
        line_field (IsAddrText addr_text parse_addr) 44 addr_text addrs (ground arith)
            (λ a k. k.in_field) r,
        tt,
      ),
    ),
    omega arith,
  )
  fields_lines (block b) r = (block_fields-lines b r, omega arith)
  fields_lines end_blocks r = ((ground arith, tt), omega arith)

  -- Every message in range is read back from its line, if the texts of its socket addresses are
  -- read back and hold no separator, and its node's name is ASCII without an end of line.
  pub decode_message-encode_message :
      (m : PeerMessage Addr)
      → IsMessage m
      → decode_message parse_addr (encode_message addr_text m) ≡ ok m
  unfolding decode_message encode_message
  decode_message-encode_message m r =
      let (lines, some_field) = fields_lines m r in
      ap (decode_fields parse_addr) (line_split (message_fields addr_text m) some_field lines)
      ∙ fields_read m r
