-- ===== src/Node/Storage/RoundTrip.antt =====
-- Storage records and headers, written and read.
use chesscoin.Prelude.{
  ℕ, suc, ◌≡◌, ◌≢◌, refl, arith, All, Bool-cases, Option, inl, inr, [], ◌∷◌, ◌++◌, Bytes, nat_eq,
  list_eq, ◌==◌, ==_iff, ==_refl, ◌∙◌, ap, ok,
}
use chesscoin.Domain.Digest.{digest_eq, to_hex}
use chesscoin.Domain.Digest.Hex.{from_hex-to_hex}
use chesscoin.Domain.Trace.{Block}
use chesscoin.Application.Config.{ChainConfig}
use chesscoin.Adapters.{toy_digest-IsDigest}
use chesscoin.Wire.Message.{block, fingerprint}
use chesscoin.Wire.Encode.{encode_block, encode_message, message_fields}
use chesscoin.Wire.Decode.Fields.{to_hex-IsPlain}
use chesscoin.Wire.Receive.{decode_block_message}
use chesscoin.Wire.Receive.Fields.{IsBlock, IsFieldByte, plain_field}
use chesscoin.Wire.Receive.RoundTrip.{IsMessage, decode_message-encode_message}
use chesscoin.Wire.Text.{splitn, add_to_first}
use chesscoin.Wire.Text.Fields.{Lacks, All-mono}
use chesscoin.Node.Address.{SocketAddr}
use chesscoin.Node.Storage.{
  StorageLine, header, checksum, record_line, storage_record_version, storage_header_version,
  encode_storage_header, encode_storage_record, checked_payload, decode_storage_header,
  decode_storage_record, decode_storage_line,
}
use chesscoin.Node.Storage

splitn_field :
    (n sep : ℕ) (bs rest : Bytes)
    → Lacks sep bs
    → splitn (suc (suc n)) sep (bs ++ sep ∷ rest) ≡ bs ∷ splitn (suc n) sep rest
unfolding splitn
splitn_field n sep [] rest h = rw (==_refl sep) refl
splitn_field n sep (b ∷ bs) rest h = elim (Bool-cases (b == sep)) [
  | inl same ↦ absurd (h.0 ((==_iff b sep).0 same))
  | inr apart ↦ rw apart (ap (add_to_first b) (splitn_field n sep bs rest h.1))
]

pub hex_part : (payload : Bytes) → All IsFieldByte (to_hex (checksum payload))
hex_part payload = plain_field _ (to_hex-IsPlain (checksum payload) (toy_digest-IsDigest payload))

-- A record is split into its version, its checksum and its payload.
split_record :
    (version payload : Bytes)
    → Lacks b'|' version
    → splitn 3 b'|' (record_line version payload)
      ≡ version ∷ to_hex (checksum payload) ∷ payload ∷ []
unfolding splitn
split_record version payload h =
    splitn_field 1 b'|' version (to_hex (checksum payload) ++ b'|' ∷ payload) h
    ∙ ap (λ fs. version ∷ fs)
        (splitn_field 0 b'|' (to_hex (checksum payload)) payload
          (All-mono IsFieldByte (λ b. b ≢ 124) _ (λ b k. k.0) (hex_part payload)))

checked :
    (version payload missing mismatch : Bytes)
    → checked_payload (version ∷ to_hex (checksum payload) ∷ payload ∷ []) missing mismatch
      ≡ ok payload
unfolding checked_payload
checked version payload missing mismatch =
    rw
      (from_hex-to_hex (checksum payload) (toy_digest-IsDigest payload), ==_refl (checksum payload))
      refl

module _ (parse_addr : Bytes → Option SocketAddr) where
  decode_block_message-encode_block :
      (b : Block) → IsBlock b → decode_block_message parse_addr (encode_block b) ≡ ok b
  unfolding decode_block_message encode_block encode_message message_fields IsMessage
  decode_block_message-encode_block b r =
      rw (decode_message-encode_message (λ _. []) parse_addr (block b) r) refl

  -- A block in range is read back from its storage record.
  pub decode_storage_line-encode_record :
      (b : Block)
      → IsBlock b
      → decode_storage_line parse_addr (encode_storage_record b) ≡ ok (Storage.block b)
  unfolding decode_storage_line decode_storage_record encode_storage_record
  decode_storage_line-encode_record b r =
      rw
        (
          split_record storage_record_version (encode_block b) (ground arith),
          checked storage_record_version (encode_block b),
          decode_block_message-encode_block b r,
        )
        refl

  -- A storage header is read back as the fingerprint that it was written with.
  pub decode_storage_line-encode_header :
      (config : ChainConfig)
      → decode_storage_line parse_addr (encode_storage_header config)
        ≡ ok (header (fingerprint config))
  unfolding decode_storage_line decode_storage_header encode_storage_header
  decode_storage_line-encode_header config =
      rw
        (
          split_record storage_header_version (fingerprint config) (ground arith),
          checked storage_header_version (fingerprint config),
        )
        refl
