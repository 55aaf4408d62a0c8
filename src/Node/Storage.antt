-- ===== src/Node/Storage.antt =====
-- The storage records of crates/chesscoin-node/src/runtime.rs and the file that they are appended to.
-- The file is its text; a file that does not exist is the empty text.
pub mod RoundTrip
use chesscoin.Prelude.{
  ℕ, suc, ◌+◌, Bool, true, false, not, ◌&&◌, Option, none, some, List, [], ◌∷◌, ◌++◌, length, take,
  Bytes, text, if◌then◌else◌, ◌==◌, nat_eq, list_eq, Result, ok, err, ◌>>=◌, map_err,
}
use chesscoin.Domain.Digest.{Digest, digest_eq, to_hex, from_hex}
use chesscoin.Domain.Trace.{Block}
use chesscoin.Application.Config.{ChainConfig}
use chesscoin.Adapters.{toy_digest}
use chesscoin.Wire.Message.{fingerprint}
use chesscoin.Wire.Encode.{encode_block}
use chesscoin.Wire.Receive.{decode_block_message}
use chesscoin.Wire.Text.{splitn}
use chesscoin.Node.Address.{SocketAddr}

abbrev pub storage_record_version : Bytes
storage_record_version = text "CCBLK1"

abbrev pub storage_header_version : Bytes
storage_header_version = text "CCCFG1"

-- The checksum of a payload.
abbrev pub checksum : Bytes → Digest
checksum payload = toy_digest payload

abbrev pub record_line : Bytes → Bytes → Bytes
record_line version payload = version ++ b'|' ∷ (to_hex (checksum payload) ++ b'|' ∷ payload)

unfoldable pub encode_storage_header : ChainConfig → Bytes
encode_storage_header config = record_line storage_header_version (fingerprint config)

unfoldable pub encode_storage_record : Block → Bytes
encode_storage_record block = record_line storage_record_version (encode_block block)

-- The payload of three fields, if its checksum is right.
unfoldable pub checked_payload : List Bytes → Bytes → Bytes → Result Bytes Bytes
checked_payload (version ∷ digest ∷ payload ∷ []) missing mismatch = do
  expected ← from_hex digest
  if not (expected == checksum payload) then err mismatch else ok payload
checked_payload fields missing mismatch = err missing

abbrev pub first_is : List Bytes → Bytes → Bool
first_is [] version = false
first_is (field ∷ fields) version = field == version

unfoldable pub decode_storage_header : Bytes → Result Bytes Bytes
unfolding checked_payload splitn
decode_storage_header line =
    let fields = splitn 3 b'|' line in
    if not (first_is fields storage_header_version)
    then err (text "storage header version mismatch")
    else checked_payload fields (text "storage header requires version, checksum, and fingerprint")
        (text "storage header checksum mismatch")

pub data StorageLine : Type 0 where
  header : Bytes → StorageLine
  block : Block → StorageLine

abbrev pub starts_with : Bytes → Bytes → Bool
starts_with line prefix = take (length prefix) line == prefix

module _ (parse_addr : Bytes → Option SocketAddr) where
  -- A line that is no record is a block of the wire format.
  unfoldable pub decode_storage_record : Bytes → Result Block Bytes
  unfolding checked_payload splitn decode_block_message
  decode_storage_record line =
      let fields = splitn 3 b'|' line in
      if not (first_is fields storage_record_version)
      then decode_block_message parse_addr line
      else do
        payload ←
            checked_payload fields (text "storage record requires version, checksum, and payload")
              (text "storage record checksum mismatch")
        decode_block_message parse_addr payload

  unfoldable pub decode_storage_line : Bytes → Result StorageLine Bytes
  unfolding decode_storage_header decode_storage_record
  decode_storage_line line =
      if starts_with line storage_header_version
      then (do ok (header (← decode_storage_header line)))
      else (do ok (block (← decode_storage_record line)))

-- What the file system does with one append: whether it can tell the length of the file, and how
-- many bytes it writes before an error. An error of the directory, of the opening, or of the flush
-- is one that has written none of the bytes, or all.
pub record Disk : Type 0 where
  pub tells_length : Bool
  pub stops_after : Option ℕ

abbrev pub healthy : Disk
healthy = record { tells_length = true; stops_after = none }

-- What `append_block` writes: a header if the file is empty, and the record.
abbrev pub appended : Disk → Bytes → ChainConfig → Block → Bytes
appended disk file config b =
    (if disk.tells_length && file == [] then encode_storage_header config ++ b'\n' ∷ [] else [])
    ++ encode_storage_record b
    ++ b'\n' ∷ []

unfoldable pub append_block :
    Disk → Bytes → ChainConfig → Block → Bytes × Result (Unit {0}) (Unit {0})
unfolding encode_storage_header encode_storage_record
append_block disk file config b =
    let bytes = appended disk file config b in
    elim disk.stops_after [
      | none ↦ (file ++ bytes, ok tt)
      | some n ↦ (file ++ take n bytes, err tt)
    ]
