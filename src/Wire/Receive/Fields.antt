-- ===== src/Wire/Receive/Fields.antt =====
-- The fields of messages and blocks, and splitting a line into them.
use mathlib.Core.List.{map}
use chesscoin.Prelude.{
  ℕ, ◌<◌, ◌≡◌, ◌≢◌, refl, arith, All, All-append, List, [], ◌∷◌, length, Bytes, text, nat_eq,
  list_eq, ◌∙◌, ap, ok, ==_iff,
}
use chesscoin.Domain.Digest.{Digest, IsDigest, to_hex, from_hex}
use chesscoin.Domain.Digest.Hex.{from_hex-to_hex, to_hex_some}
use chesscoin.Domain.Model.{IsModel}
use chesscoin.Domain.Trace.{Block, BlockHeader, TraceEntry}
use chesscoin.Domain.Trace.Encode.{IsHeader}
use chesscoin.Wire.Number.{u64_text}
use chesscoin.Wire.Text.{split, join, trim_end, escape}
use chesscoin.Wire.Text.Fields.{split-join, All-join, All-mono}
use chesscoin.Wire.Text.Escape.{All-escape}
use chesscoin.Wire.Encode.{
  encode_model, header_fields, encode_header, encode_entry, block_fields, encode_digests,
}
use chesscoin.Wire.Decode.{decode_list, decode_digest_list, decode_header, decode_entry}
use chesscoin.Wire.Decode.Fields.{
  IsPlain, u64_text-IsPlain, to_hex-IsPlain, encode_model-IsPlain, decode_model-encode_model,
  decode_list-join, map-All,
}
use chesscoin.Wire.Decode.RoundTrip.{
  IsEntry, IsLineByte, read_header-header_fields, header_fields-IsPlain, All-fields,
  decode_header-encode_header, decode_entry-encode_entry, encode_header-IsLineByte,
  encode_entry-IsLineByte, encode_header_some, encode_entry_some,
}
use chesscoin.Wire.Receive.{decode_block}

-- The ranges of a block.
pub record IsBlock (b : Block) : Type 0 where
  pub header_IsHeader : IsHeader b.header
  pub initial_IsModel : IsModel b.trace.initial_model
  pub candidate_IsModel : IsModel b.trace.candidate_model
  pub root_IsDigest : IsDigest b.trace.root
  pub entries_IsEntry : All IsEntry b.trace.entries

pub entries_read :
    (entries : List TraceEntry)
    → All IsEntry entries
    → decode_list 59 decode_entry (join 59 (map encode_entry entries)) ≡ ok entries
entries_read entries h =
    decode_list-join IsEntry 59 decode_entry encode_entry entries decode_entry-encode_entry
      (λ e r. All-mono IsLineByte (λ b. b ≢ 59) _ (λ b k. k.2) (encode_entry-IsLineByte e r))
      (λ e r. encode_entry_some e) h

pub headers_read :
    (hs : List BlockHeader)
    → All IsHeader hs
    → decode_list 59 decode_header (join 59 (map encode_header hs)) ≡ ok hs
headers_read hs h =
    decode_list-join IsHeader 59 decode_header encode_header hs decode_header-encode_header
      (λ e r. All-mono IsLineByte (λ b. b ≢ 59) _ (λ b k. k.2) (encode_header-IsLineByte e r))
      (λ e r. encode_header_some e) h

-- A block in range is read back from its fields.
pub decode_block-block_fields : (b : Block) → IsBlock b → decode_block (block_fields b) ≡ ok b
unfolding decode_block
decode_block-block_fields b r = rw (
  read_header-header_fields b.header (text "BLOCK requires 13 fields") r.header_IsHeader,
  entries_read b.trace.entries r.entries_IsEntry,
  decode_model-encode_model b.trace.initial_model r.initial_IsModel,
  decode_model-encode_model b.trace.candidate_model r.candidate_IsModel,
  from_hex-to_hex b.trace.root r.root_IsDigest,
  decode_block,
)

-- A byte that neither ends a field nor the line.
abbrev pub IsFieldByte : ℕ → Type 0
IsFieldByte b = (b ≢ 124) × (b ≢ 13) × (b ≢ 10)

trim_end_lem : (bs : Bytes) → All (λ b. (b ≢ 13) × (b ≢ 10)) bs → trim_end bs ≡ bs
unfolding trim_end
trim_end_lem [] h = refl
trim_end_lem (b ∷ []) h = ground (arith, ==_iff b 13, ==_iff b 10, h.0)
trim_end_lem (b ∷ c ∷ bs) h = rw (trim_end_lem (c ∷ bs) h.1) refl

pub digests_read :
    (ds : List Digest) → All IsDigest ds → decode_digest_list (encode_digests ds) ≡ ok ds
unfolding decode_digest_list encode_digests
digests_read ds h =
    decode_list-join IsDigest 44 from_hex to_hex ds from_hex-to_hex
      (λ d r. All-mono IsPlain (λ b. b ≢ 44) _ (λ b k. ground arith) (to_hex-IsPlain d r))
      to_hex_some h

pub line_field :
    {A : Type 0} (P : A → Type 0) (sep : ℕ) (encode : A → Bytes) (xs : List A)
    → IsFieldByte sep
    → ((x : A) → P x → All IsFieldByte (encode x))
    → All P xs
    → All IsFieldByte (join sep (map encode xs))
line_field P sep encode xs s f h =
    All-join IsFieldByte sep (map encode xs) s (map-All P (All IsFieldByte) encode xs f h)

pub plain_field : (bs : Bytes) → All IsPlain bs → All IsFieldByte bs
plain_field bs h = All-mono IsPlain IsFieldByte bs (λ b k. ground arith) h

pub digests_field : (ds : List Digest) → All IsDigest ds → All IsFieldByte (encode_digests ds)
unfolding encode_digests
digests_field ds h =
    line_field IsDigest 44 to_hex ds (ground arith) (λ d r. plain_field _ (to_hex-IsPlain d r)) h

pub u64_part : (n : ℕ) → All IsFieldByte (u64_text n)
u64_part n = plain_field _ (u64_text-IsPlain n)

pub line_part : (bs : Bytes) → All IsLineByte bs → All IsFieldByte bs
line_part bs h = All-mono IsLineByte IsFieldByte bs (λ b k. ground arith) h

pub block_fields-lines : (b : Block) → IsBlock b → All (All IsFieldByte) (block_fields b)
block_fields-lines b r = (
  ground arith,
  All-append (All IsFieldByte) (header_fields b.header)
      (encode_model b.trace.initial_model
        ∷ encode_model b.trace.candidate_model
        ∷ to_hex b.trace.root
        ∷ join 59 (map encode_entry b.trace.entries)
        ∷ [])
      (All-fields IsPlain IsFieldByte (header_fields b.header) (λ x k. ground arith)
        (header_fields-IsPlain b.header r.header_IsHeader))
      (
        plain_field _ (encode_model-IsPlain b.trace.initial_model),
        (
          plain_field _ (encode_model-IsPlain b.trace.candidate_model),
          (
            plain_field _ (to_hex-IsPlain b.trace.root r.root_IsDigest),
            (
              line_field IsEntry 59 encode_entry b.trace.entries (ground arith)
                  (λ e k. line_part _ (encode_entry-IsLineByte e k)) r.entries_IsEntry,
              tt,
            ),
          ),
        ),
      ),
)

pub line_split :
    (fields : List Bytes)
    → 0 < length fields
    → All (All IsFieldByte) fields
    → split 124 (trim_end (join 124 fields)) ≡ fields
line_split [] some_field h = absurd (omega arith)
line_split (field ∷ fields) some_field h =
    let keeps =
      All-join (λ b. (b ≢ 13) × (b ≢ 10)) 124 (field ∷ fields) (ground arith)
        (All-fields IsFieldByte (λ b. (b ≢ 13) × (b ≢ 10)) (field ∷ fields) (λ b k. (k.1, k.2))
          h) in
    ap (split 124) (trim_end_lem (join 124 (field ∷ fields)) keeps)
    ∙ split-join 124 field fields
        (All-fields IsFieldByte (λ b. b ≢ 124) (field ∷ fields) (λ b k. k.0) h)

-- The bytes of a name that comes back: ASCII characters that do not end a line.
abbrev pub IsNameByte : ℕ → Type 0
IsNameByte b = (b < 128) × (b ≢ 13) × (b ≢ 10)

pub escape_field : (name : Bytes) → All IsNameByte name → All IsFieldByte (escape name)
escape_field name h =
    All-escape IsFieldByte name (ground arith)
      (All-mono IsNameByte (λ b. (b ≢ 124) → IsFieldByte b) name (λ b k ne. (ne, k.1, k.2)) h)
