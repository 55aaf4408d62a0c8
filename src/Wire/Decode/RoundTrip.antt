-- ===== src/Wire/Decode/RoundTrip.antt =====
-- Headers and trace entries through crates/chesscoin-node/src/wire.rs and back.
use chesscoin.Prelude.{
  ℕ, ◌≤◌, ◌<◌, ◌≡◌, ◌≢◌, arith, All, List, [], ◌∷◌, length, Bytes, text, nat_eq, ◌∙◌, ap, ok,
  length-append,
}
use chesscoin.Domain.Digest.{IsDigest, to_hex}
use chesscoin.Domain.Digest.Hex.{from_hex-to_hex}
use chesscoin.Domain.Step.Bounds.{IsStep}
use chesscoin.Domain.Trace.{BlockHeader, TraceEntry}
use chesscoin.Domain.Trace.Encode.{IsHeader}
use chesscoin.Wire.Number.{u64_text}
use chesscoin.Wire.Text.{join}
use chesscoin.Wire.Text.Fields.{split-join, All-join, All-mono}
use chesscoin.Wire.Encode.{header_fields, encode_header, entry_fields, encode_entry}
use chesscoin.Wire.Decode.{read_header, decode_header, read_entry, decode_entry}
use chesscoin.Wire.Decode.Fields.{
  IsPlain, u64_text-IsPlain, i64_text-IsPlain, to_hex-IsPlain, encode_model-IsPlain, u64_field,
  i64_field, decode_model-encode_model,
}

-- The ranges of an entry of a trace.
pub record IsEntry (e : TraceEntry) : Type 0 where
  pub previous_IsDigest : IsDigest e.previous_commitment
  pub commitment_IsDigest : IsDigest e.commitment
  pub step_IsStep : IsStep e.step

pub read_header-header_fields :
    (h : BlockHeader) (wrong_count : Bytes)
    → IsHeader h
    → read_header (header_fields h) wrong_count ≡ ok h
unfolding read_header
read_header-header_fields h wrong_count r = rw (
  u64_field h.height (text "height") r.height_fits,
  from_hex-to_hex h.previous_block r.previous_block_IsDigest,
  decode_model-encode_model h.model_before r.model_before_IsModel,
  decode_model-encode_model h.model_after r.model_after_IsModel,
  from_hex-to_hex h.trace_root r.trace_root_IsDigest,
  u64_field h.training_seed (text "training_seed") r.training_seed_fits,
  u64_field h.sampling_entropy (text "sampling_entropy") r.sampling_entropy_fits,
  u64_field h.sample_count (text "sample_count") r.sample_count_fits,
  u64_field h.nonce (text "nonce") r.nonce_fits,
  read_header,
)

pub read_entry-entry_fields : (e : TraceEntry) → IsEntry e → read_entry (entry_fields e) ≡ ok e
unfolding read_entry
read_entry-entry_fields e r = rw (
  from_hex-to_hex e.previous_commitment r.previous_IsDigest,
  from_hex-to_hex e.commitment r.commitment_IsDigest,
  u64_field e.step.index (text "step.index") r.step_IsStep.index_fits,
  u64_field e.step.seed (text "step.seed") r.step_IsStep.seed_fits,
  u64_field e.step.batch_id (text "step.batch_id") r.step_IsStep.batch_id_fits,
  u64_field e.step.weight_index (text "step.weight_index") r.step_IsStep.weight_index_fits,
  i64_field e.step.gradient (text "step.gradient") r.step_IsStep.gradient_fits,
  i64_field e.step.learning_rate_ppm (text "step.learning_rate_ppm")
      r.step_IsStep.learning_rate_ppm_fits,
  decode_model-encode_model e.step.state_before r.step_IsStep.before_IsModel,
  decode_model-encode_model e.step.state_after r.step_IsStep.after_IsModel,
  read_entry,
)

-- The fields of a header and of an entry hold plain bytes, and so no separator of a line.
pub header_fields-IsPlain : (h : BlockHeader) → IsHeader h → All (All IsPlain) (header_fields h)
header_fields-IsPlain h r = (
  u64_text-IsPlain h.height,
  (
    to_hex-IsPlain h.previous_block r.previous_block_IsDigest,
    (
      encode_model-IsPlain h.model_before,
      (
        encode_model-IsPlain h.model_after,
        (
          to_hex-IsPlain h.trace_root r.trace_root_IsDigest,
          (
            u64_text-IsPlain h.training_seed,
            (
              u64_text-IsPlain h.sampling_entropy,
              (u64_text-IsPlain h.sample_count, (u64_text-IsPlain h.nonce, tt)),
            ),
          ),
        ),
      ),
    ),
  ),
)

pub entry_fields-IsPlain : (e : TraceEntry) → IsEntry e → All (All IsPlain) (entry_fields e)
entry_fields-IsPlain e r = (
  to_hex-IsPlain e.previous_commitment r.previous_IsDigest,
  (
    to_hex-IsPlain e.commitment r.commitment_IsDigest,
    (
      u64_text-IsPlain e.step.index,
      (
        u64_text-IsPlain e.step.seed,
        (
          u64_text-IsPlain e.step.batch_id,
          (
            u64_text-IsPlain e.step.weight_index,
            (
              i64_text-IsPlain e.step.gradient,
              (
                i64_text-IsPlain e.step.learning_rate_ppm,
                (
                  encode_model-IsPlain e.step.state_before,
                  (encode_model-IsPlain e.step.state_after, tt),
                ),
              ),
            ),
          ),
        ),
      ),
    ),
  ),
)

pub All-fields :
    (P Q : ℕ → Type 0) (fields : List Bytes)
    → ((b : ℕ) → P b → Q b)
    → All (All P) fields
    → All (All Q) fields
All-fields P Q [] f h = tt
All-fields P Q (field ∷ fields) f h = (All-mono P Q field f h.0, All-fields P Q fields f h.1)

-- A header in range is read back from its text.
pub decode_header-encode_header :
    (h : BlockHeader) → IsHeader h → decode_header (encode_header h) ≡ ok h
unfolding decode_header encode_header
decode_header-encode_header h r =
    let fields = split-join 44 (u64_text h.height) _ (
      All-fields IsPlain (λ b. b ≢ 44) (header_fields h) (λ b k. ground arith)
        (header_fields-IsPlain h r)) in
    ap (λ fs. read_header fs (text "header requires 9 fields")) fields
    ∙ read_header-header_fields h (text "header requires 9 fields") r

-- An entry of a trace in range is read back from its text.
pub decode_entry-encode_entry : (e : TraceEntry) → IsEntry e → decode_entry (encode_entry e) ≡ ok e
unfolding decode_entry encode_entry
decode_entry-encode_entry e r =
    ap read_entry (
      split-join 44 (to_hex e.previous_commitment) _ (
        All-fields IsPlain (λ b. b ≢ 44) (entry_fields e) (λ b k. ground arith)
          (entry_fields-IsPlain e r)))
    ∙ read_entry-entry_fields e r

-- The bytes of the text of a header or an entry: plain ones and commas.
abbrev pub IsLineByte : ℕ → Type 0
IsLineByte b = (44 ≤ b) × (b ≤ 102) × (b ≢ 59)

pub encode_header-IsLineByte : (h : BlockHeader) → IsHeader h → All IsLineByte (encode_header h)
unfolding encode_header
encode_header-IsLineByte h r = All-join IsLineByte 44 (header_fields h) (ground arith) (
    All-fields IsPlain IsLineByte (header_fields h) (λ b k. ground arith)
      (header_fields-IsPlain h r))

pub encode_entry-IsLineByte : (e : TraceEntry) → IsEntry e → All IsLineByte (encode_entry e)
unfolding encode_entry
encode_entry-IsLineByte e r = All-join IsLineByte 44 (entry_fields e) (ground arith) (
    All-fields IsPlain IsLineByte (entry_fields e) (λ b k. ground arith) (entry_fields-IsPlain e r))

join_some : (sep : ℕ) (f g : Bytes) (fs : List Bytes) → 0 < length (join sep (f ∷ g ∷ fs))
unfolding join
join_some sep f g fs = omega (arith, length-append f (sep ∷ join sep (g ∷ fs)))

pub encode_header_some : (h : BlockHeader) → 0 < length (encode_header h)
unfolding encode_header
encode_header_some h = join_some 44 _ _ _

pub encode_entry_some : (e : TraceEntry) → 0 < length (encode_entry e)
unfolding encode_entry
encode_entry_some e = join_some 44 _ _ _
