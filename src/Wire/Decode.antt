-- ===== src/Wire/Decode.antt =====
-- The decoders, with the errors of the source.
pub mod Fields
pub mod RoundTrip
use chesscoin.Prelude.{
  ℕ, ◌^◌, Bool, true, false, Option, some, none, List, [], ◌∷◌, ◌++◌, Bytes, text, length, not,
  if◌then◌else◌, ◌==◌, nat_eq, list_eq, Result, ok, err, ◌>>=◌,
}
use chesscoin.Prelude.Int.{ℤ}
use chesscoin.Domain.Digest.{Digest, from_hex}
use chesscoin.Domain.Model.{ModelState, model_width}
use chesscoin.Domain.Trace.{Block, BlockHeader, TraceEntry}
use chesscoin.Wire.Number.{u64_text, parse_below, parse_u64, parse_i64}
use chesscoin.Wire.Text.{split, splitn, trim_end, unescape}
use chesscoin.Wire.Message.{
  WireConfig, PeerMessage, wire_magic, hello, get_blocks, get_blocks_by_locator, get_inventory,
  inventory, get_headers, headers, get_peers, peers, block, end_blocks,
}

-- `parse_field` with the parser of its type.
unfoldable pub parse_field : {A : Type 0} → (Bytes → Option A) → Bytes → Bytes → Result A Bytes
parse_field parse input name = elim (parse input) [
  | none ↦ err (text "invalid " ++ (name ++ (text ": '" ++ (input ++ text "'"))))
  | some value ↦ ok value
]

-- `map` and `collect` of results: the first error ends it.
unfoldable pub collect :
    {A : Type 0} → (Bytes → Result A Bytes) → List Bytes → Result (List A) Bytes
collect decode [] = ok []
collect decode (part ∷ parts) = do
  value ← decode part
  values ← collect decode parts
  ok (value ∷ values)

-- A list of fields, none for the empty text.
unfoldable pub decode_list :
    {A : Type 0} → ℕ → (Bytes → Result A Bytes) → Bytes → Result (List A) Bytes
unfolding collect split
decode_list sep decode input = if input == [] then ok [] else collect decode (split sep input)

unfoldable pub decode_digest_list : Bytes → Result (List Digest) Bytes
unfolding decode_list
decode_digest_list input = decode_list b',' from_hex input

unfoldable pub decode_model : Bytes → Result ModelState Bytes
unfolding collect split parse_field
decode_model input =
    let fields = split b'_' input in
    if not (length fields == model_width) then err (text "model requires 8 weights") else do
      weights ← collect (λ field. parse_field parse_i64 field (text "model weight")) fields
      ok (record { weights = weights })

-- The fields of a header, in order.
unfoldable pub read_header : List Bytes → Bytes → Result BlockHeader Bytes
unfolding parse_field decode_model
read_header (f₀ ∷ f₁ ∷ f₂ ∷ f₃ ∷ f₄ ∷ f₅ ∷ f₆ ∷ f₇ ∷ f₈ ∷ []) wrong_count = do
  height ← parse_field parse_u64 f₀ (text "height")
  previous_block ← from_hex f₁
  model_before ← decode_model f₂
  model_after ← decode_model f₃
  trace_root ← from_hex f₄
  training_seed ← parse_field parse_u64 f₅ (text "training_seed")
  sampling_entropy ← parse_field parse_u64 f₆ (text "sampling_entropy")
  sample_count ← parse_field parse_u64 f₇ (text "sample_count")
  nonce ← parse_field parse_u64 f₈ (text "nonce")
  ok (record {
    height = height;
    previous_block = previous_block;
    model_before = model_before;
    model_after = model_after;
    trace_root = trace_root;
    training_seed = training_seed;
    sampling_entropy = sampling_entropy;
    sample_count = sample_count;
    nonce = nonce;
  })
read_header fields wrong_count = err wrong_count

unfoldable pub decode_header : Bytes → Result BlockHeader Bytes
unfolding read_header split
decode_header input = read_header (split b',' input) (text "header requires 9 fields")

unfoldable pub read_entry : List Bytes → Result TraceEntry Bytes
unfolding parse_field decode_model
read_entry (f₀ ∷ f₁ ∷ f₂ ∷ f₃ ∷ f₄ ∷ f₅ ∷ f₆ ∷ f₇ ∷ f₈ ∷ f₉ ∷ []) = do
  previous_commitment ← from_hex f₀
  commitment ← from_hex f₁
  index ← parse_field parse_u64 f₂ (text "step.index")
  seed ← parse_field parse_u64 f₃ (text "step.seed")
  batch_id ← parse_field parse_u64 f₄ (text "step.batch_id")
  weight_index ← parse_field parse_u64 f₅ (text "step.weight_index")
  gradient ← parse_field parse_i64 f₆ (text "step.gradient")
  learning_rate_ppm ← parse_field parse_i64 f₇ (text "step.learning_rate_ppm")
  state_before ← decode_model f₈
  state_after ← decode_model f₉
  ok (record {
    previous_commitment = previous_commitment;
    commitment = commitment;
    step = record {
      index = index;
      seed = seed;
      batch_id = batch_id;
      weight_index = weight_index;
      gradient = gradient;
      learning_rate_ppm = learning_rate_ppm;
      state_before = state_before;
      state_after = state_after;
    };
  })
read_entry fields = err (text "trace entry requires 10 fields")

unfoldable pub decode_entry : Bytes → Result TraceEntry Bytes
unfolding read_entry split
decode_entry input = read_entry (split b',' input)
