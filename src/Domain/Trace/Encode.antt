-- ===== src/Domain/Trace/Encode.antt =====
-- Lemmas on the encoding of a header.
use chesscoin.Prelude.{ℕ, ◌<◌, ◌^◌, ◌≡◌, ◌++◌, text, append_split, refl, sym, ◌∙◌, List}
use chesscoin.Prelude.Words.{le_bytes_split, le_bytes-injective}
use chesscoin.Domain.Digest.{Digest, IsDigest}
use chesscoin.Domain.Model.{IsModel}
use chesscoin.Domain.Model.Encode.{encode_split}
use chesscoin.Domain.Trace.{BlockHeader, encode}

-- The ranges of the fields of a header.
pub record IsHeader (h : BlockHeader) : Type 0 where
  pub height_fits : h.height < 2 ^ 64
  pub previous_block_IsDigest : IsDigest h.previous_block
  pub model_before_IsModel : IsModel h.model_before
  pub model_after_IsModel : IsModel h.model_after
  pub trace_root_IsDigest : IsDigest h.trace_root
  pub training_seed_fits : h.training_seed < 2 ^ 64
  pub sampling_entropy_fits : h.sampling_entropy < 2 ^ 64
  pub sample_count_fits : h.sample_count < 2 ^ 64
  pub nonce_fits : h.nonce < 2 ^ 64

pub digest_split :
    (a b : Digest) {us vs : List ℕ}
    → IsDigest a
    → IsDigest b
    → a.bytes ++ us ≡ b.bytes ++ vs
    → (a ≡ b) × (us ≡ vs)
digest_split a b ha hb e =
    let (p, q) = append_split a.bytes b.bytes (ha.0 ∙ sym hb.0) e in
    (λ i. record { bytes = p i }, q)

-- Two headers in range with the same encoding are the same header.
pub header_encode-injective :
    (a b : BlockHeader) → IsHeader a → IsHeader b → encode a ≡ encode b → a ≡ b
unfolding encode
header_encode-injective a b ha hb e₀ =
    let (_, e₁) =
      append_split (text "chesscoin.block-header.v1") (text "chesscoin.block-header.v1") refl e₀ in
    let (height, e₂) = le_bytes_split a.height b.height ha.height_fits hb.height_fits e₁ in
    let (previous, e₃) =
      digest_split a.previous_block b.previous_block ha.previous_block_IsDigest
        hb.previous_block_IsDigest e₂ in
    let (before, e₄) =
      encode_split a.model_before b.model_before ha.model_before_IsModel hb.model_before_IsModel
        e₃ in
    let (after, e₅) =
      encode_split a.model_after b.model_after ha.model_after_IsModel hb.model_after_IsModel e₄ in
    let (root, e₆) =
      digest_split a.trace_root b.trace_root ha.trace_root_IsDigest hb.trace_root_IsDigest e₅ in
    let (seed, e₇) =
      le_bytes_split a.training_seed b.training_seed ha.training_seed_fits hb.training_seed_fits
        e₆ in
    let (entropy, e₈) =
      le_bytes_split a.sampling_entropy b.sampling_entropy ha.sampling_entropy_fits
        hb.sampling_entropy_fits e₇ in
    let (count, e₉) =
      le_bytes_split a.sample_count b.sample_count ha.sample_count_fits hb.sample_count_fits e₈ in
    let nonce = le_bytes-injective 8 a.nonce b.nonce ha.nonce_fits hb.nonce_fits e₉ in
    λ i. record {
      height = height i;
      previous_block = previous i;
      model_before = before i;
      model_after = after i;
      trace_root = root i;
      training_seed = seed i;
      sampling_entropy = entropy i;
      sample_count = count i;
      nonce = nonce i;
    }
