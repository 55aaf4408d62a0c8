-- ===== src/Ports.antt =====
-- crates/chesscoin-core/src/ports.rs: what the protocol takes from outside. The interfaces carry
-- what the types of the source promise; the blanket implementations for references add nothing.
use chesscoin.Prelude.{ℕ, ◌<◌, List, Bytes, All}
use chesscoin.Domain.Digest.{Digest, IsDigest}

pub record HashPort : Type 0 where
  pub digest : Bytes → Digest
  pub digest_IsDigest : (bytes : Bytes) → IsDigest (digest bytes)

-- `sample_indices trace_len sample_count trace_root entropy`.
pub record SamplingPort : Type 0 where
  pub sample_indices : ℕ → ℕ → Digest → ℕ → List ℕ

-- The sampler draws indices of the trace.
abbrev pub InRange : SamplingPort → Type 0
InRange sampler =
    (trace_len sample_count : ℕ) (trace_root : Digest) (entropy : ℕ)
    → All (λ i. i < trace_len) (sampler.sample_indices trace_len sample_count trace_root entropy)
