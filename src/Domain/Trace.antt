-- ===== src/Domain/Trace.antt =====
-- The block and trace types of crates/chesscoin-core/src/domain.rs, and the header's encoding.
pub mod Encode
use chesscoin.Prelude.{ℕ, ◌≡◌, ◌↔◌, ◌&&◌, Bool, true, false, List, [], ◌∷◌, ◌++◌, Bytes, text}
use chesscoin.Prelude.Words.{le_bytes}
use chesscoin.Domain.Digest.{Digest}
use chesscoin.Domain.Model.{ModelState}
use chesscoin.Domain.Model
use chesscoin.Domain.Step.{TrainingStep}

pub record BlockHeader : Type 0 where
  pub height : ℕ
  pub previous_block : Digest
  pub model_before : ModelState
  pub model_after : ModelState
  pub trace_root : Digest
  pub training_seed : ℕ
  pub sampling_entropy : ℕ
  pub sample_count : ℕ
  pub nonce : ℕ

unfoldable pub encode : BlockHeader → Bytes
encode header =
    text "chesscoin.block-header.v1"
    ++ (le_bytes 8 header.height
        ++ (header.previous_block.bytes
            ++ (Model.encode header.model_before
                ++ (Model.encode header.model_after
                    ++ (header.trace_root.bytes
                        ++ (le_bytes 8 header.training_seed
                            ++ (le_bytes 8 header.sampling_entropy
                                ++ (le_bytes 8 header.sample_count
                                    ++ le_bytes 8 header.nonce))))))))

pub record TraceEntry : Type 0 where
  pub previous_commitment : Digest
  pub step : TrainingStep
  pub commitment : Digest

pub record TrainingTrace : Type 0 where
  pub initial_model : ModelState
  pub candidate_model : ModelState
  pub entries : List TraceEntry
  pub root : Digest

pub record Block : Type 0 where
  pub header : BlockHeader
  pub trace : TrainingTrace

pub record VerificationSample : Type 0 where
  pub index : ℕ
  pub commitment_ok : Bool
  pub transition_ok : Bool

abbrev pub accepted : VerificationSample → Bool
accepted s = s.commitment_ok && s.transition_ok

pub data VerificationOutcome : Type 0 where
  accept : VerificationOutcome
  reject : List ℕ → VerificationOutcome

abbrev pub is_accepted : VerificationOutcome → Bool
is_accepted accept = true
is_accepted (reject failed_indices) = false
