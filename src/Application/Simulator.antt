-- ===== src/Application/Simulator.antt =====
-- `ProtocolSimulator` of crates/chesscoin-core/src/application.rs: committing to a training run,
-- opening it, and checking the sampled steps.
pub mod Honest
pub mod Weights
pub mod Detect
use chesscoin.Prelude.{
  ℕ, zero, suc, ◌+◌, ◌≡◌, ◌&&◌, Bool, Option, none, some, List, [], ◌∷◌, ◌++◌, length, get_elem?,
  get_or, set, replicate, ltb, if◌then◌else◌, ◌==◌, Bytes, text, nat_eq,
}
use chesscoin.Prelude.Int.{ℤ, pos}
use chesscoin.Prelude.Words.{as_u64, saturating_add}
use chesscoin.Domain.Digest.{Digest, zero_digest, digest_eq}
use chesscoin.Domain.Model.{ModelState, genesis}
use chesscoin.Domain.Step.{TrainingStep, deterministic, step_eq}
use chesscoin.Domain.Step
use chesscoin.Domain.Trace.{
  TraceEntry, TrainingTrace, VerificationSample, VerificationOutcome, accept, reject, accepted,
}
use chesscoin.Ports.{HashPort, SamplingPort}

pub record SimulationRequest : Type 0 where
  pub steps : ℕ
  pub samples : ℕ
  pub seed : ℕ
  pub sampling_entropy : ℕ
  pub tamper_step : Option ℕ

abbrev pub default_request : SimulationRequest
default_request = record {
  steps = 16;
  samples = 6;
  seed = 42;
  sampling_entropy = 2_026;
  tamper_step = none;
}

pub record SimulationReport : Type 0 where
  pub committed_trace : TrainingTrace
  pub opened_trace : TrainingTrace
  pub sampled_indices : List ℕ
  pub samples : List VerificationSample
  pub outcome : VerificationOutcome
  pub tamper_applied : Option ℕ

module _ (hasher : HashPort) where
  unfoldable pub commit_step : Digest → TrainingStep → Digest
  commit_step previous_commitment step =
      hasher.digest (text "chesscoin.commit.v1" ++ (previous_commitment.bytes ++ Step.encode step))

  -- The loop of `build_trace_from`: the rounds left, the index of the next one, and the loop's
  -- variables. The result is the entries pushed and the last state and commitment.
  unfoldable pub build_entries :
      ℕ → ℕ → ℕ → ModelState → Digest → List TraceEntry × ModelState × Digest
  build_entries seed zero index state previous_commitment = ([], state, previous_commitment)
  build_entries seed (suc rounds) index state previous_commitment =
      let step = deterministic seed (as_u64 index) state in
      let commitment = commit_step previous_commitment step in
      let (entries, candidate_model, root) =
        build_entries seed rounds (index + 1) step.state_after commitment in
      (
        record { previous_commitment = previous_commitment; step = step; commitment = commitment }
            ∷ entries,
        candidate_model,
        root,
      )

  unfoldable pub build_trace_from : ModelState → ℕ → ℕ → TrainingTrace
  unfolding build_entries
  build_trace_from initial_model seed steps =
      let (entries, candidate_model, root) = build_entries seed steps 0 initial_model zero_digest in
      record {
        initial_model = initial_model;
        candidate_model = candidate_model;
        entries = entries;
        root = root;
      }

  abbrev pub build_trace : ℕ → ℕ → TrainingTrace
  build_trace seed steps = build_trace_from genesis seed steps

  unfoldable pub verify_sample : ℕ → ℕ → TraceEntry → TraceEntry → VerificationSample
  verify_sample seed index committed_entry opened_entry =
      let expected_step =
        deterministic seed opened_entry.step.index opened_entry.step.state_before in
      let expected_commitment = commit_step committed_entry.previous_commitment opened_entry.step in
      record {
        index = index;
        commitment_ok =
            opened_entry.previous_commitment == committed_entry.previous_commitment
            && opened_entry.commitment == committed_entry.commitment
            && expected_commitment == committed_entry.commitment;
        transition_ok = opened_entry.step.index == index && expected_step == opened_entry.step;
      }

-- Adds one to the first weight of the step's result.
unfoldable pub tamper_trace_step : TraceEntry → TraceEntry
tamper_trace_step entry =
    let weights = entry.step.state_after.weights in
    record entry {
      step = record entry.step {
        state_after = record {
          weights = set weights 0 (saturating_add (get_or weights 0 (pos 0)) (pos 1));
        };
      };
    }

-- `request.tamper_step.filter(|index| *index < len)`.
abbrev pub filter_index : Option ℕ → ℕ → Option ℕ
filter_index none len = none
filter_index (some index) len = if ltb index len then some index else none

-- The step at the index, which is in range, is tampered with.
abbrev tamper_entries : List TraceEntry → ℕ → List TraceEntry
tamper_entries [] index = []
tamper_entries (entry ∷ entries) zero = tamper_trace_step entry ∷ entries
tamper_entries (entry ∷ entries) (suc index) = entry ∷ tamper_entries entries index

abbrev open_entries : Option ℕ → List TraceEntry → List TraceEntry
open_entries none entries = entries
open_entries (some index) entries = tamper_entries entries index

abbrev open_trace : Option ℕ → TrainingTrace → TrainingTrace
open_trace tamper trace = record trace { entries = open_entries tamper trace.entries }

-- The indices of the samples that are not accepted.
unfoldable pub failed_indices : List VerificationSample → List ℕ
failed_indices [] = []
failed_indices (sample ∷ samples) =
    let rest = failed_indices samples in if accepted sample then rest else sample.index ∷ rest

abbrev pub outcome_of : List ℕ → VerificationOutcome
outcome_of [] = accept
outcome_of (index ∷ indices) = reject (index ∷ indices)

module _ (hasher : HashPort) (sampler : SamplingPort) where
  -- `none` is the panic of `entries[index]` at an index out of range.
  verify_samples : ℕ → List TraceEntry → List TraceEntry → List ℕ → Option (List VerificationSample)
  verify_samples seed committed opened [] = some []
  verify_samples seed committed opened (index ∷ indices) = elim (get_elem? committed index) [
    | none ↦ none
    | some committed_entry ↦ elim (get_elem? opened index) [
      | none ↦ none
      | some opened_entry ↦ elim (verify_samples seed committed opened indices) [
        | none ↦ none
        | some samples ↦
            some (verify_sample hasher seed index committed_entry opened_entry ∷ samples)
      ]
    ]
  ]

  unfoldable pub run : SimulationRequest → Option SimulationReport
  unfolding verify_samples
  run request =
      let committed_trace = build_trace hasher request.seed request.steps in
      let tamper_applied = filter_index request.tamper_step (length committed_trace.entries) in
      let opened_trace = open_trace tamper_applied committed_trace in
      let sampled_indices =
        sampler.sample_indices (length committed_trace.entries) request.samples committed_trace.root
          request.sampling_entropy in
      elim (verify_samples request.seed committed_trace.entries opened_trace.entries
        sampled_indices) [
          | none ↦ none
          | some samples ↦ some (record {
            committed_trace = committed_trace;
            opened_trace = opened_trace;
            sampled_indices = sampled_indices;
            samples = samples;
            outcome = outcome_of (failed_indices samples);
            tamper_applied = tamper_applied;
          })
        ]
