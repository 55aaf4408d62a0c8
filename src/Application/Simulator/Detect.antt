-- ===== src/Application/Simulator/Detect.antt =====
-- The outcome of a simulation, with and without tampering.
use native.Mathlib.Nat.{mod-eq_of_lt, zero-add}
use chesscoin.Prelude.{
  ℕ, zero, suc, ◌+◌, ◌^◌, ◌<◌, ◌≤◌, ◌≡◌, ◌≢◌, ◌↔◌, inl, inr, refl, ap, ◌∙◌, Bool, true, false, not,
  none, some, Option, List, [], ◌∷◌, length, get_elem?, arith, ==_refl, ==_iff, ◌==◌, nat_eq,
  if◌then◌else◌, All, Bool-cases, get_elem?_in, get_elem?_bound,
}
use chesscoin.Domain.Digest.{zero_digest, digest_eq}
use chesscoin.Domain.Model.{ModelState, genesis}
use chesscoin.Domain.Step.{TrainingStep, deterministic, step_eq}
use chesscoin.Domain.Trace.{TraceEntry, accepted, VerificationSample}
use chesscoin.Ports.{HashPort, SamplingPort, InRange}
use chesscoin.Application.Simulator.{
  commit_step, build_entries, build_trace_from, verify_sample, tamper_trace_step, tamper_entries,
  open_trace, open_entries, verify_samples, failed_indices, filter_index, outcome_of, run,
  SimulationRequest, SimulationReport,
}
use chesscoin.Application.Simulator.Honest.{
  IsHonest, IsRun-IsHonest, build_entries-IsRun, length-build_entries,
}
use chesscoin.Application.Simulator.Weights.{genesis-LowModel, IsRun-LowModel, tamper_ne}

module _ (hasher : HashPort) (seed : ℕ) where
  honest_index :
      (index : ℕ) (e : TraceEntry)
      → index < 2 ^ 64
      → IsHonest hasher seed index e
      → e.step.index ≡ index
  unfolding deterministic
  honest_index index e h honest = ap (λ (s : TrainingStep). s.index) honest.step_eq ∙ mod-eq_of_lt h

  -- A sample of an entry against itself is accepted exactly when the entry is honest.
  pub verify_sample_iff :
      (index : ℕ) (e : TraceEntry)
      → index < 2 ^ 64
      → (accepted (verify_sample hasher seed index e e) ≡ true) ↔ IsHonest hasher seed index e
  unfolding verify_sample
  verify_sample_iff index e h = (
    λ a. record { step_eq = ground (arith, redo); commitment_eq = ground (arith, again) },
    λ honest.
        let index_eq = honest_index index e h honest in
        ground (
          arith,
          redo,
          again,
          honest.step_eq,
          honest.commitment_eq,
          index_eq,
          ==_refl e.commitment,
          ==_refl e.previous_commitment,
        ),
  )
    where
      redo :
          (deterministic seed e.step.index e.step.state_before == e.step) ≡ true
          ↔ deterministic seed e.step.index e.step.state_before ≡ e.step
      redo = ==_iff _ _

      again :
          ((commit_step hasher e.previous_commitment e.step == e.commitment) ≡ true)
          ↔ (commit_step hasher e.previous_commitment e.step ≡ e.commitment)
      again = ==_iff _ _

  -- A tampered entry fails against the entry that was committed.
  pub verify_sample-tampered :
      (index : ℕ) (e : TraceEntry)
      → index < 2 ^ 64
      → IsHonest hasher seed index e
      → (tamper_trace_step e).step ≢ e.step
      → accepted (verify_sample hasher seed index e (tamper_trace_step e)) ≡ false
  unfolding verify_sample tamper_trace_step
  verify_sample-tampered index e h honest changed = ground (
    arith,
    honest_index index e h honest,
    honest.step_eq,
    ==_iff (deterministic seed e.step.index e.step.state_before) (tamper_trace_step e).step,
  )

index-verify_sample :
    (hasher : HashPort) (seed index : ℕ) (c o : TraceEntry)
    → (verify_sample hasher seed index c o).index ≡ index
unfolding verify_sample
index-verify_sample hasher seed index c o = refl

-- The sampled indices at which a step was tampered with.
abbrev pub hits : Option ℕ → List ℕ → List ℕ
hits none indices = []
hits (some index) [] = []
hits (some index) (i ∷ indices) =
    let rest = hits (some index) indices in if i == index then i ∷ rest else rest

open_entry : Option ℕ → ℕ → TraceEntry → TraceEntry
open_entry none j e = e
open_entry (some index) j e = if j == index then tamper_trace_step e else e

hit : Option ℕ → ℕ → Bool
hit none j = false
hit (some index) j = j == index

hits_cons :
    (t : Option ℕ) (i : ℕ) (indices : List ℕ)
    → hits t (i ∷ indices) ≡ (if hit t i then i ∷ hits t indices else hits t indices)
unfolding hit
hits_cons none i indices = refl
hits_cons (some index) i indices = refl

nil_hits : (t : Option ℕ) → [] ≡ hits t []
nil_hits none = refl
nil_hits (some index) = refl

get_elem?-tamper_entries :
    (entries : List TraceEntry) (index j : ℕ) {e : TraceEntry}
    → get_elem? entries j ≡ some e
    → get_elem? (tamper_entries entries index) j ≡ some (open_entry (some index) j e)
unfolding open_entry
get_elem?-tamper_entries [] index j at = cc
get_elem?-tamper_entries (x ∷ xs) zero zero at = cc
get_elem?-tamper_entries (x ∷ xs) zero (suc j) {e} at = ground arith
get_elem?-tamper_entries (x ∷ xs) (suc index) zero {e} at = ground arith
get_elem?-tamper_entries (x ∷ xs) (suc index) (suc j) {e} at =
    ground (arith, get_elem?-tamper_entries xs index j at)

get_elem?-open_entries :
    (t : Option ℕ) (entries : List TraceEntry) (j : ℕ) {e : TraceEntry}
    → get_elem? entries j ≡ some e
    → get_elem? (open_entries t entries) j ≡ some (open_entry t j e)
get_elem?-open_entries none entries j at = unfold open_entry in at
get_elem?-open_entries (some index) entries j at = get_elem?-tamper_entries entries index j at

module _ (hasher : HashPort) (sampler : SamplingPort) (seed : ℕ) (entries : List TraceEntry)
    (known : (j : ℕ) (e : TraceEntry)
      → get_elem? entries j ≡ some e
      → (j < 2 ^ 64) × IsHonest hasher seed j e × ((tamper_trace_step e).step ≢ e.step)) where
  open_sample :
      (t : Option ℕ) (j : ℕ) (e : TraceEntry)
      → get_elem? entries j ≡ some e
      → accepted (verify_sample hasher seed j e (open_entry t j e)) ≡ not (hit t j)
  unfolding hit open_entry
  open_sample none j e at =
      let (fits, honest, changed) = known j e at in
      (verify_sample_iff hasher seed j e fits).1 honest
  open_sample (some index) j e at =
      let (fits, honest, changed) = known j e at in
      elim (Bool-cases (j == index)) [
        | inl same ↦ rw same (verify_sample-tampered hasher seed j e fits honest changed)
        | inr other ↦ rw other ((verify_sample_iff hasher seed j e fits).1 honest)
      ]

  verify_samples-hits :
      (t : Option ℕ) (indices : List ℕ)
      → All (λ i. i < length entries) indices
      → (samples : List VerificationSample) × (verify_samples hasher sampler seed entries
            (open_entries t entries)
            indices
          ≡ some samples)
        × (failed_indices samples ≡ hits t indices)
  unfolding verify_samples failed_indices
  verify_samples-hits t [] h = ([], refl, nil_hits t)
  verify_samples-hits t (i ∷ indices) h =
      let (e, at) = get_elem?_in entries i h.0 in
      let (samples, eq, failed) = verify_samples-hits t indices h.1 in
      (
        verify_sample hasher seed i e (open_entry t i e) ∷ samples,
        ground (arith, at, get_elem?-open_entries t entries i at, eq),
        rw
            (
              hits_cons t i indices,
              open_sample t i e at,
              failed,
              index-verify_sample hasher seed i e (open_entry t i e),
            )
            (ground arith),
      )

-- Every entry of a built trace is honest, and would be changed by the tampering.
build_trace_from_known :
    (hasher : HashPort) (seed steps : ℕ)
    → steps ≤ 2 ^ 61
    → (j : ℕ) (e : TraceEntry)
    → get_elem? (build_trace_from hasher genesis seed steps).entries j ≡ some e
    → (j < 2 ^ 64) × IsHonest hasher seed j e × ((tamper_trace_step e).step ≢ e.step)
unfolding build_trace_from
build_trace_from_known hasher seed steps bound j e at =
    let (entries, candidate, root) = build_entries hasher seed steps 0 genesis zero_digest in
    let is_run = build_entries-IsRun hasher seed steps 0 genesis zero_digest in
    let size = length-build_entries hasher seed steps 0 genesis zero_digest in
    let short : j < steps = omega (arith, get_elem?_bound entries j at, size) in
    (
      omega (arith, short, bound),
      rw (← zero-add j)
          (IsRun-IsHonest hasher seed j 0 genesis zero_digest entries candidate root is_run at),
      tamper_ne e (0 + j + 1) (omega (arith, short, bound)) (
          IsRun-LowModel hasher seed j 0 0 genesis zero_digest entries candidate root
            genesis-LowModel is_run at),
    )

pub length-build_trace_from :
    (hasher : HashPort) (model : ModelState) (seed steps : ℕ)
    → length (build_trace_from hasher model seed steps).entries ≡ steps
unfolding build_trace_from
length-build_trace_from hasher model seed steps =
    length-build_entries hasher seed steps 0 model zero_digest

-- With at most 2 ^ 61 steps and a sampler that stays in the trace, a simulation ends with a report
-- and rejects exactly the sampled indices that were tampered with: it accepts if there are none.
pub run_outcome :
    (hasher : HashPort) (sampler : SamplingPort) (request : SimulationRequest)
    → InRange sampler
    → request.steps ≤ 2 ^ 61
    → (report : SimulationReport) × (run hasher sampler request ≡ some report)
      × (report.tamper_applied ≡ filter_index request.tamper_step request.steps)
      × (report.outcome ≡ outcome_of (hits report.tamper_applied report.sampled_indices))
unfolding run
run_outcome hasher sampler request in_range bound =
    let trace = build_trace_from hasher genesis request.seed request.steps in
    let tamper = filter_index request.tamper_step (length trace.entries) in
    let indices =
      sampler.sample_indices (length trace.entries) request.samples trace.root
        request.sampling_entropy in
    let (samples, eq, failed) =
      verify_samples-hits hasher sampler request.seed trace.entries
        (build_trace_from_known hasher request.seed request.steps bound) tamper indices
        (in_range _ _ _ _) in
    (
      record {
        committed_trace = trace;
        opened_trace = open_trace tamper trace;
        sampled_indices = indices;
        samples = samples;
        outcome = outcome_of (failed_indices samples);
        tamper_applied = tamper;
      },
      rw (eq, run),
      ap (filter_index request.tamper_step)
          (length-build_trace_from hasher genesis request.seed request.steps),
      ap outcome_of failed,
    )
