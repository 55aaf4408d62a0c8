-- ===== src/Application/Validation/Sound.antt =====
-- Valid blocks and honest training runs.
use mathlib.Core.Option.{some-injective}
use native.Mathlib.Nat.{add-zero, zero-add}
use mathlib.Core.Path.{subst, subst₂}
use chesscoin.Prelude.{
  ℕ, suc, ◌+◌, ◌^◌, ◌≤◌, ◌<◌, ◌≡◌, refl, true, some, List, [], ◌∷◌, length, get_elem?, get_elem?_in,
  get_elem?_bound, arith, ==_iff, ◌==◌, nat_eq, All, ok, ◌∙◌, sym, ap, contains, Bool-cases, inl,
  inr,
}
use chesscoin.Prelude.Words.{as_u64}
use chesscoin.Domain.Digest.{Digest, zero_digest}
use chesscoin.Domain.Model.{ModelState}
use chesscoin.Domain.Step.{TrainingStep, deterministic}
use chesscoin.Domain.Trace.{Block, TraceEntry, accepted}
use chesscoin.Ports.{HashPort, SamplingPort}
use chesscoin.Application.Config.{ChainConfig}
use chesscoin.Application.Simulator.{verify_sample, build_trace_from, build_entries}
use chesscoin.Application.Simulator.Honest.{
  IsRun, IsRun-unique, IsHonest, IsRun-IsHonest, add_suc_lem,
}
use chesscoin.Application.Simulator.Detect.{verify_sample_iff}
use chesscoin.Application.Validation.{ParentContext, validate_block_after}
use chesscoin.Application.Validation.Valid.{Continuous, Linked, Sampled, validate_block_after_iff}

module _ (hasher : HashPort) (seed : ℕ) where
  -- A run is linked and continuous.
  pub IsRun-Linked :
      (index : ℕ) (state : ModelState) (previous : Digest) (entries : List TraceEntry)
      (candidate : ModelState) (root : Digest)
      → IsRun hasher seed index state previous entries candidate root
      → Linked hasher previous entries root
  IsRun-Linked index state previous [] candidate root run = sym run.1
  IsRun-Linked index state previous (e ∷ es) candidate root (p, s, c, rest) =
      (p, c, IsRun-Linked (index + 1) e.step.state_after e.commitment es candidate root rest)

  pub IsRun-Continuous :
      (index : ℕ) (state : ModelState) (previous : Digest) (entries : List TraceEntry)
      (candidate : ModelState) (root : Digest)
      → IsRun hasher seed index state previous entries candidate root
      → Continuous state entries candidate
  unfolding deterministic
  IsRun-Continuous index state previous [] candidate root run = run.0
  IsRun-Continuous index state previous (e ∷ es) candidate root (p, s, c, rest) = (
    ap (λ (t : TrainingStep). t.state_before) s,
    IsRun-Continuous (index + 1) e.step.state_after e.commitment es candidate root rest,
  )

  -- In a run every index in range checks.
  pub IsRun-Sampled :
      (state : ModelState) (entries : List TraceEntry) (candidate : ModelState) (root : Digest)
      (indices : List ℕ)
      → IsRun hasher seed 0 state zero_digest entries candidate root
      → length entries ≤ 2 ^ 64
      → All (λ i. i < length entries) indices
      → Sampled hasher seed entries indices
  IsRun-Sampled state entries candidate root [] run bound h = tt
  IsRun-Sampled state entries candidate root (i ∷ indices) run bound h =
      let (e, at) = get_elem?_in entries i h.0 in
      let honest : IsHonest hasher seed i e =
        subst (λ n. IsHonest hasher seed n e) (zero-add i)
          (IsRun-IsHonest hasher seed i 0 state zero_digest entries candidate root run at) in
      (
        (e, at, (verify_sample_iff hasher seed i e (omega (arith, h.0, bound))).1 honest),
        IsRun-Sampled state entries candidate root indices run bound h.1,
      )

  -- A linked and continuous trace of honest entries is a run.
  Linked-IsRun :
      (index : ℕ) (state : ModelState) (previous : Digest) (entries : List TraceEntry)
      (candidate : ModelState) (root : Digest)
      → Linked hasher previous entries root
      → Continuous state entries candidate
      → ((j : ℕ) (e : TraceEntry)
          → get_elem? entries j ≡ some e
          → IsHonest hasher seed (index + j) e)
      → IsRun hasher seed index state previous entries candidate root
  Linked-IsRun index state previous [] candidate root l c honest = (c, sym l)
  Linked-IsRun index state previous (e ∷ es) candidate root (p, k, l) (s, c) honest =
      let first = honest 0 e refl in
      (
        p,
        first.step_eq
            ∙ ap (λ (i : ℕ). deterministic seed (as_u64 i) e.step.state_before) (add-zero index)
            ∙ ap (deterministic seed (as_u64 index)) s,
        k,
        Linked-IsRun (index + 1) e.step.state_after e.commitment es candidate root l c
            (λ j x at. rw (add_suc_lem index j) (honest (suc j) x at)),
      )

  Sampled-IsHonest :
      (entries : List TraceEntry) (indices : List ℕ) (j : ℕ) (e : TraceEntry)
      → j < 2 ^ 64
      → Sampled hasher seed entries indices
      → contains indices j ≡ true
      → get_elem? entries j ≡ some e
      → IsHonest hasher seed j e
  Sampled-IsHonest entries [] j e fits h among at = absurd (cc)
  Sampled-IsHonest entries (i ∷ indices) j e fits ((x, found, ok_x), rest) among at =
      elim (Bool-cases (j == i)) [
        | inl same ↦
            let ij : i ≡ j = sym ((==_iff j i).0 same) in
            let xe : x ≡ e = some-injective _ _ (sym found ∙ ap (get_elem? entries) ij ∙ at) in
            (verify_sample_iff hasher seed j e fits).0
              (subst₂ (λ k y. accepted (verify_sample hasher seed k y y) ≡ true) ij xe ok_x)
        | inr other ↦ Sampled-IsHonest entries indices j e fits rest (rw other at among) at
      ]

-- If the sampler covers the trace, a block that validates holds the very trace that the honest
-- training run from its parent's model and its seed builds.
pub validated_trace :
    (config : ChainConfig) (hasher : HashPort) (sampler : SamplingPort) (parent : ParentContext)
    (block : Block)
    → config.steps_per_block ≤ 2 ^ 64
    → ((i : ℕ)
        → i < length block.trace.entries
        → contains
            (sampler.sample_indices
              (length block.trace.entries)
              block.header.sample_count
              block.trace.root
              block.header.sampling_entropy)
            i
          ≡ true)
    → validate_block_after config hasher sampler parent block ≡ ok tt
    → block.trace
      ≡ build_trace_from hasher parent.model block.header.training_seed config.steps_per_block
unfolding build_trace_from
validated_trace config hasher sampler parent block bound covers accepted_block =
    let v = (validate_block_after_iff config hasher sampler parent block).0 accepted_block in
    let t = block.trace in
    let run =
      Linked-IsRun hasher block.header.training_seed 0 t.initial_model zero_digest t.entries
        t.candidate_model t.root v.linked v.continuous
        (λ j e at. rw zero-add (
          Sampled-IsHonest hasher block.header.training_seed t.entries _ j e
            (omega (arith, get_elem?_bound t.entries j at, v.length_eq, bound)) v.sampled
            (covers j (get_elem?_bound t.entries j at)) at)) in
    let same =
      IsRun-unique hasher block.header.training_seed 0 t.initial_model zero_digest t.entries
        t.candidate_model t.root run in
    let built : build_entries hasher block.header.training_seed config.steps_per_block 0
          parent.model zero_digest
        ≡ (t.entries, t.candidate_model, t.root) =
      subst₂
        (λ n m.
          build_entries hasher block.header.training_seed n 0 m zero_digest
          ≡ (t.entries, t.candidate_model, t.root))
        v.length_eq v.initial_eq same in
    λ i. record {
      initial_model = v.initial_eq i;
      candidate_model = (sym built i).1;
      entries = (sym built i).0;
      root = (sym built i).2;
    }
