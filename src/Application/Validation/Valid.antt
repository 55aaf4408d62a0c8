-- ===== src/Application/Validation/Valid.antt =====
-- `validate_block_after` against a declarative description of a valid block.
use mathlib.Core.Option.{some-injective}
use mathlib.Core.Path.{subst}
use chesscoin.Prelude.{
  ℕ, ◌+◌, ◌≤◌, ◌≡◌, ◌↔◌, refl, true, false, Bool, if◌then◌else◌, not, Option-cases, some, inl, inr,
  List, [], ◌∷◌, length, get_elem?, arith, ==_iff, ◌==◌, nat_eq, All, ok, err, ◌>>◌, ◌∙◌, sym,
}
use chesscoin.Domain.Digest.{Digest, zero_digest, digest_eq, leading_zero_bits}
use chesscoin.Domain.Model.{ModelState, model_eq}
use chesscoin.Domain.Trace.{Block, TraceEntry, accepted}
use chesscoin.Ports.{HashPort, SamplingPort}
use chesscoin.Application.Config.{ChainConfig}
use chesscoin.Application.Simulator.{commit_step, verify_sample}
use chesscoin.Application.Validation.{
  BlockValidationError, ParentContext, Checked, block_hash, continuity_loop, commitment_loop,
  sample_loop, validate_work, validate_outline, validate_block_after, wrong_trace_root,
  invalid_sample,
}

-- Each entry starts from the model that the last one left, and the candidate is what is left.
abbrev pub Continuous : ModelState → List TraceEntry → ModelState → Type 0
Continuous state [] candidate = candidate ≡ state
Continuous state (e ∷ es) candidate =
    (e.step.state_before ≡ state) × Continuous e.step.state_after es candidate

module _ (hasher : HashPort) where
  -- Each entry commits to the commitment before it and to its own step, down to the root.
  abbrev pub Linked : Digest → List TraceEntry → Digest → Type 0
  Linked previous [] root = previous ≡ root
  Linked previous (e ∷ es) root =
      (e.previous_commitment ≡ previous)
      × (e.commitment ≡ commit_step hasher previous e.step)
      × Linked e.commitment es root

  -- Every sampled index is one of the trace, and its entry checks against itself.
  abbrev pub Sampled : ℕ → List TraceEntry → List ℕ → Type 0
  Sampled seed entries = All (λ i.
      (e : TraceEntry) × (get_elem? entries i ≡ some e)
      × (accepted (verify_sample hasher seed i e e) ≡ true))

pub record IsValidBlock (config : ChainConfig) (hasher : HashPort) (sampler : SamplingPort)
    (parent : ParentContext) (block : Block) : Type 0 where
  pub height_eq : block.header.height ≡ parent.height
  pub previous_eq : block.header.previous_block ≡ parent.hash
  pub model_before_eq : block.header.model_before ≡ parent.model
  pub initial_eq : block.trace.initial_model ≡ parent.model
  pub candidate_eq : block.trace.candidate_model ≡ block.header.model_after
  pub length_eq : length block.trace.entries ≡ config.steps_per_block
  pub sample_count_eq : block.header.sample_count ≡ config.samples_per_block
  pub root_eq : block.trace.root ≡ block.header.trace_root
  pub linked : Linked hasher zero_digest block.trace.entries block.trace.root
  pub continuous :
      Continuous block.trace.initial_model block.trace.entries block.trace.candidate_model
  pub work : config.difficulty_zero_bits ≤ leading_zero_bits (block_hash hasher block)
  pub sampled : Sampled hasher block.header.training_seed block.trace.entries (
      sampler.sample_indices
        (length block.trace.entries)
        block.header.sample_count
        block.trace.root
        block.header.sampling_entropy)

both_checks : (m n : Checked) → ((m >> n) ≡ ok tt) ↔ ((m ≡ ok tt) × (n ≡ ok tt))
both_checks (ok tt) n = ground arith
both_checks (err e) n = ground arith

-- A check in front of the rest: both pass, or the result is an error.
guard_then :
    {P Q : Type 0} (b : Bool) (e : BlockValidationError) (rest : Checked)
    → (b ≡ true) ↔ P
    → (rest ≡ ok tt) ↔ Q
    → ((if not b then err e else rest) ≡ ok tt) ↔ (P × Q)
guard_then true e rest p q = ((λ h. (p.0 refl, q.0 h)), (λ h. q.1 h.1))
guard_then false e rest p q = ((λ h. absurd (cc)), (λ h. absurd (cc (p.1 h.0))))

continuity_loop_iff :
    (index : ℕ) (state : ModelState) (entries : List TraceEntry) (candidate : ModelState)
    → (continuity_loop index state entries candidate ≡ ok tt) ↔ Continuous state entries candidate
unfolding continuity_loop
continuity_loop_iff index state [] candidate = ground (arith, ==_iff candidate state)
continuity_loop_iff index state (e ∷ es) candidate =
    guard_then _ _ _ (==_iff e.step.state_before state)
      (continuity_loop_iff (index + 1) e.step.state_after es candidate)

commitment_loop_iff :
    (hasher : HashPort) (previous : Digest) (entries : List TraceEntry) (root : Digest)
    → (commitment_loop hasher previous entries root ≡ ok tt) ↔ Linked hasher previous entries root
unfolding commitment_loop
commitment_loop_iff hasher previous [] root = ground (arith, ==_iff previous root)
commitment_loop_iff hasher previous (e ∷ es) root =
    let checks =
      guard_then (e.previous_commitment == previous) wrong_trace_root _
        (==_iff e.previous_commitment previous)
        (guard_then (e.commitment == commit_step hasher previous e.step) wrong_trace_root _
          (==_iff e.commitment (commit_step hasher previous e.step))
          (commitment_loop_iff hasher e.commitment es root)) in
    ((λ h. let (p, (q, r)) = checks.0 h in (p, q, r)), (λ (p, q, r). checks.1 (p, (q, r))))

sample_loop_iff :
    (hasher : HashPort) (seed : ℕ) (entries : List TraceEntry) (indices : List ℕ)
    → (sample_loop hasher seed entries indices ≡ ok tt) ↔ Sampled hasher seed entries indices
unfolding sample_loop
sample_loop_iff hasher seed entries [] = ((λ h. tt), (λ h. refl))
sample_loop_iff hasher seed entries (i ∷ indices) = elim (Option-cases (get_elem? entries i)) [
  | inl missing ↦ rw (missing, sample_loop) ((λ h. absurd (cc)), (λ h. absurd (cc (h.0.1))))
  | inr (e, found) ↦
      let checks =
        guard_then (accepted (verify_sample hasher seed i e e)) (invalid_sample i) _
          ((λ a. a), (λ a. a)) (sample_loop_iff hasher seed entries indices) in
      (
        (λ h. let (p, q) = checks.0 (rw (found, sample_loop) at h) in ((e, found, p), q)),
        (λ h.
            let ((x, at, p), q) = h in
            let same : x ≡ e = some-injective _ _ (sym at ∙ found) in
            rw (found, sample_loop)
              (checks.1 (
                subst (λ (y : TraceEntry). accepted (verify_sample hasher seed i y y) ≡ true) same
                    p,
                q,
              ))),
      )
]

outline_iff :
    (config : ChainConfig) (parent : ParentContext) (block : Block)
    → (validate_outline config parent block ≡ ok tt) ↔ (
        (block.header.height ≡ parent.height)
        × (block.header.previous_block ≡ parent.hash)
        × (block.header.model_before ≡ parent.model)
        × (block.trace.initial_model ≡ block.header.model_before)
        × (block.trace.candidate_model ≡ block.header.model_after)
        × (length block.trace.entries ≡ config.steps_per_block)
        × (block.header.sample_count ≡ config.samples_per_block)
        × (block.trace.root ≡ block.header.trace_root))
unfolding validate_outline
outline_iff config parent block = ground (
  arith,
  ==_iff block.header.previous_block parent.hash,
  ==_iff block.header.model_before parent.model,
  ==_iff block.trace.initial_model block.header.model_before,
  ==_iff block.trace.candidate_model block.header.model_after,
  ==_iff block.trace.root block.header.trace_root,
)

work_iff :
    (config : ChainConfig) (hasher : HashPort) (block : Block)
    → (validate_work config hasher block ≡ ok tt)
      ↔ (config.difficulty_zero_bits ≤ leading_zero_bits (block_hash hasher block))
unfolding validate_work
work_iff config hasher block = ground arith

-- The validation accepts exactly the valid blocks.
pub validate_block_after_iff :
    (config : ChainConfig) (hasher : HashPort) (sampler : SamplingPort) (parent : ParentContext)
    (block : Block)
    → (validate_block_after config hasher sampler parent block ≡ ok tt)
      ↔ IsValidBlock config hasher sampler parent block
unfolding validate_block_after
validate_block_after_iff config hasher sampler parent block = (accepts, complete)
  where
    entries : List TraceEntry
    entries = block.trace.entries

    accepts :
        validate_block_after config hasher sampler parent block ≡ ok tt
        → IsValidBlock config hasher sampler parent block
    accepts h =
        let (a, h₁) = (both_checks _ _).0 h in
        let (b, h₂) = (both_checks _ _).0 h₁ in
        let (c, h₃) = (both_checks _ _).0 h₂ in
        let (d, e) = (both_checks _ _).0 h₃ in
        let o = (outline_iff config parent block).0 a in
        record {
          height_eq = o.0;
          previous_eq = o.1;
          model_before_eq = o.2;
          initial_eq = o.3 ∙ o.2;
          candidate_eq = o.4;
          length_eq = o.5;
          sample_count_eq = o.6;
          root_eq = o.7;
          linked = (commitment_loop_iff hasher zero_digest entries block.trace.root).0 b;
          continuous =
              (continuity_loop_iff 0 block.trace.initial_model entries
                  block.trace.candidate_model).0
                c;
          work = (work_iff config hasher block).0 d;
          sampled = (sample_loop_iff hasher block.header.training_seed entries _).0 e;
        }

    complete :
        IsValidBlock config hasher sampler parent block
        → validate_block_after config hasher sampler parent block ≡ ok tt
    complete v = (both_checks _ _).1 (
      (outline_iff config parent block).1 (
        v.height_eq,
        v.previous_eq,
        v.model_before_eq,
        v.initial_eq ∙ sym v.model_before_eq,
        v.candidate_eq,
        v.length_eq,
        v.sample_count_eq,
        v.root_eq,
      ),
      (both_checks _ _).1 (
        (commitment_loop_iff hasher zero_digest entries block.trace.root).1 v.linked,
        (both_checks _ _).1 (
          (continuity_loop_iff 0 block.trace.initial_model entries block.trace.candidate_model).1
              v.continuous,
          (both_checks _ _).1 (
            (work_iff config hasher block).1 v.work,
            (sample_loop_iff hasher block.header.training_seed entries _).1 v.sampled,
          ),
        ),
      ),
    )
