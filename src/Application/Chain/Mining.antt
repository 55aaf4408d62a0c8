-- ===== src/Application/Chain/Mining.antt =====
-- The mining loop and the block that it returns.
use native.Mathlib.Nat.{zero-add}
use mathlib.Core.Path.{subst}
use mathlib.Core.Option.{some-injective}
use chesscoin.Prelude.{
  ℕ, zero, suc, ◌+◌, ◌^◌, ◌≤◌, ◌<◌, ◌≡◌, refl, Bool, Bool-cases, some, arith, ok, sym, inl, inr,
  leb, leb→le, le→leb, if◌then◌else◌,
}
use chesscoin.Prelude.Words.{as_u64, wrapping_add}
use chesscoin.Domain.Digest.{zero_digest, leading_zero_bits}
use chesscoin.Domain.Trace.{Block, BlockHeader, TrainingTrace}
use chesscoin.Ports.{HashPort, SamplingPort, InRange}
use chesscoin.Application.Config.{ChainConfig}
use chesscoin.Application.Simulator.{build_trace_from, build_entries}
use chesscoin.Application.Simulator.Honest.{build_entries-IsRun, length-build_entries}
use chesscoin.Application.Validation.{ParentContext, block_hash, validate_block_after}
use chesscoin.Application.Validation.Valid.{IsValidBlock, validate_block_after_iff}
use chesscoin.Application.Validation.Sound.{IsRun-Linked, IsRun-Continuous, IsRun-Sampled}
use chesscoin.Application.Chain.{mine_loop, mine_on, first_header}

abbrev pub with_nonce : BlockHeader → TrainingTrace → ℕ → Block
with_nonce header trace nonce = record { header = record header { nonce = nonce }; trace = trace }

-- The block that the loop returns is the candidate at some nonce, and it has the work asked for.
record IsMined (hasher : HashPort) (difficulty : ℕ) (header : BlockHeader) (trace : TrainingTrace)
    (block : Block) : Type 0 where
  block_eq : block ≡ with_nonce header trace block.header.nonce
  work : difficulty ≤ leading_zero_bits (block_hash hasher block)

abbrev next_header : BlockHeader → BlockHeader
next_header header = record header { nonce = wrapping_add header.nonce 1 }

abbrev has_work : HashPort → ℕ → BlockHeader → TrainingTrace → Bool
has_work hasher difficulty header trace =
    leb difficulty
      (leading_zero_bits (block_hash hasher (record { header = header; trace = trace })))

-- One round of the loop.
mine_step :
    (hasher : HashPort) (difficulty fuel : ℕ) (header : BlockHeader) (trace : TrainingTrace)
    → mine_loop hasher difficulty (suc fuel) header trace ≡ (
        if has_work hasher difficulty header trace
        then some (record { header = header; trace = trace })
        else mine_loop hasher difficulty fuel (next_header header) trace)
unfolding mine_loop
mine_step hasher difficulty fuel header trace = refl

mine_loop-IsMined :
    (hasher : HashPort) (difficulty fuel : ℕ) (header : BlockHeader) (trace : TrainingTrace)
    (block : Block)
    → mine_loop hasher difficulty fuel header trace ≡ some block
    → IsMined hasher difficulty header trace block
mine_loop-IsMined hasher difficulty zero header trace block h = unfold mine_loop in absurd (cc)
mine_loop-IsMined hasher difficulty (suc fuel) header trace block h =
    elim (Bool-cases (has_work hasher difficulty header trace)) [
      | inl done ↦
          let found = rw (mine_step, done) at h in
          subst (IsMined hasher difficulty header trace) (some-injective _ _ found)
            (record { block_eq = refl; work = leb→le _ _ done })
      | inr more ↦
          let later =
            mine_loop-IsMined hasher difficulty fuel (next_header header) trace block
              (rw (mine_step, more) at h) in
          record { block_eq = later.block_eq; work = later.work }
    ]

-- If the n-th nonce after the header's has the work asked for, n + 1 rounds end the search.
mine_loop-returns :
    (hasher : HashPort) (difficulty n : ℕ) (header : BlockHeader) (trace : TrainingTrace)
    → header.nonce < 2 ^ 64
    → difficulty
      ≤ leading_zero_bits (block_hash hasher (with_nonce header trace (as_u64 (header.nonce + n))))
    → (block : Block) × (mine_loop hasher difficulty (suc n) header trace ≡ some block)
mine_loop-returns hasher difficulty zero header trace fits enough =
    let nonce_eq : as_u64 (header.nonce + 0) ≡ header.nonce = omega arith in
    let work =
      subst (λ k. difficulty ≤ leading_zero_bits (block_hash hasher (with_nonce header trace k)))
        nonce_eq enough in
    (record { header = header; trace = trace }, rw (mine_step, le→leb _ _ work))
mine_loop-returns hasher difficulty (suc n) header trace fits enough =
    elim (Bool-cases (has_work hasher difficulty header trace)) [
      | inl done ↦ (record { header = header; trace = trace }, rw (mine_step, done))
      | inr more ↦
          let nonce_eq : as_u64 (header.nonce + suc n) ≡ as_u64 (as_u64 (header.nonce + 1) + n) =
            omega arith in
          let work =
            subst
              (λ k. difficulty ≤ leading_zero_bits (block_hash hasher (with_nonce header trace k)))
              nonce_eq enough in
          let (block, found) =
            mine_loop-returns hasher difficulty n (next_header header) trace (omega arith) work in
          (block, rw (mine_step, more) found)
    ]

-- Mining returns a block within n + 1 rounds if the n-th nonce has the work asked for.
pub mine_on-returns :
    (hasher : HashPort) (n : ℕ) (config : ChainConfig) (parent : ParentContext)
    (training_seed sampling_entropy : ℕ)
    → let trace = build_trace_from hasher parent.model training_seed config.steps_per_block in
      let header = first_header config parent trace training_seed sampling_entropy in
      config.difficulty_zero_bits
        ≤ leading_zero_bits (block_hash hasher (with_nonce header trace (as_u64 n)))
      → (block : Block) × (mine_on hasher (suc n) config parent training_seed sampling_entropy
          ≡ some block)
unfolding mine_on
mine_on-returns hasher n config parent training_seed sampling_entropy enough =
    mine_loop-returns hasher config.difficulty_zero_bits n _ _ (omega arith) (rw zero-add enough)

-- The honest trace under a header with enough work, at any nonce, is a valid block.
honest_block_IsValid :
    (hasher : HashPort) (sampler : SamplingPort) (config : ChainConfig) (parent : ParentContext)
    (training_seed sampling_entropy nonce : ℕ)
    → InRange sampler
    → config.steps_per_block ≤ 2 ^ 64
    → let trace = build_trace_from hasher parent.model training_seed config.steps_per_block in
      let header = first_header config parent trace training_seed sampling_entropy in
      config.difficulty_zero_bits
        ≤ leading_zero_bits (block_hash hasher (with_nonce header trace nonce))
      → IsValidBlock config hasher sampler parent (with_nonce header trace nonce)
unfolding build_trace_from
honest_block_IsValid hasher sampler config parent seed entropy nonce in_range bound work =
    let (entries, candidate, root) =
      build_entries hasher seed config.steps_per_block 0 parent.model zero_digest in
    let run = build_entries-IsRun hasher seed config.steps_per_block 0 parent.model zero_digest in
    let size = length-build_entries hasher seed config.steps_per_block 0 parent.model zero_digest in
    record {
      height_eq = refl;
      previous_eq = refl;
      model_before_eq = refl;
      initial_eq = refl;
      candidate_eq = refl;
      length_eq = size;
      sample_count_eq = refl;
      root_eq = refl;
      linked = IsRun-Linked hasher seed 0 parent.model zero_digest entries candidate root run;
      continuous =
          IsRun-Continuous hasher seed 0 parent.model zero_digest entries candidate root run;
      work = work;
      sampled =
          IsRun-Sampled hasher seed parent.model entries candidate root _ run
            (omega (arith, size, bound)) (in_range _ _ _ _);
    }

-- A mined block is valid after its parent, whatever nonce was found: with a sampler that stays in
-- the trace the validation accepts it.
pub mine_on-validates :
    (hasher : HashPort) (sampler : SamplingPort) (fuel : ℕ) (config : ChainConfig)
    (parent : ParentContext) (training_seed sampling_entropy : ℕ) (block : Block)
    → InRange sampler
    → config.steps_per_block ≤ 2 ^ 64
    → mine_on hasher fuel config parent training_seed sampling_entropy ≡ some block
    → validate_block_after config hasher sampler parent block ≡ ok tt
unfolding mine_on
mine_on-validates hasher sampler fuel config parent training_seed sampling_entropy block in_range
      bound mined =
    let steps = config.steps_per_block in
    let trace = build_trace_from hasher parent.model training_seed steps in
    let m =
      mine_loop-IsMined hasher config.difficulty_zero_bits fuel
        (first_header config parent trace training_seed sampling_entropy) trace block mined in
    (validate_block_after_iff config hasher sampler parent block).1 (
      subst (IsValidBlock config hasher sampler parent) (sym m.block_eq) (
        honest_block_IsValid hasher sampler config parent training_seed sampling_entropy
          block.header.nonce in_range bound
          (subst (λ b. config.difficulty_zero_bits ≤ leading_zero_bits (block_hash hasher b))
            m.block_eq m.work)))
