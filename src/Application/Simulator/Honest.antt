-- ===== src/Application/Simulator/Honest.antt =====
-- A training run as a relation on its entries, and the loop that builds a trace.
use native.Mathlib.Nat.{add-zero}
use chesscoin.Prelude.{
  ℕ, zero, suc, ◌+◌, ◌≡◌, refl, sym, ap, some, List, [], ◌∷◌, length, get_elem?, arith,
}
use chesscoin.Prelude.Words.{as_u64}
use chesscoin.Domain.Digest.{Digest, digest_eq}
use chesscoin.Domain.Model.{ModelState}
use chesscoin.Domain.Step.{deterministic, step_eq}
use chesscoin.Domain.Trace.{TraceEntry}
use chesscoin.Ports.{HashPort}
use chesscoin.Application.Simulator.{commit_step, build_entries}

pub add_suc_lem : (a b : ℕ) → a + 1 + b ≡ a + suc b
add_suc_lem a b = omega arith

module _ (hasher : HashPort) (seed : ℕ) where
  -- The entries of a run from an index, a model and a commitment to a last model and a root: each
  -- commits to the one before and is the deterministic step from the model that the last one left.
  abbrev pub IsRun : ℕ → ModelState → Digest → List TraceEntry → ModelState → Digest → Type 0
  IsRun index state previous [] candidate root = (candidate ≡ state) × (root ≡ previous)
  IsRun index state previous (e ∷ es) candidate root =
      (e.previous_commitment ≡ previous)
      × (e.step ≡ deterministic seed (as_u64 index) state)
      × (e.commitment ≡ commit_step hasher previous e.step)
      × IsRun (index + 1) e.step.state_after e.commitment es candidate root

  pub build_entries-IsRun :
      (rounds index : ℕ) (state : ModelState) (previous : Digest)
      → let (entries, candidate, root) = build_entries hasher seed rounds index state previous in
        IsRun index state previous entries candidate root
  unfolding build_entries
  build_entries-IsRun zero index state previous = (refl, refl)
  build_entries-IsRun (suc rounds) index state previous =
      (refl, refl, refl, build_entries-IsRun rounds (index + 1) _ _)

  pub length-build_entries :
      (rounds index : ℕ) (state : ModelState) (previous : Digest)
      → length (build_entries hasher seed rounds index state previous).0 ≡ rounds
  unfolding build_entries
  length-build_entries zero index state previous = refl
  length-build_entries (suc rounds) index state previous =
      ap suc (length-build_entries rounds (index + 1) _ _)

  -- Nothing but the loop's own trace is a run.
  pub IsRun-unique :
      (index : ℕ) (state : ModelState) (previous : Digest) (entries : List TraceEntry)
      (candidate : ModelState) (root : Digest)
      → IsRun index state previous entries candidate root
      → build_entries hasher seed (length entries) index state previous ≡ (entries, candidate, root)
  unfolding build_entries
  IsRun-unique index state previous [] candidate root (p, q) = λ i. ([], sym p i, sym q i)
  IsRun-unique index state previous (e ∷ es) candidate root (prev, step, commitment, rest) =
      let ih = IsRun-unique (index + 1) e.step.state_after e.commitment es candidate root rest in
      ground arith

  -- What one entry of a run says by itself.
  pub record IsHonest (index : ℕ) (e : TraceEntry) : Type 0 where
    pub step_eq : e.step ≡ deterministic seed (as_u64 index) e.step.state_before
    pub commitment_eq : e.commitment ≡ commit_step hasher e.previous_commitment e.step

  pub IsRun-IsHonest :
      (j index : ℕ) (state : ModelState) (previous : Digest) (entries : List TraceEntry)
      (candidate : ModelState) (root : Digest) {e : TraceEntry}
      → IsRun index state previous entries candidate root
      → get_elem? entries j ≡ some e
      → IsHonest (index + j) e
  unfolding deterministic
  IsRun-IsHonest j index state previous [] candidate root run at = absurd (cc)
  IsRun-IsHonest zero index state previous (e ∷ es) candidate root (prev, step, commitment, rest)
        at =
      record { step_eq = ground (arith, add-zero index); commitment_eq = ground arith }
  IsRun-IsHonest (suc j) index state previous (e ∷ es) candidate root (_, _, _, rest) at =
      rw (← add_suc_lem index j)
        (IsRun-IsHonest j (index + 1) e.step.state_after e.commitment es candidate root rest at)
