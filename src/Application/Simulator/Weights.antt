-- ===== src/Application/Simulator/Weights.antt =====
-- How far the weights can drift in a run, and what the tampering of the simulator changes.
use native.Mathlib.Nat.{add-zero}
use mathlib.Core.Path.{subst}
use mathlib.Core.Option.{some-injective}
use chesscoin.Prelude.{
  ℕ, zero, suc, ◌+◌, ◌*◌, ◌%◌, ◌^◌, ◌≤◌, bit_xor, ◌≡◌, ◌≢◌, sym, ap, ◌∙◌, some, List, [], ◌∷◌,
  length, length-set, get_elem?, get_or, set, arith, All, All-set, All-get_or,
}
use chesscoin.Prelude.Int.{ℤ, pos, pos_part, neg_part, ◌≤ℤ◌, ◌+ℤ◌}
use chesscoin.Prelude.Words.{as_u64, IsI64, i64_max, saturating_add, saturating_sub}
use chesscoin.Domain.Digest.{Digest}
use chesscoin.Domain.Model.{ModelState, genesis}
use chesscoin.Domain.Mix.{mix64, deterministic_gradient}
use chesscoin.Domain.Step.{TrainingStep, deterministic, delta, learning_rate_ppm_const}
use chesscoin.Domain.Step.Bounds.{
  updated_IsI64, gradient_bounds, delta_bounds, saturating_sub_close,
}
use chesscoin.Domain.Trace.{TraceEntry}
use chesscoin.Ports.{HashPort}
use chesscoin.Application.Simulator.{tamper_trace_step}
use chesscoin.Application.Simulator.Honest.{IsRun, add_suc_lem}

-- Within the i64 range, and at most twice the rounds above the largest weight of the genesis model.
abbrev IsLow : ℕ → ℤ → Type 0
IsLow rounds w = IsI64 w × (w ≤ℤ pos (210 + 2 * rounds))

abbrev pub LowModel : ℕ → ModelState → Type 0
LowModel rounds m = (length m.weights ≡ 8) × All (IsLow rounds) m.weights

pub genesis-LowModel : LowModel 0 genesis
genesis-LowModel = omega arith

IsLow-mono : (rounds : ℕ) (ws : List ℤ) → All (IsLow rounds) ws → All (IsLow (rounds + 1)) ws
IsLow-mono rounds [] h = tt
IsLow-mono rounds (w ∷ ws) h = (omega (arith, h.0), IsLow-mono rounds ws h.1)

updated_IsLow :
    (rounds : ℕ) (w g : ℤ)
    → IsLow rounds w
    → IsI64 (saturating_sub w (delta g learning_rate_ppm_const))
    → saturating_sub w (delta g learning_rate_ppm_const) ≤ℤ w +ℤ pos 2
    → IsLow (rounds + 1) (saturating_sub w (delta g learning_rate_ppm_const))
unfolding ◌+ℤ◌
updated_IsLow rounds w g h fits close = ground arith

pub deterministic-LowModel :
    (rounds seed index : ℕ) (m : ModelState)
    → LowModel rounds m
    → LowModel (rounds + 1) (deterministic seed index m).state_after
unfolding deterministic
deterministic-LowModel rounds seed index m h =
    let (lo, hi) = gradient_bounds seed index m mixed in
    let (_, dlo, dhi) = delta_bounds gradient lo hi in
    let old_IsLow = All-get_or (IsLow rounds) m.weights (mixed % 8) (pos 0) h.1 (omega arith) in
    let (up, _) =
      saturating_sub_close old (delta gradient learning_rate_ppm_const) old_IsLow.0 dlo dhi in
    (
      length-set m.weights _ _ ∙ h.0,
      All-set (IsLow (rounds + 1)) m.weights _ _ (IsLow-mono rounds m.weights h.1) (
          updated_IsLow rounds old gradient old_IsLow
            (updated_IsI64 old (delta gradient learning_rate_ppm_const)) up),
    )
  where
    mixed : ℕ
    mixed = mix64 (bit_xor seed ((index * 0x9e37_79b9_7f4a_7c15) % 2 ^ 64))

    gradient : ℤ
    gradient = deterministic_gradient seed index m mixed

    old : ℤ
    old = get_or m.weights (mixed % 8) (pos 0)

pub IsRun-LowModel :
    (hasher : HashPort) (seed j rounds index : ℕ) (state : ModelState) (previous : Digest)
    (entries : List TraceEntry) (candidate : ModelState) (root : Digest) {e : TraceEntry}
    → LowModel rounds state
    → IsRun hasher seed index state previous entries candidate root
    → get_elem? entries j ≡ some e
    → LowModel (rounds + j + 1) e.step.state_after
IsRun-LowModel hasher seed j rounds index state previous [] candidate root low run at = absurd (cc)
IsRun-LowModel hasher seed zero rounds index state previous (e ∷ es) candidate root low
      (_, step, _, _) at =
    subst (λ (s : TrainingStep). LowModel (rounds + 0 + 1) s.state_after)
      (sym step ∙ ap (λ (x : TraceEntry). x.step) (some-injective _ _ at))
      (rw add-zero (deterministic-LowModel rounds seed (as_u64 index) state low))
IsRun-LowModel hasher seed (suc j) rounds index state previous (e ∷ es) candidate root low
      (_, step, _, rest) at =
    rw (← add_suc_lem rounds j) (
      IsRun-LowModel hasher seed j (rounds + 1) (index + 1) e.step.state_after e.commitment es
        candidate root
        (subst (λ (s : TrainingStep). LowModel (rounds + 1) s.state_after) (sym step)
          (deterministic-LowModel rounds seed (as_u64 index) state low))
        rest at)

-- Raising the first weight changes it, unless it is the largest i64.
pub saturating_add-ne : (w : ℤ) → IsI64 w → w ≢ i64_max → saturating_add w (pos 1) ≢ w
unfolding saturating_add ◌+ℤ◌
saturating_add-ne w h ne = ground arith

first_weight_ne :
    (ws : List ℤ) (rounds : ℕ)
    → rounds ≤ 2 ^ 61
    → length ws ≡ 8
    → All (IsLow rounds) ws
    → set ws 0 (saturating_add (get_or ws 0 (pos 0)) (pos 1)) ≢ ws
first_weight_ne [] rounds bound n h = absurd (omega arith)
first_weight_ne (w ∷ ws) rounds bound n h =
    let below : w ≢ i64_max = λ e. absurd (omega (arith, h.0, ap pos_part e, ap neg_part e)) in
    let changed = saturating_add-ne w h.0.0 below in λ e. changed (cc)

-- The tampered step differs from the honest one, as long as the weights are low.
pub tamper_ne :
    (e : TraceEntry) (rounds : ℕ)
    → rounds ≤ 2 ^ 61
    → LowModel rounds e.step.state_after
    → (tamper_trace_step e).step ≢ e.step
unfolding tamper_trace_step
tamper_ne e rounds bound low same =
    first_weight_ne e.step.state_after.weights rounds bound low.0 low.1
      (ap (λ (s : TrainingStep). s.state_after.weights) same)
