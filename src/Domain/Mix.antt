-- ===== src/Domain/Mix.antt =====
-- `mix64` and `deterministic_gradient` of crates/chesscoin-core/src/domain.rs. The same `mix64`
-- stands in crates/chesscoin-node/src/adapters.rs.
use chesscoin.Prelude.{ℕ, ◌+◌, ◌%◌, ◌^◌, ◌<◌, bit_xor, arith, List, [], ◌∷◌}
use chesscoin.Prelude.Int.{ℤ, pos, ◌-ℤ◌}
use chesscoin.Prelude.Words.{wrapping_add, wrapping_mul, shr, rotate_left, i64_bits, bit_xor-lt}
use chesscoin.Domain.Model.{ModelState}

unfoldable pub mix64 : ℕ → ℕ
mix64 value =
    let value₁ = bit_xor value (shr value 30) in
    let value₂ = wrapping_mul value₁ 0xbf58_476d_1ce4_e5b9 in
    let value₃ = bit_xor value₂ (shr value₂ 27) in
    let value₄ = wrapping_mul value₃ 0x94d0_49bb_1331_11eb in bit_xor value₄ (shr value₄ 31)

-- The loop over the weights; `offset` counts them.
unfoldable pub gradient_loop : ℕ → ℕ → List ℤ → ℕ → ℕ
unfolding mix64
gradient_loop mixed offset [] accumulator = accumulator
gradient_loop mixed offset (weight ∷ weights) accumulator =
    let lane = wrapping_mul (i64_bits weight) (offset + 3) in
    gradient_loop mixed (offset + 1) weights
      (mix64 (bit_xor (bit_xor accumulator lane) (rotate_left mixed offset)))

unfoldable pub deterministic_gradient : ℕ → ℕ → ModelState → ℕ → ℤ
unfolding gradient_loop ◌-ℤ◌
deterministic_gradient seed index state mixed =
    let accumulator =
      gradient_loop mixed 0 state.weights (wrapping_add seed (rotate_left index 17)) in
    pos (accumulator % 41) -ℤ pos 20

-- The mixer stays in 64 bits.
pub mix64-lt : (value : ℕ) → value < 2 ^ 64 → mix64 value < 2 ^ 64
unfolding mix64
mix64-lt value h = bit_xor-lt 64 _ _ (omega arith) (omega arith)
