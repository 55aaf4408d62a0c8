-- ===== src/Domain/Step/Bounds.antt =====
-- What one deterministic step changes, and by how much.
use chesscoin.Prelude.{
  ℕ, zero, suc, ◌*◌, ◌%◌, ◌^◌, ◌<◌, bit_xor, ◌≡◌, ◌≢◌, refl, List, length, arith, get_elem?, get_or,
  set, length-set, get_elem?-set_ne, All-set, All-get_or, ◌∙◌, [], ◌∷◌,
}
use chesscoin.Prelude.Int.{ℤ, pos, negsuc, ◌*ℤ◌, ◌-ℤ◌, ◌≤ℤ◌, ◌+ℤ◌}
use chesscoin.Prelude.Words.{IsI64, saturating_sub, saturate-IsI64, bit_xor-lt}
use chesscoin.Domain.Model.{ModelState, IsModel}
use chesscoin.Domain.Mix.{mix64, mix64-lt, deterministic_gradient}
use chesscoin.Domain.Step.{TrainingStep, deterministic, delta, learning_rate_ppm_const}

abbrev pub Within : ℕ → ℤ → ℤ → Type 0
Within r a b = (a ≤ℤ b +ℤ pos r) × (b ≤ℤ a +ℤ pos r)

pub gradient_bounds :
    (seed index : ℕ) (m : ModelState) (mixed : ℕ)
    → (negsuc 19 ≤ℤ deterministic_gradient seed index m mixed)
      × (deterministic_gradient seed index m mixed ≤ℤ pos 20)
unfolding deterministic_gradient
gradient_bounds seed index m mixed = ground arith

pub delta_bounds :
    (g : ℤ)
    → negsuc 19 ≤ℤ g
    → g ≤ℤ pos 20
    → IsI64 (g *ℤ learning_rate_ppm_const)
      × (negsuc 1 ≤ℤ delta g learning_rate_ppm_const)
      × (delta g learning_rate_ppm_const ≤ℤ pos 2)
unfolding delta ◌*ℤ◌ ◌-ℤ◌
delta_bounds (pos n) lo hi = ground arith
delta_bounds (negsuc n) lo hi = ground arith

pub saturating_sub_close :
    (w d : ℤ) → IsI64 w → negsuc 1 ≤ℤ d → d ≤ℤ pos 2 → Within 2 (saturating_sub w d) w
unfolding saturating_sub ◌-ℤ◌ ◌+ℤ◌
saturating_sub_close w d h lo hi = ground arith

-- The ranges of the fields of a step.
pub record IsStep (s : TrainingStep) : Type 0 where
  pub index_fits : s.index < 2 ^ 64
  pub seed_fits : s.seed < 2 ^ 64
  pub batch_id_fits : s.batch_id < 2 ^ 64
  pub weight_index_fits : s.weight_index < 2 ^ 64
  pub gradient_fits : IsI64 s.gradient
  pub learning_rate_ppm_fits : IsI64 s.learning_rate_ppm
  pub before_IsModel : IsModel s.state_before
  pub after_IsModel : IsModel s.state_after

-- The weight that a step writes stays in the i64 range.
pub updated_IsI64 : (w d : ℤ) → IsI64 (saturating_sub w d)
unfolding saturating_sub
updated_IsI64 w d = saturate-IsI64 (w -ℤ d)

-- From a seed, an index and a model in range, every field of the step is in range.
pub deterministic-IsStep :
    (seed index : ℕ) (m : ModelState)
    → seed < 2 ^ 64
    → index < 2 ^ 64
    → IsModel m
    → IsStep (deterministic seed index m)
unfolding deterministic
deterministic-IsStep seed index m hs hi hm =
    let (lo, hi') = gradient_bounds seed index m mixed in
    record {
      index_fits = hi;
      seed_fits = hs;
      batch_id_fits = mix64-lt _ (bit_xor-lt 64 _ _ mixed_fits (omega arith));
      weight_index_fits = omega arith;
      gradient_fits = omega (arith, lo, hi');
      learning_rate_ppm_fits = omega arith;
      before_IsModel = hm;
      after_IsModel = (
        length-set m.weights _ _ ∙ hm.0,
        All-set IsI64 m.weights _ _ hm.1 (
            updated_IsI64 (get_or m.weights (mixed % 8) (pos 0))
              (delta (deterministic_gradient seed index m mixed) learning_rate_ppm_const)),
      );
    }
  where
    mixed : ℕ
    mixed = mix64 (bit_xor seed ((index * 0x9e37_79b9_7f4a_7c15) % 2 ^ 64))

    mixed_fits : mixed < 2 ^ 64
    mixed_fits = mix64-lt _ (bit_xor-lt 64 _ _ hs (omega arith))

-- What a step promises about the model that it starts from.
pub record IsUpdate (s : TrainingStep) : Type 0 where
  pub in_width : s.weight_index < 8
  pub no_overflow : IsI64 (s.gradient *ℤ s.learning_rate_ppm)
  pub small :
      Within 2
        (get_or s.state_after.weights s.weight_index (pos 0))
        (get_or s.state_before.weights s.weight_index (pos 0))
  pub others :
      (j : ℕ)
      → s.weight_index ≢ j
      → get_elem? s.state_after.weights j ≡ get_elem? s.state_before.weights j

get_or-set_self : (xs : List ℤ) (i : ℕ) (v d : ℤ) → i < length xs → get_or (set xs i v) i d ≡ v
get_or-set_self [] i v d h = elim h [ ]
get_or-set_self (x ∷ xs) zero v d h = refl
get_or-set_self (x ∷ xs) (suc i) v d h = get_or-set_self xs i v d (omega arith)

-- On a model in range, a deterministic step writes one of the eight weights and moves it by at most
-- two, leaves the other weights alone, and its i64 product does not overflow.
pub deterministic-IsUpdate :
    (seed index : ℕ) (m : ModelState) → IsModel m → IsUpdate (deterministic seed index m)
unfolding deterministic
deterministic-IsUpdate seed index m hm =
    let (lo, hi) = gradient_bounds seed index m mixed in
    let (fits, dlo, dhi) = delta_bounds (deterministic_gradient seed index m mixed) lo hi in
    record {
      in_width = omega arith;
      no_overflow = fits;
      small = rw (get_or-set_self m.weights (mixed % 8) _ (pos 0) (omega (arith, hm.0))) (
          saturating_sub_close _ _
            (All-get_or IsI64 m.weights (mixed % 8) (pos 0) hm.1 (omega arith)) dlo dhi);
      others = λ j ne. get_elem?-set_ne m.weights _ ne;
    }
  where
    mixed : ℕ
    mixed = mix64 (bit_xor seed ((index * 0x9e37_79b9_7f4a_7c15) % 2 ^ 64))
