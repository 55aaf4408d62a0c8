-- ===== src/Application/Config.antt =====
-- `ChainConfig` of crates/chesscoin-core/src/application.rs.
use chesscoin.Prelude.{
  ℕ, ◌≤◌, ◌<◌, ◌≡◌, ◌↔◌, ◌==◌, nat_eq, ltb, arith, if◌then◌else◌, Result, ok, err,
}

abbrev pub max_digest_zero_bits : ℕ
max_digest_zero_bits = 256

pub record ChainConfig : Type 0 where
  pub steps_per_block : ℕ
  pub samples_per_block : ℕ
  pub difficulty_zero_bits : ℕ

pub data ChainConfigError : Type 0 where
  steps_per_block_zero samples_per_block_zero : ChainConfigError
  samples_exceed_steps : ℕ → ℕ → ChainConfigError
  difficulty_exceeds_digest_bits : ℕ → ℕ → ChainConfigError

abbrev pub default_config : ChainConfig
default_config = record { steps_per_block = 16; samples_per_block = 6; difficulty_zero_bits = 8 }

unfoldable pub validate : ChainConfig → Result (Unit {0}) ChainConfigError
validate c =
    if c.steps_per_block == 0
    then err steps_per_block_zero
    else if c.samples_per_block == 0
    then err samples_per_block_zero
    else if ltb c.steps_per_block c.samples_per_block
    then err (samples_exceed_steps c.samples_per_block c.steps_per_block)
    else if ltb max_digest_zero_bits c.difficulty_zero_bits
    then err (difficulty_exceeds_digest_bits c.difficulty_zero_bits max_digest_zero_bits)
    else ok tt

-- A configuration is accepted exactly when a block has between one sample and one for each step,
-- and the difficulty is at most the width of a digest.
pub validate_iff :
    (c : ChainConfig)
    → (validate c ≡ ok tt) ↔ (
        (0 < c.samples_per_block)
        × (c.samples_per_block ≤ c.steps_per_block)
        × (c.difficulty_zero_bits ≤ 256))
unfolding validate
validate_iff c = ground arith
