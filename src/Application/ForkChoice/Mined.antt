-- ===== src/Application/ForkChoice/Mined.antt =====
-- Mining on the best tip, and inserting what was mined.
use mathlib.Core.Option.{bind}
use chesscoin.Prelude.{
  ℕ, ◌≤◌, ◌^◌, ◌≡◌, refl, true, false, Bool-cases, Option, some, none, arith, ◌∙◌, sym, ap, ok, inl,
  inr, ◌==◌, ==_iff,
}
use mathlib.Core.Path.{subst}
use chesscoin.Domain.Digest.{Digest, zero_digest, digest_eq, digest_beq}
use chesscoin.Application.Config.{ChainConfig}
use chesscoin.Domain.Trace.{Block}
use chesscoin.Ports.{HashPort, SamplingPort, InRange}
use chesscoin.Application.Validation.{block_hash}
use chesscoin.Application.Validation.Valid.{validate_block_after_iff}
use chesscoin.Application.Chain.Mining.{mine_on-validates}
use chesscoin.Application.ForkChoice.{
  ForkNode, Nodes, ForkChoiceState, get, contains_key, find_parent, best_height, best_hash,
  best_model, contains_block, fork_context, mine_next_block, insert_block, insert_after,
}
use chesscoin.Application.ForkChoice.Tip.{HasTip}
use chesscoin.Application.ForkChoice.Tree.{IsTree, branch}
use chesscoin.Application.ForkChoice.Insert.{IsForkChoice, insert_block_result}
use chesscoin.Application.ForkChoice.BestChain.{tip_context}

pub absent_zero :
    (nodes : Nodes) (node : ForkNode)
    → get nodes zero_digest ≡ some node
    → contains_key nodes zero_digest ≡ false
    → ⊥
absent_zero nodes node at no_zero = ground arith

pub tip_apart :
    (nodes : Nodes) (tip : Digest) (best : ForkNode)
    → get nodes tip ≡ some best
    → contains_key nodes zero_digest ≡ false
    → (tip == zero_digest) ≡ false
tip_apart nodes tip best at no_zero = elim (Bool-cases (tip == zero_digest)) [
  | inl zero_tip ↦ absurd (
      absent_zero nodes best (ap (get nodes) (sym ((==_iff tip zero_digest).0 zero_tip)) ∙ at)
        no_zero)
  | inr apart ↦ apart
]

-- The parent of a mined block is found, with the context that it was mined on.
tip_parent :
    (config : ChainConfig) (hasher : HashPort) (sampler : SamplingPort) (nodes : Nodes)
    (tip : Option Digest)
    → IsTree config hasher sampler nodes
    → HasTip nodes tip
    → contains_key nodes zero_digest ≡ false
    → let s : ForkChoiceState = record { config = config; nodes = nodes; best_tip = tip } in
      (score : ℕ) × (find_parent nodes (best_hash s) ≡ ok (fork_context s, score))
unfolding best_height best_hash best_model find_parent bind digest_beq
tip_parent config hasher sampler nodes none tree empty no_zero = (0, refl)
tip_parent config hasher sampler nodes (some tip) tree (best, at, _) no_zero =
    let b = branch config hasher sampler nodes tip best tree at in
    let apart : (tip == zero_digest) ≡ false = tip_apart nodes tip best at no_zero in
    (
      best.work_score,
      subst (λ c. find_parent nodes tip ≡ ok (c, best.work_score))
          (sym (tip_context config nodes tip best at b.hash_eq)) (rw (apart, at, find_parent)),
    )

-- The insertion of a block that is mined on the best tip returns its hash.
mine-accepts :
    (hasher : HashPort) (sampler : SamplingPort) (fuel : ℕ) (s : ForkChoiceState)
    (training_seed sampling_entropy : ℕ) (block : Block)
    → InRange sampler
    → s.config.steps_per_block ≤ 2 ^ 64
    → IsForkChoice hasher sampler s
    → contains_key s.nodes zero_digest ≡ false
    → mine_next_block hasher fuel s training_seed sampling_entropy ≡ some block
    → (insert_block hasher sampler s block).1 ≡ ok (block_hash hasher block)
unfolding mine_next_block insert_block
mine-accepts hasher sampler fuel s seed entropy block in_range bound h no_zero mined =
    let valid =
      mine_on-validates hasher sampler fuel s.config (fork_context s) seed entropy block in_range
        bound mined in
    let v = (validate_block_after_iff s.config hasher sampler (fork_context s) block).0 valid in
    let (score, at_tip) =
      tip_parent s.config hasher sampler s.nodes s.best_tip h.tree h.tip no_zero in
    let found =
      subst (λ d. find_parent s.nodes d ≡ ok (fork_context s, score)) (sym v.previous_eq) at_tip in
    elim (Bool-cases (contains_key s.nodes (block_hash hasher block))) [
      | inl known ↦ rw (known, insert_block)
      | inr new_block ↦ rw (new_block, found, valid, insert_block, insert_after)
    ]

-- With a sampler that stays in range and at most 2 ^ 64 steps for a block, a block that is mined on
-- the best tip of a well-formed fork choice is inserted: its hash is returned and stored, and every
-- node that was stored is kept; no stored block hashes to the zero digest, which stands for the
-- genesis.
pub mine-insert_block :
    (hasher : HashPort) (sampler : SamplingPort) (fuel : ℕ) (s : ForkChoiceState)
    (training_seed sampling_entropy : ℕ) (block : Block)
    → InRange sampler
    → s.config.steps_per_block ≤ 2 ^ 64
    → IsForkChoice hasher sampler s
    → contains_key s.nodes zero_digest ≡ false
    → mine_next_block hasher fuel s training_seed sampling_entropy ≡ some block
    → let (after, result) = insert_block hasher sampler s block in
      (result ≡ ok (block_hash hasher block))
      × (contains_block after (block_hash hasher block) ≡ true)
      × ((key : Digest) (node : ForkNode)
          → get s.nodes key ≡ some node
          → get after.nodes key ≡ some node)
mine-insert_block hasher sampler fuel s seed entropy block in_range bound h no_zero mined =
    let accepted =
      mine-accepts hasher sampler fuel s seed entropy block in_range bound h no_zero mined in
    elim (insert_block_result hasher sampler s block) [
      | inl stored ↦ stored
      | inr (e, refused) ↦ absurd (cc (accepted, ap (λ r. r.1) refused))
    ]
