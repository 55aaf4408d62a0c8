-- ===== src/Node/Chains/Batch.antt =====
-- The trial of a batch of blocks, and the batch itself.
use mathlib.Core.List.{map}
use chesscoin.Prelude.{
  ◌≡◌, ◌⊎◌, refl, true, false, Bool-cases, inl, inr, List, [], ◌∷◌, ◌==◌, Result, ok, err,
  ok-injective, Result-cases, ◌∙◌, ap, sym,
}
use chesscoin.Domain.Digest.{Digest, digest_eq}
use chesscoin.Domain.Trace.{Block}
use chesscoin.Ports.{SamplingPort}
use chesscoin.Application.ForkChoice.{ForkChoiceState, best_hash, contains_block, insert_block}
use chesscoin.Application.Chain.{head_hash}
use chesscoin.Adapters.{toy_hash}
use chesscoin.Node.Locator.{hash_of}
use chesscoin.Node.State.{NodeState}
use chesscoin.Node.Storage.{Disk}
use chesscoin.Node.Chains.{
  BlockApplication, sync, accepted, already_known, rejected, persist_block, activate_best_chain,
  settle_block, chain_from_blocks, best_blocks, after_insert, apply_incoming_block, trial_loop,
  apply_batch,
}
use chesscoin.Node.Chains.Settle.{persist_block_lem}

abbrev pub block_of : Disk × Block → Block
block_of (disk, b) = b

module _ (sampler : SamplingPort) where
  activate-fork_choice :
      (s : NodeState) → (activate_best_chain sampler s).0.fork_choice ≡ s.fork_choice
  unfolding activate_best_chain
  activate-fork_choice s =
      elim (Bool-cases (head_hash toy_hash s.chain == best_hash s.fork_choice)) [
        | inl same ↦ rw same refl
        | inr apart ↦
            elim (Result-cases
              (chain_from_blocks sampler s.fork_choice.config (best_blocks s.fork_choice))) [
                | inl (chain, built) ↦ rw (apart, built) refl
                | inr (e, failed) ↦ rw (apart, failed) refl
              ]
      ]

  settle_block-fork_choice :
      (disk : Disk) (s : NodeState) (b : Block) (old_head : Digest)
      → (settle_block sampler disk s b sync old_head).fork_choice ≡ s.fork_choice
  unfolding settle_block
  settle_block-fork_choice disk s b old_head =
      activate-fork_choice (persist_block disk s b)
      ∙ ap (λ (t : NodeState). t.fork_choice) (persist_block_lem disk s b)

  abbrev pub batch_rest :
      List (Disk × Block) → NodeState × BlockApplication → NodeState × Result (Unit {0}) (Unit {0})
  batch_rest batch (s, accepted) = apply_batch sampler s batch
  batch_rest batch (s, already_known) = apply_batch sampler s batch
  batch_rest batch (s, rejected) = (s, err tt)

  -- One step of the batch, and of its trial.
  pub batch_step :
      (s s' : NodeState) (disk : Disk) (b : Block) (batch : List (Disk × Block))
      → ((apply_incoming_block sampler disk s b sync ≡ (s', already_known))
          ⊎ (apply_incoming_block sampler disk s b sync ≡ (s', accepted)))
      → apply_batch sampler s ((disk, b) ∷ batch) ≡ apply_batch sampler s' batch
  unfolding apply_batch
  batch_step s s' disk b batch (inl known) = ap (batch_rest batch) known
  batch_step s s' disk b batch (inr taken) = ap (batch_rest batch) taken

  pub trial_step :
      (fork fork' : ForkChoiceState) (b : Block) (blocks : List Block)
      → contains_block fork (hash_of b) ≡ false
      → trial_loop sampler fork (b ∷ blocks) ≡ ok fork'
      → (hash : Digest) × ((insert_block toy_hash sampler fork b).1 ≡ ok hash)
        × (trial_loop sampler (insert_block toy_hash sampler fork b).0 blocks ≡ ok fork')
  unfolding trial_loop
  trial_step fork fork' b blocks unknown h =
      elim (Result-cases (insert_block toy_hash sampler fork b).1) [
        | inl (hash, stored) ↦ (hash, stored, rw (unknown, stored, trial_loop) at h)
        | inr (e, refused) ↦ absurd (cc (rw (unknown, refused, trial_loop) at h))
      ]

  -- A known block is left out, by the batch and by its trial.
  known_step :
      (s : NodeState) (disk : Disk) (b : Block)
      → contains_block s.fork_choice (hash_of b) ≡ true
      → apply_incoming_block sampler disk s b sync ≡ (s, already_known)
  unfolding apply_incoming_block
  known_step s disk b known = rw known refl

  new_step :
      (s : NodeState) (disk : Disk) (b : Block) (hash : Digest)
      → contains_block s.fork_choice (hash_of b) ≡ false
      → (insert_block toy_hash sampler s.fork_choice b).1 ≡ ok hash
      → let fork = (insert_block toy_hash sampler s.fork_choice b).0 in
        apply_incoming_block sampler disk s b sync ≡ (
          settle_block sampler disk
              (record s { fork_choice = fork })
              b
              sync
              (head_hash toy_hash s.chain),
          accepted,
        )
  unfolding apply_incoming_block
  new_step s disk b hash unknown stored =
      let fork = (insert_block toy_hash sampler s.fork_choice b).0 in
      rw unknown (ap (λ r. after_insert sampler disk s b sync (fork, r)) stored)

  pub known_trial :
      (fork : ForkChoiceState) (b : Block) (blocks : List Block)
      → contains_block fork (hash_of b) ≡ true
      → trial_loop sampler fork (b ∷ blocks) ≡ trial_loop sampler fork blocks
  unfolding trial_loop
  known_trial fork b blocks known = rw (known, trial_loop) refl

  -- A batch that passes the trial is applied to its end, and leaves the fork choice of the trial.
  pub apply_batch_lem :
      (s : NodeState) (batch : List (Disk × Block)) (fork : ForkChoiceState)
      → trial_loop sampler s.fork_choice (map block_of batch) ≡ ok fork
      → ((apply_batch sampler s batch).1 ≡ ok tt)
        × ((apply_batch sampler s batch).0.fork_choice ≡ fork)
  unfolding trial_loop apply_batch
  apply_batch_lem s [] fork h = (refl, ok-injective h)
  apply_batch_lem s ((disk, b) ∷ batch) fork h =
      elim (Bool-cases (contains_block s.fork_choice (hash_of b))) [
        | inl known ↦
            let rest = sym (known_trial s.fork_choice b (map block_of batch) known) ∙ h in
            rw (batch_step s s disk b batch (inl (known_step s disk b known)))
              (apply_batch_lem s batch fork rest)
        | inr unknown ↦
            let (hash, stored, rest) =
              trial_step s.fork_choice fork b (map block_of batch) unknown h in
            let t : NodeState = record s {
              fork_choice = (insert_block toy_hash sampler s.fork_choice b).0;
            } in
            let s' = settle_block sampler disk t b sync (head_hash toy_hash s.chain) in
            let kept = settle_block-fork_choice disk t b (head_hash toy_hash s.chain) in
            rw (batch_step s s' disk b batch (inr (new_step s disk b hash unknown stored))) (
              apply_batch_lem s' batch fork
                (ap (λ f. trial_loop sampler f (map block_of batch)) kept ∙ rest))
      ]
