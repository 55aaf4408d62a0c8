-- ===== src/Node/Chains/Whole.antt =====
-- A batch of blocks from a peer, after its trial.
use mathlib.Core.List.{map}
use chesscoin.Prelude.{
  ◌≡◌, refl, arith, All, true, false, Bool-cases, Option-cases, inl, inr, List, [], ◌∷◌, ◌==◌, ok,
  Result-cases, ok-injective, ◌∙◌, ap, sym,
}
use chesscoin.Domain.Digest.{Digest, digest_eq, zero_digest}
use chesscoin.Domain.Trace.{Block}
use chesscoin.Ports.{SamplingPort}
use chesscoin.Application.ForkChoice.{ForkChoiceState, get, contains_block, insert_block}
use chesscoin.Application.ForkChoice.Insert.{insert_block_result}
use chesscoin.Adapters.{toy_hash}
use chesscoin.Node.Locator.{hash_of}
use chesscoin.Node.State.{NodeState}
use chesscoin.Node.Storage.{Disk}
use chesscoin.Node.Chains.{
  BlockApplication, sync, accepted, already_known, rejected, apply_incoming_block, trial_loop,
  validate_sync_batch, apply_batch,
}
use chesscoin.Node.Chains.Current.{IsCurrent}
use chesscoin.Node.Chains.Outcome.{apply_incoming_block-IsCurrent}
use chesscoin.Node.Chains.Batch.{block_of, batch_rest, trial_step, known_trial, apply_batch_lem}

abbrev pub NonZero : Block → Type 0
NonZero b = (hash_of b == zero_digest) ≡ false

module _ (sampler : SamplingPort) where
  -- An insertion that returns a hash stores its block and keeps what was known.
  insert_stores :
      (fork : ForkChoiceState) (b : Block) (hash : Digest)
      → (insert_block toy_hash sampler fork b).1 ≡ ok hash
      → let after = (insert_block toy_hash sampler fork b).0 in
        (contains_block after (hash_of b) ≡ true)
        × ((key : Digest) → contains_block fork key ≡ true → contains_block after key ≡ true)
  unfolding contains_block
  insert_stores fork b hash result = elim (insert_block_result toy_hash sampler fork b) [
    | inr (e, refused) ↦ absurd (cc (result, ap (λ r. r.1) refused))
    | inl (_, known, kept) ↦ (
      known,
      λ key stored. elim (Option-cases (get fork.nodes key)) [
        | inl missing ↦ absurd (ground (arith, missing, stored))
        | inr (node, at) ↦ rw (kept key node at) refl
      ],
    )
  ]

  -- What the trial knows it keeps.
  trial_keeps :
      (fork fork' : ForkChoiceState) (blocks : List Block) (key : Digest)
      → trial_loop sampler fork blocks ≡ ok fork'
      → contains_block fork key ≡ true
      → contains_block fork' key ≡ true
  unfolding trial_loop
  trial_keeps fork fork' [] key h stored = rw (← ok-injective h) stored
  trial_keeps fork fork' (b ∷ blocks) key h stored =
      elim (Bool-cases (contains_block fork (hash_of b))) [
        | inl known ↦
            trial_keeps fork fork' blocks key (sym (known_trial sampler fork b blocks known) ∙ h)
              stored
        | inr unknown ↦
            let (hash, result, rest) = trial_step sampler fork fork' b blocks unknown h in
            trial_keeps (insert_block toy_hash sampler fork b).0 fork' blocks key rest
              ((insert_stores fork b hash result).1 key stored)
      ]

  -- Every block of the batch is known after its trial.
  trial_stores :
      (fork fork' : ForkChoiceState) (blocks : List Block)
      → trial_loop sampler fork blocks ≡ ok fork'
      → All (λ b. contains_block fork' (hash_of b) ≡ true) blocks
  trial_stores fork fork' [] h = tt
  trial_stores fork fork' (b ∷ blocks) h = elim (Bool-cases (contains_block fork (hash_of b))) [
    | inl known ↦
        let rest = sym (known_trial sampler fork b blocks known) ∙ h in
        (trial_keeps fork fork' blocks (hash_of b) rest known, trial_stores fork fork' blocks rest)
    | inr unknown ↦
        let (hash, result, rest) = trial_step sampler fork fork' b blocks unknown h in
        let after = (insert_block toy_hash sampler fork b).0 in
        (
          trial_keeps after fork' blocks (hash_of b) rest (insert_stores fork b hash result).0,
          trial_stores after fork' blocks rest,
        )
  ]

  batch_rest_lem :
      (P : NodeState → Type 0) (batch : List (Disk × Block)) (r : NodeState × BlockApplication)
      → ((s : NodeState) → P s → P (apply_batch sampler s batch).0)
      → P r.0
      → P (batch_rest sampler batch r).0
  batch_rest_lem P batch (s, accepted) go now = go s now
  batch_rest_lem P batch (s, already_known) go now = go s now
  batch_rest_lem P batch (s, rejected) go now = now

  -- What every incoming block keeps, a batch keeps, however far it gets.
  pub apply_batch_keeps :
      (P : NodeState → Type 0)
      → ((s : NodeState) (disk : Disk) (b : Block)
          → NonZero b
          → P s
          → P (apply_incoming_block sampler disk s b sync).0)
      → (s : NodeState) (batch : List (Disk × Block)) → All NonZero (map block_of batch)
      → P s
      → P (apply_batch sampler s batch).0
  unfolding apply_batch
  apply_batch_keeps P step s [] nonzero now = now
  apply_batch_keeps P step s ((disk, b) ∷ batch) nonzero now =
      batch_rest_lem P batch (apply_incoming_block sampler disk s b sync)
        (λ t. apply_batch_keeps P step t batch nonzero.1) (step s disk b nonzero.0 now)

  -- A batch that passes its trial is applied to its end: every block of it is stored, and the node
  -- serves the best chain of its fork choice; no block hashes to the zero digest.
  pub validate-apply_batch :
      (s : NodeState) (batch : List (Disk × Block))
      → IsCurrent sampler s.chain s.fork_choice
      → All NonZero (map block_of batch)
      → validate_sync_batch sampler s (map block_of batch) ≡ ok tt
      → let (s', result) = apply_batch sampler s batch in
        (result ≡ ok tt)
        × IsCurrent sampler s'.chain s'.fork_choice
        × All (λ b. contains_block s'.fork_choice (hash_of b) ≡ true) (map block_of batch)
  unfolding validate_sync_batch
  validate-apply_batch s batch current nonzero h =
      elim (Result-cases (trial_loop sampler s.fork_choice (map block_of batch))) [
        | inr (e, failed) ↦ absurd (cc (rw failed at h))
        | inl (fork, passed) ↦
            let (applied, ends) = apply_batch_lem sampler s batch fork passed in
            (
              applied,
              apply_batch_keeps (λ t. IsCurrent sampler t.chain t.fork_choice)
                  (λ t disk b apart now.
                    apply_incoming_block-IsCurrent sampler disk t b sync now apart)
                  s batch nonzero current,
              rw ends (trial_stores s.fork_choice fork (map block_of batch) passed),
            )
      ]
