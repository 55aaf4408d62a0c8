-- ===== src/Node/Exchange/Blocks.antt =====
-- The blocks that a peer sends, all of them or none.
use mathlib.Core.List.{map}
use chesscoin.Prelude.{
  ℕ, ◌+◌, ◌≡◌, ◌⊎◌, refl, All, true, false, Bool-cases, Option, some, none, inl, inr, List, [], ◌∷◌,
  ◌++◌, append-nil, Bytes, ◌==◌, ==_iff, Result, ok, err, Result-cases, ap,
}
use mathlib.Core.Path.{subst}
use chesscoin.Domain.Digest.{Digest, digest_eq, zero_digest}
use chesscoin.Domain.Trace.{Block}
use chesscoin.Ports.{SamplingPort}
use chesscoin.Application.ForkChoice.{contains_block}
use chesscoin.Node.Address.{SocketAddr}
use chesscoin.Node.Config.{NetworkConfig}
use chesscoin.Node.State.{NodeState}
use chesscoin.Node.Locator.{hash_of}
use chesscoin.Node.Storage.{Disk}
use chesscoin.Node.Stream.{Read, read_limited_line_from}
use chesscoin.Node.Chains.{validate_sync_batch, apply_batch}
use chesscoin.Node.Chains.Current.{IsCurrent}
use chesscoin.Node.Chains.Batch.{block_of}
use chesscoin.Node.Chains.Whole.{validate-apply_batch}
use chesscoin.Node.Exchange.{
  Reply, with_disks, count_oversized_reply, Next, next_block, no_more, too_long, failed, next_of,
  after_last, after_next, finish_blocks, blocks_loop, blocks_from_peer,
}

expected_next :
    (received : List Block) (b : Block) (expected : Digest) (hashes : List Digest)
    → hash_of b ≡ expected
    → map hash_of (received ++ b ∷ []) ++ hashes ≡ map hash_of received ++ expected ∷ hashes
expected_next [] b expected hashes same = ap (λ h. h ∷ hashes) same
expected_next (x ∷ xs) b expected hashes same =
    ap (λ hs. hash_of x ∷ hs) (expected_next xs b expected hashes same)

module _ (sampler : SamplingPort) (parse_addr : Bytes → Option SocketAddr) (disks : ℕ → Disk)
    (s : NodeState) (network : NetworkConfig) where
  -- Nothing but the counter of oversized messages changed.
  abbrev pub Untouched : NodeState × Result (Unit {0}) (Unit {0}) → Type 0
  Untouched r = (r.1 ≡ err tt) × ((r.0 ≡ s) ⊎ (r.0 ≡ count_oversized_reply s))

  -- Blocks with these hashes passed the trial and were applied.
  abbrev pub Applies : List Digest → NodeState × Result (Unit {0}) (Unit {0}) → Type 0
  Applies hashes r =
      (blocks : List Block) × (map hash_of blocks ≡ hashes)
      × (validate_sync_batch sampler s blocks ≡ ok tt)
      × (r ≡ apply_batch sampler s (with_disks disks 0 blocks))

  finish_blocks_lem :
      (received : List Block)
      → Untouched (finish_blocks sampler parse_addr disks s received)
        ⊎ Applies (map hash_of received) (finish_blocks sampler parse_addr disks s received)
  unfolding finish_blocks
  finish_blocks_lem received = elim (Result-cases (validate_sync_batch sampler s received)) [
    | inl (u, passed) ↦ inr (received, refl, passed, rw (passed, finish_blocks) refl)
    | inr (e, refused) ↦ inl (rw (refused, finish_blocks) (refl, inl refl))
  ]

  -- By what the next line means.
  after_last_lem :
      (received : List Block) (next : Next)
      → let r = after_last sampler parse_addr disks s received next in
        Untouched r ⊎ Applies (map hash_of received) r
  after_last_lem received (next_block b) = inl (refl, inl refl)
  after_last_lem received no_more = finish_blocks_lem received
  after_last_lem received too_long = inl (refl, inr refl)
  after_last_lem received failed = inl (refl, inl refl)

  after_next_lem :
      (expected : Digest) (hashes : List Digest) (next : Next)
      (rest : Block → NodeState × Result (Unit {0}) (Unit {0}))
      → ((b : Block) → hash_of b ≡ expected → Untouched (rest b) ⊎ Applies hashes (rest b))
      → let r = after_next sampler parse_addr s expected rest next in Untouched r ⊎ Applies hashes r
  after_next_lem expected hashes (next_block b) rest go =
      elim (Bool-cases (hash_of b == expected)) [
        | inl same ↦ rw same (go b ((==_iff (hash_of b) expected).0 same))
        | inr apart ↦ rw apart (inl (refl, inl refl))
      ]
  after_next_lem expected hashes no_more rest go = inl (refl, inl refl)
  after_next_lem expected hashes too_long rest go = inl (refl, inr refl)
  after_next_lem expected hashes failed rest go = inl (refl, inl refl)

  pub blocks_loop_lem :
      (hashes : List Digest) (received : List Block) (reads : List Read)
      → let r = blocks_loop sampler parse_addr disks s network hashes received reads in
        Untouched r ⊎ Applies (map hash_of received ++ hashes) r
  unfolding blocks_loop
  blocks_loop_lem [] received reads = rw (append-nil (map hash_of received)) (
      after_last_lem received (
        next_of sampler parse_addr (read_limited_line_from reads network.max_message_bytes).0
          network))
  blocks_loop_lem (expected ∷ hashes) received reads =
      let (line, left) = read_limited_line_from reads network.max_message_bytes in
      after_next_lem expected (map hash_of received ++ expected ∷ hashes)
        (next_of sampler parse_addr line network)
        (λ b. blocks_loop sampler parse_addr disks s network hashes (received ++ b ∷ []) left)
        (λ b same.
          subst
            (λ hs.
              let r =
                blocks_loop sampler parse_addr disks s network hashes (received ++ b ∷ []) left in
              Untouched r ⊎ Applies hs r)
            (expected_next received b expected hashes same)
            (blocks_loop_lem hashes (received ++ b ∷ []) left))

pub blocks_of :
    (disks : ℕ → Disk) (n : ℕ) (blocks : List Block)
    → map block_of (with_disks disks n blocks) ≡ blocks
blocks_of disks n [] = refl
blocks_of disks n (b ∷ blocks) = ap (λ bs. b ∷ bs) (blocks_of disks (n + 1) blocks)

pub All-map :
    (P : Digest → Type 0) (blocks : List Block)
    → All P (map hash_of blocks)
    → All (λ b. P (hash_of b)) blocks
All-map P [] h = tt
All-map P (b ∷ blocks) h = (h.0, All-map P blocks h.1)

map-All :
    (P : Digest → Type 0) (blocks : List Block)
    → All (λ b. P (hash_of b)) blocks
    → All P (map hash_of blocks)
map-All P [] h = tt
map-All P (b ∷ blocks) h = (h.0, map-All P blocks h.1)

-- Whatever a peer sends, the node takes all of the blocks that it expects or none: it stores them and
-- serves its best chain, or there is an error and at most the counter of oversized messages
-- changes; no expected hash is the zero digest.
pub blocks_from_peer_outcome :
    (sampler : SamplingPort) (parse_addr : Bytes → Option SocketAddr) (disks : ℕ → Disk)
    (s : NodeState) (reply : Reply) (expected_hashes : List Digest) (network : NetworkConfig)
    → IsCurrent sampler s.chain s.fork_choice
    → All (λ h. (h == zero_digest) ≡ false) expected_hashes
    → let (s', result) =
        blocks_from_peer sampler parse_addr disks s reply expected_hashes network in
      ((result ≡ err tt) × ((s' ≡ s) ⊎ (s' ≡ count_oversized_reply s)))
      ⊎ ((result ≡ ok tt)
          × IsCurrent sampler s'.chain s'.fork_choice
          × All (λ h. contains_block s'.fork_choice h ≡ true) expected_hashes)
unfolding blocks_from_peer
blocks_from_peer_outcome sampler parse_addr disks s none expected_hashes network current nonzero =
    inl (refl, inl refl)
blocks_from_peer_outcome sampler parse_addr disks s (some reads) expected_hashes network current
      nonzero =
    elim (blocks_loop_lem sampler parse_addr disks s network expected_hashes [] reads) [
      | inl untouched ↦ inl untouched
      | inr (blocks, hashes_eq, passed, applied) ↦
          let batch = with_disks disks 0 blocks in
          let same = blocks_of disks 0 blocks in
          let apart = All-map (λ h. (h == zero_digest) ≡ false) blocks (rw hashes_eq nonzero) in
          let done =
            validate-apply_batch sampler s batch current (rw same apart) (rw same passed) in
          let stored =
            map-All (λ h. contains_block (apply_batch sampler s batch).0.fork_choice h ≡ true)
              blocks (rw same at done.2) in
          inr (rw applied (done.0, done.1, rw (← hashes_eq) stored))
    ]
