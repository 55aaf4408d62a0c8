-- ===== src/Node/Tests/Blocks.antt =====
-- A node with no block, and the first one that comes in.
use chesscoin.Prelude.{◌≡◌, ◌↔◌, refl, arith, Option, some, none, [], ◌∷◌, Bytes, ok}
use chesscoin.Domain.Digest.{digest_eq}
use chesscoin.Domain.Model.{genesis-IsModel}
use chesscoin.Domain.Trace.{Block}
use chesscoin.Ports.{SamplingPort}
use chesscoin.Application.Validation.{genesis_context}
use chesscoin.Application.Validation.Valid.{IsValidBlock}
use chesscoin.Application.Chain.{ChainState}
use chesscoin.Application.Chain.Valid.{IsChain}
use chesscoin.Application.ForkChoice.{best_chain, walk, get}
use chesscoin.Application.ForkChoice.Insert.{new-IsForkChoice}
use chesscoin.Adapters.{toy_hash}
use chesscoin.Wire.Receive.Fields.{IsBlock}
use chesscoin.Node.Address.{SocketAddr}
use chesscoin.Node.Locator.{hash_of, block_locator, headers_after_locator}
use chesscoin.Node.Headers.{validate_headers_after_locator}
use chesscoin.Node.Headers.Follow.{Follows, validate_headers_iff}
use chesscoin.Node.Headers.Served.{headers_after-validates}
use chesscoin.Node.Storage.{healthy}
use chesscoin.Node.Chains.{gossip, apply_incoming_block}
use chesscoin.Node.Chains.Current.{IsCurrent}
use chesscoin.Node.Chains.Outcome.{apply_incoming_block-IsCurrent}
use chesscoin.Node.Load.{load_chains}
use chesscoin.Node.Load.Reload.{start, empty-Reads}
use chesscoin.Node.Load.Run.{Incoming, IsIncoming, receive_all, IsSaved, receive_all-load_chains}
use chesscoin.Node.Tests.{block_at, first_nonzero}
use chesscoin.Node.Tests.Peers.{tiny, idle}

abbrev pub no_sampler : SamplingPort
no_sampler = record { sample_indices = λ _ _ _ _. [] }

first-IsValidBlock : IsValidBlock tiny toy_hash no_sampler genesis_context (block_at 0)
first-IsValidBlock = record {
  height_eq = refl;
  previous_eq = refl;
  model_before_eq = refl;
  initial_eq = refl;
  candidate_eq = refl;
  length_eq = refl;
  sample_count_eq = refl;
  root_eq = refl;
  linked = refl;
  continuous = refl;
  work = omega arith;
  sampled = tt;
}

-- A second block, on the first.
abbrev second : Block
second = record (block_at 1) {
  header = record (block_at 1).header { previous_block = hash_of (block_at 0) };
}

two-IsChain :
    IsChain toy_hash no_sampler (record { config = tiny; blocks = block_at 0 ∷ second ∷ [] })
two-IsChain = (
  first-IsValidBlock,
  (
    record {
      height_eq = refl;
      previous_eq = refl;
      model_before_eq = refl;
      initial_eq = refl;
      candidate_eq = refl;
      length_eq = refl;
      sample_count_eq = refl;
      root_eq = refl;
      linked = refl;
      continuous = refl;
      work = omega arith;
      sampled = tt;
    },
    refl,
  ),
)

headers_after-validates_example :
    let own : ChainState = record { config = tiny; blocks = block_at 0 ∷ [] } in
    let locator = block_locator own 8 in
    validate_headers_after_locator own locator (
      headers_after_locator
        (record { config = tiny; blocks = block_at 0 ∷ second ∷ [] })
        locator
        16)
    ≡ ok tt
headers_after-validates_example =
    headers_after-validates tiny no_sampler [] (block_at 0) (second ∷ []) 7 16 two-IsChain
      first_nonzero refl

validate_headers_iff_example :
    (validate_headers_after_locator
        (record { config = tiny; blocks = block_at 0 ∷ [] })
        (hash_of (block_at 0) ∷ [])
        (second.header ∷ [])
      ≡ ok tt)
    ↔ Follows
        (record { config = tiny; blocks = block_at 0 ∷ [] })
        (hash_of (block_at 0) ∷ [])
        (second.header ∷ [])
validate_headers_iff_example =
    validate_headers_iff (record { config = tiny; blocks = block_at 0 ∷ [] })
      (hash_of (block_at 0) ∷ []) (second.header ∷ [])

pub idle-IsCurrent :
    (log : Option Bytes) → IsCurrent no_sampler (idle log).chain (idle log).fork_choice
unfolding best_chain walk get
idle-IsCurrent log = record {
  tree = new-IsForkChoice toy_hash no_sampler tiny;
  served = refl;
  no_zero = refl;
}

apply_incoming_block-IsCurrent_example :
    let (s, application) =
      apply_incoming_block no_sampler healthy (idle none) (block_at 0) gossip in
    IsCurrent no_sampler s.chain s.fork_choice
apply_incoming_block-IsCurrent_example =
    apply_incoming_block-IsCurrent no_sampler healthy (idle none) (block_at 0) gossip
      (idle-IsCurrent none) first_nonzero

first-IsBlock : IsBlock (block_at 0)
first-IsBlock = record {
  header_IsHeader = record {
    height_fits = omega arith;
    previous_block_IsDigest = omega arith;
    model_before_IsModel = genesis-IsModel;
    model_after_IsModel = genesis-IsModel;
    trace_root_IsDigest = omega arith;
    training_seed_fits = omega arith;
    sampling_entropy_fits = omega arith;
    sample_count_fits = omega arith;
    nonce_fits = omega arith;
  };
  initial_IsModel = genesis-IsModel;
  candidate_IsModel = genesis-IsModel;
  root_IsDigest = omega arith;
  entries_IsEntry = tt;
}

abbrev arrival : Incoming
arrival = record { block = block_at 0; source = gossip; disk = healthy }

arrival-IsIncoming : IsIncoming arrival
arrival-IsIncoming = record { healthy = refl; in_range = first-IsBlock; nonzero = first_nonzero }

abbrev pub no_address : Bytes → Option SocketAddr
no_address field = none

idle-IsSaved : IsSaved no_sampler no_address tiny (idle (some [])) []
idle-IsSaved = record {
  current = idle-IsCurrent (some []);
  config_eq = refl;
  log_eq = refl;
  told = (start no_sampler no_address tiny, empty-Reads no_sampler no_address tiny, refl);
}

receive_all-load_chains_example :
    let s' = receive_all no_sampler (idle (some [])) (arrival ∷ []) in
    (file' : Bytes) × (s'.log ≡ some file')
    × (load_chains no_sampler no_address file' tiny ≡ ok (s'.chain, s'.fork_choice))
receive_all-load_chains_example =
    receive_all-load_chains no_sampler no_address tiny (idle (some [])) [] (arrival ∷ [])
      (arrival-IsIncoming, tt) idle-IsSaved
