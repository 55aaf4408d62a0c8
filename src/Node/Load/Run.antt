-- ===== src/Node/Load/Run.antt =====
-- A node that receives blocks, and what it finds when it is started again.
use chesscoin.Prelude.{
  ℕ, ◌≡◌, All, false, Option, some, none, inl, inr, List, [], ◌∷◌, Bytes, ◌==◌, ◌∙◌, ap, sym, ok,
}
use mathlib.Core.Option.{some-injective}
use chesscoin.Domain.Digest.{digest_eq, zero_digest}
use chesscoin.Domain.Trace.{Block}
use chesscoin.Ports.{SamplingPort}
use chesscoin.Application.Config.{ChainConfig}
use chesscoin.Application.Chain.{ChainState}
use chesscoin.Application.ForkChoice.{insert_block}
use chesscoin.Adapters.{toy_hash}
use chesscoin.Wire.Receive.Fields.{IsBlock}
use chesscoin.Node.Address.{SocketAddr}
use chesscoin.Node.Locator.{hash_of}
use chesscoin.Node.State.{NodeState}
use chesscoin.Node.Storage.{Disk, append_block}
use chesscoin.Node.Chains.{BlockSource, persist_block, apply_incoming_block}
use chesscoin.Node.Chains.Current.{IsCurrent}
use chesscoin.Node.Chains.Outcome.{apply_incoming_block_outcome}
use chesscoin.Node.Load.{load_chains}
use chesscoin.Node.Load.Restart.{Tells, append_block-Tells, load_chains-Tells}

-- The text of the file after a block is persisted.
persist_log :
    (stops_after : Option ℕ) (log : Option Bytes) (file : Bytes) (disk : Disk) (s : NodeState)
    (b : Block)
    → log ≡ some file
    → let d : Disk = record disk { stops_after = stops_after } in
      (persist_block d (record s { log = log }) b).log
      ≡ some (append_block d file s.chain.config b).0
unfolding persist_block append_block
persist_log stops_after none file disk s b h = absurd (cc)
persist_log none (some f) file disk s b h =
    ap (λ g. some (append_block (record disk { stops_after = none }) g s.chain.config b).0)
      (some-injective _ _ h)
persist_log (some n) (some f) file disk s b h =
    ap (λ g. some (append_block (record disk { stops_after = some n }) g s.chain.config b).0)
      (some-injective _ _ h)

-- A block that comes in, and what the disk does meanwhile.
pub record Incoming : Type 0 where
  pub block : Block
  pub source : BlockSource
  pub disk : Disk

-- The disk works, the block is in range, and does not hash to the zero digest.
pub record IsIncoming (i : Incoming) : Type 0 where
  pub healthy : i.disk.stops_after ≡ none
  pub in_range : IsBlock i.block
  pub nonzero : (hash_of i.block == zero_digest) ≡ false

abbrev pub receive_all : SamplingPort → NodeState → List Incoming → NodeState
receive_all sampler s [] = s
receive_all sampler s (i ∷ more) =
    receive_all sampler (apply_incoming_block sampler i.disk s i.block i.source).0 more

module _ (sampler : SamplingPort) (parse_addr : Bytes → Option SocketAddr)
    (config : ChainConfig) where
  -- The node serves its best chain, and its file tells the fork choice.
  pub record IsSaved (s : NodeState) (file : Bytes) : Type 0 where
    pub current : IsCurrent sampler s.chain s.fork_choice
    pub config_eq : s.chain.config ≡ config
    pub log_eq : s.log ≡ some file
    pub told : Tells sampler parse_addr config file s.fork_choice

  apply_incoming_block-IsSaved :
      (s : NodeState) (file : Bytes) (i : Incoming)
      → IsIncoming i
      → IsSaved s file
      → (file' : Bytes) × IsSaved (apply_incoming_block sampler i.disk s i.block i.source).0 file'
  apply_incoming_block-IsSaved s file i h saved =
      elim (apply_incoming_block_outcome sampler i.disk s i.block i.source saved.current
        h.nonzero) [
          | inl (_, same) ↦ (file, rw same saved)
          | inr (inl (_, same)) ↦ (
            file,
            rw same (record {
              current = saved.current;
              config_eq = saved.config_eq;
              log_eq = saved.log_eq;
              told = saved.told;
            }),
          )
          | inr (inr (stored, stores, now, same)) ↦
              let fork' = (insert_block toy_hash sampler s.fork_choice i.block).0 in
              let of_fork : s.fork_choice.config ≡ config =
                sym (ap (λ (c : ChainState). c.config) saved.current.served) ∙ saved.config_eq in
              (
                (append_block i.disk file s.chain.config i.block).0,
                rw same (record {
                  current = now;
                  config_eq = stored.config_eq ∙ of_fork;
                  log_eq =
                      persist_log i.disk.stops_after s.log file i.disk
                        (record s { fork_choice = fork' }) i.block saved.log_eq;
                  told = rw saved.config_eq (
                      append_block-Tells sampler parse_addr config i.disk file i.block s.fork_choice
                        fork' (hash_of i.block) h.healthy saved.told h.in_range
                        (λ j. (fork', stores j)));
                }),
              )
        ]

  receive_all-IsSaved :
      (s : NodeState) (file : Bytes) (blocks : List Incoming)
      → All IsIncoming blocks
      → IsSaved s file
      → (file' : Bytes) × IsSaved (receive_all sampler s blocks) file'
  receive_all-IsSaved s file [] h saved = (file, saved)
  receive_all-IsSaved s file (i ∷ more) h saved =
      let (file', next) = apply_incoming_block-IsSaved s file i h.0 saved in
      receive_all-IsSaved (apply_incoming_block sampler i.disk s i.block i.source).0 file' more h.1
        next

  -- A node that is started again from its file, after whatever blocks came in, has the chain and the fork
  -- choice that it had, if the disk carried out every append, and the blocks were in range and did
  -- not hash to the zero digest.
  pub receive_all-load_chains :
      (s : NodeState) (file : Bytes) (blocks : List Incoming)
      → All IsIncoming blocks
      → IsSaved s file
      → let s' = receive_all sampler s blocks in
        (file' : Bytes) × (s'.log ≡ some file')
        × (load_chains sampler parse_addr file' config ≡ ok (s'.chain, s'.fork_choice))
  receive_all-load_chains s file blocks h saved =
      let (file', next) = receive_all-IsSaved s file blocks h saved in
      let s' = receive_all sampler s blocks in
      let of_fork : s'.fork_choice.config ≡ config =
        sym (ap (λ (c : ChainState). c.config) next.current.served) ∙ next.config_eq in
      (
        file',
        next.log_eq,
        load_chains-Tells sampler parse_addr config file' s'.fork_choice next.told next.current.tree
              of_fork
            ∙ ap (λ c. ok (c, s'.fork_choice)) (sym next.current.served),
      )
