-- ===== src/Node/Load.antt =====
-- `load_chains` of crates/chesscoin-node/src/runtime.rs: the fork choice from the lines of the file.
pub mod Lines
pub mod Loaded
pub mod Reload
pub mod Restart
pub mod Run
use chesscoin.Prelude.{
  ℕ, ◌+◌, Bool, true, false, not, ◌&&◌, ◌||◌, Option, none, some, List, [], ◌∷◌, ◌++◌, length,
  Bytes, if◌then◌else◌, ◌==◌, nat_eq, list_eq, Result, ok, err, ◌>>=◌, map_err,
}
use chesscoin.Domain.Digest.{Digest}
use chesscoin.Domain.Trace.{Block}
use chesscoin.Ports.{SamplingPort}
use chesscoin.Application.Config.{ChainConfig}
use chesscoin.Application.Validation.{BlockValidationError}
use chesscoin.Application.Chain.{ChainState}
use chesscoin.Application.ForkChoice.{ForkChoiceState, ForkChoiceError, insert_block}
use chesscoin.Application.ForkChoice
use chesscoin.Adapters.{toy_hash}
use chesscoin.Wire.Message.{fingerprint}
use chesscoin.Node.Address.{SocketAddr}
use chesscoin.Node.Config.{is_blank}
use chesscoin.Node.Storage.{StorageLine, header, block, decode_storage_line}
use chesscoin.Node.Chains.{best_blocks, chain_from_blocks}

-- `lines()`: a carriage return before the end of a line does not belong to it.
abbrev pub strip_return : Bytes → Bytes
strip_return [] = []
strip_return (b ∷ []) = if b == b'\r' then [] else b ∷ []
strip_return (b ∷ c ∷ bs) = b ∷ strip_return (c ∷ bs)

abbrev pub last_line : Bytes → List Bytes
last_line [] = []
last_line (b ∷ line) = (b ∷ line) ∷ []

unfoldable pub lines_from : Bytes → Bytes → List Bytes
lines_from line [] = last_line line
lines_from line (c ∷ bs) =
    let ended = lines_from [] bs in
    let longer = lines_from (line ++ c ∷ []) bs in
    if c == b'\n' then strip_return line ∷ ended else longer

unfoldable pub lines : Bytes → List Bytes
unfolding lines_from
lines content = lines_from [] content

abbrev pub ends_with_newline : Bytes → Bool
ends_with_newline [] = false
ends_with_newline (b ∷ []) = b == b'\n'
ends_with_newline (b ∷ c ∷ bs) = ends_with_newline (c ∷ bs)

pub data LoadError : Type 0 where
  duplicate_header header_after_blocks : ℕ → LoadError
  fingerprint_mismatch : Bytes → Bytes → LoadError
  invalid_line : ℕ → Bytes → LoadError
  invalid_stored_block : ℕ → ForkChoiceError → LoadError
  invalid_best_chain : BlockValidationError → LoadError

-- What the loop has read so far.
pub record Loading : Type 0 where
  pub fork_choice : ForkChoiceState
  pub seen_header : Bool
  pub seen_block : Bool

module _ (sampler : SamplingPort) (parse_addr : Bytes → Option SocketAddr) where
  abbrev pub load_header : ChainConfig → ℕ → Loading → Bytes → Result Loading LoadError
  load_header config line_number l stored =
      if l.seen_header
      then err (duplicate_header line_number)
      else if l.seen_block
      then err (header_after_blocks line_number)
      else if not (stored == fingerprint config)
      then err (fingerprint_mismatch stored (fingerprint config))
      else ok (record l { seen_header = true })

  abbrev after_stored :
      ℕ → Loading → ForkChoiceState × Result Digest ForkChoiceError → Result Loading LoadError
  after_stored line_number l (fork_choice, ok _) =
      ok (record l { fork_choice = fork_choice; seen_block = true })
  after_stored line_number l (fork_choice, err e) = err (invalid_stored_block line_number e)

  abbrev pub load_block : ℕ → Loading → Block → Result Loading LoadError
  load_block line_number l b =
      after_stored line_number l (insert_block toy_hash sampler l.fork_choice b)

  -- One line: what is read with it, or the end of the loop at a last line that was cut short.
  unfoldable pub load_line :
      ChainConfig → Bool → ℕ → ℕ → Loading → Bytes → Result (Option Loading) LoadError
  load_line config has_complete_tail count line_number l line =
      if is_blank line then ok (some l) else elim (decode_storage_line parse_addr line) [
        | ok (header stored) ↦ (do ok (some (← load_header config line_number l stored)))
        | ok (block b) ↦ (do ok (some (← load_block line_number l b)))
        | err e ↦
            if not has_complete_tail && line_number == count
            then ok none
            else err (invalid_line line_number e)
      ]

  abbrev pub next_line :
      Loading → (Loading → Result Loading LoadError) → Option Loading → Result Loading LoadError
  next_line l rest none = ok l
  next_line l rest (some l') = rest l'

  -- The loop over the lines, from the number of the next one.
  unfoldable pub load_loop :
      ChainConfig → Bool → ℕ → ℕ → Loading → List Bytes → Result Loading LoadError
  load_loop config has_complete_tail count line_number l [] = ok l
  load_loop config has_complete_tail count line_number l (line ∷ rest) = do
    next ← load_line config has_complete_tail count line_number l line
    next_line l (λ l'. load_loop config has_complete_tail count (line_number + 1) l' rest) next

  -- The file is its text; a file that does not exist is the empty text.
  unfoldable pub load_chains : Bytes → ChainConfig → Result (ChainState × ForkChoiceState) LoadError
  load_chains content config = do
    l ←
        load_loop config (ends_with_newline content || content == []) (length (lines content)) 1
          (record { fork_choice = ForkChoice.new config; seen_header = false; seen_block = false })
          (lines content)
    chain ←
        map_err invalid_best_chain (chain_from_blocks sampler config (best_blocks l.fork_choice))
    ok (chain, l.fork_choice)
