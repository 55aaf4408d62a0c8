-- ===== src/Node/Load/Restart.antt =====
-- A node that stops and is started again from its file.
use mathlib.Core.Path.{subst}
use chesscoin.Prelude.{
  ℕ, ◌≡◌, refl, arith, All, All-append, Bool, true, false, Option, none, [], ◌∷◌, ◌++◌,
  append_assoc, length, map_err, Bytes, text, ◌∙◌, ap, sym, ok, ok-injective, ◌>>=◌,
}
use chesscoin.Domain.Digest.{Digest, digest_eq}
use chesscoin.Domain.Trace.{Block}
use chesscoin.Ports.{SamplingPort}
use chesscoin.Application.Config.{ChainConfig}
use chesscoin.Application.ForkChoice.{ForkChoiceState, insert_block}
use chesscoin.Application.ForkChoice.Insert.{IsForkChoice}
use chesscoin.Adapters.{toy_hash}
use chesscoin.Wire.Message.{fingerprint}
use chesscoin.Wire.Number.{u64_text}
use chesscoin.Wire.Decode.Fields.{IsPlain, u64_text-IsPlain}
use chesscoin.Wire.Encode.{encode_block, block_fields}
use chesscoin.Wire.Receive.Fields.{IsBlock, IsFieldByte, block_fields-lines}
use chesscoin.Wire.Text.Fields.{All-join, All-mono}
use chesscoin.Wire.Decode.RoundTrip.{All-fields}
use chesscoin.Node.Address.{SocketAddr}
use chesscoin.Node.Storage.{
  storage_record_version, storage_header_version, Disk, appended, append_block, record_line,
  encode_storage_header, encode_storage_record,
}
use chesscoin.Node.Storage.RoundTrip.{hex_part}
use chesscoin.Node.Chains.{best_blocks, chain_from_blocks}
use chesscoin.Node.Chains.Current.{best_state, best_state_lem}
use chesscoin.Node.Load.{Loading, invalid_best_chain, lines, load_chains}
use chesscoin.Node.Load.Lines.{IsInLine}
use chesscoin.Node.Load.Reload.{
  start, Reads, empty-Reads, Reads-line, load_line-header, load_line-record,
}

record_line-IsInLine :
    (version payload : Bytes)
    → All IsInLine version
    → All IsInLine payload
    → All IsInLine (record_line version payload)
record_line-IsInLine version payload v p = All-append IsInLine version _ v (
  ground arith,
  All-append IsInLine _ _ (All-mono IsFieldByte IsInLine _ (λ b k. (k.1, k.2)) (hex_part payload))
      (ground arith, p),
)

record-IsInLine : (b : Block) → IsBlock b → All IsInLine (encode_storage_record b)
unfolding encode_storage_record encode_block
record-IsInLine b r = record_line-IsInLine storage_record_version _ (ground arith) (
    All-join IsInLine 124 (block_fields b) (ground arith) (
      All-fields IsFieldByte IsInLine (block_fields b) (λ x k. (k.1, k.2))
        (block_fields-lines b r)))

number-IsInLine : (n : ℕ) → All IsInLine (u64_text n)
number-IsInLine n = All-mono IsPlain IsInLine _ (λ b k. ground arith) (u64_text-IsPlain n)

fingerprint-IsInLine : (config : ChainConfig) → All IsInLine (fingerprint config)
unfolding fingerprint
fingerprint-IsInLine config =
    let steps = text "rules=v1;model_width=8;learning_rate_ppm=125000;steps=" in
    let samples = steps ++ u64_text config.steps_per_block ++ text ";samples=" in
    let difficulty = samples ++ u64_text config.samples_per_block ++ text ";difficulty=" in
    let with_steps =
      All-append IsInLine steps (u64_text config.steps_per_block) (ground arith)
        (number-IsInLine config.steps_per_block) in
    let with_samples =
      All-append IsInLine samples (u64_text config.samples_per_block)
        (All-append IsInLine (steps ++ u64_text config.steps_per_block) (text ";samples=")
          with_steps (ground arith))
        (number-IsInLine config.samples_per_block) in
    All-append IsInLine difficulty (u64_text config.difficulty_zero_bits)
      (All-append IsInLine (samples ++ u64_text config.samples_per_block) (text ";difficulty=")
        with_samples (ground arith))
      (number-IsInLine config.difficulty_zero_bits)

header-IsInLine : (config : ChainConfig) → All IsInLine (encode_storage_header config)
unfolding encode_storage_header
header-IsInLine config =
    record_line-IsInLine storage_header_version _ (ground arith) (fingerprint-IsInLine config)

module _ (sampler : SamplingPort) (parse_addr : Bytes → Option SocketAddr)
    (config : ChainConfig) where
  abbrev IsReading : Bytes → Loading → Type 0
  IsReading file l = Reads sampler parse_addr config file l

  -- The file tells the fork choice.
  abbrev pub Tells : Bytes → ForkChoiceState → Type 0
  Tells file fork = (l : Loading) × IsReading file l × (l.fork_choice ≡ fork)

  record_more :
      (file : Bytes) (l : Loading) (b : Block) (fork : ForkChoiceState) (hash : Digest)
      → IsReading file l
      → IsBlock b
      → insert_block toy_hash sampler l.fork_choice b ≡ (fork, ok hash)
      → Tells (file ++ (encode_storage_record b ++ b'\n' ∷ [])) fork
  record_more file l b fork hash r block inserted = (
    record l { fork_choice = fork; seen_block = true },
    Reads-line sampler parse_addr config file (encode_storage_record b) l _ r
        (record-IsInLine b block)
        (λ count m.
          load_line-record sampler parse_addr config count m l b fork hash block inserted),
    refl,
  )

  header_first :
      IsReading
        ([] ++ (encode_storage_header config ++ b'\n' ∷ []))
        (record (start sampler parse_addr config) { seen_header = true })
  header_first =
      Reads-line sampler parse_addr config [] (encode_storage_header config) _ _
        (empty-Reads sampler parse_addr config) (header-IsInLine config)
        (load_line-header sampler parse_addr config)

  appended-Tells :
      (tells : Bool) (file : Bytes) (l : Loading) (b : Block) (fork : ForkChoiceState)
      (hash : Digest)
      → IsReading file l
      → IsBlock b
      → insert_block toy_hash sampler l.fork_choice b ≡ (fork, ok hash)
      → let disk : Disk = record { tells_length = tells; stops_after = none } in
        Tells (file ++ appended disk file config b) fork
  appended-Tells false file l b fork hash r block inserted =
      record_more file l b fork hash r block inserted
  appended-Tells true (x ∷ file) l b fork hash r block inserted =
      record_more (x ∷ file) l b fork hash r block inserted
  appended-Tells true [] l b fork hash r block inserted =
      let first = encode_storage_header config ++ b'\n' ∷ [] in
      let from_start =
        ok-injective (sym (r.loaded 0) ∙ (empty-Reads sampler parse_addr config).loaded 0) in
      let inserted' = rw from_start at inserted in
      subst (λ f. Tells f fork) (sym (append_assoc first (encode_storage_record b) (b'\n' ∷ [])))
        (record_more first _ b fork hash header_first block inserted')

  -- An append that the disk carries out makes the file tell the fork choice with the block.
  pub append_block-Tells :
      (disk : Disk) (file : Bytes) (b : Block) (fork fork' : ForkChoiceState) (hash : Digest)
      → disk.stops_after ≡ none
      → Tells file fork
      → IsBlock b
      → insert_block toy_hash sampler fork b ≡ (fork', ok hash)
      → Tells (append_block disk file config b).0 fork'
  unfolding append_block
  append_block-Tells disk file b fork fork' hash healthy (l, r, same) block inserted = rw healthy (
      appended-Tells disk.tells_length file l b fork' hash r block
        (ap (λ f. insert_block toy_hash sampler f b) same ∙ inserted))

  -- A file that tells a fork choice is loaded as it, with its best chain.
  pub load_chains-Tells :
      (file : Bytes) (fork : ForkChoiceState)
      → Tells file fork
      → IsForkChoice toy_hash sampler fork
      → fork.config ≡ config
      → load_chains sampler parse_addr file config ≡ ok (best_state fork, fork)
  unfolding load_chains
  load_chains-Tells file fork (l, r, same) h of_config =
      let built : chain_from_blocks sampler config (best_blocks fork) ≡ ok (best_state fork) =
        ap (λ c. chain_from_blocks sampler c (best_blocks fork)) (sym of_config)
        ∙ (best_state_lem sampler fork h).0 in
      rw (r.complete, r.loaded (length (lines file)))
        (ap
            (λ f. do
              chain ← map_err invalid_best_chain (chain_from_blocks sampler config (best_blocks f))
              ok (chain, f))
            same
          ∙ ap (λ c. do chain ← map_err invalid_best_chain c; ok (chain, fork)) built)
