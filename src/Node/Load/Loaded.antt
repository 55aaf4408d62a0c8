-- ===== src/Node/Load/Loaded.antt =====
-- What a node has after it loads a file, whatever the file says.
use chesscoin.Prelude.{
  ℕ, ◌+◌, ◌≡◌, refl, All, Bool, Bool-cases, not, ◌&&◌, Option, some, none, inl, inr, List, [], ◌∷◌,
  length, Bytes, ◌==◌, nat_eq, list_eq, ◌∙◌, ap, sym, ◌||◌, Result, ok, err, Result-cases, ◌>>=◌,
  map_err,
}
use chesscoin.Domain.Trace.{Block}
use chesscoin.Ports.{SamplingPort}
use chesscoin.Application.Config.{ChainConfig}
use chesscoin.Application.Chain.{ChainState}
use chesscoin.Application.Chain
use chesscoin.Application.ForkChoice.{ForkChoiceState, contains_key, insert_block}
use chesscoin.Application.ForkChoice
use chesscoin.Application.ForkChoice.Fresh.{insert_block_fresh}
use chesscoin.Application.ForkChoice.Insert.{new-IsForkChoice}
use chesscoin.Adapters.{toy_hash}
use chesscoin.Wire.Message.{fingerprint}
use chesscoin.Node.Address.{SocketAddr}
use chesscoin.Node.Config.{is_blank}
use chesscoin.Node.Locator.{hash_of}
use chesscoin.Node.Storage.{header, block, decode_storage_line}
use chesscoin.Node.Chains.{best_blocks, chain_from_blocks}
use chesscoin.Node.Chains.Current.{IsCurrent, best_state, best_state_lem}
use chesscoin.Node.Chains.Outcome.{stored-IsCurrent}
use chesscoin.Node.Chains.Whole.{NonZero}
use chesscoin.Node.Load.{
  Loading, LoadError, invalid_best_chain, lines, ends_with_newline, load_header, load_block,
  load_line, next_line, load_loop, load_chains,
}

module _ (sampler : SamplingPort) (parse_addr : Bytes → Option SocketAddr)
    (config : ChainConfig) where
  -- A fork choice of the configuration, whose best chain may be served.
  abbrev Loads : ForkChoiceState → Type 0
  Loads fork = IsCurrent sampler (best_state fork) fork × (fork.config ≡ config)

  abbrev LoadsLine : Result (Option Loading) LoadError → Type 0
  LoadsLine (ok (some l)) = Loads l.fork_choice
  LoadsLine (ok none) = Unit
  LoadsLine (err e) = Unit

  abbrev LoadsAll : Result Loading LoadError → Type 0
  LoadsAll (ok l) = Loads l.fork_choice
  LoadsAll (err e) = Unit

  -- What is loaded is a best chain, and the fork choice that it is of.
  abbrev pub LoadsChains : Result (ChainState × ForkChoiceState) LoadError → Type 0
  LoadsChains (ok (chain, fork)) = IsCurrent sampler chain fork
  LoadsChains (err e) = Unit

  -- A stored block does not hash to the zero digest.
  abbrev pub IsSafeLine : Bytes → Type 0
  IsSafeLine line = (b : Block) → decode_storage_line parse_addr line ≡ ok (block b) → NonZero b

  insert_block-Loads :
      (fork : ForkChoiceState) (b : Block)
      → NonZero b
      → Loads fork
      → Loads (insert_block toy_hash sampler fork b).0
  unfolding insert_block ForkChoice.best_chain
  insert_block-Loads fork b nonzero (current, of_config) =
      elim (Bool-cases (contains_key fork.nodes (hash_of b))) [
        | inl known ↦ rw (known, insert_block) (current, of_config)
        | inr unknown ↦ elim (insert_block_fresh toy_hash sampler fork b current.tree unknown) [
          | inr (e, refused) ↦ rw refused (current, of_config)
          | inl (_, stored) ↦ (
            stored-IsCurrent sampler (best_state fork) fork (insert_block toy_hash sampler fork b).0
                b current stored nonzero,
            stored.config_eq ∙ of_config,
          )
        ]
      ]

  load_block-Loads :
      (line_number : ℕ) (l : Loading) (b : Block)
      → NonZero b
      → Loads l.fork_choice
      → LoadsAll (load_block sampler parse_addr line_number l b)
  load_block-Loads line_number l b nonzero h =
      let kept = insert_block-Loads l.fork_choice b nonzero h in
      elim (Result-cases (insert_block toy_hash sampler l.fork_choice b).1) [
        | inl (hash, stored) ↦ rw stored kept
        | inr (e, refused) ↦ rw refused tt
      ]

  load_header-Loads :
      (line_number : ℕ) (l : Loading) (stored : Bytes)
      → Loads l.fork_choice
      → LoadsAll (load_header sampler parse_addr config line_number l stored)
  load_header-Loads line_number l stored h = elim (Bool-cases l.seen_header) [
    | inl twice ↦ rw twice tt
    | inr once ↦ elim (Bool-cases l.seen_block) [
      | inl late ↦ rw (once, late) tt
      | inr first ↦ elim (Bool-cases (stored == fingerprint config)) [
        | inl same ↦ rw (once, first, same) h
        | inr apart ↦ rw (once, first, apart) tt
      ]
    ]
  ]

  some_loaded : (r : Result Loading LoadError) → LoadsAll r → LoadsLine (do ok (some (← r)))
  some_loaded (ok l) h = h
  some_loaded (err e) h = tt

  load_line-Loads :
      (complete : Bool) (count line_number : ℕ) (l : Loading) (line : Bytes)
      → IsSafeLine line
      → Loads l.fork_choice
      → LoadsLine (load_line sampler parse_addr config complete count line_number l line)
  unfolding load_line
  load_line-Loads complete count line_number l line safe h = elim (Bool-cases (is_blank line)) [
    | inl blank ↦ rw (blank, load_line) h
    | inr filled ↦ elim (Result-cases (decode_storage_line parse_addr line)) [
      | inl (header stored, read) ↦
          rw (filled, read, load_line) (some_loaded _ (load_header-Loads line_number l stored h))
      | inl (block b, read) ↦
          rw (filled, read, load_line)
            (some_loaded _ (load_block-Loads line_number l b (safe b read) h))
      | inr (e, failed) ↦ elim (Bool-cases (not complete && line_number == count)) [
        | inl cut ↦ rw (filled, failed, load_line, cut) tt
        | inr whole ↦ rw (filled, failed, load_line, whole) tt
      ]
    ]
  ]

  next_line-Loads :
      (r : Result (Option Loading) LoadError) (l : Loading)
      (rest : Loading → Result Loading LoadError)
      → LoadsLine r
      → Loads l.fork_choice
      → ((l' : Loading) → Loads l'.fork_choice → LoadsAll (rest l'))
      → LoadsAll (r >>= next_line sampler parse_addr l rest)
  next_line-Loads (ok (some l')) l rest read h go = go l' read
  next_line-Loads (ok none) l rest read h go = h
  next_line-Loads (err e) l rest read h go = tt

  load_loop-Loads :
      (complete : Bool) (count line_number : ℕ) (l : Loading) (ls : List Bytes)
      → All IsSafeLine ls
      → Loads l.fork_choice
      → LoadsAll (load_loop sampler parse_addr config complete count line_number l ls)
  unfolding load_loop
  load_loop-Loads complete count line_number l [] safe h = h
  load_loop-Loads complete count line_number l (line ∷ rest) safe h =
      next_line-Loads (load_line sampler parse_addr config complete count line_number l line) l _
        (load_line-Loads complete count line_number l line safe.0 h) h
        (λ l' h'. load_loop-Loads complete count (line_number + 1) l' rest safe.1 h')

  with_best_chain :
      (r : Result Loading LoadError)
      → LoadsAll r
      → LoadsChains (do
        l ← r
        chain ←
            map_err invalid_best_chain
              (chain_from_blocks sampler config (best_blocks l.fork_choice))
        ok (chain, l.fork_choice))
  with_best_chain (err e) h = tt
  with_best_chain (ok l) (current, of_config) =
      let built : chain_from_blocks sampler config (best_blocks l.fork_choice)
          ≡ ok (best_state l.fork_choice) =
        ap (λ c. chain_from_blocks sampler c (best_blocks l.fork_choice)) (sym of_config)
        ∙ (best_state_lem sampler l.fork_choice current.tree).0 in
      rw built current

  pub new-IsCurrent : IsCurrent sampler (Chain.new config) (ForkChoice.new config)
  unfolding ForkChoice.best_chain ForkChoice.get
  new-IsCurrent = record {
    tree = new-IsForkChoice toy_hash sampler config;
    served = refl;
    no_zero = refl;
  }

  new-Loads : Loads (ForkChoice.new config)
  unfolding ForkChoice.best_chain
  new-Loads = (new-IsCurrent, refl)

  -- A file is refused, or its blocks are loaded into a fork choice and its best chain.
  pub load_chains-IsCurrent :
      (content : Bytes)
      → All IsSafeLine (lines content)
      → LoadsChains (load_chains sampler parse_addr content config)
  unfolding load_chains
  load_chains-IsCurrent content safe = with_best_chain _ (
      load_loop-Loads (ends_with_newline content || content == []) (length (lines content)) 1 _
        (lines content) safe new-Loads)
