-- ===== src/Node/Load/Reload.antt =====
-- A file that grows by records, read again.
use chesscoin.Prelude.{
  ℕ, ◌+◌, ◌≡◌, refl, All, true, false, Bool-cases, Option, some, none, inl, inr, List, [], ◌∷◌,
  ◌++◌, Bytes, text, nat_eq, list_eq, ==_refl, ok, Result-cases, ok-injective,
}
use chesscoin.Domain.Digest.{Digest}
use chesscoin.Domain.Trace.{Block}
use chesscoin.Ports.{SamplingPort}
use chesscoin.Application.Config.{ChainConfig}
use chesscoin.Application.ForkChoice.{ForkChoiceState, insert_block}
use chesscoin.Application.ForkChoice
use chesscoin.Adapters.{toy_hash}
use chesscoin.Wire.Message.{fingerprint}
use chesscoin.Node.Address.{SocketAddr}
use chesscoin.Node.Config.{is_blank}
use chesscoin.Node.Storage.{
  header, block, encode_storage_header, encode_storage_record, decode_storage_line,
}
use chesscoin.Node.Storage.RoundTrip.{
  decode_storage_line-encode_record, decode_storage_line-encode_header,
}
use chesscoin.Wire.Receive.Fields.{IsBlock}
use chesscoin.Node.Load.{Loading, lines, load_header, load_block, load_line, load_loop}
use chesscoin.Node.Load.Lines.{IsComplete, IsInLine, lines-append, append-IsComplete}

module _ (sampler : SamplingPort) (parse_addr : Bytes → Option SocketAddr)
    (config : ChainConfig) where
  -- A line of a complete file is read or refused: it does not end the loop.
  no_break :
      (count n : ℕ) (l : Loading) (line : Bytes)
      → load_line sampler parse_addr config true count n l line ≡ ok none
      → ⊥
  unfolding load_line
  no_break count n l line h = elim (Bool-cases (is_blank line)) [
    | inl blank ↦ absurd (cc (rw blank at h))
    | inr text ↦ elim (Result-cases (decode_storage_line parse_addr line)) [
      | inr (e, failed) ↦ absurd (cc (rw (text, failed) at h))
      | inl (header stored, read) ↦
          elim (Result-cases (load_header sampler parse_addr config n l stored)) [
            | inr (e, refused) ↦ absurd (cc (rw (text, read, refused) at h))
            | inl (l', taken) ↦ absurd (cc (rw (text, read, taken) at h))
          ]
      | inl (block b, read) ↦ elim (Result-cases (load_block sampler parse_addr n l b)) [
        | inr (e, refused) ↦ absurd (cc (rw (text, read, refused) at h))
        | inl (l', taken) ↦ absurd (cc (rw (text, read, taken) at h))
      ]
    ]
  ]

  -- One more line behind those that the loop has read.
  load_loop-line :
      (count n : ℕ) (l l' l'' : Loading) (ls : List Bytes) (line : Bytes)
      → load_loop sampler parse_addr config true count n l ls ≡ ok l'
      → ((m : ℕ) → load_line sampler parse_addr config true count m l' line ≡ ok (some l''))
      → load_loop sampler parse_addr config true count n l (ls ++ line ∷ []) ≡ ok l''
  unfolding load_loop
  load_loop-line count n l l' l'' [] line h step =
      let last = rw (← ok-injective h) at step n in rw last refl
  load_loop-line count n l l' l'' (x ∷ ls) line h step =
      elim (Result-cases (load_line sampler parse_addr config true count n l x)) [
        | inr (e, failed) ↦ absurd (cc (rw failed at h))
        | inl (none, ended) ↦ absurd (no_break count n l x ended)
        | inl (some m, read) ↦
            rw read (load_loop-line count (n + 1) m l' l'' ls line (rw read at h) step)
      ]

  abbrev pub start : Loading
  start = record { fork_choice = ForkChoice.new config; seen_header = false; seen_block = false }

  -- The file is complete, and its lines are read.
  pub record Reads (file : Bytes) (l : Loading) : Type 0 where
    pub complete : IsComplete file
    pub loaded :
        (count : ℕ) → load_loop sampler parse_addr config true count 1 start (lines file) ≡ ok l

  pub empty-Reads : Reads [] start
  unfolding lines load_loop
  empty-Reads = record { complete = refl; loaded = λ count. refl }

  pub Reads-line :
      (file line : Bytes) (l l' : Loading)
      → Reads file l
      → All IsInLine line
      → ((count m : ℕ) → load_line sampler parse_addr config true count m l line ≡ ok (some l'))
      → Reads (file ++ (line ++ b'\n' ∷ [])) l'
  Reads-line file line l l' r inside step = record {
    complete = append-IsComplete file line;
    loaded = λ count.
        rw (lines-append file line r.complete inside)
          (load_loop-line count 1 start l l' (lines file) line (r.loaded count) (step count));
  }

  -- What a header and a record add to what is read.
  pub load_line-header :
      (count m : ℕ)
      → load_line sampler parse_addr config true count m start (encode_storage_header config)
        ≡ ok (some (record start { seen_header = true }))
  unfolding load_line encode_storage_header is_blank
  load_line-header count m =
      rw (decode_storage_line-encode_header parse_addr config, ==_refl (fingerprint config)) refl

  pub load_line-record :
      (count m : ℕ) (l : Loading) (b : Block) (fork : ForkChoiceState) (hash : Digest)
      → IsBlock b
      → insert_block toy_hash sampler l.fork_choice b ≡ (fork, ok hash)
      → load_line sampler parse_addr config true count m l (encode_storage_record b)
        ≡ ok (some (record l { fork_choice = fork; seen_block = true }))
  unfolding load_line encode_storage_record is_blank
  load_line-record count m l b fork hash r inserted =
      rw (decode_storage_line-encode_record parse_addr b r, inserted) refl
