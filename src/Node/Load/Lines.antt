-- ===== src/Node/Load/Lines.antt =====
-- The lines of a file that grows by whole lines.
use chesscoin.Prelude.{
  ℕ, ◌≡◌, ◌≢◌, refl, arith, All, All-append, true, Bool-cases, ◌||◌, inl, inr, [], ◌∷◌, ◌++◌,
  append_assoc, append-nil, Bytes, nat_eq, list_eq, ◌==◌, ==_iff, ◌∙◌, ap, sym,
}
use chesscoin.Node.Load.{strip_return, lines_from, lines, ends_with_newline}

-- The text is empty or ends with a line feed.
abbrev pub IsComplete : Bytes → Type 0
IsComplete file = (ends_with_newline file || file == []) ≡ true

-- A byte within a line.
abbrev pub IsInLine : ℕ → Type 0
IsInLine b = (b ≢ 13) × (b ≢ 10)

strip_return_lem : (line : Bytes) → All IsInLine line → strip_return line ≡ line
strip_return_lem [] h = refl
strip_return_lem (b ∷ []) h = ground (arith, ==_iff b 13, h.0)
strip_return_lem (b ∷ c ∷ line) h = ap (λ l. b ∷ l) (strip_return_lem (c ∷ line) h.1)

-- One more line.
lines_from-line :
    (start line rest : Bytes)
    → All IsInLine start
    → All IsInLine line
    → lines_from start (line ++ b'\n' ∷ rest) ≡ (start ++ line) ∷ lines_from [] rest
unfolding lines_from
lines_from-line start [] rest s h =
    ap (λ l. l ∷ lines_from [] rest) (strip_return_lem start s ∙ sym (append-nil start))
lines_from-line start (b ∷ line) rest s h = elim (Bool-cases (b == b'\n')) [
  | inl end ↦ absurd (h.0.1 ((==_iff b b'\n').0 end))
  | inr inside ↦ rw inside (
      lines_from-line (start ++ b ∷ []) line rest (All-append IsInLine start (b ∷ []) s (h.0, tt))
        h.1
      ∙ ap (λ l. l ∷ lines_from [] rest) (append_assoc start (b ∷ []) line))
]

lines_from-append :
    (start file rest : Bytes)
    → ends_with_newline file ≡ true
    → lines_from start (file ++ rest) ≡ lines_from start file ++ lines_from [] rest
unfolding lines_from
lines_from-append start [] rest h = absurd (cc)
lines_from-append start (b ∷ []) rest h = rw h refl
lines_from-append start (b ∷ c ∷ file) rest h = elim (Bool-cases (b == b'\n')) [
  | inl end ↦ rw end (ap (λ ls. strip_return start ∷ ls) (lines_from-append [] (c ∷ file) rest h))
  | inr inside ↦ rw inside (lines_from-append (start ++ b ∷ []) (c ∷ file) rest h)
]

-- A complete file gets one more line.
pub lines-append :
    (file line : Bytes)
    → IsComplete file
    → All IsInLine line
    → lines (file ++ (line ++ b'\n' ∷ [])) ≡ lines file ++ line ∷ []
unfolding lines
lines-append [] line h l = lines_from-line [] line [] tt l
lines-append (b ∷ file) line h l =
    lines_from-append [] (b ∷ file) (line ++ b'\n' ∷ []) (ground arith)
    ∙ ap (λ ls. lines_from [] (b ∷ file) ++ ls) (lines_from-line [] line [] tt l)

ends_snoc : (bs : Bytes) → ends_with_newline (bs ++ b'\n' ∷ []) ≡ true
ends_snoc [] = refl
ends_snoc (b ∷ []) = refl
ends_snoc (b ∷ c ∷ bs) = ends_snoc (c ∷ bs)

pub append-IsComplete : (file line : Bytes) → IsComplete (file ++ (line ++ b'\n' ∷ []))
append-IsComplete file line =
    let ends : ends_with_newline (file ++ (line ++ b'\n' ∷ [])) ≡ true =
      ap ends_with_newline (sym (append_assoc file line (b'\n' ∷ []))) ∙ ends_snoc (file ++ line) in
    rw ends refl
