-- ===== src/Node/Stream/Limit.antt =====
-- The lines that are read from a connection.
use mathlib.Core.List.{map}
use chesscoin.Prelude.{
  ℕ, ◌+◌, ◌≤◌, ◌≡◌, ◌≢◌, refl, arith, All, true, false, Bool-cases, some, inl, inr, List, [], ◌∷◌,
  ◌++◌, append_assoc, length, length-append, Bytes, ltb, nat_eq, ◌==◌, ==_iff, ◌∙◌, ap, ok,
}
use chesscoin.Node.Stream.{Read, byte, is_utf8, finish_line, read_loop, read_limited_line_from}

read_loop-line :
    (max_message_bytes : ℕ) (bytes line : Bytes) (rest : List Read)
    → All (λ b. b ≢ b'\n') line
    → length bytes + length line + 1 ≤ max_message_bytes
    → read_loop max_message_bytes bytes (map byte (line ++ b'\n' ∷ []) ++ rest)
      ≡ (finish_line (bytes ++ (line ++ b'\n' ∷ [])), rest)
unfolding read_loop
read_loop-line max bytes [] rest h fits =
    let short : ltb max (length (bytes ++ b'\n' ∷ [])) ≡ false =
      ground (arith, length-append bytes (b'\n' ∷ [])) in
    rw short refl
read_loop-line max bytes (b ∷ line) rest h fits =
    let short : ltb max (length (bytes ++ b ∷ [])) ≡ false =
      ground (arith, length-append bytes (b ∷ [])) in
    let next =
      read_loop-line max (bytes ++ b ∷ []) line rest h.1
        (omega (arith, fits, length-append bytes (b ∷ []))) in
    elim (Bool-cases (b == b'\n')) [
      | inl end ↦ absurd (h.0 ((==_iff b b'\n').0 end))
      | inr inside ↦
          rw (short, inside)
            (next
              ∙ ap (λ bs. (finish_line bs, rest))
                  (append_assoc bytes (b ∷ []) (line ++ b'\n' ∷ [])))
    ]

finish_line-line :
    (line : Bytes)
    → is_utf8 (line ++ b'\n' ∷ []) ≡ true
    → finish_line (line ++ b'\n' ∷ []) ≡ ok (some (line ++ b'\n' ∷ []))
unfolding finish_line
finish_line-line [] h = rw h refl
finish_line-line (b ∷ line) h = rw h refl

-- A line that is UTF-8 and fits, with its end, is read as it was written, and what follows it is left.
pub read_limited_line_from-line :
    (line : Bytes) (rest : List Read) (max_message_bytes : ℕ)
    → All (λ b. b ≢ b'\n') line
    → length line + 1 ≤ max_message_bytes
    → is_utf8 (line ++ b'\n' ∷ []) ≡ true
    → read_limited_line_from (map byte (line ++ b'\n' ∷ []) ++ rest) max_message_bytes
      ≡ (ok (some (line ++ b'\n' ∷ [])), rest)
unfolding read_limited_line_from
read_limited_line_from-line line rest max h fits valid =
    read_loop-line max [] line rest h (omega (arith, fits))
    ∙ ap (λ r. (r, rest)) (finish_line-line line valid)
