-- ===== src/Wire/Text/Escape.antt =====
-- Lemmas on `escape` and `unescape` of crates/chesscoin-node/src/wire.rs.
use mathlib.Core.Path.{subst}
use mathlib.Core.List.{append-nil}
use chesscoin.Prelude.{
  ℕ, ◌<◌, ◌≡◌, ◌≢◌, refl, arith, All, All-append, false, Bool-cases, inl, inr, [], ◌∷◌, ◌++◌, Bytes,
  text, nat_eq, ◌∙◌, ap, ◌==◌, ==_iff, ok, ok-injective, sym, if◌then◌else◌,
}
use chesscoin.Domain.Digest.{decode_hex_digit}
use chesscoin.Wire.Text.{replace, escape, unescape, from_hex_pair, push_char}

-- What an escape makes of one byte.
abbrev escaped : ℕ → Bytes
escaped b = if b == 37 then text "%25" else if b == 124 then text "%7C" else b ∷ []

escape_cons : (b : ℕ) (bs : Bytes) → escape (b ∷ bs) ≡ escaped b ++ escape bs
unfolding escape replace
escape_cons b bs = elim (Bool-cases (b == 37)) [
  | inl percent ↦ rw percent refl
  | inr other ↦ elim (Bool-cases (b == 124)) [
    | inl bar ↦ rw (other, bar) refl
    | inr plain ↦ rw (other, plain) refl
  ]
]

-- A byte that is no percent sign stands for itself.
unescape_plain :
    (b : ℕ) (bs rest : Bytes)
    → (b == 37) ≡ false
    → unescape bs ≡ ok rest
    → unescape (b ∷ bs) ≡ ok (push_char b ++ rest)
unfolding unescape
unescape_plain b [] rest h read = rw h (
    ap ok (sym (append-nil (push_char b)))
    ∙ ap (λ (r : Bytes). ok (push_char b ++ r)) (ok-injective read))
unescape_plain b (c ∷ []) rest h read = rw (h, read) refl
unescape_plain b (c ∷ d ∷ bs) rest h read = rw (h, read) refl

unescape-escaped :
    (b : ℕ) (bs rest : Bytes)
    → b < 128
    → unescape bs ≡ ok rest
    → unescape (escaped b ++ bs) ≡ ok (b ∷ rest)
unfolding unescape from_hex_pair decode_hex_digit
unescape-escaped b bs rest ascii read = elim (Bool-cases (b == 37)) [
  | inl percent ↦ rw (percent, read) (ap (λ x. ok (x ∷ rest)) (sym ((==_iff b 37).0 percent)))
  | inr other ↦ elim (Bool-cases (b == 124)) [
    | inl bar ↦ rw (other, bar, read) (ap (λ x. ok (x ∷ rest)) (sym ((==_iff b 124).0 bar)))
    | inr plain ↦
        let one : push_char b ≡ b ∷ [] = ground arith in
        rw (other, plain)
          (unescape_plain b bs rest other read ∙ ap (λ (c : Bytes). ok (c ++ rest)) one)
  ]
]

-- A text of ASCII characters is read back from its escaped text.
pub unescape-escape : (bs : Bytes) → All (λ b. b < 128) bs → unescape (escape bs) ≡ ok bs
unfolding unescape escape replace
unescape-escape [] h = refl
unescape-escape (b ∷ bs) h =
    ap unescape (escape_cons b bs) ∙ unescape-escaped b (escape bs) bs h.0 (unescape-escape bs h.1)

-- What holds of the bytes of a text and of the escapes holds of the escaped text.
pub All-escape :
    (P : ℕ → Type 0) (bs : Bytes)
    → P 37 × P 50 × P 53 × P 55 × P 67
    → All (λ b. (b ≢ 124) → P b) bs
    → All P (escape bs)
unfolding escape replace
All-escape P [] p h = tt
All-escape P (b ∷ bs) (p₀, p₁, p₂, p₃, p₄) h = subst (All P) (sym (escape_cons b bs)) (
    All-append P (escaped b) (escape bs)
      (elim (Bool-cases (b == 37)) [
        | inl percent ↦ rw percent (p₀, (p₁, (p₂, tt)))
        | inr other ↦ elim (Bool-cases (b == 124)) [
          | inl bar ↦ rw (other, bar) (p₀, (p₃, (p₄, tt)))
          | inr plain ↦ rw (other, plain) (h.0 (λ e. absurd (cc ((==_iff b 124).1 e, plain))), tt)
        ]
      ])
      (All-escape P bs (p₀, p₁, p₂, p₃, p₄) h.1))
