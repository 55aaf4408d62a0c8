-- ===== src/Wire/Decode/Fields.antt =====
-- The fields of a line, one by one: their bytes and their parsers.
use mathlib.Core.List.{map}
use chesscoin.Prelude.{
  ℕ, ◌^◌, ◌≤◌, ◌<◌, ◌≡◌, ◌≢◌, refl, arith, All, true, Option, some, List, [], ◌∷◌, length, Bytes,
  text, nat_eq, list_eq, ◌∙◌, ap, ◌==◌, ==_iff, Result, ok, length-map, length-append,
  if◌then◌else◌,
}
use chesscoin.Prelude.Int.{ℤ}
use chesscoin.Prelude.Words.{IsI64}
use chesscoin.Domain.Digest.{Digest, IsDigest, to_hex}
use chesscoin.Domain.Digest.Hex.{IsHexByte, to_hex-IsHexByte}
use chesscoin.Domain.Model.{ModelState, IsModel}
use chesscoin.Wire.Number.{u64_text, i64_text, parse_u64, parse_i64}
use chesscoin.Wire.Number.RoundTrip.{
  IsNumeric, u64_text-IsNumeric, i64_text-IsNumeric, parse_below-u64_text, parse_i64-i64_text,
}
use chesscoin.Wire.Text.{split, join}
use chesscoin.Wire.Text.Fields.{Lacks, split-join, All-join, All-mono}
use chesscoin.Wire.Encode.{encode_model}
use chesscoin.Wire.Decode.{parse_field, collect, decode_list, decode_model}

-- The bytes of numbers and digests, and of models, which join numbers by an underscore.
abbrev pub IsPlain : ℕ → Type 0
IsPlain b = (45 ≤ b) × (b ≤ 102) × (b ≢ 59)

pub u64_text-IsPlain : (n : ℕ) → All IsPlain (u64_text n)
u64_text-IsPlain n = All-mono IsNumeric IsPlain _ (λ b h. ground arith) (u64_text-IsNumeric n)

pub i64_text-IsPlain : (w : ℤ) → All IsPlain (i64_text w)
i64_text-IsPlain w = All-mono IsNumeric IsPlain _ (λ b h. ground arith) (i64_text-IsNumeric w)

pub to_hex-IsPlain : (d : Digest) → IsDigest d → All IsPlain (to_hex d)
to_hex-IsPlain d h = All-mono IsHexByte IsPlain _ (λ b k. ground arith) (to_hex-IsHexByte d h)

pub map-All :
    {A : Type 0} (P : A → Type 0) (Q : Bytes → Type 0) (f : A → Bytes) (xs : List A)
    → ((x : A) → P x → Q (f x))
    → All P xs
    → All Q (map f xs)
map-All P Q f [] g h = tt
map-All P Q f (x ∷ xs) g h = (g x h.0, map-All P Q f xs g h.1)

-- A parser that reads the text back makes the field read it back.
pub parse_field-some :
    {A : Type 0} (parse : Bytes → Option A) (input name : Bytes) {value : A}
    → parse input ≡ some value
    → parse_field parse input name ≡ ok value
unfolding parse_field
parse_field-some parse input name h = rw (h, parse_field)

pub u64_field : (n : ℕ) (name : Bytes) → n < 2 ^ 64 → parse_field parse_u64 (u64_text n) name ≡ ok n
u64_field n name h =
    parse_field-some parse_u64 (u64_text n) name (parse_below-u64_text (2 ^ 64) n (omega arith) h)

pub i64_field : (w : ℤ) (name : Bytes) → IsI64 w → parse_field parse_i64 (i64_text w) name ≡ ok w
i64_field w name h = parse_field-some parse_i64 (i64_text w) name (parse_i64-i64_text w h)

pub collect-map :
    {A : Type 0} (P : A → Type 0) (decode : Bytes → Result A Bytes) (encode : A → Bytes)
    (xs : List A)
    → ((x : A) → P x → decode (encode x) ≡ ok x)
    → All P xs
    → collect decode (map encode xs) ≡ ok xs
unfolding collect
collect-map P decode encode [] g h = refl
collect-map P decode encode (x ∷ xs) g h = rw (g x h.0, collect-map P decode encode xs g h.1) refl

not_empty :
    {A : Type 0} (input : Bytes) (rest : Result (List A) Bytes)
    → 0 < length input
    → (if input == [] then ok [] else rest) ≡ rest
not_empty [] rest h = absurd (omega arith)
not_empty (b ∷ bs) rest h = refl

length-join :
    (sep : ℕ) (field : Bytes) (fields : List Bytes)
    → length field ≤ length (join sep (field ∷ fields))
unfolding join
length-join sep field [] = omega arith
length-join sep field (next ∷ fields) =
    omega (arith, length-append field (sep ∷ join sep (next ∷ fields)))

-- A list of values under a separator is read back.
pub decode_list-join :
    {A : Type 0} (P : A → Type 0) (sep : ℕ) (decode : Bytes → Result A Bytes) (encode : A → Bytes)
    (xs : List A)
    → ((x : A) → P x → decode (encode x) ≡ ok x)
    → ((x : A) → P x → Lacks sep (encode x))
    → ((x : A) → P x → 0 < length (encode x))
    → All P xs
    → decode_list sep decode (join sep (map encode xs)) ≡ ok xs
unfolding decode_list join collect split
decode_list-join P sep decode encode [] g l s h = refl
decode_list-join P sep decode encode (x ∷ xs) g l s h =
    let fields =
      split-join sep (encode x) (map encode xs) (map-All P (Lacks sep) encode (x ∷ xs) l h) in
    let first = s x h.0 in
    not_empty (join sep (map encode (x ∷ xs)))
      (collect decode (split sep (join sep (map encode (x ∷ xs)))))
      (omega (arith, first, length-join sep (encode x) (map encode xs)))
    ∙ ap (collect decode) fields
    ∙ collect-map P decode encode (x ∷ xs) g h

map_each :
    {A : Type 0} (Q : Bytes → Type 0) (f : A → Bytes) (xs : List A)
    → ((x : A) → Q (f x))
    → All Q (map f xs)
map_each Q f [] g = tt
map_each Q f (x ∷ xs) g = (g x, map_each Q f xs g)

-- Eight weights under underscores are read back.
weights_read :
    (ws : List ℤ)
    → length ws ≡ 8
    → All IsI64 ws
    → decode_model (join 95 (map i64_text ws)) ≡ ok (record { weights = ws })
unfolding decode_model
weights_read [] len h = absurd (omega (arith, len))
weights_read (w ∷ ws) len h =
    let lacks =
      map_each (Lacks 95) i64_text (w ∷ ws)
        (λ x. All-mono IsNumeric (λ b. b ≢ 95) _ (λ b q. ground arith) (i64_text-IsNumeric x)) in
    let fields = split-join 95 (i64_text w) (map i64_text ws) lacks in
    let read =
      collect-map IsI64 (λ field. parse_field parse_i64 field (text "model weight")) i64_text
        (w ∷ ws) (λ x k. i64_field x (text "model weight") k) h in
    let count : (length (i64_text w ∷ map i64_text ws) == 8) ≡ true =
      ground
        (arith, length-map ws i64_text, len, ==_iff (length (i64_text w ∷ map i64_text ws)) 8) in
    rw (fields, count, read) refl

pub decode_model-encode_model : (m : ModelState) → IsModel m → decode_model (encode_model m) ≡ ok m
unfolding encode_model
decode_model-encode_model m h = weights_read m.weights h.0 h.1

pub encode_model-IsPlain : (m : ModelState) → All IsPlain (encode_model m)
unfolding encode_model
encode_model-IsPlain m =
    All-join IsPlain 95 (map i64_text m.weights) (ground arith)
      (map_each (All IsPlain) i64_text m.weights i64_text-IsPlain)
