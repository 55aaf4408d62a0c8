-- ===== src/Wire/Text.antt =====
-- Splitting, joining, trimming and escaping text.
pub mod Fields
pub mod Escape
use chesscoin.Prelude.{
  ℕ, zero, suc, ◌+◌, ◌-◌, ◌*◌, ◌/◌, ◌%◌, Bool, true, false, Option, some, none, List, [], ◌∷◌, ◌++◌,
  Bytes, text, ltb, leb, if◌then◌else◌, ◌==◌, nat_eq, list_eq, ◌&&◌, ◌||◌, Result, ok, err, ◌>>=◌,
  ◌>>◌, map_err,
}
use chesscoin.Domain.Digest.{decode_hex_digit}

abbrev pub add_to_first : ℕ → List Bytes → List Bytes
add_to_first b [] = (b ∷ []) ∷ []
add_to_first b (part ∷ parts) = (b ∷ part) ∷ parts

-- `split` at a byte: there is always a part.
unfoldable pub split : ℕ → Bytes → List Bytes
split sep [] = [] ∷ []
split sep (b ∷ bs) = let rest = split sep bs in if b == sep then [] ∷ rest else add_to_first b rest

-- `splitn`: after n - 1 separators the rest is one part.
unfoldable pub splitn : ℕ → ℕ → Bytes → List Bytes
splitn zero sep bs = []
splitn (suc zero) sep bs = bs ∷ []
splitn (suc (suc n)) sep [] = [] ∷ []
splitn (suc (suc n)) sep (b ∷ bs) =
    let next = splitn (suc n) sep bs in
    let same = splitn (suc (suc n)) sep bs in if b == sep then [] ∷ next else add_to_first b same

unfoldable pub join : ℕ → List Bytes → Bytes
join sep [] = []
join sep (part ∷ []) = part
join sep (part ∷ next ∷ parts) = part ++ sep ∷ join sep (next ∷ parts)

abbrev keep_unless_end : ℕ → Bytes → Bytes
keep_unless_end b [] = if b == b'\r' || b == b'\n' then [] else b ∷ []
keep_unless_end b (c ∷ rest) = b ∷ c ∷ rest

-- `trim_end_matches(['\r', '\n'])`.
unfoldable pub trim_end : Bytes → Bytes
trim_end [] = []
trim_end (b ∷ bs) = keep_unless_end b (trim_end bs)

-- `replace` of one byte by a text.
unfoldable pub replace : ℕ → Bytes → Bytes → Bytes
replace old new [] = []
replace old new (b ∷ bs) =
    let rest = replace old new bs in if b == old then new ++ rest else b ∷ rest

unfoldable pub escape : Bytes → Bytes
unfolding replace
escape input = replace b'|' (text "%7C") (replace b'%' (text "%25") input)

-- `push(byte as char)`: from 128 on, the character has two bytes.
abbrev push_char : ℕ → Bytes
push_char b = if ltb b 128 then b ∷ [] else (192 + b / 64) ∷ (128 + b % 64) ∷ []

invalid_escape : Bytes
invalid_escape = text "invalid escape"

-- `u8::from_str_radix` on two bytes; a plus sign counts as a sign. Text that is not UTF-8 has the
-- same error as text that is not a number.
unfoldable pub from_hex_pair : ℕ → ℕ → Result ℕ Bytes
unfolding invalid_escape decode_hex_digit
from_hex_pair high low =
    map_err (λ _. invalid_escape)
      (if high == b'+' then decode_hex_digit low else do
        high_value ← decode_hex_digit high
        low_value ← decode_hex_digit low
        ok (high_value * 16 + low_value))

unfoldable pub unescape : Bytes → Result Bytes Bytes
unfolding from_hex_pair
unescape [] = ok []
unescape (b ∷ []) = if b == b'%' then err (text "truncated escape") else ok (push_char b)
unescape (b ∷ c ∷ []) =
    if b == b'%'
    then err (text "truncated escape")
    else (do ok (push_char b ++ (← unescape (c ∷ []))))
unescape (b ∷ c ∷ d ∷ bs) =
    let plain = unescape (c ∷ d ∷ bs) in
    let escaped = unescape bs in
    if b == b'%'
    then (do ok (push_char (← from_hex_pair c d) ++ (← escaped)))
    else (do ok (push_char b ++ (← plain)))
