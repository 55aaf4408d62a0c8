-- ===== src/Domain/Digest/Hex.antt =====
-- The hexadecimal text of a digest: `to_hex`, `from_hex` and `decode_hex_digit`.
use chesscoin.Prelude.{
  ℕ, zero, suc, ◌*◌, ◌/◌, ◌%◌, ◌<◌, bit_and, bit_or, ◌≡◌, ◌≢◌, ◌≤◌, ◌&&◌, refl, Bool, true, List,
  [], ◌∷◌, length, arith, All, ok, nat_beq, nat_beq_iff,
}
use chesscoin.Domain.Digest.{
  Digest, IsDigest, hex_digit, decode_hex_digit, hex_bytes, to_hex, decode_pairs, from_hex,
}

-- Tries a test at every byte below n, the lowest first.
tries : (ℕ → Bool) → ℕ → Bool
tries test zero = true
tries test (suc n) = let lower = tries test n in lower && test n

tries_all : (test : ℕ → Bool) (n b : ℕ) → tries test n ≡ true → b < n → test b ≡ true
unfolding tries
tries_all test zero b passed below = absurd (omega arith)
tries_all test (suc n) b passed below = ground (arith, tries_all test n b)

low_nibble_table : tries (λ b. nat_beq (bit_and b 0x0f) (b % 16)) 256 ≡ true
unfolding tries
low_nibble_table = refl

low_nibble : (b : ℕ) → b < 256 → bit_and b 0x0f ≡ b % 16
low_nibble b h = (nat_beq_iff _ _).0 (tries_all _ 256 b low_nibble_table h)

join_table : tries (λ b. nat_beq (bit_or ((b / 16 * 16) % 256) (b % 16)) b) 256 ≡ true
unfolding tries
join_table = refl

-- The two nibbles of a byte give it back.
join_nibbles : (b : ℕ) → b < 256 → bit_or ((b / 16 * 16) % 256) (b % 16) ≡ b
join_nibbles b h = (nat_beq_iff _ _).0 (tries_all _ 256 b join_table h)

pub decode-hex_digit : (n : ℕ) → n < 16 → decode_hex_digit (hex_digit n) ≡ ok n
unfolding decode_hex_digit hex_digit
decode-hex_digit n h = ground arith

length-hex_bytes : (bs : List ℕ) → length (hex_bytes bs) ≡ 2 * length bs
unfolding hex_bytes
length-hex_bytes [] = refl
length-hex_bytes (b ∷ bs) = omega (arith, length-hex_bytes bs)

decode_pairs-hex_bytes : (bs : List ℕ) → All (λ b. b < 256) bs → decode_pairs (hex_bytes bs) ≡ ok bs
unfolding decode_pairs hex_bytes
decode_pairs-hex_bytes [] h = refl
decode_pairs-hex_bytes (b ∷ bs) h = rw (
  low_nibble b h.0,
  decode-hex_digit (b / 16) (omega (arith, h.0)),
  decode-hex_digit (b % 16) (omega arith),
  decode_pairs-hex_bytes bs h.1,
  join_nibbles b h.0,
)

-- Every digest is read back from its hexadecimal text.
pub from_hex-to_hex : (d : Digest) → IsDigest d → from_hex (to_hex d) ≡ ok d
unfolding from_hex to_hex
from_hex-to_hex d h =
    rw (decode_pairs-hex_bytes d.bytes h.1) (ground (arith, length-hex_bytes d.bytes, h.0))

-- The bytes of hexadecimal text are digits and letters: no separator is among them.
abbrev pub IsHexByte : ℕ → Type 0
IsHexByte b = (48 ≤ b) × (b ≤ 102) × (b ≢ 59)

hex_digit-IsHexByte : (n : ℕ) → n < 16 → IsHexByte (hex_digit n)
unfolding hex_digit
hex_digit-IsHexByte n h = ground arith

hex_bytes-IsHexByte : (bs : List ℕ) → All (λ b. b < 256) bs → All IsHexByte (hex_bytes bs)
unfolding hex_bytes
hex_bytes-IsHexByte [] h = tt
hex_bytes-IsHexByte (b ∷ bs) h = (
  hex_digit-IsHexByte (b / 16) (omega (arith, h.0)),
  (rw (low_nibble b h.0) (hex_digit-IsHexByte (b % 16) (omega arith)), hex_bytes-IsHexByte bs h.1),
)

pub to_hex-IsHexByte : (d : Digest) → IsDigest d → All IsHexByte (to_hex d)
unfolding to_hex
to_hex-IsHexByte d h = hex_bytes-IsHexByte d.bytes h.1

pub to_hex_some : (d : Digest) → IsDigest d → 0 < length (to_hex d)
unfolding to_hex
to_hex_some d h = omega (arith, length-hex_bytes d.bytes, h.0)
