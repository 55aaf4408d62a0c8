-- ===== src/Domain/Digest.antt =====
-- `Digest` of crates/chesscoin-core/src/domain.rs: 32 bytes, their hexadecimal text, and the
-- number of leading zero bits that proof of work is measured by.
pub mod Hex
pub mod Work
use chesscoin.Prelude.{
  ℕ, zero, suc, ◌+◌, ◌-◌, ◌*◌, ◌/◌, ◌%◌, ◌<◌, bit_and, bit_or, ◌≡◌, ◌↔◌, ◌&&◌, Bool, true, List, [],
  ◌∷◌, nat_eq, list_eq, ◌++◌, length, replicate, arith, ltb, leb, if◌then◌else◌, Eq, ◌==◌, ==_iff,
  All, Result, ok, err, ◌>>=◌, Bytes, text, not,
}

pub record Digest : Type 0 where
  pub bytes : List ℕ

-- The type `[u8; 32]`.
abbrev pub IsDigest : Digest → Type 0
IsDigest d = (length d.bytes ≡ 32) × All (λ b. b < 256) d.bytes

abbrev pub zero_digest : Digest
zero_digest = record { bytes = replicate 32 0 }

unfoldable pub digest_beq : Digest → Digest → Bool
digest_beq a b = a.bytes == b.bytes

pub digest_beq_iff : (a b : Digest) → (digest_beq a b ≡ true) ↔ (a ≡ b)
unfolding digest_beq
digest_beq_iff a b = ground (arith, ==_iff a.bytes b.bytes)

instance abbrev pub digest_eq : Eq Digest
digest_eq = record { eq = digest_beq; decides = digest_beq_iff }

-- The last arm of the source's match cannot be reached from a nibble below 16.
unfoldable pub hex_digit : ℕ → ℕ
hex_digit nibble = if leb nibble 9 then b'0' + nibble else b'a' + (nibble - 10)

unfoldable pub decode_hex_digit : ℕ → Result ℕ Bytes
decode_hex_digit byte =
    if leb b'0' byte && leb byte b'9'
    then ok (byte - b'0')
    else if leb b'a' byte && leb byte b'f'
    then ok (byte - b'a' + 10)
    else if leb b'A' byte && leb byte b'F'
    then ok (byte - b'A' + 10)
    else err (text "invalid hex digit")

hex_bytes : List ℕ → Bytes
hex_bytes [] = []
hex_bytes (byte ∷ bytes) = hex_digit (byte / 16) ∷ hex_digit (bit_and byte 0x0f) ∷ hex_bytes bytes

unfoldable pub to_hex : Digest → Bytes
unfolding hex_bytes hex_digit
to_hex d = hex_bytes d.bytes

-- The loop of `from_hex` takes the characters two by two; `(high << 4) | low` is an u8.
decode_pairs : Bytes → Result (List ℕ) Bytes
decode_pairs (h ∷ l ∷ rest) = do
  high ← decode_hex_digit h
  low ← decode_hex_digit l
  bytes ← decode_pairs rest
  ok (bit_or ((high * 16) % 256) low ∷ bytes)
decode_pairs _ = ok []

unfoldable pub from_hex : Bytes → Result Digest Bytes
unfolding decode_pairs decode_hex_digit
from_hex input =
    if not (length input == 64)
    then err (text "digest hex must be 64 characters")
    else do bytes ← decode_pairs input; ok (record { bytes = bytes })

-- `u8::leading_zeros`.
leading_zeros : ℕ → ℕ
leading_zeros byte =
    if ltb byte 1
    then 8
    else if ltb byte 2
    then 7
    else if ltb byte 4
    then 6
    else if ltb byte 8
    then 5
    else if ltb byte 16
    then 4
    else if ltb byte 32
    then 3
    else if ltb byte 64
    then 2
    else if ltb byte 128
    then 1
    else 0

-- The loop stops at the first byte that is not zero.
zero_bits : List ℕ → ℕ
unfolding leading_zeros
zero_bits [] = 0
zero_bits (byte ∷ bytes) = if byte == 0 then 8 + zero_bits bytes else leading_zeros byte

unfoldable pub leading_zero_bits : Digest → ℕ
unfolding zero_bits
leading_zero_bits d = zero_bits d.bytes
