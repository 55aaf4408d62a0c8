-- ===== src/Node/Stream.antt =====
-- Reading lines from a connection and writing messages to one, in
-- crates/chesscoin-node/src/runtime.rs.
pub mod Limit
use chesscoin.Prelude.{
  ℕ, zero, suc, ◌+◌, Bool, true, false, ◌&&◌, Option, none, some, List, [], ◌∷◌, ◌++◌, length,
  Bytes, ltb, leb, if◌then◌else◌, ◌==◌, nat_eq, Result, ok, err,
}
use chesscoin.Wire.Message.{WireConfig, PeerMessage}
use chesscoin.Wire.Encode.{encode_network_message}
use chesscoin.Node.Address.{SocketAddr}

-- What the next `read` of one byte gives; after the last one the connection is at its end.
pub data Read : Type 0 where
  byte : ℕ → Read
  fails : Read

pub data IncomingReadError : Type 0 where
  oversized io : IncomingReadError

-- The bytes that may follow a first byte: how many, and the range of the next one.
abbrev lead : ℕ → Option (ℕ × ℕ × ℕ)
lead b =
    if ltb b 0x80
    then some (0, 0x80, 0xbf)
    else if ltb b 0xc2
    then none
    else if ltb b 0xe0
    then some (1, 0x80, 0xbf)
    else if b == 0xe0
    then some (2, 0xa0, 0xbf)
    else if b == 0xed
    then some (2, 0x80, 0x9f)
    else if ltb b 0xf0
    then some (2, 0x80, 0xbf)
    else if b == 0xf0
    then some (3, 0x90, 0xbf)
    else if ltb b 0xf4
    then some (3, 0x80, 0xbf)
    else if b == 0xf4
    then some (3, 0x80, 0x8f)
    else none

-- `String::from_utf8` accepts the bytes; the numbers say what is still to follow.
unfoldable pub utf8_from : ℕ → ℕ → ℕ → Bytes → Bool
utf8_from zero low high [] = true
utf8_from (suc n) low high [] = false
utf8_from zero low high (b ∷ bs) = elim (lead b) [
  | none ↦ false
  | some (n, low', high') ↦ utf8_from n low' high' bs
]
utf8_from (suc n) low high (b ∷ bs) = leb low b && leb b high && utf8_from n 0x80 0xbf bs

unfoldable pub is_utf8 : Bytes → Bool
unfolding utf8_from
is_utf8 bytes = utf8_from 0 0x80 0xbf bytes

unfoldable pub finish_line : Bytes → Result (Option Bytes) IncomingReadError
finish_line [] = ok none
finish_line (b ∷ bytes) = if is_utf8 (b ∷ bytes) then ok (some (b ∷ bytes)) else err io

-- The loop of `read_limited_line_from`: the line or the error, and what is left to read.
unfoldable pub read_loop :
    ℕ → Bytes → List Read → Result (Option Bytes) IncomingReadError × List Read
read_loop max_message_bytes bytes [] = (finish_line bytes, [])
read_loop max_message_bytes bytes (fails ∷ reads) = (err io, reads)
read_loop max_message_bytes bytes (byte b ∷ reads) =
    let longer = bytes ++ b ∷ [] in
    let rest = read_loop max_message_bytes longer reads in
    if ltb max_message_bytes (length longer)
    then (err oversized, reads)
    else if b == b'\n'
    then (finish_line longer, reads)
    else rest

unfoldable pub read_limited_line_from :
    List Read → ℕ → Result (Option Bytes) IncomingReadError × List Read
read_limited_line_from reads max_message_bytes = read_loop max_message_bytes [] reads

-- A connection to write to: how many messages it still takes, if not all, whether it can be
-- flushed, and what was written.
pub record Stream : Type 0 where
  pub takes : Option ℕ
  pub flushes : Bool
  pub sent : List Bytes

abbrev pub Written : Type 0
Written = Stream × Result (Unit {0}) (Unit {0})

module _ (addr_text : SocketAddr → Bytes) where
  abbrev pub wire_line : WireConfig → PeerMessage SocketAddr → Bytes
  wire_line wire message = encode_network_message addr_text wire message ++ b'\n' ∷ []

  -- A message that is cut short counts as not written.
  unfoldable pub write_peer_message : WireConfig → PeerMessage SocketAddr → Stream → Written
  write_peer_message wire message stream = elim stream.takes [
    | none ↦ (record stream { sent = stream.sent ++ wire_line wire message ∷ [] }, ok tt)
    | some zero ↦ (stream, err tt)
    | some (suc n) ↦
        (record stream { takes = some n; sent = stream.sent ++ wire_line wire message ∷ [] }, ok tt)
  ]

abbrev pub flush : Stream → Result (Unit {0}) (Unit {0})
flush stream = if stream.flushes then ok tt else err tt

-- `and_then(|_| stream.flush())`.
abbrev pub then_flush : Written → Written
then_flush (stream, ok _) = (stream, flush stream)
then_flush (stream, err e) = (stream, err e)
