-- ===== src/Wire/Tests.antt =====
-- The wire format at concrete inputs; the socket addresses of the examples are numbers.
use mathlib.Core.Option.{bind}
use chesscoin.Prelude.{ℕ, ◌≡◌, refl, arith, Bytes, text, ok}
use chesscoin.Domain.Digest.{zero_digest}
use chesscoin.Wire.Number.{digits, digits_value, parse_below, u64_text, parse_u64}
use chesscoin.Wire.Text.{escape, unescape}
use chesscoin.Wire.Text.Escape.{unescape-escape}
use chesscoin.Wire.Message.{PeerMessage, hello}
use chesscoin.Wire.Encode.{encode_message}
use chesscoin.Wire.Receive.{decode_message}
use chesscoin.Wire.Receive.RoundTrip.{IsMessage, IsAddrText, decode_message-encode_message}

abbrev name : Bytes
name = text "node|a%"

abbrev some_hello : PeerMessage ℕ
some_hello = hello name 3 zero_digest 5000

address-IsAddrText : IsAddrText u64_text parse_u64 5000
unfolding digits digits_value parse_below bind
address-IsAddrText = record {
  read_back = refl;
  some_text = omega arith;
  no_comma = omega arith;
  in_field = ground arith;
}

some_hello-IsMessage : IsMessage u64_text parse_u64 some_hello
unfolding IsMessage
some_hello-IsMessage = (ground arith, omega arith, omega arith, address-IsAddrText)

decode_message-encode_message_example :
    decode_message parse_u64 (encode_message u64_text some_hello) ≡ ok some_hello
decode_message-encode_message_example =
    decode_message-encode_message u64_text parse_u64 some_hello some_hello-IsMessage

unescape-escape_example : unescape (escape name) ≡ ok name
unescape-escape_example = unescape-escape name (omega arith)
