-- ===== src/Tests/Protocol.antt =====
-- Runs of the header and of the message at concrete inputs.
use simple_someip.Prelude.{ℕ, ◌<◌, ◌≡◌, ◌↔◌, refl, arith, List, [], ◌∷◌, ◌++◌, ok, panic}
use simple_someip.Bytes.{to_be32, from_be32}
use simple_someip.Protocol.MessageId as MessageId
use simple_someip.Protocol.MessageId.{
  MessageId, new_from_service_and_method, service_id, method_id, set_service_id, set_method_id,
  is_event, IsMessageId, parts-new, new-parts, set_service_id-parts, set_method_id-parts,
  is_event_iff,
}
use simple_someip.Protocol.MessageType.{MessageTypeField}
use simple_someip.Protocol.Header as Header
use simple_someip.Protocol.Header.{
  HeaderView, IsHeader, view_length, view_is_sd, view_interface_version, view_message_type,
  view_return_code, view_upper_header_bytes, upper_header_bytes, to_owned,
}
use simple_someip.Protocol.Header.Encode.{header_bytes}
use simple_someip.Protocol.Header.RoundTrip.{parse-header_bytes, header_bytes-parse}
use simple_someip.Protocol.Message as Message
use simple_someip.Protocol.Message.{MessageView}
use simple_someip.Protocol.Message.Encode as MessageEncode
use simple_someip.Protocol.Message.Encode.{encode-message_bytes, message_bytes}
use simple_someip.Protocol.Message.RoundTrip.{written_view, parse-written}
use simple_someip.Protocol.Message.Parse.{parse-panic_iff, parse-Accepted, Accepted}
use simple_someip.Payload.{raw, RawPayload}
use simple_someip.Tests.Data.{
  request_header, request_header-IsHeader, request_wire-IsBytes, short_header,
  short_header-IsHeader, short_wire-IsBytes,
}

abbrev event_id : MessageId
event_id = record { raw = 0x12348001 }

abbrev tp_field : MessageTypeField
tp_field = record { byte = 0x22 }

parse-header_bytes_example :
    (Header.parse (header_bytes request_header ++ (7 ∷ 8 ∷ 9 ∷ []))
      ≡ ok (written_view request_header, 7 ∷ 8 ∷ 9 ∷ []))
    × (to_owned (written_view request_header) ≡ ok request_header)
    × (view_upper_header_bytes (written_view request_header) ≡ upper_header_bytes request_header)
parse-header_bytes_example =
    parse-header_bytes request_header (7 ∷ 8 ∷ 9 ∷ []) request_header-IsHeader

header_bytes-parse_example :
    (h : Header.Header) × (to_owned (written_view request_header) ≡ ok h)
    × IsHeader h
    × (header_bytes h ++ (7 ∷ 8 ∷ 9 ∷ []) ≡ header_bytes request_header ++ (7 ∷ 8 ∷ 9 ∷ []))
header_bytes-parse_example =
    header_bytes-parse (header_bytes request_header ++ (7 ∷ 8 ∷ 9 ∷ [])) (7 ∷ 8 ∷ 9 ∷ [])
      (written_view request_header) request_wire-IsBytes
      (parse-header_bytes request_header (7 ∷ 8 ∷ 9 ∷ []) request_header-IsHeader).0

abbrev request : MessageEncode.Message RawPayload
request = record {
  header = request_header;
  payload = record { message_id = request_header.message_id; kind = raw (7 ∷ 8 ∷ 9 ∷ []) };
}

abbrev request_view : MessageView
request_view = record { header = written_view request_header; payload = 7 ∷ 8 ∷ 9 ∷ [] }

request_parsed : Message.parse (header_bytes request_header ++ (7 ∷ 8 ∷ 9 ∷ [])) ≡ ok request_view
unfolding Header.is_sd MessageId.is_sd header_bytes to_be32
request_parsed =
    parse-written request_header (7 ∷ 8 ∷ 9 ∷ []) [] request_header-IsHeader refl
      (λ e. absurd (ground arith))

parse-Accepted_example : Accepted (header_bytes request_header ++ (7 ∷ 8 ∷ 9 ∷ [])) request_view
parse-Accepted_example =
    parse-Accepted (header_bytes request_header ++ (7 ∷ 8 ∷ 9 ∷ [])) request_view
      request_wire-IsBytes request_parsed

parse-panic_iff_example : (Message.parse (header_bytes short_header ++ []) ≡ panic) ↔ (
    (v : HeaderView) × (rest : List ℕ) × (Header.parse (header_bytes short_header ++ [])
      ≡ ok (v, rest))
    × (view_length v < 8))
parse-panic_iff_example = parse-panic_iff (header_bytes short_header ++ []) short_wire-IsBytes

-- The panic of a length field of 7.
short_header_panics : Message.parse (header_bytes short_header ++ []) ≡ panic
unfolding view_length header_bytes to_be32 from_be32
short_header_panics = parse-panic_iff_example.1 (
  written_view short_header,
  [],
  (parse-header_bytes short_header [] short_header-IsHeader).0,
  omega arith,
)
