-- ===== src/Payload/Format.antt =====
-- `RawPayload` as a payload format, and the way of a service discovery message from the sender's
-- header to the receiver's.
use simple_someip.Prelude.{
  ℕ, ◌+◌, ◌≤◌, ◌≡◌, refl, sym, ap, ◌∙◌, arith, List, [], ◌++◌, length, Bool, true, leb, some,
  append-nil, ok,
}
use simple_someip.Bytes.{IsU32}
use simple_someip.Bytes.Writer.{Writer, Writes}
use simple_someip.Protocol.MessageId.{sd_message_id}
use simple_someip.Protocol.MessageId as MessageId
use simple_someip.Protocol.Header.Encode.{header_bytes}
use simple_someip.Protocol.MessageType.{new_sd, message_type-new, notification}
use simple_someip.Protocol.ReturnCode.{okay}
use simple_someip.Protocol.Header as Header
use simple_someip.Protocol.Header.{
  IsHeader, view_message_id, view_request_id, view_is_sd, max_payload,
}
use simple_someip.Protocol.Message.{MessageView, parse, is_sd}
use simple_someip.Protocol.Message.Encode as Message
use simple_someip.Protocol.Message.Encode.{message_bytes}
use simple_someip.Protocol.Message.RoundTrip.{
  IsSdMessage, parse-written, written_view, written_view-fields,
}
use simple_someip.Sd.Header as SdHeader
use simple_someip.Sd.Header.Encode as SdEncode
use simple_someip.Sd.Header.Encode.{sd_bytes, IsSdHeader, length-sd_bytes}
use simple_someip.Traits.{PayloadWireFormat}
use simple_someip.Payload.{
  RawPayload, as_sd_header, from_payload_bytes, new_sd_payload, required_size, required_size_of,
  encode, sd_kind, raw, RawPayloadKind,
}
use simple_someip.Payload.RoundTrip.{
  kind_bytes, IsKind, encode_kind-Writes, from_payload_bytes-sd_bytes,
}

required_size_of-length :
    (k : RawPayloadKind) → IsKind k → required_size_of k ≡ length (kind_bytes k)
unfolding required_size_of
required_size_of-length (sd_kind h) v = sym (length-sd_bytes h v)
required_size_of-length (raw bytes) v = refl

pub required_size-length :
    (p : RawPayload) → IsKind p.kind → required_size p ≡ length (kind_bytes p.kind)
unfolding required_size
required_size-length p = required_size_of-length p.kind

pub encode-Writes :
    (wr : Writer) (p : RawPayload) → IsKind p.kind → Writes wr (encode wr p) (kind_bytes p.kind)
unfolding encode
encode-Writes wr p = encode_kind-Writes wr p.kind

abbrev pub raw_format : (wr : Writer) → PayloadWireFormat wr
raw_format wr = record {
  P = RawPayload;
  SdHeader = SdHeader.Header;
  message_id = λ p. p.message_id;
  as_sd_header = as_sd_header;
  from_payload_bytes = from_payload_bytes;
  new_sd_payload = new_sd_payload;
  sd_required_size = SdEncode.required_size;
  required_size = required_size;
  encode = encode wr;
  payload_bytes = λ p. kind_bytes p.kind;
  InRange = λ p. IsKind p.kind;
  required_size-length = required_size-length;
  encode-Writes = encode-Writes wr;
}

-- The header that `Message::new_sd` makes.
unfoldable pub sd_header_of : ℕ → SdHeader.Header → Header.Header
sd_header_of r h = record {
  message_id = sd_message_id;
  length_field = 8 + SdEncode.required_size h;
  request_id = r;
  protocol_version = 0x01;
  interface_version = 0x01;
  message_type = new_sd;
  return_code = okay;
}

module _ (r : ℕ) (h : SdHeader.Header) (range : IsU32 r) (v : IsSdHeader h)
    (fits : SdEncode.required_size h ≤ max_payload) where
  pub sd_header_of-IsHeader : IsHeader (sd_header_of r h)
  unfolding sd_header_of new_sd
  sd_header_of-IsHeader =
      let (kind, tp, valid, byte) = message_type-new notification Bool.false in
      record {
        id_range = omega arith;
        length_range = omega arith;
        request_range = range;
        version = refl;
        interface_range = omega arith;
        type_valid = valid;
        type_range = byte;
        code_valid = tt;
      }

  sd_header_of-IsSdMessage : IsSdMessage (sd_header_of r h) (length (sd_bytes h))
  unfolding sd_header_of new_sd SdEncode.required_size
  sd_header_of-IsSdMessage = record {
    long = omega (arith, length-sd_bytes h v);
    version = refl;
    kind = (message_type-new notification Bool.false).0;
    code = refl;
  }

  module _ (wr : Writer) where
    new_sd-eq :
        Message.new_sd wr (raw_format wr) r h
        ≡ ok (record { header = sd_header_of r h; payload = new_sd_payload h })
    unfolding Message.new_sd Header.new_sd sd_header_of
    new_sd-eq = rw fit refl
      where
        fit : leb (SdEncode.required_size h) max_payload ≡ true
        fit = ground (arith, fits)

    sd_header-new :
        Message.sd_header wr
          (raw_format wr)
          (record { header = sd_header_of r h; payload = new_sd_payload h })
        ≡ some h
    unfolding Message.sd_header sd_header_of new_sd as_sd_header new_sd_payload MessageId.is_sd
    sd_header-new = rw ((message_type-new notification Bool.false).1) refl

  pub parse-new_sd :
      (rest : List ℕ)
      → parse ((header_bytes (sd_header_of r h) ++ sd_bytes h) ++ rest)
        ≡ ok (record { header = written_view (sd_header_of r h); payload = sd_bytes h })
  parse-new_sd rest =
      parse-written (sd_header_of r h) (sd_bytes h) rest sd_header_of-IsHeader size
        (λ _. sd_header_of-IsSdMessage)
    where
      size : (sd_header_of r h).length_field ≡ 8 + length (sd_bytes h)
      size = unfold sd_header_of in ap (λ (n : ℕ). 8 + n) (sym (length-sd_bytes h v))

-- What a receiver makes of the message that `Message::new_sd` builds from a request id and a header.
abbrev pub Received : Writer → ℕ → SdHeader.Header → List ℕ → Type 0
Received wr r h rest =
    (m : Message.Message RawPayload) × (Message.new_sd wr (raw_format wr) r h ≡ ok m)
    × (Message.sd_header wr (raw_format wr) m ≡ some h)
    × ((view : MessageView) × (parse (message_bytes wr (raw_format wr) m ++ rest) ≡ ok view)
        × (is_sd view ≡ true)
        × (view_request_id view.header ≡ r)
        × (from_payload_bytes (view_message_id view.header) view.payload ≡ ok m.payload))

-- A service discovery header in range whose size fits the length field makes a message that has
-- this header, and whose bytes, whatever follows them, are parsed as a service discovery message
-- with the same request id; its payload is read as the payload that was sent.
pub sd_message-Received :
    (wr : Writer) (r : ℕ) (h : SdHeader.Header) (rest : List ℕ)
    → IsU32 r
    → IsSdHeader h
    → SdEncode.required_size h ≤ max_payload
    → Received wr r h rest
unfolding message_bytes is_sd view_is_sd new_sd_payload sd_header_of MessageId.is_sd
sd_message-Received wr r h rest range v fits =
    let (id, _, request, _, _, _) =
      written_view-fields (sd_header_of r h) (sd_header_of-IsHeader r h range v fits) in
    (
      _,
      new_sd-eq r h range v fits wr,
      sd_header-new r h range v fits wr,
      (
        _,
        parse-new_sd r h range v fits rest,
        rw id refl,
        request,
        rw id (
            ap (λ (bs : List ℕ). from_payload_bytes sd_message_id bs)
              (sym (append-nil (sd_bytes h)))
            ∙ from_payload_bytes-sd_bytes h [] v),
      ),
    )
