-- ===== src/Protocol/Message/Encode.antt =====
-- `Message` of src/protocol/message.rs, over any payload format, and its encoder.
use simple_someip.Prelude.{
  ℕ, ◌+◌, ◌≡◌, arith, List, ◌++◌, length, length-append, not, ◌||◌, if◌then◌else◌, Option, none,
  Result, ok, ◌>>=◌, >>=-assoc,
}
use simple_someip.Bytes.Writer.{Writer, write_bytes-append, Writes}
use simple_someip.Protocol.Error.{Error}
use simple_someip.Protocol.MessageId as MessageId
use simple_someip.Protocol.MessageType.{is_tp}
use simple_someip.Protocol.Header as Header
use simple_someip.Protocol.Header.Encode as HeaderEncode
use simple_someip.Protocol.Header.Encode.{header_bytes, length-header_bytes}
use simple_someip.Traits.{PayloadWireFormat}

pub record Message (P : Type 0) : Type 0 where
  pub header : Header.Header
  pub payload : P

module _ (wr : Writer) (format : PayloadWireFormat wr) where
  open wr use {W}
  open format use {
    P, SdHeader, as_sd_header, new_sd_payload, sd_required_size, payload_bytes, InRange,
  }

  unfoldable pub new_sd : ℕ → SdHeader → Result Error (Message P)
  new_sd request_id sd_header = do
    let sd_header_size = sd_required_size sd_header
    header ← Header.new_sd request_id sd_header_size
    ok (record { header = header; payload = new_sd_payload sd_header })

  unfoldable pub sd_header : Message P → Option SdHeader
  sd_header m =
      if not (MessageId.is_sd m.header.message_id) || is_tp m.header.message_type
      then none
      else as_sd_header m.payload

  unfoldable pub required_size : Message P → ℕ
  required_size m = HeaderEncode.required_size m.header + format.required_size m.payload

  unfoldable pub encode : Message P → W → Result Error (ℕ × W)
  encode m w = do
    (n, w₁) ← HeaderEncode.encode wr m.header w
    (k, w₂) ← format.encode m.payload w₁
    ok (n + k, w₂)

  -- The wire format.
  unfoldable pub message_bytes : Message P → List ℕ
  message_bytes m = header_bytes m.header ++ payload_bytes m.payload

  -- A message is written as its header and its payload in one run of bytes, and the count returned
  -- is their number, which is `required_size`, when the payload is in range.
  pub encode-message_bytes :
      (m : Message P)
      → InRange m.payload
      → Writes wr (encode m) (message_bytes m) × (required_size m ≡ length (message_bytes m))
  unfolding encode message_bytes required_size
  encode-message_bytes m v = (
    λ w. simp (
      HeaderEncode.encode-header_bytes wr m.header,
      format.encode-Writes m.payload v,
      write_bytes-append,
      >>=-assoc,
      length-append,
    ),
    omega (
      arith,
      length-append (header_bytes m.header) (payload_bytes m.payload),
      length-header_bytes m.header,
      format.required_size-length m.payload v,
    ),
  )
