-- ===== src/Traits.antt =====
-- The trait `PayloadWireFormat` of src/traits.rs as an interface, with the wire format that an
-- implementation has as a law.
use simple_someip.Prelude.{ℕ, ◌≡◌, List, length, Option, Result}
use simple_someip.Bytes.Writer.{Writer, Writes}
use simple_someip.Protocol.Error.{Error}
use simple_someip.Protocol.MessageId.{MessageId}

pub record PayloadWireFormat (wr : Writer) : Type 1 where
  pub P : Type 0
  pub SdHeader : Type 0
  pub message_id : P → MessageId
  pub as_sd_header : P → Option SdHeader
  pub from_payload_bytes : MessageId → List ℕ → Result Error P
  pub new_sd_payload : SdHeader → P
  pub sd_required_size : SdHeader → ℕ
  pub required_size : P → ℕ
  pub encode : P → wr.W → Result Error (ℕ × wr.W)
  -- The bytes of a payload whose fields are in range.
  pub payload_bytes : P → List ℕ
  pub InRange : P → Type 0
  pub required_size-length : (p : P) → InRange p → required_size p ≡ length (payload_bytes p)
  pub encode-Writes : (p : P) → InRange p → Writes wr (encode p) (payload_bytes p)
