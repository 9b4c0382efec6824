-- ===== src/Protocol/Header.antt =====
-- src/protocol/header.rs: the 16-byte SOME/IP header, its encoder and its zero-copy view.
pub mod Encode
pub mod RoundTrip
use simple_someip.Prelude.{
  ℕ, ◌+◌, ◌-◌, ◌^◌, ◌<◌, ◌≤◌, ◌≡◌, Bool, true, false, not, List, [], ◌∷◌, ◌++◌, length, ◌==◌, ltb,
  leb, Result, ok, err, panic, ◌>>=◌, ◌>>◌, fail_if, assert, expect,
}
use simple_someip.Bytes.{IsU8, IsU32, to_be32, from_be32, byte_at, slice, slice_from}
use simple_someip.Protocol.Error.{Error, unexpected_eof, invalid_protocol_version}
use simple_someip.Protocol.MessageId.{
  MessageId, sd_message_id, IsMessageId, new_from_service_and_method, is_sd as id_is_sd,
}
use simple_someip.Protocol.MessageType.{
  MessageTypeField, notification, new as new_type, new_sd as new_sd_type, field_try_from,
}
use simple_someip.Protocol.ReturnCode.{ReturnCode, okay, as_u8, try_from, IsCode}

pub record Header : Type 0 where
  pub message_id : MessageId
  pub length_field : ℕ
  pub request_id : ℕ
  pub protocol_version : ℕ
  pub interface_version : ℕ
  pub message_type : MessageTypeField
  pub return_code : ReturnCode

-- `u32::MAX as usize - 8`.
abbrev pub max_payload : ℕ
max_payload = 4294967295 - 8

unfoldable pub new : MessageId → ℕ → ℕ → ℕ → MessageTypeField → ReturnCode → ℕ → Result Error Header
new message_id request_id protocol_version interface_version message_type return_code payload_len =
    do
      assert (leb payload_len max_payload)
      ok (record {
        message_id = message_id;
        length_field = 8 + payload_len;
        request_id = request_id;
        protocol_version = protocol_version;
        interface_version = interface_version;
        message_type = message_type;
        return_code = return_code;
      })

unfoldable pub new_sd : ℕ → ℕ → Result Error Header
new_sd request_id sd_header_size = do
  assert (leb sd_header_size max_payload)
  ok (record {
    message_id = sd_message_id;
    length_field = 8 + sd_header_size;
    request_id = request_id;
    protocol_version = 0x01;
    interface_version = 0x01;
    message_type = new_sd_type;
    return_code = okay;
  })

unfoldable pub new_event : ℕ → ℕ → ℕ → ℕ → ℕ → ℕ → Result Error Header
new_event service_id event_id request_id protocol_version interface_version payload_len = do
  assert (leb payload_len max_payload)
  ok (record {
    message_id = new_from_service_and_method service_id event_id;
    length_field = 8 + payload_len;
    request_id = request_id;
    protocol_version = protocol_version;
    interface_version = interface_version;
    message_type = new_type notification false;
    return_code = okay;
  })

-- `self.length as usize - 8`, with the overflow check of a debug build.
unfoldable pub payload_size_of : ℕ → Result Error ℕ
payload_size_of n = do assert (leb 8 n); ok (n - 8)

unfoldable pub payload_size : Header → Result Error ℕ
unfolding payload_size_of
payload_size h = payload_size_of h.length_field

unfoldable pub is_sd : Header → Bool
is_sd h = id_is_sd h.message_id

unfoldable pub set_request_id : Header → ℕ → Header
set_request_id h r = record h { request_id = r }

unfoldable pub upper_header_bytes : Header → List ℕ
upper_header_bytes h =
    to_be32 h.request_id
    ++ (h.protocol_version ∷ h.interface_version ∷ h.message_type.byte ∷ as_u8 h.return_code ∷ [])

-- The reference to the 16 bytes.
pub record HeaderView : Type 0 where
  pub bytes : List ℕ

unfoldable pub view_message_id : HeaderView → MessageId
view_message_id v = record {
  raw = from_be32 (byte_at v.bytes 0) (byte_at v.bytes 1) (byte_at v.bytes 2) (byte_at v.bytes 3);
}

unfoldable pub view_length : HeaderView → ℕ
view_length v =
    from_be32 (byte_at v.bytes 4) (byte_at v.bytes 5) (byte_at v.bytes 6) (byte_at v.bytes 7)

unfoldable pub view_request_id : HeaderView → ℕ
view_request_id v =
    from_be32 (byte_at v.bytes 8) (byte_at v.bytes 9) (byte_at v.bytes 10) (byte_at v.bytes 11)

unfoldable pub view_payload_size : HeaderView → Result Error ℕ
unfolding payload_size_of
view_payload_size v = payload_size_of (view_length v)

unfoldable pub view_upper_header_bytes : HeaderView → List ℕ
view_upper_header_bytes v =
    byte_at v.bytes 8
    ∷ byte_at v.bytes 9
    ∷ byte_at v.bytes 10
    ∷ byte_at v.bytes 11
    ∷ byte_at v.bytes 12
    ∷ byte_at v.bytes 13
    ∷ byte_at v.bytes 14
    ∷ byte_at v.bytes 15
    ∷ []

abbrev pub view_protocol_version : HeaderView → ℕ
view_protocol_version v = byte_at v.bytes 12

abbrev pub view_interface_version : HeaderView → ℕ
view_interface_version v = byte_at v.bytes 13

unfoldable pub view_message_type : HeaderView → Result Error MessageTypeField
view_message_type v = expect (field_try_from (byte_at v.bytes 14))

unfoldable pub view_return_code : HeaderView → Result Error ReturnCode
view_return_code v = expect (try_from (byte_at v.bytes 15))

unfoldable pub view_is_sd : HeaderView → Bool
view_is_sd v = id_is_sd (view_message_id v)

unfoldable pub parse : List ℕ → Result Error (HeaderView × List ℕ)
parse buf = do
  fail_if (ltb (length buf) 16) unexpected_eof
  header_bytes ← slice buf 0 16
  let view : HeaderView = record { bytes = header_bytes }
  let pv = view_protocol_version view
  fail_if (not (pv == 0x01)) (invalid_protocol_version pv)
  field_try_from (byte_at header_bytes 14)
  try_from (byte_at header_bytes 15)
  rest ← slice_from buf 16
  ok (view, rest)

unfoldable pub to_owned : HeaderView → Result Error Header
to_owned v = do
  message_type ← view_message_type v
  return_code ← view_return_code v
  ok (record {
    message_id = view_message_id v;
    length_field = view_length v;
    request_id = view_request_id v;
    protocol_version = view_protocol_version v;
    interface_version = view_interface_version v;
    message_type = message_type;
    return_code = return_code;
  })

-- The ranges of the fields of a header that the parser accepts.
pub record IsHeader (h : Header) : Type 0 where
  pub id_range : IsMessageId h.message_id
  pub length_range : IsU32 h.length_field
  pub request_range : IsU32 h.request_id
  pub version : h.protocol_version ≡ 0x01
  pub interface_range : IsU8 h.interface_version
  pub type_valid : field_try_from h.message_type.byte ≡ ok h.message_type
  pub type_range : IsU8 h.message_type.byte
  pub code_valid : IsCode h.return_code
