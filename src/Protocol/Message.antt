-- ===== src/Protocol/Message.antt =====
-- `MessageView` of src/protocol/message.rs: a header and the payload that its length declares.
pub mod Parse
pub mod Encode
pub mod RoundTrip
use simple_someip.Prelude.{
  ℕ, Bool, true, false, not, List, length, ◌==◌, ltb, if◌then◌else◌, Result, ok, err, ◌>>=◌, ◌>>◌,
  fail_if,
}
use simple_someip.Bytes.{slice}
use simple_someip.Protocol.Error.{
  Error, sd, unexpected_eof, invalid_message, too_short, interface_version_mismatch,
  message_type_mismatch, return_code_mismatch, not_sd,
}
use simple_someip.Protocol.MessageType.{MessageType, notification, message_type}
use simple_someip.Protocol.ReturnCode.{ReturnCode, okay}
use simple_someip.Protocol.Header as Header
use simple_someip.Protocol.Header.{
  HeaderView, view_payload_size, view_is_sd, view_interface_version, view_message_type,
  view_return_code,
}
use simple_someip.Sd.Header as SdHeader

pub record MessageView : Type 0 where
  pub header : HeaderView
  pub payload : List ℕ

abbrev pub is_notification : MessageType → Bool
is_notification notification = true
is_notification _ = false

abbrev pub is_okay : ReturnCode → Bool
is_okay okay = true
is_okay _ = false

-- The body of `if header.is_sd()`.
unfoldable pub check_sd : HeaderView → ℕ → Result Error (Unit {0})
check_sd header payload_size = do
  fail_if (ltb payload_size 12) (sd (invalid_message too_short))
  fail_if (not (view_interface_version header == 0x01))
      (sd (invalid_message interface_version_mismatch))
  field ← view_message_type header
  t ← message_type field
  fail_if (not (is_notification t)) (sd (invalid_message message_type_mismatch))
  c ← view_return_code header
  fail_if (not (is_okay c)) (sd (invalid_message return_code_mismatch))

unfoldable pub parse : List ℕ → Result Error MessageView
parse buf = do
  (header, remaining) ← Header.parse buf
  payload_size ← view_payload_size header
  fail_if (ltb (length remaining) payload_size) unexpected_eof
  if view_is_sd header then check_sd header payload_size else ok tt
  payload ← slice remaining 0 payload_size
  ok (record { header = header; payload = payload })

unfoldable pub is_sd : MessageView → Bool
is_sd m = view_is_sd m.header

unfoldable pub sd_header : MessageView → Result Error SdHeader.SdHeaderView
sd_header m = do
  fail_if (not (view_is_sd m.header)) (sd (invalid_message not_sd))
  SdHeader.parse m.payload
