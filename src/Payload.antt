-- ===== src/Payload.antt =====
-- src/raw_payload.rs: a payload that is a service discovery header or opaque bytes.
-- `VecSdHeader` has the fields of the service discovery header and is encoded as one.
pub mod RoundTrip
pub mod Format
pub mod Visit
use simple_someip.Prelude.{
  ℕ, List, [], ◌∷◌, length, ◌==◌, if◌then◌else◌, Option, none, some, Result, ok, map_err, ◌>>=◌,
  ◌>>◌,
}
use simple_someip.Bytes.Writer.{Writer, write_bytes}
use simple_someip.Protocol.Error.{Error, sd}
use simple_someip.Protocol.MessageId.{MessageId, sd_message_id}
use simple_someip.Sd.Flags.{Flags, RebootFlag, reboot_to_bool}
use simple_someip.Sd.Entry.{Entry}
use simple_someip.Sd.Entry.View as EntryView
use simple_someip.Sd.Options.{Options}
use simple_someip.Sd.Options.View as OptionView
use simple_someip.Sd.Header as SdHeader
use simple_someip.Sd.Header.Encode as SdEncode

pub data RawPayloadKind : Type 0 where
  sd_kind : SdHeader.Header → RawPayloadKind
  raw : List ℕ → RawPayloadKind

pub record RawPayload : Type 0 where
  pub message_id : MessageId
  pub kind : RawPayloadKind

-- A loop that pushes what each view owns, `ev.to_owned()?` or `ov.to_owned()?`.
unfoldable pub own_all {ℓ κ} :
    {V : Type ℓ} {A : Type κ} → (V → Result Error A) → List V → Result Error (List A)
own_all own [] = ok []
own_all own (v ∷ vs) = do a ← own v; owned ← own_all own vs; ok (a ∷ owned)

abbrev pub own_entry : EntryView.EntryView → Result Error Entry
own_entry v = map_err sd (EntryView.to_owned v)

abbrev pub own_option : OptionView.OptionView → Result Error Options
own_option v = map_err sd (OptionView.to_owned v)

unfoldable pub own_entries : List EntryView.EntryView → Result Error (List Entry)
own_entries vs = own_all own_entry vs

unfoldable pub own_options : List OptionView.OptionView → Result Error (List Options)
own_options vs = own_all own_option vs

unfoldable pub sd_payload : MessageId → List ℕ → Result Error RawPayload
sd_payload message_id payload = do
  view ← SdHeader.parse payload
  entries ← own_entries (EntryView.iterate view.entries_buf)
  options ← own_options (OptionView.iterate view.options_buf)
  ok (record {
    message_id = message_id;
    kind = sd_kind (record { flags = view.flags; entries = entries; options = options });
  })

unfoldable pub from_payload_bytes : MessageId → List ℕ → Result Error RawPayload
from_payload_bytes message_id payload =
    if message_id.raw == sd_message_id.raw
    then sd_payload message_id payload
    else ok (record { message_id = message_id; kind = raw payload })

unfoldable pub new_sd_payload : SdHeader.Header → RawPayload
new_sd_payload h = record { message_id = sd_message_id; kind = sd_kind h }

sd_header_of_kind : RawPayloadKind → Option SdHeader.Header
sd_header_of_kind (sd_kind h) = some h
sd_header_of_kind (raw bytes) = none

unfoldable pub as_sd_header : RawPayload → Option SdHeader.Header
unfolding sd_header_of_kind
as_sd_header p = sd_header_of_kind p.kind

unfoldable pub required_size_of : RawPayloadKind → ℕ
required_size_of (sd_kind h) = SdEncode.required_size h
required_size_of (raw bytes) = length bytes

unfoldable pub required_size : RawPayload → ℕ
required_size p = required_size_of p.kind

unfoldable pub set_reboot_flag : SdHeader.Header → RebootFlag → SdHeader.Header
set_reboot_flag h reboot = record h {
  flags = record { reboot = reboot_to_bool reboot; unicast = h.flags.unicast };
}

module _ (wr : Writer) where
  open wr use {W}

  unfoldable pub encode_kind : RawPayloadKind → W → Result Error (ℕ × W)
  encode_kind (sd_kind h) w = SdEncode.encode wr h w
  encode_kind (raw bytes) w = do w₁ ← write_bytes wr w bytes; ok (length bytes, w₁)

  unfoldable pub encode : RawPayload → W → Result Error (ℕ × W)
  encode p w = encode_kind p.kind w
