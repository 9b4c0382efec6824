-- ===== src/Payload/RoundTrip.antt =====
-- Payloads written and read back.
use simple_someip.Prelude.{ℕ, ◌≡◌, refl, List, [], ◌∷◌, ◌++◌, map, All, ok}
use simple_someip.Bytes.Writer.{Writer, Writes}
use simple_someip.Protocol.MessageId.{sd_message_id}
use simple_someip.Sd.Entry.{Entry, IsEntry}
use simple_someip.Sd.Entry.RoundTrip.{view_of, to_owned-entry_bytes}
use simple_someip.Sd.Options.{Options, IsOption}
use simple_someip.Sd.Options.RoundTrip.{option_view, to_owned-option_bytes}
use simple_someip.Sd.Header as SdHeader
use simple_someip.Sd.Header.Encode as SdEncode
use simple_someip.Sd.Header.Encode.{sd_bytes, IsSdHeader}
use simple_someip.Sd.Header.RoundTrip.{parse-sd_bytes}
use simple_someip.Payload.{
  RawPayloadKind, sd_kind, raw, own_entries, own_options, own_all, sd_payload, from_payload_bytes,
  new_sd_payload, encode_kind,
}

pub own_entries-views : (es : List Entry) → All IsEntry es → own_entries (map view_of es) ≡ ok es
unfolding own_entries own_all
own_entries-views [] v = refl
own_entries-views (e ∷ es) v = rw (to_owned-entry_bytes e v.0, own_entries-views es v.1) refl

pub own_options-views :
    (os : List Options) → All IsOption os → own_options (map option_view os) ≡ ok os
unfolding own_options own_all
own_options-views [] v = refl
own_options-views (o ∷ os) v = rw (to_owned-option_bytes o v.0, own_options-views os v.1) refl

-- The wire format of a payload.
abbrev pub kind_bytes : RawPayloadKind → List ℕ
kind_bytes (sd_kind h) = sd_bytes h
kind_bytes (raw bytes) = bytes

abbrev pub IsKind : RawPayloadKind → Type 0
IsKind (sd_kind h) = IsSdHeader h
IsKind (raw bytes) = Unit {0}

module _ (wr : Writer) where
  -- Every payload in range is written as its wire format.
  pub encode_kind-Writes :
      (k : RawPayloadKind) → IsKind k → Writes wr (encode_kind wr k) (kind_bytes k)
  unfolding encode_kind
  encode_kind-Writes (sd_kind h) v w = SdEncode.encode-sd_bytes wr h v w
  encode_kind-Writes (raw bytes) v w = refl

-- A service discovery payload in range, with anything behind it, is read back as the same header.
pub from_payload_bytes-sd_bytes :
    (h : SdHeader.Header) (rest : List ℕ)
    → IsSdHeader h
    → from_payload_bytes sd_message_id (sd_bytes h ++ rest) ≡ ok (new_sd_payload h)
unfolding from_payload_bytes sd_payload new_sd_payload
from_payload_bytes-sd_bytes h rest v =
    let (view, parsed, flags, entries, options) = parse-sd_bytes h rest v in
    rw
      (
        parsed,
        flags,
        entries,
        options,
        own_entries-views h.entries v.entries_range,
        own_options-views h.options v.options_range,
      )
      refl
