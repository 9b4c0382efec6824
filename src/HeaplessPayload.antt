-- ===== src/HeaplessPayload.antt =====
-- src/heapless_payload.rs: the payload of src/raw_payload.rs over vectors of fixed capacity.
-- A `heapless::Vec` is the list of its elements; `push` and `extend_from_slice` refuse what is
-- beyond the capacity. The number of the error kind `OutOfMemory` is a parameter.
pub mod Agree
use simple_someip.Prelude.{
  ℕ, ◌+◌, List, [], ◌∷◌, ◌++◌, length, ltb, ◌==◌, if◌then◌else◌, Option, none, some, Result, ok,
  err, ◌>>=◌,
}
use simple_someip.Bytes.Writer.{Writer, write_bytes}
use simple_someip.Protocol.Error.{Error, io}
use simple_someip.Protocol.MessageId.{MessageId, sd_message_id}
use simple_someip.Sd.Flags.{Flags, RebootFlag, reboot_to_bool, new_sd}
use simple_someip.Sd.Entry.{Entry, subscribe_event_group}
use simple_someip.Sd.Entry.View as EntryView
use simple_someip.Sd.Options.{Options, TransportProtocol, endpoint_v4}
use simple_someip.Sd.Options.View as OptionView
use simple_someip.Sd.Header as SdHeader
use simple_someip.Sd.Header.Encode as SdEncode
use simple_someip.Payload.{own_entry, own_option}
use simple_someip.Payload.Visit.{OfferedEndpoint, offered_by, instances_of, event_group_entry}

abbrev pub entry_cap : ℕ
entry_cap = 8

abbrev pub opt_cap : ℕ
opt_cap = 8

abbrev pub payload_cap : ℕ
payload_cap = 256

pub record HeaplessSdHeader : Type 0 where
  pub flags : Flags
  pub entries : List Entry
  pub options : List Options

-- `sd::Header::new(self.flags, &self.entries, &self.options)`.
abbrev pub sd_header_of : HeaplessSdHeader → SdHeader.Header
sd_header_of h = record { flags = h.flags; entries = h.entries; options = h.options }

pub data HeaplessPayloadKind : Type 0 where
  sd_kind : HeaplessSdHeader → HeaplessPayloadKind
  raw : List ℕ → HeaplessPayloadKind

pub record HeaplessPayload : Type 0 where
  pub message_id : MessageId
  pub kind : HeaplessPayloadKind

unfoldable pub push {ℓ} : {A : Type ℓ} → ℕ → ℕ → List A → A → Result Error (List A)
push out_of_memory cap vec x =
    if ltb (length vec) cap then ok (vec ++ (x ∷ [])) else err (io out_of_memory)

unfoldable pub extend_from_slice : ℕ → ℕ → List ℕ → List ℕ → Result Error (List ℕ)
extend_from_slice out_of_memory cap vec bs =
    if ltb cap (length vec + length bs) then err (io out_of_memory) else ok (vec ++ bs)

-- The two loops: what a view owns is pushed behind what is there.
unfoldable pub push_all {ℓ κ} :
    {V : Type ℓ} {A : Type κ}
    → ℕ
    → ℕ
    → (V → Result Error A)
    → List A
    → List V
    → Result Error (List A)
push_all out_of_memory cap own vec [] = ok vec
push_all out_of_memory cap own vec (v ∷ vs) = do
  a ← own v
  longer ← push out_of_memory cap vec a
  push_all out_of_memory cap own longer vs

unfoldable pub sd_payload : ℕ → MessageId → List ℕ → Result Error HeaplessPayload
sd_payload out_of_memory message_id payload = do
  view ← SdHeader.parse payload
  entries ← push_all out_of_memory entry_cap own_entry [] (EntryView.iterate view.entries_buf)
  options ← push_all out_of_memory opt_cap own_option [] (OptionView.iterate view.options_buf)
  ok (record {
    message_id = message_id;
    kind = sd_kind (record { flags = view.flags; entries = entries; options = options });
  })

unfoldable pub raw_payload : ℕ → MessageId → List ℕ → Result Error HeaplessPayload
raw_payload out_of_memory message_id payload = do
  bytes ← extend_from_slice out_of_memory payload_cap [] payload
  ok (record { message_id = message_id; kind = raw bytes })

unfoldable pub from_payload_bytes : ℕ → MessageId → List ℕ → Result Error HeaplessPayload
from_payload_bytes out_of_memory message_id payload =
    if message_id.raw == sd_message_id.raw
    then sd_payload out_of_memory message_id payload
    else raw_payload out_of_memory message_id payload

unfoldable pub new_sd_payload : HeaplessSdHeader → HeaplessPayload
new_sd_payload h = record { message_id = sd_message_id; kind = sd_kind h }

header_in : HeaplessPayloadKind → Option HeaplessSdHeader
header_in (sd_kind h) = some h
header_in (raw bytes) = none

unfoldable pub as_sd_header : HeaplessPayload → Option HeaplessSdHeader
unfolding header_in
as_sd_header p = header_in p.kind

flags_in : HeaplessPayloadKind → Option Flags
flags_in (sd_kind h) = some h.flags
flags_in (raw bytes) = none

unfoldable pub sd_flags : HeaplessPayload → Option Flags
unfolding flags_in
sd_flags p = flags_in p.kind

bytes_in : HeaplessPayloadKind → Option (List ℕ)
bytes_in (sd_kind h) = none
bytes_in (raw bytes) = some bytes

unfoldable pub raw_bytes : HeaplessPayload → Option (List ℕ)
unfolding bytes_in
raw_bytes p = bytes_in p.kind

unfoldable pub required_size_of : HeaplessPayloadKind → ℕ
required_size_of (sd_kind h) = SdEncode.required_size (sd_header_of h)
required_size_of (raw bytes) = length bytes

unfoldable pub required_size : HeaplessPayload → ℕ
required_size p = required_size_of p.kind

module _ (wr : Writer) where
  open wr use {W}

  unfoldable pub encode_kind : HeaplessPayloadKind → W → Result Error (ℕ × W)
  encode_kind (sd_kind h) w = SdEncode.encode wr (sd_header_of h) w
  encode_kind (raw bytes) w = do w₁ ← write_bytes wr w bytes; ok (length bytes, w₁)

  unfoldable pub encode : HeaplessPayload → W → Result Error (ℕ × W)
  encode p w = encode_kind p.kind w

-- Both pushes go into an empty vector, and their results are dropped.
unfoldable pub new_subscription_sd_header :
    ℕ → ℕ → ℕ → ℕ → ℕ → ℕ → TransportProtocol → ℕ → RebootFlag → Result Error HeaplessSdHeader
new_subscription_sd_header service_id instance_id major_version ttl event_group_id client_ip
      protocol client_port reboot_flag =
    do
      entry ← event_group_entry service_id instance_id major_version ttl event_group_id
      ok (record {
        flags = new_sd reboot_flag;
        entries = subscribe_event_group entry ∷ [];
        options = endpoint_v4 client_ip protocol client_port ∷ [];
      })

unfoldable pub set_reboot_flag : HeaplessSdHeader → RebootFlag → HeaplessSdHeader
set_reboot_flag h reboot = record h {
  flags = record { reboot = reboot_to_bool reboot; unicast = h.flags.unicast };
}

offered_in : HeaplessPayloadKind → List OfferedEndpoint
offered_in (sd_kind h) = offered_by h.options h.entries
offered_in (raw bytes) = []

unfoldable pub for_each_offered_endpoint : HeaplessPayload → List OfferedEndpoint
unfolding offered_in
for_each_offered_endpoint p = offered_in p.kind

instances_in : HeaplessPayloadKind → List (ℕ × ℕ)
instances_in (sd_kind h) = instances_of h.entries
instances_in (raw bytes) = []

unfoldable pub for_each_service_instance : HeaplessPayload → List (ℕ × ℕ)
unfolding instances_in
for_each_service_instance p = instances_in p.kind
