-- ===== src/Payload/Visit.antt =====
-- What the visitors of src/raw_payload.rs and src/heapless_payload.rs call their callback with, in
-- order, and the header of a subscription. Both files have the same loops over the entries.
use simple_someip.Prelude.{
  ℕ, Bool, true, false, List, [], ◌∷◌, Option, none, some, Result, ok, ◌>>=◌,
}
use simple_someip.Protocol.Error.{Error}
use simple_someip.Sd.Flags.{Flags, RebootFlag, new_sd}
use simple_someip.Sd.Entry.Count.{count_new}
use simple_someip.Sd.Entry.{
  Entry, ServiceEntry, EventGroupEntry, find_service_entry, offer_service_entry,
  stop_offer_service_entry, subscribe_event_group, subscribe_ack_event_group,
}
use simple_someip.Sd.Options.{Options, TransportProtocol, extract_ipv4_endpoint, endpoint_v4}
use simple_someip.Sd.Header as SdHeader
use simple_someip.NetEndpoint.{NetEndpoint, v4, new}
use simple_someip.Payload.{RawPayload, RawPayloadKind, sd_kind, raw}

pub record OfferedEndpoint : Type 0 where
  pub service_id : ℕ
  pub instance_id : ℕ
  pub major_version : ℕ
  pub minor_version : ℕ
  pub endpoint : Option NetEndpoint
  pub is_offer : Bool

-- `extract_ipv4_endpoint(&header.options).map(..)`.
abbrev pub endpoint_of : Option ((ℕ × ℕ) × TransportProtocol) → Option NetEndpoint
endpoint_of none = none
endpoint_of (some ((ip, port), protocol)) = some (new (v4 ip port) protocol)

unfoldable pub offered : List Options → ServiceEntry → Bool → OfferedEndpoint
offered options svc is_offer = record {
  service_id = svc.service_id;
  instance_id = svc.instance_id;
  major_version = svc.major_version;
  minor_version = svc.minor_version;
  endpoint = endpoint_of (extract_ipv4_endpoint options);
  is_offer = is_offer;
}

-- The loop over the entries: only offers and stop offers are visited.
unfoldable pub offered_by : List Options → List Entry → List OfferedEndpoint
offered_by options [] = []
offered_by options (find_service_entry svc ∷ es) = offered_by options es
offered_by options (offer_service_entry svc ∷ es) = offered options svc true ∷ offered_by options es
offered_by options (stop_offer_service_entry svc ∷ es) =
    offered options svc false ∷ offered_by options es
offered_by options (subscribe_event_group eg ∷ es) = offered_by options es
offered_by options (subscribe_ack_event_group eg ∷ es) = offered_by options es

unfoldable pub offered_in : RawPayloadKind → List OfferedEndpoint
offered_in (sd_kind h) = offered_by h.options h.entries
offered_in (raw bytes) = []

unfoldable pub for_each_offered_endpoint : RawPayload → List OfferedEndpoint
for_each_offered_endpoint p = offered_in p.kind

unfoldable pub instance_of : Entry → ℕ × ℕ
instance_of (find_service_entry svc) = (svc.service_id, svc.instance_id)
instance_of (offer_service_entry svc) = (svc.service_id, svc.instance_id)
instance_of (stop_offer_service_entry svc) = (svc.service_id, svc.instance_id)
instance_of (subscribe_event_group eg) = (eg.service_id, eg.instance_id)
instance_of (subscribe_ack_event_group eg) = (eg.service_id, eg.instance_id)

unfoldable pub instances_of : List Entry → List (ℕ × ℕ)
instances_of [] = []
instances_of (e ∷ es) = instance_of e ∷ instances_of es

unfoldable pub instances_in : RawPayloadKind → List (ℕ × ℕ)
instances_in (sd_kind h) = instances_of h.entries
instances_in (raw bytes) = []

unfoldable pub for_each_service_instance : RawPayload → List (ℕ × ℕ)
for_each_service_instance p = instances_in p.kind

flags_in : RawPayloadKind → Option Flags
flags_in (sd_kind h) = some h.flags
flags_in (raw bytes) = none

unfoldable pub sd_flags : RawPayload → Option Flags
unfolding flags_in
sd_flags p = flags_in p.kind

bytes_in : RawPayloadKind → Option (List ℕ)
bytes_in (sd_kind h) = none
bytes_in (raw bytes) = some bytes

unfoldable pub raw_bytes : RawPayload → Option (List ℕ)
unfolding bytes_in
raw_bytes p = bytes_in p.kind

-- `EventGroupEntry::new` of src/protocol/sd/entry.rs.
unfoldable pub event_group_entry : ℕ → ℕ → ℕ → ℕ → ℕ → Result Error EventGroupEntry
event_group_entry service_id instance_id major_version ttl event_group_id = do
  count ← count_new 1 0
  ok (record {
    index_first_options_run = 0;
    index_second_options_run = 0;
    options_count = count;
    service_id = service_id;
    instance_id = instance_id;
    major_version = major_version;
    ttl = ttl;
    counter = 0;
    event_group_id = event_group_id;
  })

unfoldable pub new_subscription_sd_header :
    ℕ → ℕ → ℕ → ℕ → ℕ → ℕ → TransportProtocol → ℕ → RebootFlag → Result Error SdHeader.Header
new_subscription_sd_header service_id instance_id major_version ttl event_group_id client_ip
      protocol client_port reboot_flag =
    do
      entry ← event_group_entry service_id instance_id major_version ttl event_group_id
      ok (record {
        flags = new_sd reboot_flag;
        entries = subscribe_event_group entry ∷ [];
        options = endpoint_v4 client_ip protocol client_port ∷ [];
      })
