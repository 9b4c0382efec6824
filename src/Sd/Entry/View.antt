-- ===== src/Sd/Entry/View.antt =====
-- `EntryView` and `EntryIter` of src/protocol/sd/entry.rs.
use simple_someip.Prelude.{
  ℕ, zero, suc, ◌/◌, bit_and, List, [], ◌∷◌, length, take, drop, ltb, if◌then◌else◌, Option, none,
  some, Result, ok, ◌>>=◌,
}
use simple_someip.Bytes.{byte_at, from_be16, from_be32}
use simple_someip.Protocol.Error.{SdError}
use simple_someip.Sd.Entry.Count.{count_from}
use simple_someip.Sd.Entry.{
  Entry, ServiceEntry, EventGroupEntry, EntryType, find_service_entry, offer_service_entry,
  stop_offer_service_entry, subscribe_event_group, subscribe_ack_event_group, type_try_from,
  find_service, offer_service, stop_offer_service, subscribe, subscribe_ack,
}

abbrev pub entry_size : ℕ
entry_size = 16

-- The reference to the 16 bytes of one entry.
pub record EntryView : Type 0 where
  pub bytes : List ℕ

unfoldable pub entry_type : EntryView → Result SdError EntryType
entry_type v = type_try_from (byte_at v.bytes 0)

unfoldable pub ttl : EntryView → ℕ
ttl v = from_be32 0 (byte_at v.bytes 9) (byte_at v.bytes 10) (byte_at v.bytes 11)

unfoldable pub minor_version : EntryView → ℕ
minor_version v =
    from_be32 (byte_at v.bytes 12) (byte_at v.bytes 13) (byte_at v.bytes 14) (byte_at v.bytes 15)

-- Only the low four bits are the counter.
unfoldable pub counter : EntryView → ℕ
counter v = bit_and (from_be16 (byte_at v.bytes 12) (byte_at v.bytes 13)) 0x000f

unfoldable pub event_group_id : EntryView → ℕ
event_group_id v = from_be16 (byte_at v.bytes 14) (byte_at v.bytes 15)

unfoldable pub to_service_entry : EntryView → ServiceEntry
unfolding ttl minor_version
to_service_entry v = record {
  index_first_options_run = byte_at v.bytes 1;
  index_second_options_run = byte_at v.bytes 2;
  options_count = count_from (byte_at v.bytes 3);
  service_id = from_be16 (byte_at v.bytes 4) (byte_at v.bytes 5);
  instance_id = from_be16 (byte_at v.bytes 6) (byte_at v.bytes 7);
  major_version = byte_at v.bytes 8;
  ttl = ttl v;
  minor_version = minor_version v;
}

unfoldable pub to_event_group_entry : EntryView → EventGroupEntry
unfolding ttl counter event_group_id
to_event_group_entry v = record {
  index_first_options_run = byte_at v.bytes 1;
  index_second_options_run = byte_at v.bytes 2;
  options_count = count_from (byte_at v.bytes 3);
  service_id = from_be16 (byte_at v.bytes 4) (byte_at v.bytes 5);
  instance_id = from_be16 (byte_at v.bytes 6) (byte_at v.bytes 7);
  major_version = byte_at v.bytes 8;
  ttl = ttl v;
  counter = counter v;
  event_group_id = event_group_id v;
}

-- The match of `to_owned` on the entry's type.
unfoldable pub owned_as : EntryView → EntryType → Entry
owned_as v find_service = find_service_entry (to_service_entry v)
owned_as v offer_service = offer_service_entry (to_service_entry v)
owned_as v stop_offer_service = stop_offer_service_entry (to_service_entry v)
owned_as v subscribe = subscribe_event_group (to_event_group_entry v)
owned_as v subscribe_ack = subscribe_ack_event_group (to_event_group_entry v)

unfoldable pub to_owned : EntryView → Result SdError Entry
to_owned v = do t ← entry_type v; ok (owned_as v t)

-- One step of the iterator: the view and what remains. The length is checked before both slices.
unfoldable pub next : List ℕ → Option (EntryView × List ℕ)
next remaining =
    if ltb (length remaining) entry_size
    then none
    else some (record { bytes = take entry_size remaining }, drop entry_size remaining)

-- All views that the iterator yields, on fuel.
unfoldable pub views : ℕ → List ℕ → List EntryView
views zero remaining = []
views (suc fuel) remaining = elim (next remaining) [
  | none ↦ []
  | some (v, rest) ↦ v ∷ views fuel rest
]

-- Each step takes 16 bytes, so the length is fuel enough.
unfoldable pub iterate : List ℕ → List EntryView
iterate remaining = views (length remaining) remaining

unfoldable pub size_hint : List ℕ → ℕ
size_hint remaining = length remaining / entry_size
