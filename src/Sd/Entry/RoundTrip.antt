-- ===== src/Sd/Entry/RoundTrip.antt =====
-- Entries read back from what was written, one by one and as a whole array.
use simple_someip.Prelude.{
  ℕ, zero, suc, ◌*◌, ◌/◌, ◌≤◌, ◌≡◌, refl, sym, ap, List, [], ◌∷◌, ◌++◌, map, length, length-append,
  length-drop, drop, take-append_length, drop-append_length, le→ltb, Result, ok, arith, subst,
  >>=-eq-ok, bit_and, some,
}
use simple_someip.Bits.{bit_and_low}
use simple_someip.Bytes.{
  IsBytes, IsU8, IsU24, byte_at, to_be16, to_be24, to_be32, from_be16, from_be32,
}
use simple_someip.Bytes.Facts.{
  from_be16-to_be16, from_be32-to_be24, from_be32-to_be32, from_be16-lt, from_be32-lt, byte_at-IsU8,
}
use simple_someip.Protocol.Error.{SdError}
use simple_someip.Sd.Entry.Count.{count_from-count_to_u8, count_from-IsCount}
use simple_someip.Sd.Entry.{
  Entry, ServiceEntry, EventGroupEntry, EntryType, find_service_entry, offer_service_entry, IsEntry,
  IsServiceEntry, IsEventGroupEntry, stop_offer_service_entry, subscribe_event_group,
  subscribe_ack_event_group, entry_type_of, type_try_from-type_to_u8, find_service, offer_service,
  stop_offer_service, subscribe, subscribe_ack,
}
use simple_someip.Sd.Entry.Encode.{
  service_bytes, event_group_bytes, entry_bytes, length-entry_bytes,
}
use simple_someip.Sd.Entry.View.{
  EntryView, entry_type, to_service_entry, to_event_group_entry, owned_as, to_owned, next, views,
  iterate, size_hint,
}

abbrev pub view_of : Entry → EntryView
view_of e = record { bytes = entry_bytes e }

service-bytes :
    (t : ℕ) (e : ServiceEntry)
    → IsServiceEntry e
    → to_service_entry (record { bytes = t ∷ service_bytes e }) ≡ e
unfolding to_service_entry service_bytes to_be16 to_be24 to_be32
service-bytes t e v =
    rw
      (
        count_from-count_to_u8 e.options_count v.count,
        from_be16-to_be16 e.service_id v.service,
        from_be16-to_be16 e.instance_id v.instance_range,
        from_be32-to_be24 e.ttl v.ttl_range,
        from_be32-to_be32 e.minor_version v.minor,
      )
      refl

event_group-bytes :
    (t : ℕ) (e : EventGroupEntry)
    → IsEventGroupEntry e
    → to_event_group_entry (record { bytes = t ∷ event_group_bytes e }) ≡ e
unfolding to_event_group_entry event_group_bytes to_be16 to_be24 to_be32
event_group-bytes t e v =
    let small : bit_and e.counter 0x000f ≡ e.counter =
      omega (arith, bit_and_low 4 e.counter 15 refl, v.counter_range) in
    rw
      (
        count_from-count_to_u8 e.options_count v.count,
        from_be16-to_be16 e.service_id v.service,
        from_be16-to_be16 e.instance_id v.instance_range,
        from_be32-to_be24 e.ttl v.ttl_range,
        from_be16-to_be16 e.counter (omega arith),
        from_be16-to_be16 e.event_group_id v.group,
        small,
      )
      refl

type-bytes : (e : Entry) → entry_type (view_of e) ≡ ok (entry_type_of e)
unfolding entry_type entry_bytes
type-bytes e = type_try_from-type_to_u8 (entry_type_of e)

owned-bytes : (e : Entry) → IsEntry e → owned_as (view_of e) (entry_type_of e) ≡ e
unfolding owned_as entry_bytes
owned-bytes (find_service_entry e) v = ap find_service_entry (service-bytes _ e v)
owned-bytes (offer_service_entry e) v = ap offer_service_entry (service-bytes _ e v)
owned-bytes (stop_offer_service_entry e) v = ap stop_offer_service_entry (service-bytes _ e v)
owned-bytes (subscribe_event_group e) v = ap subscribe_event_group (event_group-bytes _ e v)
owned-bytes (subscribe_ack_event_group e) v = ap subscribe_ack_event_group (event_group-bytes _ e v)

-- An entry whose fields are in range, its counter below 16, is read back from its 16 bytes.
pub to_owned-entry_bytes :
    (e : Entry) → IsEntry e → to_owned (record { bytes = entry_bytes e }) ≡ ok e
unfolding to_owned
to_owned-entry_bytes e v = rw (type-bytes e, owned-bytes e v) refl

unfoldable pub entries_bytes : List Entry → List ℕ
entries_bytes [] = []
entries_bytes (e ∷ es) = entry_bytes e ++ entries_bytes es

pub length-entries_bytes : (es : List Entry) → length (entries_bytes es) ≡ 16 * length es
unfolding entries_bytes
length-entries_bytes [] = refl
length-entries_bytes (e ∷ es) = omega (
  arith,
  length-append (entry_bytes e) (entries_bytes es),
  length-entry_bytes e,
  length-entries_bytes es,
)

next-entry_bytes :
    (e : Entry) (rest : List ℕ) → next (entry_bytes e ++ rest) ≡ some (view_of e, rest)
unfolding next
next-entry_bytes e rest =
    rw
      (
        le→ltb (length (entry_bytes e ++ rest)) 16
            (omega (arith, length-append (entry_bytes e) rest, length-entry_bytes e)),
        take-append_length (entry_bytes e) rest 16 (sym (length-entry_bytes e)),
        drop-append_length (entry_bytes e) rest 16 (sym (length-entry_bytes e)),
      )
      refl

views-entries_bytes :
    (fuel : ℕ) (es : List Entry) → length es ≤ fuel → views fuel (entries_bytes es) ≡ map view_of es
unfolding views entries_bytes
views-entries_bytes zero [] h = refl
views-entries_bytes zero (e ∷ es) h = elim h [ ]
views-entries_bytes (suc fuel) [] h = unfold next in refl
views-entries_bytes (suc fuel) (e ∷ es) h =
    rw (next-entry_bytes e (entries_bytes es), views)
      (ap (◌∷◌ (view_of e)) (views-entries_bytes fuel es (omega arith)))

-- Iterating over a written array of entries yields the view of each entry, in order.
pub iterate-entries_bytes : (es : List Entry) → iterate (entries_bytes es) ≡ map view_of es
unfolding iterate
iterate-entries_bytes es =
    views-entries_bytes (length (entries_bytes es)) es (omega (arith, length-entries_bytes es))

views-length : (fuel : ℕ) (bs : List ℕ) → length bs ≤ fuel → length (views fuel bs) ≡ length bs / 16
unfolding views next
views-length zero bs h = omega arith
views-length (suc fuel) bs h = ground (arith, views-length fuel (drop 16 bs), length-drop 16 bs)

-- On any buffer the iterator yields exactly as many entries as `size_hint` says.
pub length-iterate : (bs : List ℕ) → length (iterate bs) ≡ size_hint bs
unfolding iterate size_hint
length-iterate bs = views-length (length bs) bs (omega arith)

ttl-lt : (a b c : ℕ) → IsU8 a → IsU8 b → IsU8 c → IsU24 (from_be32 0 a b c)
unfolding from_be32
ttl-lt a b c p q r = omega arith

service-IsServiceEntry : (v : EntryView) → IsBytes v.bytes → IsServiceEntry (to_service_entry v)
unfolding to_service_entry
service-IsServiceEntry v h =
    let byte = λ (i : ℕ). byte_at-IsU8 v.bytes i h in
    record {
      first_index = byte 1;
      second_index = byte 2;
      count = count_from-IsCount (byte_at v.bytes 3);
      service = from_be16-lt _ _ (byte 4) (byte 5);
      instance_range = from_be16-lt _ _ (byte 6) (byte 7);
      major = byte 8;
      ttl_range =
          ttl-lt (byte_at v.bytes 9) (byte_at v.bytes 10) (byte_at v.bytes 11) (byte 9) (byte 10)
            (byte 11);
      minor = from_be32-lt _ _ _ _ (byte 12) (byte 13) (byte 14) (byte 15);
    }

pub event_group-IsEventGroupEntry :
    (v : EntryView) → IsBytes v.bytes → IsEventGroupEntry (to_event_group_entry v)
unfolding to_event_group_entry
event_group-IsEventGroupEntry v h =
    let byte = λ (i : ℕ). byte_at-IsU8 v.bytes i h in
    record {
      first_index = byte 1;
      second_index = byte 2;
      count = count_from-IsCount (byte_at v.bytes 3);
      service = from_be16-lt _ _ (byte 4) (byte 5);
      instance_range = from_be16-lt _ _ (byte 6) (byte 7);
      major = byte 8;
      ttl_range =
          ttl-lt (byte_at v.bytes 9) (byte_at v.bytes 10) (byte_at v.bytes 11) (byte 9) (byte 10)
            (byte 11);
      counter_range =
          omega
            (arith, bit_and_low 4 (from_be16 (byte_at v.bytes 12) (byte_at v.bytes 13)) 15 refl);
      group = from_be16-lt _ _ (byte 14) (byte 15);
    }

owned_as-IsEntry : (v : EntryView) (t : EntryType) → IsBytes v.bytes → IsEntry (owned_as v t)
unfolding owned_as
owned_as-IsEntry v find_service h = service-IsServiceEntry v h
owned_as-IsEntry v offer_service h = service-IsServiceEntry v h
owned_as-IsEntry v stop_offer_service h = service-IsServiceEntry v h
owned_as-IsEntry v subscribe h = event_group-IsEventGroupEntry v h
owned_as-IsEntry v subscribe_ack h = event_group-IsEventGroupEntry v h

-- Every entry that is read from a view of bytes has its fields in range, and writing it and reading
-- it back gives the same entry.
pub to_owned-stable :
    (v : EntryView) (e : Entry)
    → IsBytes v.bytes
    → to_owned v ≡ ok e
    → IsEntry e × (to_owned (record { bytes = entry_bytes e }) ≡ ok e)
to_owned-stable v e h p = (range, to_owned-entry_bytes e range)
  where
    found :
        (t : EntryType) × (entry_type v ≡ ok t)
        × (◌≡◌ {A = Result SdError Entry} (ok (owned_as v t)) (ok e))
    found = unfold to_owned in >>=-eq-ok (entry_type v) _ p

    range : IsEntry e
    range = subst IsEntry (cc (found.2)) (owned_as-IsEntry v found.0 h)
