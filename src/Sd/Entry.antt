-- ===== src/Sd/Entry.antt =====
-- src/protocol/sd/entry.rs: the 16-byte entries, their encoder, view and iterator.
pub mod Count
pub mod Encode
pub mod View
pub mod RoundTrip
use simple_someip.Prelude.{
  ℕ, ◌+◌, ◌<◌, ◌≡◌, ◌≢◌, refl, arith, ◌==◌, if◌then◌else◌, Result, ok, err, panic, ◌>>=◌, ◌>>◌,
}
use simple_someip.Bytes.{IsU8, IsU16, IsU24, IsU32}
use simple_someip.Protocol.Error.{SdError, invalid_entry_type}
use Count.{OptionsCount, IsCount}

pub data EntryType : Type 0 where
  find_service offer_service stop_offer_service subscribe subscribe_ack : EntryType

unfoldable pub type_try_from : ℕ → Result SdError EntryType
type_try_from v =
    if v == 0x00
    then ok find_service
    else if v == 0x01
    then ok offer_service
    else if v == 0x02
    then ok stop_offer_service
    else if v == 0x06
    then ok subscribe
    else if v == 0x07
    then ok subscribe_ack
    else err (invalid_entry_type v)

unfoldable pub type_to_u8 : EntryType → ℕ
type_to_u8 find_service = 0x00
type_to_u8 offer_service = 0x01
type_to_u8 stop_offer_service = 0x02
type_to_u8 subscribe = 0x06
type_to_u8 subscribe_ack = 0x07

pub record EventGroupEntry : Type 0 where
  pub index_first_options_run : ℕ
  pub index_second_options_run : ℕ
  pub options_count : OptionsCount
  pub service_id : ℕ
  pub instance_id : ℕ
  pub major_version : ℕ
  pub ttl : ℕ
  pub counter : ℕ
  pub event_group_id : ℕ

pub record ServiceEntry : Type 0 where
  pub index_first_options_run : ℕ
  pub index_second_options_run : ℕ
  pub options_count : OptionsCount
  pub service_id : ℕ
  pub instance_id : ℕ
  pub major_version : ℕ
  pub ttl : ℕ
  pub minor_version : ℕ

pub data Entry : Type 0 where
  find_service_entry offer_service_entry stop_offer_service_entry : ServiceEntry → Entry
  subscribe_event_group subscribe_ack_event_group : EventGroupEntry → Entry

abbrev pub entry_type_of : Entry → EntryType
entry_type_of (find_service_entry e) = find_service
entry_type_of (offer_service_entry e) = offer_service
entry_type_of (stop_offer_service_entry e) = stop_offer_service
entry_type_of (subscribe_event_group e) = subscribe
entry_type_of (subscribe_ack_event_group e) = subscribe_ack

unfoldable pub first_options_count : Entry → ℕ
first_options_count (find_service_entry e) = e.options_count.first
first_options_count (offer_service_entry e) = e.options_count.first
first_options_count (stop_offer_service_entry e) = e.options_count.first
first_options_count (subscribe_event_group e) = e.options_count.first
first_options_count (subscribe_ack_event_group e) = e.options_count.first

unfoldable pub second_options_count : Entry → ℕ
second_options_count (find_service_entry e) = e.options_count.second
second_options_count (offer_service_entry e) = e.options_count.second
second_options_count (stop_offer_service_entry e) = e.options_count.second
second_options_count (subscribe_event_group e) = e.options_count.second
second_options_count (subscribe_ack_event_group e) = e.options_count.second

unfoldable pub total_options_count : Entry → ℕ
total_options_count e = first_options_count e + second_options_count e

-- The ranges that the wire format holds. The counter of an event group entry has four bits.
pub record IsServiceEntry (e : ServiceEntry) : Type 0 where
  pub first_index : IsU8 e.index_first_options_run
  pub second_index : IsU8 e.index_second_options_run
  pub count : IsCount e.options_count
  pub service : IsU16 e.service_id
  pub instance_range : IsU16 e.instance_id
  pub major : IsU8 e.major_version
  pub ttl_range : IsU24 e.ttl
  pub minor : IsU32 e.minor_version

pub record IsEventGroupEntry (e : EventGroupEntry) : Type 0 where
  pub first_index : IsU8 e.index_first_options_run
  pub second_index : IsU8 e.index_second_options_run
  pub count : IsCount e.options_count
  pub service : IsU16 e.service_id
  pub instance_range : IsU16 e.instance_id
  pub major : IsU8 e.major_version
  pub ttl_range : IsU24 e.ttl
  pub counter_range : e.counter < 16
  pub group : IsU16 e.event_group_id

abbrev pub IsEntry : Entry → Type 0
IsEntry (find_service_entry e) = IsServiceEntry e
IsEntry (offer_service_entry e) = IsServiceEntry e
IsEntry (stop_offer_service_entry e) = IsServiceEntry e
IsEntry (subscribe_event_group e) = IsEventGroupEntry e
IsEntry (subscribe_ack_event_group e) = IsEventGroupEntry e

pub type_try_from-type_to_u8 : (t : EntryType) → type_try_from (type_to_u8 t) ≡ ok t
unfolding type_try_from type_to_u8
type_try_from-type_to_u8 find_service = refl
type_try_from-type_to_u8 _ = refl

pub type_to_u8-type_try_from : (v : ℕ) (t : EntryType) → type_try_from v ≡ ok t → type_to_u8 t ≡ v
unfolding type_try_from type_to_u8
type_to_u8-type_try_from v t h = ground arith

pub type_try_from-ne-panic : (v : ℕ) → type_try_from v ≢ panic
unfolding type_try_from
type_try_from-ne-panic v h = ground arith
