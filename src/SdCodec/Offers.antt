-- ===== src/SdCodec/Offers.antt =====
-- What a receiver reads of the datagrams of each builder of src/sd_codec.rs.
use simple_someip.Prelude.{
  ℕ, zero, suc, ◌+◌, ◌*◌, ◌%◌, ◌≤◌, ◌<◌, ◌≡◌, refl, arith, List, [], ◌∷◌, ◌++◌, length, take, map,
  All, Bool, true, false, Option, some, ok, get_elem?, get_elem?-append, length-append,
  append_assoc, ap₂,
}
use simple_someip.Bytes.{IsU16}
use simple_someip.Bytes.Slice.{SliceWriter}
use simple_someip.Sd.Flags.{RebootFlag, continuous}
use simple_someip.Sd.Entry.Count.{OptionsCount, count_new}
use simple_someip.Sd.Entry.{
  Entry, IsEntry, ServiceEntry, EventGroupEntry, subscribe_event_group, subscribe_ack_event_group,
  offer_service_entry, stop_offer_service_entry, find_service_entry,
}
use simple_someip.Sd.Options.{Options, IsOption, endpoint_v4, udp}
use simple_someip.Sd.Options.Encode.{size}
use simple_someip.Sd.Header.Encode.{options_size, required_size}
use simple_someip.SdCodec.{SubscribeEventgroupRequest, OfferServiceRequest, IsSubscribe, IsOffer}
use simple_someip.SdCodec.Build.{
  wrapped_header, service_at, unicast_option, offers_from, build_subscribe_eventgroup_datagram,
  build_multi_service_entry_datagram,
}
use simple_someip.SdCodec.Built.{Sent, encode_sd_datagram-Sent}

abbrev pub one_option : OptionsCount
one_option = record { first = 1; second = 0 }

-- What a request is announced as: its ids and versions, the one option at the index, and the given
-- ttl.
abbrev pub service_of : OfferServiceRequest → ℕ → ℕ → ServiceEntry
service_of r i ttl = record {
  index_first_options_run = i;
  index_second_options_run = 0;
  options_count = one_option;
  service_id = r.service_id;
  instance_id = r.instance_id;
  major_version = r.major_version;
  ttl = ttl;
  minor_version = r.minor_version;
}

-- The two announcements: an offer has the request's ttl, and a stop offer has ttl 0.
abbrev pub entry_of : OfferServiceRequest → ℕ → Bool → Entry
entry_of r i false = offer_service_entry (service_of r i r.ttl)
entry_of r i true = stop_offer_service_entry (service_of r i 0)

-- One entry for each request, each with its own index.
abbrev pub entries_of : ℕ → List OfferServiceRequest → Bool → List Entry
entries_of i [] stop = []
entries_of i (r ∷ rs) stop = entry_of r i stop ∷ entries_of (suc i) rs stop

-- The first option of an entry's first run.
abbrev pub first_index : Entry → ℕ
first_index (find_service_entry e) = e.index_first_options_run
first_index (offer_service_entry e) = e.index_first_options_run
first_index (stop_offer_service_entry e) = e.index_first_options_run
first_index (subscribe_event_group e) = e.index_first_options_run
first_index (subscribe_ack_event_group e) = e.index_first_options_run

abbrev pub option_of : List Options → Entry → Option Options
option_of options e = get_elem? options (first_index e)

-- The builder makes these entries.
service_at-entry_of :
    (r : OfferServiceRequest) (i : ℕ) (stop : Bool)
    → service_at r i one_option stop ≡ entry_of r i stop
unfolding service_at
service_at-entry_of r i true = refl
service_at-entry_of r i false = refl

first_index-entry_of :
    (r : OfferServiceRequest) (i : ℕ) (stop : Bool) → first_index (entry_of r i stop) ≡ i
first_index-entry_of r i true = refl
first_index-entry_of r i false = refl

entry_of-IsEntry :
    (r : OfferServiceRequest) (i : ℕ) (stop : Bool)
    → IsOffer r
    → i < 256
    → IsEntry (entry_of r i stop)
entry_of-IsEntry r i true v h = record {
  first_index = h;
  second_index = omega arith;
  count = record { first_range = omega arith; second_range = omega arith };
  service = v.service;
  instance_range = v.instance_range;
  major = v.major;
  ttl_range = omega arith;
  minor = v.minor;
}
entry_of-IsEntry r i false v h = record {
  first_index = h;
  second_index = omega arith;
  count = record { first_range = omega arith; second_range = omega arith };
  service = v.service;
  instance_range = v.instance_range;
  major = v.major;
  ttl_range = v.ttl_range;
  minor = v.minor;
}

entries_of-IsEntry :
    (i : ℕ) (rs : List OfferServiceRequest) (stop : Bool)
    → All IsOffer rs
    → i + length rs ≤ 256
    → All IsEntry (entries_of i rs stop)
entries_of-IsEntry i [] stop v h = tt
entries_of-IsEntry i (r ∷ rs) stop v h = (
  entry_of-IsEntry r i stop v.0 (omega arith),
  entries_of-IsEntry (suc i) rs stop v.1 (omega arith),
)

unicast_options-IsOption :
    (rs : List OfferServiceRequest) → All IsOffer rs → All IsOption (map unicast_option rs)
unicast_options-IsOption [] v = tt
unicast_options-IsOption (r ∷ rs) v =
    ((v.0.ip_range, v.0.port_range), unicast_options-IsOption rs v.1)

offers_from-eq :
    (n i : ℕ) (rs : List OfferServiceRequest) (stop : Bool)
    → i + length (take n rs) ≤ 256
    → offers_from n i rs stop ≡ ok (entries_of i (take n rs) stop, map unicast_option (take n rs))
unfolding offers_from count_new
offers_from-eq zero i [] stop h = refl
offers_from-eq zero i (r ∷ rs) stop h = refl
offers_from-eq (suc n) i [] stop h = refl
offers_from-eq (suc n) i (r ∷ rs) stop h =
    let low : i % 256 ≡ i = omega arith in
    rw (offers_from-eq n (suc i) rs stop (omega arith), low, service_at-entry_of r i stop) refl

sizes_of :
    (i : ℕ) (rs : List OfferServiceRequest) (stop : Bool)
    → (length (entries_of i rs stop) ≡ length rs)
      × (options_size (map unicast_option rs) ≡ 12 * length rs)
unfolding options_size size
sizes_of i [] stop = (refl, refl)
sizes_of i (r ∷ rs) stop = let (p, q) = sizes_of (suc i) rs stop in (omega arith, omega arith)

option_of-append :
    (before : List Options) (i : ℕ) (rs : List OfferServiceRequest) (stop : Bool)
    → i ≡ length before
    → map (option_of (before ++ map unicast_option rs)) (entries_of i rs stop)
      ≡ map (λ r. some (unicast_option r)) rs
option_of-append before i [] stop e = refl
option_of-append before i (r ∷ rs) stop e =
    let o = unicast_option r in
    let here : option_of (before ++ (o ∷ map unicast_option rs)) (entry_of r i stop) ≡ some o =
      rw (first_index-entry_of r i stop) (get_elem?-append before o (map unicast_option rs) i e) in
    let rest =
      option_of-append (before ++ (o ∷ [])) (suc i) rs stop
        (omega (arith, length-append before (o ∷ []))) in
    ap₂ ◌∷◌ here (rw (append_assoc before (o ∷ []) (map unicast_option rs)) at rest)

abbrev pub subscribe_entry : SubscribeEventgroupRequest → EventGroupEntry
subscribe_entry r = record {
  index_first_options_run = 0;
  index_second_options_run = 0;
  options_count = one_option;
  service_id = r.service_id;
  instance_id = r.instance_id;
  major_version = r.major_version;
  ttl = r.ttl;
  counter = 0;
  event_group_id = r.event_group_id;
}

module _ (sw : SliceWriter) (buf : List ℕ) (session : ℕ) (range : IsU16 session) where
  -- A subscription in range, built into a buffer of at least 56 bytes, is read by a receiver as one
  -- entry that subscribes with the request's ids, version and ttl, and one option with the
  -- request's address and port over UDP, under the reboot flag that the caller gives.
  pub build_subscribe-Sent :
      (r : SubscribeEventgroupRequest) (reboot : RebootFlag)
      → IsSubscribe r
      → 56 ≤ length buf
      → Sent
          (build_subscribe_eventgroup_datagram sw buf r session reboot)
          (wrapped_header reboot
            (subscribe_event_group (subscribe_entry r) ∷ [])
            (endpoint_v4 r.local_ip udp r.local_rx_port ∷ []))
          buf
  unfolding build_subscribe_eventgroup_datagram count_new required_size options_size size
  build_subscribe-Sent r reboot v room =
      encode_sd_datagram-Sent sw buf (subscribe_event_group (subscribe_entry r) ∷ [])
        (endpoint_v4 r.local_ip udp r.local_rx_port ∷ []) session reboot range
        (record {
          entries_range = (
            record {
              first_index = omega arith;
              second_index = omega arith;
              count = record { first_range = omega arith; second_range = omega arith };
              service = v.service;
              instance_range = v.instance_range;
              major = v.major;
              ttl_range = v.ttl_range;
              counter_range = omega arith;
              group = v.group;
            },
            tt,
          );
          options_range = ((v.ip_range, v.port_range), tt);
          entries_fit = omega arith;
          options_fit = omega arith;
        })
        (omega arith) room

  -- At most 256 of the first `n` requests, all in range, built into a buffer of 28 bytes and 28
  -- more for each, are read by a receiver as one entry for each request in order, with its ids and
  -- versions, which is an offer with the request's ttl, or a stop offer with ttl 0; and the option at an entry's index is the endpoint of the
  -- request that the entry stands for.
  pub build_multi-Sent :
      (n : ℕ) (requests : List OfferServiceRequest) (stop : Bool)
      → All IsOffer (take n requests)
      → length (take n requests) ≤ 256
      → 28 + 28 * length (take n requests) ≤ length buf
      → Sent
          (build_multi_service_entry_datagram sw n buf requests session stop)
          (wrapped_header continuous
            (entries_of 0 (take n requests) stop)
            (map unicast_option (take n requests)))
          buf
        × (map
              (option_of (map unicast_option (take n requests)))
              (entries_of 0 (take n requests) stop)
            ≡ map (λ r. some (unicast_option r)) (take n requests))
  unfolding build_multi_service_entry_datagram required_size
  build_multi-Sent n requests stop v few room =
      let rs = take n requests in
      let (p, q) = sizes_of 0 rs stop in
      (
        rw (offers_from-eq n 0 requests stop (omega arith)) (
            encode_sd_datagram-Sent sw buf (entries_of 0 rs stop) (map unicast_option rs) session
              continuous range
              (record {
                entries_range = entries_of-IsEntry 0 rs stop v (omega arith);
                options_range = unicast_options-IsOption rs v;
                entries_fit = omega arith;
                options_fit = omega arith;
              })
              (omega arith) (omega arith)),
        option_of-append [] 0 rs stop refl,
      )
