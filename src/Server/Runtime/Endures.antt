-- ===== src/Server/Runtime/Endures.antt =====
-- The handlers of src/server/runtime.rs over every service discovery message that is accepted.
use simple_someip.Prelude.{
  ℕ, ◌≤◌, ◌≡◌, ◌≢◌, refl, arith, Bool, true, false, not, ◌&&◌, ◌||◌, ◌==◌, if◌then◌else◌, List, [],
  ◌∷◌, All, length, Option, none, some, Result, ok, err, panic,
}
use simple_someip.Prelude.Eq.{Eq}
use simple_someip.Maps.{IndexMap}
use simple_someip.Bytes.{IsU16, IsU32, IsU24, IsU8}
use simple_someip.Bytes.Slice.{SliceWriter}
use simple_someip.Sd.Entry.{
  EntryType, EventGroupEntry, IsEventGroupEntry, find_service, offer_service, stop_offer_service,
  subscribe as subscribe_type, subscribe_ack,
}
use simple_someip.Sd.Entry.View.{EntryView, to_event_group_entry, iterate as entries_of}
use simple_someip.Sd.Entry.RoundTrip.{event_group-IsEventGroupEntry}
use simple_someip.Sd.Options.View.{OptionView, iterate as options_of}
use simple_someip.Sd.Options.Encode.{size}
use simple_someip.Sd.Header.{SdHeaderView}
use simple_someip.Sd.Header.Encode.{required_size, options_size}
use simple_someip.Sd.Header.Views.{IsTyped, IsValid}
use simple_someip.NetEndpoint.{SocketAddrV4, v4}
use simple_someip.Transport.{TransportError}
use simple_someip.Server.Error.{ServerError}
use simple_someip.Server.Config.{ServerConfig, accepts_offer, accepts_event_group}
use simple_someip.Server.Subscriptions.{
  GroupKey, Subscriber, SubscribeError, subscribe, subscribe_to,
}
use simple_someip.Server.Runtime.{
  World, ack_of, offer_of, endpoint_of, key_of, logged, then_go, send_sd, send_unicast_offer,
  send_subscribe_ack_from_view, send_subscribe_nack_from_view, taken_back, acknowledge,
  answer_subscribed, subscribe_endpoint, handle_subscribe, handle_find, handle_entry,
  handle_entries, handle_sd_message,
}
use simple_someip.Server.Runtime.Walked.{extract_subscriber_endpoint-ok}
use simple_someip.Server.Runtime.Replies.{ack-Replied, send_sd-Replied}

-- A configuration whose fields are in the range of their types, with a ttl that fits 24 bits.
pub record IsConfig (c : ServerConfig) : Type 0 where
  pub interface_range : IsU32 c.interface
  pub port_range : IsU16 c.local_port
  pub service_range : IsU16 c.service_id
  pub instance_range : IsU16 c.instance_id
  pub major_range : IsU8 c.major_version
  pub minor_range : IsU32 c.minor_version
  pub ttl_range : IsU24 c.ttl

-- The call had no error and did not panic.
abbrev pub Fine : {W : Type 0} → Result ServerError (Unit {0}) × W → Type 0
Fine p = p.0 ≡ ok tt

module _ {W : Type 0} where
  logged-Fine : (p : Result ServerError (Unit {0}) × W) → Fine p → Fine (logged p)
  logged-Fine (ok done, w) h = refl
  logged-Fine (err failed, w) h = refl
  logged-Fine (panic, w) h = absurd (cc h)

  pub then_go-Fine :
      (p : Result ServerError (Unit {0}) × W) (next : W → Result ServerError (Unit {0}) × W)
      → Fine p
      → Fine (next p.1)
      → Fine (then_go p next)
  then_go-Fine (ok done, w) next h g = g
  then_go-Fine (err failed, w) next h g = absurd (cc h)
  then_go-Fine (panic, w) next h g = absurd (cc h)

  if-Fine :
      (b : Bool) (p q : Result ServerError (Unit {0}) × W)
      → Fine p
      → Fine q
      → Fine (if b then p else q)
  if-Fine true p q h g = h
  if-Fine false p q h g = g

module _ {Addr : Type 0} (a : Eq Addr) (e : Eq GroupKey) (groups_cap subscribers_per_group : ℕ)
    (groups : IndexMap GroupKey (List (Subscriber Addr)) e groups_cap) where
  subscribe_to-ne-panic :
      (o : Option (List (Subscriber Addr))) (m : groups.M) (key : GroupKey) (addr : Addr)
      → (subscribe_to a e groups_cap subscribers_per_group groups o m key addr).0 ≢ panic
  unfolding subscribe_to
  subscribe_to-ne-panic none m key addr p = ground arith
  subscribe_to-ne-panic (some ss) m key addr p = ground arith

  subscribe-ne-panic :
      (m : groups.M) (key : GroupKey) (addr : Addr)
      → (subscribe a e groups_cap subscribers_per_group groups m key addr).0 ≢ panic
  unfolding subscribe
  subscribe-ne-panic m key addr = subscribe_to-ne-panic (groups.get m key) m key addr

module _ (sw : SliceWriter) {Sock : Type 0} (a : Eq SocketAddrV4) (e : Eq GroupKey)
    (groups_cap subscribers_per_group : ℕ)
    (groups : IndexMap GroupKey (List (Subscriber SocketAddrV4)) e groups_cap)
    (send_to : Sock → List ℕ → SocketAddrV4 → Option TransportError × Sock)
    (works : (s : Sock) (d : List ℕ) (t : SocketAddrV4) → (send_to s d t).0 ≡ none) (buf : List ℕ)
    (room : 56 ≤ length buf) (c : ServerConfig) (range : IsConfig c) (ip port : ℕ) where
  ack-Fine :
      (w : World Sock groups.M) (r : EventGroupEntry) (ttl : ℕ)
      → IsEventGroupEntry r
      → IsU24 ttl
      → Fine (
          send_sd sw a e groups_cap subscribers_per_group groups send_to w buf
            (ack_of r ttl ∷ [])
            []
            (v4 ip port))
  ack-Fine w r ttl v short =
      let (datagram, _, whole) =
        ack-Replied sw a e groups_cap subscribers_per_group groups send_to r ttl v short w buf ip
          port (omega arith) in
      rw (whole, works w.socket datagram (record { ip = ip; port = port })) refl

  offer-Fine :
      (w : World Sock groups.M)
      → Fine (
          send_unicast_offer sw a e groups_cap subscribers_per_group groups send_to w buf c
            (v4 ip port))
  unfolding send_unicast_offer offer_of endpoint_of required_size options_size size
  offer-Fine w =
      let (datagram, _, whole) =
        send_sd-Replied sw a e groups_cap subscribers_per_group groups send_to w buf
          (offer_of c ∷ []) (endpoint_of c ∷ []) ip port
          (λ reboot. record {
            entries_range = (
              record {
                first_index = omega arith;
                second_index = omega arith;
                count = record { first_range = omega arith; second_range = omega arith };
                service = range.service_range;
                instance_range = range.instance_range;
                major = range.major_range;
                ttl_range = range.ttl_range;
                minor = range.minor_range;
              },
              tt,
            );
            options_range = ((range.interface_range, range.port_range), tt);
            entries_fit = omega arith;
            options_fit = omega arith;
          })
          (λ reboot. omega arith) (λ reboot. omega (arith, room)) in
      rw (whole, works w.socket datagram (record { ip = ip; port = port })) refl

  taken_back-Fine :
      (key : GroupKey) (addr : SocketAddrV4)
      (p : Result ServerError (Unit {0}) × World Sock groups.M)
      → Fine p
      → Fine (taken_back sw a e groups_cap subscribers_per_group groups send_to key addr p)
  unfolding taken_back
  taken_back-Fine key addr (ok done, w) h = refl
  taken_back-Fine key addr (err failed, w) h = refl
  taken_back-Fine key addr (panic, w) h = absurd (cc h)

  module _ (w : World Sock groups.M) (r : EventGroupEntry) (v : IsEventGroupEntry r) where
    abbrev nack : Result ServerError (Unit {0}) × World Sock groups.M
    nack =
        send_subscribe_nack_from_view sw a e groups_cap subscribers_per_group groups send_to w buf r
          (v4 ip port)

    nack-Fine : Fine nack
    unfolding send_subscribe_nack_from_view
    nack-Fine = ack-Fine w r 0 v (omega arith)

    answer-Fine :
        (addr : SocketAddrV4) (p : Result SubscribeError (Unit {0}) × groups.M)
        → p.0 ≢ panic
        → Fine (
            answer_subscribed sw a e groups_cap subscribers_per_group groups send_to w buf c r
              (v4 ip port)
              addr
              p)
    unfolding answer_subscribed acknowledge send_subscribe_ack_from_view
        send_subscribe_nack_from_view
    answer-Fine addr (ok done, m) h =
        taken_back-Fine (key_of r) addr _
          (ack-Fine (record w { subscriptions = m }) r c.ttl v range.ttl_range)
    answer-Fine addr (err failed, m) h =
        logged-Fine
          (send_sd sw a e groups_cap subscribers_per_group groups send_to
            (record w { subscriptions = m }) buf (ack_of r 0 ∷ []) [] (v4 ip port))
          (ack-Fine (record w { subscriptions = m }) r 0 v (omega arith))
    answer-Fine addr (panic, m) h = absurd (h refl)

    endpoint-Fine :
        (o : Option SocketAddrV4)
        → Fine (
            subscribe_endpoint sw a e groups_cap subscribers_per_group groups send_to w buf c r
              (v4 ip port)
              (ok o))
    unfolding subscribe_endpoint
    endpoint-Fine none = logged-Fine nack nack-Fine
    endpoint-Fine (some addr) = answer-Fine addr _ (
        subscribe-ne-panic a e groups_cap subscribers_per_group groups w.subscriptions (key_of r)
          addr)

    handle_subscribe-Fine :
        (vs : List OptionView)
        → All IsValid vs
        → Fine (
            handle_subscribe sw a e groups_cap subscribers_per_group groups send_to w buf c vs
              (v4 ip port)
              r)
    unfolding handle_subscribe
    handle_subscribe-Fine vs valid =
        let (o, found) =
          extract_subscriber_endpoint-ok vs r.index_first_options_run r.options_count.first
            r.index_second_options_run r.options_count.second valid in
        let alone =
          not (accepts_offer c r.service_id r.instance_id r.major_version r.event_group_id) in
        let accepted =
          subscribe_endpoint sw a e groups_cap subscribers_per_group groups send_to w buf c r
            (v4 ip port) (ok o) in
        let later = logged-Fine nack nack-Fine in
        let g₁ =
          if-Fine (alone && not (accepts_event_group c r.event_group_id)) (logged nack) accepted
            later (endpoint-Fine o) in
        let g₂ =
          if-Fine (alone && not (r.major_version == c.major_version)) (logged nack) _ later g₁ in
        let g₃ = if-Fine (alone && not (r.instance_id == c.instance_id)) nack _ nack-Fine g₂ in
        rw found (if-Fine (alone && not (r.service_id == c.service_id)) nack _ nack-Fine g₃)

  handle_find-Fine :
      (w : World Sock groups.M) (find : ℕ)
      → Fine (
          handle_find sw a e groups_cap subscribers_per_group groups send_to w buf c
            (v4 ip port)
            find)
  unfolding handle_find
  handle_find-Fine w find =
      let offer =
        send_unicast_offer sw a e groups_cap subscribers_per_group groups send_to w buf c
          (v4 ip port) in
      if-Fine (find == c.service_id || find == 0xffff) (logged offer) (ok tt, w)
        (logged-Fine offer (offer-Fine w)) refl

  handle_entry-Fine :
      (vs : List OptionView) (v : EntryView) (t : EntryType) (w : World Sock groups.M)
      → All IsValid vs
      → IsEventGroupEntry (to_event_group_entry v)
      → Fine (
          handle_entry sw a e groups_cap subscribers_per_group groups send_to buf c vs
            (v4 ip port)
            v
            (ok t)
            w)
  unfolding handle_entry
  handle_entry-Fine vs v subscribe_type w valid h =
      handle_subscribe-Fine w (to_event_group_entry v) h vs valid
  handle_entry-Fine vs v find_service w valid h =
      handle_find-Fine w (to_event_group_entry v).service_id
  handle_entry-Fine vs v offer_service w valid h = refl
  handle_entry-Fine vs v stop_offer_service w valid h = refl
  handle_entry-Fine vs v subscribe_ack w valid h = refl

  handle_entries-Fine :
      (options : List OptionView) (vs : List EntryView) (w : World Sock groups.M)
      → All IsValid options
      → All IsTyped vs
      → Fine (
          handle_entries sw a e groups_cap subscribers_per_group groups send_to buf c options
            (v4 ip port)
            vs
            w)
  unfolding handle_entries
  handle_entries-Fine options [] w valid typed = refl
  handle_entries-Fine options (v ∷ vs) w valid (((t, known), bytes), rest) =
      let first = handle_entry-Fine options v t w valid (event_group-IsEventGroupEntry v bytes) in
      let p =
        handle_entry sw a e groups_cap subscribers_per_group groups send_to buf c options
          (v4 ip port) v (ok t) w in
      rw known (
        then_go-Fine p
          (λ next.
            handle_entries sw a e groups_cap subscribers_per_group groups send_to buf c options
              (v4 ip port) vs next)
          first (handle_entries-Fine options vs p.1 valid rest))

  -- The handler of a service discovery message whose entry types are known and whose options are
  -- valid returns with no error and does not panic.
  pub handle_sd_message-Fine :
      (w : World Sock groups.M) (view : SdHeaderView)
      → All IsTyped (entries_of view.entries_buf)
      → All IsValid (options_of view.options_buf)
      → Fine (
          handle_sd_message sw a e groups_cap subscribers_per_group groups send_to w buf c view
            (v4 ip port))
  unfolding handle_sd_message
  handle_sd_message-Fine w view typed valid =
      handle_entries-Fine (options_of view.options_buf) (entries_of view.entries_buf) w valid typed
