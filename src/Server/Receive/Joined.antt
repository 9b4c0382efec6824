-- ===== src/Server/Receive/Joined.antt =====
-- A subscription from the builder of src/sd_codec.rs through the receive loop of
-- src/server/runtime.rs to its acknowledgement.
use simple_someip.Prelude.{
  ℕ, ◌≤◌, ◌≡◌, refl, ap, ◌∙◌, arith, List, [], ◌∷◌, length, take, Option, none, Result, ok, err,
  panic, map_err, ◌>>=◌, Bool, >>=-eq-ok,
}
use simple_someip.Prelude.Eq.{Eq}
use simple_someip.Maps.{IndexMap}
use simple_someip.Bytes.{IsU16, IsU24}
use simple_someip.Bytes.Slice.{SliceWriter}
use simple_someip.Protocol.Error.{Error, SdError, sd}
use simple_someip.Sd.Flags.{RebootFlag}
use simple_someip.Sd.Entry.{
  EntryType, EventGroupEntry, subscribe_event_group, IsEventGroupEntry, find_service, offer_service,
  stop_offer_service, subscribe as subscribe_type, subscribe_ack,
}
use simple_someip.Sd.Entry.View.{
  EntryView, entry_type, to_owned, owned_as, to_event_group_entry, iterate as entries_of,
}
use simple_someip.Sd.Options.{endpoint_v4, udp, extract_ipv4_endpoint}
use simple_someip.Sd.Options.View.{iterate as options_of}
use simple_someip.Sd.Header.{SdHeaderView}
use simple_someip.Payload.{own_all, own_entry, own_entries, own_options}
use simple_someip.NetEndpoint.{SocketAddrV4, v4}
use simple_someip.SdCodec.{SubscribeEventgroupRequest, IsSubscribe}
use simple_someip.SdCodec.Build.{build_subscribe_eventgroup_datagram}
use simple_someip.SdCodec.Offers.{subscribe_entry, build_subscribe-Sent}
use simple_someip.Transport.{TransportError}
use simple_someip.E2e.Profile.{E2eKey, E2eProfile, E2eState, Crcs}
use simple_someip.E2e.Registry.{E2eRegistry, RxKey, registry_cap, rx_state_cap}
use simple_someip.Server.Error.{ServerError}
use simple_someip.Server.Config.{ServerConfig}
use simple_someip.Server.Subscriptions.{GroupKey, Subscriber, subscribe}
use simple_someip.Server.Runtime.{
  World, then_go, handle_subscribe, handle_entry, handle_entries, handle_sd_message,
}
use simple_someip.Server.Runtime.Replies.{group_named}
use simple_someip.Server.Runtime.Handled.{Accepts, Acknowledged, handle_subscribe-Acknowledged}
use simple_someip.Server.Receive.{Node, Callback, with_world, receive, receive_view, receive_sd}

owned_as-subscribe :
    (v : EntryView) (t : EntryType) (r : EventGroupEntry)
    → owned_as v t ≡ subscribe_event_group r
    → (t ≡ subscribe_type) × (to_event_group_entry v ≡ r)
unfolding owned_as
owned_as-subscribe v find_service r h = absurd (cc h)
owned_as-subscribe v offer_service r h = absurd (cc h)
owned_as-subscribe v stop_offer_service r h = absurd (cc h)
owned_as-subscribe v subscribe_type r h = (refl, cc h)
owned_as-subscribe v subscribe_ack r h = absurd (cc h)

mapped-ok :
    {A B : Type 0} (m : Result SdError A) (f : A → B) (b : B)
    → map_err sd (m >>= λ x. ok (f x)) ≡ ok b
    → (x : A) × (m ≡ ok x) × (f x ≡ b)
mapped-ok (ok x) f b h = (x, refl, cc h)
mapped-ok (err failed) f b h = absurd (cc h)
mapped-ok panic f b h = absurd (cc h)

-- The view of a subscription.
own_entry-subscribe :
    (v : EntryView) (r : EventGroupEntry)
    → own_entry v ≡ ok (subscribe_event_group r)
    → (entry_type v ≡ ok subscribe_type) × (to_event_group_entry v ≡ r)
unfolding to_owned
own_entry-subscribe v r h =
    let (t, p, q) = mapped-ok (entry_type v) (owned_as v) (subscribe_event_group r) h in
    let (same, read) = owned_as-subscribe v t r q in (p ∙ ap (λ (x : EntryType). ok x) same, read)

own_all-cons :
    {V A : Type 0} (own : V → Result Error A) (v : V) (vs : List V) (a : A) (rest : List A)
    → own_all own (v ∷ vs) ≡ ok (a ∷ rest)
    → (own v ≡ ok a) × (own_all own vs ≡ ok rest)
unfolding own_all
own_all-cons own v vs a rest h =
    let (x, p, q) = >>=-eq-ok (own v) (λ y. own_all own vs >>= λ ys. ok (y ∷ ys)) h in
    let (xs, p₂, q₂) = >>=-eq-ok (own_all own vs) (λ ys. ok (x ∷ ys)) q in (p ∙ cc q₂, p₂ ∙ cc q₂)

own_all-nil :
    {V A : Type 0} (own : V → Result Error A) (vs : List V) → own_all own vs ≡ ok [] → vs ≡ []
unfolding own_all
own_all-nil own [] h = refl
own_all-nil own (v ∷ vs) h =
    let (x, p, q) = >>=-eq-ok (own v) (λ y. own_all own vs >>= λ ys. ok (y ∷ ys)) h in
    let (xs, p₂, q₂) = >>=-eq-ok (own_all own vs) (λ ys. ok (x ∷ ys)) q in absurd (cc q₂)

own_entries-one :
    (vs : List EntryView) (r : EventGroupEntry)
    → own_entries vs ≡ ok (subscribe_event_group r ∷ [])
    → (v : EntryView) × (vs ≡ v ∷ [])
      × (entry_type v ≡ ok subscribe_type)
      × (to_event_group_entry v ≡ r)
unfolding own_entries own_all
own_entries-one [] r h = absurd (cc h)
own_entries-one (v ∷ vs) r h =
    let (one, empty) = own_all-cons own_entry v vs (subscribe_event_group r) [] h in
    let (t, s) = own_entry-subscribe v r one in
    (v, ap (λ (ws : List EntryView). v ∷ ws) (own_all-nil own_entry vs empty), t, s)

subscribe_entry-IsEventGroupEntry :
    (q : SubscribeEventgroupRequest) → IsSubscribe q → IsEventGroupEntry (subscribe_entry q)
subscribe_entry-IsEventGroupEntry q v = record {
  first_index = omega arith;
  second_index = omega arith;
  count = record { first_range = omega arith; second_range = omega arith };
  service = v.service;
  instance_range = v.instance_range;
  major = v.major;
  ttl_range = v.ttl_range;
  counter_range = omega arith;
  group = v.group;
}

then_go-ok :
    {W : Type 0} (p : Result ServerError (Unit {0}) × W)
    → p.0 ≡ ok tt
    → then_go p (λ next. (ok tt, next)) ≡ p
then_go-ok (ok done, w) h = refl
then_go-ok (err failed, w) h = absurd (cc h)
then_go-ok (panic, w) h = absurd (cc h)

module _ (sw : SliceWriter) {Sock : Type 0} (a : Eq SocketAddrV4) (e : Eq GroupKey)
    (groups_cap subscribers_per_group : ℕ)
    (groups : IndexMap GroupKey (List (Subscriber SocketAddrV4)) e groups_cap)
    (send_to : Sock → List ℕ → SocketAddrV4 → Option TransportError × Sock) where
  -- A message with one subscription is handed to its handler.
  handle_sd_message-subscribe :
      (w : World Sock groups.M) (buf : List ℕ) (config : ServerConfig) (view : SdHeaderView)
      → (ip_from port : ℕ) (r : EventGroupEntry)
      → own_entries (entries_of view.entries_buf) ≡ ok (subscribe_event_group r ∷ [])
      → (handle_subscribe sw a e groups_cap subscribers_per_group groups send_to w buf config
          (options_of view.options_buf)
          (v4 ip_from port)
          r).0
        ≡ ok tt
      → handle_sd_message sw a e groups_cap subscribers_per_group groups send_to w buf config view
          (v4 ip_from port)
        ≡ handle_subscribe sw a e groups_cap subscribers_per_group groups send_to w buf config
            (options_of view.options_buf)
            (v4 ip_from port)
            r
  unfolding handle_sd_message handle_entries handle_entry
  handle_sd_message-subscribe w buf config view ip_from port r owned fine =
      let (v, one, t, same) = own_entries-one (entries_of view.entries_buf) r owned in
      rw (one, t, same)
        (then_go-ok
          (handle_subscribe sw a e groups_cap subscribers_per_group groups send_to w buf config
            (options_of view.options_buf) (v4 ip_from port) r)
          fine)

module _ (sw : SliceWriter) {Sock Kept Ip : Type 0} (a : Eq SocketAddrV4) (e : Eq GroupKey)
    (groups_cap subscribers_per_group : ℕ)
    (groups : IndexMap GroupKey (List (Subscriber SocketAddrV4)) e groups_cap)
    (send_to : Sock → List ℕ → SocketAddrV4 → Option TransportError × Sock) (ip : Eq Ip)
    (ip_v4 : ℕ → Ip) (ke : Eq E2eKey) (re : Eq (RxKey Ip))
    (profiles : IndexMap E2eKey E2eProfile ke registry_cap)
    (senders : IndexMap E2eKey E2eState ke registry_cap)
    (receivers : IndexMap (RxKey Ip) E2eState re rx_state_cap) (crcs : Crcs) where
  -- A subscription in range that `build_subscribe_eventgroup_datagram` writes into a buffer of 56
  -- bytes, for a service that the server offers, and that the server receives from an IPv4 address
  -- on either of its sockets: when the group has room and the sends have no error, the turn of the
  -- loop adds the address and port that the subscription names to the group and sends an
  -- acknowledgement with the server's ttl that the subscriber can read, and the rest of the server
  -- stays as it was. The server's buffer has 44 bytes and its ttl fits 24 bits.
  pub receive-Acknowledged :
      (client_buf : List ℕ) (session : ℕ) (q : SubscribeEventgroupRequest) (reboot : RebootFlag)
      → IsU16 session
      → IsSubscribe q
      → 56 ≤ length client_buf
      → (node : Node Sock groups.M (E2eRegistry ip ke re profiles senders receivers) Kept)
      → (config : ServerConfig) (observer : Option (Callback Kept)) (from_unicast : Bool)
      → (source : SocketAddrV4) (buf : List ℕ) → Accepts config (subscribe_entry q)
      → IsU24 config.ttl
      → 44 ≤ length buf
      → (subscribe a e groups_cap subscribers_per_group groups node.world.subscriptions
          (group_named (subscribe_entry q))
          (record { ip = q.local_ip; port = q.local_rx_port })).0
        ≡ ok tt
      → ((s : Sock) (d : List ℕ) (t : SocketAddrV4) → (send_to s d t).0 ≡ none)
      → (n : ℕ) × (out : List ℕ) × (answer : Result ServerError (Unit {0}) × World Sock groups.M)
        × (build_subscribe_eventgroup_datagram sw client_buf q session reboot ≡ ok (n, out))
        × (receive sw a e groups_cap subscribers_per_group groups send_to ip ip_v4 ke re profiles
              senders receivers crcs node config observer
              (record {
                from_unicast = from_unicast;
                data_received = take n out;
                source = source;
                send_buf = buf;
              })
            ≡ with_world node answer)
        × Acknowledged sw a e groups_cap subscribers_per_group groups send_to node.world buf config
            []
            (subscribe_entry q)
            source
            (record { ip = q.local_ip; port = q.local_rx_port })
            answer
  unfolding receive receive_view receive_sd own_options
  receive-Acknowledged client_buf session q reboot range v room node config observer from_unicast
        source buf accepted short wide recorded works =
      let (out, built, _, (view, _, (m, parsed, found, head), _, entries, options)) =
        build_subscribe-Sent sw client_buf session range q reboot v room in
      let r = subscribe_entry q in
      let addr : SocketAddrV4 = record { ip = q.local_ip; port = q.local_rx_port } in
      let answer =
        handle_subscribe sw a e groups_cap subscribers_per_group groups send_to node.world buf
          config (options_of view.options_buf) (v4 source.ip source.port) r in
      let reply =
        handle_subscribe-Acknowledged sw a e groups_cap subscribers_per_group groups send_to
          node.world buf config (options_of view.options_buf) r
          (endpoint_v4 q.local_ip udp q.local_rx_port ∷ []) source.ip source.port q.local_ip
          q.local_rx_port udp options accepted (subscribe_entry-IsEventGroupEntry q v) short wide
          (unfold extract_ipv4_endpoint in refl) recorded works in
      let handled =
        handle_sd_message-subscribe sw a e groups_cap subscribers_per_group groups send_to
          node.world buf config view source.ip source.port r entries reply.0 in
      (_, out, answer, built, rw (parsed, found, head, handled) refl, reply)
