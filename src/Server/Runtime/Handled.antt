-- ===== src/Server/Runtime/Handled.antt =====
-- What src/server/runtime.rs makes of a subscription.
use simple_someip.Prelude.{
  ℕ, ◌≤◌, ◌≡◌, ◌⊎◌, refl, ap, ◌∙◌, arith, Bool, true, false, ◌&&◌, ◌==◌, ==_iff, Bool-cases, inl,
  inr, List, [], ◌∷◌, ◌++◌, length, Option, none, some, Result, ok, err, panic,
}
use simple_someip.Prelude.Eq.{Eq, beq_refl}
use simple_someip.Maps.{IndexMap}
use simple_someip.Bytes.{IsU24}
use simple_someip.Bytes.Slice.{SliceWriter}
use simple_someip.Sd.Entry.{EventGroupEntry, IsEventGroupEntry}
use simple_someip.Sd.Options.{Options, TransportProtocol, extract_ipv4_endpoint}
use simple_someip.Sd.Options.View.{OptionView}
use simple_someip.Payload.{own_all, own_option}
use simple_someip.NetEndpoint.{SocketAddr, SocketAddrV4, v4}
use simple_someip.Transport.{TransportError}
use simple_someip.Server.Error.{ServerError}
use simple_someip.Server.Config.{ServerConfig, accepts_offer, accepts_event_group}
use simple_someip.Server.SdState.{next_session_id_with_reboot_flag}
use simple_someip.Server.Subscriptions.{
  GroupKey, Subscriber, SubscribeError, subscribe, unsubscribe, get_subscribers, any_address,
  new_subscriber, subscribe-accepted, unsubscribe-subscribers,
}
use simple_someip.Server.Runtime.{
  World, ack_of, key_of, send_sd, send_subscribe_ack_from_view, send_subscribe_nack_from_view,
  acknowledge, subscribe_endpoint, handle_subscribe, taken_back, answer_subscribed,
}
use simple_someip.Server.Runtime.Endpoint.{extract_subscriber_endpoint}
use simple_someip.Server.Runtime.Found.{run, extract_subscriber_endpoint-first}
use simple_someip.Server.Runtime.Replies.{reply_to, group_named, Replied, ack-Replied}

-- A subscription to a service that is offered: a co-offered one, or the primary one.
abbrev pub Accepts : ServerConfig → EventGroupEntry → Type 0
Accepts c r =
    (accepts_offer c r.service_id r.instance_id r.major_version r.event_group_id ≡ true)
    ⊎ ((r.service_id ≡ c.service_id)
        × (r.instance_id ≡ c.instance_id)
        × (r.major_version ≡ c.major_version)
        × (accepts_event_group c r.event_group_id ≡ true))

abbrev pub accepts : ServerConfig → EventGroupEntry → Bool
accepts c r =
    (r.service_id == c.service_id)
    && ((r.instance_id == c.instance_id)
        && ((r.major_version == c.major_version) && accepts_event_group c r.event_group_id))

any_address-added :
    {Addr : Type 0} (a : Eq Addr) (ss : List (Subscriber Addr)) (addr : Addr) (key : GroupKey)
    → any_address a (ss ++ (new_subscriber addr key ∷ [])) addr ≡ true
unfolding any_address
any_address-added a [] addr key = rw (beq_refl a addr) refl
any_address-added a (s ∷ ss) addr key = elim (Bool-cases (a.beq s.address addr)) [
  | inl same ↦ rw same refl
  | inr apart ↦ rw apart (any_address-added a ss addr key)
]

module _ (sw : SliceWriter) {Sock : Type 0} (a : Eq SocketAddrV4) (e : Eq GroupKey)
    (groups_cap subscribers_per_group : ℕ)
    (groups : IndexMap GroupKey (List (Subscriber SocketAddrV4)) e groups_cap)
    (send_to : Sock → List ℕ → SocketAddrV4 → Option TransportError × Sock) where
  -- An address is among the subscribers of a group.
  abbrev pub is_subscribed : groups.M → GroupKey → SocketAddrV4 → Bool
  is_subscribed m key addr =
      any_address a (get_subscribers a e groups_cap subscribers_per_group groups m key) addr

  subscribed :
      (m : groups.M) (key : GroupKey) (addr : SocketAddrV4)
      → (subscribe a e groups_cap subscribers_per_group groups m key addr).0 ≡ ok tt
      → is_subscribed (subscribe a e groups_cap subscribers_per_group groups m key addr).1 key addr
        ≡ true
  subscribed m key addr h =
      let ss = get_subscribers a e groups_cap subscribers_per_group groups m key in
      rw
        (
          subscribe-accepted a e groups_cap subscribers_per_group groups m key addr key h,
          beq_refl e key,
        )
        (elim (Bool-cases (any_address a ss addr)) [
          | inl there ↦ rw there there
          | inr new ↦ rw new (any_address-added a ss addr key)
        ])

  taken_back-err :
      (key : GroupKey) (addr : SocketAddrV4) (failed : ServerError)
      → (p : Result ServerError (Unit {0}) × World Sock groups.M) → p.0 ≡ err failed
      → taken_back sw a e groups_cap subscribers_per_group groups send_to key addr p ≡ (
        ok tt,
        record p.1 {
          subscriptions =
              unsubscribe a e groups_cap subscribers_per_group groups p.1.subscriptions key addr;
        },
      )
  unfolding taken_back
  taken_back-err key addr failed (ok done, w) h = absurd (cc h)
  taken_back-err key addr failed (err x, w) h = refl
  taken_back-err key addr failed (panic, w) h = absurd (cc h)

  taken_back-ok :
      (key : GroupKey) (addr : SocketAddrV4)
      → (p : Result ServerError (Unit {0}) × World Sock groups.M) → p.0 ≡ ok tt
      → taken_back sw a e groups_cap subscribers_per_group groups send_to key addr p ≡ (ok tt, p.1)
  unfolding taken_back
  taken_back-ok key addr (ok done, w) h = refl
  taken_back-ok key addr (err x, w) h = absurd (cc h)
  taken_back-ok key addr (panic, w) h = absurd (cc h)

  answer_subscribed-ok :
      (w : World Sock groups.M) (buf : List ℕ) (c : ServerConfig) (r : EventGroupEntry)
      → (sender : SocketAddr) (addr : SocketAddrV4)
      → (p : Result SubscribeError (Unit {0}) × groups.M) → p.0 ≡ ok tt
      → answer_subscribed sw a e groups_cap subscribers_per_group groups send_to w buf c r sender
          addr p
        ≡ acknowledge sw a e groups_cap subscribers_per_group groups send_to
            (record w { subscriptions = p.1 })
            buf
            c
            r
            sender
            addr
  unfolding answer_subscribed
  answer_subscribed-ok w buf c r sender addr (ok done, m) h = refl
  answer_subscribed-ok w buf c r sender addr (err x, m) h = absurd (cc h)
  answer_subscribed-ok w buf c r sender addr (panic, m) h = absurd (cc h)

  module _ (w : World Sock groups.M) (buf : List ℕ) (c : ServerConfig) (vs : List OptionView)
      (r : EventGroupEntry) where
    handle_subscribe-Accepts :
        (sender : SocketAddr)
        → Accepts c r
        → handle_subscribe sw a e groups_cap subscribers_per_group groups send_to w buf c vs sender
            r
          ≡ subscribe_endpoint sw a e groups_cap subscribers_per_group groups send_to w buf c r
              sender
              (extract_subscriber_endpoint vs r.index_first_options_run r.options_count.first
                r.index_second_options_run r.options_count.second)
    unfolding handle_subscribe
    handle_subscribe-Accepts sender (inl co) = rw co refl
    handle_subscribe-Accepts sender (inr (s, i, m, g)) =
        elim (Bool-cases
          (accepts_offer c r.service_id r.instance_id r.major_version r.event_group_id)) [
            | inl co ↦ rw co refl
            | inr alone ↦
                rw
                  (
                    alone,
                    (==_iff r.service_id c.service_id).1 s,
                    (==_iff r.instance_id c.instance_id).1 i,
                    (==_iff r.major_version c.major_version).1 m,
                    g,
                  )
                  refl
          ]

    -- When the acknowledgement of a subscription cannot be sent, the address is not among the
    -- subscribers of the group afterwards, also when it was there before, and the handler goes on.
    pub acknowledge-unsubscribed :
        (sender : SocketAddr) (addr : SocketAddrV4) (failed : ServerError)
        → (send_subscribe_ack_from_view sw a e groups_cap subscribers_per_group groups send_to w buf
            c r sender).0
          ≡ err failed
        → ((acknowledge sw a e groups_cap subscribers_per_group groups send_to w buf c r sender
              addr).0
            ≡ ok tt)
          × (is_subscribed
                (acknowledge sw a e groups_cap subscribers_per_group groups send_to w buf c r sender
                  addr).1.subscriptions
                (group_named r)
                addr
              ≡ false)
    unfolding acknowledge
    acknowledge-unsubscribed sender addr failed h =
        let p =
          send_subscribe_ack_from_view sw a e groups_cap subscribers_per_group groups send_to w buf
            c r sender in
        let back = taken_back-err (key_of r) addr failed p h in
        (
          ap (λ (x : Result ServerError (Unit {0}) × World Sock groups.M). x.0) back,
          ap
                (λ (x : Result ServerError (Unit {0}) × World Sock groups.M).
                  is_subscribed x.1.subscriptions (key_of r) addr)
                back
              ∙ (unsubscribe-subscribers a e groups_cap subscribers_per_group groups
                  p.1.subscriptions (key_of r) addr (key_of r)).1,
        )

    -- A subscription to a service, an instance, a major version or an event group that is not
    -- offered is answered by a refusal with ttl 0, which its receiver can read, and the
    -- subscriptions are as they were, whatever comes of the send. The entry is in range, the sender
    -- has an IPv4 address and the buffer has 44 bytes.
    pub handle_subscribe-refused :
        (ip port : ℕ)
        → accepts_offer c r.service_id r.instance_id r.major_version r.event_group_id ≡ false
        → accepts c r ≡ false
        → IsEventGroupEntry r
        → 44 ≤ length buf
        → (result : Result ServerError (Unit {0}) × World Sock groups.M) × Replied sw a e groups_cap
            subscribers_per_group groups send_to w
            (reply_to r 0 ∷ [])
            []
            (record { ip = ip; port = port })
            result
          × ((handle_subscribe sw a e groups_cap subscribers_per_group groups send_to w buf c vs
                (v4 ip port)
                r).1
              ≡ result.1)
          × (result.1.subscriptions ≡ w.subscriptions)
    unfolding handle_subscribe send_subscribe_nack_from_view
    handle_subscribe-refused ip port alone rejected range room =
        let reply =
          ack-Replied sw a e groups_cap subscribers_per_group groups send_to r 0 range (omega arith)
            w buf ip port room in
        let result =
          send_sd sw a e groups_cap subscribers_per_group groups send_to w buf (ack_of r 0 ∷ []) []
            (v4 ip port) in
        (
          result,
          reply,
          elim (Bool-cases (r.service_id == c.service_id)) [
            | inr s ↦ rw (alone, s) refl
            | inl s ↦ elim (Bool-cases (r.instance_id == c.instance_id)) [
              | inr i ↦ rw (alone, s, i) refl
              | inl i ↦ elim (Bool-cases (r.major_version == c.major_version)) [
                | inr m ↦ rw (alone, s, i, m) refl
                | inl m ↦
                    let g : accepts_event_group c r.event_group_id ≡ false =
                      cc (rejected, s, i, m) in
                    rw (alone, s, i, m, g) refl
              ]
            ]
          ],
          ap (λ (x : Result ServerError (Unit {0}) × World Sock groups.M). x.1.subscriptions)
              reply.2,
        )

    -- What becomes of a subscription that is accepted: the handler's result, the subscriber's
    -- address in the group, and an acknowledgement that the sender can read.
    abbrev pub Acknowledged :
        SocketAddrV4 → SocketAddrV4 → Result ServerError (Unit {0}) × World Sock groups.M → Type 0
    Acknowledged sender addr result =
        (result.0 ≡ ok tt)
        × (is_subscribed result.1.subscriptions (group_named r) addr ≡ true)
        × Replied sw a e groups_cap subscribers_per_group groups send_to
            (record w {
              subscriptions =
                  (subscribe a e groups_cap subscribers_per_group groups w.subscriptions
                    (group_named r) addr).1;
            })
            (reply_to r c.ttl ∷ []) [] sender result

    -- A subscription to a service that is offered, whose options are read and have an IPv4 endpoint
    -- in one of its runs: when the group has room and the send has no error, the first such address
    -- is among the subscribers of the group and the sender is sent an acknowledgement with the
    -- server's ttl. The entry and the ttl are in range and the buffer has 44 bytes.
    pub handle_subscribe-Acknowledged :
        (os : List Options) (ip port endpoint_ip endpoint_port : ℕ) (protocol : TransportProtocol)
        → own_all own_option vs ≡ ok os
        → Accepts c r
        → IsEventGroupEntry r
        → IsU24 c.ttl
        → 44 ≤ length buf
        → extract_ipv4_endpoint (
            run os r.index_first_options_run r.options_count.first
            ++ run os r.index_second_options_run r.options_count.second)
          ≡ some ((endpoint_ip, endpoint_port), protocol)
        → (subscribe a e groups_cap subscribers_per_group groups w.subscriptions
            (group_named r)
            (record { ip = endpoint_ip; port = endpoint_port })).0
          ≡ ok tt
        → ((s : Sock) (d : List ℕ) (t : SocketAddrV4) → (send_to s d t).0 ≡ none)
        → Acknowledged
            (record { ip = ip; port = port })
            (record { ip = endpoint_ip; port = endpoint_port })
            (handle_subscribe sw a e groups_cap subscribers_per_group groups send_to w buf c vs
              (v4 ip port)
              r)
    unfolding subscribe_endpoint acknowledge send_subscribe_ack_from_view
    handle_subscribe-Acknowledged os ip port endpoint_ip endpoint_port protocol owned ok_config
          range short room first recorded works =
        let addr : SocketAddrV4 = record { ip = endpoint_ip; port = endpoint_port } in
        let next : World Sock groups.M = record w {
          subscriptions =
              (subscribe a e groups_cap subscribers_per_group groups w.subscriptions (key_of r)
                addr).1;
        } in
        let (datagram, reads, replied) =
          ack-Replied sw a e groups_cap subscribers_per_group groups send_to r c.ttl range short
            next buf ip port room in
        let found =
          extract_subscriber_endpoint-first vs os r.index_first_options_run r.options_count.first
            r.index_second_options_run r.options_count.second owned in
        let fine = works w.socket datagram (record { ip = ip; port = port }) in
        let whole : handle_subscribe sw a e groups_cap subscribers_per_group groups send_to w buf c
              vs (v4 ip port) r
            ≡ (
              ok tt,
              record {
                socket = (send_to w.socket datagram (record { ip = ip; port = port })).1;
                sd_state = (next_session_id_with_reboot_flag w.sd_state).2;
                subscriptions = next.subscriptions;
              },
            ) =
          handle_subscribe-Accepts (v4 ip port) ok_config
          ∙ rw (found, first)
              (answer_subscribed-ok w buf c r (v4 ip port) addr
                  (subscribe a e groups_cap subscribers_per_group groups w.subscriptions (key_of r)
                    addr)
                  recorded
                ∙ taken_back-ok (key_of r) addr
                    (send_sd sw a e groups_cap subscribers_per_group groups send_to next buf
                      (ack_of r c.ttl ∷ []) [] (v4 ip port))
                    (rw (replied, fine) refl)
                ∙ rw replied refl) in
        rw whole (
          refl,
          subscribed w.subscriptions (key_of r) addr recorded,
          (datagram, reads, rw fine refl),
        )
