-- ===== src/Server/Runtime.antt =====
-- src/server/runtime.rs and the sender of announcements of src/server/sd_state.rs. The socket is a
-- parameter, as for the publisher. The buffer of a send is written before it is read, so the
-- same buffer is handed to each send. Each await is a call that runs to its end.
pub mod Endpoint
pub mod Found
pub mod Replies
pub mod Handled
pub mod Walked
pub mod Endures
use simple_someip.Prelude.{
  ℕ, Bool, true, false, not, ◌&&◌, ◌||◌, List, [], ◌∷◌, ◌==◌, if◌then◌else◌, Option, none, some,
  Result, ok, err, panic, map_err, ◌>>=◌,
}
use simple_someip.Prelude.Eq.{Eq}
use simple_someip.Maps.{IndexMap}
use simple_someip.Bytes.{slice}
use simple_someip.Bytes.Slice.{SliceWriter}
use simple_someip.Protocol.Error as Protocol
use simple_someip.Protocol.Error.{SdError}
use simple_someip.Sd.Flags.{RebootFlag}
use simple_someip.Sd.Entry.{
  Entry, EntryType, ServiceEntry, EventGroupEntry, offer_service_entry, subscribe_ack_event_group,
  find_service, offer_service, stop_offer_service, subscribe as subscribe_type, subscribe_ack,
}
use simple_someip.Sd.Entry.View.{EntryView, entry_type, to_event_group_entry, iterate as entries_of}
use simple_someip.Sd.Options.{Options, endpoint_v4, udp}
use simple_someip.Sd.Options.View.{OptionView, iterate as options_of}
use simple_someip.Sd.Header.{SdHeaderView}
use simple_someip.NetEndpoint.{SocketAddr, SocketAddrV4, v4, v6}
use simple_someip.SdCodec.Build.{write_sd}
use simple_someip.Transport.{TransportError, unsupported}
use simple_someip.Server.Error.{ServerError, protocol, transport, capacity}
use simple_someip.Server.Config.{ServerConfig, accepts_offer, accepts_event_group}
use simple_someip.Server.SdState.{next_session_id_with_reboot_flag}
use simple_someip.Server.Subscriptions.{
  GroupKey, Subscriber, SubscribeError, subscribe, unsubscribe,
}
use Endpoint.{extract_subscriber_endpoint}

-- 239.255.0.255 and 30490, where service discovery listens.
abbrev pub multicast_ip : ℕ
multicast_ip = 4026466559

abbrev pub multicast_port : ℕ
multicast_port = 30490

-- What the handlers change: the socket, the word of the session counter, and the subscriptions.
pub record World (Sock M : Type 0) : Type 0 where
  pub socket : Sock
  pub sd_state : ℕ
  pub subscriptions : M

-- `OptionsCount::new(1, 0)` and `ServiceEntry { .. }`.
unfoldable pub offer_of : ServerConfig → Entry
offer_of config = offer_service_entry (record {
  index_first_options_run = 0;
  index_second_options_run = 0;
  options_count = record { first = 1; second = 0 };
  service_id = config.service_id;
  instance_id = config.instance_id;
  major_version = config.major_version;
  ttl = config.ttl;
  minor_version = config.minor_version;
})

unfoldable pub endpoint_of : ServerConfig → Options
endpoint_of config = endpoint_v4 config.interface udp config.local_port

-- The acknowledgement of a subscription, and with ttl 0 its refusal.
unfoldable pub ack_of : EventGroupEntry → ℕ → Entry
ack_of request ttl = subscribe_ack_event_group (record {
  index_first_options_run = 0;
  index_second_options_run = 0;
  options_count = record { first = 0; second = 0 };
  service_id = request.service_id;
  instance_id = request.instance_id;
  major_version = request.major_version;
  ttl = ttl;
  counter = request.counter;
  event_group_id = request.event_group_id;
})

-- `if let Err(e) = ..`: an error is logged, and the handler goes on.
abbrev pub logged {ℓ} :
    {W : Type ℓ} → Result ServerError (Unit {0}) × W → Result ServerError (Unit {0}) × W
logged (result, w) = (elim result [ ok done ↦ ok tt | err e ↦ ok tt | panic ↦ panic ], w)

-- `.await?` on the first call, and then the second one.
abbrev pub then_go {ℓ} :
    {W : Type ℓ}
    → Result ServerError (Unit {0}) × W
    → (W → Result ServerError (Unit {0}) × W)
    → Result ServerError (Unit {0}) × W
then_go (result, w) next = elim result [
  | ok done ↦ next w
  | err e ↦ (err e, w)
  | panic ↦ (panic, w)
]

abbrev pub sent : Option TransportError → Result ServerError (Unit {0})
sent none = ok tt
sent (some failed) = err (transport failed)

abbrev pub key_of : EventGroupEntry → GroupKey
key_of request = record {
  service_id = request.service_id;
  instance_id = request.instance_id;
  event_group_id = request.event_group_id;
}

module _ (sw : SliceWriter) {Sock : Type 0} (a : Eq SocketAddrV4) (e : Eq GroupKey)
    (groups_cap subscribers_per_group : ℕ)
    (groups : IndexMap GroupKey (List (Subscriber SocketAddrV4)) e groups_cap)
    (send_to : Sock → List ℕ → SocketAddrV4 → Option TransportError × Sock) where
  abbrev W : Type 0
  W = World Sock groups.M

  -- `&buf[..total_len]` of what was encoded.
  unfoldable pub sd_datagram :
      List ℕ → List Entry → List Options → ℕ → RebootFlag → Result ServerError (List ℕ)
  sd_datagram buf entries options session reboot = do
    (total_len, out) ← write_sd sw capacity capacity buf entries options session reboot
    slice out 0 total_len

  -- `socket_addr_v4(target)?` and the send.
  unfoldable pub send_datagram :
      World Sock groups.M
      → Result ServerError (List ℕ)
      → SocketAddr
      → Result ServerError (Unit {0}) × World Sock groups.M
  send_datagram w (ok datagram) (v4 ip port) =
      let (failed, socket) = send_to w.socket datagram (record { ip = ip; port = port }) in
      (sent failed, record w { socket = socket })
  send_datagram w (ok datagram) (v6 ip port) = (err (transport unsupported), w)
  send_datagram w (err failed) target = (err failed, w)
  send_datagram w panic target = (panic, w)

  -- The session id is taken before the buffer is looked at.
  unfoldable pub send_sd :
      World Sock groups.M
      → List ℕ
      → List Entry
      → List Options
      → SocketAddr
      → Result ServerError (Unit {0}) × World Sock groups.M
  send_sd w buf entries options target =
      let (session, reboot, word) = next_session_id_with_reboot_flag w.sd_state in
      send_datagram (record w { sd_state = word }) (sd_datagram buf entries options session reboot)
        target

  unfoldable pub send_unicast_offer :
      World Sock groups.M
      → List ℕ
      → ServerConfig
      → SocketAddr
      → Result ServerError (Unit {0}) × World Sock groups.M
  send_unicast_offer w buf config target =
      send_sd w buf (offer_of config ∷ []) (endpoint_of config ∷ []) target

  unfoldable pub send_offer_service :
      World Sock groups.M
      → List ℕ
      → ServerConfig
      → Result ServerError (Unit {0}) × World Sock groups.M
  send_offer_service w buf config =
      send_sd w buf (offer_of config ∷ []) (endpoint_of config ∷ [])
        (v4 multicast_ip multicast_port)

  unfoldable pub send_subscribe_ack_from_view :
      World Sock groups.M
      → List ℕ
      → ServerConfig
      → EventGroupEntry
      → SocketAddr
      → Result ServerError (Unit {0}) × World Sock groups.M
  send_subscribe_ack_from_view w buf config request subscriber =
      send_sd w buf (ack_of request config.ttl ∷ []) [] subscriber

  unfoldable pub send_subscribe_nack_from_view :
      World Sock groups.M
      → List ℕ
      → EventGroupEntry
      → SocketAddr
      → Result ServerError (Unit {0}) × World Sock groups.M
  send_subscribe_nack_from_view w buf request subscriber =
      send_sd w buf (ack_of request 0 ∷ []) [] subscriber

  -- The match on the acknowledgement: when it cannot be sent, the subscription is taken back.
  unfoldable pub taken_back :
      GroupKey
      → SocketAddrV4
      → Result ServerError (Unit {0}) × World Sock groups.M
      → Result ServerError (Unit {0}) × World Sock groups.M
  taken_back key endpoint (ok done, w) = (ok tt, w)
  taken_back key endpoint (err failed, w) = (
    ok tt,
    record w {
      subscriptions =
          unsubscribe a e groups_cap subscribers_per_group groups w.subscriptions key endpoint;
    },
  )
  taken_back key endpoint (panic, w) = (panic, w)

  unfoldable pub acknowledge :
      World Sock groups.M
      → List ℕ
      → ServerConfig
      → EventGroupEntry
      → SocketAddr
      → SocketAddrV4
      → Result ServerError (Unit {0}) × World Sock groups.M
  acknowledge w buf config request sender endpoint =
      taken_back (key_of request) endpoint
        (send_subscribe_ack_from_view w buf config request sender)

  -- The match on what became of the subscription.
  unfoldable pub answer_subscribed :
      World Sock groups.M
      → List ℕ
      → ServerConfig
      → EventGroupEntry
      → SocketAddr
      → SocketAddrV4
      → Result SubscribeError (Unit {0}) × groups.M
      → Result ServerError (Unit {0}) × World Sock groups.M
  answer_subscribed w buf config request sender endpoint (ok done, m) =
      acknowledge (record w { subscriptions = m }) buf config request sender endpoint
  answer_subscribed w buf config request sender endpoint (err reason, m) =
      logged (send_subscribe_nack_from_view (record w { subscriptions = m }) buf request sender)
  answer_subscribed w buf config request sender endpoint (panic, m) =
      (panic, record w { subscriptions = m })

  -- The match on the endpoint. Its walk ignores every error.
  unfoldable pub subscribe_endpoint :
      World Sock groups.M
      → List ℕ
      → ServerConfig
      → EventGroupEntry
      → SocketAddr
      → Result SdError (Option SocketAddrV4)
      → Result ServerError (Unit {0}) × World Sock groups.M
  subscribe_endpoint w buf config request sender (ok none) =
      logged (send_subscribe_nack_from_view w buf request sender)
  subscribe_endpoint w buf config request sender (ok (some endpoint)) =
      answer_subscribed w buf config request sender endpoint (
        subscribe a e groups_cap subscribers_per_group groups w.subscriptions (key_of request)
          endpoint)
  subscribe_endpoint w buf config request sender (err failed) =
      (err (protocol (Protocol.sd failed)), w)
  subscribe_endpoint w buf config request sender panic = (panic, w)

  -- The arm of a subscription: the four guards, and then the endpoint.
  unfoldable pub handle_subscribe :
      World Sock groups.M
      → List ℕ
      → ServerConfig
      → List OptionView
      → SocketAddr
      → EventGroupEntry
      → Result ServerError (Unit {0}) × World Sock groups.M
  handle_subscribe w buf config options sender request =
      let co_offered =
        accepts_offer config request.service_id request.instance_id request.major_version
          request.event_group_id in
      if not co_offered && not (request.service_id == config.service_id)
      then send_subscribe_nack_from_view w buf request sender
      else if not co_offered && not (request.instance_id == config.instance_id)
      then send_subscribe_nack_from_view w buf request sender
      else if not co_offered && not (request.major_version == config.major_version)
      then logged (send_subscribe_nack_from_view w buf request sender)
      else if not co_offered && not (accepts_event_group config request.event_group_id)
      then logged (send_subscribe_nack_from_view w buf request sender)
      else subscribe_endpoint w buf config request sender (
          extract_subscriber_endpoint options request.index_first_options_run
            request.options_count.first request.index_second_options_run
            request.options_count.second)

  unfoldable pub handle_find :
      World Sock groups.M
      → List ℕ
      → ServerConfig
      → SocketAddr
      → ℕ
      → Result ServerError (Unit {0}) × World Sock groups.M
  handle_find w buf config sender find_service_id =
      if find_service_id == config.service_id || find_service_id == 0xffff
      then logged (send_unicast_offer w buf config sender)
      else (ok tt, w)

  -- The match on the type of an entry.
  unfoldable pub handle_entry :
      List ℕ
      → ServerConfig
      → List OptionView
      → SocketAddr
      → EntryView
      → Result SdError EntryType
      → World Sock groups.M
      → Result ServerError (Unit {0}) × World Sock groups.M
  handle_entry buf config options sender v (ok subscribe_type) w =
      handle_subscribe w buf config options sender (to_event_group_entry v)
  handle_entry buf config options sender v (ok find_service) w =
      handle_find w buf config sender (to_event_group_entry v).service_id
  handle_entry buf config options sender v (ok _) w = (ok tt, w)
  handle_entry buf config options sender v (err failed) w = (err (protocol (Protocol.sd failed)), w)
  handle_entry buf config options sender v panic w = (panic, w)

  -- The loop over the entries.
  unfoldable pub handle_entries :
      List ℕ
      → ServerConfig
      → List OptionView
      → SocketAddr
      → List EntryView
      → World Sock groups.M
      → Result ServerError (Unit {0}) × World Sock groups.M
  handle_entries buf config options sender [] w = (ok tt, w)
  handle_entries buf config options sender (v ∷ vs) w =
      then_go (handle_entry buf config options sender v (entry_type v) w)
        (λ next. handle_entries buf config options sender vs next)

  unfoldable pub handle_sd_message :
      World Sock groups.M
      → List ℕ
      → ServerConfig
      → SdHeaderView
      → SocketAddr
      → Result ServerError (Unit {0}) × World Sock groups.M
  handle_sd_message w buf config view sender =
      handle_entries buf config (options_of view.options_buf) sender (entries_of view.entries_buf) w
