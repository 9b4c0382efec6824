-- ===== src/Tests/Runtime.antt =====
-- Runs of the subscription handler.
use simple_someip.Prelude.{
  ℕ, ◌≡◌, ◌↔◌, refl, arith, Bool, true, false, ◌&&◌, List, [], ◌∷◌, ◌++◌, replicate, Option, none,
  Result, ok, err, ◌==◌, inr,
}
use simple_someip.Prelude.Eq.{Eq}
use simple_someip.Maps.{IndexMap}
use simple_someip.SdCodec.Build.{write_sd}
use simple_someip.Server.SdState.{next_session_id_with_reboot_flag}
use simple_someip.Sd.Entry.{EventGroupEntry, IsEventGroupEntry}
use simple_someip.Sd.Options.{udp, extract_ipv4_endpoint}
use simple_someip.Sd.Options.Encode.{option_bytes}
use simple_someip.Sd.Options.View.{OptionView}
use simple_someip.Sd.Options.RoundTrip.{to_owned-option_bytes}
use simple_someip.Payload.{own_all, own_option}
use simple_someip.NetEndpoint.{SocketAddrV4, v4}
use simple_someip.Transport.{TransportError}
use simple_someip.Server.Error.{ServerError, capacity}
use simple_someip.Server.Config.{ServerConfig, accepts_offer, offers, accepts_event_group}
use simple_someip.Server.Subscriptions.{
  GroupKey, Subscriber, subscribe, subscribe_to, any_address, new_subscriber,
}
use simple_someip.Server.Runtime.{
  World, acknowledge, send_subscribe_ack_from_view, send_sd, send_datagram, sd_datagram,
  handle_subscribe,
}
use simple_someip.Server.Runtime.Endpoint.{extract_subscriber_endpoint}
use simple_someip.Server.Runtime.Found.{run, address_of, extract_subscriber_endpoint-first}
use simple_someip.Server.Runtime.Replies.{Replied}
use simple_someip.Server.Runtime.Replies.{reply_to, group_named}
use simple_someip.Server.Runtime.Handled.{
  Acknowledged, is_subscribed, handle_subscribe-Acknowledged, handle_subscribe-refused,
  acknowledge-unsubscribed,
}
use simple_someip.Tests.Data.{endpoint}
use simple_someip.Tests.Maps.{group_eq, list_map, lookup, insert_at}
use simple_someip.Tests.Slices.{slice_writer}

pub addr_beq : SocketAddrV4 → SocketAddrV4 → Bool
addr_beq a b = a.ip == b.ip && a.port == b.port

pub addr_beq_iff : (a b : SocketAddrV4) → (addr_beq a b ≡ true) ↔ (a ≡ b)
unfolding addr_beq
addr_beq_iff a b = ground arith

abbrev pub addr_eq : Eq SocketAddrV4
addr_eq = record { beq = addr_beq; beq_iff = addr_beq_iff }

abbrev pub groups : IndexMap GroupKey (List (Subscriber SocketAddrV4)) group_eq 2
groups = list_map GroupKey (List (Subscriber SocketAddrV4)) group_eq 2

-- A socket that logs what is sent.
abbrev pub log_socket :
    List (List ℕ) → List ℕ → SocketAddrV4 → Option TransportError × List (List ℕ)
log_socket log datagram addr = (none, datagram ∷ log)

abbrev pub world : World (List (List ℕ)) (List (GroupKey × List (Subscriber SocketAddrV4)))
world = record { socket = []; sd_state = 0; subscriptions = [] }

abbrev pub server : ServerConfig
server = record {
  interface = 0;
  local_port = 30500;
  service_id = 0x1234;
  instance_id = 1;
  major_version = 1;
  minor_version = 0;
  ttl = 3;
  event_group_ids = [];
  announce = true;
  accepted_offers = [];
}

abbrev request : EventGroupEntry
request = record {
  index_first_options_run = 0;
  index_second_options_run = 0;
  options_count = record { first = 1; second = 0 };
  service_id = 0x1234;
  instance_id = 1;
  major_version = 1;
  ttl = 3;
  counter = 0;
  event_group_id = 7;
}

request-IsEventGroupEntry : IsEventGroupEntry request
request-IsEventGroupEntry = record {
  first_index = omega arith;
  second_index = omega arith;
  count = record { first_range = omega arith; second_range = omega arith };
  service = omega arith;
  instance_range = omega arith;
  major = omega arith;
  ttl_range = omega arith;
  counter_range = omega arith;
  group = omega arith;
}

abbrev views : List OptionView
views = record { bytes = option_bytes endpoint } ∷ []

views-owned : own_all own_option views ≡ ok (endpoint ∷ [])
unfolding own_all
views-owned = rw (to_owned-option_bytes endpoint (omega arith, omega arith)) refl

extract_subscriber_endpoint-first_example :
    extract_subscriber_endpoint views 0 1 0 0
    ≡ ok (address_of (extract_ipv4_endpoint (run (endpoint ∷ []) 0 1 ++ run (endpoint ∷ []) 0 0)))
extract_subscriber_endpoint-first_example =
    extract_subscriber_endpoint-first views (endpoint ∷ []) 0 1 0 0 views-owned

handle_subscribe-Acknowledged_example :
    Acknowledged slice_writer addr_eq group_eq 2 2 groups log_socket world
      (replicate 44 0)
      server
      views
      request
      (record { ip = 9; port = 30490 })
      (record { ip = 0xc0a80001; port = 30490 })
      (handle_subscribe slice_writer addr_eq group_eq 2 2 groups log_socket world
        (replicate 44 0)
        server
        views
        (v4 9 30490)
        request)
handle_subscribe-Acknowledged_example =
    handle_subscribe-Acknowledged slice_writer addr_eq group_eq 2 2 groups log_socket world
      (replicate 44 0) server views request (endpoint ∷ []) 9 30490 0xc0a80001 30490 udp views-owned
      (unfold accepts_event_group in inr (refl, refl, refl, refl)) request-IsEventGroupEntry
      (omega arith) (omega arith) (unfold extract_ipv4_endpoint in refl)
      (unfold subscribe subscribe_to lookup any_address insert_at in refl) (λ s d t. refl)

abbrev stranger : EventGroupEntry
stranger = record request { service_id = 0x4321 }

stranger-IsEventGroupEntry : IsEventGroupEntry stranger
stranger-IsEventGroupEntry = record {
  first_index = omega arith;
  second_index = omega arith;
  count = record { first_range = omega arith; second_range = omega arith };
  service = omega arith;
  instance_range = omega arith;
  major = omega arith;
  ttl_range = omega arith;
  counter_range = omega arith;
  group = omega arith;
}

handle_subscribe-refused_example :
    (result : Result ServerError (Unit {0}) × World (List (List ℕ)) groups.M) × Replied slice_writer
      addr_eq group_eq 2 2 groups log_socket world
      (reply_to stranger 0 ∷ [])
      []
      (record { ip = 9; port = 30490 })
      result
    × ((handle_subscribe slice_writer addr_eq group_eq 2 2 groups log_socket world
          (replicate 44 0)
          server
          views
          (v4 9 30490)
          stranger).1
        ≡ result.1)
    × (result.1.subscriptions ≡ world.subscriptions)
handle_subscribe-refused_example =
    handle_subscribe-refused slice_writer addr_eq group_eq 2 2 groups log_socket world
      (replicate 44 0) server views stranger 9 30490 (unfold accepts_offer offers in refl) refl
      stranger-IsEventGroupEntry (omega arith)

-- The address is there before, and the buffer is too short for an acknowledgement.
abbrev subscribed : World (List (List ℕ)) (List (GroupKey × List (Subscriber SocketAddrV4)))
subscribed = record world {
  subscriptions =
      (
        group_named request,
        new_subscriber (record { ip = 9; port = 30490 }) (group_named request) ∷ [],
      )
      ∷ [];
}

ack_fails :
    (send_subscribe_ack_from_view slice_writer addr_eq group_eq 2 2 groups log_socket subscribed
      (replicate 8 0)
      server
      request
      (v4 9 30490)).0
    ≡ err capacity
unfolding send_subscribe_ack_from_view send_sd send_datagram sd_datagram write_sd
    next_session_id_with_reboot_flag
ack_fails = refl

acknowledge-unsubscribed_example :
    ((acknowledge slice_writer addr_eq group_eq 2 2 groups log_socket subscribed
        (replicate 8 0)
        server
        request
        (v4 9 30490)
        (record { ip = 9; port = 30490 })).0
      ≡ ok tt)
    × (is_subscribed slice_writer addr_eq group_eq 2 2 groups log_socket
          (acknowledge slice_writer addr_eq group_eq 2 2 groups log_socket subscribed
            (replicate 8 0)
            server
            request
            (v4 9 30490)
            (record { ip = 9; port = 30490 })).1.subscriptions
          (group_named request)
          (record { ip = 9; port = 30490 })
        ≡ false)
acknowledge-unsubscribed_example =
    acknowledge-unsubscribed slice_writer addr_eq group_eq 2 2 groups log_socket subscribed
      (replicate 8 0) server views request (v4 9 30490) (record { ip = 9; port = 30490 }) capacity
      ack_fails
