-- ===== src/Tests/Receive.antt =====
-- Runs of the receive loop.
use simple_someip.Prelude.{
  ℕ, zero, suc, panic, ◌≢◌, ◌≡◌, refl, arith, false, List, [], ◌∷◌, map, replicate, take, drop,
  none, Result, ok, inr,
}
use simple_someip.Prelude.Eq.{nat_eq}
use simple_someip.Bytes.{IsBytes, index, slice, slice_from}
use simple_someip.Protocol.MessageId.{is_sd}
use simple_someip.Protocol.Header as Header
use simple_someip.Protocol.Message.{parse}
use simple_someip.Protocol.Message.RoundTrip.{written_view}
use simple_someip.Sd.Flags.{recently_rebooted}
use simple_someip.E2e.Registry.{E2eRegistry}
use simple_someip.NetEndpoint.{SocketAddrV4}
use simple_someip.SdCodec.Build.{build_subscribe_eventgroup_datagram}
use simple_someip.SdCodec.Offers.{subscribe_entry}
use simple_someip.Server.Error.{ServerError}
use simple_someip.Server.Config.{accepts_event_group}
use simple_someip.Server.Subscriptions.{GroupKey, Subscriber, subscribe, subscribe_to, any_address}
use simple_someip.Server.Runtime.{World}
use simple_someip.Server.Runtime.Handled.{Acknowledged}
use simple_someip.Server.Runtime.Endures.{IsConfig, Fine}
use simple_someip.Server.Receive.{Node, Reception, with_world, receive, recv_loop, respond, pos}
use simple_someip.Server.Receive.Joined.{receive-Acknowledged}
use simple_someip.Server.Receive.Survives.{recv_loop-Fine}
use simple_someip.Server.Receive.Answered.{Answers, respond-Answers}
use simple_someip.Tests.Maps.{group_eq, key_eq, rx_eq, lookup, insert_at}
use simple_someip.Tests.E2e.{crcs, profiles, senders, receivers}
use simple_someip.Tests.Slices.{slice_writer}
use simple_someip.Tests.Datagrams.{request, request-IsSubscribe}
use simple_someip.Tests.Publish.{event_header, event_header-IsHeader, both_ends}
use simple_someip.Tests.Runtime.{addr_eq, groups, log_socket, world, server}

abbrev node :
    Node
      (List (List ℕ))
      (List (GroupKey × List (Subscriber SocketAddrV4)))
      (E2eRegistry nat_eq key_eq rx_eq profiles senders receivers)
      ℕ
node = record { world = world; unicast = []; registry = both_ends; kept = 0 }

abbrev client : SocketAddrV4
client = record { ip = 0xc0a80001; port = 30490 }

receive-Acknowledged_example :
    (n : ℕ) × (out : List ℕ) × (answer : Result ServerError (Unit {0})
      × World (List (List ℕ)) groups.M)
    × (build_subscribe_eventgroup_datagram slice_writer (replicate 64 0) request 1 recently_rebooted
        ≡ ok (n, out))
    × (receive slice_writer addr_eq group_eq 2 2 groups log_socket nat_eq
          (λ n. n)
          key_eq
          rx_eq
          profiles
          senders
          receivers
          crcs
          node
          server
          none
          (record {
            from_unicast = false;
            data_received = take n out;
            source = client;
            send_buf = replicate 64 0;
          })
        ≡ with_world node answer)
    × Acknowledged slice_writer addr_eq group_eq 2 2 groups log_socket world
        (replicate 64 0)
        server
        []
        (subscribe_entry request)
        client
        (record { ip = 0xc0a80001; port = 30500 })
        answer
receive-Acknowledged_example =
    receive-Acknowledged slice_writer addr_eq group_eq 2 2 groups log_socket nat_eq (λ n. n) key_eq
      rx_eq profiles senders receivers crcs (replicate 64 0) 1 request recently_rebooted
      (omega arith) request-IsSubscribe (omega arith) node server none false client (replicate 64 0)
      (unfold accepts_event_group in inr (refl, refl, refl, refl)) (omega arith) (omega arith)
      (unfold subscribe subscribe_to lookup any_address insert_at in refl) (λ s d t. refl)

server-IsConfig : IsConfig server
server-IsConfig = record {
  interface_range = omega arith;
  port_range = omega arith;
  service_range = omega arith;
  instance_range = omega arith;
  major_range = omega arith;
  minor_range = omega arith;
  ttl_range = omega arith;
}

replicate-IsBytes : (n : ℕ) → IsBytes (replicate n 0)
replicate-IsBytes zero = tt
replicate-IsBytes (suc n) = (omega arith, replicate-IsBytes n)

-- A datagram that is too short and one that is no message.
abbrev noise : List Reception
noise =
    record {
      from_unicast = false;
      data_received = 1 ∷ 2 ∷ [];
      source = client;
      send_buf = replicate 64 0;
    }
    ∷ record {
      from_unicast = false;
      data_received = replicate 16 0;
      source = client;
      send_buf = replicate 64 0;
    }
    ∷ []

short : parse (1 ∷ 2 ∷ []) ≢ panic
unfolding parse Header.parse
short p = cc p

foreign : parse (replicate 16 0) ≢ panic
unfolding parse Header.parse index slice slice_from
foreign p = cc p

recv_loop-Fine_example : Fine (
    recv_loop slice_writer addr_eq group_eq 2 2 groups log_socket nat_eq
      (λ n. n)
      key_eq
      rx_eq
      profiles
      senders
      receivers
      crcs
      server
      none
      (map ok noise)
      node)
recv_loop-Fine_example =
    recv_loop-Fine slice_writer addr_eq group_eq 2 2 groups log_socket nat_eq (λ n. n) key_eq rx_eq
      profiles senders receivers crcs (λ s d t. refl) server server-IsConfig noise node
      (
        ((omega arith, (omega arith, tt)), short, omega arith),
        ((replicate-IsBytes 16, foreign, omega arith), tt),
      )

respond-Answers_example :
    (datagram : List ℕ) × (respond slice_writer addr_eq group_eq 2 2 groups log_socket nat_eq
        (λ n. n)
        key_eq
        rx_eq
        profiles
        senders
        receivers
        crcs
        node
        client
        (written_view event_header)
        (replicate 64 7)
        (pos 4)
      ≡ (ok tt, record node { unicast = datagram ∷ [] }))
    × Answers event_header (take 4 (drop 16 (replicate 64 7))) datagram
respond-Answers_example =
    respond-Answers slice_writer addr_eq group_eq 2 2 groups log_socket nat_eq (λ n. n) key_eq rx_eq
      profiles senders receivers crcs node client event_header (replicate 64 7) 4
      event_header-IsHeader (unfold Header.is_sd is_sd in refl) (omega arith) (omega arith)
