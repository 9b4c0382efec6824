-- ===== src/Server/Receive/Survives.antt =====
-- The receive loop of src/server/runtime.rs over every sequence of datagrams.
use simple_someip.Prelude.{
  ℕ, ◌-◌, ◌≤◌, ◌≡◌, ◌≢◌, inl, inr, refl, Bool-cases, List, [], ◌∷◌, All, map, length, Option, none,
  ok, panic, Result-cases,
}
use simple_someip.Prelude.Eq.{Eq}
use simple_someip.Maps.{IndexMap}
use simple_someip.Bytes.{IsBytes}
use simple_someip.Bytes.Facts.{take-IsBytes, drop-IsBytes}
use simple_someip.Bytes.Slice.{SliceWriter}
use simple_someip.Protocol.Header.{view_length}
use simple_someip.Protocol.Header.RoundTrip.{parse-parts}
use simple_someip.Protocol.Message.{MessageView, parse, is_sd, sd_header}
use simple_someip.Protocol.Message.Parse.{parse-Accepted}
use simple_someip.Sd.Header as SdHeader
use simple_someip.Sd.Header.Overflow as Overflow
use simple_someip.Sd.Header.Views.{parse-Views}
use simple_someip.E2e.Profile.{E2eKey, E2eProfile, E2eState, Crcs}
use simple_someip.E2e.Registry.{E2eRegistry, RxKey, registry_cap, rx_state_cap}
use simple_someip.NetEndpoint.{SocketAddrV4}
use simple_someip.Transport.{TransportError}
use simple_someip.Server.Config.{ServerConfig}
use simple_someip.Server.Subscriptions.{GroupKey, Subscriber}
use simple_someip.Server.Runtime.Endures.{IsConfig, Fine, then_go-Fine, handle_sd_message-Fine}
use simple_someip.Server.Receive.{
  Node, Reception, receive, receive_view, receive_sd, receive_request, recv_loop,
}

payload-IsBytes :
    (buf : List ℕ) (m : MessageView) → IsBytes buf → parse buf ≡ ok m → IsBytes m.payload
payload-IsBytes buf m b p =
    let (rest, head, _, cut, _, _) = parse-Accepted buf m b p in
    let (_, from, _) = parse-parts buf m.header rest head in
    rw (cut, from) (take-IsBytes (view_length m.header - 8) _ (drop-IsBytes 16 buf b))

-- A reception of bytes on which the parser of messages does not panic, with a send buffer for every
-- answer.
abbrev pub IsReception : Reception → Type 0
IsReception r = IsBytes r.data_received × (parse r.data_received ≢ panic) × (56 ≤ length r.send_buf)

module _ (sw : SliceWriter) {Sock Kept Ip : Type 0} (a : Eq SocketAddrV4) (e : Eq GroupKey)
    (groups_cap subscribers_per_group : ℕ)
    (groups : IndexMap GroupKey (List (Subscriber SocketAddrV4)) e groups_cap)
    (send_to : Sock → List ℕ → SocketAddrV4 → Option TransportError × Sock) (ip : Eq Ip)
    (ip_v4 : ℕ → Ip) (ke : Eq E2eKey) (re : Eq (RxKey Ip))
    (profiles : IndexMap E2eKey E2eProfile ke registry_cap)
    (senders : IndexMap E2eKey E2eState ke registry_cap)
    (receivers : IndexMap (RxKey Ip) E2eState re rx_state_cap) (crcs : Crcs)
    (works : (s : Sock) (d : List ℕ) (t : SocketAddrV4) → (send_to s d t).0 ≡ none)
    (c : ServerConfig) (range : IsConfig c) where
  receive_view-Fine :
      (node : Node Sock groups.M (E2eRegistry ip ke re profiles senders receivers) Kept)
      → (r : Reception) (m : MessageView) → IsBytes m.payload
      → 56 ≤ length r.send_buf
      → Fine (
          receive_view sw a e groups_cap subscribers_per_group groups send_to ip ip_v4 ke re
            profiles senders receivers crcs node c none r
            (ok m))
  unfolding receive_view receive_sd receive_request is_sd sd_header
  receive_view-Fine node r m b room = elim (Bool-cases (is_sd m)) [
    | inr other ↦ rw other refl
    | inl found ↦ elim (Result-cases (SdHeader.parse m.payload)) [
      | inl (view, p) ↦
          let (typed, valid) = parse-Views m.payload view p b in
          rw (found, p)
            (handle_sd_message-Fine sw a e groups_cap subscribers_per_group groups send_to works
              r.send_buf room c range r.source.ip r.source.port node.world view typed valid)
      | inr (inl (x, p)) ↦ rw (found, p) refl
      | inr (inr p) ↦ absurd (Overflow.parse-ne-panic m.payload p)
    ]
  ]

  receive-Fine :
      (node : Node Sock groups.M (E2eRegistry ip ke re profiles senders receivers) Kept)
      → (r : Reception) → IsReception r
      → Fine (
          receive sw a e groups_cap subscribers_per_group groups send_to ip ip_v4 ke re profiles
            senders receivers crcs node c none r)
  unfolding receive receive_view
  receive-Fine node r (b, fine, room) = elim (Result-cases (parse r.data_received)) [
    | inl (m, p) ↦ rw p (receive_view-Fine node r m (payload-IsBytes r.data_received m b p) room)
    | inr (inl (x, p)) ↦ rw p refl
    | inr (inr p) ↦ absurd (fine p)
  ]

  -- On a target whose `usize` has 64 bits, no sequence of datagrams, whatever their bytes, ends the
  -- receive loop of a server without an observer or makes it panic, as long as receiving and sending have no error, a send buffer has 56
  -- bytes, the configuration is in range with a ttl of 24 bits, and no datagram makes the parser of
  -- messages panic, which one with a length field below 8 does.
  pub recv_loop-Fine :
      (receptions : List Reception)
      → (node : Node Sock groups.M (E2eRegistry ip ke re profiles senders receivers) Kept)
      → All IsReception receptions
      → Fine (
          recv_loop sw a e groups_cap subscribers_per_group groups send_to ip ip_v4 ke re profiles
            senders receivers crcs c none
            (map ok receptions)
            node)
  unfolding recv_loop
  recv_loop-Fine [] node h = refl
  recv_loop-Fine (r ∷ rs) node (one, rest) =
      let p =
        receive sw a e groups_cap subscribers_per_group groups send_to ip ip_v4 ke re profiles
          senders receivers crcs node c none r in
      then_go-Fine p
        (λ next.
          recv_loop sw a e groups_cap subscribers_per_group groups send_to ip ip_v4 ke re profiles
            senders receivers crcs c none (map ok rs) next)
        (receive-Fine node r one) (recv_loop-Fine rs p.1 rest)
