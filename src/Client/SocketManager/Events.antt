-- ===== src/Client/SocketManager/Events.antt =====
-- An event from the publisher of src/server/event_publisher.rs to the receiving socket of
-- src/client/socket_manager.rs.
use simple_someip.Prelude.{
  ℕ, ◌+◌, ◌≤◌, ◌≡◌, refl, sym, ap, ◌∙◌, arith, false, List, [], ◌++◌, length, length-append,
  append-nil, le→ltb, some, ok,
}
use simple_someip.Prelude.Eq.{Eq}
use simple_someip.Maps.{IndexMap}
use simple_someip.Bytes.Slice.{SliceWriter}
use simple_someip.Protocol.Header as Header
use simple_someip.Protocol.Header.{IsHeader, upper_header_bytes, to_owned}
use simple_someip.Protocol.Header.Encode.{header_bytes, length-header_bytes}
use simple_someip.Protocol.Header.RoundTrip.{parse-header_bytes}
use simple_someip.Protocol.Message.{parse}
use simple_someip.Protocol.Message.Encode as Message
use simple_someip.Protocol.Message.RoundTrip.{parse-written, written_view}
use simple_someip.Traits.{PayloadWireFormat}
use simple_someip.E2e.Profile.{E2eKey, E2eProfile, E2eState, Crcs, from_message_id, IsStateOf}
use simple_someip.E2e.Frames.{overhead, status_between, IsFrame}
use simple_someip.E2e.Registry.{E2eRegistry, RxKey, registry_cap, rx_state_cap}
use simple_someip.NetEndpoint.{SocketAddrV4}
use simple_someip.Server.Publish.{event_datagram}
use simple_someip.Server.Publish.Checked.{event_datagram-Framed, resized-IsHeader}
use simple_someip.Client.SocketManager.{
  receive_datagram, receive_view, receive_owned, receive_checked, received,
}

module _ (sw : SliceWriter) (format : PayloadWireFormat sw.wr) {Ip : Type 0} (ip : Eq Ip)
    (ip_v4 : ℕ → Ip) (ke : Eq E2eKey) (re : Eq (RxKey Ip))
    (profiles : IndexMap E2eKey E2eProfile ke registry_cap)
    (senders : IndexMap E2eKey E2eState ke registry_cap)
    (receivers : IndexMap (RxKey Ip) E2eState re rx_state_cap) (crcs : Crcs) where
  open sw use {wr}

  -- The header that an event is sent with.
  abbrev pub sent_header : Message.Message format.P → E2eProfile → Header.Header
  sent_header m p = record m.header {
    length_field = 8 + (overhead p + length (format.payload_bytes m.payload));
  }

  -- The datagram of an event, and what a receiving socket makes of it.
  abbrev pub Received :
      E2eRegistry ip ke re profiles senders receivers
      → Message.Message format.P
      → List ℕ
      → List ℕ
      → E2eRegistry ip ke re profiles senders receivers
      → ℕ
      → SocketAddrV4
      → E2eProfile
      → E2eState
      → E2eState
      → Type 0
  Received reg m msg_buf protected_buf peer buf_len source p tx rx =
      (datagram : List ℕ) × (next : E2eRegistry ip ke re profiles senders receivers)
      × (after : E2eRegistry ip ke re profiles senders receivers) × (event_datagram sw format ip ke
            re profiles senders receivers crcs reg m msg_buf protected_buf
          ≡ (ok datagram, next))
      × (receive_datagram wr format ip ip_v4 ke re profiles senders receivers crcs peer buf_len
            source false datagram
          ≡ (
            some (
                ok (record {
                  message = record { header = sent_header m p; payload = m.payload };
                  source = source;
                  e2e_status = some (status_between p tx rx);
                })),
            after,
          ))

  -- For a message in range that is no service discovery message and whose key has a profile and a
  -- state at the publisher, and at the receiving socket the same profile and a state for the
  -- source's address: when the payload is one that the profile takes and that the payload format
  -- reads back, and the frame fits both buffers, the receive buffer and the length field, the
  -- socket's owner gets the header with the frame's length, the payload as it was sent, the source,
  -- and the status of the sender's counter against the receiver's last one.
  pub receive_datagram-event :
      (reg : E2eRegistry ip ke re profiles senders receivers) (m : Message.Message format.P)
      → (msg_buf protected_buf : List ℕ)
      → (peer : E2eRegistry ip ke re profiles senders receivers) (buf_len : ℕ)
      → (source : SocketAddrV4) (p : E2eProfile) (tx rx : E2eState) → IsHeader m.header
      → format.InRange m.payload
      → Message.required_size wr format m ≤ length msg_buf
      → profiles.get reg.configs (from_message_id m.header.message_id) ≡ some p
      → senders.get reg.tx_states (from_message_id m.header.message_id) ≡ some tx
      → profiles.get peer.configs (from_message_id m.header.message_id) ≡ some p
      → receivers.get peer.rx_states
          (record { source = ip_v4 source.ip; key = from_message_id m.header.message_id })
        ≡ some rx
      → IsFrame p tx (format.payload_bytes m.payload)
      → IsStateOf p rx
      → overhead p + length (format.payload_bytes m.payload) ≤ length protected_buf
      → 16 + (overhead p + length (format.payload_bytes m.payload)) ≤ length msg_buf
      → overhead p + length (format.payload_bytes m.payload) ≤ Header.max_payload
      → Header.is_sd m.header ≡ false
      → format.from_payload_bytes m.header.message_id (format.payload_bytes m.payload)
        ≡ ok m.payload
      → 16 + (overhead p + length (format.payload_bytes m.payload)) ≤ buf_len
      → Received reg m msg_buf protected_buf peer buf_len source p tx rx
  unfolding receive_datagram receive_view receive_owned receive_checked received upper_header_bytes
      Header.is_sd
  receive_datagram-event reg m msg_buf protected_buf peer buf_len source p tx rx hv v room cfg st
        pcfg prx frame_ok state_ok fits fits_msg small other reads fits_buf =
      let (frame, next, after, built, long, checks) =
        event_datagram-Framed sw format ip ke re profiles senders receivers crcs reg m msg_buf
          protected_buf peer (ip_v4 source.ip) p tx rx hv v room cfg st pcfg prx frame_ok state_ok
          fits fits_msg small in
      let h = sent_header m p in
      let k = overhead p + length (format.payload_bytes m.payload) in
      let hr : IsHeader h = resized-IsHeader m.header k hv small in
      let whole = append-nil (header_bytes h ++ frame) in
      let parses : parse (header_bytes h ++ frame)
          ≡ ok (record { header = written_view h; payload = frame }) =
        ap parse (sym whole)
        ∙ parse-written h frame [] hr (omega (arith, long)) (λ e. absurd (cc (e, other))) in
      let (_, owned, _) = parse-header_bytes h frame hr in
      let n : length (header_bytes h ++ frame) ≤ buf_len =
        omega (arith, length-append (header_bytes h) frame, length-header_bytes h, long) in
      (
        header_bytes h ++ frame,
        next,
        after,
        built,
        rw (le→ltb buf_len (length (header_bytes h ++ frame)) n, parses, owned, checks, reads) refl,
      )
