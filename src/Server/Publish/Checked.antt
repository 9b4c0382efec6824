-- ===== src/Server/Publish/Checked.antt =====
-- An event on its way from the publisher of src/server/event_publisher.rs through the parser of
-- src/sd_codec.rs to the end-to-end check at the receiver.
use simple_someip.Prelude.{
  ℕ, ◌+◌, ◌≤◌, ◌≡◌, refl, sym, arith, List, ◌++◌, length, length-append, take, drop,
  take-append_length, true, some, ok,
}
use simple_someip.Prelude.Eq.{Eq}
use simple_someip.Maps.{IndexMap}
use simple_someip.Bytes.Slice.{SliceWriter}
use simple_someip.Protocol.MessageId.{service_id, method_id, new-parts}
use simple_someip.Protocol.Header as Header
use simple_someip.Protocol.Header.{IsHeader, upper_header_bytes}
use simple_someip.Protocol.Header.Encode.{header_bytes}
use simple_someip.Protocol.Header.RoundTrip.{parse-header_bytes}
use simple_someip.Protocol.Message.RoundTrip.{written_view-fields}
use simple_someip.Protocol.Message.Encode as Message
use simple_someip.Traits.{PayloadWireFormat}
use simple_someip.E2e.Profile.{E2eKey, E2eProfile, E2eState, Crcs, IsStateOf, from_message_id}
use simple_someip.E2e.Frames.{overhead, IsFrame, status_between, e2e_protect-Protected}
use simple_someip.E2e.Registry.{
  E2eRegistry, RxKey, registry_cap, rx_state_cap, contains_key, protect, protect_as, check,
  check_as,
}
use simple_someip.SdCodec.Parse.{
  ParsedDatagram, parse_someip_datagram, datagram_of, check_parsed_e2e,
}
use simple_someip.Server.Publish.{event_datagram}
use simple_someip.Server.Publish.Datagram.{event_datagram-protected}

-- A receiver of a header and some bytes.
parsed-header_bytes :
    (h : Header.Header) (body : List ℕ)
    → IsHeader h
    → parse_someip_datagram (header_bytes h ++ body)
      ≡ some (record {
        service_id = service_id h.message_id;
        method_id = method_id h.message_id;
        upper_header = upper_header_bytes h;
        payload = body;
      })
unfolding parse_someip_datagram datagram_of
parsed-header_bytes h body v =
    let (id, _, _, _, _, _) = written_view-fields h v in
    let (parsed, _, upper) = parse-header_bytes h body v in rw (parsed, id, upper) refl

-- Another length field in range.
pub resized-IsHeader :
    (h : Header.Header) (k : ℕ)
    → IsHeader h
    → k ≤ Header.max_payload
    → IsHeader (record h { length_field = 8 + k })
resized-IsHeader h k v small = record {
  id_range = v.id_range;
  length_range = omega arith;
  request_range = v.request_range;
  version = v.version;
  interface_range = v.interface_range;
  type_valid = v.type_valid;
  type_range = v.type_range;
  code_valid = v.code_valid;
}

module _ (sw : SliceWriter) (format : PayloadWireFormat sw.wr) {Ip : Type 0} (ip : Eq Ip)
    (ke : Eq E2eKey) (re : Eq (RxKey Ip)) (profiles : IndexMap E2eKey E2eProfile ke registry_cap)
    (senders : IndexMap E2eKey E2eState ke registry_cap)
    (receivers : IndexMap (RxKey Ip) E2eState re rx_state_cap) (crcs : Crcs) where
  open sw use {wr}

  -- The datagram of an event, and what a peer's parser and check make of it.
  abbrev pub Checked :
      E2eRegistry ip ke re profiles senders receivers
      → Message.Message format.P
      → List ℕ
      → List ℕ
      → E2eRegistry ip ke re profiles senders receivers
      → Ip
      → E2eProfile
      → E2eState
      → E2eState
      → Type 0
  Checked reg m msg_buf protected_buf peer source p tx rx =
      (datagram : List ℕ) × (next : E2eRegistry ip ke re profiles senders receivers)
      × (parsed : ParsedDatagram) × (after : E2eRegistry ip ke re profiles senders receivers)
      × (event_datagram sw format ip ke re profiles senders receivers crcs reg m msg_buf
            protected_buf
          ≡ (ok datagram, next))
      × (parse_someip_datagram datagram ≡ some parsed)
      × (check_parsed_e2e ip ke re profiles senders receivers crcs peer source parsed
          ≡ ok ((status_between p tx rx, format.payload_bytes m.payload), after))

  -- The frame that an event is sent in, behind a header with its length, and what a peer's check
  -- makes of the frame.
  abbrev pub Framed :
      E2eRegistry ip ke re profiles senders receivers
      → Message.Message format.P
      → List ℕ
      → List ℕ
      → E2eRegistry ip ke re profiles senders receivers
      → Ip
      → E2eProfile
      → E2eState
      → E2eState
      → Type 0
  Framed reg m msg_buf protected_buf peer source p tx rx =
      (frame : List ℕ) × (next : E2eRegistry ip ke re profiles senders receivers)
      × (after : E2eRegistry ip ke re profiles senders receivers) × (event_datagram sw format ip ke
            re profiles senders receivers crcs reg m msg_buf protected_buf
          ≡ (
            ok (
                header_bytes (record m.header {
                  length_field = 8 + (overhead p + length (format.payload_bytes m.payload));
                })
                ++ frame),
            next,
          ))
      × (length frame ≡ overhead p + length (format.payload_bytes m.payload))
      × (check ip ke re profiles senders receivers crcs peer source
            (from_message_id m.header.message_id) frame (upper_header_bytes m.header)
          ≡ ok (some (status_between p tx rx, format.payload_bytes m.payload), after))

  pub event_datagram-Framed :
      (reg : E2eRegistry ip ke re profiles senders receivers) (m : Message.Message format.P)
      → (msg_buf protected_buf : List ℕ)
      → (peer : E2eRegistry ip ke re profiles senders receivers) (source : Ip)
      → (p : E2eProfile) (tx rx : E2eState) → IsHeader m.header
      → format.InRange m.payload
      → Message.required_size wr format m ≤ length msg_buf
      → profiles.get reg.configs (from_message_id m.header.message_id) ≡ some p
      → senders.get reg.tx_states (from_message_id m.header.message_id) ≡ some tx
      → profiles.get peer.configs (from_message_id m.header.message_id) ≡ some p
      → receivers.get peer.rx_states
          (record { source = source; key = from_message_id m.header.message_id })
        ≡ some rx
      → IsFrame p tx (format.payload_bytes m.payload)
      → IsStateOf p rx
      → overhead p + length (format.payload_bytes m.payload) ≤ length protected_buf
      → 16 + (overhead p + length (format.payload_bytes m.payload)) ≤ length msg_buf
      → overhead p + length (format.payload_bytes m.payload) ≤ Header.max_payload
      → Framed reg m msg_buf protected_buf peer source p tx rx
  unfolding contains_key protect protect_as check check_as upper_header_bytes
  event_datagram-Framed reg m msg_buf protected_buf peer source p tx rx hv v room cfg st pcfg prx
        frame_ok state_ok fits fits_msg small =
      let h = m.header in
      let key = from_message_id h.message_id in
      let payload = format.payload_bytes m.payload in
      let k = overhead p + length payload in
      let upper = upper_header_bytes h in
      let (frame, next, after, protects, long, checks) =
        e2e_protect-Protected crcs p tx rx payload upper protected_buf frame_ok state_ok fits in
      let rest = drop k protected_buf in
      let front : take k (frame ++ rest) ≡ frame = take-append_length frame rest k (sym long) in
      let room_out : k ≤ length (frame ++ rest) = omega (arith, length-append frame rest) in
      let present : contains_key ip ke re profiles senders receivers reg key ≡ true = rw cfg refl in
      let built =
        event_datagram-protected sw format ip ke re profiles senders receivers crcs reg m msg_buf
          protected_buf v room k (record reg { tx_states = senders.write reg.tx_states key next })
          (frame ++ rest) present (rw (cfg, st, protects) refl) fits_msg room_out small in
      (
        frame,
        record reg { tx_states = senders.write reg.tx_states key next },
        record peer {
          rx_states = receivers.write peer.rx_states (record { source = source; key = key }) after;
        },
        rw front at built,
        long,
        rw (pcfg, prx, checks) refl,
      )

  -- For a message in range whose key has a profile and a state at the publisher, and at the receiver
  -- the same profile and a state for the publisher's address: when the payload is one that the
  -- profile takes, and the frame fits both buffers and the length field, the datagram is parsed and
  -- checked with the payload as it was sent, and the status of the sender's counter against the
  -- receiver's last one.
  pub event_datagram-Checked :
      (reg : E2eRegistry ip ke re profiles senders receivers) (m : Message.Message format.P)
      → (msg_buf protected_buf : List ℕ)
      → (peer : E2eRegistry ip ke re profiles senders receivers) (source : Ip)
      → (p : E2eProfile) (tx rx : E2eState) → IsHeader m.header
      → format.InRange m.payload
      → Message.required_size wr format m ≤ length msg_buf
      → profiles.get reg.configs (from_message_id m.header.message_id) ≡ some p
      → senders.get reg.tx_states (from_message_id m.header.message_id) ≡ some tx
      → profiles.get peer.configs (from_message_id m.header.message_id) ≡ some p
      → receivers.get peer.rx_states
          (record { source = source; key = from_message_id m.header.message_id })
        ≡ some rx
      → IsFrame p tx (format.payload_bytes m.payload)
      → IsStateOf p rx
      → overhead p + length (format.payload_bytes m.payload) ≤ length protected_buf
      → 16 + (overhead p + length (format.payload_bytes m.payload)) ≤ length msg_buf
      → overhead p + length (format.payload_bytes m.payload) ≤ Header.max_payload
      → Checked reg m msg_buf protected_buf peer source p tx rx
  unfolding check_parsed_e2e upper_header_bytes
  event_datagram-Checked reg m msg_buf protected_buf peer source p tx rx hv v room cfg st pcfg prx
        frame_ok state_ok fits fits_msg small =
      let h = m.header in
      let k = overhead p + length (format.payload_bytes m.payload) in
      let (frame, next, after, built, long, checks) =
        event_datagram-Framed reg m msg_buf protected_buf peer source p tx rx hv v room cfg st pcfg
          prx frame_ok state_ok fits fits_msg small in
      let resized : Header.Header = record h { length_field = 8 + k } in
      let parsed : ParsedDatagram = record {
        service_id = service_id h.message_id;
        method_id = method_id h.message_id;
        upper_header = upper_header_bytes h;
        payload = frame;
      } in
      (
        header_bytes resized ++ frame,
        next,
        parsed,
        after,
        built,
        parsed-header_bytes resized frame (resized-IsHeader h k hv small),
        rw (new-parts h.message_id hv.id_range, checks) refl,
      )
