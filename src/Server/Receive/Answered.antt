-- ===== src/Server/Receive/Answered.antt =====
-- The response that src/server/runtime.rs frames around what a callback has written.
use simple_someip.Prelude.{
  ℕ, ◌+◌, ◌-◌, ◌≤◌, ◌≡◌, refl, sym, ap, ◌∙◌, arith, true, false, List, [], ◌++◌, length,
  length-append, length-take, length-drop, take, drop, drop-take, take-append, append-nil, le→ltb,
  leb, Option, none, some, ok, ◌>>=◌,
}
use simple_someip.Prelude.Eq.{Eq}
use simple_someip.Maps.{IndexMap}
use simple_someip.Bytes.{to_be32}
use simple_someip.Bytes.Facts.{slice-take, slice_from-ok}
use simple_someip.Bytes.Slice.{SliceWriter, encode_to_slice-fits}
use simple_someip.Protocol.MessageId.{new-parts, service_id, method_id}
use simple_someip.Protocol.MessageType.{new as new_type, response, message_type, message_type-new}
use simple_someip.Protocol.ReturnCode.{okay}
use simple_someip.Protocol.Header as Header
use simple_someip.Protocol.Header.{
  HeaderView, IsHeader, view_message_id, view_request_id, view_protocol_version,
  view_interface_version, view_message_type, view_return_code,
}
use simple_someip.Protocol.Header.Encode as HeaderEncode
use simple_someip.Protocol.Header.Encode.{header_bytes, length-header_bytes, encode-header_bytes}
use simple_someip.Protocol.Message.{MessageView, parse}
use simple_someip.Protocol.Message.RoundTrip.{parse-written, written_view, written_view-fields}
use simple_someip.E2e.Profile.{E2eKey, E2eProfile, E2eState, Crcs}
use simple_someip.E2e.Registry.{E2eRegistry, RxKey, registry_cap, rx_state_cap}
use simple_someip.NetEndpoint.{SocketAddrV4}
use simple_someip.Transport.{TransportError}
use simple_someip.SdCodec.{BuildError}
use simple_someip.SdCodec.Build.{encode_response_header}
use simple_someip.Server.Subscriptions.{GroupKey, Subscriber}
use simple_someip.Server.Runtime.{sent, logged}
use simple_someip.Server.Receive.{Node, pos, response_frame, send_response, respond}

-- The header of a response to a request.
abbrev pub response_to : Header.Header → ℕ → Header.Header
response_to h n = record {
  message_id = h.message_id;
  length_field = 8 + n;
  request_id = h.request_id;
  protocol_version = 0x01;
  interface_version = h.interface_version;
  message_type = new_type response false;
  return_code = okay;
}

module _ (h : Header.Header) (v : IsHeader h) (n : ℕ) (small : n ≤ Header.max_payload) where
  response_to-IsHeader : IsHeader (response_to h n)
  response_to-IsHeader =
      let (kind, tp, valid, byte) = message_type-new response false in
      record {
        id_range = v.id_range;
        length_range = omega arith;
        request_range = v.request_range;
        version = refl;
        interface_range = v.interface_range;
        type_valid = valid;
        type_range = byte;
        code_valid = tt;
      }

  version_back : view_protocol_version (written_view h) ≡ 0x01
  unfolding header_bytes to_be32
  version_back = v.version

  module _ (sw : SliceWriter) (buf : List ℕ) (room : 16 + n ≤ length buf) where
    open sw use {wr}

    abbrev frame : List ℕ
    frame = header_bytes (response_to h n) ++ take n (drop 16 buf)

    header_written :
        encode_response_header sw buf
          (service_id (view_message_id (written_view h)))
          (method_id (view_message_id (written_view h)))
          (view_request_id (written_view h))
          (view_protocol_version (written_view h))
          (view_interface_version (written_view h))
          n
        ≡ ok (header_bytes (response_to h n) ++ drop 16 buf)
    unfolding encode_response_header Header.new
    header_written =
        let (id, _, request, interface, _, _) = written_view-fields h v in
        let fits : leb n Header.max_payload ≡ true = ground (arith, small) in
        let front : length (take 16 buf) ≡ 16 = omega (arith, length-take 16 buf) in
        let head =
          encode_to_slice-fits sw (HeaderEncode.encode wr (response_to h n))
            (header_bytes (response_to h n)) (take 16 buf)
            (encode-header_bytes wr (response_to h n))
            (omega (arith, length-header_bytes (response_to h n))) in
        rw
          (
            le→ltb (length buf) 16 (omega arith),
            id,
            request,
            interface,
            version_back,
            new-parts h.message_id v.id_range,
            fits,
            slice-take {E = BuildError} buf 16 (omega arith),
            slice_from-ok {E = BuildError} buf 16 (omega arith),
            head,
            length-header_bytes (response_to h n),
            drop-take 16 buf,
            append-nil (header_bytes (response_to h n)),
          )
          refl

    frame-eq : response_frame sw (written_view h) n buf ≡ ok frame
    unfolding response_frame
    frame-eq =
        let head = header_bytes (response_to h n) in
        let out = head ++ drop 16 buf in
        let whole : length out ≡ 16 + (length buf - 16) = omega (
          arith,
          length-append head (drop 16 buf),
          length-drop 16 buf,
          length-header_bytes (response_to h n),
        ) in
        rw
          (
            header_written,
            slice-take {E = BuildError} out (16 + n) (omega arith),
            take-append head (drop 16 buf) (16 + n) n
                (omega (arith, length-header_bytes (response_to h n))),
          )
          refl

-- What the caller receives: a message with the request's ids, request id and interface version, of
-- type response and with no error, and the payload.
abbrev pub Answers : Header.Header → List ℕ → List ℕ → Type 0
Answers h payload bytes =
    (m : MessageView) × (parse bytes ≡ ok m)
    × (view_message_id m.header ≡ h.message_id)
    × (view_request_id m.header ≡ h.request_id)
    × (view_interface_version m.header ≡ h.interface_version)
    × ((view_message_type m.header >>= message_type) ≡ ok response)
    × (view_return_code m.header ≡ ok okay)
    × (m.payload ≡ payload)

response-Answers :
    (h : Header.Header) (payload : List ℕ)
    → IsHeader h
    → length payload ≤ Header.max_payload
    → Header.is_sd h ≡ false
    → Answers h payload (header_bytes (response_to h (length payload)) ++ payload)
unfolding Header.is_sd
response-Answers h payload v small other =
    let answer = response_to h (length payload) in
    let valid = response_to-IsHeader h v (length payload) small in
    let (id, _, request, interface, kind, code) = written_view-fields answer valid in
    (
      record { header = written_view answer; payload = payload },
      ap parse (sym (append-nil (header_bytes answer ++ payload)))
          ∙ parse-written answer payload [] valid refl (λ s. absurd (cc (s, other))),
      id,
      request,
      interface,
      rw (kind, (message_type-new response false).0) refl,
      code,
      refl,
    )

logged-sent :
    {W : Type 0} (failed : Option TransportError) (w : W) → logged (sent failed, w) ≡ (ok tt, w)
logged-sent none w = refl
logged-sent (some failed) w = refl

module _ (sw : SliceWriter) {Sock Kept Ip : Type 0} (a : Eq SocketAddrV4) (e : Eq GroupKey)
    (groups_cap subscribers_per_group : ℕ)
    (groups : IndexMap GroupKey (List (Subscriber SocketAddrV4)) e groups_cap)
    (send_to : Sock → List ℕ → SocketAddrV4 → Option TransportError × Sock) (ip : Eq Ip)
    (ip_v4 : ℕ → Ip) (ke : Eq E2eKey) (re : Eq (RxKey Ip))
    (profiles : IndexMap E2eKey E2eProfile ke registry_cap)
    (senders : IndexMap E2eKey E2eState ke registry_cap)
    (receivers : IndexMap (RxKey Ip) E2eState re rx_state_cap) (crcs : Crcs) where
  -- When the callback of a request with a header in range, which is no service discovery, returns a
  -- length that the buffer has behind its first 16 bytes, exactly one datagram goes to the source of
  -- the request: a caller parses it as a response without error that has the request's message id,
  -- request id and interface version, and the payload that the callback has written. The handler
  -- goes on, whatever comes of the send.
  pub respond-Answers :
      (node : Node Sock groups.M (E2eRegistry ip ke re profiles senders receivers) Kept)
      → (source : SocketAddrV4) (h : Header.Header) (buf : List ℕ) (n : ℕ) → IsHeader h
      → Header.is_sd h ≡ false
      → 16 + n ≤ length buf
      → n ≤ Header.max_payload
      → (datagram : List ℕ) × (respond sw a e groups_cap subscribers_per_group groups send_to ip
            ip_v4 ke re profiles senders receivers crcs node source
            (written_view h)
            buf
            (pos n)
          ≡ (ok tt, record node { unicast = (send_to node.unicast datagram source).1 }))
        × Answers h (take n (drop 16 buf)) datagram
  unfolding respond send_response
  respond-Answers node source h buf n v other room small =
      let payload = take n (drop 16 buf) in
      let exact : length payload ≡ n =
        omega (arith, length-take n (drop 16 buf), length-drop 16 buf) in
      let datagram = header_bytes (response_to h (length payload)) ++ payload in
      let written : response_frame sw (written_view h) n buf ≡ ok datagram =
        frame-eq h v n small sw buf room
        ∙ ap (λ (k : ℕ). ok (header_bytes (response_to h k) ++ payload)) (sym exact) in
      (
        datagram,
        rw (le→ltb (length buf - 16) n (omega arith), written)
            (logged-sent (send_to node.unicast datagram source).0
              (record node { unicast = (send_to node.unicast datagram source).1 })),
        response-Answers h payload v (omega arith) other,
      )
