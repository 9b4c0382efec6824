-- ===== src/Server/Receive.antt =====
-- The receive loop of src/server/runtime.rs with its dispatch of requests. The callback of an
-- observer is a parameter, taken with its context word: it returns the length of a response or a
-- negative number, writes the slot that it is handed, and may change a state of its own. The loop is
-- run over what it receives, in the order in which its `select` takes the two sockets; what the send
-- buffer holds at a reception, from sends before, comes with it.
pub mod Joined
pub mod Survives
pub mod Answered
use simple_someip.Prelude.{
  ℕ, Bool, not, ltb, List, [], ◌∷◌, ◌++◌, ◌-◌, ◌+◌, length, take, if◌then◌else◌, Option, none, some,
  Result, ok, err, panic, ◌>>=◌, ◌>>◌, fail_if,
}
use simple_someip.Prelude.Eq.{Eq}
use simple_someip.Maps.{IndexMap}
use simple_someip.Bytes.{slice, slice_from}
use simple_someip.Bytes.Slice.{SliceWriter}
use simple_someip.Protocol.Error as Protocol
use simple_someip.Protocol.MessageId.{service_id, method_id}
use simple_someip.Protocol.Header.{
  HeaderView, view_message_id, view_request_id, view_protocol_version, view_interface_version,
  view_upper_header_bytes,
}
use simple_someip.Protocol.Message.{MessageView, parse, is_sd, sd_header}
use simple_someip.Sd.Header.{SdHeaderView}
use simple_someip.E2e.{E2eError, E2eCheckStatus}
use simple_someip.E2e.Profile.{E2eKey, E2eProfile, E2eState, Crcs}
use simple_someip.E2e.Registry.{E2eRegistry, RxKey, registry_cap, rx_state_cap}
use simple_someip.NetEndpoint.{SocketAddrV4, v4}
use simple_someip.Transport.{TransportError}
use simple_someip.SdCodec.{BuildError}
use simple_someip.SdCodec.Build.{encode_response_header}
use simple_someip.SdCodec.Parse.{ParsedDatagram, check_parsed_e2e, e2e_status_code}
use simple_someip.Server.Error.{ServerError, transport, invalid_usage}
use simple_someip.Server.Config.{ServerConfig}
use simple_someip.Server.Subscriptions.{GroupKey, Subscriber}
use simple_someip.Server.Runtime.{World, handle_sd_message, logged, sent, then_go}

-- An `i32`: `negsuc n` is `-(n + 1)`.
pub data ℤ : Type 0 where
  pos negsuc : ℕ → ℤ

-- One reception: the socket it comes from, the bytes received, their source, and the send buffer.
pub record Reception : Type 0 where
  pub from_unicast : Bool
  pub data_received : List ℕ
  pub source : SocketAddrV4
  pub send_buf : List ℕ

-- What the loop changes beside the state of the handlers: the unicast socket, the registry of the
-- end-to-end protection, and what the callback keeps.
pub record Node (Sock M Registry Kept : Type 0) : Type 0 where
  pub world : World Sock M
  pub unicast : Sock
  pub registry : Registry
  pub kept : Kept

-- The state of the handlers after a call, put back.
abbrev pub with_world :
    {Sock M Registry Kept : Type 0}
    → Node Sock M Registry Kept
    → Result ServerError (Unit {0}) × World Sock M
    → Result ServerError (Unit {0}) × Node Sock M Registry Kept
with_world node (result, world) = (result, record node { world = world })

abbrev pub Callback : Type 0 → Type 0
Callback Kept = Kept → SocketAddrV4 → ℕ → ℕ → List ℕ → ℕ → List ℕ → (ℤ × List ℕ) × Kept

module _ (sw : SliceWriter) where
  -- The frame of a response of `payload_len` bytes behind the header, in the buffer that the
  -- callback has written.
  unfoldable pub response_frame : HeaderView → ℕ → List ℕ → Result BuildError (List ℕ)
  response_frame header payload_len send_buf = do
    let id = view_message_id header
    out ←
        encode_response_header sw send_buf (service_id id) (method_id id) (view_request_id header)
          (view_protocol_version header) (view_interface_version header) payload_len
    slice out 0 (16 + payload_len)

module _ (sw : SliceWriter) {Sock Kept Ip : Type 0} (a : Eq SocketAddrV4) (e : Eq GroupKey)
    (groups_cap subscribers_per_group : ℕ)
    (groups : IndexMap GroupKey (List (Subscriber SocketAddrV4)) e groups_cap)
    (send_to : Sock → List ℕ → SocketAddrV4 → Option TransportError × Sock) (ip : Eq Ip)
    (ip_v4 : ℕ → Ip) (ke : Eq E2eKey) (re : Eq (RxKey Ip))
    (profiles : IndexMap E2eKey E2eProfile ke registry_cap)
    (senders : IndexMap E2eKey E2eState ke registry_cap)
    (receivers : IndexMap (RxKey Ip) E2eState re rx_state_cap) (crcs : Crcs) where
  -- The send of a response, whose error is only logged; a header that is not encoded sends nothing.
  unfoldable pub send_response :
      Node Sock groups.M (E2eRegistry ip ke re profiles senders receivers) Kept
      → SocketAddrV4
      → Result BuildError (List ℕ)
      → Result ServerError (Unit {0})
        × Node Sock groups.M (E2eRegistry ip ke re profiles senders receivers) Kept
  send_response node source (ok frame) =
      let (failed, next) = send_to node.unicast frame source in
      logged (sent failed, record node { unicast = next })
  send_response node source (err failed) = (ok tt, node)
  send_response node source panic = (panic, node)

  -- From the length that the callback returned.
  unfoldable pub respond :
      Node Sock groups.M (E2eRegistry ip ke re profiles senders receivers) Kept
      → SocketAddrV4
      → HeaderView
      → List ℕ
      → ℤ
      → Result ServerError (Unit {0})
        × Node Sock groups.M (E2eRegistry ip ke re profiles senders receivers) Kept
  respond node source header send_buf (negsuc n) = (ok tt, node)
  respond node source header send_buf (pos payload_len) =
      if ltb (length send_buf - 16) payload_len
      then (ok tt, node)
      else send_response node source (response_frame sw header payload_len send_buf)

  -- The call of the observer with the body and the status of the check. It is handed the buffer
  -- behind the 16 bytes of the header.
  unfoldable pub call_observer :
      Node Sock groups.M (E2eRegistry ip ke re profiles senders receivers) Kept
      → Callback Kept
      → SocketAddrV4
      → HeaderView
      → List ℕ
      → Result ServerError (List ℕ)
      → E2eCheckStatus × List ℕ
      → Result ServerError (Unit {0})
        × Node Sock groups.M (E2eRegistry ip ke re profiles senders receivers) Kept
  call_observer node callback source header send_buf (ok slot) (status, body) =
      let id = view_message_id header in
      let ((resp_len, written), kept) =
        callback node.kept source (service_id id) (method_id id) body (e2e_status_code status)
          slot in
      respond (record node { kept = kept }) source header (take 16 send_buf ++ written) resp_len
  call_observer node callback source header send_buf (err failed) found = (err failed, node)
  call_observer node callback source header send_buf panic found = (panic, node)

  -- The check of the registry gives no error; it may panic.
  unfoldable pub checked_request :
      Node Sock groups.M (E2eRegistry ip ke re profiles senders receivers) Kept
      → Callback Kept
      → SocketAddrV4
      → HeaderView
      → List ℕ
      → Result E2eError
          ((E2eCheckStatus × List ℕ) × E2eRegistry ip ke re profiles senders receivers)
      → Result ServerError (Unit {0})
        × Node Sock groups.M (E2eRegistry ip ke re profiles senders receivers) Kept
  checked_request node callback source header send_buf (ok (found, next)) =
      call_observer (record node { registry = next }) callback source header send_buf
        (slice_from send_buf 16) found
  checked_request node callback source header send_buf (err failed) = (ok tt, node)
  checked_request node callback source header send_buf panic = (panic, node)

  unfoldable pub dispatch_non_sd_request :
      Node Sock groups.M (E2eRegistry ip ke re profiles senders receivers) Kept
      → Callback Kept
      → MessageView
      → SocketAddrV4
      → List ℕ
      → Result ServerError (Unit {0})
        × Node Sock groups.M (E2eRegistry ip ke re profiles senders receivers) Kept
  dispatch_non_sd_request node callback view source send_buf =
      let id = view_message_id view.header in
      let parsed : ParsedDatagram = record {
        service_id = service_id id;
        method_id = method_id id;
        upper_header = view_upper_header_bytes view.header;
        payload = view.payload;
      } in
      checked_request node callback source view.header send_buf (
        check_parsed_e2e ip ke re profiles senders receivers crcs node.registry (ip_v4 source.ip)
          parsed)

  -- The match on the service discovery header.
  unfoldable pub receive_sd :
      Node Sock groups.M (E2eRegistry ip ke re profiles senders receivers) Kept
      → ServerConfig
      → Reception
      → Result Protocol.Error SdHeaderView
      → Result ServerError (Unit {0})
        × Node Sock groups.M (E2eRegistry ip ke re profiles senders receivers) Kept
  receive_sd node config r (ok sd_view) = with_world node (
      handle_sd_message sw a e groups_cap subscribers_per_group groups send_to node.world r.send_buf
        config sd_view (v4 r.source.ip r.source.port))
  receive_sd node config r (err failed) = (ok tt, node)
  receive_sd node config r panic = (panic, node)

  -- A message that is no service discovery: only a request on the unicast socket is dispatched.
  unfoldable pub receive_request :
      Node Sock groups.M (E2eRegistry ip ke re profiles senders receivers) Kept
      → Option (Callback Kept)
      → Reception
      → MessageView
      → Result ServerError (Unit {0})
        × Node Sock groups.M (E2eRegistry ip ke re profiles senders receivers) Kept
  receive_request node none r view = (ok tt, node)
  receive_request node (some callback) r view =
      if r.from_unicast
      then dispatch_non_sd_request node callback view r.source r.send_buf
      else (ok tt, node)

  -- The match on the message.
  unfoldable pub receive_view :
      Node Sock groups.M (E2eRegistry ip ke re profiles senders receivers) Kept
      → ServerConfig
      → Option (Callback Kept)
      → Reception
      → Result Protocol.Error MessageView
      → Result ServerError (Unit {0})
        × Node Sock groups.M (E2eRegistry ip ke re profiles senders receivers) Kept
  receive_view node config observer r (ok view) =
      if is_sd view
      then receive_sd node config r (sd_header view)
      else receive_request node observer r view
  receive_view node config observer r (err failed) = (ok tt, node)
  receive_view node config observer r panic = (panic, node)

  -- One turn of the loop.
  unfoldable pub receive :
      Node Sock groups.M (E2eRegistry ip ke re profiles senders receivers) Kept
      → ServerConfig
      → Option (Callback Kept)
      → Reception
      → Result ServerError (Unit {0})
        × Node Sock groups.M (E2eRegistry ip ke re profiles senders receivers) Kept
  receive node config observer r = receive_view node config observer r (parse r.data_received)

  -- The loop over a sequence of receptions; the end of the sequence is a loop that waits.
  unfoldable pub recv_loop :
      ServerConfig
      → Option (Callback Kept)
      → List (Result TransportError Reception)
      → Node Sock groups.M (E2eRegistry ip ke re profiles senders receivers) Kept
      → Result ServerError (Unit {0})
        × Node Sock groups.M (E2eRegistry ip ke re profiles senders receivers) Kept
  recv_loop config observer [] node = (ok tt, node)
  recv_loop config observer (ok r ∷ rest) node =
      then_go (receive node config observer r) (λ next. recv_loop config observer rest next)
  recv_loop config observer (err failed ∷ rest) node = (err (transport failed), node)
  recv_loop config observer (panic ∷ rest) node = (panic, node)

  -- A passive server has no loop. The announcements are on a timer of their own.
  unfoldable pub run_combined :
      Bool
      → ServerConfig
      → Option (Callback Kept)
      → List (Result TransportError Reception)
      → Node Sock groups.M (E2eRegistry ip ke re profiles senders receivers) Kept
      → Result ServerError (Unit {0})
        × Node Sock groups.M (E2eRegistry ip ke re profiles senders receivers) Kept
  run_combined is_passive config observer receptions node =
      if is_passive then (err invalid_usage, node) else recv_loop config observer receptions node
