-- ===== src/Client/SocketManager.antt =====
-- What a socket of src/client/socket_manager.rs makes of a datagram, and the session id that it keeps.
-- The payload format is any one. The channels between the loop and its owner are left out.
pub mod Events
use simple_someip.Prelude.{
  ℕ, ◌+◌, Bool, true, false, not, ◌==◌, ltb, leb, if◌then◌else◌, List, length, Option, none, some,
  Result, ok, err, panic,
}
use simple_someip.Prelude.Eq.{Eq}
use simple_someip.Maps.{IndexMap}
use simple_someip.Bytes.Writer.{Writer}
use simple_someip.Protocol.Error.{Error}
use simple_someip.Protocol.Header as Header
use simple_someip.Protocol.Header.{upper_header_bytes, to_owned}
use simple_someip.Protocol.Message.{MessageView, parse}
use simple_someip.Protocol.Message.Encode.{Message}
use simple_someip.Sd.Flags.{RebootFlag, recently_rebooted, continuous}
use simple_someip.Traits.{PayloadWireFormat}
use simple_someip.E2e.{E2eError, E2eCheckStatus}
use simple_someip.E2e.Profile.{E2eKey, E2eProfile, E2eState, Crcs, from_message_id}
use simple_someip.E2e.Registry.{E2eRegistry, RxKey, registry_cap, rx_state_cap, check}
use simple_someip.NetEndpoint.{SocketAddrV4}

-- The session id of a socket, and whether it has wrapped.
pub record Session : Type 0 where
  pub session_id : ℕ
  pub session_has_wrapped : Bool

-- After a send that had no error.
unfoldable pub sent : Session → Session
sent s =
    if s.session_id == 65535
    then record { session_id = 1; session_has_wrapped = true }
    else record s { session_id = s.session_id + 1 }

unfoldable pub reboot_flag : Session → RebootFlag
reboot_flag s = if not s.session_has_wrapped then recently_rebooted else continuous

pub record ReceivedMessage (P : Type 0) : Type 0 where
  pub message : Message P
  pub source : SocketAddrV4
  pub e2e_status : Option E2eCheckStatus

module _ (wr : Writer) (format : PayloadWireFormat wr) {Ip : Type 0} (ip : Eq Ip) (ip_v4 : ℕ → Ip)
    (ke : Eq E2eKey) (re : Eq (RxKey Ip)) (profiles : IndexMap E2eKey E2eProfile ke registry_cap)
    (senders : IndexMap E2eKey E2eState ke registry_cap)
    (receivers : IndexMap (RxKey Ip) E2eState re rx_state_cap) (crcs : Crcs) where
  open format use {P, from_payload_bytes}

  -- The end of the closure: the message of a payload that was read.
  unfoldable pub received :
      Header.Header
      → SocketAddrV4
      → Option E2eCheckStatus
      → Result Error P
      → Result Error (ReceivedMessage P)
  received header source e2e_status (ok payload) = ok (record {
    message = record { header = header; payload = payload };
    source = source;
    e2e_status = e2e_status;
  })
  received header source e2e_status (err failed) = err failed
  received header source e2e_status panic = panic

  -- The match on what the registry found; the check gives no error, and it may panic.
  unfoldable pub receive_checked :
      E2eRegistry ip ke re profiles senders receivers
      → SocketAddrV4
      → Header.Header
      → List ℕ
      → Result E2eError
          (Option (E2eCheckStatus × List ℕ) × E2eRegistry ip ke re profiles senders receivers)
      → Result Error (ReceivedMessage P) × E2eRegistry ip ke re profiles senders receivers
  receive_checked reg source header payload_bytes (ok (some (status, stripped), next)) =
      (received header source (some status) (from_payload_bytes header.message_id stripped), next)
  receive_checked reg source header payload_bytes (ok (none, next)) =
      (received header source none (from_payload_bytes header.message_id payload_bytes), next)
  receive_checked reg source header payload_bytes (err failed) = (panic, reg)
  receive_checked reg source header payload_bytes panic = (panic, reg)

  -- The header of a view that was parsed has an owned form.
  unfoldable pub receive_owned :
      E2eRegistry ip ke re profiles senders receivers
      → SocketAddrV4
      → List ℕ
      → Result Error Header.Header
      → Result Error (ReceivedMessage P) × E2eRegistry ip ke re profiles senders receivers
  receive_owned reg source payload_bytes (ok header) =
      receive_checked reg source header payload_bytes (
        check ip ke re profiles senders receivers crcs reg (ip_v4 source.ip)
          (from_message_id header.message_id) payload_bytes (upper_header_bytes header))
  receive_owned reg source payload_bytes (err failed) = (panic, reg)
  receive_owned reg source payload_bytes panic = (panic, reg)

  unfoldable pub receive_view :
      E2eRegistry ip ke re profiles senders receivers
      → SocketAddrV4
      → Result Error MessageView
      → Result Error (ReceivedMessage P) × E2eRegistry ip ke re profiles senders receivers
  receive_view reg source (ok view) = receive_owned reg source view.payload (to_owned view.header)
  receive_view reg source (err failed) = (err failed, reg)
  receive_view reg source panic = (panic, reg)

  -- A datagram that is longer than the buffer or that was truncated is dropped; of any other the
  -- owner is sent what the closure gives.
  unfoldable pub receive_datagram :
      E2eRegistry ip ke re profiles senders receivers
      → ℕ
      → SocketAddrV4
      → Bool
      → List ℕ
      → Option (Result Error (ReceivedMessage P)) × E2eRegistry ip ke re profiles senders receivers
  receive_datagram reg buf_len source truncated bytes =
      let (result, next) = receive_view reg source (parse bytes) in
      if ltb buf_len (length bytes)
      then (none, reg)
      else if truncated
      then (none, reg)
      else (some result, next)

-- The loop gives up after 16 errors of a receive in a row that are not transient: the count after an
-- error, and none when the loop ends. A datagram sets the count to 0.
unfoldable pub after_recv_error : ℕ → Bool → Option ℕ
after_recv_error errors transient =
    if transient then some errors else if leb 16 (errors + 1) then none else some (errors + 1)
