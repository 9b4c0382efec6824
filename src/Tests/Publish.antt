-- ===== src/Tests/Publish.antt =====
-- Runs of the publisher.
use simple_someip.Prelude.{
  ℕ, ◌≡◌, refl, arith, List, [], ◌∷◌, replicate, none, some, Option, ok, err, if◌then◌else◌, ◌==◌,
  false,
}
use simple_someip.Prelude.Eq.{nat_eq}
use simple_someip.Protocol.Header as Header
use simple_someip.Protocol.Header.{IsHeader}
use simple_someip.Protocol.MessageId as MessageId
use simple_someip.Protocol.MessageId.{service_id, method_id}
use simple_someip.Protocol.MessageType.{field_try_from, type_try_from}
use simple_someip.Protocol.ReturnCode.{okay}
use simple_someip.Protocol.Message.Encode as Message
use simple_someip.Payload as Payload
use simple_someip.Payload.{RawPayload}
use simple_someip.Payload.Format.{raw_format}
use simple_someip.E2e.{new_profile5_state}
use simple_someip.E2e.Profile.{profile5_with_header, profile5_state, from_message_id}
use simple_someip.E2e.Registry.{E2eRegistry}
use simple_someip.Transport.{TransportError, address_in_use}
use simple_someip.Server.Error.{transport}
use simple_someip.Server.Publish.{send_all, unwrap_or_unsupported}
use simple_someip.Server.Publish.Checked.{Checked, event_datagram-Checked}
use simple_someip.Server.Publish.Sent.{outcomes, successes, last_error, send_all-outcomes}
use simple_someip.Client.SocketManager.Events.{Received, receive_datagram-event}
use simple_someip.NetEndpoint.{SocketAddrV4}
use simple_someip.Tests.Maps.{key_eq, rx_eq, lookup}
use simple_someip.Tests.E2e.{crcs, config5, profiles, senders, receivers}
use simple_someip.Tests.Slices.{slice_writer}

-- A socket that logs its sends and fails for the address 2.
abbrev flaky : List (List ℕ) → List ℕ → ℕ → Option TransportError × List (List ℕ)
flaky log datagram addr = (if addr == 2 then some address_in_use else none, datagram ∷ log)

send_all-outcomes_example : send_all flaky [] (9 ∷ []) (1 ∷ 2 ∷ []) ≡ (
  (if successes flaky (outcomes flaky [] (9 ∷ []) (1 ∷ 2 ∷ [])).0 == 0
      then err (
          transport (
            unwrap_or_unsupported flaky
              (last_error flaky none (outcomes flaky [] (9 ∷ []) (1 ∷ 2 ∷ [])).0)))
      else ok (successes flaky (outcomes flaky [] (9 ∷ []) (1 ∷ 2 ∷ [])).0)),
  (outcomes flaky [] (9 ∷ []) (1 ∷ 2 ∷ [])).1,
)
send_all-outcomes_example = send_all-outcomes flaky [] (9 ∷ []) (1 ∷ 2 ∷ [])

abbrev pub event_header : Header.Header
event_header = record {
  message_id = record { raw = 0x12348001 };
  length_field = 11;
  request_id = 1;
  protocol_version = 0x01;
  interface_version = 0x01;
  message_type = record { byte = 0x02 };
  return_code = okay;
}

pub event_header-IsHeader : IsHeader event_header
event_header-IsHeader = record {
  id_range = omega arith;
  length_range = omega arith;
  request_range = omega arith;
  version = refl;
  interface_range = omega arith;
  type_valid = unfold field_try_from type_try_from in refl;
  type_range = omega arith;
  code_valid = tt;
}

abbrev event : Message.Message RawPayload
event = record {
  header = event_header;
  payload = record { message_id = event_header.message_id; kind = Payload.raw (1 ∷ 2 ∷ 3 ∷ []) };
}

abbrev pub both_ends : E2eRegistry nat_eq key_eq rx_eq profiles senders receivers
both_ends = record {
  configs = (from_message_id event_header.message_id, profile5_with_header config5) ∷ [];
  tx_states = (from_message_id event_header.message_id, profile5_state new_profile5_state) ∷ [];
  rx_states =
      (
        record { source = 7; key = from_message_id event_header.message_id },
        profile5_state new_profile5_state,
      )
      ∷ [];
  rx_saturation_warned = false;
}

event_datagram-Checked_example :
    Checked slice_writer
      (raw_format slice_writer.wr)
      nat_eq
      key_eq
      rx_eq
      profiles
      senders
      receivers
      crcs
      both_ends
      event
      (replicate 64 0)
      (replicate 32 0)
      both_ends
      7
      (profile5_with_header config5)
      (profile5_state new_profile5_state)
      (profile5_state new_profile5_state)
unfolding lookup from_message_id service_id method_id
event_datagram-Checked_example =
    event_datagram-Checked slice_writer (raw_format slice_writer.wr) nat_eq key_eq rx_eq profiles
      senders receivers crcs both_ends event (replicate 64 0) (replicate 32 0) both_ends 7
      (profile5_with_header config5) (profile5_state new_profile5_state)
      (profile5_state new_profile5_state) event_header-IsHeader tt
      (unfold Message.required_size Payload.required_size Payload.required_size_of in omega arith)
      refl refl refl refl refl tt (omega arith) (omega arith) (omega arith)

abbrev publisher : SocketAddrV4
publisher = record { ip = 7; port = 30509 }

receive_datagram-event_example :
    Received slice_writer
      (raw_format slice_writer.wr)
      nat_eq
      (λ n. n)
      key_eq
      rx_eq
      profiles
      senders
      receivers
      crcs
      both_ends
      event
      (replicate 64 0)
      (replicate 32 0)
      both_ends
      1500
      publisher
      (profile5_with_header config5)
      (profile5_state new_profile5_state)
      (profile5_state new_profile5_state)
unfolding lookup from_message_id service_id method_id Header.is_sd MessageId.is_sd
    Payload.from_payload_bytes
receive_datagram-event_example =
    receive_datagram-event slice_writer (raw_format slice_writer.wr) nat_eq (λ n. n) key_eq rx_eq
      profiles senders receivers crcs both_ends event (replicate 64 0) (replicate 32 0) both_ends
      1500 publisher (profile5_with_header config5) (profile5_state new_profile5_state)
      (profile5_state new_profile5_state) event_header-IsHeader tt
      (unfold Message.required_size Payload.required_size Payload.required_size_of in omega arith)
      refl refl refl refl refl tt (omega arith) (omega arith) (omega arith) refl refl (omega arith)
