-- ===== src/Tests/Datagrams.antt =====
-- Runs of the datagram builders and of the payload of fixed capacity.
use simple_someip.Prelude.{
  ℕ, ◌+◌, ◌%◌, ◌≤◌, ◌<◌, ◌≡◌, ◌≢◌, refl, arith, List, [], ◌∷◌, ◌++◌, replicate, map, some, true,
  false, ok, err, if◌then◌else◌,
}
use simple_someip.Protocol.MessageId.{sd_message_id}
use simple_someip.Protocol.Error.{io}
use simple_someip.Sd.Flags.{continuous}
use simple_someip.Sd.Options.Encode.{size}
use simple_someip.Sd.Header.Encode.{required_size, options_size, sd_bytes}
use simple_someip.Payload as Payload
use simple_someip.Payload.RoundTrip.{from_payload_bytes-sd_bytes}
use simple_someip.HeaplessPayload.{from_payload_bytes}
use simple_someip.HeaplessPayload.Agree.{heapless_of, from_payload_bytes-own}
use simple_someip.SdCodec.{
  SubscribeEventgroupRequest, OfferServiceRequest, IsSubscribe, IsOffer, buffer_too_small,
  encode_failed,
}
use simple_someip.SdCodec.Build.{
  wrapped_header, unicast_option, encode_sd_datagram, build_multi_service_entry_datagram,
}
use simple_someip.SdCodec.Built.{Sent, Outcome, encode_sd_datagram-Outcome}
use simple_someip.SdCodec.Offers.{entries_of, option_of, build_multi-Sent}
use simple_someip.SdCodec.Notify.{Notified, build_notification-Notified}
use simple_someip.SdCodec.Session.{
  next_sd_session, session_of, call_behind, next_sd_session-ends, sessions-distinct,
}
use simple_someip.Tests.Data.{sd_header, sd_header-IsSdHeader}
use simple_someip.Tests.Slices.{slice_writer}

-- A buffer that holds the 16 bytes of the header, but not the payload.
encode_sd_datagram-Outcome_example :
    Outcome buffer_too_small encode_failed
      (encode_sd_datagram slice_writer
        (replicate 40 0)
        sd_header.entries
        sd_header.options
        7
        continuous)
      (wrapped_header continuous sd_header.entries sd_header.options)
      (replicate 40 0)
encode_sd_datagram-Outcome_example =
    encode_sd_datagram-Outcome slice_writer (replicate 40 0) sd_header.entries sd_header.options 7
      continuous (omega arith)
      (record {
        entries_range = sd_header-IsSdHeader.entries_range;
        options_range = sd_header-IsSdHeader.options_range;
        entries_fit = sd_header-IsSdHeader.entries_fit;
        options_fit = sd_header-IsSdHeader.options_fit;
      })
      (unfold required_size options_size size in omega arith)

abbrev pub request : SubscribeEventgroupRequest
request = record {
  service_id = 0x1234;
  instance_id = 1;
  major_version = 1;
  event_group_id = 7;
  ttl = 3;
  local_ip = 0xc0a80001;
  local_rx_port = 30500;
}

pub request-IsSubscribe : IsSubscribe request
request-IsSubscribe = record {
  service = omega arith;
  instance_range = omega arith;
  major = omega arith;
  group = omega arith;
  ttl_range = omega arith;
  ip_range = omega arith;
  port_range = omega arith;
}

abbrev service : ℕ → ℕ → OfferServiceRequest
service id port = record {
  service_id = id;
  instance_id = 1;
  major_version = 1;
  minor_version = 0;
  ttl = 3;
  local_ip = 0xc0a80001;
  unicast_port = port;
}

abbrev two_services : List OfferServiceRequest
two_services = service 0x1234 30500 ∷ service 0x5678 30501 ∷ []

service-IsOffer : (id port : ℕ) → id < 65536 → port < 65536 → IsOffer (service id port)
service-IsOffer id port p q = record {
  service = p;
  instance_range = omega arith;
  major = omega arith;
  minor = omega arith;
  ttl_range = omega arith;
  ip_range = omega arith;
  port_range = q;
}

build_multi-Sent_example :
    Sent
      (build_multi_service_entry_datagram slice_writer 4 (replicate 100 0) two_services 1 false)
      (wrapped_header continuous
        (entries_of 0 two_services false)
        (map unicast_option two_services))
      (replicate 100 0)
    × (map (option_of (map unicast_option two_services)) (entries_of 0 two_services false)
        ≡ map (λ r. some (unicast_option r)) two_services)
build_multi-Sent_example =
    build_multi-Sent slice_writer (replicate 100 0) 1 (omega arith) 4 two_services false
      (
        service-IsOffer 0x1234 30500 (omega arith) (omega arith),
        (service-IsOffer 0x5678 30501 (omega arith) (omega arith), tt),
      )
      (omega arith) (omega arith)

build_notification-Notified_example : Notified 0x1234 0x8001 5 (1 ∷ 2 ∷ 3 ∷ []) (replicate 32 0)
build_notification-Notified_example =
    build_notification-Notified 0x1234 0x8001 5 (1 ∷ 2 ∷ 3 ∷ []) (replicate 32 0) (omega arith)
      (omega arith) (omega arith) (omega arith) (omega arith)

-- The counter has wrapped to 0.
next_sd_session-ends_example :
    (next_sd_session 2 0 ≡ some (session_of 0, (session_of 0 + 1) % 65536))
    × (1 ≤ session_of 0)
    × (session_of 0 < 65536)
next_sd_session-ends_example = next_sd_session-ends 0 2 (omega arith) (omega arith)

sessions-distinct_example : ◌≢◌ {A = ℕ} 65535 2
unfolding next_sd_session call_behind
sessions-distinct_example =
    sessions-distinct 65534 1 3 65535 2 0 3 (omega arith) (omega arith) (omega arith) refl refl

abbrev read_header : Payload.RawPayload
read_header = record { message_id = sd_message_id; kind = Payload.sd_kind sd_header }

from_payload_bytes-own_example :
    from_payload_bytes 14 sd_message_id (sd_bytes sd_header ++ [])
    ≡ (if true then ok (heapless_of read_header) else err (io 14))
from_payload_bytes-own_example =
    from_payload_bytes-own 14 sd_message_id (sd_bytes sd_header ++ []) read_header (
      unfold Payload.new_sd_payload in
      from_payload_bytes-sd_bytes sd_header [] sd_header-IsSdHeader)
