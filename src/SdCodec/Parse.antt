-- ===== src/SdCodec/Parse.antt =====
-- The parsers of src/sd_codec.rs. `ok()` drops an error; the two parsers it is applied to never
-- panic, see Protocol.Header.RoundTrip and Sd.Header.Overflow.
use simple_someip.Prelude.{
  ℕ, List, Option, none, some, Result, ok, not, if◌then◌else◌, to_option, ◌>>=◌,
}
use simple_someip.Prelude.Eq.{Eq}
use simple_someip.Maps.{IndexMap}
use simple_someip.Protocol.MessageId.{service_id, method_id, new_from_service_and_method}
use simple_someip.Protocol.Header as Header
use simple_someip.Protocol.Header.{HeaderView, view_message_id, view_is_sd, view_upper_header_bytes}
use simple_someip.Sd.Header as SdHeader
use simple_someip.Sd.Header.{SdHeaderView}
use simple_someip.E2e.{
  E2eError, E2eCheckStatus, unchecked, okay, crc_error, repeated, ok_some_lost, wrong_sequence,
  bad_argument,
}
use simple_someip.E2e.Profile.{E2eKey, E2eProfile, E2eState, Crcs, from_message_id}
use simple_someip.E2e.Registry.{E2eRegistry, RxKey, registry_cap, rx_state_cap, check}

pub record ParsedDatagram : Type 0 where
  pub service_id : ℕ
  pub method_id : ℕ
  pub upper_header : List ℕ
  pub payload : List ℕ

unfoldable pub datagram_of : Option (HeaderView × List ℕ) → Option ParsedDatagram
datagram_of none = none
datagram_of (some (view, payload)) =
    let message_id = view_message_id view in
    some (record {
      service_id = service_id message_id;
      method_id = method_id message_id;
      upper_header = view_upper_header_bytes view;
      payload = payload;
    })

unfoldable pub parse_someip_datagram : List ℕ → Option ParsedDatagram
parse_someip_datagram bytes = datagram_of (to_option (Header.parse bytes))

unfoldable pub sd_view_of : Option (HeaderView × List ℕ) → Option SdHeaderView
sd_view_of none = none
sd_view_of (some (view, sd_payload)) =
    if not (view_is_sd view) then none else to_option (SdHeader.parse sd_payload)

unfoldable pub parse_someip_sd_datagram : List ℕ → Option SdHeaderView
parse_someip_sd_datagram bytes = sd_view_of (to_option (Header.parse bytes))

unfoldable pub e2e_status_code : E2eCheckStatus → ℕ
e2e_status_code okay = 1
e2e_status_code crc_error = 2
e2e_status_code repeated = 3
e2e_status_code ok_some_lost = 4
e2e_status_code wrong_sequence = 5
e2e_status_code bad_argument = 6
e2e_status_code unchecked = 0

-- The match on what the registry found.
abbrev pub found_or_unchecked : List ℕ → Option (E2eCheckStatus × List ℕ) → E2eCheckStatus × List ℕ
found_or_unchecked payload none = (unchecked, payload)
found_or_unchecked payload (some found) = found

module _ {Ip : Type 0} (ip : Eq Ip) (ke : Eq E2eKey) (re : Eq (RxKey Ip))
    (profiles : IndexMap E2eKey E2eProfile ke registry_cap)
    (senders : IndexMap E2eKey E2eState ke registry_cap)
    (receivers : IndexMap (RxKey Ip) E2eState re rx_state_cap) where
  -- The handle stands for the registry behind it.
  unfoldable pub check_parsed_e2e :
      Crcs
      → E2eRegistry ip ke re profiles senders receivers
      → Ip
      → ParsedDatagram
      → Result E2eError
          ((E2eCheckStatus × List ℕ) × E2eRegistry ip ke re profiles senders receivers)
  check_parsed_e2e crcs reg source parsed = do
    let key = from_message_id (new_from_service_and_method parsed.service_id parsed.method_id)
    (found, next) ←
        check ip ke re profiles senders receivers crcs reg source key parsed.payload
          parsed.upper_header
    ok (found_or_unchecked parsed.payload found, next)
