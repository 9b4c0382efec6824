-- ===== src/Sd/Options.antt =====
-- src/protocol/sd/options.rs: the options of a service discovery message and their encoder.
-- An IPv4 address is the number of its 32 bits, an IPv6 address the list of its 16 octets.
-- `heapless::Vec<u8, 256>` is the list of its bytes, with its capacity as a range.
pub mod Encode
pub mod View
pub mod Validate
pub mod Accepted
pub mod RoundTrip
use simple_someip.Prelude.{
  ℕ, ◌+◌, ◌≤◌, ◌<◌, ◌≡◌, ◌≢◌, refl, arith, ◌==◌, if◌then◌else◌, List, length, Option, none, some,
  [], ◌∷◌, Result, ok, err, panic,
}
use simple_someip.Bytes.{IsU16, IsU32, IsBytes}
use simple_someip.Protocol.Error.{SdError, invalid_option_type, invalid_option_transport_protocol}

pub data TransportProtocol : Type 0 where
  udp tcp : TransportProtocol

unfoldable pub protocol_try_from : ℕ → Result SdError TransportProtocol
protocol_try_from v =
    if v == 0x11
    then ok udp
    else if v == 0x06
    then ok tcp
    else err (invalid_option_transport_protocol v)

-- `u8::try_from`, which never fails.
unfoldable pub protocol_to_u8 : TransportProtocol → ℕ
protocol_to_u8 udp = 0x11
protocol_to_u8 tcp = 0x06

pub data OptionType : Type 0 where
  configuration load_balancing ip_v4_endpoint ip_v6_endpoint : OptionType
  ip_v4_multicast ip_v6_multicast ip_v4_sd ip_v6_sd : OptionType

unfoldable pub type_try_from : ℕ → Result SdError OptionType
type_try_from v =
    if v == 0x01
    then ok configuration
    else if v == 0x02
    then ok load_balancing
    else if v == 0x04
    then ok ip_v4_endpoint
    else if v == 0x06
    then ok ip_v6_endpoint
    else if v == 0x14
    then ok ip_v4_multicast
    else if v == 0x16
    then ok ip_v6_multicast
    else if v == 0x24
    then ok ip_v4_sd
    else if v == 0x26
    then ok ip_v6_sd
    else err (invalid_option_type v)

unfoldable pub type_to_u8 : OptionType → ℕ
type_to_u8 configuration = 0x01
type_to_u8 load_balancing = 0x02
type_to_u8 ip_v4_endpoint = 0x04
type_to_u8 ip_v6_endpoint = 0x06
type_to_u8 ip_v4_multicast = 0x14
type_to_u8 ip_v6_multicast = 0x16
type_to_u8 ip_v4_sd = 0x24
type_to_u8 ip_v6_sd = 0x26

-- Constructors in the order of the source; the fields are the address, the protocol and the port.
pub data Options : Type 0 where
  configuration_string : List ℕ → Options
  load_balance : (priority weight : ℕ) → Options
  endpoint_v4 : (ip : ℕ) (protocol : TransportProtocol) (port : ℕ) → Options
  endpoint_v6 : (ip : List ℕ) (protocol : TransportProtocol) (port : ℕ) → Options
  multicast_v4 : (ip : ℕ) (protocol : TransportProtocol) (port : ℕ) → Options
  multicast_v6 : (ip : List ℕ) (protocol : TransportProtocol) (port : ℕ) → Options
  sd_v4 : (ip : ℕ) (protocol : TransportProtocol) (port : ℕ) → Options
  sd_v6 : (ip : List ℕ) (protocol : TransportProtocol) (port : ℕ) → Options

-- `find_map` over the options: the first IPv4 endpoint.
unfoldable pub extract_ipv4_endpoint : List Options → Option ((ℕ × ℕ) × TransportProtocol)
extract_ipv4_endpoint [] = none
extract_ipv4_endpoint (endpoint_v4 ip protocol port ∷ os) = some ((ip, port), protocol)
extract_ipv4_endpoint (o ∷ os) = extract_ipv4_endpoint os

abbrev pub max_configuration_string_length : ℕ
max_configuration_string_length = 256

abbrev pub IsV4 : ℕ → ℕ → Type 0
IsV4 ip port = IsU32 ip × IsU16 port

abbrev pub IsV6 : List ℕ → ℕ → Type 0
IsV6 ip port = (length ip ≡ 16) × IsU16 port

-- The ranges that the types of the fields give.
abbrev pub IsOption : Options → Type 0
IsOption (configuration_string s) = length s ≤ max_configuration_string_length
IsOption (load_balance priority weight) = IsU16 priority × IsU16 weight
IsOption (endpoint_v4 ip protocol port) = IsV4 ip port
IsOption (endpoint_v6 ip protocol port) = IsV6 ip port
IsOption (multicast_v4 ip protocol port) = IsV4 ip port
IsOption (multicast_v6 ip protocol port) = IsV6 ip port
IsOption (sd_v4 ip protocol port) = IsV4 ip port
IsOption (sd_v6 ip protocol port) = IsV6 ip port

pub type_try_from-type_to_u8 : (t : OptionType) → type_try_from (type_to_u8 t) ≡ ok t
unfolding type_try_from type_to_u8
type_try_from-type_to_u8 configuration = refl
type_try_from-type_to_u8 _ = refl

pub protocol_try_from-protocol_to_u8 :
    (p : TransportProtocol) → protocol_try_from (protocol_to_u8 p) ≡ ok p
unfolding protocol_try_from protocol_to_u8
protocol_try_from-protocol_to_u8 udp = refl
protocol_try_from-protocol_to_u8 tcp = refl

pub protocol_try_from-ne-panic : (v : ℕ) → protocol_try_from v ≢ panic
unfolding protocol_try_from
protocol_try_from-ne-panic v h = ground arith

pub type_try_from-ne-panic : (v : ℕ) → type_try_from v ≢ panic
unfolding type_try_from
type_try_from-ne-panic v h = ground arith
