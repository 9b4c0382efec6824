-- ===== src/Sd/Options/View.antt =====
-- `OptionView` and `OptionIter` of src/protocol/sd/options.rs. The accessors index the slice, and
-- an index out of bounds is a panic.
use simple_someip.Prelude.{
  ℕ, zero, suc, ◌+◌, ◌-◌, List, [], ◌∷◌, length, take, drop, ltb, if◌then◌else◌, Option, none, some,
  Result, ok, ◌>>=◌, ◌>>◌, fail_if,
}
use simple_someip.Bytes.{byte_at, index, slice, from_be16, from_be32}
use simple_someip.Protocol.Error.{SdError, configuration_string_too_long}
use simple_someip.Sd.Options.{
  Options, OptionType, TransportProtocol, configuration_string, load_balance, endpoint_v4,
  endpoint_v6, multicast_v4, multicast_v6, sd_v4, sd_v6, configuration, load_balancing,
  ip_v4_endpoint, ip_v6_endpoint, ip_v4_multicast, ip_v6_multicast, ip_v4_sd, ip_v6_sd,
  type_try_from, protocol_try_from, max_configuration_string_length,
}

pub record OptionView : Type 0 where
  pub bytes : List ℕ

unfoldable pub option_type : OptionView → Result SdError OptionType
option_type v = do t ← index v.bytes 2; type_try_from t

unfoldable pub length_field : OptionView → Result SdError ℕ
length_field v = do a ← index v.bytes 0; b ← index v.bytes 1; ok (from_be16 a b)

unfoldable pub wire_size : OptionView → Result SdError ℕ
wire_size v = do n ← length_field v; ok (n + 3)

-- The port and protocol of an IP option, at the offsets of its kind.
unfoldable pub port_at : OptionView → ℕ → Result SdError ℕ
port_at v i = do a ← index v.bytes i; b ← index v.bytes (i + 1); ok (from_be16 a b)

unfoldable pub as_ipv4 : OptionView → Result SdError (ℕ × TransportProtocol × ℕ)
as_ipv4 v = do
  a ← index v.bytes 4
  b ← index v.bytes 5
  c ← index v.bytes 6
  d ← index v.bytes 7
  let ip = from_be32 a b c d
  p ← index v.bytes 9
  protocol ← protocol_try_from p
  port ← port_at v 10
  ok (ip, protocol, port)

unfoldable pub as_ipv6 : OptionView → Result SdError (List ℕ × TransportProtocol × ℕ)
as_ipv6 v = do
  ip ← slice v.bytes 4 20
  p ← index v.bytes 21
  protocol ← protocol_try_from p
  port ← port_at v 22
  ok (ip, protocol, port)

-- `saturating_sub(1)`, which is the subtraction of ℕ.
unfoldable pub configuration_bytes : OptionView → Result SdError (List ℕ)
configuration_bytes v = do
  n ← length_field v
  let string_len = n - 1
  slice v.bytes 4 (4 + string_len)

unfoldable pub as_load_balancing : OptionView → Result SdError (ℕ × ℕ)
as_load_balancing v = do priority ← port_at v 4; weight ← port_at v 6; ok (priority, weight)

-- The match of `to_owned` on the option's type.
unfoldable pub owned_as : OptionView → OptionType → Result SdError Options
owned_as v configuration = do
  config_bytes ← configuration_bytes v
  fail_if (ltb max_configuration_string_length (length config_bytes))
      (configuration_string_too_long (length config_bytes))
  ok (configuration_string config_bytes)
owned_as v load_balancing = do
  (priority, weight) ← as_load_balancing v
  ok (load_balance priority weight)
owned_as v ip_v4_endpoint = do (ip, protocol, port) ← as_ipv4 v; ok (endpoint_v4 ip protocol port)
owned_as v ip_v6_endpoint = do (ip, protocol, port) ← as_ipv6 v; ok (endpoint_v6 ip protocol port)
owned_as v ip_v4_multicast = do (ip, protocol, port) ← as_ipv4 v; ok (multicast_v4 ip protocol port)
owned_as v ip_v6_multicast = do (ip, protocol, port) ← as_ipv6 v; ok (multicast_v6 ip protocol port)
owned_as v ip_v4_sd = do (ip, protocol, port) ← as_ipv4 v; ok (sd_v4 ip protocol port)
owned_as v ip_v6_sd = do (ip, protocol, port) ← as_ipv6 v; ok (sd_v6 ip protocol port)

unfoldable pub to_owned : OptionView → Result SdError Options
to_owned v = do t ← option_type v; owned_as v t

-- One step of the iterator; its indices and slices are behind the length checks.
unfoldable pub next : List ℕ → Option (OptionView × List ℕ)
next remaining =
    let wire = from_be16 (byte_at remaining 0) (byte_at remaining 1) + 3 in
    if ltb (length remaining) 4
    then none
    else if ltb (length remaining) wire
    then none
    else some (record { bytes = take wire remaining }, drop wire remaining)

-- All views that the iterator yields, on fuel; each step takes three bytes at least.
unfoldable pub views : ℕ → List ℕ → List OptionView
views zero remaining = []
views (suc fuel) remaining = elim (next remaining) [
  | none ↦ []
  | some (v, rest) ↦ v ∷ views fuel rest
]

unfoldable pub iterate : List ℕ → List OptionView
iterate remaining = views (length remaining) remaining
