-- ===== src/Server/Runtime/Endpoint.antt =====
-- `extract_subscriber_endpoint` of src/server/runtime.rs: the first IPv4 endpoint in the two runs of
-- options that a subscription refers to.
use simple_someip.Prelude.{
  ℕ, ◌+◌, List, [], ◌∷◌, take, drop, ◌==◌, if◌then◌else◌, Option, none, some, Result, ok, err,
  panic, ◌>>=◌,
}
use simple_someip.Protocol.Error.{SdError}
use simple_someip.Sd.Options.{OptionType, TransportProtocol, ip_v4_endpoint}
use simple_someip.Sd.Options.View.{OptionView, option_type, as_ipv4}
use simple_someip.NetEndpoint.{SocketAddrV4}

-- The number of endpoints found and the first one.
abbrev pub Found : Type 0
Found = ℕ × Option SocketAddrV4

abbrev pub or_else : Option SocketAddrV4 → SocketAddrV4 → Option SocketAddrV4
or_else none a = some a
or_else (some first) a = some first

-- `if let Ok((ip, _, port)) = option_view.as_ipv4()`.
unfoldable pub count_ipv4 :
    Found → Result SdError (ℕ × TransportProtocol × ℕ) → Result SdError Found
count_ipv4 (n, first) (ok (ip, protocol, port)) =
    ok (n + 1, or_else first (record { ip = ip; port = port }))
count_ipv4 found (err e) = ok found
count_ipv4 found panic = panic

-- The match on the type of an option; every other type and every error is ignored.
unfoldable pub count_option : Found → OptionView → Result SdError OptionType → Result SdError Found
count_option found v (ok ip_v4_endpoint) = count_ipv4 found (as_ipv4 v)
count_option found v (ok _) = ok found
count_option found v (err e) = ok found
count_option found v panic = panic

unfoldable pub walk : Found → List OptionView → Result SdError Found
walk found [] = ok found
walk found (v ∷ vs) = do next ← count_option found v (option_type v); walk next vs

-- `options.clone().skip(index).take(count)`.
unfoldable pub walk_run : List OptionView → Found → ℕ → ℕ → Result SdError Found
walk_run options found index count =
    if count == 0 then ok found else walk found (take count (drop index options))

-- The match on the count: a count above 0 has a first endpoint.
unfoldable pub first_of : Found → Result SdError (Option SocketAddrV4)
first_of (n, first) = if n == 0 then ok none else elim first [ none ↦ panic | some a ↦ ok (some a) ]

unfoldable pub extract_subscriber_endpoint :
    List OptionView → ℕ → ℕ → ℕ → ℕ → Result SdError (Option SocketAddrV4)
extract_subscriber_endpoint options first_index first_count second_index second_count = do
  one ← walk_run options (0, none) first_index first_count
  both ← walk_run options one second_index second_count
  first_of both
