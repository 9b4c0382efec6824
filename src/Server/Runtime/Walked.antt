-- ===== src/Server/Runtime/Walked.antt =====
-- The walk of `extract_subscriber_endpoint` of src/server/runtime.rs over validated options.
use simple_someip.Prelude.{
  ℕ, ◌+◌, ◌≡◌, ◌⊎◌, inl, inr, refl, List, [], ◌∷◌, All, All-take, All-drop, take, drop, ◌==◌,
  Bool-cases, Option, none, some, Result, ok,
}
use simple_someip.Bytes.{byte_at}
use simple_someip.Protocol.Error.{SdError}
use simple_someip.Sd.Options.{
  OptionType, TransportProtocol, ip_v4_endpoint, configuration, load_balancing, ip_v6_endpoint,
  ip_v4_multicast, ip_v6_multicast, ip_v4_sd, ip_v6_sd,
}
use simple_someip.Sd.Options.View.{OptionView, as_ipv4}
use simple_someip.Sd.Options.Validate.{Validated, check_type, field}
use simple_someip.Sd.Options.Accepted.{type-ok, v4-ok}
use simple_someip.Sd.Header.Views.{IsValid}
use simple_someip.NetEndpoint.{SocketAddrV4}
use simple_someip.Server.Runtime.Endpoint.{
  Found, or_else, count_ipv4, count_option, walk, walk_run, first_of, extract_subscriber_endpoint,
}

-- A count above 0 has a first endpoint.
abbrev IsCounted : Found → Type 0
IsCounted found = (found.0 ≡ 0) ⊎ ((a : SocketAddrV4) × (found.1 ≡ some a))

abbrev Goes : Result SdError Found → Type 0
Goes result = (next : Found) × (result ≡ ok next) × IsCounted next

or_else-some :
    (first : Option SocketAddrV4) (a : SocketAddrV4)
    → (b : SocketAddrV4) × (or_else first a ≡ some b)
or_else-some none a = (a, refl)
or_else-some (some b) a = (b, refl)

count_ipv4-Goes :
    (found : Found) (v : OptionView) (r : ℕ × TransportProtocol × ℕ)
    → as_ipv4 v ≡ ok r
    → Goes (count_ipv4 found (as_ipv4 v))
unfolding count_ipv4
count_ipv4-Goes (n, first) v (ip, protocol, port) e = rw e (
  (n + 1, or_else first (record { ip = ip; port = port })),
  refl,
  inr (or_else-some first (record { ip = ip; port = port })),
)

count_option-Goes :
    (found : Found) (buf : List ℕ) (n : ℕ) (valid : Validated buf n) (t : OptionType)
    → IsCounted found
    → check_type buf (byte_at buf 2) (field buf) t ≡ ok tt
    → Goes (count_option found (record { bytes = take n buf }) (ok t))
unfolding count_option check_type
count_option-Goes found buf n valid ip_v4_endpoint h c =
    let (r, e) = v4-ok buf n valid (byte_at buf 2) c in
    count_ipv4-Goes found (record { bytes = take n buf }) r e
count_option-Goes found buf n valid configuration h c = (found, refl, h)
count_option-Goes found buf n valid load_balancing h c = (found, refl, h)
count_option-Goes found buf n valid ip_v6_endpoint h c = (found, refl, h)
count_option-Goes found buf n valid ip_v4_multicast h c = (found, refl, h)
count_option-Goes found buf n valid ip_v6_multicast h c = (found, refl, h)
count_option-Goes found buf n valid ip_v4_sd h c = (found, refl, h)
count_option-Goes found buf n valid ip_v6_sd h c = (found, refl, h)

walk-Goes :
    (found : Found) (vs : List OptionView) → All IsValid vs → IsCounted found → Goes (walk found vs)
unfolding walk
walk-Goes found [] valid h = (found, refl, h)
walk-Goes found (v ∷ vs) ((buf, n, same, one), rest) h =
    let (next, e, counted) = count_option-Goes found buf n one one.kind h one.checked in
    let (last, e₂, counted₂) = walk-Goes next vs rest counted in
    (last, rw (same, type-ok buf n one, e) e₂, counted₂)

walk_run-Goes :
    (vs : List OptionView) (found : Found) (index count : ℕ)
    → All IsValid vs
    → IsCounted found
    → Goes (walk_run vs found index count)
unfolding walk_run
walk_run-Goes vs found index count valid h = elim (Bool-cases (count == 0)) [
  | inl e ↦ rw e (found, refl, h)
  | inr e ↦ rw e (
      walk-Goes found (take count (drop index vs))
        (All-take IsValid count (drop index vs) (All-drop IsValid index vs valid)) h)
]

first_of-ok :
    (found : Found) → IsCounted found → (o : Option SocketAddrV4) × (first_of found ≡ ok o)
unfolding first_of
first_of-ok (n, first) (inl e) = (none, rw e refl)
first_of-ok (n, first) (inr (a, e)) = elim (Bool-cases (n == 0)) [
  | inl z ↦ (none, rw z refl)
  | inr z ↦ (some a, rw (z, e) refl)
]

-- On the options of a message that was accepted the walk ends with an endpoint or with none.
pub extract_subscriber_endpoint-ok :
    (vs : List OptionView) (i c j k : ℕ)
    → All IsValid vs
    → (o : Option SocketAddrV4) × (extract_subscriber_endpoint vs i c j k ≡ ok o)
unfolding extract_subscriber_endpoint
extract_subscriber_endpoint-ok vs i c j k valid =
    let (one, e, h) = walk_run-Goes vs (0, none) i c valid (inl refl) in
    let (both, e₂, h₂) = walk_run-Goes vs one j k valid h in
    let (o, e₃) = first_of-ok both h₂ in (o, rw (e, e₂) e₃)
