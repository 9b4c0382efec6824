-- ===== src/Server/Runtime/Found.antt =====
-- The endpoint of a subscriber, beside the options that the message owns.
use simple_someip.Prelude.{
  ℕ, suc, zero, ◌+◌, ◌≤◌, ◌≡◌, refl, ap, ◌∙◌, arith, List, [], ◌∷◌, ◌++◌, take, drop, ◌==◌, false,
  Option, none, some, ok, Result-cases, >>=-eq-ok, inl, inr, fail_if, ltb, length,
}
use simple_someip.Protocol.Error.{configuration_string_too_long}
use simple_someip.Sd.Options.{
  Options, OptionType, TransportProtocol, ip_v4_endpoint, configuration, load_balancing,
  ip_v6_endpoint, ip_v4_multicast, ip_v6_multicast, ip_v4_sd, ip_v6_sd, extract_ipv4_endpoint,
  configuration_string, load_balance, endpoint_v4, endpoint_v6, multicast_v4, multicast_v6, sd_v4,
  sd_v6, max_configuration_string_length,
}
use simple_someip.Sd.Options.View.{
  OptionView, option_type, as_ipv4, as_ipv6, owned_as, to_owned, configuration_bytes,
  as_load_balancing,
}
use simple_someip.Payload.{own_all, own_option}
use simple_someip.NetEndpoint.{SocketAddrV4}
use simple_someip.Server.Runtime.Endpoint.{
  Found, or_else, count_ipv4, count_option, walk, walk_run, first_of, extract_subscriber_endpoint,
}

-- The address of the first IPv4 endpoint.
abbrev pub address_of : Option ((ℕ × ℕ) × TransportProtocol) → Option SocketAddrV4
address_of none = none
address_of (some ((ip, port), protocol)) = some (record { ip = ip; port = port })

abbrev pub seen : Found → Options → Found
seen (n, first) (endpoint_v4 ip protocol port) =
    (n + 1, or_else first (record { ip = ip; port = port }))
seen found _ = found

abbrev pub seen_all : Found → List Options → Found
seen_all found [] = found
seen_all found (o ∷ os) = seen_all (seen found o) os

count_option-owned :
    (found : Found) (v : OptionView) (t : OptionType) (o : Options)
    → owned_as v t ≡ ok o
    → count_option found v (ok t) ≡ ok (seen found o)
unfolding owned_as count_option count_ipv4
count_option-owned found v configuration o p =
    let (bytes, read, q) = >>=-eq-ok (configuration_bytes v) _ p in
    let (done, fits, r) =
      >>=-eq-ok
        (fail_if (ltb max_configuration_string_length (length bytes))
          (configuration_string_too_long (length bytes)))
        _ q in
    let same : o ≡ configuration_string bytes = cc r in rw same refl
count_option-owned found v load_balancing o p =
    let ((priority, weight), read, q) = >>=-eq-ok (as_load_balancing v) _ p in
    let same : o ≡ load_balance priority weight = cc q in rw same refl
count_option-owned found v ip_v4_endpoint o p =
    let ((ip, protocol, port), read, q) = >>=-eq-ok (as_ipv4 v) _ p in
    let same : o ≡ endpoint_v4 ip protocol port = cc q in rw (same, read) refl
count_option-owned found v ip_v6_endpoint o p =
    let ((ip, protocol, port), read, q) = >>=-eq-ok (as_ipv6 v) _ p in
    let same : o ≡ endpoint_v6 ip protocol port = cc q in rw same refl
count_option-owned found v ip_v4_multicast o p =
    let ((ip, protocol, port), read, q) = >>=-eq-ok (as_ipv4 v) _ p in
    let same : o ≡ multicast_v4 ip protocol port = cc q in rw same refl
count_option-owned found v ip_v6_multicast o p =
    let ((ip, protocol, port), read, q) = >>=-eq-ok (as_ipv6 v) _ p in
    let same : o ≡ multicast_v6 ip protocol port = cc q in rw same refl
count_option-owned found v ip_v4_sd o p =
    let ((ip, protocol, port), read, q) = >>=-eq-ok (as_ipv4 v) _ p in
    let same : o ≡ sd_v4 ip protocol port = cc q in rw same refl
count_option-owned found v ip_v6_sd o p =
    let ((ip, protocol, port), read, q) = >>=-eq-ok (as_ipv6 v) _ p in
    let same : o ≡ sd_v6 ip protocol port = cc q in rw same refl

count-owned :
    (found : Found) (v : OptionView) (o : Options)
    → own_option v ≡ ok o
    → count_option found v (option_type v) ≡ ok (seen found o)
unfolding to_owned
count-owned found v o p = elim (Result-cases (to_owned v)) [
  | inl (x, q) ↦
      let same : x ≡ o = cc (p, q) in
      let (t, kind, owned) = >>=-eq-ok (option_type v) _ q in
      rw kind (count_option-owned found v t o (owned ∙ ap (λ (y : Options). ok y) same))
  | inr (inl (x, q)) ↦ absurd (cc (p, q))
  | inr (inr q) ↦ absurd (cc (p, q))
]

walk-owned :
    (found : Found) (vs : List OptionView) (os : List Options)
    → own_all own_option vs ≡ ok os
    → walk found vs ≡ ok (seen_all found os)
unfolding walk own_all
walk-owned found [] os p = let same : os ≡ [] = cc p in rw same refl
walk-owned found (v ∷ vs) os p =
    let (o, first, q) = >>=-eq-ok (own_option v) _ p in
    let (rest, others, r) = >>=-eq-ok (own_all own_option vs) _ q in
    let same : os ≡ o ∷ rest = cc r in
    rw (same, count-owned found v o first) (walk-owned (seen found o) vs rest others)

-- A part of what the views own is what a part of them owns.
own_all-drop :
    (n : ℕ) (vs : List OptionView) (os : List Options)
    → own_all own_option vs ≡ ok os
    → own_all own_option (drop n vs) ≡ ok (drop n os)
unfolding own_all
own_all-drop zero vs os p = p
own_all-drop (suc n) [] os p = let same : os ≡ [] = cc p in rw same refl
own_all-drop (suc n) (v ∷ vs) os p =
    let (o, first, q) = >>=-eq-ok (own_option v) _ p in
    let (rest, others, r) = >>=-eq-ok (own_all own_option vs) _ q in
    let same : os ≡ o ∷ rest = cc r in rw same (own_all-drop n vs rest others)

own_all-take :
    (n : ℕ) (vs : List OptionView) (os : List Options)
    → own_all own_option vs ≡ ok os
    → own_all own_option (take n vs) ≡ ok (take n os)
unfolding own_all
own_all-take zero vs os p = refl
own_all-take (suc n) [] os p = let same : os ≡ [] = cc p in rw same refl
own_all-take (suc n) (v ∷ vs) os p =
    let (o, first, q) = >>=-eq-ok (own_option v) _ p in
    let (rest, others, r) = >>=-eq-ok (own_all own_option vs) _ q in
    let same : os ≡ o ∷ rest = cc r in rw (same, first, own_all-take n vs rest others) refl

abbrev pub run : List Options → ℕ → ℕ → List Options
run os index count = take count (drop index os)

walk_run-owned :
    (found : Found) (vs : List OptionView) (os : List Options) (index count : ℕ)
    → own_all own_option vs ≡ ok os
    → walk_run vs found index count ≡ ok (seen_all found (run os index count))
unfolding walk_run
walk_run-owned found vs os index zero p = refl
walk_run-owned found vs os index (suc count) p =
    let some_left : (suc count == 0) ≡ false = ground arith in
    rw some_left (
      walk-owned found (take (suc count) (drop index vs)) (run os index (suc count))
        (own_all-take (suc count) (drop index vs) (drop index os) (own_all-drop index vs os p)))

seen_all-append :
    (found : Found) (os ps : List Options)
    → seen_all (seen_all found os) ps ≡ seen_all found (os ++ ps)
seen_all-append found [] ps = refl
seen_all-append found (o ∷ os) ps = seen_all-append (seen found o) os ps

-- Once there is a first endpoint, it stays.
first_of-some :
    (n : ℕ) (a : SocketAddrV4) (os : List Options)
    → 1 ≤ n
    → first_of (seen_all (n, some a) os) ≡ ok (some a)
unfolding first_of
first_of-some n a [] h = let above : (n == 0) ≡ false = ground (arith, h) in rw above refl
first_of-some n a (endpoint_v4 ip protocol port ∷ os) h = first_of-some (n + 1) a os (omega arith)
first_of-some n a (configuration_string s ∷ os) h = first_of-some n a os h
first_of-some n a (load_balance priority weight ∷ os) h = first_of-some n a os h
first_of-some n a (endpoint_v6 ip protocol port ∷ os) h = first_of-some n a os h
first_of-some n a (multicast_v4 ip protocol port ∷ os) h = first_of-some n a os h
first_of-some n a (multicast_v6 ip protocol port ∷ os) h = first_of-some n a os h
first_of-some n a (sd_v4 ip protocol port ∷ os) h = first_of-some n a os h
first_of-some n a (sd_v6 ip protocol port ∷ os) h = first_of-some n a os h

first_of-none :
    (os : List Options)
    → first_of (seen_all (0, none) os) ≡ ok (address_of (extract_ipv4_endpoint os))
unfolding extract_ipv4_endpoint
first_of-none [] = unfold first_of in refl
first_of-none (endpoint_v4 ip protocol port ∷ os) =
    first_of-some (0 + 1) (record { ip = ip; port = port }) os (omega arith)
first_of-none (configuration_string s ∷ os) = first_of-none os
first_of-none (load_balance priority weight ∷ os) = first_of-none os
first_of-none (endpoint_v6 ip protocol port ∷ os) = first_of-none os
first_of-none (multicast_v4 ip protocol port ∷ os) = first_of-none os
first_of-none (multicast_v6 ip protocol port ∷ os) = first_of-none os
first_of-none (sd_v4 ip protocol port ∷ os) = first_of-none os
first_of-none (sd_v6 ip protocol port ∷ os) = first_of-none os

-- When every view is read as an option, the endpoint of a subscriber is the address of the first
-- IPv4 endpoint among the options of the first run and then of the second one, and there is none
-- when neither run has one.
pub extract_subscriber_endpoint-first :
    (vs : List OptionView) (os : List Options)
    → (first_index first_count second_index second_count : ℕ) → own_all own_option vs ≡ ok os
    → extract_subscriber_endpoint vs first_index first_count second_index second_count
      ≡ ok (
          address_of (
            extract_ipv4_endpoint
              (run os first_index first_count ++ run os second_index second_count)))
unfolding extract_subscriber_endpoint
extract_subscriber_endpoint-first vs os i c j k p =
    rw
      (
        walk_run-owned (0, none) vs os i c p,
        walk_run-owned (seen_all (0, none) (run os i c)) vs os j k p,
        seen_all-append (0, none) (run os i c) (run os j k),
      )
      (first_of-none (run os i c ++ run os j k))
