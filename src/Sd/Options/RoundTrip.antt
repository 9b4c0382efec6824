-- ===== src/Sd/Options/RoundTrip.antt =====
-- Options read back from what was written.
use simple_someip.Prelude.{
  ℕ, ◌+◌, ◌-◌, ◌<◌, ◌≤◌, ◌≡◌, refl, sym, ap, subst, ◌∙◌, arith, List, ◌++◌, length, length-append,
  drop, le→ltb, ==_refl, some, ok, take-append_length, take_all, drop-append_length,
}
use simple_someip.Bytes.{IsU16, byte_at, to_be16, to_be32}
use simple_someip.Bytes.Facts.{index-ok, from_be16-to_be16, from_be32-to_be32, eq-table, table}
use simple_someip.Protocol.Error.{SdError}
use simple_someip.Sd.Options.{
  Options, OptionType, TransportProtocol, configuration_string, load_balance, endpoint_v4,
  endpoint_v6, multicast_v4, multicast_v6, sd_v4, sd_v6, configuration, load_balancing,
  ip_v4_endpoint, ip_v6_endpoint, ip_v4_multicast, ip_v6_multicast, ip_v4_sd, ip_v6_sd,
  protocol_to_u8, protocol_try_from-protocol_to_u8, type_to_u8, type_try_from-type_to_u8, IsOption,
  IsV4, IsV6,
}
use simple_someip.Sd.Options.Encode.{
  size, option_bytes, body_bytes, v4_bytes, v6_bytes, string_bytes, balance_bytes,
  length-option_bytes,
}
use simple_someip.Sd.Options.View.{
  OptionView, option_type, as_ipv4, as_ipv6, configuration_bytes, as_load_balancing, owned_as,
  to_owned, next,
}
use simple_someip.Sd.Options.Validate.{validate_option, check_type, check_ip, field, validate-steps}
use simple_someip.Sd.Options.Accepted.{ipv4-ok, ipv6-ok, load_balancing-ok, configuration-ok}

abbrev pub option_view : Options → OptionView
option_view o = record { bytes = option_bytes o }

-- The type of an option.
abbrev pub type_of : Options → OptionType
type_of (configuration_string s) = configuration
type_of (load_balance priority weight) = load_balancing
type_of (endpoint_v4 ip protocol port) = ip_v4_endpoint
type_of (endpoint_v6 ip protocol port) = ip_v6_endpoint
type_of (multicast_v4 ip protocol port) = ip_v4_multicast
type_of (multicast_v6 ip protocol port) = ip_v6_multicast
type_of (sd_v4 ip protocol port) = ip_v4_sd
type_of (sd_v6 ip protocol port) = ip_v6_sd

module _ (t : OptionType) (p : TransportProtocol) (port : ℕ) where
  v4-back :
      (ip : ℕ)
      → IsV4 ip port
      → as_ipv4 (record { bytes = to_be16 9 ++ v4_bytes t ip p port }) ≡ ok (ip, p, port)
  unfolding v4_bytes to_be16 to_be32
  v4-back ip h =
      rw
        (
          ipv4-ok (to_be16 9 ++ v4_bytes t ip p port) p (omega arith)
              (protocol_try_from-protocol_to_u8 p),
          from_be32-to_be32 ip h.0,
          from_be16-to_be16 port h.1,
        )
        refl

  v6-back_table :
      (f : ℕ → ℕ)
      → IsU16 port
      → as_ipv6 (record { bytes = to_be16 21 ++ v6_bytes t (table 16 f) p port })
        ≡ ok (table 16 f, p, port)
  unfolding v6_bytes to_be16
  v6-back_table f h =
      rw
        (
          ipv6-ok (to_be16 21 ++ v6_bytes t (table 16 f) p port) p (omega arith)
              (protocol_try_from-protocol_to_u8 p),
          from_be16-to_be16 port h,
        )
        refl

  v6-back :
      (ip : List ℕ)
      → IsV6 ip port
      → as_ipv6 (record { bytes = to_be16 21 ++ v6_bytes t ip p port }) ≡ ok (ip, p, port)
  v6-back ip h =
      subst
        (λ (x : List ℕ).
          as_ipv6 (record { bytes = to_be16 21 ++ v6_bytes t x p port }) ≡ ok (x, p, port))
        (sym (eq-table ip 16 h.0)) (v6-back_table (byte_at ip) h.1)

type-back : (o : Options) → byte_at (option_bytes o) 2 ≡ type_to_u8 (type_of o)
unfolding option_bytes body_bytes v4_bytes v6_bytes string_bytes balance_bytes to_be16
type-back (configuration_string s) = refl
type-back _ = refl

module _ (s : List ℕ) (h : length s ≤ 256) where
  string-field : field (option_bytes (configuration_string s)) ≡ length s + 1
  unfolding option_bytes body_bytes string_bytes size to_be16
  string-field = from_be16-to_be16 (4 + length s - 3) (omega arith) ∙ omega arith

  string-length : length (option_bytes (configuration_string s)) ≡ length s + 4
  unfolding size
  string-length = omega (arith, length-option_bytes (configuration_string s) h)

  string-rest : drop 4 (option_bytes (configuration_string s)) ≡ s
  unfolding option_bytes body_bytes string_bytes to_be16
  string-rest = refl

  string-back : configuration_bytes (option_view (configuration_string s)) ≡ ok s
  string-back =
      rw
        (
          configuration-ok (option_bytes (configuration_string s))
              (omega (arith, string-field, string-length)) (omega (arith, string-field)),
          string-rest,
          take_all s (4 + (field (option_bytes (configuration_string s)) - 1) - 4)
              (omega (arith, string-field)),
        )
        refl

balance-back :
    (priority weight : ℕ)
    → IsU16 priority
    → IsU16 weight
    → as_load_balancing (option_view (load_balance priority weight)) ≡ ok (priority, weight)
unfolding option_bytes body_bytes balance_bytes to_be16
balance-back priority weight h k =
    rw
      (
        load_balancing-ok (option_bytes (load_balance priority weight)) (omega arith),
        from_be16-to_be16 priority h,
        from_be16-to_be16 weight k,
      )
      refl

owned-back : (o : Options) → IsOption o → owned_as (option_view o) (type_of o) ≡ ok o
unfolding owned_as option_bytes body_bytes size
owned-back (configuration_string s) h = rw (string-back s h, le→ltb 256 (length s) h) refl
owned-back (load_balance priority weight) h = rw (balance-back priority weight h.0 h.1) refl
owned-back (endpoint_v4 ip p port) h = rw (v4-back _ p port ip h) refl
owned-back (endpoint_v6 ip p port) h = rw (v6-back _ p port ip h) refl
owned-back (multicast_v4 ip p port) h = rw (v4-back _ p port ip h) refl
owned-back (multicast_v6 ip p port) h = rw (v6-back _ p port ip h) refl
owned-back (sd_v4 ip p port) h = rw (v4-back _ p port ip h) refl
owned-back (sd_v6 ip p port) h = rw (v6-back _ p port ip h) refl

long-option_bytes : (o : Options) → IsOption o → 4 ≤ size o
unfolding size
long-option_bytes (configuration_string s) h = omega arith
long-option_bytes _ h = omega arith

-- Every option whose fields are in range is read back from its bytes.
pub to_owned-option_bytes :
    (o : Options) → IsOption o → to_owned (record { bytes = option_bytes o }) ≡ ok o
unfolding to_owned option_type
to_owned-option_bytes o h =
    rw
      (
        index-ok {E = SdError} (option_bytes o) 2
            (omega (arith, length-option_bytes o h, long-option_bytes o h)),
        type-back o,
        type_try_from-type_to_u8 (type_of o),
        owned-back o h,
      )
      refl

pub size-bounds : (o : Options) → IsOption o → (4 ≤ size o) × (size o ≤ 260)
unfolding size
size-bounds (configuration_string s) h = omega arith
size-bounds _ h = omega arith

-- The type byte, in front of anything else.
front-type :
    (o : Options) (rest : List ℕ) → byte_at (option_bytes o ++ rest) 2 ≡ type_to_u8 (type_of o)
unfolding option_bytes body_bytes v4_bytes v6_bytes string_bytes balance_bytes to_be16
front-type (configuration_string s) rest = refl
front-type _ rest = refl

check_ip-ok :
    (buf : List ℕ) (b e i : ℕ) (p : TransportProtocol)
    → i < length buf
    → byte_at buf i ≡ protocol_to_u8 p
    → check_ip buf b e e i ≡ ok tt
unfolding check_ip
check_ip-ok buf b e i p h q =
    rw (==_refl e, index-ok {E = SdError} buf i h, q, protocol_try_from-protocol_to_u8 p) refl

v4-protocol :
    (t : OptionType) (ip : ℕ) (p : TransportProtocol) (port : ℕ) (rest : List ℕ)
    → byte_at ((to_be16 9 ++ v4_bytes t ip p port) ++ rest) 9 ≡ protocol_to_u8 p
unfolding v4_bytes to_be16 to_be32
v4-protocol t ip p port rest = refl

v6-protocol :
    (t : OptionType) (ip : List ℕ) (p : TransportProtocol) (port : ℕ) (rest : List ℕ)
    → length ip ≡ 16
    → byte_at ((to_be16 21 ++ v6_bytes t ip p port) ++ rest) 21 ≡ protocol_to_u8 p
unfolding v6_bytes to_be16
v6-protocol t ip p port rest h = rw (eq-table ip 16 h) refl

front-check :
    (o : Options) (rest : List ℕ)
    → IsOption o
    → size o ≤ length (option_bytes o ++ rest)
    → check_type (option_bytes o ++ rest) (type_to_u8 (type_of o)) (size o - 3) (type_of o) ≡ ok tt
unfolding check_type size option_bytes body_bytes
front-check (configuration_string s) rest h n =
    rw (le→ltb 256 (4 + length s - 3 - 1) (omega arith)) refl
front-check (load_balance priority weight) rest h n = refl
front-check (endpoint_v4 ip p port) rest h n =
    check_ip-ok (option_bytes (endpoint_v4 ip p port) ++ rest) (type_to_u8 ip_v4_endpoint) 9 9 p
      (omega arith) (v4-protocol ip_v4_endpoint ip p port rest)
front-check (endpoint_v6 ip p port) rest h n =
    check_ip-ok (option_bytes (endpoint_v6 ip p port) ++ rest) (type_to_u8 ip_v6_endpoint) 21 21 p
      (omega arith) (v6-protocol ip_v6_endpoint ip p port rest h.0)
front-check (multicast_v4 ip p port) rest h n =
    check_ip-ok (option_bytes (multicast_v4 ip p port) ++ rest) (type_to_u8 ip_v4_multicast) 9 9 p
      (omega arith) (v4-protocol ip_v4_multicast ip p port rest)
front-check (multicast_v6 ip p port) rest h n =
    check_ip-ok (option_bytes (multicast_v6 ip p port) ++ rest) (type_to_u8 ip_v6_multicast) 21 21 p
      (omega arith) (v6-protocol ip_v6_multicast ip p port rest h.0)
front-check (sd_v4 ip p port) rest h n =
    check_ip-ok (option_bytes (sd_v4 ip p port) ++ rest) (type_to_u8 ip_v4_sd) 9 9 p (omega arith)
      (v4-protocol ip_v4_sd ip p port rest)
front-check (sd_v6 ip p port) rest h n =
    check_ip-ok (option_bytes (sd_v6 ip p port) ++ rest) (type_to_u8 ip_v6_sd) 21 21 p (omega arith)
      (v6-protocol ip_v6_sd ip p port rest h.0)

-- In front of anything else.
module _ (o : Options) (h : IsOption o) (rest : List ℕ) where
  front-field : field (option_bytes o ++ rest) ≡ size o - 3
  unfolding option_bytes to_be16
  front-field = from_be16-to_be16 (size o - 3) (omega (arith, size-bounds o h))

  front-length : length (option_bytes o ++ rest) ≡ size o + length rest
  front-length = omega (arith, length-append (option_bytes o) rest, length-option_bytes o h)

  -- The validation accepts every written option whose fields are in range, whatever follows it, and
  -- returns its size.
  pub validate_option-option_bytes : validate_option (option_bytes o ++ rest) ≡ ok (size o)
  validate_option-option_bytes =
      rw
        (
          validate-steps (option_bytes o ++ rest) (omega (arith, front-length, size-bounds o h)),
          front-field,
          front-type o rest,
          le→ltb (length (option_bytes o ++ rest)) (size o - 3 + 3)
              (omega (arith, front-length, size-bounds o h)),
          type_try_from-type_to_u8 (type_of o),
          front-check o rest h (omega (arith, front-length)),
        )
        (ap ok (omega (arith, size-bounds o h)))

  -- The iterator yields the written option and goes on behind it.
  pub next-option_bytes : next (option_bytes o ++ rest) ≡ some (option_view o, rest)
  unfolding next
  next-option_bytes =
      let end : size o - 3 + 3 ≡ size o = omega (arith, size-bounds o h) in
      rw
        (
          front-field,
          end,
          le→ltb (length (option_bytes o ++ rest)) 4 (omega (arith, front-length, size-bounds o h)),
          le→ltb (length (option_bytes o ++ rest)) (size o) (omega (arith, front-length)),
          take-append_length (option_bytes o) rest (size o) (sym (length-option_bytes o h)),
          drop-append_length (option_bytes o) rest (size o) (sym (length-option_bytes o h)),
        )
        refl
