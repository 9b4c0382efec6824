-- ===== src/Sd/Options/Accepted.antt =====
-- The accessors of an option on what `validate_option` has accepted.
use simple_someip.Prelude.{
  ℕ, ◌+◌, ◌-◌, ◌<◌, ◌≤◌, ◌≡◌, ◌⊎◌, inl, inr, refl, arith, List, length, length-take, take, drop,
  le→ltb, ok, panic, Result-cases,
}
use simple_someip.Bytes.{byte_at, index, slice, from_be16, from_be32}
use simple_someip.Bytes.Facts.{index-ok, slice-ok, byte_at-take}
use simple_someip.Protocol.Error.{SdError}
use simple_someip.Sd.Options.{
  Options, OptionType, TransportProtocol, configuration_string, load_balance, endpoint_v4,
  endpoint_v6, multicast_v4, multicast_v6, sd_v4, sd_v6, configuration, load_balancing,
  ip_v4_endpoint, ip_v6_endpoint, ip_v4_multicast, ip_v6_multicast, ip_v4_sd, ip_v6_sd,
  protocol_try_from,
}
use simple_someip.Sd.Options.View.{
  option_type, length_field, port_at, as_ipv4, as_ipv6, configuration_bytes, as_load_balancing,
  owned_as, to_owned,
}
use simple_someip.Sd.Options.Validate.{
  validate_option, check_type, check_ip, field, Validated, validated,
}

-- The accessors on a slice that is long enough.
module _ (bs : List ℕ) where
  pub port-ok :
      (i : ℕ)
      → i + 1 < length bs
      → port_at (record { bytes = bs }) i ≡ ok (from_be16 (byte_at bs i) (byte_at bs (i + 1)))
  unfolding port_at
  port-ok i h =
      rw (index-ok {E = SdError} bs i (omega arith), index-ok {E = SdError} bs (i + 1) h) refl

  pub ipv4-ok :
      (p : TransportProtocol)
      → 12 ≤ length bs
      → protocol_try_from (byte_at bs 9) ≡ ok p
      → as_ipv4 (record { bytes = bs })
        ≡ ok (
          from_be32 (byte_at bs 4) (byte_at bs 5) (byte_at bs 6) (byte_at bs 7),
          p,
          from_be16 (byte_at bs 10) (byte_at bs 11),
        )
  unfolding as_ipv4
  ipv4-ok p h q =
      rw
        (
          index-ok {E = SdError} bs 4 (omega arith),
          index-ok {E = SdError} bs 5 (omega arith),
          index-ok {E = SdError} bs 6 (omega arith),
          index-ok {E = SdError} bs 7 (omega arith),
          index-ok {E = SdError} bs 9 (omega arith),
          q,
          port-ok 10 (omega arith),
        )
        refl

  pub ipv6-ok :
      (p : TransportProtocol)
      → 24 ≤ length bs
      → protocol_try_from (byte_at bs 21) ≡ ok p
      → as_ipv6 (record { bytes = bs })
        ≡ ok (take 16 (drop 4 bs), p, from_be16 (byte_at bs 22) (byte_at bs 23))
  unfolding as_ipv6
  ipv6-ok p h q =
      rw
        (
          slice-ok {E = SdError} bs 4 20 (omega arith) (omega arith),
          index-ok {E = SdError} bs 21 (omega arith),
          q,
          port-ok 22 (omega arith),
        )
        refl

  pub load_balancing-ok :
      8 ≤ length bs
      → as_load_balancing (record { bytes = bs })
        ≡ ok (from_be16 (byte_at bs 4) (byte_at bs 5), from_be16 (byte_at bs 6) (byte_at bs 7))
  unfolding as_load_balancing
  load_balancing-ok h = rw (port-ok 4 (omega arith), port-ok 6 (omega arith)) refl

  length_field-ok : 2 ≤ length bs → length_field (record { bytes = bs }) ≡ ok (field bs)
  unfolding length_field
  length_field-ok h =
      rw (index-ok {E = SdError} bs 0 (omega arith), index-ok {E = SdError} bs 1 (omega arith)) refl

  -- A configuration option with a length field of at least one.
  pub configuration-ok :
      length bs ≡ field bs + 3
      → 1 ≤ field bs
      → configuration_bytes (record { bytes = bs }) ≡ ok (take (4 + (field bs - 1) - 4) (drop 4 bs))
  unfolding configuration_bytes
  configuration-ok e h =
      rw
        (
          length_field-ok (omega arith),
          slice-ok {E = SdError} bs 4 (4 + (field bs - 1)) (omega arith) (omega arith),
        )
        refl

  -- With a length field of zero the string starts behind the end of the option.
  pub configuration-panic :
      length bs ≡ 3 → field bs ≡ 0 → configuration_bytes (record { bytes = bs }) ≡ panic
  unfolding configuration_bytes slice
  configuration-panic e z = rw (length_field-ok (omega arith), z, e) refl

-- An option that was validated, as the slice that the iterator hands out.
module _ (buf : List ℕ) (n : ℕ) (v : Validated buf n) where
  open v use {kind, kind_byte, checked, fits, size_field, long}

  slice_length : length (take n buf) ≡ n
  slice_length = omega (arith, length-take n buf)

  same_byte : (i : ℕ) → i < n → byte_at (take n buf) i ≡ byte_at buf i
  same_byte i h = byte_at-take n buf i h

  same_field : field (take n buf) ≡ field buf
  same_field = rw (same_byte 0 (omega arith), same_byte 1 (omega arith)) refl

  pub type-ok : option_type (record { bytes = take n buf }) ≡ ok kind
  unfolding option_type
  type-ok =
      rw
        (
          index-ok {E = SdError} (take n buf) 2 (omega (arith, slice_length)),
          same_byte 2 (omega arith),
        )
        kind_byte

-- What the check of an IP option found.
module _ (buf : List ℕ) (b a e o : ℕ) (c : check_ip buf b a e o ≡ ok tt) where
  ip-length : a ≡ e
  unfolding check_ip
  ip-length = ground arith

  ip-protocol : (p : TransportProtocol) × (protocol_try_from (byte_at buf o) ≡ ok p)
  unfolding check_ip index
  ip-protocol = elim (Result-cases (protocol_try_from (byte_at buf o))) [
    | inl found ↦ found
    | inr (inl (x, h)) ↦ absurd (ground arith)
    | inr (inr h) ↦ absurd (ground arith)
  ]

module _ (buf : List ℕ) (n : ℕ) (v : Validated buf n) where
  pub v4-ok :
      (b : ℕ)
      → check_ip buf b (field buf) 9 9 ≡ ok tt
      → (r : ℕ × TransportProtocol × ℕ) × (as_ipv4 (record { bytes = take n buf }) ≡ ok r)
  v4-ok b c =
      let (p, q) = ip-protocol buf b (field buf) 9 9 c in
      let twelve : n ≡ 12 = omega (arith, ip-length buf b (field buf) 9 9 c, v.size_field) in
      (
        _,
        ipv4-ok (take n buf) p (omega (arith, slice_length buf n v))
            (rw (same_byte buf n v 9 (omega arith)) q),
      )

  v6-ok :
      (b : ℕ)
      → check_ip buf b (field buf) 21 21 ≡ ok tt
      → (r : List ℕ × TransportProtocol × ℕ) × (as_ipv6 (record { bytes = take n buf }) ≡ ok r)
  v6-ok b c =
      let (p, q) = ip-protocol buf b (field buf) 21 21 c in
      let twentyfour : n ≡ 24 = omega (arith, ip-length buf b (field buf) 21 21 c, v.size_field) in
      (
        _,
        ipv6-ok (take n buf) p (omega (arith, slice_length buf n v))
            (rw (same_byte buf n v 21 (omega arith)) q),
      )

  owned_as-ok :
      (b : ℕ) (t : OptionType)
      → check_type buf b (field buf) t ≡ ok tt
      → 4 ≤ n
      → (o : Options) × (owned_as (record { bytes = take n buf }) t ≡ ok o)
  unfolding check_type owned_as
  owned_as-ok b configuration c h =
      let string = take (4 + (field (take n buf) - 1) - 4) (drop 4 (take n buf)) in
      let short : field buf - 1 ≤ 256 = ground arith in
      let fits : length string ≤ 256 = omega (
        arith,
        length-take (4 + (field (take n buf) - 1) - 4) (drop 4 (take n buf)),
        same_field buf n v,
      ) in
      (
        configuration_string string,
        rw
            (
              configuration-ok (take n buf)
                  (omega (arith, slice_length buf n v, same_field buf n v, v.size_field))
                  (omega (arith, same_field buf n v, v.size_field)),
              le→ltb 256 (length string) fits,
            )
            refl,
      )
  owned_as-ok b load_balancing c h =
      let bs = take n buf in
      (
        load_balance (from_be16 (byte_at bs 4) (byte_at bs 5))
            (from_be16 (byte_at bs 6) (byte_at bs 7)),
        rw (load_balancing-ok (take n buf) (ground (arith, slice_length buf n v, v.size_field)))
            refl,
      )
  owned_as-ok b ip_v4_endpoint c h = let (r, q) = v4-ok b c in (endpoint_v4 r.0 r.1 r.2, rw q refl)
  owned_as-ok b ip_v6_endpoint c h = let (r, q) = v6-ok b c in (endpoint_v6 r.0 r.1 r.2, rw q refl)
  owned_as-ok b ip_v4_multicast c h =
      let (r, q) = v4-ok b c in (multicast_v4 r.0 r.1 r.2, rw q refl)
  owned_as-ok b ip_v6_multicast c h =
      let (r, q) = v6-ok b c in (multicast_v6 r.0 r.1 r.2, rw q refl)
  owned_as-ok b ip_v4_sd c h = let (r, q) = v4-ok b c in (sd_v4 r.0 r.1 r.2, rw q refl)
  owned_as-ok b ip_v6_sd c h = let (r, q) = v6-ok b c in (sd_v6 r.0 r.1 r.2, rw q refl)

  owned_as-panic :
      (b : ℕ) (t : OptionType)
      → check_type buf b (field buf) t ≡ ok tt
      → n ≡ 3
      → owned_as (record { bytes = take n buf }) t ≡ panic
  unfolding check_type owned_as
  owned_as-panic b configuration c h =
      rw
        (configuration-panic (take n buf) (omega (arith, slice_length buf n v))
          (omega (arith, same_field buf n v, v.size_field)))
        refl
  owned_as-panic b load_balancing c h = absurd (ground (arith, v.size_field))
  owned_as-panic b ip_v4_endpoint c h =
      absurd (omega (arith, ip-length buf b (field buf) 9 9 c, v.size_field))
  owned_as-panic b ip_v6_endpoint c h =
      absurd (omega (arith, ip-length buf b (field buf) 21 21 c, v.size_field))
  owned_as-panic b ip_v4_multicast c h =
      absurd (omega (arith, ip-length buf b (field buf) 9 9 c, v.size_field))
  owned_as-panic b ip_v6_multicast c h =
      absurd (omega (arith, ip-length buf b (field buf) 21 21 c, v.size_field))
  owned_as-panic b ip_v4_sd c h =
      absurd (omega (arith, ip-length buf b (field buf) 9 9 c, v.size_field))
  owned_as-panic b ip_v6_sd c h =
      absurd (omega (arith, ip-length buf b (field buf) 21 21 c, v.size_field))

-- An option that `validate_option` accepts has a wire size of at least four bytes, and then it is
-- turned into an owned option with no error and no panic, or it has a wire size of exactly three
-- bytes, and then `to_owned` panics.
pub to_owned-validate_option :
    (buf : List ℕ) (n : ℕ)
    → validate_option buf ≡ ok n
    → ((4 ≤ n) × ((o : Options) × (to_owned (record { bytes = take n buf }) ≡ ok o)))
      ⊎ ((n ≡ 3) × (to_owned (record { bytes = take n buf }) ≡ panic))
unfolding to_owned
to_owned-validate_option buf n p =
    let v = validated buf n p in
    let sizes : (4 ≤ n) ⊎ (n ≡ 3) = ground (arith, v.size_field) in
    elim sizes [
      | inl h ↦
          let (o, e) = owned_as-ok buf n v (byte_at buf 2) v.kind v.checked h in
          inl (h, (o, rw (type-ok buf n v) e))
      | inr h ↦
          inr (h, rw (type-ok buf n v) (owned_as-panic buf n v (byte_at buf 2) v.kind v.checked h))
    ]
