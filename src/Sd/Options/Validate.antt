-- ===== src/Sd/Options/Validate.antt =====
-- `validate_option` of src/protocol/sd/options.rs, and what it says of the later accessors.
use simple_someip.Prelude.{
  ℕ, ◌+◌, ◌-◌, ◌<◌, ◌≤◌, ◌≡◌, ◌≢◌, refl, arith, not, List, length, ltb, le→ltb, ◌==◌, Result, ok,
  panic, ◌>>=◌, ◌>>◌, fail_if, >>=-eq-ok,
}
use simple_someip.Bytes.{byte_at, index, from_be16}
use simple_someip.Bytes.Facts.{index-ok}
use simple_someip.Protocol.Error.{
  SdError, configuration_string_too_long, incorrect_options_size, invalid_option_length,
}
use simple_someip.Sd.Options.{
  OptionType, configuration, load_balancing, ip_v4_endpoint, ip_v6_endpoint, ip_v4_multicast,
  ip_v6_multicast, ip_v4_sd, ip_v6_sd, type_try_from, protocol_try_from,
  max_configuration_string_length, protocol_try_from-ne-panic,
}

-- The check of an option with a fixed length and a transport protocol byte.
unfoldable pub check_ip : List ℕ → ℕ → ℕ → ℕ → ℕ → Result SdError (Unit {0})
check_ip buf type_byte actual expected protocol_offset = do
  fail_if (not (actual == expected)) (invalid_option_length type_byte expected actual)
  p ← index buf protocol_offset
  protocol_try_from p >> ok tt

-- The match on the option's type.
unfoldable pub check_type : List ℕ → ℕ → ℕ → OptionType → Result SdError (Unit {0})
check_type buf type_byte actual ip_v4_endpoint = check_ip buf type_byte actual 9 9
check_type buf type_byte actual ip_v4_multicast = check_ip buf type_byte actual 9 9
check_type buf type_byte actual ip_v4_sd = check_ip buf type_byte actual 9 9
check_type buf type_byte actual ip_v6_endpoint = check_ip buf type_byte actual 21 21
check_type buf type_byte actual ip_v6_multicast = check_ip buf type_byte actual 21 21
check_type buf type_byte actual ip_v6_sd = check_ip buf type_byte actual 21 21
check_type buf type_byte actual load_balancing =
    fail_if (not (actual == 5)) (invalid_option_length type_byte 5 actual)
check_type buf type_byte actual configuration =
    fail_if (ltb max_configuration_string_length (actual - 1))
      (configuration_string_too_long (actual - 1))

unfoldable pub validate_option : List ℕ → Result SdError ℕ
validate_option buf = do
  fail_if (ltb (length buf) 4) (incorrect_options_size (length buf))
  a ← index buf 0
  b ← index buf 1
  let n = from_be16 a b
  let wire_size = n + 3
  fail_if (ltb (length buf) wire_size) (incorrect_options_size (length buf))
  type_byte ← index buf 2
  t ← type_try_from type_byte
  check_type buf type_byte n t
  ok wire_size

-- The length field at the front of a buffer.
abbrev pub field : List ℕ → ℕ
field buf = from_be16 (byte_at buf 0) (byte_at buf 1)

module _ (buf : List ℕ) (long : 4 ≤ length buf) where
  pub validate-steps : validate_option buf ≡ (
      fail_if (ltb (length buf) (field buf + 3)) (incorrect_options_size (length buf))
      >> (type_try_from (byte_at buf 2) >>= λ t.
          check_type buf (byte_at buf 2) (field buf) t >> ok (field buf + 3)))
  unfolding validate_option
  validate-steps =
      rw
        (
          le→ltb (length buf) 4 long,
          index-ok {E = SdError} buf 0 (omega arith),
          index-ok {E = SdError} buf 1 (omega arith),
          index-ok {E = SdError} buf 2 (omega arith),
        )
        refl

-- What a successful validation says.
pub record Validated (buf : List ℕ) (n : ℕ) : Type 0 where
  pub long : 4 ≤ length buf
  pub fits : n ≤ length buf
  pub size_field : n ≡ field buf + 3
  pub kind : OptionType
  pub kind_byte : type_try_from (byte_at buf 2) ≡ ok kind
  pub checked : check_type buf (byte_at buf 2) (field buf) kind ≡ ok tt

module _ (buf : List ℕ) (n : ℕ) (p : validate_option buf ≡ ok n) where
  validated-long : 4 ≤ length buf
  unfolding validate_option
  validated-long = ground arith

  validated-tail :
      (field buf + 3 ≤ length buf)
      × ((type_try_from (byte_at buf 2) >>= λ t.
            check_type buf (byte_at buf 2) (field buf) t >> ok (field buf + 3))
          ≡ ok n)
  validated-tail = ground (arith, validate-steps buf validated-long)

  pub validated : Validated buf n
  validated =
      let (fits, tail) = validated-tail in
      let (t, kind_byte, rest) = >>=-eq-ok (type_try_from (byte_at buf 2)) _ tail in
      let (u, checked, last) = >>=-eq-ok (check_type buf (byte_at buf 2) (field buf) t) _ rest in
      record {
        long = validated-long;
        fits = ground arith;
        size_field = ground arith;
        kind = t;
        kind_byte = kind_byte;
        checked = checked;
      }

check_ip-ne-panic : (buf : List ℕ) (b a e o : ℕ) → o < length buf → check_ip buf b a e o ≢ panic
unfolding check_ip
check_ip-ne-panic buf b a e o h p =
    ground (arith, index-ok {E = SdError} buf o, protocol_try_from-ne-panic (byte_at buf o))
