-- ===== src/Sd/Options/Encode.antt =====
-- `Options::size` and `Options::write` of src/protocol/sd/options.rs.
use mathlib.Core.Path.{fun_ext}
use simple_someip.Prelude.{
  ℕ, ◌+◌, ◌-◌, ◌≡◌, ◌≤◌, refl, sym, List, [], ◌∷◌, ◌++◌, length, length-append, Result, ok, ◌>>=◌,
  ◌>>◌, >>=-assoc, arith, assert, leb, true,
}
use simple_someip.Bytes.{to_be16, to_be32}
use simple_someip.Bytes.Facts.{byte_order}
use simple_someip.Bytes.Writer.{
  Writer, write_bytes, write_u8, write_u16_be, write_u32_be, write_bytes-append, Writes,
}
use simple_someip.Protocol.Error.{Error}
use simple_someip.Sd.Options.{
  Options, OptionType, TransportProtocol, configuration_string, load_balance, endpoint_v4,
  endpoint_v6, multicast_v4, multicast_v6, sd_v4, sd_v6, configuration, load_balancing,
  ip_v4_endpoint, ip_v6_endpoint, ip_v4_multicast, ip_v6_multicast, ip_v4_sd, ip_v6_sd, type_to_u8,
  protocol_to_u8, IsOption,
}

unfoldable pub size : Options → ℕ
size (configuration_string s) = 4 + length s
size (load_balance priority weight) = 8
size (endpoint_v4 ip protocol port) = 12
size (multicast_v4 ip protocol port) = 12
size (sd_v4 ip protocol port) = 12
size (endpoint_v6 ip protocol port) = 24
size (multicast_v6 ip protocol port) = 24
size (sd_v6 ip protocol port) = 24

-- The wire format behind the length field.
unfoldable pub v4_bytes : OptionType → ℕ → TransportProtocol → ℕ → List ℕ
v4_bytes t ip protocol port =
    (type_to_u8 t ∷ [])
    ++ ((0 ∷ []) ++ (to_be32 ip ++ ((0 ∷ []) ++ ((protocol_to_u8 protocol ∷ []) ++ to_be16 port))))

unfoldable pub v6_bytes : OptionType → List ℕ → TransportProtocol → ℕ → List ℕ
v6_bytes t ip protocol port =
    (type_to_u8 t ∷ [])
    ++ ((0 ∷ []) ++ (ip ++ ((0 ∷ []) ++ ((protocol_to_u8 protocol ∷ []) ++ to_be16 port))))

unfoldable pub string_bytes : List ℕ → List ℕ
string_bytes s = (type_to_u8 configuration ∷ []) ++ ((0 ∷ []) ++ s)

unfoldable pub balance_bytes : ℕ → ℕ → List ℕ
balance_bytes priority weight =
    (type_to_u8 load_balancing ∷ []) ++ ((0 ∷ []) ++ (to_be16 priority ++ to_be16 weight))

unfoldable pub body_bytes : Options → List ℕ
body_bytes (configuration_string s) = string_bytes s
body_bytes (load_balance priority weight) = balance_bytes priority weight
body_bytes (endpoint_v4 ip protocol port) = v4_bytes ip_v4_endpoint ip protocol port
body_bytes (endpoint_v6 ip protocol port) = v6_bytes ip_v6_endpoint ip protocol port
body_bytes (multicast_v4 ip protocol port) = v4_bytes ip_v4_multicast ip protocol port
body_bytes (multicast_v6 ip protocol port) = v6_bytes ip_v6_multicast ip protocol port
body_bytes (sd_v4 ip protocol port) = v4_bytes ip_v4_sd ip protocol port
body_bytes (sd_v6 ip protocol port) = v6_bytes ip_v6_sd ip protocol port

unfoldable pub option_bytes : Options → List ℕ
option_bytes o = to_be16 (size o - 3) ++ body_bytes o

length-v4_bytes :
    (t : OptionType) (ip : ℕ) (p : TransportProtocol) (port : ℕ)
    → length (v4_bytes t ip p port) ≡ 10
unfolding v4_bytes
length-v4_bytes t ip p port = simp (length-append, byte_order)

length-v6_bytes :
    (t : OptionType) (ip : List ℕ) (p : TransportProtocol) (port : ℕ)
    → length ip ≡ 16
    → length (v6_bytes t ip p port) ≡ 22
unfolding v6_bytes
length-v6_bytes t ip p port h = simp (length-append, byte_order, h)

-- `size` is the number of bytes that an option takes.
pub length-option_bytes : (o : Options) → IsOption o → length (option_bytes o) ≡ size o
unfolding option_bytes size body_bytes string_bytes balance_bytes to_be16
length-option_bytes (configuration_string s) h = omega arith
length-option_bytes (load_balance priority weight) h = refl
length-option_bytes (endpoint_v4 ip protocol port) h =
    omega (arith, length-v4_bytes ip_v4_endpoint ip protocol port)
length-option_bytes (endpoint_v6 ip protocol port) h =
    omega (arith, length-v6_bytes ip_v6_endpoint ip protocol port h.0)
length-option_bytes (multicast_v4 ip protocol port) h =
    omega (arith, length-v4_bytes ip_v4_multicast ip protocol port)
length-option_bytes (multicast_v6 ip protocol port) h =
    omega (arith, length-v6_bytes ip_v6_multicast ip protocol port h.0)
length-option_bytes (sd_v4 ip protocol port) h =
    omega (arith, length-v4_bytes ip_v4_sd ip protocol port)
length-option_bytes (sd_v6 ip protocol port) h =
    omega (arith, length-v6_bytes ip_v6_sd ip protocol port h.0)

module _ (wr : Writer) where
  open wr use {W}

  unfoldable pub write_ipv4_option :
      W → OptionType → ℕ → TransportProtocol → ℕ → Result Error (ℕ × W)
  write_ipv4_option w₀ option_type ip protocol port = do
    w₁ ← write_u8 wr w₀ (type_to_u8 option_type)
    w₂ ← write_u8 wr w₁ 0
    w₃ ← write_u32_be wr w₂ ip
    w₄ ← write_u8 wr w₃ 0
    w₅ ← write_u8 wr w₄ (protocol_to_u8 protocol)
    w₆ ← write_u16_be wr w₅ port
    ok (12, w₆)

  unfoldable pub write_ipv6_option :
      W → OptionType → List ℕ → TransportProtocol → ℕ → Result Error (ℕ × W)
  write_ipv6_option w₀ option_type ip protocol port = do
    w₁ ← write_u8 wr w₀ (type_to_u8 option_type)
    w₂ ← write_u8 wr w₁ 0
    w₃ ← write_bytes wr w₂ ip
    w₄ ← write_u8 wr w₃ 0
    w₅ ← write_u8 wr w₄ (protocol_to_u8 protocol)
    w₆ ← write_u16_be wr w₅ port
    ok (24, w₆)

  unfoldable pub write_body : Options → W → Result Error (ℕ × W)
  write_body (configuration_string s) w₀ = do
    w₁ ← write_u8 wr w₀ (type_to_u8 configuration)
    w₂ ← write_u8 wr w₁ 0
    w₃ ← write_bytes wr w₂ s
    ok (size (configuration_string s), w₃)
  write_body (load_balance priority weight) w₀ = do
    w₁ ← write_u8 wr w₀ (type_to_u8 load_balancing)
    w₂ ← write_u8 wr w₁ 0
    w₃ ← write_u16_be wr w₂ priority
    w₄ ← write_u16_be wr w₃ weight
    ok (8, w₄)
  write_body (endpoint_v4 ip protocol port) w = write_ipv4_option w ip_v4_endpoint ip protocol port
  write_body (endpoint_v6 ip protocol port) w = write_ipv6_option w ip_v6_endpoint ip protocol port
  write_body (multicast_v4 ip protocol port) w =
      write_ipv4_option w ip_v4_multicast ip protocol port
  write_body (multicast_v6 ip protocol port) w =
      write_ipv6_option w ip_v6_multicast ip protocol port
  write_body (sd_v4 ip protocol port) w = write_ipv4_option w ip_v4_sd ip protocol port
  write_body (sd_v6 ip protocol port) w = write_ipv6_option w ip_v6_sd ip protocol port

  -- `expect("option size fits u16")` is the assertion.
  unfoldable pub write : Options → W → Result Error (ℕ × W)
  write o w₀ = do
    assert (leb (size o - 3) 65535)
    w₁ ← write_u16_be wr w₀ (size o - 3)
    write_body o w₁

  write_ipv4-eq :
      (t : OptionType) (ip : ℕ) (p : TransportProtocol) (port : ℕ) (w : W)
      → write_ipv4_option w t ip p port
        ≡ (write_bytes wr w (v4_bytes t ip p port) >>= λ u. ok (12, u))
  unfolding write_ipv4_option v4_bytes write_u8 write_u16_be write_u32_be
  write_ipv4-eq t ip p port w = simp (write_bytes-append, >>=-assoc)

  write_ipv6-eq :
      (t : OptionType) (ip : List ℕ) (p : TransportProtocol) (port : ℕ) (w : W)
      → write_ipv6_option w t ip p port
        ≡ (write_bytes wr w (v6_bytes t ip p port) >>= λ u. ok (24, u))
  unfolding write_ipv6_option v6_bytes write_u8 write_u16_be
  write_ipv6-eq t ip p port w = simp (write_bytes-append, >>=-assoc)

  string-eq :
      (s : List ℕ) (w : W)
      → write_body (configuration_string s) w
        ≡ (write_bytes wr w (string_bytes s) >>= λ u. ok (size (configuration_string s), u))
  unfolding write_body string_bytes write_u8
  string-eq s w = simp (write_bytes-append, >>=-assoc)

  balance-eq :
      (priority weight : ℕ) (w : W)
      → write_body (load_balance priority weight) w
        ≡ (write_bytes wr w (balance_bytes priority weight) >>= λ u. ok (8, u))
  unfolding write_body balance_bytes write_u8 write_u16_be
  balance-eq priority weight w = simp (write_bytes-append, >>=-assoc)

  write_body-eq :
      (o : Options) (w : W)
      → write_body o w ≡ (write_bytes wr w (body_bytes o) >>= λ u. ok (size o, u))
  unfolding write_body body_bytes size write_u8 write_u16_be
  write_body-eq (configuration_string s) w = string-eq s w
  write_body-eq (load_balance priority weight) w = balance-eq priority weight w
  write_body-eq (endpoint_v4 ip protocol port) w = write_ipv4-eq _ ip protocol port w
  write_body-eq (endpoint_v6 ip protocol port) w = write_ipv6-eq _ ip protocol port w
  write_body-eq (multicast_v4 ip protocol port) w = write_ipv4-eq _ ip protocol port w
  write_body-eq (multicast_v6 ip protocol port) w = write_ipv6-eq _ ip protocol port w
  write_body-eq (sd_v4 ip protocol port) w = write_ipv4-eq _ ip protocol port w
  write_body-eq (sd_v6 ip protocol port) w = write_ipv6-eq _ ip protocol port w

  size-fits : (o : Options) → IsOption o → size o ≤ 260
  unfolding size
  size-fits (configuration_string s) h = omega arith
  size-fits _ h = omega arith

  -- Every option whose fields are in range is written as its bytes; the length field does not
  -- overflow, and the count that is returned is the number of bytes.
  pub write-option_bytes : (o : Options) → IsOption o → Writes wr (write o) (option_bytes o)
  unfolding write write_u16_be option_bytes
  write-option_bytes o h w =
      let fits : leb (size o - 3) 65535 ≡ true = ground (arith, size-fits o h) in
      rw
        (
          fits,
          fun_ext (write_body-eq o),
          length-option_bytes o h,
          option_bytes,
          write_bytes-append wr w (to_be16 (size o - 3)) (body_bytes o),
        )
        (sym (>>=-assoc (write_bytes wr w (to_be16 (size o - 3))) _ _))
