-- ===== src/SdCodec/Notify.antt =====
-- `build_notification_datagram` of src/sd_codec.rs, which lays the header out by hand, beside the
-- encoder of headers.
use simple_someip.Prelude.{
  ℕ, ◌+◌, ◌%◌, ◌/◌, ◌≤◌, ◌≡◌, refl, sym, arith, List, [], ◌∷◌, ◌++◌, length, length-append, take,
  drop, take-append_length, drop-append_length, leb, ltb, le→ltb, true, false, some, Result, ok,
  ◌>>=◌, ◌>>◌, fail_if, assert,
}
use simple_someip.Bytes.{IsU16, to_be16, to_be32}
use simple_someip.Bytes.Copy.{copy_at, copy_at-append}
use simple_someip.Protocol.MessageId.{
  service_id, method_id, new_from_service_and_method, raw-new, parts-new,
}
use simple_someip.Protocol.MessageType.{new as new_type, notification, message_type-new, wire}
use simple_someip.Protocol.ReturnCode.{okay, as_u8}
use simple_someip.Protocol.Header as Header
use simple_someip.Protocol.Header.{IsHeader, upper_header_bytes, view_message_id}
use simple_someip.Protocol.Header.Encode.{header_bytes, length-header_bytes}
use simple_someip.Protocol.Header.RoundTrip.{parse-header_bytes}
use simple_someip.Protocol.Message.RoundTrip.{written_view-fields}
use simple_someip.SdCodec.{BuildError, buffer_too_small}
use simple_someip.SdCodec.Parse.{parse_someip_datagram, datagram_of}

-- `8 + payload.len() as u32`, with the overflow check of a debug build.
unfoldable pub build_notification_datagram :
    List ℕ → ℕ → ℕ → ℕ → List ℕ → Result BuildError (ℕ × List ℕ)
build_notification_datagram buf service_id method_id session payload = do
  let total = 16 + length payload
  fail_if (ltb (length buf) total) buffer_too_small
  let length_field = 8 + length payload % 4294967296
  assert (leb length_field 4294967295)
  b₁ ← copy_at buf 0 2 (to_be16 service_id)
  b₂ ← copy_at b₁ 2 4 (to_be16 method_id)
  b₃ ← copy_at b₂ 4 8 (to_be32 length_field)
  b₄ ← copy_at b₃ 8 10 (0 ∷ 0 ∷ [])
  b₅ ← copy_at b₄ 10 12 (to_be16 session)
  b₆ ← copy_at b₅ 12 13 (0x01 ∷ [])
  b₇ ← copy_at b₆ 13 14 (0x01 ∷ [])
  b₈ ← copy_at b₇ 14 15 (0x02 ∷ [])
  b₉ ← copy_at b₈ 15 16 (0x00 ∷ [])
  out ← copy_at b₉ 16 total payload
  ok (total, out)

-- The header that `Header::new_event` makes.
notified : ℕ → ℕ → ℕ → ℕ → Header.Header
notified service method session n = record {
  message_id = new_from_service_and_method service method;
  length_field = 8 + n;
  request_id = session;
  protocol_version = 0x01;
  interface_version = 0x01;
  message_type = new_type notification false;
  return_code = okay;
}

module _ (service method session : ℕ) (payload : List ℕ) (p : IsU16 service) (q : IsU16 method)
    (r : IsU16 session) (fits : length payload ≤ Header.max_payload) where
  abbrev n : ℕ
  n = length payload

  abbrev h : Header.Header
  h = notified service method session n

  laid_out : List ℕ
  laid_out =
      ((((((((to_be16 service ++ to_be16 method) ++ to_be32 (8 + n % 4294967296)) ++ (0 ∷ 0 ∷ []))
                ++ to_be16 session)
              ++ (0x01 ∷ []))
            ++ (0x01 ∷ []))
          ++ (0x02 ∷ []))
        ++ (0x00 ∷ []))

  laid_out-header_bytes : laid_out ≡ header_bytes h
  unfolding laid_out header_bytes notified to_be16 to_be32 new_type as_u8 wire
  laid_out-header_bytes =
      let id = raw-new service method q in
      let m = (new_from_service_and_method service method).raw in
      let e₀ : m / 16777216 % 256 ≡ service / 256 % 256 = omega arith in
      let e₁ : m / 65536 % 256 ≡ service % 256 = omega arith in
      let e₂ : m / 256 % 256 ≡ method / 256 % 256 = omega arith in
      let e₃ : m % 256 ≡ method % 256 = omega arith in
      let small : n % 4294967296 ≡ n = omega arith in
      let zero₀ : session / 16777216 % 256 ≡ 0 = omega arith in
      let zero₁ : session / 65536 % 256 ≡ 0 = omega arith in
      rw (small, e₀, e₁, e₂, e₃, zero₀, zero₁) refl

  notified-IsHeader : IsHeader h
  unfolding notified
  notified-IsHeader =
      let (kind, tp, valid, byte) = message_type-new notification false in
      record {
        id_range = (parts-new service method p q).2;
        length_range = omega arith;
        request_range = omega arith;
        version = refl;
        interface_range = omega arith;
        type_valid = valid;
        type_range = byte;
        code_valid = tt;
      }

  built :
      (buf : List ℕ)
      → 16 + n ≤ length buf
      → build_notification_datagram buf service method session payload
        ≡ ok (16 + n, (laid_out ++ payload) ++ drop (16 + n) buf)
  unfolding build_notification_datagram laid_out to_be16 to_be32
  built buf room =
      let fine : leb (8 + n % 4294967296) 4294967295 ≡ true = ground (arith, fits) in
      let a₁ = to_be16 service in
      let a₂ = a₁ ++ to_be16 method in
      let a₃ = a₂ ++ to_be32 (8 + n % 4294967296) in
      let a₄ = a₃ ++ (0 ∷ 0 ∷ []) in
      let a₅ = a₄ ++ to_be16 session in
      let a₆ = a₅ ++ (0x01 ∷ []) in
      let a₇ = a₆ ++ (0x01 ∷ []) in
      let a₈ = a₇ ++ (0x02 ∷ []) in
      let a₉ = a₈ ++ (0x00 ∷ []) in
      rw
        (
          le→ltb (length buf) (16 + n) room,
          fine,
          copy_at-append {E = BuildError} buf [] (to_be16 service) 0 2 refl refl (omega arith),
          copy_at-append {E = BuildError} buf a₁ (to_be16 method) 2 4 refl refl (omega arith),
          copy_at-append {E = BuildError} buf a₂ (to_be32 (8 + n % 4294967296)) 4 8 refl refl
              (omega arith),
          copy_at-append {E = BuildError} buf a₃ (0 ∷ 0 ∷ []) 8 10 refl refl (omega arith),
          copy_at-append {E = BuildError} buf a₄ (to_be16 session) 10 12 refl refl (omega arith),
          copy_at-append {E = BuildError} buf a₅ (0x01 ∷ []) 12 13 refl refl (omega arith),
          copy_at-append {E = BuildError} buf a₆ (0x01 ∷ []) 13 14 refl refl (omega arith),
          copy_at-append {E = BuildError} buf a₇ (0x02 ∷ []) 14 15 refl refl (omega arith),
          copy_at-append {E = BuildError} buf a₈ (0x00 ∷ []) 15 16 refl refl (omega arith),
          copy_at-append {E = BuildError} buf a₉ payload 16 (16 + n) refl refl room,
        )
        refl

-- What a notification with these ids, session and payload is, in the front of the buffer.
abbrev pub Notified : ℕ → ℕ → ℕ → List ℕ → List ℕ → Type 0
Notified service method session payload buf =
    (h : Header.Header) × (out : List ℕ) × (Header.new_event service method session 0x01 0x01
        (length payload)
      ≡ ok h)
    × (build_notification_datagram buf service method session payload
        ≡ ok (16 + length payload, out))
    × (take (16 + length payload) out ≡ header_bytes h ++ payload)
    × (drop (16 + length payload) out ≡ drop (16 + length payload) buf)
    × (parse_someip_datagram (take (16 + length payload) out)
        ≡ some (record {
          service_id = service;
          method_id = method;
          upper_header = upper_header_bytes h;
          payload = payload;
        }))

-- For ids and a session of 16 bits and a payload that fits the buffer behind 16 bytes and the
-- length field, the notification is the bytes of the header that `Header::new_event` makes for
-- them, with protocol and interface version 1, and the payload; the rest of the buffer is kept; and
-- a receiver of those bytes finds the ids, the payload and the header's upper eight bytes.
pub build_notification-Notified :
    (service method session : ℕ) (payload buf : List ℕ)
    → IsU16 service
    → IsU16 method
    → IsU16 session
    → length payload ≤ Header.max_payload
    → 16 + length payload ≤ length buf
    → Notified service method session payload buf
unfolding Header.new_event notified parse_someip_datagram datagram_of
build_notification-Notified service method session payload buf p q r fits room =
    let h = notified service method session (length payload) in
    let valid = notified-IsHeader service method session payload p q r fits in
    let (id, _, _, _, _, _) = written_view-fields h valid in
    let (parsed, _, upper) = parse-header_bytes h payload valid in
    let (s, m, _) = parts-new service method p q in
    let fine : leb (length payload) Header.max_payload ≡ true = ground (arith, fits) in
    let whole : length (header_bytes h ++ payload) ≡ 16 + length payload =
      omega (arith, length-append (header_bytes h) payload, length-header_bytes h) in
    let rest = drop (16 + length payload) buf in
    let front : take (16 + length payload) ((header_bytes h ++ payload) ++ rest)
        ≡ header_bytes h ++ payload =
      take-append_length (header_bytes h ++ payload) rest (16 + length payload) (sym whole) in
    (
      h,
      (header_bytes h ++ payload) ++ rest,
      rw fine refl,
      rw (sym (laid_out-header_bytes service method session payload p q r fits))
          (built service method session payload p q r fits buf room),
      front,
      drop-append_length (header_bytes h ++ payload) rest (16 + length payload) (sym whole),
      rw (front, parsed, id, s, m, upper) refl,
    )
