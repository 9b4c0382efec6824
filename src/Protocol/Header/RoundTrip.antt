-- ===== src/Protocol/Header/RoundTrip.antt =====
-- Reading a header back, in both directions.
use simple_someip.Prelude.{
  ℕ, ◌≤◌, ◌≡◌, ◌≢◌, refl, sym, ap, ◌∙◌, List, [], ◌∷◌, ◌++◌, length, length-append, length-take,
  take, drop, le→ltb, ok, panic, arith, take-append_length, drop-append_length, take-append-drop,
  Result-cases, inl, inr,
}
use simple_someip.Bytes.{IsU8, IsBytes, to_be32, from_be32, byte_at}
use simple_someip.Bytes.Facts.{
  slice-ok, slice_from-ok, from_be32-to_be32, from_be32-lt, to_be32-from_be32, eq-table,
  byte_at-IsU8, take-IsBytes,
}
use simple_someip.Protocol.Error.{Error}
use simple_someip.Protocol.MessageType.{
  MessageTypeField, field_try_from, try_from-new, field_try_from-ne-panic,
}
use simple_someip.Protocol.ReturnCode.{
  ReturnCode, as_u8, try_from, try_from-as_u8, as_u8-try_from, try_from-ne-panic,
}
use simple_someip.Protocol.Header.{
  Header, HeaderView, IsHeader, parse, to_owned, view_message_id, view_length, view_request_id,
  view_message_type, view_return_code, view_protocol_version, view_interface_version,
  view_upper_header_bytes, upper_header_bytes,
}
use simple_someip.Protocol.Header.Encode.{header_bytes, length-header_bytes}

abbrev view_on : List ℕ → HeaderView
view_on buf = record { bytes = take 16 buf }

-- A buffer that passes all checks.
module _ (buf : List ℕ) where
  parse-ok :
      (f : MessageTypeField) (c : ReturnCode)
      → 16 ≤ length buf
      → byte_at (take 16 buf) 12 ≡ 0x01
      → field_try_from (byte_at (take 16 buf) 14) ≡ ok f
      → try_from (byte_at (take 16 buf) 15) ≡ ok c
      → parse buf ≡ ok (view_on buf, drop 16 buf)
  unfolding parse
  parse-ok f c h pv mt rc =
      rw
        (
          le→ltb (length buf) 16 h,
          slice-ok buf 0 16 (omega arith) h,
          pv,
          mt,
          rc,
          slice_from-ok buf 16 h,
        )
        refl

-- The view of a written header reads each field back.
module _ (h : Header) (v : IsHeader h) where
  own-header_bytes : to_owned (record { bytes = header_bytes h }) ≡ ok h
  unfolding to_owned header_bytes to_be32 view_message_id view_length view_request_id
      view_message_type view_return_code
  own-header_bytes =
      rw
        (
          v.type_valid,
          try_from-as_u8 h.return_code v.code_valid,
          from_be32-to_be32 h.message_id.raw v.id_range,
          from_be32-to_be32 h.length_field v.length_range,
          from_be32-to_be32 h.request_id v.request_range,
        )
        refl

  front : (rest : List ℕ) → take 16 (header_bytes h ++ rest) ≡ header_bytes h
  front rest = take-append_length (header_bytes h) rest 16 (sym (length-header_bytes h))

  checked_bytes :
      (byte_at (header_bytes h) 12 ≡ 0x01)
      × (byte_at (header_bytes h) 14 ≡ h.message_type.byte)
      × (byte_at (header_bytes h) 15 ≡ as_u8 h.return_code)
  unfolding header_bytes to_be32
  checked_bytes = (v.version, refl, refl)

  parsed-header_bytes :
      (rest : List ℕ)
      → parse (header_bytes h ++ rest) ≡ ok (record { bytes = header_bytes h }, rest)
  parsed-header_bytes rest =
      let (pv, mt, rc) = checked_bytes in
      let whole =
        parse-ok (header_bytes h ++ rest) h.message_type h.return_code
          (omega (arith, length-append (header_bytes h) rest, length-header_bytes h))
          (rw (front rest) pv) (rw (front rest, mt) v.type_valid)
          (rw (front rest, rc) (try_from-as_u8 h.return_code v.code_valid)) in
      rw (front rest, drop-append_length (header_bytes h) rest 16 (sym (length-header_bytes h))) at
        whole

  -- Both ends of a link hand the same eight bytes to the end-to-end check.
  upper-header_bytes :
      view_upper_header_bytes (record { bytes = header_bytes h }) ≡ upper_header_bytes h
  unfolding view_upper_header_bytes upper_header_bytes header_bytes to_be32
  upper-header_bytes = refl

-- A header whose fields are in range is read back from its 16 bytes, whatever follows them: the
-- view leaves the rest alone, its owned form is the header, and it has the header's upper eight
-- bytes.
pub parse-header_bytes :
    (h : Header) (rest : List ℕ)
    → IsHeader h
    → (parse (header_bytes h ++ rest) ≡ ok (record { bytes = header_bytes h }, rest))
      × (to_owned (record { bytes = header_bytes h }) ≡ ok h)
      × (view_upper_header_bytes (record { bytes = header_bytes h }) ≡ upper_header_bytes h)
parse-header_bytes h rest v =
    (parsed-header_bytes h v rest, own-header_bytes h v, upper-header_bytes h v)

-- What a successful parse tells of the buffer.
module _ (buf : List ℕ) (v : HeaderView) (rest : List ℕ) (p : parse buf ≡ ok (v, rest)) where
  pub parse-length : 16 ≤ length buf
  unfolding parse
  parse-length = ground arith

  pub parse-parts : (v ≡ view_on buf) × (rest ≡ drop 16 buf) × (byte_at (take 16 buf) 12 ≡ 0x01)
  unfolding parse
  parse-parts = ground (arith, slice-ok {E = Error} buf 0 16, slice_from-ok {E = Error} buf 16)

  parse-type : ((f : MessageTypeField) × (field_try_from (byte_at (take 16 buf) 14) ≡ ok f))
  unfolding parse
  parse-type = elim (Result-cases (field_try_from (byte_at (take 16 buf) 14))) [
    | inl found ↦ found
    | inr (inl (e, h)) ↦ absurd (ground (arith, slice-ok {E = Error} buf 0 16))
    | inr (inr h) ↦ absurd (ground (arith, slice-ok {E = Error} buf 0 16))
  ]

  parse-code : ((c : ReturnCode) × (try_from (byte_at (take 16 buf) 15) ≡ ok c))
  unfolding parse
  parse-code = elim (Result-cases (try_from (byte_at (take 16 buf) 15))) [
    | inl found ↦ found
    | inr (inl (e, h)) ↦ absurd (ground (arith, slice-ok {E = Error} buf 0 16))
    | inr (inr h) ↦ absurd (ground (arith, slice-ok {E = Error} buf 0 16))
  ]

  -- The owned header of the view that the parser makes.
  parsed_header : Header
  parsed_header = record {
    message_id = view_message_id (view_on buf);
    length_field = view_length (view_on buf);
    request_id = view_request_id (view_on buf);
    protocol_version = view_protocol_version (view_on buf);
    interface_version = view_interface_version (view_on buf);
    message_type = parse-type.0;
    return_code = parse-code.0;
  }

  own-parsed : to_owned v ≡ ok parsed_header
  own-parsed = ap to_owned parse-parts.0 ∙ own-view
    where
      own-view : to_owned (view_on buf) ≡ ok parsed_header
      own-view =
          unfold to_owned view_message_type view_return_code parsed_header in
          rw (parse-type.1, parse-code.1) refl

  -- With bytes in the buffer the owned header is in range and has the same wire format.
  module _ (bytes : IsBytes buf) where
    front_byte : (i : ℕ) → IsU8 (byte_at (take 16 buf) i)
    front_byte i = byte_at-IsU8 (take 16 buf) i (take-IsBytes 16 buf bytes)

    type_byte : parse-type.0.byte ≡ byte_at (take 16 buf) 14
    type_byte = (try_from-new _ parse-type.0 (front_byte 14) parse-type.1).0

    code_byte : as_u8 parse-code.0 ≡ byte_at (take 16 buf) 15
    code_byte = (as_u8-try_from _ parse-code.0 parse-code.1).0

    word :
        (i j k l : ℕ)
        → to_be32 (
            from_be32
              (byte_at (take 16 buf) i)
              (byte_at (take 16 buf) j)
              (byte_at (take 16 buf) k)
              (byte_at (take 16 buf) l))
          ≡ byte_at (take 16 buf) i
            ∷ byte_at (take 16 buf) j
            ∷ byte_at (take 16 buf) k
            ∷ byte_at (take 16 buf) l
            ∷ []
    word i j k l =
        to_be32-from_be32 _ _ _ _ (front_byte i) (front_byte j) (front_byte k) (front_byte l)

    bytes-parsed : header_bytes parsed_header ≡ take 16 buf
    unfolding header_bytes parsed_header view_message_id view_length view_request_id
    bytes-parsed =
        rw (word 0 1 2 3, word 4 5 6 7, word 8 9 10 11, type_byte, code_byte)
          (sym (eq-table (take 16 buf) 16 (omega (arith, length-take 16 buf, parse-length))))

    IsHeader-parsed : IsHeader parsed_header
    unfolding parsed_header view_message_id view_length view_request_id
    IsHeader-parsed = record {
      id_range = from_be32-lt _ _ _ _ (front_byte 0) (front_byte 1) (front_byte 2) (front_byte 3);
      length_range =
          from_be32-lt _ _ _ _ (front_byte 4) (front_byte 5) (front_byte 6) (front_byte 7);
      request_range =
          from_be32-lt _ _ _ _ (front_byte 8) (front_byte 9) (front_byte 10) (front_byte 11);
      version = parse-parts.2;
      interface_range = front_byte 13;
      type_valid = rw type_byte parse-type.1;
      type_range = rw type_byte (front_byte 14);
      code_valid = (as_u8-try_from _ parse-code.0 parse-code.1).1;
    }

-- Whatever buffer of bytes is accepted, its view has an owned form in range, and writing that
-- header gives back the very bytes that were read, with the rest of the buffer behind them.
pub header_bytes-parse :
    (buf rest : List ℕ) (v : HeaderView)
    → IsBytes buf
    → parse buf ≡ ok (v, rest)
    → (h : Header) × (to_owned v ≡ ok h) × IsHeader h × (header_bytes h ++ rest ≡ buf)
header_bytes-parse buf rest v b p = (
  parsed_header buf v rest p,
  own-parsed buf v rest p,
  IsHeader-parsed buf v rest p b,
  rw (bytes-parsed buf v rest p b, (parse-parts buf v rest p).1) (take-append-drop 16 buf),
)

-- The parser returns a value or an error on every input: no index or slice is out of bounds.
pub parse-ne-panic : (buf : List ℕ) → parse buf ≢ panic
unfolding parse
parse-ne-panic buf p = ground (
  arith,
  slice-ok {E = Error} buf 0 16,
  slice_from-ok {E = Error} buf 16,
  field_try_from-ne-panic (byte_at (take 16 buf) 14),
  try_from-ne-panic (byte_at (take 16 buf) 15),
)
