-- ===== src/Protocol/Message/Parse.antt =====
-- What `MessageView::parse` accepts, and when it panics.
use simple_someip.Prelude.{
  ℕ, ◌-◌, ◌<◌, ◌≤◌, ◌≡◌, ◌≢◌, ◌↔◌, ◌⊎◌, inl, inr, ap, arith, true, false, List, length, length-take,
  take, ok, err, panic, ◌>>=◌, Result-cases, Bool-cases, >>=-eq-ok,
}
use simple_someip.Bytes.{IsBytes}
use simple_someip.Bytes.Facts.{slice-ok}
use simple_someip.Protocol.Error.{Error}
use simple_someip.Protocol.MessageType.{
  MessageTypeField, MessageType, notification, message_type, try_from-new,
}
use simple_someip.Protocol.ReturnCode.{ReturnCode, okay}
use simple_someip.Protocol.Header as Header
use simple_someip.Protocol.Header.{
  HeaderView, view_payload_size, payload_size_of, view_length, view_is_sd, view_interface_version,
  view_message_type, view_return_code, to_owned,
}
use simple_someip.Protocol.Header.RoundTrip.{header_bytes-parse, parse-ne-panic as header-ne-panic}
use simple_someip.Protocol.Message.{MessageView, check_sd, parse}

-- The checked fields of a view that the header parser has made.
record Checked (v : HeaderView) : Type 0 where
  field : MessageTypeField
  kind : MessageType
  code : ReturnCode
  field_eq : view_message_type v ≡ ok field
  kind_eq : message_type field ≡ ok kind
  code_eq : view_return_code v ≡ ok code

checked :
    (buf rest : List ℕ) (v : HeaderView) → IsBytes buf → Header.parse buf ≡ ok (v, rest) → Checked v
unfolding to_owned
checked buf rest v b p =
    let (h, owned, range, whole) = header_bytes-parse buf rest v b p in
    let (f, f_eq, tail) = >>=-eq-ok (view_message_type v) _ owned in
    let (c, c_eq, last) = >>=-eq-ok (view_return_code v) _ tail in
    let same : f ≡ h.message_type = ground arith in
    let (t, t_eq, rebuilt) = (try_from-new _ h.message_type range.type_range range.type_valid).1 in
    record {
      field = f;
      kind = t;
      code = c;
      field_eq = f_eq;
      kind_eq = rw same t_eq;
      code_eq = c_eq;
    }

check_sd-ne-panic : (v : HeaderView) (n : ℕ) → Checked v → check_sd v n ≢ panic
unfolding check_sd
check_sd-ne-panic v n k p = ground (arith, k.field_eq, k.kind_eq, k.code_eq)

view_payload_size-cases :
    (v : HeaderView)
    → ((8 ≤ view_length v) × (view_payload_size v ≡ ok (view_length v - 8)))
      ⊎ ((view_length v < 8) × (view_payload_size v ≡ panic))
unfolding view_payload_size payload_size_of
view_payload_size-cases v = ground arith

module _ (buf rest : List ℕ) (v : HeaderView) (p : Header.parse buf ≡ ok (v, rest)) where
  parse-short : view_length v < 8 → parse buf ≡ panic
  unfolding parse view_payload_size payload_size_of
  parse-short h = rw p (ground arith)

  parse-long-ne-panic : IsBytes buf → 8 ≤ view_length v → parse buf ≢ panic
  unfolding parse view_payload_size payload_size_of
  parse-long-ne-panic b h q = ground (
    arith,
    p,
    check_sd-ne-panic v (view_length v - 8) (checked buf rest v b p),
    slice-ok {E = Error} rest 0 (view_length v - 8),
  )

parse-err : (buf : List ℕ) (e : Error) → Header.parse buf ≡ err e → parse buf ≢ panic
unfolding parse
parse-err buf e p q = ground (arith, p)

-- On a buffer of bytes `parse` panics exactly when the header is accepted and its length field is
-- below eight, so that `payload_size` subtracts below zero.
pub parse-panic_iff :
    (buf : List ℕ)
    → IsBytes buf
    → (parse buf ≡ panic) ↔ (
        (v : HeaderView) × (rest : List ℕ) × (Header.parse buf ≡ ok (v, rest))
        × (view_length v < 8))
parse-panic_iff buf b = (forth, λ (v, rest, p, h). parse-short buf rest v p h)
  where
    forth :
        parse buf ≡ panic
        → (v : HeaderView) × (rest : List ℕ) × (Header.parse buf ≡ ok (v, rest))
          × (view_length v < 8)
    forth q = elim (Result-cases (Header.parse buf)) [
      | inl ((v, rest), p) ↦ elim (view_payload_size-cases v) [
        | inl (long, e) ↦ absurd (parse-long-ne-panic buf rest v p b long q)
        | inr (short, e) ↦ (v, rest, p, short)
      ]
      | inr (inl (e, p)) ↦ absurd (parse-err buf e p q)
      | inr (inr p) ↦ absurd (header-ne-panic buf p)
    ]

check_sd-ok :
    (v : HeaderView) (n : ℕ)
    → Checked v
    → check_sd v n ≡ ok tt
    → (12 ≤ n)
      × (view_interface_version v ≡ 0x01)
      × ((view_message_type v >>= message_type) ≡ ok notification)
      × (view_return_code v ≡ ok okay)
unfolding check_sd
check_sd-ok v n k p = ground (arith, k.field_eq, k.kind_eq, k.code_eq)

-- What an accepted buffer holds.
abbrev pub Accepted : List ℕ → MessageView → Type 0
Accepted buf m =
    (rest : List ℕ) × (Header.parse buf ≡ ok (m.header, rest))
    × (8 ≤ view_length m.header)
    × (m.payload ≡ take (view_length m.header - 8) rest)
    × (length m.payload ≡ view_length m.header - 8)
    × ((view_is_sd m.header ≡ false)
        ⊎ ((12 ≤ length m.payload)
            × (view_interface_version m.header ≡ 0x01)
            × ((view_message_type m.header >>= message_type) ≡ ok notification)
            × (view_return_code m.header ≡ ok okay)))

-- A message that is accepted holds the header that its first 16 bytes hold and, of what follows,
-- as many bytes as the length field declares beyond eight. If its message id is the one of service
-- discovery, the payload has at least 12 bytes, the interface version is 1, the type is a
-- notification and the return code is Ok.
pub parse-Accepted :
    (buf : List ℕ) (m : MessageView) → IsBytes buf → parse buf ≡ ok m → Accepted buf m
unfolding parse view_payload_size payload_size_of
parse-Accepted buf m b q =
    let ((v, rest), p, tail) = >>=-eq-ok (Header.parse buf) _ q in
    let long : 8 ≤ view_length v = ground arith in
    let fits : view_length v - 8 ≤ length rest = ground arith in
    let last : m ≡ record { header = v; payload = take (view_length v - 8) rest } =
      ground (arith, slice-ok {E = Error} rest 0 (view_length v - 8)) in
    let same : m.header ≡ v = ap (λ (x : MessageView). x.header) last in
    let cut : m.payload ≡ take (view_length v - 8) rest =
      ap (λ (x : MessageView). x.payload) last in
    let size : length m.payload ≡ view_length v - 8 =
      rw cut (omega (arith, length-take (view_length v - 8) rest)) in
    let sd : view_is_sd v ≡ true → check_sd v (view_length v - 8) ≡ ok tt = λ s. ground arith in
    rw same (
      rest,
      p,
      long,
      cut,
      size,
      elim (Bool-cases (view_is_sd v)) [
        | inl s ↦ inr (rw size (check_sd-ok v (view_length v - 8) (checked buf rest v b p) (sd s)))
        | inr other ↦ inl other
      ],
    )
