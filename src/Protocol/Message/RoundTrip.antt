-- ===== src/Protocol/Message/RoundTrip.antt =====
-- A message that was written is parsed back from its bytes.
use simple_someip.Prelude.{
  ℕ, [], ◌+◌, ◌≤◌, ◌≡◌, refl, ap, ◌∙◌, arith, List, ◌++◌, length, length-append, take-append_length,
  true, Bool-cases, inl, inr, ok, >>=-eq-ok, le→ltb, leb, ◌-◌, append_assoc,
}
use simple_someip.Bytes.{slice}
use simple_someip.Bytes.Facts.{slice-ok}
use simple_someip.Protocol.Error.{Error}
use simple_someip.Protocol.MessageType.{message_type, notification}
use simple_someip.Protocol.ReturnCode.{ReturnCode, okay}
use simple_someip.Protocol.Header as Header
use simple_someip.Protocol.Header.{
  HeaderView, IsHeader, view_message_id, view_length, view_is_sd, view_interface_version,
  view_message_type, view_return_code, view_payload_size, payload_size_of, view_request_id,
  to_owned,
}
use simple_someip.Protocol.Header.Encode.{header_bytes}
use simple_someip.Protocol.Header.RoundTrip.{parse-header_bytes}
use simple_someip.Protocol.Message.{check_sd, parse}

-- What a header of a service discovery message has to hold.
pub record IsSdMessage (h : Header.Header) (n : ℕ) : Type 0 where
  pub long : 12 ≤ n
  pub version : h.interface_version ≡ 0x01
  pub kind : message_type h.message_type ≡ ok notification
  pub code : h.return_code ≡ okay

abbrev pub written_view : Header.Header → HeaderView
written_view h = record { bytes = header_bytes h }

module _ (h : Header.Header) (v : IsHeader h) where
  owned : to_owned (written_view h) ≡ ok h
  owned = (parse-header_bytes h [] v).1

  pub written_view-fields :
      (view_message_id (written_view h) ≡ h.message_id)
      × (view_length (written_view h) ≡ h.length_field)
      × (view_request_id (written_view h) ≡ h.request_id)
      × (view_interface_version (written_view h) ≡ h.interface_version)
      × (view_message_type (written_view h) ≡ ok h.message_type)
      × (view_return_code (written_view h) ≡ ok h.return_code)
  unfolding to_owned
  written_view-fields =
      let (f, f_eq, tail) = >>=-eq-ok (view_message_type (written_view h)) _ owned in
      let (c, c_eq, last) = >>=-eq-ok (view_return_code (written_view h)) _ tail in
      ground (arith, f_eq, c_eq, last)

check_sd-written :
    (h : Header.Header) (n : ℕ) → IsHeader h → IsSdMessage h n → check_sd (written_view h) n ≡ ok tt
unfolding check_sd
check_sd-written h n v s =
    let (id, len, req, iv, mt, rc) = written_view-fields h v in
    rw (le→ltb n 12 s.long, iv ∙ s.version, mt, s.kind, rc ∙ ap (λ (c : ReturnCode). ok c) s.code)
      refl

-- A header in range, in front of a payload as long as the header's length field declares, is
-- parsed to the view of that header and that payload, whatever follows; a header with the message
-- id of service discovery has to satisfy the conditions of a service discovery message.
pub parse-written :
    (h : Header.Header) (payload rest : List ℕ)
    → IsHeader h
    → h.length_field ≡ 8 + length payload
    → (Header.is_sd h ≡ true → IsSdMessage h (length payload))
    → parse ((header_bytes h ++ payload) ++ rest)
      ≡ ok (record { header = written_view h; payload = payload })
unfolding parse view_payload_size payload_size_of Header.view_is_sd Header.is_sd
parse-written h payload rest v size s =
    let (id, len, _, _, _, _) = written_view-fields h v in
    let n : 8 + length payload - 8 ≡ length payload = omega arith in
    let long : leb 8 (8 + length payload) ≡ true = ground arith in
    let fits : length payload ≤ length (payload ++ rest) =
      omega (arith, length-append payload rest) in
    let cut : slice {E = Error} (payload ++ rest) 0 (length payload) ≡ ok payload =
      slice-ok (payload ++ rest) 0 (length payload) (omega arith) fits
      ∙ ap (λ (bs : List ℕ). ok bs)
          (take-append_length payload rest (length payload - 0) (omega arith)) in
    elim (Bool-cases (Header.is_sd h)) [
      | inl sd ↦
          rw
            (
              append_assoc (header_bytes h) payload rest,
              (parse-header_bytes h (payload ++ rest) v).0,
              len ∙ size,
              long,
              n,
              le→ltb (length (payload ++ rest)) (length payload) fits,
              id,
              sd,
              check_sd-written h (length payload) v (s sd),
              cut,
            )
            refl
      | inr other ↦
          rw
            (
              append_assoc (header_bytes h) payload rest,
              (parse-header_bytes h (payload ++ rest) v).0,
              len ∙ size,
              long,
              n,
              le→ltb (length (payload ++ rest)) (length payload) fits,
              id,
              other,
              cut,
            )
            refl
    ]
