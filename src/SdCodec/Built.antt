-- ===== src/SdCodec/Built.antt =====
-- What `encode_sd_datagram` of src/sd_codec.rs leaves in the buffer, and what the parser makes of it.
use simple_someip.Prelude.{
  ℕ, ◌+◌, ◌-◌, ◌≤◌, ◌<◌, ◌≡◌, refl, sym, ap, ◌∙◌, arith, List, [], ◌++◌, length, length-append,
  length-take, length-drop, take, drop, drop-drop, drop-take, take-append_length, append_assoc,
  append-nil, leb, true, some, Result, ok, err, le→ltb, lt→ltb, ltb→lt, ltb, Bool-cases, inl, inr,
  ◌⊎◌,
}
use simple_someip.Bytes.{IsU16}
use simple_someip.Bytes.Facts.{slice-ok, slice_from-ok}
use simple_someip.Bytes.Slice.{SliceWriter, encode_to_slice-fits, encode_to_slice-short}
use simple_someip.Protocol.MessageId as MessageId
use simple_someip.Protocol.Header as Header
use simple_someip.Protocol.Header.Encode as HeaderEncode
use simple_someip.Protocol.Header.Encode.{header_bytes, length-header_bytes, encode-header_bytes}
use simple_someip.Sd.Flags.{RebootFlag}
use simple_someip.Sd.Entry.{Entry}
use simple_someip.Sd.Options.{Options}
use simple_someip.Sd.Header as SdHeader
use simple_someip.Sd.Header.Encode as SdEncode
use simple_someip.Sd.Header.Encode.{
  sd_bytes, IsSdHeader, length-sd_bytes, encode-sd_bytes, required_size,
}
use simple_someip.Sd.Entry.View as EntryView
use simple_someip.Sd.Options.View as OptionView
use simple_someip.Sd.Header.{SdHeaderView}
use simple_someip.Sd.Header.RoundTrip.{parse-sd_bytes}
use simple_someip.Protocol.Header.RoundTrip.{parse-header_bytes}
use simple_someip.Protocol.Message.{MessageView, parse, is_sd, sd_header}
use simple_someip.Protocol.Message.RoundTrip.{written_view, written_view-fields}
use simple_someip.Payload.{own_entries, own_options}
use simple_someip.Payload.RoundTrip.{own_entries-views, own_options-views}
use simple_someip.Payload.Format.{sd_header_of, sd_header_of-IsHeader, parse-new_sd}
use simple_someip.SdCodec.Parse.{parse_someip_sd_datagram, sd_view_of}
use simple_someip.SdCodec.{buffer_too_small, encode_failed}
use simple_someip.SdCodec.Build.{write_sd, encode_sd_datagram, wrapped_header}

abbrev pub datagram_bytes : ℕ → SdHeader.Header → List ℕ
datagram_bytes session h = header_bytes (sd_header_of session h) ++ sd_bytes h

new_sd-header :
    (session : ℕ) (h : SdHeader.Header)
    → required_size h ≤ Header.max_payload
    → Header.new_sd session (required_size h) ≡ ok (sd_header_of session h)
unfolding Header.new_sd sd_header_of
new_sd-header session h fits = rw fit refl
  where
    fit : leb (required_size h) Header.max_payload ≡ true
    fit = ground (arith, fits)

module _ {ℓ} {E : Type ℓ} (small failed : E) (sw : SliceWriter) (buf : List ℕ)
    (entries : List Entry) (options : List Options) (session : ℕ) (reboot : RebootFlag) where
  open sw use {wr}

  abbrev h : SdHeader.Header
  h = wrapped_header reboot entries options

  abbrev size : ℕ
  size = required_size h

  write_sd-small :
      length buf < 16 → write_sd sw small failed buf entries options session reboot ≡ err small
  unfolding write_sd
  write_sd-small short = rw (lt→ltb (length buf) 16 short) refl

  module _ (v : IsSdHeader h) where
    write_sd-short :
        16 ≤ length buf
        → length buf < 16 + size
        → write_sd sw small failed buf entries options session reboot ≡ err failed
    unfolding write_sd
    write_sd-short long short =
        let (e, refused) =
          encode_to_slice-short sw (SdEncode.encode wr h) (sd_bytes h) (drop 16 buf)
            (encode-sd_bytes wr h v) (omega (arith, length-drop 16 buf, length-sd_bytes h v)) in
        rw (le→ltb (length buf) 16 long, slice_from-ok {E = E} buf 16 long, refused) refl

    write_sd-fits :
        size ≤ Header.max_payload
        → 16 + size ≤ length buf
        → write_sd sw small failed buf entries options session reboot
          ≡ ok (16 + size, datagram_bytes session h ++ drop (16 + size) buf)
    unfolding write_sd Header.new_sd
    write_sd-fits fits long =
        let total = length-sd_bytes h v in
        let wrapper = sd_header_of session h in
        let sixteen = length-header_bytes wrapper in
        let back : length (drop 16 buf) ≡ length buf - 16 = length-drop 16 buf in
        let front : length (take 16 buf) ≡ 16 = omega (arith, length-take 16 buf) in
        let body =
          encode_to_slice-fits sw (SdEncode.encode wr h) (sd_bytes h) (drop 16 buf)
            (encode-sd_bytes wr h v) (omega arith) in
        let head =
          encode_to_slice-fits sw (HeaderEncode.encode wr wrapper) (header_bytes wrapper)
            (take 16 buf) (encode-header_bytes wr wrapper) (omega arith) in
        rw
          (
            le→ltb (length buf) 16 (omega arith),
            slice_from-ok {E = E} buf 16 (omega arith),
            body,
            total,
            new_sd-header session h fits,
            slice-ok {E = E} buf 0 16 (omega arith) (omega arith),
            head,
            sixteen,
            drop-take 16 buf,
            append-nil (header_bytes wrapper),
            drop-drop size 16 buf,
            append_assoc (header_bytes wrapper) (sd_bytes h) (drop (16 + size) buf),
          )
          refl

-- A receiver that parses the bytes, as a datagram or as a message, finds the flags, the entries and
-- the options of the header.
abbrev pub Announced : SdHeader.Header → List ℕ → Type 0
Announced h bytes =
    (view : SdHeaderView) × (parse_someip_sd_datagram bytes ≡ some view)
    × ((m : MessageView) × (parse bytes ≡ ok m) × (is_sd m ≡ true) × (sd_header m ≡ ok view))
    × (view.flags ≡ h.flags)
    × (own_entries (EntryView.iterate view.entries_buf) ≡ ok h.entries)
    × (own_options (OptionView.iterate view.options_buf) ≡ ok h.options)

datagram-Announced :
    (session : ℕ) (h : SdHeader.Header)
    → IsU16 session
    → IsSdHeader h
    → required_size h ≤ Header.max_payload
    → Announced h (datagram_bytes session h)
unfolding parse_someip_sd_datagram sd_view_of Header.view_is_sd sd_header_of MessageId.is_sd is_sd
    sd_header
datagram-Announced session h range v fits =
    let wrapper = sd_header_of session h in
    let valid = sd_header_of-IsHeader session h (omega arith) v fits in
    let (id, _, _, _, _, _) = written_view-fields wrapper valid in
    let (view, parsed, flags, entries, options) = parse-sd_bytes h [] v in
    let whole : SdHeader.parse (sd_bytes h) ≡ ok view =
      ap SdHeader.parse (sym (append-nil (sd_bytes h))) ∙ parsed in
    (
      view,
      rw ((parse-header_bytes wrapper (sd_bytes h) valid).0, id, whole) refl,
      (
        record { header = written_view wrapper; payload = sd_bytes h },
        ap parse (sym (append-nil (datagram_bytes session h)))
            ∙ parse-new_sd session h (omega arith) v fits [],
        rw id refl,
        rw (id, whole) refl,
      ),
      flags,
      rw entries (own_entries-views h.entries v.entries_range),
      rw options (own_options-views h.options v.options_range),
    )

-- A datagram of the header in the front of the buffer: its length is returned, the buffer keeps
-- its size, and a receiver of that many bytes reads the header.
abbrev pub Sent {ℓ} : {E : Type ℓ} → Result E (ℕ × List ℕ) → SdHeader.Header → List ℕ → Type ℓ
Sent result h buf =
    (out : List ℕ) × (result ≡ ok (16 + required_size h, out))
    × (length out ≡ length buf)
    × Announced h (take (16 + required_size h) out)

-- The three outcomes for a buffer of any size.
abbrev pub Outcome {ℓ} :
    {E : Type ℓ} → E → E → Result E (ℕ × List ℕ) → SdHeader.Header → List ℕ → Type ℓ
Outcome small failed result h buf =
    ((length buf < 16) × (result ≡ err small))
    ⊎ ((16 ≤ length buf) × (length buf < 16 + required_size h) × (result ≡ err failed))
    ⊎ ((16 + required_size h ≤ length buf) × Sent result h buf)

module _ {ℓ} {E : Type ℓ} (small failed : E) (sw : SliceWriter) (buf : List ℕ)
    (entries : List Entry) (options : List Options) (session : ℕ) (reboot : RebootFlag) where
  pub write_sd-Sent :
      IsU16 session
      → IsSdHeader (wrapped_header reboot entries options)
      → required_size (wrapped_header reboot entries options) ≤ Header.max_payload
      → 16 + required_size (wrapped_header reboot entries options) ≤ length buf
      → Sent
          (write_sd sw small failed buf entries options session reboot)
          (wrapped_header reboot entries options)
          buf
  write_sd-Sent range v fits room =
      let h = wrapped_header reboot entries options in
      let n = 16 + required_size h in
      let bytes = datagram_bytes session h in
      let whole : length bytes ≡ n = omega (
        arith,
        length-append (header_bytes (sd_header_of session h)) (sd_bytes h),
        length-header_bytes (sd_header_of session h),
        length-sd_bytes h v,
      ) in
      (
        bytes ++ drop n buf,
        write_sd-fits small failed sw buf entries options session reboot v fits room,
        omega (arith, length-append bytes (drop n buf), length-drop n buf, whole),
        rw (take-append_length bytes (drop n buf) n (sym whole))
            (datagram-Announced session h range v fits),
      )

  pub write_sd-Outcome :
      IsU16 session
      → IsSdHeader (wrapped_header reboot entries options)
      → required_size (wrapped_header reboot entries options) ≤ Header.max_payload
      → Outcome small failed
          (write_sd sw small failed buf entries options session reboot)
          (wrapped_header reboot entries options)
          buf
  write_sd-Outcome range v fits =
      let n = 16 + required_size (wrapped_header reboot entries options) in
      elim (Bool-cases (ltb (length buf) 16)) [
        | inl short ↦
            let few = ltb→lt (length buf) 16 short in
            inl (few, write_sd-small small failed sw buf entries options session reboot few)
        | inr long ↦ elim (Bool-cases (ltb (length buf) n)) [
          | inl short ↦
              let a : 16 ≤ length buf = ground arith in
              let b = ltb→lt (length buf) n short in
              inr (
                inl (a, b, write_sd-short small failed sw buf entries options session reboot v a b))
          | inr room ↦
              let b : n ≤ length buf = ground arith in inr (inr (b, write_sd-Sent range v fits b))
        ]
      ]

module _ (sw : SliceWriter) (buf : List ℕ) (entries : List Entry) (options : List Options)
    (session : ℕ) (reboot : RebootFlag) where
  pub encode_sd_datagram-Sent :
      IsU16 session
      → IsSdHeader (wrapped_header reboot entries options)
      → required_size (wrapped_header reboot entries options) ≤ Header.max_payload
      → 16 + required_size (wrapped_header reboot entries options) ≤ length buf
      → Sent
          (encode_sd_datagram sw buf entries options session reboot)
          (wrapped_header reboot entries options)
          buf
  unfolding encode_sd_datagram
  encode_sd_datagram-Sent =
      write_sd-Sent buffer_too_small encode_failed sw buf entries options session reboot

  -- Into a buffer of at least 16 bytes plus the size of the payload, a datagram is written that a
  -- receiver reads back entry by entry and option by option; the length returned is that sum and
  -- the buffer keeps its size. A buffer below 16 bytes is refused as too small, and one between
  -- the two bounds as an encoding that failed. The session id, the entries and the options are in
  -- range and the size fits the length field.
  pub encode_sd_datagram-Outcome :
      IsU16 session
      → IsSdHeader (wrapped_header reboot entries options)
      → required_size (wrapped_header reboot entries options) ≤ Header.max_payload
      → Outcome buffer_too_small encode_failed
          (encode_sd_datagram sw buf entries options session reboot)
          (wrapped_header reboot entries options)
          buf
  unfolding encode_sd_datagram
  encode_sd_datagram-Outcome =
      write_sd-Outcome buffer_too_small encode_failed sw buf entries options session reboot
