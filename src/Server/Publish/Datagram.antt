-- ===== src/Server/Publish/Datagram.antt =====
-- The datagram of an event: what `publish_event_with_buffers` hands to the socket.
use simple_someip.Prelude.{
  ℕ, ◌+◌, ◌-◌, ◌%◌, ◌≤◌, ◌≡◌, refl, sym, ap, ◌∙◌, arith, List, ◌++◌, length, length-append,
  length-drop, length-take, take, drop, take-append_length, drop-append_length, append_assoc,
  le→ltb, le→leb, true, false, some, ok,
}
use simple_someip.Prelude.Eq.{Eq}
use simple_someip.Maps.{IndexMap}
use simple_someip.Bytes.{to_be32, slice}
use simple_someip.Bytes.Copy.{copy_at, copy_at-append}
use simple_someip.Bytes.Facts.{slice-ok, slice-take}
use simple_someip.Bytes.Slice.{SliceWriter, encode_to_slice, encode_to_slice-fits}
use simple_someip.Protocol.Header as Header
use simple_someip.Protocol.Header.{upper_header_bytes}
use simple_someip.Protocol.Header.Encode.{header_bytes, length-header_bytes}
use simple_someip.Protocol.Message.Encode as Message
use simple_someip.Protocol.Message.Encode.{message_bytes, encode-message_bytes}
use simple_someip.Traits.{PayloadWireFormat}
use simple_someip.E2e.Profile.{E2eKey, E2eProfile, E2eState, Crcs, from_message_id}
use simple_someip.E2e.Registry.{
  E2eRegistry, RxKey, registry_cap, rx_state_cap, contains_key, protect,
}
use simple_someip.Server.Error.{ServerError}
use simple_someip.Server.Publish.{
  replace_payload, protected_datagram, protect_written, finish_datagram, event_datagram,
}

-- A slice behind a front, and a slice of the front.
slice_front :
    (xs ys : List ℕ) (n : ℕ) → n ≡ length xs → slice {E = ServerError} (xs ++ ys) 0 n ≡ ok xs
slice_front xs ys n e =
    slice-ok {E = ServerError} (xs ++ ys) 0 n (omega arith) (omega (arith, length-append xs ys))
    ∙ ap (λ (bs : List ℕ). ok bs) (take-append_length xs ys (n - 0) (omega arith))

slice_behind :
    (xs ys zs : List ℕ) (lo hi : ℕ)
    → lo ≡ length xs
    → hi ≡ lo + length ys
    → slice {E = ServerError} ((xs ++ ys) ++ zs) lo hi ≡ ok ys
slice_behind xs ys zs lo hi p q =
    slice-ok {E = ServerError} ((xs ++ ys) ++ zs) lo hi (omega arith)
      (omega (arith, length-append (xs ++ ys) zs, length-append xs ys))
    ∙ rw
        (
          append_assoc xs ys zs,
          drop-append_length xs (ys ++ zs) lo p,
          take-append_length ys zs (hi - lo) (omega arith),
        )
        refl

-- The length field of a header can be written over.
length_patched :
    (h : Header.Header) (rest : List ℕ) (n : ℕ)
    → copy_at {E = ServerError} (header_bytes h ++ rest) 4 8 (to_be32 n)
      ≡ ok (header_bytes (record h { length_field = n }) ++ rest)
unfolding copy_at header_bytes to_be32
length_patched h rest n = rw (le→ltb (length (header_bytes h ++ rest)) 8 (omega arith)) refl

upper_header_slice :
    (h : Header.Header) (rest : List ℕ)
    → slice {E = ServerError} (header_bytes h ++ rest) 8 16 ≡ ok (upper_header_bytes h)
unfolding slice header_bytes to_be32 upper_header_bytes
upper_header_slice h rest = rw (le→ltb (length (header_bytes h ++ rest)) 16 (omega arith)) refl

module _ (sw : SliceWriter) (format : PayloadWireFormat sw.wr) {Ip : Type 0} (ip : Eq Ip)
    (ke : Eq E2eKey) (re : Eq (RxKey Ip)) (profiles : IndexMap E2eKey E2eProfile ke registry_cap)
    (senders : IndexMap E2eKey E2eState ke registry_cap)
    (receivers : IndexMap (RxKey Ip) E2eState re rx_state_cap) (crcs : Crcs) where
  open sw use {wr}

  -- A frame behind a header, with the length field that counts it.
  replace_payload-eq :
      (h : Header.Header) (body out : List ℕ) (k : ℕ)
      → k ≤ length body
      → k ≤ length out
      → k ≤ Header.max_payload
      → replace_payload sw format ip ke re profiles senders receivers crcs
          (header_bytes h ++ body)
          k
          out
        ≡ ok (header_bytes (record h { length_field = 8 + k }) ++ take k out)
  unfolding replace_payload
  replace_payload-eq h body out k room whole small =
      let next : Header.Header = record h { length_field = 8 + k } in
      let sixteen = length-header_bytes next in
      let size : length (header_bytes h ++ body) ≡ 16 + length body =
        omega (arith, length-append (header_bytes h) body, length-header_bytes h) in
      let plain : k % 4294967296 ≡ k = omega arith in
      let frame : slice {E = ServerError} out 0 k ≡ ok (take k out) =
        slice-take {E = ServerError} out k whole in
      let long : length (take k out) ≡ k = omega (arith, length-take k out) in
      let back : drop 16 (header_bytes next ++ body) ≡ body =
        drop-append_length (header_bytes next) body 16 (sym sixteen) in
      let copied =
        copy_at-append {E = ServerError} (header_bytes next ++ body) (header_bytes next)
          (take k out) 16 (16 + k) (sym sixteen) (omega arith)
          (omega (arith, length-append (header_bytes next) body)) in
      let placed = rw back at copied in
      rw
        (
          le→ltb (length (header_bytes h ++ body)) (16 + k) (omega arith),
          plain,
          le→leb (8 + k) 4294967295 (omega arith),
          length_patched h body (8 + k),
          frame,
          placed,
        )
        (slice_front (header_bytes next ++ take k out) _ (16 + k)
          (omega (arith, length-append (header_bytes next) (take k out))))

  module _ (reg : E2eRegistry ip ke re profiles senders receivers) (m : Message.Message format.P)
      (msg_buf protected_buf : List ℕ) (v : format.InRange m.payload)
      (room : Message.required_size wr format m ≤ length msg_buf) where
    abbrev n : ℕ
    n = Message.required_size wr format m

    abbrev payload : List ℕ
    payload = format.payload_bytes m.payload

    abbrev key : E2eKey
    key = from_message_id m.header.message_id

    size : n ≡ 16 + length payload
    unfolding message_bytes
    size =
        (encode-message_bytes wr format m v).1
        ∙ omega (arith, length-append (header_bytes m.header) payload, length-header_bytes m.header)

    written :
        encode_to_slice sw (Message.encode wr format m) msg_buf
        ≡ ok (n, (header_bytes m.header ++ payload) ++ drop n msg_buf)
    unfolding message_bytes
    written =
        let (writes, total) = encode-message_bytes wr format m v in
        let whole : length (message_bytes wr format m) ≡ n = sym total in
        let done =
          encode_to_slice-fits sw (Message.encode wr format m) (message_bytes wr format m) msg_buf
            writes (omega arith) in
        rw whole at done

    -- A message whose key has no profile is sent as its wire format, and the registry is as it was.
    pub event_datagram-plain :
        contains_key ip ke re profiles senders receivers reg key ≡ false
        → event_datagram sw format ip ke re profiles senders receivers crcs reg m msg_buf
            protected_buf
          ≡ (ok (header_bytes m.header ++ payload), reg)
    unfolding event_datagram finish_datagram
    event_datagram-plain absent =
        let whole : length (header_bytes m.header ++ payload) ≡ n = omega (
          arith,
          size,
          length-append (header_bytes m.header) payload,
          length-header_bytes m.header,
        ) in
        rw
          (
            le→ltb (length msg_buf) n room,
            written,
            absent,
            slice_front (header_bytes m.header ++ payload) (drop n msg_buf) n (sym whole),
          )
          refl

    -- A message whose key has a profile and a state, with what `protect` makes of its payload.
    pub event_datagram-protected :
        (k : ℕ) (next : E2eRegistry ip ke re profiles senders receivers) (out : List ℕ)
        → contains_key ip ke re profiles senders receivers reg key ≡ true
        → protect ip ke re profiles senders receivers crcs reg key payload
            (upper_header_bytes m.header)
            protected_buf
          ≡ some (ok (k, next, out))
        → 16 + k ≤ length msg_buf
        → k ≤ length out
        → k ≤ Header.max_payload
        → event_datagram sw format ip ke re profiles senders receivers crcs reg m msg_buf
            protected_buf
          ≡ (ok (header_bytes (record m.header { length_field = 8 + k }) ++ take k out), next)
    unfolding event_datagram finish_datagram protect_written protected_datagram
    event_datagram-protected k next out present protects fits whole small =
        let h = m.header in
        let sixteen = length-header_bytes h in
        let upper : slice {E = ServerError} ((header_bytes h ++ payload) ++ drop n msg_buf) 8 16
            ≡ ok (upper_header_bytes h) =
          rw (append_assoc (header_bytes h) payload (drop n msg_buf))
            (upper_header_slice h (payload ++ drop n msg_buf)) in
        let body = slice_behind (header_bytes h) payload (drop n msg_buf) 16 n (sym sixteen) size in
        let replaced =
          replace_payload-eq h (payload ++ drop n msg_buf) out k
            (omega (arith, size, length-append payload (drop n msg_buf), length-drop n msg_buf))
            whole small in
        rw
          (
            le→ltb (length msg_buf) n room,
            written,
            present,
            upper,
            body,
            protects,
            append_assoc (header_bytes h) payload (drop n msg_buf),
            replaced,
          )
          refl
