-- ===== src/HeaplessPayload/Agree.antt =====
-- The payload of fixed capacity agrees with the payload on the heap.
use simple_someip.Prelude.{
  ℕ, suc, ◌+◌, ◌≤◌, ◌<◌, ◌≡◌, refl, sym, ap, ◌∙◌, arith, List, [], ◌∷◌, ◌++◌, length, ltb, leb,
  length-append, append_assoc, append-nil, if◌then◌else◌, ◌&&◌, ◌==◌, Bool, true, Result, ok, err,
  >>=-eq-ok, Bool-cases, inl, inr, ltb→lt, le→leb, lt→leb,
}
use simple_someip.Protocol.Error.{Error, io}
use simple_someip.Protocol.MessageId.{MessageId, sd_message_id}
use simple_someip.Sd.Entry.{Entry}
use simple_someip.Sd.Entry.View as EntryView
use simple_someip.Sd.Options.{Options}
use simple_someip.Sd.Options.View as OptionView
use simple_someip.Sd.Header as SdHeader
use simple_someip.Payload.{RawPayload, RawPayloadKind, own_all, own_entry, own_option}
use simple_someip.Payload as Payload
use simple_someip.HeaplessPayload.{
  HeaplessPayload, HeaplessPayloadKind, sd_kind, raw, push, push_all, sd_payload, raw_payload,
  extend_from_slice, from_payload_bytes, entry_cap, opt_cap, payload_cap,
}

-- A payload on the heap as one of fixed capacity, and whether it has room.
abbrev pub kind_of : RawPayloadKind → HeaplessPayloadKind
kind_of (Payload.sd_kind h) =
    sd_kind (record { flags = h.flags; entries = h.entries; options = h.options })
kind_of (Payload.raw bytes) = raw bytes

abbrev pub heapless_of : RawPayload → HeaplessPayload
heapless_of p = record { message_id = p.message_id; kind = kind_of p.kind }

abbrev pub kind_fits : RawPayloadKind → Bool
kind_fits (Payload.sd_kind h) = leb (length h.entries) entry_cap && leb (length h.options) opt_cap
kind_fits (Payload.raw bytes) = leb (length bytes) payload_cap

module _ (oom : ℕ) where
  -- Pushing what the views own succeeds when it fits, with the same list.
  push_all-own_all {ℓ κ} :
      {V : Type ℓ} {A : Type κ} (cap : ℕ) (own : V → Result Error A) (done : List A) (vs : List V)
      → (all : List A) → length done ≤ cap
      → own_all own vs ≡ ok all
      → push_all oom cap own done vs
        ≡ (if leb (length done + length all) cap then ok (done ++ all) else err (io oom))
  unfolding push_all own_all push
  push_all-own_all cap own done [] all h p =
      let none_left : all ≡ [] = cc p in
      rw (none_left, le→leb (length done + 0) cap (omega arith), append-nil done) refl
  push_all-own_all cap own done (v ∷ vs) all h p =
      let (a, first, tail) = >>=-eq-ok (own v) _ p in
      let (owned, rest, last) = >>=-eq-ok (own_all own vs) _ tail in
      let split : all ≡ a ∷ owned = cc last in
      let longer = length-append done (a ∷ []) in
      elim (Bool-cases (ltb (length done) cap)) [
        | inl room ↦
            let small = ltb→lt (length done) cap room in
            let ih = push_all-own_all cap own (done ++ (a ∷ [])) vs owned (omega arith) rest in
            let sum : length (done ++ (a ∷ [])) + length owned ≡ length done + suc (length owned) =
              omega arith in
            rw (split, first, room, ih, sum, append_assoc done (a ∷ []) owned) refl
        | inr full ↦
            let over : cap < length done + suc (length owned) = ground arith in
            rw (split, first, full, lt→leb (length done + suc (length owned)) cap over) refl
      ]

  -- Pushing succeeds only with what the views own, within the capacity.
  push_all-ok {ℓ κ} :
      {V : Type ℓ} {A : Type κ} (cap : ℕ) (own : V → Result Error A) (done : List A) (vs : List V)
      → (out : List A) → length done ≤ cap
      → push_all oom cap own done vs ≡ ok out
      → (all : List A) × (own_all own vs ≡ ok all) × (out ≡ done ++ all) × (length out ≤ cap)
  unfolding push_all own_all push
  push_all-ok cap own done [] out h p =
      let same : out ≡ done = cc p in ([], refl, rw same (sym (append-nil done)), rw same h)
  push_all-ok cap own done (v ∷ vs) out h p =
      let (a, first, tail) = >>=-eq-ok (own v) _ p in
      let (longer, pushed, rest) = >>=-eq-ok (push oom cap done a) _ tail in
      elim (Bool-cases (ltb (length done) cap)) [
        | inl room ↦
            let same : longer ≡ done ++ (a ∷ []) = cc (room, pushed) in
            let small : length longer ≤ cap =
              omega (
                arith,
                ap length same,
                length-append done (a ∷ []),
                ltb→lt (length done) cap room,
              ) in
            let (owned, all_eq, out_eq, fits) = push_all-ok cap own longer vs out small rest in
            (
              a ∷ owned,
              rw (first, all_eq) refl,
              out_eq ∙ (rw same (append_assoc done (a ∷ []) owned)),
              fits,
            )
        | inr full ↦ absurd (cc (full, pushed))
      ]

  push_all-empty {ℓ κ} :
      {V : Type ℓ} {A : Type κ} (cap : ℕ) (own : V → Result Error A) (vs : List V) (all : List A)
      → own_all own vs ≡ ok all
      → push_all oom cap own [] vs ≡ (if leb (length all) cap then ok all else err (io oom))
  push_all-empty cap own vs all p =
      let whole = push_all-own_all cap own [] vs all (omega arith) p in
      let sum : 0 + length all ≡ length all = omega arith in rw sum at whole

  sd_payload-parts :
      (id : MessageId) (bytes : List ℕ) (view : SdHeader.SdHeaderView) (es : List Entry)
      → (os : List Options) → SdHeader.parse bytes ≡ ok view
      → own_all own_entry (EntryView.iterate view.entries_buf) ≡ ok es
      → own_all own_option (OptionView.iterate view.options_buf) ≡ ok os
      → sd_payload oom id bytes ≡ (
          if leb (length es) entry_cap && leb (length os) opt_cap
          then ok (record {
            message_id = id;
            kind = sd_kind (record { flags = view.flags; entries = es; options = os });
          })
          else err (io oom))
  unfolding sd_payload
  sd_payload-parts id bytes view es os parsed p q =
      let e = push_all-empty entry_cap own_entry (EntryView.iterate view.entries_buf) es p in
      let o = push_all-empty opt_cap own_option (OptionView.iterate view.options_buf) os q in
      elim (Bool-cases (leb (length es) entry_cap)) [
        | inl few ↦ elim (Bool-cases (leb (length os) opt_cap)) [
          | inl room ↦ rw (parsed, e, few, o, room) refl
          | inr full ↦ rw (parsed, e, few, o, full) refl
        ]
        | inr many ↦ rw (parsed, e, many) refl
      ]

  sd_payload-own :
      (id : MessageId) (bytes : List ℕ) (p : RawPayload)
      → Payload.sd_payload id bytes ≡ ok p
      → sd_payload oom id bytes ≡ (if kind_fits p.kind then ok (heapless_of p) else err (io oom))
  unfolding Payload.sd_payload Payload.own_entries Payload.own_options
  sd_payload-own id bytes p h =
      let (view, parsed, a) = >>=-eq-ok (SdHeader.parse bytes) _ h in
      let (es, es_eq, b) = >>=-eq-ok (own_all own_entry (EntryView.iterate view.entries_buf)) _ a in
      let (os, os_eq, c) =
        >>=-eq-ok (own_all own_option (OptionView.iterate view.options_buf)) _ b in
      let same : p ≡ record {
        message_id = id;
        kind = Payload.sd_kind (record { flags = view.flags; entries = es; options = os });
      } =
        cc c in
      sd_payload-parts id bytes view es os parsed es_eq os_eq
      ∙ ap (λ (x : RawPayload). if kind_fits x.kind then ok (heapless_of x) else err (io oom))
          (sym same)

  raw_payload-own :
      (id : MessageId) (bytes : List ℕ)
      → raw_payload oom id bytes ≡ (
          if leb (length bytes) payload_cap
          then ok (record { message_id = id; kind = raw bytes })
          else err (io oom))
  unfolding raw_payload extend_from_slice
  raw_payload-own id bytes = ground arith

  -- When the payload on the heap is read from some bytes, the payload of fixed capacity is the
  -- same one if its entries, its options or its bytes fit the capacity; otherwise the error is that
  -- there is no memory.
  pub from_payload_bytes-own :
      (id : MessageId) (bytes : List ℕ) (p : RawPayload)
      → Payload.from_payload_bytes id bytes ≡ ok p
      → from_payload_bytes oom id bytes
        ≡ (if kind_fits p.kind then ok (heapless_of p) else err (io oom))
  unfolding from_payload_bytes Payload.from_payload_bytes
  from_payload_bytes-own id bytes p h = elim (Bool-cases (id.raw == sd_message_id.raw)) [
    | inl sd_id ↦ rw sd_id (sd_payload-own id bytes p (rw sd_id at h))
    | inr other ↦
        let same : p ≡ record { message_id = id; kind = Payload.raw bytes } = cc (other, h) in
        rw (other, same) (raw_payload-own id bytes)
  ]

  -- The payload on the heap that a payload of fixed capacity stands for.
  abbrev pub Stands : Result Error RawPayload → HeaplessPayload → Type 0
  Stands r q = (p : RawPayload) × (r ≡ ok p) × (heapless_of p ≡ q) × (kind_fits p.kind ≡ true)

  sd_payload-Stands :
      (id : MessageId) (bytes : List ℕ) (q : HeaplessPayload)
      → sd_payload oom id bytes ≡ ok q
      → Stands (Payload.sd_payload id bytes) q
  unfolding sd_payload Payload.sd_payload Payload.own_entries Payload.own_options
  sd_payload-Stands id bytes q h =
      let (view, parsed, a) = >>=-eq-ok (SdHeader.parse bytes) _ h in
      let ev = EntryView.iterate view.entries_buf in
      let ov = OptionView.iterate view.options_buf in
      let (es, pushed_e, b) = >>=-eq-ok (push_all oom entry_cap own_entry [] ev) _ a in
      let (os, pushed_o, c) = >>=-eq-ok (push_all oom opt_cap own_option [] ov) _ b in
      let (es₀, es_eq, e, few) = push_all-ok entry_cap own_entry [] ev es (omega arith) pushed_e in
      let (os₀, os_eq, o, room) = push_all-ok opt_cap own_option [] ov os (omega arith) pushed_o in
      (
        record {
          message_id = id;
          kind = Payload.sd_kind (record { flags = view.flags; entries = es; options = os });
        },
        rw (parsed, es_eq, sym e, os_eq, sym o) refl,
        cc c,
        rw (le→leb (length es) entry_cap few, le→leb (length os) opt_cap room) refl,
      )

  -- When the payload of fixed capacity is read from some bytes, the payload on the heap is the same
  -- one, and it fits the capacity.
  pub from_payload_bytes-Stands :
      (id : MessageId) (bytes : List ℕ) (q : HeaplessPayload)
      → from_payload_bytes oom id bytes ≡ ok q
      → Stands (Payload.from_payload_bytes id bytes) q
  unfolding from_payload_bytes Payload.from_payload_bytes
  from_payload_bytes-Stands id bytes q h = elim (Bool-cases (id.raw == sd_message_id.raw)) [
    | inl sd_id ↦ rw sd_id (sd_payload-Stands id bytes q (rw sd_id at h))
    | inr other ↦
        let read : raw_payload oom id bytes ≡ ok q = rw other at h in
        let whole = raw_payload-own id bytes in
        elim (Bool-cases (leb (length bytes) payload_cap)) [
          | inl fits ↦ (
            record { message_id = id; kind = Payload.raw bytes },
            rw other refl,
            cc (whole, fits, read),
            fits,
          )
          | inr full ↦ absurd (cc (whole, full, read))
        ]
  ]
