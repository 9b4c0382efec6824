-- ===== src/Sd/Header/Views.antt =====
-- What the iterators of src/protocol/sd find in a header that `SdHeaderView::parse` accepts.
use simple_someip.Prelude.{
  ℕ, zero, suc, ◌+◌, ◌-◌, ◌<◌, ◌≤◌, ◌≡◌, refl, sym, ap, arith, inl, inr, Bool-cases, List, [], ◌∷◌,
  All, length, length-drop, take, drop, drop-drop, ltb, ok, Result-cases,
}
use simple_someip.Bytes.{IsBytes, byte_at}
use simple_someip.Bytes.Facts.{
  index-ok, slice-ok, slice_from-ok, length-slice, byte_at-take, take-IsBytes, drop-IsBytes,
}
use simple_someip.Protocol.Error.{Error}
use simple_someip.Sd.Flags.{Flags, from_u8}
use simple_someip.Sd.Header.Total.{size_at-ok, usize_add-ok, field_at}
use simple_someip.Sd.Entry.{EntryType, type_try_from}
use simple_someip.Sd.Entry.View as EntryView
use simple_someip.Sd.Entry.View.{EntryView, entry_type}
use simple_someip.Sd.Options.View as OptionView
use simple_someip.Sd.Options.View.{OptionView}
use simple_someip.Sd.Options.Validate.{validate_option, Validated, validated, field}
use simple_someip.Sd.Header.{
  SdHeaderView, parse, parse_on, parse_options, usize_add, usize_max_64, check_entries,
  check_options,
}

-- A view of an entry whose type is known, and whose bytes are bytes.
abbrev pub IsTyped : EntryView → Type 0
IsTyped v = ((t : EntryType) × (entry_type v ≡ ok t)) × IsBytes v.bytes

-- A view of an option that was validated.
abbrev pub IsValid : OptionView → Type 0
IsValid v = (buf : List ℕ) × (n : ℕ) × (v ≡ record { bytes = take n buf }) × Validated buf n

byte_at-drop : (n : ℕ) (bs : List ℕ) → byte_at (drop n bs) 0 ≡ byte_at bs n
byte_at-drop zero bs = refl
byte_at-drop (suc n) [] = refl
byte_at-drop (suc n) (b ∷ bs) = byte_at-drop n bs

check_entries-step :
    (fuel : ℕ) (buf : List ℕ) (offset : ℕ)
    → offset < length buf
    → check_entries (suc fuel) buf (length buf) offset ≡ ok tt
    → ((t : EntryType) × (type_try_from (byte_at buf offset) ≡ ok t))
      × (check_entries fuel buf (length buf) (offset + 16) ≡ ok tt)
unfolding check_entries
check_entries-step fuel buf offset inside h =
    elim (Result-cases (type_try_from (byte_at buf offset))) [
      | inl found ↦ (found, ground (arith, index-ok {E = Error} buf offset inside, found.1))
      | inr (inl (x, e)) ↦ absurd (ground (arith, index-ok {E = Error} buf offset inside, e))
      | inr (inr e) ↦ absurd (ground (arith, index-ok {E = Error} buf offset inside, e))
    ]

views-IsTyped :
    (rounds fuel : ℕ) (buf : List ℕ) (offset : ℕ)
    → IsBytes buf
    → check_entries rounds buf (length buf) offset ≡ ok tt
    → All IsTyped (EntryView.views fuel (drop offset buf))
unfolding EntryView.views EntryView.next
views-IsTyped rounds zero buf offset b h = tt
views-IsTyped zero (suc fuel) buf offset b h = absurd (unfold check_entries in cc h)
views-IsTyped (suc rounds) (suc fuel) buf offset b h =
    let front = drop offset buf in
    elim (Bool-cases (ltb (length front) 16)) [
      | inl short ↦ rw (short, All) tt
      | inr long ↦
          let inside : offset < length buf = ground (arith, length-drop offset buf) in
          let ((t, found), more) = check_entries-step rounds buf offset inside h in
          let typed : entry_type (record { bytes = take 16 front }) ≡ ok t =
            unfold entry_type in
            rw (byte_at-take 16 front 0 (omega arith), byte_at-drop offset buf) found in
          rw (long, All)
            (
              ((t, typed), take-IsBytes 16 front (drop-IsBytes offset buf b)),
              rw (drop-drop 16 offset buf) (views-IsTyped rounds fuel buf (offset + 16) b more),
            )
    ]

check_options-step :
    (fuel : ℕ) (buf : List ℕ) (offset : ℕ)
    → offset < length buf
    → check_options (suc fuel) buf (length buf) offset ≡ ok tt
    → (n : ℕ) × (validate_option (drop offset buf) ≡ ok n)
      × (check_options fuel buf (length buf) (offset + n) ≡ ok tt)
unfolding check_options
check_options-step fuel buf offset inside h =
    elim (Result-cases (validate_option (drop offset buf))) [
      | inl (n, e) ↦ (n, e, ground (arith, slice_from-ok {E = Error} buf offset, e))
      | inr (inl (x, e)) ↦ absurd (ground (arith, slice_from-ok {E = Error} buf offset, e))
      | inr (inr e) ↦ absurd (ground (arith, slice_from-ok {E = Error} buf offset, e))
    ]

views-IsValid :
    (rounds fuel : ℕ) (buf : List ℕ) (offset : ℕ)
    → check_options rounds buf (length buf) offset ≡ ok tt
    → All IsValid (OptionView.views fuel (drop offset buf))
unfolding OptionView.views OptionView.next
views-IsValid rounds zero buf offset h = tt
views-IsValid zero (suc fuel) buf offset h = absurd (unfold check_options in cc h)
views-IsValid (suc rounds) (suc fuel) buf offset h =
    let front = drop offset buf in
    elim (Bool-cases (ltb (length front) 4)) [
      | inl short ↦ rw (short, All) tt
      | inr long ↦ elim (Bool-cases (ltb (length front) (field front + 3))) [
        | inl short ↦ rw (long, short, All) tt
        | inr whole ↦
            let inside : offset < length buf = ground (arith, length-drop offset buf) in
            let (n, valid, more) = check_options-step rounds buf offset inside h in
            let v = validated front n valid in
            let size : field front + 3 ≡ n = sym v.size_field in
            rw (long, whole, All)
              (
                (front, n, ap (λ (k : ℕ). record { bytes = take k front }) size, v),
                rw (size, drop-drop n offset buf) (views-IsValid rounds fuel buf (offset + n) more),
              )
      ]
    ]

module _ (buf : List ℕ) (flags : Flags) (entries_buf : List ℕ) (at : ℕ) (view : SdHeaderView)
    (long : at + 4 ≤ length buf) (h : parse_options usize_max_64 buf flags entries_buf at ≡ ok view)
    (low : at < 8589934592) where
  abbrev size : ℕ
  size = field_at buf at

  abbrev sums :
      (usize_add usize_max_64 at 4 ≡ ok (at + 4))
      × (usize_add usize_max_64 (at + 4) size ≡ ok (at + 4 + size))
  sums = (
    usize_add-ok usize_max_64 at 4 (omega arith),
    usize_add-ok usize_max_64 (at + 4) size (omega arith),
  )

  abbrev options_buf : List ℕ
  options_buf = take (at + 4 + size - (at + 4)) (drop (at + 4) buf)

  accepted_options :
      (at + 4 + size ≤ length buf)
      × (check_options (suc size) options_buf size 0 ≡ ok tt)
      × (view ≡ record { flags = flags; entries_buf = entries_buf; options_buf = options_buf })
  unfolding parse_options
  accepted_options = elim (Bool-cases (ltb (length buf) (at + 4 + size))) [
    | inl short ↦ absurd (ground (arith, size_at-ok buf at, sums))
    | inr room ↦
        let fits : at + 4 + size ≤ length buf = ground arith in
        elim (Result-cases (check_options (suc size) options_buf size 0)) [
          | inl (done, e) ↦ (
            fits,
            e,
            ground (
              arith,
              size_at-ok buf at,
              sums,
              slice-ok {E = Error} buf (at + 4) (at + 4 + size),
              e,
            ),
          )
          | inr (inl (x, e)) ↦ absurd (
              ground (
                arith,
                size_at-ok buf at,
                sums,
                slice-ok {E = Error} buf (at + 4) (at + 4 + size),
                e,
              ))
          | inr (inr e) ↦ absurd (
              ground (
                arith,
                size_at-ok buf at,
                sums,
                slice-ok {E = Error} buf (at + 4) (at + 4 + size),
                e,
              ))
        ]
  ]

  options_IsValid : All IsValid (OptionView.iterate view.options_buf)
  unfolding OptionView.iterate
  options_IsValid =
      let (fits, checked, same) = accepted_options in
      let whole : length options_buf ≡ size =
        omega (arith, length-slice buf (at + 4) (at + 4 + size)) in
      rw same (views-IsValid (suc size) (length options_buf) options_buf 0 (rw whole checked))

module _ (buf : List ℕ) (view : SdHeaderView) (h : parse buf ≡ ok view) where
  abbrev size_field : ℕ
  size_field = field_at buf 4

  abbrev entry_sums :
      (usize_add usize_max_64 8 size_field ≡ ok (8 + size_field))
      × (usize_add usize_max_64 (8 + size_field) 4 ≡ ok (8 + size_field + 4))
  entry_sums = (
    usize_add-ok usize_max_64 8 size_field (omega arith),
    usize_add-ok usize_max_64 (8 + size_field) 4 (omega arith),
  )

  abbrev parsed_entries : List ℕ
  parsed_entries = take (8 + size_field - 8) (drop 8 buf)

  parse-room : (12 ≤ length buf) × (8 + size_field + 4 ≤ length buf)
  unfolding parse parse_on
  parse-room = elim (Bool-cases (ltb (length buf) 12)) [
    | inl short ↦ absurd (ground arith)
    | inr long ↦ elim (Bool-cases (ltb (length buf) (8 + size_field + 4))) [
      | inl short ↦
          absurd (ground (arith, index-ok {E = Error} buf 0, size_at-ok buf 4, entry_sums))
      | inr room ↦ ground arith
    ]
  ]

  parse-parts :
      (check_entries (suc size_field) parsed_entries size_field 0 ≡ ok tt)
      × (parse_options usize_max_64 buf (from_u8 (byte_at buf 0)) parsed_entries (8 + size_field)
          ≡ ok view)
  unfolding parse parse_on
  parse-parts =
      let (twelve, room) = parse-room in
      elim (Result-cases (check_entries (suc size_field) parsed_entries size_field 0)) [
        | inl (done, e) ↦ ground (
          arith,
          index-ok {E = Error} buf 0,
          size_at-ok buf 4,
          entry_sums,
          slice-ok {E = Error} buf 8 (8 + size_field),
        )
        | inr (inl (x, e)) ↦ absurd (
            ground (
              arith,
              index-ok {E = Error} buf 0,
              size_at-ok buf 4,
              entry_sums,
              slice-ok {E = Error} buf 8 (8 + size_field),
            ))
        | inr (inr e) ↦ absurd (
            ground (
              arith,
              index-ok {E = Error} buf 0,
              size_at-ok buf 4,
              entry_sums,
              slice-ok {E = Error} buf 8 (8 + size_field),
            ))
      ]

  -- Every entry view that the iterator yields on an accepted header of bytes has a type that is
  -- known, and every option view is one that was validated.
  pub parse-Views :
      IsBytes buf
      → All IsTyped (EntryView.iterate view.entries_buf)
        × All IsValid (OptionView.iterate view.options_buf)
  unfolding EntryView.iterate
  parse-Views b =
      let (twelve, room) = parse-room in
      let (checked, rest) = parse-parts in
      let at = 8 + size_field in
      let flags = from_u8 (byte_at buf 0) in
      let same = (accepted_options buf flags parsed_entries at view room rest (omega arith)).2 in
      let whole : length parsed_entries ≡ size_field =
        omega (arith, length-slice buf 8 (8 + size_field)) in
      let bytes = take-IsBytes (8 + size_field - 8) (drop 8 buf) (drop-IsBytes 8 buf b) in
      (
        rw same (
            views-IsTyped (suc size_field) (length parsed_entries) parsed_entries 0 bytes
              (rw whole checked)),
        options_IsValid buf flags parsed_entries at view room rest (omega arith),
      )
