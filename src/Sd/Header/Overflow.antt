-- ===== src/Sd/Header/Overflow.antt =====
-- When `SdHeaderView::parse` returns, and on which buffers the size of the options overflows
-- `usize`.
use simple_someip.Prelude.{
  ℕ, suc, ◌+◌, ◌-◌, ◌%◌, ◌==◌, ◌<◌, ◌≤◌, ◌↔◌, ◌≡◌, ◌≢◌, inl, inr, refl, sym, ◌∙◌, arith, Bool-cases,
  List, length, drop, take, le→ltb, ltb, ok, panic, ◌>>◌, Result-cases,
}
use simple_someip.Bytes.{byte_at}
use simple_someip.Bytes.Facts.{index-ok, slice-ok, length-slice}
use simple_someip.Protocol.Error.{Error}
use simple_someip.Sd.Flags.{Flags, from_u8}
use simple_someip.Sd.Header.{
  check_entries, usize_max_32, usize_max_64, parse_options, parse_on, parse,
}
use simple_someip.Sd.Header.Total.{
  check_options-whole, check_entries-ne-panic, size_at-ok, usize_add-ok, usize_add-panic, field_at,
}

parse_options-ne-panic :
    (usize_max : ℕ) (buf : List ℕ) (flags : Flags) (entries_buf : List ℕ) (at : ℕ)
    → at + 4 ≤ length buf
    → at + 4 + field_at buf at ≤ usize_max
    → parse_options usize_max buf flags entries_buf at ≢ panic
unfolding parse_options
parse_options-ne-panic usize_max buf flags entries_buf at h fits p =
    let size = field_at buf at in
    ground (
      arith,
      size_at-ok buf at,
      usize_add-ok usize_max at 4 (omega arith),
      usize_add-ok usize_max (at + 4) size fits,
      slice-ok {E = Error} buf (at + 4) (at + 4 + size),
      length-slice buf (at + 4) (at + 4 + size),
      check_options-whole (take (at + 4 + size - (at + 4)) (drop (at + 4) buf)) size,
    )

parse_options-overflow :
    (usize_max : ℕ) (buf : List ℕ) (flags : Flags) (entries_buf : List ℕ) (at : ℕ)
    → at + 4 ≤ length buf
    → at + 4 ≤ usize_max
    → usize_max < at + 4 + field_at buf at
    → parse_options usize_max buf flags entries_buf at ≡ panic
unfolding parse_options
parse_options-overflow usize_max buf flags entries_buf at h fits over =
    rw
      (
        size_at-ok buf at (omega arith),
        usize_add-ok usize_max at 4 fits,
        usize_add-panic usize_max (at + 4) (field_at buf at) over,
      )
      refl

-- The entries of a buffer are whole and each has a type that is known, and the size of the options
-- leads beyond `usize`.
pub record Overflows (usize_max : ℕ) (buf : List ℕ) : Type 0 where
  pub entries_whole : field_at buf 4 % 16 ≡ 0
  pub entries_inside : 12 + field_at buf 4 ≤ length buf
  pub entries_typed :
      check_entries
        (suc (field_at buf 4))
        (take (8 + field_at buf 4 - 8) (drop 8 buf))
        (field_at buf 4)
        0
      ≡ ok tt
  pub options_beyond : usize_max < 12 + field_at buf 4 + field_at buf (8 + field_at buf 4)

module _ (usize_max : ℕ) (buf : List ℕ) (wide : usize_max_32 ≤ usize_max) where
  abbrev size : ℕ
  size = field_at buf 4

  abbrev parsed_entries : List ℕ
  parsed_entries = take (8 + size - 8) (drop 8 buf)

  -- The sums over the entries fit, since a multiple of 16 leaves room for the 12 bytes around it.
  entries_fit : size % 16 ≡ 0 → 8 + size + 4 ≤ usize_max
  entries_fit h = omega (arith, h)

  panic-long : parse_on usize_max buf ≡ panic → 12 ≤ length buf
  unfolding parse_on
  panic-long p = elim (Bool-cases (ltb (length buf) 12)) [
    | inl short ↦ absurd (ground arith)
    | inr long ↦ ground arith
  ]

  panic-whole : 12 ≤ length buf → parse_on usize_max buf ≡ panic → size % 16 ≡ 0
  unfolding parse_on
  panic-whole long p = elim (Bool-cases (size % 16 == 0)) [
    | inl whole ↦ ground arith
    | inr part ↦ absurd (ground (arith, index-ok {E = Error} buf 0, size_at-ok buf 4))
  ]

  panic-inside :
      12 ≤ length buf → size % 16 ≡ 0 → parse_on usize_max buf ≡ panic → 8 + size + 4 ≤ length buf
  unfolding parse_on
  panic-inside long whole p = elim (Bool-cases (ltb (length buf) (8 + size + 4))) [
    | inl short ↦ absurd (
        ground (
          arith,
          index-ok {E = Error} buf 0,
          size_at-ok buf 4,
          usize_add-ok usize_max 8 size,
          usize_add-ok usize_max (8 + size) 4,
          entries_fit whole,
        ))
    | inr room ↦ ground arith
  ]

  -- Behind the guards: the entries and then the options.
  guarded :
      12 ≤ length buf
      → size % 16 ≡ 0
      → 8 + size + 4 ≤ length buf
      → parse_on usize_max buf ≡ (
          check_entries (suc size) parsed_entries size 0
          >> parse_options usize_max buf (from_u8 (byte_at buf 0)) parsed_entries (8 + size))
  unfolding parse_on
  guarded long whole room =
      rw
        (
          le→ltb (length buf) 12 long,
          index-ok {E = Error} buf 0 (omega (arith, long)),
          size_at-ok buf 4 (omega (arith, long)),
          whole,
          usize_add-ok usize_max 8 size (omega (arith, entries_fit whole)),
          usize_add-ok usize_max (8 + size) 4 (entries_fit whole),
          le→ltb (length buf) (8 + size + 4) room,
          slice-ok {E = Error} buf 8 (8 + size) (omega arith) (omega (arith, room)),
        )
        refl

  pub Overflows-panic : Overflows usize_max buf → parse_on usize_max buf ≡ panic
  Overflows-panic o =
      guarded (omega (arith, o.entries_inside)) o.entries_whole (omega (arith, o.entries_inside))
      ∙ rw o.entries_typed (
          parse_options-overflow usize_max buf (from_u8 (byte_at buf 0)) parsed_entries (8 + size)
            (omega (arith, o.entries_inside)) (omega (arith, entries_fit o.entries_whole))
            (omega (arith, o.options_beyond)))

  panic-Overflows : parse_on usize_max buf ≡ panic → Overflows usize_max buf
  panic-Overflows p =
      let long = panic-long p in
      let whole = panic-whole long p in
      let room = panic-inside long whole p in
      let q = sym (guarded long whole room) ∙ p in
      elim (Result-cases (check_entries (suc size) parsed_entries size 0)) [
        | inl (done, e) ↦ elim (Bool-cases (ltb usize_max (12 + size + field_at buf (8 + size)))) [
          | inl over ↦ record {
            entries_whole = whole;
            entries_inside = omega (arith, room);
            entries_typed = e;
            options_beyond = ground arith;
          }
          | inr fits ↦ absurd (
              parse_options-ne-panic usize_max buf (from_u8 (byte_at buf 0)) parsed_entries
                (8 + size) (omega (arith, room)) (ground arith) (rw e at q))
        ]
        | inr (inl (x, e)) ↦ absurd (cc (rw e at q))
        | inr (inr e) ↦ absurd (
            check_entries-ne-panic (suc size) parsed_entries size 0 (omega arith)
              (omega (arith, length-slice buf 8 (8 + size), room)) e)
      ]

  -- On a target whose `usize` has at least 32 bits and in a build that checks sums, parsing a
  -- service discovery header panics exactly on the buffers whose entries are whole and of known
  -- types and whose options size leads beyond `usize`; on every other buffer it returns a view or
  -- an error: every index and slice is in bounds, and both loops end by their own tests.
  pub parse_on-panic_iff : (parse_on usize_max buf ≡ panic) ↔ Overflows usize_max buf
  parse_on-panic_iff = (panic-Overflows, Overflows-panic)

-- With 64 bits no size leads beyond.
pub parse-ne-panic : (buf : List ℕ) → parse buf ≢ panic
unfolding parse
parse-ne-panic buf p =
    let o = panic-Overflows usize_max_64 buf (omega arith) p in omega (arith, o.options_beyond)
