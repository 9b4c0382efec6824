-- ===== src/Sd/Header/RoundTrip.antt =====
-- A service discovery header read back from what was written.
use mathlib.Core.List.{append_assoc}
use simple_someip.Prelude.{
  ℕ, zero, suc, ◌+◌, ◌-◌, ◌*◌, ◌%◌, ◌<◌, ◌≤◌, ◌≡◌, refl, sym, ap, subst, ◌∙◌, arith, List, [], ◌∷◌,
  ◌++◌, map, length, length-append, take-append_length, drop-append_length, lt→ltb, le→ltb, ◌==◌,
  ==_iff, All, ok, true,
}
use simple_someip.Bytes.{IsU32, byte_at, index, slice, to_be32}
use simple_someip.Bytes.Facts.{index-ok, slice-ok, slice_from-ok, from_be32-to_be32, length-to_be32}
use simple_someip.Protocol.Error.{Error}
use simple_someip.Sd.Flags.{to_u8, from_u8-to_u8}
use simple_someip.Sd.Entry.{Entry, type_to_u8, type_try_from-type_to_u8, entry_type_of}
use simple_someip.Sd.Entry.Encode.{entry_bytes, length-entry_bytes}
use simple_someip.Sd.Entry.View
use simple_someip.Sd.Entry.RoundTrip.{
  entries_bytes, length-entries_bytes, iterate-entries_bytes, view_of,
}
use simple_someip.Sd.Options.{Options, IsOption}
use simple_someip.Sd.Options.Encode.{size, option_bytes, length-option_bytes}
use simple_someip.Sd.Options.View as OptionsView
use simple_someip.Sd.Options.RoundTrip.{
  size-bounds, validate_option-option_bytes, next-option_bytes, option_view,
}
use simple_someip.Sd.Header.{
  Header, SdHeaderView, check_entries, check_options, size_at, usize_max_64, parse_options,
  parse_on, parse,
}
use simple_someip.Sd.Header.Encode.{
  sd_bytes, options_bytes, options_size, IsSdHeader, length-options_bytes, length-sd_bytes,
  required_size,
}
use simple_someip.Sd.Header.Total.{size_at-ok, usize_add-ok}

-- Reading behind a known front.
byte_at-append : (xs ys : List ℕ) (k : ℕ) → byte_at (xs ++ ys) (length xs + k) ≡ byte_at ys k
byte_at-append [] ys k = ap (byte_at ys) (omega arith)
byte_at-append (x ∷ xs) ys k =
    let e : suc (length xs) + k ≡ suc (length xs + k) = omega arith in rw e (byte_at-append xs ys k)

byte_at-append_start : (xs ys : List ℕ) → byte_at (xs ++ ys) (length xs) ≡ byte_at ys 0
byte_at-append_start xs ys =
    ap (byte_at (xs ++ ys)) {x = length xs} {y = length xs + 0} (omega arith)
    ∙ byte_at-append xs ys 0

size_at-append :
    (xs ys : List ℕ) (at v : ℕ)
    → at ≡ length xs
    → IsU32 v
    → size_at (xs ++ (to_be32 v ++ ys)) at ≡ ok v
unfolding to_be32
size_at-append xs ys at v e h =
    let ws = to_be32 v ++ ys in
    rw
      (
        size_at-ok (xs ++ ws) at (omega (arith, length-append xs ws)),
        e,
        byte_at-append_start xs ws,
        byte_at-append xs ws 1,
        byte_at-append xs ws 2,
        byte_at-append xs ws 3,
      )
      (let small : v % 4294967296 ≡ v = omega (arith, h) in
        ap (λ (n : ℕ). ok (n % 4294967296)) (from_be32-to_be32 v h) ∙ ap ok small)

slice-append :
    (xs ys zs : List ℕ) (lo hi : ℕ)
    → lo ≡ length xs
    → hi ≡ lo + length ys
    → slice {E = Error} (xs ++ (ys ++ zs)) lo hi ≡ ok ys
slice-append xs ys zs lo hi e h =
    rw
      (
        slice-ok {E = Error} (xs ++ (ys ++ zs)) lo hi (omega arith)
            (omega (arith, length-append xs (ys ++ zs), length-append ys zs)),
        drop-append_length xs (ys ++ zs) lo e,
        take-append_length ys zs (hi - lo) (omega arith),
      )
      refl

first_byte :
    (x : Entry) (ys : List ℕ) → byte_at (entry_bytes x ++ ys) 0 ≡ type_to_u8 (entry_type_of x)
unfolding entry_bytes
first_byte x ys = refl

check_entries-ok :
    (fuel : ℕ) (pre : List ℕ) (es : List Entry) (n : ℕ)
    → length es < fuel
    → n ≡ length pre + 16 * length es
    → check_entries fuel (pre ++ entries_bytes es) n (length pre) ≡ ok tt
unfolding check_entries entries_bytes
check_entries-ok zero pre es n h e = elim h [ ]
check_entries-ok (suc fuel) pre [] n h e = rw (le→ltb (length pre) n (omega arith)) refl
check_entries-ok (suc fuel) pre (x ∷ es) n h e =
    let bs = entry_bytes x ++ entries_bytes es in
    let behind =
      check_entries-ok fuel (pre ++ entry_bytes x) es n (omega arith)
        (omega (arith, length-append pre (entry_bytes x), length-entry_bytes x)) in
    let step =
      rw (append_assoc, length-append pre (entry_bytes x), length-entry_bytes x) at behind in
    rw
      (
        lt→ltb (length pre) n (omega arith),
        index-ok {E = Error} (pre ++ bs) (length pre) (
            omega (
              arith,
              length-append pre bs,
              length-append (entry_bytes x) (entries_bytes es),
              length-entry_bytes x,
            )),
        byte_at-append_start pre bs,
        first_byte x (entries_bytes es),
        type_try_from-type_to_u8 (entry_type_of x),
      )
      step

size-pos : (o : Options) → IsOption o → 4 ≤ size o
size-pos o h = (size-bounds o h).0

check_options-ok :
    (fuel : ℕ) (pre : List ℕ) (os : List Options) (n : ℕ)
    → All IsOption os
    → length os < fuel
    → n ≡ length pre + options_size os
    → check_options fuel (pre ++ options_bytes os) n (length pre) ≡ ok tt
unfolding check_options options_bytes options_size
check_options-ok zero pre os n v h e = elim h [ ]
check_options-ok (suc fuel) pre [] n v h e = rw (le→ltb (length pre) n (omega arith)) refl
check_options-ok (suc fuel) pre (o ∷ os) n v h e =
    let bs = option_bytes o ++ options_bytes os in
    let behind =
      check_options-ok fuel (pre ++ option_bytes o) os n v.1 (omega arith)
        (omega (arith, length-append pre (option_bytes o), length-option_bytes o v.0)) in
    let step =
      rw (append_assoc, length-append pre (option_bytes o), length-option_bytes o v.0) at behind in
    rw
      (
        lt→ltb (length pre) n (omega (arith, size-pos o v.0)),
        slice_from-ok {E = Error} (pre ++ bs) (length pre) (omega (arith, length-append pre bs)),
        drop-append_length pre bs (length pre) refl,
        validate_option-option_bytes o v.0 (options_bytes os),
      )
      step

length-le-options_size : (os : List Options) → All IsOption os → length os ≤ options_size os
unfolding options_size
length-le-options_size [] v = omega arith
length-le-options_size (o ∷ os) v = omega (arith, size-pos o v.0, length-le-options_size os v.1)

sixteen_times : (k : ℕ) → (k * 16 % 16 == 0) ≡ true
sixteen_times k = (==_iff (k * 16 % 16) 0).1 (omega arith)

module _ (h : Header) (v : IsSdHeader h) (rest : List ℕ) where
  abbrev head : List ℕ
  head = to_u8 h.flags ∷ 0 ∷ 0 ∷ 0 ∷ []

  abbrev n : ℕ
  n = length h.entries * 16

  abbrev m : ℕ
  m = options_size h.options

  abbrev entries : List ℕ
  entries = entries_bytes h.entries

  abbrev options : List ℕ
  options = options_bytes h.options

  abbrev whole : List ℕ
  whole = sd_bytes h ++ rest

  cut_four : head ++ (to_be32 n ++ (entries ++ (to_be32 m ++ (options ++ rest)))) ≡ whole
  unfolding sd_bytes
  cut_four = simp append_assoc

  cut_eight : (head ++ to_be32 n) ++ (entries ++ (to_be32 m ++ (options ++ rest))) ≡ whole
  unfolding sd_bytes
  cut_eight = simp append_assoc

  cut_entries : ((head ++ to_be32 n) ++ entries) ++ (to_be32 m ++ (options ++ rest)) ≡ whole
  unfolding sd_bytes
  cut_entries = simp append_assoc

  cut_options : (((head ++ to_be32 n) ++ entries) ++ to_be32 m) ++ (options ++ rest) ≡ whole
  unfolding sd_bytes
  cut_options = simp append_assoc

  length-entries : length entries ≡ n
  length-entries = omega (arith, length-entries_bytes h.entries)

  length-options : length options ≡ m
  length-options = length-options_bytes h.options v.options_range

  length-eight : length (head ++ to_be32 n) ≡ 8
  length-eight = omega (arith, length-to_be32 n)

  length-front : length ((head ++ to_be32 n) ++ entries) ≡ 8 + n
  length-front =
      omega (arith, length-append (head ++ to_be32 n) entries, length-eight, length-entries)

  length-middle : length (((head ++ to_be32 n) ++ entries) ++ to_be32 m) ≡ 8 + n + 4
  length-middle = omega (
    arith,
    length-append ((head ++ to_be32 n) ++ entries) (to_be32 m),
    length-front,
    length-to_be32 m,
  )

  length-whole : length whole ≡ 12 + n + m + length rest
  unfolding required_size
  length-whole = omega (arith, length-append (sd_bytes h) rest, length-sd_bytes h v)

  flags-back : index {E = Error} whole 0 ≡ ok (to_u8 h.flags)
  unfolding sd_bytes
  flags-back = index-ok {E = Error} whole 0 (omega arith)

  entries_size-back : size_at whole 4 ≡ ok n
  entries_size-back =
      subst (λ (b : List ℕ). size_at b 4 ≡ ok n) cut_four
        (size_at-append head _ 4 n refl (omega (arith, v.entries_fit)))

  entries-back : slice {E = Error} whole 8 (8 + n) ≡ ok entries
  entries-back =
      subst (λ (b : List ℕ). slice {E = Error} b 8 (8 + n) ≡ ok entries) cut_eight
        (slice-append (head ++ to_be32 n) entries _ 8 (8 + n) (sym length-eight)
          (omega (arith, length-entries)))

  options_size-back : size_at whole (8 + n) ≡ ok m
  options_size-back =
      subst (λ (b : List ℕ). size_at b (8 + n) ≡ ok m) cut_entries
        (size_at-append ((head ++ to_be32 n) ++ entries) _ (8 + n) m (sym length-front)
          (omega (arith, v.options_fit)))

  options-back : slice {E = Error} whole (8 + n + 4) (8 + n + 4 + m) ≡ ok options
  options-back =
      subst (λ (b : List ℕ). slice {E = Error} b (8 + n + 4) (8 + n + 4 + m) ≡ ok options)
        cut_options
        (slice-append (((head ++ to_be32 n) ++ entries) ++ to_be32 m) options rest (8 + n + 4)
          (8 + n + 4 + m) (sym length-middle) (omega (arith, length-options)))

  written : SdHeaderView
  written = record { flags = h.flags; entries_buf = entries; options_buf = options }

  options-parsed : parse_options usize_max_64 whole h.flags entries (8 + n) ≡ ok written
  unfolding parse_options written
  options-parsed =
      rw
        (
          options_size-back,
          usize_add-ok usize_max_64 (8 + n) 4 (omega (arith, v.entries_fit)),
          usize_add-ok usize_max_64 (8 + n + 4) m (omega (arith, v.entries_fit, v.options_fit)),
          le→ltb (length whole) (8 + n + 4 + m) (omega (arith, length-whole)),
          options-back,
          check_options-ok (suc m) [] h.options m v.options_range
              (omega (arith, length-le-options_size h.options v.options_range)) (omega arith),
        )
        refl

  header-parsed : parse whole ≡ ok written
  unfolding parse parse_on
  header-parsed =
      rw
        (
          le→ltb (length whole) 12 (omega (arith, length-whole)),
          flags-back,
          from_u8-to_u8 h.flags,
          entries_size-back,
          sixteen_times (length h.entries),
          usize_add-ok usize_max_64 8 n (omega (arith, v.entries_fit)),
          usize_add-ok usize_max_64 (8 + n) 4 (omega (arith, v.entries_fit)),
          le→ltb (length whole) (8 + n + 4) (omega (arith, length-whole)),
          entries-back,
          check_entries-ok (suc n) [] h.entries n (omega arith) (omega arith),
        )
        options-parsed

views-options_bytes :
    (fuel : ℕ) (os : List Options)
    → All IsOption os
    → length os ≤ fuel
    → OptionsView.views fuel (options_bytes os) ≡ map option_view os
unfolding OptionsView.views options_bytes
views-options_bytes zero [] v h = refl
views-options_bytes zero (o ∷ os) v h = elim h [ ]
views-options_bytes (suc fuel) [] v h = unfold OptionsView.next in refl
views-options_bytes (suc fuel) (o ∷ os) v h =
    rw (next-option_bytes o v.0 (options_bytes os), OptionsView.views)
      (ap (◌∷◌ (option_view o)) (views-options_bytes fuel os v.1 (omega arith)))

-- Iterating over a written array of options in range yields the view of each option, in order.
pub iterate-options_bytes :
    (os : List Options)
    → All IsOption os
    → OptionsView.iterate (options_bytes os) ≡ map option_view os
unfolding OptionsView.iterate
iterate-options_bytes os v =
    views-options_bytes (length (options_bytes os)) os v
      (omega (arith, length-options_bytes os v, length-le-options_size os v))

-- A header in range is parsed back from its bytes, whatever follows them: the flags are the
-- header's, and the two iterators yield the views of its entries and of its options, in order.
pub parse-sd_bytes :
    (h : Header) (rest : List ℕ)
    → IsSdHeader h
    → (v : SdHeaderView) × (parse (sd_bytes h ++ rest) ≡ ok v)
      × (v.flags ≡ h.flags)
      × (View.iterate v.entries_buf ≡ map view_of h.entries)
      × (OptionsView.iterate v.options_buf ≡ map option_view h.options)
unfolding written
parse-sd_bytes h rest v = (
  written h v rest,
  header-parsed h v rest,
  refl,
  iterate-entries_bytes h.entries,
  iterate-options_bytes h.options v.options_range,
)
