-- ===== src/Sd/Header/Total.antt =====
-- The steps of `SdHeaderView::parse`: no index, slice or loop of it fails.
use simple_someip.Prelude.{
  ℕ, zero, suc, ◌+◌, ◌-◌, ◌%◌, ◌<◌, ◌≤◌, ◌≡◌, ◌≢◌, inl, inr, refl, arith, Bool-cases, List, length,
  drop, lt→ltb, le→ltb, ltb, Result, ok, err, panic, ◌>>=◌, ◌>>◌, fail_if, Result-cases, subst,
}
use simple_someip.Bytes.{index, from_be32, byte_at}
use simple_someip.Bytes.Facts.{index-ok, slice_from-ok}
use simple_someip.Protocol.Error.{Error, SdError, incorrect_options_size}
use simple_someip.Sd.Entry
use simple_someip.Sd.Options.{
  OptionType, configuration, load_balancing, ip_v4_endpoint, ip_v6_endpoint, ip_v4_multicast,
  ip_v6_multicast, ip_v4_sd, ip_v6_sd, type_try_from, type_try_from-ne-panic,
  protocol_try_from-ne-panic,
}
use simple_someip.Sd.Options.Validate.{
  validate_option, validate-steps, check_type, check_ip, field, validated,
}
use simple_someip.Sd.Header.{check_entries, check_options, size_at, usize_add}

check_ip-ne-panic :
    (buf : List ℕ) (b a e : ℕ) → (a ≡ e → e < length buf) → check_ip buf b a e e ≢ panic
unfolding check_ip index
check_ip-ne-panic buf b a e h p = ground (arith, protocol_try_from-ne-panic (byte_at buf e))

check_type-ne-panic :
    (buf : List ℕ) (b n : ℕ) (t : OptionType) → n + 3 ≤ length buf → check_type buf b n t ≢ panic
unfolding check_type
check_type-ne-panic buf b n configuration h p = ground arith
check_type-ne-panic buf b n load_balancing h p = ground arith
check_type-ne-panic buf b n ip_v4_endpoint h p = check_ip-ne-panic buf b n 9 (λ e. omega arith) p
check_type-ne-panic buf b n ip_v4_multicast h p = check_ip-ne-panic buf b n 9 (λ e. omega arith) p
check_type-ne-panic buf b n ip_v4_sd h p = check_ip-ne-panic buf b n 9 (λ e. omega arith) p
check_type-ne-panic buf b n ip_v6_endpoint h p = check_ip-ne-panic buf b n 21 (λ e. omega arith) p
check_type-ne-panic buf b n ip_v6_multicast h p = check_ip-ne-panic buf b n 21 (λ e. omega arith) p
check_type-ne-panic buf b n ip_v6_sd h p = check_ip-ne-panic buf b n 21 (λ e. omega arith) p

steps-ne-panic :
    (buf : List ℕ) (b n : ℕ) (r : Result SdError OptionType)
    → r ≢ panic
    → n + 3 ≤ length buf
    → (r >>= λ t. check_type buf b n t >> ok (n + 3)) ≢ panic
steps-ne-panic buf b n (ok t) q h p = ground (arith, check_type-ne-panic buf b n t)
steps-ne-panic buf b n (err e) q h p = cc
steps-ne-panic buf b n panic q h p = q refl

validate_short : (buf : List ℕ) → length buf < 4 → validate_option buf ≢ panic
unfolding validate_option
validate_short buf h p = ground arith

validate_long : (buf : List ℕ) → 4 ≤ length buf → validate_option buf ≢ panic
validate_long buf h p = elim (Bool-cases (ltb (length buf) (field buf + 3))) [
  | inl outside ↦ cc (rw outside at whole)
  | inr inside ↦
      steps-ne-panic buf (byte_at buf 2) (field buf) (type_try_from (byte_at buf 2))
        (type_try_from-ne-panic (byte_at buf 2)) (ground arith) (rw inside at whole)
]
  where
    whole :
        (fail_if (ltb (length buf) (field buf + 3)) (incorrect_options_size (length buf))
          >> (type_try_from (byte_at buf 2) >>= λ t.
              check_type buf (byte_at buf 2) (field buf) t >> ok (field buf + 3)))
        ≡ panic
    whole = rw (validate-steps buf h) at p

-- The validation of one option.
pub validate_option-ne-panic : (buf : List ℕ) → validate_option buf ≢ panic
validate_option-ne-panic buf = elim (Bool-cases (ltb (length buf) 4)) [
  | inl short ↦ validate_short buf (ground arith)
  | inr long ↦ validate_long buf (ground arith)
]

-- With fuel for each round the entry loop ends by its test.
pub check_entries-ne-panic :
    (fuel : ℕ) (buf : List ℕ) (size offset : ℕ)
    → size - offset < fuel
    → size ≤ length buf
    → check_entries fuel buf size offset ≢ panic
unfolding check_entries
check_entries-ne-panic zero buf size offset h n = elim h [ ]
check_entries-ne-panic (suc fuel) buf size offset h n = ground (
  arith,
  index-ok {E = Error} buf offset,
  Entry.type_try_from-ne-panic (byte_at buf offset),
  check_entries-ne-panic fuel buf size (offset + 16),
)

-- Each option takes three bytes at least and ends inside the buffer.
validated-step : (buf : List ℕ) (n : ℕ) → validate_option buf ≡ ok n → (3 ≤ n) × (n ≤ length buf)
validated-step buf n p = let v = validated buf n p in (omega (arith, v.size_field), v.fits)

check_options-ne-panic :
    (fuel : ℕ) (buf : List ℕ) (offset : ℕ)
    → length buf - offset < fuel
    → check_options fuel buf (length buf) offset ≢ panic
unfolding check_options
check_options-ne-panic zero buf offset h = elim h [ ]
check_options-ne-panic (suc fuel) buf offset h =
    elim (Result-cases (validate_option (drop offset buf))) [
      | inl (n, e) ↦ ground (
        arith,
        slice_from-ok {E = Error} buf offset,
        validated-step (drop offset buf) n e,
        check_options-ne-panic fuel buf (offset + n),
      )
      | inr (inl (x, e)) ↦ ground (arith, slice_from-ok {E = Error} buf offset)
      | inr (inr e) ↦ absurd (validate_option-ne-panic (drop offset buf) e)
    ]

pub check_options-whole :
    (buf : List ℕ) (size : ℕ) → length buf ≡ size → check_options (suc size) buf size 0 ≢ panic
check_options-whole buf size e =
    subst (λ (n : ℕ). check_options (suc n) buf n 0 ≢ panic) e
      (check_options-ne-panic (suc (length buf)) buf 0 (omega arith))

pub size_at-ok :
    (buf : List ℕ) (i : ℕ)
    → i + 3 < length buf
    → size_at buf i
      ≡ ok (
          from_be32
            (byte_at buf i)
            (byte_at buf (i + 1))
            (byte_at buf (i + 2))
            (byte_at buf (i + 3))
          % 4294967296)
unfolding size_at
size_at-ok buf i h =
    rw
      (
        index-ok {E = Error} buf i (omega arith),
        index-ok {E = Error} buf (i + 1) (omega arith),
        index-ok {E = Error} buf (i + 2) (omega arith),
        index-ok {E = Error} buf (i + 3) h,
      )
      refl

-- A sum that fits, and one that does not.
pub usize_add-ok : (usize_max a b : ℕ) → a + b ≤ usize_max → usize_add usize_max a b ≡ ok (a + b)
unfolding usize_add
usize_add-ok usize_max a b h = rw (le→ltb usize_max (a + b) h) refl

pub usize_add-panic : (usize_max a b : ℕ) → usize_max < a + b → usize_add usize_max a b ≡ panic
unfolding usize_add
usize_add-panic usize_max a b h = rw (lt→ltb usize_max (a + b) h) refl

-- The size field that stands at an index.
abbrev pub field_at : List ℕ → ℕ → ℕ
field_at buf i =
    from_be32 (byte_at buf i) (byte_at buf (i + 1)) (byte_at buf (i + 2)) (byte_at buf (i + 3))
    % 4294967296
