-- ===== src/Sd/Header.antt =====
-- src/protocol/sd/header.rs: the service discovery header, its encoder and its zero-copy view.
-- `parse_on` takes the width of `usize` from its caller; `parse`, which the other modules call, has
-- 64 bits. The sums of the encoder do not overflow.
pub mod Encode
pub mod Total
pub mod Overflow
pub mod RoundTrip
pub mod Views
use simple_someip.Prelude.{
  ℕ, zero, suc, ◌+◌, ◌*◌, ◌%◌, ◌/◌, List, [], ◌∷◌, length, not, ltb, ◌==◌, if◌then◌else◌, Result,
  ok, err, panic, map_err, ◌>>=◌, ◌>>◌, fail_if,
}
use simple_someip.Bytes.{index, slice, slice_from, from_be32}
use simple_someip.Protocol.Error.{Error, sd, unexpected_eof, incorrect_entries_size}
use simple_someip.Sd.Flags.{Flags, from_u8}
use simple_someip.Sd.Entry.{Entry, type_try_from}
use simple_someip.Sd.Options.{Options}
use simple_someip.Sd.Options.Validate.{validate_option}

pub record Header : Type 0 where
  pub flags : Flags
  pub entries : List Entry
  pub options : List Options

pub record SdHeaderView : Type 0 where
  pub flags : Flags
  pub entries_buf : List ℕ
  pub options_buf : List ℕ

-- `while offset < entries_size`: the type byte of each entry. The fuel never runs out, see Total.
unfoldable pub check_entries : ℕ → List ℕ → ℕ → ℕ → Result Error (Unit {0})
check_entries zero entries_buf entries_size offset = panic
check_entries (suc fuel) entries_buf entries_size offset =
    let rest = check_entries fuel entries_buf entries_size (offset + 16) in
    if ltb offset entries_size
    then (do t ← index entries_buf offset; map_err sd (type_try_from t); rest)
    else ok tt

-- `while opt_offset < options_size`: each option in turn.
unfoldable pub check_options : ℕ → List ℕ → ℕ → ℕ → Result Error (Unit {0})
check_options zero options_buf options_size offset = panic
check_options (suc fuel) options_buf options_size offset =
    if ltb offset options_size
    then (do
      remaining ← slice_from options_buf offset
      wire_size ← map_err sd (validate_option remaining)
      check_options fuel options_buf options_size (offset + wire_size))
    else ok tt

-- A big-endian `u32` read from four indices.
unfoldable pub size_at : List ℕ → ℕ → Result Error ℕ
size_at buf i = do
  a ← index buf i
  b ← index buf (i + 1)
  c ← index buf (i + 2)
  d ← index buf (i + 3)
  ok (from_be32 a b c d % 4294967296)

-- A sum in `usize`, which panics on overflow in a debug build.
unfoldable pub usize_add : ℕ → ℕ → ℕ → Result Error ℕ
usize_add usize_max a b = if ltb usize_max (a + b) then panic else ok (a + b)

-- `usize::MAX` on a target of 64 bits and on one of 32 bits.
abbrev pub usize_max_64 : ℕ
usize_max_64 = 18446744073709551615

abbrev pub usize_max_32 : ℕ
usize_max_32 = 4294967295

-- The second half of `parse`, from the options size on.
unfoldable pub parse_options : ℕ → List ℕ → Flags → List ℕ → ℕ → Result Error SdHeaderView
parse_options usize_max buf flags entries_buf options_size_offset = do
  options_size ← size_at buf options_size_offset
  options_start ← usize_add usize_max options_size_offset 4
  options_end ← usize_add usize_max options_start options_size
  fail_if (ltb (length buf) options_end) unexpected_eof
  options_buf ← slice buf options_start options_end
  check_options (suc options_size) options_buf options_size 0
  ok (record { flags = flags; entries_buf = entries_buf; options_buf = options_buf })

-- `parse` on a target with the given `usize::MAX`.
unfoldable pub parse_on : ℕ → List ℕ → Result Error SdHeaderView
parse_on usize_max buf = do
  fail_if (ltb (length buf) 12) unexpected_eof
  f ← index buf 0
  let flags = from_u8 f
  entries_size ← size_at buf 4
  fail_if (not (entries_size % 16 == 0)) (sd (incorrect_entries_size entries_size))
  options_size_offset ← usize_add usize_max 8 entries_size
  entries_end ← usize_add usize_max options_size_offset 4
  fail_if (ltb (length buf) entries_end) unexpected_eof
  entries_buf ← slice buf 8 options_size_offset
  check_entries (suc entries_size) entries_buf entries_size 0
  parse_options usize_max buf flags entries_buf options_size_offset

unfoldable pub parse : List ℕ → Result Error SdHeaderView
parse buf = parse_on usize_max_64 buf

unfoldable pub entry_count : SdHeaderView → ℕ
entry_count v = length v.entries_buf / 16
