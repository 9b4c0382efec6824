-- ===== src/Sd/Header/Encode.antt =====
-- `WireFormat for Header` of src/protocol/sd/header.rs.
use mathlib.Core.Path.{fun_ext}
use simple_someip.Prelude.{
  ℕ, ◌+◌, ◌*◌, ◌≡◌, ◌≤◌, refl, sym, ap, ◌∙◌, arith, true, List, [], ◌∷◌, ◌++◌, length,
  length-append, leb, Result, ok, ◌>>=◌, ◌>>◌, >>=-assoc, assert, All,
}
use simple_someip.Bytes.{to_be32}
use simple_someip.Bytes.Facts.{length-to_be32}
use simple_someip.Bytes.Writer.{
  Writer, write_bytes, write_u8, write_u32_be, write_bytes-append, write_bytes-nil, Writes,
}
use simple_someip.Protocol.Error.{Error}
use simple_someip.Sd.Flags.{to_u8}
use simple_someip.Sd.Entry.{Entry, IsEntry}
use simple_someip.Sd.Entry.Encode
use simple_someip.Sd.Entry.Encode.{entry_bytes, length-entry_bytes}
use simple_someip.Sd.Entry.RoundTrip.{entries_bytes, length-entries_bytes}
use simple_someip.Sd.Options.{Options, IsOption}
use simple_someip.Sd.Options.Encode.{
  size, option_bytes, write, write-option_bytes, length-option_bytes,
}
use simple_someip.Sd.Header.{Header}

-- `for option in self.options { size += option.size() }`
unfoldable pub options_size : List Options → ℕ
options_size [] = 0
options_size (o ∷ os) = size o + options_size os

unfoldable pub required_size : Header → ℕ
required_size h = 12 + length h.entries * 16 + options_size h.options

unfoldable pub options_bytes : List Options → List ℕ
options_bytes [] = []
options_bytes (o ∷ os) = option_bytes o ++ options_bytes os

-- The wire format.
unfoldable pub sd_bytes : Header → List ℕ
sd_bytes h =
    (to_u8 h.flags ∷ [])
    ++ ((0 ∷ 0 ∷ 0 ∷ [])
        ++ (to_be32 (length h.entries * 16)
            ++ (entries_bytes h.entries
                ++ (to_be32 (options_size h.options) ++ options_bytes h.options))))

-- A header whose entries and options are in range and whose two sizes fit a `u32`.
pub record IsSdHeader (h : Header) : Type 0 where
  pub entries_range : All IsEntry h.entries
  pub options_range : All IsOption h.options
  pub entries_fit : length h.entries * 16 ≤ 4294967295
  pub options_fit : options_size h.options ≤ 4294967295

pub length-options_bytes :
    (os : List Options) → All IsOption os → length (options_bytes os) ≡ options_size os
unfolding options_bytes options_size
length-options_bytes [] h = refl
length-options_bytes (o ∷ os) h = omega (
  arith,
  length-append (option_bytes o) (options_bytes os),
  length-option_bytes o h.0,
  length-options_bytes os h.1,
)

pub length-sd_bytes : (h : Header) → IsSdHeader h → length (sd_bytes h) ≡ required_size h
unfolding sd_bytes required_size
length-sd_bytes h v = omega (
  arith,
  length-append (to_be32 (length h.entries * 16))
      (entries_bytes h.entries ++ (to_be32 (options_size h.options) ++ options_bytes h.options)),
  length-append (entries_bytes h.entries)
      (to_be32 (options_size h.options) ++ options_bytes h.options),
  length-append (to_be32 (options_size h.options)) (options_bytes h.options),
  length-to_be32 (length h.entries * 16),
  length-to_be32 (options_size h.options),
  length-entries_bytes h.entries,
  length-options_bytes h.options v.options_range,
)

module _ (wr : Writer) where
  open wr use {W}

  -- The two `for` loops; the counts that the parts return are dropped.
  unfoldable pub encode_entries : List Entry → W → Result Error W
  encode_entries [] w = ok w
  encode_entries (e ∷ es) w = do (n, w₁) ← Encode.encode wr e w; encode_entries es w₁

  unfoldable pub encode_options : List Options → W → Result Error W
  encode_options [] w = ok w
  encode_options (o ∷ os) w = do (n, w₁) ← write wr o w; encode_options os w₁

  -- Each `expect("... fits u32")` is an assertion.
  unfoldable pub encode : Header → W → Result Error (ℕ × W)
  encode h w₀ = do
    w₁ ← write_u8 wr w₀ (to_u8 h.flags)
    w₂ ← write_bytes wr w₁ (0 ∷ 0 ∷ 0 ∷ [])
    let entries_size = length h.entries * 16
    assert (leb entries_size 4294967295)
    w₃ ← write_u32_be wr w₂ entries_size
    w₄ ← encode_entries h.entries w₃
    assert (leb (options_size h.options) 4294967295)
    w₅ ← write_u32_be wr w₄ (options_size h.options)
    w₆ ← encode_options h.options w₅
    ok (12 + entries_size + options_size h.options, w₆)

  encode_entries-eq :
      (es : List Entry) (w : W) → encode_entries es w ≡ write_bytes wr w (entries_bytes es)
  unfolding encode_entries entries_bytes
  encode_entries-eq [] w = sym (write_bytes-nil wr w)
  encode_entries-eq (e ∷ es) w =
      rw
        (
          Encode.encode-entry_bytes wr e w,
          fun_ext (encode_entries-eq es),
          write_bytes-append wr w (entry_bytes e) (entries_bytes es),
        )
        (>>=-assoc (write_bytes wr w (entry_bytes e)) _ _)

  encode_options-eq :
      (os : List Options) (w : W)
      → All IsOption os
      → encode_options os w ≡ write_bytes wr w (options_bytes os)
  unfolding encode_options options_bytes
  encode_options-eq [] w h = sym (write_bytes-nil wr w)
  encode_options-eq (o ∷ os) w h =
      rw
        (write-option_bytes wr o h.0 w, write_bytes-append wr w (option_bytes o) (options_bytes os))
        (>>=-assoc (write_bytes wr w (option_bytes o)) _ _
          ∙ ap (λ (k : W → Result Error W). write_bytes wr w (option_bytes o) >>= k)
              (fun_ext (λ v. encode_options-eq os v h.1)))

  -- A header in range is written as its wire format; the count returned is its length, and that is
  -- `required_size`.
  pub encode-sd_bytes : (h : Header) → IsSdHeader h → Writes wr (encode h) (sd_bytes h)
  unfolding encode sd_bytes write_u8 write_u32_be
  encode-sd_bytes h v w =
      let entries_fit : leb (length h.entries * 16) 4294967295 ≡ true =
        ground (arith, v.entries_fit) in
      let options_fit : leb (options_size h.options) 4294967295 ≡ true =
        ground (arith, v.options_fit) in
      let options-eq : (u : W)
          → encode_options h.options u ≡ write_bytes wr u (options_bytes h.options) =
        λ u. encode_options-eq h.options u v.options_range in
      let total : length (sd_bytes h) ≡ 12 + length h.entries * 16 + options_size h.options =
        unfold required_size in length-sd_bytes h v in
      rw total (
        simp
          (entries_fit, options_fit, encode_entries-eq, options-eq, write_bytes-append, >>=-assoc))
