-- ===== src/Tests/Sd.antt =====
-- Runs of service discovery and of payloads at concrete inputs.
use simple_someip.Prelude.{
  ℕ, ◌≤◌, ◌≡◌, ◌↔◌, ◌⊎◌, refl, arith, true, List, [], ◌∷◌, ◌++◌, map, take, ok, err, panic,
}
use simple_someip.Bytes.{from_be16, from_be32, index, slice}
use simple_someip.Protocol.Error.{unexpected_eof}
use simple_someip.Sd.Flags as Flags
use simple_someip.Sd.Flags.{Flags, RebootFlag, recently_rebooted, from_u8-to_u8, reboot_of-new_sd}
use simple_someip.Sd.Entry.View as EntryView
use simple_someip.Sd.Entry.RoundTrip.{view_of}
use simple_someip.Sd.Options.{Options, type_try_from}
use simple_someip.Sd.Options.Encode.{size}
use simple_someip.Sd.Options.View as OptionsView
use simple_someip.Sd.Options.Validate.{validate_option, check_type}
use simple_someip.Sd.Options.RoundTrip.{option_view}
use simple_someip.Sd.Options.Accepted.{to_owned-validate_option}
use simple_someip.Sd.Header as SdHeader
use simple_someip.Sd.Header.{SdHeaderView}
use simple_someip.Sd.Header.Encode.{sd_bytes, required_size, options_size}
use simple_someip.Sd.Header.RoundTrip.{parse-sd_bytes}
use simple_someip.Sd.Header.Overflow.{Overflows, parse_on-panic_iff}
use simple_someip.Payload.Format.{Received, sd_message-Received}
use simple_someip.Tests.Data.{log_writer, sd_header, sd_header-IsSdHeader}

sd_message-Received_example : Received log_writer 0x00000001 sd_header (0 ∷ 0 ∷ [])
unfolding required_size options_size size
sd_message-Received_example =
    sd_message-Received log_writer 0x00000001 sd_header (0 ∷ 0 ∷ []) (omega arith)
      sd_header-IsSdHeader (omega arith)

parse-sd_bytes_example :
    (v : SdHeaderView) × (SdHeader.parse (sd_bytes sd_header ++ (1 ∷ [])) ≡ ok v)
    × (v.flags ≡ sd_header.flags)
    × (EntryView.iterate v.entries_buf ≡ map view_of sd_header.entries)
    × (OptionsView.iterate v.options_buf ≡ map option_view sd_header.options)
parse-sd_bytes_example = parse-sd_bytes sd_header (1 ∷ []) sd_header-IsSdHeader

-- A header without entries whose options size is the greatest one.
abbrev huge_options : List ℕ
huge_options = 0 ∷ 0 ∷ 0 ∷ 0 ∷ 0 ∷ 0 ∷ 0 ∷ 0 ∷ 255 ∷ 255 ∷ 255 ∷ 255 ∷ []

parse_on-panic_iff_example :
    (SdHeader.parse_on SdHeader.usize_max_32 huge_options ≡ panic)
    ↔ Overflows SdHeader.usize_max_32 huge_options
parse_on-panic_iff_example = parse_on-panic_iff SdHeader.usize_max_32 huge_options (omega arith)

-- It does panic with 32 bits, and with 64 bits it is refused.
huge_options-parse_on :
    (SdHeader.parse_on SdHeader.usize_max_32 huge_options ≡ panic)
    × (SdHeader.parse huge_options ≡ err unexpected_eof)
unfolding SdHeader.parse SdHeader.parse_on SdHeader.size_at SdHeader.parse_options
    SdHeader.usize_add SdHeader.check_entries index slice from_be32
huge_options-parse_on = (refl, refl)

-- A configuration option of length zero with a byte of the next option behind it.
abbrev empty_config : List ℕ
empty_config = 0 ∷ 0 ∷ 1 ∷ 0 ∷ []

to_owned-validate_option_example :
    ((4 ≤ 3)
      × ((o : Options) × (OptionsView.to_owned (record { bytes = take 3 empty_config }) ≡ ok o)))
    ⊎ (◌≡◌ {A = ℕ} 3 3 × (OptionsView.to_owned (record { bytes = take 3 empty_config }) ≡ panic))
unfolding validate_option check_type type_try_from index from_be16
to_owned-validate_option_example = to_owned-validate_option empty_config 3 refl

abbrev both_flags : Flags.Flags
both_flags = record { reboot = true; unicast = true }
