-- ===== src/Sd/Entry/Count.antt =====
-- `OptionsCount` of src/protocol/sd/entry.rs: two four-bit counts in a byte.
use simple_someip.Prelude.{
  ℕ, ◌+◌, ◌*◌, ◌/◌, ◌%◌, ◌^◌, ◌<◌, ◌≡◌, refl, ◌∙◌, arith, bit_and, bit_or, ltb, Result, ok, ◌>>◌,
  assert,
}
use simple_someip.Bits.{bit_or_shl, bit_and_shl, bit_and_low}
use simple_someip.Bytes.{IsU8}
use simple_someip.Protocol.Error.{Error}

pub record OptionsCount : Type 0 where
  pub first : ℕ
  pub second : ℕ

-- `(value & 0xf0) >> 4` and `value & 0x0f`.
unfoldable pub count_from : ℕ → OptionsCount
count_from value = record { first = bit_and value 0xf0 / 2 ^ 4; second = bit_and value 0x0f }

-- `<<` on a `u8` drops what leaves the byte.
unfoldable pub count_to_u8 : OptionsCount → ℕ
count_to_u8 c = bit_or (bit_and (c.first * 2 ^ 4 % 256) 0xf0) (bit_and c.second 0x0f)

unfoldable pub count_new : ℕ → ℕ → Result Error OptionsCount
count_new first second = do
  assert (ltb first 16)
  assert (ltb second 16)
  ok (record { first = first; second = second })

pub record IsCount (c : OptionsCount) : Type 0 where
  pub first_range : c.first < 16
  pub second_range : c.second < 16

high_nibble : (v : ℕ) → bit_and v 0xf0 ≡ v / 16 % 16 * 16
high_nibble v = omega (arith, bit_and_shl 4 v 15, bit_and_low 4 (v / 16) 15 refl)

low_nibble : (v : ℕ) → bit_and v 0x0f ≡ v % 16
low_nibble v = bit_and_low 4 v 15 refl

pub count_to_u8-eq : (c : OptionsCount) → count_to_u8 c ≡ c.first % 16 * 16 + c.second % 16
unfolding count_to_u8
count_to_u8-eq c =
    rw (high_nibble, low_nibble)
      (omega (arith, bit_or_shl 4 (c.first * 16 % 256 / 16 % 16) (c.second % 16) (omega arith)))

pub count_from-eq : (v : ℕ) → count_from v ≡ record { first = v / 16 % 16; second = v % 16 }
unfolding count_from
count_from-eq v = λ i. record { first = a i; second = low_nibble v i }
  where
    a : bit_and v 0xf0 / 2 ^ 4 ≡ v / 16 % 16
    a = omega (arith, high_nibble v)

-- Counts below 16 survive the byte.
pub count_from-count_to_u8 : (c : OptionsCount) → IsCount c → count_from (count_to_u8 c) ≡ c
count_from-count_to_u8 c h =
    count_from-eq (count_to_u8 c) ∙ λ i. record { first = a i; second = b i }
  where
    a : count_to_u8 c / 16 % 16 ≡ c.first
    a = omega (arith, count_to_u8-eq c)

    b : count_to_u8 c % 16 ≡ c.second
    b = omega (arith, count_to_u8-eq c)

pub count_from-IsCount : (v : ℕ) → IsCount (count_from v)
count_from-IsCount v =
    rw (count_from-eq v) (record { first_range = omega arith; second_range = omega arith })

pub count_to_u8-count_from : (v : ℕ) → IsU8 v → count_to_u8 (count_from v) ≡ v
count_to_u8-count_from v h =
    rw (count_from-eq v)
      (omega (arith, count_to_u8-eq (record { first = v / 16 % 16; second = v % 16 })))
