-- ===== src/Bytes.antt =====
-- Byte buffers and byte order: src/protocol/byte_order.rs, and the parts of Rust's standard library
-- that the parsers use (`to_be_bytes`, `from_be_bytes`, indexing and slicing).
-- A byte slice is a list of numbers; `u8`, `u16` and `u32` are numbers with a range as a predicate.
pub mod Writer
pub mod Facts
pub mod Copy
pub mod Slice
use simple_someip.Prelude.{
  ℕ, zero, suc, ◌+◌, ◌-◌, ◌*◌, ◌/◌, ◌%◌, ◌^◌, ◌<◌, ◌||◌, List, [], ◌∷◌, length, get_or, take, drop,
  ltb, if◌then◌else◌, All, Result, ok, panic,
}

abbrev pub IsU8 : ℕ → Type 0
IsU8 v = v < 256

abbrev pub IsU16 : ℕ → Type 0
IsU16 v = v < 65536

-- The `ttl` fields: 24 bits on the wire.
abbrev pub IsU24 : ℕ → Type 0
IsU24 v = v < 16777216

abbrev pub IsU32 : ℕ → Type 0
IsU32 v = v < 4294967296

abbrev pub IsBytes : List ℕ → Type 0
IsBytes = All IsU8

-- `to_be_bytes` and `to_le_bytes`.
unfoldable pub to_be16 : ℕ → List ℕ
to_be16 v = (v / 256 % 256) ∷ (v % 256) ∷ []

unfoldable pub to_le16 : ℕ → List ℕ
to_le16 v = (v % 256) ∷ (v / 256 % 256) ∷ []

-- `&val.to_be_bytes()[1..]` of a `u32`.
unfoldable pub to_be24 : ℕ → List ℕ
to_be24 v = (v / 65536 % 256) ∷ (v / 256 % 256) ∷ (v % 256) ∷ []

unfoldable pub to_be32 : ℕ → List ℕ
to_be32 v = (v / 16777216 % 256) ∷ (v / 65536 % 256) ∷ (v / 256 % 256) ∷ (v % 256) ∷ []

-- `from_be_bytes` and `from_le_bytes`.
unfoldable pub from_be16 : ℕ → ℕ → ℕ
from_be16 a b = a * 256 + b

unfoldable pub from_le16 : ℕ → ℕ → ℕ
from_le16 a b = b * 256 + a

unfoldable pub from_be32 : ℕ → ℕ → ℕ → ℕ → ℕ
from_be32 a b c d = a * 16777216 + b * 65536 + c * 256 + d

-- An index into an array of fixed size, which the compiler has checked.
abbrev pub byte_at : List ℕ → ℕ → ℕ
byte_at bs i = get_or bs i 0

-- `buf[i]`, `&buf[lo..hi]`, `&buf[lo..]` on a slice.
unfoldable pub index {ℓ} : {E : Type ℓ} → List ℕ → ℕ → Result E ℕ
index bs i = if ltb i (length bs) then ok (byte_at bs i) else panic

unfoldable pub slice {ℓ} : {E : Type ℓ} → List ℕ → ℕ → ℕ → Result E (List ℕ)
slice bs lo hi = if ltb hi lo || ltb (length bs) hi then panic else ok (take (hi - lo) (drop lo bs))

unfoldable pub slice_from {ℓ} : {E : Type ℓ} → List ℕ → ℕ → Result E (List ℕ)
slice_from bs lo = if ltb (length bs) lo then panic else ok (drop lo bs)
