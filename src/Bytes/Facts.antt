-- ===== src/Bytes/Facts.antt =====
-- Byte order round trips, and slices that do not panic.
use simple_someip.Prelude.{
  ℕ, zero, suc, ◌-◌, ◌/◌, ◌%◌, ◌≤◌, ◌<◌, ◌≡◌, refl, List, [], ◌∷◌, length, length-take, length-drop,
  take, drop, arith, ok, ap, ◌∙◌, le→ltb,
}
use simple_someip.Bytes.{
  IsU8, IsU16, IsU24, IsU32, IsBytes, to_be16, to_be24, to_be32, from_be16, from_be32, byte_at,
  index, slice, slice_from,
}

pub from_be16-to_be16 : (v : ℕ) → IsU16 v → from_be16 (v / 256 % 256) (v % 256) ≡ v
unfolding from_be16
from_be16-to_be16 v h = omega arith

pub from_be32-to_be24 :
    (v : ℕ) → IsU24 v → from_be32 0 (v / 65536 % 256) (v / 256 % 256) (v % 256) ≡ v
unfolding from_be32
from_be32-to_be24 v h = omega arith

pub from_be32-to_be32 :
    (v : ℕ)
    → IsU32 v
    → from_be32 (v / 16777216 % 256) (v / 65536 % 256) (v / 256 % 256) (v % 256) ≡ v
unfolding from_be32
from_be32-to_be32 v h = omega arith

pub from_be16-lt : (a b : ℕ) → IsU8 a → IsU8 b → IsU16 (from_be16 a b)
unfolding from_be16
from_be16-lt a b p q = omega arith

pub from_be32-lt : (a b c d : ℕ) → IsU8 a → IsU8 b → IsU8 c → IsU8 d → IsU32 (from_be32 a b c d)
unfolding from_be32
from_be32-lt a b c d p q r s = omega arith

-- The other way round: the bytes of a number that was read are those bytes.
pub to_be16-from_be16 : (a b : ℕ) → IsU8 a → IsU8 b → to_be16 (from_be16 a b) ≡ a ∷ b ∷ []
unfolding from_be16 to_be16
to_be16-from_be16 a b p q = ground arith

pub to_be24-from_be32 :
    (b c d : ℕ) → IsU8 b → IsU8 c → IsU8 d → to_be24 (from_be32 0 b c d) ≡ b ∷ c ∷ d ∷ []
unfolding to_be24 from_be32
to_be24-from_be32 b c d q r s = ground arith

pub to_be32-from_be32 :
    (a b c d : ℕ)
    → IsU8 a
    → IsU8 b
    → IsU8 c
    → IsU8 d
    → to_be32 (from_be32 a b c d) ≡ a ∷ b ∷ c ∷ d ∷ []
unfolding to_be32 from_be32
to_be32-from_be32 a b c d p q r s = ground arith

-- A list is the table of its entries.
abbrev pub table : ℕ → (ℕ → ℕ) → List ℕ
table zero f = []
table (suc n) f = f 0 ∷ table n (λ i. f (suc i))

pub eq-table : (bs : List ℕ) (n : ℕ) → length bs ≡ n → bs ≡ table n (byte_at bs)
eq-table [] zero e = refl
eq-table [] (suc n) e = absurd (omega arith)
eq-table (b ∷ bs) zero e = absurd (omega arith)
eq-table (b ∷ bs) (suc n) e = ap (◌∷◌ b) (eq-table bs n (omega arith))

pub byte_at-take : (n : ℕ) (bs : List ℕ) (i : ℕ) → i < n → byte_at (take n bs) i ≡ byte_at bs i
byte_at-take zero bs i h = elim h [ ]
byte_at-take (suc n) [] i h = refl
byte_at-take (suc n) (b ∷ bs) zero h = refl
byte_at-take (suc n) (b ∷ bs) (suc i) h = byte_at-take n bs i (omega arith)

pub byte_at-IsU8 : (bs : List ℕ) (i : ℕ) → IsBytes bs → IsU8 (byte_at bs i)
byte_at-IsU8 [] i h = omega arith
byte_at-IsU8 (b ∷ bs) zero h = h.0
byte_at-IsU8 (b ∷ bs) (suc i) h = byte_at-IsU8 bs i h.1

pub take-IsBytes : (n : ℕ) (bs : List ℕ) → IsBytes bs → IsBytes (take n bs)
take-IsBytes zero bs h = tt
take-IsBytes (suc n) [] h = tt
take-IsBytes (suc n) (b ∷ bs) h = (h.0, take-IsBytes n bs h.1)

pub drop-IsBytes : (n : ℕ) (bs : List ℕ) → IsBytes bs → IsBytes (drop n bs)
drop-IsBytes zero bs h = h
drop-IsBytes (suc n) [] h = tt
drop-IsBytes (suc n) (b ∷ bs) h = drop-IsBytes n bs h.1

module _ {ℓ} {E : Type ℓ} where
  pub index-ok : (bs : List ℕ) (i : ℕ) → i < length bs → index {E = E} bs i ≡ ok (byte_at bs i)
  unfolding index
  index-ok bs i h = ground arith

  pub slice-ok :
      (bs : List ℕ) (lo hi : ℕ)
      → lo ≤ hi
      → hi ≤ length bs
      → slice {E = E} bs lo hi ≡ ok (take (hi - lo) (drop lo bs))
  unfolding slice
  slice-ok bs lo hi p q = rw (le→ltb hi lo p, le→ltb (length bs) hi q) refl

  pub slice-take : (bs : List ℕ) (n : ℕ) → n ≤ length bs → slice {E = E} bs 0 n ≡ ok (take n bs)
  slice-take bs n h = slice-ok bs 0 n (omega arith) h ∙ ap (λ (k : ℕ). ok (take k bs)) (omega arith)

  pub slice_from-ok :
      (bs : List ℕ) (lo : ℕ) → lo ≤ length bs → slice_from {E = E} bs lo ≡ ok (drop lo bs)
  unfolding slice_from
  slice_from-ok bs lo h = ground arith

-- What a slice inside the buffer leaves to be read.
pub length-slice :
    (bs : List ℕ) (lo hi : ℕ)
    → lo ≤ hi
    → hi ≤ length bs
    → length (take (hi - lo) (drop lo bs)) ≡ hi - lo
length-slice bs lo hi p q = omega (arith, length-take (hi - lo) (drop lo bs), length-drop lo bs)

pub length-to_be16 : (v : ℕ) → length (to_be16 v) ≡ 2
unfolding to_be16
length-to_be16 v = refl

pub length-to_be24 : (v : ℕ) → length (to_be24 v) ≡ 3
unfolding to_be24
length-to_be24 v = refl

pub length-to_be32 : (v : ℕ) → length (to_be32 v) ≡ 4
unfolding to_be32
length-to_be32 v = refl

pub ruleset byte_order = (
  from_be16-to_be16, from_be32-to_be24, from_be32-to_be32, length-to_be16, length-to_be24,
  length-to_be32,
)
