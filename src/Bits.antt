-- ===== src/Bits.antt =====
-- Masks and shifts as arithmetic. Rust's `x & mask`, `hi << k | lo` and `x >> k` are the native
-- `bit_and`, `bit_or`, `* 2 ^ k` and `/ 2 ^ k`; the tactics read only the arithmetic.
mod Digits
use Prim.Native.Nat.{bit_or-bitwise}
use Digits.{bit_and_halves, bit_or_halves}
use native.Mathlib.Nat.{pow-suc, div-div-eq-div-mul, div-add-mod'}
use simple_someip.Prelude.{
  ℕ, zero, suc, ◌+◌, ◌-◌, ◌*◌, ◌/◌, ◌%◌, ◌^◌, ◌≤◌, ◌<◌, ◌≡◌, refl, sym, ◌∙◌, ap, arith, bit_and,
  bit_or, Bool, ◌==◌, all_below, all_below_sound, ==_iff,
}

or_zero : (n a : ℕ) → a ≤ n → bit_or a 0 ≡ a
or_zero n zero h = refl
or_zero zero (suc a) h = absurd (omega arith)
or_zero (suc n) (suc a) h =
    omega (arith, bit_or_halves (suc a) 0, or_zero n (suc a / 2) (omega arith))

and_zero : (n a : ℕ) → a ≤ n → bit_and a 0 ≡ 0
and_zero n zero h = refl
and_zero zero (suc a) h = absurd (omega arith)
and_zero (suc n) (suc a) h =
    omega (arith, bit_and_halves (suc a) 0, and_zero n (suc a / 2) (omega arith))

double : (q k : ℕ) → q * 2 ^ suc k ≡ q * 2 ^ k * 2
double q k = omega (arith, ap (λ (t : ℕ). q * t) (pow-suc 2 k))

-- `hi << k | lo` with `lo` below `2 ^ k`.
pub bit_or_shl : (k hi lo : ℕ) → lo < 2 ^ k → bit_or (hi * 2 ^ k) lo ≡ hi * 2 ^ k + lo
bit_or_shl zero hi lo h = ground (arith, or_zero hi hi)
bit_or_shl (suc k) hi lo h =
    ground
      (arith, double hi k, double 1 k, bit_or_halves (hi * 2 ^ suc k) lo, bit_or_shl k hi (lo / 2))

-- `lo | hi << k` is the same number.
zero_or : (b : ℕ) → bit_or 0 b ≡ b
zero_or b = bit_or-bitwise 0 b

pub bit_or_shl_right : (k hi lo : ℕ) → lo < 2 ^ k → bit_or lo (hi * 2 ^ k) ≡ hi * 2 ^ k + lo
bit_or_shl_right zero hi zero h = omega (arith, zero_or (hi * 2 ^ 0))
bit_or_shl_right zero hi (suc lo) h = absurd (omega arith)
bit_or_shl_right (suc k) hi lo h = ground (
  arith,
  double hi k,
  double 1 k,
  bit_or_halves lo (hi * 2 ^ suc k),
  bit_or_shl_right k hi (lo / 2),
)

-- Halving, then cutting `k` bits, cuts `k + 1` bits.
half_shr : (a k : ℕ) → a / 2 ^ suc k ≡ a / 2 / 2 ^ k
half_shr a k =
    ap (λ (t : ℕ). a / t) (omega (arith, double 1 k)) ∙ sym (div-div-eq-div-mul a 2 (2 ^ k))

half_low : (a k : ℕ) → a % 2 ^ suc k ≡ a / 2 % 2 ^ k * 2 + a % 2
half_low a k = omega (
  arith,
  half_shr a k,
  div-add-mod' a (2 ^ suc k),
  div-add-mod' (a / 2) (2 ^ k),
  double (a / 2 / 2 ^ k) k,
  ap (λ (t : ℕ). t * 2 ^ suc k) (half_shr a k),
)

-- A mask whose low `k` bits are clear looks at the bits from `k` on.
pub bit_and_shl : (k a m : ℕ) → bit_and a (m * 2 ^ k) ≡ bit_and (a / 2 ^ k) m * 2 ^ k
bit_and_shl zero a m = ground arith
bit_and_shl (suc k) a m = ground (
  arith,
  double m k,
  half_shr a k,
  bit_and_halves a (m * 2 ^ suc k),
  bit_and_shl k (a / 2) m,
  double (bit_and (a / 2 / 2 ^ k) m) k,
)

-- A mask of the low `k` bits.
pub bit_and_low : (k a m : ℕ) → m + 1 ≡ 2 ^ k → bit_and a m ≡ a % 2 ^ k
bit_and_low zero a m h = ground (arith, and_zero a a)
bit_and_low (suc k) a m h =
    ground (arith, half_low a k, double 1 k, bit_and_halves a m, bit_and_low k (a / 2) (m / 2))
