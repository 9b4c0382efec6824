-- ===== src/Bits/Digits.antt =====
-- The native bit operations are defined by a recursion over binary digits with fuel; here is the
-- equation for the lowest digit, with no fuel left.
use Prim.Native.Nat.{max, digits, bit_and-bitwise, bit_or-bitwise}
use simple_someip.Prelude.{
  ℕ, zero, suc, ◌+◌, ◌*◌, ◌/◌, ◌%◌, ◌≤◌, min, ◌≡◌, refl, ap, arith, bit_and, bit_or,
}

-- More fuel than the first number changes nothing.
digits_more :
    (end : ℕ → ℕ) (join : ℕ → ℕ → ℕ) (a n m b : ℕ)
    → a ≤ n
    → n ≤ m
    → digits end join m a b ≡ digits end join n a b
digits_more end join zero zero zero b p q = refl
digits_more end join zero zero (suc m) b p q = refl
digits_more end join zero (suc n) zero b p q = refl
digits_more end join zero (suc n) (suc m) b p q = refl
digits_more end join (suc a) zero m b p q = absurd (omega arith)
digits_more end join (suc a) (suc n) zero b p q = absurd (omega arith)
digits_more end join (suc a) (suc n) (suc m) b p q =
    ap (λ (t : ℕ). t * 2 + join (suc a % 2) (b % 2))
      (digits_more end join (suc a / 2) n m (b / 2) (omega arith) (omega arith))

pub bit_and_halves : (a b : ℕ) → bit_and a b ≡ bit_and (a / 2) (b / 2) * 2 + min (a % 2) (b % 2)
bit_and_halves zero b = omega (arith, bit_and-bitwise 0 b, bit_and-bitwise 0 (b / 2))
bit_and_halves (suc a) b = omega (
  arith,
  bit_and-bitwise (suc a) b,
  bit_and-bitwise (suc a / 2) (b / 2),
  digits_more (λ _. 0) min (suc a / 2) (suc a / 2) a (b / 2) (omega arith) (omega arith),
)

pub bit_or_halves : (a b : ℕ) → bit_or a b ≡ bit_or (a / 2) (b / 2) * 2 + max (a % 2) (b % 2)
bit_or_halves zero b = omega (arith, bit_or-bitwise 0 b, bit_or-bitwise 0 (b / 2))
bit_or_halves (suc a) b = omega (
  arith,
  bit_or-bitwise (suc a) b,
  bit_or-bitwise (suc a / 2) (b / 2),
  digits_more (λ y. y) max (suc a / 2) (suc a / 2) a (b / 2) (omega arith) (omega arith),
)
