-- ===== src/Common/Bits.antt =====
-- `|` of words whose set bits do not meet.
use Prim.Native.Nat.{
  ℕ, zero, suc, ◌+◌, ◌*◌, ◌/◌, ◌%◌, ◌^◌, ◌≤◌, ◌<◌, max, digits, bit_or, bit_or-bitwise,
}
use mathlib.Core.Path.{◌≡◌, refl, ap}
use native.Mathlib.Nat.{pow-suc}
use native.Mathlib.Omega.{arith}

-- What the native `bit_or` means: a recursion over binary digits, with the number of rounds.
abbrev or_digits : ℕ → ℕ → ℕ → ℕ
or_digits rounds a b = digits (λ c. c) max rounds a b

-- More rounds than there are digits change nothing.
or_digits_enough : (a b r s : ℕ) → a ≤ r → a ≤ s → or_digits r a b ≡ or_digits s a b
or_digits_enough (suc a) b (suc r) (suc s) h k =
    omega (arith, or_digits_enough (suc a / 2) (b / 2) r s (omega arith) (omega arith))
or_digits_enough zero b (suc r) (suc s) h k = refl
or_digits_enough zero b zero (suc s) h k = refl
or_digits_enough zero b zero zero h k = refl
or_digits_enough zero b (suc r) zero h k = refl
or_digits_enough (suc a) b zero s h k = absurd (omega (arith, h))
or_digits_enough (suc a) b (suc r) zero h k = absurd (omega (arith, k))

zero-bit_or : (b : ℕ) → bit_or 0 b ≡ b
zero-bit_or b = bit_or-bitwise 0 b

pub bit_or-halves : (a b : ℕ) → bit_or a b ≡ bit_or (a / 2) (b / 2) * 2 + max (a % 2) (b % 2)
bit_or-halves zero b = omega (arith, zero-bit_or b, zero-bit_or (b / 2))
bit_or-halves (suc a) b = omega (
  arith,
  bit_or-bitwise (suc a) b,
  bit_or-bitwise (suc a / 2) (b / 2),
  or_digits_enough (suc a / 2) (b / 2) a (suc a / 2) (omega arith) (omega arith),
)

bit_or-zero_below : (n a : ℕ) → a ≤ n → bit_or a 0 ≡ a
bit_or-zero_below n zero h = refl
bit_or-zero_below zero (suc a) h = absurd (omega arith)
bit_or-zero_below (suc n) (suc a) h =
    omega (arith, bit_or-halves (suc a) 0, bit_or-zero_below n (suc a / 2) (omega arith))

pub bit_or-zero : (a : ℕ) → bit_or a 0 ≡ a
bit_or-zero a = bit_or-zero_below a a (omega arith)

pub bit_or_disjoint : (k q r : ℕ) → r < 2 ^ k → bit_or (q * 2 ^ k) r ≡ q * 2 ^ k + r
bit_or_disjoint zero q r h = omega (arith, ap (bit_or (q * 1)) r_zero, bit_or-zero (q * 1))
  where
    r_zero : r ≡ 0
    r_zero = omega arith
bit_or_disjoint (suc k) q r h = omega (
  arith,
  bit_or-halves (q * 2 ^ suc k) r,
  ap (λ (t : ℕ). q * t) (pow-suc 2 k),
  pow-suc 2 k,
  ap (λ (t : ℕ). bit_or t (r / 2)) halved,
  bit_or_disjoint k q (r / 2) (omega (arith, pow-suc 2 k)),
)
  where
    halved : q * 2 ^ suc k / 2 ≡ q * 2 ^ k
    halved = omega (arith, ap (λ (t : ℕ). q * t) (pow-suc 2 k))
