-- ===== src/Common/Xor.antt =====
-- `^` of words: it undoes itself, keeps a word's width, and is 0 only for equal words; `|` is 0 only
-- where both words are.
use Prim.Native.Nat.{
  ℕ, zero, suc, ◌+◌, ◌*◌, ◌/◌, ◌%◌, ◌^◌, ◌≤◌, ◌<◌, differ, digits, bit_or, bit_xor, bit_xor-bitwise,
}
use mathlib.Core.Path.{◌≡◌, refl, ap}
use native.Mathlib.Nat.{pow-suc}
use native.Mathlib.Omega.{arith}
use tinyssh.Common.Bits.{bit_or-halves}

abbrev xor_digits : ℕ → ℕ → ℕ → ℕ
xor_digits rounds a b = digits (λ c. c) differ rounds a b

xor_digits_enough : (a b r s : ℕ) → a ≤ r → a ≤ s → xor_digits r a b ≡ xor_digits s a b
xor_digits_enough (suc a) b (suc r) (suc s) h k =
    omega (arith, xor_digits_enough (suc a / 2) (b / 2) r s (omega arith) (omega arith))
xor_digits_enough zero b (suc r) (suc s) h k = refl
xor_digits_enough zero b zero (suc s) h k = refl
xor_digits_enough zero b zero zero h k = refl
xor_digits_enough zero b (suc r) zero h k = refl
xor_digits_enough (suc a) b zero s h k = absurd (omega (arith, h))
xor_digits_enough (suc a) b (suc r) zero h k = absurd (omega (arith, k))

pub zero-bit_xor : (b : ℕ) → bit_xor 0 b ≡ b
zero-bit_xor b = bit_xor-bitwise 0 b

pub bit_xor-halves : (a b : ℕ) → bit_xor a b ≡ bit_xor (a / 2) (b / 2) * 2 + differ (a % 2) (b % 2)
bit_xor-halves zero b = omega (arith, zero-bit_xor b, zero-bit_xor (b / 2))
bit_xor-halves (suc a) b = omega (
  arith,
  bit_xor-bitwise (suc a) b,
  bit_xor-bitwise (suc a / 2) (b / 2),
  xor_digits_enough (suc a / 2) (b / 2) a (suc a / 2) (omega arith) (omega arith),
)

-- Two binary digits.
differ_digits :
    (x y : ℕ)
    → x < 2
    → y < 2
    → (differ x y < 2) × (differ (differ x y) y ≡ x) × (differ x y ≡ 0 → x ≡ y)
differ_digits zero zero h k = (omega arith, refl, λ e. refl)
differ_digits zero (suc zero) h k = (omega arith, refl, λ e. absurd (omega (arith, e)))
differ_digits (suc zero) zero h k = (omega arith, refl, λ e. absurd (omega (arith, e)))
differ_digits (suc zero) (suc zero) h k = (omega arith, refl, λ e. refl)
differ_digits x (suc (suc y)) h k = absurd (omega (arith, k))
differ_digits (suc (suc x)) y h k = absurd (omega (arith, h))

-- The halves and the last digit of `a ^ b`.
bit_xor-parts :
    (a b : ℕ)
    → (bit_xor a b / 2 ≡ bit_xor (a / 2) (b / 2)) × (bit_xor a b % 2 ≡ differ (a % 2) (b % 2))
bit_xor-parts a b =
    let d = (differ_digits (a % 2) (b % 2) (omega arith) (omega arith)).0 in
    (omega (arith, bit_xor-halves a b, d), omega (arith, bit_xor-halves a b, d))

twice_below : (n a b : ℕ) → a ≤ n → b ≤ n → bit_xor (bit_xor a b) b ≡ a
twice_below zero zero zero h k = refl
twice_below zero (suc a) b h k = absurd (omega (arith, h))
twice_below zero a (suc b) h k = absurd (omega (arith, k))
twice_below (suc n) a b h k =
    let ih = twice_below n (a / 2) (b / 2) (omega arith) (omega arith) in
    let p = bit_xor-parts a b in
    omega (
      arith,
      bit_xor-halves (bit_xor a b) b,
      ap (λ (t : ℕ). bit_xor t (b / 2)) p.0,
      ap (λ (t : ℕ). differ t (b % 2)) p.1,
      ih,
      (differ_digits (a % 2) (b % 2) (omega arith) (omega arith)).1,
    )

pub bit_xor_twice : (a b : ℕ) → bit_xor (bit_xor a b) b ≡ a
bit_xor_twice a b = twice_below (a + b) a b (omega arith) (omega arith)

pub bit_xor-lt : (k a b : ℕ) → a < 2 ^ k → b < 2 ^ k → bit_xor a b < 2 ^ k
bit_xor-lt zero a b h i =
    let e : a ≡ 0 = omega arith in let f : b ≡ 0 = omega arith in rw (e, f) (omega arith)
bit_xor-lt (suc k) a b h i = omega (
  arith,
  pow-suc 2 k,
  bit_xor-lt k (a / 2) (b / 2) (omega (arith, pow-suc 2 k)) (omega (arith, pow-suc 2 k)),
  bit_xor-halves a b,
  (differ_digits (a % 2) (b % 2) (omega arith) (omega arith)).0,
)

same_below : (n a b : ℕ) → a ≤ n → b ≤ n → bit_xor a b ≡ 0 → a ≡ b
same_below zero a b h k e = omega arith
same_below (suc n) a b h k e =
    let p = bit_xor-parts a b in
    omega (
      arith,
      same_below n (a / 2) (b / 2) (omega arith) (omega arith) (omega (arith, p.0, e)),
      (differ_digits (a % 2) (b % 2) (omega arith) (omega arith)).2 (omega (arith, p.1, e)),
    )

pub bit_xor-zero→≡ : (a b : ℕ) → bit_xor a b ≡ 0 → a ≡ b
bit_xor-zero→≡ a b e = same_below (a + b) a b (omega arith) (omega arith) e

self_below : (n a : ℕ) → a ≤ n → bit_xor a a ≡ 0
self_below zero zero h = refl
self_below zero (suc a) h = absurd (omega (arith, h))
self_below (suc n) a h = omega (
  arith,
  bit_xor-halves a a,
  self_below n (a / 2) (omega arith),
  same_digit (a % 2) (omega arith),
)
  where
    same_digit : (x : ℕ) → x < 2 → differ x x ≡ 0
    same_digit zero h = refl
    same_digit (suc zero) h = refl
    same_digit (suc (suc x)) h = absurd (omega (arith, h))

pub bit_xor_self : (a : ℕ) → bit_xor a a ≡ 0
bit_xor_self a = self_below a a (omega arith)

or_below : (n a b : ℕ) → a ≤ n → b ≤ n → bit_or a b ≡ 0 → (a ≡ 0) × (b ≡ 0)
or_below zero a b h k e = (omega arith, omega arith)
or_below (suc n) a b h k e =
    let g = bit_or-halves a b in
    let ih = or_below n (a / 2) (b / 2) (omega arith) (omega arith) (omega (arith, g, e)) in
    (omega (arith, g, e, ih.0), omega (arith, g, e, ih.1))

pub bit_or-zero→zeros : (a b : ℕ) → bit_or a b ≡ 0 → (a ≡ 0) × (b ≡ 0)
bit_or-zero→zeros a b e = or_below (a + b) a b (omega arith) (omega arith) e

differ_comm : (x y : ℕ) → x < 2 → y < 2 → differ x y ≡ differ y x
differ_comm zero zero h k = refl
differ_comm zero (suc y) h k = refl
differ_comm (suc x) zero h k = refl
differ_comm (suc zero) (suc zero) h k = refl
differ_comm x (suc (suc y)) h k = absurd (omega (arith, k))
differ_comm (suc (suc x)) y h k = absurd (omega (arith, h))

comm_below : (n a b : ℕ) → a ≤ n → b ≤ n → bit_xor a b ≡ bit_xor b a
comm_below zero zero zero h k = refl
comm_below zero (suc a) b h k = absurd (omega (arith, h))
comm_below zero a (suc b) h k = absurd (omega (arith, k))
comm_below (suc n) a b h k = omega (
  arith,
  bit_xor-halves a b,
  bit_xor-halves b a,
  comm_below n (a / 2) (b / 2) (omega arith) (omega arith),
  differ_comm (a % 2) (b % 2) (omega arith) (omega arith),
)

pub bit_xor_comm : (a b : ℕ) → bit_xor a b ≡ bit_xor b a
bit_xor_comm a b = comm_below (a + b) a b (omega arith) (omega arith)

pub bit_xor-zero : (a : ℕ) → bit_xor a 0 ≡ a
bit_xor-zero a = omega (arith, bit_xor_comm a 0, zero-bit_xor a)

-- The digits above and below a place do not meet.
pub bit_xor_split :
    (k p q a b : ℕ)
    → a < 2 ^ k
    → b < 2 ^ k
    → bit_xor (p * 2 ^ k + a) (q * 2 ^ k + b) ≡ bit_xor p q * 2 ^ k + bit_xor a b
bit_xor_split zero p q a b h i =
    let e : a ≡ 0 = omega arith in
    let f : b ≡ 0 = omega arith in
    rw (e, f)
      (omega (
        arith,
        ap (λ (t : ℕ). bit_xor t (q * 1 + 0)) {x = p * 1 + 0} {y = p} (omega arith),
        ap (bit_xor p) {x = q * 1 + 0} {y = q} (omega arith),
        zero-bit_xor 0,
      ))
bit_xor_split (suc k) p q a b h i = omega (
  arith,
  bit_xor-halves (p * 2 ^ suc k + a) (q * 2 ^ suc k + b),
  bit_xor-halves a b,
  ap (λ (t : ℕ). bit_xor t ((q * 2 ^ suc k + b) / 2)) (halved p a),
  ap (bit_xor (p * 2 ^ k + a / 2)) (halved q b),
  ap (λ (t : ℕ). differ t ((q * 2 ^ suc k + b) % 2)) (last p a),
  ap (differ (a % 2)) (last q b),
  ap (λ (t : ℕ). bit_xor p q * t) (pow-suc 2 k),
  bit_xor_split k p q (a / 2) (b / 2) (omega (arith, pow-suc 2 k)) (omega (arith, pow-suc 2 k)),
)
  where
    halved : (x y : ℕ) → (x * 2 ^ suc k + y) / 2 ≡ x * 2 ^ k + y / 2
    halved x y = omega (arith, ap (λ (t : ℕ). x * t) (pow-suc 2 k))

    last : (x y : ℕ) → (x * 2 ^ suc k + y) % 2 ≡ y % 2
    last x y = omega (arith, ap (λ (t : ℕ). x * t) (pow-suc 2 k))
