-- ===== src/Bytes/Endian.antt =====
-- Big-endian words in memory.
use tinyssh.Common.{
  ℕ, ◌+◌, ◌*◌, ◌/◌, ◌%◌, ◌^◌, ◌<◌, ◌≡◌, refl, sym, ap, ◌∙◌, List, [], ◌∷◌, ◌++◌, All, length,
  get_or, drop, get_or-drop, get_or-take, take, ◌≤◌, arith,
}
use tinyssh.Common.Bits.{bit_or_disjoint}
use tinyssh.Bytes.{store_bigendian, load_bigendian}
use Prim.Native.Nat.{bit_or}

abbrev pub IsByte : ℕ → Type 0
IsByte b = b < 256

pub length-store_bigendian : (x : ℕ) → length (store_bigendian x) ≡ 4
unfolding store_bigendian
length-store_bigendian x = refl

pub store_bigendian-zero : store_bigendian 0 ≡ 0 ∷ 0 ∷ 0 ∷ 0 ∷ []
unfolding store_bigendian
store_bigendian-zero = refl

pub store_bigendian-IsByte : (x : ℕ) → All IsByte (store_bigendian x)
unfolding store_bigendian
store_bigendian-IsByte x = omega arith

-- The `|=` of four shifted bytes is their sum.
join_bytes :
    (a b c d : ℕ)
    → a < 256
    → b < 256
    → c < 256
    → d < 256
    → bit_or (bit_or (bit_or (a * 2 ^ 24) (b * 2 ^ 16)) (c * 2 ^ 8)) d
      ≡ a * 2 ^ 24 + b * 2 ^ 16 + c * 2 ^ 8 + d
join_bytes a b c d ha hb hc hd =
    ap (λ t. bit_or (bit_or t (c * 2 ^ 8)) d) first ∙ ap (λ t. bit_or t d) second ∙ third
  where
    first : bit_or (a * 2 ^ 24) (b * 2 ^ 16) ≡ (a * 2 ^ 8 + b) * 2 ^ 16
    first = omega (arith, bit_or_disjoint 24 a (b * 2 ^ 16) (omega arith))

    second : bit_or ((a * 2 ^ 8 + b) * 2 ^ 16) (c * 2 ^ 8) ≡ ((a * 2 ^ 8 + b) * 2 ^ 8 + c) * 2 ^ 8
    second = omega (arith, bit_or_disjoint 16 (a * 2 ^ 8 + b) (c * 2 ^ 8) (omega arith))

    third :
        bit_or (((a * 2 ^ 8 + b) * 2 ^ 8 + c) * 2 ^ 8) d ≡ a * 2 ^ 24 + b * 2 ^ 16 + c * 2 ^ 8 + d
    third = omega (arith, bit_or_disjoint 8 ((a * 2 ^ 8 + b) * 2 ^ 8 + c) d (omega arith))

load_at_front :
    (x : ℕ) (rest : List ℕ) → x < 2 ^ 32 → load_bigendian (store_bigendian x ++ rest) 0 ≡ x
unfolding store_bigendian load_bigendian
load_at_front x rest h =
    join_bytes (x / 2 ^ 24 % 256) (x / 2 ^ 16 % 256) (x / 2 ^ 8 % 256) (x % 256) (omega arith)
      (omega arith) (omega arith) (omega arith)
    ∙ omega arith

load_bigendian-drop : (s : List ℕ) (at : ℕ) → load_bigendian (drop at s) 0 ≡ load_bigendian s at
unfolding load_bigendian
load_bigendian-drop s at =
    rw (byte 0 at (omega arith), byte 1 (at + 1) refl, byte 2 (at + 2) refl, byte 3 (at + 3) refl)
  where
    byte : (i j : ℕ) → at + i ≡ j → get_or (drop at s) i 0 ≡ get_or s j 0
    byte i j e = get_or-drop at i s 0 ∙ ap (λ k. get_or s k 0) e

-- A word below 2 ^ 32 that stands big-endian at `at` is read back.
pub load-store :
    (s : List ℕ) (at x : ℕ) (rest : List ℕ)
    → x < 2 ^ 32
    → drop at s ≡ store_bigendian x ++ rest
    → load_bigendian s at ≡ x
load-store s at x rest h e =
    sym (load_bigendian-drop s at) ∙ ap (λ m. load_bigendian m 0) e ∙ load_at_front x rest h

pub load_bigendian-take :
    (s : List ℕ) (n at : ℕ) → at + 4 ≤ n → load_bigendian (take n s) at ≡ load_bigendian s at
unfolding load_bigendian
load_bigendian-take s n at h = rw (
  get_or-take n at s 0 (omega arith),
  get_or-take n (at + 1) s 0 (omega arith),
  get_or-take n (at + 2) s 0 (omega arith),
  get_or-take n (at + 3) s 0 (omega arith),
)

-- Any four bytes make a word below 2 ^ 32.
pub load_bigendian-lt :
    (s : List ℕ) (at : ℕ)
    → IsByte (get_or s at 0)
    → IsByte (get_or s (at + 1) 0)
    → IsByte (get_or s (at + 2) 0)
    → IsByte (get_or s (at + 3) 0)
    → load_bigendian s at < 2 ^ 32
unfolding load_bigendian
load_bigendian-lt s at ha hb hc hd = rw (join_bytes _ _ _ _ ha hb hc hd) (omega arith)
