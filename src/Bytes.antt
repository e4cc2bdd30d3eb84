-- ===== src/Bytes.antt =====
-- byte.c, cleanup.c (`purge`) and the big-endian words of cryptoint/crypto_uint32.h.
-- Memory is a list of bytes; `y` at an offset is the pointer `y + at` into it. A byte that is read
-- outside an object is 0 and a write outside is dropped: the theorems have the bounds as hypotheses.
pub mod Copy
pub mod Endian
pub mod Lengths
pub mod Equal
use tinyssh.Common.{ℕ, zero, suc, ◌+◌, ◌*◌, ◌/◌, ◌%◌, ◌^◌, List, [], ◌∷◌, Bool, ◌==◌, set, get_or}
use Prim.Native.Nat.{bit_or, bit_xor}

-- `for (i = ...; i < ylen; ++i) y[i] = x[i]`, with the rounds left.
unfoldable pub copy_loop : List ℕ → ℕ → List ℕ → ℕ → ℕ → List ℕ
copy_loop y at x i zero = y
copy_loop y at x i (suc left) = copy_loop (set y (at + i) (get_or x i 0)) at x (i + 1) left

-- `byte_copy(y + at, ylen, x)` from another object.
unfoldable pub byte_copy : List ℕ → ℕ → ℕ → List ℕ → List ℕ
byte_copy y at ylen x = copy_loop y at x 0 ylen

-- `byte_copy(m + to, ylen, m + from)` inside one object: each round reads what earlier rounds left.
unfoldable pub move_loop : List ℕ → ℕ → ℕ → ℕ → ℕ → List ℕ
move_loop m to from i zero = m
move_loop m to from i (suc left) =
    move_loop (set m (to + i) (get_or m (from + i) 0)) to from (i + 1) left

unfoldable pub byte_move : List ℕ → ℕ → ℕ → ℕ → List ℕ
byte_move m to ylen from = move_loop m to from 0 ylen

unfoldable pub zero_loop : List ℕ → ℕ → ℕ → ℕ → List ℕ
zero_loop y at i zero = y
zero_loop y at i (suc left) = zero_loop (set y (at + i) 0) at (i + 1) left

unfoldable pub byte_zero : List ℕ → ℕ → ℕ → List ℕ
byte_zero y at ylen = zero_loop y at 0 ylen

-- `cleanup_`: the pointer moves on and `ylen` falls.
unfoldable pub purge : List ℕ → ℕ → ℕ → List ℕ
purge y at zero = y
purge y at (suc ylen) = purge (set y at 0) (at + 1) ylen

-- `diff |= x[i] ^ y[i]` over all positions.
unfoldable pub diff_loop : List ℕ → List ℕ → ℕ → ℕ → ℕ → ℕ
diff_loop y x i diff zero = diff
diff_loop y x i diff (suc left) =
    diff_loop y x (i + 1) (bit_or diff (bit_xor (get_or x i 0) (get_or y i 0))) left

-- The answer is `crypto_int16_zero_01(diff)`: whether the sixteen bits are all 0.
unfoldable pub byte_isequal : List ℕ → ℕ → List ℕ → Bool
unfolding diff_loop
byte_isequal y ylen x = diff_loop y x 0 0 ylen == 0

-- The four bytes that `crypto_uint32_store_bigendian` writes.
unfoldable pub store_bigendian : ℕ → List ℕ
store_bigendian x = x / 2 ^ 24 % 256 ∷ x / 2 ^ 16 % 256 ∷ x / 2 ^ 8 % 256 ∷ x % 256 ∷ []

-- `crypto_uint32_load_bigendian(s + at)`: `|=` of bytes at disjoint bits.
unfoldable pub load_bigendian : List ℕ → ℕ → ℕ
load_bigendian s at =
    bit_or
      (bit_or (bit_or (get_or s at 0 * 2 ^ 24) (get_or s (at + 1) 0 * 2 ^ 16))
        (get_or s (at + 2) 0 * 2 ^ 8))
      (get_or s (at + 3) 0)
