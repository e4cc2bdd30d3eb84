-- ===== src/Chacha20.antt =====
-- crypto_stream_chacha20.c. The sixteen registers are a list; `c` of the stream is what the call
-- writes, and the pointer `m` that moves on is the rest of the message.

pub mod Blocks
pub mod Under
pub mod KeyStream
pub mod Whole
use tinyssh.Common.{
  ◌≡◌, refl, ℕ, zero, suc, ◌+◌, ◌-◌, ◌*◌, ◌/◌, ◌%◌, ◌^◌, List, [], ◌∷◌, ◌++◌, ◌==◌, if◌then◌else◌,
  length, get_or, set, take, drop,
}
use Prim.Native.Nat.{bit_xor}
use tinyssh.Bytes.{copy_loop, zero_loop}
use tinyssh.Bytes.Copy.{zeros}

-- `unpack32(x + at)`
unfoldable pub unpack32 : List ℕ → ℕ → ℕ
unpack32 x at =
    bit_xor
      (bit_xor (bit_xor (get_or x at 0) (get_or x (at + 1) 0 * 2 ^ 8 % 2 ^ 32))
        (get_or x (at + 2) 0 * 2 ^ 16 % 2 ^ 32))
      (get_or x (at + 3) 0 * 2 ^ 24 % 2 ^ 32)

-- The four bytes that `pack32` writes.
unfoldable pub pack32 : ℕ → List ℕ
pack32 u = u % 256 ∷ u / 2 ^ 8 % 256 ∷ u / 2 ^ 16 % 256 ∷ u / 2 ^ 24 % 256 ∷ []

unfoldable pub rotate : ℕ → ℕ → ℕ
rotate x c = bit_xor (x * 2 ^ c % 2 ^ 32) (x / 2 ^ (32 - c))

-- `a += b;`, and `d = ROTATE(d ^ a, c);`, on registers of `x`
unfoldable pub add_to : List ℕ → ℕ → ℕ → List ℕ
add_to x a b = set x a ((get_or x a 0 + get_or x b 0) % 2 ^ 32)

unfoldable pub mix_in : List ℕ → ℕ → ℕ → ℕ → List ℕ
unfolding rotate
mix_in x d a c = set x d (rotate (bit_xor (get_or x d 0) (get_or x a 0)) c)

unfoldable pub quarter_round : ℕ → ℕ → ℕ → ℕ → List ℕ → List ℕ
unfolding add_to mix_in
quarter_round a b c d x =
    let x = mix_in (add_to x a b) d a 16 in
    let x = mix_in (add_to x c d) b c 12 in
    let x = mix_in (add_to x a b) d a 8 in mix_in (add_to x c d) b c 7

unfoldable pub two_rounds : List ℕ → List ℕ
unfolding quarter_round
two_rounds x =
    let x = quarter_round 0 4 8 12 x in
    let x = quarter_round 1 5 9 13 x in
    let x = quarter_round 2 6 10 14 x in
    let x = quarter_round 3 7 11 15 x in
    let x = quarter_round 0 5 10 15 x in
    let x = quarter_round 1 6 11 12 x in
    let x = quarter_round 2 7 8 13 x in quarter_round 3 4 9 14 x

-- Repeated `TWOROUNDS()`.
unfoldable pub rounds : ℕ → List ℕ → List ℕ
unfolding two_rounds
rounds zero x = x
rounds (suc left) x = rounds left (two_rounds x)

-- `s0` to `s3`, `k0` to `k7`, and `n0` to `n3` in the round that `u` counts.
unfoldable pub start : List ℕ → List ℕ → ℕ → List ℕ
unfolding unpack32
start n k u =
    0x61707865
    ∷ 0x3320646e
    ∷ 0x79622d32
    ∷ 0x6b206574
    ∷ unpack32 k 0
    ∷ unpack32 k 4
    ∷ unpack32 k 8
    ∷ unpack32 k 12
    ∷ unpack32 k 16
    ∷ unpack32 k 20
    ∷ unpack32 k 24
    ∷ unpack32 k 28
    ∷ u % 2 ^ 32
    ∷ u / 2 ^ 32 % 2 ^ 32
    ∷ unpack32 n 0
    ∷ unpack32 n 4
    ∷ []

-- `pack32(o + at, (x + s) ^ unpack32(i + at));` over the registers.
unfoldable pub xor_words : List ℕ → List ℕ → List ℕ → ℕ → List ℕ
unfolding pack32 unpack32
xor_words [] s i at = []
xor_words (x ∷ xs) [] i at = []
xor_words (x ∷ xs) (y ∷ s) i at =
    pack32 (bit_xor ((x + y) % 2 ^ 32) (unpack32 i at)) ++ xor_words xs s i (at + 4)

-- What `XORBLOCK` writes.
unfoldable pub xor_block : List ℕ → List ℕ → List ℕ
unfolding rounds xor_words
xor_block s i = xor_words (rounds 10 s) s i 0

-- The loop over whole blocks, with the rounds left, and the block in `b` behind it.
unfoldable pub stream_loop : List ℕ → List ℕ → ℕ → List ℕ → ℕ → ℕ → List ℕ
unfolding start xor_block
stream_loop n k u m l zero =
    if l == 0 then [] else take l (xor_block (start n k u) (copy_loop (zeros 64) 0 m 0 l))
stream_loop n k u m l (suc left) =
    xor_block (start n k u) m ++ stream_loop n k ((u + 1) % 2 ^ 64) (drop 64 m) (l - 64) left

-- `l` is the length of the message.
unfoldable pub crypto_stream_chacha20_xor : List ℕ → List ℕ → List ℕ → List ℕ
unfolding stream_loop
crypto_stream_chacha20_xor m n k = stream_loop n k 0 m (length m) (length m / 64)

-- `for (j = ...; j < l; ++j) c[j] = 0;` and the stream over it.
unfoldable pub crypto_stream_chacha20 : ℕ → List ℕ → List ℕ → List ℕ
unfolding crypto_stream_chacha20_xor zeros zero_loop copy_loop
crypto_stream_chacha20 l n k =
    crypto_stream_chacha20_xor (zeros l) (copy_loop (zeros 8) 0 n 0 8)
      (copy_loop (zeros 32) 0 k 0 32)

-- RFC 8439 section 2.3.2's block in the layout with a counter of eight bytes: the first bytes of the
-- key stream for the key and nonce of zeros.
zero_stream :
    take 8 (crypto_stream_chacha20 64 (zeros 8) (zeros 32))
    ≡ 0x76 ∷ 0xb8 ∷ 0xe0 ∷ 0xad ∷ 0xa0 ∷ 0xf1 ∷ 0x3d ∷ 0x90 ∷ []
unfolding crypto_stream_chacha20
zero_stream = refl
