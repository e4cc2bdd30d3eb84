-- ===== src/Chacha20/Whole.antt =====
-- The stream cipher as what RFC 8439 says of it: a key stream, byte by byte over the message.
use tinyssh.Common.{
  ℕ, zero, suc, ◌+◌, ◌-◌, ◌*◌, ◌/◌, ◌%◌, ◌^◌, ◌≤◌, ◌<◌, ◌≡◌, refl, sym, ap, ap₂, ◌∙◌, List, [], ◌∷◌,
  ◌++◌, arith, length, take, drop, All, All-drop, All-append, length-take, length-drop,
  length-append, take-append-drop, take-append, ◌==◌, if-false, take-length, take_all,
}
use tinyssh.Bytes.{copy_loop, byte_copy}
use tinyssh.Bytes.Copy.{zeros, splice, length-zeros, byte_copy-splice}
use tinyssh.Chacha20.{start, xor_block, stream_loop, crypto_stream_chacha20_xor}
use tinyssh.Chacha20.Under.{IsByte, under, length-under, under-append}
use tinyssh.Chacha20.KeyStream.{key_byte, xor_block-under}

-- The block behind the whole ones: its bytes are copied before zeros.
padded :
    (m : List ℕ)
    → length m ≤ 64
    → copy_loop (zeros 64) 0 m 0 (length m) ≡ m ++ drop (length m) (zeros 64)
unfolding byte_copy splice
padded m h =
    byte_copy-splice (zeros 64) 0 (length m) m (omega arith) (omega (arith, length-zeros 64))
    ∙ ap (λ t. t ++ drop (0 + length t) (zeros 64)) (take-length m)
    ∙ ap (λ j. m ++ drop j (zeros 64)) (omega arith)

zeros-All : (n : ℕ) → All IsByte (zeros n)
unfolding zeros
zeros-All zero = tt
zeros-All (suc n) = (omega arith, zeros-All n)

last_block :
    (n k m : List ℕ) (j : ℕ)
    → length m < 64
    → All IsByte m
    → take (length m) (xor_block (start n k j) (copy_loop (zeros 64) 0 m 0 (length m)))
      ≡ under (key_byte n k) (64 * j) m
last_block n k m j h bytes =
    ap (λ t. take (length m) (xor_block (start n k j) t)) (padded m (omega (arith, h)))
    ∙ ap (take (length m)) (
        xor_block-under n k o j (omega (arith, size))
          (All-append IsByte m _ bytes (All-drop IsByte (length m) (zeros 64) (zeros-All 64))))
    ∙ ap (λ t. take (length m) (under (key_byte n k) (64 * j) t))
        (take_all 64 o (omega (arith, size)))
    ∙ ap (take (length m)) (under-append (key_byte n k) (64 * j) m (drop (length m) (zeros 64)))
    ∙ take-append (under (key_byte n k) (64 * j) m) _ (length m)
        (sym (length-under (key_byte n k) (64 * j) m))
  where
    o : List ℕ
    o = m ++ drop (length m) (zeros 64)

    size : length o ≡ 64
    size = omega (
      arith,
      h,
      length-append m (drop (length m) (zeros 64)),
      length-drop (length m) (zeros 64),
      length-zeros 64,
    )

-- The counter: only its first 64 bits count.
start_wraps : (n k : List ℕ) (u j : ℕ) → u % 2 ^ 64 ≡ j % 2 ^ 64 → start n k u ≡ start n k j
unfolding start
start_wraps n k u j e =
    let low : u % 2 ^ 32 ≡ j % 2 ^ 32 = omega (arith, e) in
    let high : u / 2 ^ 32 % 2 ^ 32 ≡ j / 2 ^ 32 % 2 ^ 32 = omega (arith, e) in rw (low, high) refl

stream_loop-under :
    (n k m : List ℕ) (u j left : ℕ)
    → u % 2 ^ 64 ≡ j % 2 ^ 64
    → length m / 64 ≡ left
    → All IsByte m
    → stream_loop n k u m (length m) left ≡ under (key_byte n k) (64 * j) m
unfolding stream_loop
stream_loop-under n k [] u j zero e h bytes = unfold under in refl
stream_loop-under n k (b ∷ m) u j zero e h bytes =
    if-false {t = suc (length m) == 0} _ _ (ground arith)
    ∙ ap
        (λ s.
          take (length (b ∷ m)) (xor_block s (copy_loop (zeros 64) 0 (b ∷ m) 0 (length (b ∷ m)))))
        (start_wraps n k u j e)
    ∙ last_block n k (b ∷ m) j (omega (arith, h)) bytes
stream_loop-under n k m u j (suc left) e h bytes =
    let place : 64 * (j + 1) ≡ 64 * j + length (take 64 m) = omega (arith, h, length-take 64 m) in
    let rest : length m - 64 ≡ length (drop 64 m) = omega (arith, length-drop 64 m) in
    ap₂ ◌++◌
      (ap (λ s. xor_block s m) (start_wraps n k u j e)
        ∙ xor_block-under n k m j (omega (arith, h)) bytes)
      (ap (λ l. stream_loop n k ((u + 1) % 2 ^ 64) (drop 64 m) l left) rest
        ∙ stream_loop-under n k (drop 64 m) ((u + 1) % 2 ^ 64) (j + 1) left (omega (arith, e))
            (omega (arith, h, rest)) (All-drop IsByte 64 m bytes)
        ∙ ap (λ p. under (key_byte n k) p (drop 64 m)) place)
    ∙ sym (under-append (key_byte n k) (64 * j) (take 64 m) (drop 64 m))
    ∙ ap (under (key_byte n k) (64 * j)) (take-append-drop 64 m)

-- On a message of bytes of any length, whole blocks or not, the stream cipher is `^` of byte `i` of
-- the message and byte `i % 64` of the key stream's block `i / 64`.
pub crypto_stream_chacha20_xor-under :
    (m n k : List ℕ) → All IsByte m → crypto_stream_chacha20_xor m n k ≡ under (key_byte n k) 0 m
unfolding crypto_stream_chacha20_xor
crypto_stream_chacha20_xor-under m n k bytes =
    stream_loop-under n k m 0 0 (length m / 64) refl refl bytes
