-- ===== src/Chacha20/KeyStream.antt =====
-- A block of the stream cipher is the message under 64 bytes of a key stream.
use tinyssh.Common.{
  ℕ, zero, suc, ◌+◌, ◌*◌, ◌/◌, ◌%◌, ◌^◌, ◌≤◌, ◌<◌, ◌≡◌, refl, sym, ap, ap₂, ◌∙◌, List, [], ◌∷◌,
  ◌++◌, arith, length, get_or, take, drop, All, length-set, length-take, drop-step,
}
use tinyssh.Chacha20.{
  pack32, add_to, mix_in, quarter_round, two_rounds, rounds, start, xor_words, xor_block,
}
use tinyssh.Chacha20.Blocks.{xor_word_bytes}
use tinyssh.Chacha20.Under.{IsByte, under, xor_bytes, xor_bytes-under}

-- The bytes of a block of the key stream.
unfoldable pub words : List ℕ → List ℕ → List ℕ
unfolding pack32
words [] s = []
words (x ∷ xs) [] = []
words (x ∷ xs) (y ∷ s) = pack32 ((x + y) % 2 ^ 32) ++ words xs s

length-words : (xs s : List ℕ) → length xs ≡ length s → length (words xs s) ≡ 4 * length s
unfolding words pack32
length-words [] [] h = refl
length-words [] (y ∷ s) h = absurd (omega arith)
length-words (x ∷ xs) [] h = absurd (omega arith)
length-words (x ∷ xs) (y ∷ s) h = omega (arith, length-words xs s (omega arith))

byte_at : (m : List ℕ) (i : ℕ) → All IsByte m → get_or m i 0 < 256
byte_at [] i h = omega arith
byte_at (b ∷ m) zero (p, h) = p
byte_at (b ∷ m) (suc i) (p, h) = byte_at m i h

four_bytes :
    (i : List ℕ) (at n : ℕ)
    → at + 4 ≤ length i
    → take (suc (suc (suc (suc n)))) (drop at i)
      ≡ get_or i at 0
        ∷ get_or i (at + 1) 0
        ∷ get_or i (at + 2) 0
        ∷ get_or i (at + 3) 0
        ∷ take n (drop (at + 4) i)
four_bytes i at n h =
    let e1 : suc at ≡ at + 1 = omega arith in
    let e2 : suc (at + 1) ≡ at + 2 = omega arith in
    let e3 : suc (at + 2) ≡ at + 3 = omega arith in
    let e4 : suc (at + 3) ≡ at + 4 = omega arith in
    ap (take (suc (suc (suc (suc n))))) (drop-step i at 0 (omega arith))
    ∙ ap (λ j. get_or i at 0 ∷ take (suc (suc (suc n))) (drop j i)) e1
    ∙ ap (λ l. get_or i at 0 ∷ take (suc (suc (suc n))) l) (drop-step i (at + 1) 0 (omega arith))
    ∙ ap (λ j. get_or i at 0 ∷ get_or i (at + 1) 0 ∷ take (suc (suc n)) (drop j i)) e2
    ∙ ap (λ l. get_or i at 0 ∷ get_or i (at + 1) 0 ∷ take (suc (suc n)) l)
        (drop-step i (at + 2) 0 (omega arith))
    ∙ ap (λ j. get_or i at 0 ∷ get_or i (at + 1) 0 ∷ get_or i (at + 2) 0 ∷ take (suc n) (drop j i))
        e3
    ∙ ap (λ l. get_or i at 0 ∷ get_or i (at + 1) 0 ∷ get_or i (at + 2) 0 ∷ take (suc n) l)
        (drop-step i (at + 3) 0 (omega arith))
    ∙ ap
        (λ j.
          get_or i at 0
          ∷ get_or i (at + 1) 0
          ∷ get_or i (at + 2) 0
          ∷ get_or i (at + 3) 0
          ∷ take n (drop j i))
        e4

-- `XORBLOCK`'s writes are the block's bytes over the message.
xor_words-bytes :
    (xs s i : List ℕ) (at : ℕ)
    → length xs ≡ length s
    → at + 4 * length s ≤ length i
    → All IsByte i
    → xor_words xs s i at ≡ xor_bytes (words xs s) (take (4 * length s) (drop at i))
unfolding xor_words words xor_bytes
xor_words-bytes [] [] i at e h bytes = refl
xor_words-bytes [] (y ∷ s) i at e h bytes = absurd (omega arith)
xor_words-bytes (x ∷ xs) [] i at e h bytes = absurd (omega arith)
xor_words-bytes (x ∷ xs) (y ∷ s) i at e h bytes =
    let more : 4 * length (y ∷ s) ≡ suc (suc (suc (suc (4 * length s)))) = omega arith in
    ap₂ ◌++◌
      (xor_word_bytes w (get_or i at 0) (get_or i (at + 1) 0) (get_or i (at + 2) 0)
        (get_or i (at + 3) 0) i at (omega arith) refl refl refl refl (byte_at i at bytes)
        (byte_at i (at + 1) bytes) (byte_at i (at + 2) bytes) (byte_at i (at + 3) bytes))
      (xor_words-bytes xs s i (at + 4) (omega arith) (omega arith) bytes)
    ∙ sym (
        unfold pack32 in
        ap (xor_bytes (words (x ∷ xs) (y ∷ s)))
          (ap (λ n. take n (drop at i)) more ∙ four_bytes i at (4 * length s) (omega arith)))
  where
    w : ℕ
    w = (x + y) % 2 ^ 32

length-add_to : (x : List ℕ) (a b : ℕ) → length (add_to x a b) ≡ length x
unfolding add_to
length-add_to x a b = length-set x a _

length-mix_in : (x : List ℕ) (d a c : ℕ) → length (mix_in x d a c) ≡ length x
unfolding mix_in
length-mix_in x d a c = length-set x d _

length-quarter_round : (a b c d : ℕ) (x : List ℕ) → length (quarter_round a b c d x) ≡ length x
unfolding quarter_round
length-quarter_round a b c d x = simp (length-mix_in, length-add_to) refl

length-rounds : (n : ℕ) (x : List ℕ) → length (rounds n x) ≡ length x
unfolding rounds two_rounds
length-rounds zero x = refl
length-rounds (suc n) x = length-rounds n (two_rounds x) ∙ simp length-quarter_round refl

-- The block of the key stream with the number `j`, and its bytes one after the other.
unfoldable pub key_block : List ℕ → List ℕ → ℕ → List ℕ
unfolding words
key_block n k j = words (rounds 10 (start n k j)) (start n k j)

unfoldable pub key_byte : List ℕ → List ℕ → ℕ → ℕ
unfolding key_block
key_byte n k i = get_or (key_block n k (i / 64)) (i % 64) 0

length-key_block : (n k : List ℕ) (j : ℕ) → length (key_block n k j) ≡ 64
unfolding key_block
length-key_block n k j =
    length-words (rounds 10 (start n k j)) (start n k j) (length-rounds 10 (start n k j))
    ∙ (unfold start in refl)

block-under :
    (n k m : List ℕ) (j : ℕ)
    → length m ≤ 64
    → xor_bytes (key_block n k j) m ≡ under (key_byte n k) (64 * j) m
unfolding key_byte
block-under n k m j h =
    xor_bytes-under (key_block n k j) m (key_byte n k) (64 * j)
      (omega (arith, length-key_block n k j))
      (λ t l.
        let block : j ≡ (64 * j + t) / 64 = omega (arith, h, l) in
        let place : t ≡ (64 * j + t) % 64 = omega (arith, h, l) in
        ap₂ (λ b p. get_or (key_block n k b) p 0) block place)

pub xor_block-under :
    (n k m : List ℕ) (j : ℕ)
    → 64 ≤ length m
    → All IsByte m
    → xor_block (start n k j) m ≡ under (key_byte n k) (64 * j) (take 64 m)
unfolding xor_block key_block start
xor_block-under n k m j h bytes =
    xor_words-bytes (rounds 10 (start n k j)) (start n k j) m 0 (length-rounds 10 (start n k j)) h
      bytes
    ∙ block-under n k (take 64 m) j (omega (arith, length-take 64 m))

words-All : (xs s : List ℕ) → All IsByte (words xs s)
unfolding words pack32
words-All [] s = tt
words-All (x ∷ xs) [] = tt
words-All (x ∷ xs) (y ∷ s) =
    (omega arith, (omega arith, (omega arith, (omega arith, words-All xs s))))

pub key_byte-lt : (n k : List ℕ) (i : ℕ) → key_byte n k i < 256
unfolding key_byte key_block
key_byte-lt n k i =
    byte_at (key_block n k (i / 64)) (i % 64)
      (words-All (rounds 10 (start n k (i / 64))) (start n k (i / 64)))
