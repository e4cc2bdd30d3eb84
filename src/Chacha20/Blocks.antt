-- ===== src/Chacha20/Blocks.antt =====
-- XORBLOCK byte by byte: the words of the stream, packed, are its bytes.
use tinyssh.Common.{
  ℕ, ◌+◌, ◌*◌, ◌/◌, ◌%◌, ◌^◌, ◌<◌, ◌≡◌, ap, ap₂, ◌∙◌, List, [], ◌∷◌, arith, get_or,
}
use Prim.Native.Nat.{bit_xor}
use tinyssh.Common.Xor.{bit_xor_split, bit_xor-lt, bit_xor-zero, zero-bit_xor}
use tinyssh.Chacha20.{unpack32, pack32}

-- A word of four bytes.
abbrev word : ℕ → ℕ → ℕ → ℕ → ℕ
word a b c d = ((d * 2 ^ 8 + c) * 2 ^ 8 + b) * 2 ^ 8 + a

pub pack32_bytes :
    (a b c d : ℕ)
    → a < 256
    → b < 256
    → c < 256
    → d < 256
    → pack32 (word a b c d) ≡ a ∷ b ∷ c ∷ d ∷ []
unfolding pack32
pack32_bytes a b c d h i j k =
    let e0 : word a b c d % 256 ≡ a = omega arith in
    let e1 : word a b c d / 2 ^ 8 % 256 ≡ b = omega arith in
    let e2 : word a b c d / 2 ^ 16 % 256 ≡ c = omega arith in
    let e3 : word a b c d / 2 ^ 24 % 256 ≡ d = omega arith in
    ap₂ ◌∷◌ e0 (ap₂ ◌∷◌ e1 (ap₂ ◌∷◌ e2 (ap (λ t. t ∷ []) e3)))

-- Bytes at disjoint places of a word.
beside : (k p a : ℕ) → a < 2 ^ k → bit_xor a (p * 2 ^ k) ≡ p * 2 ^ k + a
beside k p a h =
    let low : a ≡ 0 * 2 ^ k + a = omega arith in
    let high : p * 2 ^ k ≡ p * 2 ^ k + 0 = omega arith in
    ap₂ bit_xor low high
    ∙ bit_xor_split k 0 p a 0 h (omega arith)
    ∙ ap₂ (λ (s t : ℕ). s * 2 ^ k + t) (zero-bit_xor p) (bit_xor-zero a)

pub unpack32_bytes :
    (a b c d : ℕ) (x : List ℕ) (at : ℕ)
    → get_or x at 0 ≡ a
    → get_or x (at + 1) 0 ≡ b
    → get_or x (at + 2) 0 ≡ c
    → get_or x (at + 3) 0 ≡ d
    → a < 256
    → b < 256
    → c < 256
    → d < 256
    → unpack32 x at ≡ word a b c d
unfolding unpack32
unpack32_bytes a b c d x at e f g i ha hb hc hd =
    rw (e, f, g, i)
      (ap₂ (λ s t. bit_xor (bit_xor (bit_xor a s) t) (d * 2 ^ 24 % 2 ^ 32)) eb ec
        ∙ ap (bit_xor (bit_xor (bit_xor a (b * 2 ^ 8)) (c * 2 ^ 16))) ed
        ∙ ap (λ t. bit_xor (bit_xor t (c * 2 ^ 16)) (d * 2 ^ 24)) (beside 8 b a (omega arith))
        ∙ ap (λ t. bit_xor t (d * 2 ^ 24)) (beside 16 c (b * 2 ^ 8 + a) (omega arith))
        ∙ beside 24 d (c * 2 ^ 16 + (b * 2 ^ 8 + a)) (omega arith)
        ∙ whole)
  where
    eb : b * 2 ^ 8 % 2 ^ 32 ≡ b * 2 ^ 8
    eb = omega arith

    ec : c * 2 ^ 16 % 2 ^ 32 ≡ c * 2 ^ 16
    ec = omega arith

    ed : d * 2 ^ 24 % 2 ^ 32 ≡ d * 2 ^ 24
    ed = omega arith

    whole : d * 2 ^ 24 + (c * 2 ^ 16 + (b * 2 ^ 8 + a)) ≡ word a b c d
    whole = omega arith

-- The bytes of a word, and `^` of two words.
word_of :
    (w : ℕ)
    → w < 2 ^ 32
    → w ≡ word (w % 256) (w / 2 ^ 8 % 256) (w / 2 ^ 16 % 256) (w / 2 ^ 24 % 256)
word_of w h = omega arith

xor_word :
    (a b c d e f g h : ℕ)
    → a < 256
    → b < 256
    → c < 256
    → e < 256
    → f < 256
    → g < 256
    → bit_xor (word a b c d) (word e f g h)
      ≡ word (bit_xor a e) (bit_xor b f) (bit_xor c g) (bit_xor d h)
xor_word a b c d e f g h ha hb hc he hf hg =
    bit_xor_split 8 ((d * 2 ^ 8 + c) * 2 ^ 8 + b) ((h * 2 ^ 8 + g) * 2 ^ 8 + f) a e ha he
    ∙ ap (λ (t : ℕ). t * 2 ^ 8 + bit_xor a e)
        (bit_xor_split 8 (d * 2 ^ 8 + c) (h * 2 ^ 8 + g) b f hb hf)
    ∙ ap (λ (t : ℕ). (t * 2 ^ 8 + bit_xor b f) * 2 ^ 8 + bit_xor a e)
        (bit_xor_split 8 d h c g hc hg)

-- A word of the stream over four bytes of the message.
pub xor_word_bytes :
    (w a b c d : ℕ) (x : List ℕ) (at : ℕ)
    → w < 2 ^ 32
    → get_or x at 0 ≡ a
    → get_or x (at + 1) 0 ≡ b
    → get_or x (at + 2) 0 ≡ c
    → get_or x (at + 3) 0 ≡ d
    → a < 256
    → b < 256
    → c < 256
    → d < 256
    → pack32 (bit_xor w (unpack32 x at))
      ≡ bit_xor (w % 256) a
        ∷ bit_xor (w / 2 ^ 8 % 256) b
        ∷ bit_xor (w / 2 ^ 16 % 256) c
        ∷ bit_xor (w / 2 ^ 24 % 256) d
        ∷ []
xor_word_bytes w a b c d x at h e f g i ha hb hc hd =
    ap₂ (λ s t. pack32 (bit_xor s t)) (word_of w h)
      (unpack32_bytes a b c d x at e f g i ha hb hc hd)
    ∙ ap pack32 (
        xor_word (w % 256) (w / 2 ^ 8 % 256) (w / 2 ^ 16 % 256) (w / 2 ^ 24 % 256) a b c d
          (omega arith) (omega arith) (omega arith) ha hb hc)
    ∙ pack32_bytes (bit_xor (w % 256) a) (bit_xor (w / 2 ^ 8 % 256) b)
        (bit_xor (w / 2 ^ 16 % 256) c) (bit_xor (w / 2 ^ 24 % 256) d)
        (bit_xor-lt 8 (w % 256) a (omega arith) ha)
        (bit_xor-lt 8 (w / 2 ^ 8 % 256) b (omega arith) hb)
        (bit_xor-lt 8 (w / 2 ^ 16 % 256) c (omega arith) hc)
        (bit_xor-lt 8 (w / 2 ^ 24 % 256) d (omega arith) hd)
