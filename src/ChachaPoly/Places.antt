-- ===== src/ChachaPoly/Places.antt =====
-- What sshcrypto_cipher_chachapoly.c relies on of its primitives, and how its writes change memory
-- that is known piece by piece.
use tinyssh.Common.{
  ℕ, ◌<◌, ◌≡◌, refl, sym, ap, ◌∙◌, List, [], ◌++◌, arith, length, take, All, length-append,
  drop-append, take-append, take_all,
}
use tinyssh.Bytes.{byte_copy, byte_zero}
use tinyssh.Bytes.Copy.{
  splice, zeros, length-zeros, byte_copy-splice, byte_zero-splice, splice-append,
}
use tinyssh.Chacha20.Under.{IsByte, under, length-under}
use tinyssh.ChachaPoly.{Streams, xor_at, auth_bytes}

-- `stream_xor` lays a key stream of bytes over the message, and a tag has sixteen bytes.
pub record KeyStream (s : Streams) : Type 0 where
  pub mask : List ℕ → List ℕ → ℕ → ℕ
  pub xored : (m n k : List ℕ) → All IsByte m → s.stream_xor m n k ≡ under (mask n k) 0 m
  pub byte : (n k : List ℕ) (i : ℕ) → mask n k i < 256
  pub tag_length : (m k : List ℕ) → length (s.auth m k) ≡ auth_bytes

-- A copy over `x`, which stands behind `a`.
pub byte_copy_over :
    (a x y w : List ℕ) (at n : ℕ)
    → at ≡ length a
    → n ≡ length x
    → length w ≡ n
    → byte_copy (a ++ (x ++ y)) at n w ≡ a ++ (w ++ y)
byte_copy_over a x y w at n e f g =
    byte_copy-splice (a ++ (x ++ y)) at n w (omega arith)
      (omega (arith, length-append a (x ++ y), length-append x y))
    ∙ ap (splice (a ++ (x ++ y)) at) (take_all n w (omega arith))
    ∙ splice-append a (x ++ y) w at e
    ∙ ap (λ z. a ++ (w ++ z)) (drop-append x y (length w) (omega arith))

pub byte_zero_over : (x y : List ℕ) (n : ℕ) → n ≡ length x → byte_zero (x ++ y) 0 n ≡ zeros n ++ y
byte_zero_over x y n e =
    byte_zero-splice (x ++ y) 0 n (omega (arith, length-append x y))
    ∙ splice-append [] (x ++ y) (zeros n) 0 refl
    ∙ ap (◌++◌ (zeros n)) (drop-append x y (length (zeros n)) (omega (arith, length-zeros n)))

module _ (s : Streams) (ks : KeyStream s) where
  pub xor_at_over :
      (a x y : List ℕ) (at len : ℕ) (n key : List ℕ)
      → at ≡ length a
      → len ≡ length x
      → All IsByte x
      → xor_at s (a ++ (x ++ y)) at len n key ≡ a ++ (under (ks.mask n key) 0 x ++ y)
  unfolding xor_at
  xor_at_over a x y at len n key e f bytes =
      ap (λ z. byte_copy (a ++ (x ++ y)) at len (s.stream_xor z n key))
        (ap (take len) (drop-append a (x ++ y) at e) ∙ take-append x y len f)
      ∙ ap (byte_copy (a ++ (x ++ y)) at len) (ks.xored x n key bytes)
      ∙ byte_copy_over a x y (under (ks.mask n key) 0 x) at len e f
          (length-under (ks.mask n key) 0 x ∙ sym f)
