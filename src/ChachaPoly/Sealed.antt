-- ===== src/ChachaPoly/Sealed.antt =====
-- The sealed packets on the wire, as sshcrypto_cipher_chachapoly.c writes them.
use tinyssh.Common.{
  ℕ, zero, suc, ◌+◌, ◌≡◌, refl, sym, ap, ◌∙◌, List, ◌∷◌, ◌++◌, arith, append_assoc, length, take,
  drop, All, All-append, length-append, drop-append, take-append,
}
use tinyssh.Bytes.{byte_copy, store_bigendian}
use tinyssh.Bytes.Copy.{zeros, length-zeros}
use tinyssh.Bytes.Endian.{length-store_bigendian}
use tinyssh.Chacha20.Under.{IsByte, under, length-under}
use tinyssh.ChachaPoly.{Streams, xor_at, auth_bytes}
use tinyssh.ChachaPoly.Places.{KeyStream, byte_copy_over, xor_at_over}

-- The length of the padding, the payload and the padding.
abbrev pub body : List ℕ → ℕ → List ℕ
body payload pad = pad ∷ (payload ++ zeros pad)

-- The length under one key stream, the body under the other from its second block on; and the tag
-- under the first bytes of the latter.
abbrev pub ciphertext : (ℕ → ℕ) → (ℕ → ℕ) → List ℕ → List ℕ
ciphertext f g xs = under g 0 (store_bigendian (length xs)) ++ under f 64 xs

abbrev pub sealed_packet : (List ℕ → List ℕ → List ℕ) → (ℕ → ℕ) → (ℕ → ℕ) → List ℕ → List ℕ
sealed_packet auth f g xs = ciphertext f g xs ++ auth (ciphertext f g xs) (under f 0 (zeros 32))

pub length-sealed_packet :
    (auth : List ℕ → List ℕ → List ℕ) (f g : ℕ → ℕ) (xs : List ℕ)
    → length (auth (ciphertext f g xs) (under f 0 (zeros 32))) ≡ auth_bytes
    → length (sealed_packet auth f g xs) ≡ 20 + length xs
length-sealed_packet auth f g xs e = omega (
  arith,
  e,
  length-append (ciphertext f g xs) (auth (ciphertext f g xs) (under f 0 (zeros 32))),
  length-append (under g 0 (store_bigendian (length xs))) (under f 64 xs),
  length-under g 0 (store_bigendian (length xs)),
  length-store_bigendian (length xs),
  length-under f 64 xs,
)

pub store_bigendian-All : (x : ℕ) → All IsByte (store_bigendian x)
unfolding store_bigendian
store_bigendian-All x = (omega arith, (omega arith, (omega arith, (omega arith, tt))))

pub zeros-All : (n : ℕ) → All IsByte (zeros n)
unfolding zeros
zeros-All zero = tt
zeros-All (suc n) = (omega arith, zeros-All n)

starts : (xs : List ℕ) → length (zeros 60 ++ (zeros 4 ++ xs)) ≡ 64 + length xs
unfolding zeros
starts xs = omega arith

first : (f : ℕ → ℕ) (r : List ℕ) → take 32 (under f 0 (zeros 60) ++ r) ≡ under f 0 (zeros 32)
unfolding zeros under
first f r = refl

parts :
    (f : ℕ → ℕ) (xs : List ℕ)
    → under f 0 (zeros 60 ++ (zeros 4 ++ xs))
      ≡ under f 0 (zeros 60) ++ (under f 60 (zeros 4) ++ under f 64 xs)
unfolding zeros under
parts f xs = refl

module _ (s : Streams) (ks : KeyStream s) (n : List ℕ) where
  abbrev pub f : ℕ → ℕ
  f = ks.mask n s.serverkey

  abbrev pub g : ℕ → ℕ
  g = ks.mask n (drop 32 s.serverkey)

  -- The steps of `seal` on memory that has `front`, 64 zero bytes, the body and room for the tag.
  module _ (front xs tail : List ℕ) (pos : ℕ) (at_end : pos ≡ length front)
      (bytes : All IsByte xs) where
    pub stream_step :
        (len : ℕ)
        → len ≡ 64 + length xs
        → xor_at s (front ++ (zeros 60 ++ (zeros 4 ++ (xs ++ tail)))) pos len n s.serverkey
          ≡ front ++ (under f 0 (zeros 60) ++ (under f 60 (zeros 4) ++ (under f 64 xs ++ tail)))
    stream_step len e =
        ap (λ z. xor_at s (front ++ z) pos len n s.serverkey) (simp append_assoc refl)
        ∙ xor_at_over s ks front (zeros 60 ++ (zeros 4 ++ xs)) tail pos len n s.serverkey at_end
            (e ∙ sym (starts xs))
            (All-append IsByte (zeros 60) _ (zeros-All 60)
              (All-append IsByte (zeros 4) xs (zeros-All 4) bytes))
        ∙ ap (λ z. front ++ (z ++ tail)) (parts f xs)
        ∙ simp append_assoc refl

    abbrev pub start : List ℕ
    start = under f 0 (zeros 60)

    length-start : length start ≡ 60
    length-start = length-under f 0 (zeros 60) ∙ length-zeros 60

    -- The place behind the zero bytes.
    pub regroup : (r : List ℕ) → front ++ (start ++ r) ≡ (front ++ start) ++ r
    regroup r = sym (append_assoc front start r)

    pub behind : pos + 60 ≡ length (front ++ start)
    behind = omega (arith, at_end, length-append front start, length-start)

    pub length_step :
        (w : ℕ)
        → byte_copy
            (front ++ (start ++ (under f 60 (zeros 4) ++ (under f 64 xs ++ tail))))
            (pos + 60)
            4
            (store_bigendian w)
          ≡ front ++ (start ++ (store_bigendian w ++ (under f 64 xs ++ tail)))
    length_step w =
        ap (λ z. byte_copy z (pos + 60) 4 (store_bigendian w)) (regroup _)
        ∙ byte_copy_over (front ++ start) (under f 60 (zeros 4)) (under f 64 xs ++ tail)
            (store_bigendian w) (pos + 60) 4 behind
            (sym (length-under f 60 (zeros 4) ∙ length-zeros 4)) (length-store_bigendian w)
        ∙ sym (regroup _)

    pub cipher_step :
        (w : ℕ)
        → xor_at s
            (front ++ (start ++ (store_bigendian w ++ (under f 64 xs ++ tail))))
            (pos + 60)
            4
            n
            (drop 32 s.serverkey)
          ≡ front ++ (start ++ (under g 0 (store_bigendian w) ++ (under f 64 xs ++ tail)))
    cipher_step w =
        ap (λ z. xor_at s z (pos + 60) 4 n (drop 32 s.serverkey)) (regroup _)
        ∙ xor_at_over s ks (front ++ start) (store_bigendian w) (under f 64 xs ++ tail) (pos + 60) 4
            n (drop 32 s.serverkey) behind (sym (length-store_bigendian w)) (store_bigendian-All w)
        ∙ sym (regroup _)

    -- What the tag is computed from.
    pub authenticated :
        (l : List ℕ) (k : ℕ)
        → k ≡ length l + length xs
        → take k (drop (pos + 60) (front ++ (start ++ (l ++ (under f 64 xs ++ tail)))))
          ≡ l ++ under f 64 xs
    authenticated l k e =
        ap (λ z. take k (drop (pos + 60) z)) (regroup _)
        ∙ ap (take k) (drop-append (front ++ start) _ (pos + 60) behind)
        ∙ ap (take k) (sym (append_assoc l (under f 64 xs) tail))
        ∙ take-append (l ++ under f 64 xs) tail k
            (omega (arith, e, length-append l (under f 64 xs), length-under f 64 xs))

    pub onetime_key :
        (r : List ℕ) → take 32 (drop pos (front ++ (start ++ r))) ≡ under f 0 (zeros 32)
    onetime_key r = ap (take 32) (drop-append front (start ++ r) pos at_end) ∙ first f r
