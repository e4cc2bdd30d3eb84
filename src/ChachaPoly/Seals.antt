-- ===== src/ChachaPoly/Seals.antt =====
-- `seal` and chachapoly_packet_put as a whole.
use tinyssh.Common.{
  ℕ, ◌+◌, ◌-◌, ◌%◌, ◌^◌, ◌≤◌, ◌<◌, ◌≡◌, refl, sym, ap, ap₂, ◌∙◌, List, ◌++◌, arith, append_assoc,
  length, take, drop, All, length-append, drop-append, take-append,
}
use tinyssh.Bytes.{byte_copy, byte_move, purge, store_bigendian}
use tinyssh.Bytes.Copy.{zeros, length-zeros, close_gap, take-close_gap}
use tinyssh.Bytes.Endian.{length-store_bigendian}
use tinyssh.Buf.{Buf}
use tinyssh.Buf.Contents.{contents}
use tinyssh.Chacha20.Under.{IsByte, under, length-under}
use tinyssh.ChachaPoly.{Streams, seal, xor_at}
use tinyssh.ChachaPoly.Places.{KeyStream, byte_copy_over}
use tinyssh.ChachaPoly.Sealed.{
  ciphertext, length-sealed_packet, sealed_packet, stream_step, length_step, cipher_step,
  authenticated, onetime_key,
}

module _ (s : Streams) (ks : KeyStream s) (n : List ℕ) (b : Buf) (front xs tail : List ℕ)
    (at_end : b.len ≡ length front + (80 + length xs))
    (holds : b.mem ≡ front ++ (zeros 60 ++ (zeros 4 ++ (xs ++ (zeros 16 ++ tail)))))
    (bytes : All IsByte xs) (short : length xs < 2 ^ 32) where
  abbrev pos : ℕ
  pos = length front

  abbrev f : ℕ → ℕ
  f = ks.mask n s.serverkey

  abbrev g : ℕ → ℕ
  g = ks.mask n (drop 32 s.serverkey)

  abbrev tag : List ℕ
  tag = s.auth (ciphertext f g xs) (under f 0 (zeros 32))

  abbrev size : ℕ
  size = (b.len - pos - 16 - 4 - 60) % 2 ^ 32

  -- Encrypted, with the encrypted length.
  abbrev encrypted : List ℕ
  encrypted =
      xor_at s
        (byte_copy (xor_at s b.mem pos (b.len - pos - 16) n s.serverkey) (pos + 60) 4
          (store_bigendian size))
        (pos + 60) 4 n (drop 32 s.serverkey)

  encrypted_lem :
      encrypted
      ≡ front
        ++ (under f 0 (zeros 60)
            ++ (under g 0 (store_bigendian (length xs)) ++ (under f 64 xs ++ (zeros 16 ++ tail))))
  encrypted_lem =
      ap
        (λ z.
          xor_at s
            (byte_copy (xor_at s z pos (b.len - pos - 16) n s.serverkey) (pos + 60) 4
              (store_bigendian size))
            (pos + 60) 4 n (drop 32 s.serverkey))
        holds
      ∙ ap
          (λ z.
            xor_at s (byte_copy z (pos + 60) 4 (store_bigendian size)) (pos + 60) 4 n
              (drop 32 s.serverkey))
          (stream_step s ks n front xs (zeros 16 ++ tail) pos refl bytes (b.len - pos - 16)
            (omega (arith, at_end)))
      ∙ ap (λ z. xor_at s z (pos + 60) 4 n (drop 32 s.serverkey))
          (length_step s ks n front xs (zeros 16 ++ tail) pos refl bytes size)
      ∙ cipher_step s ks n front xs (zeros 16 ++ tail) pos refl bytes size
      ∙ ap
          (λ k.
            front
            ++ (under f 0 (zeros 60)
                ++ (under g 0 (store_bigendian k) ++ (under f 64 xs ++ (zeros 16 ++ tail)))))
          counted
    where
      counted : size ≡ length xs
      counted = omega (arith, at_end, short)

  -- With the tag.
  abbrev tagged : List ℕ
  tagged = byte_copy encrypted (b.len - 16) 16 (
      s.auth (take (b.len - 16 - pos - 60) (drop (pos + 60) encrypted))
        (take 32 (drop pos encrypted)))

  tag_lem :
      s.auth
        (take (b.len - 16 - pos - 60) (drop (pos + 60) encrypted))
        (take 32 (drop pos encrypted))
      ≡ tag
  tag_lem =
      ap (λ z. s.auth (take (b.len - 16 - pos - 60) (drop (pos + 60) z)) (take 32 (drop pos z)))
        encrypted_lem
      ∙ ap₂ s.auth
          (authenticated s ks n front xs (zeros 16 ++ tail) pos refl bytes
            (under g 0 (store_bigendian (length xs))) (b.len - 16 - pos - 60)
            (omega (
              arith,
              at_end,
              length-under g 0 (store_bigendian (length xs)),
              length-store_bigendian (length xs),
            )))
          (onetime_key s ks n front xs (zeros 16 ++ tail) pos refl bytes _)

  abbrev whole : List ℕ
  whole = front ++ (under f 0 (zeros 60) ++ (sealed_packet s.auth f g xs ++ tail))

  tagged_lem : tagged ≡ whole
  tagged_lem =
      ap₂ (λ z t. byte_copy z (b.len - 16) 16 t) (encrypted_lem ∙ together (zeros 16 ++ tail))
        tag_lem
      ∙ byte_copy_over (front ++ (under f 0 (zeros 60) ++ ciphertext f g xs)) (zeros 16) tail tag
          (b.len - 16) 16
          (omega (
            arith,
            at_end,
            length-append front (under f 0 (zeros 60) ++ ciphertext f g xs),
            length-append (under f 0 (zeros 60)) (ciphertext f g xs),
            length-append (under g 0 (store_bigendian (length xs))) (under f 64 xs),
            length-under f 0 (zeros 60),
            length-zeros 60,
            length-under g 0 (store_bigendian (length xs)),
            length-store_bigendian (length xs),
            length-under f 64 xs,
          ))
          (sym (length-zeros 16)) (ks.tag_length _ _)
      ∙ simp append_assoc refl
    where
      together :
          (r : List ℕ)
          → front
              ++ (under f 0 (zeros 60)
                  ++ (under g 0 (store_bigendian (length xs)) ++ (under f 64 xs ++ r)))
            ≡ (front ++ (under f 0 (zeros 60) ++ ciphertext f g xs)) ++ r
      together r = simp append_assoc refl

  length-sealed : length (sealed_packet s.auth f g xs) ≡ 20 + length xs
  length-sealed = length-sealed_packet s.auth f g xs (ks.tag_length _ _)

  -- The zero bytes go, and the sealed packet is at the end.
  pub seal-contents : contents (seal s b pos n) ≡ front ++ sealed_packet s.auth f g xs
  unfolding seal close_gap
  seal-contents =
      ap (λ k. take k (purge (byte_move tagged pos m (pos + 60)) k 60)) all
      ∙ ap (λ z. take (pos + m) (close_gap z pos m 60)) tagged_lem
      ∙ take-close_gap whole pos m 60 (omega (arith, room))
      ∙ ap₂ ◌++◌ (take-append front _ pos refl) (
          ap (λ z. take m (drop (pos + 60) z)) (sym (append_assoc front (under f 0 (zeros 60)) _))
          ∙ ap (take m) (
              drop-append (front ++ under f 0 (zeros 60)) (sealed_packet s.auth f g xs ++ tail)
                (pos + 60)
                (omega (
                  arith,
                  length-append front (under f 0 (zeros 60)),
                  length-under f 0 (zeros 60),
                  length-zeros 60,
                )))
          ∙ take-append (sealed_packet s.auth f g xs) tail m (omega (arith, at_end, length-sealed)))
    where
      m : ℕ
      m = b.len - pos - 60

      all : b.len - 60 ≡ pos + m
      all = omega (arith, at_end)

      room : pos + 60 + m ≤ length whole
      room = omega (
        arith,
        at_end,
        length-append front (under f 0 (zeros 60) ++ (sealed_packet s.auth f g xs ++ tail)),
        length-append (under f 0 (zeros 60)) (sealed_packet s.auth f g xs ++ tail),
        length-append (sealed_packet s.auth f g xs) tail,
        length-sealed,
        length-under f 0 (zeros 60),
        length-zeros 60,
      )
