-- ===== src/ChachaPoly/Opens.antt =====
-- The steps of chachapoly_packet_get on memory that holds a sealed packet.
use tinyssh.Common.{
  ℕ, zero, suc, ◌+◌, ◌^◌, ◌≤◌, ◌<◌, ◌≡◌, refl, sym, ap, ap₂, ◌∙◌, List, [], ◌++◌, arith,
  append_assoc, append-nil, length, take, drop, All, All-append, All-drop, length-append,
  length-take, length-drop, drop-append, take-append, take_all, take-append-drop, true, ==_iff, ◌↔◌,
}
use tinyssh.Bytes.{byte_zero, store_bigendian, load_bigendian, diff_loop}
use tinyssh.Bytes.Equal.{diff_loop-zero}
use tinyssh.Bytes.Copy.{zeros, length-zeros}
use tinyssh.Bytes.Endian.{length-store_bigendian, load-store}
use tinyssh.Packet.{packet_zerobytes}
use tinyssh.Chacha20.Under.{IsByte, under, length-under, under-append, under_twice, under-All}
use tinyssh.ChachaPoly.{
  Streams, xor_at, with_onetime_key, tag_matches, crypto_verify_16, verify_loop,
}
use tinyssh.ChachaPoly.Places.{KeyStream, byte_zero_over, xor_at_over}
use tinyssh.ChachaPoly.Sealed.{
  ciphertext, length-sealed_packet, sealed_packet, store_bigendian-All, zeros-All,
}

verify_loop-diff : (x y : List ℕ) (i d n : ℕ) → verify_loop x y i d n ≡ diff_loop y x i d n
unfolding verify_loop diff_loop
verify_loop-diff x y i d zero = refl
verify_loop-diff x y i d (suc n) = verify_loop-diff x y (i + 1) _ n

-- `crypto_verify_16` of objects of sixteen bytes at least answers 0 exactly when the first sixteen
-- are the same.
pub crypto_verify_16_iff :
    (x y : List ℕ)
    → 16 ≤ length x
    → 16 ≤ length y
    → (crypto_verify_16 x y ≡ true) ↔ (take 16 y ≡ take 16 x)
unfolding crypto_verify_16
crypto_verify_16_iff x y h k = (
  (λ e. (same.0 (sym (verify_loop-diff x y 0 0 16) ∙ (==_iff _ 0).0 e)).1),
  (λ e. (==_iff _ 0).1 (verify_loop-diff x y 0 0 16 ∙ same.1 (refl, e))),
)
  where
    same : (diff_loop y x 0 0 16 ≡ 0) ↔ ((◌≡◌ {A = ℕ} 0 0) × (take 16 y ≡ take 16 x))
    same = diff_loop-zero y x 0 0 16 k h

module _ (s : Streams) (ks : KeyStream s) (n front xs behind : List ℕ) (zeroes : length front ≡ 64)
    (front_bytes : All IsByte front) (bytes : All IsByte xs) (short : length xs < 2 ^ 32) where
  abbrev pub f : ℕ → ℕ
  f = ks.mask n s.clientkey

  abbrev pub g : ℕ → ℕ
  g = ks.mask n (drop 32 s.clientkey)

  abbrev pub tag : List ℕ
  tag = s.auth (ciphertext f g xs) (under f 0 (zeros 32))

  abbrev pub hidden_length : List ℕ
  hidden_length = under g 0 (store_bigendian (length xs))

  -- The memory of `recvbuf`.
  abbrev pub arrived : List ℕ
  arrived = front ++ (sealed_packet s.auth f g xs ++ behind)

  pub shown_length :
      load_bigendian (s.stream_xor (take 4 (drop 64 arrived)) n (drop 32 s.clientkey)) 0 ≡ length xs
  shown_length =
      ap (λ z. load_bigendian (s.stream_xor (take 4 z) n (drop 32 s.clientkey)) 0)
        (drop-append front _ 64 (sym zeroes)
          ∙ ap (λ z. z ++ behind) (append_assoc hidden_length (under f 64 xs) tag)
          ∙ append_assoc hidden_length (under f 64 xs ++ tag) behind)
      ∙ ap (λ z. load_bigendian (s.stream_xor z n (drop 32 s.clientkey)) 0)
          (take-append hidden_length _ 4 (
            sym (
              length-under g 0 (store_bigendian (length xs)) ∙ length-store_bigendian (length xs))))
      ∙ ap (λ z. load_bigendian z 0)
          (ks.xored hidden_length n (drop 32 s.clientkey) (
              under-All g 0 (store_bigendian (length xs)) (ks.byte n (drop 32 s.clientkey))
                (store_bigendian-All (length xs)))
            ∙ under_twice g 0 (store_bigendian (length xs)))
      ∙ load-store (store_bigendian (length xs)) 0 (length xs) [] short
          (sym (append-nil (store_bigendian (length xs))))

  -- The memory with the one-time key.
  abbrev pub onetime : List ℕ
  onetime = under f 0 (zeros 32) ++ drop 32 front

  length-onetime : length onetime ≡ 64
  length-onetime = omega (
    arith,
    zeroes,
    length-append (under f 0 (zeros 32)) (drop 32 front),
    length-under f 0 (zeros 32),
    length-zeros 32,
    length-drop 32 front,
  )

  pub keyed_lem : (r : List ℕ) → with_onetime_key s (front ++ r) n ≡ onetime ++ r
  unfolding with_onetime_key
  keyed_lem r =
      ap (λ z. xor_at s (byte_zero z 0 32) 0 32 n s.clientkey)
        (ap (λ z. z ++ r) (sym (take-append-drop 32 front))
          ∙ append_assoc (take 32 front) (drop 32 front) r)
      ∙ ap (λ z. xor_at s z 0 32 n s.clientkey)
          (byte_zero_over (take 32 front) (drop 32 front ++ r) 32
            (omega (arith, zeroes, length-take 32 front)))
      ∙ xor_at_over s ks [] (zeros 32) (drop 32 front ++ r) 0 32 n s.clientkey refl
          (sym (length-zeros 32)) (zeros-All 32)
      ∙ sym (append_assoc (under f 0 (zeros 32)) (drop 32 front) r)

  pub length-sealed : length (sealed_packet s.auth f g xs) ≡ 20 + length xs
  length-sealed = length-sealed_packet s.auth f g xs (ks.tag_length _ _)

  length-ciphertext : length (ciphertext f g xs) ≡ 4 + length xs
  length-ciphertext = omega (
    arith,
    length-append hidden_length (under f 64 xs),
    length-under g 0 (store_bigendian (length xs)),
    length-store_bigendian (length xs),
    length-under f 64 xs,
  )

  -- The packet as the tag, and what it is a tag of.
  grouped :
      onetime ++ (sealed_packet s.auth f g xs ++ behind)
      ≡ (onetime ++ ciphertext f g xs) ++ (tag ++ behind)
  grouped = simp append_assoc refl

  pub genuine :
      tag_matches s (onetime ++ (sealed_packet s.auth f g xs ++ behind)) (length xs) ≡ true
  unfolding tag_matches
  genuine =
      ap₂ crypto_verify_16
        (ap₂ s.auth
          (ap (take (length xs + 4)) (
              drop-append onetime _ packet_zerobytes (sym length-onetime)
              ∙ append_assoc (ciphertext f g xs) tag behind)
            ∙ take-append (ciphertext f g xs) (tag ++ behind) (length xs + 4)
                (omega (arith, length-ciphertext)))
          (ap (take 32) (append_assoc (under f 0 (zeros 32)) (drop 32 front) _)
            ∙ take-append (under f 0 (zeros 32)) _ 32
                (sym (length-under f 0 (zeros 32) ∙ length-zeros 32))))
        (ap (drop (packet_zerobytes + length xs + 4)) grouped
          ∙ drop-append (onetime ++ ciphertext f g xs) (tag ++ behind)
              (packet_zerobytes + length xs + 4)
              (omega (
                arith,
                length-append onetime (ciphertext f g xs),
                length-onetime,
                length-ciphertext,
              )))
      ∙ (crypto_verify_16_iff tag (tag ++ behind) (omega (arith, sixteen))
            (omega (arith, sixteen, length-append tag behind))).1
          (take-append tag behind 16 (sym sixteen) ∙ sym (take_all 16 tag (omega (arith, sixteen))))
    where
      sixteen : length tag ≡ 16
      sixteen = ks.tag_length (ciphertext f g xs) (under f 0 (zeros 32))

  -- Behind the first four bytes everything up to the tag is deciphered in place.
  abbrev before : List ℕ
  before = (drop 4 (under f 0 (zeros 32)) ++ drop 32 front) ++ hidden_length

  length-before : length before ≡ 64
  length-before = omega (
    arith,
    zeroes,
    length-append (drop 4 (under f 0 (zeros 32)) ++ drop 32 front) hidden_length,
    length-append (drop 4 (under f 0 (zeros 32))) (drop 32 front),
    length-drop 4 (under f 0 (zeros 32)),
    length-under f 0 (zeros 32),
    length-zeros 32,
    length-drop 32 front,
    length-under g 0 (store_bigendian (length xs)),
    length-store_bigendian (length xs),
  )

  -- What is left in front of the body.
  pub ahead : List ℕ
  ahead = take 4 (under f 0 (zeros 32)) ++ under f 0 before

  pub length-ahead : length ahead ≡ 68
  unfolding ahead
  length-ahead = omega (
    arith,
    length-append (take 4 (under f 0 (zeros 32))) (under f 0 before),
    length-take 4 (under f 0 (zeros 32)),
    length-under f 0 (zeros 32),
    length-zeros 32,
    length-under f 0 before,
    length-before,
  )

  before_bytes : All IsByte before
  before_bytes =
      All-append IsByte (drop 4 (under f 0 (zeros 32)) ++ drop 32 front) hidden_length
        (All-append IsByte (drop 4 (under f 0 (zeros 32))) (drop 32 front)
          (All-drop IsByte 4 (under f 0 (zeros 32))
            (under-All f 0 (zeros 32) (ks.byte n s.clientkey) (zeros-All 32)))
          (All-drop IsByte 32 front front_bytes))
        (under-All g 0 (store_bigendian (length xs)) (ks.byte n (drop 32 s.clientkey))
          (store_bigendian-All (length xs)))

  pub deciphered :
      xor_at s
        (onetime ++ (sealed_packet s.auth f g xs ++ behind))
        4
        (length xs + packet_zerobytes)
        n
        s.clientkey
      ≡ ahead ++ (xs ++ (tag ++ behind))
  unfolding ahead
  deciphered =
      ap (λ z. xor_at s z 4 (length xs + packet_zerobytes) n s.clientkey)
        (ap (λ z. (z ++ drop 32 front) ++ (sealed_packet s.auth f g xs ++ behind))
            (sym (take-append-drop 4 (under f 0 (zeros 32))))
          ∙ simp append_assoc refl)
      ∙ xor_at_over s ks (take 4 (under f 0 (zeros 32))) (before ++ under f 64 xs) (tag ++ behind) 4
          (length xs + packet_zerobytes) n s.clientkey
          (omega (
            arith,
            length-take 4 (under f 0 (zeros 32)),
            length-under f 0 (zeros 32),
            length-zeros 32,
          ))
          (omega (arith, length-append before (under f 64 xs), length-before, length-under f 64 xs))
          (All-append IsByte before (under f 64 xs) before_bytes
            (under-All f 64 xs (ks.byte n s.clientkey) bytes))
      ∙ ap (λ z. take 4 (under f 0 (zeros 32)) ++ (z ++ (tag ++ behind)))
          (under-append f 0 before (under f 64 xs)
            ∙ ap (λ j. under f 0 before ++ under f j (under f 64 xs)) {y = 64}
                (omega (arith, length-before))
            ∙ ap (◌++◌ (under f 0 before)) (under_twice f 64 xs))
      ∙ simp append_assoc refl
