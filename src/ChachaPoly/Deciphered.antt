-- ===== src/ChachaPoly/Deciphered.antt =====
-- The memory of `recvbuf` after `chachapoly_packet_get` has deciphered it.
use tinyssh.Common.{
  ℕ, ◌+◌, ◌≤◌, ◌≡◌, sym, ap, ◌∙◌, List, ◌++◌, append_assoc, arith, length, take, drop,
  take-append-drop, drop-drop, take-append, length-take, length-drop, length-append, All,
  All-append, All-take, All-drop,
}
use tinyssh.Bytes.Copy.{zeros}
use tinyssh.Packet.{packet_zerobytes}
use tinyssh.Chacha20.Under.{IsByte, under, length-under, under-append, under-All}
use tinyssh.ChachaPoly.{Streams, xor_at, with_onetime_key}
use tinyssh.ChachaPoly.Places.{KeyStream, xor_at_over}
use tinyssh.ChachaPoly.Sealed.{zeros-All}
use tinyssh.ChachaPoly.Forged.{
  one_time_key, length-one_time_key, with_onetime_key_lem, drop-onetime,
}

pub take_within : (k : ℕ) (xs ys : List ℕ) → k ≤ length xs → take k (xs ++ ys) ≡ take k xs
take_within k xs ys h =
    ap (λ z. take k (z ++ ys)) (sym (take-append-drop k xs))
    ∙ ap (take k) (append_assoc (take k xs) (drop k xs) ys)
    ∙ take-append (take k xs) (drop k xs ++ ys) k (omega (arith, h, length-take k xs))

module _ (s : Streams) (ks : KeyStream s) (n m : List ℕ) (len : ℕ) where
  abbrev pub f : ℕ → ℕ
  f = ks.mask n s.clientkey

  -- The packet of `len` bytes under the key stream, from the byte after the first block on.
  abbrev pub deciphered : List ℕ
  deciphered = under f 64 (take len (drop 68 m))

  abbrev pub decrypted : List ℕ
  decrypted = xor_at s (with_onetime_key s m n) 4 (len + packet_zerobytes) n s.clientkey

  pub decrypted_lem :
      All IsByte m
      → 84 + len ≤ length m
      → (front : List ℕ) × (length front ≡ 68)
        × (decrypted ≡ front ++ (deciphered ++ drop (68 + len) m))
  decrypted_lem bytes h = (
    take 4 m₀ ++ under f 0 x,
    omega (arith, length-append (take 4 m₀) (under f 0 x), length-under f 0 x, length-x, length-a),
    ap (λ z. xor_at s z 4 (len + packet_zerobytes) n s.clientkey)
          (with_onetime_key_lem s ks n m (omega (arith, h)) ∙ apart)
        ∙ xor_at_over s ks (take 4 m₀) (x ++ y) rest 4 (len + packet_zerobytes) n s.clientkey
            (sym length-a) (omega (arith, length-append x y, length-x, length-y))
            (All-append IsByte x y (All-take IsByte 64 (drop 4 m₀) (All-drop IsByte 4 m₀ key_bytes))
              (All-take IsByte len (drop 68 m) (All-drop IsByte 68 m bytes)))
        ∙ ap (λ z. take 4 m₀ ++ (z ++ rest))
            (under-append f 0 x y
              ∙ ap (λ i. under f 0 x ++ under f i y) {x = 0 + length x} {y = 64}
                  (omega (arith, length-x)))
        ∙ ap (λ z. take 4 m₀ ++ z) (append_assoc (under f 0 x) deciphered rest)
        ∙ sym (append_assoc (take 4 m₀) (under f 0 x) (deciphered ++ rest))
        ∙ ap (λ z. (take 4 m₀ ++ under f 0 x) ++ (deciphered ++ z)) (drop-drop len 68 m),
  )
    where
      m₀ : List ℕ
      m₀ = one_time_key s ks n ++ drop 32 m

      x : List ℕ
      x = take 64 (drop 4 m₀)

      y : List ℕ
      y = take len (drop 68 m)

      rest : List ℕ
      rest = drop len (drop 68 m)

      length-m₀ : length m₀ ≡ length m
      length-m₀ = omega (
        arith,
        h,
        length-append (one_time_key s ks n) (drop 32 m),
        length-one_time_key s ks n,
        length-drop 32 m,
      )

      length-a : length (take 4 m₀) ≡ 4
      length-a = omega (arith, h, length-m₀, length-take 4 m₀)

      length-x : length x ≡ 64
      length-x = omega (arith, h, length-m₀, length-take 64 (drop 4 m₀), length-drop 4 m₀)

      length-y : length y ≡ len
      length-y = omega (arith, h, length-take len (drop 68 m), length-drop 68 m)

      key_bytes : All IsByte m₀
      key_bytes =
          All-append IsByte (one_time_key s ks n) (drop 32 m)
            (under-All f 0 (zeros 32) (ks.byte n s.clientkey) (zeros-All 32))
            (All-drop IsByte 32 m bytes)

      apart : m₀ ≡ take 4 m₀ ++ ((x ++ y) ++ rest)
      apart =
          sym (take-append-drop 4 m₀)
          ∙ ap (λ z. take 4 m₀ ++ z)
              (sym (take-append-drop 64 (drop 4 m₀))
                ∙ ap (λ z. x ++ z)
                    (drop-drop 64 4 m₀
                      ∙ drop-onetime s ks n m 68 (omega arith)
                      ∙ sym (take-append-drop len (drop 68 m)))
                ∙ sym (append_assoc x y rest))
