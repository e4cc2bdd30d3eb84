-- ===== src/ChachaPoly/Forged.antt =====
-- The tag in sshcrypto_cipher_chachapoly.c: what `chachapoly_packet_get` accepts and what it refuses.
use tinyssh.Common.{
  ℕ, ◌+◌, ◌-◌, ◌≤◌, ◌≡◌, ◌≢◌, ◌↔◌, refl, sym, ap, ap₂, ◌∙◌, List, [], ◌++◌, true, false, Bool-cases,
  inl, inr, arith, length, take, drop, take-append-drop, drop-append_add, drop-drop, length-take,
  length-drop, take-append, take_all, le→ltb-false, die, proto,
}
use tinyssh.Bytes.{byte_zero}
use tinyssh.Bytes.Copy.{zeros, length-zeros}
use tinyssh.Buf.{Buf}
use tinyssh.Buf.Contents.{IsValid}
use tinyssh.Packet.{Packet, transport_packet_limit, packet_zerobytes}
use tinyssh.Chacha20.Under.{under, length-under}
use tinyssh.ChachaPoly.{
  Streams, chachapoly_packet_get, open_packet, nonce, xor_at, with_onetime_key, tag_matches,
  auth_bytes, crypto_verify_16,
}
use tinyssh.ChachaPoly.Places.{KeyStream, byte_zero_over, xor_at_over}
use tinyssh.ChachaPoly.Sealed.{zeros-All}
use tinyssh.ChachaPoly.Opens.{crypto_verify_16_iff}
use tinyssh.ChachaPoly.Laws.{next_length, key_memory}

-- The first 32 bytes of the key stream of a packet.
abbrev pub one_time_key : (s : Streams) → KeyStream s → List ℕ → List ℕ
one_time_key s ks n = under (ks.mask n s.clientkey) 0 (zeros 32)

pub length-one_time_key :
    (s : Streams) (ks : KeyStream s) (n : List ℕ) → length (one_time_key s ks n) ≡ 32
length-one_time_key s ks n = length-under (ks.mask n s.clientkey) 0 (zeros 32) ∙ length-zeros 32

-- The sixteen bytes behind a packet of `len` bytes, and the tag of the packet with its length.
abbrev pub received_tag : List ℕ → ℕ → List ℕ
received_tag m len = take 16 (drop (packet_zerobytes + len + 4) m)

abbrev pub right_tag : (s : Streams) → KeyStream s → List ℕ → List ℕ → ℕ → List ℕ
right_tag s ks n m len = s.auth (take (len + 4) (drop packet_zerobytes m)) (one_time_key s ks n)

module _ (s : Streams) (ks : KeyStream s) (n m : List ℕ) where
  pub with_onetime_key_lem :
      32 ≤ length m → with_onetime_key s m n ≡ one_time_key s ks n ++ drop 32 m
  unfolding with_onetime_key
  with_onetime_key_lem h =
      ap (λ z. xor_at s (byte_zero z 0 32) 0 32 n s.clientkey) (sym (take-append-drop 32 m))
      ∙ ap (λ z. xor_at s z 0 32 n s.clientkey)
          (byte_zero_over (take 32 m) (drop 32 m) 32 (omega (arith, h, length-take 32 m)))
      ∙ xor_at_over s ks [] (zeros 32) (drop 32 m) 0 32 n s.clientkey refl (sym (length-zeros 32))
          (zeros-All 32)

  -- Behind the key the memory is as it was.
  pub drop-onetime : (k : ℕ) → 32 ≤ k → drop k (one_time_key s ks n ++ drop 32 m) ≡ drop k m
  drop-onetime k h =
      drop-append_add (one_time_key s ks n) (drop 32 m) (k - 32) k
        (omega (arith, h, length-one_time_key s ks n))
      ∙ drop-drop (k - 32) 32 m
      ∙ ap (λ j. drop j m) {x = 32 + (k - 32)} {y = k} (omega (arith, h))

  -- The comparison in constant time is that of the sixteen bytes.
  pub tag_matches_iff :
      (len : ℕ)
      → packet_zerobytes + len + 4 + 16 ≤ length m
      → (tag_matches s (with_onetime_key s m n) len ≡ true)
        ↔ (received_tag m len ≡ right_tag s ks n m len)
  unfolding tag_matches
  tag_matches_iff len h = (
    (λ e. (crypto_verify_16_iff tag behind long enough).0 (sym compared ∙ e) ∙ whole),
    (λ e. compared ∙ (crypto_verify_16_iff tag behind long enough).1 (e ∙ sym whole)),
  )
    where
      tag : List ℕ
      tag = right_tag s ks n m len

      behind : List ℕ
      behind = drop (packet_zerobytes + len + 4) m

      long : 16 ≤ length tag
      long =
          omega
            (arith, ks.tag_length (take (len + 4) (drop packet_zerobytes m)) (one_time_key s ks n))

      enough : 16 ≤ length behind
      enough = omega (arith, h, length-drop (packet_zerobytes + len + 4) m)

      whole : take 16 tag ≡ tag
      whole = take_all 16 tag (
          omega
            (arith, ks.tag_length (take (len + 4) (drop packet_zerobytes m)) (one_time_key s ks n)))

      compared : tag_matches s (with_onetime_key s m n) len ≡ crypto_verify_16 tag behind
      compared =
          ap (λ z. tag_matches s z len) (with_onetime_key_lem (omega (arith, h)))
          ∙ ap₂ crypto_verify_16
              (ap₂ s.auth (ap (take (len + 4)) (drop-onetime packet_zerobytes (omega arith))) (
                take-append (one_time_key s ks n) (drop 32 m) 32
                  (sym (length-one_time_key s ks n))))
              (drop-onetime (packet_zerobytes + len + 4) (omega arith))

-- With a stream cipher that is exclusive or with a key stream of bytes, and an authenticator of
-- sixteen bytes: a packet that is all there in a valid `recvbuf` and within the limit, whose last
-- sixteen bytes differ from the tag of its encrypted length and body under the one-time key of its
-- number, in whatever byte, ends the process.
pub chachapoly_packet_get-forged :
    (s : Streams) (ks : KeyStream s) (p : Packet) (b : Buf)
    → IsValid p.recvbuf
    → next_length s p ≤ transport_packet_limit - 4 - auth_bytes
    → next_length s p + auth_bytes + 4 ≤ p.recvbuf.len - packet_zerobytes
    → received_tag p.recvbuf.mem (next_length s p)
      ≢ right_tag s ks (nonce p.receivepacketid) p.recvbuf.mem (next_length s p)
    → chachapoly_packet_get s p b ≡ die proto
unfolding chachapoly_packet_get open_packet
chachapoly_packet_get-forged s ks p b v small fits differ =
    rw
      (
        le→ltb-false (p.recvbuf.len - packet_zerobytes) 4 (omega (arith, fits)),
        le→ltb-false (transport_packet_limit - 4 - auth_bytes) (next_length s p) small,
        le→ltb-false (p.recvbuf.len - packet_zerobytes) (next_length s p + auth_bytes + 4) fits,
        refused,
      )
      refl
  where
    refused : tag_matches s (key_memory s p) (next_length s p) ≡ false
    refused = elim (Bool-cases (tag_matches s (key_memory s p) (next_length s p))) [
      | inl same ↦ absurd (
          differ (
            (tag_matches_iff s ks (nonce p.receivepacketid) p.recvbuf.mem (next_length s p)
                (omega (arith, fits, v.held, v.backed))).0
              same))
      | inr other ↦ other
    ]
