-- ===== src/Tests/Sealed.antt =====
-- sshcrypto_cipher_chachapoly.c at concrete inputs.
use tinyssh.Common.{
  ℕ, ◌≡◌, ◌≢◌, refl, ap, List, ◌∷◌, ◌++◌, All, length, get_or, true, arith, Returns, die, proto,
}
use tinyssh.Bytes.Copy.{zeros, length-zeros}
use tinyssh.Buf.Contents.{IsValid}
use tinyssh.Packet.{Packet}
use tinyssh.Chacha20.Under.{IsByte}
use tinyssh.ChachaPoly.{Streams, chacha20_streams, chachapoly_packet_get, sealed_length, nonce}
use tinyssh.ChachaPoly.Places.{KeyStream}
use tinyssh.ChachaPoly.Laws.{next_length}
use tinyssh.ChachaPoly.Forged.{received_tag, right_tag, chachapoly_packet_get-forged}
use tinyssh.ChachaPoly.Authentic.{Accepts, chachapoly_packet_get-Accepts}
use tinyssh.ChachaPoly.RoundTrip.{chacha20-KeyStream}
use tinyssh.Tests.Data.{three, three-IsValid, plain}

-- Primitives that change nothing and tag with zeros.
abbrev pub null_streams : Streams
null_streams = record {
  stream_xor = λ m n k. m;
  auth = λ m k. zeros 16;
  random = λ p. 0;
  serverkey = zeros 128;
  clientkey = zeros 128;
}

-- Twelve bytes with a tag that begins with `first`.
abbrev sealed : ℕ → Packet
sealed first = record (plain 8) {
  flagkeys = true;
  recvbuf = record {
    mem = zeros 64 ++ (0 ∷ 0 ∷ 0 ∷ 12 ∷ 10 ∷ 94 ∷ zeros 10) ++ (first ∷ zeros 15);
    len = 96;
    alloc = 96;
  };
}

-- ChaCha20 and tags of zeros.
abbrev zero_tag : List ℕ → List ℕ → List ℕ
zero_tag m k = zeros 16

length-zero_tag : (m k : List ℕ) → length (zero_tag m k) ≡ 16
length-zero_tag m k = length-zeros 16

abbrev peer : Streams
peer = chacha20_streams zero_tag (λ p. 0) (zeros 64) (zeros 64)

abbrev peer_stream : KeyStream peer
peer_stream = chacha20-KeyStream zero_tag length-zero_tag (λ p. 0) (zeros 64) (zeros 64)

-- The length has been deciphered before.
abbrev awaited : ℕ → Packet
awaited first = record (sealed first) { packet_length = 12 }

awaited-IsValid : (first : ℕ) → IsValid (awaited first).recvbuf
unfolding zeros
awaited-IsValid first = record {
  held = omega arith;
  backed = omega arith;
  positive = omega arith;
  small = omega arith;
}

awaited_bytes : All IsByte (awaited 0).recvbuf.mem
unfolding zeros
awaited_bytes = ground arith

chachapoly_packet_get-Accepts_example :
    Returns
      (chachapoly_packet_get peer (awaited 0) three)
      (Accepts peer peer_stream (awaited 0) three)
chachapoly_packet_get-Accepts_example =
    chachapoly_packet_get-Accepts peer peer_stream (awaited 0) three (awaited-IsValid 0)
      three-IsValid awaited_bytes

next_lem : next_length peer (awaited 1) ≡ 12
unfolding sealed_length
next_lem = refl

tags_differ :
    received_tag (awaited 1).recvbuf.mem (next_length peer (awaited 1))
    ≢ right_tag peer peer_stream
        (nonce (awaited 1).receivepacketid)
        (awaited 1).recvbuf.mem
        (next_length peer (awaited 1))
unfolding zeros sealed_length
tags_differ e = absurd (omega (arith, ap (λ z. get_or z 0 0) e))

chachapoly_packet_get-forged_example : chachapoly_packet_get peer (awaited 1) three ≡ die proto
chachapoly_packet_get-forged_example =
    chachapoly_packet_get-forged peer peer_stream (awaited 1) three (awaited-IsValid 1)
      (omega (arith, next_lem)) (omega (arith, next_lem)) tags_differ
