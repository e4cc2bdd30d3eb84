-- ===== src/Tests/RoundTrip.antt =====
-- A packet sealed by one side and opened by the other.
use tinyssh.Common.{
  ℕ, ◌+◌, ◌≤◌, ◌≡◌, refl, ap, List, [], ◌∷◌, ◌++◌, All, length, length-append, take-length, arith,
  Outcome, ok, ◌%◌, ◌^◌,
}
use tinyssh.Bytes.Copy.{zeros, length-zeros}
use tinyssh.Buf.Contents.{IsValid, contents}
use tinyssh.Packet.{Packet}
use tinyssh.Chacha20.{crypto_stream_chacha20_xor}
use tinyssh.Chacha20.Under.{IsByte, under}
use tinyssh.Chacha20.KeyStream.{key_byte}
use tinyssh.Chacha20.Whole.{crypto_stream_chacha20_xor-under}
use tinyssh.ChachaPoly.{Streams, chacha20_streams, chachapoly_packet_put, chachapoly_packet_get}
use tinyssh.ChachaPoly.Places.{KeyStream}
use tinyssh.ChachaPoly.Sealed.{body, zeros-All, length-sealed_packet}
use tinyssh.ChachaPoly.Put.{SealsUp, sealed, full}
use tinyssh.ChachaPoly.Puts.{chachapoly_packet_put-SealsUp}
use tinyssh.ChachaPoly.Opened.{OpensUp}
use tinyssh.ChachaPoly.RoundTrip.{chacha20-KeyStream, chachapoly_packet_put-packet_get}
use tinyssh.Tests.Data.{three, three-IsValid, empty-IsValid, plain}

crypto_stream_chacha20_xor-under_example :
    crypto_stream_chacha20_xor (zeros 70) (zeros 8) (zeros 32)
    ≡ under (key_byte (zeros 8) (zeros 32)) 0 (zeros 70)
crypto_stream_chacha20_xor-under_example =
    crypto_stream_chacha20_xor-under (zeros 70) (zeros 8) (zeros 32) (zeros-All 70)

abbrev null_auth : List ℕ → List ℕ → List ℕ
null_auth m k = zeros 16

length-null_auth : (m k : List ℕ) → length (null_auth m k) ≡ 16
length-null_auth m k = length-zeros 16

abbrev bit : Packet → ℕ
bit p = 1

abbrev sender : Streams
sender = chacha20_streams null_auth bit (zeros 64) (1 ∷ zeros 63)

abbrev sender_stream : KeyStream sender
sender_stream = chacha20-KeyStream null_auth length-null_auth bit (zeros 64) (1 ∷ zeros 63)

three_bytes : All IsByte (contents three)
three_bytes = (omega arith, (omega arith, (omega arith, tt)))

chachapoly_packet_put-SealsUp_example :
    SealsUp sender sender_stream
      (plain 500)
      (contents three)
      (chachapoly_packet_put sender (plain 500) three)
chachapoly_packet_put-SealsUp_example =
    chachapoly_packet_put-SealsUp sender sender_stream (plain 500) three
      (empty-IsValid 500 (omega arith) (omega arith)) three-IsValid three_bytes (omega arith)

-- The sender after it has put the packet.
sealed_up :
    (o : Outcome Packet)
    → SealsUp sender sender_stream (plain 500) (contents three) o
    → (q : Packet) × (o ≡ ok q) × (length (contents q.sendbuf) ≤ 300)
sealed_up o (sealed b pad v a e least most eight) = (
  record (plain 500) { sendpacketid = (7 + 1) % 2 ^ 32; sendbuf = b },
  refl,
  omega (
    arith,
    most,
    ap length e,
    length-append (94 ∷ 1 ∷ 2 ∷ []) (zeros pad),
    length-zeros pad,
    length-sealed_packet null_auth _ _ (body (contents three) pad) (length-zeros 16),
  ),
)
sealed_up o (full pad most over) = absurd (omega (arith, over, most))

put :
    (q : Packet) × (chachapoly_packet_put sender (plain 500) three ≡ ok q)
    × (length (contents q.sendbuf) ≤ 300)
put = sealed_up (chachapoly_packet_put sender (plain 500) three) (
    chachapoly_packet_put-SealsUp sender sender_stream (plain 500) three
      (empty-IsValid 500 (omega arith) (omega arith)) three-IsValid three_bytes (omega arith))

-- The peer with the packet and a byte more behind 64 zero bytes.
abbrev wire : List ℕ
wire = contents put.0.sendbuf ++ (5 ∷ [])

abbrev peer : Packet
peer = record (plain 500) {
  recvbuf = record {
    mem = zeros 64 ++ wire;
    len = length (zeros 64 ++ wire);
    alloc = length (zeros 64 ++ wire);
  };
}

peer-IsValid : IsValid peer.recvbuf
peer-IsValid =
    let e = length-append (zeros 64) wire in
    let f = length-append (contents put.0.sendbuf) (5 ∷ []) in
    record {
      held = omega arith;
      backed = omega arith;
      positive = omega (arith, e, length-zeros 64);
      small = omega (arith, e, f, length-zeros 64, put.2);
    }

chachapoly_packet_put-packet_get_example :
    OpensUp peer three
      (contents three)
      (5 ∷ [])
      (chachapoly_packet_get (chacha20_streams null_auth bit (1 ∷ zeros 63) (zeros 64)) peer three)
chachapoly_packet_put-packet_get_example =
    chachapoly_packet_put-packet_get null_auth length-null_auth bit bit (zeros 64) (1 ∷ zeros 63)
      (1 ∷ zeros 63) (plain 500) put.0 peer three three (zeros 64) (5 ∷ [])
      (empty-IsValid 500 (omega arith) (omega arith)) three-IsValid three_bytes (omega arith)
      (omega arith) refl put.1 (omega (arith, put.2)) peer-IsValid three-IsValid refl refl
      (length-zeros 64) (zeros-All 64) (take-length (zeros 64 ++ wire))
