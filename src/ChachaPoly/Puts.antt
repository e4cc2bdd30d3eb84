-- ===== src/ChachaPoly/Puts.antt =====
-- chachapoly_packet_put: what it puts behind the queue.
use tinyssh.Common.{
  ℕ, ◌+◌, ◌-◌, ◌%◌, ◌^◌, ◌≤◌, ◌<◌, ◌≡◌, ◌∙◌, List, [], ◌∷◌, ◌++◌, arith, length, set, All, Outcome,
  ok, length-set, ◌>>=◌,
}
use tinyssh.Bytes.{store_bigendian}
use tinyssh.Bytes.Copy.{zeros, length-zeros}
use tinyssh.Bytes.Endian.{length-store_bigendian}
use tinyssh.Buf.{Buf, buf_putpadding, buf_putzerobytes}
use tinyssh.Buf.Contents.{
  IsValid, contents, buf_put-Appends, buf_putzerobytes-Appends, buf_putpadding-Appends,
}
use tinyssh.Buf.Puts.{Appends-elim, counted, buf_putnum32-Appends, buf_putnum8-Appends}
use tinyssh.Packet.{Packet}
use tinyssh.Chacha20.Under.{IsByte}
use tinyssh.ChachaPoly.{
  Streams, seal, nonce, sealed_padding, chachapoly_packet_put, auth_bytes, zero_bytes,
}
use tinyssh.ChachaPoly.Places.{KeyStream}
use tinyssh.ChachaPoly.Put.{SealsUp, full, padding_range, joined, finish}

set-IsValid : (c : Buf) (i v : ℕ) → IsValid c → IsValid (record c { mem = set c.mem i v })
set-IsValid c i v w = record {
  held = w.held;
  backed = omega (arith, w.backed, length-set c.mem i v);
  positive = w.positive;
  small = w.small;
}

-- With a valid queue and a valid buffer of bytes, a stream cipher that is a key stream, a tag of
-- sixteen bytes and a random bit, writing an encrypted packet puts exactly the sealed packet of the
-- payload behind the queue and counts the packet, and changes nothing else of the state: the
-- length under the second key, the body under the first from the second block on, and the tag of
-- both under the start of the first block. The body is a multiple of eight bytes with at least 4
-- bytes of padding. Or the process ends because the packet with its zero bytes does not fit.
pub chachapoly_packet_put-SealsUp :
    (s : Streams) (ks : KeyStream s) (p : Packet) (b : Buf)
    → IsValid p.sendbuf
    → IsValid b
    → All IsByte (contents b)
    → s.random p < 2
    → SealsUp s ks p (contents b) (chachapoly_packet_put s p b)
unfolding chachapoly_packet_put
chachapoly_packet_put-SealsUp s ks p b v w bytes bit =
    Appends-elim P s0 _ _ _ (buf_putzerobytes-Appends s0 v zero_bytes (omega arith))
      (λ s1 v1 a1 e1.
        let n1 = counted s0 s1 _ v v1 e1 in
        Appends-elim P s1 _ _ _ (buf_putnum32-Appends s1 v1 0)
          (λ s2 v2 a2 e2.
            let n2 = counted s1 s2 _ v1 v2 e2 in
            Appends-elim P s2 _ _ _ (buf_putnum8-Appends s2 v2 0)
              (λ s3 v3 a3 e3.
                let n3 = counted s2 s3 _ v2 v3 e3 in
                Appends-elim P s3 _ _ _
                  (buf_put-Appends s3 v3 b.mem b.len (omega (arith, w.held, w.small))
                    (omega (arith, w.held, w.backed)))
                  (λ s4 v4 a4 e4.
                    let n4 = counted s3 s4 payload v3 v4 e4 in
                    let n = s4.len - s0.len - zero_bytes in
                    let range = padding_range n (s.random p) bit in
                    last s1 s2 s3 s4 n (sealed_padding n (s.random p)) e1 e2 e3 e4 v4
                      (a4 ∙ a3 ∙ a2 ∙ a1) (omega (arith, n1, n2, n3, n4, z60, four))
                      (omega (arith, n1, n2, n3, n4, z60, four)) range)
                  (λ o. full 0 (omega arith) (omega (arith, o, n1, n2, n3, z60, four, a1, a2, a3))))
              (λ o. full 0 (omega arith) (omega (arith, o, n1, n2, z60, four, a1, a2))))
          (λ o. full 0 (omega arith) (omega (arith, o, n1, z60, four, a1))))
      (λ o. full 0 (omega arith) (omega (arith, o, z60)))
  where
    s0 : Buf
    s0 = p.sendbuf

    payload : List ℕ
    payload = contents b

    z60 : length (zeros 60) ≡ 60
    z60 = length-zeros 60

    four : length (store_bigendian 0) ≡ 4
    four = length-store_bigendian 0

    P : Outcome Packet → Type 0
    P = SealsUp s ks p payload

    last :
        (s1 s2 s3 s4 : Buf) (n pad : ℕ)
        → contents s1 ≡ contents s0 ++ zeros 60
        → contents s2 ≡ contents s1 ++ store_bigendian 0
        → contents s3 ≡ contents s2 ++ (0 ∷ [])
        → contents s4 ≡ contents s3 ++ payload
        → IsValid s4
        → s4.alloc ≡ s0.alloc
        → s4.len ≡ s0.len + (65 + length payload)
        → n ≡ 5 + length payload
        → (4 ≤ pad) × (pad ≤ 28) × ((n + pad) % 8 ≡ 4)
        → P (do
          c ← buf_putpadding s4 pad
          let c = record c { mem = set c.mem (s0.len + zero_bytes + 4) pad }
          c ← buf_putzerobytes c auth_bytes
          ok (record p {
            sendpacketid = (p.sendpacketid + 1) % 2 ^ 32;
            sendbuf = seal s c s0.len (nonce p.sendpacketid);
          }))
    last s1 s2 s3 s4 n pad e1 e2 e3 e4 v4 same size e range =
        Appends-elim P s4 _ _ _ (buf_putpadding-Appends s4 v4 pad (omega (arith, range.1)))
          (λ s5 v5 a5 e5.
            let n5 = counted s4 s5 _ v4 v5 e5 in
            let at = s0.len + zero_bytes + 4 in
            Appends-elim P (record s5 { mem = set s5.mem at pad }) _ _ _
              (buf_putzerobytes-Appends (record s5 { mem = set s5.mem at pad })
                (set-IsValid s5 at pad v5) auth_bytes (omega arith))
              (λ s6 v6 a6 e6.
                finish s ks p payload v bytes s5 s6 pad n v5 v6 (a6 ∙ a5 ∙ same)
                  (omega (arith, n5, size, length-zeros pad))
                  (joined s0 s1 s2 s3 s4 s5 payload pad e1 e2 e3 e4 e5) e6 range e)
              (λ o.
                full pad (omega (arith, range.1))
                  (omega (arith, o, n5, size, same, a5, length-zeros pad, length-zeros 16))))
          (λ o. full pad (omega (arith, range.1)) (omega (arith, o, size, same, length-zeros pad)))
