-- ===== src/ChachaPoly/Steady.antt =====
-- sshcrypto_cipher_chachapoly.c: the cipher gives no bytes back and adds no fault of the model.
use tinyssh.Common.{◌+◌, proto, ltb, ℕ, ◌-◌, ◌≤◌, List, Bool, arith, Returns_ok}
use tinyssh.Buf.{Buf, buf_put}
use tinyssh.Packet.{Packet, packet_zerobytes}
use tinyssh.Packet.Ends.{Ends, Ends-if, Ends-check, IsSteady}
use tinyssh.ChachaPoly.{Streams, chachapoly, chachapoly_packet_get, open_packet, nonce, auth_bytes}
use tinyssh.ChachaPoly.Laws.{
  Takes, nothing, taken, next_length, chachapoly_packet_get-Takes, chachapoly-Consumes,
}

open_packet-Ends :
    (s : Streams) (p : Packet) (b : Buf) (length : ℕ) (n : List ℕ)
    → Ends (open_packet s p b length n)
unfolding open_packet buf_put
open_packet-Ends s p b length n h = ground (arith, h)

chachapoly_packet_get-Ends :
    (s : Streams) (p : Packet) (b : Buf) → Ends (chachapoly_packet_get s p b)
unfolding chachapoly_packet_get
chachapoly_packet_get-Ends s p b =
    Ends-if (ltb (p.recvbuf.len - packet_zerobytes) 4) _ _ (λ h. absurd (cc))
      (Ends-check _ proto _ (λ h. absurd (cc))
        (Ends-if (ltb (p.recvbuf.len - packet_zerobytes) (next_length s p + auth_bytes + 4)) _ _
          (λ h. absurd (cc))
          (open_packet-Ends s (record p { packet_length = next_length s p }) b (next_length s p)
            (nonce p.receivepacketid))))

pub chachapoly-IsSteady : (s : Streams) → IsSteady (chachapoly s)
chachapoly-IsSteady s = record {
  consumes = chachapoly-Consumes s;
  shrinks =
      λ p q b c more h. shorter (Returns_ok (Takes s p b) _ (chachapoly_packet_get-Takes s p b) h);
  gets = chachapoly_packet_get-Ends s;
}
  where
    shorter :
        {p : Packet} {b : Buf} {r : Bool × Buf × Packet}
        → Takes s p b r
        → (r.2).recvbuf.len ≤ p.recvbuf.len
    shorter (nothing length) = omega arith
    shorter (taken more c q fits short count tag k) = omega (arith, short)
