-- ===== src/ChachaPoly/Laws.antt =====
-- What the transport needs of its cipher, for sshcrypto_cipher_chachapoly.c.
use tinyssh.Common.{
  ℕ, ◌+◌, ◌-◌, ◌%◌, ◌^◌, ◌≡◌, ◌<◌, refl, List, Bool, true, false, ltb, ◌⊎◌, inl, inr, arith, ok,
  proto, Returns, Returns_ok, Returns-if, Returns-check, Returns_map, Returns_intro, ltb-false→le,
  ◌≤◌,
}
use tinyssh.Buf.{Buf}
use tinyssh.Packet.{Packet, packet_zerobytes}
use tinyssh.Packet.Numbers.{Counts}
use tinyssh.Packet.Rounds.{Consumes}
use tinyssh.Line.Same.{KeepsSession, Same}
use tinyssh.ChachaPoly.{
  Streams, chachapoly, chachapoly_packet_put, chachapoly_packet_get, open_packet, nonce,
  with_onetime_key, tag_matches, sealed_length, auth_bytes,
}

pub chachapoly-Counts : (s : Streams) → Counts (chachapoly s)
unfolding chachapoly_packet_put
chachapoly-Counts s p q b h = ground (arith, h)

abbrev pub key_memory : Streams → Packet → List ℕ
key_memory s p = with_onetime_key s p.recvbuf.mem (nonce p.receivepacketid)

abbrev pub next_length : Streams → Packet → ℕ
next_length s p = sealed_length s p (nonce p.receivepacketid)

-- What `open_packet` has done where it ends well.
record Opens (s : Streams) (p : Packet) (length : ℕ) (n : List ℕ) (q : Packet) : Type 0 where
  shorter : q.recvbuf.len ≡ p.recvbuf.len - (length + auth_bytes + 4)
  counted : q.receivepacketid ≡ (p.receivepacketid + 1) % 2 ^ 32
  authentic : tag_matches s (with_onetime_key s p.recvbuf.mem n) length ≡ true
  same : Same p q

open_packet-eqs :
    (s : Streams) (p q : Packet) (b c : Buf) (length : ℕ) (n : List ℕ) (more : Bool)
    → open_packet s p b length n ≡ ok (more, c, q)
    → (q.recvbuf.len ≡ p.recvbuf.len - (length + auth_bytes + 4))
      × (q.receivepacketid ≡ (p.receivepacketid + 1) % 2 ^ 32)
      × (tag_matches s (with_onetime_key s p.recvbuf.mem n) length ≡ true)
      × (q.flagkeys ≡ p.flagkeys)
      × (q.flagauthorized ≡ p.flagauthorized)
      × (q.flagrekeying ≡ p.flagrekeying)
      × (q.strict_kex ≡ p.strict_kex)
unfolding open_packet
open_packet-eqs s p q b c length n more h = ground (arith, h)

open_packet-Opens :
    (s : Streams) (p : Packet) (b : Buf) (length : ℕ) (n : List ℕ)
    → Returns (open_packet s p b length n) (λ r. Opens s p length n r.2)
open_packet-Opens s p b length n = Returns_intro _ (open_packet s p b length n) (λ (more, c, q) e.
    let k = open_packet-eqs s p q b c length n more e in
    record {
      shorter = k.0;
      counted = k.1;
      authentic = k.2;
      same = record { flagkeys = k.3; flagauthorized = k.4; flagrekeying = k.5; strict_kex = k.6 };
    })

-- Of the whole: nothing but `packet_length` changes, or a packet with a right tag comes off.
pub data Takes (s : Streams) (p : Packet) (b : Buf) : Bool × Buf × Packet → Type 0 where
  nothing : (length : ℕ) → Takes s p b (true, b, record p { packet_length = length })
  taken :
      (more : Bool) (c : Buf) (q : Packet)
      → next_length s p + auth_bytes + 4 ≤ p.recvbuf.len - packet_zerobytes
      → q.recvbuf.len ≡ p.recvbuf.len - (next_length s p + auth_bytes + 4)
      → q.receivepacketid ≡ (p.receivepacketid + 1) % 2 ^ 32
      → tag_matches s (key_memory s p) (next_length s p) ≡ true
      → Same p q
      → Takes s p b (more, c, q)

-- Where `chachapoly_packet_get` ends well, it has either taken nothing, and the buffer and the
-- received bytes are as they were, or it has taken one packet off the received bytes that was all
-- there and whose tag is the one of its bytes under the one-time key of its number.
pub chachapoly_packet_get-Takes :
    (s : Streams) (p : Packet) (b : Buf) → Returns (chachapoly_packet_get s p b) (Takes s p b)
unfolding chachapoly_packet_get
chachapoly_packet_get-Takes s p b =
    Returns-if (Takes s p b) (ltb (p.recvbuf.len - packet_zerobytes) 4) _ _ (λ t. nothing 0)
      (λ t. Returns-check (Takes s p b) _ proto _ (
        Returns-if (Takes s p b)
          (ltb (p.recvbuf.len - packet_zerobytes) (next_length s p + auth_bytes + 4)) _ _
          (λ t. nothing (next_length s p))
          (λ t.
            Returns_map (opened t)
              (open_packet s (record p { packet_length = next_length s p }) b (next_length s p)
                (nonce p.receivepacketid))
              (open_packet-Opens s (record p { packet_length = next_length s p }) b
                (next_length s p) (nonce p.receivepacketid)))))
  where
    opened :
        ltb (p.recvbuf.len - packet_zerobytes) (next_length s p + auth_bytes + 4) ≡ false
        → (r : Bool × Buf × Packet)
        → Opens s
            (record p { packet_length = next_length s p })
            (next_length s p)
            (nonce p.receivepacketid)
            r.2
        → Takes s p b r
    opened t (more, c, q) o =
        taken more c q
          (ltb-false→le (p.recvbuf.len - packet_zerobytes) (next_length s p + auth_bytes + 4) t)
          o.shorter o.counted o.authentic
          (record {
            flagkeys = o.same.flagkeys;
            flagauthorized = o.same.flagauthorized;
            flagrekeying = o.same.flagrekeying;
            strict_kex = o.same.strict_kex;
          })

pub chachapoly-KeepsSession : (s : Streams) → KeepsSession (chachapoly s)
chachapoly-KeepsSession s p q b c more h =
    same (Returns_ok (Takes s p b) _ (chachapoly_packet_get-Takes s p b) h)
  where
    same : {r : Bool × Buf × Packet} → Takes s p b r → Same p r.2
    same (nothing length) = record {
      flagkeys = refl;
      flagauthorized = refl;
      flagrekeying = refl;
      strict_kex = refl;
    }
    same (taken more c q fits short count tag k) = k

pub chachapoly-Consumes : (s : Streams) → Consumes (chachapoly s)
chachapoly-Consumes s p q b c more h e =
    consumed (Returns_ok (Takes s p b) _ (chachapoly_packet_get-Takes s p b) h)
  where
    consumed :
        {r : Bool × Buf × Packet}
        → Takes s p b r
        → (r.1.len ≡ 0) ⊎ (r.2.recvbuf.len < p.recvbuf.len)
    consumed (nothing length) = inl e
    consumed (taken more c q fits short count tag k) = inr (omega (arith, fits, short))
