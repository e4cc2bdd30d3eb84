-- ===== src/Packet/Numbers.antt =====
-- The packet numbers, which are the nonces of the cipher.
use tinyssh.Common.{
  ◌+◌, ◌%◌, ◌^◌, ◌<◌, ◌≡◌, sym, ◌∙◌, if-true, if-false, ◌⊎◌, inl, inr, true, arith, get_or, ok,
  >>=-eq-ok, if◌then◌else◌, Bool-cases,
}
use tinyssh.Buf.{Buf}
use tinyssh.Msg
use tinyssh.Packet.{Packet, Cipher}
use tinyssh.Packet.Plain.{packet_put, packet_put_plain}

-- What `packet_put` needs of the cipher: it counts the packet, in 32 bits.
abbrev pub Counts : Cipher → Type 0
Counts cipher =
    (p q : Packet) (b : Buf)
    → cipher.put p b ≡ ok q
    → (q.sendpacketid ≡ (p.sendpacketid + 1) % 2 ^ 32) × (q.strict_kex ≡ p.strict_kex)

pub put_plain-Counts :
    (p q : Packet) (b : Buf)
    → packet_put_plain p b ≡ ok q
    → (q.sendpacketid ≡ (p.sendpacketid + 1) % 2 ^ 32) × (q.strict_kex ≡ p.strict_kex)
unfolding packet_put_plain
put_plain-Counts p q b h = ground (arith, h)

put_any-Counts :
    (cipher : Cipher) (p q : Packet) (b : Buf)
    → Counts cipher
    → (if p.flagkeys then cipher.put p b else packet_put_plain p b) ≡ ok q
    → (q.sendpacketid ≡ (p.sendpacketid + 1) % 2 ^ 32) × (q.strict_kex ≡ p.strict_kex)
put_any-Counts cipher p q b counts h = elim (Bool-cases p.flagkeys) [
  | inl keyed ↦ counts p q b (sym (if-true (cipher.put p b) (packet_put_plain p b) keyed) ∙ h)
  | inr plain ↦
      put_plain-Counts p q b (sym (if-false (cipher.put p b) (packet_put_plain p b) plain) ∙ h)
]

-- After `packet_put` of a transport whose count is below 2 ^ 32, with a cipher that counts its
-- packets in 32 bits, the count is one more than before and has not wrapped; or the packet was
-- SSH_MSG_NEWKEYS of a strict key exchange and the count is 0.
pub packet_put_numbers :
    (cipher : Cipher) (p q : Packet) (b : Buf)
    → Counts cipher
    → p.sendpacketid < 2 ^ 32
    → packet_put cipher p b ≡ ok q
    → ((q.sendpacketid ≡ p.sendpacketid + 1) × (q.sendpacketid < 2 ^ 32))
      ⊎ ((q.sendpacketid ≡ 0) × (get_or b.mem 0 0 ≡ Msg.newkeys) × (p.strict_kex ≡ true))
unfolding packet_put
packet_put_numbers cipher p q b counts small h =
    let (m, e, rest) =
      >>=-eq-ok (if p.flagkeys then cipher.put p b else packet_put_plain p b) _ h in
    ground (arith, rest, put_any-Counts cipher p m b counts e)
