-- ===== src/Packet/RoundTrip.antt =====
-- From `packet_put_plain` of one side to `packet_get_plain` of the other.
use tinyssh.Common.{
  ℕ, ◌+◌, ◌%◌, ◌^◌, ◌≤◌, ◌<◌, ◌≡◌, ap, ◌∙◌, List, [], ◌++◌, length, Outcome, ok, subst,
}
use tinyssh.Buf.{Buf}
use tinyssh.Buf.Contents.{IsValid, contents}
use tinyssh.Packet.{Packet, packet_zerobytes, transport_packet_limit}
use tinyssh.Packet.Plain.{packet_put_plain, packet_get_plain}
use tinyssh.Packet.Frames.{frame, Sends, queued, full, packet_put_plain-Sends}
use tinyssh.Packet.Receive.{Receives, packet_get_plain-Receives}

sent_frame :
    (p q : Packet) (payload : List ℕ) (o : Outcome Packet)
    → Sends p payload o
    → o ≡ ok q
    → contents q.sendbuf ≡ contents p.sendbuf ++ frame payload
sent_frame p q payload o (queued s v a e) same =
    let known : record p { sendbuf = s; sendpacketid = (p.sendpacketid + 1) % 2 ^ 32 } ≡ q =
      cc same in
    subst {A = Packet} (λ z. contents z.sendbuf ≡ contents p.sendbuf ++ frame payload) known e
sent_frame p q payload o (full over) same = absurd (cc same)

-- What `packet_put_plain` writes with an empty queue, the peer's `packet_get_plain` reads back, when
-- the queue has arrived behind its zero bytes and whatever else has arrived behind it: the payload
-- goes into the peer's buffer, if it fits, and the rest stays. The payload is not empty, and its
-- packet is within the limit of the transport. What `packet_get` then does by the payload's type,
-- such as to pass over SSH_MSG_IGNORE, is not part of this.
pub packet_put_plain-packet_get_plain :
    (p q r : Packet) (b c : Buf) (front rest : List ℕ)
    → IsValid p.sendbuf
    → IsValid b
    → contents p.sendbuf ≡ []
    → 0 < length (contents b)
    → length (frame (contents b)) ≤ transport_packet_limit
    → packet_put_plain p b ≡ ok q
    → IsValid r.recvbuf
    → IsValid c
    → length front ≡ packet_zerobytes
    → contents r.recvbuf ≡ front ++ (contents q.sendbuf ++ rest)
    → Receives r c front (contents b) rest (packet_get_plain r c)
packet_put_plain-packet_get_plain p q r b c front rest v w empty some_payload small put vr vc zeroes
      arrived =
    packet_get_plain-Receives r c front (contents b) rest vr vc zeroes
      (arrived ∙ ap (λ z. front ++ (z ++ rest)) wire) small some_payload
  where
    wire : contents q.sendbuf ≡ frame (contents b)
    wire =
        sent_frame p q (contents b) _ (packet_put_plain-Sends p b v w) put
        ∙ ap (λ z. z ++ frame (contents b)) empty
