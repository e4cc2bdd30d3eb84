-- ===== src/Tests/Wire.antt =====
-- One packet without keys, written and read back.
use tinyssh.Common.{
  ℕ, ◌+◌, ◌%◌, ◌≤◌, ◌<◌, ◌≡◌, refl, ap, List, [], ◌∷◌, ◌++◌, length, length-append, take-length,
  true, ◌⊎◌, ◌^◌, arith, Outcome, ok,
}
use tinyssh.Bytes.Copy.{zeros, length-zeros}
use tinyssh.Buf.Contents.{IsValid, contents}
use tinyssh.Packet.{Packet}
use tinyssh.Packet.Plain.{
  packet_put_plain, packet_get_plain, padding_length, packet_put, reset_send,
}
use tinyssh.Packet.Numbers.{packet_put_numbers, put_plain-Counts}
use tinyssh.Msg
use tinyssh.Packet.Frames.{frame, length-frame, Sends, queued, full, packet_put_plain-Sends}
use tinyssh.Packet.Receive.{Receives}
use tinyssh.Packet.RoundTrip.{packet_put_plain-packet_get_plain}
use tinyssh.Tests.Data.{three, three-IsValid, empty-IsValid, plain, clear}

abbrev payload : List ℕ
payload = 94 ∷ 1 ∷ 2 ∷ []

room_left :
    (p : Packet) (xs : List ℕ) (o : Outcome Packet)
    → Sends p xs o
    → p.sendbuf.len + length (frame xs) < p.sendbuf.alloc
    → (q : Packet) × (o ≡ ok q)
      × (contents q.sendbuf ≡ contents p.sendbuf ++ frame xs)
      × (q.sendpacketid ≡ (p.sendpacketid + 1) % 2 ^ 32)
room_left p xs o (queued s v a e) h =
    (record p { sendbuf = s; sendpacketid = (p.sendpacketid + 1) % 2 ^ 32 }, refl, e, refl)
room_left p xs o (full over) h = absurd (omega (arith, over))

length-frame-payload : length (frame payload) ≡ 24
unfolding padding_length
length-frame-payload = omega (arith, length-frame payload)

-- The sender after it has put the packet.
put :
    (q : Packet) × (packet_put_plain (plain 40) three ≡ ok q)
    × (contents q.sendbuf ≡ [] ++ frame payload)
    × (q.sendpacketid ≡ 8)
put =
    room_left (plain 40) payload (packet_put_plain (plain 40) three)
      (packet_put_plain-Sends (plain 40) three (empty-IsValid 40 (omega arith) (omega arith))
        three-IsValid)
      (omega (arith, length-frame-payload))

-- A peer that has received `xs` behind the zero bytes.
abbrev peer : List ℕ → Packet
peer xs = record (plain 40) {
  recvbuf = record {
    mem = zeros 64 ++ xs;
    len = length (zeros 64 ++ xs);
    alloc = length (zeros 64 ++ xs);
  };
}

peer-IsValid : (xs : List ℕ) → length xs < 1000 → IsValid (peer xs).recvbuf
peer-IsValid xs h = record {
  held = omega arith;
  backed = omega arith;
  positive = omega (arith, length-append (zeros 64) xs, length-zeros 64);
  small = omega (arith, length-append (zeros 64) xs, length-zeros 64);
}

queue_length : length (contents put.0.sendbuf) ≤ 40
queue_length = omega (arith, ap length put.2, length-frame-payload)

packet_put_plain-packet_get_plain_example :
    Receives
      (peer (contents put.0.sendbuf ++ (5 ∷ [])))
      three
      (zeros 64)
      payload
      (5 ∷ [])
      (packet_get_plain (peer (contents put.0.sendbuf ++ (5 ∷ []))) three)
packet_put_plain-packet_get_plain_example =
    packet_put_plain-packet_get_plain (plain 40) put.0 (peer (contents put.0.sendbuf ++ (5 ∷ [])))
      three three (zeros 64) (5 ∷ []) (empty-IsValid 40 (omega arith) (omega arith)) three-IsValid
      refl (omega arith) (omega (arith, length-frame-payload)) put.1
      (peer-IsValid (contents put.0.sendbuf ++ (5 ∷ []))
        (omega (arith, queue_length, length-append (contents put.0.sendbuf) (5 ∷ []))))
      three-IsValid (length-zeros 64)
      (take-length (zeros 64 ++ (contents put.0.sendbuf ++ (5 ∷ []))))

put_ends : packet_put clear (plain 40) three ≡ ok put.0
unfolding packet_put reset_send
put_ends = ground (arith, put.1, put.3)

packet_put_numbers_example :
    ((put.0.sendpacketid ≡ 8) × (put.0.sendpacketid < 2 ^ 32))
    ⊎ ((put.0.sendpacketid ≡ 0) × (94 ≡ Msg.newkeys) × (true ≡ true))
packet_put_numbers_example =
    packet_put_numbers clear (plain 40) put.0 three put_plain-Counts (omega arith) put_ends
