-- ===== src/Packet/Plain.antt =====
-- packet_put.c and the plain half of packet_get.c: packets before the keys are in use.
use tinyssh.Common.{
  ℕ, ◌+◌, ◌-◌, ◌*◌, ◌%◌, ◌^◌, Bool, true, ◌&&◌, ◌==◌, ltb, leb, if◌then◌else◌, set, get_or, drop,
  Outcome, ok, proto, packet_too_long, send_overflow, die_if, ◌>>=◌, ◌>>◌,
}
use tinyssh.Bytes.{byte_copy, byte_move, purge, store_bigendian, load_bigendian}
use tinyssh.Buf.{Buf, buf_put, buf_putnum32, buf_putnum8, buf_putzerobytes, buf_ready}
use tinyssh.Msg
use tinyssh.Packet.{Packet, Cipher, transport_packet_limit, packet_zerobytes}

-- `crypto_uint32_store_bigendian(buf + at, x)`.
abbrev pub store_at : Buf → ℕ → ℕ → Buf
store_at b at x = record b { mem = byte_copy b.mem at 4 (store_bigendian x) }

-- `crypto_uint8 paddinglen = 2 * 8 - (n % 8)`.
unfoldable pub padding_length : ℕ → ℕ
padding_length n = (2 * 8 - n % 8) % 2 ^ 8

unfoldable pub packet_put_plain : Packet → Buf → Outcome Packet
unfolding padding_length
packet_put_plain p b = do
  let at = p.sendbuf.len
  s ← buf_putnum32 p.sendbuf 0
  s ← buf_putnum8 s 0
  s ← buf_put s b.mem b.len
  let paddinglen = padding_length (s.len - at)
  s ← buf_putzerobytes s paddinglen
  let t = record s { mem = set s.mem (at + 4) paddinglen }
  ok (record p {
    sendpacketid = (p.sendpacketid + 1) % 2 ^ 32;
    sendbuf = store_at t at (t.len - at - 4);
  })

unfoldable pub packet_putisready : Packet → Outcome Bool
packet_putisready p = buf_ready p.sendbuf transport_packet_limit

-- The strict key exchange starts the count again after SSH_MSG_NEWKEYS.
unfoldable pub reset_send : Packet → Buf → Packet
reset_send p b =
    if get_or b.mem 0 0 == Msg.newkeys && p.strict_kex then record p { sendpacketid = 0 } else p

unfoldable pub packet_put : Cipher → Packet → Buf → Outcome Packet
unfolding reset_send
packet_put cipher p b = do
  q ← if p.flagkeys then cipher.put p b else packet_put_plain p b
  die_if (q.sendpacketid == 0) send_overflow
  ok (reset_send q b)

-- Takes the packet of `n` bytes off the front of the received bytes, behind the zero bytes.
abbrev pub take_off : Buf → ℕ → Buf
take_off r n =
    let l = r.len - packet_zerobytes in
    record r {
      mem =
          purge (byte_move r.mem packet_zerobytes (l - n) (packet_zerobytes + n))
            (packet_zerobytes + (l - n)) n;
      len = r.len - n;
    }

-- The packet of `length + 4` bytes is all there.
unfoldable pub get_whole : Packet → Buf → ℕ → Outcome (Bool × Buf × Packet)
get_whole p b length = do
  let r = p.recvbuf
  let padding = get_or r.mem (packet_zerobytes + 4) 0
  die_if (ltb padding 4) proto
  die_if (leb length (padding + 1)) proto
  b ← buf_put b (drop (packet_zerobytes + 5) r.mem) (length - (padding + 1))
  ok (
    true,
    b,
    record p {
      recvbuf = take_off r (length + 4);
      receivepacketid = (p.receivepacketid + 1) % 2 ^ 32;
    },
  )

-- Without a whole packet nothing changes. `l` is negative before the first `packet_recv`, and then
-- below 4 as well.
unfoldable pub packet_get_plain : Packet → Buf → Outcome (Bool × Buf × Packet)
unfolding get_whole
packet_get_plain p b =
    let r = p.recvbuf in
    let l = r.len - packet_zerobytes in
    let length = load_bigendian r.mem packet_zerobytes in
    if ltb l 4 then ok (true, b, p) else (do
      die_if (ltb (transport_packet_limit - 4) length) packet_too_long
      if ltb l (length + 4) then ok (true, b, p) else get_whole p b length)
