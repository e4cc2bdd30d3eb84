-- ===== src/Tests/Transport.antt =====
-- packet_put.c, packet_get.c, packet_send.c and packet_recv.c at concrete inputs.
use tinyssh.Common.{◌≡◌, refl, ◌≢◌, ◌⊎◌, [], ◌∷◌, ◌++◌, true, arith, if◌then◌else◌, ◌==◌, ok}
use tinyssh.Bytes.{byte_copy, copy_loop, byte_move, move_loop, purge, load_bigendian}
use tinyssh.Bytes.Copy.{zeros}
use tinyssh.Buf.{Buf, is_bad, buf_purge, buf_put}
use tinyssh.Buf.Contents.{contents}
use tinyssh.Channel.{bytes, wrote}
use tinyssh.Packet.{Packet}
use tinyssh.Packet.Plain.{packet_get_plain, get_whole}
use tinyssh.Packet.Get.{
  packet_get, packet_get_any, get_loop, classify, get_round, answer, unfinished,
}
use tinyssh.Packet.Rounds.{get_plain-Consumes, packet_get-finishes}
use tinyssh.Packet.Types.{IsWanted, packet_get-IsWanted, strict_kex_no_skip}
use tinyssh.Packet.Queue.{packet_send, packet_send_keeps, taken, after_recv, after_recv_appends}
use tinyssh.Tests.Data.{three, empty-IsValid, plain, clear}

packet_get-finishes_example : packet_get clear (plain 100) three 0 ≢ ok unfinished
packet_get-finishes_example = packet_get-finishes clear (plain 100) three 0 get_plain-Consumes

strict_kex_no_skip_example :
    get_round clear (plain 100) three 0 ≢ ok (true, answer true three (plain 100), three, plain 100)
strict_kex_no_skip_example =
    strict_kex_no_skip clear (plain 100) (plain 100) three three 0 (answer true three (plain 100))
      refl refl

-- A transport with five bytes to send.
abbrev sending : Packet
sending = record (plain 8) {
  sendbuf = record { mem = 1 ∷ 2 ∷ 3 ∷ 4 ∷ 5 ∷ 0 ∷ []; len = 5; alloc = 6 };
}

packet_send_keeps_example :
    (if sending.sendbuf.len == 0 then [] else taken sending (wrote 2))
      ++ contents (packet_send sending (λ n. wrote (if n == 5 then 2 else 0))).1.sendbuf
    ≡ 1 ∷ 2 ∷ 3 ∷ 4 ∷ 5 ∷ []
packet_send_keeps_example =
    packet_send_keeps sending (λ n. wrote (if n == 5 then 2 else 0))
      (record {
        held = omega arith;
        backed = omega arith;
        positive = omega arith;
        small = omega arith;
      })
      (λ n w e. ground (arith, e))

after_recv_appends_example : contents (after_recv sending (bytes (9 ∷ []))).1.recvbuf ≡ 9 ∷ []
after_recv_appends_example =
    after_recv_appends sending 9 [] (empty-IsValid 8 (omega arith) (omega arith)) (omega arith)

-- Sixteen bytes behind the zero bytes: a packet with SSH_MSG_CHANNEL_DATA and nothing else.
abbrev arrived : Packet
arrived = record (plain 8) {
  recvbuf = record {
    mem = zeros 64 ++ (0 ∷ 0 ∷ 0 ∷ 12 ∷ 10 ∷ 94 ∷ zeros 10);
    len = 80;
    alloc = 80;
  };
}

abbrev emptied : Packet
emptied = record arrived {
  recvbuf = record { mem = zeros 80; len = 64; alloc = 80 };
  receivepacketid = 8;
}

abbrev one : Buf
one = record { mem = 94 ∷ 0 ∷ 0 ∷ 0 ∷ 0 ∷ 0 ∷ 0 ∷ 0 ∷ []; len = 1; alloc = 8 }

got : packet_get clear arrived three 94 ≡ ok (answer true one emptied)
unfolding packet_get get_loop get_round classify buf_purge packet_get_any packet_get_plain get_whole
    zeros is_bad load_bigendian byte_copy copy_loop byte_move move_loop purge buf_put
got = refl

packet_get-IsWanted_example : (one.len ≡ 0) ⊎ IsWanted 94 one
packet_get-IsWanted_example = packet_get-IsWanted clear arrived emptied three one 94 got
