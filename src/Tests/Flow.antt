-- ===== src/Tests/Flow.antt =====
-- Flow control and the queue to the child at concrete inputs.
use tinyssh.Common.{
  ℕ, ◌≤◌, ◌≡◌, refl, ◌≢◌, [], ◌∷◌, Bool, true, false, arith, ok, die, nomem, if◌then◌else◌, leb,
  Outcome, Returns,
}
use tinyssh.Bytes.{
  byte_copy, copy_loop, byte_zero, zero_loop, load_bigendian, store_bigendian, purge,
}
use tinyssh.Bytes.Copy.{zeros, length-zeros}
use tinyssh.Buf.{
  Buf, is_bad, buf_purge, buf_put, buf_putnum8, buf_putnum32, buf_putzerobytes, buf_puts,
}
use tinyssh.Packet.Plain.{packet_put, packet_put_plain, reset_send, padding_length}
use tinyssh.Parser.{packetparser_uint8, packetparser_uint32, packetparser_skip, packetparser_end}
use tinyssh.Channel.{
  Channel, channel_bufsize, ReadResult, bytes, WriteResult, wrote, channel_put, channel_read,
  channel_write, after_write, channel_incrementlocalwindow,
}
use tinyssh.Channel.Flow.{IsFlow, Obeys, Charges, channel_put-ne-nomem, channel_read-Charges}
use tinyssh.Channel.Input.{
  arrives, flushes, Trace, step, run, handed, IsQueue, flowing, run-IsQueue,
}
use tinyssh.Session.{Session}
use tinyssh.Session.Send.{packet_channel_send_windowadjust}
use tinyssh.Session.Recv.{packet_channel_recv_data, channel_header, data_string}
use tinyssh.Session.Open.{Surroundings, packet_channel_open, parse_open, clamp_maxpacket, confirm}
use tinyssh.Session.Adjust.{send_windowadjust_lem, Adjusts}
use tinyssh.Session.Reach.{here, next, channel_opens, Reach-IsFlow}
use tinyssh.Str.{literal, str_equaln, equal_loop, str_copyn, copy_string, str_len}
use tinyssh.Channel.Session.{
  channel_open, channel_init, set_environment, connection_text, mail_text, opened,
}
use tinyssh.Tests.Data.{plain, empty, empty-IsValid, clear, busy, busy-IsFlow}

channel_put-ne-nomem_example : channel_put busy (1 ∷ 2 ∷ []) 2 ≢ die nomem
channel_put-ne-nomem_example = channel_put-ne-nomem busy (1 ∷ 2 ∷ []) 2 busy-IsFlow (omega arith)

-- The child has written two bytes.
abbrev output : ℕ → ReadResult
output n = bytes (if leb 2 n then 7 ∷ 8 ∷ [] else [])

output-Obeys : Obeys output
output-Obeys n zs e = ground (arith, e)

channel_read-Charges_example : Returns (channel_read busy output 100) (Charges busy 100)
channel_read-Charges_example = channel_read-Charges busy output 100 (omega arith) output-Obeys

abbrev write_one : ℕ → WriteResult
write_one n = wrote (if leb 1 n then 1 else 0)

write_one-le : (n w : ℕ) → write_one n ≡ wrote w → w ≤ n
write_one-le n w e = ground (arith, e)

abbrev start : Trace
start = record { accepted = 104 ∷ 105 ∷ []; delivered = []; channel = busy }

-- Two more bytes arrive.
abbrev fuller : Channel
fuller = record busy { buf0 = byte_copy busy.buf0 2 2 (33 ∷ 10 ∷ []); len0 = 4; localwindow = 998 }

abbrev after : Trace
after = record {
  accepted = 104 ∷ 105 ∷ 33 ∷ 10 ∷ [];
  delivered = 104 ∷ [];
  channel = after_write fuller (wrote 1);
}

ran : run start (arrives (33 ∷ 10 ∷ []) ∷ flushes write_one ∷ []) ≡ ok after
unfolding run step handed channel_put channel_write byte_copy copy_loop
ran = refl

run-IsQueue_example : IsQueue after
run-IsQueue_example =
    run-IsQueue (arrives (33 ∷ 10 ∷ []) ∷ flushes write_one ∷ []) start after
      (omega arith, (write_one-le, tt)) (flowing busy-IsFlow refl) ran

abbrev open_session : Session
open_session = record { packet = plain 40; channel = busy }

-- SSH_MSG_CHANNEL_DATA with the two bytes.
abbrev message : Buf
message = record { mem = 94 ∷ 0 ∷ 0 ∷ 0 ∷ 1 ∷ 0 ∷ 0 ∷ 0 ∷ 2 ∷ 33 ∷ 10 ∷ []; len = 11; alloc = 11 }

abbrev read_message : Buf
read_message = record { mem = zeros 11; len = 0; alloc = 11 }

abbrev fed : Session
fed = record open_session { channel = fuller }

abbrev written : Session
written = record open_session { channel = after_write fuller (wrote 1) }

receives : packet_channel_recv_data open_session message ≡ ok (fed, read_message)
unfolding packet_channel_recv_data channel_header data_string packetparser_uint8 packetparser_uint32
    packetparser_skip packetparser_end channel_put buf_purge purge load_bigendian byte_copy
    copy_loop zeros
receives = refl

writes : channel_write fuller write_one ≡ ok (after_write fuller (wrote 1))
unfolding channel_write
writes = refl

abbrev scratch : Buf
scratch = record { mem = zeros 16; len = 0; alloc = 16 }

-- SSH_MSG_CHANNEL_OPEN of a session, with a window of 512 bytes.
abbrev opening : Buf
opening = record {
  mem =
      90 ∷ 0 ∷ 0 ∷ 0 ∷ 7 ∷ 115 ∷ 101 ∷ 115 ∷ 115 ∷ 105 ∷ 111 ∷ 110 ∷ 0 ∷ 0 ∷ 0 ∷ 0 ∷ 0 ∷ 0 ∷ 2 ∷ 0
      ∷ 0 ∷ 0 ∷ 128 ∷ 0 ∷ [];
  len = 24;
  alloc = 24;
}

abbrev pub around : Surroundings
around = record {
  connection = record {
    localip = literal "10.0.0.1";
    localport = literal "22";
    remoteip = literal "10.0.0.2";
    remoteport = literal "50000";
  };
  environment = record { copies_path = true; sets = λ name value. true };
  maildir = literal "/var/mail";
  user_size = 32;
}

abbrev initial : Session
initial = record {
  packet = plain 60;
  channel = channel_init (zeros channel_bufsize) (zeros 32) (zeros 64);
}

abbrev is_ok : Outcome (Session × Buf × Buf) → Bool
is_ok (ok r) = true
is_ok (die e) = false

state_after :
    (o : Outcome (Session × Buf × Buf))
    → is_ok o ≡ true
    → (t : Session) × (b1 : Buf) × (b2 : Buf) × (o ≡ ok (t, b1, b2))
state_after (ok (t, b1, b2)) h = (t, b1, b2, refl)
state_after (die e) h = absurd (cc)

accepted : is_ok (packet_channel_open clear around initial opening (empty 32)) ≡ true
unfolding packet_channel_open parse_open clamp_maxpacket packetparser_uint8 packetparser_uint32
    packetparser_skip packetparser_end load_bigendian buf_purge buf_putnum8 buf_putnum32 buf_put
    is_bad str_equaln equal_loop str_copyn copy_string str_len channel_open channel_init
    set_environment connection_text mail_text buf_puts opened packet_put packet_put_plain
    buf_putzerobytes padding_length reset_send confirm
accepted = refl

opens :
    (t : Session) × (b1 : Buf) × (b2 : Buf) × (packet_channel_open clear around initial opening
        (empty 32)
      ≡ ok (t, b1, b2))
opens = state_after (packet_channel_open clear around initial opening (empty 32)) accepted

Reach-IsFlow_example : IsFlow opens.0.channel
Reach-IsFlow_example =
    Reach-IsFlow clear (plain 60) (zeros channel_bufsize) (zeros 32) (zeros 64) opens.0
      (omega (arith, length-zeros channel_bufsize))
      (next here (
        channel_opens initial opens.0 around opening (empty 32) opens.1 opens.2 (omega arith)
          opens.3))

-- The client gets 130070 bytes more.
abbrev adjusted : Session
adjusted = record {
  packet = record (plain 40) {
    sendbuf = record {
      mem = 0 ∷ 0 ∷ 0 ∷ 20 ∷ 10 ∷ 93 ∷ 0 ∷ 0 ∷ 0 ∷ 1 ∷ 0 ∷ 1 ∷ 252 ∷ 22 ∷ zeros 26;
      len = 24;
      alloc = 40;
    };
    sendpacketid = 8;
  };
  channel = record busy { localwindow = 131_070 };
}

adjusts : packet_channel_send_windowadjust clear open_session scratch ≡ ok (adjusted, scratch)
unfolding packet_channel_send_windowadjust buf_purge purge buf_putnum8 buf_putnum32 buf_put is_bad
    channel_incrementlocalwindow packet_put packet_put_plain buf_putzerobytes padding_length
    reset_send byte_copy copy_loop byte_zero zero_loop store_bigendian zeros
adjusts = refl

send_windowadjust_lem_example :
    Adjusts clear open_session scratch (adjusted, scratch) × IsFlow adjusted.channel
send_windowadjust_lem_example =
    send_windowadjust_lem clear open_session adjusted scratch scratch busy-IsFlow
      (empty-IsValid 16 (omega arith) (omega arith)) adjusts
