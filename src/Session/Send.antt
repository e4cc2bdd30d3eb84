-- ===== src/Session/Send.antt =====
-- packet_channel_send.c: output of the child, window adjustments, end of file and close.
use tinyssh.Common.{
  ℕ, ◌+◌, ◌-◌, ◌%◌, ◌^◌, [], Bool, true, false, not, ◌&&◌, ◌||◌, ◌==◌, ltb, if◌then◌else◌, length,
  set, Outcome, ok, nomem, die_if, ◌>>=◌, ◌>>◌,
}
use tinyssh.Common.Int.{ℤ, pos, negsuc, is_positive}
use tinyssh.Bytes.{byte_copy}
use tinyssh.Str.{literal}
use tinyssh.Buf.{Buf, buf_purge, buf_putnum8, buf_putnum32, buf_putstring}
use tinyssh.Channel.{
  Channel, ReadResult, channel_bufsize, channel_read, channel_extendedread,
  channel_incrementlocalwindow,
}
use tinyssh.Msg
use tinyssh.Signal.{Signals, ssh_sigstr, ssh_sigstrlong}
use tinyssh.Packet.{Cipher, channel_packet_limit}
use tinyssh.Packet.Plain.{packet_put, packet_putisready, store_at}
use tinyssh.Packet.Queue.{packet_sendall}
use tinyssh.Session.{Session}

-- The most that one data message may carry.
unfoldable pub data_limit : Channel → ℕ
data_limit c =
    if ltb 0 c.maxpacket && ltb c.maxpacket channel_packet_limit
    then c.maxpacket
    else channel_packet_limit

unfoldable pub packet_channel_send_data :
    Cipher → Session → (ℕ → ReadResult) → Buf → Outcome (Session × Buf)
packet_channel_send_data cipher s read b = do
  b ← buf_purge b
  die_if (ltb b.alloc (channel_packet_limit + 9)) nomem
  ready ← packet_putisready s.packet
  if not ready then ok (s, b) else (do
    (zs, c) ← channel_read s.channel read (data_limit s.channel)
    let r = length zs
    if r == 0 then ok (record s { channel = c }, b) else (do
      let m = byte_copy b.mem 9 r zs
      let d = record b { mem = set m 0 Msg.channel_data; len = r + 9 }
      let d = store_at (store_at d 1 c.id) 5 r
      p ← packet_put cipher s.packet d
      d ← buf_purge d
      ok (record s { packet = p; channel = c }, d)))

unfoldable pub packet_channel_send_extendeddata :
    Cipher → Session → (ℕ → ReadResult) → Buf → Outcome (Session × Buf)
packet_channel_send_extendeddata cipher s read b = do
  b ← buf_purge b
  die_if (ltb b.alloc (channel_packet_limit + 13)) nomem
  ready ← packet_putisready s.packet
  if not ready then ok (s, b) else (do
    (zs, c) ← channel_extendedread s.channel read (data_limit s.channel)
    let r = length zs
    if r == 0 then ok (record s { channel = c }, b) else (do
      let m = byte_copy b.mem 13 r zs
      let d = record b { mem = set m 0 Msg.channel_extended_data; len = r + 13 }
      let d = store_at (store_at (store_at d 1 c.id) 5 1) 9 r
      p ← packet_put cipher s.packet d
      d ← buf_purge d
      ok (record s { packet = p; channel = c }, d)))

-- `plus` is computed in `crypto_uint32` from a `long long`.
abbrev pub window_plus : Channel → ℕ
window_plus c = (channel_bufsize + 2 ^ 32 + 2 ^ 32 - c.len0 - c.localwindow) % 2 ^ 32

unfoldable pub packet_channel_send_windowadjust : Cipher → Session → Buf → Outcome (Session × Buf)
packet_channel_send_windowadjust cipher s b =
    let c = s.channel in
    let plus = window_plus c in
    if ltb 65_536 c.len0 || ltb 65_536 c.localwindow || plus == 0 then ok (s, b) else (do
      b ← buf_purge b
      b ← buf_putnum8 b Msg.channel_window_adjust
      b ← buf_putnum32 b c.id
      b ← buf_putnum32 b plus
      c ← channel_incrementlocalwindow c plus
      p ← packet_put cipher s.packet b
      b ← buf_purge b
      ok (record { packet = p; channel = c }, b))

unfoldable pub packet_channel_send_eof : Cipher → Session → Buf → Outcome (Session × Buf)
packet_channel_send_eof cipher s b = if s.packet.flageofsent then ok (s, b) else (do
  b ← buf_purge b
  b ← buf_putnum8 b Msg.channel_eof
  b ← buf_putnum32 b s.channel.id
  p ← packet_put cipher s.packet b
  b ← buf_purge b
  ok (record s { packet = record p { flageofsent = true } }, b))

-- A C `int` as `crypto_uint32`.
abbrev to_u32 : ℤ → ℕ
to_u32 (pos n) = n % 2 ^ 32
to_u32 (negsuc n) = (2 ^ 32 - 1 - n % 2 ^ 32) % 2 ^ 32

-- The request that reports how the child ended.
report : Signals → Channel → ℤ → ℤ → Buf → Outcome Buf
report signals c exitsignal exitcode b =
    if is_positive exitsignal
    then (do
      b ← buf_purge b
      b ← buf_putnum8 b Msg.channel_request
      b ← buf_putnum32 b c.id
      b ← buf_putstring b (literal "exit-signal")
      b ← buf_putnum8 b 0
      b ← buf_putstring b (ssh_sigstr signals (to_u32 exitsignal))
      b ← buf_putnum8 b 0
      b ← buf_putstring b (ssh_sigstrlong signals (to_u32 exitsignal))
      buf_putstring b [])
    else (do
      b ← buf_purge b
      b ← buf_putnum8 b Msg.channel_request
      b ← buf_putnum32 b c.id
      b ← buf_putstring b (literal "exit-status")
      b ← buf_putnum8 b 0
      buf_putnum32 b (to_u32 exitcode))

-- SSH_MSG_CHANNEL_CLOSE, queued and written.
put_close : Cipher → Session → Bool → Buf → Outcome (Bool × Session × Buf)
put_close cipher s written b = do
  b ← buf_purge b
  b ← buf_putnum8 b Msg.channel_close
  b ← buf_putnum32 b s.channel.id
  p ← packet_put cipher s.packet b
  let (sent, q) = packet_sendall p written
  if not sent then ok (false, record s { packet = q }, b) else (do
    b ← buf_purge b
    ok (true, record s { packet = record q { flagclosesent = true } }, b))

-- `first` and `second` tell of the two calls of `packet_sendall` whether all was written.
unfoldable pub packet_channel_send_close :
    Cipher → Signals → Session → Bool → Bool → Buf → ℤ → ℤ → Outcome (Bool × Session × Buf)
unfolding report put_close
packet_channel_send_close cipher signals s first second b exitsignal exitcode = do
  (s, b) ← packet_channel_send_eof cipher s b
  if s.packet.flagclosesent then ok (true, s, b) else (do
    b ← report signals s.channel exitsignal exitcode b
    p ← packet_put cipher s.packet b
    b ← buf_purge b
    let (sent, q) = packet_sendall p first
    if not sent
        then ok (false, record s { packet = q }, b)
        else put_close cipher (record s { packet = q }) second b)
