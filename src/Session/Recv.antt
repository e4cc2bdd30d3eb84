-- ===== src/Session/Recv.antt =====
-- packet_channel_recv.c: the client's data, window, end of file and close.
use tinyssh.Common.{
  ℕ, ◌-◌, true, not, ◌==◌, ltb, if◌then◌else◌, drop, Outcome, ok, proto, die_if, ◌>>=◌, ◌>>◌,
}
use tinyssh.Buf.{Buf, buf_purge, buf_putnum8, buf_putnum32}
use tinyssh.Parser.{packetparser_uint8, packetparser_uint32, packetparser_skip, packetparser_end}
use tinyssh.Channel.{
  Channel, channel_put, channel_putextended, channel_puteof, channel_close,
  channel_incrementremotewindow,
}
use tinyssh.Msg
use tinyssh.Packet.{Cipher, channel_packet_limit}
use tinyssh.Packet.Plain.{packet_put}
use tinyssh.Session.{Session}
use tinyssh.Session.Send.{packet_channel_send_eof}

-- The message's type and the channel's number, which all these packets begin with.
unfoldable pub channel_header : Channel → Buf → ℕ → Outcome ℕ
channel_header c b expected = do
  (ch, at) ← packetparser_uint8 b.mem b.len 0
  die_if (not (ch == expected)) proto
  (id, at) ← packetparser_uint32 b.mem b.len at
  die_if (not (id == c.id)) proto
  ok at

-- The string that ends a data packet: its length and the position behind it.
unfoldable pub data_string : Buf → ℕ → Outcome (ℕ × ℕ)
data_string b at = do
  (len, at) ← packetparser_uint32 b.mem b.len at
  die_if (ltb channel_packet_limit len) proto
  at ← packetparser_skip b.mem b.len at len
  at ← packetparser_end b.mem b.len at
  ok (len, at)

unfoldable pub packet_channel_recv_data : Session → Buf → Outcome (Session × Buf)
packet_channel_recv_data s b = do
  at ← channel_header s.channel b Msg.channel_data
  (len, at) ← data_string b at
  c ← channel_put s.channel (drop (at - len) b.mem) len
  b ← buf_purge b
  ok (record s { channel = c }, b)

unfoldable pub packet_channel_recv_extendeddata : Session → Buf → Outcome (Session × Buf)
packet_channel_recv_extendeddata s b = do
  at ← channel_header s.channel b Msg.channel_extended_data
  (type, at) ← packetparser_uint32 b.mem b.len at
  (len, at) ← data_string b at
  c ← channel_putextended s.channel len
  b ← buf_purge b
  ok (record s { channel = c }, b)

unfoldable pub packet_channel_recv_windowadjust : Session → Buf → Outcome (Session × Buf)
packet_channel_recv_windowadjust s b = do
  at ← channel_header s.channel b Msg.channel_window_adjust
  (len, at) ← packetparser_uint32 b.mem b.len at
  at ← packetparser_end b.mem b.len at
  c ← channel_incrementremotewindow s.channel len
  b ← buf_purge b
  ok (record s { channel = c }, b)

unfoldable pub packet_channel_recv_eof : Session → Buf → Outcome (Session × Buf)
packet_channel_recv_eof s b = do
  at ← channel_header s.channel b Msg.channel_eof
  at ← packetparser_end b.mem b.len at
  c ← channel_puteof s.channel
  b ← buf_purge b
  ok (record s { channel = c }, b)

-- The answer to the client's close, unless the server has closed already.
unfoldable pub answer_close : Cipher → Session → Buf → Outcome (Session × Buf)
answer_close cipher s b = if s.packet.flagclosesent then ok (s, b) else (do
  b ← buf_purge b
  b ← buf_putnum8 b Msg.channel_close
  b ← buf_putnum32 b s.channel.id
  p ← packet_put cipher s.packet b
  ok (record s { packet = record p { flagclosesent = true } }, b))

unfoldable pub packet_channel_recv_close : Cipher → Session → Buf → Outcome (Session × Buf)
packet_channel_recv_close cipher s b = do
  at ← channel_header s.channel b Msg.channel_close
  at ← packetparser_end b.mem b.len at
  c ← channel_close s.channel
  (s, b) ← packet_channel_send_eof cipher (record s { channel = c }) b
  (s, b) ← answer_close cipher s b
  b ← buf_purge b
  ok (record s { packet = record (s.packet) { flagchanneleofreceived = true } }, b)
