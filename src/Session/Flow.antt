-- ===== src/Session/Flow.antt =====
-- Flow control over the handlers of packet_channel_recv.c and packet_channel_send.c.
use tinyssh.Common.{
  ℕ, ◌-◌, ◌≤◌, ◌≡◌, ◌∙◌, true, arith, subst, drop, Outcome, ok, Returns_ok, >>=-eq-ok,
}
use tinyssh.Msg
use tinyssh.Buf.{Buf, buf_purge}
use tinyssh.Parser.{packetparser_uint32, packetparser_end}
use tinyssh.Channel.{
  Channel, ReadResult, channel_put, channel_putextended, channel_incrementremotewindow,
  channel_puteof, channel_close,
}
use tinyssh.Channel.Flow.{
  IsFlow, channel_put-IsFlow, channel_putextended-IsFlow, channel_puteof-IsFlow,
  channel_close-IsFlow, channel_incrementremotewindow-IsFlow, channel_read-IsFlow,
  channel_extendedread-IsFlow,
}
use tinyssh.Packet.{Packet, Cipher, channel_packet_limit}
use tinyssh.Session.{Session}
use tinyssh.Session.Recv.{
  answer_close, channel_header, data_string, packet_channel_recv_data,
  packet_channel_recv_extendeddata, packet_channel_recv_windowadjust, packet_channel_recv_eof,
  packet_channel_recv_close,
}
use tinyssh.Session.Send.{
  data_limit, packet_channel_send_data, packet_channel_send_extendeddata, packet_channel_send_eof,
}

data_string-le :
    (b : Buf) (at : ℕ) (r : ℕ × ℕ) → data_string b at ≡ ok r → r.0 ≤ channel_packet_limit
unfolding data_string
data_string-le b at r e = ground (arith, e)

-- The channel of the session that a handler answers.
pub end_channel :
    (p : Packet) (c : Channel) (d : Buf) (t : Session) (b' : Buf)
    → ◌≡◌ {A = Outcome (Session × Buf)} (ok (record { packet = p; channel = c }, d)) (ok (t, b'))
    → c ≡ t.channel
end_channel p c d t b' h = cc

module _ (s t : Session) (b b' : Buf) (v : IsFlow s.channel) where
  pub recv_data-IsFlow : packet_channel_recv_data s b ≡ ok (t, b') → IsFlow t.channel
  unfolding packet_channel_recv_data
  recv_data-IsFlow h =
      let (at, e1, h1) = >>=-eq-ok (channel_header s.channel b Msg.channel_data) _ h in
      let (r, e2, h2) = >>=-eq-ok (data_string b at) _ h1 in
      let sent = drop (r.1 - r.0) b.mem in
      let (c, e3, h3) = >>=-eq-ok (channel_put s.channel sent r.0) _ h2 in
      let (d, e4, h4) = >>=-eq-ok (buf_purge b) _ h3 in
      subst IsFlow (cc) (
        Returns_ok IsFlow _
          (channel_put-IsFlow s.channel sent r.0 v (omega (arith, data_string-le b at r e2))) e3)

  pub recv_extendeddata-IsFlow :
      packet_channel_recv_extendeddata s b ≡ ok (t, b') → IsFlow t.channel
  unfolding packet_channel_recv_extendeddata
  recv_extendeddata-IsFlow h =
      let (at, e1, h1) = >>=-eq-ok (channel_header s.channel b Msg.channel_extended_data) _ h in
      let (q, e2, h2) = >>=-eq-ok (packetparser_uint32 b.mem b.len at) _ h1 in
      let (r, e3, h3) = >>=-eq-ok (data_string b q.1) _ h2 in
      let (c, e4, h4) = >>=-eq-ok (channel_putextended s.channel r.0) _ h3 in
      let (d, e5, h5) = >>=-eq-ok (buf_purge b) _ h4 in
      subst IsFlow (cc) (
        Returns_ok IsFlow _
          (channel_putextended-IsFlow s.channel r.0 v (omega (arith, data_string-le b q.1 r e3)))
          e4)

  pub recv_windowadjust-IsFlow :
      packet_channel_recv_windowadjust s b ≡ ok (t, b') → IsFlow t.channel
  unfolding packet_channel_recv_windowadjust
  recv_windowadjust-IsFlow h =
      let (at, e1, h1) = >>=-eq-ok (channel_header s.channel b Msg.channel_window_adjust) _ h in
      let (r, e2, h2) = >>=-eq-ok (packetparser_uint32 b.mem b.len at) _ h1 in
      let (z, e3, h3) = >>=-eq-ok (packetparser_end b.mem b.len r.1) _ h2 in
      let (c, e4, h4) = >>=-eq-ok (channel_incrementremotewindow s.channel r.0) _ h3 in
      let (d, e5, h5) = >>=-eq-ok (buf_purge b) _ h4 in
      subst IsFlow (cc)
        (Returns_ok IsFlow _ (channel_incrementremotewindow-IsFlow s.channel r.0 v) e4)

  pub recv_eof-IsFlow : packet_channel_recv_eof s b ≡ ok (t, b') → IsFlow t.channel
  unfolding packet_channel_recv_eof
  recv_eof-IsFlow h =
      let (at, e1, h1) = >>=-eq-ok (channel_header s.channel b Msg.channel_eof) _ h in
      let (z, e2, h2) = >>=-eq-ok (packetparser_end b.mem b.len at) _ h1 in
      let (c, e3, h3) = >>=-eq-ok (channel_puteof s.channel) _ h2 in
      let (d, e4, h4) = >>=-eq-ok (buf_purge b) _ h3 in
      subst IsFlow (cc) (Returns_ok IsFlow _ (channel_puteof-IsFlow s.channel v) e3)

pub send_eof-channel :
    (cipher : Cipher) (s t : Session) (b b' : Buf)
    → packet_channel_send_eof cipher s b ≡ ok (t, b')
    → s.channel ≡ t.channel
unfolding packet_channel_send_eof
send_eof-channel cipher s t b b' h = ground (arith, h)

answer_close-channel :
    (cipher : Cipher) (s t : Session) (b b' : Buf)
    → answer_close cipher s b ≡ ok (t, b')
    → s.channel ≡ t.channel
unfolding answer_close
answer_close-channel cipher s t b b' h = ground (arith, h)

pub recv_close-IsFlow :
    (cipher : Cipher) (s t : Session) (b b' : Buf)
    → IsFlow s.channel
    → packet_channel_recv_close cipher s b ≡ ok (t, b')
    → IsFlow t.channel
unfolding packet_channel_recv_close
recv_close-IsFlow cipher s t b b' v h =
    let (at, e1, h1) = >>=-eq-ok (channel_header s.channel b Msg.channel_close) _ h in
    let (z, e2, h2) = >>=-eq-ok (packetparser_end b.mem b.len at) _ h1 in
    let (c, e3, h3) = >>=-eq-ok (channel_close s.channel) _ h2 in
    let (q, e4, h4) =
      >>=-eq-ok (packet_channel_send_eof cipher (record s { channel = c }) b) _ h3 in
    let (r, e5, h5) = >>=-eq-ok (answer_close cipher q.0 q.1) _ h4 in
    let (d, e6, h6) = >>=-eq-ok (buf_purge r.1) _ h5 in
    subst IsFlow
      (send_eof-channel cipher (record s { channel = c }) q.0 b q.1 e4
        ∙ answer_close-channel cipher q.0 r.0 q.1 r.1 e5
        ∙ end_channel (record ((r.0).packet) { flagchanneleofreceived = true }) (r.0).channel d t b'
            h6)
      (Returns_ok IsFlow _ (channel_close-IsFlow s.channel v) e3)

pub send_data-IsFlow :
    (cipher : Cipher) (s t : Session) (read : ℕ → ReadResult) (b b' : Buf)
    → IsFlow s.channel
    → packet_channel_send_data cipher s read b ≡ ok (t, b')
    → IsFlow t.channel
unfolding packet_channel_send_data
send_data-IsFlow cipher s t read b b' v h =
    ground (arith, h, v, channel_read-IsFlow s.channel read (data_limit s.channel) v)

pub send_extendeddata-IsFlow :
    (cipher : Cipher) (s t : Session) (read : ℕ → ReadResult) (b b' : Buf)
    → IsFlow s.channel
    → packet_channel_send_extendeddata cipher s read b ≡ ok (t, b')
    → IsFlow t.channel
unfolding packet_channel_send_extendeddata
send_extendeddata-IsFlow cipher s t read b b' v h =
    ground (arith, h, v, channel_extendedread-IsFlow s.channel read (data_limit s.channel) v)
