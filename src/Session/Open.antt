-- ===== src/Session/Open.antt =====
-- packet_channel_open.c, packet_global_request.c and packet_unimplemented.c.
use tinyssh.Common.{
  ℕ, ◌+◌, ◌-◌, ◌%◌, ◌^◌, List, [], Bool, not, ◌==◌, ltb, if◌then◌else◌, drop, Outcome, ok, proto,
  die_if, ◌>>=◌, ◌>>◌,
}
use tinyssh.Str.{str_equaln, literal}
use tinyssh.Buf.{Buf, buf_purge, buf_putnum8, buf_putnum32, buf_putstring}
use tinyssh.Parser.{packetparser_uint8, packetparser_uint32, packetparser_skip, packetparser_end}
use tinyssh.Channel.Session.{Connection, Environment, channel_open}
use tinyssh.Msg
use tinyssh.Packet.{Packet, Cipher, channel_packet_limit}
use tinyssh.Packet.Plain.{packet_put}
use tinyssh.Packet.Queue.{packet_sendall}
use tinyssh.Session.{Session}

-- What the server finds outside the packet: see `Channel.Session`. `user_size` is the size of the
-- array for the user's name.
pub record Surroundings : Type 0 where
  pub connection : Connection
  pub environment : Environment
  pub maildir : List ℕ
  pub user_size : ℕ

-- The fields of SSH_MSG_CHANNEL_OPEN.
pub record OpenRequest : Type 0 where
  pub is_session : Bool
  pub id : ℕ
  pub remotewindow : ℕ
  pub maxpacket : ℕ
  pub at : ℕ

-- `if (maxpacket > CHANNEL_PACKET_LIMIT) ...; if (maxpacket < 32) ...;`
unfoldable pub clamp_maxpacket : ℕ → ℕ
clamp_maxpacket m =
    let n = if ltb channel_packet_limit m then channel_packet_limit else m in
    if ltb n 32 then 32 else n

unfoldable pub parse_open : Buf → Outcome OpenRequest
unfolding clamp_maxpacket
parse_open b = do
  (ch, at) ← packetparser_uint8 b.mem b.len 0
  die_if (not (ch == Msg.channel_open)) proto
  (chanlen, at) ← packetparser_uint32 b.mem b.len at
  let chan = drop at b.mem
  at ← packetparser_skip b.mem b.len at chanlen
  (id, at) ← packetparser_uint32 b.mem b.len at
  (remotewindow, at) ← packetparser_uint32 b.mem b.len at
  (maxpacket, at) ← packetparser_uint32 b.mem b.len at
  ok (record {
    is_session = str_equaln chan chanlen (literal "session");
    id = id;
    remotewindow = remotewindow;
    maxpacket = clamp_maxpacket maxpacket;
    at = at;
  })

unfoldable pub confirm : Buf → ℕ → ℕ → Outcome Buf
confirm b id localwindow = do
  b ← buf_purge b
  b ← buf_putnum8 b Msg.channel_open_confirmation
  b ← buf_putnum32 b id
  b ← buf_putnum32 b id
  b ← buf_putnum32 b localwindow
  buf_putnum32 b channel_packet_limit

refuse : Buf → ℕ → ℕ → List ℕ → Outcome Buf
refuse b id reason description = do
  b ← buf_purge b
  b ← buf_putnum8 b Msg.channel_open_failure
  b ← buf_putnum32 b id
  b ← buf_putnum32 b reason
  b ← buf_putstring b description
  buf_putstring b []

unfoldable pub reject_open :
    Cipher → Session → Buf → Buf → ℕ → ℕ → List ℕ → Outcome (Session × Buf × Buf)
unfolding refuse
reject_open cipher s b1 b2 id reason description = do
  b2 ← refuse b2 id reason description
  p ← packet_put cipher s.packet b2
  b1 ← buf_purge b1
  b2 ← buf_purge b2
  ok (record s { packet = p }, b1, b2)

unfoldable pub packet_channel_open :
    Cipher → Surroundings → Session → Buf → Buf → Outcome (Session × Buf × Buf)
unfolding confirm
packet_channel_open cipher o s b1 b2 = do
  r ← parse_open b1
  if not r.is_session
      then reject_open cipher s b1 b2 r.id Msg.open_unknown_channel_type
          (literal "unknown channel type")
      else (do
        at ← packetparser_end b1.mem b1.len r.at
        b1 ← buf_purge b1
        (opened, c) ←
            channel_open s.channel o.connection o.environment o.maildir s.packet.name o.user_size
              r.id r.remotewindow r.maxpacket
        if opened
            then (do
              b2 ← confirm b2 r.id c.localwindow
              p ← packet_put cipher s.packet b2
              b2 ← buf_purge b2
              ok (record { packet = p; channel = c }, b1, b2))
            else reject_open cipher (record s { channel = c }) b1 b2 r.id
                Msg.open_administratively_prohibited (literal "only one 'session' channel allowed"))

-- packet_global_request.c: every request is refused if it wants a reply.
unfoldable pub packet_global_request : Cipher → Packet → Buf → Outcome (Packet × Buf)
packet_global_request cipher p b = do
  (ch, at) ← packetparser_uint8 b.mem b.len 0
  die_if (not (ch == Msg.global_request)) proto
  (requestlen, at) ← packetparser_uint32 b.mem b.len at
  at ← packetparser_skip b.mem b.len at requestlen
  (wantreply, at) ← packetparser_uint8 b.mem b.len at
  b ← buf_purge b
  if wantreply == 0 then ok (p, b) else (do
    b ← buf_putnum8 b Msg.request_failure
    p ← packet_put cipher p b
    b ← buf_purge b
    ok (p, b))

-- packet_unimplemented.c: `written` is the answer of `writeall`.
unfoldable pub packet_unimplemented : Cipher → Packet → Bool → Buf → Outcome (Bool × Packet × Buf)
packet_unimplemented cipher p written b = do
  b ← buf_purge b
  b ← buf_putnum8 b Msg.unimplemented
  b ← buf_putnum32 b ((p.receivepacketid + 2 ^ 32 - 1) % 2 ^ 32)
  p ← packet_put cipher p b
  let (sent, q) = packet_sendall p written
  ok (sent, q, b)
