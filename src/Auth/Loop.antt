-- ===== src/Auth/Loop.antt =====
-- packet_auth.c: `packet_auth`.
use tinyssh.Common.{
  ℕ, zero, suc, List, Bool, true, false, not, ◌&&◌, ◌==◌, if◌then◌else◌, set, Outcome, ok, ◌>>=◌,
}
use tinyssh.Str.{literal}
use tinyssh.Buf.{buf_purge, buf_putnum8, buf_putstring}
use tinyssh.Parser.{packetparser_uint8, packetparser_end}
use tinyssh.Msg
use tinyssh.Packet.{Cipher}
use tinyssh.Line.{packet_getall}
use tinyssh.Auth.{Setting, Desk, unexpected, accept_service, put_and_send}
use tinyssh.Auth.Request.{parse_request, is_method}
use tinyssh.Auth.PublicKey.{Judged, authorized, replied, rejected, gone, publickey}

-- The method "none" where the option allows it.
unfoldable pub none_method : Setting → Desk → ℕ → Outcome Judged
none_method s d pos = do
  pos ← packetparser_end d.b.mem d.b.len pos
  ok (
      if s.is_own_user d.line.packet.name
      then authorized (record d { b = record (d.b) { mem = set d.b.mem 0 0; len = 0 } })
      else rejected d)

-- By the method; a method "none" that is not allowed is no other. The methods "password" and "hostbased" are only logged.
unfoldable pub judge : Cipher → Setting → Desk → ℕ → ℕ → Outcome Judged
unfolding none_method publickey
judge cipher s d len pos =
    if is_method d.b len pos (literal "none") && s.flagnoneauth
    then none_method s d pos
    else if is_method d.b len pos (literal "publickey")
    then publickey cipher s d pos
    else ok (rejected d)

unfoldable pub set_name : Desk → List ℕ → Desk
set_name d name = record d {
  line = record (d.line) { packet = record (d.line.packet) { name = name } };
}

-- The code after `reject`.
unfoldable pub reject : Cipher → Desk → Outcome (Bool × Desk)
unfolding put_and_send
reject cipher d = do
  b ← buf_purge d.b
  b ← buf_putnum8 b Msg.userauth_failure
  b ← buf_putstring b (literal "publickey")
  b ← buf_putnum8 b 0
  put_and_send cipher (record d { b = b })

-- The code after `authorized`.
unfoldable pub succeed : Cipher → Desk → Outcome (Bool × Desk)
unfolding put_and_send
succeed cipher d = do
  b ← buf_purge d.b
  b ← buf_putnum8 b Msg.userauth_success
  put_and_send cipher (record d { b = b })

-- One request.
unfoldable pub auth_round : Cipher → Setting → Desk → Outcome Judged
unfolding unexpected parse_request judge set_name packet_getall
auth_round cipher s d = do
  b ← buf_purge d.b
  (more, b, l) ← packet_getall cipher d.line b 0
  let d = record d { line = l; b = b }
  if not more then ok (gone d) else (do
    (ch, pos) ← packetparser_uint8 b.mem b.len 0
    if not (ch == Msg.userauth_request) then (do d ← unexpected cipher d ch; ok (gone d)) else (do
      (name, len, pos) ← parse_request s.name_size b pos l.packet.name
      judge cipher s (set_name d name) len pos))

-- `for (count = 0; count < 32; ++count)`, with the rounds left.
unfoldable pub auth_loop : Cipher → Setting → ℕ → Desk → Outcome (Bool × Desk)
unfolding auth_round reject succeed
auth_loop cipher s zero d = ok (false, d)
auth_loop cipher s (suc left) d = do
  judged ← auth_round cipher s d
  elim judged [
    | authorized d ↦ succeed cipher d
    | replied d ↦ auth_loop cipher s left d
    | rejected d ↦ do
      (sent, d) ← reject cipher d
      elim sent [ true ↦ auth_loop cipher s left d | false ↦ ok (false, d) ]
    | gone d ↦ ok (false, d)
  ]

abbrev pub auth_tries : ℕ
auth_tries = 32

unfoldable pub packet_auth : Cipher → Setting → Desk → Outcome (Bool × Desk)
unfolding accept_service auth_loop
packet_auth cipher s d = do
  (more, d) ← accept_service cipher d
  if not more then ok (false, d) else auth_loop cipher s auth_tries d
