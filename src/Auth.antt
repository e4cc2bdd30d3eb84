-- ===== src/Auth.antt =====
-- packet_auth.c: the state that `packet_auth` works on, what surrounds it, and its messages.
pub mod Request
pub mod PublicKey
pub mod Loop
pub mod Granted
pub mod Entry
pub mod Signed
use tinyssh.Common.{
  ℕ, ◌+◌, ◌-◌, List, Bool, true, false, not, ◌==◌, ltb, if◌then◌else◌, get_or, set, drop, Option,
  Outcome, ok, proto, die_if, ◌>>=◌, ◌>>◌,
}
use tinyssh.Str.{literal, str_equaln}
use tinyssh.Buf.{Buf, buf_purge, buf_putnum8, buf_putnum32, buf_putstring}
use tinyssh.Parser.{packetparser_uint8, packetparser_uint32, packetparser_skip, packetparser_end}
use tinyssh.Algorithms.{Key}
use tinyssh.Msg
use tinyssh.Packet.{Cipher}
use tinyssh.Line.{Line, packet_getall, line_put, line_sendall}

-- The session, the option `-x`, and what the system and the primitives answer: whether `getpwnam`
-- finds the name with the uid of the process, what `crypto_sign_ed25519_open` writes and the length
-- of the message or its failure, and whether `subprocess_auth` answers 0 to a name, the name of a
-- key type and a key.
pub record Setting : Type 0 where
  pub keys : List Key
  pub sessionid : List ℕ
  pub sessionid_len : ℕ
  pub flagnoneauth : Bool
  pub name_size : ℕ
  pub is_own_user : List ℕ → Bool
  pub sign_open : List ℕ → List ℕ → Option (List ℕ × ℕ)
  pub subprocess_auth : List ℕ → List ℕ → List ℕ → Bool

-- The transport with the two buffers.
pub record Desk : Type 0 where
  pub line : Line
  pub b : Buf
  pub b2 : Buf

-- `packet_disconnect_`; its answer is not used.
unfoldable pub packet_disconnect : Cipher → Desk → ℕ → List ℕ → Outcome Desk
unfolding line_put
packet_disconnect cipher d reason description = do
  b ← buf_purge d.b2
  b ← buf_putnum8 b Msg.disconnect
  b ← buf_putnum32 b reason
  b ← buf_putstring b description
  b ← buf_putstring b (literal "")
  l ← line_put cipher d.line b
  ok (record d { line = (line_sendall l).1; b2 = b })

-- A message of another type: `bug_proto` below 80, and a disconnect from there on.
unfoldable pub unexpected : Cipher → Desk → ℕ → Outcome Desk
unfolding packet_disconnect
unexpected cipher d ch = do
  die_if (ltb ch Msg.global_request) proto
  packet_disconnect cipher d Msg.disconnect_protocol_error
      (literal "unexpected message before authentication")

-- `packet_put(b); packet_sendall()`.
unfoldable pub put_and_send : Cipher → Desk → Outcome (Bool × Desk)
unfolding line_put
put_and_send cipher d = do
  l ← line_put cipher d.line d.b
  let (sent, l) = line_sendall l
  ok (sent, record d { line = l })

-- A string: its length, and the position behind it.
unfoldable pub parse_string : Buf → ℕ → Outcome (ℕ × ℕ)
parse_string b pos = do
  (len, pos) ← packetparser_uint32 b.mem b.len pos
  pos ← packetparser_skip b.mem b.len pos len
  ok (len, pos)

-- The request of the service "ssh-userauth" and its acceptance: whether to go on.
unfoldable pub accept_service : Cipher → Desk → Outcome (Bool × Desk)
unfolding unexpected parse_string put_and_send packet_getall
accept_service cipher d = do
  b ← buf_purge d.b
  (more, b, l) ← packet_getall cipher d.line b 0
  let d = record d { line = l; b = b }
  if not more then ok (false, d) else (do
    (ch, pos) ← packetparser_uint8 b.mem b.len 0
    if not (ch == Msg.service_request) then (do d ← unexpected cipher d ch; ok (false, d)) else (do
      (len, pos) ← parse_string b pos
      pos ← packetparser_end b.mem b.len pos
      if not (str_equaln (drop (pos - len) b.mem) len (literal "ssh-userauth"))
          then (do
            d ←
                packet_disconnect cipher d Msg.disconnect_service_not_available
                  (literal "service not available")
            ok (false, d))
          else put_and_send cipher
              (record d { b = record b { mem = set b.mem 0 Msg.service_accept } })))
