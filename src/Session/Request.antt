-- ===== src/Session/Request.antt =====
-- packet_channel_request.c. The handlers of the request types answer whether the request is
-- accepted, with the channel and the buffer, in which the strings get their NUL in place.
use tinyssh.Common.{
  ℕ, zero, suc, ◌+◌, List, Bool, true, false, not, ◌||◌, ◌==◌, if◌then◌else◌, set, get_or, drop,
  Option, none, some, Outcome, ok, bug, die_if, ◌>>=◌, ◌>>◌,
}
use tinyssh.Common.Int.{ℤ, is_zero, is_positive}
use tinyssh.Str.{str_equaln, literal}
use tinyssh.Subsystem.{channel_subsystem_get}
use tinyssh.Buf.{Buf, buf_purge, buf_putnum8, buf_putnum32}
use tinyssh.Parser.{packetparser_uint8, packetparser_uint32, packetparser_skip, packetparser_end}
use tinyssh.Channel.{Channel}
use tinyssh.Channel.Session.{ForkResult, channel_exec, channel_openterminal, channel_ptyresize}
use tinyssh.Msg
use tinyssh.Packet.{Packet, Cipher}
use tinyssh.Packet.Plain.{packet_put}
use tinyssh.Session.{Session}
use tinyssh.Session.Recv.{channel_header}

-- What the request may start, and what the system answers: the command of the option `-e`, the
-- registered subsystems, `fork`, the size of `termname`, `openpty` and `newenv_env("TERM", ...)`.
pub record Offer : Type 0 where
  pub customcmd : Option (List ℕ)
  pub subsystems : List (List ℕ)
  pub fork : ForkResult
  pub room : ℕ
  pub pty : Option (ℤ × ℤ)
  pub sets_term : Bool

-- Whether one of the `len` bytes from `at` on is 0, with the rounds left.
stringhaszero : List ℕ → ℕ → ℕ → Bool
stringhaszero m at zero = false
stringhaszero m at (suc left) = if get_or m at 0 == 0 then true else stringhaszero m (at + 1) left

-- A string: where it starts, its length, and the position behind it.
pub parse_string : Buf → ℕ → Outcome (ℕ × ℕ × ℕ)
parse_string b at = do
  (len, at) ← packetparser_uint32 b.mem b.len at
  next ← packetparser_skip b.mem b.len at len
  ok (at, len, next)

abbrev Answer : Type 0
Answer = Outcome (Bool × Channel × Buf)

-- `p[len] = 0`
pub end_string : Buf → ℕ → Buf
end_string b at = record b { mem = set b.mem at 0 }

-- `if (!channel_exec(...)) bug();`
unfoldable pub exec_or_bug : Offer → Channel → Option (List ℕ) → Outcome Channel
exec_or_bug o c cmd = do
  (started, d) ← channel_exec c cmd o.fork o.room
  die_if (not started) bug
  ok d

abbrev is_set : Option (List ℕ) → Bool
is_set none = false
is_set (some x) = true

unfoldable pub request_exec : Offer → Channel → Buf → ℕ → Answer
unfolding parse_string end_string stringhaszero
request_exec o c b at = do
  (p1, plen1, at) ← parse_string b at
  at ← packetparser_end b.mem b.len at
  b ← buf_putnum8 b 0
  if stringhaszero b.mem p1 plen1 then ok (false, c, b) else (do
    let b = end_string b (p1 + plen1)
    if not (is_zero c.pid) || is_set o.customcmd
        then ok (false, c, b)
        else (do d ← exec_or_bug o c (some (drop p1 b.mem)); ok (true, d, b)))

unfoldable pub request_subsystem : Offer → Channel → Buf → ℕ → Answer
unfolding parse_string end_string stringhaszero
request_subsystem o c b at = do
  (p1, plen1, at) ← parse_string b at
  at ← packetparser_end b.mem b.len at
  b ← buf_putnum8 b 0
  if stringhaszero b.mem p1 plen1 then ok (false, c, b) else (do
    let b = end_string b (p1 + plen1)
    if not (is_zero c.pid) || is_set o.customcmd
        then ok (false, c, b)
        else (elim (channel_subsystem_get o.subsystems (drop p1 b.mem)) [
          | none ↦ ok (false, c, b)
          | some command ↦ (do d ← exec_or_bug o c (some command); ok (true, d, b))
        ]))

unfoldable pub request_shell : Offer → Channel → Buf → ℕ → Answer
request_shell o c b at = do
  at ← packetparser_end b.mem b.len at
  if not (is_zero c.pid)
      then ok (false, c, b)
      else (do d ← exec_or_bug o c o.customcmd; ok (true, d, b))

unfoldable pub request_env : Channel → Buf → ℕ → Answer
unfolding parse_string end_string stringhaszero
request_env c b at = do
  (p1, plen1, at) ← parse_string b at
  (p2, plen2, at) ← parse_string b at
  at ← packetparser_end b.mem b.len at
  b ← buf_putnum8 b 0
  if stringhaszero b.mem p1 plen1 || stringhaszero b.mem p2 plen2
      then ok (false, c, b)
      else ok (false, c, end_string (end_string b (p1 + plen1)) (p2 + plen2))

-- Four words: the sizes of a terminal.
pub parse_sizes : Buf → ℕ → Outcome (ℕ × ℕ × ℕ × ℕ × ℕ)
parse_sizes b at = do
  (a, at) ← packetparser_uint32 b.mem b.len at
  (h, at) ← packetparser_uint32 b.mem b.len at
  (x, at) ← packetparser_uint32 b.mem b.len at
  (y, at) ← packetparser_uint32 b.mem b.len at
  ok (a, h, x, y, at)

unfoldable pub request_pty : Offer → Channel → Buf → ℕ → Answer
unfolding parse_string parse_sizes end_string stringhaszero
request_pty o c b at = do
  (p1, plen1, at) ← parse_string b at
  (a, h, x, y, at) ← parse_sizes b at
  (p2, plen2, at) ← parse_string b at
  at ← packetparser_end b.mem b.len at
  b ← buf_putnum8 b 0
  if stringhaszero b.mem p1 plen1 then ok (false, c, b) else (do
    let b = end_string (end_string b (p1 + plen1)) (p2 + plen2)
    if not (is_zero c.pid) || c.flagterminal
        then ok (false, c, b)
        else (do (opened, d) ← channel_openterminal c o.pty o.sets_term a h x y; ok (opened, d, b)))

unfoldable pub request_window_change : Channel → Buf → ℕ → Answer
unfolding parse_sizes
request_window_change c b at = do
  (a, h, x, y, at) ← parse_sizes b at
  at ← packetparser_end b.mem b.len at
  if not (is_positive c.pid) || not c.flagterminal
      then ok (false, c, b)
      else (do d ← channel_ptyresize c a h x y; ok (true, d, b))

-- By the name of the request, the `len` bytes at `cmd`.
unfoldable pub request_dispatch : Offer → Channel → Buf → ℕ → ℕ → ℕ → Answer
request_dispatch o c b cmd len at =
    let name = drop cmd b.mem in
    if str_equaln name len (literal "exec")
    then request_exec o c b at
    else if str_equaln name len (literal "subsystem")
    then request_subsystem o c b at
    else if str_equaln name len (literal "shell")
    then request_shell o c b at
    else if str_equaln name len (literal "env")
    then request_env c b at
    else if str_equaln name len (literal "pty-req")
    then request_pty o c b at
    else if str_equaln name len (literal "window-change")
    then request_window_change c b at
    else ok (false, c, b)

-- The labels `reject`, `accept` and `done`.
unfoldable pub reply : Cipher → Packet → ℕ → Bool → Bool → Buf → Buf → Outcome (Packet × Buf × Buf)
reply cipher p id wantreply accepted b1 b2 =
    if not wantreply then (do b1 ← buf_purge b1; b2 ← buf_purge b2; ok (p, b1, b2)) else (do
      b2 ← buf_purge b2
      b2 ← buf_putnum8 b2 (if accepted then Msg.channel_success else Msg.channel_failure)
      b2 ← buf_putnum32 b2 id
      p ← packet_put cipher p b2
      b1 ← buf_purge b1
      b2 ← buf_purge b2
      ok (p, b1, b2))

-- `id` has been compared with the channel's number.
unfoldable pub packet_channel_request :
    Cipher → Offer → Session → Buf → Buf → Outcome (Session × Buf × Buf)
unfolding parse_string end_string
packet_channel_request cipher o s b1 b2 = do
  at ← channel_header s.channel b1 Msg.channel_request
  (cmd, cmdlen, at) ← parse_string b1 at
  (wantreply, at) ← packetparser_uint8 b1.mem b1.len at
  (accepted, c, b1) ← request_dispatch o s.channel (end_string b1 (cmd + cmdlen)) cmd cmdlen at
  (p, b1, b2) ← reply cipher s.packet s.channel.id (not (wantreply == 0)) accepted b1 b2
  ok (record { packet = p; channel = c }, b1, b2)
