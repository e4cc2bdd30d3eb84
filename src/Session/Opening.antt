-- ===== src/Session/Opening.antt =====
-- Flow control through SSH_MSG_CHANNEL_OPEN and SSH_MSG_CHANNEL_REQUEST.
use tinyssh.Common.{
  Option, ℕ, zero, suc, ◌+◌, ◌<◌, ◌^◌, ◌≡◌, List, [], ◌∷◌, Bool, true, false, not, ◌==◌, arith,
  subst, All, get_or, Outcome, ok, ◌>>=◌, Returns, Returns_ok, >>=-eq-ok, if◌then◌else◌, if-eq, inl,
  inr,
}
use tinyssh.Bytes.Endian.{IsByte, load_bigendian-lt}
use tinyssh.Buf.{Buf, buf_purge}
use tinyssh.Msg
use tinyssh.Str.{literal}
use tinyssh.Packet.Plain.{packet_put}
use tinyssh.Session.Recv.{channel_header}
use tinyssh.Parser.{packetparser_uint8, packetparser_uint32, packetparser_end}
use tinyssh.Channel.{Channel}
use tinyssh.Channel.Flow.{IsFlow}
use tinyssh.Channel.Session.{channel_open}
use tinyssh.Channel.Opening.{
  channel_open-IsFlow, channel_openterminal-IsFlow, channel_ptyresize-IsFlow, channel_exec-IsFlow,
}
use tinyssh.Packet.{Packet, Cipher}
use tinyssh.Session.{Session}
use tinyssh.Session.Open.{
  Surroundings, OpenRequest, parse_open, confirm, reject_open, packet_channel_open,
}
use tinyssh.Session.Request.{
  Offer, parse_string, end_string, exec_or_bug, request_exec, request_subsystem, request_shell,
  request_env, request_pty, request_window_change, request_dispatch, reply, packet_channel_request,
}

get_or-IsByte : (m : List ℕ) (i : ℕ) → All IsByte m → IsByte (get_or m i 0)
get_or-IsByte [] i h = omega arith
get_or-IsByte (x ∷ xs) zero (h, hs) = h
get_or-IsByte (x ∷ xs) (suc i) (h, hs) = get_or-IsByte xs i hs

uint32-lt :
    (m : List ℕ) (len pos : ℕ)
    → All IsByte m
    → Returns (packetparser_uint32 m len pos) (λ r. r.0 < 2 ^ 32)
unfolding packetparser_uint32
uint32-lt m len pos h = ground (
  arith,
  load_bigendian-lt m pos (get_or-IsByte m pos h) (get_or-IsByte m (pos + 1) h)
      (get_or-IsByte m (pos + 2) h) (get_or-IsByte m (pos + 3) h),
)

parse_open-lt : (b : Buf) → All IsByte b.mem → Returns (parse_open b) (λ r. r.remotewindow < 2 ^ 32)
unfolding parse_open
parse_open-lt b h = grind (arith, (λ (pos : ℕ). uint32-lt b.mem b.len pos h))

module _ (o : Offer) (c : Channel) (b : Buf) (at : ℕ) (v : IsFlow c) where
  exec_or_bug-IsFlow : (cmd : Option (List ℕ)) → Returns (exec_or_bug o c cmd) IsFlow
  unfolding exec_or_bug
  exec_or_bug-IsFlow cmd = ground (arith, channel_exec-IsFlow c cmd o.fork o.room v)

  exec-IsFlow : Returns (request_exec o c b at) (λ r. IsFlow r.1)
  unfolding request_exec
  exec-IsFlow = grind (arith, v, exec_or_bug-IsFlow)

  subsystem-IsFlow : Returns (request_subsystem o c b at) (λ r. IsFlow r.1)
  unfolding request_subsystem
  subsystem-IsFlow = grind (arith, v, exec_or_bug-IsFlow)

  shell-IsFlow : Returns (request_shell o c b at) (λ r. IsFlow r.1)
  unfolding request_shell
  shell-IsFlow = ground (arith, v, exec_or_bug-IsFlow o.customcmd)

  env-IsFlow : Returns (request_env c b at) (λ r. IsFlow r.1)
  unfolding request_env
  env-IsFlow = ground (arith, v)

  pty-IsFlow : Returns (request_pty o c b at) (λ r. IsFlow r.1)
  unfolding request_pty
  pty-IsFlow =
      grind (arith, v, (λ (a h x y : ℕ). channel_openterminal-IsFlow c o.pty o.sets_term a h x y v))

  window_change-IsFlow : Returns (request_window_change c b at) (λ r. IsFlow r.1)
  unfolding request_window_change
  window_change-IsFlow = grind (arith, v, (λ (a h x y : ℕ). channel_ptyresize-IsFlow c a h x y v))

  dispatch-IsFlow : (cmd len : ℕ) → Returns (request_dispatch o c b cmd len at) (λ r. IsFlow r.1)
  unfolding request_dispatch
  dispatch-IsFlow cmd len = ground (
    arith, v, exec-IsFlow, subsystem-IsFlow, shell-IsFlow, env-IsFlow, pty-IsFlow,
    window_change-IsFlow,
  )

-- The channel that a handler answers, with two buffers.
end_channel :
    (p : Packet) (c : Channel) (d e : Buf) (t : Session) (d' e' : Buf)
    → ◌≡◌ {A = Outcome (Session × Buf × Buf)}
        (ok (record { packet = p; channel = c }, d, e))
        (ok (t, d', e'))
    → c ≡ t.channel
end_channel p c d e t d' e' h = cc

pub request-IsFlow :
    (cipher : Cipher) (o : Offer) (s t : Session) (b1 b2 b1' b2' : Buf)
    → IsFlow s.channel
    → packet_channel_request cipher o s b1 b2 ≡ ok (t, b1', b2')
    → IsFlow t.channel
unfolding packet_channel_request
request-IsFlow cipher o s t b1 b2 b1' b2' v h =
    let (at, e1, h1) = >>=-eq-ok (channel_header s.channel b1 Msg.channel_request) _ h in
    let ((cmd, cmdlen, at2), e2, h2) = >>=-eq-ok (parse_string b1 at) _ h1 in
    let ((wantreply, at3), e3, h3) = >>=-eq-ok (packetparser_uint8 b1.mem b1.len at2) _ h2 in
    let b0 = end_string b1 (cmd + cmdlen) in
    let ((accepted, c, b3), e4, h4) =
      >>=-eq-ok (request_dispatch o s.channel b0 cmd cmdlen at3) _ h3 in
    let ((p, b4, b5), e5, h5) =
      >>=-eq-ok (reply cipher s.packet s.channel.id (not (wantreply == 0)) accepted b3 b2) _ h4 in
    subst IsFlow (end_channel p c b4 b5 t b1' b2' h5) (
      Returns_ok (λ (r : Bool × Channel × Buf). IsFlow r.1) _
        (dispatch-IsFlow o s.channel b0 at3 v cmd cmdlen) e4)

reject-channel :
    (cipher : Cipher) (s t : Session) (b1 b2 b1' b2' : Buf) (id reason : ℕ) (description : List ℕ)
    → reject_open cipher s b1 b2 id reason description ≡ ok (t, b1', b2')
    → s.channel ≡ t.channel
unfolding reject_open
reject-channel cipher s t b1 b2 b1' b2' id reason description h = ground (arith, h)

-- The end of the handler, after `channel_open`.
open_end :
    (cipher : Cipher) (s t : Session) (opened : Bool) (c : Channel) (b1 b2 b1' b2' : Buf) (id : ℕ)
    → (if opened
        then (do
          b2 ← confirm b2 id c.localwindow
          p ← packet_put cipher s.packet b2
          b2 ← buf_purge b2
          ok (record { packet = p; channel = c }, b1, b2))
        else reject_open cipher
            (record s { channel = c })
            b1
            b2
            id
            Msg.open_administratively_prohibited
            (literal "only one 'session' channel allowed"))
      ≡ ok (t, b1', b2')
    → c ≡ t.channel
open_end cipher s t true c b1 b2 b1' b2' id h =
    let (b3, e1, h1) = >>=-eq-ok (confirm b2 id c.localwindow) _ h in
    let (p, e2, h2) = >>=-eq-ok (packet_put cipher s.packet b3) _ h1 in
    let (b4, e3, h3) = >>=-eq-ok (buf_purge b3) _ h2 in end_channel p c b1 b4 t b1' b2' h3
open_end cipher s t false c b1 b2 b1' b2' id h =
    reject-channel cipher (record s { channel = c }) t b1 b2 b1' b2' id _ _ h

pub open-IsFlow :
    (cipher : Cipher) (o : Surroundings) (s t : Session) (b1 b2 b1' b2' : Buf)
    → IsFlow s.channel
    → All IsByte b1.mem
    → packet_channel_open cipher o s b1 b2 ≡ ok (t, b1', b2')
    → IsFlow t.channel
unfolding packet_channel_open
open-IsFlow cipher o s t b1 b2 b1' b2' v bytes h =
    let (r, e1, h1) = >>=-eq-ok (parse_open b1) _ h in
    let known =
      Returns_ok (λ (r : OpenRequest). r.remotewindow < 2 ^ 32) _ (parse_open-lt b1 bytes) e1 in
    elim (if-eq (not r.is_session) _ _ h1) [
      | inl (other, rejected) ↦
          subst IsFlow (reject-channel cipher s t b1 b2 b1' b2' r.id _ _ rejected) v
      | inr (session, h2) ↦
          let (at, e3, h3) = >>=-eq-ok (packetparser_end b1.mem b1.len r.at) _ h2 in
          let (b3, e4, h4) = >>=-eq-ok (buf_purge b1) _ h3 in
          let ((opened, c), e5, h5) =
            >>=-eq-ok
              (channel_open s.channel o.connection o.environment o.maildir s.packet.name o.user_size
                r.id r.remotewindow r.maxpacket)
              _ h4 in
          let kept =
            Returns_ok (λ (r : Bool × Channel). IsFlow r.1) _
              (channel_open-IsFlow s.channel o.connection o.environment o.maildir s.packet.name
                o.user_size r.id r.remotewindow r.maxpacket v known)
              e5 in
          subst IsFlow (open_end cipher s t opened c b3 b2 b1' b2' r.id h5) kept
    ]
