-- ===== src/Channel/Opening.antt =====
-- Flow control through the life of the channel: initialisation, opening, start and end of the child.
use tinyssh.Common.{
  ℕ, ◌^◌, ◌≤◌, ◌<◌, ◌≡◌, refl, ◌∙◌, List, Bool, true, arith, length, Option, Outcome, ok, die,
  Returns, Returns_ok, Returns-bind, ◌>>=◌, if◌then◌else◌,
}
use tinyssh.Common.Int.{ℤ, minus_one}
use tinyssh.Bytes.Lengths.{length-byte_copy, length-purge}
use tinyssh.Str.{str_len, str_copyn}
use tinyssh.Buf.{Buf, buf_purge, buf_put, buf_puts, buf_putnum8}
use tinyssh.Channel.{Channel, channel_bufsize, channel_puteof}
use tinyssh.Channel.Flow.{IsFlow}
use tinyssh.Channel.Session.{
  Connection, Environment, connection_text, mail_text, opened, set_environment, channel_open,
  channel_openterminal, channel_ptyresize, ForkResult, forked, fork_failed, name_terminal,
  start_child, channel_exec, WaitResult, channel_waitnohang, channel_init,
}

-- The memory has the size it had.
abbrev SameSize : Buf → Buf → Type 0
SameSize b c = length c.mem ≡ length b.mem

purge_size : (b : Buf) → Returns (buf_purge b) (SameSize b)
unfolding buf_purge
purge_size b = ground (arith, length-purge b.mem 0 b.len)

put_size : (b : Buf) (x : List ℕ) (n : ℕ) → Returns (buf_put b x n) (SameSize b)
unfolding buf_put
put_size b x n = ground (arith, length-byte_copy b.mem b.len n x)

puts_size : (b : Buf) (x : List ℕ) → Returns (buf_puts b x) (SameSize b)
unfolding buf_puts
puts_size b x = put_size b x (str_len x)

putnum8_size : (b : Buf) (u : ℕ) → Returns (buf_putnum8 b u) (SameSize b)
unfolding buf_putnum8
putnum8_size b u = put_size b _ 1

-- One operation after another keeps the size.
size-bind :
    (b : Buf) (m : Outcome Buf) (f : Buf → Outcome Buf)
    → Returns m (SameSize b)
    → ((c : Buf) → Returns (f c) (SameSize c))
    → Returns (m >>= f) (SameSize b)
size-bind b (ok c) f h k = after (f c) (k c)
  where
    after : (o : Outcome Buf) → Returns o (SameSize c) → Returns o (SameSize b)
    after (ok d) e = e ∙ h
    after (die x) e = tt
size-bind b (die x) f h k = tt

connection_size : (b : Buf) (i : Connection) → Returns (connection_text b i) (SameSize b)
unfolding connection_text
connection_size b i = size-bind b _ _ (purge_size b) (λ b. size-bind b _ _ (puts_size b _) (λ b.
    size-bind b _ _ (puts_size b _) (λ b. size-bind b _ _ (puts_size b _) (λ b.
      size-bind b _ _ (puts_size b _) (λ b. size-bind b _ _ (puts_size b _) (λ b.
        size-bind b _ _ (puts_size b _)
          (λ b. size-bind b _ _ (puts_size b _) (λ b. putnum8_size b 0))))))))

mail_size : (b : Buf) (maildir user : List ℕ) → Returns (mail_text b maildir user) (SameSize b)
unfolding mail_text
mail_size b maildir user = size-bind b _ _ (purge_size b) (λ b.
    size-bind b _ _ (puts_size b _) (λ b.
      size-bind b _ _ (puts_size b _)
        (λ b. size-bind b _ _ (puts_size b _) (λ b. putnum8_size b 0))))

-- Whatever becomes of the environment, only the memory of `buf0` is used for it.
abbrev OnlyMemory : Channel → Bool × Channel → Type 0
OnlyMemory c r =
    (length (r.1).buf0 ≡ length c.buf0)
    × ((r.1).len0 ≡ c.len0)
    × ((r.1).localwindow ≡ c.localwindow)
    × ((r.1).remotewindow ≡ c.remotewindow)
    × ((r.1).pid ≡ c.pid)

environment_memory :
    (c : Channel) (i : Connection) (env : Environment) (maildir user : List ℕ)
    → Returns (set_environment c i env maildir user) (OnlyMemory c)
unfolding set_environment
environment_memory c i env maildir user = grind (
  arith,
  connection_size (record { mem = c.buf0; len = 0; alloc = channel_bufsize }) i,
  (λ (b : Buf). mail_size b maildir user),
  (λ (m : List ℕ). length-purge m 0 channel_bufsize),
)

pub channel_open-IsFlow :
    (c : Channel) (i : Connection) (env : Environment) (maildir user : List ℕ)
    (user_size id remotewindow maxpacket : ℕ)
    → IsFlow c
    → remotewindow < 2 ^ 32
    → Returns
        (channel_open c i env maildir user user_size id remotewindow maxpacket)
        (λ r. IsFlow r.1)
unfolding channel_open opened
channel_open-IsFlow c i env maildir user user_size id remotewindow maxpacket v h = ground (
  arith,
  v.window,
  v.backed,
  v.fresh,
  v.remote,
  h,
  environment_memory (opened c (str_copyn c.user user_size user).0 id remotewindow maxpacket) i env
      maildir user,
)

pub channel_openterminal-IsFlow :
    (c : Channel) (pty : Option (ℤ × ℤ)) (sets_term : Bool) (a b x y : ℕ)
    → IsFlow c
    → Returns (channel_openterminal c pty sets_term a b x y) (λ r. IsFlow r.1)
unfolding channel_openterminal
channel_openterminal-IsFlow c pty sets_term a b x y v =
    ground (arith, v.window, v.backed, v.fresh, v.remote)

pub channel_ptyresize-IsFlow :
    (c : Channel) (a b x y : ℕ) → IsFlow c → Returns (channel_ptyresize c a b x y) IsFlow
unfolding channel_ptyresize
channel_ptyresize-IsFlow c a b x y v = ground (arith, v.window, v.backed, v.fresh, v.remote)

start_child-IsFlow :
    (c : Channel) (cmd : Option (List ℕ)) (child : ℕ) (fd0 fd1 fd2 : ℤ)
    → IsFlow c
    → Returns (start_child c cmd child fd0 fd1 fd2) IsFlow
unfolding start_child channel_puteof channel_ptyresize
start_child-IsFlow c cmd child fd0 fd1 fd2 v = ground (arith, v.window, v.backed, v.fresh, v.remote)

name_terminal-IsFlow :
    (c : Channel) (name : Option (List ℕ)) (room : ℕ)
    → IsFlow c
    → Returns (name_terminal c name room) IsFlow
unfolding name_terminal
name_terminal-IsFlow c name room v = ground (arith, v.window, v.backed, v.fresh, v.remote)

forked-IsFlow :
    (m : Outcome Channel) (cmd : Option (List ℕ)) (child : ℕ) (fd0 fd1 fd2 : ℤ)
    → Returns m IsFlow
    → Returns {A = Bool × Channel}
        (m >>= λ d. start_child d cmd child fd0 fd1 fd2 >>= λ e. ok (true, e))
        (λ r. IsFlow r.1)
forked-IsFlow (die e) cmd child fd0 fd1 fd2 h = tt
forked-IsFlow (ok d) cmd child fd0 fd1 fd2 h =
    Returns-bind (λ (r : Bool × Channel). IsFlow r.1) (start_child d cmd child fd0 fd1 fd2)
      (λ e. ok (true, e))
      (λ e known. Returns_ok IsFlow _ (start_child-IsFlow d cmd child fd0 fd1 fd2 h) known)

terminal-IsFlow :
    (c : Channel) (name : Option (List ℕ)) (room : ℕ)
    → IsFlow c
    → Returns (if c.flagterminal then name_terminal c name room else ok c) IsFlow
terminal-IsFlow c name room v = ground (arith, v, name_terminal-IsFlow c name room v)

failed-IsFlow : (c : Channel) → IsFlow c → IsFlow (record c { pid = minus_one })
failed-IsFlow c v = ground (arith, v.window, v.backed, v.remote)

pub channel_exec-IsFlow :
    (c : Channel) (cmd : Option (List ℕ)) (fork : ForkResult) (room : ℕ)
    → IsFlow c
    → Returns (channel_exec c cmd fork room) (λ r. IsFlow r.1)
unfolding channel_exec
channel_exec-IsFlow c cmd (forked child fd0 fd1 fd2 name) room v =
    ground (arith, forked-IsFlow _ cmd child fd0 fd1 fd2 (terminal-IsFlow c name room v))
channel_exec-IsFlow c cmd fork_failed room v = ground (arith, failed-IsFlow c v)

pub channel_waitnohang-IsFlow :
    (c : Channel) (wait : WaitResult)
    → IsFlow c
    → Returns (channel_waitnohang c wait) (λ r. IsFlow r.1)
unfolding channel_waitnohang
channel_waitnohang-IsFlow c wait v = ground (arith, v.window, v.backed, v.fresh, v.remote)

-- The channel starts under the invariant.
pub channel_init-IsFlow :
    (buf0 user termname : List ℕ)
    → channel_bufsize ≤ length buf0
    → IsFlow (channel_init buf0 user termname)
unfolding channel_init
channel_init-IsFlow buf0 user termname h = record {
  window = omega arith;
  backed = omega (arith, length-purge buf0 0 channel_bufsize);
  fresh = λ e. refl;
  remote = omega arith;
}
