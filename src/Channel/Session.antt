-- ===== src/Channel/Session.antt =====
-- channel.c: opening the channel, starting the child and seeing it end. What the operating system,
-- newenv.c and connectioninfo.c answer are arguments. Of `fork` the parent's side is modelled.
use tinyssh.Common.{
  ℕ, suc, ◌%◌, ◌^◌, List, [], ◌∷◌, Bool, true, false, not, ◌&&◌, ◌||◌, ◌==◌, if◌then◌else◌, Option,
  none, some, Outcome, ok, die, nomem, proto, bug, die_if, ◌>>=◌, ◌>>◌,
}
use tinyssh.Common.Int.{ℤ, pos, minus_one, is_zero, is_positive}
use tinyssh.Bytes.{purge}
use tinyssh.Str.{str_copyn, literal}
use tinyssh.Buf.{Buf, buf_purge, buf_puts, buf_putnum8}
use tinyssh.Channel.{
  Channel, closes, resizes, executes, purges_env, logs_out, channel_bufsize, channel_puteof,
}

-- `connectioninfo` as C strings.
pub record Connection : Type 0 where
  pub localip : List ℕ
  pub localport : List ℕ
  pub remoteip : List ℕ
  pub remoteport : List ℕ

-- `newenv_copyenv("PATH")`, and `newenv_env(name, value)`.
pub record Environment : Type 0 where
  pub copies_path : Bool
  pub sets : List ℕ → List ℕ → Bool

-- The text of SSH_CONNECTION.
unfoldable pub connection_text : Buf → Connection → Outcome Buf
connection_text b i = do
  b ← buf_purge b
  b ← buf_puts b i.remoteip
  b ← buf_puts b (literal " ")
  b ← buf_puts b i.remoteport
  b ← buf_puts b (literal " ")
  b ← buf_puts b i.localip
  b ← buf_puts b (literal " ")
  b ← buf_puts b i.localport
  buf_putnum8 b 0

-- The text of MAIL, for a system with _PATH_MAILDIR.
unfoldable pub mail_text : Buf → List ℕ → List ℕ → Outcome Buf
mail_text b maildir user = do
  b ← buf_purge b
  b ← buf_puts b maildir
  b ← buf_puts b (literal "/")
  b ← buf_puts b user
  buf_putnum8 b 0

-- The fields that are set before the environment is built.
unfoldable pub opened : Channel → List ℕ → ℕ → ℕ → ℕ → Channel
opened c user id remotewindow maxpacket = record c {
  user = user;
  id = id;
  maxpacket = maxpacket;
  remotewindow = remotewindow;
  localwindow = channel_bufsize;
}

-- The environment of a new session, built in the memory of `buf0`, which is then cleared.
unfoldable pub set_environment :
    Channel → Connection → Environment → List ℕ → List ℕ → Outcome (Bool × Channel)
set_environment c i env maildir user =
    if not env.copies_path && not (env.sets (literal "PATH") (literal "/bin:/usr/bin"))
    then ok (false, c)
    else (do
      t ← connection_text (record { mem = c.buf0; len = 0; alloc = channel_bufsize }) i
      if not (env.sets (literal "SSH_CONNECTION") t.mem)
          then ok (false, record c { buf0 = t.mem })
          else (do
            u ← mail_text t maildir user
            if not (env.sets (literal "MAIL") u.mem)
                then ok (false, record c { buf0 = u.mem })
                else ok (true, record c { buf0 = purge u.mem 0 channel_bufsize })))

-- The answer is what the function returns; `*localwindow` is the new `localwindow`.
unfoldable pub channel_open :
    Channel → Connection → Environment → List ℕ → List ℕ → ℕ → ℕ → ℕ → ℕ → Outcome (Bool × Channel)
channel_open c i env maildir user user_size id remotewindow maxpacket = do
  die_if (maxpacket == 0) proto
  if not (c.maxpacket == 0) || not (is_zero c.pid) then ok (false, c) else (do
    let (copied, whole) = str_copyn c.user user_size user
    die_if (not whole) nomem
    set_environment (opened c copied id remotewindow maxpacket) i env maildir user)

-- `channel_openpty`: the two descriptors, if it succeeds. `sets_term` is `newenv_env("TERM", name)`.
unfoldable pub channel_openterminal :
    Channel → Option (ℤ × ℤ) → Bool → ℕ → ℕ → ℕ → ℕ → Outcome (Bool × Channel)
channel_openterminal c pty sets_term a b x y = do
  die_if (c.maxpacket == 0) proto
  die_if (not (is_zero c.pid)) proto
  die_if c.flagterminal proto
  elim pty [
    | none ↦ ok (false, c)
    | some (master, slave) ↦
        if not sets_term
        then ok (false, record c { calls = closes slave ∷ closes master ∷ c.calls })
        else ok (
          true,
          record c {
            master = master;
            slave = slave;
            flagterminal = true;
            a = a;
            b = b;
            x = x;
            y = y;
          },
        )
  ]

-- The `unsigned short` fields of `struct winsize` cut the sizes.
unfoldable pub channel_ptyresize : Channel → ℕ → ℕ → ℕ → ℕ → Outcome Channel
channel_ptyresize c a b x y = do
  die_if (c.maxpacket == 0) proto
  die_if (not (is_positive c.pid)) proto
  if a == 0 && b == 0 && x == 0 && y == 0
      then ok c
      else ok (record c {
        calls = resizes c.fd0 (a % 2 ^ 16) (b % 2 ^ 16) (x % 2 ^ 16) (y % 2 ^ 16) ∷ c.calls;
      })

-- `channel_fork` or `channel_forkpty` in the parent: the child's id, which is not 0, and the
-- descriptors; and for a terminal the name that `ptsname` gives.
pub data ForkResult : Type 0 where
  forked : ℕ → ℤ → ℤ → ℤ → Option (List ℕ) → ForkResult
  fork_failed : ForkResult

-- The name of the terminal; `room` is the size of `termname`.
unfoldable pub name_terminal : Channel → Option (List ℕ) → ℕ → Outcome Channel
name_terminal c none room = die bug
name_terminal c (some name) room = do
  let (copied, whole) = str_copyn c.termname room name
  die_if (not whole) nomem
  ok (record c { termname = copied })

unfoldable pub start_child : Channel → Option (List ℕ) → ℕ → ℤ → ℤ → ℤ → Outcome Channel
start_child c cmd child fd0 fd1 fd2 = do
  let d = record c {
    pid = pos (suc child);
    fd0 = fd0;
    fd1 = fd1;
    fd2 = fd2;
    len0 = 0;
    calls = executes cmd ∷ c.calls;
  }
  d ← if d.remoteeof then channel_puteof d else ok d
  let e = record d { calls = purges_env ∷ d.calls }
  if e.flagterminal then channel_ptyresize e e.a e.b e.x e.y else ok e

-- The id of the child is `suc child`; it runs `cmd`, or the login shell.
unfoldable pub channel_exec : Channel → Option (List ℕ) → ForkResult → ℕ → Outcome (Bool × Channel)
channel_exec c cmd fork room = do
  die_if (c.maxpacket == 0) proto
  die_if (not (is_zero c.pid)) proto
  elim fork [
    | fork_failed ↦ ok (false, record c { pid = minus_one })
    | forked child fd0 fd1 fd2 name ↦ (do
      d ← if c.flagterminal then name_terminal c name room else ok c
      d ← start_child d cmd child fd0 fd1 fd2
      ok (true, d))
  ]

-- What `waitpid(pid, &status, WNOHANG)` tells after EINTR: nothing yet or an error, an exit code, a
-- signal, or a status that is neither.
pub data WaitResult : Type 0 where
  running : WaitResult
  exited : ℕ → WaitResult
  signaled : ℕ → WaitResult
  other : WaitResult

-- The child has ended: `logsys_logout` for a terminal.
ended : Channel → Channel
ended c = record c {
  pid = minus_one;
  calls = if c.flagterminal then logs_out ∷ c.calls else c.calls;
}

-- The signal and the exit code, if the child has ended.
unfoldable pub channel_waitnohang : Channel → WaitResult → Outcome (Option (ℤ × ℤ) × Channel)
unfolding ended
channel_waitnohang c wait = do
  die_if (c.maxpacket == 0) proto
  if not (is_positive c.pid) then ok (none, c) else (elim wait [
    | running ↦ ok (none, c)
    | exited code ↦ ok (some (pos 0, pos code), ended c)
    | signaled signal ↦ ok (some (pos signal, pos 0), ended c)
    | other ↦ ok (some (minus_one, minus_one), ended c)
  ])

-- The channel after `channel_init`; `purge` clears the structure; of the arrays only `buf0` is read
-- before it is written again.
unfoldable pub channel_init : List ℕ → List ℕ → List ℕ → Channel
channel_init buf0 user termname = record {
  maxpacket = 0;
  id = 0;
  localwindow = 0;
  remotewindow = 0;
  buf0 = purge buf0 0 channel_bufsize;
  len0 = 0;
  pid = pos 0;
  fd0 = minus_one;
  fd1 = minus_one;
  fd2 = minus_one;
  user = user;
  termname = termname;
  flagterminal = false;
  master = minus_one;
  slave = minus_one;
  a = 0;
  b = 0;
  x = 0;
  y = 0;
  remoteeof = false;
  calls = [];
}
