-- ===== src/Channel.antt =====
-- channel.c: the one session channel, its child process and its windows.
-- System calls are arguments (what they return); `calls` records the ones that have an effect
-- outside, newest first. A `crypto_uint32` is a number below 2 ^ 32, and a file descriptor or process
-- id an integer. `-=` and `+=` on windows wrap at 2 ^ 32 as in the source.
pub mod Session
pub mod Flow
pub mod Input
pub mod Opening
use tinyssh.Common.{
  Option, ℕ, zero, suc, ◌+◌, ◌-◌, ◌%◌, ◌^◌, List, [], ◌∷◌, Bool, true, false, not, ◌&&◌, ◌||◌, ◌==◌,
  ltb, leb, if◌then◌else◌, length, drop, min, Outcome, ok, die, inval, nomem, proto, bug, die_if,
  ◌>>=◌, ◌>>◌,
}
use tinyssh.Common.Int.{ℤ, pos, minus_one, is_minus_one, is_zero, is_positive, is_negative}
use tinyssh.Bytes.{byte_copy, byte_move, purge}

pub data Call : Type 0 where
  -- close(fd)
  closes : ℤ → Call
  -- ioctl(fd, TIOCSWINSZ, columns rows width height)
  resizes : ℤ → ℕ → ℕ → ℕ → ℕ → Call
  -- newenv_exec in the child, with the command or with the login shell
  executes : Option (List ℕ) → Call
  -- newenv_purge()
  purges_env : Call
  -- logsys_logout()
  logs_out : Call

pub record Channel : Type 0 where
  pub maxpacket : ℕ
  pub id : ℕ
  pub localwindow : ℕ
  pub remotewindow : ℕ
  pub buf0 : List ℕ
  pub len0 : ℕ
  pub pid : ℤ
  pub fd0 : ℤ
  pub fd1 : ℤ
  pub fd2 : ℤ
  pub user : List ℕ
  pub termname : List ℕ
  pub flagterminal : Bool
  pub master : ℤ
  pub slave : ℤ
  pub a : ℕ
  pub b : ℕ
  pub x : ℕ
  pub y : ℕ
  pub remoteeof : Bool
  pub calls : List Call

abbrev pub channel_bufsize : ℕ
channel_bufsize = 131_072

-- What `read` returns: the bytes read (none at the end of the file), one of EINTR, EAGAIN and
-- EWOULDBLOCK, or another error.
pub data ReadResult : Type 0 where
  bytes : List ℕ → ReadResult
  retry : ReadResult
  failed : ReadResult

-- What `write` returns: the count, one of EINTR, EAGAIN and EWOULDBLOCK, or another error.
pub data WriteResult : Type 0 where
  wrote : ℕ → WriteResult
  retry : WriteResult
  failed : WriteResult

-- `x -= n` on a `crypto_uint32`.
abbrev pub sub32 : ℕ → ℕ → ℕ
sub32 x n = (x + 2 ^ 32 - n % 2 ^ 32) % 2 ^ 32

-- `close(channel.fd0); channel.fd0 = -1;`
close_fd0 : Channel → Channel
close_fd0 c = record c { fd0 = minus_one; calls = closes c.fd0 ∷ c.calls }

unfoldable pub channel_put : Channel → List ℕ → ℕ → Outcome Channel
channel_put c buf len = do
  die_if (c.maxpacket == 0) proto
  die_if (is_zero c.pid) proto
  die_if (ltb c.localwindow (len % 2 ^ 32)) proto
  if is_negative c.pid || is_minus_one c.fd0 then ok c else (do
    die_if (ltb channel_bufsize (c.len0 + len)) nomem
    ok (record c {
      buf0 = byte_copy c.buf0 c.len0 len buf;
      len0 = c.len0 + len;
      localwindow = sub32 c.localwindow len;
    }))

unfoldable pub channel_putextended : Channel → ℕ → Outcome Channel
channel_putextended c len = do
  die_if (c.maxpacket == 0) proto
  die_if (is_zero c.pid) proto
  die_if (ltb c.localwindow (len % 2 ^ 32)) proto
  ok (record c { localwindow = sub32 c.localwindow len })

unfoldable pub channel_puteof : Channel → Outcome Channel
unfolding close_fd0
channel_puteof c = do
  die_if (c.maxpacket == 0) proto
  let d = record c { remoteeof = true }
  if is_zero c.pid || is_minus_one c.fd0
      then ok d
      else if c.len0 == 0 && not c.flagterminal
      then ok (close_fd0 d)
      else ok d

-- `if (fd != -1) close(fd);`
close_open : ℤ → List Call → List Call
close_open fd calls = if is_minus_one fd then calls else closes fd ∷ calls

unfoldable pub channel_close : Channel → Outcome Channel
unfolding channel_puteof close_open
channel_close c = do
  die_if (c.maxpacket == 0) proto
  if is_positive c.pid
      then channel_puteof c
      else if is_negative c.pid
      then ok c
      else ok (record c {
        master = minus_one;
        slave = minus_one;
        flagterminal = false;
        fd0 = minus_one;
        fd1 = minus_one;
        fd2 = minus_one;
        pid = minus_one;
        calls = purges_env ∷ close_open c.slave (close_open c.master c.calls);
      })

unfoldable pub channel_putisready : Channel → Bool
channel_putisready c =
    if c.maxpacket == 0 || not (is_positive c.pid) || is_minus_one c.fd0
    then false
    else ltb c.len0 channel_bufsize

-- `r = len; if (r > 1048576) r = 1048576; if (r > channel.remotewindow) r = channel.remotewindow;`
abbrev pub requested : Channel → ℕ → ℕ
requested c len = min (min len 1_048_576) c.remotewindow

-- The end of the child's output on fd1, or an error: the terminal is not closed.
end_of_output : Channel → Channel
end_of_output c = record c {
  fd1 = minus_one;
  calls = if c.flagterminal then c.calls else closes c.fd1 ∷ c.calls;
}

-- `read` tells what reading so many bytes returns. The result is the count and what was read.
unfoldable pub channel_read : Channel → (ℕ → ReadResult) → ℕ → Outcome (List ℕ × Channel)
unfolding end_of_output
channel_read c read len = do
  die_if (c.maxpacket == 0) proto
  die_if (not (is_positive c.pid)) proto
  die_if (is_minus_one c.fd1) proto
  if c.remotewindow == 0 then ok ([], c) else (elim (read (requested c len)) [
    | retry ↦ ok ([], c)
    | failed ↦ ok ([], end_of_output c)
    | bytes [] ↦ ok ([], end_of_output c)
    | bytes (z ∷ zs) ↦
        ok (z ∷ zs, record c { remotewindow = sub32 c.remotewindow (length (z ∷ zs)) })
  ])

-- The end of the child's output on fd2, or an error: the terminal is not closed.
end_of_errors : Channel → Channel
end_of_errors c = record c {
  fd2 = minus_one;
  calls = if c.flagterminal then c.calls else closes c.fd2 ∷ c.calls;
}

unfoldable pub channel_extendedread : Channel → (ℕ → ReadResult) → ℕ → Outcome (List ℕ × Channel)
unfolding end_of_errors
channel_extendedread c read len = do
  die_if (c.maxpacket == 0) proto
  die_if (not (is_positive c.pid)) proto
  die_if (is_minus_one c.fd2) proto
  if c.remotewindow == 0 then ok ([], c) else (elim (read (requested c len)) [
    | retry ↦ ok ([], c)
    | failed ↦ ok ([], end_of_errors c)
    | bytes [] ↦ ok ([], end_of_errors c)
    | bytes (z ∷ zs) ↦
        ok (z ∷ zs, record c { remotewindow = sub32 c.remotewindow (length (z ∷ zs)) })
  ])

unfoldable pub channel_readisready : Channel → Bool
channel_readisready c =
    if c.maxpacket == 0 || is_zero c.pid || is_minus_one c.fd1 then false else ltb 0 c.remotewindow

unfoldable pub channel_extendedreadisready : Channel → Bool
channel_extendedreadisready c =
    if c.maxpacket == 0 || is_zero c.pid || is_minus_one c.fd2 then false else ltb 0 c.remotewindow

-- A failed write, or one of no byte: a half-close.
drop_input : Channel → Channel
unfolding close_fd0
drop_input c = record (close_fd0 c) { buf0 = purge c.buf0 0 c.len0; len0 = 0 }

-- After `w` bytes went to the child.
sent_input : Channel → ℕ → Channel
unfolding close_fd0
sent_input c w =
    let d = record c {
      buf0 = purge (byte_move c.buf0 0 (c.len0 - w) w) (c.len0 - w) w;
      len0 = c.len0 - w;
    } in
    if c.remoteeof && d.len0 == 0 && not c.flagterminal then close_fd0 d else d

-- What is done after `write`, by its result.
unfoldable pub after_write : Channel → WriteResult → Channel
unfolding drop_input sent_input
after_write c retry = c
after_write c failed = drop_input c
after_write c (wrote zero) = drop_input c
after_write c (wrote (suc w)) = sent_input c (suc w)

-- `write` tells what writing so many bytes returns.
unfoldable pub channel_write : Channel → (ℕ → WriteResult) → Outcome Channel
channel_write c write = do
  die_if (c.maxpacket == 0) proto
  die_if (not (is_positive c.pid)) proto
  die_if (is_minus_one c.fd0) proto
  if c.len0 == 0 then ok c else ok (after_write c (write c.len0))

unfoldable pub channel_writeisready : Channel → Bool
channel_writeisready c =
    if c.maxpacket == 0 || not (is_positive c.pid) || is_minus_one c.fd0
    then false
    else ltb 0 c.len0

unfoldable pub channel_iseof : Channel → Bool
channel_iseof c =
    if c.maxpacket == 0 || is_zero c.pid
    then false
    else if is_minus_one c.pid
    then true
    else is_minus_one c.fd1 && is_minus_one c.fd2

unfoldable pub channel_incrementremotewindow : Channel → ℕ → Outcome Channel
channel_incrementremotewindow c n = do
  die_if (ltb (0xffff_ffff - c.remotewindow) n) proto
  ok (record c { remotewindow = (c.remotewindow + n) % 2 ^ 32 })

unfoldable pub channel_incrementlocalwindow : Channel → ℕ → Outcome Channel
channel_incrementlocalwindow c n = do
  die_if (ltb (0xffff_ffff - c.localwindow) n) bug
  ok (record c { localwindow = (c.localwindow + n) % 2 ^ 32 })
