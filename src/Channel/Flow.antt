-- ===== src/Channel/Flow.antt =====
-- Flow control of channel.c: the two windows and the bytes in `buf0`.
use tinyssh.Common.{
  ℕ, zero, suc, ◌+◌, ◌-◌, ◌^◌, ◌≤◌, ◌<◌, ◌≡◌, ◌≢◌, List, true, arith, length, die, nomem, Returns,
}
use tinyssh.Common.Int.{is_zero}
use tinyssh.Bytes.{byte_move}
use tinyssh.Bytes.Lengths.{length-byte_copy, length-byte_move, length-purge}
use tinyssh.Channel.{
  after_write, Channel, ReadResult, WriteResult, bytes, wrote, retry, failed, channel_bufsize,
  channel_put, channel_putextended, channel_puteof, channel_close, channel_read,
  channel_extendedread, channel_write, channel_incrementremotewindow, requested,
}

-- The flow control invariant of the channel.
pub record IsFlow (c : Channel) : Type 0 where
  pub window : c.localwindow + c.len0 ≤ channel_bufsize
  pub backed : channel_bufsize ≤ length c.buf0
  pub fresh : is_zero c.pid ≡ true → c.len0 ≡ 0
  pub remote : c.remotewindow < 2 ^ 32

-- Under the flow control invariant `channel_put` of less than 2 ^ 32 bytes never ends in
-- `bug_nomem`: every byte that the window lets through fits the buffer.
pub channel_put-ne-nomem :
    (c : Channel) (buf : List ℕ) (len : ℕ)
    → IsFlow c
    → len < 2 ^ 32
    → channel_put c buf len ≢ die nomem
unfolding channel_put
channel_put-ne-nomem c buf len v h e = ground (arith, v.window)

-- Accepting data trades window for buffered bytes.
pub channel_put-IsFlow :
    (c : Channel) (buf : List ℕ) (len : ℕ)
    → IsFlow c
    → len < 2 ^ 32
    → Returns (channel_put c buf len) IsFlow
unfolding channel_put
channel_put-IsFlow c buf len v h =
    ground (arith, v.window, v.backed, v.fresh, v.remote, length-byte_copy c.buf0 c.len0 len buf)

pub channel_putextended-IsFlow :
    (c : Channel) (len : ℕ) → IsFlow c → len < 2 ^ 32 → Returns (channel_putextended c len) IsFlow
unfolding channel_putextended
channel_putextended-IsFlow c len v h = ground (arith, v.window, v.backed, v.fresh, v.remote)

pub channel_puteof-IsFlow : (c : Channel) → IsFlow c → Returns (channel_puteof c) IsFlow
unfolding channel_puteof
channel_puteof-IsFlow c v = ground (arith, v.window, v.backed, v.fresh, v.remote)

pub channel_close-IsFlow : (c : Channel) → IsFlow c → Returns (channel_close c) IsFlow
unfolding channel_close
channel_close-IsFlow c v =
    ground (arith, v.window, v.backed, v.fresh, v.remote, channel_puteof-IsFlow c v)

pub channel_incrementremotewindow-IsFlow :
    (c : Channel) (n : ℕ) → IsFlow c → Returns (channel_incrementremotewindow c n) IsFlow
unfolding channel_incrementremotewindow
channel_incrementremotewindow-IsFlow c n v = ground (arith, v.window, v.backed, v.fresh, v.remote)

pub channel_read-IsFlow :
    (c : Channel) (read : ℕ → ReadResult) (len : ℕ)
    → IsFlow c
    → Returns (channel_read c read len) (λ r. IsFlow r.1)
unfolding channel_read
channel_read-IsFlow c read len v = ground (arith, v.window, v.backed, v.fresh, v.remote)

pub channel_extendedread-IsFlow :
    (c : Channel) (read : ℕ → ReadResult) (len : ℕ)
    → IsFlow c
    → Returns (channel_extendedread c read len) (λ r. IsFlow r.1)
unfolding channel_extendedread
channel_extendedread-IsFlow c read len v = ground (arith, v.window, v.backed, v.fresh, v.remote)

pub after_write-IsFlow : (c : Channel) (r : WriteResult) → IsFlow c → IsFlow (after_write c r)
unfolding after_write
after_write-IsFlow c retry v = v
after_write-IsFlow c failed v =
    ground (arith, v.window, v.backed, v.remote, length-purge c.buf0 0 c.len0)
after_write-IsFlow c (wrote zero) v =
    ground (arith, v.window, v.backed, v.remote, length-purge c.buf0 0 c.len0)
after_write-IsFlow c (wrote (suc w)) v = ground (
  arith,
  v.window,
  v.backed,
  v.fresh,
  v.remote,
  length-byte_move c.buf0 0 (c.len0 - suc w) (suc w),
  length-purge (byte_move c.buf0 0 (c.len0 - suc w) (suc w)) (c.len0 - suc w) (suc w),
)

pub channel_write-IsFlow :
    (c : Channel) (write : ℕ → WriteResult) → IsFlow c → Returns (channel_write c write) IsFlow
unfolding channel_write
channel_write-IsFlow c write v = ground (arith, v, after_write-IsFlow c (write c.len0) v)

-- `read` answers with no more bytes than it was asked for.
abbrev pub Obeys : (ℕ → ReadResult) → Type 0
Obeys read = (n : ℕ) (zs : List ℕ) → read n ≡ bytes zs → length zs ≤ n

-- What a read takes from the client's window.
abbrev pub Charges : Channel → ℕ → List ℕ × Channel → Type 0
Charges c len (zs, d) =
    (length zs ≤ len)
    × (d.remotewindow + length zs ≡ c.remotewindow)
    × (d.localwindow ≡ c.localwindow)

-- With a `read` that answers with no more bytes than it was asked for, the child's output that
-- `channel_read` returns is within the caller's limit and is charged to the client's window
-- without wrapping; the server's own window stays.
pub channel_read-Charges :
    (c : Channel) (read : ℕ → ReadResult) (len : ℕ)
    → c.remotewindow < 2 ^ 32
    → Obeys read
    → Returns (channel_read c read len) (Charges c len)
unfolding channel_read
channel_read-Charges c read len v h = grind (arith, h (requested c len))

-- The same of the child's error output and `channel_extendedread`: within the caller's limit,
-- charged to the client's window without wrapping, the server's own window stays.
pub channel_extendedread-Charges :
    (c : Channel) (read : ℕ → ReadResult) (len : ℕ)
    → c.remotewindow < 2 ^ 32
    → Obeys read
    → Returns (channel_extendedread c read len) (Charges c len)
unfolding channel_extendedread
channel_extendedread-Charges c read len v h = grind (arith, h (requested c len))
