-- ===== src/Line.antt =====
-- packet_get.c and packet_send.c where they wait for the network: `packet_getall`, `packet_sendall`.
pub mod Waits
pub mod Same
pub mod Ends
use tinyssh.Common.{
  ℕ, zero, suc, ◌+◌, List, [], ◌∷◌, Bool, true, false, not, ◌==◌, ltb, if◌then◌else◌, Outcome, ok,
  die, out_of_fuel, ◌>>=◌, ◌>>◌,
}
use tinyssh.Buf.{Buf, buf_purge}
use tinyssh.Channel.{ReadResult}
use tinyssh.Packet.{Packet, Cipher}
use tinyssh.Packet.Get.{Got, answer, unfinished, packet_get}
use tinyssh.Packet.Plain.{packet_put}
use tinyssh.Packet.Queue

-- The transport and what the system answers: `read` in each round that waits, and whether `writeall`
-- writes the whole queue. After the last answer of a list the call fails.
pub record Line : Type 0 where
  pub packet : Packet
  pub reads : List ReadResult
  pub writes : List Bool

-- What a round of `packet_getall` comes to.
pub data Round : Type 0 where
  -- the loop ends with 0 or 1
  ended : Bool → Buf → Packet → Round
  -- `before != packet.recvbuf.len`
  moved : Buf → Packet → Round
  -- `poll` and `packet_recv`
  waits : Buf → Packet → Round

-- The tests behind `packet_get`; `before` is `packet.recvbuf.len` before it.
unfoldable pub getall_round : ℕ → Got → Outcome Round
getall_round before unfinished = die out_of_fuel
getall_round before (answer more b p) =
    if not more
    then ok (ended false b p)
    else if ltb 0 b.len
    then ok (ended true b p)
    else if not (before == p.recvbuf.len)
    then ok (moved b p)
    else ok (waits b p)

-- The rounds up to the next wait; the fuel is one more than `recvbuf` has bytes.
unfoldable pub getall_rounds : Cipher → ℕ → Packet → Buf → ℕ → Outcome Round
getall_rounds cipher zero p b expected = die out_of_fuel
getall_rounds cipher (suc fuel) p b expected = do
  got ← packet_get cipher p b expected
  round ← getall_round p.recvbuf.len got
  elim round [
    | ended more c q ↦ ok (ended more c q)
    | moved c q ↦ getall_rounds cipher fuel q c expected
    | waits c q ↦ ok (waits c q)
  ]

unfoldable pub getall_loop :
    Cipher → List ReadResult → List Bool → Packet → Buf → ℕ → Outcome (Bool × Buf × Line)
unfolding getall_rounds
getall_loop cipher [] writes p b expected = do
  round ← getall_rounds cipher (p.recvbuf.len + 1) p b expected
  elim round [
    | ended more c q ↦ ok (more, c, record { packet = q; reads = []; writes = writes })
    | moved c q ↦ die out_of_fuel
    | waits c q ↦ ok (false, c, record { packet = q; reads = []; writes = writes })
  ]
getall_loop cipher (r ∷ reads) writes p b expected = do
  round ← getall_rounds cipher (p.recvbuf.len + 1) p b expected
  elim round [
    | ended more c q ↦ ok (more, c, record { packet = q; reads = r ∷ reads; writes = writes })
    | moved c q ↦ die out_of_fuel
    | waits c q ↦ do
      (open_still, q) ← Queue.packet_recv q (λ n. r)
      elim open_still [
        | true ↦ getall_loop cipher reads writes q c expected
        | false ↦ ok (false, c, record { packet = q; reads = reads; writes = writes })
      ]
  ]

unfoldable pub packet_getall : Cipher → Line → Buf → ℕ → Outcome (Bool × Buf × Line)
unfolding getall_loop
packet_getall cipher l b expected = do
  b ← buf_purge b
  getall_loop cipher l.reads l.writes l.packet b expected

-- `packet_put(b)`.
unfoldable pub line_put : Cipher → Line → Buf → Outcome Line
unfolding packet_put
line_put cipher l b = do p ← packet_put cipher l.packet b; ok (record l { packet = p })

next_write : List Bool → Bool × List Bool
next_write [] = (false, [])
next_write (w ∷ writes) = (w, writes)

-- `packet_sendall()`.
unfoldable pub line_sendall : Line → Bool × Line
unfolding next_write
line_sendall l =
    let (all_written, writes) = next_write l.writes in
    let (sent, p) = Queue.packet_sendall l.packet all_written in
    (sent, record l { packet = p; writes = writes })
