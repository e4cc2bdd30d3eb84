-- ===== src/Packet/Queue.antt =====
-- packet_send.c and packet_recv.c: the bytes on their way to and from the client.
use tinyssh.Common.{
  ℕ, ◌+◌, ◌-◌, ◌≤◌, ◌≡◌, refl, ap, ◌∙◌, List, [], ◌∷◌, ◌++◌, Bool, true, false, ◌==◌, ltb,
  if◌then◌else◌, Bool-cases, inl, inr, arith, length, take, take-append-drop, take-length,
  length-take, Outcome, ok, ◌>>=◌,
}
use tinyssh.Bytes.{byte_copy, byte_move, purge}
use tinyssh.Bytes.Copy.{take-shift_out, byte_copy-splice, take-splice}
use tinyssh.Buf.{Buf, buf_ready}
use tinyssh.Buf.Contents.{IsValid, contents}
use tinyssh.Channel.{ReadResult, WriteResult, bytes, wrote, retry, failed}
use tinyssh.Packet.{Packet, transport_packet_limit, packet_zerobytes}

unfoldable pub packet_sendisready : Packet → Bool
packet_sendisready p = ltb 0 p.sendbuf.len

-- Takes the `w` written bytes off `sendbuf`.
sent : Packet → ℕ → Packet
sent p w =
    let s = p.sendbuf in
    record p {
      sendbuf = record s {
        mem = purge (byte_move s.mem 0 (s.len - w) w) (s.len - w) w;
        len = s.len - w;
      };
    }

-- By what `write` returns; 0 is answered for an error that is no reason to try again.
unfoldable pub after_send : Packet → WriteResult → Bool × Packet
unfolding sent
after_send p (wrote w) = (true, sent p w)
after_send p retry = (true, p)
after_send p failed = (false, p)

unfoldable pub packet_send : Packet → (ℕ → WriteResult) → Bool × Packet
packet_send p write = if p.sendbuf.len == 0 then (true, p) else after_send p (write p.sendbuf.len)

-- `all_written`: whether `writeall` wrote the whole queue.
unfoldable pub packet_sendall : Packet → Bool → Bool × Packet
packet_sendall p all_written =
    if all_written
    then (
      true,
      record p {
        sendbuf = record (p.sendbuf) { mem = purge p.sendbuf.mem 0 p.sendbuf.len; len = 0 };
      },
    )
    else (false, p)

unfoldable pub packet_recvisready : Packet → Outcome Bool
packet_recvisready p = buf_ready p.recvbuf transport_packet_limit

-- Room for the zero bytes is made on the first call.
with_zerobytes : Buf → Buf
with_zerobytes r =
    if ltb r.len packet_zerobytes
    then record r { mem = purge r.mem 0 packet_zerobytes; len = packet_zerobytes }
    else r

-- By what `read` returns; the end of the stream is an error.
pub after_recv : Packet → ReadResult → Bool × Packet
after_recv p (bytes []) = (false, p)
after_recv p (bytes (z ∷ zs)) =
    let r = p.recvbuf in
    (
      true,
      record p {
        recvbuf = record r {
          mem = byte_copy r.mem r.len (length (z ∷ zs)) (z ∷ zs);
          len = r.len + length (z ∷ zs);
        };
      },
    )
after_recv p retry = (true, p)
after_recv p failed = (false, p)

unfoldable pub packet_recv : Packet → (ℕ → ReadResult) → Outcome (Bool × Packet)
unfolding with_zerobytes packet_recvisready after_recv
packet_recv p read = do
  let q = record p { recvbuf = with_zerobytes p.recvbuf }
  ready ← packet_recvisready q
  ok (if ready then after_recv q (read transport_packet_limit) else (true, q))

-- What one `write` takes out of the queue.
abbrev pub taken : Packet → WriteResult → List ℕ
taken p (wrote w) = take w (contents p.sendbuf)
taken p retry = []
taken p failed = []

after_send_keeps :
    (p : Packet) (r : WriteResult)
    → IsValid p.sendbuf
    → ((w : ℕ) → r ≡ wrote w → w ≤ p.sendbuf.len)
    → taken p r ++ contents (after_send p r).1.sendbuf ≡ contents p.sendbuf
unfolding after_send
after_send_keeps p retry v h = refl
after_send_keeps p failed v h = refl
after_send_keeps p (wrote w) v h =
    ap (◌++◌ (taken p (wrote w)))
      (take-shift_out p.sendbuf.mem p.sendbuf.len w (h w refl) (omega (arith, v.held, v.backed)))
    ∙ take-append-drop w (contents p.sendbuf)

-- With a valid queue and a `write` that takes no more than it is given, the bytes taken and the
-- bytes still queued are the queue as it was: nothing is lost, doubled or reordered.
pub packet_send_keeps :
    (p : Packet) (write : ℕ → WriteResult)
    → IsValid p.sendbuf
    → ((n w : ℕ) → write n ≡ wrote w → w ≤ n)
    → (if p.sendbuf.len == 0 then [] else taken p (write p.sendbuf.len))
        ++ contents (packet_send p write).1.sendbuf
      ≡ contents p.sendbuf
unfolding packet_send after_send
packet_send_keeps p write v h = elim (Bool-cases (p.sendbuf.len == 0)) [
  | inl empty ↦ rw empty
  | inr some ↦ rw some (after_send_keeps p (write p.sendbuf.len) v (λ w e. h p.sendbuf.len w e))
]

-- What arrives goes behind what has arrived before.
pub after_recv_appends :
    (p : Packet) (z : ℕ) (zs : List ℕ)
    → IsValid p.recvbuf
    → p.recvbuf.len + length (z ∷ zs) ≤ p.recvbuf.alloc
    → contents (after_recv p (bytes (z ∷ zs))).1.recvbuf ≡ contents p.recvbuf ++ (z ∷ zs)
unfolding after_recv
after_recv_appends p z zs v h =
    ap (take (r.len + n))
      (byte_copy-splice r.mem r.len n (z ∷ zs) (omega arith) (omega (arith, v.backed)))
    ∙ take-splice r.mem (take n (z ∷ zs)) r.len n (omega (arith, v.held, v.backed))
        (omega (arith, length-take n (z ∷ zs)))
    ∙ ap (◌++◌ (contents r)) (take-length (z ∷ zs))
  where
    r : Buf
    r = p.recvbuf

    n : ℕ
    n = length (z ∷ zs)
