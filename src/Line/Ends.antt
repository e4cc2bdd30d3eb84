-- ===== src/Line/Ends.antt =====
-- packet_get.c and packet_send.c: `packet_getall` has enough fuel.
use tinyssh.Common.{
  ℕ, zero, suc, ◌+◌, ◌≡◌, ◌≢◌, ◌<◌, refl, ap, List, [], ◌∷◌, Bool, true, false, ◌==◌, ltb, arith,
  Outcome, ok, die, Fault, out_of_fuel, ◌>>=◌, inl, inr, Bool-cases,
}
use tinyssh.Buf.{Buf, buf_purge, buf_ready}
use tinyssh.Channel.{ReadResult}
use tinyssh.Packet.{Packet, Cipher}
use tinyssh.Packet.Get.{Got, answer, unfinished, packet_get}
use tinyssh.Packet.Rounds.{packet_get-finishes}
use tinyssh.Packet.Queue
use tinyssh.Line.{
  Line, Round, ended, moved, waits, getall_round, getall_rounds, getall_loop, packet_getall,
}
use tinyssh.Packet.Ends.{
  Ends, Ends-bind, buf_purge-Ends, IsSteady, Ends-split, get_loop-Ends, get_loop-shrinks,
}

abbrev left : Bool → Buf → Line → Outcome (Bool × Buf × Line)
left more b l = ok (more, b, l)

module _ (cipher : Cipher) (steady : IsSteady cipher) (expected : ℕ) where
  -- What the rounds up to a wait come to.
  data Stops : Outcome Round → Type 0 where
    at_end : (more : Bool) (c : Buf) (q : Packet) → Stops (ok (ended more c q))
    at_wait : (c : Buf) (q : Packet) → Stops (ok (waits c q))
    faulty : (e : Fault) → e ≢ out_of_fuel → Stops (die e)

  getall_rounds-Stops :
      (fuel : ℕ) (p : Packet) (b : Buf)
      → p.recvbuf.len < fuel
      → Stops (getall_rounds cipher fuel p b expected)
  unfolding getall_rounds packet_get
  getall_rounds-Stops zero p b enough = absurd (omega (arith, enough))
  getall_rounds-Stops (suc fuel) p b enough =
      by_got (packet_get cipher p b expected) refl
        (get_loop-Ends cipher steady expected (p.recvbuf.len + 1) p b)
        (packet_get-finishes cipher p b expected steady.consumes)
        (λ q c less. getall_rounds-Stops fuel q c (omega (arith, less, enough)))
    where
      next : Outcome Round → Outcome Round
      next o = o >>= λ round. elim round [
        | ended more c q ↦ ok (ended more c q)
        | moved c q ↦ getall_rounds cipher fuel q c expected
        | waits c q ↦ ok (waits c q)
      ]

      by_got :
          (o : Outcome Got)
          → packet_get cipher p b expected ≡ o
          → Ends o
          → o ≢ ok unfinished
          → ((q : Packet) (c : Buf)
              → q.recvbuf.len < p.recvbuf.len
              → Stops (getall_rounds cipher fuel q c expected))
          → Stops (o >>= λ got. next (getall_round p.recvbuf.len got))
      by_got (die e) same ends h ih = faulty e (λ q. ends (ap (λ f. die f) q))
      by_got (ok unfinished) same ends h ih = absurd (h refl)
      by_got (ok (answer false c q)) same ends h ih = unfold getall_round in at_end false c q
      by_got (ok (answer true c q)) same ends h ih =
          unfold getall_round in
          elim (Bool-cases (ltb 0 c.len)) [
            | inl t ↦ rw t (at_end true c q)
            | inr t ↦ elim (Bool-cases (p.recvbuf.len == q.recvbuf.len)) [
              | inl s ↦ rw (t, s) (at_wait c q)
              | inr s ↦ rw (t, s) (ih q c (less s))
            ]
          ]
        where
          less : (p.recvbuf.len == q.recvbuf.len) ≡ false → q.recvbuf.len < p.recvbuf.len
          less s = ground (
            arith,
            s,
            get_loop-shrinks cipher steady expected (p.recvbuf.len + 1) p q b c true
                (unfold packet_get in same),
          )

  recv-Ends : (p : Packet) (r : ReadResult) → Ends (Queue.packet_recv p (λ n. r))
  unfolding Queue.packet_recv Queue.packet_recvisready buf_ready
  recv-Ends p r h = ground (arith, h)

  getall_loop-Ends :
      (reads : List ReadResult) (writes : List Bool) (p : Packet) (b : Buf)
      → Ends (getall_loop cipher reads writes p b expected)
  unfolding getall_loop
  getall_loop-Ends [] writes p b =
      last (getall_rounds cipher (p.recvbuf.len + 1) p b expected)
        (getall_rounds-Stops (p.recvbuf.len + 1) p b (omega arith))
    where
      last :
          (o : Outcome Round)
          → Stops o
          → Ends (
              o >>= λ round. elim round [
                | ended more c q ↦ left more c (record { packet = q; reads = []; writes = writes })
                | moved c q ↦ die out_of_fuel
                | waits c q ↦ ok (false, c, record { packet = q; reads = []; writes = writes })
              ])
      last o (at_end more c q) = λ h. absurd (cc)
      last o (at_wait c q) = λ h. absurd (cc)
      last o (faulty e g) = λ h. g (cc)
  getall_loop-Ends (r ∷ reads) writes p b =
      next (getall_rounds cipher (p.recvbuf.len + 1) p b expected)
        (getall_rounds-Stops (p.recvbuf.len + 1) p b (omega arith))
        (λ q c. getall_loop-Ends reads writes q c)
    where
      next :
          (o : Outcome Round)
          → Stops o
          → ((q : Packet) (c : Buf) → Ends (getall_loop cipher reads writes q c expected))
          → Ends (
              o >>= λ round. elim round [
                | ended more c q ↦
                    left more c (record { packet = q; reads = r ∷ reads; writes = writes })
                | moved c q ↦ die out_of_fuel
                | waits c q ↦ do
                  (open_still, q) ← Queue.packet_recv q (λ n. r)
                  elim open_still [
                    | true ↦ getall_loop cipher reads writes q c expected
                    | false ↦ ok (false, c, record { packet = q; reads = reads; writes = writes })
                  ]
              ])
      next o (at_end more c q) ih = λ h. absurd (cc)
      next o (faulty e g) ih = λ h. g (cc)
      next o (at_wait c q) ih =
          Ends-bind (Queue.packet_recv q (λ n. r)) _ (recv-Ends q r)
            (λ (open_still, s) e. Ends-split open_still _ _ (λ t. ih s c) (λ t h. absurd (cc)))

  -- With a cipher that takes each packet it gives off the received bytes, gives none back and has no
  -- such fault of its own, `packet_getall` ends whatever arrives: the fuel of its loops is enough,
  -- and the model's own fault for a loop without fuel does not occur.
  pub packet_getall-Ends :
      (l : Line) (b : Buf) → packet_getall cipher l b expected ≢ die out_of_fuel
  unfolding packet_getall
  packet_getall-Ends l b =
      Ends-bind (buf_purge b) _ (buf_purge-Ends b)
        (λ c e. getall_loop-Ends l.reads l.writes l.packet c)
