-- ===== src/Line/Same.antt =====
-- What receiving a packet leaves as it is.
use tinyssh.Common.{
  ℕ, zero, suc, ◌+◌, ◌≡◌, refl, sym, ap, ◌∙◌, Bool, true, false, if◌then◌else◌, arith, inl, inr,
  ltb, Outcome, ok, Returns, Returns-bind, Returns-if, Returns-check, Returns_map,
  too_many_messages, not, ◌&&◌, ◌==◌, ◌<◌, get_or, >>=-eq-ok, Returns_ok, Bool-cases, if-true,
  if-false, receive_overflow,
}
use tinyssh.Buf.{Buf, buf_purge}
use tinyssh.Channel.{ReadResult}
use tinyssh.Packet.{Packet, Cipher, unauthenticated_messages}
use tinyssh.Packet.Get.{
  Got, answer, unfinished, Verdict, stop, skip, deliver, classify, packet_get, get_loop, get_round,
  packet_get_any,
}
use tinyssh.Packet.Plain.{packet_get_plain}
use tinyssh.Packet.Rounds.{after_check}
use tinyssh.Packet.Queue
use tinyssh.Line.{Line, packet_getall}
use tinyssh.Line.Waits.{LoopKeeps, packet_getall-LoopKeeps}

-- What a cipher leaves as it is: the state of the session.
pub record Same (p q : Packet) : Type 0 where
  pub flagkeys : q.flagkeys ≡ p.flagkeys
  pub flagauthorized : q.flagauthorized ≡ p.flagauthorized
  pub flagrekeying : q.flagrekeying ≡ p.flagrekeying
  pub strict_kex : q.strict_kex ≡ p.strict_kex

abbrev pub KeepsSession : Cipher → Type 0
KeepsSession cipher =
    (p q : Packet) (b c : Buf) (more : Bool) → cipher.get p b ≡ ok (more, c, q) → Same p q

pub Same-refl : (p : Packet) → Same p p
Same-refl p = record {
  flagkeys = refl;
  flagauthorized = refl;
  flagrekeying = refl;
  strict_kex = refl;
}

get_plain-Same :
    (p q : Packet) (b c : Buf) (more : Bool) → packet_get_plain p b ≡ ok (more, c, q) → Same p q
unfolding packet_get_plain
get_plain-Same p q b c more h = ground (arith, h)

get_any-Same :
    (cipher : Cipher) (p q : Packet) (b c : Buf) (more : Bool)
    → KeepsSession cipher
    → packet_get_any cipher p b ≡ ok (more, c, q)
    → Same p q
unfolding packet_get_any
get_any-Same cipher p q b c more keeps h =
    let (r, taken, checked) =
      >>=-eq-ok (if p.flagkeys then cipher.get p b else packet_get_plain p b) _ h in
    let taken' : (if p.flagkeys then cipher.get p b else packet_get_plain p b) ≡ ok (more, c, q) =
      taken
      ∙ ap ok (
          after_check (ltb (r.2).receivepacketid p.receivepacketid) receive_overflow r _ checked) in
    elim (Bool-cases p.flagkeys) [
      | inl keyed ↦
          keeps p q b c more (sym (if-true (cipher.get p b) (packet_get_plain p b) keyed) ∙ taken')
      | inr plain ↦
          get_plain-Same p q b c more
            (sym (if-false (cipher.get p b) (packet_get_plain p b) plain) ∙ taken')
    ]

recv-Same :
    (p q : Packet) (t : Bool) (r : ReadResult) → Queue.packet_recv p (λ n. r) ≡ ok (t, q) → Same p q
unfolding Queue.packet_recv
recv-Same p q t r h = ground (arith, h)

pub Same-trans : {p q r : Packet} → Same p q → Same q r → Same p r
Same-trans a b = record {
  flagkeys = b.flagkeys ∙ a.flagkeys;
  flagauthorized = b.flagauthorized ∙ a.flagauthorized;
  flagrekeying = b.flagrekeying ∙ a.flagrekeying;
  strict_kex = b.strict_kex ∙ a.strict_kex;
}

classify-Same :
    (p q : Packet) (expected m : ℕ) (v : Verdict) → classify p expected m ≡ ok (v, q) → Same p q
unfolding classify
classify-Same p q expected m v h = ground (arith, h)

abbrev GotSame : Packet → Got → Type 0
GotSame p (answer more c q) = Same p q
GotSame p unfinished = Unit

-- Of a round, and of its answer.
abbrev RoundSame : Packet → Bool × Got × Buf × Packet → Type 0
RoundSame p (again, got, b, q) = Same p q × GotSame p got

module _ (cipher : Cipher) (keeps : KeepsSession cipher) where
  get_round-Same :
      (p : Packet) (b : Buf) (expected : ℕ) → Returns (get_round cipher p b expected) (RoundSame p)
  unfolding get_round
  get_round-Same p b expected = Returns-bind (RoundSame p) (buf_purge b) _ (λ b e.
      Returns-bind (RoundSame p) (packet_get_any cipher p b) _ (λ (more, c, q) e.
        let s = get_any-Same cipher p q b c more keeps e in
        Returns-if (RoundSame p) (not more) _ _ (λ t. (s, s))
          (λ t.
            Returns-if (RoundSame p) (c.len == 0) _ _ (λ t. (s, s))
              (λ t.
                Returns-check (RoundSame p)
                  (not q.flagauthorized && ltb unauthenticated_messages q.receivepacketid)
                  too_many_messages _
                  (Returns-bind (RoundSame p) (classify q expected (get_or c.mem 0 0)) _
                    (λ (v, q') e.
                      verdict v c
                        (Same-trans s (classify-Same q q' expected (get_or c.mem 0 0) v e))))))))
    where
      verdict :
          {q : Packet} (v : Verdict) (b : Buf)
          → Same p q
          → Returns
              (elim v [
                | stop ↦ ok (false, answer false b q, b, q)
                | skip ↦ ok (true, unfinished, b, q)
                | deliver ↦ ok (false, answer true b q, b, q)
              ])
              (RoundSame p)
      verdict stop b s = (s, s)
      verdict skip b s = (s, tt)
      verdict deliver b s = (s, s)

  get_loop-Same :
      (fuel : ℕ) (p : Packet) (b : Buf) (expected : ℕ)
      → Returns (get_loop cipher fuel p b expected) (GotSame p)
  unfolding get_loop
  get_loop-Same zero p b expected = tt
  get_loop-Same (suc fuel) p b expected =
      Returns-bind (GotSame p) (get_round cipher p b expected) _ (λ (again, got, c, q) e.
        let (s, g) =
          Returns_ok (RoundSame p) (get_round cipher p b expected) (get_round-Same p b expected)
            e in
        more_rounds _ again got s g (get_loop-Same fuel q c expected))
    where
      through : {q : Packet} → Same p q → (got : Got) → GotSame q got → GotSame p got
      through s (answer more c r) g = Same-trans s g
      through s unfinished g = tt

      more_rounds :
          {q : Packet} (m : Outcome Got) (again : Bool) (got : Got)
          → Same p q
          → GotSame p got
          → Returns m (GotSame q)
          → Returns (elim again [ true ↦ m | false ↦ ok got ]) (GotSame p)
      more_rounds m true got s g r = Returns_map (through s) m r
      more_rounds m false got s g r = g

  -- With a cipher that does, receiving a packet keeps the flags of the session.
  pub packet_getall-Same :
      (l l' : Line) (b c : Buf) (expected : ℕ) (more : Bool)
      → packet_getall cipher l b expected ≡ ok (more, c, l')
      → Same l.packet l'.packet
  unfolding packet_get
  packet_getall-Same l l' b c expected more h =
      (Returns_ok
        (LoopKeeps cipher expected (Same l.packet) (λ more c. Unit) gets receives (λ c. tt)) _
        (packet_getall-LoopKeeps cipher expected (Same l.packet) (λ more c. Unit) gets receives
          (λ c. tt) l b (Same-refl l.packet))
        h).0
    where
      gets :
          (p q : Packet) (b c : Buf) (more : Bool)
          → Same l.packet p
          → packet_get cipher p b expected ≡ ok (answer more c q)
          → Same l.packet q × ((more ≡ true → 0 < c.len) → Unit {0})
      gets p q b c more s e = (
        Same-trans s (
            Returns_ok (GotSame p) (packet_get cipher p b expected)
              (get_loop-Same (p.recvbuf.len + 1) p b expected) e),
        λ h. tt,
      )

      receives :
          (p q : Packet) (t : Bool) (r : ReadResult)
          → Same l.packet p
          → Queue.packet_recv p (λ n. r) ≡ ok (t, q)
          → Same l.packet q
      receives p q t r s e = Same-trans s (recv-Same p q t r e)
