-- ===== src/Line/Waits.antt =====
-- What `packet_getall` hands out, and what it leaves as it is.
use tinyssh.Common.{
  ℕ, zero, suc, ◌+◌, ◌≡◌, ◌<◌, refl, List, [], ◌∷◌, Bool, true, false, not, ◌==◌, ltb, arith, ok,
  die, out_of_fuel, ◌>>=◌, Returns, Returns-bind, Returns-if, Returns_ok, ltb→lt, ◌⊎◌, inl, inr,
}
use tinyssh.Buf.{Buf, buf_purge}
use tinyssh.Channel.{ReadResult}
use tinyssh.Packet.{Packet, Cipher}
use tinyssh.Packet.Get.{Got, answer, unfinished, packet_get}
use tinyssh.Packet.Types.{IsWanted, packet_get-IsWanted}
use tinyssh.Packet.Queue
use tinyssh.Line.{
  Line, Round, ended, moved, waits, getall_round, getall_rounds, getall_loop, packet_getall,
}

-- A property of the transport that its operations keep, and one of what the caller gets.
module _ (cipher : Cipher) (expected : ℕ) (Keeps : Packet → Type 0) (Gets : Bool → Buf → Type 0)
    (get_keeps : (p q : Packet) (b c : Buf) (more : Bool)
      → Keeps p
      → packet_get cipher p b expected ≡ ok (answer more c q)
      → Keeps q × ((more ≡ true → 0 < c.len) → Gets more c))
    (recv_keeps : (p q : Packet) (t : Bool) (r : ReadResult)
      → Keeps p
      → Queue.packet_recv p (λ n. r) ≡ ok (t, q)
      → Keeps q)
    (fails : (c : Buf) → Gets false c) where
  abbrev RoundKeeps : Round → Type 0
  RoundKeeps (ended more c q) = Keeps q × Gets more c
  RoundKeeps (moved c q) = Keeps q
  RoundKeeps (waits c q) = Keeps q

  getall_round-RoundKeeps :
      (before : ℕ) (p : Packet) (b : Buf) (got : Got)
      → Keeps p
      → packet_get cipher p b expected ≡ ok got
      → Returns (getall_round before got) RoundKeeps
  unfolding getall_round
  getall_round-RoundKeeps before p b unfinished k e = tt
  getall_round-RoundKeeps before p b (answer false c q) k e =
      let (k₁, g) = get_keeps p q b c false k e in (k₁, g (λ t. absurd (cc)))
  getall_round-RoundKeeps before p b (answer true c q) k e =
      let (k₁, g) = get_keeps p q b c true k e in
      Returns-if RoundKeeps (ltb 0 c.len) _ _ (λ t. (k₁, g (λ s. ltb→lt 0 c.len t)))
        (λ t. Returns-if RoundKeeps (not (before == q.recvbuf.len)) _ _ (λ t. k₁) (λ t. k₁))

  getall_rounds-RoundKeeps :
      (fuel : ℕ) (p : Packet) (b : Buf)
      → Keeps p
      → Returns (getall_rounds cipher fuel p b expected) RoundKeeps
  unfolding getall_rounds
  getall_rounds-RoundKeeps zero p b k = tt
  getall_rounds-RoundKeeps (suc fuel) p b k =
      Returns-bind RoundKeeps (packet_get cipher p b expected) _ (λ got e.
        Returns-bind RoundKeeps (getall_round p.recvbuf.len got) _ (λ r f.
          next r (Returns_ok RoundKeeps _ (getall_round-RoundKeeps p.recvbuf.len p b got k e) f)
            (λ c q. getall_rounds-RoundKeeps fuel q c)))
    where
      next :
          (r : Round)
          → RoundKeeps r
          → ((c : Buf) (q : Packet)
              → Keeps q
              → Returns (getall_rounds cipher fuel q c expected) RoundKeeps)
          → Returns
              (elim r [
                | ended more c q ↦ ok (ended more c q)
                | moved c q ↦ getall_rounds cipher fuel q c expected
                | waits c q ↦ ok (waits c q)
              ])
              RoundKeeps
      next (ended more c q) w later = w
      next (moved c q) w later = later c q w
      next (waits c q) w later = w

  abbrev pub LoopKeeps : Bool × Buf × Line → Type 0
  LoopKeeps (more, c, l) = Keeps l.packet × Gets more c

  getall_loop-LoopKeeps :
      (reads : List ReadResult) (writes : List Bool) (p : Packet) (b : Buf)
      → Keeps p
      → Returns (getall_loop cipher reads writes p b expected) LoopKeeps
  unfolding getall_loop
  getall_loop-LoopKeeps [] writes p b k =
      Returns-bind LoopKeeps (getall_rounds cipher (p.recvbuf.len + 1) p b expected) _ (λ r e.
        last r (Returns_ok RoundKeeps _ (getall_rounds-RoundKeeps (p.recvbuf.len + 1) p b k) e))
    where
      last :
          (r : Round)
          → RoundKeeps r
          → Returns
              (elim r [
                | ended more c q ↦ ok (more, c, record { packet = q; reads = []; writes = writes })
                | moved c q ↦ die out_of_fuel
                | waits c q ↦ ok (false, c, record { packet = q; reads = []; writes = writes })
              ])
              LoopKeeps
      last (ended more c q) w = w
      last (moved c q) w = tt
      last (waits c q) w = (w, fails c)
  getall_loop-LoopKeeps (r ∷ reads) writes p b k =
      Returns-bind LoopKeeps (getall_rounds cipher (p.recvbuf.len + 1) p b expected) _ (λ round e.
        next round (Returns_ok RoundKeeps _ (getall_rounds-RoundKeeps (p.recvbuf.len + 1) p b k) e)
          (λ c q. getall_loop-LoopKeeps reads writes q c))
    where
      again :
          (c : Buf) (t : Bool) (q : Packet)
          → Keeps q
          → (Keeps q → Returns (getall_loop cipher reads writes q c expected) LoopKeeps)
          → Returns
              (elim t [
                | true ↦ getall_loop cipher reads writes q c expected
                | false ↦ ok (false, c, record { packet = q; reads = reads; writes = writes })
              ])
              LoopKeeps
      again c true q k later = later k
      again c false q k later = (k, fails c)

      next :
          (round : Round)
          → RoundKeeps round
          → ((c : Buf) (q : Packet)
              → Keeps q
              → Returns (getall_loop cipher reads writes q c expected) LoopKeeps)
          → Returns
              (elim round [
                | ended more c q ↦
                    ok (more, c, record { packet = q; reads = r ∷ reads; writes = writes })
                | moved c q ↦ die out_of_fuel
                | waits c q ↦ do
                  (open_still, q) ← Queue.packet_recv q (λ n. r)
                  elim open_still [
                    | true ↦ getall_loop cipher reads writes q c expected
                    | false ↦ ok (false, c, record { packet = q; reads = reads; writes = writes })
                  ]
              ])
              LoopKeeps
      next (ended more c q) w later = w
      next (moved c q) w later = tt
      next (waits c q) w later =
          Returns-bind LoopKeeps (Queue.packet_recv q (λ n. r)) _
            (λ (t, p) e. again c t p (recv_keeps q p t r w e) (later c p))

  pub packet_getall-LoopKeeps :
      (l : Line) (b : Buf) → Keeps l.packet → Returns (packet_getall cipher l b expected) LoopKeeps
  unfolding packet_getall
  packet_getall-LoopKeeps l b k =
      Returns-bind LoopKeeps (buf_purge b) _
        (λ b e. getall_loop-LoopKeeps l.reads l.writes l.packet b k)

-- Where `packet_getall` answers 1 it has a packet, not an empty one; it is not of the types
-- SSH_MSG_DISCONNECT, SSH_MSG_IGNORE and SSH_MSG_DEBUG, and it is of the type the caller expects, if
-- any, or SSH_MSG_NEWKEYS.
pub packet_getall-IsWanted :
    (cipher : Cipher) (expected : ℕ) (l l' : Line) (b c : Buf)
    → packet_getall cipher l b expected ≡ ok (true, c, l')
    → (0 < c.len) × IsWanted expected c
packet_getall-IsWanted cipher expected l l' b c h =
    (Returns_ok
        (LoopKeeps cipher expected (λ p. Unit) (λ more c. more ≡ true → Wanted c) gets
          (λ p q t r k e. tt) (λ c e. absurd (cc)))
        _
        (packet_getall-LoopKeeps cipher expected (λ p. Unit) (λ more c. more ≡ true → Wanted c) gets
          (λ p q t r k e. tt) (λ c e. absurd (cc)) l b tt)
        h).1
      refl
  where
    Wanted : Buf → Type 0
    Wanted c = (0 < c.len) × IsWanted expected c

    some_kind : (c : Buf) → 0 < c.len → (c.len ≡ 0) ⊎ IsWanted expected c → IsWanted expected c
    some_kind c h (inl z) = absurd (omega (arith, h, z))
    some_kind c h (inr w) = w

    gets :
        (p q : Packet) (b c : Buf) (more : Bool)
        → Unit {0}
        → packet_get cipher p b expected ≡ ok (answer more c q)
        → Unit {0} × ((more ≡ true → 0 < c.len) → more ≡ true → Wanted c)
    gets p q b c false k e = (tt, λ h t. absurd (cc))
    gets p q b c true k e =
        (tt, λ h t. (h t, some_kind c (h t) (packet_get-IsWanted cipher p q b c expected e)))
