-- ===== src/Packet/Rounds.antt =====
-- The rounds of the loop of packet_get.c.
use tinyssh.Common.{
  ℕ, zero, suc, ◌+◌, ◌<◌, ◌≡◌, refl, sym, ap, ◌∙◌, die_if, Fault, receive_overflow, ltb, if-true,
  if-false, ◌≢◌, ◌⊎◌, inl, inr, Bool, true, false, arith, Outcome, ok, >>=-eq-ok, if◌then◌else◌,
  Bool-cases, ◌>>◌,
}
use tinyssh.Buf.{Buf, buf_purge}
use tinyssh.Packet.{Packet, Cipher}
use tinyssh.Packet.Plain.{packet_get_plain}
use tinyssh.Packet.Get.{packet_get_any, Got, unfinished, get_round, get_loop, packet_get}

-- What the loop needs of the cipher: a packet that it gives to an empty buffer comes off `recvbuf`.
abbrev pub Consumes : Cipher → Type 0
Consumes cipher =
    (p q : Packet) (b c : Buf) (more : Bool)
    → cipher.get p b ≡ ok (more, c, q)
    → b.len ≡ 0
    → (c.len ≡ 0) ⊎ (q.recvbuf.len < p.recvbuf.len)

pub get_plain-Consumes :
    (p q : Packet) (b c : Buf) (more : Bool)
    → packet_get_plain p b ≡ ok (more, c, q)
    → b.len ≡ 0
    → (c.len ≡ 0) ⊎ (q.recvbuf.len < p.recvbuf.len)
unfolding packet_get_plain
get_plain-Consumes p q b c more h e = ground (arith, h, e)

pub after_check {ℓ} :
    {A : Type ℓ} (t : Bool) (f : Fault) (x y : A) → (die_if t f >> ok x) ≡ ok y → x ≡ y
after_check true f x y h = absurd (cc)
after_check false f x y h = cc

fetched :
    (cipher : Cipher) (p q : Packet) (b c : Buf) (more : Bool)
    → Consumes cipher
    → (if p.flagkeys then cipher.get p b else packet_get_plain p b) ≡ ok (more, c, q)
    → b.len ≡ 0
    → (c.len ≡ 0) ⊎ (q.recvbuf.len < p.recvbuf.len)
fetched cipher p q b c more consumes h e = elim (Bool-cases p.flagkeys) [
  | inl keyed ↦
      consumes p q b c more (sym (if-true (cipher.get p b) (packet_get_plain p b) keyed) ∙ h) e
  | inr plain ↦
      get_plain-Consumes p q b c more
        (sym (if-false (cipher.get p b) (packet_get_plain p b) plain) ∙ h) e
]

get_any-Consumes :
    (cipher : Cipher) (p q : Packet) (b c : Buf) (more : Bool)
    → Consumes cipher
    → packet_get_any cipher p b ≡ ok (more, c, q)
    → b.len ≡ 0
    → (c.len ≡ 0) ⊎ (q.recvbuf.len < p.recvbuf.len)
unfolding packet_get_any
get_any-Consumes cipher p q b c more consumes h e =
    let (r, taken, checked) =
      >>=-eq-ok (if p.flagkeys then cipher.get p b else packet_get_plain p b) _ h in
    fetched cipher p q b c more consumes
      (taken
        ∙ ap ok (
            after_check (ltb (r.2).receivepacketid p.receivepacketid) receive_overflow r _ checked))
      e

buf_purge-empty : (b c : Buf) → buf_purge b ≡ ok c → c.len ≡ 0
unfolding buf_purge
buf_purge-empty b c h = ground (arith, h)

get_round-Consumes :
    (cipher : Cipher) (p q : Packet) (b c : Buf) (expected : ℕ) (got : Got)
    → Consumes cipher
    → get_round cipher p b expected ≡ ok (true, got, c, q)
    → q.recvbuf.len < p.recvbuf.len
unfolding get_round
get_round-Consumes cipher p q b c expected got consumes h =
    let (b₁, purged, rest) = >>=-eq-ok (buf_purge b) _ h in
    let ((more, b₂, p₂), taken, rest₂) = >>=-eq-ok (packet_get_any cipher p b₁) _ rest in
    ground (
      arith,
      rest₂,
      get_any-Consumes cipher p p₂ b₁ b₂ more consumes taken (buf_purge-empty b b₁ purged),
    )

round_answers :
    (cipher : Cipher) (p q : Packet) (b c : Buf) (expected : ℕ) (got : Got)
    → get_round cipher p b expected ≡ ok (false, got, c, q)
    → got ≢ unfinished
unfolding get_round
round_answers cipher p q b c expected got h =
    let (b₁, purged, rest) = >>=-eq-ok (buf_purge b) _ h in
    let ((more, b₂, p₂), taken, rest₂) = >>=-eq-ok (packet_get_any cipher p b₁) _ rest in
    ground (arith, rest₂)

either_way :
    (t : Bool) (x y z : Outcome Got)
    → (t ≡ true → x ≢ z)
    → (t ≡ false → y ≢ z)
    → elim t [ true ↦ x | false ↦ y ] ≢ z
either_way true x y z on off = on refl
either_way false x y z on off = off refl

get_loop-finishes :
    (cipher : Cipher) (fuel : ℕ) (p : Packet) (b : Buf) (expected : ℕ)
    → Consumes cipher
    → p.recvbuf.len < fuel
    → get_loop cipher fuel p b expected ≢ ok unfinished
unfolding get_loop
get_loop-finishes cipher zero p b expected consumes enough h = absurd (omega (arith, enough))
get_loop-finishes cipher (suc fuel) p b expected consumes enough h =
    let ((again, got, c, q), round, rest) = >>=-eq-ok (get_round cipher p b expected) _ h in
    either_way again (get_loop cipher fuel q c expected) (ok got) (ok unfinished)
      (λ on. get_loop-finishes cipher fuel q c expected consumes (
        omega (
          arith,
          enough,
          get_round-Consumes cipher p q b c expected got consumes
              (round ∙ ap (λ t. ok (t, got, c, q)) on),
        )))
      (λ off same.
        round_answers cipher p q b c expected got (round ∙ ap (λ t. ok (t, got, c, q)) off) (cc))
      rest

-- The loop of `packet_get` ends within its fuel, one round more than there are received bytes,
-- with every cipher that takes each packet it gives to an empty buffer off the received bytes:
-- the model's own answer for a loop without fuel does not occur.
pub packet_get-finishes :
    (cipher : Cipher) (p : Packet) (b : Buf) (expected : ℕ)
    → Consumes cipher
    → packet_get cipher p b expected ≢ ok unfinished
unfolding packet_get
packet_get-finishes cipher p b expected consumes =
    get_loop-finishes cipher (p.recvbuf.len + 1) p b expected consumes (omega arith)
