-- ===== src/Packet/Ends.antt =====
-- packet_get.c: the model's own fault for a loop without fuel does not occur in `packet_get`.
use tinyssh.Common.{
  ℕ, zero, suc, ◌≡◌, ◌≢◌, ◌≤◌, refl, sym, ap, ◌∙◌, Bool, true, false, ltb, arith, Outcome, ok, die,
  Fault, out_of_fuel, ◌>>=◌, ◌>>◌, die_if, >>=-eq-ok, inl, inr, if◌then◌else◌, Bool-cases, if-true,
  if-false,
}
use tinyssh.Bytes.{load_bigendian}
use tinyssh.Buf.{Buf, buf_purge, buf_put}
use tinyssh.Packet.{Packet, Cipher, packet_zerobytes}
use tinyssh.Packet.Plain.{packet_get_plain, get_whole}
use tinyssh.Packet.Get.{Got, answer, packet_get_any, classify, get_round, get_loop}
use tinyssh.Packet.Rounds.{Consumes, after_check}

-- The model's own fault does not occur.
abbrev pub Ends {ℓ} : {A : Type ℓ} → Outcome A → Type ℓ
Ends m = m ≢ die out_of_fuel

pub Ends-bind {ℓ} :
    {A B : Type ℓ} (m : Outcome A) (f : A → Outcome B)
    → Ends m
    → ((a : A) → m ≡ ok a → Ends (f a))
    → Ends (m >>= f)
Ends-bind (ok a) f h k = k a refl
Ends-bind (die e) f h k = λ q. h (cc)

pub Ends-if {ℓ} :
    {A : Type ℓ} (t : Bool) (m n : Outcome A) → Ends m → Ends n → Ends (if t then m else n)
Ends-if true m n h k = h
Ends-if false m n h k = k

pub Ends-split {ℓ} :
    {A : Type ℓ} (t : Bool) (m n : Outcome A)
    → (t ≡ true → Ends m)
    → (t ≡ false → Ends n)
    → Ends (elim t [ true ↦ m | false ↦ n ])
Ends-split true m n h k = h refl
Ends-split false m n h k = k refl

pub Ends-check {ℓ} :
    {A : Type ℓ} (t : Bool) (e : Fault) (m : Outcome A)
    → e ≢ out_of_fuel
    → Ends m
    → Ends (die_if t e >> m)
Ends-check true e m other h = λ q. other (cc)
Ends-check false e m other h = h

pub buf_purge-Ends : (b : Buf) → Ends (buf_purge b)
unfolding buf_purge
buf_purge-Ends b h = ground (arith, h)

-- What the loops need of the cipher: it does not give bytes back, and it has no such fault.
pub record IsSteady (cipher : Cipher) : Type 0 where
  pub consumes : Consumes cipher
  pub shrinks :
      (p q : Packet) (b c : Buf) (more : Bool)
      → cipher.get p b ≡ ok (more, c, q)
      → q.recvbuf.len ≤ p.recvbuf.len
  pub gets : (p : Packet) (b : Buf) → Ends (cipher.get p b)

get_whole-Ends : (p : Packet) (b : Buf) (n : ℕ) → Ends (get_whole p b n)
unfolding get_whole buf_put
get_whole-Ends p b n h = ground (arith, h)

get_plain-Ends : (p : Packet) (b : Buf) → Ends (packet_get_plain p b)
unfolding packet_get_plain
get_plain-Ends p b h =
    ground (arith, h, get_whole-Ends p b (load_bigendian p.recvbuf.mem packet_zerobytes))

get_plain-shrinks :
    (p q : Packet) (b c : Buf) (more : Bool)
    → packet_get_plain p b ≡ ok (more, c, q)
    → q.recvbuf.len ≤ p.recvbuf.len
unfolding packet_get_plain
get_plain-shrinks p q b c more h = ground (arith, h)

module _ (cipher : Cipher) (steady : IsSteady cipher) (expected : ℕ) where
  get_any-Ends : (p : Packet) (b : Buf) → Ends (packet_get_any cipher p b)
  unfolding packet_get_any
  get_any-Ends p b =
      Ends-bind (if p.flagkeys then cipher.get p b else packet_get_plain p b) _
        (Ends-if p.flagkeys _ _ (steady.gets p b) (get_plain-Ends p b)) (λ r e h. ground (arith, h))

  get_any-shrinks :
      (p q : Packet) (b c : Buf) (more : Bool)
      → packet_get_any cipher p b ≡ ok (more, c, q)
      → q.recvbuf.len ≤ p.recvbuf.len
  unfolding packet_get_any
  get_any-shrinks p q b c more h =
      let (r, taken, checked) =
        >>=-eq-ok (if p.flagkeys then cipher.get p b else packet_get_plain p b) _ h in
      let same : r ≡ (more, c, q) =
        after_check (ltb (r.2).receivepacketid p.receivepacketid) _ r _ checked in
      by_keys (taken ∙ ap ok same)
    where
      by_keys :
          (if p.flagkeys then cipher.get p b else packet_get_plain p b) ≡ ok (more, c, q)
          → q.recvbuf.len ≤ p.recvbuf.len
      by_keys e = elim (Bool-cases p.flagkeys) [
        | inl keyed ↦
            steady.shrinks p q b c more
              (sym (if-true (cipher.get p b) (packet_get_plain p b) keyed) ∙ e)
        | inr plain ↦
            get_plain-shrinks p q b c more
              (sym (if-false (cipher.get p b) (packet_get_plain p b) plain) ∙ e)
      ]

  get_round-Ends : (p : Packet) (b : Buf) → Ends (get_round cipher p b expected)
  unfolding get_round classify
  get_round-Ends p b = Ends-bind (buf_purge b) _ (buf_purge-Ends b) (λ b₁ e₁.
      Ends-bind (packet_get_any cipher p b₁) _ (get_any-Ends p b₁)
        (λ (more, c, q) e₂ h. ground (arith, h)))

  get_round-shrinks :
      (p q s : Packet) (b c d : Buf) (again more : Bool) (got : Got)
      → get_round cipher p b expected ≡ ok (again, got, c, q)
      → (q.recvbuf.len ≤ p.recvbuf.len) × (got ≡ answer more d s → s.recvbuf.len ≤ p.recvbuf.len)
  unfolding get_round classify
  get_round-shrinks p q s b c d again more got h =
      let (b₁, purged, rest) = >>=-eq-ok (buf_purge b) _ h in
      let ((m, b₂, p₂), taken, rest₂) = >>=-eq-ok (packet_get_any cipher p b₁) _ rest in
      let less = get_any-shrinks p p₂ b₁ b₂ m taken in
      let kept : q.recvbuf ≡ p₂.recvbuf = ground (arith, rest₂) in
      (
        omega (arith, ap (λ (r : Buf). r.len) kept, less),
        λ e.
            let same : s.recvbuf ≡ p₂.recvbuf = ground (arith, rest₂, e) in
            omega (arith, ap (λ (r : Buf). r.len) same, less),
      )

  pub get_loop-Ends : (fuel : ℕ) (p : Packet) (b : Buf) → Ends (get_loop cipher fuel p b expected)
  unfolding get_loop
  get_loop-Ends zero p b = λ h. absurd (cc)
  get_loop-Ends (suc fuel) p b =
      Ends-bind (get_round cipher p b expected) _ (get_round-Ends p b) (λ (again, got, c, q) e.
        Ends-split again _ _ (λ t. get_loop-Ends fuel q c) (λ t h. absurd (cc)))

  pub get_loop-shrinks :
      (fuel : ℕ) (p q : Packet) (b c : Buf) (more : Bool)
      → get_loop cipher fuel p b expected ≡ ok (answer more c q)
      → q.recvbuf.len ≤ p.recvbuf.len
  unfolding get_loop
  get_loop-shrinks zero p q b c more h = absurd (cc)
  get_loop-shrinks (suc fuel) p q b c more h =
      let ((again, got, d, s), round, rest) = >>=-eq-ok (get_round cipher p b expected) _ h in
      let (less, last) = get_round-shrinks p s q b d c again more got round in
      split again got s d less last rest (λ k. get_loop-shrinks fuel s q d c more k)
    where
      split :
          (again : Bool) (got : Got) (s : Packet) (d : Buf)
          → s.recvbuf.len ≤ p.recvbuf.len
          → (got ≡ answer more c q → q.recvbuf.len ≤ p.recvbuf.len)
          → elim again [ true ↦ get_loop cipher fuel s d expected | false ↦ ok got ]
            ≡ ok (answer more c q)
          → (get_loop cipher fuel s d expected ≡ ok (answer more c q)
              → q.recvbuf.len ≤ s.recvbuf.len)
          → q.recvbuf.len ≤ p.recvbuf.len
      split true got s d less last rest ih = omega (arith, less, ih rest)
      split false got s d less last rest ih = last (cc)
