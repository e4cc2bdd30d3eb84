-- ===== src/Packet/Types.antt =====
-- The types of the packets that packet_get.c hands to its callers.
use tinyssh.Common.{
  ℕ, zero, suc, ◌+◌, ◌≡◌, refl, sym, ap, ◌∙◌, if-false, ◌≢◌, ◌⊎◌, Bool, true, false, arith, get_or,
  Outcome, ok, >>=-eq-ok, if◌then◌else◌, receive_overflow, ltb,
}
use tinyssh.Buf.{Buf, buf_purge}
use tinyssh.Msg
use tinyssh.Packet.{Packet, Cipher}
use tinyssh.Packet.Plain.{packet_get_plain}
use tinyssh.Packet.Get.{packet_get_any, Got, answer, get_round, get_loop, packet_get}
use tinyssh.Packet.Rounds.{after_check}

-- A packet that may be handed out: none at all, or one of a type that the transport does not treat
-- itself, which is the expected type, or SSH_MSG_NEWKEYS, or any type if none is expected.
pub record IsWanted (expected : ℕ) (c : Buf) : Type 0 where
  no_disconnect : get_or c.mem 0 0 ≢ Msg.disconnect
  no_ignore : get_or c.mem 0 0 ≢ Msg.ignore
  no_debug : get_or c.mem 0 0 ≢ Msg.debug
  kind : (expected ≡ 0) ⊎ ((get_or c.mem 0 0 ≡ expected) ⊎ (get_or c.mem 0 0 ≡ Msg.newkeys))

round_delivers :
    (cipher : Cipher) (p q s : Packet) (b c d : Buf) (expected : ℕ)
    → get_round cipher p b expected ≡ ok (false, answer true d s, c, q)
    → (d.len ≡ 0) ⊎ IsWanted expected d
unfolding get_round
round_delivers cipher p q s b c d expected h =
    let (b₁, purged, rest) = >>=-eq-ok (buf_purge b) _ h in
    let ((more, b₂, p₂), taken, rest₂) = >>=-eq-ok (packet_get_any cipher p b₁) _ rest in
    ground (arith, rest₂)

either_answer :
    {B : Type 0} (t : Bool) (x : Outcome Got) (g a : Got)
    → (t ≡ true → x ≡ ok a → B)
    → (t ≡ false → g ≡ a → B)
    → elim t [ true ↦ x | false ↦ ok g ] ≡ ok a
    → B
either_answer true x g a on off h = on refl h
either_answer false x g a on off h = off refl (cc)

loop_delivers :
    (cipher : Cipher) (fuel : ℕ) (p q : Packet) (b c : Buf) (expected : ℕ)
    → get_loop cipher fuel p b expected ≡ ok (answer true c q)
    → (c.len ≡ 0) ⊎ IsWanted expected c
unfolding get_loop
loop_delivers cipher zero p q b c expected h = absurd (cc)
loop_delivers cipher (suc fuel) p q b c expected h =
    let ((again, got, b₁, p₁), round, rest) = >>=-eq-ok (get_round cipher p b expected) _ h in
    either_answer again (get_loop cipher fuel p₁ b₁ expected) got (answer true c q)
      (λ on more. loop_delivers cipher fuel p₁ q b₁ c expected more)
      (λ off same.
        round_delivers cipher p p₁ q b b₁ c expected
          (round ∙ ap (λ t. ok (t, got, b₁, p₁)) off ∙ ap (λ g. ok (false, g, b₁, p₁)) same))
      rest

-- Where `packet_get` answers 1 with a packet that is not empty, it is not of the types
-- SSH_MSG_DISCONNECT, SSH_MSG_IGNORE and SSH_MSG_DEBUG, and it is of the type the caller expects,
-- if any, or SSH_MSG_NEWKEYS.
pub packet_get-IsWanted :
    (cipher : Cipher) (p q : Packet) (b c : Buf) (expected : ℕ)
    → packet_get cipher p b expected ≡ ok (answer true c q)
    → (c.len ≡ 0) ⊎ IsWanted expected c
unfolding packet_get
packet_get-IsWanted cipher p q b c expected h =
    loop_delivers cipher (p.recvbuf.len + 1) p q b c expected h

get_plain_keeps :
    (p q : Packet) (b c : Buf) (more : Bool)
    → packet_get_plain p b ≡ ok (more, c, q)
    → (q.flagkeys ≡ p.flagkeys) × (q.strict_kex ≡ p.strict_kex)
unfolding packet_get_plain
get_plain_keeps p q b c more h = ground (arith, h)

get_any_keeps :
    (cipher : Cipher) (p q : Packet) (b c : Buf) (more : Bool)
    → p.flagkeys ≡ false
    → packet_get_any cipher p b ≡ ok (more, c, q)
    → (q.flagkeys ≡ p.flagkeys) × (q.strict_kex ≡ p.strict_kex)
unfolding packet_get_any
get_any_keeps cipher p q b c more plain h =
    let (r, taken, checked) =
      >>=-eq-ok (if p.flagkeys then cipher.get p b else packet_get_plain p b) _ h in
    get_plain_keeps p q b c more (
      sym (if-false (cipher.get p b) (packet_get_plain p b) plain)
      ∙ taken
      ∙ ap ok
          (after_check (ltb (r.2).receivepacketid p.receivepacketid) receive_overflow r _ checked))

-- In a strict key exchange no packet is skipped before the keys are in use: a round of `packet_get`
-- that goes on with the next packet does not occur.
pub strict_kex_no_skip :
    (cipher : Cipher) (p q : Packet) (b c : Buf) (expected : ℕ) (got : Got)
    → p.flagkeys ≡ false
    → p.strict_kex ≡ true
    → get_round cipher p b expected ≢ ok (true, got, c, q)
unfolding get_round
strict_kex_no_skip cipher p q b c expected got plain strict h =
    let (b₁, purged, rest) = >>=-eq-ok (buf_purge b) _ h in
    let ((more, b₂, p₂), taken, rest₂) = >>=-eq-ok (packet_get_any cipher p b₁) _ rest in
    ground (arith, rest₂, plain, strict, get_any_keeps cipher p p₂ b₁ b₂ more plain taken)
