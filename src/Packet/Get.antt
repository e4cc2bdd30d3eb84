-- ===== src/Packet/Get.antt =====
-- packet_get.c: the next packet that is not to be ignored.
use tinyssh.Common.{
  ℕ, zero, suc, ◌+◌, Bool, true, false, not, ◌&&◌, ◌||◌, ◌==◌, ltb, if◌then◌else◌, get_or, Outcome,
  ok, too_many_messages, strict_ignored, unexpected_type, receive_overflow, die_if, ◌>>=◌, ◌>>◌,
}
use tinyssh.Buf.{Buf, buf_purge}
use tinyssh.Msg
use tinyssh.Packet.{Packet, Cipher, unauthenticated_messages}
use tinyssh.Packet.Plain.{packet_get_plain}

-- `packet_get_`.
unfoldable pub packet_get_any : Cipher → Packet → Buf → Outcome (Bool × Buf × Packet)
packet_get_any cipher p b = do
  r ← if p.flagkeys then cipher.get p b else packet_get_plain p b
  die_if (ltb (r.2).receivepacketid p.receivepacketid) receive_overflow
  ok r

-- What is to be done with a packet of which `packet_get` has the first byte.
pub data Verdict : Type 0 where
  -- SSH_MSG_DISCONNECT: answer 0 with `errno` 0
  stop : Verdict
  -- SSH_MSG_IGNORE, SSH_MSG_DEBUG: go on with the next
  skip : Verdict
  -- answer 1
  deliver : Verdict

-- The switch on the type `m`; `expected` is 0 if any type will do.
unfoldable pub classify : Packet → ℕ → ℕ → Outcome (Verdict × Packet)
classify p expected m =
    if m == Msg.disconnect
    then ok (stop, p)
    else if m == Msg.ignore || m == Msg.debug
    then (do die_if (not p.flagkeys && p.strict_kex) strict_ignored; ok (skip, p))
    else if m == Msg.newkeys
    then ok (deliver, if p.strict_kex then record p { receivepacketid = 0 } else p)
    else (do die_if (not (expected == 0) && not (expected == m)) unexpected_type; ok (deliver, p))

-- What `packet_get` answers: 0 or 1, with `b` and the state; `unfinished` is the model's own, for a
-- loop that has no fuel left.
pub data Got : Type 0 where
  answer : Bool → Buf → Packet → Got
  unfinished : Got

-- One round of the loop up to its test, and whether it goes on.
unfoldable pub get_round : Cipher → Packet → Buf → ℕ → Outcome (Bool × Got × Buf × Packet)
unfolding packet_get_any classify
get_round cipher p b expected = do
  b ← buf_purge b
  (more, b, p) ← packet_get_any cipher p b
  if not more
      then ok (false, answer false b p, b, p)
      else if b.len == 0
      then ok (false, answer true b p, b, p)
      else (do
        die_if (not p.flagauthorized && ltb unauthenticated_messages p.receivepacketid)
            too_many_messages
        (verdict, p) ← classify p expected (get_or b.mem 0 0)
        elim verdict [
          | stop ↦ ok (false, answer false b p, b, p)
          | skip ↦ ok (true, unfinished, b, p)
          | deliver ↦ ok (false, answer true b p, b, p)
        ])

unfoldable pub get_loop : Cipher → ℕ → Packet → Buf → ℕ → Outcome Got
get_loop cipher zero p b expected = ok unfinished
get_loop cipher (suc fuel) p b expected = do
  (again, got, b, p) ← get_round cipher p b expected
  elim again [ true ↦ get_loop cipher fuel p b expected | false ↦ ok got ]

-- The fuel is one round more than `recvbuf` has bytes.
unfoldable pub packet_get : Cipher → Packet → Buf → ℕ → Outcome Got
packet_get cipher p b expected = get_loop cipher (p.recvbuf.len + 1) p b expected
