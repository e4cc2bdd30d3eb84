-- ===== src/Session/Reach.antt =====
-- The events of a session and the states that it can get into.
use tinyssh.Common.{ℕ, List, ◌≡◌, All, subst, length, ok, ◌≤◌, Returns_ok, Option}
use tinyssh.Common.Int.{ℤ}
use tinyssh.Bytes.Endian.{IsByte}
use tinyssh.Buf.{Buf}
use tinyssh.Packet.{Packet, Cipher}
use tinyssh.Channel.{Channel, ReadResult, WriteResult, channel_bufsize, channel_write}
use tinyssh.Channel.Session.{WaitResult, channel_waitnohang, channel_init}
use tinyssh.Channel.Flow.{IsFlow, channel_write-IsFlow}
use tinyssh.Channel.Opening.{channel_waitnohang-IsFlow, channel_init-IsFlow}
use tinyssh.Session.{Session}
use tinyssh.Session.Send.{
  packet_channel_send_data, packet_channel_send_extendeddata, packet_channel_send_windowadjust,
  packet_channel_send_eof,
}
use tinyssh.Session.Recv.{
  packet_channel_recv_data, packet_channel_recv_extendeddata, packet_channel_recv_windowadjust,
  packet_channel_recv_eof, packet_channel_recv_close,
}
use tinyssh.Session.Open.{Surroundings, packet_channel_open}
use tinyssh.Session.Request.{Offer, packet_channel_request}
use tinyssh.Session.Opening.{open-IsFlow, request-IsFlow}
use tinyssh.Session.Adjust.{send_windowadjust-IsFlow}
use tinyssh.Session.Flow.{
  recv_data-IsFlow, recv_extendeddata-IsFlow, recv_windowadjust-IsFlow, recv_eof-IsFlow,
  recv_close-IsFlow, send_data-IsFlow, send_extendeddata-IsFlow, send_eof-channel,
}

-- One event of a session, by the handler that serves it, each with any packet, any answer of
-- the kernel, and any encryption.
pub data Step (cipher : Cipher) : Session → Session → Type 0 where
  channel_opens :
      (s t : Session) (o : Surroundings) (b1 b2 b1' b2' : Buf)
      → All IsByte b1.mem
      → packet_channel_open cipher o s b1 b2 ≡ ok (t, b1', b2')
      → Step cipher s t
  -- whatever else the transport does: packets of other types, rekeying, the reports of
  -- `packet_channel_send_close`
  packets_move : (s : Session) (q : Packet) → Step cipher s (record s { packet = q })
  request_arrives :
      (s t : Session) (o : Offer) (b1 b2 b1' b2' : Buf)
      → packet_channel_request cipher o s b1 b2 ≡ ok (t, b1', b2')
      → Step cipher s t
  child_waited :
      (s : Session) (wait : WaitResult) (r : Option (ℤ × ℤ)) (c : Channel)
      → channel_waitnohang s.channel wait ≡ ok (r, c)
      → Step cipher s (record s { channel = c })
  data_arrives :
      (s t : Session) (b b' : Buf) → packet_channel_recv_data s b ≡ ok (t, b') → Step cipher s t
  extended_arrives :
      (s t : Session) (b b' : Buf)
      → packet_channel_recv_extendeddata s b ≡ ok (t, b')
      → Step cipher s t
  window_arrives :
      (s t : Session) (b b' : Buf)
      → packet_channel_recv_windowadjust s b ≡ ok (t, b')
      → Step cipher s t
  eof_arrives :
      (s t : Session) (b b' : Buf) → packet_channel_recv_eof s b ≡ ok (t, b') → Step cipher s t
  close_arrives :
      (s t : Session) (b b' : Buf)
      → packet_channel_recv_close cipher s b ≡ ok (t, b')
      → Step cipher s t
  output_sent :
      (s t : Session) (read : ℕ → ReadResult) (b b' : Buf)
      → packet_channel_send_data cipher s read b ≡ ok (t, b')
      → Step cipher s t
  errors_sent :
      (s t : Session) (read : ℕ → ReadResult) (b b' : Buf)
      → packet_channel_send_extendeddata cipher s read b ≡ ok (t, b')
      → Step cipher s t
  window_sent :
      (s t : Session) (b b' : Buf)
      → packet_channel_send_windowadjust cipher s b ≡ ok (t, b')
      → Step cipher s t
  eof_sent :
      (s t : Session) (b b' : Buf)
      → packet_channel_send_eof cipher s b ≡ ok (t, b')
      → Step cipher s t
  input_written :
      (s : Session) (c : Channel) (write : ℕ → WriteResult)
      → channel_write s.channel write ≡ ok c
      → Step cipher s (record s { channel = c })

pub data Reach (cipher : Cipher) (s : Session) : Session → Type 0 where
  here : Reach cipher s s
  next : {t u : Session} → Reach cipher s t → Step cipher t u → Reach cipher s u

Step-IsFlow :
    (cipher : Cipher) {s t : Session} → Step cipher s t → IsFlow s.channel → IsFlow t.channel
Step-IsFlow cipher (channel_opens s t o b1 b2 b1' b2' bytes h) v =
    open-IsFlow cipher o s t b1 b2 b1' b2' v bytes h
Step-IsFlow cipher (packets_move s q) v = v
Step-IsFlow cipher (request_arrives s t o b1 b2 b1' b2' h) v =
    request-IsFlow cipher o s t b1 b2 b1' b2' v h
Step-IsFlow cipher (child_waited s wait r c h) v =
    Returns_ok (λ (z : Option (ℤ × ℤ) × Channel). IsFlow z.1) _
      (channel_waitnohang-IsFlow s.channel wait v) h
Step-IsFlow cipher (data_arrives s t b b' h) v = recv_data-IsFlow s t b b' v h
Step-IsFlow cipher (extended_arrives s t b b' h) v = recv_extendeddata-IsFlow s t b b' v h
Step-IsFlow cipher (window_arrives s t b b' h) v = recv_windowadjust-IsFlow s t b b' v h
Step-IsFlow cipher (eof_arrives s t b b' h) v = recv_eof-IsFlow s t b b' v h
Step-IsFlow cipher (close_arrives s t b b' h) v = recv_close-IsFlow cipher s t b b' v h
Step-IsFlow cipher (output_sent s t read b b' h) v = send_data-IsFlow cipher s t read b b' v h
Step-IsFlow cipher (errors_sent s t read b b' h) v =
    send_extendeddata-IsFlow cipher s t read b b' v h
Step-IsFlow cipher (window_sent s t b b' h) v = send_windowadjust-IsFlow cipher s t b b' v h
Step-IsFlow cipher (eof_sent s t b b' h) v = subst IsFlow (send_eof-channel cipher s t b b' h) v
Step-IsFlow cipher (input_written s c write h) v =
    Returns_ok IsFlow _ (channel_write-IsFlow s.channel write v) h

keeps-IsFlow :
    (cipher : Cipher) {s t : Session} → IsFlow s.channel → Reach cipher s t → IsFlow t.channel
keeps-IsFlow cipher v here = v
keeps-IsFlow cipher v (next r step) = Step-IsFlow cipher step (keeps-IsFlow cipher v r)

-- In every state that a session can get into from `channel_init` over a large enough `buf0`, by
-- any packets of the client, of which those that open the channel consist of bytes, by any
-- answers of the system and by any changes of the transport: the window that the client has been
-- given is no larger than the room that is left in `buf0` for its data, nothing waits before the
-- child is started, and the client's window is below 2 ^ 32.
pub Reach-IsFlow :
    (cipher : Cipher) (p : Packet) (buf0 user termname : List ℕ) (t : Session)
    → channel_bufsize ≤ length buf0
    → Reach cipher (record { packet = p; channel = channel_init buf0 user termname }) t
    → IsFlow t.channel
Reach-IsFlow cipher p buf0 user termname t h r =
    keeps-IsFlow cipher (channel_init-IsFlow buf0 user termname h) r
