-- ===== src/Session/Dispatch.antt =====
-- main_tinysshd.c: one packet of the loop "process packets", by its type.
use tinyssh.Common.{
  ℕ, ◌≡◌, Bool, not, ◌==◌, if◌then◌else◌, get_or, All, Outcome, ok, fatal, die_if, ◌>>=◌, ◌>>◌,
  Returns, Returns-bind, Returns-if, Returns-check, Returns_ok,
}
use tinyssh.Bytes.Endian.{IsByte}
use tinyssh.Buf.{Buf}
use tinyssh.Msg
use tinyssh.Packet.{Cipher}
use tinyssh.Session.{Session}
use tinyssh.Session.Open.{
  Surroundings, packet_channel_open, packet_global_request, packet_unimplemented,
}
use tinyssh.Session.Request.{Offer, packet_channel_request}
use tinyssh.Session.Recv.{
  packet_channel_recv_data, packet_channel_recv_extendeddata, packet_channel_recv_windowadjust,
  packet_channel_recv_eof, packet_channel_recv_close,
}
use tinyssh.Session.Reach.{
  Step, channel_opens, packets_move, request_arrives, data_arrives, extended_arrives,
  window_arrives, eof_arrives, close_arrives,
}

-- The two buffers of `main_tinysshd` with the session.
pub record Server : Type 0 where
  pub session : Session
  pub b1 : Buf
  pub b2 : Buf

-- What comes next.
pub data Next : Type 0 where
  -- the next packet
  go_on : Server → Next
  -- `goto rekeying`
  rekeying : Server → Next

-- A handler that reads the packet in `b1`.
unfoldable pub read_packet : Server → Outcome (Session × Buf) → Outcome Next
read_packet v o = do (s, b1) ← o; ok (go_on (record v { session = s; b1 = b1 }))

-- A handler that writes to `b2`.
unfoldable pub read_and_write : Outcome (Session × Buf × Buf) → Outcome Next
read_and_write o = do (s, b1, b2) ← o; ok (go_on (record { session = s; b1 = b1; b2 = b2 }))

unfoldable pub serve_global_request : Cipher → Server → Outcome Next
serve_global_request cipher v = do
  (p, b1) ← packet_global_request cipher v.session.packet v.b1
  ok (go_on (record v { session = record (v.session) { packet = p }; b1 = b1 }))

unfoldable pub serve_unknown : Cipher → Bool → Server → Outcome Next
serve_unknown cipher written v = do
  (sent, p, b1) ← packet_unimplemented cipher v.session.packet written v.b1
  die_if (not sent) fatal
  ok (go_on (record v { session = record (v.session) { packet = p }; b1 = b1 }))

-- The switch on the type `m`; the handlers answer 1 where they come back.
unfoldable pub dispatch_type : Cipher → Surroundings → Offer → Bool → ℕ → Server → Outcome Next
unfolding read_packet read_and_write serve_global_request serve_unknown
dispatch_type cipher o offer written m v =
    if m == Msg.global_request
    then serve_global_request cipher v
    else if m == Msg.channel_open
    then read_and_write (packet_channel_open cipher o v.session v.b1 v.b2)
    else if m == Msg.channel_request
    then read_and_write (packet_channel_request cipher offer v.session v.b1 v.b2)
    else if m == Msg.channel_data
    then read_packet v (packet_channel_recv_data v.session v.b1)
    else if m == Msg.channel_extended_data
    then read_packet v (packet_channel_recv_extendeddata v.session v.b1)
    else if m == Msg.channel_window_adjust
    then read_packet v (packet_channel_recv_windowadjust v.session v.b1)
    else if m == Msg.channel_eof
    then read_packet v (packet_channel_recv_eof v.session v.b1)
    else if m == Msg.channel_close
    then read_packet v (packet_channel_recv_close cipher v.session v.b1)
    else if m == Msg.kexinit
    then ok (rekeying v)
    else serve_unknown cipher written v

unfoldable pub dispatch : Cipher → Surroundings → Offer → Bool → Server → Outcome Next
unfolding dispatch_type
dispatch cipher o offer written v = dispatch_type cipher o offer written (get_or v.b1.mem 0 0) v

abbrev pub after : Next → Server
after (go_on v) = v
after (rekeying v) = v

module _ (cipher : Cipher) (o : Surroundings) (offer : Offer) (written : Bool) (v : Server) where
  abbrev Steps : Next → Type 0
  Steps n = Step cipher v.session (after n).session

  read_packet-Steps :
      (p : Outcome (Session × Buf))
      → ((t : Session) (b : Buf) → p ≡ ok (t, b) → Step cipher v.session t)
      → Returns (read_packet v p) Steps
  unfolding read_packet
  read_packet-Steps p step = Returns-bind Steps p _ (λ (t, b) e. step t b e)

  read_and_write-Steps :
      (p : Outcome (Session × Buf × Buf))
      → ((t : Session) (b c : Buf) → p ≡ ok (t, b, c) → Step cipher v.session t)
      → Returns (read_and_write p) Steps
  unfolding read_and_write
  read_and_write-Steps p step = Returns-bind Steps p _ (λ (t, b, c) e. step t b c e)

  global_request-Steps : Returns (serve_global_request cipher v) Steps
  unfolding serve_global_request
  global_request-Steps =
      Returns-bind Steps (packet_global_request cipher v.session.packet v.b1) _
        (λ (p, b) e. packets_move v.session p)

  unknown-Steps : Returns (serve_unknown cipher written v) Steps
  unfolding serve_unknown
  unknown-Steps =
      Returns-bind Steps (packet_unimplemented cipher v.session.packet written v.b1) _
        (λ (sent, p, b) e. Returns-check Steps (not sent) fatal _ (packets_move v.session p))

  dispatch_type-Steps :
      (m : ℕ) → All IsByte v.b1.mem → Returns (dispatch_type cipher o offer written m v) Steps
  unfolding dispatch_type
  dispatch_type-Steps m bytes =
      Returns-if Steps (m == Msg.global_request) _ _ (λ t. global_request-Steps)
        (λ t.
          Returns-if Steps (m == Msg.channel_open) _ _
            (λ t.
              read_and_write-Steps _ (λ t b c e. channel_opens v.session t o v.b1 v.b2 b c bytes e))
            (λ t.
              Returns-if Steps (m == Msg.channel_request) _ _
                (λ t.
                  read_and_write-Steps _
                    (λ t b c e. request_arrives v.session t offer v.b1 v.b2 b c e))
                (λ t.
                  Returns-if Steps (m == Msg.channel_data) _ _
                    (λ t. read_packet-Steps _ (λ t b e. data_arrives v.session t v.b1 b e))
                    (λ t.
                      Returns-if Steps (m == Msg.channel_extended_data) _ _
                        (λ t. read_packet-Steps _ (λ t b e. extended_arrives v.session t v.b1 b e))
                        (λ t.
                          Returns-if Steps (m == Msg.channel_window_adjust) _ _
                            (λ t.
                              read_packet-Steps _ (λ t b e. window_arrives v.session t v.b1 b e))
                            (λ t.
                              Returns-if Steps (m == Msg.channel_eof) _ _
                                (λ t.
                                  read_packet-Steps _ (λ t b e. eof_arrives v.session t v.b1 b e))
                                (λ t.
                                  Returns-if Steps (m == Msg.channel_close) _ _
                                    (λ t.
                                      read_packet-Steps _
                                        (λ t b e. close_arrives v.session t v.b1 b e))
                                    (λ t.
                                      Returns-if Steps (m == Msg.kexinit) _ _
                                        (λ t. packets_move v.session v.session.packet)
                                        (λ t. unknown-Steps)))))))))

  -- The loop of `main_tinysshd` serves a packet of bytes, of whatever type, with a step of the
  -- session: what is shown of the states that steps reach holds of the loop.
  dispatch-Step :
      (n : Next)
      → All IsByte v.b1.mem
      → dispatch cipher o offer written v ≡ ok n
      → Step cipher v.session (after n).session
  unfolding dispatch
  dispatch-Step n bytes h = Returns_ok Steps _ (dispatch_type-Steps (get_or v.b1.mem 0 0) bytes) h
