-- ===== src/Session/Adjust.antt =====
-- `packet_channel_send_windowadjust` of packet_channel_send.c.
use tinyssh.Common.{
  take, ◌<◌, ◌≢◌, false, List, [], ◌∷◌, ◌++◌, ap, ℕ, ◌+◌, ◌≤◌, ◌≡◌, sym, ◌∙◌, inl, inr, Bool, true,
  ◌==◌, ◌||◌, ltb, arith, subst, Outcome, ok, >>=-eq-ok, Bool-cases,
}
use tinyssh.Msg
use tinyssh.Buf.{Buf, buf_purge, buf_putnum8, buf_putnum32}
use tinyssh.Bytes.{store_bigendian}
use tinyssh.Buf.Contents.{IsValid, contents, buf_purge_lem}
use tinyssh.Buf.Puts.{buf_putnum8-Appends, buf_putnum32-Appends, appended}
use tinyssh.Packet.Plain.{packet_put}
use tinyssh.Channel.{Channel, channel_bufsize, channel_incrementlocalwindow}
use tinyssh.Channel.Flow.{IsFlow}
use tinyssh.Packet.{Packet, Cipher}
use tinyssh.Session.{Session}
use tinyssh.Session.Send.{window_plus, packet_channel_send_windowadjust}
use tinyssh.Session.Flow.{end_channel}

-- Under the invariant the room that an adjustment hands back is not negative and wraps nowhere.
window_plus_lem :
    (c : Channel) → IsFlow c → window_plus c + c.len0 + c.localwindow ≡ channel_bufsize
window_plus_lem c v = omega (arith, v.window)

-- Handing back `n` bytes, which is all the room that is left.
fill_window :
    (c d : Channel) (n : ℕ)
    → IsFlow c
    → n + c.len0 + c.localwindow ≡ channel_bufsize
    → channel_incrementlocalwindow c n ≡ ok d
    → IsFlow d
unfolding channel_incrementlocalwindow
fill_window c d n v e h = ground (arith, h, v.window, v.backed, v.fresh, v.remote)

-- The test that keeps `packet_channel_send_windowadjust` quiet.
abbrev is_quiet : Channel → Bool
is_quiet c = ltb 65_536 c.len0 || ltb 65_536 c.localwindow || window_plus c == 0

-- Half of the buffer at most is taken or promised, and not all of it.
abbrev pub IsDue : Channel → Type 0
IsDue c = (c.len0 ≤ 65_536) × (c.localwindow ≤ 65_536) × (c.len0 + c.localwindow < channel_bufsize)

quiet-IsDue : (c : Channel) → IsFlow c → is_quiet c ≡ true → ¬ IsDue c
quiet-IsDue c v quiet (a, b, d) =
    tests c.len0 c.localwindow (window_plus c) a b (omega (arith, window_plus_lem c v, d)) quiet
  where
    tests :
        (x y z : ℕ)
        → x ≤ 65_536
        → y ≤ 65_536
        → 0 < z
        → (ltb 65_536 x || ltb 65_536 y || z == 0) ≢ true
    tests x y z a b d e = ground (arith, a, b, d, e)

busy-IsDue : (c : Channel) → IsFlow c → is_quiet c ≡ false → IsDue c
busy-IsDue c v busy =
    let (a, b, d) = tests c.len0 c.localwindow (window_plus c) busy in
    (a, b, omega (arith, window_plus_lem c v, d))
  where
    tests :
        (x y z : ℕ)
        → (ltb 65_536 x || ltb 65_536 y || z == 0) ≡ false
        → (x ≤ 65_536) × (y ≤ 65_536) × (0 < z)
    tests x y z e = ground (arith, e)

-- The message of RFC 4254 section 5.2 that adds `n` bytes to the window of the channel `id`.
abbrev pub adjustment : ℕ → ℕ → List ℕ
adjustment id n = 93 ∷ (store_bigendian id ++ store_bigendian n)

build_adjustment :
    (id n : ℕ) (b b1 b2 b3 b4 : Buf)
    → IsValid b
    → buf_purge b ≡ ok b1
    → buf_putnum8 b1 Msg.channel_window_adjust ≡ ok b2
    → buf_putnum32 b2 id ≡ ok b3
    → buf_putnum32 b3 n ≡ ok b4
    → contents b4 ≡ adjustment id n
build_adjustment id n b b1 b2 b3 b4 v e1 e2 e3 e4 =
    let (c1, p, v1, empty, size, m) = buf_purge_lem b v in
    let same : c1 ≡ b1 = cc (p, e1) in
    let w1 = subst IsValid same v1 in
    let none_yet : contents b1 ≡ [] =
      ap (λ z. take z b1.mem) (sym (ap (λ (z : Buf). z.len) same) ∙ empty) in
    let (w2, s2) = appended b1 (93 ∷ []) b2 _ (buf_putnum8-Appends b1 w1 93) e2 in
    let (w3, s3) = appended b2 _ b3 _ (buf_putnum32-Appends b2 w2 id) e3 in
    let (w4, s4) = appended b3 _ b4 _ (buf_putnum32-Appends b3 w3 n) e4 in
    s4
    ∙ ap (λ z. z ++ store_bigendian n)
        (s3 ∙ ap (λ z. z ++ store_bigendian id) (s2 ∙ ap (λ z. z ++ (93 ∷ [])) none_yet))

-- What an adjustment of the window has done: nothing, where it is not due; or the message with the
-- whole room that is left is put, and the window is larger by as much.
pub data Adjusts (cipher : Cipher) (s : Session) (b : Buf) : Session × Buf → Type 0 where
  not_due : ¬ IsDue s.channel → Adjusts cipher s b (s, b)
  adjusted :
      (n : ℕ) (message b' : Buf) (p : Packet) (c : Channel)
      → IsDue s.channel
      → n + s.channel.len0 + s.channel.localwindow ≡ channel_bufsize
      → contents message ≡ adjustment s.channel.id n
      → packet_put cipher s.packet message ≡ ok p
      → c ≡ record (s.channel) { localwindow = s.channel.localwindow + n }
      → Adjusts cipher s b (record { packet = p; channel = c }, b')

grown_window :
    (c d : Channel) (n : ℕ)
    → IsFlow c
    → n + c.len0 + c.localwindow ≡ channel_bufsize
    → channel_incrementlocalwindow c n ≡ ok d
    → d ≡ record c { localwindow = c.localwindow + n }
unfolding channel_incrementlocalwindow
grown_window c d n v e h = ground (arith, h, e)

sent :
    (p : Packet) (c : Channel) (d : Buf) (t : Session) (b' : Buf)
    → ◌≡◌ {A = Outcome (Session × Buf)} (ok (record { packet = p; channel = c }, d)) (ok (t, b'))
    → ◌≡◌ {A = Session × Buf} (record { packet = p; channel = c }, d) (t, b')
sent p c d t b' h = cc

module _ (cipher : Cipher) (s t : Session) (b b' : Buf) (v : IsFlow s.channel)
    (h : packet_channel_send_windowadjust cipher s b ≡ ok (t, b')) where
  pub send_windowadjust-IsFlow : IsFlow t.channel
  unfolding packet_channel_send_windowadjust
  send_windowadjust-IsFlow = elim (Bool-cases (is_quiet s.channel)) [
    | inl quiet ↦
        let same : ok (s, b) ≡ ok (t, b') = rw quiet at h in
        let e : s ≡ t = cc same in subst (λ z. IsFlow z.channel) e v
    | inr busy ↦
        let plus = window_plus s.channel in
        let (b1, e1, h1) = >>=-eq-ok (buf_purge b) _ (rw busy at h) in
        let (b2, e2, h2) = >>=-eq-ok (buf_putnum8 b1 Msg.channel_window_adjust) _ h1 in
        let (b3, e3, h3) = >>=-eq-ok (buf_putnum32 b2 s.channel.id) _ h2 in
        let (b4, e4, h4) = >>=-eq-ok (buf_putnum32 b3 plus) _ h3 in
        let (d, e5, h5) = >>=-eq-ok (channel_incrementlocalwindow s.channel plus) _ h4 in
        let (p, e6, h6) = >>=-eq-ok (packet_put cipher s.packet b4) _ h5 in
        let (b5, e7, h7) = >>=-eq-ok (buf_purge b4) _ h6 in
        subst IsFlow (end_channel p d b5 t b' h7)
          (fill_window s.channel d plus v (window_plus_lem s.channel v) e5)
  ]

  send_windowadjust-Adjusts : IsValid b → Adjusts cipher s b (t, b')
  unfolding packet_channel_send_windowadjust
  send_windowadjust-Adjusts valid = elim (Bool-cases (is_quiet s.channel)) [
    | inl quiet ↦
        let same : ok (s, b) ≡ ok (t, b') = rw quiet at h in
        let e : (s, b) ≡ (t, b') = cc same in
        subst (Adjusts cipher s b) e (not_due (quiet-IsDue s.channel v quiet))
    | inr busy ↦
        let plus = window_plus s.channel in
        let (b1, e1, h1) = >>=-eq-ok (buf_purge b) _ (rw busy at h) in
        let (b2, e2, h2) = >>=-eq-ok (buf_putnum8 b1 Msg.channel_window_adjust) _ h1 in
        let (b3, e3, h3) = >>=-eq-ok (buf_putnum32 b2 s.channel.id) _ h2 in
        let (b4, e4, h4) = >>=-eq-ok (buf_putnum32 b3 plus) _ h3 in
        let (d, e5, h5) = >>=-eq-ok (channel_incrementlocalwindow s.channel plus) _ h4 in
        let (p, e6, h6) = >>=-eq-ok (packet_put cipher s.packet b4) _ h5 in
        let (b5, e7, h7) = >>=-eq-ok (buf_purge b4) _ h6 in
        let room = window_plus_lem s.channel v in
        subst (Adjusts cipher s b) (sent p d b5 t b' h7) (
          adjusted plus b4 b5 p d (busy-IsDue s.channel v busy) room
            (build_adjustment s.channel.id plus b b1 b2 b3 b4 valid e1 e2 e3 e4) e6
            (grown_window s.channel d plus v room e5))
  ]

-- Under the flow control invariant and with a valid buffer, where it does not end the process,
-- `packet_channel_send_windowadjust` adjusts the window exactly when half of the buffer at most is
-- taken, half of it at most is promised to the client, and not all of it is either. It then puts
-- SSH_MSG_CHANNEL_WINDOW_ADJUST with the channel's number and the room that is left, adds the same
-- number to the window, and changes nothing else of the channel; else it changes nothing. The
-- invariant is kept.
pub send_windowadjust_lem :
    (cipher : Cipher) (s t : Session) (b b' : Buf)
    → IsFlow s.channel
    → IsValid b
    → packet_channel_send_windowadjust cipher s b ≡ ok (t, b')
    → Adjusts cipher s b (t, b') × IsFlow t.channel
send_windowadjust_lem cipher s t b b' v valid h = (
  send_windowadjust-Adjusts cipher s t b b' v h valid,
  send_windowadjust-IsFlow cipher s t b b' v h,
)
