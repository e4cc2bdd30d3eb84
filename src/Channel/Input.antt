-- ===== src/Channel/Input.antt =====
-- The input of the child: the client's data on their way through `buf0` of channel.c.
use tinyssh.Common.{
  ℕ, zero, suc, ◌+◌, ◌-◌, ◌^◌, ◌≤◌, ◌<◌, ◌≡◌, refl, sym, ap, ◌∙◌, List, [], ◌∷◌, ◌++◌, Bool, true,
  false, not, ◌||◌, arith, length, take, drop, length-take, take-append-drop, take-length,
  append_assoc, append-nil, ◌⊎◌, inl, inr, All, subst, Returns_ok, >>=-eq-ok, if◌then◌else◌,
  Outcome, ok, ◌>>=◌,
}
use tinyssh.Common.Int.{is_negative, is_minus_one}
use tinyssh.Bytes.{byte_copy, byte_move, purge}
use tinyssh.Bytes.Copy.{byte_copy-splice, take-splice, take-shift_out}
use tinyssh.Channel.{
  Channel, WriteResult, wrote, retry, failed, channel_put, channel_write, after_write,
}
use tinyssh.Channel.Flow.{IsFlow, channel_put-IsFlow, after_write-IsFlow}
use mathlib.Core.Bool.{false≢true}

-- The data that the client has sent and the child has not taken.
abbrev pub pending : Channel → List ℕ
pending c = take c.len0 c.buf0

-- Whether data go into the buffer, or are discarded because nobody will read them.
abbrev pub takes_input : Channel → Bool
takes_input c = not (is_negative c.pid || is_minus_one c.fd0)

pub pending-put :
    (c d : Channel) (buf : List ℕ)
    → IsFlow c
    → length buf < 2 ^ 32
    → channel_put c buf (length buf) ≡ ok d
    → pending d ≡ pending c ++ (if takes_input c then buf else [])
unfolding channel_put
pending-put c d buf v h e = ground (arith, e, v.window, v.backed, appended, append-nil (pending c))
  where
    appended :
        c.len0 + length buf ≤ length c.buf0
        → take (c.len0 + length buf) (byte_copy c.buf0 c.len0 (length buf) buf) ≡ pending c ++ buf
    appended k =
        ap (take (c.len0 + length buf))
          (byte_copy-splice c.buf0 c.len0 (length buf) buf (omega arith) k)
        ∙ take-splice c.buf0 (take (length buf) buf) c.len0 (length buf) (omega arith)
            (omega (arith, length-take (length buf) buf))
        ∙ ap (◌++◌ (pending c)) (take-length buf)

pub pending-after_write :
    (c : Channel) (w : ℕ)
    → IsFlow c
    → suc w ≤ c.len0
    → pending (after_write c (wrote (suc w))) ≡ drop (suc w) (pending c)
unfolding after_write
pending-after_write c w v h = ground (arith, shifted)
  where
    shifted :
        take
          (c.len0 - suc w)
          (purge (byte_move c.buf0 0 (c.len0 - suc w) (suc w)) (c.len0 - suc w) (suc w))
        ≡ drop (suc w) (pending c)
    shifted = take-shift_out c.buf0 c.len0 (suc w) h (omega (arith, v.window, v.backed))

-- One event on the child's input: data from the client, or a chance to write to the child.
pub data Event : Type 0 where
  arrives : List ℕ → Event
  flushes : (ℕ → WriteResult) → Event

-- The bytes that one `write` hands to the child.
unfoldable pub handed : Channel → WriteResult → List ℕ
handed c retry = []
handed c failed = []
handed c (wrote w) = take w (pending c)

-- What happened so far: the bytes taken into the buffer, those handed to the child, the channel.
pub record Trace : Type 0 where
  pub accepted : List ℕ
  pub delivered : List ℕ
  pub channel : Channel

unfoldable pub step : Trace → Event → Outcome Trace
unfolding handed
step t (arrives buf) = do
  c ← channel_put t.channel buf (length buf)
  ok (record t {
    channel = c;
    accepted = t.accepted ++ (if takes_input t.channel then buf else []);
  })
step t (flushes write) = do
  c ← channel_write t.channel write
  ok (record t { channel = c; delivered = t.delivered ++ handed t.channel (write t.channel.len0) })

unfoldable pub run : Trace → List Event → Outcome Trace
run t [] = ok t
run t (e ∷ es) = step t e >>= λ u. run u es

-- The child has had the accepted bytes from the first on, and the rest waits in the buffer or was
-- given up when the child closed its input.
pub data IsQueue (t : Trace) : Type 0 where
  flowing : IsFlow t.channel → t.accepted ≡ t.delivered ++ pending t.channel → IsQueue t
  cut :
      (lost : List ℕ)
      → is_minus_one t.channel.fd0 ≡ true
      → t.accepted ≡ t.delivered ++ lost
      → IsQueue t

-- What the client and the kernel may do: a message is shorter than 2 ^ 32 bytes, and `write` takes
-- no more than it is given.
abbrev pub Allowed : Event → Type 0
Allowed (arrives buf) = length buf < 2 ^ 32
Allowed (flushes write) = (n w : ℕ) → write n ≡ wrote w → w ≤ n

channel_write-ok :
    (c d : Channel) (write : ℕ → WriteResult)
    → channel_write c write ≡ ok d
    → (is_minus_one c.fd0 ≡ false) × (((c.len0 ≡ 0) × (d ≡ c)) ⊎ (d ≡ after_write c (write c.len0)))
unfolding channel_write
channel_write-ok c d write e = ground (arith, e)

flush-IsQueue :
    (t : Trace) (r : WriteResult)
    → IsFlow t.channel
    → ((w : ℕ) → r ≡ wrote w → w ≤ t.channel.len0)
    → t.accepted ≡ t.delivered ++ pending t.channel
    → IsQueue (record t {
      channel = after_write t.channel r;
      delivered = t.delivered ++ handed t.channel r;
    })
unfolding after_write handed
flush-IsQueue t retry v h q =
    flowing v (q ∙ ap (λ z. z ++ pending t.channel) (sym (append-nil t.delivered)))
flush-IsQueue t failed v h q =
    cut (pending t.channel) refl
      (q ∙ ap (λ z. z ++ pending t.channel) (sym (append-nil t.delivered)))
flush-IsQueue t (wrote zero) v h q =
    cut (pending t.channel) refl
      (q ∙ ap (λ z. z ++ pending t.channel) (sym (append-nil t.delivered)))
flush-IsQueue t (wrote (suc w)) v h q = flowing (after_write-IsFlow c (wrote (suc w)) v) (
    q
    ∙ ap (◌++◌ t.delivered) (sym (take-append-drop (suc w) (pending c)))
    ∙ sym (append_assoc t.delivered (take (suc w) (pending c)) (drop (suc w) (pending c)))
    ∙ ap (◌++◌ (t.delivered ++ take (suc w) (pending c)))
        (sym (pending-after_write c w v (h (suc w) refl))))
  where
    c : Channel
    c = t.channel

-- A channel whose input is closed takes no data and writes none.
closed_puts :
    (c d : Channel) (buf : List ℕ)
    → is_minus_one c.fd0 ≡ true
    → channel_put c buf (length buf) ≡ ok d
    → d ≡ c
unfolding channel_put
closed_puts c d buf h e = ground (arith, e, h)

closed_takes_none : (c : Channel) → is_minus_one c.fd0 ≡ true → takes_input c ≡ false
closed_takes_none c h = ground arith

arrive-IsQueue :
    (t : Trace) (buf : List ℕ) (d : Channel)
    → length buf < 2 ^ 32
    → channel_put t.channel buf (length buf) ≡ ok d
    → IsQueue t
    → IsQueue (record t {
      channel = d;
      accepted = t.accepted ++ (if takes_input t.channel then buf else []);
    })
arrive-IsQueue t buf d h e (flowing v q) =
    flowing (Returns_ok IsFlow _ (channel_put-IsFlow t.channel buf (length buf) v h) e) (
      ap (λ z. z ++ more) q
      ∙ append_assoc t.delivered (pending t.channel) more
      ∙ ap (◌++◌ t.delivered) (sym (pending-put t.channel d buf v h e)))
  where
    more : List ℕ
    more = if takes_input t.channel then buf else []
arrive-IsQueue t buf d h e (cut lost f q) =
    cut lost (rw (closed_puts t.channel d buf f e) f)
      (rw (closed_takes_none t.channel f) (append-nil t.accepted ∙ q))

-- Nothing is waiting, so `write` is not called.
handed-idle : (c : Channel) (r : WriteResult) → c.len0 ≡ 0 → handed c r ≡ []
unfolding handed
handed-idle c retry e = refl
handed-idle c failed e = refl
handed-idle c (wrote w) e = ap (λ n. take w (take n c.buf0)) e ∙ nothing w
  where
    nothing : (n : ℕ) → take {A = ℕ} n [] ≡ []
    nothing zero = refl
    nothing (suc n) = refl

idle-IsQueue :
    (t : Trace) (d : Channel) (r : WriteResult)
    → t.channel.len0 ≡ 0
    → d ≡ t.channel
    → IsFlow t.channel
    → t.accepted ≡ t.delivered ++ pending t.channel
    → IsQueue (record t { channel = d; delivered = t.delivered ++ handed t.channel r })
idle-IsQueue t d r empty same v q = flowing (subst IsFlow (sym same) v) (
    q
    ∙ ap (λ c. t.delivered ++ pending c) (sym same)
    ∙ ap (λ z. z ++ pending d)
        (sym (append-nil t.delivered)
          ∙ ap (◌++◌ t.delivered) (sym (handed-idle t.channel r empty))))

step-IsQueue : (t u : Trace) (e : Event) → Allowed e → IsQueue t → step t e ≡ ok u → IsQueue u
unfolding step
step-IsQueue t u (arrives buf) h q s =
    let (d, e, r) = >>=-eq-ok (channel_put t.channel buf (length buf)) _ s in
    subst IsQueue (cc) (arrive-IsQueue t buf d h e q)
step-IsQueue t u (flushes write) h (flowing v q) s =
    let (d, e, r) = >>=-eq-ok (channel_write t.channel write) _ s in
    elim (channel_write-ok t.channel d write e).1 [
      | inl (empty, same) ↦
          subst IsQueue (cc) (idle-IsQueue t d (write t.channel.len0) empty same v q)
      | inr written ↦
          subst IsQueue (cc) (flush-IsQueue t (write t.channel.len0) v (h t.channel.len0) q)
    ]
step-IsQueue t u (flushes write) h (cut lost f q) s =
    let (d, e, r) = >>=-eq-ok (channel_write t.channel write) _ s in
    absurd (false≢true (sym (channel_write-ok t.channel d write e).0 ∙ f))

-- Any sequence of arriving data, each shorter than 2 ^ 32 bytes, and of writes, which take no
-- more than they are given, keeps this order where no step ends the process: the child has had an
-- initial part of the accepted data, in order and each byte once, and while its input is open the
-- rest is in the buffer.
pub run-IsQueue :
    (es : List Event) (t u : Trace) → All Allowed es → IsQueue t → run t es ≡ ok u → IsQueue u
unfolding run
run-IsQueue [] t u h q e = subst IsQueue (cc) q
run-IsQueue (e ∷ es) t u (h, hs) q r =
    let (w, s, rest) = >>=-eq-ok (step t e) _ r in
    run-IsQueue es w u hs (step-IsQueue t w e h q s) rest
