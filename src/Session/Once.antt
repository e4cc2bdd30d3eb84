-- ===== src/Session/Once.antt =====
-- The requests of packet_channel_request.c after the start of the child, and under the option `-e`.
use tinyssh.Common.{◌∷◌, ◌%◌, ◌^◌, ℕ, ◌≡◌, List, Bool, true, false, arith, some, Returns}
use tinyssh.Buf.{Buf}
use tinyssh.Channel.{Channel, resizes}
use tinyssh.Session.Request.{Offer, request_exec, request_subsystem}

-- What a request may come to after the start of the child: it is refused and the channel is as it
-- was; or it is a change of the window's size, which is accepted and at most resizes the terminal.
pub data Later (c : Channel) (resizing : Bool) : Bool × Channel × Buf → Type 0 where
  refused : (b : Buf) → Later c resizing (false, c, b)
  unchanged : (b : Buf) → resizing ≡ true → c.flagterminal ≡ true → Later c resizing (true, c, b)
  resized :
      (b : Buf) (a h x y : ℕ)
      → resizing ≡ true
      → c.flagterminal ≡ true
      → Later c resizing (
        true,
        record c {
          calls = resizes c.fd0 (a % 2 ^ 16) (h % 2 ^ 16) (x % 2 ^ 16) (y % 2 ^ 16) ∷ c.calls;
        },
        b,
      )

abbrev Refused : Channel → Bool × Channel × Buf → Type 0
Refused c r = (r.0 ≡ false) × (r.1 ≡ c)

-- With a program set by the option `-e`, the requests exec and subsystem are refused and leave
-- the channel alone, where they do not end the process.
pub request_custom :
    (o : Offer) (c : Channel) (b : Buf) (at : ℕ) (program : List ℕ)
    → o.customcmd ≡ some program
    → Returns (request_exec o c b at) (λ r. (r.0 ≡ false) × (r.1 ≡ c))
      × Returns (request_subsystem o c b at) (λ r. (r.0 ≡ false) × (r.1 ≡ c))
unfolding request_exec request_subsystem
request_custom o c b at program set = (ground (arith, set), ground (arith, set))
