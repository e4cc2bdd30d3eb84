-- ===== src/Hello.antt =====
-- packet_hello.c and writeall.c. What `write` answers from now on is a list, as in Getln for `read`;
-- behind its end the call waits for ever.
pub mod Texts
pub mod Accepts
pub mod RoundTrip
use tinyssh.Common.{
  ℕ, zero, suc, ◌+◌, ◌-◌, ◌≤◌, List, [], ◌∷◌, ◌++◌, Bool, true, false, ◌==◌, ltb, if◌then◌else◌,
  set, get_or, take, drop, length, min, Option, none, some, Outcome, ok, ◌>>=◌,
}
use tinyssh.Bytes.{byte_isequal, purge}
use tinyssh.Str.{str_len, literal}
use tinyssh.Buf.{Buf, buf_purge, buf_puts}
use tinyssh.Getln.{Answer, Code, line, closed, failed, getln}

-- An answer of `write`: how many bytes it takes, -1 with EINTR or EAGAIN, or another error.
pub data Written : Type 0 where
  wrote : ℕ → Written
  later broken : Written

-- What `writeall` has written when it returns, and whether it returns 0; or `none`, where it waits
-- for ever. The system writes no more than it is given, 1048576 bytes at most.
unfoldable pub writeall : List ℕ → List Written → Option (Bool × List ℕ)
writeall [] answers = some (true, [])
writeall (b ∷ x) [] = none
writeall (b ∷ x) (later ∷ answers) = writeall (b ∷ x) answers
writeall (b ∷ x) (broken ∷ answers) = some (false, [])
writeall (b ∷ x) (wrote w ∷ answers) =
    let n = min w (min (length (b ∷ x)) 1_048_576) in
    elim (writeall (drop n (b ∷ x)) answers) [
      | none ↦ none
      | some (done, more) ↦ some (done, take n (b ∷ x) ++ more)
    ]

-- `SSH-2.0-tinyssh`, the version if there is one, a space and the log's name of the connection.
unfoldable pub hello_string : Option (List ℕ) → List ℕ → Buf → Outcome Buf
hello_string version log_string b = do
  b ← buf_purge b
  b ← buf_puts b (literal "SSH-2.0-tinyssh")
  b ← elim version [ none ↦ ok b | some v ↦ (do b ← buf_puts b (literal "_"); buf_puts b v) ]
  b ← buf_puts b (literal " ")
  b ← buf_puts b log_string
  buf_puts b (literal "\r\n")

-- Whether it returns 1, the buffer, and what has gone over the line; or it waits for ever.
unfoldable pub packet_hello_send :
    Option (List ℕ) → List ℕ → List Written → Buf → Outcome (Option (Bool × Buf × List ℕ))
unfolding hello_string writeall
packet_hello_send version log_string answers b = do
  b ← hello_string version log_string b
  ok (elim (writeall (take b.len b.mem) answers) [
    | none ↦ none
    | some (false, sent) ↦ some (false, b, sent)
    | some (true, sent) ↦
        let len = b.len - 2 in
        some (true, record b { mem = purge (set b.mem len 0) len (b.alloc - len); len = len }, sent)
  ])

-- `if (b->buf[b->len - 1] == c) --(b->len);`
unfoldable pub strip : List ℕ → ℕ → ℕ → ℕ
strip mem c len = if get_or mem (len - 1) 0 == c then len - 1 else len

-- The line in `mem` once it is read.
unfoldable pub accept_hello : Buf → List ℕ → Bool × Buf
unfolding strip
accept_hello b mem =
    let len = str_len mem in
    let n = strip mem 13 (strip mem 10 len) in
    let cut = set mem n 0 in
    let refused : Bool × Buf = (false, record b { mem = mem; len = len }) in
    let foreign : Bool × Buf = (false, record b { mem = cut; len = n }) in
    let accepted : Bool × Buf = (true, record b { mem = purge cut n (b.alloc - n); len = n }) in
    if ltb len 6 then refused else if byte_isequal cut 4 (literal "SSH-") then accepted else foreign

-- Whether it returns 1, the buffer, and the answers of `read` that are left.
unfoldable pub packet_hello_receive : List Answer → Buf → Bool × Buf × List Answer
unfolding accept_hello getln
packet_hello_receive answers b =
    let (code, mem, rest) = getln b.mem b.alloc answers in
    elim code [
      | closed ↦ (false, record b { mem = mem }, rest)
      | failed ↦ (false, record b { mem = mem }, rest)
      | line ↦ let (accepted, b) = accept_hello b mem in (accepted, b, rest)
    ]
