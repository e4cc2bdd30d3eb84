-- ===== src/Tests/Hello.antt =====
-- Lines and hellos at concrete inputs.
use tinyssh.Common.{ℕ, ◌≡◌, refl, List, [], ◌∷◌, ◌++◌, map, true, false, arith, none, some, ok}
use tinyssh.Bytes.{byte_copy, copy_loop, purge}
use tinyssh.Bytes.Copy.{zeros}
use tinyssh.Str.{str_len}
use tinyssh.Buf.{Buf, is_bad, buf_purge, buf_put, buf_puts}
use tinyssh.Buf.Contents.{contents}
use tinyssh.Getln.{Answer, byte, again, getln_any}
use tinyssh.Getln.Lines.{Delivers, here, takes, Ended}
use tinyssh.Getln.Reads.{getln_any-Ended}
use tinyssh.Hello.{wrote, later, writeall, hello_string, packet_hello_send, packet_hello_receive}
use tinyssh.Hello.Texts.{hello_text}
use tinyssh.Hello.RoundTrip.{packet_hello_send-receive}
use tinyssh.Tests.Data.{empty, empty-IsValid}

getln_any-Ended_example :
    Ended false
      (zeros 9)
      0
      8
      (byte 97 ∷ again ∷ byte 10 ∷ byte 98 ∷ [])
      (getln_any false (zeros 9) 9 (byte 97 ∷ again ∷ byte 10 ∷ byte 98 ∷ []))
unfolding zeros
getln_any-Ended_example =
    getln_any-Ended false (zeros 9) 8 (byte 97 ∷ again ∷ byte 10 ∷ byte 98 ∷ []) (omega arith)

abbrev sent : List ℕ
sent = hello_text none (120 ∷ []) ++ (13 ∷ 10 ∷ [])

-- The server's buffer with its line.
abbrev kept : Buf
kept = record { mem = hello_text none (120 ∷ []) ++ zeros 43; len = 17; alloc = 60 }

sends :
    packet_hello_send none (120 ∷ []) (wrote 4 ∷ later ∷ wrote 99 ∷ []) (empty 60)
    ≡ ok (some (true, kept, sent))
unfolding packet_hello_send hello_string writeall buf_purge buf_puts buf_put is_bad str_len
    byte_copy copy_loop purge zeros
sends = refl

delivered : (bytes : List ℕ) (rest : List Answer) → Delivers (map byte bytes ++ rest) bytes rest
delivered [] rest = here
delivered (b ∷ bytes) rest = takes b (delivered bytes rest)

packet_hello_send-receive_example :
    (d : Buf) × (left : List Answer) × (packet_hello_receive
        (map byte sent ++ (byte 0 ∷ []))
        (empty 60)
      ≡ (true, d, left))
    × (contents d ≡ contents kept)
    × (contents kept ≡ hello_text none (120 ∷ []))
    × Delivers left [] (byte 0 ∷ [])
packet_hello_send-receive_example =
    packet_hello_send-receive none (120 ∷ []) (wrote 4 ∷ later ∷ wrote 99 ∷ []) (empty 60)
      (empty 60) kept sent (map byte sent ++ (byte 0 ∷ [])) (byte 0 ∷ []) tt
      ((ground arith, ground arith), tt) (omega arith)
      (empty-IsValid 60 (omega arith) (omega arith)) (empty-IsValid 60 (omega arith) (omega arith))
      sends (omega arith) (delivered sent (byte 0 ∷ []))
