-- ===== src/Hello/RoundTrip.antt =====
-- The hello of packet_hello.c from one side to the other.
use tinyssh.Common.{
  ℕ, zero, suc, ◌+◌, ◌-◌, ◌≤◌, ◌<◌, ◌≡◌, refl, sym, ap, ◌∙◌, List, [], ◌∷◌, ◌++◌, Bool, true, false,
  arith, All, length, take, drop, set, append_assoc, length-append, Option, none, some, subst,
  All-append, Outcome, ok, die, ◌>>=◌, take-append-drop, take-set_le, length-set, take-append,
  take-take,
}
use tinyssh.Bytes.{purge}
use tinyssh.Bytes.Copy.{purge-splice, take-splice_before}
use tinyssh.Str.{literal}
use tinyssh.Buf.{Buf, limit}
use tinyssh.Buf.Contents.{IsValid, contents, Appends, fits, full, length-contents}
use tinyssh.Getln.{Answer, Code, line, closed, failed, getln, getln_any}
use tinyssh.Getln.Lines.{IsPlain, Delivers}
use tinyssh.Getln.Reads.{ReadsLine, getln_loop_line}
use tinyssh.Hello.{
  Written, writeall, hello_string, packet_hello_send, accept_hello, packet_hello_receive,
}
use tinyssh.Hello.Texts.{hello_text, IsVersion, hello_text-IsPlain, hello_string-Appends}
use tinyssh.Hello.Accepts.{
  Writes, waiting, whole, front, writeall-Writes, accepted, accepted-contents, accept_hello_lem,
  starts,
}

abbrev trimmed_line : Buf → Buf
trimmed_line b =
    let len = b.len - 2 in record b { mem = purge (set b.mem len 0) len (b.alloc - len); len = len }

-- What `packet_hello_send` does with the buffer that holds the line, and what it has written.
abbrev report : Buf → Option (Bool × List ℕ) → Option (Bool × Buf × List ℕ)
report b r = elim r [
  | none ↦ none
  | some (false, sent) ↦ some (false, b, sent)
  | some (true, sent) ↦ some (true, trimmed_line b, sent)
]

abbrev write_line : List Written → Buf → Option (Bool × Buf × List ℕ)
write_line answers b = report b (writeall (take b.len b.mem) answers)

trimmed :
    (b : Buf) (text : List ℕ)
    → IsValid b
    → contents b ≡ text ++ (13 ∷ 10 ∷ [])
    → take (b.len - 2) (purge (set b.mem (b.len - 2) 0) (b.len - 2) (b.alloc - (b.len - 2))) ≡ text
trimmed b text v e =
    ap (take n)
      (purge-splice (set b.mem n 0) n (b.alloc - n) (omega (arith, size, v.held, v.backed)))
    ∙ take-splice_before (set b.mem n 0) _ n (omega (arith, size, v.held, v.backed))
    ∙ take-set_le b.mem n n 0 (omega arith)
    ∙ sym (take-take n b.len b.mem (omega arith))
    ∙ ap (take n) e
    ∙ take-append text (13 ∷ 10 ∷ []) n
        (omega (arith, ap length e, length-append text (13 ∷ 10 ∷ []), length-contents b v))
  where
    n : ℕ
    n = b.len - 2

    size : length (set b.mem n 0) ≡ length b.mem
    size = length-set b.mem n 0

write_line-true :
    (answers : List Written) (b q : Buf) (text sent : List ℕ)
    → IsValid b
    → contents b ≡ text ++ (13 ∷ 10 ∷ [])
    → write_line answers b ≡ some (true, q, sent)
    → (contents q ≡ text) × (sent ≡ text ++ (13 ∷ 10 ∷ []))
write_line-true answers b q text sent v e =
    by_result (writeall (contents b) answers) (writeall-Writes (contents b) answers)
  where
    by_result :
        (r : Option (Bool × List ℕ))
        → Writes (contents b) r
        → report b r ≡ some (true, q, sent)
        → (contents q ≡ text) × (sent ≡ text ++ (13 ∷ 10 ∷ []))
    by_result none waiting h = absurd (cc)
    by_result (some (true, s)) whole h =
        let same : q ≡ trimmed_line b = cc in
        let all : sent ≡ contents b = cc in (ap contents same ∙ trimmed b text v e, all ∙ e)
    by_result (some (false, s)) (front k) h = absurd (cc)

-- The end of `packet_hello_send` with 1.
pub packet_hello_send-true :
    (version : Option (List ℕ)) (log_string : List ℕ) (answers : List Written) (b q : Buf)
    (sent : List ℕ)
    → IsVersion version
    → All IsPlain log_string
    → length log_string ≤ limit
    → IsValid b
    → packet_hello_send version log_string answers b ≡ ok (some (true, q, sent))
    → (contents q ≡ hello_text version log_string)
      × (sent ≡ hello_text version log_string ++ (13 ∷ 10 ∷ []))
unfolding packet_hello_send
packet_hello_send-true version log_string answers b q sent hv hl small v h =
    let (e, ve, zero_len, same, put) = hello_string-Appends version log_string b v hv hl small in
    by_line e (hello_string version log_string b) zero_len put h
  where
    text : List ℕ
    text = hello_text version log_string

    by_line :
        (e : Buf) (o : Outcome Buf)
        → e.len ≡ 0
        → Appends e (text ++ (13 ∷ 10 ∷ [])) o
        → (o >>= λ b. ok (write_line answers b)) ≡ ok (some (true, q, sent))
        → (contents q ≡ text) × (sent ≡ text ++ (13 ∷ 10 ∷ []))
    by_line e (ok c) z (fits c' vc a k) h =
        write_line-true answers c q text sent vc
          (k ∙ ap (λ n. take n e.mem ++ (text ++ (13 ∷ 10 ∷ []))) z) (cc)
    by_line e (die f) z (full over) h = absurd (cc)

-- The line is read whole into a buffer that has room for it, and accepted.
pub packet_hello_receive_line :
    (c : Buf) (text : List ℕ) (answers rest : List Answer)
    → IsValid c
    → All IsPlain text
    → 4 ≤ length text
    → take 4 text ≡ literal "SSH-"
    → length text + 3 ≤ c.alloc
    → Delivers answers (text ++ (13 ∷ 10 ∷ [])) rest
    → (d : Buf) × (left : List Answer) × (packet_hello_receive answers c ≡ (true, d, left))
      × (contents d ≡ text)
      × Delivers left [] rest
unfolding packet_hello_receive
packet_hello_receive_line c text answers rest v plain four named room d =
    by_line (getln c.mem c.alloc answers) (read c.alloc refl)
  where
    P : (Bool × Buf × List Answer) → Type 0
    P r =
        (d : Buf) × (left : List Answer) × (r ≡ (true, d, left))
        × (contents d ≡ text)
        × Delivers left [] rest

    by_line :
        (r : Code × List ℕ × List Answer)
        → ReadsLine (set c.mem 0 0) 0 (text ++ 13 ∷ []) rest r
        → P (elim r.0 [
          | closed ↦ (false, record c { mem = r.1 }, r.2)
          | failed ↦ (false, record c { mem = r.1 }, r.2)
          | line ↦ ((accept_hello c r.1).0, (accept_hello c r.1).1, r.2)
        ])
    by_line (line, mem, left) k =
        let known = holds mem k.string in
        let long : c.alloc ≤ length mem = omega (arith, k.size, v.backed, length-set c.mem 0 0) in
        let more : length text + 2 < c.alloc = omega (arith, room) in
        let named' =
          (starts c mem text (drop (length text + 3) mem) plain known four long more).1 named in
        let done =
          accept_hello_lem c mem text (drop (length text + 3) mem) plain known four long more in
        (
          accepted c mem text (drop (length text + 3) mem) plain known four long more,
          left,
          rw (done, named') refl,
          accepted-contents c mem text (drop (length text + 3) mem) plain known four long more,
          k.left,
        )
      where
        holds :
            (mem : List ℕ)
            → take (suc (0 + length ((text ++ 13 ∷ []) ++ 10 ∷ []))) mem
              ≡ ((text ++ 13 ∷ []) ++ 10 ∷ []) ++ 0 ∷ []
            → mem ≡ text ++ (13 ∷ 10 ∷ 0 ∷ drop (length text + 3) mem)
        holds mem e =
            let count : suc (0 + length ((text ++ 13 ∷ []) ++ 10 ∷ [])) ≡ length text + 3 =
              omega
                (arith, length-append (text ++ 13 ∷ []) (10 ∷ []), length-append text (13 ∷ [])) in
            sym (take-append-drop (length text + 3) mem)
            ∙ ap (λ z. z ++ drop (length text + 3) mem) (ap (λ k. take k mem) (sym count) ∙ e)
            ∙ simp append_assoc refl
    by_line (closed, mem, left) k = absurd (cc k.code)
    by_line (failed, mem, left) k = absurd (cc k.code)

    read :
        (n : ℕ)
        → n ≡ c.alloc
        → ReadsLine (set c.mem 0 0) 0 (text ++ 13 ∷ []) rest (getln c.mem n answers)
    read zero e = absurd (omega (arith, e, room))
    read (suc most) e =
        unfold getln getln_any in
        getln_loop_line (set c.mem 0 0) 0 most (text ++ 13 ∷ []) answers rest
          (subst (λ z. Delivers answers z rest) (sym (append_assoc text (13 ∷ []) (10 ∷ []))) d)
          (All-append IsPlain text (13 ∷ []) plain ((ground arith, ground arith), tt))
          (omega (arith, room, e, length-append text (13 ∷ [])))
          (omega (arith, e, v.backed, length-set c.mem 0 0))

-- The hello that `packet_hello_send` has written when it returns 1 is read by a peer whose buffer has
-- room for it: `packet_hello_receive` returns 1, and both sides keep the same text, which is the
-- line without its end, for the hash of the key exchange. The version and the log's name of the
-- connection are bytes without NUL and newline. What stands behind the line in the file stays there.
pub packet_hello_send-receive :
    (version : Option (List ℕ)) (log_string : List ℕ) (written : List Written) (b c q : Buf)
    (sent : List ℕ) (answers rest : List Answer)
    → IsVersion version
    → All IsPlain log_string
    → length log_string ≤ limit
    → IsValid b
    → IsValid c
    → packet_hello_send version log_string written b ≡ ok (some (true, q, sent))
    → length sent + 1 ≤ c.alloc
    → Delivers answers sent rest
    → (d : Buf) × (left : List Answer) × (packet_hello_receive answers c ≡ (true, d, left))
      × (contents d ≡ contents q)
      × (contents q ≡ hello_text version log_string)
      × Delivers left [] rest
packet_hello_send-receive version log_string written b c q sent answers rest hv hl small v w put
      room d =
    let (kept, wire) =
      packet_hello_send-true version log_string written b q sent hv hl small v put in
    let text = hello_text version log_string in
    let (e, left, received, same, behind) =
      packet_hello_receive_line c text answers rest w (hello_text-IsPlain version log_string hv hl)
        (four version) (named version)
        (omega (arith, room, ap length wire, length-append text (13 ∷ 10 ∷ [])))
        (subst (λ z. Delivers answers z rest) wire d) in
    (e, left, received, same ∙ sym kept, kept, behind)
  where
    four : (version : Option (List ℕ)) → 4 ≤ length (hello_text version log_string)
    four none = omega arith
    four (some n) = omega arith

    named : (version : Option (List ℕ)) → take 4 (hello_text version log_string) ≡ literal "SSH-"
    named none = refl
    named (some n) = refl
