-- ===== src/Hello/Texts.antt =====
-- The line that packet_hello.c sends, and C strings in front of a NUL.
use tinyssh.Common.{
  ℕ, ◌≤◌, ◌≡◌, ◌≢◌, refl, sym, ap, ◌∙◌, List, [], ◌∷◌, ◌++◌, Bool, true, not, ◌&&◌, arith, All,
  length, append_assoc, take_all, Option, none, some, Outcome, ok, ◌>>=◌, subst, ◌==◌, All-append,
}
use tinyssh.Str.{str_len, literal}
use tinyssh.Str.Laws.{str_len-le}
use tinyssh.Buf.{Buf, limit, buf_put, buf_puts}
use tinyssh.Buf.Contents.{IsValid, Appends, buf_put-Appends, buf_purge_lem}
use tinyssh.Buf.Puts.{Appends-bind}
use tinyssh.Getln.Lines.{IsPlain}
use tinyssh.Hello.{hello_string}

-- What the line holds before its end.
abbrev pub software : Option (List ℕ) → List ℕ
software none = literal "SSH-2.0-tinyssh"
software (some version) = literal "SSH-2.0-tinyssh_" ++ version

abbrev pub hello_text : Option (List ℕ) → List ℕ → List ℕ
hello_text version log_string = software version ++ (literal " " ++ log_string)

pub str_len-append : (s rest : List ℕ) → All (λ c. c ≢ 0) s → str_len (s ++ (0 ∷ rest)) ≡ length s
unfolding str_len
str_len-append [] rest h = refl
str_len-append (c ∷ s) rest (p, h) = ground (arith, p, str_len-append s rest h)

abbrev plain_bytes : List ℕ → Bool
plain_bytes [] = true
plain_bytes (c ∷ s) = not (c == 0) && (not (c == 10) && plain_bytes s)

plain_bytes-All : (s : List ℕ) → plain_bytes s ≡ true → All IsPlain s
plain_bytes-All [] e = tt
plain_bytes-All (c ∷ s) e =
    ((ground (arith, e), ground (arith, e)), plain_bytes-All s (ground (arith, e)))

pub IsPlain-nonzero : (s : List ℕ) → All IsPlain s → All (λ c. c ≢ 0) s
IsPlain-nonzero [] h = tt
IsPlain-nonzero (c ∷ s) ((p, q), h) = (p, IsPlain-nonzero s h)

name-IsPlain : All IsPlain (literal "SSH-2.0-tinyssh")
name-IsPlain = plain_bytes-All (literal "SSH-2.0-tinyssh") refl

-- A version is a string of plain bytes.
abbrev pub IsVersion : Option (List ℕ) → Type 0
IsVersion none = Unit
IsVersion (some n) = All IsPlain n × (length n ≤ limit)

pub hello_text-IsPlain :
    (version : Option (List ℕ)) (log_string : List ℕ)
    → IsVersion version
    → All IsPlain log_string
    → All IsPlain (hello_text version log_string)
hello_text-IsPlain none l hv hl =
    All-append IsPlain (literal "SSH-2.0-tinyssh") (32 ∷ l) name-IsPlain
      ((ground arith, ground arith), hl)
hello_text-IsPlain (some n) l (hv, small) hl =
    All-append IsPlain (literal "SSH-2.0-tinyssh_" ++ n) (32 ∷ l)
      (All-append IsPlain (literal "SSH-2.0-tinyssh_") n
        (plain_bytes-All (literal "SSH-2.0-tinyssh_") refl) hv)
      ((ground arith, ground arith), hl)

str_len-all : (s : List ℕ) → All (λ c. c ≢ 0) s → str_len s ≡ length s
unfolding str_len
str_len-all [] h = refl
str_len-all (c ∷ s) (p, h) = ground (arith, p, str_len-all s h)

-- A string without a NUL is put whole.
puts_all :
    (b : Buf) (n : List ℕ)
    → All (λ c. c ≢ 0) n
    → length n ≤ limit
    → IsValid b
    → Appends b n (buf_puts b n)
unfolding buf_puts
puts_all b n h small v =
    subst (λ z. Appends b z (buf_put b n (str_len n)))
      (take_all (str_len n) n (omega (arith, str_len-all n h)))
      (buf_put-Appends b v n (str_len n) (omega (arith, str_len-all n h, small)) (str_len-le n))

-- The steps of `hello_string` from the space on, and from the name on.
abbrev from_space : List ℕ → Buf → Outcome Buf
from_space log_string b = do
  b ← buf_puts b (literal " ")
  b ← buf_puts b log_string
  buf_puts b (literal "\r\n")

abbrev from_name : Option (List ℕ) → List ℕ → Buf → Outcome Buf
from_name version log_string b = do
  b ← buf_puts b (literal "SSH-2.0-tinyssh")
  b ← elim version [ none ↦ ok b | some v ↦ (do b ← buf_puts b (literal "_"); buf_puts b v) ]
  from_space log_string b

from_space-Appends :
    (l : List ℕ) (e : Buf)
    → All IsPlain l
    → length l ≤ limit
    → IsValid e
    → Appends e (32 ∷ (l ++ (13 ∷ 10 ∷ []))) (from_space l e)
from_space-Appends l e hl small ve =
    Appends-bind e (literal " ") (l ++ (13 ∷ 10 ∷ [])) _ _ ve
      (puts_all e (literal " ") (ground arith, tt) (omega arith) ve)
      (λ c vc _.
        Appends-bind c l (13 ∷ 10 ∷ []) _ _ vc (puts_all c l (IsPlain-nonzero l hl) small vc)
          (λ d vd _. puts_all d (13 ∷ 10 ∷ []) (ground arith, (ground arith, tt)) (omega arith) vd))

from_name-Appends :
    (version : Option (List ℕ)) (l : List ℕ) (e : Buf)
    → IsVersion version
    → All IsPlain l
    → length l ≤ limit
    → IsValid e
    → Appends e (hello_text version l ++ (13 ∷ 10 ∷ [])) (from_name version l e)
from_name-Appends none l e h hl small ve =
    subst (λ z. Appends e z (from_name none l e))
      (sym (append_assoc (literal "SSH-2.0-tinyssh") (32 ∷ l) (13 ∷ 10 ∷ [])))
      (Appends-bind e (literal "SSH-2.0-tinyssh") (32 ∷ (l ++ (13 ∷ 10 ∷ []))) _ _ ve
        (puts_all e (literal "SSH-2.0-tinyssh")
          (IsPlain-nonzero (literal "SSH-2.0-tinyssh") name-IsPlain) (omega arith) ve)
        (λ c vc _. from_space-Appends l c hl small vc))
from_name-Appends (some n) l e (h, k) hl small ve =
    subst (λ z. Appends e z (from_name (some n) l e)) regrouped
      (Appends-bind e (literal "SSH-2.0-tinyssh") ((95 ∷ n) ++ (32 ∷ (l ++ (13 ∷ 10 ∷ [])))) _ _ ve
        (puts_all e (literal "SSH-2.0-tinyssh")
          (IsPlain-nonzero (literal "SSH-2.0-tinyssh") name-IsPlain) (omega arith) ve)
        (λ c vc _.
          Appends-bind c (95 ∷ n) (32 ∷ (l ++ (13 ∷ 10 ∷ []))) _ _ vc
            (Appends-bind c (literal "_") n _ _ vc
              (puts_all c (literal "_") (ground arith, tt) (omega arith) vc)
              (λ d vd _. puts_all d n (IsPlain-nonzero n h) k vd))
            (λ d vd _. from_space-Appends l d hl small vd)))
  where
    regrouped :
        literal "SSH-2.0-tinyssh" ++ ((95 ∷ n) ++ (32 ∷ (l ++ (13 ∷ 10 ∷ []))))
        ≡ hello_text (some n) l ++ (13 ∷ 10 ∷ [])
    regrouped =
        ap (◌++◌ (literal "SSH-2.0-tinyssh_")) (sym (append_assoc n (32 ∷ l) (13 ∷ 10 ∷ [])))
        ∙ sym (append_assoc (literal "SSH-2.0-tinyssh_") (n ++ (32 ∷ l)) (13 ∷ 10 ∷ []))
        ∙ ap (λ z. z ++ (13 ∷ 10 ∷ [])) (sym (append_assoc (literal "SSH-2.0-tinyssh_") n (32 ∷ l)))

-- With a valid buffer and strings of plain bytes, the buffer is emptied and gets the line of the
-- server with its end, or the process ends because the line does not fit.
pub hello_string-Appends :
    (version : Option (List ℕ)) (log_string : List ℕ) (b : Buf)
    → IsValid b
    → IsVersion version
    → All IsPlain log_string
    → length log_string ≤ limit
    → (e : Buf) × IsValid e
      × (e.len ≡ 0)
      × (e.alloc ≡ b.alloc)
      × Appends e
          (hello_text version log_string ++ (13 ∷ 10 ∷ []))
          (hello_string version log_string b)
unfolding hello_string
hello_string-Appends version log_string b v hv hl small =
    let (e, purged, ve, zero_len, same, _) = buf_purge_lem b v in
    (e, ve, zero_len, same, rw purged (from_name-Appends version log_string e hv hl small ve))
