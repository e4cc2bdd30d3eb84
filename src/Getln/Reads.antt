-- ===== src/Getln/Reads.antt =====
-- getln.c on a file whose next line is known.
use tinyssh.Common.{
  ℕ, zero, suc, ◌+◌, ◌≤◌, ◌<◌, ◌≡◌, refl, sym, ◌∙◌, List, [], ◌∷◌, ◌++◌, Bool, false, arith, All,
  length, take, set, ◌==◌, length-set, subst,
}
use tinyssh.Getln.{Answer, char, getch, as_newline, Code, line, getln_loop, getln_any}
use tinyssh.Getln.Lines.{
  Delivers, IsPlain, getch-char, Ended, getln_loop-Ended, written, terminated,
}

-- With a space of `xmax` bytes, `getln_` ends in one of the ways of `Reason` and leaves the string
-- that belongs to it, with its NUL, at the start of the space: a line with its newline, where it
-- returns 1; the bytes up to the end of the file, where it returns 0; and what it has read before a
-- NUL that is not allowed, an error, or the end of the space, where it returns -1. With the flag a
-- NUL ends a line like a newline.
pub getln_any-Ended :
    (nul : Bool) (x : List ℕ) (most : ℕ) (answers : List Answer)
    → suc most ≤ length x
    → Ended nul (set x 0 0) 0 most answers (getln_any nul x (suc most) answers)
unfolding getln_any
getln_any-Ended nul x most answers room =
    getln_loop-Ended nul (set x 0 0) 0 most answers (omega (arith, room, length-set x 0 0))

abbrev pub Result : Type 0
Result = Code × List ℕ × List Answer

-- A known answer of `getch`.
round_char :
    (x : List ℕ) (xlen left ch : ℕ) (answers more : List Answer)
    → getch answers ≡ char ch more
    → IsPlain ch
    → getln_loop false x xlen (suc left) answers
      ≡ getln_loop false (set x xlen ch) (suc xlen) left more
unfolding getln_loop as_newline
round_char x xlen left ch answers more e p =
    let z : (ch == 0) ≡ false = ground (arith, p.0) in
    let t : (ch == 10) ≡ false = ground (arith, p.1) in rw (e, getln_loop) (rw (z, t) refl)

round_newline :
    (x : List ℕ) (xlen left : ℕ) (answers more : List Answer)
    → getch answers ≡ char 10 more
    → ◌≡◌ {A = Result}
        (getln_loop false x xlen (suc left) answers)
        (line, set (set x xlen 10) (suc xlen) 0, more)
unfolding getln_loop as_newline
round_newline x xlen left answers more e = rw (e, getln_loop) refl

-- The line is read whole, up to waits behind it.
pub record ReadsLine (x : List ℕ) (xlen : ℕ) (v : List ℕ) (rest : List Answer) (r : Result)
    : Type 0 where
  pub code : r.0 ≡ line
  pub string :
      take (suc (xlen + length (v ++ 10 ∷ []))) r.1 ≡ take xlen x ++ ((v ++ 10 ∷ []) ++ 0 ∷ [])
  pub size : length r.1 ≡ length x
  pub left : Delivers r.2 [] rest

pub getln_loop_line :
    (x : List ℕ) (xlen left : ℕ) (v : List ℕ) (answers rest : List Answer)
    → Delivers answers (v ++ 10 ∷ []) rest
    → All IsPlain v
    → length v < left
    → xlen + left < length x
    → ReadsLine x xlen v rest (getln_loop false x xlen left answers)
getln_loop_line x xlen zero v answers rest d p short room = absurd (omega (arith, short))
getln_loop_line x xlen (suc left) [] answers rest d p short room =
    let (more, e, d') = getch-char 10 d in
    subst (ReadsLine x xlen [] rest) (sym (round_newline x xlen left answers more e)) (record {
      code = refl;
      string =
          written x [] (set (set x xlen 10) (suc xlen) 0) xlen 10 (omega (arith, room))
            (terminated (set x xlen 10) (suc xlen) (omega (arith, room, length-set x xlen 10)));
      size = length-set (set x xlen 10) (suc xlen) 0 ∙ length-set x xlen 10;
      left = d';
    })
getln_loop_line x xlen (suc left) (b ∷ v) answers rest d (q, p) short room =
    let (more, e, d') = getch-char b d in
    let ih =
      getln_loop_line (set x xlen b) (suc xlen) left v more rest d' p (omega (arith, short))
        (omega (arith, room, length-set x xlen b)) in
    subst (ReadsLine x xlen (b ∷ v) rest) (sym (round_char x xlen left b answers more e q))
      (record {
        code = ih.code;
        string =
            written x (v ++ 10 ∷ []) (getln_loop false (set x xlen b) (suc xlen) left more).1 xlen b
              (omega (arith, room)) ih.string;
        size = ih.size ∙ length-set x xlen b;
        left = ih.left;
      })
