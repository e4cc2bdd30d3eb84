-- ===== src/Getln.antt =====
-- getln.c, on a descriptor that is not negative. What `read` of one byte answers from now on is a
-- list; behind its end the file has ended.
pub mod Lines
pub mod Reads
use tinyssh.Common.{
  ℕ, zero, suc, ◌-◌, List, [], ◌∷◌, Bool, true, false, not, ◌&&◌, ◌==◌, if◌then◌else◌, set,
}

-- An answer of `read`: a byte, 0, -1 with EINTR or EAGAIN, or -1 with another error.
pub data Answer : Type 0 where
  byte : ℕ → Answer
  ended again broken : Answer

-- What `getch` returns: 1 with the character, 0, or -1; and the answers that are left.
pub data Got : Type 0 where
  char : ℕ → List Answer → Got
  nothing error : List Answer → Got

unfoldable pub getch : List Answer → Got
getch [] = nothing []
getch (byte c ∷ answers) = char c answers
getch (ended ∷ answers) = nothing answers
getch (broken ∷ answers) = error answers
getch (again ∷ answers) = getch answers

-- What `getln_` returns: 1, 0 or -1.
pub data Code : Type 0 where
  line closed failed : Code

abbrev pub newline : ℕ
newline = 10

-- `if (ch == 0) ... ch = '\n';`
unfoldable pub as_newline : ℕ → ℕ
as_newline ch = if ch == 0 then newline else ch

-- The loop, with the room that is left: `xmax - 1 - xlen`.
unfoldable pub getln_loop : Bool → List ℕ → ℕ → ℕ → List Answer → Code × List ℕ × List Answer
unfolding getch as_newline
getln_loop nul_as_newline x xlen zero answers = (failed, set x xlen 0, answers)
getln_loop nul_as_newline x xlen (suc left) answers = elim (getch answers) [
  | nothing rest ↦ (closed, set x xlen 0, rest)
  | error rest ↦ (failed, set x xlen 0, rest)
  | char ch rest ↦
      let x' : List ℕ = set x xlen (as_newline ch) in
      let refused : Code × List ℕ × List Answer = (failed, set x xlen 0, rest) in
      let whole : Code × List ℕ × List Answer = (line, set x' (suc xlen) 0, rest) in
      let more = getln_loop nul_as_newline x' (suc xlen) left rest in
      if ch == 0 && not nul_as_newline
      then refused
      else if as_newline ch == newline
      then whole
      else more
]

-- `getln_` of the space `x` of `xmax` bytes.
unfoldable pub getln_any : Bool → List ℕ → ℕ → List Answer → Code × List ℕ × List Answer
unfolding getln_loop
getln_any nul_as_newline x zero answers = (failed, x, answers)
getln_any nul_as_newline x (suc most) answers = getln_loop nul_as_newline (set x 0 0) 0 most answers

unfoldable pub getln : List ℕ → ℕ → List Answer → Code × List ℕ × List Answer
unfolding getln_any
getln x xmax answers = getln_any false x xmax answers

unfoldable pub getln_nul_as_newline : List ℕ → ℕ → List Answer → Code × List ℕ × List Answer
unfolding getln_any
getln_nul_as_newline x xmax answers = getln_any true x xmax answers
