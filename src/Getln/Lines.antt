-- ===== src/Getln/Lines.antt =====
-- What getln.c reads, in terms of the bytes that the file has.
use tinyssh.Common.{
  ℕ, zero, suc, ◌+◌, ◌≤◌, ◌<◌, ◌≡◌, ◌≢◌, refl, sym, ap, ◌∙◌, List, [], ◌∷◌, ◌++◌, Bool, true, false,
  arith, All, length, ◌⊎◌, inl, inr, ◌&&◌, not, if◌then◌else◌, Bool-cases, ==_iff, subst, take, set,
  take-set-suc, append_assoc, ◌==◌, length-set,
}
use tinyssh.Getln.{
  as_newline, Answer, byte, ended, again, broken, Got, char, nothing, error, getch, Code, line,
  closed, failed, getln_loop,
}

-- The answers deliver the bytes, with waits between them, and then stand at `rest`.
pub data Delivers : List Answer → List ℕ → List Answer → Type 0 where
  here : {rest : List Answer} → Delivers rest [] rest
  waits :
      {answers rest : List Answer} {bytes : List ℕ}
      → Delivers answers bytes rest
      → Delivers (again ∷ answers) bytes rest
  takes :
      {answers rest : List Answer} {bytes : List ℕ} (b : ℕ)
      → Delivers answers bytes rest
      → Delivers (byte b ∷ answers) (b ∷ bytes) rest

-- Bytes that end no line.
abbrev pub IsPlain : ℕ → Type 0
IsPlain b = (b ≢ 0) × (b ≢ 10)

Delivers-append :
    {answers mid rest : List Answer} {u v : List ℕ}
    → Delivers answers u mid
    → Delivers mid v rest
    → Delivers answers (u ++ v) rest
Delivers-append here e = e
Delivers-append (waits d) e = waits (Delivers-append d e)
Delivers-append (takes b d) e = takes b (Delivers-append d e)

-- The next character of what delivers at least one.
pub getch-char :
    {answers rest : List Answer} {bs : List ℕ} (b : ℕ)
    → Delivers answers (b ∷ bs) rest
    → (more : List Answer) × (getch answers ≡ char b more) × Delivers more bs rest
unfolding getch
getch-char b (waits d) = getch-char b d
getch-char b (takes c d) = (_, refl, d)

-- What `getch` has done.
data Gets (answers : List Answer) : Got → Type 0 where
  one : (b : ℕ) (rest : List Answer) → Delivers answers (b ∷ []) rest → Gets answers (char b rest)
  none_left : (rest : List Answer) → Gets answers (nothing rest)
  trouble : (rest : List Answer) → Gets answers (error rest)

getch-Gets : (answers : List Answer) → Gets answers (getch answers)
unfolding getch
getch-Gets [] = none_left []
getch-Gets (byte c ∷ answers) = one c answers (takes c here)
getch-Gets (ended ∷ answers) = none_left answers
getch-Gets (broken ∷ answers) = trouble answers
getch-Gets (again ∷ answers) = later (getch answers) (getch-Gets answers)
  where
    later : (g : Got) → Gets answers g → Gets (again ∷ answers) g
    later g (one b rest d) = one b rest (waits d)
    later g (none_left rest) = none_left rest
    later g (trouble rest) = trouble rest

-- Why the loop has ended with the string `v`: for each answer of the function, which bytes the file
-- had.
pub data Reason (nul_as_newline : Bool) (left : ℕ) (answers : List Answer) (v : List ℕ)
    (rest : List Answer) : Code → Type 0 where
  whole :
      (u : List ℕ) (b : ℕ)
      → Delivers answers (u ++ b ∷ []) rest
      → All IsPlain u
      → (b ≡ 10) ⊎ ((b ≡ 0) × (nul_as_newline ≡ true))
      → v ≡ u ++ 10 ∷ []
      → Reason nul_as_newline left answers v rest line
  cut :
      (before : List Answer)
      → Delivers answers v before
      → All IsPlain v
      → getch before ≡ nothing rest
      → Reason nul_as_newline left answers v rest closed
  torn :
      (before : List Answer)
      → Delivers answers v before
      → All IsPlain v
      → getch before ≡ error rest
      → Reason nul_as_newline left answers v rest failed
  null :
      Delivers answers (v ++ 0 ∷ []) rest
      → All IsPlain v
      → nul_as_newline ≡ false
      → Reason nul_as_newline left answers v rest failed
  long :
      Delivers answers v rest
      → All IsPlain v
      → length v ≡ left
      → Reason nul_as_newline left answers v rest failed

-- The loop has put the string `v` and a NUL behind the first `xlen` bytes of `x`.
pub data Ended (nul_as_newline : Bool) (x : List ℕ) (xlen left : ℕ) (answers : List Answer)
    : Code × List ℕ × List Answer → Type 0 where
  ends :
      (c : Code) (v x' : List ℕ) (rest : List Answer)
      → take (suc (xlen + length v)) x' ≡ take xlen x ++ (v ++ 0 ∷ [])
      → length x' ≡ length x
      → length v ≤ left
      → Reason nul_as_newline left answers v rest c
      → Ended nul_as_newline x xlen left answers (c, x', rest)

-- A byte more in front.
earlier :
    {nul : Bool} {left : ℕ} {answers mid rest : List Answer} {v : List ℕ} {c : Code} (b : ℕ)
    → Delivers answers (b ∷ []) mid
    → IsPlain b
    → Reason nul left mid v rest c
    → Reason nul (suc left) answers (b ∷ v) rest c
earlier b d p (whole u n e q k m) = whole (b ∷ u) n (Delivers-append d e) (p, q) k (ap (◌∷◌ b) m)
earlier b d p (cut before e q k) = cut before (Delivers-append d e) (p, q) k
earlier b d p (torn before e q k) = torn before (Delivers-append d e) (p, q) k
earlier b d p (null e q k) = null (Delivers-append d e) (p, q) k
earlier b d p (long e q k) = long (Delivers-append d e) (p, q) (ap suc k)

pub written :
    (x v x' : List ℕ) (xlen b : ℕ)
    → xlen < length x
    → take (suc (suc xlen + length v)) x' ≡ take (suc xlen) (set x xlen b) ++ (v ++ 0 ∷ [])
    → take (suc (xlen + length (b ∷ v))) x' ≡ take xlen x ++ ((b ∷ v) ++ 0 ∷ [])
written x v x' xlen b h e =
    let count : suc (xlen + suc (length v)) ≡ suc (suc xlen + length v) = omega arith in
    ap (λ k. take k x') count
    ∙ e
    ∙ ap (λ z. z ++ (v ++ 0 ∷ [])) (take-set-suc x xlen b h)
    ∙ append_assoc (take xlen x) (b ∷ []) (v ++ 0 ∷ [])

pub terminated :
    (x : List ℕ) (xlen : ℕ)
    → xlen < length x
    → take (suc (xlen + 0)) (set x xlen 0) ≡ take xlen x ++ 0 ∷ []
terminated x xlen h =
    let count : suc (xlen + 0) ≡ suc xlen = omega arith in
    ap (λ k. take k (set x xlen 0)) count ∙ take-set-suc x xlen 0 h

module _ (nul : Bool) (x : List ℕ) (xlen left : ℕ) (answers : List Answer)
    (room : suc (xlen + left) < length x) where
  continued :
      {r : Code × List ℕ × List Answer} {mid : List Answer} (b : ℕ)
      → Delivers answers (b ∷ []) mid
      → IsPlain b
      → Ended nul (set x xlen b) (suc xlen) left mid r
      → Ended nul x xlen (suc left) answers r
  continued b d p (ends c v x' rest known size short why) =
      ends c (b ∷ v) x' rest (written x v x' xlen b (omega (arith, room)) known)
        (size ∙ length-set x xlen b) (omega (arith, short)) (earlier b d p why)

  stopped :
      (c : Code) (rest : List Answer)
      → Reason nul (suc left) answers [] rest c
      → Ended nul x xlen (suc left) answers (c, set x xlen 0, rest)
  stopped c rest why =
      ends c [] (set x xlen 0) rest (terminated x xlen (omega (arith, room))) (length-set x xlen 0)
        (omega arith) why

  completed :
      (b : ℕ) (rest : List Answer)
      → Delivers answers (b ∷ []) rest
      → (b ≡ 10) ⊎ ((b ≡ 0) × (nul ≡ true))
      → Ended nul x xlen (suc left) answers (line, set (set x xlen 10) (suc xlen) 0, rest)
  completed b rest d e =
      ends line (10 ∷ []) _ rest
        (written x [] (set (set x xlen 10) (suc xlen) 0) xlen 10 (omega (arith, room))
          (terminated (set x xlen 10) (suc xlen) (omega (arith, room, length-set x xlen 10))))
        (length-set (set x xlen 10) (suc xlen) 0 ∙ length-set x xlen 10) (omega arith)
        (whole [] b d tt e refl)

  -- One round with a character.
  round :
      (ch : ℕ) (rest : List Answer) (more : Code × List ℕ × List Answer)
      → Delivers answers (ch ∷ []) rest
      → (IsPlain ch → Ended nul (set x xlen ch) (suc xlen) left rest more)
      → Ended nul x xlen (suc left) answers (
          if ch == 0 && not nul
          then (failed, set x xlen 0, rest)
          else if as_newline ch == 10
          then (line, set (set x xlen (as_newline ch)) (suc xlen) 0, rest)
          else more)
  unfolding as_newline
  round ch rest more d ih = elim (Bool-cases (ch == 0)) [
    | inl z ↦
        rw z
          (zero_case (subst (λ b. Delivers answers (b ∷ []) rest) ((==_iff ch 0).0 z) d) nul refl)
    | inr z ↦ elim (Bool-cases (ch == 10)) [
      | inl e ↦ rw (z, e, (==_iff ch 10).0 e) (completed ch rest d (inl ((==_iff ch 10).0 e)))
      | inr e ↦ rw (z, e) (continued ch d (plain z e) (ih (plain z e)))
    ]
  ]
    where
      plain : (ch == 0) ≡ false → (ch == 10) ≡ false → IsPlain ch
      plain z e = (ground (arith, z), ground (arith, e))

      zero_case :
          Delivers answers (0 ∷ []) rest
          → (t : Bool) → t ≡ nul
          → Ended nul x xlen (suc left) answers (
              if true && not t
              then (failed, set x xlen 0, rest)
              else (line, set (set x xlen 10) (suc xlen) 0, rest))
      zero_case d true e = completed 0 rest d (inr (refl, sym e))
      zero_case d false e = stopped failed rest (null d tt (sym e))

-- With a space that is large enough, the loop ends in one of the ways of `Reason`, and has left the
-- string that belongs to it.
pub getln_loop-Ended :
    (nul : Bool) (x : List ℕ) (xlen left : ℕ) (answers : List Answer)
    → xlen + left < length x
    → Ended nul x xlen left answers (getln_loop nul x xlen left answers)
unfolding getln_loop
getln_loop-Ended nul x xlen zero answers room =
    ends failed [] (set x xlen 0) answers (terminated x xlen (omega (arith, room)))
      (length-set x xlen 0) (omega arith) (long here tt refl)
getln_loop-Ended nul x xlen (suc left) answers room =
    by_answer (getch answers) refl (getch-Gets answers) (λ c rest.
      getln_loop-Ended nul (set x xlen c) (suc xlen) left rest
        (omega (arith, room, length-set x xlen c)))
  where
    P : Code × List ℕ × List Answer → Type 0
    P r = Ended nul x xlen (suc left) answers r

    by_answer :
        (g : Got)
        → getch answers ≡ g
        → Gets answers g
        → ((c : ℕ) (rest : List Answer)
            → Ended nul
                (set x xlen c)
                (suc xlen)
                left
                rest
                (getln_loop nul (set x xlen c) (suc xlen) left rest))
        → P (elim g [
          | nothing rest ↦ (closed, set x xlen 0, rest)
          | error rest ↦ (failed, set x xlen 0, rest)
          | char ch rest ↦
              if ch == 0 && not nul
              then (failed, set x xlen 0, rest)
              else if as_newline ch == 10
              then (line, set (set x xlen (as_newline ch)) (suc xlen) 0, rest)
              else getln_loop nul (set x xlen (as_newline ch)) (suc xlen) left rest
        ])
    by_answer (nothing rest) e (none_left rest') ih =
        stopped nul x xlen left answers (omega (arith, room)) closed rest (cut answers here tt e)
    by_answer (error rest) e (trouble rest') ih =
        stopped nul x xlen left answers (omega (arith, room)) failed rest (torn answers here tt e)
    by_answer (char ch rest) e (one b rest' d) ih =
        round nul x xlen left answers (omega (arith, room)) ch rest _ d (λ p.
          subst
            (λ c.
              Ended nul (set x xlen ch) (suc xlen) left rest
                (getln_loop nul (set x xlen c) (suc xlen) left rest))
            (sym (same p)) (ih ch rest))
      where
        same : IsPlain ch → as_newline ch ≡ ch
        same p = unfold as_newline in ground (arith, p.0)
