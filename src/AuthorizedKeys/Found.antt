-- ===== src/AuthorizedKeys/Found.antt =====
-- The search of subprocess_auth.c ends, and what it has found is a line of the file.
use tinyssh.Common.{
  ℕ, zero, suc, ◌+◌, ◌≤◌, ◌<◌, ◌≡◌, refl, sym, ap, ◌∙◌, List, [], ◌∷◌, ◌++◌, Bool, true, false,
  arith, All, All-append, length, length-append, length-set, take, drop, set, append_assoc,
  take-append-drop, Option, some, ◌⊎◌, inl, inr, ◌≢◌, if◌then◌else◌, Bool-cases, subst,
}
use tinyssh.Getln.{
  Answer, Code, line, closed, failed, nothing, getch, getln_any, getln_nul_as_newline,
}
use tinyssh.Getln.Lines.{Delivers, here, waits, takes, IsPlain, whole, cut, Ended, ends}
use tinyssh.Getln.Reads.{getln_any-Ended}
use tinyssh.AuthorizedKeys.{findnameandkey, search_lines, subprocess_auth_authorizedkeys}
use tinyssh.AuthorizedKeys.Match.{IsText, HasKey, findnameandkey-HasKey}

-- A line of the file has the name and the key: one with its end, the last one without, or a later.
pub data InFile (keyname key : List ℕ) : List Answer → Type 0 where
  complete :
      {answers rest : List Answer} (u : List ℕ) (b : ℕ)
      → Delivers answers (u ++ b ∷ []) rest
      → All IsPlain u
      → (b ≡ 10) ⊎ (b ≡ 0)
      → HasKey keyname key (u ++ 10 ∷ [])
      → InFile keyname key answers
  last :
      {answers before rest : List Answer} (u : List ℕ)
      → Delivers answers u before
      → All IsPlain u
      → getch before ≡ nothing rest
      → HasKey keyname key u
      → InFile keyname key answers
  further :
      {answers rest : List Answer} (u : List ℕ) (b : ℕ)
      → Delivers answers (u ++ b ∷ []) rest
      → All IsPlain u
      → (b ≡ 10) ⊎ (b ≡ 0)
      → InFile keyname key rest
      → InFile keyname key answers

length-Delivers :
    {answers rest : List Answer} {bytes : List ℕ}
    → Delivers answers bytes rest
    → length rest + length bytes ≤ length answers
length-Delivers here = omega arith
length-Delivers (waits d) = omega (arith, length-Delivers d)
length-Delivers (takes b d) = omega (arith, length-Delivers d)

plain-IsText : (u : List ℕ) → All IsPlain u → IsText u
plain-IsText [] h = tt
plain-IsText (c ∷ u) ((p, q), h) = (p, plain-IsText u h)

either_end : {b : ℕ} → (b ≡ 10) ⊎ ((b ≡ 0) × (true ≡ true)) → (b ≡ 10) ⊎ (b ≡ 0)
either_end (inl e) = inl e
either_end (inr (e, t)) = inr e

module _ (keyname key : List ℕ) (name_text : IsText keyname) (key_text : IsText key) where
  -- What the search answers, and what a hit means.
  abbrev Answers : List Answer → Option Bool → Type 0
  Answers answers o = (r : Bool) × (o ≡ some r) × (r ≡ true → InFile keyname key answers)

  -- The string of a call, in memory, has the key where the test says so.
  known :
      (v buf : List ℕ)
      → take (suc (0 + length v)) buf ≡ v ++ 0 ∷ []
      → IsText v
      → findnameandkey keyname key buf ≡ true
      → HasKey keyname key v
  known v buf e h t =
      (findnameandkey-HasKey keyname key name_text key_text v (drop (suc (0 + length v)) buf) h).0
        (ap (findnameandkey keyname key) (sym memory) ∙ t)
    where
      memory : buf ≡ v ++ (0 ∷ drop (suc (0 + length v)) buf)
      memory =
          sym (take-append-drop (suc (0 + length v)) buf)
          ∙ ap (λ z. z ++ drop (suc (0 + length v)) buf) e
          ∙ append_assoc v (0 ∷ []) (drop (suc (0 + length v)) buf)

  search_lines-InFile :
      (fuel : ℕ) (buf : List ℕ) (most : ℕ) (answers : List Answer)
      → suc most ≤ length buf
      → length answers < fuel
      → Answers answers (search_lines keyname key buf (suc most) fuel answers)
  unfolding search_lines getln_nul_as_newline
  search_lines-InFile zero buf most answers room fuel = absurd (omega (arith, fuel))
  search_lines-InFile (suc left) buf most answers room fuel =
      by_line (getln_any true buf (suc most) answers) (getln_any-Ended true buf most answers room)
        (λ buf' rest room' shorter. search_lines-InFile left buf' most rest room' shorter)
    where
      by_line :
          (r : Code × List ℕ × List Answer)
          → Ended true (set buf 0 0) 0 most answers r
          → ((buf' : List ℕ) (rest : List Answer)
              → suc most ≤ length buf'
              → length rest < left
              → Answers rest (search_lines keyname key buf' (suc most) left rest))
          → Answers answers (elim r.0 [
            | failed ↦ some false
            | closed ↦ some (findnameandkey keyname key r.1)
            | line ↦
                if findnameandkey keyname key r.1
                then some true
                else search_lines keyname key r.1 (suc most) left r.2
          ])
      by_line r (ends failed v buf' rest e size short why) ih = (false, refl, λ t. absurd (cc))
      by_line r (ends closed v buf' rest e size short (cut before d plain stop)) ih = (
        findnameandkey keyname key buf',
        refl,
        λ t. last v d plain stop (known v buf' e (plain-IsText v plain) t),
      )
      by_line r (ends line v buf' rest e size short (whole u b d plain end same)) ih =
          elim (Bool-cases (findnameandkey keyname key buf')) [
            | inl t ↦ rw t (
              true,
              refl,
              λ q. complete u b d plain (either_end end) (
                  subst (HasKey keyname key) same (
                    known v buf' e
                      (subst IsText (sym same) (
                        All-append (λ c. c ≢ 0) u (10 ∷ []) (plain-IsText u plain)
                          (ground arith, tt)))
                      t)),
            )
            | inr t ↦ rw t (
                later (
                  ih buf' rest (omega (arith, size, room, length-set buf 0 0))
                    (omega (arith, fuel, length-Delivers d, length-append u (b ∷ [])))))
          ]
        where
          later : {o : Option Bool} → Answers rest o → Answers answers o
          later (q, f, k) = (q, f, λ t. further u b d plain (either_end end) (k t))

  -- The search of a file, with a buffer of the size that it is given or more and a name and a key
  -- without NUL, ends with 0 or 1, and with 1 only where a line of the file, counted from its start,
  -- begins with the name of the key's type, a space and the key, and then ends or goes on behind a
  -- space or a carriage return. A NUL ends a line like a newline; the last line may have no end.
  pub subprocess_auth_authorizedkeys-InFile :
      (buf : List ℕ) (most : ℕ) (answers : List Answer)
      → suc most ≤ length buf
      → (r : Bool) × (subprocess_auth_authorizedkeys keyname key buf (suc most) answers ≡ some r)
        × (r ≡ true → InFile keyname key answers)
  unfolding subprocess_auth_authorizedkeys
  subprocess_auth_authorizedkeys-InFile buf most answers room =
      search_lines-InFile (suc (length answers)) buf most answers room (omega arith)
