-- ===== src/AuthorizedKeys/Match.antt =====
-- What `findnameandkey` of subprocess_auth.c tells of a line.
use tinyssh.Common.{
  ℕ, ◌≡◌, ◌≢◌, refl, sym, ap, ap₂, ◌∙◌, List, [], ◌∷◌, ◌++◌, Bool, true, false, arith, All,
  All-append, length, drop, get_or, append_assoc, ◌==◌, ==_iff, ◌&&◌, subst, ◌⊎◌, inl, inr,
  Bool-cases, ◌↔◌, drop-append,
}
use tinyssh.Str.{str_len, str_start}
use tinyssh.Str.Laws.{Bool-differ}
use tinyssh.AuthorizedKeys.{findnameandkey, ends_key}

abbrev pub IsText : List ℕ → Type 0
IsText s = All (λ c. c ≢ 0) s

pub str_len_text : (s : List ℕ) → IsText s → str_len s ≡ length s
unfolding str_len
str_len_text [] h = refl
str_len_text (c ∷ s) (p, h) = ground (arith, p, str_len_text s h)

-- `str_start` with a string without NUL.
str_start_iff :
    (s t : List ℕ) → IsText t → (str_start s t ≡ true) ↔ ((rest : List ℕ) × (s ≡ t ++ rest))
unfolding str_start
str_start_iff s [] h = ((λ e. (s, refl)), (λ p. refl))
str_start_iff [] (x ∷ t) (p, h) = ((λ e. absurd (p ((==_iff x 0).0 e))), (λ (rest, e). absurd (cc)))
str_start_iff (c ∷ s) (x ∷ t) (p, h) = elim (Bool-cases (x == 0)) [
  | inl z ↦ absurd (p ((==_iff x 0).0 z))
  | inr z ↦ elim (Bool-cases (x == c)) [
    | inl e ↦
        rw (z, e)
          (
            (λ k.
                let (rest, q) = (str_start_iff s t h).0 k in
                (rest, ap₂ ◌∷◌ (sym ((==_iff x c).0 e)) q)),
            (λ (rest, q). (str_start_iff s t h).1 (rest, ap (drop 1) q)),
          )
    | inr e ↦
        rw (z, e)
          (
            (λ k. absurd (cc)),
            (λ (rest, q). absurd (Bool-differ ((==_iff x c).1 (sym (ap (λ l. get_or l 0 0) q))) e)),
          )
  ]
]

-- What may stand behind the key.
abbrev pub EndsKey : List ℕ → Type 0
EndsKey [] = Unit
EndsKey (c ∷ tail) = (c ≡ 32) ⊎ ((c ≡ 10) ⊎ (c ≡ 13))

-- The line has the name, a space and the key, and then ends or goes on behind a space.
pub record HasKey (keyname key s : List ℕ) : Type 0 where
  pub tail : List ℕ
  pub whole : s ≡ keyname ++ (32 ∷ (key ++ tail))
  pub end : EndsKey tail

-- A front without NUL ends before the first NUL.
before_nul :
    (a m s rest : List ℕ)
    → IsText a
    → a ++ m ≡ s ++ (0 ∷ rest)
    → (s' : List ℕ) × (s ≡ a ++ s') × (m ≡ s' ++ (0 ∷ rest))
before_nul [] m s rest h e = (s, refl, e)
before_nul (c ∷ a) m [] rest (p, h) e = absurd (p (ap (λ l. get_or l 0 0) e))
before_nul (c ∷ a) m (d ∷ s) rest (p, h) e =
    let (s', q, k) = before_nul a m s rest h (ap (drop 1) e) in
    (s', ap₂ ◌∷◌ (sym (ap (λ l. get_or l 0 0) e)) q, k)

ends_key-EndsKey :
    (tail rest : List ℕ)
    → IsText tail
    → (ends_key (get_or (tail ++ (0 ∷ rest)) 0 0) ≡ true) ↔ EndsKey tail
unfolding ends_key
ends_key-EndsKey [] rest h = ((λ e. tt), (λ e. refl))
ends_key-EndsKey (c ∷ tail) rest (p, h) = ((λ e. ground (arith, e, p)), (λ e. ground (arith, e)))

at_space : (m : List ℕ) → (get_or m 0 0 == 32) ≡ true → (m2 : List ℕ) × (m ≡ 32 ∷ m2)
at_space [] e = absurd (cc)
at_space (c ∷ m) e = (m, ap (λ d. d ∷ m) ((==_iff c 32).0 e))

and-true : (a b : Bool) → (a && b) ≡ true → (a ≡ true) × (b ≡ true)
and-true true b e = (refl, e)
and-true false b e = absurd (cc)

tail-IsText : (a b : List ℕ) → IsText (a ++ b) → IsText b
tail-IsText [] b h = h
tail-IsText (c ∷ a) b (p, h) = tail-IsText a b h

module _ (keyname key : List ℕ) (name_text : IsText keyname) (key_text : IsText key) where
  -- On a line in memory that its NUL ends, with a name and a key without NUL, `findnameandkey` tells
  -- exactly whether the line has them.
  pub findnameandkey-HasKey :
      (s rest : List ℕ)
      → IsText s
      → (findnameandkey keyname key (s ++ (0 ∷ rest)) ≡ true) ↔ HasKey keyname key s
  unfolding findnameandkey
  findnameandkey-HasKey s rest h = (there, back)
    where
      m : List ℕ
      m = s ++ (0 ∷ rest)

      there : findnameandkey keyname key m ≡ true → HasKey keyname key s
      there e =
          let (e1, f1) = and-true (str_start m keyname) _ e in
          let (m1, k1) = (str_start_iff m keyname name_text).0 e1 in
          let d1 : drop (str_len keyname) m ≡ m1 =
            ap (drop (str_len keyname)) k1
            ∙ drop-append keyname m1 (str_len keyname) (str_len_text keyname name_text) in
          let (e2, f2) = and-true _ _ f1 in
          let (m2, k2) = at_space (drop (str_len keyname) m) e2 in
          let (e3, f3) = and-true _ _ f2 in
          let (m3, k3) = (str_start_iff (drop 1 (drop (str_len keyname) m)) key key_text).0 e3 in
          let d3 : drop (str_len key) (drop 1 (drop (str_len keyname) m)) ≡ m3 =
            ap (drop (str_len key)) k3
            ∙ drop-append key m3 (str_len key) (str_len_text key key_text) in
          let whole : (keyname ++ (32 ∷ [])) ++ (key ++ m3) ≡ s ++ (0 ∷ rest) =
            append_assoc keyname (32 ∷ []) (key ++ m3)
            ∙ ap (λ z. keyname ++ (32 ∷ z)) (sym k3)
            ∙ ap (λ z. keyname ++ (32 ∷ drop 1 z)) k2
            ∙ ap (◌++◌ keyname) (sym k2 ∙ d1)
            ∙ sym k1 in
          found m3 whole (ap (λ z. ends_key (get_or z 0 0)) (sym d3) ∙ f3)
        where
          found :
              (m3 : List ℕ)
              → (keyname ++ (32 ∷ [])) ++ (key ++ m3) ≡ s ++ (0 ∷ rest)
              → ends_key (get_or m3 0 0) ≡ true
              → HasKey keyname key s
          found m3 whole f =
              let all = append_assoc (keyname ++ (32 ∷ [])) key m3 ∙ whole in
              let (s', q, k) =
                before_nul ((keyname ++ (32 ∷ [])) ++ key) m3 s rest
                  (All-append (λ c. c ≢ 0) (keyname ++ (32 ∷ [])) key
                    (All-append (λ c. c ≢ 0) keyname (32 ∷ []) name_text (ground arith, tt))
                    key_text)
                  all in
              record {
                tail = s';
                whole =
                    q
                    ∙ append_assoc (keyname ++ (32 ∷ [])) key s'
                    ∙ append_assoc keyname (32 ∷ []) (key ++ s');
                end =
                    (ends_key-EndsKey s' rest
                        (tail-IsText ((keyname ++ (32 ∷ [])) ++ key) s' (subst IsText q h))).0
                      (ap (λ z. ends_key (get_or z 0 0)) (sym k) ∙ f);
              }

      back : HasKey keyname key s → findnameandkey keyname key m ≡ true
      back r =
          let n : m ≡ keyname ++ (32 ∷ (key ++ (r.tail ++ (0 ∷ rest)))) =
            ap (λ z. z ++ (0 ∷ rest)) r.whole ∙ simp append_assoc refl in
          let d1 =
            ap (drop (str_len keyname)) n
            ∙ drop-append keyname (32 ∷ (key ++ (r.tail ++ (0 ∷ rest)))) (str_len keyname)
                (str_len_text keyname name_text) in
          let d3 =
            drop-append key (r.tail ++ (0 ∷ rest)) (str_len key) (str_len_text key key_text) in
          rw
            (
              (str_start_iff m keyname name_text).1 (_, n),
              d1,
              (str_start_iff (key ++ (r.tail ++ (0 ∷ rest))) key key_text).1 (_, refl),
              d3,
            )
            ((ends_key-EndsKey r.tail rest (
                tail-IsText key r.tail (
                  tail-IsText (keyname ++ (32 ∷ [])) (key ++ r.tail)
                    (subst IsText (r.whole ∙ simp append_assoc refl) h)))).1
              r.end)
