-- ===== src/Algorithms/Choice.antt =====
-- Which entry of a table sshcrypto_kex.c, sshcrypto_key.c and sshcrypto_cipher.c choose.
use tinyssh.Common.{
  ℕ, ◌+◌, ◌≤◌, ◌<◌, ◌≡◌, refl, sym, ap, ◌∙◌, List, [], ◌∷◌, arith, length, take, drop, length-take,
  length-drop, Bool, true, false, Bool-cases, Option, none, some, ◌⊎◌, inl, inr, ok, subst,
  take_all,
}
use tinyssh.Buf.{limit}
use tinyssh.Str.{str_equaln}
use tinyssh.Str.Laws.{text, str_equaln_iff, Bool-differ, str_equaln-take}
use tinyssh.Names.{scan}
use tinyssh.Names.Items.{items, walk, scan-walk}
use tinyssh.Algorithms.{find_name}

-- A state after a step for each of the names.
abbrev pub after : {S : Type 0} → (S → S) → List (List ℕ) → S → S
after step [] s = s
after step (x ∷ xs) s = after step xs (step s)

module _ {A : Type 0} (enabled : A → Bool) (name : A → List ℕ) where
  -- The first enabled entry of a table that is called `x`, if there is one.
  pub data First (x : List ℕ) : List A → Option A → Type 0 where
    absent : First x [] none
    found :
        {a : A} {rest : List A} → enabled a ≡ true → text (name a) ≡ x → First x (a ∷ rest) (some a)
    passed :
        {a : A} {rest : List A} {o : Option A}
        → (enabled a ≡ false) ⊎ ¬ (text (name a) ≡ x)
        → First x rest o
        → First x (a ∷ rest) o

  pub find_name-First :
      (table : List A) (y : List ℕ) (n : ℕ)
      → n ≤ length y
      → First (take n y) table (find_name enabled name table y n)
  unfolding find_name
  find_name-First [] y n h = absent
  find_name-First (a ∷ rest) y n h = elim (Bool-cases (enabled a)) [
    | inl on ↦ rw on (elim (Bool-cases (str_equaln y n (name a))) [
      | inl same ↦ rw same (found on (sym ((str_equaln_iff y (name a) n h).0 same)))
      | inr other ↦ rw other (
          passed (inr (λ e. absurd (Bool-differ ((str_equaln_iff y (name a) n h).1 (sym e)) other)))
            (find_name-First rest y n h))
    ])
    | inr off ↦ rw off (passed (inl off) (find_name-First rest y n h))
  ]

  find_name-take :
      (table : List A) (y : List ℕ) (n : ℕ)
      → n ≤ length y
      → find_name enabled name table (take n y) n ≡ find_name enabled name table y n
  unfolding find_name
  find_name-take [] y n h = refl
  find_name-take (a ∷ rest) y n h =
      rw (find_name-take rest y n h, str_equaln-take y (name a) n h) refl

  -- The first of the names that an enabled entry has, with the names before it that none has, and the
  -- first entry of that name.
  pub data Preferred (table : List A) : List (List ℕ) → List (List ℕ) → Option A → Type 0 where
    exhausted : Preferred table [] [] none
    preferred :
        {x : List ℕ} {xs : List (List ℕ)} {a : A}
        → First x table (some a)
        → Preferred table (x ∷ xs) [] (some a)
    unknown :
        {x : List ℕ} {xs before : List (List ℕ)} {o : Option A}
        → First x table none
        → Preferred table xs before o
        → Preferred table (x ∷ xs) (x ∷ before) o

  -- The walk over the names, which goes on with `step` past a name that no entry has.
  module _ {S R : Type 0} (table : List A) (step : S → S) (give : S → A → R) where
    abbrev pub react : S → Option A → S ⊎ R
    react s none = inl (step s)
    react s (some a) = inr (give s a)

    abbrev visit : S → List ℕ → S ⊎ R
    visit s x = react s (find_name enabled name table x (length x))

    pub data Ends (names : List (List ℕ)) (s : S) : S ⊎ R → Type 0 where
      ends_inl :
          {before : List (List ℕ)}
          → Preferred table names before none
          → Ends names s (inl (after step before s))
      ends_inr :
          {before : List (List ℕ)} {a : A}
          → Preferred table names before (some a)
          → Ends names s (inr (give (after step before s) a))

    Ends-unknown :
        (x : List ℕ) (xs : List (List ℕ)) (s : S) {r : S ⊎ R}
        → First x table none
        → Ends xs (step s) r
        → Ends (x ∷ xs) s r
    Ends-unknown x xs s u (ends_inl q) = ends_inl (unknown u q)
    Ends-unknown x xs s u (ends_inr q) = ends_inr (unknown u q)

    walk-Ends : (xs : List (List ℕ)) (s : S) → Ends xs s (walk visit xs s)
    walk-Ends [] s = ends_inl exhausted
    walk-Ends (x ∷ xs) s =
        met (find_name enabled name table x (length x))
          (subst (λ z. First z table (find_name enabled name table x (length x)))
            (take_all (length x) x (omega arith))
            (find_name-First table x (length x) (omega arith)))
          (walk-Ends xs (step s))
      where
        met :
            (o : Option A)
            → First x table o
            → Ends xs (step s) (walk visit xs (step s))
            → Ends (x ∷ xs) s (elim (react s o) [ inl t ↦ walk visit xs t | inr r ↦ inr r ])
        met none f e = Ends-unknown x xs s f e
        met (some a) f e = ends_inr (preferred f)

    -- What a loop over `stringparser` that looks the names up ends with.
    pub scan-Ends :
        (body : S → List ℕ → ℕ → S ⊎ R) (m : List ℕ) (len : ℕ) (s : S)
        → ((s : S) (x : List ℕ) (xlen : ℕ)
            → body s x xlen ≡ react s (find_name enabled name table x xlen))
        → len ≤ length m
        → len < limit
        → (r : S ⊎ R) × (scan body m len s ≡ ok r) × Ends (items (take len m)) s r
    scan-Ends body m len s same fits small = (
      walk visit (items (take len m)) s,
      scan-walk body visit m len fits small
          (λ t at xlen h. same t (drop at m) xlen ∙ ap (react t) (local at xlen h)) s,
      walk-Ends (items (take len m)) s,
    )
      where
        local :
            (at xlen : ℕ)
            → at + xlen ≤ len
            → find_name enabled name table (drop at m) xlen
              ≡ find_name enabled name table
                  (take xlen (drop at m))
                  (length (take xlen (drop at m)))
        local at xlen h =
            sym (find_name-take table (drop at m) xlen (omega (arith, h, fits, length-drop at m)))
            ∙ ap (find_name enabled name table (take xlen (drop at m))) {x = xlen}
                {y = length (take xlen (drop at m))}
                (omega (arith, h, fits, length-drop at m, length-take xlen (drop at m)))
