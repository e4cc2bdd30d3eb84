-- ===== src/Str/Laws.antt =====
-- What `str_equaln` of str.c tells of the bytes.
use tinyssh.Common.{
  ℕ, zero, suc, ◌+◌, ◌≤◌, ◌≡◌, refl, sym, ap, List, [], ◌∷◌, arith, length, take, drop, get_or,
  length-take, drop-step, Bool, true, false, ◌==◌, if◌then◌else◌, Bool-cases, ==_iff, ◌↔◌, inl, inr,
  subst, get_or-take,
}
use tinyssh.Str.{str_len, str_equaln, equal_loop}

-- The bytes of a C string before its NUL.
abbrev pub text : List ℕ → List ℕ
text x = take (str_len x) x

pub str_len-le : (x : List ℕ) → str_len x ≤ length x
unfolding str_len
str_len-le [] = omega arith
str_len-le (c ∷ s) = ground (arith, str_len-le s)

pub Bool-differ : {b : Bool} → b ≡ true → ¬ (b ≡ false)
Bool-differ e f = cc

equal_loop_iff :
    (y x : List ℕ) (i left : ℕ)
    → i + left ≤ length y
    → i + left ≤ length x
    → (equal_loop y x i left ≡ true) ↔ (take left (drop i y) ≡ take left (drop i x))
unfolding equal_loop
equal_loop_iff y x i zero h k = ((λ e. refl), (λ e. refl))
equal_loop_iff y x i (suc left) h k =
    let later = moved (equal_loop_iff y x (i + 1) left (omega (arith, h)) (omega (arith, k))) in
    rw (drop-step y i 0 (omega (arith, h)), drop-step x i 0 (omega (arith, k)))
      (elim (Bool-cases (get_or y i 0 == get_or x i 0)) [
        | inl same ↦
            rw (same, (==_iff (get_or y i 0) (get_or x i 0)).0 same)
              ((λ e. ap (◌∷◌ (get_or x i 0)) (later.0 e)), (λ e. later.1 (ap (drop 1) e)))
        | inr other ↦ rw other (
          (λ e. absurd (cc)),
          (λ e. absurd (
              Bool-differ ((==_iff (get_or y i 0) (get_or x i 0)).1 (ap (λ z. get_or z 0 0) e))
                other)),
        )
      ])
  where
    moved :
        ((equal_loop y x (i + 1) left ≡ true)
          ↔ (take left (drop (i + 1) y) ≡ take left (drop (i + 1) x)))
        → ((equal_loop y x (i + 1) left ≡ true)
            ↔ (take left (drop (suc i) y) ≡ take left (drop (suc i) x)))
    moved =
        subst
          (λ j.
            (equal_loop y x (i + 1) left ≡ true) ↔ (take left (drop j y) ≡ take left (drop j x)))
          {x = i + 1} {y = suc i} (omega arith)

equal_loop-take :
    (y x : List ℕ) (n i left : ℕ)
    → i + left ≤ n
    → n ≤ length y
    → equal_loop (take n y) x i left ≡ equal_loop y x i left
unfolding equal_loop
equal_loop-take y x n i zero h k = refl
equal_loop-take y x n i (suc left) h k =
    rw
      (
        get_or-take n i y 0 (omega (arith, h)),
        equal_loop-take y x n (i + 1) left (omega (arith, h)) k,
      )
      refl

pub str_equaln-take :
    (y x : List ℕ) (n : ℕ) → n ≤ length y → str_equaln (take n y) n x ≡ str_equaln y n x
unfolding str_equaln
str_equaln-take y x n h =
    ap (λ t. if str_len x == n then t else false) (equal_loop-take y x n 0 n (omega arith) h)

pub str_equaln_iff :
    (y x : List ℕ) (n : ℕ) → n ≤ length y → (str_equaln y n x ≡ true) ↔ (take n y ≡ text x)
unfolding str_equaln
str_equaln_iff y x n h = elim (Bool-cases (str_len x == n)) [
  | inl same ↦
      let e : str_len x ≡ n = (==_iff (str_len x) n).0 same in
      rw (same, e) (equal_loop_iff y x 0 n (omega (arith, h)) (omega (arith, sym e, str_len-le x)))
  | inr other ↦ rw other (
    (λ e. absurd (cc)),
    (λ e. absurd (
        Bool-differ
          ((==_iff (str_len x) n).1 (
            omega
              (arith, ap length e, length-take n y, length-take (str_len x) x, str_len-le x, h)))
          other)),
  )
]
