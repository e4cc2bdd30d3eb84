-- ===== src/Common/Lists.antt =====
-- Lists measured and indexed by native numbers, under the library's names.
use Prim.Native.Nat.{ℕ, zero, suc, ◌+◌, ◌-◌, ◌≤◌, ◌<◌, min}
use mathlib.Core.Path.{◌≡◌, refl, sym, ap, ◌∙◌}
use mathlib.Core.List.{List, [], ◌∷◌, ◌++◌}
use native.Mathlib.Omega.{arith}

module _ {ℓ} {A : Type ℓ} where
  abbrev pub length : List A → ℕ
  length [] = 0
  length (x ∷ xs) = suc (length xs)

  abbrev pub get_or : List A → ℕ → A → A
  get_or [] i d = d
  get_or (x ∷ xs) zero d = x
  get_or (x ∷ xs) (suc i) d = get_or xs i d

  -- A write out of bounds changes nothing.
  abbrev pub set : List A → ℕ → A → List A
  set [] i v = []
  set (x ∷ xs) zero v = v ∷ xs
  set (x ∷ xs) (suc i) v = x ∷ set xs i v

  abbrev pub take : ℕ → List A → List A
  take zero xs = []
  take (suc n) [] = []
  take (suc n) (x ∷ xs) = x ∷ take n xs

  abbrev pub drop : ℕ → List A → List A
  drop zero xs = xs
  drop (suc n) [] = []
  drop (suc n) (x ∷ xs) = drop n xs

  -- All elements have the property.
  abbrev pub All {κ} : (A → Type κ) → List A → Type κ
  All P [] = Unit {κ}
  All P (x ∷ xs) = P x × All P xs

module _ {ℓ} {A : Type ℓ} where
  pub length-append : (xs ys : List A) → length (xs ++ ys) ≡ length xs + length ys
  length-append [] ys = omega arith
  length-append (x ∷ xs) ys = omega (arith, length-append xs ys)

  pub length-set : (xs : List A) (i : ℕ) (v : A) → length (set xs i v) ≡ length xs
  length-set [] i v = refl
  length-set (x ∷ xs) zero v = refl
  length-set (x ∷ xs) (suc i) v = ap suc (length-set xs i v)

  pub length-take : (n : ℕ) (xs : List A) → length (take n xs) ≡ min n (length xs)
  length-take zero xs = omega arith
  length-take (suc n) [] = omega arith
  length-take (suc n) (x ∷ xs) = omega (arith, length-take n xs)

  pub length-drop : (n : ℕ) (xs : List A) → length (drop n xs) ≡ length xs - n
  length-drop zero xs = omega arith
  length-drop (suc n) [] = omega arith
  length-drop (suc n) (x ∷ xs) = omega (arith, length-drop n xs)

  pub take-append-drop : (n : ℕ) (xs : List A) → take n xs ++ drop n xs ≡ xs
  take-append-drop zero xs = refl
  take-append-drop (suc n) [] = refl
  take-append-drop (suc n) (x ∷ xs) = rw (take-append-drop n xs)

  pub take-length : (xs : List A) → take (length xs) xs ≡ xs
  take-length [] = refl
  take-length (x ∷ xs) = rw (take-length xs)

  pub take_all : (n : ℕ) (xs : List A) → length xs ≤ n → take n xs ≡ xs
  take_all zero [] h = refl
  take_all zero (x ∷ xs) h = absurd (omega arith)
  take_all (suc n) [] h = refl
  take_all (suc n) (x ∷ xs) h = rw (take_all n xs (omega arith))

  pub drop-append : (xs ys : List A) (n : ℕ) → n ≡ length xs → drop n (xs ++ ys) ≡ ys
  drop-append [] ys zero e = refl
  drop-append [] ys (suc n) e = absurd (omega arith)
  drop-append (x ∷ xs) ys zero e = absurd (omega arith)
  drop-append (x ∷ xs) ys (suc n) e = drop-append xs ys n (omega arith)

  pub take-append : (xs ys : List A) (n : ℕ) → n ≡ length xs → take n (xs ++ ys) ≡ xs
  take-append [] ys zero e = refl
  take-append [] ys (suc n) e = absurd (omega arith)
  take-append (x ∷ xs) ys zero e = absurd (omega arith)
  take-append (x ∷ xs) ys (suc n) e = rw (take-append xs ys n (omega arith))

  -- The part of a prefix that is longer than the first list.
  pub take-append_add : (xs ys : List A) (n : ℕ) → take (length xs + n) (xs ++ ys) ≡ xs ++ take n ys
  take-append_add [] ys n = ap (λ k. take k ys) (omega arith)
  take-append_add (x ∷ xs) ys n =
      ap (λ k. take k (x ∷ xs ++ ys)) (shift (length xs)) ∙ ap (◌∷◌ x) (take-append_add xs ys n)
    where
      shift : (k : ℕ) → suc k + n ≡ suc (k + n)
      shift k = omega arith

  pub drop-nil : (n : ℕ) → drop {A = A} n [] ≡ []
  drop-nil zero = refl
  drop-nil (suc n) = refl

  pub drop-drop : (m n : ℕ) (xs : List A) → drop m (drop n xs) ≡ drop (n + m) xs
  drop-drop m zero xs = ap (λ k. drop k xs) (omega arith)
  drop-drop m (suc n) [] = drop-nil m ∙ sym (drop-nil (suc n + m))
  drop-drop m (suc n) (x ∷ xs) = drop-drop m n xs ∙ ap (λ k. drop k (x ∷ xs)) shift
    where
      shift : suc (n + m) ≡ suc n + m
      shift = omega arith

  pub take-drop : (n k : ℕ) (xs : List A) → take n (drop k xs) ≡ drop k (take (k + n) xs)
  take-drop n zero xs = ap (λ j. take j xs) (omega arith)
  take-drop n (suc k) [] = take_nil n ∙ sym (ap (drop (suc k)) (take_nil (suc k + n)))
    where
      take_nil : (j : ℕ) → take {A = A} j [] ≡ []
      take_nil zero = refl
      take_nil (suc j) = refl
  take-drop n (suc k) (x ∷ xs) =
      take-drop n k xs ∙ ap (λ j. drop (suc k) (take j (x ∷ xs))) {x = suc (k + n)} (omega arith)

  pub take-take : (m n : ℕ) (xs : List A) → m ≤ n → take m (take n xs) ≡ take m xs
  take-take zero n xs h = refl
  take-take (suc m) zero xs h = absurd (omega arith)
  take-take (suc m) (suc n) [] h = refl
  take-take (suc m) (suc n) (x ∷ xs) h = rw (take-take m n xs (omega arith))

  -- A write in the middle of a list.
  pub take-set_le : (xs : List A) (n i : ℕ) (v : A) → n ≤ i → take n (set xs i v) ≡ take n xs
  take-set_le xs zero i v h = refl
  take-set_le [] (suc n) i v h = refl
  take-set_le (x ∷ xs) (suc n) zero v h = absurd (omega arith)
  take-set_le (x ∷ xs) (suc n) (suc i) v h = rw (take-set_le xs n i v (omega arith))

  pub take-set-suc :
      (xs : List A) (i : ℕ) (v : A)
      → i < length xs
      → take (suc i) (set xs i v) ≡ take i xs ++ v ∷ []
  take-set-suc [] i v h = absurd (omega arith)
  take-set-suc (x ∷ xs) zero v h = refl
  take-set-suc (x ∷ xs) (suc i) v h = rw (take-set-suc xs i v (omega arith))

  pub drop-set_lt : (xs : List A) (n i : ℕ) (v : A) → i < n → drop n (set xs i v) ≡ drop n xs
  drop-set_lt xs zero i v h = absurd (omega arith)
  drop-set_lt [] (suc n) i v h = refl
  drop-set_lt (x ∷ xs) (suc n) zero v h = refl
  drop-set_lt (x ∷ xs) (suc n) (suc i) v h = drop-set_lt xs n i v (omega arith)

  pub drop-step :
      (xs : List A) (i : ℕ) (d : A) → i < length xs → drop i xs ≡ get_or xs i d ∷ drop (suc i) xs
  drop-step [] i d h = absurd (omega arith)
  drop-step (x ∷ xs) zero d h = refl
  drop-step (x ∷ xs) (suc i) d h = drop-step xs i d (omega arith)

  pub set-append :
      (xs ys : List A) (i n : ℕ) (v : A) → n ≡ length xs + i → set (xs ++ ys) n v ≡ xs ++ set ys i v
  set-append [] ys i n v e = ap (λ k. set ys k v) (omega arith)
  set-append (x ∷ xs) ys i zero v e = absurd (omega arith)
  set-append (x ∷ xs) ys i (suc n) v e = rw (set-append xs ys i n v (omega arith))

  pub get_or-append :
      (xs ys : List A) (i n : ℕ) (d : A) → n ≡ length xs + i → get_or (xs ++ ys) n d ≡ get_or ys i d
  get_or-append [] ys i n d e = ap (λ k. get_or ys k d) (omega arith)
  get_or-append (x ∷ xs) ys i zero d e = absurd (omega arith)
  get_or-append (x ∷ xs) ys i (suc n) d e = get_or-append xs ys i n d (omega arith)

  pub drop-append_add :
      (xs ys : List A) (i n : ℕ) → n ≡ length xs + i → drop n (xs ++ ys) ≡ drop i ys
  drop-append_add [] ys i n e = ap (λ k. drop k ys) (omega arith)
  drop-append_add (x ∷ xs) ys i zero e = absurd (omega arith)
  drop-append_add (x ∷ xs) ys i (suc n) e = drop-append_add xs ys i n (omega arith)

  pub get_or-set_self :
      (xs : List A) (i : ℕ) (v d : A) → i < length xs → get_or (set xs i v) i d ≡ v
  get_or-set_self [] i v d h = absurd (omega arith)
  get_or-set_self (x ∷ xs) zero v d h = refl
  get_or-set_self (x ∷ xs) (suc i) v d h = get_or-set_self xs i v d (omega arith)

  pub get_or-take : (n i : ℕ) (xs : List A) (d : A) → i < n → get_or (take n xs) i d ≡ get_or xs i d
  get_or-take zero i xs d h = absurd (omega arith)
  get_or-take (suc n) i [] d h = refl
  get_or-take (suc n) zero (x ∷ xs) d h = refl
  get_or-take (suc n) (suc i) (x ∷ xs) d h = get_or-take n i xs d (omega arith)

  pub get_or-drop : (n i : ℕ) (xs : List A) (d : A) → get_or (drop n xs) i d ≡ get_or xs (n + i) d
  get_or-drop zero i xs d = ap (λ k. get_or xs k d) (omega arith)
  get_or-drop (suc n) i [] d = refl
  get_or-drop (suc n) i (x ∷ xs) d = get_or-drop n i xs d ∙ ap (λ k. get_or (x ∷ xs) k d) shift
    where
      shift : suc (n + i) ≡ suc n + i
      shift = omega arith

module _ {ℓ κ} {A : Type ℓ} (P : A → Type κ) where
  pub All-append : (xs ys : List A) → All P xs → All P ys → All P (xs ++ ys)
  All-append [] ys h k = k
  All-append (x ∷ xs) ys (p, h) k = (p, All-append xs ys h k)

  pub All-take : (n : ℕ) (xs : List A) → All P xs → All P (take n xs)
  All-take zero xs h = tt
  All-take (suc n) [] h = tt
  All-take (suc n) (x ∷ xs) (p, h) = (p, All-take n xs h)

  pub All-drop : (n : ℕ) (xs : List A) → All P xs → All P (drop n xs)
  All-drop zero xs h = h
  All-drop (suc n) [] h = tt
  All-drop (suc n) (x ∷ xs) (p, h) = All-drop n xs h
