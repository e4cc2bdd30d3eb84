-- ===== src/Names/Items.antt =====
-- The items of a comma-separated list, and that the loop over stringparser.c meets them in order.
use tinyssh.Common.{
  ℕ, zero, suc, ◌+◌, ◌-◌, ◌≤◌, ◌<◌, ◌≡◌, refl, sym, ap, ◌∙◌, List, [], ◌∷◌, ◌++◌, append_assoc,
  append-nil, arith, length, take, drop, get_or, length-drop, length-take, drop-drop, take-drop,
  drop-step, drop-nil, take-take, get_or-take, ◌==◌, leb, if◌then◌else◌, Option, none, some, ◌⊎◌,
  inl, inr, ok, Bool-cases, leb→le, leb-false→lt,
}
use tinyssh.Buf.{limit}
use tinyssh.Names.{find_comma, next_item, stringparser, scan_loop, scan}

-- The bytes up to the first comma, and those behind it.
abbrev pub piece : List ℕ → List ℕ
piece [] = []
piece (c ∷ cs) = if c == 44 then [] else c ∷ piece cs

abbrev pub behind : List ℕ → List ℕ
behind [] = []
behind (c ∷ cs) = if c == 44 then cs else behind cs

-- An item, unless it is empty.
abbrev pub keep : List ℕ → List (List ℕ) → List (List ℕ)
keep [] rest = rest
keep (c ∷ cs) rest = (c ∷ cs) ∷ rest

-- The non-empty items of a list; `cur` is what has been read of the current one.
unfoldable pub items_from : List ℕ → List ℕ → List (List ℕ)
items_from cur [] = keep cur []
items_from cur (c ∷ cs) =
    if c == 44 then keep cur (items_from [] cs) else items_from (cur ++ (c ∷ [])) cs

abbrev pub items : List ℕ → List (List ℕ)
items s = items_from [] s

items_from-piece :
    (s cur : List ℕ) → items_from cur s ≡ keep (cur ++ piece s) (items_from [] (behind s))
unfolding items_from
items_from-piece [] cur = ap (λ z. keep z []) (sym (append-nil cur))
items_from-piece (c ∷ cs) cur = elim (Bool-cases (c == 44)) [
  | inl comma ↦ rw (comma, append-nil cur)
  | inr other ↦ rw other (
      items_from-piece cs (cur ++ (c ∷ []))
      ∙ ap (λ z. keep z (items_from [] (behind cs))) (append_assoc cur (c ∷ []) (piece cs)))
]

length-piece-le : (s : List ℕ) → length (piece s) ≤ length s
length-piece-le [] = omega arith
length-piece-le (c ∷ cs) = ground (arith, length-piece-le cs)

take-piece : (s : List ℕ) → take (length (piece s)) s ≡ piece s
take-piece [] = refl
take-piece (c ∷ cs) = ground (arith, take-piece cs)

drop-piece : (s : List ℕ) → drop (length (piece s) + 1) s ≡ behind s
drop-piece [] = drop-nil 1
drop-piece (c ∷ cs) = elim (Bool-cases (c == 44)) [
  | inl comma ↦ rw comma refl
  | inr other ↦ rw other (
      ap (λ k. drop k (c ∷ cs)) {x = suc (length (piece cs)) + 1} {y = suc (length (piece cs) + 1)}
        (omega arith)
      ∙ drop-piece cs)
]

module _ (m : List ℕ) (len : ℕ) (fits : len ≤ length m) where
  -- What is left of the list from `pos` on.
  abbrev left_from : ℕ → List ℕ
  left_from pos = drop pos (take len m)

  length-left_from : (pos : ℕ) → length (left_from pos) ≡ len - pos
  length-left_from pos = omega (arith, length-drop pos (take len m), length-take len m, fits)

  find_comma_lem :
      (i left : ℕ) → i + left ≡ len → find_comma m i left ≡ i + length (piece (left_from i))
  unfolding find_comma
  find_comma_lem i zero h = omega (arith, length-piece-le (left_from i), length-left_from i)
  find_comma_lem i (suc left) h = rw step (elim (Bool-cases (get_or m i 0 == 44)) [
    | inl comma ↦ rw comma (omega arith)
    | inr other ↦ rw other (find_comma_lem (i + 1) left (omega arith) ∙ moved)
  ])
    where
      step : left_from i ≡ get_or m i 0 ∷ left_from (suc i)
      step =
          drop-step (take len m) i 0 (omega (arith, length-take len m, fits))
          ∙ ap (λ x. x ∷ left_from (suc i)) (get_or-take len i m 0 (omega (arith, h)))

      moved :
          i + 1 + length (piece (left_from (i + 1))) ≡ i + suc (length (piece (left_from (suc i))))
      moved =
          omega
            (arith, ap (λ j. length (piece (left_from j))) {x = i + 1} {y = suc i} (omega arith))

  -- How `next_item` ends.
  data Met (pos : ℕ) : Option (ℕ × ℕ × ℕ) → Type 0 where
    ended : items (left_from pos) ≡ [] → Met pos none
    met :
        (at xlen next : ℕ)
        → pos < next
        → next ≤ len + 1
        → at + xlen ≤ len
        → items (left_from pos) ≡ take xlen (drop at m) ∷ items (left_from next)
        → Met pos (some (at, xlen, next))

  -- One piece off the list.
  module _ (pos : ℕ) where
    abbrev size : ℕ
    size = length (piece (left_from pos))

    rest_behind : behind (left_from pos) ≡ left_from (pos + size + 1)
    rest_behind =
        sym (drop-piece (left_from pos))
        ∙ drop-drop (size + 1) pos (take len m)
        ∙ ap left_from {x = pos + (size + 1)} {y = pos + size + 1} (omega arith)

    items_behind :
        items (left_from pos) ≡ keep (piece (left_from pos)) (items (left_from (pos + size + 1)))
    items_behind =
        items_from-piece (left_from pos) []
        ∙ ap (λ z. keep (piece (left_from pos)) (items z)) rest_behind

    size-le : pos ≤ len → pos + size ≤ len
    size-le h = omega (arith, h, length-piece-le (left_from pos), length-left_from pos)

    piece_read : pos ≤ len → take size (drop pos m) ≡ piece (left_from pos)
    piece_read h =
        take-drop size pos m
        ∙ ap (drop pos) (sym (take-take (pos + size) len m (size-le h)))
        ∙ sym (take-drop size pos (take len m))
        ∙ take-piece (left_from pos)

  keep_empty : (s : List ℕ) (r : List (List ℕ)) → length s ≡ 0 → keep s r ≡ r
  keep_empty [] r h = refl
  keep_empty (c ∷ cs) r h = absurd (omega (arith, h))

  keep_some : (s : List ℕ) (r : List (List ℕ)) → 0 < length s → keep s r ≡ s ∷ r
  keep_some [] r h = absurd (omega (arith, h))
  keep_some (c ∷ cs) r h = refl

  no_items : (s : List ℕ) → length s ≡ 0 → items s ≡ []
  unfolding items_from
  no_items [] h = refl
  no_items (c ∷ cs) h = absurd (omega (arith, h))

  Met-past : (pos : ℕ) → len ≤ pos → items (left_from pos) ≡ []
  Met-past pos h = no_items (left_from pos) (omega (arith, h, length-left_from pos))

  Met-later :
      (pos next : ℕ) {o : Option (ℕ × ℕ × ℕ)}
      → pos < next
      → items (left_from pos) ≡ items (left_from next)
      → Met next o
      → Met pos o
  Met-later pos next h e (ended q) = ended (e ∙ q)
  Met-later pos next h e (met at xlen n a c b q) = met at xlen n (omega arith) c b (e ∙ q)

  next_item-Met : (fuel pos : ℕ) → len < pos + fuel → Met pos (next_item m len fuel pos)
  unfolding next_item
  next_item-Met zero pos h = ended (Met-past pos (omega (arith, h)))
  next_item-Met (suc fuel) pos h = elim (Bool-cases (leb len pos)) [
    | inl past ↦ rw past (ended (Met-past pos (leb→le len pos past)))
    | inr more ↦
        let h1 : pos < len = leb-false→lt len pos more in
        let found = find_comma_lem pos (len - pos) (omega arith) in
        rw (more, found)
          (elim (Bool-cases (pos + size pos - pos == 0)) [
            | inl none_here ↦
                let z : size pos ≡ 0 = ground (arith, none_here) in
                rw none_here (
                  Met-later pos (pos + size pos + 1) (omega arith)
                    (items_behind pos ∙ keep_empty (piece (left_from pos)) _ z)
                    (next_item-Met fuel (pos + size pos + 1) (omega (arith, h))))
            | inr some_here ↦
                let z : 0 < size pos = ground (arith, some_here) in
                let n : pos + size pos - pos ≡ size pos = omega arith in
                rw some_here (
                  rw n (
                    met pos (size pos) (pos + size pos + 1) (omega arith)
                      (omega (arith, size-le pos (omega (arith, h1))))
                      (size-le pos (omega (arith, h1)))
                      (items_behind pos
                        ∙ keep_some (piece (left_from pos)) _ z
                        ∙ ap (λ x. x ∷ items (left_from (pos + size pos + 1)))
                            (sym (piece_read pos (omega (arith, h1)))))))
          ])
  ]

-- A loop over the items.
abbrev pub walk : {S R : Type 0} → (S → List ℕ → S ⊎ R) → List (List ℕ) → S → S ⊎ R
walk f [] s = inl s
walk f (x ∷ xs) s = elim (f s x) [ inl t ↦ walk f xs t | inr r ↦ inr r ]

module _ {S R : Type 0} (body : S → List ℕ → ℕ → S ⊎ R) (f : S → List ℕ → S ⊎ R) (m : List ℕ)
    (len : ℕ) (fits : len ≤ length m) (small : len < limit)
    (same : (s : S) (at xlen : ℕ)
      → at + xlen ≤ len
      → body s (drop at m) xlen ≡ f s (take xlen (drop at m))) where
  abbrev left : ℕ → List (List ℕ)
  left pos = items (drop pos (take len m))

  -- The body at the item that has been met.
  after_item :
      (fuel pos : ℕ) (s : S) {o : Option (ℕ × ℕ × ℕ)}
      → Met m len fits pos o
      → ((next : ℕ) (t : S)
          → pos < next
          → next ≤ len + 1
          → scan_loop body m len fuel next t ≡ ok (walk f (left next) t))
      → (elim o [
        | none ↦ ok (inl s)
        | some (at, xlen, next) ↦ elim (body s (drop at m) xlen) [
          | inl t ↦ scan_loop body m len fuel next t
          | inr r ↦ ok (inr r)
        ]
      ])
        ≡ ok (walk f (left pos) s)
  after_item fuel pos s (ended q) ih = rw q refl
  after_item fuel pos s (met at xlen next a c b q) ih =
      rw (q, same s at xlen b) (chosen (f s (take xlen (drop at m))))
    where
      chosen :
          (c : S ⊎ R)
          → (elim c [ inl t ↦ scan_loop body m len fuel next t | inr r ↦ ok (inr r) ])
            ≡ ok (elim c [ inl t ↦ walk f (left next) t | inr r ↦ inr r ])
      chosen (inl t) = ih next t a c
      chosen (inr r) = refl

  parser-eq-ok :
      (pos : ℕ) → pos ≤ len + 1 → stringparser m len pos ≡ ok (next_item m len (suc len) pos)
  unfolding stringparser
  parser-eq-ok pos h = ground (arith, small, h)

  scan_loop-walk :
      (fuel pos : ℕ) (s : S)
      → pos ≤ len + 1
      → len < pos + fuel
      → scan_loop body m len fuel pos s ≡ ok (walk f (left pos) s)
  unfolding scan_loop
  scan_loop-walk zero pos s h k =
      ap (λ z. ok (walk f z s)) (sym (Met-past m len fits pos (omega (arith, k))))
  scan_loop-walk (suc fuel) pos s h k = rw (parser-eq-ok pos h) (
      after_item fuel pos s (next_item-Met m len fits (suc len) pos (omega arith))
        (λ next t a b. scan_loop-walk fuel next t b (omega (arith, k, a))))

  -- Over a list that lies in its memory and is shorter than the limit, the loop over `stringparser`
  -- meets the items of the list in their order, and none besides, and ends as soon as its body does.
  pub scan-walk : (s : S) → scan body m len s ≡ ok (walk f (items (take len m)) s)
  unfolding scan
  scan-walk s = scan_loop-walk (suc len) 0 s (omega arith) (omega arith)
