-- ===== src/Names.antt =====
-- stringparser.c: the items of a comma-separated list, and the loop that all its callers write.
pub mod Items
use tinyssh.Common.{
  ℕ, zero, suc, ◌+◌, ◌-◌, List, Bool, true, false, ◌||◌, ◌==◌, ltb, leb, if◌then◌else◌, get_or,
  drop, Option, none, some, ◌⊎◌, inl, inr, Outcome, ok, inval, bug, die_if, ◌>>=◌, ◌>>◌,
}
use tinyssh.Buf.{limit}
use tinyssh.Str.{str_equaln}

-- `for (i = pos; i < len; ++i) if (buf[i] == ',') break;`, with the rounds left.
unfoldable pub find_comma : List ℕ → ℕ → ℕ → ℕ
find_comma m i zero = i
find_comma m i (suc left) =
    let next = find_comma m (i + 1) left in if get_or m i 0 == 44 then i else next

-- The loop over empty items: where the item starts, its length, and the new position, which is
-- not 0. Each round moves on by a byte at least, and `fuel` is the number of rounds.
unfoldable pub next_item : List ℕ → ℕ → ℕ → ℕ → Option (ℕ × ℕ × ℕ)
next_item m len zero pos = none
next_item m len (suc fuel) pos =
    let i = find_comma m pos (len - pos) in
    let rest = next_item m len fuel (i + 1) in
    if leb len pos then none else if i - pos == 0 then rest else some (pos, i - pos, i + 1)

unfoldable pub stringparser : List ℕ → ℕ → ℕ → Outcome (Option (ℕ × ℕ × ℕ))
stringparser m len pos = do
  die_if (ltb limit len || ltb limit pos) inval
  ok (next_item m len (suc len) pos)

-- `for (;;) { pos = stringparser(buf, len, pos, &x, &xlen); if (!pos) break; ... }`: the body sees the
-- bytes from the item on and its length, and goes on with a new state or returns.
module _ {S R : Type 0} (body : S → List ℕ → ℕ → S ⊎ R) where
  unfoldable pub scan_loop : List ℕ → ℕ → ℕ → ℕ → S → Outcome (S ⊎ R)
  scan_loop m len zero pos s = ok (inl s)
  scan_loop m len (suc fuel) pos s = do
    item ← stringparser m len pos
    elim item [
      | none ↦ ok (inl s)
      | some (at, xlen, next) ↦ elim (body s (drop at m) xlen) [
        | inl t ↦ scan_loop m len fuel next t
        | inr r ↦ ok (inr r)
      ]
    ]

  unfoldable pub scan : List ℕ → ℕ → S → Outcome (S ⊎ R)
  unfolding scan_loop
  scan m len s = scan_loop m len (suc len) 0 s

-- packet_kex.c: whether `name` is an item.
unfoldable pub namelist_contains : List ℕ → ℕ → List ℕ → Outcome Bool
namelist_contains m len name = do
  found ← scan (λ (s : Unit {0}) x xlen. if str_equaln x xlen name then inr tt else inl tt) m len tt
  ok (elim found [ inl s ↦ false | inr r ↦ true ])
