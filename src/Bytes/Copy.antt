-- ===== src/Bytes/Copy.antt =====
-- What the copying and clearing loops of byte.c and cleanup.c leave in memory.
use tinyssh.Common.{
  ℕ, zero, suc, ◌+◌, ◌≤◌, ◌<◌, ◌≡◌, refl, sym, ap, ap₂, ◌-◌, take-drop, ◌∙◌, List, [], ◌∷◌, ◌++◌,
  arith, append_assoc, length, set, get_or, take, drop, length-set, take-set-suc, drop-set_lt,
  drop-step, length-take, length-append, length-drop, take-append-drop, take-append,
  take-append_add, drop-append_add, append-nil,
}
use tinyssh.Bytes.Lengths.{length-byte_move}
use tinyssh.Bytes.{copy_loop, byte_copy, move_loop, byte_move, zero_loop, byte_zero, purge}

-- Memory with the bytes from `at` on replaced.
unfoldable pub splice : List ℕ → ℕ → List ℕ → List ℕ
splice y at xs = take at y ++ (xs ++ drop (at + length xs) y)

unfoldable pub zeros : ℕ → List ℕ
zeros zero = []
zeros (suc n) = 0 ∷ zeros n

pub length-zeros : (n : ℕ) → length (zeros n) ≡ n
unfolding zeros
length-zeros zero = refl
length-zeros (suc n) = ap suc (length-zeros n)

pub length-splice :
    (y xs : List ℕ) (at : ℕ) → at + length xs ≤ length y → length (splice y at xs) ≡ length y
unfolding splice
length-splice y xs at h = omega (
  arith,
  length-append (take at y) (xs ++ drop (at + length xs) y),
  length-append xs (drop (at + length xs) y),
  length-take at y,
  length-drop (at + length xs) y,
)

-- One round: the byte at `p` is set, and the rest is spliced behind it.
splice-step :
    (y : List ℕ) (p v : ℕ) (xs : List ℕ)
    → p < length y
    → splice (set y p v) (p + 1) xs ≡ splice y p (v ∷ xs)
unfolding splice
splice-step y p v xs h =
    rw
      (take-first, drop-rest, append_assoc (take p y) (v ∷ []) (xs ++ drop (p + suc (length xs)) y))
  where
    take-first : take (p + 1) (set y p v) ≡ take p y ++ v ∷ []
    take-first = ap (λ k. take k (set y p v)) {y = suc p} (omega arith) ∙ take-set-suc y p v h

    drop-rest : drop (p + 1 + length xs) (set y p v) ≡ drop (p + suc (length xs)) y
    drop-rest =
        ap (λ k. drop k (set y p v)) (omega arith)
        ∙ drop-set_lt y (p + suc (length xs)) p v (omega arith)

splice-nil : (y : List ℕ) (p : ℕ) → splice y p [] ≡ y
unfolding splice
splice-nil y p = ap (λ k. take p y ++ drop k y) (omega arith) ∙ take-append-drop p y

-- The source of the next round.
take-drop_step :
    (x : List ℕ) (i n : ℕ)
    → i < length x
    → take (suc n) (drop i x) ≡ get_or x i 0 ∷ take n (drop (i + 1) x)
take-drop_step x i n h =
    ap (take (suc n)) (drop-step x i 0 h)
    ∙ ap (λ k. get_or x i 0 ∷ take n (drop k x)) {x = suc i} (omega arith)

-- One round of any of the loops, at the place `at + i`.
round :
    (y : List ℕ) (at i v : ℕ) (xs : List ℕ)
    → at + i < length y
    → splice (set y (at + i) v) (at + (i + 1)) xs ≡ splice y (at + i) (v ∷ xs)
round y at i v xs h =
    ap (λ k. splice (set y (at + i) v) k xs) (omega arith) ∙ splice-step y (at + i) v xs h

copy_loop-splice :
    (y : List ℕ) (at : ℕ) (x : List ℕ) (i n : ℕ)
    → i + n ≤ length x
    → at + i + n ≤ length y
    → copy_loop y at x i n ≡ splice y (at + i) (take n (drop i x))
unfolding copy_loop
copy_loop-splice y at x i zero h k = sym (splice-nil y (at + i))
copy_loop-splice y at x i (suc n) h k =
    copy_loop-splice (set y (at + i) v) at x (i + 1) n (omega arith)
      (omega (arith, length-set y (at + i) v))
    ∙ round y at i v (take n (drop (i + 1) x)) (omega arith)
    ∙ ap (splice y (at + i)) (sym (take-drop_step x i n (omega arith)))
  where
    v : ℕ
    v = get_or x i 0

at_start : (y : List ℕ) (at : ℕ) (xs : List ℕ) → splice y (at + 0) xs ≡ splice y at xs
at_start y at xs = ap (λ k. splice y k xs) (omega arith)

-- `byte_copy` replaces `ylen` bytes by the first `ylen` bytes of `x`, and no other byte.
pub byte_copy-splice :
    (y : List ℕ) (at ylen : ℕ) (x : List ℕ)
    → ylen ≤ length x
    → at + ylen ≤ length y
    → byte_copy y at ylen x ≡ splice y at (take ylen x)
unfolding byte_copy
byte_copy-splice y at ylen x h k =
    copy_loop-splice y at x 0 ylen (omega arith) (omega arith) ∙ at_start y at (take ylen x)

-- Writing at or before the place that is read next does not disturb the later rounds.
move_loop-splice :
    (m : List ℕ) (to from i n : ℕ)
    → to ≤ from
    → from + i + n ≤ length m
    → move_loop m to from i n ≡ splice m (to + i) (take n (drop (from + i) m))
unfolding move_loop
move_loop-splice m to from i zero h k = sym (splice-nil m (to + i))
move_loop-splice m to from i (suc n) h k =
    move_loop-splice (set m (to + i) v) to from (i + 1) n h (omega (arith, length-set m (to + i) v))
    ∙ ap (λ (xs : List ℕ). splice (set m (to + i) v) (to + (i + 1)) (take n xs)) later
    ∙ round m to i v (take n (drop (from + i + 1) m)) (omega arith)
    ∙ ap (splice m (to + i)) (sym (take-drop_step m (from + i) n (omega arith)))
  where
    v : ℕ
    v = get_or m (from + i) 0

    later : drop (from + (i + 1)) (set m (to + i) v) ≡ drop (from + i + 1) m
    later =
        drop-set_lt m (from + (i + 1)) (to + i) v (omega arith) ∙ ap (λ k. drop k m) (omega arith)

-- A copy towards the front of the same object, within its size, moves the bytes as they were
-- before the call, also where the two ranges overlap.
pub byte_move-splice :
    (m : List ℕ) (to ylen from : ℕ)
    → to ≤ from
    → from + ylen ≤ length m
    → byte_move m to ylen from ≡ splice m to (take ylen (drop from m))
unfolding byte_move
byte_move-splice m to ylen from h k =
    move_loop-splice m to from 0 ylen h (omega arith)
    ∙ at_start m to (take ylen (drop (from + 0) m))
    ∙ ap (λ j. splice m to (take ylen (drop j m))) (omega arith)

zero_loop-splice :
    (y : List ℕ) (at i n : ℕ)
    → at + i + n ≤ length y
    → zero_loop y at i n ≡ splice y (at + i) (zeros n)
unfolding zero_loop zeros
zero_loop-splice y at i zero h = sym (splice-nil y (at + i))
zero_loop-splice y at i (suc n) h =
    zero_loop-splice (set y (at + i) 0) at (i + 1) n (omega (arith, length-set y (at + i) 0))
    ∙ round y at i 0 (zeros n) (omega arith)

pub byte_zero-splice :
    (y : List ℕ) (at ylen : ℕ)
    → at + ylen ≤ length y
    → byte_zero y at ylen ≡ splice y at (zeros ylen)
unfolding byte_zero
byte_zero-splice y at ylen h =
    zero_loop-splice y at 0 ylen (omega arith) ∙ at_start y at (zeros ylen)

pub purge-splice :
    (y : List ℕ) (at ylen : ℕ) → at + ylen ≤ length y → purge y at ylen ≡ splice y at (zeros ylen)
unfolding purge zeros
purge-splice y at zero h = sym (splice-nil y at)
purge-splice y at (suc n) h =
    purge-splice (set y at 0) (at + 1) n (omega (arith, length-set y at 0))
    ∙ splice-step y at 0 (zeros n) (omega arith)

-- What stands before the end of a splice.
pub take-splice :
    (m xs : List ℕ) (n k : ℕ)
    → n ≤ length m
    → length xs ≡ k
    → take (n + k) (splice m n xs) ≡ take n m ++ xs
unfolding splice
take-splice m xs n k h e =
    ap (λ j. take j (splice m n xs)) counted
    ∙ take-append_add (take n m) (xs ++ drop (n + length xs) m) (length xs)
    ∙ ap (◌++◌ (take n m)) front
  where
    counted : n + k ≡ length (take n m) + length xs
    counted = omega (arith, length-take n m)

    front : take (length xs) (xs ++ drop (n + length xs) m) ≡ xs
    front =
        ap (λ j. take j (xs ++ drop (n + length xs) m)) {y = length xs + 0} (omega arith)
        ∙ take-append_add xs (drop (n + length xs) m) 0
        ∙ append-nil xs

pub take-splice_before : (m xs : List ℕ) (n : ℕ) → n ≤ length m → take n (splice m n xs) ≡ take n m
unfolding splice
take-splice_before m xs n h =
    take-append (take n m) (xs ++ drop (n + length xs) m) n (omega (arith, length-take n m))

-- A splice past a known front.
pub splice-append :
    (front back xs : List ℕ) (at : ℕ)
    → at ≡ length front
    → splice (front ++ back) at xs ≡ front ++ (xs ++ drop (length xs) back)
unfolding splice
splice-append front back xs at e =
    ap₂ (λ a z. a ++ (xs ++ z)) (take-append front back at e)
      (drop-append_add front back (length xs) (at + length xs) (omega arith))

-- Closing a gap of `k` bytes at `at` in front of `n` bytes, as the queues of bytes do: a copy
-- towards the front, and zeros over what is left behind.
unfoldable pub close_gap : List ℕ → ℕ → ℕ → ℕ → List ℕ
close_gap m at n k = purge (byte_move m at n (at + k)) (at + n) k

pub take-close_gap :
    (m : List ℕ) (at n k : ℕ)
    → at + k + n ≤ length m
    → take (at + n) (close_gap m at n k) ≡ take at m ++ take n (drop (at + k) m)
unfolding close_gap
take-close_gap m at n k h =
    ap (take (at + n)) (purge-splice moved (at + n) k (omega (arith, size)))
    ∙ take-splice_before moved (zeros k) (at + n) (omega (arith, size))
    ∙ ap (take (at + n)) (byte_move-splice m at n (at + k) (omega arith) h)
    ∙ take-splice m (take n (drop (at + k) m)) at n (omega arith) counted
  where
    moved : List ℕ
    moved = byte_move m at n (at + k)

    size : length moved ≡ length m
    size = length-byte_move m at n (at + k)

    counted : length (take n (drop (at + k) m)) ≡ n
    counted = omega (arith, length-take n (drop (at + k) m), length-drop (at + k) m)

-- The same at the front of the memory: the first `w` of `n` bytes are taken out.
pub take-shift_out :
    (m : List ℕ) (n w : ℕ)
    → w ≤ n
    → n ≤ length m
    → take (n - w) (purge (byte_move m 0 (n - w) w) (n - w) w) ≡ drop w (take n m)
unfolding close_gap
take-shift_out m n w h k =
    let front : n - w ≡ 0 + (n - w) = omega arith in
    let gap : w ≡ 0 + w = omega arith in
    ap₂ (λ i j. take i (purge (byte_move m 0 (n - w) j) i w)) front gap
    ∙ take-close_gap m 0 (n - w) w (omega arith)
    ∙ ap (λ j. take (n - w) (drop j m)) (sym gap)
    ∙ take-drop (n - w) w m
    ∙ ap (λ j. drop w (take j m)) (omega arith)
