-- ===== src/Bytes/Lengths.antt =====
-- The size of the memory under the loops of byte.c and cleanup.c.
use tinyssh.Common.{ℕ, zero, suc, ◌+◌, ◌≡◌, refl, ◌∙◌, List, length, set, get_or, length-set}
use tinyssh.Bytes.{copy_loop, byte_copy, move_loop, byte_move, purge}

length-copy_loop : (y x : List ℕ) (at i n : ℕ) → length (copy_loop y at x i n) ≡ length y
unfolding copy_loop
length-copy_loop y x at i zero = refl
length-copy_loop y x at i (suc n) =
    length-copy_loop (set y (at + i) (get_or x i 0)) x at (i + 1) n ∙ length-set y (at + i) _

pub length-byte_copy : (y : List ℕ) (at n : ℕ) (x : List ℕ) → length (byte_copy y at n x) ≡ length y
unfolding byte_copy
length-byte_copy y at n x = length-copy_loop y x at 0 n

length-move_loop : (m : List ℕ) (to from i n : ℕ) → length (move_loop m to from i n) ≡ length m
unfolding move_loop
length-move_loop m to from i zero = refl
length-move_loop m to from i (suc n) =
    length-move_loop (set m (to + i) (get_or m (from + i) 0)) to from (i + 1) n
    ∙ length-set m (to + i) _

pub length-byte_move : (m : List ℕ) (to n from : ℕ) → length (byte_move m to n from) ≡ length m
unfolding byte_move
length-byte_move m to n from = length-move_loop m to from 0 n

pub length-purge : (y : List ℕ) (at n : ℕ) → length (purge y at n) ≡ length y
unfolding purge
length-purge y at zero = refl
length-purge y at (suc n) = length-purge (set y at 0) (at + 1) n ∙ length-set y at 0
