-- ===== src/Tests/Names.antt =====
-- str.c, stringparser.c and the tables of algorithms at concrete inputs.
use tinyssh.Common.{
  ℕ, ◌+◌, ◌≡◌, ◌≤◌, refl, List, [], ◌∷◌, false, take, length, All, arith, ok, ◌⊎◌, inl, ◌<◌, map,
}
use tinyssh.Str.{str_len}
use tinyssh.Str.Laws.{text}
use tinyssh.Names.{scan}
use tinyssh.Names.Items.{items, walk, scan-walk}
use tinyssh.Buf.{limit}
use tinyssh.Buf.Contents.{Appends}
use tinyssh.Buf.Puts.{ssh_string}
use tinyssh.Algorithms.{KexChoice, sshcrypto_kex_select, put_list}
use tinyssh.Algorithms.Choice.{Preferred}
use tinyssh.Algorithms.Select.{sshcrypto_kex_select-Preferred, empty, Marked}
use tinyssh.Algorithms.Offers.{joined, Plain, put_list-items}
use tinyssh.Tests.Data.{empty-IsValid, short_kex, short_key}
use tinyssh.Tests.Data as Data

-- The list "x,,k" and its NUL.
abbrev offered : List ℕ
offered = 120 ∷ 44 ∷ 44 ∷ 107 ∷ 0 ∷ []

-- The lengths of the items, added up.
abbrev add_length : ℕ → List ℕ → ℕ → ℕ ⊎ Unit {0}
add_length s x n = inl (s + length (take n x))

scan-walk_example :
    scan add_length offered 4 0 ≡ ok (walk (λ s x. inl (s + length x)) (items (take 4 offered)) 0)
scan-walk_example =
    scan-walk add_length (λ s x. inl (s + length x)) offered 4 (omega arith) (omega arith)
      (λ s at n h. refl) 0

sshcrypto_kex_select-Preferred_example :
    (c : KexChoice) × (before : List (List ℕ)) × (sshcrypto_kex_select
        (short_kex ∷ [])
        offered
        4
        false
      ≡ ok c)
    × Preferred
        (λ k. k.flagenabled)
        (λ k. k.name)
        (short_kex ∷ [])
        (items (take 4 offered))
        before
        c.kex
    × (c.guess ≡ empty before)
    × Marked false (items (take 4 offered)) c.strict
sshcrypto_kex_select-Preferred_example =
    sshcrypto_kex_select-Preferred (short_kex ∷ []) offered 4 false (omega arith) (omega arith) refl

abbrev two_names : List (List ℕ)
two_names = (107 ∷ []) ∷ (108 ∷ []) ∷ []

two_names-Plain : All Plain two_names
unfolding str_len
two_names-Plain = (
  (omega arith, ((λ e. omega (arith, e)), tt)),
  ((omega arith, ((λ e. omega (arith, e)), tt)), tt),
)

two_names-small : All (λ n. str_len n ≤ limit) two_names
unfolding str_len
two_names-small = (omega arith, (omega arith, tt))

two_names-fits : length (joined two_names) < 4_294_967_296
unfolding str_len
two_names-fits = omega arith

put_list-items_example :
    Appends (Data.empty 64) (ssh_string (joined two_names)) (put_list (Data.empty 64) two_names)
    × (items (joined two_names) ≡ map text two_names)
put_list-items_example =
    put_list-items (Data.empty 64) two_names (empty-IsValid 64 (omega arith) (omega arith))
      two_names-Plain two_names-small two_names-fits
