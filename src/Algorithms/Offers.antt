-- ===== src/Algorithms/Offers.antt =====
-- The lists of names that sshcrypto_kex.c, sshcrypto_key.c and sshcrypto_cipher.c put.
use tinyssh.Common.{
  ℕ, ◌+◌, ◌%◌, ◌^◌, ◌≤◌, ◌<◌, ◌≡◌, ◌≢◌, refl, sym, ap, ◌∙◌, List, [], ◌∷◌, ◌++◌, map, append_assoc,
  append-nil, arith, length, set, length-append, length-take, length-set, take-set_le, All, false,
  ◌==◌, Outcome, ok, ◌>>=◌,
}
use tinyssh.Buf.{Buf, limit, buf_puts}
use tinyssh.Buf.Contents.{IsValid, contents, Appends, fits, full, buf_put-Appends}
use tinyssh.Buf.Puts.{Appends-bind, ssh_string, buf_putnum32-Appends}
use tinyssh.Bytes.{store_bigendian}
use tinyssh.Str.{str_len, literal}
use tinyssh.Str.Laws.{text, str_len-le}
use tinyssh.Names.Items.{items, items_from}
use tinyssh.Algorithms.{count_names, put_names, put_list}

-- The names behind the first, a comma before each.
abbrev pub behind_commas : List (List ℕ) → List ℕ
behind_commas [] = []
behind_commas (n ∷ ns) = 44 ∷ (text n ++ behind_commas ns)

abbrev pub joined : List (List ℕ) → List ℕ
joined [] = []
joined (n ∷ ns) = text n ++ behind_commas ns

-- A name that can stand in a list.
abbrev pub Plain : List ℕ → Type 0
Plain n = (0 < str_len n) × All (λ c. c ≢ 44) (text n)

items_from-text :
    (cur xs ys : List ℕ)
    → All (λ c. c ≢ 44) xs
    → items_from cur (xs ++ ys) ≡ items_from (cur ++ xs) ys
unfolding items_from
items_from-text cur [] ys h = ap (λ z. items_from z ys) (sym (append-nil cur))
items_from-text cur (x ∷ xs) ys (h, hs) = rw (other x h) (
    items_from-text (cur ++ (x ∷ [])) xs ys hs
    ∙ ap (λ z. items_from z ys) (append_assoc cur (x ∷ []) xs))
  where
    other : (x : ℕ) → x ≢ 44 → (x == 44) ≡ false
    other x h = ground (arith, h)

items-behind :
    (cur : List ℕ) (ns : List (List ℕ))
    → 0 < length cur
    → All Plain ns
    → items_from cur (behind_commas ns) ≡ cur ∷ map text ns
unfolding items_from
items-behind [] ns k h = absurd (omega (arith, k))
items-behind (c ∷ cur) [] k h = refl
items-behind (c ∷ cur) (n ∷ ns) k ((long, plain), h) = ap (◌∷◌ (c ∷ cur)) (
    items_from-text [] (text n) (behind_commas ns) plain
    ∙ items-behind (text n) ns (omega (arith, long, str_len-le n, length-take (str_len n) n)) h)

items-joined : (ns : List (List ℕ)) → All Plain ns → items (joined ns) ≡ map text ns
unfolding items_from
items-joined [] h = refl
items-joined (n ∷ ns) ((long, plain), h) =
    items_from-text [] (text n) (behind_commas ns) plain
    ∙ items-behind (text n) ns (omega (arith, long, str_len-le n, length-take (str_len n) n)) h

buf_puts-Appends :
    (b : Buf) (n : List ℕ) → IsValid b → str_len n ≤ limit → Appends b (text n) (buf_puts b n)
unfolding buf_puts
buf_puts-Appends b n v h = buf_put-Appends b v n (str_len n) h (str_len-le n)

not_first : (j : ℕ) → 0 < j → (j == 0) ≡ false
not_first j h = ground (arith, h)

comma-Appends : (b : Buf) → IsValid b → Appends b (44 ∷ []) (buf_puts b (literal ","))
unfolding str_len
comma-Appends b v = buf_puts-Appends b (literal ",") v (omega arith)

put_later-Appends :
    (b : Buf) (j : ℕ) (ns : List (List ℕ))
    → IsValid b
    → 0 < j
    → All (λ n. str_len n ≤ limit) ns
    → Appends b (behind_commas ns) (put_names j b ns)
unfolding put_names
put_later-Appends b j [] v k h = fits b v refl (sym (append-nil (contents b)))
put_later-Appends b j (n ∷ ns) v k (small, h) = rw (not_first j k) (
    Appends-bind b (44 ∷ []) (text n ++ behind_commas ns) _ _ v (comma-Appends b v) (λ c w e.
      Appends-bind c (text n) (behind_commas ns) _ _ w (buf_puts-Appends c n w small)
        (λ d u f. put_later-Appends d (j + 1) ns u (omega arith) h)))

put_names-Appends :
    (b : Buf) (ns : List (List ℕ))
    → IsValid b
    → All (λ n. str_len n ≤ limit) ns
    → Appends b (joined ns) (put_names 0 b ns)
unfolding put_names
put_names-Appends b [] v h = fits b v refl (sym (append-nil (contents b)))
put_names-Appends b (n ∷ ns) v (small, h) =
    Appends-bind b (text n) (behind_commas ns) _ _ v (buf_puts-Appends b n v small)
      (λ c w e. put_later-Appends c 1 ns w (omega arith) h)

length-text : (n : List ℕ) → length (text n) ≡ str_len n
length-text n = omega (arith, length-take (str_len n) n, str_len-le n)

count_later :
    (j len : ℕ) (ns : List (List ℕ))
    → 0 < j
    → len + length (behind_commas ns) < 2 ^ 32
    → count_names j len ns ≡ len + length (behind_commas ns)
unfolding count_names
count_later j len [] k h = omega arith
count_later j len (n ∷ ns) k h = rw (not_first j k) (
    count_later (j + 1) ((len + 1 + str_len n) % 2 ^ 32) ns (omega arith)
      (omega (arith, h, size, wraps))
    ∙ omega (arith, size, wraps))
  where
    size : length (text n ++ behind_commas ns) ≡ str_len n + length (behind_commas ns)
    size =
        length-append (text n) (behind_commas ns)
        ∙ ap (λ k. k + length (behind_commas ns)) (length-text n)

    wraps : (len + 1 + str_len n) % 2 ^ 32 ≡ len + 1 + str_len n
    wraps = omega (arith, h, size)

count_names_lem :
    (ns : List (List ℕ)) → length (joined ns) < 2 ^ 32 → count_names 0 0 ns ≡ length (joined ns)
unfolding count_names
count_names_lem [] h = refl
count_names_lem (n ∷ ns) h =
    count_later 1 ((0 + str_len n) % 2 ^ 32) ns (omega arith) (omega (arith, h, size, wraps))
    ∙ omega (arith, size, wraps)
  where
    size : length (text n ++ behind_commas ns) ≡ str_len n + length (behind_commas ns)
    size =
        length-append (text n) (behind_commas ns)
        ∙ ap (λ k. k + length (behind_commas ns)) (length-text n)

    wraps : (0 + str_len n) % 2 ^ 32 ≡ str_len n
    wraps = omega (arith, h, size)

terminated-Appends :
    (b : Buf) (xs : List ℕ) (o : Outcome Buf)
    → Appends b xs o
    → Appends b xs (o >>= λ c. ok (record c { mem = set c.mem c.len 0 }))
terminated-Appends b xs o (fits c w e s) =
    fits (record c { mem = set c.mem c.len 0 })
      (record {
        held = w.held;
        backed = omega (arith, w.backed, length-set c.mem c.len 0);
        positive = w.positive;
        small = w.small;
      })
      e (take-set_le c.mem c.len c.len 0 (omega arith) ∙ s)
terminated-Appends b xs o (full over) = full over

-- Names that are not empty and have no comma, put into a valid buffer by the `put` functions of the
-- tables: the buffer stays valid and has behind its string an SSH string of the names with commas
-- between them, of which `stringparser` meets just these names in their order; or the process ends
-- because the list does not fit. The names are within the limit, and the list below 2 ^ 32 bytes.
pub put_list-items :
    (b : Buf) (names : List (List ℕ))
    → IsValid b
    → All Plain names
    → All (λ n. str_len n ≤ limit) names
    → length (joined names) < 2 ^ 32
    → Appends b (ssh_string (joined names)) (put_list b names)
      × (items (joined names) ≡ map text names)
unfolding put_list
put_list-items b names v plain small h = (
  rw (count_names_lem names h) (
      Appends-bind b (store_bigendian (length (joined names))) (joined names) _ _ v
        (buf_putnum32-Appends b v (length (joined names)))
        (λ c w e. terminated-Appends c (joined names) _ (put_names-Appends c names w small))),
  items-joined names plain,
)
