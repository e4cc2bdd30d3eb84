-- ===== src/Buf/Puts.antt =====
-- The operations of buf.c that are built from others: what the sequence appends.
use tinyssh.Common.{
  ok, ℕ, ◌+◌, ◌%◌, ◌^◌, ◌≤◌, ◌≡◌, ap, ◌∙◌, List, [], ◌∷◌, ◌++◌, subst, append_assoc, arith, length,
  take, take_all, length-take, length-append, Outcome, die, nomem, ◌>>=◌,
}
use tinyssh.Bytes.{store_bigendian}
use tinyssh.Bytes.Endian.{length-store_bigendian}
use tinyssh.Buf.{Buf, limit, buf_put, buf_putnum32, buf_putnum8, buf_putstringlen}
use tinyssh.Buf.Contents.{IsValid, contents, length-contents, Appends, fits, full, buf_put-Appends}

-- The length after an operation.
pub counted :
    (b c : Buf) (xs : List ℕ)
    → IsValid b
    → IsValid c
    → contents c ≡ contents b ++ xs
    → c.len ≡ b.len + length xs
counted b c xs v w s =
    omega
      (arith, length-contents c w, length-contents b v, ap length s, length-append (contents b) xs)

-- One operation after another: the second starts from the buffer that the first leaves.
pub Appends-bind :
    (b : Buf) (xs ys : List ℕ) (o : Outcome Buf) (f : Buf → Outcome Buf)
    → IsValid b
    → Appends b xs o
    → ((c : Buf) → IsValid c → c.alloc ≡ b.alloc → Appends c ys (f c))
    → Appends b (xs ++ ys) (o >>= f)
Appends-bind b xs ys o f v (fits c w e s) k = after (f c) (k c w e)
  where
    after : (p : Outcome Buf) → Appends c ys p → Appends b (xs ++ ys) p
    after p (fits d u e' t) =
        fits d u (e' ∙ e) (t ∙ ap (λ z. z ++ ys) s ∙ append_assoc (contents b) xs ys)
    after p (full over) = full (omega (arith, counted b c xs v w s, length-append xs ys))
Appends-bind b xs ys o f v (full over) k = full (omega (arith, length-append xs ys))

-- The same inside a longer sequence, for any property of its end.
pub Appends-elim {ℓ κ} :
    {A : Type ℓ} (P : Outcome A → Type κ) (b : Buf) (xs : List ℕ) (o : Outcome Buf)
    (f : Buf → Outcome A)
    → Appends b xs o
    → ((c : Buf) → IsValid c → c.alloc ≡ b.alloc → contents c ≡ contents b ++ xs → P (f c))
    → (b.alloc ≤ b.len + length xs → P (die nomem))
    → P (o >>= f)
Appends-elim P b xs o f (fits c w e s) k l = k c w e s
Appends-elim P b xs o f (full over) k l = l over

-- The same where the operation has succeeded.
pub appended :
    (b : Buf) (xs : List ℕ) (c : Buf) (o : Outcome Buf)
    → Appends b xs o
    → o ≡ ok c
    → IsValid c × (contents c ≡ contents b ++ xs)
appended b xs c o (fits d w e s) h =
    subst (λ z. IsValid z × (contents z ≡ contents b ++ xs)) {x = d} {y = c} (cc) (w, s)
appended b xs c o (full over) h = absurd (cc)

-- A string as SSH writes it: the length in four bytes, then the bytes.
abbrev pub ssh_string : List ℕ → List ℕ
ssh_string xs = store_bigendian (length xs) ++ xs

module _ (b : Buf) (v : IsValid b) where
  pub put_all-Appends :
      (xs : List ℕ) (n : ℕ) → length xs ≡ n → n ≤ limit → Appends b xs (buf_put b xs n)
  put_all-Appends xs n e h =
      subst (λ z. Appends b z (buf_put b xs n)) (take_all n xs (omega arith))
        (buf_put-Appends b v xs n h (omega arith))

  pub buf_putnum32-Appends : (x : ℕ) → Appends b (store_bigendian x) (buf_putnum32 b x)
  unfolding buf_putnum32
  buf_putnum32-Appends x =
      put_all-Appends (store_bigendian x) 4 (length-store_bigendian x) (omega arith)

  pub buf_putnum8-Appends : (u : ℕ) → Appends b (u ∷ []) (buf_putnum8 b u)
  unfolding buf_putnum8
  buf_putnum8-Appends u = buf_put-Appends b v (u ∷ []) 1 (omega arith) (omega arith)

-- Into a valid buffer `buf_putstringlen` puts the length of a string in four bytes and the
-- string, if its length is within the limit; or the process ends because they do not fit.
pub buf_putstringlen-Appends :
    (b : Buf) (xs : List ℕ) (n : ℕ)
    → IsValid b
    → length xs ≡ n
    → n ≤ limit
    → Appends b (ssh_string xs) (buf_putstringlen b xs n)
unfolding buf_putstringlen
buf_putstringlen-Appends b xs n v e h =
    Appends-bind b (store_bigendian (length xs)) xs _ _ v
      (subst (λ k. Appends b (store_bigendian k) (buf_putnum32 b (n % 2 ^ 32))) (omega arith)
        (buf_putnum32-Appends b v (n % 2 ^ 32)))
      (λ c w a. put_all-Appends c w xs n e h)

-- The same of the first `n` bytes of an array.
pub putstringlen_take-Appends :
    (b : Buf) (x : List ℕ) (n : ℕ)
    → IsValid b
    → n ≤ length x
    → n ≤ limit
    → Appends b (ssh_string (take n x)) (buf_putstringlen b x n)
unfolding buf_putstringlen
putstringlen_take-Appends b x n v e h =
    Appends-bind b (store_bigendian (length (take n x))) (take n x) _ _ v
      (subst (λ k. Appends b (store_bigendian k) (buf_putnum32 b (n % 2 ^ 32)))
        (omega (arith, length-take n x, e, h)) (buf_putnum32-Appends b v (n % 2 ^ 32)))
      (λ c w a. buf_put-Appends c w x n h e)
