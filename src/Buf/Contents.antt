-- ===== src/Buf/Contents.antt =====
-- What the operations of buf.c leave in the buffer: its string, with the new bytes behind it.
use tinyssh.Common.{
  ℕ, ◌+◌, ◌≤◌, ◌<◌, ◌≡◌, refl, ap, ◌∙◌, List, [], ◌++◌, arith, length, take, length-take, Outcome,
  ok, die, nomem, false, ltb, leb, ◌||◌, die_if, ◌>>◌, [], Bool-cases, inl, inr, leb→le,
  leb-false→lt,
}
use tinyssh.Bytes.{purge}
use tinyssh.Bytes.Copy.{
  splice, zeros, take-splice, length-splice, length-zeros, byte_copy-splice, byte_zero-splice,
  purge-splice,
}
use tinyssh.Buf.{
  Buf, limit, is_bad, buf_init, buf_purge, buf_ready, buf_put, buf_putzerobytes, buf_putrandombytes,
  buf_putpadding,
}

pub record IsValid (b : Buf) : Type 0 where
  pub held : b.len ≤ b.alloc
  pub backed : b.alloc ≤ length b.mem
  pub positive : 0 < b.alloc
  pub small : b.alloc ≤ limit

-- The string that the buffer holds.
abbrev pub contents : Buf → List ℕ
contents b = take b.len b.mem

pub length-contents : (b : Buf) → IsValid b → length (contents b) ≡ b.len
length-contents b v = omega (arith, length-take b.len b.mem, v.held, v.backed)

-- `o` is the buffer `b` with `xs` put behind its string, or the end of the process because the
-- string, and a byte more, would not fit.
pub data Appends (b : Buf) (xs : List ℕ) : Outcome Buf → Type 0 where
  fits :
      (b' : Buf)
      → IsValid b'
      → b'.alloc ≡ b.alloc
      → contents b' ≡ contents b ++ xs
      → Appends b xs (ok b')
  full : b.alloc ≤ b.len + length xs → Appends b xs (die nomem)

grown :
    (b : Buf) (m xs : List ℕ) (n : ℕ)
    → IsValid b
    → length xs ≡ n
    → b.len + n < b.alloc
    → m ≡ splice b.mem b.len xs
    → Appends b xs (ok (record b { mem = m; len = b.len + n }))
grown b m xs n v e h s =
    fits (record b { mem = m; len = b.len + n })
      (record {
        held = omega arith;
        backed =
            omega (
              arith,
              v.backed,
              ap length s,
              length-splice b.mem xs b.len (omega (arith, v.backed)),
            );
        positive = v.positive;
        small = v.small;
      })
      refl
      (ap (take (b.len + n)) s ∙ take-splice b.mem xs b.len n (omega (arith, v.backed, v.held)) e)

-- The guards of buf.c let a valid buffer pass.
guard_passes : (b : Buf) (n : ℕ) → IsValid b → n ≤ limit → (is_bad b || ltb limit n) ≡ false
unfolding is_bad
guard_passes b n v h = ground arith

module _ (b : Buf) (v : IsValid b) where
  -- The common end of the operations: the test of the room, and the new memory.
  grown_or_full :
      (m xs : List ℕ) (n : ℕ)
      → length xs ≡ n
      → (b.len + n ≤ length b.mem → m ≡ splice b.mem b.len xs)
      → Appends b xs
          (die_if (leb b.alloc (b.len + n)) nomem >> ok (record b { mem = m; len = b.len + n }))
  grown_or_full m xs n e s = elim (Bool-cases (leb b.alloc (b.len + n))) [
    | inl over ↦ rw over (full (omega (arith, leb→le _ _ over)))
    | inr room ↦
        let small : b.len + n < b.alloc = leb-false→lt _ _ room in
        rw room (grown b m xs n v e small (s (omega (arith, v.backed))))
  ]

  -- Into a valid buffer `buf_put` puts the first `n` bytes of `x`, with `n` within the limit and
  -- the size of `x`: the buffer stays valid and has them behind its string; or the process ends
  -- because they, and a byte more, would not fit.
  pub buf_put-Appends :
      (x : List ℕ) (n : ℕ) → n ≤ limit → n ≤ length x → Appends b (take n x) (buf_put b x n)
  unfolding buf_put
  buf_put-Appends x n h k = rw (guard_passes b n v h) (
      grown_or_full _ (take n x) n (omega (arith, length-take n x))
        (byte_copy-splice b.mem b.len n x k))

  pub buf_putrandombytes-Appends :
      (fresh : List ℕ) (n : ℕ)
      → n ≤ limit
      → n ≤ length fresh
      → Appends b (take n fresh) (buf_putrandombytes b fresh n)
  unfolding buf_putrandombytes
  buf_putrandombytes-Appends x n h k = rw (guard_passes b n v h) (
      grown_or_full _ (take n x) n (omega (arith, length-take n x))
        (byte_copy-splice b.mem b.len n x k))

  pub buf_putzerobytes-Appends : (n : ℕ) → n ≤ limit → Appends b (zeros n) (buf_putzerobytes b n)
  unfolding buf_putzerobytes
  buf_putzerobytes-Appends n h =
      rw (guard_passes b n v h)
        (grown_or_full _ (zeros n) n (length-zeros n) (byte_zero-splice b.mem b.len n))

  pub buf_putpadding-Appends : (n : ℕ) → n ≤ limit → Appends b (zeros n) (buf_putpadding b n)
  unfolding buf_putpadding
  buf_putpadding-Appends n h =
      rw (guard_passes b n v h)
        (grown_or_full _ (zeros n) n (length-zeros n) (purge-splice b.mem b.len n))

  -- A ready buffer has room for the bytes; the answer is the test of the operations.
  pub buf_ready_lem : (n : ℕ) → n ≤ limit → buf_ready b n ≡ ok (ltb (b.len + n) b.alloc)
  unfolding buf_ready
  buf_ready_lem n h = rw (guard_passes b n v h)

  -- `buf_purge` of a valid buffer succeeds and leaves a valid empty buffer of the same size, with
  -- zeros over the old string and the rest of the memory as it was.
  pub buf_purge_lem :
      (b' : Buf) × (buf_purge b ≡ ok b')
      × IsValid b'
      × (b'.len ≡ 0)
      × (b'.alloc ≡ b.alloc)
      × (b'.mem ≡ splice b.mem 0 (zeros b.len))
  unfolding buf_purge is_bad
  buf_purge_lem = (
    record b { mem = purge b.mem 0 b.len; len = 0 },
    ground arith,
    record {
      held = omega arith;
      backed =
          omega (arith, ap length cleared, length-zeros b.len, length-splice b.mem (zeros b.len) 0);
      positive = v.positive;
      small = v.small;
    },
    refl,
    refl,
    cleared,
  )
    where
      cleared : purge b.mem 0 b.len ≡ splice b.mem 0 (zeros b.len)
      cleared = purge-splice b.mem 0 b.len (omega arith)

-- A fresh buffer over enough memory is valid and empty.
pub buf_init-IsValid :
    (m : List ℕ) (alloc : ℕ)
    → 0 < alloc
    → alloc ≤ limit
    → alloc ≤ length m
    → (b : Buf) × (buf_init m alloc ≡ ok b) × IsValid b × (contents b ≡ []) × (b.alloc ≡ alloc)
unfolding buf_init
buf_init-IsValid m alloc h k l = (
  record { mem = purge m 0 alloc; len = 0; alloc = alloc },
  ground arith,
  record {
    held = omega arith;
    backed = omega (
      arith,
      ap length (purge-splice m 0 alloc (omega arith)),
      length-zeros alloc,
      length-splice m (zeros alloc) 0,
    );
    positive = h;
    small = k;
  },
  refl,
  refl,
)
