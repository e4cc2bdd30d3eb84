-- ===== src/Buf/Mpint.antt =====
-- `buf_putsharedsecret` of buf.c against the multiple precision integers of RFC 4251 section 5.
use tinyssh.Common.{
  ℕ, zero, suc, ◌+◌, ◌-◌, ◌%◌, ◌^◌, ◌≤◌, ◌<◌, ◌≡◌, refl, sym, ap, ◌∙◌, List, [], ◌∷◌, ◌++◌, subst,
  append_assoc, arith, length, drop, get_or, get_or-drop, drop-step, length-drop, true, false, not,
  ◌&&◌, ◌==◌, ltb, if◌then◌else◌, Bool-cases, inl, inr, bit_and, Outcome, ◌>>=◌, le→ltb-false,
  lt→ltb,
}
use tinyssh.Bytes.{store_bigendian}
use tinyssh.Buf.{Buf, limit, buf_put, buf_putnum8, buf_putnum32, buf_putsharedsecret, first_nonzero}
use tinyssh.Buf.Contents.{IsValid, Appends}
use tinyssh.Buf.Puts.{
  ssh_string, Appends-bind, put_all-Appends, buf_putnum32-Appends, buf_putnum8-Appends,
}

-- Without the zeros in front.
abbrev strip : List ℕ → List ℕ
strip [] = []
strip (c ∷ cs) = if c == 0 then strip cs else c ∷ cs

-- With a zero in front where the highest bit is set.
abbrev signed : List ℕ → List ℕ
signed [] = []
signed (c ∷ cs) = if bit_and c 0x80 == 0 then c ∷ cs else 0 ∷ c ∷ cs

-- A number, big-endian, as SSH writes it.
abbrev pub mpint : List ℕ → List ℕ
mpint x = ssh_string (signed (strip x))

first_nonzero-strip :
    (x : List ℕ) (pos left : ℕ)
    → pos + left ≡ length x
    → (drop (first_nonzero x pos left) x ≡ strip (drop pos x))
      × (first_nonzero x pos left ≤ length x)
unfolding first_nonzero
first_nonzero-strip x pos zero h =
    (ended (drop pos x) (omega (arith, h, length-drop pos x)), omega (arith, h))
  where
    ended : (y : List ℕ) → length y ≡ 0 → y ≡ strip y
    ended [] e = refl
    ended (c ∷ cs) e = absurd (omega (arith, e))
first_nonzero-strip x pos (suc left) h =
    let (e, k) = first_nonzero-strip x (pos + 1) left (omega (arith, h)) in
    elim (Bool-cases (get_or x pos 0 == 0)) [
      | inl nought ↦ rw nought (e ∙ moved nought, k)
      | inr other ↦ rw other (kept other, omega (arith, h))
    ]
  where
    step : drop pos x ≡ get_or x pos 0 ∷ drop (suc pos) x
    step = drop-step x pos 0 (omega (arith, h))

    moved : (get_or x pos 0 == 0) ≡ true → strip (drop (pos + 1) x) ≡ strip (drop pos x)
    moved t =
        ap (λ k. strip (drop k x)) {x = pos + 1} {y = suc pos} (omega arith)
        ∙ sym (ap strip step ∙ rw t refl)

    kept : (get_or x pos 0 == 0) ≡ false → drop pos x ≡ strip (drop pos x)
    kept t = step ∙ sym (ap strip step ∙ rw t refl)

-- `buf_putsharedsecret` puts a number as RFC 4251 section 5 has it: without zeros in front but one
-- where the highest bit is set, and the length before it; or the process ends because that does
-- not fit. The buffer is valid and the length that of the array, within the limit.
pub buf_putsharedsecret-mpint :
    (b : Buf) (x : List ℕ)
    → IsValid b
    → length x < limit
    → Appends b (mpint x) (buf_putsharedsecret b x (length x))
unfolding buf_putsharedsecret
buf_putsharedsecret-mpint b x v h =
    rw (le→ltb-false limit (length x) (omega (arith, h))) (cases (drop pos x) refl)
  where
    pos : ℕ
    pos = first_nonzero x 0 (length x)

    fact : (drop pos x ≡ strip x) × (pos ≤ length x)
    fact = first_nonzero-strip x 0 (length x) (omega arith)

    rest : (c : Buf) → IsValid c → Appends c (drop pos x) (buf_put c (drop pos x) (length x - pos))
    rest c w =
        put_all-Appends c w (drop pos x) (length x - pos) (length-drop pos x) (omega (arith, h))

    -- The three ways through, each by the bytes that are left.
    bare :
        (n : ℕ)
        → n % 2 ^ 32 ≡ length (drop pos x)
        → Appends b
            (ssh_string (drop pos x))
            (buf_putnum32 b (n % 2 ^ 32) >>= λ c. buf_put c (drop pos x) (length x - pos))
    bare n e =
        Appends-bind b (store_bigendian (length (drop pos x))) (drop pos x) _ _ v
          (subst (λ k. Appends b (store_bigendian k) (buf_putnum32 b (n % 2 ^ 32))) e
            (buf_putnum32-Appends b v (n % 2 ^ 32)))
          (λ c w a. rest c w)

    padded :
        (n : ℕ)
        → n % 2 ^ 32 ≡ suc (length (drop pos x))
        → Appends b (ssh_string (0 ∷ drop pos x)) (
            (buf_putnum32 b (n % 2 ^ 32) >>= λ c. buf_putnum8 c 0) >>= λ c.
            buf_put c (drop pos x) (length x - pos))
    padded n e =
        subst
          (λ z. Appends b z (
            (buf_putnum32 b (n % 2 ^ 32) >>= λ c. buf_putnum8 c 0) >>= λ c.
            buf_put c (drop pos x) (length x - pos)))
          (append_assoc (store_bigendian (suc (length (drop pos x)))) (0 ∷ []) (drop pos x))
          (Appends-bind b (store_bigendian (suc (length (drop pos x))) ++ (0 ∷ [])) (drop pos x) _ _
            v
            (Appends-bind b (store_bigendian (suc (length (drop pos x)))) (0 ∷ []) _ _ v
              (subst (λ k. Appends b (store_bigendian k) (buf_putnum32 b (n % 2 ^ 32))) e
                (buf_putnum32-Appends b v (n % 2 ^ 32)))
              (λ c w a. buf_putnum8-Appends c w 0))
            (λ c w a. rest c w))

    Puts : Outcome Buf → Type 0
    Puts o = Appends b (mpint x) o

    to_mpint :
        (z : List ℕ)
        → z ≡ signed (drop pos x)
        → {o : Outcome Buf} → Appends b (ssh_string z) o
        → Puts o
    to_mpint z e {o} a = subst (λ z. Appends b (ssh_string z) o) (e ∙ ap signed fact.0) a

    cases :
        (y : List ℕ)
        → drop pos x ≡ y
        → Puts (
            (if ltb pos (length x) && not (bit_and (get_or x pos 0) 0x80 == 0)
              then (do b ← buf_putnum32 b ((length x - pos + 1) % 2 ^ 32); buf_putnum8 b 0)
              else buf_putnum32 b ((length x - pos + 0) % 2 ^ 32))
            >>= λ c. buf_put c (drop pos x) (length x - pos))
    cases [] e =
        let n : length x - pos ≡ 0 = omega (arith, length-drop pos x, ap length e) in
        rw (le→ltb-false pos (length x) (omega (arith, n))) (
          to_mpint (drop pos x) (e ∙ sym (ap signed e))
            (bare (length x - pos + 0) (omega (arith, h, length-drop pos x))))
    cases (c ∷ cs) e =
        let n : length x - pos ≡ suc (length cs) = omega (arith, length-drop pos x, ap length e) in
        let first : get_or x pos 0 ≡ c =
          ap (λ k. get_or x k 0) {x = pos} {y = pos + 0} (omega arith)
          ∙ sym (get_or-drop pos 0 x 0)
          ∙ ap (λ z. get_or z 0 0) e in
        rw (lt→ltb pos (length x) (omega (arith, n)), first)
          (elim (Bool-cases (bit_and c 0x80 == 0)) [
            | inl low ↦ rw low (
                to_mpint (drop pos x) (e ∙ sym (ap signed e ∙ rw low refl))
                  (bare (length x - pos + 0) (omega (arith, h, length-drop pos x))))
            | inr high ↦ rw high (
                to_mpint (0 ∷ drop pos x) (ap (◌∷◌ 0) e ∙ sym (ap signed e ∙ rw high refl))
                  (padded (length x - pos + 1) (omega (arith, h, length-drop pos x))))
          ])
