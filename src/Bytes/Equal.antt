-- ===== src/Bytes/Equal.antt =====
-- The comparison of byte.c and of crypto_verify_16.c, in constant time: a difference that is
-- collected over all positions.
use tinyssh.Common.{
  ℕ, zero, suc, ◌+◌, ◌≤◌, ◌<◌, ◌≡◌, refl, ap, ap₂, sym, ◌∙◌, ◌↔◌, List, ◌∷◌, true, ==_iff, arith,
  length, get_or, take, drop, drop-step,
}
use tinyssh.Common.Xor.{bit_xor_self, bit_xor-zero→≡, bit_or-zero→zeros}
use Prim.Native.Nat.{bit_or, bit_xor}
use tinyssh.Bytes.{byte_isequal, diff_loop}

-- The next byte of both.
step :
    (x : List ℕ) (i n : ℕ)
    → i < length x
    → take (suc n) (drop i x) ≡ get_or x i 0 ∷ take n (drop (i + 1) x)
step x i n h =
    ap (take (suc n)) (drop-step x i 0 h)
    ∙ ap (λ k. get_or x i 0 ∷ take n (drop k x)) {x = suc i} (omega arith)

heads : (a b : ℕ) (xs ys : List ℕ) → a ∷ xs ≡ b ∷ ys → (a ≡ b) × (xs ≡ ys)
heads a b xs ys e = (cc, cc)

pub diff_loop-zero :
    (y x : List ℕ) (i d n : ℕ)
    → i + n ≤ length y
    → i + n ≤ length x
    → (diff_loop y x i d n ≡ 0) ↔ ((d ≡ 0) × (take n (drop i y) ≡ take n (drop i x)))
unfolding diff_loop
diff_loop-zero y x i d zero h k = ((λ e. (e, refl)), (λ p. p.0))
diff_loop-zero y x i d (suc n) h k =
    round (diff_loop-zero y x (i + 1) _ n (omega arith) (omega arith))
  where
    d' : ℕ
    d' = bit_or d (bit_xor (get_or x i 0) (get_or y i 0))

    nothing : d ≡ 0 → get_or y i 0 ≡ get_or x i 0 → d' ≡ 0
    nothing e f =
        ap₂ (λ a b. bit_or a (bit_xor (get_or x i 0) b)) e f
        ∙ ap (bit_or 0) (bit_xor_self (get_or x i 0))

    round :
        (diff_loop y x (i + 1) d' n ≡ 0)
          ↔ ((d' ≡ 0) × (take n (drop (i + 1) y) ≡ take n (drop (i + 1) x)))
        → (diff_loop y x (i + 1) d' n ≡ 0)
          ↔ ((d ≡ 0) × (take (suc n) (drop i y) ≡ take (suc n) (drop i x)))
    round ih = (
      (λ e.
          let p = ih.0 e in
          let z = bit_or-zero→zeros d (bit_xor (get_or x i 0) (get_or y i 0)) p.0 in
          let same = bit_xor-zero→≡ (get_or x i 0) (get_or y i 0) z.1 in
          (
            z.0,
            step y i n (omega arith) ∙ ap₂ ◌∷◌ (sym same) p.1 ∙ sym (step x i n (omega arith)),
          )),
      (λ p.
          let t =
            heads (get_or y i 0) (get_or x i 0) _ _
              (sym (step y i n (omega arith)) ∙ p.1 ∙ step x i n (omega arith)) in
          ih.1 (nothing p.0 t.0, t.1)),
    )

-- `byte_isequal` of `n` bytes that both objects have answers true exactly when those are the same.
pub byte_isequal_iff :
    (y x : List ℕ) (n : ℕ)
    → n ≤ length y
    → n ≤ length x
    → (byte_isequal y n x ≡ true) ↔ (take n y ≡ take n x)
unfolding byte_isequal
byte_isequal_iff y x n h k = (
  (λ e. (same.0 ((==_iff (diff_loop y x 0 0 n) 0).0 e)).1),
  (λ e. (==_iff (diff_loop y x 0 0 n) 0).1 (same.1 (refl, e))),
)
  where
    same : (diff_loop y x 0 0 n ≡ 0) ↔ ((◌≡◌ {A = ℕ} 0 0) × (take n y ≡ take n x))
    same = diff_loop-zero y x 0 0 n (omega arith) (omega arith)
