-- ===== src/Chacha20/Under.antt =====
-- Lists of bytes under the bytes of a key stream.
use tinyssh.Common.{
  ℕ, suc, ◌+◌, ◌≤◌, ◌<◌, ◌≡◌, refl, ap, ap₂, ◌∙◌, List, [], ◌∷◌, ◌++◌, arith, length, All, get_or,
  take,
}
use Prim.Native.Nat.{bit_xor}
use tinyssh.Common.Xor.{bit_xor_twice, bit_xor_comm, bit_xor-lt}

abbrev pub IsByte : ℕ → Type 0
IsByte b = b < 256

-- The message under the bytes of a key stream from its `i`-th on.
unfoldable pub under : (ℕ → ℕ) → ℕ → List ℕ → List ℕ
under f i [] = []
under f i (b ∷ m) = bit_xor (f i) b ∷ under f (i + 1) m

pub length-under : (f : ℕ → ℕ) (i : ℕ) (m : List ℕ) → length (under f i m) ≡ length m
unfolding under
length-under f i [] = refl
length-under f i (b ∷ m) = ap suc (length-under f (i + 1) m)

pub under_twice : (f : ℕ → ℕ) (i : ℕ) (m : List ℕ) → under f i (under f i m) ≡ m
unfolding under
under_twice f i [] = refl
under_twice f i (b ∷ m) =
    ap₂ ◌∷◌
      (bit_xor_comm (f i) (bit_xor (f i) b)
        ∙ ap (λ t. bit_xor t (f i)) (bit_xor_comm (f i) b)
        ∙ bit_xor_twice b (f i))
      (under_twice f (i + 1) m)

pub under-append :
    (f : ℕ → ℕ) (i : ℕ) (m o : List ℕ)
    → under f i (m ++ o) ≡ under f i m ++ under f (i + length m) o
unfolding under
under-append f i [] o = ap (λ j. under f j o) (omega arith)
under-append f i (b ∷ m) o =
    let step : i + 1 + length m ≡ i + suc (length m) = omega arith in
    ap (◌∷◌ (bit_xor (f i) b))
      (under-append f (i + 1) m o ∙ ap (λ j. under f (i + 1) m ++ under f j o) step)

-- Two lists of bytes, as far as both go.
unfoldable pub xor_bytes : List ℕ → List ℕ → List ℕ
xor_bytes [] m = []
xor_bytes (a ∷ s) [] = []
xor_bytes (a ∷ s) (b ∷ m) = bit_xor a b ∷ xor_bytes s m

pub xor_bytes-under :
    (s m : List ℕ) (f : ℕ → ℕ) (i : ℕ)
    → length m ≤ length s
    → ((t : ℕ) → t < length m → get_or s t 0 ≡ f (i + t))
    → xor_bytes s m ≡ under f i m
unfolding xor_bytes under
xor_bytes-under [] [] f i h e = refl
xor_bytes-under [] (b ∷ m) f i h e = absurd (omega arith)
xor_bytes-under (a ∷ s) [] f i h e = refl
xor_bytes-under (a ∷ s) (b ∷ m) f i h e =
    let here : i + 0 ≡ i = omega arith in
    ap₂ ◌∷◌ (ap (λ t. bit_xor t b) (e 0 (omega arith) ∙ ap f here)) (
      xor_bytes-under s m f (i + 1) (omega arith) (λ t k.
        let next : i + suc t ≡ i + 1 + t = omega arith in e (suc t) (omega arith) ∙ ap f next))

pub take-xor_bytes :
    (s m o : List ℕ) → length m ≤ length s → take (length m) (xor_bytes s (m ++ o)) ≡ xor_bytes s m
unfolding xor_bytes
take-xor_bytes [] [] o h = refl
take-xor_bytes [] (b ∷ m) o h = absurd (omega arith)
take-xor_bytes (a ∷ s) [] o h = refl
take-xor_bytes (a ∷ s) (b ∷ m) o h = ap (◌∷◌ (bit_xor a b)) (take-xor_bytes s m o (omega arith))

pub under-All :
    (f : ℕ → ℕ) (i : ℕ) (m : List ℕ)
    → ((j : ℕ) → f j < 256)
    → All IsByte m
    → All IsByte (under f i m)
unfolding under
under-All f i [] h bytes = tt
under-All f i (b ∷ m) h (p, bytes) = (bit_xor-lt 8 (f i) b (h i) p, under-All f (i + 1) m h bytes)
