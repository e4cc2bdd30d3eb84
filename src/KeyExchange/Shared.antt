-- ===== src/KeyExchange/Shared.antt =====
-- The loop of packet_kexdh.c around the encapsulation.
use tinyssh.Common.{
  ◌⊎◌, ℕ, zero, suc, ◌+◌, ◌≤◌, ◌<◌, ◌≡◌, ◌≢◌, ap, ◌∙◌, List, true, false, ◌&&◌, ◌==◌, get_or, some,
  none, arith, Outcome, ok, die, proto, Option,
}
use tinyssh.Algorithms.{Kex}
use tinyssh.KeyExchange.Kem.{Primitives, sshcrypto_enc, enc_loop}

-- A call of curve25519 whose secret begins with 0, which is drawn again.
abbrev pub IsDrawnAgain : Primitives → Kex → List ℕ → ℕ → Type 0
IsDrawnAgain prims k clientpk call =
    (serverpk sharedsecret : List ℕ) × (sshcrypto_enc prims k.kem call clientpk
      ≡ some (serverpk, sharedsecret))
    × (get_or sharedsecret 0 0 ≡ 0)
    × (k.kem_publickeybytes ≡ 32)

-- A secret that ends the loop: its first byte is not 0, or the method's public keys are not of the
-- 32 bytes of curve25519.
abbrev pub IsGood : Kex → List ℕ → Type 0
IsGood k sharedsecret = (get_or sharedsecret 0 0 ≢ 0) ⊎ (k.kem_publickeybytes ≢ 32)

-- A round, by what the call gives.
abbrev judge_call :
    Primitives → Kex → List ℕ → ℕ → ℕ → Option (List ℕ × List ℕ) → Outcome (List ℕ × List ℕ)
judge_call prims k clientpk call left o = elim o [
  | none ↦ die proto
  | some (serverpk, sharedsecret) ↦
      elim (get_or sharedsecret 0 0 == 0 && k.kem_publickeybytes == 32) [
        | true ↦ enc_loop prims k clientpk (call + 1) left
        | false ↦ ok (serverpk, sharedsecret)
      ]
]

enc_loop_lem :
    (prims : Primitives) (k : Kex) (clientpk : List ℕ) (call left : ℕ)
    {o : Option (List ℕ × List ℕ)}
    → sshcrypto_enc prims k.kem call clientpk ≡ o
    → enc_loop prims k clientpk call (suc left) ≡ judge_call prims k clientpk call left o
unfolding enc_loop
enc_loop_lem prims k clientpk call left e = ap (judge_call prims k clientpk call left) e

good_call :
    (prims : Primitives) (k : Kex) (clientpk serverpk sharedsecret : List ℕ) (call left : ℕ)
    → IsGood k sharedsecret
    → judge_call prims k clientpk call left (some (serverpk, sharedsecret))
      ≡ ok (serverpk, sharedsecret)
good_call prims k clientpk serverpk sharedsecret call left good =
    ap
      (λ b. elim b [
        | true ↦ enc_loop prims k clientpk (call + 1) left
        | false ↦ ok (serverpk, sharedsecret)
      ])
      (differs (get_or sharedsecret 0 0) k.kem_publickeybytes good)
  where
    differs : (a n : ℕ) → (a ≢ 0) ⊎ (n ≢ 32) → (a == 0 && n == 32) ≡ false
    differs a n h = ground (arith, h)

drawn_again :
    (prims : Primitives) (k : Kex) (clientpk serverpk sharedsecret : List ℕ) (call left : ℕ)
    → get_or sharedsecret 0 0 ≡ 0
    → k.kem_publickeybytes ≡ 32
    → judge_call prims k clientpk call left (some (serverpk, sharedsecret))
      ≡ enc_loop prims k clientpk (call + 1) left
drawn_again prims k clientpk serverpk sharedsecret call left z n =
    ap
      (λ b. elim b [
        | true ↦ enc_loop prims k clientpk (call + 1) left
        | false ↦ ok (serverpk, sharedsecret)
      ])
      (both (get_or sharedsecret 0 0) k.kem_publickeybytes z n)
  where
    both : (a n : ℕ) → a ≡ 0 → n ≡ 32 → (a == 0 && n == 32) ≡ true
    both a n h k = ground (arith, h, k)

-- The loop ends with what the first call gives whose secret does not begin with 0 or whose method
-- has public keys of another size than the 32 bytes of curve25519, and so with the first call of such
-- a method whatever it gives; the calls before it have not failed, and there is a round more than
-- there are calls before it.
pub enc_loop-finishes :
    (prims : Primitives) (k : Kex) (clientpk serverpk sharedsecret : List ℕ) (before call tries : ℕ)
    → ((i : ℕ) → call ≤ i → i < call + before → IsDrawnAgain prims k clientpk i)
    → sshcrypto_enc prims k.kem (call + before) clientpk ≡ some (serverpk, sharedsecret)
    → IsGood k sharedsecret
    → before < tries
    → enc_loop prims k clientpk call tries ≡ ok (serverpk, sharedsecret)
enc_loop-finishes prims k clientpk serverpk sharedsecret before call zero again gives good enough =
    absurd (omega (arith, enough))
enc_loop-finishes prims k clientpk serverpk sharedsecret zero call (suc left) again gives good
      enough =
    enc_loop_lem prims k clientpk call left (
      ap (λ i. sshcrypto_enc prims k.kem i clientpk) {x = call} {y = call + 0} (omega arith)
      ∙ gives)
    ∙ good_call prims k clientpk serverpk sharedsecret call left good
enc_loop-finishes prims k clientpk serverpk sharedsecret (suc before) call (suc left) again gives
      good enough =
    let (p, s, e, z, n) = again call (omega arith) (omega arith) in
    enc_loop_lem prims k clientpk call left e
    ∙ drawn_again prims k clientpk p s call left z n
    ∙ (enc_loop-finishes prims k clientpk serverpk sharedsecret before (call + 1) left
        (λ i a b. again i (omega (arith, a)) (omega (arith, b)))
        (ap (λ i. sshcrypto_enc prims k.kem i clientpk) {x = call + 1 + before}
            {y = call + suc before} (omega arith)
          ∙ gives)
        good (omega (arith, enough)))
