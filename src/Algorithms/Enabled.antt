-- ===== src/Algorithms/Enabled.antt =====
-- Whatever the client's list holds, only an enabled entry is chosen.
use tinyssh.Common.{
  ℕ, zero, suc, ◌≡◌, refl, List, [], ◌∷◌, Bool, true, not, ◌==◌, get_or, drop, Option, none, some,
  ◌⊎◌, inl, inr, arith, ok, proto, Returns, Returns-bind, Returns-check, Returns_ok,
}
use tinyssh.Names.{stringparser, scan_loop, scan}
use tinyssh.Algorithms.{
  find_name, Kex, find_kex, take_kex, kex_body, kex_choice, strict_body, sshcrypto_kex_select, Key,
  find_server_key, key_body, take_found, chosen, sshcrypto_key_select, CipherSuite, find_cipher,
  cipher_body, sshcrypto_cipher_select,
}

-- An entry that is found is enabled.
pub find_name-enabled :
    {A : Type 0} (enabled : A → Bool) (name : A → List ℕ) (table : List A) (x : List ℕ) (n : ℕ)
    {a : A}
    → find_name enabled name table x n ≡ some a
    → enabled a ≡ true
unfolding find_name
find_name-enabled enabled name [] x n h = absurd (cc)
find_name-enabled enabled name (a ∷ table) x n {a = b} h =
    ground (arith, h, find_name-enabled enabled name table x n {a = b})

-- A property of the value, where there is one.
abbrev pub Each : {A : Type 0} → (A → Type 0) → Option A → Type 0
Each P none = Unit
Each P (some a) = P a

-- A property of what a loop returns, where it returns.
abbrev Stops : {S R : Type 0} → (R → Type 0) → S ⊎ R → Type 0
Stops Q (inl s) = Unit
Stops Q (inr r) = Q r

module _ {S R : Type 0} (body : S → List ℕ → ℕ → S ⊎ R) (Q : R → Type 0)
    (each : (s : S) (x : List ℕ) (n : ℕ) → Stops Q (body s x n)) where
  scan_loop-Stops :
      (m : List ℕ) (len fuel pos : ℕ) (s : S) → Returns (scan_loop body m len fuel pos s) (Stops Q)
  unfolding scan_loop
  scan_loop-Stops m len zero pos s = tt
  scan_loop-Stops m len (suc fuel) pos s =
      Returns-bind (Stops Q) (stringparser m len pos) _
        (λ item e. met item (λ next t. scan_loop-Stops m len fuel next t))
    where
      ended :
          (next : ℕ) (c : S ⊎ R)
          → Stops Q c
          → ((next : ℕ) (t : S) → Returns (scan_loop body m len fuel next t) (Stops Q))
          → Returns
              (elim c [ inl t ↦ scan_loop body m len fuel next t | inr r ↦ ok (inr r) ])
              (Stops Q)
      ended next (inl t) q later = later next t
      ended next (inr r) q later = q

      met :
          (item : Option (ℕ × ℕ × ℕ))
          → ((next : ℕ) (t : S) → Returns (scan_loop body m len fuel next t) (Stops Q))
          → Returns
              (elim item [
                | none ↦ ok (inl s)
                | some (at, xlen, next) ↦ elim (body s (drop at m) xlen) [
                  | inl t ↦ scan_loop body m len fuel next t
                  | inr r ↦ ok (inr r)
                ]
              ])
              (Stops Q)
      met none later = tt
      met (some (at, xlen, next)) later =
          ended next (body s (drop at m) xlen) (each s (drop at m) xlen) later

  scan-Stops : (m : List ℕ) (len : ℕ) (s : S) {r : S ⊎ R} → scan body m len s ≡ ok r → Stops Q r
  unfolding scan
  scan-Stops m len s h =
      Returns_ok (Stops Q) (scan body m len s) (scan_loop-Stops m len (suc len) 0 s) h

take_found-Stops :
    {S A : Type 0} (P : A → Type 0) (s : S) (o : Option A)
    → ((a : A) → o ≡ some a → P a)
    → Stops P (take_found s o)
unfolding take_found
take_found-Stops P s none h = tt
take_found-Stops P s (some a) h = h a refl

chosen-Each : {A : Type 0} (P : A → Type 0) (r : Unit {0} ⊎ A) → Stops P r → Each P (chosen r)
unfolding chosen
chosen-Each P (inl s) h = tt
chosen-Each P (inr a) h = h

take_kex-Stops :
    (P : Kex → Type 0) (s : Bool) (o : Option Kex)
    → ((k : Kex) → o ≡ some k → P k)
    → Stops (λ (r : Bool × Kex). P r.1) (take_kex s o)
unfolding take_kex
take_kex-Stops P s none h = tt
take_kex-Stops P s (some k) h = h k refl

kex_choice-Each :
    (P : Kex → Type 0) (c : Bool ⊎ Unit {0}) (r : Bool ⊎ (Bool × Kex))
    → Stops (λ (r : Bool × Kex). P r.1) r
    → Each P (kex_choice c r).kex
unfolding kex_choice
kex_choice-Each P (inl c) (inl s) h = tt
kex_choice-Each P (inl c) (inr (s, k)) h = h
kex_choice-Each P (inr c) r h = tt

pub key_select-enabled :
    (keys : List Key) (m : List ℕ) (len : ℕ)
    → Returns (sshcrypto_key_select keys m len) (Each (λ k. k.sign_flagserver ≡ true))
unfolding sshcrypto_key_select key_body find_server_key
key_select-enabled keys m len = Returns-check _ (not (get_or m len 0 == 0)) proto _ (
    Returns-bind _ (scan (key_body keys) m len tt) _ (λ r e. chosen-Each Serves r (
      scan-Stops (key_body keys) Serves
        (λ s x n.
          take_found-Stops Serves s (find_server_key keys x n)
            (λ k. find_name-enabled (λ k. k.sign_flagserver) (λ k. k.name) keys x n))
        m len tt e)))
  where
    Serves : Key → Type 0
    Serves k = k.sign_flagserver ≡ true

pub cipher_select-enabled :
    (ciphers : List CipherSuite) (m : List ℕ) (len : ℕ)
    → Returns (sshcrypto_cipher_select ciphers m len) (Each (λ c. c.flagenabled ≡ true))
unfolding sshcrypto_cipher_select cipher_body find_cipher
cipher_select-enabled ciphers m len = Returns-check _ (not (get_or m len 0 == 0)) proto _ (
    Returns-bind _ (scan (cipher_body ciphers) m len tt) _ (λ r e. chosen-Each Serves r (
      scan-Stops (cipher_body ciphers) Serves
        (λ s x n.
          take_found-Stops Serves s (find_cipher ciphers x n)
            (λ k. find_name-enabled (λ k. k.flagenabled) (λ k. k.name) ciphers x n))
        m len tt e)))
  where
    Serves : CipherSuite → Type 0
    Serves c = c.flagenabled ≡ true

pub kex_select-enabled :
    (kexs : List Kex) (m : List ℕ) (len : ℕ) (strict : Bool)
    → Returns (sshcrypto_kex_select kexs m len strict) (λ c. Each (λ k. k.flagenabled ≡ true) c.kex)
unfolding sshcrypto_kex_select kex_body find_kex
kex_select-enabled kexs m len strict = Returns-check _ (not (get_or m len 0 == 0)) proto _ (
    Returns-bind _ (scan strict_body m len strict) _ (λ c e.
      Returns-bind _ (scan (kex_body kexs) m len true) _ (λ r e. kex_choice-Each Serves c r (
        scan-Stops (kex_body kexs) (λ r. Serves r.1)
          (λ s x n.
            take_kex-Stops Serves s (find_kex kexs x n)
              (λ k. find_name-enabled (λ k. k.flagenabled) (λ k. k.name) kexs x n))
          m len true e))))
  where
    Serves : Kex → Type 0
    Serves k = k.flagenabled ≡ true
