-- ===== src/Algorithms/Select.antt =====
-- What `sshcrypto_kex_select`, `sshcrypto_key_select` and `sshcrypto_cipher_select` answer.
use tinyssh.Common.{
  ℕ, ◌+◌, ◌≤◌, ◌<◌, ◌≡◌, refl, sym, ap, ◌∙◌, List, [], ◌∷◌, arith, length, take, drop, get_or,
  length-take, length-drop, Bool, true, false, ◌||◌, ◌↔◌, Option, ◌⊎◌, inl, inr, ok, subst,
  take_all,
}
use mathlib.Core.List.{Memᴰ}
use mathlib.Core.List.Memᴰ.{head, tail, not-nil}
use tinyssh.Buf.{limit}
use tinyssh.Str.{str_equaln}
use tinyssh.Str.Laws.{text, str_equaln_iff, str_equaln-take}
use tinyssh.Names.{scan}
use tinyssh.Names.Items.{items, walk, scan-walk}
use tinyssh.Algorithms.{
  Kex, find_kex, KexChoice, kex_choice, kex_body, take_kex, strict_body, strict_client,
  sshcrypto_kex_select, Key, find_server_key, key_body, chosen, take_found, sshcrypto_key_select,
  CipherSuite, find_cipher, cipher_body, sshcrypto_cipher_select,
}
use tinyssh.Algorithms.Choice.{Preferred, Ends, ends_inl, ends_inr, after, scan-Ends}

abbrev pub empty : List (List ℕ) → Bool
empty [] = true
empty (x ∷ xs) = false

guess-false : (names : List (List ℕ)) → after (λ s. false) names false ≡ false
guess-false [] = refl
guess-false (x ∷ xs) = guess-false xs

guess-empty : (names : List (List ℕ)) → after (λ s. false) names true ≡ empty names
guess-empty [] = refl
guess-empty (x ∷ xs) = guess-false xs

-- The loop over the pseudo algorithms.
abbrev mark : Bool → List ℕ → Bool ⊎ Unit {0}
mark s x = inl (s || str_equaln x (length x) strict_client)

abbrev pub Marked : Bool → List (List ℕ) → Bool → Type 0
Marked s xs t = (t ≡ true) ↔ ((s ≡ true) ⊎ Memᴰ (text strict_client) xs)

or_iff : (a b : Bool) → ((a || b) ≡ true) ↔ ((a ≡ true) ⊎ (b ≡ true))
or_iff true b = ((λ e. inl refl), (λ e. refl))
or_iff false b = ((λ e. inr e), (λ e. elim e [ inl f ↦ absurd (cc) | inr f ↦ f ]))

named_iff : (x : List ℕ) → (str_equaln x (length x) strict_client ≡ true) ↔ (x ≡ text strict_client)
named_iff x =
    subst (λ z. (str_equaln x (length x) strict_client ≡ true) ↔ (z ≡ text strict_client))
      (take_all (length x) x (omega arith))
      (str_equaln_iff x strict_client (length x) (omega arith))

walk-mark : (s : Bool) (xs : List (List ℕ)) → (t : Bool) × (walk mark xs s ≡ inl t) × Marked s xs t
walk-mark s [] = (s, refl, ((λ e. inl e), (λ e. elim e [ inl f ↦ f | inr q ↦ absurd (not-nil q) ])))
walk-mark s (x ∷ xs) =
    let r = walk-mark (s || str_equaln x (length x) strict_client) xs in
    (r.0, r.1, ((λ e. forth (r.2.0 e)), (λ e. r.2.1 (back e))))
  where
    forth :
        (((s || str_equaln x (length x) strict_client) ≡ true) ⊎ Memᴰ (text strict_client) xs)
        → (s ≡ true) ⊎ Memᴰ (text strict_client) (x ∷ xs)
    forth (inr q) = inr (tail q)
    forth (inl e) = elim ((or_iff s _).0 e) [
      | inl f ↦ inl f
      | inr f ↦ inr (head (sym ((named_iff x).0 f)))
    ]

    back :
        ((s ≡ true) ⊎ Memᴰ (text strict_client) (x ∷ xs))
        → ((s || str_equaln x (length x) strict_client) ≡ true) ⊎ Memᴰ (text strict_client) xs
    back (inl e) = inl ((or_iff s _).1 (inl e))
    back (inr (head e)) = inl ((or_iff s _).1 (inr ((named_iff x).1 (sym e))))
    back (inr (tail q)) = inr q

scan-Marked :
    (m : List ℕ) (len : ℕ) (s : Bool)
    → len ≤ length m
    → len < limit
    → (t : Bool) × (scan strict_body m len s ≡ ok (inl t)) × Marked s (items (take len m)) t
unfolding strict_body
scan-Marked m len s fits small =
    let r = walk-mark s (items (take len m)) in
    (
      r.0,
      scan-walk strict_body mark m len fits small
            (λ t at xlen h. ap (λ b. inl (t || b)) (local at xlen h)) s
          ∙ ap ok r.1,
      r.2,
    )
  where
    local :
        (at xlen : ℕ)
        → at + xlen ≤ len
        → str_equaln (drop at m) xlen strict_client
          ≡ str_equaln (take xlen (drop at m)) (length (take xlen (drop at m))) strict_client
    local at xlen h =
        sym (
          str_equaln-take (drop at m) strict_client xlen (omega (arith, h, fits, length-drop at m)))
        ∙ ap (λ n. str_equaln (take xlen (drop at m)) n strict_client) {x = xlen}
            {y = length (take xlen (drop at m))}
            (omega (arith, h, fits, length-drop at m, length-take xlen (drop at m)))

chosen-Preferred :
    {A : Type 0} (enabled : A → Bool) (name : A → List ℕ) (table : List A) (names : List (List ℕ))
    {r : Unit {0} ⊎ A}
    → Ends enabled name table (λ (s : Unit {0}). s) (λ s a. a) names tt r
    → (before : List (List ℕ)) × Preferred enabled name table names before (chosen r)
unfolding chosen
chosen-Preferred enabled name table names (ends_inl q) = (_, q)
chosen-Preferred enabled name table names (ends_inr q) = (_, q)

-- With the client's list behind the NUL check, `sshcrypto_key_select` ends well. It answers the
-- first entry of the server's table that is enabled and has the first of the client's names that
-- any such entry has; without such a name it answers 0.
pub sshcrypto_key_select-Preferred :
    (keys : List Key) (m : List ℕ) (len : ℕ)
    → len ≤ length m
    → len < limit
    → get_or m len 0 ≡ 0
    → (k : Option Key) × (before : List (List ℕ)) × (sshcrypto_key_select keys m len ≡ ok k)
      × Preferred (λ k. k.sign_flagserver) (λ k. k.name) keys (items (take len m)) before k
unfolding sshcrypto_key_select find_server_key key_body take_found
sshcrypto_key_select-Preferred keys m len fits small closed =
    let r =
      scan-Ends (λ k. k.sign_flagserver) (λ (k : Key). k.name) keys (λ (s : Unit {0}). s) (λ s a. a)
        (key_body keys) m len tt (λ s x n. refl) fits small in
    let q =
      chosen-Preferred (λ k. k.sign_flagserver) (λ (k : Key). k.name) keys (items (take len m))
        r.2 in
    (chosen r.0, q.0, rw (closed, r.1) refl, q.1)

-- With the client's list behind the NUL check, `sshcrypto_cipher_select` ends well. It answers the
-- first entry of the table that is enabled and has the first of the client's names that any such
-- entry has; without such a name it answers 0.
pub sshcrypto_cipher_select-Preferred :
    (ciphers : List CipherSuite) (m : List ℕ) (len : ℕ)
    → len ≤ length m
    → len < limit
    → get_or m len 0 ≡ 0
    → (c : Option CipherSuite) × (before : List (List ℕ)) × (sshcrypto_cipher_select ciphers m len
        ≡ ok c)
      × Preferred (λ c. c.flagenabled) (λ c. c.name) ciphers (items (take len m)) before c
unfolding sshcrypto_cipher_select find_cipher cipher_body take_found
sshcrypto_cipher_select-Preferred ciphers m len fits small closed =
    let r =
      scan-Ends (λ c. c.flagenabled) (λ (c : CipherSuite). c.name) ciphers (λ (s : Unit {0}). s)
        (λ s a. a) (cipher_body ciphers) m len tt (λ s x n. refl) fits small in
    let q =
      chosen-Preferred (λ c. c.flagenabled) (λ (c : CipherSuite). c.name) ciphers
        (items (take len m)) r.2 in
    (chosen r.0, q.0, rw (closed, r.1) refl, q.1)

kex_choice-Preferred :
    (kexs : List Kex) (names : List (List ℕ)) (strict : Bool) {r : Bool ⊎ (Bool × Kex)}
    → Ends
        (λ k. k.flagenabled)
        (λ (k : Kex). k.name)
        kexs
        (λ (s : Bool). false)
        (λ s a. (s, a))
        names
        true
        r
    → (before : List (List ℕ)) × Preferred
        (λ k. k.flagenabled)
        (λ (k : Kex). k.name)
        kexs
        names
        before
        (kex_choice (inl strict) r).kex
      × ((kex_choice (inl strict) r).guess ≡ empty before)
      × ((kex_choice (inl strict) r).strict ≡ strict)
unfolding kex_choice
kex_choice-Preferred kexs names strict (ends_inl q) = (_, q, guess-empty _, refl)
kex_choice-Preferred kexs names strict (ends_inr q) = (_, q, guess-empty _, refl)

-- With the client's list behind the NUL check, `sshcrypto_kex_select` ends well. It chooses the first
-- enabled entry of the first of the client's names that any such entry has; its guess is right
-- if and only if that is the client's first name, whatever the host keys; and the strict key exchange
-- is on after it if and only if it was before or the client's list has the marker, in a later
-- exchange as in the first one. tests-plan.md wants the host key to count for the guess (GSS-05), and
-- a marker that is first seen in a later exchange to have no effect (SKX-18).
pub sshcrypto_kex_select-Preferred :
    (kexs : List Kex) (m : List ℕ) (len : ℕ) (strict : Bool)
    → len ≤ length m
    → len < limit
    → get_or m len 0 ≡ 0
    → (c : KexChoice) × (before : List (List ℕ)) × (sshcrypto_kex_select kexs m len strict ≡ ok c)
      × Preferred (λ k. k.flagenabled) (λ k. k.name) kexs (items (take len m)) before c.kex
      × (c.guess ≡ empty before)
      × Marked strict (items (take len m)) c.strict
unfolding sshcrypto_kex_select find_kex kex_body take_kex
sshcrypto_kex_select-Preferred kexs m len strict fits small closed =
    let t = scan-Marked m len strict fits small in
    let r =
      scan-Ends (λ k. k.flagenabled) (λ (k : Kex). k.name) kexs (λ (s : Bool). false)
        (λ s a. (s, a)) (kex_body kexs) m len true (λ s x n. refl) fits small in
    let q = kex_choice-Preferred kexs (items (take len m)) t.0 r.2 in
    (
      kex_choice (inl t.0) r.0,
      q.0,
      rw (closed, t.1, r.1) refl,
      q.1,
      q.2,
      subst (Marked strict (items (take len m))) (sym q.3) t.2,
    )
