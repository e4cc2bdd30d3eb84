-- ===== src/KeyExchange/Derived.antt =====
-- The derivation of a key in packet_kexdh.c, as RFC 4253 section 7.2 has it.
use tinyssh.Common.{
  ℕ, ◌+◌, ◌≤◌, ◌≡◌, refl, sym, ap, ap₂, ◌∙◌, List, [], ◌∷◌, ◌++◌, arith, append_assoc, length, take,
  take_all, Outcome, Fault, ok, die, ◌>>=◌, Returns, take-take,
}
use tinyssh.Bytes.{byte_copy}
use tinyssh.Bytes.Lengths.{length-byte_copy}
use tinyssh.Bytes.Copy.{byte_copy-splice, take-splice, splice, zeros, length-zeros}
use tinyssh.Buf.{Buf, limit, buf_purge, buf_put}
use tinyssh.Buf.Contents.{IsValid, contents, buf_put-Appends, buf_purge_lem}
use tinyssh.Buf.Puts.{Appends-elim, put_all-Appends, buf_putnum8-Appends}
use tinyssh.Algorithms.{Kex}
use tinyssh.KeyExchange.{Exchange}
use tinyssh.KeyExchange.Kem.{cipher_keymax, Primitives, sshcrypto_buf_putkemkey}
use tinyssh.KeyExchange.NewKeys.{derive_key, derive_keys}
use tinyssh.KeyExchange.Hashed.{shared, secret_size, putkemkey-Appends}

-- `buf_purge` in front of a sequence, for any property of its end.
purge_first {ℓ κ} :
    {A : Type ℓ} (P : Outcome A → Type κ) (b : Buf) (f : Buf → Outcome A)
    → IsValid b
    → ((e : Buf) → IsValid e → contents e ≡ [] → P (f e))
    → P (buf_purge b >>= f)
purge_first P b f v k =
    let (e, purged, ve, zero_len, same, _) = buf_purge_lem b v in
    rw purged (k e ve (ap (λ n. take n e.mem) zero_len))

-- The front of an array with `n` bytes written at `at`.
copied :
    (y x : List ℕ) (at n : ℕ)
    → length x ≡ n
    → at + n ≤ length y
    → take (at + n) (byte_copy y at n x) ≡ take at y ++ x
copied y x at n e h =
    ap (take (at + n)) (byte_copy-splice y at n x (omega (arith, e)) h)
    ∙ ap (λ z. take (at + n) (splice y at z)) (take_all n x (omega (arith, e)))
    ∙ take-splice y x at n (omega (arith, h)) e

copied_first : (y x : List ℕ) (n : ℕ) → length x ≡ n → n ≤ length y → take n (byte_copy y 0 n x) ≡ x
copied_first y x n e h =
    let here : n ≡ 0 + n = omega arith in
    ap (λ k. take k (byte_copy y 0 n x)) here ∙ copied y x 0 n e (omega arith)

-- K1 = HASH(K || H || X || session_id)
abbrev pub first_part : Primitives → Exchange → Kex → List ℕ → List ℕ → ℕ → List ℕ
first_part prims x k secret hash letter =
    prims.digest k.hash
      (shared k.kem secret ++ (hash ++ (letter ∷ take x.sessionid_len x.sessionid)))

-- K2 = HASH(K || H || K1)
abbrev pub second_part : Primitives → Exchange → Kex → List ℕ → List ℕ → ℕ → List ℕ
second_part prims x k secret hash letter =
    prims.digest k.hash (shared k.kem secret ++ (hash ++ first_part prims x k secret hash letter))

-- An array begins with the key of a letter.
abbrev pub Begins : Primitives → Exchange → Kex → List ℕ → List ℕ → ℕ → List ℕ → Type 0
Begins prims x k secret hash letter key =
    take (k.hash_bytes + k.hash_bytes) key
    ≡ first_part prims x k secret hash letter ++ second_part prims x k secret hash letter

module _ (prims : Primitives) (x : Exchange) (k : Kex) (secret hash : List ℕ)
    (digest_length : (m : List ℕ) → length (prims.digest k.hash m) ≡ k.hash_bytes)
    (hash_length : length hash ≡ k.hash_bytes) (hash_small : k.hash_bytes ≤ limit)
    (secret_length : length secret ≡ secret_size k.kem)
    (id_length : x.sessionid_len ≤ length x.sessionid) (id_small : x.sessionid_len ≤ limit) where
  abbrev P : List ℕ → ℕ → Outcome (Buf × List ℕ) → Type 0
  P key letter o =
      Returns o
        (λ r. IsValid r.0 × Begins prims x k secret hash letter r.1 × (length r.1 ≡ length key))

  -- The extension of a key whose first part is there.
  extended :
      (b : Buf) (key key' : List ℕ) (letter : ℕ)
      → IsValid b
      → take k.hash_bytes key' ≡ first_part prims x k secret hash letter
      → length key' ≡ length key
      → k.hash_bytes + k.hash_bytes ≤ length key
      → P key letter (do
        b1 ← buf_purge b
        b1 ← sshcrypto_buf_putkemkey k.kem b1 secret
        b1 ← buf_put b1 hash k.hash_bytes
        b1 ← buf_put b1 key' k.hash_bytes
        ok (
          b1,
          byte_copy key' k.hash_bytes k.hash_bytes (prims.digest k.hash (take b1.len b1.mem)),
        ))
  extended b key key' letter v e same room = purge_first (P key letter) b _ v (λ b0 v0 e0.
      Appends-elim (P key letter) b0 (shared k.kem secret) _ _
        (putkemkey-Appends k.kem b0 secret v0 secret_length)
        (λ b1 v1 _ e1.
          Appends-elim (P key letter) b1 hash _ _
            (put_all-Appends b1 v1 hash k.hash_bytes hash_length hash_small)
            (λ b2 v2 _ e2.
              Appends-elim (P key letter) b2 (take k.hash_bytes key') _ _
                (buf_put-Appends b2 v2 key' k.hash_bytes hash_small (omega (arith, same, room)))
                (λ b3 v3 _ e3. (
                  v3,
                  copied key' (prims.digest k.hash (contents b3)) k.hash_bytes k.hash_bytes
                        (digest_length (contents b3)) (omega (arith, same, room))
                      ∙ ap₂ (λ s t. s ++ prims.digest k.hash t) e
                          (e3
                            ∙ ap₂ ◌++◌
                                (e2
                                  ∙ ap (λ z. z ++ hash)
                                      (e1 ∙ ap (λ z. z ++ shared k.kem secret) e0))
                                e
                            ∙ append_assoc (shared k.kem secret) hash
                                (first_part prims x k secret hash letter)),
                  length-byte_copy key' k.hash_bytes k.hash_bytes
                        (prims.digest k.hash (contents b3))
                      ∙ same,
                ))
                (λ o. tt))
            (λ o. tt))
        (λ o. tt))

  -- With a valid buffer, digests and a hash of the size of the hash function, and room for two of
  -- them, the array of a letter gets as its first bytes the key that RFC 4253 section 7.2 has for
  -- it, K1 = HASH(K || H || X || session_id) and K2 = HASH(K || H || K1) behind it, and keeps its
  -- size; or the process ends because the input of a hash does not fit the buffer.
  pub derive_key-K1-K2 :
      (letter : ℕ) (b : Buf) (key : List ℕ)
      → IsValid b
      → k.hash_bytes + k.hash_bytes ≤ length key
      → Returns
          (derive_key prims x k secret hash letter b key)
          (λ r. IsValid r.0 × Begins prims x k secret hash letter r.1 × (length r.1 ≡ length key))
  unfolding derive_key
  derive_key-K1-K2 letter b key v room = purge_first (P key letter) b _ v (λ b0 v0 e0.
      Appends-elim (P key letter) b0 (shared k.kem secret) _ _
        (putkemkey-Appends k.kem b0 secret v0 secret_length)
        (λ b1 v1 _ e1.
          Appends-elim (P key letter) b1 hash _ _
            (put_all-Appends b1 v1 hash k.hash_bytes hash_length hash_small)
            (λ b2 v2 _ e2.
              Appends-elim (P key letter) b2 (letter ∷ []) _ _ (buf_putnum8-Appends b2 v2 letter)
                (λ b3 v3 _ e3.
                  Appends-elim (P key letter) b3 (take x.sessionid_len x.sessionid) _ _
                    (buf_put-Appends b3 v3 x.sessionid x.sessionid_len id_small id_length)
                    (λ b4 v4 _ e4.
                      extended b4 key
                        (byte_copy key 0 k.hash_bytes (prims.digest k.hash (contents b4))) letter v4
                        (copied_first key (prims.digest k.hash (contents b4)) k.hash_bytes
                            (digest_length (contents b4)) (omega (arith, room))
                          ∙ ap (prims.digest k.hash) (
                              e4
                              ∙ ap (λ z. z ++ take x.sessionid_len x.sessionid)
                                  (e3
                                    ∙ ap (λ z. z ++ letter ∷ [])
                                        (e2
                                          ∙ ap (λ z. z ++ hash)
                                              (e1 ∙ ap (λ z. z ++ shared k.kem secret) e0)))
                              ∙ simp append_assoc refl))
                        (length-byte_copy key 0 k.hash_bytes (prims.digest k.hash (contents b4)))
                        room)
                    (λ o. tt))
                (λ o. tt))
            (λ o. tt))
        (λ o. tt))

-- The array of a key, from the one that is derived.
kept_key :
    (y key xs : List ℕ) (n : ℕ)
    → length key ≡ cipher_keymax
    → n ≤ cipher_keymax
    → cipher_keymax ≤ length y
    → take n key ≡ xs
    → take n (byte_copy y 0 cipher_keymax key) ≡ xs
kept_key y key xs n e h room known =
    sym (take-take n cipher_keymax (byte_copy y 0 cipher_keymax key) h)
    ∙ ap (take n) (copied_first y key cipher_keymax e room)
    ∙ known

-- All six arrays begin with their keys.
pub record AreDerived (prims : Primitives) (x : Exchange) (k : Kex) (secret hash : List ℕ)
    (y : Exchange) : Type 0 where
  pub clientnonce : Begins prims x k secret hash 65 y.clientnonce
  pub servernonce : Begins prims x k secret hash 66 y.servernonce
  pub clientkey : Begins prims x k secret hash 67 y.clientkey
  pub serverkey : Begins prims x k secret hash 68 y.serverkey
  pub clientmackey : Begins prims x k secret hash 69 y.clientmackey
  pub servermackey : Begins prims x k secret hash 70 y.servermackey

module _ (prims : Primitives) (x : Exchange) (k : Kex) (secret hash : List ℕ)
    (digest_length : (m : List ℕ) → length (prims.digest k.hash m) ≡ k.hash_bytes)
    (hash_length : length hash ≡ k.hash_bytes) (hash_small : k.hash_bytes ≤ 64)
    (secret_length : length secret ≡ secret_size k.kem)
    (id_length : x.sessionid_len ≤ length x.sessionid) (id_small : x.sessionid_len ≤ limit) where
  -- One round of the loop over the letters.
  letter_round {κ} :
      (P : Outcome (Buf × Exchange) → Type κ) (letter : ℕ) (b : Buf) (key y : List ℕ)
      (f : Buf × List ℕ → Outcome (Buf × Exchange))
      → IsValid b
      → length key ≡ cipher_keymax
      → cipher_keymax ≤ length y
      → ((e : Fault) → P (die e))
      → ((c : Buf) (key' : List ℕ)
          → IsValid c
          → length key' ≡ cipher_keymax
          → Begins prims x k secret hash letter (byte_copy y 0 cipher_keymax key')
          → P (f (c, key')))
      → P (derive_key prims x k secret hash letter b key >>= f)
  letter_round P letter b key y f v e room dies goes =
      by_outcome (derive_key prims x k secret hash letter b key) (
        derive_key-K1-K2 prims x k secret hash digest_length hash_length (omega (arith, hash_small))
          secret_length id_length id_small letter b key v (omega (arith, e, hash_small)))
    where
      by_outcome :
          (o : Outcome (Buf × List ℕ))
          → Returns o (λ r.
            IsValid r.0 × Begins prims x k secret hash letter r.1 × (length r.1 ≡ length key))
          → P (o >>= f)
      by_outcome (die g) h = dies g
      by_outcome (ok (c, key')) (w, known, size) = goes c key' w (size ∙ e) (
          kept_key y key' _ (k.hash_bytes + k.hash_bytes) (size ∙ e) (omega (arith, hash_small))
            room known)

  -- With a valid buffer, arrays of the size of a key and a hash function of 64 bytes at most whose
  -- digests have its size, each of the six arrays begins with its key when the derivation ends well:
  -- K1 = HASH(K || H || X || session_id) with the array's letter, and K2 = HASH(K || H || K1)
  -- behind it, as RFC 4253 section 7.2 has it.
  pub derive_keys-AreDerived :
      (b : Buf)
      → IsValid b
      → cipher_keymax ≤ length x.clientnonce
      → cipher_keymax ≤ length x.servernonce
      → cipher_keymax ≤ length x.clientkey
      → cipher_keymax ≤ length x.serverkey
      → cipher_keymax ≤ length x.clientmackey
      → cipher_keymax ≤ length x.servermackey
      → Returns (derive_keys prims x k secret hash b) (λ r. AreDerived prims x k secret hash r.1)
  unfolding derive_keys derive_key
  derive_keys-AreDerived b v h1 h2 h3 h4 h5 h6 =
      letter_round P 65 b (zeros cipher_keymax) x.clientnonce _ v (length-zeros cipher_keymax) h1
        (λ e. tt)
        (λ c key v e k1.
          letter_round P 66 c key x.servernonce _ v e h2 (λ e. tt)
            (λ c key v e k2.
              letter_round P 67 c key x.clientkey _ v e h3 (λ e. tt)
                (λ c key v e k3.
                  letter_round P 68 c key x.serverkey _ v e h4 (λ e. tt)
                    (λ c key v e k4.
                      letter_round P 69 c key x.clientmackey _ v e h5 (λ e. tt)
                        (λ c key v e k5.
                          letter_round P 70 c key x.servermackey _ v e h6 (λ e. tt)
                            (λ c key v e k6. record {
                              clientnonce = k1;
                              servernonce = k2;
                              clientkey = k3;
                              serverkey = k4;
                              clientmackey = k5;
                              servermackey = k6;
                            }))))))
    where
      P : Outcome (Buf × Exchange) → Type 0
      P o = Returns o (λ r. AreDerived prims x k secret hash r.1)
