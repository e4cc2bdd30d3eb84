-- ===== src/Algorithms.antt =====
-- The tables of sshcrypto_kex.c, sshcrypto_key.c and sshcrypto_cipher.c, the choice of an algorithm
-- from the client's list, and the server's own lists. A pointer to a function is the constructor of a
-- data type. The lists are given by the memory that they start in and their length.
pub mod Choice
pub mod Select
pub mod Enabled
pub mod Offers
use tinyssh.Common.{
  ℕ, zero, ◌+◌, ◌%◌, ◌^◌, List, [], ◌∷◌, ◌++◌, Bool, true, false, not, ◌&&◌, ◌||◌, ◌==◌,
  if◌then◌else◌, get_or, set, Option, none, some, ◌⊎◌, inl, inr, Outcome, ok, proto, die_if, ◌>>=◌,
  ◌>>◌, bit_and,
}
use tinyssh.Buf.{Buf, buf_putnum32, buf_puts, buf_putstring}
use tinyssh.Str.{str_len, str_equaln, literal}
use tinyssh.Names.{scan}

pub data Kem : Type 0 where
  curve25519 sntrup761x25519 : Kem

pub data Hash : Type 0 where
  sha256 sha512 : Hash

pub record Kex : Type 0 where
  pub name : List ℕ
  pub kem : Kem
  pub kem_publickeybytes : ℕ
  pub kem_ciphertextbytes : ℕ
  pub kem_bytes : ℕ
  pub hash : Hash
  pub hash_bytes : ℕ
  pub cryptotype : ℕ
  pub flagenabled : Bool

abbrev type_newcrypto : ℕ
type_newcrypto = 0x2

abbrev type_pqcrypto : ℕ
type_pqcrypto = 0x4

abbrev curve25519_kex : List ℕ → Kex
curve25519_kex name = record {
  name = name;
  kem = curve25519;
  kem_publickeybytes = 32;
  kem_ciphertextbytes = 32;
  kem_bytes = 32;
  hash = sha256;
  hash_bytes = 32;
  cryptotype = type_newcrypto;
  flagenabled = false;
}

abbrev sntrup761x25519_kex : List ℕ → Kex
sntrup761x25519_kex name = record {
  name = name;
  kem = sntrup761x25519;
  kem_publickeybytes = 1190;
  kem_ciphertextbytes = 1071;
  kem_bytes = 64;
  hash = sha512;
  hash_bytes = 64;
  cryptotype = type_pqcrypto;
  flagenabled = false;
}

abbrev pub sshcrypto_kexs : List Kex
sshcrypto_kexs =
    curve25519_kex (literal "curve25519-sha256")
    ∷ curve25519_kex (literal "curve25519-sha256@libssh.org")
    ∷ sntrup761x25519_kex (literal "sntrup761x25519-sha512")
    ∷ sntrup761x25519_kex (literal "sntrup761x25519-sha512@openssh.com")
    ∷ []

-- `sshcrypto_pseudokexs`: its one entry, for the strict key exchange.
abbrev pub strict_server : List ℕ
strict_server = literal "kex-strict-s-v00@openssh.com"

abbrev pub strict_client : List ℕ
strict_client = literal "kex-strict-c-v00@openssh.com"

-- A host key: of the functions only the ones of ssh-ed25519 exist.
pub record Key : Type 0 where
  pub name : List ℕ
  pub sign_publickey : List ℕ
  pub sign_publickeybytes : ℕ
  pub sign_bytes : ℕ
  pub cryptotype : ℕ
  pub sign_flagserver : Bool
  pub sign_flagclient : Bool

-- `sshcrypto_keys`, with the public key that main_tinysshd.c loads.
abbrev pub sshcrypto_keys : List ℕ → List Key
sshcrypto_keys publickey =
    (record {
      name = literal "ssh-ed25519";
      sign_publickey = publickey;
      sign_publickeybytes = 32;
      sign_bytes = 64;
      cryptotype = type_newcrypto;
      sign_flagserver = false;
      sign_flagclient = false;
    })
    ∷ []

pub record CipherSuite : Type 0 where
  pub name : List ℕ
  pub stream_keybytes : ℕ
  pub cipher_blockbytes : ℕ
  pub auth_bytes : ℕ
  pub cryptotype : ℕ
  pub flagenabled : Bool

abbrev pub sshcrypto_ciphers : List CipherSuite
sshcrypto_ciphers =
    (record {
      name = literal "chacha20-poly1305@openssh.com";
      stream_keybytes = 64;
      cipher_blockbytes = 8;
      auth_bytes = 16;
      cryptotype = 0x6;
      flagenabled = false;
    })
    ∷ []

-- `for (i = 0; table[i].name; ++i)`, past the disabled entries, up to the first of this name.
unfoldable pub find_name : {A : Type 0} → (A → Bool) → (A → List ℕ) → List A → List ℕ → ℕ → Option A
find_name enabled name [] x xlen = none
find_name enabled name (a ∷ rest) x xlen =
    if not (enabled a)
    then find_name enabled name rest x xlen
    else if str_equaln x xlen (name a)
    then some a
    else find_name enabled name rest x xlen

unfoldable pub find_kex : List Kex → List ℕ → ℕ → Option Kex
unfolding find_name
find_kex kexs x xlen = find_name (λ k. k.flagenabled) (λ k. k.name) kexs x xlen

unfoldable pub find_server_key : List Key → List ℕ → ℕ → Option Key
unfolding find_name
find_server_key keys x xlen = find_name (λ k. k.sign_flagserver) (λ k. k.name) keys x xlen

unfoldable pub find_cipher : List CipherSuite → List ℕ → ℕ → Option CipherSuite
unfolding find_name
find_cipher ciphers x xlen = find_name (λ c. c.flagenabled) (λ c. c.name) ciphers x xlen

-- What the loop over the client's names does: return the entry, or go on with the state `missed`.
unfoldable pub take_found : {S A : Type 0} → S → Option A → S ⊎ A
take_found missed none = inl missed
take_found missed (some a) = inr a

-- What `sshcrypto_kex_select` sets: the chosen entry, if any, `*kex_guess`, and the strict key
-- exchange in `sshcrypto_kex_flags`.
pub record KexChoice : Type 0 where
  pub kex : Option Kex
  pub guess : Bool
  pub strict : Bool

-- With the loops' results: the answer 0 is `kex = none`.
unfoldable pub kex_choice : Bool ⊎ Unit {0} → Bool ⊎ (Bool × Kex) → KexChoice
kex_choice (inl strict) (inl guess) = record { kex = none; guess = guess; strict = strict }
kex_choice (inl strict) (inr (guess, k)) = record { kex = some k; guess = guess; strict = strict }
kex_choice (inr _) r = record { kex = none; guess = false; strict = false }

unfoldable pub take_kex : Bool → Option Kex → Bool ⊎ (Bool × Kex)
take_kex guess none = inl false
take_kex guess (some k) = inr (guess, k)

-- The body of the loop over the client's names; the state is `*kex_guess`.
unfoldable pub kex_body : List Kex → Bool → List ℕ → ℕ → Bool ⊎ (Bool × Kex)
kex_body kexs guess x xlen = take_kex guess (find_kex kexs x xlen)

-- The body of the loop over the pseudo algorithms; it never returns.
unfoldable pub strict_body : Bool → List ℕ → ℕ → Bool ⊎ Unit {0}
strict_body strict x xlen = inl (strict || str_equaln x xlen strict_client)

unfoldable pub sshcrypto_kex_select : List Kex → List ℕ → ℕ → Bool → Outcome KexChoice
unfolding kex_choice
sshcrypto_kex_select kexs m len strict = do
  die_if (not (get_or m len 0 == 0)) proto
  strict ← scan strict_body m len strict
  r ← scan (kex_body kexs) m len true
  ok (kex_choice strict r)

unfoldable pub key_body : List Key → Unit {0} → List ℕ → ℕ → Unit {0} ⊎ Key
key_body keys s x xlen = take_found s (find_server_key keys x xlen)

unfoldable pub chosen : {A : Type 0} → Unit {0} ⊎ A → Option A
chosen (inl s) = none
chosen (inr a) = some a

unfoldable pub sshcrypto_key_select : List Key → List ℕ → ℕ → Outcome (Option Key)
sshcrypto_key_select keys m len = do
  die_if (not (get_or m len 0 == 0)) proto
  r ← scan (key_body keys) m len tt
  ok (chosen r)

unfoldable pub cipher_body : List CipherSuite → Unit {0} → List ℕ → ℕ → Unit {0} ⊎ CipherSuite
cipher_body ciphers s x xlen = take_found s (find_cipher ciphers x xlen)

unfoldable pub sshcrypto_cipher_select :
    List CipherSuite → List ℕ → ℕ → Outcome (Option CipherSuite)
sshcrypto_cipher_select ciphers m len = do
  die_if (not (get_or m len 0 == 0)) proto
  r ← scan (cipher_body ciphers) m len tt
  ok (chosen r)

-- It answers 1 whatever the list holds.
unfoldable pub sshcrypto_cipher_macselect : List ℕ → ℕ → Outcome Bool
sshcrypto_cipher_macselect m len = do die_if (not (get_or m len 0 == 0)) proto; ok true

-- The names of the enabled entries, in the table's order.
unfoldable pub enabled_names : {A : Type 0} → (A → Bool) → (A → List ℕ) → List A → List (List ℕ)
enabled_names enabled name [] = []
enabled_names enabled name (a ∷ rest) =
    if not (enabled a)
    then enabled_names enabled name rest
    else name a ∷ enabled_names enabled name rest

-- The first loops: `if (j++) ++len; len += str_len(name);`.
unfoldable pub count_names : ℕ → ℕ → List (List ℕ) → ℕ
count_names j len [] = len
count_names j len (n ∷ ns) =
    count_names (j + 1) (((if j == 0 then len else len + 1) + str_len n) % 2 ^ 32) ns

-- The second loops: `if (j++) buf_puts(b, ","); buf_puts(b, name);`.
unfoldable pub put_names : ℕ → Buf → List (List ℕ) → Outcome Buf
put_names j b [] = ok b
put_names j b (n ∷ ns) = do
  b ← if j == 0 then ok b else buf_puts b (literal ",")
  b ← buf_puts b n
  put_names (j + 1) b ns

-- The length, the names, and a NUL behind them that the buffer's length does not count.
unfoldable pub put_list : Buf → List (List ℕ) → Outcome Buf
unfolding count_names put_names
put_list b names = do
  b ← buf_putnum32 b (count_names 0 0 names)
  b ← put_names 0 b names
  ok (record b { mem = set b.mem b.len 0 })

unfoldable pub sshcrypto_kex_put : Buf → List Kex → Outcome Buf
unfolding put_list enabled_names
sshcrypto_kex_put b kexs =
    put_list b (enabled_names (λ k. k.flagenabled) (λ k. k.name) kexs ++ (strict_server ∷ []))

unfoldable pub sshcrypto_key_put : Buf → List Key → Outcome Buf
unfolding put_list enabled_names
sshcrypto_key_put b keys = put_list b (enabled_names (λ k. k.sign_flagserver) (λ k. k.name) keys)

unfoldable pub sshcrypto_cipher_put : Buf → List CipherSuite → Outcome Buf
unfolding put_list enabled_names
sshcrypto_cipher_put b ciphers =
    put_list b (enabled_names (λ c. c.flagenabled) (λ c. c.name) ciphers)

unfoldable pub sshcrypto_cipher_macput : Buf → Outcome Buf
sshcrypto_cipher_macput b = buf_putstring b (literal "hmac-sha2-256")
