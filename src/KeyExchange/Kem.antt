-- ===== src/KeyExchange/Kem.antt =====
-- packet_kexdh.c: the loop around `sshcrypto_enc`, and the `enc` and `putkemkey` functions of
-- sshcrypto_kex_curve25519.c and sshcrypto_kex_sntrup761x25519.c.
use tinyssh.Common.{
  ℕ, zero, suc, ◌+◌, List, [], ◌∷◌, true, false, ◌&&◌, ◌==◌, if◌then◌else◌, get_or, Option, none,
  some, Outcome, ok, die, proto, out_of_fuel,
}
use Prim.Native.Nat.{bit_or}
use tinyssh.Buf.{Buf, buf_putstringlen, buf_putsharedsecret}
use tinyssh.Algorithms.{Kem, curve25519, sntrup761x25519, Hash, Kex}

-- The primitives, each by the number of the call where it draws random bytes: a fresh key pair's
-- public key with the shared point, the encapsulation of sntrup761x25519, the hash functions, and
-- what `subprocess_sign` reads from its child.
pub record Primitives : Type 0 where
  pub x25519 : ℕ → List ℕ → List ℕ × List ℕ
  pub encapsulate : ℕ → List ℕ → Option (List ℕ × List ℕ)
  pub digest : Hash → List ℕ → List ℕ
  pub subprocess_sign : List ℕ → Option (List ℕ)

abbrev pub kem_publickeymax : ℕ
kem_publickeymax = 1190

abbrev pub cipher_keymax : ℕ
cipher_keymax = 128

abbrev pub hash_max : ℕ
hash_max = 64

-- `for (i = 0; i < crypto_dh_x25519_BYTES; ++i) d |= k[i];`
unfoldable pub or_bytes : ℕ → List ℕ → ℕ
or_bytes d [] = d
or_bytes d (k ∷ ks) = or_bytes (bit_or d k) ks

-- `none` is an answer other than 0: the shared point is zero.
unfoldable pub curve25519_enc : List ℕ × List ℕ → Option (List ℕ × List ℕ)
unfolding or_bytes
curve25519_enc (c, k) = if or_bytes 0 k == 0 then none else some (c, k)

unfoldable pub sshcrypto_enc : Primitives → Kem → ℕ → List ℕ → Option (List ℕ × List ℕ)
unfolding curve25519_enc
sshcrypto_enc prims curve25519 call pk = curve25519_enc (prims.x25519 call pk)
sshcrypto_enc prims sntrup761x25519 call pk = prims.encapsulate call pk

unfoldable pub sshcrypto_buf_putkemkey : Kem → Buf → List ℕ → Outcome Buf
sshcrypto_buf_putkemkey curve25519 b x = buf_putsharedsecret b x 32
sshcrypto_buf_putkemkey sntrup761x25519 b x = buf_putstringlen b x 64

-- `do ... while`, with the rounds left: the one that is right by chance has to come.
unfoldable pub enc_loop : Primitives → Kex → List ℕ → ℕ → ℕ → Outcome (List ℕ × List ℕ)
unfolding sshcrypto_enc
enc_loop prims k clientpk call zero = die out_of_fuel
enc_loop prims k clientpk call (suc left) = elim (sshcrypto_enc prims k.kem call clientpk) [
  | none ↦ die proto
  | some (serverpk, sharedsecret) ↦
      elim (get_or sharedsecret 0 0 == 0 && k.kem_publickeybytes == 32) [
        | true ↦ enc_loop prims k clientpk (call + 1) left
        | false ↦ ok (serverpk, sharedsecret)
      ]
]
