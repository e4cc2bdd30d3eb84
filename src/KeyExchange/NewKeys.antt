-- ===== src/KeyExchange/NewKeys.antt =====
-- packet_kexdh.c: the reply, the wait for SSH_MSG_NEWKEYS and the derivation of the keys.
use tinyssh.Common.{
  ℕ, zero, suc, ◌+◌, List, [], ◌∷◌, Bool, true, false, not, ◌==◌, if◌then◌else◌, get_or, take,
  length, Outcome, ok, die, out_of_fuel, ◌>>=◌,
}
use tinyssh.Bytes.{byte_copy}
use tinyssh.Bytes.Copy.{zeros}
use tinyssh.Buf.{Buf, buf_purge, buf_put, buf_putnum8, buf_putstringlen}
use tinyssh.SignKey.{ed25519_putsignpk, ed25519_putsignature}
use tinyssh.Algorithms.{Kex, Key}
use tinyssh.Channel.{ReadResult, bytes, retry, failed}
use tinyssh.Msg
use tinyssh.Packet.{Cipher}
use tinyssh.Line.{Line, packet_getall, line_put, line_sendall}
use tinyssh.KeyExchange.{Exchange}
use tinyssh.KeyExchange.Kem.{Primitives, cipher_keymax, sshcrypto_buf_putkemkey}

-- SSH_MSG_KEXDH_REPLY and SSH_MSG_NEWKEYS.
unfoldable pub send_reply :
    Cipher → Kex → Key → List ℕ → List ℕ → Line → Buf → Buf → Outcome (Bool × Buf × Buf × Line)
unfolding ed25519_putsignpk ed25519_putsignature line_put
send_reply cipher k key serverpk sm l b1 b2 = do
  b1 ← buf_purge b1
  b2 ← buf_purge b2
  b2 ← buf_putnum8 b2 Msg.kexdh_reply
  b2 ← ed25519_putsignpk b2 key.sign_publickey
  b2 ← buf_putstringlen b2 serverpk k.kem_ciphertextbytes
  b2 ← ed25519_putsignature b2 sm
  l ← line_put cipher l b2
  b2 ← buf_purge b2
  b2 ← buf_putnum8 b2 Msg.newkeys
  l ← line_put cipher l b2
  let (sent, l) = line_sendall l
  ok (sent, b1, b2, l)

-- `for (;;)` up to SSH_MSG_NEWKEYS, with the rounds left.
unfoldable pub await_newkeys : Cipher → Line → Buf → ℕ → Outcome (Bool × Buf × Line)
unfolding packet_getall
await_newkeys cipher l b2 zero = die out_of_fuel
await_newkeys cipher l b2 (suc left) = do
  b2 ← buf_purge b2
  (more, b2, l) ← packet_getall cipher l b2 0
  if not more then ok (false, b2, l) else elim (get_or b2.mem 0 0 == Msg.newkeys) [
    | true ↦ ok (true, b2, l)
    | false ↦ elim (l.packet.strict_kex) [
      | true ↦ ok (false, b2, l)
      | false ↦ await_newkeys cipher l b2 left
    ]
  ]

-- The bytes that are received and that `read` is still to answer.
unfoldable pub bytes_left : List ReadResult → ℕ
bytes_left [] = 0
bytes_left (bytes x ∷ rs) = length x + bytes_left rs
bytes_left (retry ∷ rs) = bytes_left rs
bytes_left (failed ∷ rs) = bytes_left rs

-- One round of the key derivation: the key of the letter, with one extension.
unfoldable pub derive_key :
    Primitives → Exchange → Kex → List ℕ → List ℕ → ℕ → Buf → List ℕ → Outcome (Buf × List ℕ)
unfolding sshcrypto_buf_putkemkey
derive_key prims x k sharedsecret hash letter b1 key = do
  b1 ← buf_purge b1
  b1 ← sshcrypto_buf_putkemkey k.kem b1 sharedsecret
  b1 ← buf_put b1 hash k.hash_bytes
  b1 ← buf_putnum8 b1 letter
  b1 ← buf_put b1 x.sessionid x.sessionid_len
  let key = byte_copy key 0 k.hash_bytes (prims.digest k.hash (take b1.len b1.mem))
  b1 ← buf_purge b1
  b1 ← sshcrypto_buf_putkemkey k.kem b1 sharedsecret
  b1 ← buf_put b1 hash k.hash_bytes
  b1 ← buf_put b1 key k.hash_bytes
  ok (b1, byte_copy key k.hash_bytes k.hash_bytes (prims.digest k.hash (take b1.len b1.mem)))

-- The six keys, in the order of their letters.
unfoldable pub derive_keys :
    Primitives → Exchange → Kex → List ℕ → List ℕ → Buf → Outcome (Buf × Exchange)
unfolding derive_key
derive_keys prims x k sharedsecret hash b1 = do
  (b1, key) ← derive_key prims x k sharedsecret hash 65 b1 (zeros cipher_keymax)
  let x = record x { clientnonce = byte_copy x.clientnonce 0 cipher_keymax key }
  (b1, key) ← derive_key prims x k sharedsecret hash 66 b1 key
  let x = record x { servernonce = byte_copy x.servernonce 0 cipher_keymax key }
  (b1, key) ← derive_key prims x k sharedsecret hash 67 b1 key
  let x = record x { clientkey = byte_copy x.clientkey 0 cipher_keymax key }
  (b1, key) ← derive_key prims x k sharedsecret hash 68 b1 key
  let x = record x { serverkey = byte_copy x.serverkey 0 cipher_keymax key }
  (b1, key) ← derive_key prims x k sharedsecret hash 69 b1 key
  let x = record x { clientmackey = byte_copy x.clientmackey 0 cipher_keymax key }
  (b1, key) ← derive_key prims x k sharedsecret hash 70 b1 key
  let x = record x { servermackey = byte_copy x.servermackey 0 cipher_keymax key }
  ok (b1, x)
