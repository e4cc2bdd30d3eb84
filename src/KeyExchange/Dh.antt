-- ===== src/KeyExchange/Dh.antt =====
-- packet_kexdh.c: the exchange from the client's key to the derived keys.
use tinyssh.Common.{
  ℕ, ◌+◌, List, [], Bool, true, false, not, ◌&&◌, ◌||◌, ◌==◌, ltb, if◌then◌else◌, take, none, some,
  Outcome, ok, die, bug, proto, die_if, ◌>>=◌, ◌>>◌,
}
use tinyssh.Bytes.{byte_copy}
use tinyssh.Bytes.Copy.{zeros}
use tinyssh.Buf.{Buf, buf_purge, buf_putstringlen}
use tinyssh.Parser.{packetparser_uint8, packetparser_uint32, packetparser_copy, packetparser_end}
use tinyssh.SignKey.{ed25519_putsignpk}
use tinyssh.Algorithms.{Kex, Key}
use tinyssh.Msg
use tinyssh.Packet.{Cipher}
use tinyssh.Line.{Line, packet_getall}
use tinyssh.KeyExchange.{Exchange}
use tinyssh.KeyExchange.Kem.{
  Primitives, kem_publickeymax, hash_max, sshcrypto_buf_putkemkey, enc_loop,
}
use tinyssh.KeyExchange.NewKeys.{send_reply, await_newkeys, bytes_left, derive_keys}

-- The client's key: up to `buf_purge(b1)` before the shared secret.
unfoldable pub receive_init : Cipher → Kex → Line → Buf → Outcome (Bool × List ℕ × Buf × Line)
unfolding packet_getall
receive_init cipher k l b1 = do
  b1 ← buf_purge b1
  (more, b1, l) ← packet_getall cipher l b1 Msg.kexdh_init
  if not more then ok (false, [], b1, l) else (do
    (ch, pos) ← packetparser_uint8 b1.mem b1.len 0
    die_if (not (ch == Msg.kexdh_init)) proto
    (len, pos) ← packetparser_uint32 b1.mem b1.len pos
    die_if (not (len == k.kem_publickeybytes)) proto
    (clientpk, pos) ← packetparser_copy b1.mem b1.len pos (zeros kem_publickeymax) len
    pos ← packetparser_end b1.mem b1.len pos
    b1 ← buf_purge b1
    ok (true, clientpk, b1, l))

-- A wrong guess of the client: its first packet is dropped.
unfoldable pub drop_guess : Cipher → Exchange → Buf → Outcome (Bool × Buf × Line)
unfolding packet_getall
drop_guess cipher x b1 =
    if not (x.kex_packet_follows == 0) && not x.kex_guess
    then (do b1 ← buf_purge b1; packet_getall cipher x.line b1 Msg.kexdh_init)
    else ok (true, b1, x.line)

-- What is hashed.
unfoldable pub fill_hashbuf : Exchange → Kex → Key → List ℕ → List ℕ → List ℕ → Outcome Buf
unfolding sshcrypto_buf_putkemkey ed25519_putsignpk
fill_hashbuf x k key clientpk serverpk sharedsecret = do
  h ← buf_purge x.hashbuf
  h ← buf_putstringlen h x.helloreceive.mem x.helloreceive.len
  h ← buf_putstringlen h x.hellosend.mem x.hellosend.len
  h ← buf_putstringlen h x.kexrecv.mem x.kexrecv.len
  h ← buf_putstringlen h x.kexsend.mem x.kexsend.len
  h ← ed25519_putsignpk h key.sign_publickey
  h ← buf_putstringlen h clientpk k.kem_publickeybytes
  h ← buf_putstringlen h serverpk k.kem_ciphertextbytes
  sshcrypto_buf_putkemkey k.kem h sharedsecret

-- The session id is the hash of the first exchange.
unfoldable pub keep_sessionid : Exchange → Kex → List ℕ → Outcome Exchange
keep_sessionid x k hash = do
  let x =
      if not x.line.packet.flagrekeying
      then record x {
        sessionid = byte_copy x.sessionid 0 k.hash_bytes hash;
        sessionid_len = k.hash_bytes;
      }
      else x
  die_if (x.sessionid_len == 0 || ltb hash_max x.sessionid_len) proto
  ok (record x {
    line = record (x.line) { packet = record (x.line.packet) { flagrekeying = true } };
  })

-- From the signature on.
unfoldable pub finish_kexdh :
    Cipher
    → Primitives
    → Exchange
    → Kex
    → Key
    → List ℕ
    → List ℕ
    → List ℕ
    → Buf
    → Buf
    → Outcome (Bool × Buf × Buf × Exchange)
unfolding send_reply await_newkeys bytes_left derive_keys
finish_kexdh cipher prims x k key serverpk sharedsecret hash b1 b2 =
    elim (prims.subprocess_sign (take k.hash_bytes hash)) [
      | none ↦ ok (false, b1, b2, x)
      | some sm ↦ do
        (sent, b1, b2, l) ← send_reply cipher k key serverpk sm x.line b1 b2
        let x = record x { line = l }
        if not sent then ok (false, b1, b2, x) else (do
          (more, b2, l) ← await_newkeys cipher l b2 (l.packet.recvbuf.len + bytes_left l.reads + 1)
          let x = record x { line = l }
          if not more
              then ok (false, b1, b2, x)
              else (do (b1, x) ← derive_keys prims x k sharedsecret hash b1; ok (true, b1, b2, x)))
    ]

-- The `enc` loop has `tries` rounds; `k` and `key` are the entries that `packet_kex_parse` has chosen.
unfoldable pub exchange_keys :
    Cipher
    → Primitives
    → ℕ
    → Exchange
    → Kex
    → Key
    → Buf
    → Buf
    → Outcome (Bool × Buf × Buf × Exchange)
unfolding drop_guess receive_init enc_loop fill_hashbuf keep_sessionid finish_kexdh
exchange_keys cipher prims tries x k key b1 b2 = do
  (more, b1, l) ← drop_guess cipher x b1
  let x = record x { line = l }
  if not more then ok (false, b1, b2, x) else (do
    (more, clientpk, b1, l) ← receive_init cipher k l b1
    let x = record x { line = l }
    if not more then ok (false, b1, b2, x) else (do
      (serverpk, sharedsecret) ← enc_loop prims k clientpk 0 tries
      h ← fill_hashbuf x k key clientpk serverpk sharedsecret
      let hash = prims.digest k.hash (take h.len h.mem)
      x ← keep_sessionid (record x { hashbuf = h }) k hash
      finish_kexdh cipher prims x k key serverpk sharedsecret hash b1 b2))

-- Without chosen entries the source calls a null pointer, which ends the process.
unfoldable pub packet_kexdh :
    Cipher → Primitives → ℕ → Exchange → Buf → Buf → Outcome (Bool × Buf × Buf × Exchange)
unfolding exchange_keys
packet_kexdh cipher prims tries x b1 b2 = elim (x.kex) [
  | none ↦ die bug
  | some k ↦ elim (x.key) [
    | none ↦ die bug
    | some key ↦ exchange_keys cipher prims tries x k key b1 b2
  ]
]
