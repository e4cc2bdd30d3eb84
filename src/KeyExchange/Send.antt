-- ===== src/KeyExchange/Send.antt =====
-- packet_kex.c: `packet_kex_send`.
use tinyssh.Common.{ℕ, List, Bool, Outcome, ok, ◌>>=◌}
use tinyssh.Str.{literal}
use tinyssh.Buf.{Buf, buf_purge, buf_putnum8, buf_putnum32, buf_putrandombytes, buf_putstring}
use tinyssh.Algorithms.{
  sshcrypto_kex_put, sshcrypto_key_put, sshcrypto_cipher_put, sshcrypto_cipher_macput, Kex, Key,
  CipherSuite,
}
use tinyssh.Msg
use tinyssh.Packet.{Cipher}
use tinyssh.Line.{line_put, line_sendall}
use tinyssh.KeyExchange.{Exchange}

-- The packet in `kexsend`; `cookie` is what `randombytes` writes.
unfoldable pub build_kexinit : List Kex → List Key → List CipherSuite → List ℕ → Buf → Outcome Buf
build_kexinit kexs keys ciphers cookie b = do
  b ← buf_purge b
  b ← buf_putnum8 b Msg.kexinit
  b ← buf_putrandombytes b cookie 16
  b ← sshcrypto_kex_put b kexs
  b ← sshcrypto_key_put b keys
  b ← sshcrypto_cipher_put b ciphers
  b ← sshcrypto_cipher_put b ciphers
  b ← sshcrypto_cipher_macput b
  b ← sshcrypto_cipher_macput b
  b ← buf_putstring b (literal "none")
  b ← buf_putstring b (literal "none")
  b ← buf_putstring b (literal "")
  b ← buf_putstring b (literal "")
  b ← buf_putnum8 b 0
  buf_putnum32 b 0

unfoldable pub packet_kex_send : Cipher → List ℕ → Exchange → Outcome (Bool × Exchange)
unfolding build_kexinit line_put
packet_kex_send cipher cookie x = do
  b ← build_kexinit x.kexs x.keys x.ciphers cookie x.kexsend
  l ← line_put cipher x.line b
  let (sent, l) = line_sendall l
  ok (sent, record x { kexsend = b; line = l })
