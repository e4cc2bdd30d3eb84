-- ===== src/KeyExchange/Parse.antt =====
-- packet_kex.c: `packet_kex_parse` and the functions that receive the packet.
use tinyssh.Common.{
  ℕ, ◌-◌, Bool, true, false, not, ◌&&◌, ◌==◌, if◌then◌else◌, drop, none, some, Outcome, ok, proto,
  die_if, ◌>>=◌, ◌>>◌,
}
use tinyssh.Str.{literal}
use tinyssh.Buf.{Buf, buf_purge, buf_put}
use tinyssh.Parser.{packetparser_uint8, packetparser_uint32, packetparser_skip, packetparser_end}
use tinyssh.Names.{namelist_contains}
use tinyssh.Algorithms.{
  sshcrypto_kex_select, sshcrypto_key_select, sshcrypto_cipher_select, sshcrypto_cipher_macselect,
  CipherSuite, KexChoice,
}
use tinyssh.Msg
use tinyssh.Packet.{Cipher}
use tinyssh.Line.{packet_getall}
use tinyssh.KeyExchange.{Exchange}

-- A string: its length, and the position behind it.
unfoldable pub parse_list : Buf → ℕ → Outcome (ℕ × ℕ)
parse_list b pos = do
  (len, pos) ← packetparser_uint32 b.mem b.len pos
  pos ← packetparser_skip b.mem b.len pos len
  ok (len, pos)

-- From the compression algorithms to the end of the packet.
unfoldable pub parse_rest : Exchange → ℕ → Outcome (Bool × Exchange)
unfolding parse_list
parse_rest x pos = do
  let b = x.kexrecv
  (len, pos) ← parse_list b pos
  plain ← namelist_contains (drop (pos - len) b.mem) len (literal "none")
  if not plain then ok (false, x) else (do
    (len, pos) ← parse_list b pos
    plain ← namelist_contains (drop (pos - len) b.mem) len (literal "none")
    if not plain then ok (false, x) else (do
      (len, pos) ← parse_list b pos
      (len, pos) ← parse_list b pos
      (ch, pos) ← packetparser_uint8 b.mem b.len pos
      let x = record x { kex_packet_follows = ch }
      (len, pos) ← packetparser_uint32 b.mem b.len pos
      pos ← packetparser_end b.mem b.len pos
      ok (true, x)))

-- From the encryption algorithms to the client on; `c.name` is `sshcrypto_cipher_name`.
unfoldable pub parse_macs : Exchange → CipherSuite → ℕ → Outcome (Bool × Exchange)
unfolding parse_list parse_rest
parse_macs x c pos = do
  let b = x.kexrecv
  (len, pos) ← parse_list b pos
  both ← namelist_contains (drop (pos - len) b.mem) len c.name
  if not both then ok (false, x) else (do
    (len, pos) ← parse_list b pos
    mac ← sshcrypto_cipher_macselect (drop (pos - len) b.mem) len
    if not mac then ok (false, x) else (do (len, pos) ← parse_list b pos; parse_rest x pos))

-- From the encryption algorithms to the server on.
unfoldable pub parse_ciphers : Exchange → ℕ → Outcome (Bool × Exchange)
unfolding parse_list parse_macs
parse_ciphers x pos = do
  let b = x.kexrecv
  (len, pos) ← parse_list b pos
  c ← sshcrypto_cipher_select x.ciphers (drop (pos - len) b.mem) len
  elim c [
    | none ↦ ok (false, record x { cipher = none })
    | some c ↦ parse_macs (record x { cipher = some c }) c pos
  ]

-- What `sshcrypto_kex_select` has set.
unfoldable pub chose_kex : Exchange → KexChoice → Exchange
chose_kex x c = record x {
  kex = c.kex;
  kex_guess = c.guess;
  line = record (x.line) { packet = record (x.line.packet) { strict_kex = c.strict } };
}

-- From the server host key algorithms on.
unfoldable pub parse_keys : Exchange → ℕ → Outcome (Bool × Exchange)
unfolding parse_list parse_ciphers
parse_keys x pos = do
  let b = x.kexrecv
  (len, pos) ← parse_list b pos
  k ← sshcrypto_key_select x.keys (drop (pos - len) b.mem) len
  elim k [
    | none ↦ ok (false, record x { key = none })
    | some k ↦ parse_ciphers (record x { key = some k }) pos
  ]

-- In the strict key exchange the first SSH_MSG_KEXINIT has to be the first packet.
unfoldable pub after_kex : Bool → Exchange → ℕ → Outcome (Bool × Exchange)
unfolding parse_keys
after_kex initial x pos =
    if initial && x.line.packet.strict_kex && not (x.line.packet.receivepacketid == 1)
    then ok (false, x)
    else parse_keys x pos

unfoldable pub packet_kex_parse : Bool → Exchange → Outcome (Bool × Exchange)
unfolding parse_list chose_kex after_kex
packet_kex_parse initial x = do
  let b = x.kexrecv
  (ch, pos) ← packetparser_uint8 b.mem b.len 0
  die_if (not (ch == Msg.kexinit)) proto
  pos ← packetparser_skip b.mem b.len pos 16
  (len, pos) ← parse_list b pos
  c ← sshcrypto_kex_select x.kexs (drop (pos - len) b.mem) len x.line.packet.strict_kex
  elim (c.kex) [ none ↦ ok (false, chose_kex x c) | some k ↦ after_kex initial (chose_kex x c) pos ]

unfoldable pub packet_kex_receive : Cipher → Exchange → Outcome (Bool × Exchange)
unfolding packet_kex_parse packet_getall
packet_kex_receive cipher x = do
  (more, b, l) ← packet_getall cipher x.line x.kexrecv Msg.kexinit
  let x = record x { kexrecv = b; line = l }
  if not more then ok (false, x) else packet_kex_parse true x

-- `b` is a buffer of its own: the test for `&packet.kexrecv` cannot fire.
unfoldable pub packet_kex_receive_rekey : Buf → Exchange → Outcome (Bool × Exchange)
unfolding packet_kex_parse
packet_kex_receive_rekey b x = do
  r ← buf_purge x.kexrecv
  r ← buf_put r b.mem b.len
  packet_kex_parse false (record x { kexrecv = r })
