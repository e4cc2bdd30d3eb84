-- ===== src/Auth/PublicKey.antt =====
-- packet_auth.c: the method "publickey".
use tinyssh.Common.{
  ℕ, ◌+◌, ◌-◌, List, not, ◌||◌, ◌==◌, leb, if◌then◌else◌, get_or, take, drop, length, Option, none,
  some, Outcome, ok, die, bug, proto, nomem, die_if, ◌>>=◌, ◌>>◌,
}
use tinyssh.Bytes.{byte_copy, purge}
use tinyssh.Bytes.Copy.{zeros}
use tinyssh.Buf.{Buf, buf_purge, buf_put, buf_putnum8, buf_putstring, buf_putstringlen}
use tinyssh.Parser.{packetparser_uint8, packetparser_end}
use tinyssh.SignKey.{
  ed25519_putsignpk, ed25519_putsignpkbase64, ed25519_parsesignpk, ed25519_parsesignature,
}
use tinyssh.Algorithms.{find_name, Key}
use tinyssh.Msg
use tinyssh.Packet.{Cipher}
use tinyssh.Auth.{Setting, Desk, parse_string, put_and_send}

-- How a request ends.
pub data Judged : Type 0 where
  -- `goto authorized`
  authorized : Desk → Judged
  -- SSH_MSG_USERAUTH_PK_OK is sent: the next round
  replied : Desk → Judged
  -- to the code after `reject`
  rejected : Desk → Judged
  -- answer 0
  gone : Desk → Judged

unfoldable pub find_client_key : Setting → List ℕ → ℕ → Option Key
unfolding find_name
find_client_key s pkname len = find_name (λ k. k.sign_flagclient) (λ k. k.name) s.keys pkname len

-- Without a signature: the key would do.
unfoldable pub offer_key : Cipher → Desk → Key → List ℕ → Outcome Judged
unfolding put_and_send ed25519_putsignpk
offer_key cipher d key pk = do
  b ← buf_purge d.b
  b ← buf_putnum8 b Msg.userauth_pk_ok
  b ← buf_putstring b key.name
  b ← ed25519_putsignpk b pk
  (sent, d) ← put_and_send cipher (record d { b = b })
  ok (if sent then replied d else gone d)

-- What is signed, behind the signature: the session id, and the request without the signature.
unfoldable pub signed_input : Setting → Key → List ℕ → Buf → Buf → Outcome Buf
signed_input s key sig b b2 = do
  b2 ← buf_purge b2
  b2 ← buf_put b2 sig key.sign_bytes
  b2 ← buf_putstringlen b2 s.sessionid s.sessionid_len
  buf_put b2 b.mem b.len

-- The request without the signature at its end.
unfoldable pub cut_signature : Buf → ℕ → Buf
cut_signature b len = record b {
  mem = purge b.mem (b.len - len - 4) (len + 4);
  len = b.len - (len + 4);
}

-- The key in base64, and the user's files.
unfoldable pub ask_files : Setting → Desk → Key → List ℕ → Outcome Judged
unfolding ed25519_putsignpkbase64
ask_files s d key pk = do
  b ← buf_purge d.b
  b ← ed25519_putsignpkbase64 b pk
  b ← buf_putnum8 b 0
  let d = record d { b = b }
  ok (if s.subprocess_auth d.line.packet.name key.name b.mem then authorized d else rejected d)

unfoldable pub verify : Setting → Desk → Key → List ℕ → List ℕ → Outcome Judged
unfolding signed_input ask_files
verify s d key pk sig = do
  b2 ← signed_input s key sig d.b d.b2
  b ← buf_purge d.b
  die_if (leb b.alloc b2.len) nomem
  elim (s.sign_open (take b2.len b2.mem) pk) [
    | none ↦ die bug
    | some (written, smlen) ↦ do
      b ← buf_purge (record b { mem = byte_copy b.mem 0 (length written) written; len = smlen })
      ask_files s (record d { b = b; b2 = b2 }) key pk
  ]

-- With an entry of the key's type: its public key, and perhaps a signature.
unfoldable pub use_key : Cipher → Setting → Desk → Key → ℕ → ℕ → Outcome Judged
unfolding parse_string offer_key cut_signature verify
use_key cipher s d key flagsignature pos = do
  let b = d.b
  (len, pos) ← parse_string b pos
  (good, pk) ← ed25519_parsesignpk (zeros 32) (drop (pos - len) b.mem) len
  die_if (not good) proto
  if flagsignature == 0 then offer_key cipher d key pk else (do
    (len, pos) ← parse_string b pos
    (good, sig) ← ed25519_parsesignature (zeros 64) (drop (pos - len) b.mem) len
    die_if (not good) proto
    pos ← packetparser_end b.mem b.len pos
    verify s (record d { b = cut_signature b len }) key pk sig)

unfoldable pub publickey : Cipher → Setting → Desk → ℕ → Outcome Judged
unfolding parse_string find_client_key use_key
publickey cipher s d pos = do
  let b = d.b
  (flagsignature, pos) ← packetparser_uint8 b.mem b.len pos
  (len, pos) ← parse_string b pos
  die_if (leb b.len pos || not (get_or b.mem pos 0 == 0)) proto
  elim (find_client_key s (drop (pos - len) b.mem) len) [
    | none ↦ ok (rejected d)
    | some key ↦ use_key cipher s d key flagsignature pos
  ]
