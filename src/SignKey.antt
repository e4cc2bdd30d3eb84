-- ===== src/SignKey.antt =====
-- sshcrypto_key_ed25519.c: public keys and signatures in packets.
use tinyssh.Common.{
  ℕ, ◌+◌, ◌-◌, ◌%◌, ◌^◌, List, [], ◌∷◌, ◌++◌, Bool, true, false, not, ◌==◌, if◌then◌else◌, drop,
  take, Outcome, ok, ◌>>=◌,
}
use tinyssh.Str.{literal, str_len, str_equaln}
use tinyssh.Buf.{Buf, buf_putnum32, buf_putstring, buf_putstringlen}
use tinyssh.Buf.Base64.{buf_putbase64}
use tinyssh.Parser.{packetparser_uint32, packetparser_skip, packetparser_copy, packetparser_end}

abbrev pub ed25519_name : List ℕ
ed25519_name = literal "ssh-ed25519"

-- `ed25519_putsignature` with 64 bytes, `ed25519_putsignpk` with 32.
put_blob : Buf → List ℕ → ℕ → Outcome Buf
put_blob b x len = do
  b ← buf_putnum32 b ((len + str_len ed25519_name + 8) % 2 ^ 32)
  b ← buf_putstring b ed25519_name
  buf_putstringlen b x len

unfoldable pub ed25519_putsignature : Buf → List ℕ → Outcome Buf
unfolding put_blob
ed25519_putsignature b x = put_blob b x 64

unfoldable pub ed25519_putsignpk : Buf → List ℕ → Outcome Buf
unfolding put_blob
ed25519_putsignpk b x = put_blob b x 32

-- The array that is encoded: 19 bytes before the key.
abbrev pub blob_front : List ℕ
blob_front = (0 ∷ 0 ∷ 0 ∷ 11 ∷ ed25519_name) ++ (0 ∷ 0 ∷ 0 ∷ 32 ∷ [])

unfoldable pub ed25519_putsignpkbase64 : Buf → List ℕ → Outcome Buf
unfolding buf_putbase64
ed25519_putsignpkbase64 b x = buf_putbase64 b (blob_front ++ take 32 x) 51

-- `ed25519_parsesignpk` and `ed25519_parsesignature`: 1 with the bytes in `out`, or 0.
parse_blob : List ℕ → List ℕ → ℕ → ℕ → Outcome (Bool × List ℕ)
parse_blob out x xlen size = do
  (len, pos) ← packetparser_uint32 x xlen 0
  pos ← packetparser_skip x xlen pos len
  if not (str_equaln (drop (pos - len) x) len ed25519_name) then ok (false, out) else (do
    (len, pos) ← packetparser_uint32 x xlen pos
    if not (len == size) then ok (false, out) else (do
      (out, pos) ← packetparser_copy x xlen pos out len
      pos ← packetparser_end x xlen pos
      ok (true, out)))

unfoldable pub ed25519_parsesignpk : List ℕ → List ℕ → ℕ → Outcome (Bool × List ℕ)
unfolding parse_blob
ed25519_parsesignpk out x xlen = parse_blob out x xlen 32

unfoldable pub ed25519_parsesignature : List ℕ → List ℕ → ℕ → Outcome (Bool × List ℕ)
unfolding parse_blob
ed25519_parsesignature out x xlen = parse_blob out x xlen 64
