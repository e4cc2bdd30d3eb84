-- ===== src/Parser.antt =====
-- packetparser.c: each function takes the memory `buf`, its length `len` and a position, and gives
-- what it read and the new position.
pub mod Reads
use tinyssh.Common.{
  ℕ, ◌+◌, List, Bool, not, ◌||◌, ◌==◌, ltb, get_or, drop, Outcome, ok, inval, proto, die_if, ◌>>=◌,
  ◌>>◌,
}
use tinyssh.Bytes.{byte_copy, load_bigendian}
use tinyssh.Buf.{limit}

-- `len > 1073741824 || pos > 1073741824`
unfoldable pub is_bad : ℕ → ℕ → Bool
is_bad len pos = ltb limit len || ltb limit pos

unfoldable pub packetparser_uint8 : List ℕ → ℕ → ℕ → Outcome (ℕ × ℕ)
unfolding is_bad
packetparser_uint8 buf len pos = do
  die_if (is_bad len pos) inval
  die_if (ltb len (pos + 1)) proto
  ok (get_or buf pos 0, pos + 1)

unfoldable pub packetparser_uint32 : List ℕ → ℕ → ℕ → Outcome (ℕ × ℕ)
unfolding is_bad
packetparser_uint32 buf len pos = do
  die_if (is_bad len pos) inval
  die_if (ltb len (pos + 4)) proto
  ok (load_bigendian buf pos, pos + 4)

-- The new content of `out`, which has room for `outlen` bytes.
unfoldable pub packetparser_copy : List ℕ → ℕ → ℕ → List ℕ → ℕ → Outcome (List ℕ × ℕ)
unfolding is_bad
packetparser_copy buf len pos out outlen = do
  die_if (is_bad len pos || ltb limit outlen) inval
  die_if (ltb len (pos + outlen)) proto
  ok (byte_copy out 0 outlen (drop pos buf), pos + outlen)

unfoldable pub packetparser_skip : List ℕ → ℕ → ℕ → ℕ → Outcome ℕ
unfolding is_bad
packetparser_skip buf len pos skip = do
  die_if (is_bad len pos || ltb limit skip) inval
  die_if (ltb len (pos + skip)) proto
  ok (pos + skip)

unfoldable pub packetparser_end : List ℕ → ℕ → ℕ → Outcome ℕ
unfolding is_bad
packetparser_end buf len pos = do
  die_if (is_bad len pos) inval
  die_if (not (pos == len)) proto
  ok pos
