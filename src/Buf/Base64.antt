-- ===== src/Buf/Base64.antt =====
-- buf.c: `buf_putbase64`.
use tinyssh.Common.{
  ℕ, zero, suc, ◌+◌, ◌-◌, ◌*◌, ◌/◌, ◌%◌, ◌^◌, List, true, false, ◌==◌, ltb, if◌then◌else◌, get_or,
  Outcome, ok, inval, die_if, ◌>>=◌, ◌>>◌,
}
use tinyssh.Str.{literal}
use tinyssh.Buf.{Buf, limit, buf_putnum8}

abbrev pub b64chars : List ℕ
b64chars = literal "ABCDEFGHIJKLMNOPQRSTUVWXYZabcdefghijklmnopqrstuvwxyz0123456789+/"

-- `while (bits > 6)`, with the rounds left.
unfoldable pub base64_bits : Buf → ℕ → ℕ → ℕ → Outcome (Buf × ℕ)
base64_bits b v bits zero = ok (b, bits)
base64_bits b v bits (suc left) = elim (ltb 6 bits) [
  | true ↦ do
    b ← buf_putnum8 b (get_or b64chars (v / 2 ^ (bits - 6) % 64) 0)
    base64_bits b v (bits - 6) left
  | false ↦ ok (b, bits)
]

-- `for (i = ...; i < len; ++i)`, with the rounds left; `v` has 64 bits.
unfoldable pub base64_loop : Buf → List ℕ → ℕ → ℕ → ℕ → ℕ → Outcome (Buf × ℕ × ℕ)
unfolding base64_bits
base64_loop b x i v bits zero = ok (b, v, bits)
base64_loop b x i v bits (suc left) = do
  let w = (v * 2 ^ 8 % 2 ^ 64 + get_or x i 0) % 2 ^ 64
  (b, more) ← base64_bits b w (bits + 8) (bits + 8)
  base64_loop b x (i + 1) w more left

-- `while ((b->len - start) & 3)`, with the rounds left.
unfoldable pub base64_pad : Buf → ℕ → ℕ → Outcome Buf
base64_pad b start zero = ok b
base64_pad b start (suc left) = elim ((b.len - start) % 4 == 0) [
  | true ↦ ok b
  | false ↦ do b ← buf_putnum8 b 61; base64_pad b start left
]

unfoldable pub buf_putbase64 : Buf → List ℕ → ℕ → Outcome Buf
unfolding base64_loop base64_pad
buf_putbase64 b x len = do
  die_if (ltb limit len) inval
  let start = b.len
  (b, v, bits) ← base64_loop b x 0 0 0 len
  b ←
      if bits == 0
      then ok b
      else buf_putnum8 b (get_or b64chars (v * 2 ^ (6 - bits) % 2 ^ 64 % 64) 0)
  base64_pad b start 3
