-- ===== src/Buf.antt =====
-- buf.c. The memory behind `buf` is a list with `alloc` bytes at least. Lengths are natural numbers:
-- the guards against negative lengths and null pointers cannot fire here and are left out.
pub mod Base64
pub mod Contents
pub mod Puts
pub mod Mpint
use tinyssh.Common.{
  ℕ, zero, suc, ◌+◌, ◌-◌, ◌*◌, ◌/◌, ◌%◌, ◌^◌, List, [], ◌∷◌, Bool, not, ◌&&◌, ◌||◌, ◌==◌, ltb, leb,
  if◌then◌else◌, get_or, drop, Outcome, ok, inval, nomem, die_if, ◌>>=◌, ◌>>◌, bit_and,
}
use tinyssh.Bytes.{byte_copy, byte_zero, purge, store_bigendian}
use tinyssh.Str.{str_len, literal}

pub record Buf : Type 0 where
  pub mem : List ℕ
  pub len : ℕ
  pub alloc : ℕ

abbrev pub limit : ℕ
limit = 1_073_741_824

-- `b->len > 1073741824 || b->alloc <= 0 || b->alloc > 1073741824`
unfoldable pub is_bad : Buf → Bool
is_bad b = ltb limit b.len || (b.alloc == 0 || ltb limit b.alloc)

unfoldable pub buf_init : List ℕ → ℕ → Outcome Buf
buf_init mem alloc = do
  die_if (alloc == 0 || ltb limit alloc) inval
  ok (record { mem = purge mem 0 alloc; len = 0; alloc = alloc })

unfoldable pub buf_purge : Buf → Outcome Buf
unfolding is_bad
buf_purge b = do die_if (is_bad b) inval; ok (record b { mem = purge b.mem 0 b.len; len = 0 })

unfoldable pub buf_ready : Buf → ℕ → Outcome Bool
unfolding is_bad
buf_ready b len = do die_if (is_bad b || ltb limit len) inval; ok (ltb (b.len + len) b.alloc)

unfoldable pub buf_put : Buf → List ℕ → ℕ → Outcome Buf
unfolding is_bad
buf_put b x len = do
  die_if (is_bad b || ltb limit len) inval
  die_if (leb b.alloc (b.len + len)) nomem
  ok (record b { mem = byte_copy b.mem b.len len x; len = b.len + len })

unfoldable pub buf_puts : Buf → List ℕ → Outcome Buf
unfolding buf_put
buf_puts b x = buf_put b x (str_len x)

unfoldable pub buf_putzerobytes : Buf → ℕ → Outcome Buf
unfolding is_bad
buf_putzerobytes b len = do
  die_if (is_bad b || ltb limit len) inval
  die_if (leb b.alloc (b.len + len)) nomem
  ok (record b { mem = byte_zero b.mem b.len len; len = b.len + len })

-- `fresh` is what `randombytes` writes.
unfoldable pub buf_putrandombytes : Buf → List ℕ → ℕ → Outcome Buf
unfolding is_bad
buf_putrandombytes b fresh len = do
  die_if (is_bad b || ltb limit len) inval
  die_if (leb b.alloc (b.len + len)) nomem
  ok (record b { mem = byte_copy b.mem b.len len fresh; len = b.len + len })

unfoldable pub buf_putpadding : Buf → ℕ → Outcome Buf
unfolding is_bad
buf_putpadding b len = do
  die_if (is_bad b || ltb limit len) inval
  die_if (leb b.alloc (b.len + len)) nomem
  ok (record b { mem = purge b.mem b.len len; len = b.len + len })

unfoldable pub buf_putnum32 : Buf → ℕ → Outcome Buf
unfolding buf_put
buf_putnum32 b x = buf_put b (store_bigendian x) 4

unfoldable pub buf_putnum8 : Buf → ℕ → Outcome Buf
unfolding buf_put
buf_putnum8 b u = buf_put b (u ∷ []) 1

-- The length is cast to `crypto_uint32`.
unfoldable pub buf_putstringlen : Buf → List ℕ → ℕ → Outcome Buf
unfolding buf_putnum32 buf_put
buf_putstringlen b x len = do b ← buf_putnum32 b (len % 2 ^ 32); buf_put b x len

unfoldable pub buf_putstring : Buf → List ℕ → Outcome Buf
unfolding buf_putstringlen
buf_putstring b x = buf_putstringlen b x (str_len x)

-- `for (pos = ...; pos < len; ++pos) if (x[pos]) break;`, with the rounds left.
unfoldable pub first_nonzero : List ℕ → ℕ → ℕ → ℕ
first_nonzero x pos zero = pos
first_nonzero x pos (suc left) =
    let next = first_nonzero x (pos + 1) left in if get_or x pos 0 == 0 then next else pos

-- `x[pos] & 0x80`, for a byte: its highest bit.
unfoldable pub buf_putsharedsecret : Buf → List ℕ → ℕ → Outcome Buf
unfolding buf_putnum32 buf_putnum8 buf_put first_nonzero
buf_putsharedsecret b x len = do
  die_if (ltb limit len) inval
  let pos = first_nonzero x 0 len
  b ←
      if ltb pos len && not (bit_and (get_or x pos 0) 0x80 == 0)
      then (do b ← buf_putnum32 b ((len - pos + 1) % 2 ^ 32); buf_putnum8 b 0)
      else buf_putnum32 b ((len - pos + 0) % 2 ^ 32)
  buf_put b (drop pos x) (len - pos)
