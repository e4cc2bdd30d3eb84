-- ===== src/Str.antt =====
-- str.c. A C string is the list of the bytes from its pointer on; the end of the list reads as the
-- NUL that ends the string, so a literal needs no 0 of its own.
pub mod Laws
use tinyssh.Common.{
  ℕ, zero, suc, ◌+◌, List, [], ◌∷◌, Bool, true, false, ◌==◌, ltb, if◌then◌else◌, set, get_or,
}
use Prim.Native.Char.{code}
use Prim.Native.String.{String}

-- The bytes of a literal.
abbrev pub literal : String → List ℕ
literal String.[] = []
literal (String.◌∷◌ c s) = code c ∷ literal s

-- `for (i = 0; s[i]; ++i);`
unfoldable pub str_len : List ℕ → ℕ
str_len [] = 0
str_len (c ∷ s) = if c == 0 then 0 else suc (str_len s)

-- Whether `t` is a prefix of `s`.
unfoldable pub str_start : List ℕ → List ℕ → Bool
str_start s [] = true
str_start [] (x ∷ t) = x == 0
str_start (c ∷ s) (x ∷ t) = if x == 0 then true else if x == c then str_start s t else false

-- `for (i = ...; i < ylen; ++i) if (y[i] != x[i]) return 0;`, with the rounds left.
unfoldable pub equal_loop : List ℕ → List ℕ → ℕ → ℕ → Bool
equal_loop y x i zero = true
equal_loop y x i (suc left) =
    if get_or y i 0 == get_or x i 0 then equal_loop y x (i + 1) left else false

unfoldable pub str_equaln : List ℕ → ℕ → List ℕ → Bool
unfolding str_len equal_loop
str_equaln y ylen x = if str_len x == ylen then equal_loop y x 0 ylen else false

-- `while (len > 0) { *y++ = *x++; --len; }`
unfoldable pub copy_string : List ℕ → List ℕ → ℕ → ℕ → List ℕ
copy_string y x at zero = y
copy_string y x at (suc len) = copy_string (set y at (get_or x at 0)) x (at + 1) len

-- The new `y`, and whether all of `x` fits. `y` has `ylen` bytes.
unfoldable pub str_copyn : List ℕ → ℕ → List ℕ → List ℕ × Bool
str_copyn y zero x = (y, false)
str_copyn y (suc most) x =
    let n = str_len x in
    let len = if ltb most n then most else n in
    (copy_string (set y len 0) x 0 len, if ltb most n then false else true)
