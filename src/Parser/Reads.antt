-- ===== src/Parser/Reads.antt =====
-- What packetparser.c reads off a packet whose bytes from the position on are known.
use tinyssh.Common.{
  ℕ, ◌+◌, ◌^◌, ◌≤◌, ◌<◌, ◌≡◌, refl, sym, ap, ◌∙◌, List, [], ◌∷◌, ◌++◌, arith, length, take, drop,
  get_or, drop-drop, drop-append, length-drop, length-take, length-append, get_or-take, get_or-drop,
  ok, false, subst, append_assoc, le→ltb-false,
}
use tinyssh.Bytes.{store_bigendian}
use tinyssh.Bytes.Endian.{length-store_bigendian, load-store, load_bigendian-take}
use tinyssh.Buf.{limit}
use tinyssh.Buf.Puts.{ssh_string}
use tinyssh.Parser.{
  is_bad, packetparser_uint8, packetparser_uint32, packetparser_skip, packetparser_end,
}

-- A packet of `len` bytes in the memory `m`, with the bytes `rest` from `pos` on.
pub record At (m : List ℕ) (len pos : ℕ) (rest : List ℕ) : Type 0 where
  pub small : len ≤ limit
  pub backed : len ≤ length m
  pub inside : pos ≤ len
  pub bytes : drop pos (take len m) ≡ rest

module _ {m : List ℕ} {len pos : ℕ} where
  pub At-length : (rest : List ℕ) → At m len pos rest → pos + length rest ≡ len
  At-length rest a = omega (
    arith,
    ap length a.bytes,
    length-drop pos (take len m),
    length-take len m,
    a.backed,
    a.inside,
  )

  pub At-advance :
      (xs rest : List ℕ) (n : ℕ)
      → length xs ≡ n
      → At m len pos (xs ++ rest)
      → At m len (pos + n) rest
  At-advance xs rest n e a = record {
    small = a.small;
    backed = a.backed;
    inside = omega (arith, At-length (xs ++ rest) a, length-append xs rest);
    bytes =
        sym (drop-drop n pos (take len m)) ∙ ap (drop n) a.bytes ∙ drop-append xs rest n (sym e);
  }

  -- The positions that a packet has pass the guards.
  guard_passes : (rest : List ℕ) → At m len pos rest → is_bad len pos ≡ false
  unfolding is_bad
  guard_passes rest a = ground (arith, a.small, a.inside)

  byte-At :
      (rest : List ℕ) (i : ℕ)
      → At m len pos rest
      → i < length rest
      → get_or m (pos + i) 0 ≡ get_or rest i 0
  byte-At rest i a h =
      sym (get_or-take len (pos + i) m 0 (omega (arith, At-length rest a)))
      ∙ sym (get_or-drop pos i (take len m) 0)
      ∙ ap (λ z. get_or z i 0) a.bytes

  pub uint8-At :
      (c : ℕ) (rest : List ℕ)
      → At m len pos (c ∷ rest)
      → (packetparser_uint8 m len pos ≡ ok (c, pos + 1)) × At m len (pos + 1) rest
  unfolding packetparser_uint8
  uint8-At c rest a = (
    rw (
      guard_passes (c ∷ rest) a,
      le→ltb-false len (pos + 1) (omega (arith, At-length (c ∷ rest) a)),
      read,
    ),
    At-advance (c ∷ []) rest 1 refl a,
  )
    where
      read : get_or m pos 0 ≡ c
      read = ap (λ k. get_or m k 0) (omega arith) ∙ byte-At (c ∷ rest) 0 a (omega arith)

  pub uint32-At :
      (x : ℕ) (rest : List ℕ)
      → x < 2 ^ 32
      → At m len pos (store_bigendian x ++ rest)
      → (packetparser_uint32 m len pos ≡ ok (x, pos + 4)) × At m len (pos + 4) rest
  unfolding packetparser_uint32
  uint32-At x rest h a = (
    rw (
      guard_passes (store_bigendian x ++ rest) a,
      le→ltb-false len (pos + 4) room,
      sym (load_bigendian-take m len pos room),
      load-store (take len m) pos x rest h a.bytes,
    ),
    At-advance (store_bigendian x) rest 4 (length-store_bigendian x) a,
  )
    where
      room : pos + 4 ≤ len
      room = omega (
        arith,
        At-length (store_bigendian x ++ rest) a,
        length-append (store_bigendian x) rest,
        length-store_bigendian x,
      )

  pub skip-At :
      (xs rest : List ℕ) (n : ℕ)
      → length xs ≡ n
      → At m len pos (xs ++ rest)
      → (packetparser_skip m len pos n ≡ ok (pos + n)) × At m len (pos + n) rest
  unfolding packetparser_skip
  skip-At xs rest n e a = (
    rw (
      guard_passes (xs ++ rest) a,
      le→ltb-false limit n (omega (arith, room, a.small)),
      le→ltb-false len (pos + n) room,
    ),
    At-advance xs rest n e a,
  )
    where
      room : pos + n ≤ len
      room = omega (arith, At-length (xs ++ rest) a, length-append xs rest)

  pub end-At : At m len pos [] → packetparser_end m len pos ≡ ok pos
  unfolding packetparser_end
  end-At a = rw (guard_passes [] a) (ground (arith, At-length [] a))

-- Of a packet with a string of less than 2 ^ 32 bytes at `pos`, the parser reads the length and
-- then skips the bytes, and what follows the string stands at the new position.
pub string-At :
    {m : List ℕ} {len pos : ℕ} (xs rest : List ℕ)
    → length xs < 2 ^ 32
    → At m len pos (ssh_string xs ++ rest)
    → (packetparser_uint32 m len pos ≡ ok (length xs, pos + 4))
      × (packetparser_skip m len (pos + 4) (length xs) ≡ ok (pos + 4 + length xs))
      × At m len (pos + 4 + length xs) rest
string-At {m} {len} {pos} xs rest h a =
    let (e, b) = uint32-At (length xs) (xs ++ rest) h shifted in
    let (f, c) = skip-At xs rest (length xs) refl b in (e, f, c)
  where
    shifted : At m len pos (store_bigendian (length xs) ++ (xs ++ rest))
    shifted = subst (At m len pos) (append_assoc (store_bigendian (length xs)) xs rest) a
