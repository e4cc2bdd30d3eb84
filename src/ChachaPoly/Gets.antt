-- ===== src/ChachaPoly/Gets.antt =====
-- chachapoly_packet_get on a sealed packet that is all there.
use tinyssh.Common.{
  ℕ, ◌+◌, ◌-◌, ◌%◌, ◌^◌, ◌≤◌, ◌<◌, ◌≡◌, refl, sym, ap, ap₂, ◌∙◌, List, ◌++◌, arith, append_assoc,
  length, get_or, take, drop, All, All-append, length-append, length-take, length-drop, take-append,
  take-append-drop, Outcome, ok, subst, true, Bool, get_or-append, drop-append_add, ◌⊎◌,
  le→ltb-false, ltb, lt→leb-false, leb, die_if, ◌>>◌, ◌>>=◌, proto,
}
use tinyssh.Bytes.{load_bigendian, byte_move, purge}
use tinyssh.Bytes.Lengths.{length-byte_move, length-purge}
use tinyssh.Bytes.Copy.{zeros, length-zeros}
use tinyssh.Buf.{Buf, buf_put}
use tinyssh.Buf.Contents.{IsValid, contents, length-contents, Appends, buf_put-Appends}
use tinyssh.Buf.Puts.{Appends-elim}
use tinyssh.Packet.{Packet, packet_zerobytes, transport_packet_limit}
use tinyssh.Chacha20.Under.{IsByte}
use tinyssh.ChachaPoly.{
  Streams, chachapoly_packet_get, open_packet, with_onetime_key, tag_matches, sealed_length, nonce,
  auth_bytes, xor_at,
}
use tinyssh.ChachaPoly.Places.{KeyStream}
use tinyssh.ChachaPoly.Sealed.{body, zeros-All}
use tinyssh.ChachaPoly.Opens.{
  shown_length, keyed_lem, genuine, ahead, length-ahead, deciphered, tag, length-sealed,
}
use tinyssh.ChachaPoly.Opened.{awaited_packet, OpensUp, opened, full, taken_off}

module _ (s : Streams) (ks : KeyStream s) (p : Packet) (b : Buf) (front payload rest : List ℕ)
    (pad : ℕ) (v : IsValid p.recvbuf) (w : IsValid b) (zeroes : length front ≡ 64)
    (front_bytes : All IsByte front) (payload_bytes : All IsByte payload)
    (some_payload : 0 < length payload) (least : 4 ≤ pad) (most : pad ≤ 255)
    (small : length (body payload pad) ≤ transport_packet_limit - 4 - auth_bytes)
    (holds : contents p.recvbuf
      ≡ front ++ (awaited_packet s ks p.receivepacketid payload pad ++ rest)) where
  abbrev n : List ℕ
  n = nonce p.receivepacketid

  abbrev xs : List ℕ
  xs = body payload pad

  abbrev packet : List ℕ
  packet = awaited_packet s ks p.receivepacketid payload pad

  abbrev behind : List ℕ
  behind = rest ++ drop p.recvbuf.len p.recvbuf.mem

  bytes : All IsByte xs
  bytes = (omega (arith, most), All-append IsByte payload (zeros pad) payload_bytes (zeros-All pad))

  short : length xs < 2 ^ 32
  short = omega (arith, small)

  memory : p.recvbuf.mem ≡ front ++ (packet ++ behind)
  memory =
      sym (take-append-drop p.recvbuf.len p.recvbuf.mem)
      ∙ ap (λ z. z ++ drop p.recvbuf.len p.recvbuf.mem) holds
      ∙ simp append_assoc refl

  length-xs : length xs ≡ 1 + length payload + pad
  length-xs = omega (arith, length-append payload (zeros pad), length-zeros pad)

  received : p.recvbuf.len ≡ 64 + (20 + length xs) + length rest
  received = omega (
    arith,
    zeroes,
    length-contents p.recvbuf v,
    ap length holds,
    length-append front (packet ++ rest),
    length-append packet rest,
    length-sealed s ks n front xs behind zeroes front_bytes bytes short,
  )

  -- The memory after the packet is deciphered.
  clear : List ℕ
  clear = ahead s ks n front xs behind zeroes front_bytes bytes short

  clear_lem :
      xor_at s (with_onetime_key s p.recvbuf.mem n) 4 (length xs + packet_zerobytes) n s.clientkey
      ≡ clear ++ (xs ++ (tag s ks n front xs behind zeroes front_bytes bytes short ++ behind))
  unfolding clear
  clear_lem =
      ap (λ z. xor_at s z 4 (length xs + packet_zerobytes) n s.clientkey)
        (ap (λ z. with_onetime_key s z n) memory
          ∙ keyed_lem s ks n front xs behind zeroes front_bytes bytes short (packet ++ behind))
      ∙ deciphered s ks n front xs behind zeroes front_bytes bytes short

  authentic : tag_matches s (with_onetime_key s p.recvbuf.mem n) (length xs) ≡ true
  authentic =
      ap (λ z. tag_matches s z (length xs))
        (ap (λ z. with_onetime_key s z n) memory
          ∙ keyed_lem s ks n front xs behind zeroes front_bytes bytes short (packet ++ behind))
      ∙ genuine s ks n front xs behind zeroes front_bytes bytes short

  -- What `open_packet` does with the deciphered memory.
  abbrev taking : List ℕ → Outcome (Bool × Buf × Packet)
  taking m = do
    let padding = get_or m (packet_zerobytes + 4) 0
    die_if (ltb padding 4) proto
    die_if (leb (length xs) (padding + 1)) proto
    b ← buf_put b (drop (packet_zerobytes + 5) m) (length xs - (padding + 1))
    let l = p.recvbuf.len - packet_zerobytes
    let all = length xs + auth_bytes + 4
    let m = byte_move m packet_zerobytes (l - all) (packet_zerobytes + all)
    let m = purge m (packet_zerobytes + (l - all)) all
    ok (
      true,
      b,
      record p {
        recvbuf = record {
          mem = purge m 0 packet_zerobytes;
          len = p.recvbuf.len - all;
          alloc = p.recvbuf.alloc;
        };
        receivepacketid = (p.receivepacketid + 1) % 2 ^ 32;
        packet_length = 0;
      },
    )

  abbrev tail : List ℕ
  tail = tag s ks n front xs behind zeroes front_bytes bytes short ++ behind

  length-clear : length clear ≡ 68
  unfolding clear
  length-clear = length-ahead s ks n front xs behind zeroes front_bytes bytes short

  sixteen : length (tag s ks n front xs behind zeroes front_bytes bytes short) ≡ 16
  sixteen = ks.tag_length _ _

  -- The buffer of received bytes without the packet.
  abbrev left_over : Buf
  left_over =
      let left = p.recvbuf.len - packet_zerobytes - (length xs + auth_bytes + 4) in
      record {
        mem =
            purge
              (purge
                (byte_move (clear ++ (xs ++ tail)) packet_zerobytes left
                  (packet_zerobytes + (length xs + auth_bytes + 4)))
                (packet_zerobytes + left) (length xs + auth_bytes + 4))
              0 packet_zerobytes;
        len = p.recvbuf.len - (length xs + auth_bytes + 4);
        alloc = p.recvbuf.alloc;
      }

  length-memory : length (clear ++ (xs ++ tail)) ≡ length p.recvbuf.mem
  length-memory = omega (
    arith,
    ap length memory,
    zeroes,
    length-append front (packet ++ behind),
    length-append packet behind,
    length-sealed s ks n front xs behind zeroes front_bytes bytes short,
    length-append clear (xs ++ tail),
    length-append xs tail,
    length-append (tag s ks n front xs behind zeroes front_bytes bytes short) behind,
    length-clear,
    sixteen,
  )

  left_over-IsValid : IsValid left_over
  left_over-IsValid = record {
    held = omega (arith, v.held);
    backed =
        rw (length-purge, length-purge, length-byte_move) (omega (arith, v.backed, length-memory));
    positive = v.positive;
    small = v.small;
  }

  left_over-contents : contents left_over ≡ zeros 64 ++ rest
  left_over-contents =
      ap
        (λ z. take (p.recvbuf.len - (length xs + auth_bytes + 4)) (
          purge
            (purge (byte_move z 64 left (64 + (length xs + auth_bytes + 4))) (64 + left)
              (length xs + auth_bytes + 4))
            0 64))
        regrouped
      ∙ ap₂
          (λ j k. take j (
            purge
              (purge (byte_move (take 64 clear ++ (gone ++ (rest ++ end))) 64 left (64 + k))
                (64 + left) k)
              0 64))
          (omega (arith, received)) (sym length-gone)
      ∙ taken_off (take 64 clear) gone rest end left
          (omega (arith, length-take 64 clear, length-clear)) (omega (arith, received))
    where
      left : ℕ
      left = p.recvbuf.len - packet_zerobytes - (length xs + auth_bytes + 4)

      end : List ℕ
      end = drop p.recvbuf.len p.recvbuf.mem

      gone : List ℕ
      gone = drop 64 clear ++ (xs ++ tag s ks n front xs behind zeroes front_bytes bytes short)

      length-gone : length gone ≡ length xs + auth_bytes + 4
      length-gone = omega (
        arith,
        length-append (drop 64 clear)
            (xs ++ tag s ks n front xs behind zeroes front_bytes bytes short),
        length-append xs (tag s ks n front xs behind zeroes front_bytes bytes short),
        length-drop 64 clear,
        length-clear,
        sixteen,
      )

      regrouped : clear ++ (xs ++ tail) ≡ take 64 clear ++ (gone ++ (rest ++ end))
      regrouped =
          ap (λ z. z ++ (xs ++ tail)) (sym (take-append-drop 64 clear)) ∙ simp append_assoc refl

  taken : OpensUp p b payload rest (taking (clear ++ (xs ++ tail)))
  taken =
      rw
        (
          first_byte,
          le→ltb-false pad 4 least,
          lt→leb-false (length xs) (pad + 1) (omega (arith, length-xs, some_payload)),
          rest_of,
          count,
        )
        (Appends-elim (OpensUp p b payload rest) b payload _ _ put
          (λ c vc ac ec. opened c left_over vc left_over-IsValid ec left_over-contents) full)
    where
      first_byte : get_or (clear ++ (xs ++ tail)) (packet_zerobytes + 4) 0 ≡ pad
      first_byte =
          get_or-append clear (xs ++ tail) 0 (packet_zerobytes + 4) 0 (omega (arith, length-clear))

      rest_of : drop (packet_zerobytes + 5) (clear ++ (xs ++ tail)) ≡ payload ++ (zeros pad ++ tail)
      rest_of =
          drop-append_add clear (xs ++ tail) 1 (packet_zerobytes + 5) (omega (arith, length-clear))
          ∙ append_assoc payload (zeros pad) tail

      count : length xs - (pad + 1) ≡ length payload
      count = omega (arith, length-xs)

      put : Appends b payload (buf_put b (payload ++ (zeros pad ++ tail)) (length payload))
      put =
          subst (λ z. Appends b z (buf_put b (payload ++ (zeros pad ++ tail)) (length payload)))
            (take-append payload (zeros pad ++ tail) (length payload) refl)
            (buf_put-Appends b w (payload ++ (zeros pad ++ tail)) (length payload)
              (omega (arith, length-xs, small))
              (omega (arith, length-append payload (zeros pad ++ tail))))

  open_packet-OpensUp :
      OpensUp p b payload rest
        (open_packet s (record p { packet_length = length xs }) b (length xs) n)
  unfolding open_packet
  open_packet-OpensUp =
      rw authentic (subst (λ m. OpensUp p b payload rest (taking m)) (sym clear_lem) taken)

  sealed_length_lem :
      (p.packet_length ≡ 0) ⊎ (p.packet_length ≡ length xs) → sealed_length s p n ≡ length xs
  unfolding sealed_length
  sealed_length_lem known = ground (
    arith,
    known,
    length-xs,
    ap
          (λ z.
            load_bigendian (s.stream_xor (take 4 (drop packet_zerobytes z)) n (drop 32 s.clientkey))
              0)
          memory
        ∙ shown_length s ks n front xs behind zeroes front_bytes bytes short,
  )

  pub chachapoly_packet_get-OpensUp :
      (p.packet_length ≡ 0) ⊎ (p.packet_length ≡ length xs)
      → OpensUp p b payload rest (chachapoly_packet_get s p b)
  unfolding chachapoly_packet_get
  chachapoly_packet_get-OpensUp known =
      rw
        (
          sealed_length_lem known,
          le→ltb-false (p.recvbuf.len - packet_zerobytes) 4 (omega (arith, received)),
          le→ltb-false (transport_packet_limit - 4 - auth_bytes) (length xs) small,
          le→ltb-false (p.recvbuf.len - packet_zerobytes) (length xs + auth_bytes + 4)
              (omega (arith, received)),
        )
        open_packet-OpensUp
