-- ===== src/ChachaPoly/Authentic.antt =====
-- What `chachapoly_packet_get` takes off the received bytes, and what it gives to the caller.
use tinyssh.Common.{
  ℕ, ◌+◌, ◌-◌, ◌%◌, ◌^◌, ◌≤◌, ◌<◌, ◌≡◌, refl, sym, ap, ◌∙◌, subst, List, [], ◌∷◌, ◌++◌, Bool, true,
  false, not, arith, length, get_or, take, drop, take-append-drop, drop-append_add, drop-drop,
  take-drop, get_or-append, length-take, length-drop, length-append, All, ltb, leb, ltb-false→le,
  leb-false→lt, Outcome, ok, proto, die_if, ◌>>=◌, ◌>>◌, Returns, Returns-bind, Returns-if,
  Returns_checked,
}
use tinyssh.Bytes.{byte_move, purge}
use tinyssh.Bytes.Copy.{zeros}
use tinyssh.Buf.{Buf, buf_put}
use tinyssh.Buf.Contents.{IsValid, contents, buf_put-Appends}
use tinyssh.Buf.Puts.{appended}
use tinyssh.Packet.{Packet, packet_zerobytes, transport_packet_limit}
use tinyssh.Line.Same.{Same}
use tinyssh.Chacha20.Under.{IsByte, length-under}
use tinyssh.ChachaPoly.{
  Streams, chachapoly_packet_get, open_packet, nonce, with_onetime_key, tag_matches, auth_bytes,
}
use tinyssh.ChachaPoly.Places.{KeyStream}
use tinyssh.ChachaPoly.Opened.{taken_off}
use tinyssh.ChachaPoly.Forged.{received_tag, right_tag, tag_matches_iff}
use tinyssh.ChachaPoly.Deciphered.{take_within, f, deciphered, decrypted_lem}
use tinyssh.ChachaPoly.Laws.{next_length}

module _ (s : Streams) (ks : KeyStream s) (p : Packet) (b : Buf) where
  abbrev number : List ℕ
  number = nonce p.receivepacketid

  -- Nothing but `packet_length` has changed; or a packet with the right tag has come off: the
  -- payload between the length of the padding and the padding stands behind what `b` held, and the
  -- received bytes behind the packet stand behind 64 zeros.
  pub data Accepts : Bool × Buf × Packet → Type 0 where
    nothing : (length : ℕ) → Accepts (true, b, record p { packet_length = length })
    accepted :
        (len padding : ℕ) (plain : List ℕ) (c : Buf) (q : Packet)
        → len ≡ next_length s p
        → len + auth_bytes + 4 ≤ p.recvbuf.len - packet_zerobytes
        → received_tag p.recvbuf.mem len ≡ right_tag s ks number p.recvbuf.mem len
        → plain ≡ deciphered s ks number p.recvbuf.mem len
        → padding ≡ get_or plain 0 0
        → 4 ≤ padding
        → padding + 1 < len
        → contents c ≡ contents b ++ take (len - (padding + 1)) (drop 1 plain)
        → contents q.recvbuf ≡ zeros 64 ++ drop (84 + len) (contents p.recvbuf)
        → q.receivepacketid ≡ (p.receivepacketid + 1) % 2 ^ 32
        → Same p q
        → Accepts (true, c, q)

  module _ (v : IsValid p.recvbuf) (w : IsValid b) (bytes : All IsByte p.recvbuf.mem) (len : ℕ)
      (known : len ≡ next_length s p)
      (fits : len + auth_bytes + 4 ≤ p.recvbuf.len - packet_zerobytes)
      (small : len ≤ transport_packet_limit - 4 - auth_bytes) where
    abbrev plain : List ℕ
    plain = deciphered s ks number p.recvbuf.mem len

    abbrev behind : List ℕ
    behind = drop (68 + len) p.recvbuf.mem

    abbrev left : ℕ
    left = p.recvbuf.len - packet_zerobytes - (len + auth_bytes + 4)

    room : 84 + len ≤ p.recvbuf.len
    room = omega (arith, fits)

    length-plain : length plain ≡ len
    length-plain = omega (
      arith,
      room,
      v.held,
      v.backed,
      length-under (f s ks number p.recvbuf.mem len) 64 (take len (drop 68 p.recvbuf.mem)),
      length-take len (drop 68 p.recvbuf.mem),
      length-drop 68 p.recvbuf.mem,
    )

    -- What `open_packet` does with the deciphered memory.
    abbrev taking : List ℕ → Outcome (Bool × Buf × Packet)
    taking m = do
      let padding = get_or m (packet_zerobytes + 4) 0
      die_if (ltb padding 4) proto
      die_if (leb len (padding + 1)) proto
      b ← buf_put b (drop (packet_zerobytes + 5) m) (len - (padding + 1))
      let m = byte_move m packet_zerobytes left (packet_zerobytes + (len + auth_bytes + 4))
      let m = purge m (packet_zerobytes + left) (len + auth_bytes + 4)
      ok (
        true,
        b,
        record p {
          recvbuf = record (p.recvbuf) {
            mem = purge m 0 packet_zerobytes;
            len = p.recvbuf.len - (len + auth_bytes + 4);
          };
          receivepacketid = (p.receivepacketid + 1) % 2 ^ 32;
          packet_length = 0;
        },
      )

    module _ (front : List ℕ) (size : length front ≡ 68) where
      abbrev whole : List ℕ
      whole = front ++ (plain ++ behind)

      padding_lem : 0 < len → get_or whole (packet_zerobytes + 4) 0 ≡ get_or plain 0 0
      padding_lem some_bytes =
          get_or-append front (plain ++ behind) 0 (packet_zerobytes + 4) 0 (omega (arith, size))
          ∙ first plain behind (omega (arith, length-plain, some_bytes))
        where
          first : (xs ys : List ℕ) → 0 < length xs → get_or (xs ++ ys) 0 0 ≡ get_or xs 0 0
          first [] ys h = absurd (omega (arith, h))
          first (x ∷ xs) ys h = refl

      payload_lem :
          (k : ℕ) → k + 1 ≤ len → take k (drop (packet_zerobytes + 5) whole) ≡ take k (drop 1 plain)
      payload_lem k h =
          ap (take k)
            (drop-append_add front (plain ++ behind) 1 (packet_zerobytes + 5) (omega (arith, size)))
          ∙ take-drop k 1 (plain ++ behind)
          ∙ ap (drop 1) (take_within (1 + k) plain behind (omega (arith, h, length-plain)))
          ∙ sym (take-drop k 1 plain)

      kept_lem :
          take (p.recvbuf.len - (len + auth_bytes + 4)) (
            purge
              (purge
                (byte_move whole packet_zerobytes left (packet_zerobytes + (len + auth_bytes + 4)))
                (packet_zerobytes + left)
                (len + auth_bytes + 4))
              0
              packet_zerobytes)
          ≡ zeros 64 ++ drop (84 + len) (contents p.recvbuf)
      kept_lem =
          ap (λ z. take (p.recvbuf.len - gone) (close z gone)) parts
          ∙ ap
              (λ j.
                take j (close (take 64 whole ++ (x ++ (take left rest ++ drop left rest))) gone))
              {x = p.recvbuf.len - gone} {y = 64 + left} (omega (arith, room))
          ∙ ap
              (λ k.
                take (64 + left)
                  (close (take 64 whole ++ (x ++ (take left rest ++ drop left rest))) k))
              {x = gone} {y = length x} (sym length-x)
          ∙ taken_off (take 64 whole) x (take left rest) (drop left rest) left
              (omega (arith, length-take 64 whole, size, length-append front (plain ++ behind)))
              (omega (
                arith,
                length-take left rest,
                length-drop (84 + len) p.recvbuf.mem,
                room,
                v.held,
                v.backed,
              ))
          ∙ ap (λ z. zeros 64 ++ z)
              (take-drop left (84 + len) p.recvbuf.mem
                ∙ ap (λ k. drop (84 + len) (take k p.recvbuf.mem)) {x = 84 + len + left}
                    {y = p.recvbuf.len} (omega (arith, room)))
        where
          gone : ℕ
          gone = len + auth_bytes + 4

          close : List ℕ → ℕ → List ℕ
          close z k =
              purge
                (purge (byte_move z packet_zerobytes left (packet_zerobytes + k))
                  (packet_zerobytes + left) k)
                0 packet_zerobytes

          x : List ℕ
          x = take gone (drop 64 whole)

          rest : List ℕ
          rest = drop (84 + len) p.recvbuf.mem

          length-x : length x ≡ gone
          length-x = omega (
            arith,
            length-take gone (drop 64 whole),
            length-drop 64 whole,
            length-append front (plain ++ behind),
            length-append plain behind,
            length-plain,
            length-drop (68 + len) p.recvbuf.mem,
            size,
            room,
            v.held,
            v.backed,
          )

          rest_lem : drop gone (drop 64 whole) ≡ rest
          rest_lem =
              drop-drop gone 64 whole
              ∙ drop-append_add front (plain ++ behind) (len + 16) (64 + gone) (omega (arith, size))
              ∙ drop-append_add plain behind 16 (len + 16) (omega (arith, length-plain))
              ∙ drop-drop 16 (68 + len) p.recvbuf.mem
              ∙ ap (λ k. drop k p.recvbuf.mem) {x = 68 + len + 16} {y = 84 + len} (omega arith)

          parts : whole ≡ take 64 whole ++ (x ++ (take left rest ++ drop left rest))
          parts =
              sym (take-append-drop 64 whole)
              ∙ ap (λ z. take 64 whole ++ z)
                  (sym (take-append-drop gone (drop 64 whole))
                    ∙ ap (λ z. x ++ z) (rest_lem ∙ sym (take-append-drop left rest)))

      taking-Accepts :
          received_tag p.recvbuf.mem len ≡ right_tag s ks number p.recvbuf.mem len
          → Returns (taking whole) Accepts
      taking-Accepts authentic =
          Returns_checked Accepts (ltb (get_or whole (packet_zerobytes + 4) 0) 4) proto _ (λ t₁.
            Returns_checked Accepts (leb len (get_or whole (packet_zerobytes + 4) 0 + 1)) proto _
              (λ t₂.
                let most : get_or whole (packet_zerobytes + 4) 0 + 1 < len =
                  leb-false→lt len (get_or whole (packet_zerobytes + 4) 0 + 1) t₂ in
                let pad = padding_lem (omega (arith, most)) in
                let k = len - (get_or whole (packet_zerobytes + 4) 0 + 1) in
                let all : k ≤ length (drop (packet_zerobytes + 5) whole) = omega (
                  arith,
                  length-drop (packet_zerobytes + 5) whole,
                  length-append front (plain ++ behind),
                  length-append plain behind,
                  length-plain,
                  size,
                  most,
                ) in
                Returns-bind Accepts (buf_put b (drop (packet_zerobytes + 5) whole) k) _ (λ c e.
                  let (valid, holds) =
                    appended b (take k (drop (packet_zerobytes + 5) whole)) c _
                      (buf_put-Appends b w (drop (packet_zerobytes + 5) whole) k
                        (omega (arith, small)) all)
                      e in
                  accepted len (get_or whole (packet_zerobytes + 4) 0) plain c _ known fits
                    authentic refl pad (ltb-false→le (get_or whole (packet_zerobytes + 4) 0) 4 t₁)
                    most (holds ∙ ap (λ z. contents b ++ z) (payload_lem k (omega (arith, most))))
                    kept_lem refl
                    (record {
                      flagkeys = refl;
                      flagauthorized = refl;
                      flagrekeying = refl;
                      strict_kex = refl;
                    }))))

    open_packet-Accepts :
        Returns (open_packet s (record p { packet_length = len }) b len number) Accepts
    unfolding open_packet
    open_packet-Accepts =
        Returns_checked Accepts (not (tag_matches s (with_onetime_key s p.recvbuf.mem number) len))
          proto _
          (λ t.
            let (front, size, cleared) =
              decrypted_lem s ks number p.recvbuf.mem len bytes
                (omega (arith, room, v.held, v.backed)) in
            subst (λ z. Returns (taking z) Accepts) (sym cleared)
              (taking-Accepts front size (
                (tag_matches_iff s ks number p.recvbuf.mem len
                    (omega (arith, room, v.held, v.backed))).0
                  (certain (tag_matches s (with_onetime_key s p.recvbuf.mem number) len) t))))
      where
        certain : (t : Bool) → not t ≡ false → t ≡ true
        certain true e = refl
        certain false e = absurd (cc)

-- With a stream cipher that is exclusive or with a key stream of bytes, and an authenticator of
-- sixteen bytes, where `chachapoly_packet_get` ends well on valid buffers, with bytes in `recvbuf`:
-- it has taken nothing, and the buffer and the received bytes are as they were; or it has taken one
-- packet that was all there and whose last sixteen bytes are the tag of its encrypted length and
-- body under the one-time key of its number. The body under the key stream then begins with the
-- length of the padding, four at least; what is between that byte and the padding, one byte at
-- least, stands behind the string of `b`; what was behind the packet stands behind 64 zeros in the
-- received bytes; and one packet more is counted.
pub chachapoly_packet_get-Accepts :
    (s : Streams) (ks : KeyStream s) (p : Packet) (b : Buf)
    → IsValid p.recvbuf
    → IsValid b
    → All IsByte p.recvbuf.mem
    → Returns (chachapoly_packet_get s p b) (Accepts s ks p b)
unfolding chachapoly_packet_get
chachapoly_packet_get-Accepts s ks p b v w bytes =
    Returns-if (Accepts s ks p b) (ltb (p.recvbuf.len - packet_zerobytes) 4) _ _ (λ t. nothing 0)
      (λ t.
        Returns_checked (Accepts s ks p b)
          (ltb (transport_packet_limit - 4 - auth_bytes) (next_length s p)) proto _
          (λ small.
            Returns-if (Accepts s ks p b)
              (ltb (p.recvbuf.len - packet_zerobytes) (next_length s p + auth_bytes + 4)) _ _
              (λ t. nothing (next_length s p))
              (λ fits.
                open_packet-Accepts s ks p b v w bytes (next_length s p) refl
                  (ltb-false→le (p.recvbuf.len - packet_zerobytes)
                    (next_length s p + auth_bytes + 4) fits)
                  (ltb-false→le (transport_packet_limit - 4 - auth_bytes) (next_length s p)
                    small))))
