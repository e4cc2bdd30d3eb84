-- ===== src/Packet/Receive.antt =====
-- What packet_get.c makes of a packet without keys.
use tinyssh.Common.{
  ℕ, ◌+◌, ◌-◌, ◌%◌, ◌^◌, ◌≤◌, ◌<◌, ◌≡◌, refl, sym, ap, ap₂, ◌∙◌, List, ◌∷◌, ◌++◌, arith,
  append_assoc, length, take, drop, get_or, length-append, length-drop, get_or-drop, get_or-append,
  drop-append_add, drop-append, drop-drop, take-append-drop, take-append, Bool, true, Outcome, ok,
  die, nomem, subst, le→ltb-false, lt→leb-false,
}
use tinyssh.Bytes.{store_bigendian, load_bigendian, byte_move}
use tinyssh.Bytes.Copy.{zeros, close_gap, take-close_gap}
use tinyssh.Bytes.Lengths.{length-byte_move, length-purge}
use tinyssh.Bytes.Endian.{length-store_bigendian, load-store}
use tinyssh.Buf.{Buf, buf_put}
use tinyssh.Buf.Contents.{IsValid, contents, length-contents, Appends, buf_put-Appends}
use tinyssh.Buf.Puts.{Appends-elim}
use tinyssh.Packet.{Packet, transport_packet_limit, packet_zerobytes}
use tinyssh.Packet.Plain.{packet_get_plain, padding_length, take_off}
use tinyssh.Packet.Frames.{frame, frame_aligned, body, length-frame}

-- `o` has the payload behind the bytes of `b`, and the received bytes without the packet: the zero
-- bytes `front` and then `rest`. Or the payload does not fit `b`.
pub data Receives (p : Packet) (b : Buf) (front payload rest : List ℕ)
    : Outcome (Bool × Buf × Packet) → Type 0 where
  received :
      (b' r : Buf)
      → IsValid b'
      → IsValid r
      → contents b' ≡ contents b ++ payload
      → contents r ≡ front ++ rest
      → Receives p b front payload rest (
          ok (
            true,
            b',
            record p { recvbuf = r; receivepacketid = (p.receivepacketid + 1) % 2 ^ 32 },
          ))
  full : b.alloc ≤ b.len + length payload → Receives p b front payload rest (die nomem)

-- Memory that holds a packet behind the zero bytes.
module _ (r : Buf) (v : IsValid r) (front payload rest : List ℕ)
    (zeroes : length front ≡ packet_zerobytes)
    (holds : contents r ≡ front ++ (frame payload ++ rest))
    (fits : length (frame payload) ≤ transport_packet_limit) where
  abbrev pad : ℕ
  pad = padding_length (5 + length payload)

  abbrev word : ℕ
  word = 1 + length payload + pad

  abbrev tail : List ℕ
  tail = drop r.len r.mem

  abbrev behind : List ℕ
  behind = body payload ++ (rest ++ tail)

  whole : r.mem ≡ front ++ (frame payload ++ (rest ++ tail))
  whole =
      sym (take-append-drop r.len r.mem)
      ∙ ap (λ z. z ++ tail) holds
      ∙ append_assoc front (frame payload ++ rest) tail
      ∙ ap (◌++◌ front) (append_assoc (frame payload) rest tail)

  from_front : drop packet_zerobytes r.mem ≡ store_bigendian word ++ (pad ∷ behind)
  from_front =
      ap (drop packet_zerobytes) whole
      ∙ drop-append front (frame payload ++ (rest ++ tail)) packet_zerobytes (sym zeroes)
      ∙ append_assoc (store_bigendian word) (pad ∷ body payload) (rest ++ tail)

  word_read : load_bigendian r.mem packet_zerobytes ≡ word
  word_read =
      load-store r.mem packet_zerobytes word (pad ∷ behind)
        (omega (arith, length-frame payload, fits)) from_front

  pad_read : get_or r.mem (packet_zerobytes + 4) 0 ≡ pad
  pad_read =
      sym (get_or-drop packet_zerobytes 4 r.mem 0)
      ∙ ap (λ z. get_or z 4 0) from_front
      ∙ get_or-append (store_bigendian word) (pad ∷ behind) 0 4 0
          (omega (arith, length-store_bigendian word))

  payload_read : take (length payload) (drop (packet_zerobytes + 5) r.mem) ≡ payload
  payload_read =
      ap (take (length payload)) (
        sym (drop-drop 5 packet_zerobytes r.mem)
        ∙ ap (drop 5) from_front
        ∙ drop-append_add (store_bigendian word) (pad ∷ behind) 1 5
            (omega (arith, length-store_bigendian word))
        ∙ append_assoc payload (zeros pad) (rest ++ tail))
      ∙ take-append payload (zeros pad ++ (rest ++ tail)) (length payload) refl

  size : r.len ≡ packet_zerobytes + length (frame payload) + length rest
  size = omega (
    arith,
    length-contents r v,
    ap length holds,
    length-append front (frame payload ++ rest),
    length-append (frame payload) rest,
    zeroes,
  )

  taken_off : contents (take_off r (word + 4)) ≡ front ++ rest
  unfolding close_gap
  taken_off =
      ap (λ k. take k gapless) counted_left
      ∙ take-close_gap r.mem packet_zerobytes left (word + 4)
          (omega (arith, size, n, v.held, v.backed))
      ∙ ap₂ ◌++◌ before after
    where
      n : length (frame payload) ≡ word + 4
      n = omega (arith, length-frame payload)

      left : ℕ
      left = r.len - packet_zerobytes - (word + 4)

      gapless : List ℕ
      gapless = (take_off r (word + 4)).mem

      counted_left : r.len - (word + 4) ≡ packet_zerobytes + left
      counted_left = omega (arith, size, n)

      before : take packet_zerobytes r.mem ≡ front
      before =
          ap (take packet_zerobytes) whole
          ∙ take-append front (frame payload ++ (rest ++ tail)) packet_zerobytes (sym zeroes)

      after : take left (drop (packet_zerobytes + (word + 4)) r.mem) ≡ rest
      after =
          ap (take left) (
            ap (drop (packet_zerobytes + (word + 4))) whole
            ∙ drop-append_add front (frame payload ++ (rest ++ tail)) (word + 4)
                (packet_zerobytes + (word + 4)) (omega (arith, zeroes))
            ∙ drop-append (frame payload) (rest ++ tail) (word + 4) (sym n))
          ∙ take-append rest tail left (omega (arith, size, n))

  take_off-IsValid : IsValid (take_off r (word + 4))
  take_off-IsValid = record {
    held = omega (arith, v.held);
    backed = omega (
      arith,
      v.backed,
      length-purge
          (byte_move r.mem packet_zerobytes (r.len - packet_zerobytes - (word + 4))
            (packet_zerobytes + (word + 4)))
          (packet_zerobytes + (r.len - packet_zerobytes - (word + 4))) (word + 4),
      length-byte_move r.mem packet_zerobytes (r.len - packet_zerobytes - (word + 4))
          (packet_zerobytes + (word + 4)),
    );
    positive = v.positive;
    small = v.small;
  }

  room : length payload ≤ length (drop (packet_zerobytes + 5) r.mem)
  room = omega (
    arith,
    length-drop (packet_zerobytes + 5) r.mem,
    size,
    length-frame payload,
    v.held,
    v.backed,
  )

-- With the frame of a payload at the front of the received bytes, behind 64 zero bytes, the
-- payload is put into `b`, the frame is taken off with whatever follows it left in place, and the
-- packet is counted; or the process ends because the payload does not fit `b`. The buffers are
-- valid, the payload is not empty, and the frame is within the limit of the transport.
pub packet_get_plain-Receives :
    (p : Packet) (b : Buf) (front payload rest : List ℕ)
    → IsValid p.recvbuf
    → IsValid b
    → length front ≡ packet_zerobytes
    → contents p.recvbuf ≡ front ++ (frame payload ++ rest)
    → length (frame payload) ≤ transport_packet_limit
    → 0 < length payload
    → Receives p b front payload rest (packet_get_plain p b)
unfolding packet_get_plain
packet_get_plain-Receives p b front payload rest v w zeroes holds fits some_payload =
    rw
      (
        word_read r v front payload rest zeroes holds fits,
        le→ltb-false l 4 (omega (arith, big, length-frame payload)),
        le→ltb-false (transport_packet_limit - 4) k (omega (arith, fits, length-frame payload)),
        le→ltb-false l (k + 4) (omega (arith, big, length-frame payload)),
        pad_read r v front payload rest zeroes holds fits,
        le→ltb-false q 4 (frame_aligned payload).1,
        lt→leb-false k (q + 1) (omega arith),
      )
      (Appends-elim (Receives p b front payload rest) b payload _ _ put
        (λ c u a e.
          received c (take_off r (k + 4)) u
            (take_off-IsValid r v front payload rest zeroes holds fits) e
            (taken_off r v front payload rest zeroes holds fits))
        full)
  where
    r : Buf
    r = p.recvbuf

    l : ℕ
    l = r.len - packet_zerobytes

    q : ℕ
    q = padding_length (5 + length payload)

    k : ℕ
    k = 1 + length payload + q

    big : r.len ≡ packet_zerobytes + length (frame payload) + length rest
    big = size r v front payload rest zeroes holds fits

    n : ℕ
    n = k - (q + 1)

    same : n ≡ length payload
    same = omega arith

    put : Appends b payload (buf_put b (drop (packet_zerobytes + 5) r.mem) n)
    put =
        subst (λ z. Appends b z (buf_put b (drop (packet_zerobytes + 5) r.mem) n))
          (ap (λ j. take j (drop (packet_zerobytes + 5) r.mem)) same
            ∙ payload_read r v front payload rest zeroes holds fits)
          (buf_put-Appends b w (drop (packet_zerobytes + 5) r.mem) n
            (omega (arith, same, fits, length-frame payload))
            (omega (arith, same, room r v front payload rest zeroes holds fits)))
