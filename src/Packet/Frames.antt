-- ===== src/Packet/Frames.antt =====
-- The plain packets on the wire (RFC 4253 section 6), as packet_put.c writes them.
use tinyssh.Common.{
  ℕ, ◌+◌, ◌-◌, ◌%◌, ◌^◌, ◌≤◌, ◌<◌, ◌≡◌, sym, ap, ap₂, ◌∙◌, List, [], ◌∷◌, ◌++◌, arith, append_assoc,
  length, take, drop, set, set-append, length-append, length-take, length-set, take-append-drop,
  take-append, take_all, Outcome, ok, die, nomem,
}
use tinyssh.Bytes.{byte_copy, store_bigendian}
use tinyssh.Bytes.Lengths.{length-byte_copy}
use tinyssh.Bytes.Copy.{splice, zeros, length-zeros, byte_copy-splice, splice-append}
use tinyssh.Bytes.Endian.{length-store_bigendian, store_bigendian-zero}
use tinyssh.Buf.{Buf}
use tinyssh.Buf.Contents.{
  IsValid, contents, length-contents, buf_put-Appends, buf_putzerobytes-Appends,
}
use tinyssh.Buf.Puts.{Appends-elim, counted, buf_putnum32-Appends, buf_putnum8-Appends}
use tinyssh.Packet.{Packet}
use tinyssh.Packet.Plain.{packet_put_plain, padding_length, store_at}

-- The packet of a payload: its length, the length of the padding, the payload, the padding.
abbrev pub frame : List ℕ → List ℕ
frame payload =
    let pad = padding_length (5 + length payload) in
    store_bigendian (1 + length payload + pad) ++ (pad ∷ (payload ++ zeros pad))

-- A packet without keys is a multiple of eight bytes long and is padded by 4 to 255 bytes (RFC
-- 4253 section 6).
pub frame_aligned :
    (payload : List ℕ)
    → let pad = padding_length (5 + length payload) in
      (length (frame payload) % 8 ≡ 0) × (4 ≤ pad) × (pad ≤ 255)
unfolding padding_length
frame_aligned payload = omega (
  arith,
  length-append (store_bigendian (1 + length payload + padding_length (5 + length payload))) (
      padding_length (5 + length payload)
      ∷ (payload ++ zeros (padding_length (5 + length payload)))),
  length-store_bigendian (1 + length payload + padding_length (5 + length payload)),
  length-append payload (zeros (padding_length (5 + length payload))),
  length-zeros (padding_length (5 + length payload)),
)

-- Writing the header over its five zero bytes.
header :
    (m front rest : List ℕ) (a b c d e at n x v : ℕ)
    → at ≡ length front
    → n ≤ length m
    → take n m ≡ front ++ (a ∷ b ∷ c ∷ d ∷ e ∷ rest)
    → take n (byte_copy (set m (at + 4) v) at 4 (store_bigendian x))
      ≡ front ++ (store_bigendian x ++ (v ∷ rest))
header m front rest a b c d e at n x v at_end fits known =
    ap (λ z. take n (byte_copy (set z (at + 4) v) at 4 (store_bigendian x))) whole
    ∙ ap (λ z. take n (byte_copy z at 4 (store_bigendian x)))
        (set-append front (a ∷ b ∷ c ∷ d ∷ e ∷ (rest ++ tail)) 4 (at + 4) v (omega arith))
    ∙ ap (take n) written
    ∙ ap (take n) regrouped
    ∙ take-append (front ++ (store_bigendian x ++ (v ∷ rest))) tail n measured
  where
    tail : List ℕ
    tail = drop n m

    whole : m ≡ front ++ (a ∷ b ∷ c ∷ d ∷ e ∷ (rest ++ tail))
    whole =
        sym (take-append-drop n m)
        ∙ ap (λ z. z ++ tail) known
        ∙ append_assoc front (a ∷ b ∷ c ∷ d ∷ e ∷ rest) tail

    four : take 4 (store_bigendian x) ≡ store_bigendian x
    four = take_all 4 (store_bigendian x) (omega (arith, length-store_bigendian x))

    patched : List ℕ
    patched = front ++ (a ∷ b ∷ c ∷ d ∷ v ∷ (rest ++ tail))

    written :
        byte_copy patched at 4 (store_bigendian x)
        ≡ front ++ (store_bigendian x ++ (v ∷ (rest ++ tail)))
    written =
        byte_copy-splice patched at 4 (store_bigendian x) (omega (arith, length-store_bigendian x))
          (omega (arith, length-append front (a ∷ b ∷ c ∷ d ∷ v ∷ (rest ++ tail))))
        ∙ ap (splice patched at) four
        ∙ splice-append front (a ∷ b ∷ c ∷ d ∷ v ∷ (rest ++ tail)) (store_bigendian x) at at_end
        ∙ ap (λ k. front ++ (store_bigendian x ++ drop k (a ∷ b ∷ c ∷ d ∷ v ∷ (rest ++ tail))))
            (length-store_bigendian x)

    regrouped :
        front ++ (store_bigendian x ++ (v ∷ (rest ++ tail)))
        ≡ (front ++ (store_bigendian x ++ (v ∷ rest))) ++ tail
    regrouped =
        ap (◌++◌ front) (sym (append_assoc (store_bigendian x) (v ∷ rest) tail))
        ∙ sym (append_assoc front (store_bigendian x ++ (v ∷ rest)) tail)

    measured : n ≡ length (front ++ (store_bigendian x ++ (v ∷ rest)))
    measured = omega (
      arith,
      ap length known,
      length-take n m,
      length-append front (a ∷ b ∷ c ∷ d ∷ e ∷ rest),
      length-append front (store_bigendian x ++ (v ∷ rest)),
      length-append (store_bigendian x) (v ∷ rest),
      length-store_bigendian x,
    )

-- `o` is the state with the packet of `payload` at the end of what is to be sent and the number of
-- packets counted on, or the end of the process because the packet would not fit.
pub data Sends (p : Packet) (payload : List ℕ) : Outcome Packet → Type 0 where
  queued :
      (s : Buf)
      → IsValid s
      → s.alloc ≡ p.sendbuf.alloc
      → contents s ≡ contents p.sendbuf ++ frame payload
      → Sends p payload
          (ok (record p { sendbuf = s; sendpacketid = (p.sendpacketid + 1) % 2 ^ 32 }))
  full : p.sendbuf.alloc ≤ p.sendbuf.len + length (frame payload) → Sends p payload (die nomem)

-- The body of a packet, behind the bytes already queued.
abbrev pub body : List ℕ → List ℕ
body payload = payload ++ zeros (padding_length (5 + length payload))

store_at-IsValid :
    (s : Buf) (at i v x : ℕ)
    → IsValid s
    → IsValid (store_at (record s { mem = set s.mem i v }) at x)
store_at-IsValid s at i v x w = record {
  held = w.held;
  backed = omega (
    arith,
    w.backed,
    length-set s.mem i v,
    length-byte_copy (set s.mem i v) at 4 (store_bigendian x),
  );
  positive = w.positive;
  small = w.small;
}

-- The last step: the header goes over the zero bytes in front of the body.
finish :
    (p : Packet) (s : Buf) (payload : List ℕ) (v n : ℕ)
    → IsValid p.sendbuf
    → IsValid s
    → s.alloc ≡ p.sendbuf.alloc
    → contents s ≡ contents p.sendbuf ++ (0 ∷ 0 ∷ 0 ∷ 0 ∷ 0 ∷ body payload)
    → v ≡ padding_length (5 + length payload)
    → n ≡ 1 + length payload + padding_length (5 + length payload)
    → Sends p payload (
        ok (record p {
          sendpacketid = (p.sendpacketid + 1) % 2 ^ 32;
          sendbuf = store_at (record s { mem = set s.mem (p.sendbuf.len + 4) v }) p.sendbuf.len n;
        }))
finish p s payload v n w u same known ev en =
    queued _ (store_at-IsValid s p.sendbuf.len (p.sendbuf.len + 4) v n u) same (
      header s.mem (contents p.sendbuf) (body payload) 0 0 0 0 0 p.sendbuf.len s.len n v
        (omega (arith, length-contents p.sendbuf w)) (omega (arith, u.held, u.backed)) known
      ∙ ap₂ (λ i j. contents p.sendbuf ++ (store_bigendian i ++ (j ∷ body payload))) en ev)

pub length-frame :
    (payload : List ℕ)
    → length (frame payload) ≡ 5 + length payload + padding_length (5 + length payload)
length-frame payload = omega (
  arith,
  length-append (store_bigendian (1 + length payload + padding_length (5 + length payload)))
      (padding_length (5 + length payload) ∷ body payload),
  length-store_bigendian (1 + length payload + padding_length (5 + length payload)),
  length-append payload (zeros (padding_length (5 + length payload))),
  length-zeros (padding_length (5 + length payload)),
)

pub padding_length-lt : (n : ℕ) → padding_length n < 256
unfolding padding_length
padding_length-lt n = omega arith

-- The five header bytes, the payload and the padding, one behind the other.
joined :
    (s0 s1 s2 s3 s4 : Buf) (payload : List ℕ) (pad : ℕ)
    → contents s1 ≡ contents s0 ++ store_bigendian 0
    → contents s2 ≡ contents s1 ++ (0 ∷ [])
    → contents s3 ≡ contents s2 ++ payload
    → contents s4 ≡ contents s3 ++ zeros pad
    → pad ≡ padding_length (5 + length payload)
    → contents s4 ≡ contents s0 ++ (0 ∷ 0 ∷ 0 ∷ 0 ∷ 0 ∷ body payload)
joined s0 s1 s2 s3 s4 payload pad e1 e2 e3 e4 ep =
    e4
    ∙ ap (λ z. z ++ zeros pad)
        (e3
          ∙ ap (λ z. z ++ payload)
              (e2 ∙ ap (λ z. z ++ (0 ∷ [])) (e1 ∙ ap (◌++◌ (contents s0)) store_bigendian-zero)))
    ∙ simp append_assoc (ap (λ k. contents s0 ++ (0 ∷ 0 ∷ 0 ∷ 0 ∷ 0 ∷ (payload ++ zeros k))) ep)

-- With a valid queue and a valid payload buffer, writing a packet without keys puts the frame of
-- the payload behind the queue and counts the packet, and changes nothing else; or the process
-- ends because the frame, and a byte more, would not fit.
pub packet_put_plain-Sends :
    (p : Packet) (b : Buf)
    → IsValid p.sendbuf
    → IsValid b
    → Sends p (contents b) (packet_put_plain p b)
unfolding packet_put_plain
packet_put_plain-Sends p b v w =
    Appends-elim P s0 _ _ _ (buf_putnum32-Appends s0 v 0)
      (λ s1 v1 a1 e1.
        let n1 = counted s0 s1 _ v v1 e1 in
        Appends-elim P s1 _ _ _ (buf_putnum8-Appends s1 v1 0)
          (λ s2 v2 a2 e2.
            let n2 = counted s1 s2 _ v1 v2 e2 in
            Appends-elim P s2 _ _ _
              (buf_put-Appends s2 v2 b.mem b.len (omega (arith, w.held, w.small))
                (omega (arith, w.held, w.backed)))
              (λ s3 v3 a3 e3.
                let n3 = counted s2 s3 payload v2 v3 e3 in
                let pad = padding_length (s3.len - s0.len) in
                let known : pad ≡ padding_length (5 + length payload) =
                  ap padding_length (omega (arith, n1, n2, n3, four)) in
                Appends-elim P s3 _ _ _
                  (buf_putzerobytes-Appends s3 v3 pad
                    (omega (arith, padding_length-lt (s3.len - s0.len))))
                  (λ s4 v4 a4 e4.
                    let n4 = counted s3 s4 _ v3 v4 e4 in
                    finish p s4 payload pad (s4.len - s0.len - 4) v v4 (a4 ∙ a3 ∙ a2 ∙ a1)
                      (joined s0 s1 s2 s3 s4 payload pad e1 e2 e3 e4 known) known
                      (omega (arith, n1, n2, n3, n4, four, known, length-zeros pad)))
                  (λ o. full (
                    omega (
                      arith,
                      o,
                      n1,
                      n2,
                      n3,
                      four,
                      known,
                      length-zeros pad,
                      a1,
                      a2,
                      a3,
                      length-frame payload,
                    ))))
              (λ o. full (omega (arith, o, n1, n2, four, a1, a2, length-frame payload))))
          (λ o. full (omega (arith, o, n1, four, a1, length-frame payload))))
      (λ o. full (omega (arith, o, four, length-frame payload)))
  where
    s0 : Buf
    s0 = p.sendbuf

    payload : List ℕ
    payload = contents b

    four : length (store_bigendian 0) ≡ 4
    four = length-store_bigendian 0

    P : Outcome Packet → Type 0
    P = Sends p payload
