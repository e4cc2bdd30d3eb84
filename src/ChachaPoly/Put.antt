-- ===== src/ChachaPoly/Put.antt =====
-- The last steps of chachapoly_packet_put.
use tinyssh.Common.{
  ℕ, ◌+◌, ◌%◌, ◌^◌, ◌≤◌, ◌<◌, ◌≡◌, refl, sym, ap, ◌∙◌, List, [], ◌∷◌, ◌++◌, arith, append_assoc,
  length, set, take, drop, All, All-append, length-append, length-take, take-append,
  take-append-drop, set-append, Outcome, ok, die, nomem,
}
use tinyssh.Bytes.{store_bigendian}
use tinyssh.Bytes.Lengths.{length-byte_copy, length-byte_move, length-purge}
use tinyssh.Bytes.Copy.{zeros, length-zeros}
use tinyssh.Bytes.Endian.{length-store_bigendian}
use tinyssh.Buf.{Buf}
use tinyssh.Buf.Contents.{IsValid, contents, length-contents}
use tinyssh.Packet.{Packet}
use tinyssh.Chacha20.Under.{IsByte}
use tinyssh.ChachaPoly.{Streams, seal, xor_at, nonce, sealed_padding, zero_bytes}
use tinyssh.ChachaPoly.Places.{KeyStream}
use tinyssh.ChachaPoly.Sealed.{body, sealed_packet, zeros-All}
use tinyssh.ChachaPoly.Seals.{seal-contents}

-- The packet of a payload under the keys of the sender and the packet's number.
abbrev pub sent_packet : (s : Streams) → KeyStream s → ℕ → List ℕ → ℕ → List ℕ
sent_packet s ks id payload pad =
    sealed_packet s.auth (ks.mask (nonce id) s.serverkey) (ks.mask (nonce id) (drop 32 s.serverkey))
      (body payload pad)

-- `o` is the state with the sealed packet of `payload` behind the queue and its number counted; the
-- body is a multiple of eight bytes with 4 to 255 bytes of padding. Or the process ends because the
-- packet, its zero bytes and a byte more would not fit.
pub data SealsUp (s : Streams) (ks : KeyStream s) (p : Packet) (payload : List ℕ)
    : Outcome Packet → Type 0 where
  sealed :
      (b : Buf) (pad : ℕ)
      → IsValid b
      → b.alloc ≡ p.sendbuf.alloc
      → contents b ≡ contents p.sendbuf ++ sent_packet s ks p.sendpacketid payload pad
      → 4 ≤ pad
      → pad ≤ 255
      → length (body payload pad) % 8 ≡ 0
      → SealsUp s ks p payload
          (ok (record p { sendpacketid = (p.sendpacketid + 1) % 2 ^ 32; sendbuf = b }))
  full :
      (pad : ℕ)
      → pad ≤ 255
      → p.sendbuf.alloc ≤ p.sendbuf.len + (81 + length payload + pad)
      → SealsUp s ks p payload (die nomem)

-- A byte written over the 0 behind `front`.
patched :
    (m front rest : List ℕ) (at n v : ℕ)
    → at ≡ length front
    → n ≤ length m
    → take n m ≡ front ++ (0 ∷ rest)
    → take n (set m at v) ≡ front ++ (v ∷ rest)
patched m front rest at n v e h known =
    ap (λ z. take n (set z at v))
      (sym (take-append-drop n m)
        ∙ ap (λ z. z ++ drop n m) known
        ∙ append_assoc front (0 ∷ rest) (drop n m))
    ∙ ap (take n) (set-append front (0 ∷ (rest ++ drop n m)) 0 at v (omega (arith, e)))
    ∙ ap (take n) (sym (append_assoc front (v ∷ rest) (drop n m)))
    ∙ take-append (front ++ (v ∷ rest)) (drop n m) n (
        omega (
          arith,
          h,
          ap length known,
          length-take n m,
          length-append front (0 ∷ rest),
          length-append front (v ∷ rest),
        ))

seal-IsValid : (s : Streams) (b : Buf) (pos : ℕ) (n : List ℕ) → IsValid b → IsValid (seal s b pos n)
unfolding seal xor_at
seal-IsValid s b pos n v = record {
  held = omega (arith, v.held);
  backed =
      rw
        (
          length-purge, length-byte_move, length-byte_copy, length-byte_copy, length-byte_copy,
          length-byte_copy,
        )
        v.backed;
  positive = v.positive;
  small = v.small;
}

pub padding_range :
    (n r : ℕ)
    → r < 2
    → (4 ≤ sealed_padding n r) × (sealed_padding n r ≤ 28) × ((n + sealed_padding n r) % 8 ≡ 4)
unfolding sealed_padding
padding_range n r h = ground arith

-- The packet before `seal`: zero bytes, header, payload and padding, one behind the other.
pub joined :
    (s0 s1 s2 s3 s4 s5 : Buf) (payload : List ℕ) (pad : ℕ)
    → contents s1 ≡ contents s0 ++ zeros 60
    → contents s2 ≡ contents s1 ++ store_bigendian 0
    → contents s3 ≡ contents s2 ++ (0 ∷ [])
    → contents s4 ≡ contents s3 ++ payload
    → contents s5 ≡ contents s4 ++ zeros pad
    → contents s5 ≡ (contents s0 ++ (zeros 60 ++ store_bigendian 0)) ++ (0 ∷ (payload ++ zeros pad))
joined s0 s1 s2 s3 s4 s5 payload pad e1 e2 e3 e4 e5 = simp (e5, e4, e3, e2, e1, append_assoc) refl

module _ (s : Streams) (ks : KeyStream s) (p : Packet) (payload : List ℕ) (v : IsValid p.sendbuf)
    (bytes : All IsByte payload) where
  -- The last step: the packet with room for the tag is sealed.
  pub finish :
      (c d : Buf) (pad n : ℕ)
      → IsValid c
      → IsValid d
      → d.alloc ≡ p.sendbuf.alloc
      → c.len ≡ p.sendbuf.len + (65 + length payload + pad)
      → contents c
        ≡ (contents p.sendbuf ++ (zeros 60 ++ store_bigendian 0)) ++ (0 ∷ (payload ++ zeros pad))
      → contents d
        ≡ contents (record c { mem = set c.mem (p.sendbuf.len + zero_bytes + 4) pad }) ++ zeros 16
      → (4 ≤ pad) × (pad ≤ 28) × ((n + pad) % 8 ≡ 4)
      → n ≡ 5 + length payload
      → SealsUp s ks p payload (
          ok (record p {
            sendpacketid = (p.sendpacketid + 1) % 2 ^ 32;
            sendbuf = seal s d p.sendbuf.len (nonce p.sendpacketid);
          }))
  finish c d pad n vc vd same size written grown range e =
      sealed (seal s d p.sendbuf.len (nonce p.sendpacketid)) pad
        (seal-IsValid s d p.sendbuf.len (nonce p.sendpacketid) vd) (unfold seal in same)
        (ap (λ k. contents (seal s d k (nonce p.sendpacketid))) (sym front_size)
          ∙ seal-contents s ks (nonce p.sendpacketid) d front (body payload pad) (drop d.len d.mem)
              (omega (arith, known_len, front_size, length_body)) holds
              (omega (arith, range.1), All-append IsByte payload (zeros pad) bytes (zeros-All pad))
              (omega (arith, length_body, known_len, vd.held, vd.small)))
        range.0 (omega (arith, range.1)) (omega (arith, range.2, e, length_body))
    where
      front : List ℕ
      front = contents p.sendbuf

      front_size : length front ≡ p.sendbuf.len
      front_size = length-contents p.sendbuf v

      head : List ℕ
      head = front ++ (zeros 60 ++ store_bigendian 0)

      length_body : length (body payload pad) ≡ 1 + length payload + pad
      length_body = omega (arith, length-append payload (zeros pad), length-zeros pad)

      all : contents d ≡ (head ++ body payload pad) ++ zeros 16
      all =
          grown
          ∙ ap (λ z. z ++ zeros 16)
              (patched c.mem head (payload ++ zeros pad) (p.sendbuf.len + zero_bytes + 4) c.len pad
                (omega (
                  arith,
                  front_size,
                  length-append front (zeros 60 ++ store_bigendian 0),
                  length-append (zeros 60) (store_bigendian 0),
                  length-zeros 60,
                  length-store_bigendian 0,
                ))
                (omega (arith, vc.held, vc.backed)) written)

      known_len : d.len ≡ p.sendbuf.len + (81 + length payload + pad)
      known_len = omega (
        arith,
        length-contents d vd,
        ap length all,
        length-append (head ++ body payload pad) (zeros 16),
        length-append head (body payload pad),
        length-append front (zeros 60 ++ store_bigendian 0),
        length-append (zeros 60) (store_bigendian 0),
        length-zeros 60,
        length-zeros 16,
        length-store_bigendian 0,
        front_size,
        length_body,
      )

      four : store_bigendian 0 ≡ zeros 4
      four = unfold store_bigendian zeros in refl

      holds :
          d.mem
          ≡ front ++ (zeros 60 ++ (zeros 4 ++ (body payload pad ++ (zeros 16 ++ drop d.len d.mem))))
      holds =
          sym (take-append-drop d.len d.mem)
          ∙ ap (λ z. z ++ drop d.len d.mem)
              (all ∙ ap (λ z. ((front ++ (zeros 60 ++ z)) ++ body payload pad) ++ zeros 16) four)
          ∙ simp append_assoc refl
