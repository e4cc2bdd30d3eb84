-- ===== src/ChachaPoly/Opened.antt =====
-- What chachapoly_packet_get is to do with a sealed packet, and how it takes it off the memory.
use tinyssh.Common.{
  ℕ, ◌+◌, ◌%◌, ◌^◌, ◌≤◌, ◌≡◌, refl, sym, ap, ap₂, ◌∙◌, List, [], ◌++◌, arith, append_assoc, length,
  take, drop, length-append, drop-append, take-append, Outcome, ok, die, nomem, true, Bool,
  take-append_add, take-drop,
}
use tinyssh.Bytes.{byte_move, purge}
use tinyssh.Bytes.Lengths.{length-byte_move, length-purge}
use tinyssh.Bytes.Copy.{zeros, length-zeros, close_gap, take-close_gap, purge-splice, splice-append}
use tinyssh.Buf.{Buf}
use tinyssh.Buf.Contents.{IsValid, contents}
use tinyssh.Packet.{Packet}
use tinyssh.ChachaPoly.{Streams, nonce}
use tinyssh.ChachaPoly.Places.{KeyStream}
use tinyssh.ChachaPoly.Sealed.{body, sealed_packet}

-- The packet of a payload under the keys of the receiver.
abbrev pub awaited_packet : (s : Streams) → KeyStream s → ℕ → List ℕ → ℕ → List ℕ
awaited_packet s ks id payload pad =
    sealed_packet s.auth (ks.mask (nonce id) s.clientkey) (ks.mask (nonce id) (drop 32 s.clientkey))
      (body payload pad)

-- `o` has the payload behind the bytes of `b`, and the received bytes without the packet: zero
-- bytes and then `rest`. Or the payload does not fit `b`.
pub data OpensUp (p : Packet) (b : Buf) (payload rest : List ℕ)
    : Outcome (Bool × Buf × Packet) → Type 0 where
  opened :
      (b' r : Buf)
      → IsValid b'
      → IsValid r
      → contents b' ≡ contents b ++ payload
      → contents r ≡ zeros 64 ++ rest
      → OpensUp p b payload rest (
          ok (
            true,
            b',
            record p {
              recvbuf = r;
              receivepacketid = (p.receivepacketid + 1) % 2 ^ 32;
              packet_length = 0;
            },
          ))
  full : b.alloc ≤ b.len + length payload → OpensUp p b payload rest (die nomem)

-- Taking `gone` bytes out behind the first 64, which are cleared.
pub taken_off :
    (a x y tail : List ℕ) (left : ℕ)
    → length a ≡ 64
    → left ≡ length y
    → take (64 + left) (
        purge
          (purge
            (byte_move (a ++ (x ++ (y ++ tail))) 64 left (64 + length x))
            (64 + left)
            (length x))
          0
          64)
      ≡ zeros 64 ++ y
unfolding close_gap
taken_off a x y tail left e f =
    ap (take (64 + left)) (purge-splice m' 0 64 (omega (arith, size, all)))
    ∙ ap (take (64 + left)) (splice-append [] m' (zeros 64) 0 refl)
    ∙ ap (λ k. take (k + left) (zeros 64 ++ drop (length (zeros 64)) m')) (sym (length-zeros 64))
    ∙ take-append_add (zeros 64) (drop (length (zeros 64)) m') left
    ∙ ap (◌++◌ (zeros 64)) rest
  where
    m : List ℕ
    m = a ++ (x ++ (y ++ tail))

    m' : List ℕ
    m' = close_gap m 64 left (length x)

    size : length m' ≡ length m
    size =
        length-purge (byte_move m 64 left (64 + length x)) (64 + left) (length x)
        ∙ length-byte_move m 64 left (64 + length x)

    all : length m ≡ 64 + (length x + (left + length tail))
    all = omega (
      arith,
      e,
      f,
      length-append a (x ++ (y ++ tail)),
      length-append x (y ++ tail),
      length-append y tail,
    )

    kept : take (64 + left) m' ≡ a ++ y
    kept =
        take-close_gap m 64 left (length x) (omega (arith, all))
        ∙ ap₂ ◌++◌ (take-append a (x ++ (y ++ tail)) 64 (sym e)) (
            ap (λ z. take left (drop (64 + length x) z)) (sym (append_assoc a x (y ++ tail)))
            ∙ ap (take left) (
                drop-append (a ++ x) (y ++ tail) (64 + length x)
                  (omega (arith, e, length-append a x)))
            ∙ take-append y tail left f)

    rest : take left (drop (length (zeros 64)) m') ≡ y
    rest =
        ap (λ k. take left (drop k m')) (length-zeros 64)
        ∙ take-drop left 64 m'
        ∙ ap (drop 64) kept
        ∙ drop-append a y 64 (sym e)
