-- ===== src/ChachaPoly/RoundTrip.antt =====
-- From chachapoly_packet_put of one side to chachapoly_packet_get of the other.
use tinyssh.Common.{
  ℕ, drop, ◌+◌, ◌%◌, ◌^◌, ◌≤◌, ◌<◌, ◌≡◌, sym, ap, ◌∙◌, inl, List, [], ◌++◌, arith, length, All,
  subst, Outcome, ok,
}
use tinyssh.Buf.{Buf}
use tinyssh.Bytes.Copy.{zeros}
use tinyssh.Buf.Contents.{IsValid, contents}
use tinyssh.Packet.{Packet, transport_packet_limit}
use tinyssh.Chacha20.Under.{IsByte, under}
use tinyssh.Chacha20.KeyStream.{key_byte, key_byte-lt}
use tinyssh.Chacha20.Whole.{crypto_stream_chacha20_xor-under}
use tinyssh.ChachaPoly.{
  nonce, Streams, chachapoly_packet_put, chachapoly_packet_get, chacha20_streams, auth_bytes,
}
use tinyssh.ChachaPoly.Places.{KeyStream}
use tinyssh.ChachaPoly.Sealed.{body, ciphertext, length-sealed_packet}
use tinyssh.ChachaPoly.Put.{sent_packet, SealsUp, sealed, full}
use tinyssh.ChachaPoly.Puts.{chachapoly_packet_put-SealsUp}
use tinyssh.ChachaPoly.Opened.{OpensUp, awaited_packet}
use tinyssh.ChachaPoly.Gets.{chachapoly_packet_get-OpensUp}

-- The packet of a state that `chachapoly_packet_put` answers with.
sent :
    (s : Streams) (ks : KeyStream s) (p q : Packet) (payload : List ℕ) (o : Outcome Packet)
    → SealsUp s ks p payload o
    → o ≡ ok q
    → (pad : ℕ) × (contents q.sendbuf
        ≡ contents p.sendbuf ++ sent_packet s ks p.sendpacketid payload pad)
      × (4 ≤ pad)
      × (pad ≤ 255)
sent s ks p q payload o (sealed d pad v a e least most eight) same =
    let known : record p { sendbuf = d; sendpacketid = (p.sendpacketid + 1) % 2 ^ 32 } ≡ q =
      cc same in
    (
      pad,
      subst {A = Packet}
          (λ z.
            contents z.sendbuf ≡ contents p.sendbuf ++ sent_packet s ks p.sendpacketid payload pad)
          known e,
      least,
      most,
    )
sent s ks p q payload o (full pad most over) same = absurd (cc same)

module _ (auth : List ℕ → List ℕ → List ℕ)
    (tag_length : (m k : List ℕ) → length (auth m k) ≡ auth_bytes) where
  abbrev pub chacha20-KeyStream :
      (random : Packet → ℕ) (serverkey clientkey : List ℕ)
      → KeyStream (chacha20_streams auth random serverkey clientkey)
  chacha20-KeyStream random serverkey clientkey = record {
    mask = λ n k. key_byte n k;
    xored = λ m n k bytes. crypto_stream_chacha20_xor-under m n k bytes;
    byte = λ n k i. key_byte-lt n k i;
    tag_length = tag_length;
  }

  -- What `chachapoly_packet_put` writes with ChaCha20 and any authenticator of sixteen bytes into an
  -- empty queue, a peer's `chachapoly_packet_get` opens that has the sender's key for what it
  -- receives and has counted the same number of packets, when the queue has arrived behind 64 bytes
  -- and whatever else has arrived behind it: the tag is accepted, the payload goes into the peer's
  -- buffer, if it fits, and the rest stays. The payload is not empty and of bytes, and its packet
  -- is within the limit of the transport.
  pub chachapoly_packet_put-packet_get :
      (random random' : Packet → ℕ) (key key' other : List ℕ) (p q r : Packet) (b c : Buf)
      (front rest : List ℕ)
      → IsValid p.sendbuf
      → IsValid b
      → All IsByte (contents b)
      → 0 < length (contents b)
      → random p < 2
      → contents p.sendbuf ≡ []
      → chachapoly_packet_put (chacha20_streams auth random key other) p b ≡ ok q
      → length (contents q.sendbuf) ≤ transport_packet_limit
      → IsValid r.recvbuf
      → IsValid c
      → r.receivepacketid ≡ p.sendpacketid
      → r.packet_length ≡ 0
      → length front ≡ 64
      → All IsByte front
      → contents r.recvbuf ≡ front ++ (contents q.sendbuf ++ rest)
      → OpensUp r c
          (contents b)
          rest
          (chachapoly_packet_get (chacha20_streams auth random' key' key) r c)
  chachapoly_packet_put-packet_get random random' key key' other p q r b c front rest v w bytes
        some_payload bit empty put small vr vc number fresh zeroes front_bytes arrived =
      let (pad, wire, least, most) =
        sent s ks p q (contents b) _ (chachapoly_packet_put-SealsUp s ks p b v w bytes bit) put in
      opened pad wire least most
    where
      s : Streams
      s = chacha20_streams auth random key other

      ks : KeyStream s
      ks = chacha20-KeyStream random key other

      t : Streams
      t = chacha20_streams auth random' key' key

      kt : KeyStream t
      kt = chacha20-KeyStream random' key' key

      opened :
          (pad : ℕ)
          → contents q.sendbuf
            ≡ contents p.sendbuf ++ sent_packet s ks p.sendpacketid (contents b) pad
          → 4 ≤ pad
          → pad ≤ 255
          → OpensUp r c (contents b) rest (chachapoly_packet_get t r c)
      opened pad wire least most =
          chachapoly_packet_get-OpensUp t kt r c front (contents b) rest pad vr vc zeroes
            front_bytes bytes some_payload least most (omega (arith, small, ap length known, size))
            (arrived ∙ ap (λ z. front ++ (z ++ rest)) known) (inl fresh)
        where
          known : contents q.sendbuf ≡ awaited_packet t kt r.receivepacketid (contents b) pad
          known =
              wire
              ∙ ap (λ z. z ++ sent_packet s ks p.sendpacketid (contents b) pad) empty
              ∙ ap (λ k. sent_packet s ks k (contents b) pad) (sym number)

          size :
              length (awaited_packet t kt r.receivepacketid (contents b) pad)
              ≡ 20 + length (body (contents b) pad)
          size = length-sealed_packet auth first second (body (contents b) pad) (
              tag_length (ciphertext first second (body (contents b) pad))
                (under first 0 (zeros 32)))
            where
              first : ℕ → ℕ
              first = key_byte (nonce r.receivepacketid) key

              second : ℕ → ℕ
              second = key_byte (nonce r.receivepacketid) (drop 32 key)
