-- ===== src/ChachaPoly.antt =====
-- sshcrypto_cipher_chachapoly.c and crypto_verify_16.c. The memory of a call that works in place is
-- the list before it and what the primitive writes over its front.
pub mod Laws
pub mod Steady
pub mod Places
pub mod Sealed
pub mod Seals
pub mod Put
pub mod Puts
pub mod Opens
pub mod Forged
pub mod Deciphered
pub mod Authentic
pub mod Opened
pub mod Gets
pub mod RoundTrip
use tinyssh.Common.{
  ℕ, zero, suc, ◌+◌, ◌-◌, ◌*◌, ◌%◌, ◌^◌, List, [], ◌++◌, Bool, true, not, ◌==◌, ltb, leb,
  if◌then◌else◌, get_or, set, take, drop, Outcome, ok, proto, die_if, ◌>>=◌, ◌>>◌,
}
use Prim.Native.Nat.{bit_or, bit_xor}
use tinyssh.Bytes.{byte_copy, byte_move, byte_zero, purge, store_bigendian, load_bigendian}
use tinyssh.Bytes.Copy.{zeros}
use tinyssh.Chacha20.{crypto_stream_chacha20_xor}
use tinyssh.Buf.{Buf, buf_put, buf_putnum32, buf_putnum8, buf_putzerobytes, buf_putpadding}
use tinyssh.Packet.{Packet, Cipher, transport_packet_limit, packet_zerobytes}
use tinyssh.Packet.Plain.{store_at}

-- `sshcrypto_stream_xor` of a message, a nonce and a key; `sshcrypto_auth` of a message and a key;
-- what `randommod(2)` answers; and the keys of `struct packet`.
pub record Streams : Type 0 where
  pub stream_xor : List ℕ → List ℕ → List ℕ → List ℕ
  pub auth : List ℕ → List ℕ → List ℕ
  pub random : Packet → ℕ
  pub serverkey : List ℕ
  pub clientkey : List ℕ

-- `BB`, `AB` and `ZB`
abbrev pub block_bytes : ℕ
block_bytes = 8

abbrev pub auth_bytes : ℕ
auth_bytes = 16

abbrev pub zero_bytes : ℕ
zero_bytes = 60

-- `for (i = 0; i < 16; ++i) { d |= x[i] ^ y[i]; }`, with the rounds left.
unfoldable pub verify_loop : List ℕ → List ℕ → ℕ → ℕ → ℕ → ℕ
verify_loop x y i d zero = d
verify_loop x y i d (suc left) =
    verify_loop x y (i + 1) (bit_or d (bit_xor (get_or x i 0) (get_or y i 0))) left

-- Whether `crypto_verify_16` answers 0.
unfoldable pub crypto_verify_16 : List ℕ → List ℕ → Bool
unfolding verify_loop
crypto_verify_16 x y = verify_loop x y 0 0 16 == 0

-- The packet's number, in eight bytes.
unfoldable pub nonce : ℕ → List ℕ
nonce id = zeros 4 ++ store_bigendian id

-- `len` bytes at `at`, under the key stream, in place.
unfoldable pub xor_at : Streams → List ℕ → ℕ → ℕ → List ℕ → List ℕ → List ℕ
xor_at s m at len n key = byte_copy m at len (s.stream_xor (take len (drop at m)) n key)

-- The work on `sendbuf` behind the padding: the packet starts at `pos`.
unfoldable pub seal : Streams → Buf → ℕ → List ℕ → Buf
unfolding xor_at
seal s b pos n =
    let m = xor_at s b.mem pos (b.len - pos - auth_bytes) n s.serverkey in
    let m =
      byte_copy m (pos + zero_bytes) 4
        (store_bigendian ((b.len - pos - auth_bytes - 4 - zero_bytes) % 2 ^ 32)) in
    let m = xor_at s m (pos + zero_bytes) 4 n (drop 32 s.serverkey) in
    let tag =
      s.auth (take (b.len - auth_bytes - pos - zero_bytes) (drop (pos + zero_bytes) m))
        (take 32 (drop pos m)) in
    let m = byte_copy m (b.len - auth_bytes) auth_bytes tag in
    let m = byte_move m pos (b.len - pos - zero_bytes) (pos + zero_bytes) in
    record b { mem = purge m (b.len - zero_bytes) zero_bytes; len = b.len - zero_bytes }

-- `paddinglen`, a byte.
unfoldable pub sealed_padding : ℕ → ℕ → ℕ
sealed_padding n random =
    ((2 * block_bytes - n % block_bytes + 4) % 2 ^ 8 + random * block_bytes) % 2 ^ 8

unfoldable pub chachapoly_packet_put : Streams → Packet → Buf → Outcome Packet
unfolding seal sealed_padding nonce
chachapoly_packet_put s p b = do
  let pos = p.sendbuf.len
  c ← buf_putzerobytes p.sendbuf zero_bytes
  c ← buf_putnum32 c 0
  c ← buf_putnum8 c 0
  c ← buf_put c b.mem b.len
  let n = nonce p.sendpacketid
  let paddinglen = sealed_padding (c.len - pos - zero_bytes) (s.random p)
  c ← buf_putpadding c paddinglen
  let c = record c { mem = set c.mem (pos + zero_bytes + 4) paddinglen }
  c ← buf_putzerobytes c auth_bytes
  ok (record p { sendpacketid = (p.sendpacketid + 1) % 2 ^ 32; sendbuf = seal s c pos n })

-- The memory with the one-time key in its first 32 bytes.
unfoldable pub with_onetime_key : Streams → List ℕ → List ℕ → List ℕ
unfolding xor_at
with_onetime_key s m n = xor_at s (byte_zero m 0 32) 0 32 n s.clientkey

-- Whether the tag behind the packet is right.
unfoldable pub tag_matches : Streams → List ℕ → ℕ → Bool
unfolding crypto_verify_16
tag_matches s m length =
    crypto_verify_16 (s.auth (take (length + 4) (drop packet_zerobytes m)) (take 32 m))
      (drop (packet_zerobytes + length + 4) m)

-- The packet of `length` bytes, once it is all there.
unfoldable pub open_packet : Streams → Packet → Buf → ℕ → List ℕ → Outcome (Bool × Buf × Packet)
unfolding with_onetime_key tag_matches xor_at
open_packet s p b length n = do
  let r = p.recvbuf
  let m = with_onetime_key s r.mem n
  die_if (not (tag_matches s m length)) proto
  let m = xor_at s m 4 (length + packet_zerobytes) n s.clientkey
  let padding = get_or m (packet_zerobytes + 4) 0
  die_if (ltb padding 4) proto
  die_if (leb length (padding + 1)) proto
  b ← buf_put b (drop (packet_zerobytes + 5) m) (length - (padding + 1))
  let l = r.len - packet_zerobytes
  let all = length + auth_bytes + 4
  let m = byte_move m packet_zerobytes (l - all) (packet_zerobytes + all)
  let m = purge m (packet_zerobytes + (l - all)) all
  ok (
    true,
    b,
    record p {
      recvbuf = record r { mem = purge m 0 packet_zerobytes; len = r.len - all };
      receivepacketid = (p.receivepacketid + 1) % 2 ^ 32;
      packet_length = 0;
    },
  )

-- `packet.packet_length`, decrypted once.
unfoldable pub sealed_length : Streams → Packet → List ℕ → ℕ
sealed_length s p n =
    if p.packet_length == 0
    then load_bigendian
        (s.stream_xor (take 4 (drop packet_zerobytes p.recvbuf.mem)) n (drop 32 s.clientkey)) 0
    else p.packet_length

unfoldable pub chachapoly_packet_get : Streams → Packet → Buf → Outcome (Bool × Buf × Packet)
unfolding sealed_length open_packet nonce
chachapoly_packet_get s p b =
    if ltb (p.recvbuf.len - packet_zerobytes) 4
    then ok (true, b, record p { packet_length = 0 })
    else (do
      let n = nonce p.receivepacketid
      let length = sealed_length s p n
      die_if (ltb (transport_packet_limit - 4 - auth_bytes) length) proto
      if ltb (p.recvbuf.len - packet_zerobytes) (length + auth_bytes + 4)
          then ok (true, b, record p { packet_length = length })
          else open_packet s (record p { packet_length = length }) b length n)

-- The cipher's `stream_xor` is ChaCha20; the authenticator is a parameter.
abbrev pub chacha20_streams : (List ℕ → List ℕ → List ℕ) → (Packet → ℕ) → List ℕ → List ℕ → Streams
chacha20_streams auth random serverkey clientkey = record {
  stream_xor = crypto_stream_chacha20_xor;
  auth = auth;
  random = random;
  serverkey = serverkey;
  clientkey = clientkey;
}

-- What `sshcrypto_cipher_select` makes the transport use.
abbrev pub chachapoly : Streams → Cipher
chachapoly s = record { put = chachapoly_packet_put s; get = chachapoly_packet_get s }
