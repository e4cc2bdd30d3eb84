-- ===== src/Lib.antt =====
-- The SSH server tinysshd: its buffers, its transport, the exchange of keys, the authentication of
-- the user, and the session channel.
--
-- The server handles one connection with one session channel and one child process. It agrees with
-- the client on algorithms (packet_kex.c, sshcrypto_kex.c, sshcrypto_key.c, sshcrypto_cipher.c),
-- exchanges keys (packet_kexdh.c) and lets the user in (packet_auth.c). Then the main loop
-- (main_tinysshd.c) reads packets (packet_recv.c, packet_get.c), hands each to the handler of its
-- type (packet_channel_*.c), and moves bytes between the transport and the child (channel.c);
-- handlers write their answers with packet_put.c, which queues them for packet_send.c. All of it
-- stands on byte buffers (buf.c) and on a parser of packets (packetparser.c).
--
-- The files and what they model:
-- - Common: Boolean tests, lists, signed numbers, and `Outcome`, how an operation ends. The source
--   ends the process with `global_die(111)` from bug.h and from a few logged errors; here that is
--   `die` with the place as a `Fault`.
-- - Bytes: byte.c, cleanup.c, and the big-endian words of cryptoint/crypto_uint32.h. Memory is a
--   list of bytes. `byte_copy` is the copy between two objects, `byte_move` the copy within one.
--   Bytes/Copy says what the loops write, Bytes/Endian reads words back, Bytes/Equal is the comparison
--   in constant time, on Common/Bits and Common/Xor.
-- - Str: str.c. Buf: buf.c, with `buf_putbase64` in Buf/Base64. Buf/Contents, Puts and Mpint say what
--   an operation puts behind the string of a buffer.
-- - Parser: packetparser.c. Parser/Reads: what it reads at a position with known bytes.
-- - Msg: the numbers of ssh.h. Signal: the tables of ssh.c. Subsystem: channel_subsystem.c.
-- - Packet: packet.h. Packet/Plain: packet_put.c, and packet_get.c without keys. Packet/Get: the loop
--   of `packet_get`. Packet/Queue: packet_send.c and packet_recv.c. Packet/Frames, Receive and
--   RoundTrip: the bytes on the wire. Packet/Numbers, Rounds and Types: the packet numbers, the end of
--   the loop, the types of the packets handed out.
-- - Channel: channel.c, windows, buffer and descriptors. Channel/Session: opening, start and end of
--   the child. Channel/Flow and Channel/Opening: the flow control invariant. Channel/Input: the
--   child's input as a queue.
-- - Session: the transport and the channel together, as the handlers see them. Session/Send and
--   Session/Recv: packet_channel_send.c, packet_channel_recv.c. Session/Open: packet_channel_open.c,
--   packet_global_request.c, packet_unimplemented.c. Session/Request: packet_channel_request.c.
--   Session/Flow, Opening and Reach: the invariant over the handlers and all reachable states.
--   Session/Adjust: when the window is adjusted, and by what.
--   Session/Once and Session/Command: one child for a session, and which program it runs.
--   Session/Dispatch: the switch of the main loop.
-- - Line: `packet_getall` of packet_get.c and `packet_sendall` of packet_send.c, on the answers of
--   `read` and `writeall`. Line/Waits and Line/Same: what they give and what they keep. Line/Ends: that
--   the loops of `packet_getall` have enough fuel, over Packet/Ends for those of `packet_get`.
-- - AuthorizedKeys: the search of subprocess_auth.c in authorized_keys. AuthorizedKeys/Match and Found: the
--   line it looks for, and what it finds.
-- - Getln: getln.c, on the answers of `read`. Getln/Lines and Reads: what it reads of a file.
-- - Hello: packet_hello.c and writeall.c. Hello/Texts, Accepts and RoundTrip: the line that is sent, the
--   line that is accepted, and one side after the other.
-- - Chacha20: crypto_stream_chacha20.c. Chacha20/Under, Blocks, KeyStream and Whole: the cipher as
--   exclusive or with a key stream, for bytes, words, a block and a message.
-- - ChachaPoly: sshcrypto_cipher_chachapoly.c and crypto_verify_16.c. ChachaPoly/Laws and Steady:
--   that it is a cipher as the transport wants one. ChachaPoly/Places, Sealed, Seals, Put and
--   Puts: the memory while a packet is sealed. ChachaPoly/Opens, Opened and Gets: the memory while
--   it is opened. ChachaPoly/Forged: the tag, and a wrong one. ChachaPoly/Deciphered
--   and Authentic: what comes off for any received bytes. ChachaPoly/RoundTrip: one side after the other.
-- - Names: stringparser.c and the loop around it, `namelist_contains` of packet_kex.c. Names/Items: the
--   items of a list. Algorithms: the tables of sshcrypto_kex.c, sshcrypto_key.c and
--   sshcrypto_cipher.c, the choice in them and the lists that the server puts; Algorithms/Choice,
--   Select, Enabled and Offers: what is chosen and what is put.
-- - SignKey: sshcrypto_key_ed25519.c.
-- - KeyExchange: the state of packet_kex.c and packet_kexdh.c. KeyExchange/Send and Parse: packet_kex.c.
--   KeyExchange/Kem, NewKeys and Dh: packet_kexdh.c, sshcrypto_kex_curve25519.c and
--   sshcrypto_kex_sntrup761x25519.c. KeyExchange/Offered, Agreed, Shared and Rekeying: the packet
--   that is sent, the one that is accepted, the loop around the encapsulation, the session id.
--   KeyExchange/Hashed and Derived: what is hashed for the exchange, and the keys.
-- - Auth: packet_auth.c. Auth/Request and PublicKey: a request and the method "publickey". Auth/Loop:
--   the other methods and the loop. Auth/Granted, Entry and Signed: who is let in.
-- - Tests: the theorems at concrete inputs.
--
-- A `crypto_uint32` is a number whose wrap-around at 2 ^ 32 is written out; `long long` lengths are
-- numbers, so the tests for negative lengths and null pointers, which end the process with
-- `bug_inval`, do not occur. A global variable is a value that an operation takes and gives back.
-- System calls, newenv.c, connectioninfo.c and random bytes are arguments: what they answer.
-- `calls` of the channel records the calls with an effect outside. Loops over memory have the
-- number of bytes left as their fuel, as in the source; the loop of `packet_get` has one round
-- more than there are received bytes, and so have the rounds of `packet_getall` between two waits.
-- The wait for SSH_MSG_NEWKEYS has a round more than there are bytes received and to come, since
-- each packet is one byte at least. The loop around the encapsulation, which ends by chance, takes
-- its number of rounds as an argument. The search in authorized_keys has one round more than
-- `read` has answers. The 32 tries of `packet_auth` are the source's own. A loop without fuel ends
-- in the fault `out_of_fuel`, which is the model's own.
--
-- The encryption is a parameter of the transport: `Cipher` holds the two functions that the
-- negotiated cipher sets, with the state and the buffer that they give back. Theorems about it name
-- what they ask of it. `chachapoly` is the one instance beside packets in the clear; the stream
-- cipher and the authenticator are in turn its parameters, and `chacha20_streams` puts ChaCha20 in for
-- the first. The authenticator is a parameter still, as are the key pairs, the hash functions and the
-- signatures of the key exchange and the authentication.
--
-- Not modelled: the cryptographic primitives but for ChaCha20, and the generated integer types;
-- the options, the setup and the poll loop of main_tinysshd.c around the dispatch (`Step` of
-- Session/Reach allows its events in any order); the child processes around the key files, and the
-- check of the path of authorized_keys; the child's side of `fork` but for the command that it is
-- given, its environment, logging, the key tools, the clearing of local arrays, and the getters of
-- channel.c.
pub mod Common
pub mod Bytes
pub mod Str
pub mod AuthorizedKeys
pub mod Buf
pub mod Parser
pub mod Channel
pub mod Msg
pub mod Algorithms
pub mod Names
pub mod Line
pub mod SignKey
pub mod Chacha20
pub mod ChachaPoly
pub mod Getln
pub mod Hello
pub mod KeyExchange
pub mod Auth
pub mod Packet
pub mod Session
pub mod Signal
pub mod Subsystem
pub mod Tests
