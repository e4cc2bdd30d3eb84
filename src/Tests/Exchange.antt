-- ===== src/Tests/Exchange.antt =====
-- packet_kex.c, packet_kexdh.c and `packet_getall` at concrete inputs.
use tinyssh.Common.{
  inl, ◌≢◌, die, out_of_fuel, Outcome, die, Bool, ℕ, zero, suc, ◌≡◌, ◌<◌, refl, [], ◌∷◌, ◌++◌, true,
  false, arith, ok, get_or, some, none,
}
use tinyssh.Bytes.{
  store_bigendian, load_bigendian, byte_copy, copy_loop, byte_move, move_loop, purge,
}
use tinyssh.Bytes.Copy.{zeros}
use tinyssh.Parser as Parser
use tinyssh.SignKey as SignKey
use tinyssh.Str.{str_len}
use tinyssh.Buf as Buf
use tinyssh.Buf.{Buf, is_bad, buf_purge, buf_put}
use tinyssh.Msg
use tinyssh.Packet.Plain.{packet_get_plain, get_whole}
use tinyssh.Packet.Get.{packet_get, packet_get_any, get_loop, classify, get_round}
use tinyssh.Packet.Types.{IsWanted}
use tinyssh.Line.Ends.{packet_getall-Ends}
use tinyssh.ChachaPoly.Steady.{chachapoly-IsSteady}
use tinyssh.Line.{Line, packet_getall, getall_loop, getall_rounds, getall_round}
use tinyssh.Line.Waits.{packet_getall-IsWanted}
use tinyssh.ChachaPoly.{chachapoly}
use tinyssh.ChachaPoly.Laws.{chachapoly-KeepsSession}
use tinyssh.KeyExchange.{Exchange}
use tinyssh.KeyExchange.Dh.{
  packet_kexdh, exchange_keys, drop_guess, receive_init, fill_hashbuf, keep_sessionid, finish_kexdh,
}
use tinyssh.KeyExchange.Kem.{
  Primitives, or_bytes, curve25519_enc, sshcrypto_enc, enc_loop, sshcrypto_buf_putkemkey,
}
use tinyssh.KeyExchange.NewKeys.{await_newkeys}
use tinyssh.KeyExchange.Rekeying.{packet_kexdh-sessionid, await_newkeys-strict}
use tinyssh.KeyExchange.Shared.{enc_loop-finishes, IsDrawnAgain}
use tinyssh.Tests.Data.{three, plain, short_kex, short_key, short_cipher}
use tinyssh.Tests.Data as Data
use tinyssh.Tests.Sealed.{null_streams}

-- A transport that has received SSH_MSG_NEWKEYS.
abbrev newkeys_line : Line
newkeys_line = record {
  packet = record (plain 8) {
    recvbuf = record {
      mem = zeros 64 ++ (0 ∷ 0 ∷ 0 ∷ 12 ∷ 10 ∷ 21 ∷ zeros 10);
      len = 80;
      alloc = 80;
    };
  };
  reads = [];
  writes = [];
}

abbrev newkeys_taken : Line
newkeys_taken = record {
  packet = record (plain 8) {
    recvbuf = record { mem = zeros 80; len = 64; alloc = 80 };
    receivepacketid = 0;
  };
  reads = [];
  writes = [];
}

abbrev newkeys_packet : Buf
newkeys_packet = record { mem = 21 ∷ zeros 7; len = 1; alloc = 8 }

received :
    packet_getall (chachapoly null_streams) newkeys_line (Data.empty 8) 0
    ≡ ok (true, newkeys_packet, newkeys_taken)
unfolding packet_getall getall_loop getall_rounds getall_round packet_get get_loop get_round
    classify buf_purge packet_get_any packet_get_plain get_whole zeros is_bad load_bigendian
    byte_copy copy_loop byte_move move_loop purge buf_put
received = refl

packet_getall-IsWanted_example : (0 < newkeys_packet.len) × IsWanted 0 newkeys_packet
packet_getall-IsWanted_example =
    packet_getall-IsWanted (chachapoly null_streams) 0 newkeys_line newkeys_taken (Data.empty 8)
      newkeys_packet received

packet_getall-Ends_example :
    packet_getall (chachapoly null_streams) newkeys_line (Data.empty 8) 0 ≢ die out_of_fuel
packet_getall-Ends_example =
    packet_getall-Ends (chachapoly null_streams) (chachapoly-IsSteady null_streams) 0 newkeys_line
      (Data.empty 8)

awaited :
    await_newkeys (chachapoly null_streams) newkeys_line (Data.empty 8) 3
    ≡ ok (true, newkeys_packet, newkeys_taken)
unfolding await_newkeys packet_getall getall_loop getall_rounds getall_round packet_get get_loop
    get_round classify buf_purge packet_get_any packet_get_plain get_whole zeros is_bad
    load_bigendian byte_copy copy_loop byte_move move_loop purge buf_put
awaited = refl

await_newkeys-strict_example :
    (b : Buf) × (buf_purge (Data.empty 8) ≡ ok b)
    × (packet_getall (chachapoly null_streams) newkeys_line b 0
        ≡ ok (true, newkeys_packet, newkeys_taken))
    × (get_or newkeys_packet.mem 0 0 ≡ Msg.newkeys)
await_newkeys-strict_example =
    await_newkeys-strict (chachapoly null_streams) newkeys_line newkeys_taken (Data.empty 8)
      newkeys_packet 3 (chachapoly-KeepsSession null_streams) refl awaited

-- Key pairs of which the first gives a secret that begins with 0.
abbrev pub prims : Primitives
prims = record {
  x25519 = λ call pk. (9 ∷ [], call ∷ 1 ∷ zeros 30);
  encapsulate = λ call pk. none;
  digest = λ h x. zeros 32;
  subprocess_sign = λ x. some (zeros 64);
}

first_again : (i : ℕ) → i < 1 → IsDrawnAgain prims short_kex [] i
unfolding sshcrypto_enc curve25519_enc or_bytes zeros
first_again zero h = (9 ∷ [], 0 ∷ 1 ∷ zeros 30, refl, refl, refl)
first_again (suc i) h = absurd (omega (arith, h))

enc_loop-finishes_example : enc_loop prims short_kex [] 0 2 ≡ ok (9 ∷ [], 1 ∷ 1 ∷ zeros 30)
unfolding sshcrypto_enc curve25519_enc or_bytes zeros
enc_loop-finishes_example =
    enc_loop-finishes prims short_kex [] (9 ∷ []) (1 ∷ 1 ∷ zeros 30) 1 0 2
      (λ i a b. first_again i b) refl (inl (λ e. omega (arith, e))) (omega arith)

-- Before a second key exchange.
abbrev pub second : Exchange
second = record {
  line = record { packet = record (plain 80) { flagrekeying = true }; reads = []; writes = [] };
  kexs = short_kex ∷ [];
  keys = short_key ∷ [];
  ciphers = short_cipher ∷ [];
  kex = some short_kex;
  key = some short_key;
  cipher = some short_cipher;
  kex_packet_follows = 0;
  kex_guess = true;
  sessionid = 1 ∷ 2 ∷ zeros 62;
  sessionid_len = 32;
  hellosend = Data.empty 8;
  helloreceive = Data.empty 8;
  kexsend = Data.empty 8;
  kexrecv = Data.empty 8;
  hashbuf = Data.empty 8;
  clientnonce = [];
  servernonce = [];
  clientkey = [];
  serverkey = [];
  clientmackey = [];
  servermackey = [];
}

-- There, with a key of the client that has arrived, and a server that cannot sign.
abbrev keyed : Exchange
keyed = record second {
  line = record (second.line) {
    packet = record (second.line.packet) {
      recvbuf = record {
        mem = zeros 64 ++ (0 ∷ 0 ∷ 0 ∷ 52 ∷ 14 ∷ 30 ∷ 0 ∷ 0 ∷ 0 ∷ 32 ∷ zeros 46);
        len = 120;
        alloc = 120;
      };
    };
  };
  hashbuf = Data.empty 256;
}

abbrev signless : Primitives
signless = record prims { subprocess_sign = λ x. none }

abbrev Ending : Type 0
Ending = Outcome (Bool × Buf × Buf × Exchange)

abbrev ending : Ending
ending = packet_kexdh (chachapoly null_streams) signless 5 keyed (Data.empty 64) three

abbrev part : Ending → Buf × Buf × Exchange
part (ok (done, b1, b2, x)) = (b1, b2, x)
part (die e) = (three, three, keyed)

ended : ending ≡ ok (false, (part ending).0, (part ending).1, (part ending).2)
unfolding packet_kexdh exchange_keys drop_guess receive_init enc_loop sshcrypto_enc curve25519_enc
    or_bytes fill_hashbuf keep_sessionid finish_kexdh sshcrypto_buf_putkemkey
    SignKey.ed25519_putsignpk packet_getall getall_loop getall_rounds getall_round packet_get
    get_loop get_round classify buf_purge packet_get_any packet_get_plain get_whole zeros is_bad
    load_bigendian byte_copy copy_loop byte_move move_loop purge buf_put Buf.buf_putnum32
    Buf.buf_putnum8 Buf.buf_putstring Buf.buf_putstringlen Buf.buf_putsharedsecret Buf.first_nonzero
    store_bigendian str_len Parser.packetparser_uint8 Parser.packetparser_uint32
    Parser.packetparser_copy Parser.packetparser_end
ended = refl

packet_kexdh-sessionid_example :
    ((part ending).2.sessionid ≡ 1 ∷ 2 ∷ zeros 62) × ((part ending).2.sessionid_len ≡ 32)
packet_kexdh-sessionid_example =
    packet_kexdh-sessionid (chachapoly null_streams) signless 5 keyed (part ending).2
      (Data.empty 64) three (part ending).0 (part ending).1 false
      (chachapoly-KeepsSession null_streams) refl ended
