-- ===== src/Tests/Data.antt =====
-- Small buffers, packets and channels.
use tinyssh.Common.{ℕ, ◌≤◌, ◌<◌, [], ◌∷◌, true, false, arith}
use tinyssh.Common.Int.{pos, minus_one}
use tinyssh.Bytes.Copy.{zeros, length-zeros}
use tinyssh.Buf.{Buf, limit}
use tinyssh.Buf.Contents.{IsValid}
use tinyssh.Channel.{Channel, channel_bufsize}
use tinyssh.Channel.Flow.{IsFlow}
use tinyssh.Algorithms.{Kex, curve25519, sha256, Key, CipherSuite}
use tinyssh.Packet.{Packet, Cipher}
use tinyssh.Packet.Plain.{packet_put_plain, packet_get_plain}

-- Three bytes, the first of them SSH_MSG_CHANNEL_DATA, in a buffer of eight.
abbrev pub three : Buf
three = record { mem = 94 ∷ 1 ∷ 2 ∷ 0 ∷ 0 ∷ 0 ∷ 0 ∷ 0 ∷ []; len = 3; alloc = 8 }

pub three-IsValid : IsValid three
three-IsValid = record {
  held = omega arith;
  backed = omega arith;
  positive = omega arith;
  small = omega arith;
}

abbrev pub empty : ℕ → Buf
empty n = record { mem = zeros n; len = 0; alloc = n }

pub empty-IsValid : (n : ℕ) → 0 < n → n ≤ limit → IsValid (empty n)
empty-IsValid n h k = record {
  held = omega arith;
  backed = omega (arith, length-zeros n);
  positive = h;
  small = k;
}

-- A transport before the keys are in use, with room for `n` bytes each way.
abbrev pub plain : ℕ → Packet
plain n = record {
  flagkeys = false;
  flagauthorized = false;
  flagrekeying = false;
  flageofsent = false;
  flagclosesent = false;
  flagchanneleofreceived = false;
  sendpacketid = 7;
  receivepacketid = 7;
  name = [];
  recvbuf = empty n;
  sendbuf = empty n;
  packet_length = 0;
  strict_kex = true;
}

-- A cipher that encrypts nothing.
abbrev pub clear : Cipher
clear = record { put = packet_put_plain; get = packet_get_plain }

-- A channel whose child has two bytes of data to come.
abbrev pub busy : Channel
busy = record {
  maxpacket = 100;
  id = 1;
  localwindow = 1000;
  remotewindow = 500;
  buf0 = 104 ∷ 105 ∷ zeros channel_bufsize;
  len0 = 2;
  pid = pos 20;
  fd0 = pos 5;
  fd1 = pos 6;
  fd2 = pos 8;
  user = [];
  termname = [];
  flagterminal = false;
  master = minus_one;
  slave = minus_one;
  a = 0;
  b = 0;
  x = 0;
  y = 0;
  remoteeof = false;
  calls = [];
}

pub busy-IsFlow : IsFlow busy
busy-IsFlow = record {
  window = omega arith;
  backed = omega (arith, length-zeros channel_bufsize);
  fresh = ground arith;
  remote = omega arith;
}

-- A key exchange and a host key with names of one byte.
abbrev pub short_kex : Kex
short_kex = record {
  name = 107 ∷ [];
  kem = curve25519;
  kem_publickeybytes = 32;
  kem_ciphertextbytes = 32;
  kem_bytes = 32;
  hash = sha256;
  hash_bytes = 32;
  cryptotype = 2;
  flagenabled = true;
}

abbrev pub short_key : Key
short_key = record {
  name = 107 ∷ [];
  sign_publickey = zeros 32;
  sign_publickeybytes = 32;
  sign_bytes = 64;
  cryptotype = 2;
  sign_flagserver = true;
  sign_flagclient = true;
}

abbrev pub short_cipher : CipherSuite
short_cipher = record {
  name = 107 ∷ [];
  stream_keybytes = 64;
  cipher_blockbytes = 8;
  auth_bytes = 16;
  cryptotype = 6;
  flagenabled = true;
}
