-- ===== src/Packet.antt =====
-- packet.h: the state of the transport and its limits.
-- `sshcrypto_kex_flags & sshcrypto_FLAGSTRICTKEX` is kept beside the fields of `struct packet`.
pub mod Queue
pub mod Plain
pub mod Get
pub mod Frames
pub mod Receive
pub mod RoundTrip
pub mod Numbers
pub mod Rounds
pub mod Ends
pub mod Types
use tinyssh.Common.{ℕ, List, Bool, Outcome}
use tinyssh.Buf.{Buf}

pub record Packet : Type 0 where
  pub flagkeys : Bool
  pub flagauthorized : Bool
  pub flagrekeying : Bool
  pub flageofsent : Bool
  pub flagclosesent : Bool
  pub flagchanneleofreceived : Bool
  pub sendpacketid : ℕ
  pub receivepacketid : ℕ
  pub name : List ℕ
  pub recvbuf : Buf
  pub sendbuf : Buf
  pub packet_length : ℕ
  pub strict_kex : Bool

abbrev pub transport_packet_limit : ℕ
transport_packet_limit = 35_000

abbrev pub channel_packet_limit : ℕ
channel_packet_limit = 32_768

abbrev pub packet_zerobytes : ℕ
packet_zerobytes = 64

abbrev pub unauthenticated_messages : ℕ
unauthenticated_messages = 30

-- The function pointers `sshcrypto_packet_put` and `sshcrypto_packet_get`. The second answers like
-- `packet_get_plain_`, with the buffer that it fills.
pub record Cipher : Type 0 where
  pub put : Packet → Buf → Outcome Packet
  pub get : Packet → Buf → Outcome (Bool × Buf × Packet)
