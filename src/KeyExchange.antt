-- ===== src/KeyExchange.antt =====
-- packet_kex.c and packet_kexdh.c: the fields of `struct packet` for the key exchange, and the
-- variables of sshcrypto_kex.c, sshcrypto_key.c and sshcrypto_cipher.c that it sets.
pub mod Send
pub mod Offered
pub mod Parse
pub mod Kem
pub mod NewKeys
pub mod Dh
pub mod Agreed
pub mod Rekeying
pub mod Shared
pub mod Hashed
pub mod Derived
use tinyssh.Common.{ℕ, List, Bool, Option, some, none}
use tinyssh.Buf.{Buf}
use tinyssh.Line.{Line}
use tinyssh.Algorithms.{Kex, Key, CipherSuite}

pub record Exchange : Type 0 where
  pub line : Line
  -- the tables with their enabled entries
  pub kexs : List Kex
  pub keys : List Key
  pub ciphers : List CipherSuite
  -- the chosen entries: `sshcrypto_kex_name`, `sshcrypto_key_name`, `sshcrypto_cipher_name` and what
  -- is set with them
  pub kex : Option Kex
  pub key : Option Key
  pub cipher : Option CipherSuite
  pub kex_packet_follows : ℕ
  pub kex_guess : Bool
  pub sessionid : List ℕ
  pub sessionid_len : ℕ
  pub hellosend : Buf
  pub helloreceive : Buf
  pub kexsend : Buf
  pub kexrecv : Buf
  pub hashbuf : Buf
  pub clientnonce : List ℕ
  pub servernonce : List ℕ
  pub clientkey : List ℕ
  pub serverkey : List ℕ
  pub clientmackey : List ℕ
  pub servermackey : List ℕ
