-- ===== src/KeyExchange/Hashed.antt =====
-- What packet_kexdh.c hashes: the exchange (RFC 5656 section 4) and the keys (RFC 4253 section 7.2).
use tinyssh.Common.{
  ℕ, ◌≤◌, ◌≡◌, refl, sym, ap, List, [], ◌++◌, arith, length, take, length-append, subst,
}
use tinyssh.Bytes.{store_bigendian}
use tinyssh.Bytes.Endian.{length-store_bigendian}
use tinyssh.Str.{str_len}
use tinyssh.Buf.{Buf, limit, buf_putsharedsecret, buf_putstring, buf_putnum32, buf_putstringlen}
use tinyssh.Buf.Contents.{IsValid, contents, Appends, buf_purge_lem}
use tinyssh.Buf.Puts.{
  Appends-bind, ssh_string, buf_putnum32-Appends, buf_putstringlen-Appends,
  putstringlen_take-Appends,
}
use tinyssh.Buf.Mpint.{mpint, buf_putsharedsecret-mpint}
use tinyssh.SignKey.{ed25519_putsignpk, ed25519_name}
use tinyssh.Algorithms.{Kex, Key, Kem, curve25519, sntrup761x25519}
use tinyssh.KeyExchange.{Exchange}
use tinyssh.KeyExchange.Kem.{sshcrypto_buf_putkemkey}
use tinyssh.KeyExchange.Dh.{fill_hashbuf}

-- How the shared secret is written: a number, or a string of bytes.
abbrev pub secret_size : Kem → ℕ
secret_size curve25519 = 32
secret_size sntrup761x25519 = 64

abbrev pub shared : Kem → List ℕ → List ℕ
shared curve25519 s = mpint s
shared sntrup761x25519 s = ssh_string s

pub putkemkey-Appends :
    (k : Kem) (b : Buf) (s : List ℕ)
    → IsValid b
    → length s ≡ secret_size k
    → Appends b (shared k s) (sshcrypto_buf_putkemkey k b s)
unfolding sshcrypto_buf_putkemkey
putkemkey-Appends curve25519 b s v e =
    subst (λ n. Appends b (mpint s) (buf_putsharedsecret b s n)) e
      (buf_putsharedsecret-mpint b s v (omega (arith, e)))
putkemkey-Appends sntrup761x25519 b s v e = buf_putstringlen-Appends b s 64 v e (omega arith)

-- The server's public key: the name of its type and its bytes.
abbrev pub key_blob : List ℕ → List ℕ
key_blob pk = ssh_string ed25519_name ++ ssh_string pk

putsignpk-Appends :
    (b : Buf) (pk : List ℕ)
    → IsValid b
    → length pk ≡ 32
    → Appends b (ssh_string (key_blob pk)) (ed25519_putsignpk b pk)
unfolding ed25519_putsignpk buf_putstring str_len
putsignpk-Appends b pk v e =
    Appends-bind b (store_bigendian (length (key_blob pk))) (key_blob pk) _ _ v
      (subst (λ n. Appends b (store_bigendian n) (buf_putnum32 b 51)) (sym size)
        (buf_putnum32-Appends b v 51))
      (λ c w _.
        Appends-bind c (ssh_string ed25519_name) (ssh_string pk) _ _ w
          (buf_putstringlen-Appends c ed25519_name 11 w refl (omega arith))
          (λ d u _. buf_putstringlen-Appends d pk 32 u e (omega arith)))
  where
    size : length (key_blob pk) ≡ 51
    size = omega (
      arith,
      e,
      length-append (ssh_string ed25519_name) (ssh_string pk),
      length-append (store_bigendian (length pk)) pk,
      length-append (store_bigendian 11) ed25519_name,
      length-store_bigendian (length pk),
      length-store_bigendian 11,
    )

-- The string of a valid buffer.
putbuf-Appends :
    (b h : Buf)
    → IsValid b
    → IsValid h
    → Appends b (ssh_string (contents h)) (buf_putstringlen b h.mem h.len)
putbuf-Appends b h v w =
    putstringlen_take-Appends b h.mem h.len v (omega (arith, w.held, w.backed))
      (omega (arith, w.held, w.small))

-- The exchange as RFC 5656 section 4 has it: the two hellos, the two SSH_MSG_KEXINIT, the host key and
-- the two public keys as strings, and the shared secret.
abbrev pub exchanged : Exchange → Kex → Key → List ℕ → List ℕ → List ℕ → List ℕ
exchanged x k key clientpk serverpk secret =
    ssh_string (contents x.helloreceive)
    ++ (ssh_string (contents x.hellosend)
        ++ (ssh_string (contents x.kexrecv)
            ++ (ssh_string (contents x.kexsend)
                ++ (ssh_string (key_blob key.sign_publickey)
                    ++ (ssh_string (take k.kem_publickeybytes clientpk)
                        ++ (ssh_string (take k.kem_ciphertextbytes serverpk)
                            ++ shared k.kem secret))))))

-- With valid buffers, a host key of 32 bytes, and the client's and the server's public key and the
-- secret of the sizes that the chosen entry has, `hashbuf` is emptied, and what is put into it to be
-- hashed is exactly the exchange in the order of RFC 4253 section 8, with the public keys and all
-- before them as strings, which is the form of RFC 5656 section 4 and RFC 8731, and behind them the
-- shared secret as the chosen entry encodes it: a multiple precision integer for curve25519, a
-- string for sntrup761x25519; or the process ends because that does not fit.
pub fill_hashbuf-Appends :
    (x : Exchange) (k : Kex) (key : Key) (clientpk serverpk secret : List ℕ)
    → IsValid x.hashbuf
    → IsValid x.helloreceive
    → IsValid x.hellosend
    → IsValid x.kexrecv
    → IsValid x.kexsend
    → length key.sign_publickey ≡ 32
    → k.kem_publickeybytes ≤ length clientpk
    → k.kem_publickeybytes ≤ limit
    → k.kem_ciphertextbytes ≤ length serverpk
    → k.kem_ciphertextbytes ≤ limit
    → length secret ≡ secret_size k.kem
    → (e : Buf) × IsValid e
      × (contents e ≡ [])
      × (e.alloc ≡ x.hashbuf.alloc)
      × Appends e
          (exchanged x k key clientpk serverpk secret)
          (fill_hashbuf x k key clientpk serverpk secret)
unfolding fill_hashbuf
fill_hashbuf-Appends x k key clientpk serverpk secret v vr vs vkr vks pk c1 c2 s1 s2 sec =
    let (e, purged, ve, zero_len, same, _) = buf_purge_lem x.hashbuf v in
    (
      e,
      ve,
      ap (λ n. take n e.mem) zero_len,
      same,
      rw purged (
          Appends-bind e _ _ _ _ ve (putbuf-Appends e x.helloreceive ve vr) (λ b w _.
            Appends-bind b _ _ _ _ w (putbuf-Appends b x.hellosend w vs) (λ b w _.
              Appends-bind b _ _ _ _ w (putbuf-Appends b x.kexrecv w vkr) (λ b w _.
                Appends-bind b _ _ _ _ w (putbuf-Appends b x.kexsend w vks) (λ b w _.
                  Appends-bind b _ _ _ _ w (putsignpk-Appends b key.sign_publickey w pk) (λ b w _.
                    Appends-bind b _ _ _ _ w
                      (putstringlen_take-Appends b clientpk k.kem_publickeybytes w c1 c2)
                      (λ b w _.
                        Appends-bind b _ _ _ _ w
                          (putstringlen_take-Appends b serverpk k.kem_ciphertextbytes w s1 s2)
                          (λ b w _. putkemkey-Appends k.kem b secret w sec)))))))),
    )
