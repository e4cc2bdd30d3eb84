-- ===== src/KeyExchange/Offered.antt =====
-- The server's SSH_MSG_KEXINIT of packet_kex.c.
use tinyssh.Common.{
  ℕ, ◌≤◌, ◌<◌, ◌^◌, ◌≡◌, List, [], ◌∷◌, ◌++◌, All, arith, length, take, Outcome, ok, ◌>>=◌,
}
use tinyssh.Str.{literal}
use tinyssh.Str.Laws.{text, str_len-le}
use tinyssh.Bytes.{store_bigendian}
use tinyssh.Buf.{Buf, limit, buf_purge, buf_putstring}
use tinyssh.Buf.Contents.{IsValid, Appends, buf_purge_lem, buf_putrandombytes-Appends}
use tinyssh.Buf.Puts.{
  ssh_string, Appends-bind, putstringlen_take-Appends, buf_putnum8-Appends, buf_putnum32-Appends,
}
use tinyssh.Algorithms.{
  Kex, Key, CipherSuite, enabled_names, strict_server, put_list, sshcrypto_kex_put,
  sshcrypto_key_put, sshcrypto_cipher_put, sshcrypto_cipher_macput,
}
use tinyssh.Algorithms.Offers.{joined, Plain, put_list-items}
use tinyssh.Str.{str_len}
use tinyssh.Msg
use tinyssh.KeyExchange.Send.{build_kexinit}

-- Names that can be listed.
pub record IsList (names : List (List ℕ)) : Type 0 where
  pub plain : All Plain names
  pub small : All (λ n. str_len n ≤ limit) names
  pub fits : length (joined names) < 2 ^ 32

abbrev pub kex_names : List Kex → List (List ℕ)
kex_names kexs = enabled_names (λ k. k.flagenabled) (λ k. k.name) kexs ++ (strict_server ∷ [])

abbrev pub key_names : List Key → List (List ℕ)
key_names keys = enabled_names (λ k. k.sign_flagserver) (λ k. k.name) keys

abbrev pub cipher_names : List CipherSuite → List (List ℕ)
cipher_names ciphers = enabled_names (λ c. c.flagenabled) (λ c. c.name) ciphers

-- The packet of RFC 4253 section 7.1.
abbrev pub kexinit : List ℕ → List (List ℕ) → List (List ℕ) → List (List ℕ) → List ℕ
kexinit cookie kexs keys ciphers =
    (Msg.kexinit ∷ [])
    ++ (take 16 cookie
        ++ (ssh_string (joined kexs)
            ++ (ssh_string (joined keys)
                ++ (ssh_string (joined ciphers)
                    ++ (ssh_string (joined ciphers)
                        ++ (ssh_string (text (literal "hmac-sha2-256"))
                            ++ (ssh_string (text (literal "hmac-sha2-256"))
                                ++ (ssh_string (text (literal "none"))
                                    ++ (ssh_string (text (literal "none"))
                                        ++ (ssh_string (text (literal ""))
                                            ++ (ssh_string (text (literal ""))
                                                ++ ((0 ∷ []) ++ store_bigendian 0))))))))))))

putstring-Appends :
    (b : Buf) (x : List ℕ)
    → IsValid b
    → length x ≤ limit
    → Appends b (ssh_string (text x)) (buf_putstring b x)
unfolding buf_putstring
putstring-Appends b x v h =
    putstringlen_take-Appends b x (str_len x) v (str_len-le x) (omega (arith, h, str_len-le x))

put_list-Appends :
    (b : Buf) (names : List (List ℕ))
    → IsValid b
    → IsList names
    → Appends b (ssh_string (joined names)) (put_list b names)
put_list-Appends b names v h = (put_list-items b names v h.plain h.small h.fits).0

-- Into a valid buffer, purged, `packet_kex_send` builds the packet of RFC 4253 section 7.1: a cookie
-- of 16 random bytes, the names of the enabled algorithms, the same both ways, with the strict
-- marker behind those of the key exchange, and no guess; or the process ends because it does not
-- fit. The names of the tables are not empty and have no comma, and each list is below 2 ^ 32 bytes.
pub build_kexinit-Appends :
    (kexs : List Kex) (keys : List Key) (ciphers : List CipherSuite) (cookie : List ℕ) (b : Buf)
    → IsValid b
    → 16 ≤ length cookie
    → IsList (kex_names kexs)
    → IsList (key_names keys)
    → IsList (cipher_names ciphers)
    → (c : Buf) × (buf_purge b ≡ ok c)
      × (c.len ≡ 0)
      × Appends c
          (kexinit cookie (kex_names kexs) (key_names keys) (cipher_names ciphers))
          (build_kexinit kexs keys ciphers cookie b)
unfolding build_kexinit sshcrypto_kex_put sshcrypto_key_put sshcrypto_cipher_put
    sshcrypto_cipher_macput
build_kexinit-Appends kexs keys ciphers cookie b v h k l m =
    let (c, purged, u, empty, size, z) = buf_purge_lem b v in
    (
      c,
      purged,
      empty,
      rw purged (
          Appends-bind c (Msg.kexinit ∷ []) _ _ _ u (buf_putnum8-Appends c u Msg.kexinit) (λ c u e.
            Appends-bind c (take 16 cookie) _ _ _ u
              (buf_putrandombytes-Appends c u cookie 16 (omega arith) h)
              (λ c u e. listed c u k (λ c u. listed c u l (λ c u. listed c u m (λ c u.
                listed c u m (λ c u. named c u (literal "hmac-sha2-256") (omega arith) (λ c u.
                  named c u (literal "hmac-sha2-256") (omega arith) (λ c u.
                    named c u (literal "none") (omega arith) (λ c u.
                      named c u (literal "none") (omega arith) (λ c u.
                        named c u (literal "") (omega arith) (λ c u.
                          named c u (literal "") (omega arith) (λ c u.
                            Appends-bind c (0 ∷ []) _ _ _ u (buf_putnum8-Appends c u 0)
                              (λ c u e. buf_putnum32-Appends c u 0)))))))))))))),
    )
  where
    listed :
        {names : List (List ℕ)} {ys : List ℕ} {f : Buf → Outcome Buf} (c : Buf)
        → IsValid c
        → IsList names
        → ((d : Buf) → IsValid d → Appends d ys (f d))
        → Appends c (ssh_string (joined names) ++ ys) (put_list c names >>= f)
    listed c u h later = Appends-bind c _ _ _ _ u (put_list-Appends c _ u h) (λ d w e. later d w)

    named :
        {ys : List ℕ} {f : Buf → Outcome Buf} (c : Buf)
        → IsValid c
        → (x : List ℕ) → length x ≤ limit
        → ((d : Buf) → IsValid d → Appends d ys (f d))
        → Appends c (ssh_string (text x) ++ ys) (buf_putstring c x >>= f)
    named c u x h later = Appends-bind c _ _ _ _ u (putstring-Appends c x u h) (λ d w e. later d w)
