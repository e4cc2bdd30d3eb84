-- ===== src/Auth/Signed.antt =====
-- What a client's signature covers in packet_auth.c.
use tinyssh.Common.{ℕ, ◌≤◌, ◌≡◌, List, ◌++◌, arith, length, take, ok}
use tinyssh.Buf.{Buf, limit, buf_purge}
use tinyssh.Buf.Contents.{IsValid, contents, Appends, buf_put-Appends, buf_purge_lem}
use tinyssh.Buf.Puts.{ssh_string, Appends-bind, putstringlen_take-Appends}
use tinyssh.Algorithms.{Key}
use tinyssh.Auth.{Setting}
use tinyssh.Auth.PublicKey.{signed_input}

-- What `crypto_sign_ed25519_open` is given, in the purged `b2`, is the signature, the session id as an SSH string, and the
-- request (RFC 4252 section 7); or the process ends because that does not fit. The buffers are
-- valid, and the arrays have the bytes that are taken from them.
pub signed_input-Appends :
    (s : Setting) (key : Key) (sig : List ℕ) (request b2 : Buf)
    → IsValid request
    → IsValid b2
    → key.sign_bytes ≤ length sig
    → length sig ≤ limit
    → s.sessionid_len ≤ length s.sessionid
    → length s.sessionid ≤ limit
    → (c : Buf) × (buf_purge b2 ≡ ok c)
      × (c.len ≡ 0)
      × Appends c
          (take key.sign_bytes sig
            ++ (ssh_string (take s.sessionid_len s.sessionid) ++ contents request))
          (signed_input s key sig request b2)
unfolding signed_input
signed_input-Appends s key sig request b2 v w h k i j =
    let (c, purged, u, empty, size, m) = buf_purge_lem b2 w in
    (
      c,
      purged,
      empty,
      rw purged (
          Appends-bind c (take key.sign_bytes sig) _ _ _ u
            (buf_put-Appends c u sig key.sign_bytes (omega (arith, h, k)) h)
            (λ d x a.
              Appends-bind d (ssh_string (take s.sessionid_len s.sessionid)) (contents request) _ _
                x
                (putstringlen_take-Appends d s.sessionid s.sessionid_len x i (omega (arith, i, j)))
                (λ f y b.
                  buf_put-Appends f y request.mem request.len (omega (arith, v.held, v.small))
                    (omega (arith, v.held, v.backed))))),
    )
