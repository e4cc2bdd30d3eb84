-- ===== src/KeyExchange/Rekeying.antt =====
-- The session id of packet_kexdh.c, and its wait for SSH_MSG_NEWKEYS.
use tinyssh.Common.{
  ℕ, zero, suc, ◌+◌, ◌≡◌, refl, sym, ap, ◌∙◌, List, Bool, true, false, not, ◌&&◌, ◌||◌, ◌==◌, ltb,
  if◌then◌else◌, get_or, take, Option, none, some, ==_iff, Outcome, ok, die, bug, proto, ◌>>=◌,
  >>=-eq-ok, Returns, Returns-bind, Returns-if, Returns-check, Returns_ok, Returns_map,
  Returns_intro,
}
use tinyssh.Bytes.{byte_copy}
use tinyssh.Bytes.Copy.{zeros}
use tinyssh.Parser.{packetparser_uint8, packetparser_uint32, packetparser_copy, packetparser_end}
use tinyssh.Buf.{Buf, buf_purge}
use tinyssh.Algorithms.{Kex, Key}
use tinyssh.Msg
use tinyssh.Packet.{Cipher}
use tinyssh.Line.{Line, packet_getall}
use tinyssh.Line.Same.{KeepsSession, Same, Same-refl, packet_getall-Same}
use tinyssh.KeyExchange.{Exchange}
use tinyssh.KeyExchange.Dh.{
  drop_guess, receive_init, fill_hashbuf, keep_sessionid, finish_kexdh, exchange_keys, packet_kexdh,
}
use tinyssh.KeyExchange.Kem.{Primitives, kem_publickeymax, cipher_keymax, hash_max, enc_loop}
use tinyssh.KeyExchange.NewKeys.{send_reply, await_newkeys, bytes_left, derive_key, derive_keys}

-- The session ids agree.
abbrev SameId : Exchange → Exchange → Type 0
SameId x y = (y.sessionid ≡ x.sessionid) × (y.sessionid_len ≡ x.sessionid_len)

derive_keys-SameId :
    (prims : Primitives) (x : Exchange) (k : Kex) (sharedsecret hash : List ℕ) (b1 : Buf)
    → Returns (derive_keys prims x k sharedsecret hash b1) (λ r. SameId x r.1)
unfolding derive_keys
derive_keys-SameId prims x k sharedsecret hash b1 =
    Returns-bind (λ r. SameId x r.1) (derived x 65 b1 (zeros cipher_keymax)) _
      (λ (b1, key) e.
        let x1 = record x { clientnonce = byte_copy x.clientnonce 0 cipher_keymax key } in
        Returns-bind (λ r. SameId x r.1) (derived x1 66 b1 key) _
          (λ (b1, key) e.
            let x2 = record x1 { servernonce = byte_copy x.servernonce 0 cipher_keymax key } in
            Returns-bind (λ r. SameId x r.1) (derived x2 67 b1 key) _
              (λ (b1, key) e.
                let x3 = record x2 { clientkey = byte_copy x.clientkey 0 cipher_keymax key } in
                Returns-bind (λ r. SameId x r.1) (derived x3 68 b1 key) _
                  (λ (b1, key) e.
                    let x4 = record x3 { serverkey = byte_copy x.serverkey 0 cipher_keymax key } in
                    Returns-bind (λ r. SameId x r.1) (derived x4 69 b1 key) _
                      (λ (b1, key) e.
                        let x5 = record x4 {
                          clientmackey = byte_copy x.clientmackey 0 cipher_keymax key;
                        } in
                        Returns-bind (λ r. SameId x r.1) (derived x5 70 b1 key) _
                          (λ g e. (refl, refl)))))))
  where
    derived : Exchange → ℕ → Buf → List ℕ → Outcome (Buf × List ℕ)
    derived y letter b key = derive_key prims y k sharedsecret hash letter b key

finish-SameId :
    (cipher : Cipher) (prims : Primitives) (x : Exchange) (k : Kex) (key : Key)
    (serverpk sharedsecret hash : List ℕ) (b1 b2 : Buf)
    → Returns
        (finish_kexdh cipher prims x k key serverpk sharedsecret hash b1 b2)
        (λ r. SameId x r.3)
unfolding finish_kexdh
finish-SameId cipher prims x k key serverpk sharedsecret hash b1 b2 =
    signed (prims.subprocess_sign (take k.hash_bytes hash))
  where
    signed :
        (o : Option (List ℕ))
        → Returns {A = Bool × Buf × Buf × Exchange}
            (elim o [
              | none ↦ ok (false, b1, b2, x)
              | some sm ↦ do
                (sent, b1, b2, l) ← send_reply cipher k key serverpk sm x.line b1 b2
                let x = record x { line = l }
                if not sent then ok (false, b1, b2, x) else (do
                  (more, b2, l) ←
                      await_newkeys cipher l b2 (l.packet.recvbuf.len + bytes_left l.reads + 1)
                  let x = record x { line = l }
                  if not more then ok (false, b1, b2, x) else (do
                    (b1, x) ← derive_keys prims x k sharedsecret hash b1
                    ok (true, b1, b2, x)))
            ])
            (λ (r : Bool × Buf × Buf × Exchange). SameId x r.3)
    signed none = (refl, refl)
    signed (some sm) =
        Returns-bind _ (send_reply cipher k key serverpk sm x.line b1 b2) _ (λ (sent, b1, b2, l) e.
          Returns-if _ (not sent) _ _ (λ t. (refl, refl))
            (λ t.
              Returns-bind _
                (await_newkeys cipher l b2 (l.packet.recvbuf.len + bytes_left l.reads + 1)) _
                (λ (more, b2, l) e.
                  Returns-if _ (not more) _ _ (λ t. (refl, refl))
                    (λ t.
                      Returns-bind _
                        (derive_keys prims (record x { line = l }) k sharedsecret hash b1) _
                        (λ r e.
                          Returns_ok _ _
                            (derive_keys-SameId prims (record x { line = l }) k sharedsecret hash
                              b1)
                            e)))))

keep_sessionid_lem :
    (x : Exchange) (k : Kex) (hash : List ℕ)
    → x.line.packet.flagrekeying ≡ true
    → Returns (keep_sessionid x k hash) (λ y. SameId x y)
unfolding keep_sessionid
keep_sessionid_lem x k hash rekeying =
    rw rekeying
      (Returns-check _ (x.sessionid_len == 0 || ltb hash_max x.sessionid_len) proto _ (refl, refl))

receive_init-Same :
    (cipher : Cipher) (k : Kex) (l : Line) (b1 : Buf) (keeps : KeepsSession cipher)
    → Returns (receive_init cipher k l b1) (λ r. Same l.packet r.3.packet)
unfolding receive_init
receive_init-Same cipher k l b1 keeps = Returns-bind _ (buf_purge b1) _ (λ b1 e.
    Returns-bind _ (packet_getall cipher l b1 Msg.kexdh_init) _ (λ (more, c, l') e.
      let s = packet_getall-Same cipher keeps l l' b1 c Msg.kexdh_init more e in
      Returns-if _ (not more) _ _ (λ t. s)
        (λ t. Returns-bind _ (packetparser_uint8 c.mem c.len 0) _ (λ (ch, pos) e.
          Returns-check _ (not (ch == Msg.kexdh_init)) proto _ (
            Returns-bind _ (packetparser_uint32 c.mem c.len pos) _ (λ (len, pos) e.
              Returns-check _ (not (len == k.kem_publickeybytes)) proto _ (
                Returns-bind _ (packetparser_copy c.mem c.len pos (zeros kem_publickeymax) len) _
                  (λ (pk, pos) e.
                    Returns-bind _ (packetparser_end c.mem c.len pos) _
                      (λ pos e. Returns-bind _ (buf_purge c) _ (λ b e. s))))))))))

drop_guess-Same :
    (cipher : Cipher) (x : Exchange) (b1 : Buf) (keeps : KeepsSession cipher)
    → Returns (drop_guess cipher x b1) (λ r. Same x.line.packet r.2.packet)
unfolding drop_guess
drop_guess-Same cipher x b1 keeps =
    Returns-if _ (not (x.kex_packet_follows == 0) && not x.kex_guess) _ _
      (λ t. Returns-bind _ (buf_purge b1) _ (λ b1 e.
        Returns_intro _ _ (λ (more, c, l') e.
          packet_getall-Same cipher keeps x.line l' b1 c Msg.kexdh_init more e)))
      (λ t. Same-refl x.line.packet)

exchange-SameId :
    (cipher : Cipher) (prims : Primitives) (tries : ℕ) (x : Exchange) (k : Kex) (key : Key)
    (b1 b2 : Buf)
    → KeepsSession cipher
    → x.line.packet.flagrekeying ≡ true
    → Returns (exchange_keys cipher prims tries x k key b1 b2) (λ r. SameId x r.3)
unfolding exchange_keys
exchange-SameId cipher prims tries x k key b1 b2 keeps rekeying =
    Returns-bind _ (drop_guess cipher x b1) _ (λ (more, c1, l) e.
      let s₁ : Same x.line.packet l.packet =
        Returns_ok (λ r. Same x.line.packet r.2.packet) _ (drop_guess-Same cipher x b1 keeps) e in
      Returns-if _ (not more) _ _ (λ t. (refl, refl))
        (λ t. Returns-bind _ (receive_init cipher k l c1) _ (λ (more, clientpk, d1, l') e.
          let s₂ : Same l.packet l'.packet =
            Returns_ok (λ r. Same l.packet r.3.packet) _ (receive_init-Same cipher k l c1 keeps)
              e in
          Returns-if _ (not more) _ _ (λ t. (refl, refl))
            (λ t.
              Returns-bind _ (enc_loop prims k clientpk 0 tries) _ (λ (serverpk, sharedsecret) e.
                Returns-bind _
                  (fill_hashbuf (record x { line = l' }) k key clientpk serverpk sharedsecret) _
                  (λ h e.
                    Returns-bind _
                      (keep_sessionid (record x { line = l'; hashbuf = h }) k
                        (prims.digest k.hash (take h.len h.mem)))
                      _
                      (λ y e.
                        kept y _
                          (Returns_ok (SameId x) _
                            (keep_sessionid_lem (record x { line = l'; hashbuf = h }) k
                              (prims.digest k.hash (take h.len h.mem))
                              (s₂.flagrekeying ∙ s₁.flagrekeying ∙ rekeying))
                            e)
                          (finish-SameId cipher prims y k key serverpk sharedsecret
                            (prims.digest k.hash (take h.len h.mem)) d1 b2))))))))
  where
    kept :
        (y : Exchange) (m : Outcome (Bool × Buf × Buf × Exchange))
        → SameId x y
        → Returns m (λ r. SameId y r.3)
        → Returns m (λ r. SameId x r.3)
    kept y m (a, b) r = Returns_map (λ (t, b1, b2, z) (c, d). (c ∙ a, d ∙ b)) m r

-- A key exchange that is not the first leaves the session id as the first one has set it, whatever
-- the client sends, with a cipher that keeps the flags of the session.
pub packet_kexdh-sessionid :
    (cipher : Cipher) (prims : Primitives) (tries : ℕ) (x y : Exchange) (b1 b2 b1' b2' : Buf)
    (done : Bool)
    → KeepsSession cipher
    → x.line.packet.flagrekeying ≡ true
    → packet_kexdh cipher prims tries x b1 b2 ≡ ok (done, b1', b2', y)
    → (y.sessionid ≡ x.sessionid) × (y.sessionid_len ≡ x.sessionid_len)
unfolding packet_kexdh
packet_kexdh-sessionid cipher prims tries x y b1 b2 b1' b2' done keeps rekeying h =
    Returns_ok (λ r. SameId x r.3) _ (with_key x.kex x.key) h
  where
    with_key :
        (o : Option Kex) (p : Option Key)
        → Returns
            (elim o [
              | none ↦ die bug
              | some k ↦ elim p [
                | none ↦ die bug
                | some key ↦ exchange_keys cipher prims tries x k key b1 b2
              ]
            ])
            (λ r. SameId x r.3)
    with_key none p = tt
    with_key (some k) none = tt
    with_key (some k) (some key) = exchange-SameId cipher prims tries x k key b1 b2 keeps rekeying

-- In the strict key exchange the wait for SSH_MSG_NEWKEYS does not pass over a packet that
-- `packet_getall` hands out: where it ends well, its first call of `packet_getall` has handed out
-- SSH_MSG_NEWKEYS, and the wait has ended with what that call gave, with a cipher that keeps the
-- flags of the session. What `packet_getall` itself passes over, as it does with SSH_MSG_IGNORE and
-- SSH_MSG_DEBUG when the keys are in use, is not part of this.
pub await_newkeys-strict :
    (cipher : Cipher) (l l' : Line) (b2 c : Buf) (left : ℕ)
    → KeepsSession cipher
    → l.packet.strict_kex ≡ true
    → await_newkeys cipher l b2 left ≡ ok (true, c, l')
    → (b : Buf) × (buf_purge b2 ≡ ok b)
      × (packet_getall cipher l b 0 ≡ ok (true, c, l'))
      × (get_or c.mem 0 0 ≡ Msg.newkeys)
unfolding await_newkeys
await_newkeys-strict cipher l l' b2 c zero keeps strict h = absurd (cc)
await_newkeys-strict cipher l l' b2 c (suc left) keeps strict h =
    let (b, purged, rest) = >>=-eq-ok (buf_purge b2) _ h in
    let ((more, d, m), got, after) = >>=-eq-ok (packet_getall cipher l b 0) _ rest in
    let (same, kind) =
      judged more d m _ (get_or d.mem 0 0 == Msg.newkeys) m.packet.strict_kex refl
        ((packet_getall-Same cipher keeps l m b d 0 more got).strict_kex ∙ strict) after in
    (b, purged, got ∙ same, kind)
  where
    Ended : Outcome (Bool × Buf × Line) → Type 0
    Ended o = o ≡ ok (true, c, l')

    judged :
        (more : Bool) (d : Buf) (m : Line) (again : Outcome (Bool × Buf × Line))
        (first strict : Bool)
        → (get_or d.mem 0 0 == Msg.newkeys) ≡ first
        → strict ≡ true
        → Ended (
            if not more then ok (false, d, m) else elim first [
              | true ↦ ok (true, d, m)
              | false ↦ elim strict [ true ↦ ok (false, d, m) | false ↦ again ]
            ])
        → Ended (ok (more, d, m)) × (get_or c.mem 0 0 ≡ Msg.newkeys)
    judged false d m again first strict k s h = absurd (cc)
    judged true d m again true strict k s h =
        let e : d ≡ c = cc in
        (
          h,
          ap (λ (z : Buf). get_or z.mem 0 0) (sym e) ∙ (==_iff (get_or d.mem 0 0) Msg.newkeys).0 k,
        )
    judged true d m again false true k s h = absurd (cc)
    judged true d m again false false k s h = absurd (cc)
