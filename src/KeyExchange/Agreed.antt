-- ===== src/KeyExchange/Agreed.antt =====
-- What packet_kex.c has agreed upon when it answers 1.
use tinyssh.Common.{
  ℕ, ◌-◌, ◌≡◌, refl, sym, ap, ◌∙◌, Bool, true, false, not, ◌&&◌, ◌==◌, drop, Option, none, some, ok,
  proto, Returns, Returns-bind, Returns-check, Returns-if, Returns_ok, arith, Returns_map, subst,
}
use tinyssh.Str.{literal}
use tinyssh.Buf.{Buf}
use tinyssh.Parser.{packetparser_uint8, packetparser_uint32, packetparser_skip, packetparser_end}
use tinyssh.Names.{namelist_contains}
use tinyssh.Algorithms.{
  Kex, Key, CipherSuite, KexChoice, sshcrypto_kex_select, sshcrypto_key_select,
  sshcrypto_cipher_select, sshcrypto_cipher_macselect,
}
use tinyssh.Algorithms.Enabled.{Each, key_select-enabled, cipher_select-enabled, kex_select-enabled}
use tinyssh.Msg
use tinyssh.KeyExchange.{Exchange}
use tinyssh.Line.{Line}
use tinyssh.KeyExchange.Parse.{
  parse_list, parse_rest, parse_macs, after_kex, parse_ciphers, parse_keys, chose_kex,
  packet_kex_parse,
}

-- An entry is chosen, and it has the property.
abbrev pub Chosen : {A : Type 0} → (A → Type 0) → Option A → Type 0
Chosen P none = ⊥
Chosen P (some a) = P a

-- What the rest of the packet leaves as it is.
abbrev Keeps : Exchange → Exchange → Type 0
Keeps x y = (y.line ≡ x.line) × (y.kex ≡ x.kex) × (y.key ≡ x.key) × (y.cipher ≡ x.cipher)

parse_rest-Keeps : (x : Exchange) (pos : ℕ) → Returns (parse_rest x pos) (λ r. Keeps x r.1)
unfolding parse_rest
parse_rest-Keeps x pos = Returns-bind _ (parse_list b pos) _ (λ (len, pos) e.
    Returns-bind _ (namelist_contains (drop (pos - len) b.mem) len (literal "none")) _ (λ plain e.
      Returns-if _ (not plain) _ _ (λ t. same)
        (λ t. Returns-bind _ (parse_list b pos) _ (λ (len, pos) e.
          Returns-bind _ (namelist_contains (drop (pos - len) b.mem) len (literal "none")) _
            (λ plain e.
              Returns-if _ (not plain) _ _ (λ t. same)
                (λ t. Returns-bind _ (parse_list b pos) _ (λ (len, pos) e.
                  Returns-bind _ (parse_list b pos) _ (λ (len, pos) e.
                    Returns-bind _ (packetparser_uint8 b.mem b.len pos) _ (λ (ch, pos) e.
                      Returns-bind _ (packetparser_uint32 b.mem b.len pos) _ (λ (len, pos) e.
                        Returns-bind _ (packetparser_end b.mem b.len pos) _
                          (λ pos e. same)))))))))))
  where
    b : Buf
    b = x.kexrecv

    same : Keeps x x
    same = (refl, refl, refl, refl)

parse_macs-Keeps :
    (x : Exchange) (c : CipherSuite) (pos : ℕ) → Returns (parse_macs x c pos) (λ r. Keeps x r.1)
unfolding parse_macs
parse_macs-Keeps x c pos = Returns-bind _ (parse_list b pos) _ (λ (len, pos) e.
    Returns-bind _ (namelist_contains (drop (pos - len) b.mem) len c.name) _ (λ both e.
      Returns-if _ (not both) _ _ (λ t. same)
        (λ t. Returns-bind _ (parse_list b pos) _ (λ (len, pos) e.
          Returns-bind _ (sshcrypto_cipher_macselect (drop (pos - len) b.mem) len) _ (λ mac e.
            Returns-if _ (not mac) _ _ (λ t. same)
              (λ t.
                Returns-bind _ (parse_list b pos) _ (λ (len, pos) e. parse_rest-Keeps x pos)))))))
  where
    b : Buf
    b = x.kexrecv

    same : Keeps x x
    same = (refl, refl, refl, refl)

-- From the encryption algorithms on: the cipher is an enabled one.
abbrev AfterCiphers : Exchange → Bool × Exchange → Type 0
AfterCiphers x (t, y) =
    (y.line ≡ x.line)
    × (y.kex ≡ x.kex)
    × (y.key ≡ x.key)
    × (t ≡ true → Chosen (λ c. c.flagenabled ≡ true) y.cipher)

parse_ciphers-AfterCiphers :
    (x : Exchange) (pos : ℕ) → Returns (parse_ciphers x pos) (AfterCiphers x)
unfolding parse_ciphers
parse_ciphers-AfterCiphers x pos = Returns-bind _ (parse_list x.kexrecv pos) _ (λ (len, pos) e.
    Returns-bind _ (sshcrypto_cipher_select x.ciphers (drop (pos - len) x.kexrecv.mem) len) _
      (λ c e.
        selected pos c (
          Returns_ok _ _ (cipher_select-enabled x.ciphers (drop (pos - len) x.kexrecv.mem) len) e)))
  where
    selected :
        (pos : ℕ) (c : Option CipherSuite)
        → Each (λ c. c.flagenabled ≡ true) c
        → Returns
            (elim c [
              | none ↦ ok (false, record x { cipher = none })
              | some c ↦ parse_macs (record x { cipher = some c }) c pos
            ])
            (AfterCiphers x)
    selected pos none h = (refl, refl, refl, λ t. absurd (cc))
    selected pos (some c) h =
        Returns_map
          (λ (t, y) (a, b, d, e).
            (a, b, d, λ t. subst (Chosen (λ c. c.flagenabled ≡ true)) (sym e) h))
          (parse_macs (record x { cipher = some c }) c pos)
          (parse_macs-Keeps (record x { cipher = some c }) c pos)

-- From the host keys on: the key is an enabled one as well.
abbrev AfterKeys : Exchange → Bool × Exchange → Type 0
AfterKeys x (t, y) =
    (y.line ≡ x.line)
    × (y.kex ≡ x.kex)
    × (t ≡ true → Chosen (λ k. k.sign_flagserver ≡ true) y.key)
    × (t ≡ true → Chosen (λ c. c.flagenabled ≡ true) y.cipher)

parse_keys-AfterKeys : (x : Exchange) (pos : ℕ) → Returns (parse_keys x pos) (AfterKeys x)
unfolding parse_keys
parse_keys-AfterKeys x pos = Returns-bind _ (parse_list x.kexrecv pos) _ (λ (len, pos) e.
    Returns-bind _ (sshcrypto_key_select x.keys (drop (pos - len) x.kexrecv.mem) len) _ (λ k e.
      selected pos k
        (Returns_ok _ _ (key_select-enabled x.keys (drop (pos - len) x.kexrecv.mem) len) e)))
  where
    selected :
        (pos : ℕ) (k : Option Key)
        → Each (λ k. k.sign_flagserver ≡ true) k
        → Returns
            (elim k [
              | none ↦ ok (false, record x { key = none })
              | some k ↦ parse_ciphers (record x { key = some k }) pos
            ])
            (AfterKeys x)
    selected pos none h = (refl, refl, (λ t. absurd (cc)), (λ t. absurd (cc)))
    selected pos (some k) h =
        Returns_map
          (λ (t, y) (a, b, d, e).
            (a, b, (λ t. subst (Chosen (λ k. k.sign_flagserver ≡ true)) (sym d) h), e))
          (parse_ciphers (record x { key = some k }) pos)
          (parse_ciphers-AfterCiphers (record x { key = some k }) pos)

-- What holds where the packet is accepted, by `packet.receivepacketid`.
pub record IsAgreed (initial : Bool) (received : ℕ) (y : Exchange) : Type 0 where
  pub kex_enabled : Chosen (λ k. k.flagenabled ≡ true) y.kex
  pub key_enabled : Chosen (λ k. k.sign_flagserver ≡ true) y.key
  pub cipher_enabled : Chosen (λ c. c.flagenabled ≡ true) y.cipher
  pub first : initial ≡ true → y.line.packet.strict_kex ≡ true → received ≡ 1

abbrev Accepts : Bool → ℕ → Bool × Exchange → Type 0
Accepts initial received (true, y) = IsAgreed initial received y
Accepts initial received (false, y) = Unit

late :
    (initial strict : Bool) (n : ℕ)
    → (initial && strict && not (n == 1)) ≡ false
    → initial ≡ true
    → strict ≡ true
    → n ≡ 1
late initial strict n h i t = ground (arith, h, i, t)

after_kex-Accepts :
    (initial : Bool) (x : Exchange) (pos : ℕ)
    → Chosen (λ k. k.flagenabled ≡ true) x.kex
    → Returns (after_kex initial x pos) (Accepts initial x.line.packet.receivepacketid)
unfolding after_kex
after_kex-Accepts initial x pos h =
    Returns-if (Accepts initial x.line.packet.receivepacketid) _ _ _ (λ t. tt)
      (λ t.
        Returns_map (λ (r, y) k. accepted r y k t) (parse_keys x pos) (parse_keys-AfterKeys x pos))
  where
    accepted :
        (r : Bool) (y : Exchange)
        → AfterKeys x (r, y)
        → (initial && x.line.packet.strict_kex && not (x.line.packet.receivepacketid == 1)) ≡ false
        → Accepts initial x.line.packet.receivepacketid (r, y)
    accepted true y (l, k, key, c) t = record {
      kex_enabled = subst (Chosen (λ k. k.flagenabled ≡ true)) (sym k) h;
      key_enabled = key refl;
      cipher_enabled = c refl;
      first = λ i s.
          late initial x.line.packet.strict_kex x.line.packet.receivepacketid t i
            (sym (ap (λ (z : Line). z.packet.strict_kex) l) ∙ s);
    }
    accepted false y k t = tt

-- Where `packet_kex_parse` answers 1, the key exchange, the host key and the cipher are set, each to
-- an entry that is enabled. And if the strict key exchange is on after the first
-- SSH_MSG_KEXINIT, that was the first packet that the client sent.
pub packet_kex_parse-IsAgreed :
    (initial : Bool) (x y : Exchange)
    → packet_kex_parse initial x ≡ ok (true, y)
    → IsAgreed initial x.line.packet.receivepacketid y
unfolding packet_kex_parse chose_kex
packet_kex_parse-IsAgreed initial x y h =
    Returns_ok (Accepts initial x.line.packet.receivepacketid) (packet_kex_parse initial x) parsed h
  where
    selected :
        (pos : ℕ) (c : KexChoice) (k : Option Kex)
        → c.kex ≡ k
        → Each (λ k. k.flagenabled ≡ true) k
        → Returns
            (elim k [
              | none ↦ ok (false, chose_kex x c)
              | some k ↦ after_kex initial (chose_kex x c) pos
            ])
            (Accepts initial x.line.packet.receivepacketid)
    selected pos c none e h = tt
    selected pos c (some k) e h =
        after_kex-Accepts initial (chose_kex x c) pos
          (subst (Chosen (λ k. k.flagenabled ≡ true)) (sym e) h)

    parsed : Returns (packet_kex_parse initial x) (Accepts initial x.line.packet.receivepacketid)
    parsed = Returns-bind _ (packetparser_uint8 x.kexrecv.mem x.kexrecv.len 0) _ (λ (ch, pos) e.
        Returns-check _ (not (ch == Msg.kexinit)) proto _ (
          Returns-bind _ (packetparser_skip x.kexrecv.mem x.kexrecv.len pos 16) _ (λ pos e.
            Returns-bind _ (parse_list x.kexrecv pos) _ (λ (len, pos) e.
              Returns-bind _
                (sshcrypto_kex_select x.kexs (drop (pos - len) x.kexrecv.mem) len
                  x.line.packet.strict_kex)
                _
                (λ c e. selected pos c c.kex refl (
                  Returns_ok _ _
                    (kex_select-enabled x.kexs (drop (pos - len) x.kexrecv.mem) len
                      x.line.packet.strict_kex)
                    e))))))
