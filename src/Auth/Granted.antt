-- ===== src/Auth/Granted.antt =====
-- Whom packet_auth.c lets in.
use tinyssh.Common.{
  ap, sym, ◌∙◌, die_if, ◌>>◌, arith, ◌≡◌, refl, List, Returns-check, Returns-if, Bool, true, false,
  not, if◌then◌else◌, Bool-cases, inl, inr, take, drop, length, Option, none, some, ok, die, ◌>>=◌,
  Returns, Returns-bind, ◌-◌, ◌||◌, ◌==◌, ℕ, get_or, proto, leb, nomem, bug,
}
use tinyssh.Bytes.{byte_copy}
use tinyssh.Bytes.Copy.{zeros}
use tinyssh.Parser.{packetparser_uint8, packetparser_end}
use tinyssh.Msg
use tinyssh.Buf.{Buf, buf_purge, buf_putnum8, buf_putstring}
use tinyssh.SignKey.{
  ed25519_putsignpkbase64, ed25519_putsignpk, ed25519_parsesignpk, ed25519_parsesignature,
}
use tinyssh.Algorithms.{Key}
use tinyssh.Algorithms.Enabled.{find_name-enabled}
use tinyssh.Packet.{Cipher}
use tinyssh.Auth.{Setting, Desk, parse_string, put_and_send}
use tinyssh.Auth.PublicKey.{
  Judged, authorized, replied, rejected, gone, find_client_key, signed_input, ask_files, verify,
  use_key, publickey, offer_key, cut_signature,
}

-- What a request with the method "publickey" holds from `pos` on: the name of the key's type, the
-- public key, and the signature in a string of `n` bytes at the end.
pub record Carries (s : Setting) (request : Buf) (pos : ℕ) (key : Key) (pk sig : List ℕ) (n : ℕ)
    : Type 0 where
  pub flag : ℕ
  pub after_flag : ℕ
  pub has_flag : packetparser_uint8 request.mem request.len pos ≡ ok (flag, after_flag)
  pub name_length : ℕ
  pub after_name : ℕ
  pub has_name : parse_string request after_flag ≡ ok (name_length, after_name)
  pub names : find_client_key s (drop (after_name - name_length) request.mem) name_length ≡ some key
  pub key_length : ℕ
  pub after_key : ℕ
  pub has_key : parse_string request after_name ≡ ok (key_length, after_key)
  pub is_key :
      ed25519_parsesignpk (zeros 32) (drop (after_key - key_length) request.mem) key_length
      ≡ ok (true, pk)
  pub end : ℕ
  pub has_signature : parse_string request after_key ≡ ok (n, end)
  pub is_signature :
      ed25519_parsesignature (zeros 64) (drop (end - n) request.mem) n ≡ ok (true, sig)
  pub ends : packetparser_end request.mem request.len end ≡ ok end

-- The key in a request is of an enabled type, verifies the signature in the same request over the
-- session id and the request without that signature, and the user's files have it.
pub data HoldsKey (s : Setting) (request : Buf) (pos : ℕ) (name : List ℕ) : Type 0 where
  holds_key :
      (key : Key) (pk sig written : List ℕ) (n smlen : ℕ) (b2 b2' b b' b'' : Buf)
      → Carries s request pos key pk sig n
      → key.sign_flagclient ≡ true
      → signed_input s key sig (cut_signature request n) b2 ≡ ok b2'
      → s.sign_open (take b2'.len b2'.mem) pk ≡ some (written, smlen)
      → b.len ≡ 0
      → ed25519_putsignpkbase64 b pk ≡ ok b'
      → buf_putnum8 b' 0 ≡ ok b''
      → s.subprocess_auth name key.name b''.mem ≡ true
      → HoldsKey s request pos name

-- What holds of the name of the user, where the request is granted.
abbrev pub Grants : (List ℕ → Type 0) → Judged → Type 0
Grants P (authorized d) = P d.line.packet.name
Grants P (replied d) = Unit
Grants P (rejected d) = Unit
Grants P (gone d) = Unit

pub buf_purge-len : (b c : Buf) → buf_purge b ≡ ok c → c.len ≡ 0
unfolding buf_purge
buf_purge-len b c h = ground (arith, h)

packetparser_end-same :
    (m : List ℕ) (len pos at : ℕ) → packetparser_end m len pos ≡ ok at → pos ≡ at
unfolding packetparser_end
packetparser_end-same m len pos at h = ground (arith, h)

-- The same, and the name is that of `user`.
abbrev pub Holder : Setting → Buf → ℕ → List ℕ → List ℕ → Type 0
Holder s request pos user name = (name ≡ user) × HoldsKey s request pos name

module _ (s : Setting) (request : Buf) (start : ℕ) (user : List ℕ) where
  ask_files-Grants :
      (d : Desk) (key : Key) (pk sig written : List ℕ) (n smlen : ℕ) (b2 b2' : Buf)
      → d.line.packet.name ≡ user
      → Carries s request start key pk sig n
      → key.sign_flagclient ≡ true
      → signed_input s key sig (cut_signature request n) b2 ≡ ok b2'
      → s.sign_open (take b2'.len b2'.mem) pk ≡ some (written, smlen)
      → Returns (ask_files s d key pk) (Grants (Holder s request start user))
  unfolding ask_files
  ask_files-Grants d key pk sig written n smlen b2 b2' is_user carries on signed verified =
      Returns-bind (Grants (Holder s request start user)) (buf_purge d.b) _ (λ b purged.
        Returns-bind (Grants (Holder s request start user)) (ed25519_putsignpkbase64 b pk) _
          (λ b' encoded.
            Returns-bind (Grants (Holder s request start user)) (buf_putnum8 b' 0) _
              (λ b'' ended. asked b b' b'' (buf_purge-len d.b b purged) encoded ended)))
    where
      asked :
          (b b' b'' : Buf)
          → b.len ≡ 0
          → ed25519_putsignpkbase64 b pk ≡ ok b'
          → buf_putnum8 b' 0 ≡ ok b''
          → Grants (Holder s request start user) (
              if s.subprocess_auth d.line.packet.name key.name b''.mem
              then authorized (record d { b = b'' })
              else rejected (record d { b = b'' }))
      asked b b' b'' blank encoded ended =
          elim (Bool-cases (s.subprocess_auth d.line.packet.name key.name b''.mem)) [
            | inl has ↦ rw has (
              is_user,
              holds_key key pk sig written n smlen b2 b2' b b' b'' carries on signed verified blank
                  encoded ended has,
            )
            | inr lacks ↦ rw lacks tt
          ]

  verify-Grants :
      (d : Desk) (key : Key) (pk sig : List ℕ) (n : ℕ)
      → d.line.packet.name ≡ user
      → d.b ≡ cut_signature request n
      → Carries s request start key pk sig n
      → key.sign_flagclient ≡ true
      → Returns (verify s d key pk sig) (Grants (Holder s request start user))
  unfolding verify
  verify-Grants d key pk sig n is_user same carries on =
      Returns-bind (Grants (Holder s request start user)) (signed_input s key sig d.b d.b2) _
        (λ b2 signed.
          Returns-bind (Grants (Holder s request start user)) (buf_purge d.b) _ (λ b purged.
            Returns-check (Grants (Holder s request start user)) (leb b.alloc b2.len) nomem _ (
              opened b b2 (ap (λ z. signed_input s key sig z d.b2) (sym same) ∙ signed)
                (s.sign_open (take b2.len b2.mem) pk) refl)))
    where
      opened :
          (b b2 : Buf)
          → signed_input s key sig (cut_signature request n) d.b2 ≡ ok b2
          → (o : Option (List ℕ × ℕ)) → s.sign_open (take b2.len b2.mem) pk ≡ o
          → Returns
              (elim o [
                | none ↦ die bug
                | some (written, smlen) ↦ do
                  b ←
                      buf_purge
                        (record b { mem = byte_copy b.mem 0 (length written) written; len = smlen })
                  ask_files s (record d { b = b; b2 = b2 }) key pk
              ])
              (Grants (Holder s request start user))
      opened b b2 signed none e = tt
      opened b b2 signed (some (written, smlen)) e =
          Returns-bind (Grants (Holder s request start user))
            (buf_purge (record b { mem = byte_copy b.mem 0 (length written) written; len = smlen }))
            _
            (λ c purged.
              ask_files-Grants (record d { b = c; b2 = b2 }) key pk sig written n smlen d.b2 b2
                is_user carries on signed e)

module _ (cipher : Cipher) (s : Setting) where
  offer_key-Grants :
      (P : List ℕ → Type 0) (d : Desk) (key : Key) (pk : List ℕ)
      → Returns (offer_key cipher d key pk) (Grants P)
  unfolding offer_key
  offer_key-Grants P d key pk = Returns-bind (Grants P) (buf_purge d.b) _ (λ b e.
      Returns-bind (Grants P) (buf_putnum8 b Msg.userauth_pk_ok) _ (λ b e.
        Returns-bind (Grants P) (buf_putstring b key.name) _ (λ b e.
          Returns-bind (Grants P) (ed25519_putsignpk b pk) _ (λ b e.
            Returns-bind (Grants P) (put_and_send cipher (record d { b = b })) _
              (λ r e. sent r.0 r.1)))))
    where
      sent : (t : Bool) (d : Desk) → Grants P (if t then replied d else gone d)
      sent true d = tt
      sent false d = tt

  use_key-Grants :
      (d : Desk) (key : Key) (flag start at_name name_length pos : ℕ)
      → packetparser_uint8 d.b.mem d.b.len start ≡ ok (flag, at_name)
      → parse_string d.b at_name ≡ ok (name_length, pos)
      → find_client_key s (drop (pos - name_length) d.b.mem) name_length ≡ some key
      → key.sign_flagclient ≡ true
      → Returns (use_key cipher s d key flag pos) (Grants (Holder s d.b start d.line.packet.name))
  unfolding use_key
  use_key-Grants d key flag start at_name name_length pos e0 e1 e2 on =
      Returns-bind (Grants (Holder s d.b start d.line.packet.name)) (parse_string d.b pos) _
        (λ (len, at) e3.
          Returns-bind (Grants (Holder s d.b start d.line.packet.name))
            (ed25519_parsesignpk (zeros 32) (drop (at - len) d.b.mem) len) _
            (λ (good, pk) e4. known len at good pk e3 e4))
    where
      known :
          (len at : ℕ) (good : Bool) (pk : List ℕ)
          → parse_string d.b pos ≡ ok (len, at)
          → ed25519_parsesignpk (zeros 32) (drop (at - len) d.b.mem) len ≡ ok (good, pk)
          → Returns
              (do
                die_if (not good) proto
                if flag == 0 then offer_key cipher d key pk else (do
                  (len, pos) ← parse_string d.b at
                  (good, sig) ← ed25519_parsesignature (zeros 64) (drop (pos - len) d.b.mem) len
                  die_if (not good) proto
                  pos ← packetparser_end d.b.mem d.b.len pos
                  verify s (record d { b = cut_signature d.b len }) key pk sig))
              (Grants (Holder s d.b start d.line.packet.name))
      known len at false pk e3 e4 = tt
      known len at true pk e3 e4 =
          Returns-if (Grants (Holder s d.b start d.line.packet.name)) (flag == 0) _ _
            (λ t. offer_key-Grants (Holder s d.b start d.line.packet.name) d key pk)
            (λ t.
              Returns-bind (Grants (Holder s d.b start d.line.packet.name)) (parse_string d.b at) _
                (λ (n, last) e5.
                  Returns-bind (Grants (Holder s d.b start d.line.packet.name))
                    (ed25519_parsesignature (zeros 64) (drop (last - n) d.b.mem) n) _
                    (λ (good, sig) e6. signed n last good sig e5 e6)))
        where
          signed :
              (n last : ℕ) (good : Bool) (sig : List ℕ)
              → parse_string d.b at ≡ ok (n, last)
              → ed25519_parsesignature (zeros 64) (drop (last - n) d.b.mem) n ≡ ok (good, sig)
              → Returns
                  (do
                    die_if (not good) proto
                    pos ← packetparser_end d.b.mem d.b.len last
                    verify s (record d { b = cut_signature d.b n }) key pk sig)
                  (Grants (Holder s d.b start d.line.packet.name))
          signed n last false sig e5 e6 = tt
          signed n last true sig e5 e6 =
              Returns-bind (Grants (Holder s d.b start d.line.packet.name))
                (packetparser_end d.b.mem d.b.len last) _
                (λ z e7.
                  verify-Grants s d.b start d.line.packet.name
                    (record d { b = cut_signature d.b n }) key pk sig n refl refl
                    (record {
                      flag = flag;
                      after_flag = at_name;
                      has_flag = e0;
                      name_length = name_length;
                      after_name = pos;
                      has_name = e1;
                      names = e2;
                      key_length = len;
                      after_key = at;
                      has_key = e3;
                      is_key = e4;
                      end = last;
                      has_signature = e5;
                      is_signature = e6;
                      ends = e7 ∙ ap ok (sym (packetparser_end-same d.b.mem d.b.len last z e7));
                    })
                    on)

  pub publickey-Grants :
      (d : Desk) (pos : ℕ)
      → Returns (publickey cipher s d pos) (Grants (Holder s d.b pos d.line.packet.name))
  unfolding publickey
  publickey-Grants d start =
      Returns-bind (Grants (Holder s d.b start d.line.packet.name))
        (packetparser_uint8 d.b.mem d.b.len start) _
        (λ (flag, at) e0.
          Returns-bind (Grants (Holder s d.b start d.line.packet.name)) (parse_string d.b at) _
            (λ (len, pos) e1.
              Returns-check (Grants (Holder s d.b start d.line.packet.name))
                (leb d.b.len pos || not (get_or d.b.mem pos 0 == 0)) proto _
                (by_key flag at len pos e0 e1 (find_client_key s (drop (pos - len) d.b.mem) len)
                  refl)))
    where
      enabled :
          (y : List ℕ) (n : ℕ) (key : Key)
          → find_client_key s y n ≡ some key
          → key.sign_flagclient ≡ true
      enabled y n key e =
          unfold find_client_key in
          find_name-enabled (λ k. k.sign_flagclient) (λ k. k.name) s.keys y n e

      by_key :
          (flag at len pos : ℕ)
          → packetparser_uint8 d.b.mem d.b.len start ≡ ok (flag, at)
          → parse_string d.b at ≡ ok (len, pos)
          → (o : Option Key) → find_client_key s (drop (pos - len) d.b.mem) len ≡ o
          → Returns
              (elim o [ none ↦ ok (rejected d) | some key ↦ use_key cipher s d key flag pos ])
              (Grants (Holder s d.b start d.line.packet.name))
      by_key flag at len pos e0 e1 none e2 = tt
      by_key flag at len pos e0 e1 (some key) e2 =
          use_key-Grants d key flag start at len pos e0 e1 e2
            (enabled (drop (pos - len) d.b.mem) len key e2)
