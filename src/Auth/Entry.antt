-- ===== src/Auth/Entry.antt =====
-- That packet_auth.c lets nobody else in: the loop of the requests.
use tinyssh.Common.{
  List, ap, sym, ◌∙◌, subst, arith, Returns_map, zero, suc, ◌≡◌, refl, Returns-if, Bool, true,
  false, not, ◌&&◌, if◌then◌else◌, ok, ◌>>=◌, Returns, Returns-bind, Returns_ok, Returns_intro,
  ◌==◌, ℕ, set,
}
use tinyssh.Str.{literal}
use tinyssh.Parser.{packetparser_uint8, packetparser_end}
use tinyssh.Msg
use tinyssh.Line.{Line, packet_getall}
use tinyssh.Buf.{Buf}
use tinyssh.Auth.Request.{parse_request, is_method}
use tinyssh.Buf.{buf_purge}
use tinyssh.Packet.{Cipher}
use tinyssh.Auth.{Setting, Desk, accept_service, unexpected}
use tinyssh.Auth.PublicKey.{publickey, Judged, authorized, replied, rejected, gone}
use tinyssh.Auth.Loop.{
  none_method, judge, auth_round, auth_loop, reject, succeed, packet_auth, set_name, auth_tries,
}
use tinyssh.Auth.Granted.{HoldsKey, Grants, buf_purge-len, publickey-Grants}

-- The client has sent a request in the name of `name`, for the method whose name has `len` bytes and
-- ends at `pos`.
pub record Asked (cipher : Cipher) (s : Setting) (request : Buf) (name : List ℕ) (len pos : ℕ)
    : Type 0 where
  pub line : Line
  pub blank : Buf
  pub is_blank : blank.len ≡ 0
  pub line' : Line
  pub arrived : packet_getall cipher line blank 0 ≡ ok (true, request, line')
  pub start : ℕ
  pub is_request : packetparser_uint8 request.mem request.len 0 ≡ ok (Msg.userauth_request, start)
  pub parsed : parse_request s.name_size request start line'.packet.name ≡ ok (name, len, pos)

-- Why the client may come in as `name`, by the method of its request: the option allows it to the
-- user of the process; or a key.
pub data MayUse (s : Setting) (request : Buf) (len pos : ℕ) (name : List ℕ) : Type 0 where
  own_user :
      is_method request len pos (literal "none") ≡ true
      → s.flagnoneauth ≡ true
      → s.is_own_user name ≡ true
      → MayUse s request len pos name
  key_holder :
      is_method request len pos (literal "publickey") ≡ true
      → HoldsKey s request pos name
      → MayUse s request len pos name

pub data MayEnter (cipher : Cipher) (s : Setting) (name : List ℕ) : Type 0 where
  may_enter :
      (request : Buf) (len pos : ℕ)
      → Asked cipher s request name len pos
      → MayUse s request len pos name
      → MayEnter cipher s name

Grants-map :
    {P Q : List ℕ → Type 0}
    → ((name : List ℕ) → P name → Q name)
    → (r : Judged) → Grants P r
    → Grants Q r
Grants-map f (authorized d) h = f d.line.packet.name h
Grants-map f (replied d) h = tt
Grants-map f (rejected d) h = tt
Grants-map f (gone d) h = tt

both : (a b : Bool) → (a && b) ≡ true → (a ≡ true) × (b ≡ true)
both true b e = (refl, e)
both false b e = absurd (cc)

is_type : (ch : ℕ) → not (ch == Msg.userauth_request) ≡ false → ch ≡ Msg.userauth_request
is_type ch t = ground (arith, t)

module _ (cipher : Cipher) (s : Setting) where
  -- The request on the desk may be granted, and to the user on the desk.
  abbrev Allowed : Desk → ℕ → ℕ → List ℕ → Type 0
  Allowed d len pos name = (name ≡ d.line.packet.name) × MayUse s d.b len pos name

  none_method-Grants :
      (d : Desk) (len pos : ℕ)
      → (is_method d.b len pos (literal "none") && s.flagnoneauth) ≡ true
      → Returns (none_method s d pos) (Grants (Allowed d len pos))
  unfolding none_method
  none_method-Grants d len pos allowed =
      Returns-bind (Grants (Allowed d len pos)) (packetparser_end d.b.mem d.b.len pos) _
        (λ pos e. own (s.is_own_user d.line.packet.name) refl)
    where
      own :
          (t : Bool)
          → s.is_own_user d.line.packet.name ≡ t
          → Grants (Allowed d len pos) (
              if t
              then authorized (record d { b = record (d.b) { mem = set d.b.mem 0 0; len = 0 } })
              else rejected d)
      own true e =
          let (named, option) =
            both (is_method d.b len pos (literal "none")) s.flagnoneauth allowed in
          (refl, own_user named option e)
      own false e = tt

  judge-Grants :
      (d : Desk) (len pos : ℕ) → Returns (judge cipher s d len pos) (Grants (Allowed d len pos))
  unfolding judge
  judge-Grants d len pos =
      Returns-if (Grants (Allowed d len pos))
        (is_method d.b len pos (literal "none") && s.flagnoneauth) _ _
        (λ t. none_method-Grants d len pos t)
        (λ t.
          Returns-if (Grants (Allowed d len pos)) (is_method d.b len pos (literal "publickey")) _ _
            (λ t.
              Returns_map (Grants-map (λ name (same, k). (same, key_holder t k)))
                (publickey cipher s d pos) (publickey-Grants cipher s d pos))
            (λ t. tt))

  auth_round-Grants : (d : Desk) → Returns (auth_round cipher s d) (Grants (MayEnter cipher s))
  unfolding auth_round
  auth_round-Grants d = Returns-bind (Grants (MayEnter cipher s)) (buf_purge d.b) _ (λ blank e0.
      Returns-bind (Grants (MayEnter cipher s)) (packet_getall cipher d.line blank 0) _
        (λ (more, b, l) e1. answered blank (buf_purge-len d.b blank e0) more b l e1))
    where
      served :
          (blank b : Buf) (l : Line) (ch start : ℕ)
          → blank.len ≡ 0
          → packet_getall cipher d.line blank 0 ≡ ok (true, b, l)
          → packetparser_uint8 b.mem b.len 0 ≡ ok (ch, start)
          → ch ≡ Msg.userauth_request
          → (name : List ℕ) (len pos : ℕ)
          → parse_request s.name_size b start l.packet.name ≡ ok (name, len, pos)
          → Returns
              (judge cipher s (set_name (record d { line = l; b = b }) name) len pos)
              (Grants (MayEnter cipher s))
      served blank b l ch start empty e1 e2 is name len pos e3 =
          Returns_map
            (Grants-map {P = Allowed (named l b name) len pos} {Q = MayEnter cipher s}
              (λ other (same, k). subst (MayEnter cipher s) (sym same) (
                may_enter b len pos
                  (record {
                    line = d.line;
                    blank = blank;
                    is_blank = empty;
                    line' = l;
                    arrived = e1;
                    start = start;
                    is_request = e2 ∙ ap (λ z. ok (z, start)) is;
                    parsed = e3;
                  })
                  (subst (MayUse s b len pos) same k))))
            _ (judge-Grants (named l b name) len pos)
        where
          named : Line → Buf → List ℕ → Desk
          named l b name = record d {
            line = record l { packet = record (l.packet) { name = name } };
            b = b;
          }

      answered :
          (blank : Buf)
          → blank.len ≡ 0
          → (more : Bool) (b : Buf) (l : Line)
          → packet_getall cipher d.line blank 0 ≡ ok (more, b, l)
          → Returns
              (if not more then ok (gone (record d { line = l; b = b })) else (do
                (ch, pos) ← packetparser_uint8 b.mem b.len 0
                if not (ch == Msg.userauth_request)
                    then (do d ← unexpected cipher (record d { line = l; b = b }) ch; ok (gone d))
                    else (do
                      (name, len, pos) ← parse_request s.name_size b pos l.packet.name
                      judge cipher s (set_name (record d { line = l; b = b }) name) len pos)))
              (Grants (MayEnter cipher s))
      answered blank empty false b l e1 = tt
      answered blank empty true b l e1 =
          Returns-bind (Grants (MayEnter cipher s)) (packetparser_uint8 b.mem b.len 0) _
            (λ (ch, start) e2.
              Returns-if (Grants (MayEnter cipher s)) (not (ch == Msg.userauth_request)) _ _
                (λ t.
                  Returns-bind (Grants (MayEnter cipher s))
                    (unexpected cipher (record d { line = l; b = b }) ch) _ (λ d e. tt))
                (λ t.
                  Returns-bind (Grants (MayEnter cipher s))
                    (parse_request s.name_size b start l.packet.name) _
                    (λ (name, len, pos) e3.
                      served blank b l ch start empty e1 e2 (is_type ch t) name len pos e3)))

  -- Where the loop answers 1.
  abbrev LetIn : Bool × Desk → Type 0
  LetIn (true, e) =
      (d : Desk) × (succeed cipher d ≡ ok (true, e)) × MayEnter cipher s d.line.packet.name
  LetIn (false, e) = Unit

  auth_loop-LetIn : (left : ℕ) (d : Desk) → Returns (auth_loop cipher s left d) LetIn
  unfolding auth_loop
  auth_loop-LetIn zero d = tt
  auth_loop-LetIn (suc left) d = Returns-bind LetIn (auth_round cipher s d) _ (λ judged e.
      served judged
        (Returns_ok (Grants (MayEnter cipher s)) (auth_round cipher s d) (auth_round-Grants d) e)
        (λ d. auth_loop-LetIn left d))
    where
      served :
          (judged : Judged)
          → Grants (MayEnter cipher s) judged
          → ((d : Desk) → Returns (auth_loop cipher s left d) LetIn)
          → Returns
              (elim judged [
                | authorized d ↦ succeed cipher d
                | replied d ↦ auth_loop cipher s left d
                | rejected d ↦ do
                  (sent, d) ← reject cipher d
                  elim sent [ true ↦ auth_loop cipher s left d | false ↦ ok (false, d) ]
                | gone d ↦ ok (false, d)
              ])
              LetIn
      served (authorized d) may later =
          Returns_intro LetIn (succeed cipher d) (λ (t, e) q. let_in t e q)
        where
          let_in : (t : Bool) (e : Desk) → succeed cipher d ≡ ok (t, e) → LetIn (t, e)
          let_in true e q = (d, q, may)
          let_in false e q = tt
      served (replied d) may later = later d
      served (rejected d) may later = Returns-bind LetIn (reject cipher d) _ (λ (t, d) e. again t d)
        where
          again :
              (t : Bool) (d : Desk)
              → Returns (elim t [ true ↦ auth_loop cipher s left d | false ↦ ok (false, d) ]) LetIn
          again true d = later d
          again false d = tt
      served (gone d) may later = tt

  -- Where `packet_auth` answers 1, the last thing it did is to send SSH_MSG_USERAUTH_SUCCESS. The
  -- client's request before it, a packet that `packet_getall` gave, was parsed to the name under which
  -- the client is let in, and was of one of two kinds: of the method "none", which is allowed, for the
  -- user of the process; or of the method "publickey", with a key of an enabled type that verifies
  -- the signature in the request over the session id and the rest of the request, and that
  -- `subprocess_auth`, given this name and nothing but the key in base64 and a NUL, accepts.
  pub packet_auth-MayEnter :
      (d e : Desk)
      → packet_auth cipher s d ≡ ok (true, e)
      → (d' : Desk) × (succeed cipher d' ≡ ok (true, e)) × MayEnter cipher s d'.line.packet.name
  unfolding packet_auth
  packet_auth-MayEnter d e h = Returns_ok LetIn (packet_auth cipher s d) started h
    where
      started : Returns (packet_auth cipher s d) LetIn
      started = Returns-bind LetIn (accept_service cipher d) _ (λ (more, d) e.
          Returns-if LetIn (not more) _ _ (λ t. tt) (λ t. auth_loop-LetIn auth_tries d))
