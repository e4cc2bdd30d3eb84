-- ===== src/Auth/Request.antt =====
-- packet_auth.c: a request up to the name of its method.
use tinyssh.Common.{
  ℕ, zero, suc, ◌+◌, ◌-◌, List, Bool, true, false, not, ◌==◌, leb, if◌then◌else◌, get_or, set, drop,
  Outcome, ok, proto, die_if, ◌>>=◌, ◌>>◌,
}
use tinyssh.Str.{literal, str_equaln}
use tinyssh.Buf.{Buf}
use tinyssh.Parser.{packetparser_uint32, packetparser_copy}
use tinyssh.Auth.{parse_string}

-- `for (i = 0; i < len; ++i) if (!packet.name[i]) bug_proto();`, with the rounds left.
unfoldable pub name_has_zero : List ℕ → ℕ → ℕ → Bool
name_has_zero name i zero = false
name_has_zero name i (suc left) =
    if get_or name i 0 == 0 then true else name_has_zero name (i + 1) left

-- The user's name, into `packet.name`, with the position behind it.
unfoldable pub parse_name : ℕ → Buf → ℕ → List ℕ → Outcome (List ℕ × ℕ)
unfolding name_has_zero
parse_name name_size b pos name = do
  (len, pos) ← packetparser_uint32 b.mem b.len pos
  die_if (leb name_size len) proto
  (name, pos) ← packetparser_copy b.mem b.len pos name len
  let name = set name len 0
  die_if (name_has_zero name 0 len) proto
  ok (name, pos)

-- The name, the length of the method's name, and the position behind it.
unfoldable pub parse_request : ℕ → Buf → ℕ → List ℕ → Outcome (List ℕ × ℕ × ℕ)
unfolding parse_name parse_string
parse_request name_size b pos name = do
  (name, pos) ← parse_name name_size b pos name
  (len, pos) ← parse_string b pos
  die_if (not (str_equaln (drop (pos - len) b.mem) len (literal "ssh-connection"))) proto
  (len, pos) ← parse_string b pos
  ok (name, len, pos)

-- Whether the method's name is this one.
abbrev pub is_method : Buf → ℕ → ℕ → List ℕ → Bool
is_method b len pos name = str_equaln (drop (pos - len) b.mem) len name
