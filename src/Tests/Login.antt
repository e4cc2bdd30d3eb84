-- ===== src/Tests/Login.antt =====
-- packet_auth.c at concrete inputs.
use tinyssh.Common.{
  ℕ, ◌≡◌, refl, List, [], ◌∷◌, ◌++◌, Bool, true, false, arith, ok, die, Outcome, none, take,
}
use tinyssh.Bytes.{
  load_bigendian, store_bigendian, byte_copy, copy_loop, byte_move, move_loop, purge,
}
use tinyssh.Bytes.Copy.{zeros}
use tinyssh.Str.{str_len, str_equaln, equal_loop, literal}
use tinyssh.Buf as Buf
use tinyssh.Buf.{Buf, limit}
use tinyssh.Buf.Contents.{Appends, contents}
use tinyssh.Buf.Puts.{ssh_string}
use tinyssh.Parser as Parser
use tinyssh.Packet.Plain as Plain
use tinyssh.Packet.Get.{packet_get, packet_get_any, get_loop, classify, get_round}
use tinyssh.Packet.Queue as Queue
use tinyssh.Line.{packet_getall, getall_loop, getall_rounds, getall_round, line_put, line_sendall}
use tinyssh.Auth.{Setting, Desk, accept_service, parse_string, put_and_send}
use tinyssh.Auth.Request.{parse_request, parse_name, name_has_zero}
use tinyssh.Auth.PublicKey.{signed_input}
use tinyssh.Auth.Loop.{packet_auth, auth_loop, auth_round, judge, none_method, set_name, succeed}
use tinyssh.Auth.Entry.{MayEnter, packet_auth-MayEnter}
use tinyssh.Auth.Signed.{signed_input-Appends}
use tinyssh.Tests.Data.{three, three-IsValid, plain, clear, short_key}
use tinyssh.Tests.Data as Data

-- The option `-x` is set, and the user is `u`.
abbrev setting : Setting
setting = record {
  keys = short_key ∷ [];
  sessionid = 1 ∷ 2 ∷ 3 ∷ 4 ∷ [];
  sessionid_len = 3;
  flagnoneauth = true;
  name_size = 9;
  is_own_user = λ name. str_equaln name 1 (117 ∷ []);
  sign_open = λ x pk. none;
  subprocess_auth = λ name key blob. false;
}

-- The request of the service, and the method "none" for the user `u`.
abbrev service : List ℕ
service = 5 ∷ 0 ∷ 0 ∷ 0 ∷ 12 ∷ literal "ssh-userauth"

abbrev login : List ℕ
login =
    50 ∷ 0 ∷ 0 ∷ 0 ∷ 1 ∷ 117 ∷ 0 ∷ 0 ∷ 0 ∷ 14 ∷ literal "ssh-connection"
    ++ (0 ∷ 0 ∷ 0 ∷ 4 ∷ literal "none")

abbrev arrived : Desk
arrived = record {
  line = record {
    packet = record (plain 100) {
      name = zeros 10;
      recvbuf = record {
        mem =
            zeros 64
            ++ (0 ∷ 0 ∷ 0 ∷ 28 ∷ 10 ∷ service)
            ++ zeros 10
            ++ (0 ∷ 0 ∷ 0 ∷ 44 ∷ 11 ∷ login)
            ++ zeros 11;
        len = 144;
        alloc = 144;
      };
    };
    reads = [];
    writes = true ∷ true ∷ [];
  };
  b = Data.empty 40;
  b2 = three;
}

abbrev desk_of : Outcome (Bool × Desk) → Desk
desk_of (ok (t, d)) = d
desk_of (die e) = arrived

let_in : packet_auth clear setting arrived ≡ ok (true, desk_of (packet_auth clear setting arrived))
unfolding packet_auth auth_loop auth_round judge none_method set_name succeed accept_service
    parse_string put_and_send parse_request parse_name name_has_zero packet_getall getall_loop
    getall_rounds getall_round line_put line_sendall packet_get get_loop get_round classify
    packet_get_any Plain.packet_get_plain Plain.get_whole Plain.packet_put Plain.packet_put_plain
    Plain.padding_length Plain.reset_send Queue.packet_sendall Buf.buf_purge Buf.is_bad Buf.buf_put
    Buf.buf_putnum8 Buf.buf_putnum32 Buf.buf_putzerobytes Parser.packetparser_uint8
    Parser.packetparser_uint32 Parser.packetparser_skip Parser.packetparser_end
    Parser.packetparser_copy zeros load_bigendian store_bigendian byte_copy copy_loop byte_move
    move_loop purge str_len str_equaln equal_loop
let_in = refl

packet_auth-MayEnter_example :
    (d : Desk) × (succeed clear d ≡ ok (true, desk_of (packet_auth clear setting arrived)))
    × MayEnter clear setting d.line.packet.name
packet_auth-MayEnter_example =
    packet_auth-MayEnter clear setting arrived (desk_of (packet_auth clear setting arrived)) let_in

signed_input-Appends_example :
    (c : Buf) × (Buf.buf_purge three ≡ ok c)
    × (c.len ≡ 0)
    × Appends c
        (take 2 (8 ∷ 9 ∷ []) ++ (ssh_string (take 3 (1 ∷ 2 ∷ 3 ∷ 4 ∷ [])) ++ contents three))
        (signed_input setting (record short_key { sign_bytes = 2 }) (8 ∷ 9 ∷ []) three three)
signed_input-Appends_example =
    signed_input-Appends setting (record short_key { sign_bytes = 2 }) (8 ∷ 9 ∷ []) three three
      three-IsValid three-IsValid (omega arith) (omega arith) (omega arith) (omega arith)
