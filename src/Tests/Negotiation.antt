-- ===== src/Tests/Negotiation.antt =====
-- packet_kex.c and the dispatch of main_tinysshd.c at concrete inputs.
use tinyssh.Common.{
  ℕ, ◌≡◌, ◌≤◌, ◌≢◌, refl, List, [], ◌∷◌, ◌++◌, Bool, true, false, All, arith, ok, some, none,
  length, ◌==◌, if◌then◌else◌,
}
use tinyssh.Bytes.{load_bigendian, purge}
use tinyssh.Channel.{channel_incrementremotewindow}
use tinyssh.Bytes.Copy.{zeros}
use tinyssh.Str.{str_len, str_equaln, equal_loop, literal}
use tinyssh.Str.Laws.{text}
use tinyssh.Buf.{Buf, buf_purge}
use tinyssh.Buf.Contents.{Appends}
use tinyssh.Parser as Parser
use tinyssh.Names.{stringparser, next_item, find_comma, scan, scan_loop, namelist_contains}
use tinyssh.Algorithms.{strict_server}
use tinyssh.Algorithms as Algorithms
use tinyssh.KeyExchange.{Exchange}
use tinyssh.KeyExchange.Send.{build_kexinit}
use tinyssh.KeyExchange.Parse.{
  packet_kex_parse, parse_list, parse_rest, parse_macs, parse_ciphers, parse_keys, after_kex,
  chose_kex,
}
use tinyssh.KeyExchange.Offered.{
  IsList, kex_names, key_names, cipher_names, kexinit, build_kexinit-Appends,
}
use tinyssh.KeyExchange.Agreed.{IsAgreed, packet_kex_parse-IsAgreed}
use tinyssh.Session.Dispatch.{Server, Next, go_on, dispatch, dispatch_type, read_packet}
use tinyssh.Session.Recv.{packet_channel_recv_windowadjust, channel_header}
use tinyssh.Tests.Data.{plain, clear, busy, short_kex, short_key, short_cipher, empty-IsValid}
use tinyssh.Tests.Data as Data
use tinyssh.Tests.Exchange.{second}
use tinyssh.Tests.Flow.{around}
use tinyssh.Tests.Requests.{offer}

-- A name of one byte.
abbrev short : List ℕ
short = 0 ∷ 0 ∷ 0 ∷ 1 ∷ 107 ∷ 0 ∷ []

-- A client's SSH_MSG_KEXINIT.
abbrev proposal : List ℕ
proposal =
    (20 ∷ zeros 16)
    ++ (0 ∷ 0 ∷ 0 ∷ 1 ∷ 107 ∷ [])
    ++ (0 ∷ 0 ∷ 0 ∷ 1 ∷ 107 ∷ [])
    ++ (0 ∷ 0 ∷ 0 ∷ 1 ∷ 107 ∷ [])
    ++ (0 ∷ 0 ∷ 0 ∷ 1 ∷ 107 ∷ [])
    ++ zeros 8
    ++ (0 ∷ 0 ∷ 0 ∷ 4 ∷ literal "none")
    ++ (0 ∷ 0 ∷ 0 ∷ 4 ∷ literal "none")
    ++ zeros 13

-- Before the first key exchange, with one packet received.
abbrev proposed : Exchange
proposed = record second {
  line = record (second.line) { packet = record (plain 80) { receivepacketid = 1 } };
  kexrecv = record { mem = proposal; len = length proposal; alloc = 100 };
  kex = none;
  key = none;
  cipher = none;
}

abbrev agreed : Exchange
agreed = record proposed { kex = some short_kex; key = some short_key; cipher = some short_cipher }

parsed : packet_kex_parse true proposed ≡ ok (true, agreed)
unfolding packet_kex_parse parse_list parse_rest parse_macs parse_ciphers parse_keys after_kex
    chose_kex Parser.packetparser_uint8 Parser.packetparser_uint32 Parser.packetparser_skip
    Parser.packetparser_end load_bigendian zeros stringparser next_item find_comma scan scan_loop
    namelist_contains str_len str_equaln equal_loop Algorithms.sshcrypto_kex_select
    Algorithms.sshcrypto_key_select Algorithms.sshcrypto_cipher_select
    Algorithms.sshcrypto_cipher_macselect Algorithms.strict_body Algorithms.kex_body
    Algorithms.take_kex Algorithms.kex_choice Algorithms.find_kex Algorithms.find_name
    Algorithms.key_body Algorithms.find_server_key Algorithms.take_found Algorithms.chosen
    Algorithms.cipher_body Algorithms.find_cipher
parsed = refl

packet_kex_parse-IsAgreed_example : IsAgreed true 1 agreed
packet_kex_parse-IsAgreed_example = packet_kex_parse-IsAgreed true proposed agreed parsed

-- Whether a name has no comma.
abbrev clean : List ℕ → Bool
clean [] = true
clean (c ∷ cs) = if c == 44 then false else clean cs

clean-All : (x : List ℕ) → clean x ≡ true → All (λ c. c ≢ 44) x
clean-All [] h = tt
clean-All (c ∷ cs) h = ((λ e. ground (arith, e, h)), clean-All cs (ground (arith, h)))

kex_names-IsList : IsList (kex_names (short_kex ∷ []))
unfolding str_len Algorithms.enabled_names
kex_names-IsList = record {
  plain = (
    (omega arith, clean-All (text (107 ∷ [])) refl),
    ((omega arith, clean-All (text strict_server) refl), tt),
  );
  small = (omega arith, (omega arith, tt));
  fits = omega arith;
}

key_names-IsList : IsList (key_names (short_key ∷ []))
unfolding str_len Algorithms.enabled_names
key_names-IsList = record {
  plain = ((omega arith, clean-All (text (107 ∷ [])) refl), tt);
  small = (omega arith, tt);
  fits = omega arith;
}

cipher_names-IsList : IsList (cipher_names (short_cipher ∷ []))
unfolding str_len Algorithms.enabled_names
cipher_names-IsList = record {
  plain = ((omega arith, clean-All (text (107 ∷ [])) refl), tt);
  small = (omega arith, tt);
  fits = omega arith;
}

sixteen : 16 ≤ length (zeros 16)
unfolding zeros
sixteen = omega arith

build_kexinit-Appends_example :
    (c : Buf) × (buf_purge (Data.empty 1024) ≡ ok c)
    × (c.len ≡ 0)
    × Appends c
        (kexinit
          (zeros 16)
          (kex_names (short_kex ∷ []))
          (key_names (short_key ∷ []))
          (cipher_names (short_cipher ∷ [])))
        (build_kexinit
          (short_kex ∷ [])
          (short_key ∷ [])
          (short_cipher ∷ [])
          (zeros 16)
          (Data.empty 1024))
build_kexinit-Appends_example =
    build_kexinit-Appends (short_kex ∷ []) (short_key ∷ []) (short_cipher ∷ []) (zeros 16)
      (Data.empty 1024) (empty-IsValid 1024 (omega arith) (omega arith)) sixteen kex_names-IsList
      key_names-IsList cipher_names-IsList

-- SSH_MSG_CHANNEL_WINDOW_ADJUST by 16.
abbrev adjusting : Server
adjusting = record {
  session = record { packet = plain 80; channel = busy };
  b1 = record { mem = 93 ∷ 0 ∷ 0 ∷ 0 ∷ 1 ∷ 0 ∷ 0 ∷ 0 ∷ 16 ∷ []; len = 9; alloc = 10 };
  b2 = Data.empty 8;
}

abbrev adjusted : Next
adjusted = go_on (record adjusting {
  session = record { packet = plain 80; channel = record busy { remotewindow = 516 } };
  b1 = record { mem = zeros 9; len = 0; alloc = 10 };
})

served : dispatch clear around offer true adjusting ≡ ok adjusted
unfolding dispatch dispatch_type read_packet packet_channel_recv_windowadjust channel_header
    Parser.packetparser_uint8 Parser.packetparser_uint32 Parser.packetparser_end load_bigendian
    channel_incrementremotewindow buf_purge purge zeros
served = refl
