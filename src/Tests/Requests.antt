-- ===== src/Tests/Requests.antt =====
-- Requests at concrete inputs.
use tinyssh.Common.{refl, [], ◌∷◌, true, none, some, Returns}
use tinyssh.Common.Int.{pos}
use tinyssh.Str.{literal}
use tinyssh.Buf.{Buf}
use tinyssh.Channel.{Channel}
use tinyssh.Channel.Session.{ForkResult}
use tinyssh.Session.Request.{Offer, request_dispatch}
use tinyssh.Session.Command.{OnlyCustom, request_custom_only}
use tinyssh.Tests.Data.{busy}

-- A system that could start any program, without the option `-e`.
abbrev pub offer : Offer
offer = record {
  customcmd = none;
  subsystems = [];
  fork = ForkResult.forked 30 (pos 5) (pos 6) (pos 8) none;
  room = 64;
  pty = none;
  sets_term = true;
}

-- The name of the request at 9, and from 14 on the command `ls`.
abbrev asks_exec : Buf
asks_exec = record {
  mem =
      98 ∷ 0 ∷ 0 ∷ 0 ∷ 1 ∷ 0 ∷ 0 ∷ 0 ∷ 4 ∷ 101 ∷ 120 ∷ 101 ∷ 99 ∷ 1 ∷ 0 ∷ 0 ∷ 0 ∷ 2 ∷ 108 ∷ 115 ∷ 0
      ∷ 0 ∷ 0 ∷ 0 ∷ [];
  len = 20;
  alloc = 24;
}

abbrev custom : Offer
custom = record offer { customcmd = some (literal "/bin/backup") }

abbrev idle : Channel
idle = record busy { len0 = 0; pid = pos 0 }

-- The name of the request at 9, and nothing behind it.
abbrev asks_shell : Buf
asks_shell = record {
  mem = 98 ∷ 0 ∷ 0 ∷ 0 ∷ 1 ∷ 0 ∷ 0 ∷ 0 ∷ 5 ∷ 115 ∷ 104 ∷ 101 ∷ 108 ∷ 108 ∷ 0 ∷ 0 ∷ [];
  len = 15;
  alloc = 16;
}

request_custom_only_example :
    Returns
      (request_dispatch custom idle asks_shell 9 5 15)
      (OnlyCustom (literal "/bin/backup") idle)
request_custom_only_example =
    request_custom_only custom idle asks_shell 9 5 15 (literal "/bin/backup") refl
