-- ===== src/Session/Command.antt =====
-- Which programs the requests of packet_channel_request.c start.
use tinyssh.Common.{ℕ, ◌≡◌, ◌⊎◌, List, [], ◌∷◌, Bool, true, arith, Option, some, Returns}
use tinyssh.Common.Int.{ℤ}
use tinyssh.Buf.{Buf}
use tinyssh.Channel.{Channel, Call, closes, resizes, executes, purges_env, logs_out, channel_puteof}
use tinyssh.Channel.Session.{
  ForkResult, forked, fork_failed, name_terminal, start_child, channel_exec, channel_ptyresize,
  channel_openterminal,
}
use tinyssh.Session.Request.{
  Offer, exec_or_bug, request_shell, request_env, request_pty, request_window_change,
  request_dispatch,
}
use tinyssh.Session.Once.{request_custom}

-- The commands that have been started, the newest first; `none` is the login shell.
abbrev pub executed : List Call → List (Option (List ℕ))
executed [] = []
executed (closes fd ∷ calls) = executed calls
executed (resizes fd a b x y ∷ calls) = executed calls
executed (executes cmd ∷ calls) = cmd ∷ executed calls
executed (purges_env ∷ calls) = executed calls
executed (logs_out ∷ calls) = executed calls

start_child-executed :
    (c : Channel) (cmd : Option (List ℕ)) (child : ℕ) (fd0 fd1 fd2 : ℤ)
    → Returns (start_child c cmd child fd0 fd1 fd2) (λ d. executed d.calls ≡ cmd ∷ executed c.calls)
unfolding start_child channel_puteof channel_ptyresize
start_child-executed c cmd child fd0 fd1 fd2 = ground arith

name_terminal-calls :
    (c : Channel) (name : Option (List ℕ)) (room : ℕ)
    → Returns (name_terminal c name room) (λ d. d.calls ≡ c.calls)
unfolding name_terminal
name_terminal-calls c name room = ground arith

exec-executed :
    (c : Channel) (cmd : Option (List ℕ)) (fork : ForkResult) (room : ℕ)
    → Returns
        (channel_exec c cmd fork room)
        (λ r. r.0 ≡ true → executed (r.1).calls ≡ cmd ∷ executed c.calls)
unfolding channel_exec
exec-executed c cmd (forked child fd0 fd1 fd2 name) room = grind (
  arith,
  name_terminal-calls c name room,
  (λ (d : Channel). start_child-executed d cmd child fd0 fd1 fd2),
)
exec-executed c cmd fork_failed room = ground arith

-- The program of the option `-e`, or nothing, has been started since `c`.
abbrev pub OnlyCustom : List ℕ → Channel → Bool × Channel × Buf → Type 0
OnlyCustom program c r =
    (executed (r.1).calls ≡ executed c.calls)
    ⊎ (executed (r.1).calls ≡ some program ∷ executed c.calls)

module _ (o : Offer) (c : Channel) (b : Buf) (at : ℕ) (program : List ℕ)
    (set : o.customcmd ≡ some program) where
  shell-executed : Returns (request_shell o c b at) (OnlyCustom program c)
  unfolding request_shell exec_or_bug
  shell-executed = ground (arith, set, exec-executed c o.customcmd o.fork o.room)

  env-executed : Returns (request_env c b at) (OnlyCustom program c)
  unfolding request_env
  env-executed = ground arith

  pty-executed : Returns (request_pty o c b at) (OnlyCustom program c)
  unfolding request_pty channel_openterminal
  pty-executed = ground arith

  window_change-executed : Returns (request_window_change c b at) (OnlyCustom program c)
  unfolding request_window_change channel_ptyresize
  window_change-executed = ground arith

-- With a program set by the option `-e`, a request that does not end the process starts that program
-- or nothing, whatever its type and whatever command it names.
pub request_custom_only :
    (o : Offer) (c : Channel) (b : Buf) (cmd len at : ℕ) (program : List ℕ)
    → o.customcmd ≡ some program
    → Returns (request_dispatch o c b cmd len at) (OnlyCustom program c)
unfolding request_dispatch
request_custom_only o c b cmd len at program set = ground (
  arith,
  request_custom o c b at program set,
  shell-executed o c b at program set,
  env-executed o c b at program set,
  pty-executed o c b at program set,
  window_change-executed o c b at program set,
)
