-- ===== src/Signal.antt =====
-- ssh.c: the names of signals. The numbers are those of <signal.h>, one for each macro that ssh.c
-- tests; all of them are taken to be defined.
use tinyssh.Common.{ℕ, List, ◌==◌, if◌then◌else◌}
use tinyssh.Str.{literal}

pub record Signals : Type 0 where
  pub sigabrt : ℕ
  pub sigalrm : ℕ
  pub sigfpe : ℕ
  pub sighup : ℕ
  pub sigill : ℕ
  pub sigint : ℕ
  pub sigkill : ℕ
  pub sigpipe : ℕ
  pub sigquit : ℕ
  pub sigsegv : ℕ
  pub sigterm : ℕ
  pub sigusr1 : ℕ
  pub sigusr2 : ℕ

pub ssh_sigstr : Signals → ℕ → List ℕ
ssh_sigstr s i =
    if i == s.sigabrt
    then literal "ABRT"
    else if i == s.sigalrm
    then literal "ALRM"
    else if i == s.sigfpe
    then literal "FPE"
    else if i == s.sighup
    then literal "HUP"
    else if i == s.sigill
    then literal "ILL"
    else if i == s.sigint
    then literal "INT"
    else if i == s.sigkill
    then literal "KILL"
    else if i == s.sigpipe
    then literal "PIPE"
    else if i == s.sigquit
    then literal "QUIT"
    else if i == s.sigsegv
    then literal "SEGV"
    else if i == s.sigterm
    then literal "TERM"
    else if i == s.sigusr1
    then literal "USR1"
    else if i == s.sigusr2
    then literal "USR2"
    else literal "UNKNOWN"

-- There is no long name for SIGHUP.
pub ssh_sigstrlong : Signals → ℕ → List ℕ
ssh_sigstrlong s i =
    if i == s.sigabrt
    then literal "SIGABRT (abort)"
    else if i == s.sigalrm
    then literal "SIGALRM (alarm clock)"
    else if i == s.sigfpe
    then literal "SIGFPE (floating-point exception)"
    else if i == s.sigill
    then literal "SIGILL (illegal instruction)"
    else if i == s.sigint
    then literal "SIGINT (interrupt)"
    else if i == s.sigkill
    then literal "SIGKILL (kill, unblockable)"
    else if i == s.sigpipe
    then literal "SIGPIPE (broken pipe)"
    else if i == s.sigquit
    then literal "SIGQUIT (quit)"
    else if i == s.sigsegv
    then literal "SIGSEGV (segment violation)"
    else if i == s.sigterm
    then literal "SIGTERM (termination)"
    else if i == s.sigusr1
    then literal "SIGUSR1 (user defined signal 1)"
    else if i == s.sigusr2
    then literal "SIGUSR2 (user defined signal 2)"
    else literal "UNKNOWN SIGNAL"
