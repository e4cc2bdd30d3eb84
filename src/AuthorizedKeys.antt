-- ===== src/AuthorizedKeys.antt =====
-- subprocess_auth.c: the search for a key in a user's authorized_keys file. The child process around
-- it has the file open, and its path checked.
pub mod Match
pub mod Found
use tinyssh.Common.{
  ℕ, zero, suc, ◌+◌, List, [], ◌∷◌, Bool, true, false, ◌||◌, ◌&&◌, ◌==◌, if◌then◌else◌, get_or,
  drop, Option, none, some, length,
}
use tinyssh.Str.{str_len, str_start}
use tinyssh.Getln.{Answer, Code, line, closed, failed, getln_nul_as_newline}

-- `*x == ' '` and the other ends of a key.
unfoldable pub ends_key : ℕ → Bool
ends_key c = c == 32 || (c == 10 || (c == 13 || c == 0))

unfoldable pub findnameandkey : List ℕ → List ℕ → List ℕ → Bool
unfolding ends_key
findnameandkey keyname key x =
    let x1 = drop (str_len keyname) x in
    let x2 = drop 1 x1 in
    str_start x keyname
    && (get_or x1 0 0 == 32 && (str_start x2 key && ends_key (get_or (drop (str_len key) x2) 0 0)))

-- The loop over the lines into `buf` of `bufmax` bytes: whether it returns 1, with fuel.
unfoldable pub search_lines : List ℕ → List ℕ → List ℕ → ℕ → ℕ → List Answer → Option Bool
unfolding findnameandkey
search_lines keyname key buf bufmax zero answers = none
search_lines keyname key buf bufmax (suc left) answers =
    let (r, buf, answers) = getln_nul_as_newline buf bufmax answers in
    let found = findnameandkey keyname key buf in
    elim r [
      | failed ↦ some false
      | closed ↦ some found
      | line ↦
          let rest = search_lines keyname key buf bufmax left answers in
          if found then some true else rest
    ]

-- `subprocess_auth_authorizedkeys_` on the open file: each line takes an answer at least.
unfoldable pub subprocess_auth_authorizedkeys :
    List ℕ → List ℕ → List ℕ → ℕ → List Answer → Option Bool
unfolding search_lines
subprocess_auth_authorizedkeys keyname key buf bufmax answers =
    search_lines keyname key buf bufmax (suc (length answers)) answers
