-- ===== src/Subsystem.antt =====
-- channel_subsystem.c: the registered subsystems, `name=command` each, in the order of their options.
use tinyssh.Common.{
  ℕ, suc, ◌+◌, List, [], ◌∷◌, ◌++◌, Bool, true, false, ◌==◌, leb, if◌then◌else◌, length, get_or,
  drop, Option, none, some,
}
use tinyssh.Str.{str_len, str_start}

abbrev pub subsystem_max : ℕ
subsystem_max = 64

-- `for (separator = x; *separator && *separator != '='; ++separator) {}`, as an offset.
separator : List ℕ → ℕ
separator [] = 0
separator (c ∷ x) = if c == 0 then 0 else if c == b'=' then 0 else suc (separator x)

-- The list of subsystems and whether `x` was registered. A null `x` is left out.
unfoldable pub channel_subsystem_add : List (List ℕ) → List ℕ → List (List ℕ) × Bool
unfolding separator
channel_subsystem_add table x =
    let at = separator x in
    if get_or x 0 0 == 0
    then (table, false)
    else if at == 0
    then (table, false)
    else if get_or x at 0 == b'='
    then if get_or x (at + 1) 0 == 0
      then (table, false)
      else if leb subsystem_max (length table)
      then (table, false)
      else (table ++ (x ∷ []), true)
    else (table, false)

-- The command of the first subsystem with the name `x`.
unfoldable pub channel_subsystem_get : List (List ℕ) → List ℕ → Option (List ℕ)
channel_subsystem_get [] x = none
channel_subsystem_get (s ∷ table) x =
    let rest = channel_subsystem_get table x in
    if str_start s x
    then if get_or s (str_len x) 0 == b'=' then some (drop (str_len x + 1) s) else rest
    else rest
