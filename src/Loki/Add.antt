-- ===== src/Loki/Add.antt =====
-- loki.c: loki_add, the hook of commands, and the thread that reads what is printed. The microseconds of the
-- clock at each line, the allocation, the name of the host and the default node are arguments.
pub mod Posted
pub mod Fits
use csh.Prelude.{
  ℕ, zero, suc, ◌+◌, ◌-◌, Bytes, codes, Option, none, some, List, [], ◌∷◌, ◌++◌, Bool, true, false,
  ◌&&◌, if◌then◌else◌, ◌==◌, ltb, length, take,
}
use csh.Apm.{strstr}
use csh.EnvCommands.Completer.{c_string}
use csh.Libc.{format_u}
use csh.Loki.Strip.{strip_str}

-- BUFFER_SIZE
abbrev pub buffer_size : ℕ
buffer_size = 1048576

-- the size of `formatted_log`
abbrev pub log_size : ℕ
log_size = buffer_size - 100

-- the texts between the NULs
abbrev pub push : ℕ → List Bytes → List Bytes
push c [] = (c ∷ []) ∷ []
push c (p ∷ ps) = (c ∷ p) ∷ ps

unfoldable pub pieces : Bytes → List Bytes
pieces [] = [] ∷ []
pieces (c ∷ out) = let rest = pieces out in if c == 0 then [] ∷ rest else push c rest

-- what a prompt looks like
abbrev pub is_prompt : Bytes → Bool
is_prompt p = strstr p (codes " @ ") && strstr p (codes " d. ")

-- `temp`
abbrev pub entry : ℕ → Bytes → Bytes
entry msec p =
    take 4047 (codes "[\"" ++ (format_u msec ++ (codes "000\", \"" ++ (p ++ codes "\"],"))))

-- The loop over the lines, at the i-th of `count`, with `formatted_log`; none for an access beyond
-- the text or beyond `formatted_log`. The result has the number of lines seen.
unfoldable pub add_lines : (ℕ → ℕ) → ℕ → ℕ → List Bytes → Bytes → Option (Bytes × ℕ)
add_lines clock count i [] formatted_log = none
add_lines clock count i ([] ∷ ps) formatted_log = some (formatted_log, i)
add_lines clock count i ((c ∷ p) ∷ ps) formatted_log =
    let log = formatted_log ++ (if is_prompt (c ∷ p) then [] else entry (clock i) (c ∷ p)) in
    let rest = add_lines clock count (i + 1) ps log in
    if ltb (length log) log_size then (if i + 1 == count then some (log, i + 1) else rest) else none

-- `json_format_str` around the values
abbrev pub json : Bytes → ℕ → Bool → Bytes → Bytes
json hostname node iscmd values =
    codes "{\"streams\": [{\"stream\": {\"instance\": \""
    ++ (hostname
        ++ (codes "\",\"node\": \""
            ++ (format_u node
                ++ (codes "\",\"type\": \""
                    ++ ((if iscmd then codes "cmd" else codes "stdout")
                        ++ (codes "\"},\"values\": [" ++ (values ++ codes "]}]}")))))))

-- CSP_HOSTNAME_LEN is the library's; the format is 87 bytes long with its NUL.
abbrev pub json_str_max : ℕ → ℕ → ℕ
json_str_max hostname_len format_len = format_len + hostname_len + 87 + 11

-- What `loki_add` does: nothing, a fault, an error for want of memory, or a message to the queue, with its
-- buffer and its length.
pub data Added : Type 0 where
  skipped : Added
  fault : Added
  no_memory : Added
  posted : Bytes → ℕ → Added

pub record Surroundings : Type 0 where
  pub clock : ℕ → ℕ
  pub allocates : Bool
  pub hostname : Bytes
  pub hostname_len : ℕ
  pub node : ℕ

-- `snprintf` to the buffer, and the length that it returns
abbrev pub post : Surroundings → Bool → Bytes → Added
post s iscmd formatted_log =
    let format_len = length formatted_log in
    let text = json s.hostname s.node iscmd (take (format_len - 1) formatted_log) in
    if s.allocates
    then posted (take (json_str_max s.hostname_len format_len - 1) text) (length text)
    else no_memory

-- behind the loop
unfoldable pub end_add : Surroundings → Bool → Option (Bytes × ℕ) → Added
end_add s iscmd none = fault
end_add s iscmd (some ([], i)) = skipped
end_add s iscmd (some (c ∷ log, i)) = if i == 0 then skipped else post s iscmd (c ∷ log)

unfoldable pub loki_add : Bool → Surroundings → Bytes → Bool → Added
loki_add loki_running s log iscmd =
    let (out, count) = strip_str log in
    if loki_running
    then (if ltb count 1
        then skipped
        else end_add s iscmd (add_lines s.clock count 0 (pieces out) []))
    else skipped

-- the hook of a command, if the copy of its line is allocated
unfoldable pub on_loki_slash_execute_hook : Bool → Surroundings → Bool → Bytes → Added
unfolding loki_add
on_loki_slash_execute_hook loki_running s allocates line =
    if loki_running
    then (if allocates then loki_add loki_running s (line ++ 10 ∷ []) true else skipped)
    else skipped

-- A round of `read_pipe` with the bytes read: what the terminal is given, and what is logged.
unfoldable pub read_pipe_round : Surroundings → Bytes → Bytes × Added
unfolding c_string loki_add
read_pipe_round s [] = ([], skipped)
read_pipe_round s (c ∷ chunk) = (c ∷ chunk, loki_add true s (c_string (c ∷ chunk)) false)
