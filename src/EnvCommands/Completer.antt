-- ===== src/EnvCommands/Completer.antt =====
-- slash_env_var_cmds.c: the completion of a variable's name in the line that is being edited. The
-- line is the array `slash->buffer` with its NULs; a write past its end is not modelled.
pub mod Prefix
use csh.Prelude.{
  ℕ, zero, suc, ◌+◌, ◌-◌, Bytes, codes, bytes_eq, Option, none, some, List, [], ◌∷◌, ◌++◌, Bool,
  true, false, ◌&&◌, ◌||◌, if◌then◌else◌, ◌==◌, length, take, drop, replicate, get_or,
}
use Prim.Native.Nat.{min}
use csh.Environment.{Env, foreach_var}

-- `env_var_completer_t`, with the lines that are printed
pub record Completion : Type 0 where
  pub previous_match : Option Bytes
  pub matches : ℕ
  pub prev_match_length : ℕ
  pub printed : List Bytes

unfoldable pub prefix_length : Bytes → Bytes → ℕ
prefix_length (x ∷ s1) (y ∷ s2) = let len = prefix_length s1 s2 in if x == y then suc len else 0
prefix_length _ _ = 0

-- `strncmp(to_match, name, slash_min(cur_cmd_len, to_match_len)) == 0`
unfoldable pub is_match : Bytes → Bytes → Bool
is_match to_match name =
    let n = min (length name) (length to_match) in bytes_eq (take n to_match) (take n name)

-- the lines of the `switch`, for the new number of matches and the first match
abbrev pub match_lines : ℕ → Bytes → Bytes → List Bytes
match_lines matches previous name =
    if matches == 1
    then []
    else if matches == 2
    then (codes "\n" ++ (previous ++ codes "\n")) ∷ (name ++ codes "\n") ∷ []
    else (name ++ codes "\n") ∷ []

abbrev pub add_match : Bytes → Completion → Completion
add_match name ctx = elim ctx.previous_match [
  | some previous ↦ record {
    previous_match = some previous;
    matches = suc ctx.matches;
    prev_match_length = prefix_length name previous;
    printed = ctx.printed ++ match_lines (suc ctx.matches) previous name;
  }
  | none ↦ record {
    previous_match = some name;
    matches = suc ctx.matches;
    prev_match_length = length name;
    printed = ctx.printed ++ match_lines (suc ctx.matches) name name;
  }
]

unfoldable pub env_var_completer_csh_foreach_var_cb : Bytes → Bytes → Completion → Completion
env_var_completer_csh_foreach_var_cb to_match name ctx =
    if is_match to_match name
    then add_match name ctx
    else if ctx.matches == 2
    then record ctx { matches = 3 }
    else ctx

-- `csh_foreach_var` with that callback
unfoldable pub foreach_name : Bytes → List Bytes → Completion → Completion
unfolding env_var_completer_csh_foreach_var_cb
foreach_name to_match [] ctx = ctx
foreach_name to_match (name ∷ names) ctx =
    foreach_name to_match names (env_var_completer_csh_foreach_var_cb to_match name ctx)

abbrev pub start : Completion
start = record { previous_match = none; matches = 0; prev_match_length = 0; printed = [] }

-- the string that an array holds
unfoldable pub c_string : Bytes → Bytes
c_string [] = []
c_string (c ∷ cs) = if c == 0 then [] else c ∷ c_string cs

-- `buffer`, with its `length` and `cursor`
pub record Line : Type 0 where
  pub buffer : List ℕ
  pub length : ℕ
  pub cursor : ℕ

abbrev pub write_at : ℕ → List ℕ → List ℕ → List ℕ
write_at i xs buffer = take i buffer ++ (xs ++ drop (i + length xs) buffer)

-- `strncpy` of at most n bytes, padded with NULs
abbrev pub padded : ℕ → Bytes → List ℕ
padded n text = take n text ++ replicate (n - length text) 0

-- what the `switch` over `ctx.matches` leaves in the buffer: `suffix` follows a single match, and
-- `terminator` the common part of several
unfoldable pub complete_buffer : Bytes → List ℕ → ℕ → Completion → List ℕ → List ℕ
complete_buffer suffix terminator at ctx buffer = elim ctx.previous_match [
  | none ↦ buffer
  | some match ↦
      if ctx.matches == 1
      then write_at at (match ++ (suffix ++ 0 ∷ [])) buffer
      else write_at at (padded ctx.prev_match_length match ++ terminator) buffer
]

unfoldable pub complete : Bytes → List ℕ → ℕ → Completion → Line → Line
unfolding complete_buffer c_string
complete suffix terminator at ctx line =
    if ctx.matches == 0
    then line
    else (let buffer = complete_buffer suffix terminator at ctx line.buffer in
        let len = length (c_string buffer) in
        record { buffer = buffer; length = len; cursor = len })

-- `while(*var_end != '\0' && *var_end != ' ') var_end++`: the length of the word
unfoldable pub word_length : Bytes → ℕ
word_length [] = 0
word_length (c ∷ cs) = let n = word_length cs in if c == 32 then 0 else suc n

-- the word from an index of the token on, as it is handed to the callback: `strndup` takes one byte
-- more than the word, if there is one
abbrev pub to_match_at : ℕ → Bytes → Bytes
to_match_at i token = let word = drop i token in take (suc (word_length word)) word

-- `for (int i = length - 1; i >= 0; i--)`: the last blank
unfoldable pub last_space : Bytes → ℕ → Option ℕ
last_space token zero = none
last_space token (suc i) =
    let before = last_space token i in if get_or token i 0 == 32 then some i else before

-- the line, and the lines that are printed; `at` is where the token starts in the buffer
unfoldable pub env_var_completer : Env → ℕ → Line → Line × List Bytes
unfolding complete foreach_name last_space word_length c_string
env_var_completer env at line =
    let token = c_string (drop at line.buffer) in
    elim (last_space token (length token)) [
      | some i ↦
          let ctx = foreach_name (to_match_at (suc i) token) (foreach_var env) start in
          (complete (codes " ") [] (at + suc i) ctx line, ctx.printed)
      | none ↦
          let ctx = foreach_name (to_match_at 0 token) (foreach_var env) start in
          (
            elim token [ [] ↦ line | c ∷ cs ↦ complete (codes " ") (0 ∷ []) at ctx line ],
            ctx.printed,
          )
    ]

-- The loop from the end of the token: the index behind the last "$(", if no ')' follows it.
unfoldable pub open_reference : Bytes → ℕ → Bool → Option ℕ
open_reference token zero closing_bracket = none
open_reference token (suc i) closing_bracket =
    let c = get_or token i 0 in
    let before = open_reference token i (closing_bracket || c == b')') in
    if c == b')'
    then before
    else if c == b'$' && get_or token (suc i) 0 == b'('
    then (if closing_bracket then none else some (i + 2))
    else before

unfoldable pub env_var_ref_completer : Env → ℕ → Line → Line × List Bytes
unfolding complete foreach_name open_reference word_length c_string
env_var_ref_completer env at line =
    let token = c_string (drop at line.buffer) in
    elim (open_reference token (length token) false) [
      | none ↦ (line, [])
      | some i ↦
          let ctx = foreach_name (to_match_at i token) (foreach_var env) start in
          (complete (codes ") ") (0 ∷ []) (at + i) ctx line, ctx.printed)
    ]
