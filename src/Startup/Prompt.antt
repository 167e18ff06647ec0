-- ===== src/Startup/Prompt.antt =====
-- main.c: the prompt. `hostname_len` is CSP_HOSTNAME_LEN; the colours are left out of the text.
pub mod Label
use csh.Prelude.{
  ℕ, ◌+◌, ◌-◌, Bytes, codes, Option, none, some, List, [], ◌∷◌, ◌++◌, if◌then◌else◌, ◌==◌, ltb,
  length, take,
}
use csh.Prelude.Int.{ℤ, pos}
use csh.KnownHosts.{Host, known_hosts_get_name}
use csh.Libc.{format_d}

-- `nodenumbuf`, of seven bytes, which has room for five digits
abbrev pub node_number : ℕ → Bytes
node_number node = take 6 (b'@' ∷ format_d (pos node))

-- `node_idx`, where the name ends and the number starts: an index below 0 is 0
abbrev pub node_idx : ℕ → ℕ → ℕ → ℕ
node_idx hostname_len name number =
    if ltb hostname_len (name + number) then name - (name + number - hostname_len + 1) else name

-- the name with the number behind it; `strncat` takes what there is room for
unfoldable pub append_number : ℕ → ℕ → Bytes → Bytes
append_number hostname_len node name =
    let number = node_number node in
    let idx = node_idx hostname_len (length name) (length number) in
    let kept = take idx name in kept ++ take (hostname_len - length kept - 1) number

-- `nodebuf`
unfoldable pub node_label : ℕ → ℕ → List Host → Bytes
unfolding append_number known_hosts_get_name
node_label hostname_len node known =
    elim (known_hosts_get_name (pos node) (hostname_len - 1) known) [
      | none ↦ take (hostname_len - 1) (format_d (pos node))
      | some name ↦ append_number hostname_len node name
    ]

-- `param_queue.type`, and its name where it has one
pub data QueueName : Type 0 where
  empty : QueueName
  get : Bytes → QueueName
  set : Bytes → QueueName

-- What is printed without colours, in parts, with the number of columns of each.
pub record Part : Type 0 where
  pub text : Bytes
  pub columns : ℕ

abbrev pub node_parts : ℕ → ℕ → List Host → List Part
node_parts hostname_len node known =
    let label = node_label hostname_len node known in
    if node == 0 then [] else record { text = label; columns = 3 + length label } ∷ []

abbrev pub queue_parts : QueueName → List Part
queue_parts empty = []
queue_parts (get name) =
    record { text = 0xe2 ∷ 0x86 ∷ 0x93 ∷ 32 ∷ name; columns = 3 + (2 + length name) } ∷ []
queue_parts (set name) =
    record { text = 0xe2 ∷ 0x86 ∷ 0x91 ∷ 32 ∷ name; columns = 3 + (2 + length name) } ∷ []

abbrev columns_of : List Part → ℕ
columns_of [] = 0
columns_of (p ∷ parts) = p.columns + columns_of parts

-- The parts and `len`; a module's own prompt takes the place of both.
unfoldable pub slash_prompt :
    Option (List Part × ℕ) → ℕ → Bytes → ℕ → List Host → QueueName → List Part × ℕ
unfolding node_label
slash_prompt (some apm_prompt) hostname_len nodename node known queue = apm_prompt
slash_prompt none hostname_len nodename node known queue =
    let parts =
      record { text = nodename; columns = 1 + length nodename }
      ∷ (node_parts hostname_len node known ++ queue_parts queue) in
    (parts, columns_of parts + 3)
