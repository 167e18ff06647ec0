-- ===== src/ParamSlash/Queue.antt =====
-- param_slash.c: the command that is edited, `param_queue`, and what `get` and `cmd` do with the list of
-- parameters. The list, the match of names with wildcards, the values of texts and the room of the queue are
-- the param library's.
pub mod Kinds
use Prim.Native.Nat.{bit_and}
use csh.Prelude.{
  ℕ, ◌+◌, ◌-◌, ◌^◌, Bytes, codes, bytes_eq, Option, none, some, List, [], ◌∷◌, ◌++◌, Bool, true,
  false, ◌||◌, ◌&&◌, not, if◌then◌else◌, ◌==◌, ltb, leb, length, take,
}
use csh.Prelude.Int.{ℤ, pos, negsuc, eq_ℤ}
use csh.Libc.{Numeral, to_int, strtoul, scan_number, int_max}
use csh.Slash.{Status, success, einval, eio, argument}
use csh.ParamSlash.Offsets.{tokens, cut, int_of}

pub data QueueType : Type 0 where
  empty : QueueType
  get : QueueType
  set : QueueType

-- a parameter of the list
pub record Param : Type 0 where
  pub node : ℕ
  pub id : ℕ
  pub name : Bytes
  pub mask : ℕ

-- One entry: the parameter, the offset, and its value in a command that sets.
pub record Entry (V : Type 0) : Type 0 where
  pub id : ℕ
  pub offset : ℤ
  pub value : Option V

pub record Queue (V : Type 0) : Type 0 where
  pub type : QueueType
  pub name : Bytes
  pub version : ℤ
  pub entries : List (Entry V)

-- the status and the queue
pub record CmdRan (V : Type 0) : Type 0 where
  pub status : Status
  pub queue : Queue V

-- `a & b`, as a test
abbrev pub meets : ℕ → ℕ → Bool
meets a b = not (bit_and a b == 0)

abbrev pub no_mask : ℕ
no_mask = 2 ^ 32 - 1

-- by the number, or by the name if the argument is none
unfoldable pub param_parse_from_str :
    {P : Type 0} → (ℤ → Option P) → (Bytes → Option P) → Bytes → Option P
unfolding strtoul to_int
param_parse_from_str find_id find_name arg =
    let (n, rest) = strtoul 10 arg in
    if not (eq_ℤ (to_int (pos n)) (pos int_max)) && length rest == 0
    then find_id (to_int (pos n))
    else find_name arg

-- the name in front of a bracket, and the offset behind it
unfoldable pub param_slash_parse : Bytes → Bytes × ℤ
unfolding tokens cut
param_slash_parse arg = elim (tokens b'[' arg) [
  | first ∷ token ∷ more ↦
      (cut b'[' arg, elim (scan_number 10 token) [ none ↦ negsuc 0 | some n ↦ int_of n ])
  | other ↦ (cut b'[' arg, negsuc 0)
]

-- The filter of `cmd add` on a command that gets.
abbrev pub is_included : (Bytes → Bytes → Bool) → ℕ → ℕ → ℕ → Bytes → Param → Bool
is_included strmatch node include_mask exclude_mask name p =
    strmatch p.name name
    && p.node == node
    && not (meets p.mask exclude_mask)
    && (include_mask == no_mask || meets p.mask include_mask)

abbrev pub type_of : Bytes → Option QueueType
type_of word =
    if bytes_eq word (codes "get")
    then some get
    else if bytes_eq word (codes "set")
    then some set
    else none

-- The arguments of `cmd add`: the node, the masks and the force option; the list of parameters, the match
-- of names, the lookup of one parameter, its value of a text, the room of the queue, and PM_READONLY.
pub record AddArguments (V : Type 0) : Type 0 where
  pub node : ℕ
  pub include_mask : ℕ
  pub exclude_mask : ℕ
  pub force : Bool
  pub params : List Param
  pub strmatch : Bytes → Bytes → Bool
  pub find_param : Bytes → Option Param
  pub str_to_value : Param → Bytes → Option V
  pub has_room : List (Entry V) → Bool
  pub pm_readonly : ℕ

module _ {V : Type 0} where
  abbrev pub cmd_ran : Status → Queue V → CmdRan V
  cmd_ran status q = record { status = status; queue = q }

  -- The type is changed before the name is looked at. `room` bytes of the name are kept.
  unfoldable pub cmd_new : ℕ → ℤ → Option ℕ → List Bytes → Queue V → CmdRan V
  unfolding bytes_eq
  cmd_new room paramver none argv q = cmd_ran einval q
  cmd_new room paramver (some argi) argv q =
      if leb (length argv) (argi + 1)
      then cmd_ran einval q
      else elim (type_of (argument (argi + 1) argv)) [
        | none ↦ cmd_ran einval q
        | some type ↦
            if leb (length argv) (argi + 2)
            then cmd_ran einval (record q { type = type })
            else cmd_ran success (record {
              type = type;
              name = take room (argument (argi + 2) argv);
              version = paramver;
              entries = [];
            })
      ]

  unfoldable pub cmd_done : Queue V → CmdRan V
  cmd_done q = cmd_ran success (record q { type = empty })

  -- `param_queue_add`; a full queue is left as it is
  abbrev pub param_queue_add : (List (Entry V) → Bool) → ℕ → ℤ → Option V → Queue V → Queue V
  param_queue_add has_room id offset value q =
      if has_room q.entries
      then record q {
        entries = q.entries ++ record { id = id; offset = offset; value = value } ∷ [];
      }
      else q

  -- the loop over the list of parameters
  unfoldable pub add_included :
      (List (Entry V) → Bool) → (Param → Bool) → List Param → Queue V → Queue V
  add_included has_room included [] q = q
  add_included has_room included (p ∷ params) q =
      let added = param_queue_add has_room p.id (negsuc 0) none q in
      add_included has_room included params (if included p then added else q)

  -- a parameter that is found, with the arguments behind its name
  unfoldable pub add_value : AddArguments V → Param → ℤ → List Bytes → Queue V → CmdRan V
  add_value a p offset [] q = cmd_ran einval q
  add_value a p offset (arg ∷ args) q =
      if meets p.mask a.pm_readonly && not a.force
      then cmd_ran einval q
      else elim (a.str_to_value p arg) [
        | none ↦ cmd_ran einval q
        | some v ↦ cmd_ran success (param_queue_add a.has_room p.id offset (some v) q)
      ]

  unfoldable pub add_set : AddArguments V → Bytes → List Bytes → Queue V → CmdRan V
  unfolding add_value param_slash_parse
  add_set a name args q =
      let (found, offset) = param_slash_parse name in
      elim (a.find_param found) [ none ↦ cmd_ran einval q | some p ↦ add_value a p offset args q ]

  unfoldable pub cmd_add : AddArguments V → Option (Bytes × List Bytes) → Queue V → CmdRan V
  unfolding add_set add_included
  cmd_add a none q = cmd_ran einval q
  cmd_add a (some (name, args)) q = elim q.type [
    | empty ↦ cmd_ran success q
    | get ↦ cmd_ran success (
        add_included a.has_room (is_included a.strmatch a.node a.include_mask a.exclude_mask name)
          a.params q)
    | set ↦ add_set a name args q
  ]

-- What is sent: the entries as values to set, or as values to get.
pub data Sent (V : Type 0) : Type 0 where
  nothing : Sent V
  push : List (Entry V) → Sent V
  pull : List (Entry V) → Sent V

-- `cmd run`, by whether the node answers
unfoldable pub cmd_run : {V : Type 0} → Bool → Option ℕ → Queue V → Status × Sent V
cmd_run answers none q = (einval, nothing)
cmd_run answers (some argi) q = elim q.type [
  | empty ↦ (success, nothing)
  | get ↦ (if answers then success else eio, pull q.entries)
  | set ↦ (if answers then success else eio, push q.entries)
]

-- A command line that edits the queue.
pub data Edit (V : Type 0) : Type 0 where
  new : ℕ → ℤ → Option ℕ → List Bytes → Edit V
  add : AddArguments V → Option (Bytes × List Bytes) → Edit V
  leave : Edit V

unfoldable pub run_edits : {V : Type 0} → List (Edit V) → Queue V → Queue V
unfolding cmd_new cmd_add cmd_done
run_edits [] q = q
run_edits (new room paramver argi argv ∷ edits) q =
    run_edits edits (cmd_new room paramver argi argv q).queue
run_edits (add a name ∷ edits) q = run_edits edits (cmd_add a name q).queue
run_edits (leave ∷ edits) q = run_edits edits (cmd_done q).queue
