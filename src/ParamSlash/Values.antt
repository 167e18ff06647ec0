-- ===== src/ParamSlash/Values.antt =====
-- param_slash.c: the values of a `set` command, and the command. The value of a text is the param library's.
pub mod Brackets
pub mod Whole
pub mod Sets
use csh.Prelude.{
  ℕ, zero, suc, ◌+◌, ◌-◌, Bytes, Option, none, some, List, [], ◌∷◌, ◌++◌, Bool, true, false, ◌||◌,
  ◌&&◌, not, if◌then◌else◌, ◌==◌, ltb, leb, length, take, get_elem?, map, drop,
}
use csh.Prelude.Int.{ℤ, negsuc, eq_ℤ}
use csh.Slash.{Status, success, einval, eio, argument}
use csh.ParamSlash.Offsets.{
  has_byte, last_is, param_get_offset_string, param_offsets_parse_from_str,
}

abbrev pub is_member : ℤ → List ℤ → Bool
is_member x [] = false
is_member x (y ∷ ys) = eq_ℤ x y || is_member x ys

unfoldable pub has_duplicates : List ℤ → Bool
has_duplicates [] = false
has_duplicates (x ∷ xs) = is_member x xs || has_duplicates xs

-- the count of the arguments that are left, which ends at 100
abbrev pub amount_of_values : List Bytes → ℕ
amount_of_values args = if ltb 99 (length args) then 100 else length args

-- with the expected amounts 1 and `expected`
unfoldable pub parse_slash_values : List Bytes → ℕ → Bool
parse_slash_values args expected = amount_of_values args == 1 || amount_of_values args == expected

-- One entry of the queue: the offset and the value.
abbrev pub Entries : Type 0 → Type 0
Entries V = List (ℤ × V)

-- How the loop over the values ends: an error, an access out of bounds, or the queue.
pub data Filled (V : Type 0) : Type 0 where
  failed : Filled V
  out_of_bounds : Filled V
  filled : Entries V → Filled V

-- `arg++`, and the byte at the end that is cut off
abbrev pub strip_last : Bytes → Bytes
strip_last s = take (length s - 1) s

-- What the brackets of an argument say: the value's text, and `should_break == 0`.
pub record Bracketed : Type 0 where
  pub text : Bytes
  pub closes : Bool

unfoldable pub close_bracket : Bytes → Bracketed
close_bracket s =
    if ltb 0 (length s) && last_is b']' s
    then record { text = strip_last s; closes = true }
    else record { text = s; closes = false }

module _ {V : Type 0} (str_to_value : Bytes → Option V) (has_room : Entries V → Bool) where
  -- a full queue is left as it is
  abbrev pub queue_add : Entries V → ℤ → V → Entries V
  queue_add queue offset v = if has_room queue then queue ++ (offset, v) ∷ [] else queue

  -- the single value, at every offset
  unfoldable pub add_single : List ℤ → V → Entries V → Entries V
  add_single [] v queue = queue
  add_single (offset ∷ offsets) v queue = add_single offsets v (queue_add queue offset v)

  -- from `iterations++` on
  abbrev pub end_round : List ℤ → ℕ → Bool → Entries V → (Entries V → Filled V) → Filled V
  end_round offsets iterations true queue continue =
      if suc iterations == length offsets then filled queue else failed
  end_round offsets iterations false queue continue = continue queue

  -- a value at `offset_array[iterations]`, and the rest of the round
  abbrev pub add_value : List ℤ → ℕ → Bool → V → Entries V → (Entries V → Filled V) → Filled V
  add_value offsets iterations closes v queue continue =
      if ltb (length offsets) iterations then failed else elim (get_elem? offsets iterations) [
        | none ↦ out_of_bounds
        | some offset ↦
            if not (has_room queue)
            then failed
            else end_round offsets iterations closes (queue_add queue offset v) continue
      ]

  -- The `for` loop, on the arguments that are left. `drop 1` is `arg++`; an empty argument is read in front
  -- of its first byte.
  unfoldable pub value_loop : List ℤ → List Bytes → ℕ → Entries V → Filled V
  unfolding close_bracket add_single
  value_loop offsets [] iterations queue = failed
  value_loop offsets (arg ∷ args) iterations queue =
      let continue = λ (q : Entries V). value_loop offsets args (suc iterations) q in
      let opens = has_byte b'[' arg in
      let b = close_bracket (if opens then drop 1 arg else arg) in
      let single = not opens && not b.closes && iterations == 0 in
      if opens && length offsets == 1
      then failed
      else if length arg == 0
      then out_of_bounds
      else elim (str_to_value b.text) [
        | none ↦ failed
        | some v ↦
            if single
            then filled (add_single offsets v queue)
            else add_value offsets iterations b.closes v queue continue
      ]

-- The parameter that the command finds: its node, whether its type is data or string, its size, its mask.
pub record Param : Type 0 where
  pub node : ℕ
  pub is_text : Bool
  pub array_size : ℕ
  pub is_readonly : Bool

-- What the command has done: an error, a fault, entries applied to a local parameter, or entries
-- pushed to a node and the status behind that.
pub data Effect (V : Type 0) : Type 0 where
  error : Status → Effect V
  fault : Effect V
  applied : Entries V → Effect V
  pushed : Status → ℕ → Entries V → Effect V

-- the effect, and whether the time stamp of the parameter has been reset
pub record SetRan (V : Type 0) : Type 0 where
  pub effect : Effect V
  pub is_reset : Bool

-- How the offsets are read: an error, a fault, or the offsets.
pub data Targets : Type 0 where
  refused : Targets
  freed_twice : Targets
  targets : List ℤ → Targets

-- `realloc` to no bytes frees the array and returns NULL, and the array is freed again
unfoldable pub check_offsets : Option (List ℤ) → Targets
unfolding has_duplicates
check_offsets none = refused
check_offsets (some []) = freed_twice
check_offsets (some (x ∷ xs)) = if has_duplicates (x ∷ xs) then refused else targets (x ∷ xs)

unfoldable pub set_targets : Param → Option Bytes → Targets
unfolding check_offsets param_offsets_parse_from_str
set_targets p token =
    if p.is_text
    then targets (negsuc 0 ∷ [])
    else check_offsets (param_offsets_parse_from_str p.array_size token)

-- The command's arguments: what the option parser stored, the list of parameters, the value of a text by the
-- parameter, the room of the queue, and whether a push is answered.
pub record SetArguments (V : Type 0) : Type 0 where
  pub node : ℕ
  pub server : ℕ
  pub force : Bool
  pub find_param : ℕ → Bytes → Option Param
  pub str_to_value : Param → Bytes → Option V
  pub has_room : Entries V → Bool
  pub answers : Bool

module _ {V : Type 0} (a : SetArguments V) where
  abbrev pub send : Param → Filled V → Effect V
  send p failed = error einval
  send p out_of_bounds = fault
  send p (filled queue) =
      if p.node == 0
      then applied queue
      else pushed (if a.answers then success else eio) (if ltb 0 a.server then a.server else a.node)
          queue

  -- behind the offsets; `args` are the values
  unfoldable pub set_values : Param → List Bytes → List ℤ → Effect V
  unfolding value_loop parse_slash_values
  set_values p args offsets =
      if (p.array_size == 1 && ltb 1 (length offsets))
        || (p.is_readonly && not a.force)
        || length args == 0
        || not (parse_slash_values args (length offsets))
      then error einval
      else send p (value_loop (a.str_to_value p) a.has_room offsets args 0 [])

  abbrev pub set_at : Param → List Bytes → Targets → Effect V
  set_at p args refused = error einval
  set_at p args freed_twice = fault
  set_at p args (targets offsets) = set_values p args offsets

  unfoldable pub set_param : Bytes × Option Bytes → List Bytes → SetRan V
  unfolding set_targets set_values
  set_param (name, token) args = elim (a.find_param a.node name) [
    | none ↦ record { effect = error einval; is_reset = false }
    | some p ↦ record { effect = set_at p args (set_targets p token); is_reset = true }
  ]

  unfoldable pub cmd_set : Option ℕ → List Bytes → SetRan V
  unfolding set_param param_get_offset_string
  cmd_set none argv = record { effect = error einval; is_reset = false }
  cmd_set (some argi) argv =
      if leb (length argv) (argi + 1)
      then record { effect = error einval; is_reset = false }
      else elim (param_get_offset_string (argument (argi + 1) argv)) [
        | none ↦ record { effect = error einval; is_reset = false }
        | some found ↦ set_param found (drop (argi + 2) argv)
      ]
