-- ===== src/Environment.antt =====
-- src/environment.c: the shell's variables, a singly linked list of name and value pairs with the
-- newest entry at its head. `strdup` and `calloc` are taken to succeed.
pub mod Laws
pub mod Expand
mod Tests
use csh.Prelude.{ℕ, Bytes, bytes_eq, Option, none, some, List, [], ◌∷◌, if◌then◌else◌}

-- struct csh_env_entry
pub record EnvEntry : Type 0 where
  pub name : Bytes
  pub value : Bytes

abbrev pub Env : Type 0
Env = List EnvEntry

unfoldable pub get_env_entry : Bytes → Env → Option EnvEntry
get_env_entry name [] = none
get_env_entry name (cur ∷ rest) =
    if bytes_eq name cur.name then some cur else get_env_entry name rest

-- the names handed to the callback, in order
unfoldable pub foreach_var : Env → List Bytes
foreach_var [] = []
foreach_var (cur ∷ rest) = cur.name ∷ foreach_var rest

unfoldable pub getvar : Env → Bytes → Option Bytes
getvar env name = elim (get_env_entry name env) [ none ↦ none | some cur ↦ some cur.value ]

-- `existing->value = strdup(value)`, at the entry that `get_env_entry` finds
unfoldable pub set_value : Bytes → Bytes → Env → Env
set_value name value [] = []
set_value name value (cur ∷ rest) =
    if bytes_eq name cur.name
    then record cur { value = value } ∷ rest
    else cur ∷ set_value name value rest

unfoldable pub putvar : Bytes → Bytes → Env → Env
putvar name value env = elim (get_env_entry name env) [
  | some existing ↦ set_value name value env
  | none ↦ record { name = name; value = value } ∷ env
]

-- SLIST_REMOVE of the entry that `get_env_entry` finds
unfoldable pub remove_entry : Bytes → Env → Env
remove_entry name [] = []
remove_entry name (cur ∷ rest) =
    if bytes_eq name cur.name then rest else cur ∷ remove_entry name rest

-- the new list and the status that is returned
unfoldable pub delvar : Bytes → Env → Env × ℕ
delvar name env = elim (get_env_entry name env) [
  | some var ↦ (remove_entry name env, 0)
  | none ↦ (env, 1)
]

-- `while (!SLIST_EMPTY(&csh_env))`: each round unlinks the first entry
unfoldable pub clearenv : Env → Env
clearenv [] = []
clearenv (var ∷ rest) = clearenv rest
