-- ===== src/KnownHosts.antt =====
-- src/known_hosts.c: node numbers and host names, a singly linked list with the newest host at its
-- head. Adding a host also sets a variable of the shell, so the variables are part of the state.
pub mod Laws
pub mod Resolve
mod Tests
use csh.Prelude.{
  ℕ, ◌-◌, ◌%◌, ◌^◌, Bytes, codes, bytes_eq, Option, none, some, List, [], ◌∷◌, ◌++◌, Bool, true,
  false, ◌&&◌, not, if◌then◌else◌, ltb, leb, take, ◌>>=◌,
}
use csh.Prelude.Int.{ℤ, pos, negsuc, eq_ℤ, ltb_ℤ}
use csh.Libc.{strtol, format_d, int_max, to_int}
use csh.Environment.{Env, putvar}

abbrev pub hostname_maxlen : ℕ
hostname_maxlen = 50

-- struct host_s
pub record Host : Type 0 where
  pub node : ℤ
  pub name : Bytes

-- `known_hosts`, `known_host_storage_size`, and the variables of environment.c
pub record Hosts : Type 0 where
  pub known : List Host
  pub storage_size : ℕ
  pub env : Env

-- `"node add -n %d %s\n"`
unfoldable pub save_line : Host → Bytes
save_line host =
    codes "node add -n " ++ (format_d host.node ++ (codes " " ++ (host.name ++ codes "\n")))

-- The lines that are written; `none` is a failed assertion.
unfoldable pub node_save : List Host → Option (List Bytes)
node_save [] = some []
node_save (host ∷ rest) =
    let lines = node_save rest in
    if eq_ℤ host.node (pos 0) then none else (lines >>= λ ls. some (save_line host ∷ ls))

unfoldable pub known_host_set_storage_size : ℕ → Hosts → Hosts
known_host_set_storage_size new_size s = record s { storage_size = new_size }

unfoldable pub known_host_get_storage_size : Hosts → ℕ
known_host_get_storage_size s = s.storage_size

-- Every host of that number is unlinked. An unlinked host is not freed, and the loop goes on from
-- its `next`.
unfoldable pub known_hosts_del : ℤ → List Host → List Host
known_hosts_del host [] = []
known_hosts_del host (element ∷ rest) =
    if eq_ℤ element.node host
    then known_hosts_del host rest
    else element ∷ known_hosts_del host rest

-- the first host with that number
unfoldable pub find_host : ℤ → List Host → Option Host
find_host addr [] = none
find_host addr (host ∷ rest) = if eq_ℤ host.node addr then some host else find_host addr rest

-- from the `calloc` on; `alloc` says whether it succeeds
unfoldable pub insert_host : Bool → ℤ → Bytes → Hosts → Hosts × Option Host
insert_host alloc addr new_name s =
    if alloc
    then (let host : Host = record { node = addr; name = take (hostname_maxlen - 1) new_name } in
        (
          record s { known = host ∷ s.known; env = putvar host.name (format_d host.node) s.env },
          some host,
        ))
    else (s, none)

unfoldable pub known_hosts_add : Bool → ℤ → Bytes → Bool → Hosts → Hosts × Option Host
known_hosts_add alloc addr new_name override_existing s =
    if eq_ℤ addr (pos 0)
    then (s, none)
    else if override_existing
    then insert_host alloc addr new_name (record s { known = known_hosts_del addr s.known })
    else elim (find_host addr s.known) [
      | some host ↦ (s, some host)
      | none ↦ insert_host alloc addr new_name s
    ]

-- what is copied to `name`, or `none` where 0 is returned
unfoldable pub known_hosts_get_name : ℤ → ℕ → List Host → Option Bytes
known_hosts_get_name find buflen known = elim (find_host find known) [
  | none ↦ none
  | some host ↦ some (take buflen host.name)
]

-- `strncmp(find_name, host->name, HOSTNAME_MAXLEN) == 0`
unfoldable pub same_name : Bytes → Bytes → Bool
same_name a b = bytes_eq (take hostname_maxlen a) (take hostname_maxlen b)

unfoldable pub get_node_loop : Bytes → List Host → ℤ
get_node_loop name [] = negsuc 0
get_node_loop name (host ∷ rest) =
    if same_name name host.name then host.node else get_node_loop name rest

-- a NULL name is `none`
unfoldable pub known_hosts_get_node : Option Bytes → List Host → ℤ
known_hosts_get_node none known = negsuc 0
known_hosts_get_node (some name) known = get_node_loop name known

-- `*end == '\0'`
unfoldable pub at_end : Bytes → Bool
at_end [] = true
at_end (c ∷ cs) = false

-- the status that is returned, and what is stored through `res_ptr`
unfoldable pub get_host_by_addr_or_name : Bytes → List Host → ℕ × Option ℤ
get_host_by_addr_or_name arg known =
    let (node, end) = strtol arg in
    if not (eq_ℤ node (pos int_max)) && ltb_ℤ node (pos 16384) && at_end end
    then (2, some (to_int node))
    else (let named = known_hosts_get_node (some arg) known in
        if ltb_ℤ named (pos 0) then (0, none) else (1, some (to_int named)))
