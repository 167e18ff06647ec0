-- ===== src/NodeCommands.antt =====
-- src/slash_nodes_cmds.c: the commands on the default node, the known hosts and the default timeout.
-- The node of an option is an argument, as the option parser stored it.
pub mod DefaultNode
mod Tests
use csh.Prelude.{
  ℕ, ◌+◌, Bytes, codes, Option, none, some, List, [], ◌∷◌, ◌++◌, Bool, true, false, if◌then◌else◌,
  ◌==◌, leb, length,
}
use csh.Prelude.Int.{ℤ, pos, eq_ℤ}
use csh.Libc.{atoi, format_d}
use csh.Slash.{Status, success, einval, enomem, Ran, argument}
use csh.KnownHosts.{Host, Hosts, known_hosts_add, node_save, get_host_by_addr_or_name}

-- `slash_dfl_node`, `slash_dfl_timeout`, and what known_hosts.c keeps
pub record Shell : Type 0 where
  pub dfl_node : ℤ
  pub dfl_timeout : ℤ
  pub hosts : Hosts

abbrev pub ran : Status → List Bytes → Shell → Ran Shell
ran status printed s = record { status = status; printed = printed; state = s }

-- the new default node and the line that is printed, from the result of `get_host_by_addr_or_name`
unfoldable pub set_dfl_node : Bytes → ℕ × Option ℤ → Shell → Ran Shell
set_dfl_node name (result, stored) s =
    ran success
      (if result == 0
        then (codes "'" ++ (name ++ codes "' does not resolve to a valid CSP address\n")) ∷ []
        else [])
      (elim stored [ none ↦ s | some node ↦ record s { dfl_node = node } ])

unfoldable pub cmd_node : Option ℕ → List Bytes → Shell → Ran Shell
unfolding set_dfl_node
cmd_node none argv s = ran einval [] s
cmd_node (some argi) argv s =
    if leb 1 (length argv)
    then (if length argv == 2
        then set_dfl_node (argument 1 argv)
            (get_host_by_addr_or_name (argument 1 argv) s.hosts.known) s
        else ran success [] s)
    else ran success ((codes "Default node = " ++ (format_d s.dfl_node ++ codes "\n")) ∷ []) s

-- The lines go to the file, or to the terminal without one; `none` is a failed assertion.
unfoldable pub cmd_node_save : Option ℕ → Shell → Option (Ran Shell)
cmd_node_save none s = some (ran einval [] s)
cmd_node_save (some argi) s = elim (node_save s.hosts.known) [
  | none ↦ none
  | some lines ↦ some (ran success lines s)
]

unfoldable pub cmd_node_list : Option ℕ → Shell → Option (Ran Shell)
cmd_node_list none s = some (ran einval [] s)
cmd_node_list (some argi) s = elim (node_save s.hosts.known) [
  | none ↦ none
  | some lines ↦ some (ran success lines s)
]

abbrev pub added : Hosts × Option Host → Shell → Ran Shell
added (hosts, none) s =
    ran enomem (codes "No more memory, failed to add host" ∷ []) (record s { hosts = hosts })
added (hosts, some host) s = ran success [] (record s { hosts = hosts })

unfoldable pub cmd_node_add : Bool → ℤ → Option ℕ → List Bytes → Shell → Ran Shell
cmd_node_add alloc node none argv s = ran einval [] s
cmd_node_add alloc node (some argi) argv s =
    if eq_ℤ node (pos 0)
    then ran einval (codes "Refusing to add hostname for node 0" ∷ []) s
    else if leb (length argv) (argi + 1)
    then ran einval (codes "missing node hostname\n" ∷ []) s
    else added (known_hosts_add alloc node (argument (argi + 1) argv) true s.hosts) s

unfoldable pub cmd_timeout : List Bytes → Shell → Ran Shell
cmd_timeout argv s =
    let timeout = if length argv == 2 then atoi (argument 1 argv) else s.dfl_timeout in
    ran success ((codes "timeout = " ++ (format_d timeout ++ codes "\n")) ∷ [])
      (record s { dfl_timeout = timeout })
