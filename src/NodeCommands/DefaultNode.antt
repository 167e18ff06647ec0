-- ===== src/NodeCommands/DefaultNode.antt =====
-- slash_nodes_cmds.c: naming a node and making it the default.
use csh.Prelude.{
  ℕ, ◌-◌, ◌<◌, ◌≤◌, ◌^◌, ◌≡◌, ◌∙◌, ap, Bytes, some, [], ◌∷◌, true, false, length, arith,
}
use csh.Prelude.Int.{pos}
use csh.Libc.{strtol}
use csh.Slash.{success}
use csh.KnownHosts.{hostname_maxlen, known_hosts_add, insert_host, at_end, get_host_by_addr_or_name}
use csh.KnownHosts.Resolve.{get_host-known_hosts_add}
use csh.NodeCommands.{Shell, cmd_node, cmd_node_add, set_dfl_node, ran}

-- the state after a host was added
abbrev pub after_add : ℕ → Bytes → Shell → Shell
after_add n name s = record s { hosts = (known_hosts_add true (pos n) name true s.hosts).0 }

cmd_node_add-ran :
    (n : ℕ) (add name : Bytes) (s : Shell)
    → 0 < n
    → cmd_node_add true (pos n) (some 0) (add ∷ name ∷ []) s ≡ ran success [] (after_add n name s)
unfolding cmd_node_add known_hosts_add insert_host
cmd_node_add-ran n add name s h = ground arith

cmd_node-ran :
    (n : ℕ) (node name : Bytes) (s : Shell)
    → get_host_by_addr_or_name name s.hosts.known ≡ (1, some (pos n))
    → cmd_node (some 0) (node ∷ name ∷ []) s ≡ ran success [] (record s { dfl_node = pos n })
unfolding cmd_node set_dfl_node
cmd_node-ran n node name s h = ap (λ r. set_dfl_node name r s) h

-- With memory left, `node add -n <n> <name>` followed by `node <name>` makes n the default node, with
-- no message: for n from 1 to 2^31 - 1 and a name of at most 49 bytes that does not read as a number.
pub cmd_node-cmd_node_add :
    (n : ℕ) (add node name : Bytes) (s : Shell)
    → 0 < n
    → n < 2 ^ 31
    → length name ≤ hostname_maxlen - 1
    → at_end (strtol name).1 ≡ false
    → cmd_node
        (some 0)
        (node ∷ name ∷ [])
        (cmd_node_add true (pos n) (some 0) (add ∷ name ∷ []) s).state
      ≡ ran success [] (record (after_add n name s) { dfl_node = pos n })
cmd_node-cmd_node_add n add node name s low high short text =
    ap (λ r. cmd_node (some 0) (node ∷ name ∷ []) r.state) (cmd_node_add-ran n add name s low)
    ∙ cmd_node-ran n node name (after_add n name s)
        (get_host-known_hosts_add n name s.hosts low high short text)
