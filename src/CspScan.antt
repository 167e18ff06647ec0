-- ===== src/CspScan.antt =====
-- src/csp_scan.c: the scan of the network for nodes and their names. The pings, the identities that
-- nodes report and the key that ends the scan are parameters, by the node that is tried.
pub mod Rounds
mod Tests
use csh.Prelude.{
  ℕ, zero, suc, ◌+◌, ◌%◌, ◌^◌, Bytes, Option, none, some, List, [], Bool, true, false, ◌||◌, not,
  if◌then◌else◌, ltb, leb, length,
}
use csh.Prelude.Int.{pos}
use csh.Libc.{to_int}
use csh.KnownHosts.{Hosts, known_hosts_add}
use csh.Apm.{strstr}

-- `search_str`, and whether a name has it
abbrev pub is_wanted : Option Bytes → Bytes → Bool
is_wanted none hostname = true
is_wanted (some search_str) hostname = not (ltb 0 (length search_str)) || strstr hostname search_str

module _ (alloc : Bool) (csp_ping : ℕ → Bool) (csp_cmp_ident : ℕ → Option Bytes)
    (interrupted : ℕ → Bool) where
  module _ (search_str : Option Bytes) (override : Bool) where
    -- what is done for one node
    unfoldable pub scan_node : ℕ → Hosts → Hosts
    unfolding strstr
    scan_node i hosts =
        if csp_ping i
        then elim (csp_cmp_ident i) [
          | none ↦ hosts
          | some hostname ↦
              if is_wanted search_str hostname
              then (known_hosts_add alloc (to_int (pos i)) hostname override hosts).0
              else hosts
        ]
        else hosts

    -- `for (unsigned int i = begin; i <= end; i++)`, with fuel; `none` is fuel that has run out
    unfoldable pub scan_loop : ℕ → ℕ → ℕ → Hosts → Option Hosts
    unfolding scan_node
    scan_loop zero i last hosts = none
    scan_loop (suc fuel) i last hosts =
        let hosts' = scan_node i hosts in
        let rest = scan_loop fuel ((i + 1) % 2 ^ 32) last hosts' in
        if leb i last then (if interrupted i then some hosts' else rest) else some hosts
