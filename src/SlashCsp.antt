-- ===== src/SlashCsp.antt =====
-- slash_csp.c: the commands that send one request to a node, and the clock. Each returns its status and the call of
-- the CSP library, none if it ends before; what they print is left out.
pub mod Ident
pub mod Memory
mod Tests
use csh.Prelude.{
  ℕ, ◌+◌, Bytes, Option, none, some, List, Bool, true, false, ◌&&◌, not, if◌then◌else◌, ◌==◌, leb,
  length, take, ◌-◌,
}
use csh.Prelude.Int.{ℤ}
use csh.Slash.{Status, success, einval, argument}
use csh.KnownHosts.{Host, get_host_by_addr_or_name}

-- the calls of the library, with the node first
pub data Call : Type 0 where
  ping : (node : ℤ) (timeout size : ℕ) → Call
  reboot : (node : ℤ) → Call
  shutdown : (node : ℤ) → Call
  buf_free : (node : ℤ) (timeout : ℕ) → Call
  uptime : (node : ℤ) (timeout : ℕ) → Call
  if_stats : (node : ℤ) (timeout : ℕ) (interface : Bytes) → Call
  clock : (node : ℤ) (timeout tv_sec tv_nsec : ℕ) → Call

-- the node of the argument, or that of the option; none for one that does not resolve
unfoldable pub node_argument : List Host → ℤ → ℕ → List Bytes → Option ℤ
unfolding get_host_by_addr_or_name
node_argument known node argi argv =
    if leb (length argv) (argi + 1)
    then some node
    else (get_host_by_addr_or_name (argument (argi + 1) argv) known).1

unfoldable call_node : (ℤ → Call) → List Host → ℤ → Option ℕ → List Bytes → Status × Option Call
unfolding node_argument
call_node request known node none argv = (einval, none)
call_node request known node (some argi) argv = elim (node_argument known node argi argv) [
  | none ↦ (einval, none)
  | some n ↦ (success, some (request n))
]

-- The options are the node, the timeout and the size.
unfoldable pub slash_csp_ping : ℕ → ℕ → List Host → ℤ → Option ℕ → List Bytes → Status × Option Call
unfolding call_node
slash_csp_ping timeout size = call_node (λ node. ping node timeout size)

unfoldable pub slash_csp_reboot : List Host → ℤ → Option ℕ → List Bytes → Status × Option Call
unfolding call_node
slash_csp_reboot = call_node reboot

unfoldable pub slash_csp_shutdown : List Host → ℤ → Option ℕ → List Bytes → Status × Option Call
unfolding call_node
slash_csp_shutdown = call_node shutdown

unfoldable pub slash_csp_buffree : ℕ → List Host → ℤ → Option ℕ → List Bytes → Status × Option Call
unfolding call_node
slash_csp_buffree timeout = call_node (λ node. buf_free node timeout)

unfoldable pub slash_csp_uptime : ℕ → List Host → ℤ → Option ℕ → List Bytes → Status × Option Call
unfolding call_node
slash_csp_uptime timeout = call_node (λ node. uptime node timeout)

-- `iface_len` is CSP_CMP_ROUTE_IFACE_LEN, and `answers` whether the library returns CSP_ERR_NONE.
unfoldable pub slash_csp_cmp_ifstat :
    ℕ → (Call → Bool) → ℤ → ℕ → Option ℕ → List Bytes → Status × Option Call
slash_csp_cmp_ifstat iface_len answers node timeout none argv = (einval, none)
slash_csp_cmp_ifstat iface_len answers node timeout (some argi) argv =
    let call = if_stats node timeout (take (iface_len - 1) (argument (argi + 1) argv)) in
    if leb (length argv) (argi + 1)
    then (einval, none)
    else (if answers call then success else einval, some call)

-- The local time is in seconds and nanoseconds.
unfoldable pub slash_csp_cmp_time :
    (Call → Bool) → ℕ × ℕ → ℤ → ℕ → Bool → ℕ → Option ℕ → Status × Option Call
slash_csp_cmp_time answers now node timeout sync timestamp none = (einval, none)
slash_csp_cmp_time answers now node timeout sync timestamp (some argi) =
    let call = if sync then clock node timeout now.0 now.1 else clock node timeout timestamp 0 in
    if sync && not (timestamp == 0)
    then (einval, none)
    else (if answers call then success else einval, some call)
