-- ===== src/CspInit/Tests.antt =====
-- csp_init_cmd.c on small inputs, and its theorems at inputs that meet their hypotheses.
use csh.Prelude.{◌≡◌, refl, Bytes, codes, bytes_eq, none, some, List, [], ◌∷◌, ◌++◌, true, arith}
use csh.Prelude.Int.{ℤ, pos}
use csh.Libc.{
  format_u, strtoul, scan_number, scan_signed, scan_magnitude, skip_prefix, starts_digit,
  scan_digits, digit_of, skip_space,
}
use csh.KnownHosts.{at_end}
use csh.Slash.{success}
use csh.CspInit.{can, udp, System, iface_name, addr_argument, add_iface, next_idx}
use csh.CspInit.Add.{
  csp_ifadd, csp_ifadd_can_cmd, csp_ifadd_udp_cmd, eth_select_interface, select_loop, open_iface,
}
use csh.CspInit.Alias.{csp_ifadd_alias_cmd}
use csh.CspInit.Route.{csp_routeadd_cmd, csp_routeadd_cmd-joined}
use csh.CspInit.Names.{named, AreDistinct}
use csh.CspInit.Runs.{Command, add_all, no_links, add_all-AreDistinct}

abbrev sys : System
sys = record {
  name_max = 10;
  subscribe_port = 6000;
  publish_port = 7000;
  stored = λ o. o;
  opens = λ c name addr. true;
  home = none;
  read_file = λ p. some (codes "0123" ++ (10 ∷ []));
  allocates = true;
  allocates_conf = true;
  addresses = some ((true, codes "lo") ∷ (true, codes "eth10") ∷ (true, codes "eth1") ∷ []);
}

abbrev argv : List Bytes
argv = codes "can" ∷ codes "12" ∷ codes "localhost" ∷ []

abbrev commands : List Command
commands =
    record { kind = can; system = sys; argi = some 0; argv = argv }
    ∷ record { kind = udp; system = sys; argi = some 0; argv = argv }
    ∷ record { kind = can; system = sys; argi = some 1; argv = argv }
    ∷ record { kind = can; system = sys; argi = some 0; argv = argv }
    ∷ []

-- The third command fails, since its argument is not a number.
named_by_commands :
    named (add_all commands no_links).ifaces ≡ codes "CAN1" ∷ codes "UDP0" ∷ codes "CAN0" ∷ []
unfolding add_all csp_ifadd csp_ifadd_can_cmd csp_ifadd_udp_cmd addr_argument open_iface add_iface
    next_idx iface_name format_u strtoul scan_number scan_signed scan_magnitude skip_prefix
    starts_digit scan_digits digit_of skip_space at_end bytes_eq
named_by_commands = refl

-- A device is found by the prefix of a name, also where another has that name.
selects : eth_select_interface sys.addresses (codes "eth1") ≡ codes "eth10"
unfolding eth_select_interface select_loop bytes_eq
selects = refl

-- An unknown name of an interface is followed as a null pointer.
alias_faults : csp_ifadd_alias_cmd (λ name. none) true (some 0) argv [] ≡ none
unfolding csp_ifadd_alias_cmd
alias_faults = refl

add_all-AreDistinct_example : AreDistinct (named (add_all commands no_links).ifaces)
add_all-AreDistinct_example =
    add_all-AreDistinct commands (omega arith, (omega arith, (omega arith, (omega arith, tt))))
      (omega arith)

abbrev route : List Bytes
route = codes "route" ∷ codes "8/3" ∷ codes "CAN0" ∷ []

abbrev load_one : Bytes → List Bytes → ℤ × List Bytes
load_one entry table = (pos 1, entry ∷ table)

csp_routeadd_cmd-joined_example :
    csp_routeadd_cmd load_one (some 0) route [] ≡ some (success, codes "8/3 CAN0" ∷ [])
csp_routeadd_cmd-joined_example = csp_routeadd_cmd-joined load_one 0 route [] (omega arith)
