-- ===== src/CspInit.antt =====
-- csp_init_cmd.c: what the commands that add an interface share: their options, their counters, the address
-- argument, and the end of each. The drivers, files, memory and network devices are arguments.
pub mod Add
pub mod Names
pub mod Runs
pub mod Alias
pub mod Route
mod Tests
use csh.Prelude.{
  ℕ, ◌+◌, ◌-◌, ◌%◌, ◌^◌, Bytes, codes, bytes_eq, Option, none, some, List, ◌∷◌, ◌++◌, Bool, true,
  false, if◌then◌else◌, leb, length, take,
}
use csh.Prelude.Int.{ℤ, pos}
use csh.Libc.{strtoul, format_u}
use csh.Slash.{Status, success, einval, argument}
use csh.KnownHosts.{at_end}

pub data Kind : Type 0 where
  zmq : Kind
  kiss : Kind
  can : Kind
  eth : Kind
  udp : Kind
  tun : Kind

abbrev pub prefix_of : Kind → Bytes
prefix_of zmq = codes "ZMQ"
prefix_of kiss = codes "KISS"
prefix_of can = codes "CAN"
prefix_of eth = codes "ETH"
prefix_of udp = codes "UDP"
prefix_of tun = codes "TUN"

-- what a driver is told besides the name and the address
pub data Config : Type 0 where
  zmq_conf :
      (server : Bytes) (mask promisc : ℤ) (sec_key : Option Bytes) (subport pubport : ℕ) → Config
  kiss_conf : (device : Bytes) (baudrate : ℤ) → Config
  can_conf : (device : Bytes) (baud promisc : ℤ) → Config
  eth_conf : (device : Bytes) (mtu : ℤ) (promisc : Bool) → Config
  udp_conf : (host : Bytes) (lport rport : ℤ) → Config
  tun_conf : (tun_dst tun_src : ℕ) → Config

-- An interface that a command has added, with the values given to its fields, whose widths are the library's; the
-- command for TUN gives it no name.
pub record Iface : Type 0 where
  pub name : Option Bytes
  pub addr : ℕ
  pub netmask : ℤ
  pub is_default : ℤ
  pub config : Config

-- the counters `ifidx` of the commands, below the largest int, and the added interfaces, the latest first
pub record Links : Type 0 where
  pub ifidx : Kind → ℕ
  pub ifaces : List Iface

-- the variables of the options; a command has those that its options name
pub record Options : Type 0 where
  pub promisc : ℤ
  pub mask : ℤ
  pub dfl : ℤ
  pub baud : ℤ
  pub mtu : ℤ
  pub listen_port : ℤ
  pub remote_port : ℤ
  pub subport : ℕ
  pub pubport : ℕ
  pub device : Bytes
  pub key_file : Option Bytes

-- CSP_IFLIST_NAME_MAX, CSP_ZMQPROXY_SUBSCRIBE_PORT and CSP_ZMQPROXY_PUBLISH_PORT of the CSP library; what the parser
-- stored in the variables; whether the driver returns CSP_ERR_NONE; the environment, the files, the two
-- allocations, and the devices, each with whether it has an address, or none if `getifaddrs` fails
pub record System : Type 0 where
  pub name_max : ℕ
  pub subscribe_port : ℕ
  pub publish_port : ℕ
  pub stored : Options → Options
  pub opens : Config → Bytes → ℕ → Bool
  pub home : Option Bytes
  pub read_file : Bytes → Option Bytes
  pub allocates : Bool
  pub allocates_conf : Bool
  pub addresses : Option (List (Bool × Bytes))

-- the variables before the parser, with the name of the device
abbrev pub defaults : Bytes → Options
defaults device = record {
  promisc = pos 0;
  mask = pos 8;
  dfl = pos 0;
  baud = pos 1000000;
  mtu = pos 1200;
  listen_port = pos 9220;
  remote_port = pos 9220;
  subport = 0;
  pubport = 0;
  device = device;
  key_file = none;
}

-- `snprintf(name, CSP_IFLIST_NAME_MAX, "ZMQ%u", ifidx)`, and so for each kind
unfoldable pub iface_name : ℕ → Kind → ℕ → Bytes
iface_name name_max k ifidx = take (name_max - 1) (prefix_of k ++ format_u ifidx)

-- `ifidx++`
unfoldable pub next_idx : Kind → (Kind → ℕ) → Kind → ℕ
next_idx k ifidx j = if bytes_eq (prefix_of j) (prefix_of k) then ifidx j + 1 else ifidx j

-- `addr`; none for a missing argument or one that is not an integer
unfoldable pub addr_argument : ℕ → List Bytes → Option ℕ
unfolding strtoul
addr_argument argi argv =
    if leb (length argv) (argi + 1)
    then none
    else (let (addr, endptr) = strtoul 10 (argument (argi + 1) argv) in
        if at_end endptr then some (addr % 2 ^ 32) else none)

-- `server`, behind the address
abbrev pub server_argument : ℕ → List Bytes → Option Bytes
server_argument argi argv =
    if leb (length argv) (argi + 2) then none else some (argument (argi + 2) argv)

-- from the driver's answer to the end of the command
unfoldable pub add_iface : Kind → Iface → Bool → Links → Status × Links
unfolding next_idx
add_iface k i false l = (einval, l)
add_iface k i true l = (success, record { ifidx = next_idx k l.ifidx; ifaces = i ∷ l.ifaces })
