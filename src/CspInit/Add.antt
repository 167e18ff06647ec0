-- ===== src/CspInit/Add.antt =====
-- csp_init_cmd.c: the commands `csp add zmq`, `kiss`, `can`, `eth`, `udp` and `tun`. Each takes the index of its last
-- option, none if the parser fails, and is none for a write behind the buffer of the key file's name.
use csh.Prelude.{
  ℕ, ◌+◌, ◌%◌, ◌^◌, Bytes, codes, bytes_eq, Option, none, some, List, [], ◌∷◌, Bool, ◌&&◌, not,
  if◌then◌else◌, ◌==◌, leb, length, take,
}
use csh.Prelude.Int.{pos, eq_ℤ}
use csh.Libc.{strtoul}
use csh.Slash.{Status, einval, argument}
use csh.Loki.Start.{Secret, fault, refused, secret, key_file_local, first_line}
use csh.CspInit.{
  Config, Kind, zmq, kiss, can, eth, udp, tun, zmq_conf, kiss_conf, can_conf, eth_conf, udp_conf,
  tun_conf, Iface, Links, Options, System, defaults, iface_name, addr_argument, server_argument,
  add_iface,
}

abbrev pub refuse : Links → Option (Status × Links)
refuse l = some (einval, l)

-- the key of 40 characters, read as in loki.c
unfoldable pub read_key : System → Option Bytes → Secret
unfolding key_file_local first_line
read_key sys none = secret none
read_key sys (some key_file) = elim (key_file_local sys.home key_file) [
  | none ↦ fault
  | some path ↦ elim (sys.read_file path) [
    | none ↦ refused
    | some text ↦
        if sys.allocates && leb 1 (length text)
        then secret (some (first_line (take 40 text)))
        else refused
  ]
]

-- the port of the option, or the proxy's, one higher with a key
unfoldable pub proxy_port : ℕ → ℕ → Option Bytes → ℕ
proxy_port port default_port key_file =
    if port == 0 then default_port + elim key_file [ none ↦ 0 | some k ↦ 1 ] else port

-- The interface with the fields that each command sets, and the answer of its driver.
unfoldable pub open_iface : System → Kind → Options → ℕ → Config → Links → Option (Status × Links)
unfolding iface_name add_iface
open_iface sys k o addr config l =
    let name = iface_name sys.name_max k (l.ifidx k) in
    some (
      add_iface k
        (record {
          name = some name;
          addr = addr;
          netmask = o.mask;
          is_default = o.dfl;
          config = config;
        })
        (sys.opens config name addr) l)

unfoldable pub zmq_open : System → Options → ℕ → Bytes → Secret → Links → Option (Status × Links)
unfolding open_iface proxy_port
zmq_open sys o addr server fault l = none
zmq_open sys o addr server refused l = refuse l
zmq_open sys o addr server (secret sec_key) l =
    open_iface sys zmq o addr
      (zmq_conf server o.mask o.promisc sec_key (proxy_port o.subport sys.subscribe_port o.key_file)
        (proxy_port o.pubport sys.publish_port o.key_file))
      l

unfoldable pub csp_ifadd_zmq_cmd : System → Option ℕ → List Bytes → Links → Option (Status × Links)
unfolding addr_argument read_key zmq_open
csp_ifadd_zmq_cmd sys none argv l = refuse l
csp_ifadd_zmq_cmd sys (some argi) argv l =
    let o = sys.stored (defaults []) in
    elim (addr_argument argi argv) [
      | none ↦ refuse l
      | some addr ↦ elim (server_argument argi argv) [
        | none ↦ refuse l
        | some server ↦ zmq_open sys o addr server (read_key sys o.key_file) l
      ]
    ]

unfoldable pub csp_ifadd_kiss_cmd : System → Option ℕ → List Bytes → Links → Option (Status × Links)
unfolding addr_argument open_iface
csp_ifadd_kiss_cmd sys none argv l = refuse l
csp_ifadd_kiss_cmd sys (some argi) argv l =
    let o = sys.stored (defaults (codes "/dev/ttyUSB0")) in
    elim (addr_argument argi argv) [
      | none ↦ refuse l
      | some addr ↦ open_iface sys kiss o addr (kiss_conf o.device o.baud) l
    ]

unfoldable pub csp_ifadd_can_cmd : System → Option ℕ → List Bytes → Links → Option (Status × Links)
unfolding addr_argument open_iface
csp_ifadd_can_cmd sys none argv l = refuse l
csp_ifadd_can_cmd sys (some argi) argv l =
    let o = sys.stored (defaults (codes "can0")) in
    elim (addr_argument argi argv) [
      | none ↦ refuse l
      | some addr ↦ open_iface sys can o addr (can_conf o.device o.baud o.promisc) l
    ]

-- `strncmp(device, name, strlen(device)) == 0` on a device that has an address and is not `lo`
abbrev matches : Bytes → Bool × Bytes → Bool
matches device (has_addr, name) =
    has_addr && (not (bytes_eq name (codes "lo")) && bytes_eq (take (length device) name) device)

unfoldable pub select_loop : Bytes → List (Bool × Bytes) → Bytes → Bytes
select_loop device [] selected = selected
select_loop device (address ∷ rest) selected =
    select_loop device rest
      (if bytes_eq selected [] && matches device address then take 19 address.1 else selected)

-- the new `*device`, empty if there is none
unfoldable pub eth_select_interface : Option (List (Bool × Bytes)) → Bytes → Bytes
unfolding select_loop
eth_select_interface none device = []
eth_select_interface (some addresses) device = select_loop device addresses []

unfoldable pub csp_ifadd_eth_cmd : System → Option ℕ → List Bytes → Links → Option (Status × Links)
unfolding addr_argument eth_select_interface open_iface
csp_ifadd_eth_cmd sys none argv l = refuse l
csp_ifadd_eth_cmd sys (some argi) argv l =
    let o = sys.stored (defaults (codes "e")) in
    let device = eth_select_interface sys.addresses o.device in
    elim (addr_argument argi argv) [
      | none ↦ refuse l
      | some addr ↦
          if bytes_eq device []
          then refuse l
          else open_iface sys eth o addr (eth_conf device o.mtu (eq_ℤ o.promisc (pos 1))) l
    ]

-- The driver for UDP has no error.
unfoldable pub csp_ifadd_udp_cmd : System → Option ℕ → List Bytes → Links → Option (Status × Links)
unfolding addr_argument iface_name add_iface
csp_ifadd_udp_cmd sys none argv l = refuse l
csp_ifadd_udp_cmd sys (some argi) argv l =
    let o = sys.stored (defaults []) in
    elim (addr_argument argi argv) [
      | none ↦ refuse l
      | some addr ↦ elim (server_argument argi argv) [
        | none ↦ refuse l
        | some server ↦ some (
            add_iface udp
              (record {
                name = some (iface_name sys.name_max udp (l.ifidx udp));
                addr = addr;
                netmask = o.mask;
                is_default = o.dfl;
                config = udp_conf server o.listen_port o.remote_port;
              })
              (sys.allocates && sys.allocates_conf) l)
      ]
    ]

-- Its name is not given to the interface; behind the address, nothing has to be a number.
abbrev pub tun_iface : System → ℕ → List Bytes → ℕ → Iface
tun_iface sys argi argv addr =
    let o = sys.stored (defaults []) in
    record {
      name = none;
      addr = addr;
      netmask = o.mask;
      is_default = o.dfl;
      config =
          tun_conf ((strtoul 10 (argument (argi + 3) argv)).0 % 2 ^ 32)
            ((strtoul 10 (argument (argi + 2) argv)).0 % 2 ^ 32);
    }

unfoldable pub csp_ifadd_tun_cmd : System → Option ℕ → List Bytes → Links → Option (Status × Links)
unfolding addr_argument strtoul add_iface
csp_ifadd_tun_cmd sys none argv l = refuse l
csp_ifadd_tun_cmd sys (some argi) argv l = elim (addr_argument argi argv) [
  | none ↦ refuse l
  | some addr ↦
      if leb (length argv) (argi + 3)
      then refuse l
      else some
          (add_iface tun (tun_iface sys argi argv addr) (sys.allocates && sys.allocates_conf) l)
]

unfoldable pub csp_ifadd : Kind → System → Option ℕ → List Bytes → Links → Option (Status × Links)
unfolding csp_ifadd_zmq_cmd csp_ifadd_kiss_cmd csp_ifadd_can_cmd csp_ifadd_eth_cmd csp_ifadd_udp_cmd
    csp_ifadd_tun_cmd
csp_ifadd zmq = csp_ifadd_zmq_cmd
csp_ifadd kiss = csp_ifadd_kiss_cmd
csp_ifadd can = csp_ifadd_can_cmd
csp_ifadd eth = csp_ifadd_eth_cmd
csp_ifadd udp = csp_ifadd_udp_cmd
csp_ifadd tun = csp_ifadd_tun_cmd
