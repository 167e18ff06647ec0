-- ===== src/CspInit/Runs.antt =====
-- csp_init_cmd.c: the outcomes of the commands that add an interface, and sequences of these commands.
use csh.Prelude.{
  ℕ, ◌+◌, ◌≤◌, ◌<◌, ◌≡◌, ◌⊎◌, refl, inl, inr, Bytes, Option, none, some, List, [], ◌∷◌, Bool, true,
  false, ◌&&◌, if◌then◌else◌, leb, length, All, arith, bytes_eq, codes,
}
use csh.Prelude.Int.{pos, eq_ℤ}
use csh.Slash.{Status, success, einval}
use csh.Loki.Start.{Secret, fault, refused, secret}
use csh.CspInit.{
  Kind, zmq, kiss, can, eth, udp, tun, eth_conf, defaults, Iface, Links, Config, Options, System,
  iface_name, next_idx, addr_argument, server_argument, add_iface,
}
use csh.CspInit.Add.{
  refuse, open_iface, zmq_open, csp_ifadd_zmq_cmd, csp_ifadd_kiss_cmd, csp_ifadd_can_cmd,
  csp_ifadd_eth_cmd, csp_ifadd_udp_cmd, csp_ifadd_tun_cmd, csp_ifadd, eth_select_interface,
  tun_iface,
}
use csh.CspInit.Names.{named, AreDistinct, HasNames, HasNames-next, HasNames-same, iface_name_whole}

-- The name of the kind's counter, or no name.
abbrev pub IsNext : System → Kind → Links → Option Bytes → Type 0
IsNext sys k l name = (name ≡ some (iface_name sys.name_max k (l.ifidx k))) ⊎ (name ≡ none)

abbrev with_iface : Kind → Links → Iface → Links
with_iface k l i = record { ifidx = next_idx k l.ifidx; ifaces = i ∷ l.ifaces }

-- Success with one interface more, named after the counter, which goes up by one; or an error that changes nothing.
abbrev pub Adds : System → Kind → Links → Option (Status × Links) → Type 0
Adds sys k l none = Unit {0}
Adds sys k l (some (status, l')) =
    ((status ≡ einval) × (l' ≡ l))
    ⊎ ((status ≡ success) × ((i : Iface) × (IsNext sys k l i.name × (l' ≡ with_iface k l i))))

module _ (sys : System) (k : Kind) (l : Links) where
  Adds-elim {ℓ} :
      {A : Type ℓ} (o : Option A) (f : A → Option (Status × Links))
      → ((a : A) → Adds sys k l (f a))
      → Adds sys k l (elim o [ none ↦ refuse l | some a ↦ f a ])
  Adds-elim none f h = inl (refl, refl)
  Adds-elim (some a) f h = h a

  Adds-if :
      (b : Bool) (o : Option (Status × Links))
      → Adds sys k l o
      → Adds sys k l (if b then refuse l else o)
  Adds-if true o h = inl (refl, refl)
  Adds-if false o h = h

  add_iface-Adds :
      (i : Iface) (b : Bool) → IsNext sys k l i.name → Adds sys k l (some (add_iface k i b l))
  unfolding add_iface
  add_iface-Adds i false h = inl (refl, refl)
  add_iface-Adds i true h = inr (refl, (i, (h, refl)))

  open_iface-Adds :
      (o : Options) (addr : ℕ) (config : Config) → Adds sys k l (open_iface sys k o addr config l)
  unfolding open_iface
  open_iface-Adds o addr config = add_iface-Adds _ _ (inl refl)

zmq_open-Adds :
    (sys : System) (o : Options) (addr : ℕ) (server : Bytes) (key : Secret) (l : Links)
    → Adds sys zmq l (zmq_open sys o addr server key l)
unfolding zmq_open
zmq_open-Adds sys o addr server fault l = tt
zmq_open-Adds sys o addr server refused l = inl (refl, refl)
zmq_open-Adds sys o addr server (secret sec_key) l = open_iface-Adds sys zmq l o addr _

-- Every command ends with success and one interface more, whose name, if it has one, is that of the command's counter,
-- which goes up by one, or with an error and nothing changed, unless it faults on the name of the key file.
pub csp_ifadd-Adds :
    (k : Kind) (sys : System) (argi : Option ℕ) (argv : List Bytes) (l : Links)
    → Adds sys k l (csp_ifadd k sys argi argv l)
unfolding csp_ifadd csp_ifadd_zmq_cmd csp_ifadd_kiss_cmd csp_ifadd_can_cmd csp_ifadd_eth_cmd
    csp_ifadd_udp_cmd csp_ifadd_tun_cmd
csp_ifadd-Adds zmq sys none argv l = inl (refl, refl)
csp_ifadd-Adds zmq sys (some argi) argv l = Adds-elim sys zmq l (addr_argument argi argv) _ (λ addr.
    Adds-elim sys zmq l (server_argument argi argv) _
      (λ server. zmq_open-Adds sys (sys.stored (defaults [])) addr server _ l))
csp_ifadd-Adds kiss sys none argv l = inl (refl, refl)
csp_ifadd-Adds kiss sys (some argi) argv l =
    let o = sys.stored (defaults (codes "/dev/ttyUSB0")) in
    Adds-elim sys kiss l (addr_argument argi argv) _ (λ addr. open_iface-Adds sys kiss l o addr _)
csp_ifadd-Adds can sys none argv l = inl (refl, refl)
csp_ifadd-Adds can sys (some argi) argv l =
    let o = sys.stored (defaults (codes "can0")) in
    Adds-elim sys can l (addr_argument argi argv) _ (λ addr. open_iface-Adds sys can l o addr _)
csp_ifadd-Adds eth sys none argv l = inl (refl, refl)
csp_ifadd-Adds eth sys (some argi) argv l =
    let o = sys.stored (defaults (codes "e")) in
    let device = eth_select_interface sys.addresses o.device in
    let config = eth_conf device o.mtu (eq_ℤ o.promisc (pos 1)) in
    Adds-elim sys eth l (addr_argument argi argv) _ (λ addr.
      Adds-if sys eth l (bytes_eq device []) (open_iface sys eth o addr config l)
        (open_iface-Adds sys eth l o addr config))
csp_ifadd-Adds udp sys none argv l = inl (refl, refl)
csp_ifadd-Adds udp sys (some argi) argv l = Adds-elim sys udp l (addr_argument argi argv) _ (λ addr.
    Adds-elim sys udp l (server_argument argi argv) _
      (λ server. add_iface-Adds sys udp l _ (sys.allocates && sys.allocates_conf) (inl refl)))
csp_ifadd-Adds tun sys none argv l = inl (refl, refl)
csp_ifadd-Adds tun sys (some argi) argv l =
    let b = sys.allocates && sys.allocates_conf in
    Adds-elim sys tun l (addr_argument argi argv) _ (λ addr.
      let i = tun_iface sys argi argv addr in
      Adds-if sys tun l (leb (length argv) (argi + 3)) (some (add_iface tun i b l))
        (add_iface-Adds sys tun l i b (inr refl)))

-- A command with what the system answers it.
pub record Command : Type 0 where
  pub kind : Kind
  pub system : System
  pub argi : Option ℕ
  pub argv : List Bytes

-- The links behind commands, up to a fault.
abbrev after : Option (Status × Links) → Links → (Links → Links) → Links
after none l f = l
after (some (status, l')) l f = f l'

unfoldable pub add_all : List Command → Links → Links
add_all [] l = l
add_all (c ∷ commands) l =
    after (csp_ifadd c.kind c.system c.argi c.argv l) l (λ l'. add_all commands l')

abbrev pub no_links : Links
no_links = record { ifidx = λ k. 0; ifaces = [] }

abbrev LinksHave : ℕ → Links → Type 0
LinksHave m l = HasNames m l.ifidx (named l.ifaces)

with_iface-LinksHave :
    (m : ℕ) (k : Kind) (l : Links) (i : Iface) (sys : System)
    → 10 ≤ sys.name_max
    → m < 100000
    → LinksHave m l
    → IsNext sys k l i.name
    → LinksHave (m + 1) (with_iface k l i)
with_iface-LinksHave m k l i sys wide room h (inl e) =
    let small = h.1.1 k in
    let whole = iface_name_whole sys.name_max k (l.ifidx k) wide (omega (arith, small)) in
    rw e (rw whole (HasNames-next m k l.ifidx (named l.ifaces) room h))
with_iface-LinksHave m k l i sys wide room h (inr e) =
    rw e (HasNames-same m k l.ifidx (named l.ifaces) h)

links_unchanged : (m : ℕ) (l : Links) → LinksHave m l → LinksHave (m + 1) l
links_unchanged m l (numbered, (distinct, below)) =
    (numbered, (distinct, λ j. omega (arith, below j)))

after-AreDistinct :
    (sys : System) (k : Kind) (m : ℕ) (l : Links) (o : Option (Status × Links)) (f : Links → Links)
    → 10 ≤ sys.name_max
    → m < 100000
    → LinksHave m l
    → Adds sys k l o
    → ((l' : Links) → LinksHave (m + 1) l' → AreDistinct (named (f l').ifaces))
    → AreDistinct (named (after o l f).ifaces)
after-AreDistinct sys k m l none f wide room h adds next = h.1.0
after-AreDistinct sys k m l (some (status, l')) f wide room h (inl (e, same)) next =
    rw same (next l (links_unchanged m l h))
after-AreDistinct sys k m l (some (status, l')) f wide room h (inr (e, (i, (name, same)))) next =
    rw same (next (with_iface k l i) (with_iface-LinksHave m k l i sys wide room h name))

add_all-LinksHave :
    (commands : List Command) (m : ℕ) (l : Links)
    → All (λ c. 10 ≤ c.system.name_max) commands
    → m + length commands ≤ 100000
    → LinksHave m l
    → AreDistinct (named (add_all commands l).ifaces)
unfolding add_all
add_all-LinksHave [] m l wide room h = h.1.0
add_all-LinksHave (c ∷ commands) m l (wide, rest) room h =
    after-AreDistinct c.system c.kind m l (csp_ifadd c.kind c.system c.argi c.argv l) _ wide
      (omega arith) h (csp_ifadd-Adds c.kind c.system c.argi c.argv l)
      (λ l' h'. add_all-LinksHave commands (m + 1) l' rest (omega arith) h')

-- From the start of the program, no two interfaces that the commands have named have the same name, behind up to
-- 100000 commands in any order, whatever the system answers each, where the library's names have room for 10 bytes.
pub add_all-AreDistinct :
    (commands : List Command)
    → All (λ c. 10 ≤ c.system.name_max) commands
    → length commands ≤ 100000
    → AreDistinct (named (add_all commands no_links).ifaces)
add_all-AreDistinct commands wide room =
    add_all-LinksHave commands 0 no_links wide (omega arith) (tt, (tt, λ k. omega arith))
