-- ===== src/KnownHosts/Laws.antt =====
-- known_hosts.c: the invariant of the list, and what `known_hosts_add` does to lookups.
use csh.Prelude.{
  ◌-◌, ◌≤◌, ◌≡◌, ◌≢◌, ◌⊎◌, refl, map, Bytes, none, some, List, [], ◌∷◌, Bool, true, false,
  if◌then◌else◌, take, length, length-take, arith, bytes_eq,
}
use csh.Prelude.Int.{ℤ, pos, eq_ℤ}
use csh.Environment.{getvar}
use csh.Environment.Laws.{getvar-putvar}
use csh.Libc.{format_d}
use csh.KnownHosts.{
  hostname_maxlen, Host, Hosts, node_save, save_line, known_hosts_del, find_host, insert_host,
  known_hosts_add,
}

-- No host has the number 0 or a name that fills its array, and no two have one number.
abbrev pub IsValid : List Host → Type 0
IsValid [] = Unit
IsValid (host ∷ rest) =
    (host.node ≢ pos 0)
    × (length host.name ≤ hostname_maxlen - 1)
    × (find_host host.node rest ≡ none)
    × IsValid rest

find_host-del :
    (addr k : ℤ) (known : List Host)
    → find_host k (known_hosts_del addr known) ≡ (if eq_ℤ k addr then none else find_host k known)
unfolding find_host known_hosts_del
find_host-del addr k [] = ground arith
find_host-del addr k (host ∷ rest) = ground (arith, find_host-del addr k rest)

find_host-cons :
    (k : ℤ) (host : Host) (known : List Host)
    → find_host k (host ∷ known) ≡ (if eq_ℤ host.node k then some host else find_host k known)
unfolding find_host
find_host-cons k host known = refl

known_hosts_del-IsValid :
    (addr : ℤ) (known : List Host) → IsValid known → IsValid (known_hosts_del addr known)
unfolding known_hosts_del
known_hosts_del-IsValid addr [] v = v
known_hosts_del-IsValid addr (host ∷ rest) v =
    ground (arith, known_hosts_del-IsValid addr rest v.3, find_host-del addr host.node rest)

insert_host-IsValid :
    (alloc : Bool) (addr : ℤ) (name : Bytes) (s : Hosts)
    → addr ≢ pos 0
    → find_host addr s.known ≡ none
    → IsValid s.known
    → IsValid (insert_host alloc addr name s).0.known
unfolding insert_host
insert_host-IsValid alloc addr name s nonzero new v =
    ground (arith, length-take (hostname_maxlen - 1) name)

-- `known_hosts_add` keeps the list valid, in both modes and whether or not memory is left.
pub known_hosts_add-IsValid :
    (alloc : Bool) (addr : ℤ) (name : Bytes) (override : Bool) (s : Hosts)
    → IsValid s.known
    → IsValid (known_hosts_add alloc addr name override s).0.known
unfolding known_hosts_add
known_hosts_add-IsValid alloc addr name override s v = ground (
  arith,
  insert_host-IsValid alloc addr name s,
  insert_host-IsValid alloc addr name (record s { known = known_hosts_del addr s.known }),
  known_hosts_del-IsValid addr s.known v,
  find_host-del addr addr s.known,
)

-- What `known_hosts_add` promises: `host` is the one that is kept for `addr`, the lookup of every
-- number `k` goes by it, and the variable of its name holds its number.
pub record Added (addr : ℤ) (s : Hosts) (host : Host) (after : Hosts) (k : ℤ) : Type 0 where
  pub node_is : host.node ≡ addr
  pub found : find_host k after.known ≡ (if eq_ℤ k addr then some host else find_host k s.known)
  pub variables :
      (j : Bytes)
      → getvar after.env j ≡ (if bytes_eq j host.name then some (format_d addr) else getvar s.env j)

-- With memory left, adding a host of a number other than 0 that is not yet known, or adding any
-- with `override_existing`, yields a host with that number and the first 49 bytes of the name.
-- Every later lookup by number finds this host under its number, and under any other number what it
-- found before. The variable of the host's name holds its number in decimal, and every other
-- variable is as before.
pub known_hosts_add-Added :
    (addr : ℤ) (name : Bytes) (override : Bool) (s : Hosts) (k : ℤ)
    → addr ≢ pos 0
    → (override ≡ true) ⊎ (find_host addr s.known ≡ none)
    → Added addr s
        (record { node = addr; name = take (hostname_maxlen - 1) name })
        (known_hosts_add true addr name override s).0
        k
unfolding known_hosts_add insert_host
known_hosts_add-Added addr name override s k nonzero free =
    let host : Host = record { node = addr; name = take (hostname_maxlen - 1) name } in
    record {
      node_is = refl;
      found = ground (
        arith,
        find_host-del addr k s.known,
        find_host-cons k host s.known,
        find_host-cons k host (known_hosts_del addr s.known),
      );
      variables = λ j. ground (arith, getvar-putvar s.env host.name (format_d addr) j);
    }

-- Without `override_existing` a number that is known keeps its host, and nothing changes.
pub known_hosts_add_known :
    (alloc : Bool) (addr : ℤ) (name : Bytes) (s : Hosts) (host : Host)
    → addr ≢ pos 0
    → find_host addr s.known ≡ some host
    → known_hosts_add alloc addr name false s ≡ (s, some host)
unfolding known_hosts_add
known_hosts_add_known alloc addr name s host nonzero old = ground arith

-- In a valid list no assertion of `node_save` fails: it writes one line for each host, in order.
pub node_save-map :
    (known : List Host) → IsValid known → node_save known ≡ some (map save_line known)
unfolding node_save
node_save-map [] v = refl
node_save-map (host ∷ rest) v = ground (arith, node_save-map rest v.3)
