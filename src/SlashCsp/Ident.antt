-- ===== src/SlashCsp/Ident.antt =====
-- slash_csp.c: `ident`, which adds the hosts that answer.
use csh.Prelude.{
  ℕ, ◌≡◌, Bytes, Option, none, some, List, [], ◌∷◌, ◌++◌, Bool, true, false, if◌then◌else◌, ◌==◌,
  length, take, drop, arith,
}
use csh.Prelude.Int.{ℤ}
use csh.Slash.{Status, success, einval}
use csh.KnownHosts.{Host, Hosts, find_host, insert_host, known_hosts_add}
use csh.KnownHosts.Laws.{IsValid, known_hosts_add-IsValid}
use csh.SlashCsp.{node_argument}

-- Of the library's message: its size, CSP_CMP_IDENT, and where the code and the host's name are read.
pub record Layout : Type 0 where
  pub size : ℕ
  pub cmp_ident : ℕ
  pub code : Bytes → ℕ
  pub hostname : Bytes → Bytes

-- an answer, with whether a host can be allocated for it
pub record Reply : Type 0 where
  pub src : ℤ
  pub content : Bytes
  pub allocates : Bool

-- `memcpy` of an answer over the message, of which the rest stays
unfoldable pub copy_reply : ℕ → Bytes → Bytes → Bytes
copy_reply size content msg = let part = take size content in part ++ drop (length part) msg

unfoldable pub ident_loop : Layout → Bool → List Reply → Bytes → Hosts → Hosts
unfolding copy_reply
ident_loop layout override [] msg s = s
ident_loop layout override (reply ∷ replies) msg s =
    let msg' = copy_reply layout.size reply.content msg in
    ident_loop layout override replies msg' (
      if layout.code msg' == layout.cmp_ident
      then (known_hosts_add reply.allocates reply.src (layout.hostname msg') override s).0
      else s)

-- none if there is no connection or no buffer, which is success too
unfoldable ident_answers : Layout → Bool → Option (List Reply) → Bytes → Hosts → Status × Hosts
unfolding ident_loop
ident_answers layout override none msg s = (success, s)
ident_answers layout override (some replies) msg s =
    (success, ident_loop layout override replies msg s)

unfoldable ident_node :
    Layout → (ℤ → Option (List Reply)) → Bool → Option ℤ → Bytes → Hosts → Status × Hosts
unfolding ident_answers
ident_node layout asks override none msg s = (einval, s)
ident_node layout asks override (some node) msg s = ident_answers layout override (asks node) msg s

-- `asks` is the answers of the node, up to the timeout.
unfoldable pub slash_csp_cmp_ident :
    Layout
    → (ℤ → Option (List Reply))
    → Bool
    → ℤ
    → Option ℕ
    → List Bytes
    → Bytes
    → Hosts
    → Status × Hosts
unfolding node_argument ident_node
slash_csp_cmp_ident layout asks override node none argv msg s = (einval, s)
slash_csp_cmp_ident layout asks override node (some argi) argv msg s =
    ident_node layout asks override (node_argument s.known node argi argv) msg s

find_host-insert_host :
    (alloc : Bool) (addr : ℤ) (name : Bytes) (s : Hosts) (k : ℤ) (host : Host)
    → find_host addr s.known ≡ none
    → find_host k s.known ≡ some host
    → find_host k (insert_host alloc addr name s).0.known ≡ some host
unfolding insert_host find_host
find_host-insert_host alloc addr name s k host new h = ground arith

known_hosts_add-find_host :
    (alloc : Bool) (addr : ℤ) (name : Bytes) (s : Hosts) (k : ℤ) (host : Host)
    → find_host k s.known ≡ some host
    → find_host k (known_hosts_add alloc addr name false s).0.known ≡ some host
unfolding known_hosts_add
known_hosts_add-find_host alloc addr name s k host h =
    ground (arith, find_host-insert_host alloc addr name s k host)

-- The list is valid, and the host is found by its number.
abbrev Keeps : ℤ → Host → Hosts → Type 0
Keeps k host s = IsValid s.known × (find_host k s.known ≡ some host)

if-Keeps :
    (k : ℤ) (host : Host) (b : Bool) (s t : Hosts)
    → Keeps k host s
    → Keeps k host t
    → Keeps k host (if b then s else t)
if-Keeps k host true s t h i = h
if-Keeps k host false s t h i = i

ident_loop-Keeps :
    (layout : Layout) (replies : List Reply) (msg : Bytes) (s : Hosts) (k : ℤ) (host : Host)
    → Keeps k host s
    → Keeps k host (ident_loop layout false replies msg s)
unfolding ident_loop
ident_loop-Keeps layout [] msg s k host h = h
ident_loop-Keeps layout (reply ∷ replies) msg s k host h =
    let msg' = copy_reply layout.size reply.content msg in
    let name = layout.hostname msg' in
    let added = (known_hosts_add reply.allocates reply.src name false s).0 in
    ident_loop-Keeps layout replies msg' _ k host (
      if-Keeps k host (layout.code msg' == layout.cmp_ident) added s
        (
          known_hosts_add-IsValid reply.allocates reply.src name false s h.0,
          known_hosts_add-find_host reply.allocates reply.src name s k host h.1,
        )
        h)

ident_answers-Keeps :
    (layout : Layout) (replies : Option (List Reply)) (msg : Bytes) (s : Hosts) (k : ℤ)
    (host : Host)
    → Keeps k host s
    → Keeps k host (ident_answers layout false replies msg s).1
unfolding ident_answers
ident_answers-Keeps layout none msg s k host h = h
ident_answers-Keeps layout (some replies) msg s k host h =
    ident_loop-Keeps layout replies msg s k host h

ident_node-Keeps :
    (layout : Layout) (asks : ℤ → Option (List Reply)) (node : Option ℤ) (msg : Bytes) (s : Hosts)
    → (k : ℤ) (host : Host) → Keeps k host s
    → Keeps k host (ident_node layout asks false node msg s).1
unfolding ident_node
ident_node-Keeps layout asks none msg s k host h = h
ident_node-Keeps layout asks (some node) msg s k host h =
    ident_answers-Keeps layout (asks node) msg s k host h

-- Whatever the nodes answer, `ident` without its override leaves a host that is known by a number as it is, and
-- keeps the list of hosts valid.
pub slash_csp_cmp_ident-find_host :
    (layout : Layout) (asks : ℤ → Option (List Reply)) (node : ℤ) (argi : Option ℕ)
    → (argv : List Bytes) (msg : Bytes) (s : Hosts) (k : ℤ) (host : Host) → IsValid s.known
    → find_host k s.known ≡ some host
    → IsValid (slash_csp_cmp_ident layout asks false node argi argv msg s).1.known
      × (find_host k (slash_csp_cmp_ident layout asks false node argi argv msg s).1.known
          ≡ some host)
unfolding slash_csp_cmp_ident
slash_csp_cmp_ident-find_host layout asks node none argv msg s k host v h = (v, h)
slash_csp_cmp_ident-find_host layout asks node (some argi) argv msg s k host v h =
    ident_node-Keeps layout asks (node_argument s.known node argi argv) msg s k host (v, h)
