-- ===== src/ParamSlash/Get.antt =====
-- param_slash.c: `get`, which shows or pulls the parameters of a name, and `pull`, which pulls all the
-- parameters of some nodes. Whether a node answers is an argument. An argument of `pull` names fewer than 256
-- nodes.
pub mod Answered
use csh.Prelude.{
  ℕ, ◌+◌, Bytes, Option, none, some, List, [], ◌∷◌, ◌++◌, Bool, true, false, ◌||◌, ◌&&◌, not,
  if◌then◌else◌, ◌==◌, leb, length,
}
use csh.Prelude.Int.{ℤ, pos, ltb_ℤ, eq_ℤ}
use csh.KnownHosts.{Host, get_host_by_addr_or_name}
use csh.Slash.{Status, success, einval, eio, argument}
use csh.ParamSlash.Queue.{Param, meets, no_mask}

-- What `get` does with a parameter: it prints a local one, or pulls one from a node.
pub data Shown : Type 0 where
  printed : Param → Shown
  pulled : Param → ℤ → Shown

-- What the option parser stored, the match of names, and whether the destination answers for a parameter.
pub record GetArguments : Type 0 where
  pub node : ℕ
  pub server : ℤ
  pub mask : ℕ
  pub strmatch : Bytes → Bytes → Bool
  pub answers : Param → Bool

abbrev pub is_selected : GetArguments → Bytes → Param → Bool
is_selected a name p =
    a.strmatch p.name name && p.node == a.node && (a.mask == no_mask || meets p.mask a.mask)

abbrev pub is_local : GetArguments → Param → Bool
is_local a p = p.node == 0 && eq_ℤ a.server (pos 0)

abbrev pub show : GetArguments → Param → Shown
show a p =
    if is_local a p
    then printed p
    else pulled p (if ltb_ℤ (pos 0) a.server then a.server else pos a.node)

-- the loop over the list of parameters, which a pull with no answer ends
unfoldable pub get_loop : GetArguments → Bytes → List Param → Status × List Shown
get_loop a name [] = (success, [])
get_loop a name (p ∷ params) =
    let (status, shown) = get_loop a name params in
    if is_selected a name p
    then (if is_local a p || a.answers p then (status, show a p ∷ shown) else (eio, show a p ∷ []))
    else (status, shown)

unfoldable pub cmd_get : GetArguments → Option ℕ → List Bytes → List Param → Status × List Shown
unfolding get_loop
cmd_get a none argv params = (einval, [])
cmd_get a (some argi) argv params =
    if length argv == argi + 2 then get_loop a (argument (argi + 1) argv) params else (einval, [])

-- the parts between the commas, with the empty ones
unfoldable pub parts : Bytes → Bytes × List Bytes
parts [] = ([], [])
parts (c ∷ cs) =
    let (part, rest) = parts cs in if c == b',' then ([], part ∷ rest) else (c ∷ part, rest)

abbrev pub resolved : ℕ × Option ℤ → List ℤ → List ℤ
resolved (result, some node) nodes = if result == 0 then nodes else node ∷ nodes
resolved (result, none) nodes = nodes

-- The nodes of the parts. Behind an empty part the walk steps over the part that follows, and an empty part
-- at the end of the text is not looked at.
unfoldable pub node_list : (Bytes → ℕ × Option ℤ) → List Bytes → List ℤ
node_list resolve [] = []
node_list resolve ([] ∷ []) = []
node_list resolve ([] ∷ skipped ∷ rest) = resolved (resolve []) (node_list resolve rest)
node_list resolve ((c ∷ cs) ∷ rest) = resolved (resolve (c ∷ cs)) (node_list resolve rest)

-- the status and the nodes that are pulled
unfoldable pub pull_nodes : (ℤ → Bool) → List ℤ → Status × List ℤ
pull_nodes answers [] = (success, [])
pull_nodes answers (node ∷ nodes) =
    let (status, tried) = pull_nodes answers nodes in
    (if answers node then status else eio, node ∷ tried)

-- `server` is the node without a list of nodes
unfoldable pub cmd_pull : List Host → (ℤ → Bool) → ℤ → Option Bytes → Option ℕ → Status × List ℤ
unfolding pull_nodes node_list parts get_host_by_addr_or_name
cmd_pull hosts answers server nodes_str none = (einval, [])
cmd_pull hosts answers server none (some argi) = pull_nodes answers (server ∷ [])
cmd_pull hosts answers server (some text) (some argi) =
    let (part, rest) = parts text in
    pull_nodes answers (node_list (λ name. get_host_by_addr_or_name name hosts) (part ∷ rest))
