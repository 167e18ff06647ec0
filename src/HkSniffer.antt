-- ===== src/HkSniffer.antt =====
-- src/hk_param_sniffer.c: the table of satellite epochs and the table of time parameters, arrays of
-- at most 16 entries. An array is the list of its first `count` cells. The clock is an argument.
pub mod Epochs
pub mod Packet
mod Tests
use csh.Prelude.{
  ℕ, ◌+◌, ◌%◌, ◌^◌, Bytes, Option, none, some, List, [], ◌∷◌, ◌++◌, Bool, true, false, ◌&&◌, ◌||◌,
  if◌then◌else◌, ◌==◌, leb, length,
}
use csh.Prelude.Int.{ℤ, pos, ◌-ℤ◌, ltb_ℤ}
use csh.Libc.{atoi}

abbrev pub max_hks : ℕ
max_hks = 16

-- Jan 1st 2020
abbrev pub first_epoch : ℤ
first_epoch = pos 1577836800

-- `hks.node[i]` and `hks.local_epoch[i]`
pub record Hk : Type 0 where
  pub node : ℕ
  pub local_epoch : ℤ

-- `timesync_nodes.node[i]` and `timesync_nodes.paramid[i]`
pub record UtcParam : Type 0 where
  pub node : ℕ
  pub paramid : ℕ

-- the `for` loop of `hk_set_utcparam`; `none` if it ends without a `return`
unfoldable pub update_utcparam : ℕ → ℕ → List UtcParam → Option (List UtcParam)
update_utcparam node paramid [] = none
update_utcparam node paramid (p ∷ rest) =
    let later = update_utcparam node paramid rest in
    if p.node == node
    then some (record { node = node % 2 ^ 16; paramid = paramid % 2 ^ 16 } ∷ rest)
    else elim later [ none ↦ none | some rest' ↦ some (p ∷ rest') ]

-- the arguments are `unsigned int`, the cells are `uint16_t`
unfoldable pub hk_set_utcparam : ℕ → ℕ → List UtcParam → List UtcParam
unfolding update_utcparam
hk_set_utcparam node paramid nodes = elim (update_utcparam node paramid nodes) [
  | some updated ↦ updated
  | none ↦
      if leb max_hks (length nodes)
      then nodes
      else nodes ++ record { node = node % 2 ^ 16; paramid = paramid % 2 ^ 16 } ∷ []
]

-- the body of the `if` in the loop of `hk_set_epoch`
unfoldable pub update_hk : ℤ → Bool → Hk → Hk
update_hk epoch auto_sync hk =
    if auto_sync && ltb_ℤ (pos 86400) (hk.local_epoch -ℤ epoch)
    then hk
    else record hk { local_epoch = epoch }

-- the `for` loop of `hk_set_epoch`; `none` if it ends without a `return`
unfoldable pub update_epoch : ℤ → ℕ → Bool → List Hk → Option (List Hk)
unfolding update_hk
update_epoch epoch node auto_sync [] = none
update_epoch epoch node auto_sync (hk ∷ rest) =
    let later = update_epoch epoch node auto_sync rest in
    if hk.node == node
    then some (update_hk epoch auto_sync hk ∷ rest)
    else elim later [ none ↦ none | some rest' ↦ some (hk ∷ rest') ]

-- an epoch that is refused
unfoldable pub is_illegal : ℤ → ℤ → Bool
is_illegal current_epoch epoch = ltb_ℤ current_epoch epoch || ltb_ℤ epoch first_epoch

unfoldable pub hk_set_epoch : ℤ → ℤ → ℕ → Bool → List Hk → List Hk
unfolding update_epoch is_illegal
hk_set_epoch current_epoch epoch node auto_sync hks =
    if is_illegal current_epoch epoch then hks else elim (update_epoch epoch node auto_sync hks) [
      | some updated ↦ updated
      | none ↦
          if leb max_hks (length hks)
          then hks
          else hks ++ record { node = node; local_epoch = epoch } ∷ []
    ]

unfoldable pub hk_get_epoch : ℕ → List Hk → Option ℤ
hk_get_epoch node [] = none
hk_get_epoch node (hk ∷ rest) =
    if node == hk.node then some hk.local_epoch else hk_get_epoch node rest

-- `hk timeoffset [epoch]` behind the option parser, with the node that the options name
unfoldable pub hk_timeoffset : ℤ → ℕ → Option Bytes → List Hk → List Hk
hk_timeoffset current_epoch node none hks = hks
hk_timeoffset current_epoch node (some text) hks =
    let time_offset = atoi text in
    if ltb_ℤ (pos 0) time_offset
    then hk_set_epoch current_epoch time_offset (node % 2 ^ 16) false hks
    else hks
