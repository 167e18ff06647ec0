-- ===== src/HkSniffer/Packet.antt =====
-- hk_param_sniffer.c: the values of a packet, with the epochs that are read from it and applied to it.
-- Decoding is the mpack library's: a packet is the list of its values. A look-up of a parameter, by
-- node and number or by name, is a parameter of the model.
pub mod Epochs
use csh.Prelude.{
  ℕ, ◌+◌, ◌%◌, ◌^◌, Bytes, Option, none, some, List, [], ◌∷◌, Bool, true, false, ◌&&◌, ◌||◌, not,
  if◌then◌else◌, ◌==◌, ltb, leb, length,
}
use csh.Prelude.Int.{ℤ, pos, negsuc, ◌+ℤ◌, ◌-ℤ◌, eq_ℤ, pos_part}
use csh.Slash.{Status, success, einval, argument}
use csh.KnownHosts.{Host, get_host_by_addr_or_name}
use csh.Locks.{to_uint32}
use csh.HkSniffer.{Hk, UtcParam, hk_set_epoch, hk_get_epoch, hk_set_utcparam}

-- one value of a packet, from `param_deserialize_id` and `mpack_peek_tag`
pub record Entry : Type 0 where
  pub id : ℕ
  pub node : ℕ
  pub tv_sec : ℕ
  pub value : ℤ

-- what is handed to `param_sniffer_log`
pub record Sample : Type 0 where
  pub node : ℕ
  pub id : ℕ
  pub tv_sec : ℕ

pub record Sniffed : Type 0 where
  pub hks : List Hk
  pub logged : List Sample

-- the loop over `timesync_nodes`
unfoldable pub is_utcparam : ℕ → ℕ → List UtcParam → Bool
is_utcparam node id [] = false
is_utcparam node id (p ∷ rest) = (p.node == node && p.paramid == id) || is_utcparam node id rest

-- `local_epoch` behind that loop, and the table of epochs
unfoldable pub read_epoch : ℤ → ℕ → ℕ → Entry → List UtcParam → List Hk → ℤ × List Hk
unfolding is_utcparam
read_epoch now src node entry timesync_nodes hks =
    let local_epoch = entry.value -ℤ pos entry.tv_sec in
    if is_utcparam node entry.id timesync_nodes
    then (local_epoch, hk_set_epoch now local_epoch src true hks)
    else (negsuc 0, hks)

-- the epoch that is applied, or none where the value is skipped
unfoldable pub applied_epoch : ℕ → ℤ → List Hk → Option ℤ
applied_epoch src local_epoch hks =
    if eq_ℤ local_epoch (negsuc 0) then hk_get_epoch src hks else some local_epoch

abbrev pub log : ℕ → ℕ → ℕ → Sniffed → Sniffed
log node id tv_sec s = record s {
  logged = record { node = node; id = id; tv_sec = tv_sec } ∷ s.logged;
}

abbrev pub log_applied : ℕ → Entry → Option ℤ → Sniffed → Sniffed
log_applied node entry none s = s
log_applied node entry (some epoch) s = log node entry.id (to_uint32 (pos entry.tv_sec +ℤ epoch)) s

-- `packet->id.src` in place of node 0
abbrev pub node_of : ℕ → Entry → ℕ
node_of src entry = if entry.node == 0 then src else entry.node

-- `while (reader.data < reader.end)`
unfoldable pub sniff_loop : ℤ → ℕ → (ℕ → ℕ → Bool) → List UtcParam → List Entry → List Hk → Sniffed
unfolding read_epoch applied_epoch
sniff_loop now src is_known timesync_nodes [] hks = record { hks = hks; logged = [] }
sniff_loop now src is_known timesync_nodes (entry ∷ entries) hks =
    let node = node_of src entry in
    let read = read_epoch now src node entry timesync_nodes hks in
    let unchanged = sniff_loop now src is_known timesync_nodes entries hks in
    let updated = sniff_loop now src is_known timesync_nodes entries read.1 in
    if not (is_known node entry.id)
    then unchanged
    else if entry.tv_sec == 0
    then record { hks = hks; logged = [] }
    else if ltb entry.tv_sec 1577836800
    then log_applied node entry (applied_epoch src read.0 read.1) updated
    else log node entry.id entry.tv_sec unchanged

-- of a packet: its source port and number of bytes, whether it has a checksum and whether that fits
pub record Packet : Type 0 where
  pub src : ℕ
  pub sport : ℕ
  pub length : ℕ
  pub has_crc32 : Bool
  pub crc32_fits : Bool
  pub entries : List Entry

-- `param_sniffer_crc(packet) >= 0`
unfoldable pub param_sniffer_crc : Packet → Bool
param_sniffer_crc packet =
    if packet.has_crc32 then (if ltb packet.length 4 then false else packet.crc32_fits) else true

unfoldable pub hk_param_sniffer :
    ℤ → (ℕ → ℕ → Bool) → List UtcParam → Packet → List Hk → Bool × Sniffed
unfolding sniff_loop param_sniffer_crc
hk_param_sniffer now is_known timesync_nodes packet hks =
    if not (packet.sport == 13)
    then (false, record { hks = hks; logged = [] })
    else if not (param_sniffer_crc packet)
    then (false, record { hks = hks; logged = [] })
    else (true, sniff_loop now packet.src is_known timesync_nodes packet.entries hks)

-- the texts around the first ':'
unfoldable pub split_colon : Bytes → Option (Bytes × Bytes)
split_colon [] = none
split_colon (c ∷ cs) =
    let later = split_colon cs in
    if c == b':'
    then some ([], cs)
    else elim later [ none ↦ none | some parts ↦ some (c ∷ parts.0, parts.1) ]

-- the node and the name of the parameter; `none` is a node that is not resolved
unfoldable pub utcparam_of : ℕ → List Host → Bytes → Option (ℕ × Bytes)
unfolding split_colon
utcparam_of dfl_node known text = elim (split_colon text) [
  | none ↦ some (dfl_node, text)
  | some parts ↦ elim parts.0 [
    | [] ↦ some (dfl_node, text)
    | c ∷ cs ↦ elim (get_host_by_addr_or_name (c ∷ cs) known).1 [
      | none ↦ none
      | some node ↦ some (to_uint32 node, parts.1)
    ]
  ]
]

-- The index of the option parser is not tested: after an error, -1, the first argument is read.
abbrev pub next_index : Option ℕ → ℕ
next_index none = 0
next_index (some argi) = argi + 1

unfoldable pub hk_utcparam :
    (ℕ → Bytes → Option ℕ)
    → ℕ
    → List Host
    → Option ℕ
    → List Bytes
    → List UtcParam
    → Status × List UtcParam
unfolding utcparam_of
hk_utcparam find_name dfl_node known argi argv nodes =
    if ltb (length argv) 2
    then (einval, nodes)
    else elim (utcparam_of dfl_node known (argument (next_index argi) argv)) [
      | none ↦ (einval, nodes)
      | some (node, name) ↦ elim (find_name node name) [
        | none ↦ (einval, nodes)
        | some id ↦ (success, hk_set_utcparam node id nodes)
      ]
    ]
