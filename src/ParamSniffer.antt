-- ===== src/ParamSniffer.antt =====
-- src/param_sniffer.c: the values of the packets on the network, which go to the metric clients, a log file and
-- the visualisation tool. The mpack library decodes: a packet is a list of entries with their values, and
-- what it makes of a value is a parameter. A value that fails ends the packet.
pub mod Agree
pub mod Logged
mod Tests
use csh.Prelude.{
  ℕ, ◌+◌, ◌*◌, ◌/◌, Bytes, codes, Option, none, some, List, [], ◌∷◌, ◌++◌, Bool, true, false, ◌&&◌,
  ◌||◌, not, if◌then◌else◌, ◌==◌, ltb, leb, length, set,
}
use csh.Prelude.Int.{ℤ, pos_part}
use csh.Libc.{format_u}
use csh.HkSniffer.Packet.{Packet, param_sniffer_crc}
use csh.Metrics.{Push, vm_add}
use csh.Prometheus.{Exporter, prometheus_add}
use csh.Vts.{Vts, Sample, check_vts, vts_add}

-- `param->type`, by the conversion that is used
pub data Kind : Type 0 where
  unsigned : Kind
  unsigned64 : Kind
  signed : Kind
  signed64 : Kind
  float : Kind
  double : Kind
  other : Kind

abbrev pub is_number : Kind → Bool
is_number other = false
is_number _ = true

abbrev pub is_double : Kind → Bool
is_double double = true
is_double _ = false

-- The fields of `param_t` that are read.
pub record Param : Type 0 where
  pub kind : Kind
  pub name : Bytes
  pub node : ℕ
  pub id : ℕ

-- What `mpack_expect_*` makes of a value of a kind: the text of the number that is printed, the double, and
-- whether the reader is then in error.
pub record Reader (D Item : Type 0) : Type 0 where
  pub print : Kind → Item → Bytes
  pub to_double : Item → D
  pub fails : Kind → Item → Bool

-- `vm_running`, `prometheus_started`, `logfile` and the settings of the visualisation tool, with the state of each
pub record Sinks (D : Type 0) : Type 0 where
  pub vm_running : Bool
  pub vm : Push
  pub prometheus_started : Bool
  pub prometheus : Exporter
  pub logfile : Option Bytes
  pub vts_running : Bool
  pub adcs_node : ℕ
  pub vts : Vts D

-- the `sprintf` to `tmp`
abbrev pub sample_line : Param → ℕ → Bytes → ℕ → Bytes
sample_line param i value time_ms =
    param.name
    ++ (codes "{node=\""
        ++ (format_u param.node
            ++ (codes "\", idx=\""
                ++ (format_u i
                    ++ (codes "\"} "
                        ++ (value ++ (codes " " ++ (format_u time_ms ++ codes "\n"))))))))

-- an entry of a packet, behind `param_deserialize_id`
pub record Entry (Item : Type 0) : Type 0 where
  pub id : ℕ
  pub node : ℕ
  pub tv_sec : ℕ
  pub tv_nsec : ℕ
  pub offset : ℤ
  pub items : List Item

-- The constants of the parameter library.
pub record Protocol : Type 0 where
  pub port_server : ℕ
  pub pull_response : ℕ
  pub pull_response_v2 : ℕ

-- from the clock, in milliseconds, unless there is a time stamp
abbrev pub time_of : ℕ → ℕ → ℕ → ℕ
time_of now_ms tv_sec tv_nsec =
    if ltb 0 tv_sec then (tv_sec * 1000000 + tv_nsec / 1000) / 1000 else now_ms

-- behind the loop over the values: the sinks, `vts_arr`, and whether the reader is still good
pub record Looped (D : Type 0) : Type 0 where
  pub sinks : Sinks D
  pub arr : List D
  pub good : Bool

-- `tmp` goes to each sink.
unfoldable pub give : {D : Type 0} → Bytes → Sinks D → Sinks D
give tmp s = record s {
  vm = if s.vm_running then vm_add tmp s.vm else s.vm;
  prometheus = if s.prometheus_started then prometheus_add tmp s.prometheus else s.prometheus;
  logfile = elim s.logfile [ none ↦ none | some text ↦ some (text ++ tmp) ];
}

module _ {D Item : Type 0} where
  -- The loop over the values, from index i on; none for a write beyond `tmp` or `vts_arr`.
  unfoldable pub log_loop :
      Reader D Item
      → Param
      → Bool
      → ℕ
      → ℕ
      → Bytes
      → List Item
      → List D
      → Sinks D
      → Option (Looped D)
  log_loop reader param vts time_ms i tmp [] arr s =
      some (record { sinks = s; arr = arr; good = true })
  log_loop reader param vts time_ms i tmp (item ∷ items) arr s =
      let tmp' =
        if is_number param.kind
        then sample_line param i (reader.print param.kind item) time_ms
        else tmp in
      let kept = vts && is_double param.kind in
      let arr' = if kept then set arr i (reader.to_double item) else arr in
      let rest = log_loop reader param vts time_ms (i + 1) tmp' items arr' (give tmp' s) in
      if leb 1000 (length tmp')
      then none
      else if kept && leb 4 i
      then none
      else if reader.fails param.kind item
      then some (record { sinks = s; arr = arr'; good = false })
      else rest

  -- The cells of `vts_arr` hold anything at first.
  unfoldable pub param_sniffer_log :
      Reader D Item → List D → Param → ℤ → ℕ → List Item → Sinks D → Option (Sinks D × Bool)
  unfolding log_loop
  param_sniffer_log reader cells param offset time_ms items s =
      let vts = check_vts s.vts_running s.adcs_node param.node param.id in
      elim (log_loop reader param vts time_ms (pos_part offset) [] items cells s) [
        | none ↦ none
        | some r ↦
            let sample : Sample D = record {
              arr = r.arr;
              id = param.id;
              count = length items;
              time_ms = time_ms;
            } in
            let sinks = r.sinks in
            some (if vts then record sinks { vts = vts_add sample sinks.vts } else sinks, r.good)
      ]

  -- The loop over the entries: the list of parameters gives the parameter of a node and a number.
  unfoldable pub sniff_entries :
      Reader D Item
      → List D
      → ℕ
      → ℕ
      → ℕ
      → (ℕ → ℕ → Option Param)
      → List (Entry Item)
      → Sinks D
      → Option (Sinks D)
  unfolding param_sniffer_log
  sniff_entries reader cells now_ms src timestamp_rx find [] s = some s
  sniff_entries reader cells now_ms src timestamp_rx find (e ∷ entries) s =
      let node = if e.node == 0 then src else e.node in
      let untimed = e.tv_sec == 0 && not (timestamp_rx == 0) in
      let time_ms =
        if untimed then time_of now_ms timestamp_rx 0 else time_of now_ms e.tv_sec e.tv_nsec in
      elim (find node e.id) [
        | none ↦ sniff_entries reader cells now_ms src timestamp_rx find entries s
        | some param ↦ elim (param_sniffer_log reader cells param e.offset time_ms e.items s) [
          | none ↦ none
          | some (s', good) ↦ elim good [
            | true ↦ sniff_entries reader cells now_ms src timestamp_rx find entries s'
            | false ↦ some s'
          ]
        ]
      ]

  -- A round of the thread; `taken` is what `hk_param_sniffer` returns, whose own values are in HkSniffer.
  unfoldable pub param_sniffer :
      Protocol
      → Reader D Item
      → List D
      → ℕ
      → (ℕ → ℕ → Option Param)
      → Bool
      → Packet
      → ℕ
      → ℕ
      → ℕ
      → List (Entry Item)
      → Sinks D
      → Option (Sinks D)
  unfolding sniff_entries param_sniffer_crc
  param_sniffer protocol reader cells now_ms find taken packet dport kind timestamp_rx entries s =
      if taken
      then some s
      else if not (packet.sport == protocol.port_server) && not (dport == protocol.port_server)
      then some s
      else if not (param_sniffer_crc packet)
      then some s
      else if not (kind == protocol.pull_response) && not (kind == protocol.pull_response_v2)
      then some s
      else sniff_entries reader cells now_ms packet.src timestamp_rx find entries s
