-- ===== src/ParamSniffer/Logged.antt =====
-- param_sniffer.c: the lines that the values of a parameter become.
use csh.Prelude.{
  ℕ, suc, ◌+◌, ◌≤◌, ◌<◌, ◌≡◌, refl, sym, ap, ◌∙◌, ◌⊎◌, inl, inr, Bytes, codes, some, List, [], ◌∷◌,
  ◌++◌, Bool, true, false, ◌&&◌, not, if◌then◌else◌, Bool-cases, leb, length, length-append, set,
  arith,
}
use csh.Prelude.Int.{ℤ, pos_part}
use csh.Libc.{format_u}
use csh.Loki.Add.Fits.{length-format_u}
use csh.Vts.{Vts, check_vts, Sample, vts_add}
use csh.ParamSniffer.{
  is_number, is_double, Param, Reader, Sinks, sample_line, give, Looped, log_loop,
  param_sniffer_log,
}
use csh.ParamSniffer.Agree.{
  with_text, Room, with_text-append, with_text-nil, give-with_text, Room-first, Room-with_text,
}

only_vts :
    {D : Type 0} (b : Bool) (vts : Vts D) (s : Sinks D)
    → ((if b then record s { vts = vts } else s).vm ≡ s.vm)
      × ((if b then record s { vts = vts } else s).prometheus ≡ s.prometheus)
      × ((if b then record s { vts = vts } else s).logfile ≡ s.logfile)
only_vts true vts s = (refl, refl, refl)
only_vts false vts s = (refl, refl, refl)

module _ {D Item : Type 0} (reader : Reader D Item) (param : Param) (time_ms : ℕ) where
  abbrev pub line_at : ℕ → Item → Bytes
  line_at i item = sample_line param i (reader.print param.kind item) time_ms

  -- The lines of the values in front of the first that fails, each with its index.
  abbrev pub lines_from : ℕ → List Item → Bytes
  lines_from i [] = []
  lines_from i (item ∷ items) =
      if reader.fails param.kind item then [] else line_at i item ++ lines_from (i + 1) items

  abbrev pub all_good : List Item → Bool
  all_good [] = true
  all_good (item ∷ items) = not (reader.fails param.kind item) && all_good items

  -- A number with a short name and numbers that are printed short.
  pub record IsShort : Type 0 where
    pub number : is_number param.kind ≡ true
    pub name : length param.name ≤ 800
    pub print : (item : Item) → length (reader.print param.kind item) ≤ 100

  length-line_at : IsShort → (i : ℕ) (item : Item) → length (line_at i item) < 1000
  length-line_at short i item =
      let value = reader.print param.kind item in
      let end = codes " " ++ (format_u time_ms ++ codes "\n") in
      let from_index = format_u i ++ (codes "\"} " ++ (value ++ end)) in
      let from_node = format_u param.node ++ (codes "\", idx=\"" ++ from_index) in
      omega (
        arith,
        short.name,
        short.print item,
        length-format_u i,
        length-format_u time_ms,
        length-format_u param.node,
        length-append param.name (codes "{node=\"" ++ from_node),
        length-append (format_u param.node) (codes "\", idx=\"" ++ from_index),
        length-append (format_u i) (codes "\"} " ++ (value ++ end)),
        length-append value end,
        length-append (format_u time_ms) (codes "\n"),
      )

  abbrev arr_at : Bool → ℕ → Item → List D → List D
  arr_at vts i item arr =
      if vts && is_double param.kind then set arr i (reader.to_double item) else arr

  not_outside :
      (vts d : Bool) (i n : ℕ) → (vts ≡ false) ⊎ (i + suc n ≤ 4) → ((vts && d) && leb 4 i) ≡ false
  not_outside false d i n h = refl
  not_outside true false i n h = refl
  not_outside true true i n (inl e) = cc
  not_outside true true i n (inr h) = ground arith

  log_loop_step :
      IsShort
      → (vts : Bool) (i : ℕ) (tmp : Bytes) (item : Item) (items : List Item) (arr : List D)
      → (s : Sinks D) → (vts ≡ false) ⊎ (i + length (item ∷ items) ≤ 4)
      → log_loop reader param vts time_ms i tmp (item ∷ items) arr s ≡ (
          if reader.fails param.kind item
          then some (record { sinks = s; arr = arr_at vts i item arr; good = false })
          else log_loop reader param vts time_ms
              (i + 1)
              (line_at i item)
              items
              (arr_at vts i item arr)
              (give (line_at i item) s))
  unfolding log_loop
  log_loop_step short vts i tmp item items arr s inside =
      let room : leb 1000 (length (line_at i item)) ≡ false =
        ground (arith, length-line_at short i item) in
      let within = not_outside vts (is_double param.kind) i (length items) inside in
      rw (short.number) (rw room (rw within refl))

  log_loop-with_text :
      IsShort
      → (vts : Bool) (i : ℕ) (tmp : Bytes) (items : List Item) (arr : List D) (s : Sinks D)
      → (vts ≡ false) ⊎ (i + length items ≤ 4)
      → Room (lines_from i items) s
      → (r : Looped D) × (log_loop reader param vts time_ms i tmp items arr s ≡ some r)
        × (r.sinks ≡ with_text (lines_from i items) s)
        × (r.good ≡ all_good items)
  unfolding log_loop
  log_loop-with_text short vts i tmp [] arr s inside room =
      (record { sinks = s; arr = arr; good = true }, refl, sym (with_text-nil s), refl)
  log_loop-with_text short vts i tmp (item ∷ items) arr s inside room =
      let line = line_at i item in
      let later = lines_from (i + 1) items in
      let step = log_loop_step short vts i tmp item items arr s inside in
      elim (Bool-cases (reader.fails param.kind item)) [
        | inl e ↦
            let none_left : lines_from i (item ∷ items) ≡ [] = rw e refl in
            (
              record { sinks = s; arr = arr_at vts i item arr; good = false },
              step ∙ rw e refl,
              sym (with_text-nil s) ∙ ap (λ (t : Bytes). with_text t s) (sym none_left),
              rw e refl,
            )
        | inr e ↦
            let split : lines_from i (item ∷ items) ≡ line ++ later = rw e refl in
            let room' : Room (line ++ later) s = rw split at room in
            let gave : give line s ≡ with_text line s =
              give-with_text s line (Room-first s line later room') in
            let inside' : (vts ≡ false) ⊎ (i + 1 + length items ≤ 4) = elim inside [
              | inl v ↦ inl v
              | inr h ↦ inr (omega arith)
            ] in
            let (r, run, sinks, good) =
              log_loop-with_text short vts (i + 1) line items (arr_at vts i item arr)
                (with_text line s) inside' (Room-with_text s line later room') in
            (
              r,
              step ∙ rw e (rw gave run),
              sinks ∙ with_text-append s line later ∙ ap (λ (t : Bytes). with_text t s) (sym split),
              good ∙ rw e refl,
            )
      ]

  -- The values of a number with a short name, with room in both buffers, and at most four indices if they go to the
  -- visualisation tool: the metric clients that run and the log file all get the same lines behind what they
  -- had. These are the values in front of the first that fails, in order, each with its index from the offset on.
  pub param_sniffer_log-with_text :
      IsShort
      → (cells : List D) (offset : ℤ) (items : List Item) (s : Sinks D)
      → (check_vts s.vts_running s.adcs_node param.node param.id ≡ false)
        ⊎ (pos_part offset + length items ≤ 4)
      → Room (lines_from (pos_part offset) items) s
      → (s' : Sinks D) × (param_sniffer_log reader cells param offset time_ms items s
          ≡ some (s', all_good items))
        × (s'.vm ≡ (with_text (lines_from (pos_part offset) items) s).vm)
        × (s'.prometheus ≡ (with_text (lines_from (pos_part offset) items) s).prometheus)
        × (s'.logfile ≡ (with_text (lines_from (pos_part offset) items) s).logfile)
  unfolding param_sniffer_log
  param_sniffer_log-with_text short cells offset items s inside room =
      let vts = check_vts s.vts_running s.adcs_node param.node param.id in
      let (r, run, sinks, good) =
        log_loop-with_text short vts (pos_part offset) [] items cells s inside room in
      let sample : Sample D = record {
        arr = r.arr;
        id = param.id;
        count = length items;
        time_ms = time_ms;
      } in
      let out = r.sinks in
      let s' : Sinks D = if vts then record out { vts = vts_add sample out.vts } else out in
      let whole : param_sniffer_log reader cells param offset time_ms items s
          ≡ some (s', all_good items) =
        rw (run, param_sniffer_log) (ap (λ (b : Bool). some (s', b)) good) in
      let (vm, prometheus, logfile) = only_vts vts (vts_add sample out.vts) out in
      (
        s',
        whole,
        vm ∙ ap (λ (x : Sinks D). x.vm) sinks,
        prometheus ∙ ap (λ (x : Sinks D). x.prometheus) sinks,
        logfile ∙ ap (λ (x : Sinks D). x.logfile) sinks,
      )
