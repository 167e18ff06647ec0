-- ===== src/Loki/Add/Posted.antt =====
-- loki.c: what loki_add posts for lines that are printed.
use csh.Prelude.{
  ℕ, suc, ◌+◌, ◌-◌, ◌^◌, ◌≤◌, ◌<◌, ◌≡◌, ◌≢◌, refl, sym, ap, ◌∙◌, inl, inr, Bytes, Option, some,
  List, [], ◌∷◌, ◌++◌, append-nil, append_assoc, Bool, true, false, if◌then◌else◌, Bool-cases, ltb,
  leb, lt→ltb, ◌==◌, map, length, length-append, length-map, take, All, arith,
}
use csh.Loki.Strip.{strip_str}
use csh.Loki.Strip.Lines.{IsPrinted, IsLine, requote, text_of, nul_ended, strip_str-lines}
use csh.Loki.Add.{
  push, pieces, is_prompt, entry, log_size, add_lines, json, skipped, posted, Surroundings, post,
  end_add, loki_add,
}
use csh.Loki.Add.Fits.{whole_entry, entry_whole, post_whole}

-- The entries of the lines that do not look like a prompt, one behind another, each with its comma.
abbrev pub entries : (ℕ → ℕ) → ℕ → List Bytes → Bytes
entries clock i [] = []
entries clock i (l ∷ lines) =
    (if is_prompt l then [] else whole_entry (clock i) l) ++ entries clock (i + 1) lines

-- Lines that are not empty, and that an entry has room for.
abbrev pub IsShortLine : Bytes → Type 0
IsShortLine l = (l ≢ []) × (length l ≤ 4015)

pieces-piece : (l out : Bytes) → All (λ c. c ≢ 0) l → pieces (l ++ 0 ∷ out) ≡ l ∷ pieces out
unfolding pieces
pieces-piece [] out h = refl
pieces-piece (c ∷ l) out (ne, h) =
    let other : (c == 0) ≡ false = ground arith in rw other (ap (push c) (pieces-piece l out h))

requote-ne-nul : (l : Bytes) → All IsPrinted l → All (λ c. c ≢ 0) (map requote l)
requote-ne-nul [] h = tt
requote-ne-nul (c ∷ l) (hc, h) = (ground arith, requote-ne-nul l h)

pieces-nul_ended :
    (lines : List Bytes)
    → All IsLine lines
    → pieces (nul_ended lines) ≡ map (map requote) lines ++ [] ∷ []
unfolding pieces
pieces-nul_ended [] h = refl
pieces-nul_ended (l ∷ lines) (h, rest) =
    pieces-piece (map requote l) (nul_ended lines) (requote-ne-nul l (h.1))
    ∙ ap (λ (ps : List Bytes). map requote l ∷ ps) (pieces-nul_ended lines rest)

entries_none :
    (clock : ℕ → ℕ) (i : ℕ) (lines : List Bytes) → length lines ≡ 0 → entries clock i lines ≡ []
entries_none clock i [] h = refl
entries_none clock i (l ∷ lines) h = absurd (omega arith)

-- The loop adds the entries of all lines, if its rounds suffice.
add_lines-entries :
    (clock : ℕ → ℕ) (count i : ℕ) (lines : List Bytes) (log : Bytes)
    → All IsShortLine lines
    → i + length lines ≤ count
    → length (log ++ entries clock i lines) < log_size
    → add_lines clock count i (lines ++ [] ∷ []) log
      ≡ some (log ++ entries clock i lines, i + length lines)
unfolding add_lines
add_lines-entries clock count i [] log h le room =
    let e : i + 0 ≡ i = omega arith in rw (append-nil log, e) refl
add_lines-entries clock count i ([] ∷ lines) log (h, rest) le room = absurd (h.0 refl)
add_lines-entries clock count i ((c ∷ p) ∷ lines) log (h, rest) le room =
    let e = if is_prompt (c ∷ p) then [] else whole_entry (clock i) (c ∷ p) in
    let later = entries clock (i + 1) lines in
    let same : entry (clock i) (c ∷ p) ≡ whole_entry (clock i) (c ∷ p) =
      entry_whole (clock i) (c ∷ p) (h.1) in
    let whole : log ++ (e ++ later) ≡ (log ++ e) ++ later = sym (append_assoc log e later) in
    let room' : length ((log ++ e) ++ later) < log_size = rw whole at room in
    let fits : ltb (length (log ++ e)) log_size ≡ true =
      lt→ltb (length (log ++ e)) log_size (omega (arith, length-append (log ++ e) later)) in
    let number : i + suc (length lines) ≡ i + 1 + length lines = omega arith in
    let ih = add_lines-entries clock count (i + 1) lines (log ++ e) rest (omega arith) room' in
    let end : Bytes → ℕ → Option (Bytes × ℕ) = λ b n. some (b, n) in
    rw same (
      rw fits (elim (Bool-cases (i + 1 == count)) [
        | inl last ↦
            let nothing : later ≡ [] = entries_none clock (i + 1) lines (ground arith) in
            let last' : i + suc (length lines) ≡ i + 1 = ground arith in
            rw last (
              sym (
                ap (λ (b : Bytes). end b (i + suc (length lines)))
                  (whole ∙ ap (λ (b : Bytes). (log ++ e) ++ b) nothing ∙ append-nil (log ++ e))
                ∙ ap (end (log ++ e)) last'))
        | inr more ↦ rw more (
            ih
            ∙ sym (
                ap (λ (b : Bytes). end b (i + suc (length lines))) whole
                ∙ ap (end ((log ++ e) ++ later)) number))
      ]))

IsShortLine-requote :
    (lines : List Bytes)
    → All IsLine lines
    → All (λ l. length l ≤ 4015) lines
    → All IsShortLine (map (map requote) lines)
IsShortLine-requote [] h k = tt
IsShortLine-requote ([] ∷ lines) (h, rest) (k, short) = absurd (h.0 refl)
IsShortLine-requote ((c ∷ l) ∷ lines) (h, rest) (k, short) =
    ((λ e. cc, omega (arith, length-map l requote)), IsShortLine-requote lines rest short)

length_pos : (b : Bytes) → b ≢ [] → 0 < length b
length_pos [] h = absurd (h refl)
length_pos (c ∷ b) h = omega arith

end_add-some :
    (s : Surroundings) (iscmd : Bool) (log : Bytes) (i : ℕ)
    → log ≢ []
    → 0 < i
    → end_add s iscmd (some (log, i)) ≡ post s iscmd log
unfolding end_add
end_add-some s iscmd [] i ne h = absurd (ne refl)
end_add-some s iscmd (c ∷ log) i ne h = ground arith

-- Where the allocation succeeds, lines of bytes from 32 to 127, with at most 4015 of them each and together small
-- enough for the buffer, are all logged: in their order, each with its own time and with single quotes for double quotes, but for
-- those that look like a prompt. If that leaves an entry, the message is the JSON text around the entries, less
-- the last comma, in full; else nothing is posted.
pub loki_add-entries :
    (s : Surroundings) (iscmd : Bool) (lines : List Bytes)
    → All IsLine lines
    → All (λ l. length l ≤ 4015) lines
    → length (entries s.clock 0 (map (map requote) lines)) < log_size
    → s.allocates ≡ true
    → length s.hostname ≤ s.hostname_len
    → s.node < 2 ^ 32
    → let log = entries s.clock 0 (map (map requote) lines) in
      let text = json s.hostname s.node iscmd (take (length log - 1) log) in
      (log ≢ [] → loki_add true s (text_of lines) iscmd ≡ posted text (length text))
      × (log ≡ [] → loki_add true s (text_of lines) iscmd ≡ skipped)
unfolding loki_add
loki_add-entries s iscmd [] h k room allocated short small =
    (λ ne. absurd (ne refl), λ e. unfold strip_str in refl)
loki_add-entries s iscmd (l ∷ lines) h k room allocated short small =
    let all = l ∷ lines in
    let count = if leb 2 (length all) then length all + 1 else length all in
    let log = entries s.clock 0 (map (map requote) all) in
    let number : length (map (map requote) all) ≡ length all = length-map all (map requote) in
    let stripped = strip_str-lines all h in
    let ps = pieces-nul_ended all h in
    let enough : 0 + length (map (map requote) all) ≤ count = ground (arith, number) in
    let added =
      add_lines-entries s.clock count 0 (map (map requote) all) [] (IsShortLine-requote all h k)
        enough room in
    let counted : ltb count 1 ≡ false = ground arith in
    let reduced : loki_add true s (text_of all) iscmd
        ≡ end_add s iscmd (some (log, 0 + length (map (map requote) all))) =
      rw stripped (rw counted (rw ps (rw added refl))) in
    (
      λ ne.
          reduced
          ∙ end_add-some s iscmd log (0 + length (map (map requote) all)) ne (omega (arith, number))
          ∙ post_whole s iscmd log allocated short small (length_pos log ne),
      λ e.
          reduced
          ∙ ap (λ (b : Bytes). end_add s iscmd (some (b, 0 + length (map (map requote) all)))) e
          ∙ unfold end_add in refl,
    )
