-- ===== src/Resbuf.antt =====
-- src/resbuf_dump.c: dumping the ring buffer of results that was read from a node. The first four
-- bytes of the buffer hold its two indices.
pub mod Dump
mod Tests
use csh.Prelude.{
  ℕ, zero, suc, ◌+◌, ◌*◌, ◌%◌, ◌^◌, Option, none, some, List, [], ◌∷◌, Bool, true, false, ◌||◌,
  if◌then◌else◌, ltb, leb, ◌==◌, get_or,
}
use csh.Slash.{Status, success, einval}

-- One round of the `while(1)`: the byte that is written, and the new `out`. A byte past the buffer is
-- not the code's to read; it is 0 here.
abbrev pub next_out : ℕ → ℕ → ℕ
next_out size out = let out' = (out + 1) % 2 ^ 16 in if leb size out' then 4 else out'

-- The loop, with fuel; `none` is fuel that has run out. `out` is a `uint16_t`.
unfoldable pub dump_loop : ℕ → ℕ → ℕ → List ℕ → ℕ → Option (List ℕ)
dump_loop zero size input cells out = none
dump_loop (suc fuel) size input cells out =
    let byte = get_or cells out 0 in
    let out' = next_out size out in
    let later = dump_loop fuel size input cells out' in
    if out' == input
    then some (byte ∷ [])
    else elim later [ none ↦ none | some bytes ↦ some (byte ∷ bytes) ]

-- `memcpy` of a `uint16_t`, on a little-endian machine
abbrev pub uint16_at : ℕ → List ℕ → ℕ
uint16_at i cells = get_or cells i 0 + 256 * get_or cells (i + 1) 0

-- The command from the download on: its status, with the bytes that are written. The outer `none` is
-- fuel that has run out.
unfoldable pub dump_buffer : ℕ → ℕ → List ℕ → Option (Status × List ℕ)
unfolding dump_loop
dump_buffer fuel size cells =
    let input = uint16_at 0 cells in
    let out = uint16_at 2 cells in
    if ltb size input
    then some (einval, [])
    else if ltb size out
    then some (einval, [])
    else elim (dump_loop fuel size input cells out) [
      | none ↦ none
      | some bytes ↦ some (success, bytes)
    ]
