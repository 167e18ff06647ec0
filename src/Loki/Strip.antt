-- ===== src/Loki/Strip.antt =====
-- loki.c: strip_str, which makes the lines of a text plain. It writes over the text that it reads; as a byte is
-- written only where one is read, what it still has to read is as it was.
pub mod Lines
use csh.Prelude.{
  ℕ, ◌+◌, Bytes, List, [], ◌∷◌, Bool, true, false, ◌&&◌, ◌||◌, not, if◌then◌else◌, ◌==◌, ltb, leb,
  is_digit,
}

-- `c < 32` of a signed char
abbrev pub below_space : ℕ → Bool
below_space c = ltb c 32 || leb 128 c

-- Where the reading stands: anywhere, behind an escape character, within an escape sequence, or behind a
-- newline, where other special characters are skipped.
pub data Mode : Type 0 where
  plain : Mode
  after_escape : Mode
  in_sequence : Mode
  after_newline : Mode

pub data Written : Type 0 where
  nothing : Written
  byte : ℕ → Written
  end_line : Written

-- the chain of tests at the head of the loop
unfoldable pub strip_plain : ℕ → Mode × Written
strip_plain c =
    if c == 27
    then (after_escape, nothing)
    else if c == 10
    then (after_newline, end_line)
    else if c == 9
    then (plain, byte 32)
    else if c == b'"'
    then (plain, byte 39)
    else if below_space c
    then (plain, nothing)
    else (plain, byte c)

unfoldable pub strip_step : Mode → ℕ → Mode × Written
unfolding strip_plain
strip_step plain c = strip_plain c
strip_step after_escape c = if c == b'[' then (in_sequence, nothing) else strip_plain c
strip_step in_sequence c =
    if is_digit c || c == b';' then (in_sequence, nothing) else (plain, nothing)
strip_step after_newline c =
    if below_space c && not (c == 27) then (after_newline, nothing) else strip_plain c

-- the bytes written, with a NUL for each line that ends, and the number of those
abbrev pub Stripped : Type 0
Stripped = Bytes × ℕ

abbrev pub put : Written → Stripped → Stripped
put nothing r = r
put (byte b) (out, n) = (b ∷ out, n)
put end_line (out, n) = (0 ∷ out, n + 1)

unfoldable pub strip_loop : Mode → Bytes → Stripped
unfolding strip_step
strip_loop mode [] = ([], 0)
strip_loop mode (c ∷ text) =
    let (mode', written) = strip_step mode c in put written (strip_loop mode' text)

unfoldable pub skip_newlines : Bytes → Bytes
skip_newlines [] = []
skip_newlines (c ∷ text) = if c == 10 || c == 13 then skip_newlines text else c ∷ text

-- The text that is left, without its last NUL, and the counter.
unfoldable pub strip_str : Bytes → Stripped
unfolding strip_loop skip_newlines
strip_str text =
    let (out, n) = strip_loop plain (skip_newlines text) in (out, if leb 2 n then n + 1 else n)
