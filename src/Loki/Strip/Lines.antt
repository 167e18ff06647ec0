-- ===== src/Loki/Strip/Lines.antt =====
-- loki.c: what strip_str leaves of any text, and of lines that are printable.
use csh.Prelude.{
  ℕ, suc, ◌+◌, ◌≤◌, ◌<◌, ◌≡◌, ◌≢◌, refl, ap, ◌∙◌, ◌⊎◌, inl, inr, Bytes, List, [], ◌∷◌, ◌++◌,
  if◌then◌else◌, ◌==◌, leb, length, map, All, arith,
}
use csh.Loki.Strip.{
  Mode, plain, after_escape, in_sequence, after_newline, Written, nothing, byte, end_line,
  strip_plain, strip_step, put, Stripped, strip_loop, skip_newlines, strip_str,
}

-- A byte from the blank up to DEL, the last ASCII character, other than the double quote.
abbrev pub IsPlain : ℕ → Type 0
IsPlain c = (32 ≤ c) × (c < 128) × (c ≢ b'"')

abbrev pub PlainOrNul : ℕ → Type 0
PlainOrNul c = (c ≡ 0) ⊎ IsPlain c

abbrev pub nuls : Bytes → ℕ
nuls [] = 0
nuls (c ∷ out) = if c == 0 then nuls out + 1 else nuls out

abbrev IsWritten : Written → Type 0
IsWritten nothing = Unit {0}
IsWritten (byte b) = IsPlain b
IsWritten end_line = Unit {0}

strip_plain-IsWritten : (c : ℕ) → IsWritten (strip_plain c).1
unfolding strip_plain
strip_plain-IsWritten c = ground arith

strip_step-IsWritten : (mode : Mode) (c : ℕ) → IsWritten (strip_step mode c).1
unfolding strip_step
strip_step-IsWritten plain c = strip_plain-IsWritten c
strip_step-IsWritten after_escape c = ground (arith, strip_plain-IsWritten c)
strip_step-IsWritten in_sequence c = ground arith
strip_step-IsWritten after_newline c = ground (arith, strip_plain-IsWritten c)

-- What is known of a result for a text of `n` bytes.
pub record IsStripped (n : ℕ) (r : Stripped) : Type 0 where
  pub all_plain : All PlainOrNul (r.0)
  pub no_longer : length (r.0) ≤ n
  pub counted : nuls (r.0) ≡ r.1

put-IsStripped :
    (n : ℕ) (w : Written) (r : Stripped)
    → IsWritten w
    → IsStripped n r
    → IsStripped (suc n) (put w r)
put-IsStripped n nothing r h s = record {
  all_plain = s.all_plain;
  no_longer = omega (arith, s.no_longer);
  counted = s.counted;
}
put-IsStripped n (byte b) r h s = record {
  all_plain = (inr h, s.all_plain);
  no_longer = omega (arith, s.no_longer);
  counted = ground (arith, s.counted);
}
put-IsStripped n end_line r h s = record {
  all_plain = (inl refl, s.all_plain);
  no_longer = omega (arith, s.no_longer);
  counted = ground (arith, s.counted);
}

strip_loop-IsStripped :
    (mode : Mode) (text : Bytes) → IsStripped (length text) (strip_loop mode text)
unfolding strip_loop
strip_loop-IsStripped mode [] = record { all_plain = tt; no_longer = omega arith; counted = refl }
strip_loop-IsStripped mode (c ∷ text) =
    let step = strip_step mode c in
    put-IsStripped (length text) (step.1) (strip_loop (step.0) text) (strip_step-IsWritten mode c)
      (strip_loop-IsStripped (step.0) text)

length-skip_newlines : (text : Bytes) → length (skip_newlines text) ≤ length text
unfolding skip_newlines
length-skip_newlines [] = omega arith
length-skip_newlines (c ∷ text) = ground (arith, length-skip_newlines text)

-- Whatever the text, its stripped form is not longer than the text, and has only NULs and bytes from 32 to 127,
-- DEL included, without the double quote. The counter is the number of NULs, and one more from two on.
pub strip_str-IsPlain :
    (text : Bytes)
    → All PlainOrNul (strip_str text).0
      × (length (strip_str text).0 ≤ length text)
      × ((strip_str text).1 ≡ (
          if leb 2 (nuls (strip_str text).0)
          then nuls (strip_str text).0 + 1
          else nuls (strip_str text).0))
unfolding strip_str
strip_str-IsPlain text =
    let s = strip_loop-IsStripped plain (skip_newlines text) in
    (s.all_plain, omega (arith, s.no_longer, length-skip_newlines text), rw (s.counted) refl)

-- Lines as they are printed: not empty, of ASCII characters from the blank up to DEL.
abbrev pub IsPrinted : ℕ → Type 0
IsPrinted c = (32 ≤ c) × (c < 128)

abbrev pub IsLine : Bytes → Type 0
IsLine l = (l ≢ []) × All IsPrinted l

abbrev pub requote : ℕ → ℕ
requote c = if c == b'"' then 39 else c

-- with a newline behind each
abbrev pub text_of : List Bytes → Bytes
text_of [] = []
text_of (l ∷ lines) = l ++ 10 ∷ text_of lines

abbrev pub nul_ended : List Bytes → Bytes
nul_ended [] = []
nul_ended (l ∷ lines) = map requote l ++ 0 ∷ nul_ended lines

strip_plain-printed : (c : ℕ) → IsPrinted c → strip_plain c ≡ (plain, byte (requote c))
unfolding strip_plain
strip_plain-printed c h = ground arith

strip_loop-line :
    (l text : Bytes)
    → All IsPrinted l
    → strip_loop plain (l ++ 10 ∷ text) ≡ (
      map requote l ++ 0 ∷ (strip_loop after_newline text).0,
      (strip_loop after_newline text).1 + 1,
    )
unfolding strip_loop
strip_loop-line [] text h = unfold strip_plain in refl
strip_loop-line (c ∷ l) text (hc, h) =
    rw (strip_plain-printed c hc, strip_loop) (rw (strip_loop-line l text h, strip_loop) refl)

strip_step-after_newline : (c : ℕ) → IsPrinted c → strip_step after_newline c ≡ strip_plain c
unfolding strip_step
strip_step-after_newline c h = ground arith

-- Behind a newline, a printable character counts as anywhere.
strip_loop-after_newline :
    (lines : List Bytes)
    → All IsLine lines
    → strip_loop after_newline (text_of lines) ≡ strip_loop plain (text_of lines)
unfolding strip_loop
strip_loop-after_newline [] h = refl
strip_loop-after_newline ([] ∷ lines) (h, rest) = absurd (h.0 refl)
strip_loop-after_newline ((c ∷ l) ∷ lines) (h, rest) =
    ap (λ (s : Mode × Written). put s.1 (strip_loop s.0 (l ++ 10 ∷ text_of lines)))
      (strip_step-after_newline c (h.1.0))

strip_loop-lines :
    (lines : List Bytes)
    → All IsLine lines
    → strip_loop plain (text_of lines) ≡ (nul_ended lines, length lines)
unfolding strip_loop
strip_loop-lines [] h = refl
strip_loop-lines (l ∷ lines) (h, rest) =
    let later : strip_loop after_newline (text_of lines) ≡ (nul_ended lines, length lines) =
      strip_loop-after_newline lines rest ∙ strip_loop-lines lines rest in
    strip_loop-line l (text_of lines) (h.1)
    ∙ ap (λ (s : Stripped). (map requote l ++ 0 ∷ s.0, s.1 + 1)) later
    ∙ ap (λ (n : ℕ). (map requote l ++ 0 ∷ nul_ended lines, n)) (omega arith)

skip_newlines-lines :
    (lines : List Bytes) → All IsLine lines → skip_newlines (text_of lines) ≡ text_of lines
unfolding skip_newlines
skip_newlines-lines [] h = refl
skip_newlines-lines ([] ∷ lines) (h, rest) = absurd (h.0 refl)
skip_newlines-lines ((c ∷ l) ∷ lines) ((ne, (printed, more)), rest) = ground arith

pub strip_str-lines :
    (lines : List Bytes)
    → All IsLine lines
    → strip_str (text_of lines)
      ≡ (nul_ended lines, if leb 2 (length lines) then length lines + 1 else length lines)
unfolding strip_str
strip_str-lines lines h = rw (skip_newlines-lines lines h) (rw (strip_loop-lines lines h) refl)
