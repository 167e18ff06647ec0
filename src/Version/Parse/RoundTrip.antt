-- ===== src/Version/Parse/RoundTrip.antt =====
-- require_version.c: versions as they are printed and parsed.
use csh.Prelude.{
  ℕ, ◌+◌, ◌≤◌, ◌<◌, ◌≡◌, refl, sym, ◌∙◌, ap, Bytes, none, some, [], ◌∷◌, ◌++◌, Bool, true, false,
  arith, All, is_digit, append-nil,
}
use csh.Prelude.Int.{pos, pos_part}
use csh.Libc.{strtol, atoi, to_int, int_max, starts_digit, format_u, digit_of}
use csh.Libc.Decimal.{IsDecimal, format_u-IsDecimal, strtol-IsDecimal}
use csh.Version.{Version, go}
use csh.Version.Parse.{set_part, ParseState, parse_step, parse_loop, parse_start, parse_version}

-- `%d.%d.%d`
unfoldable pub format_version : Version → Bytes
format_version v = format_u v.major ++ (b'.' ∷ (format_u v.minor ++ (b'.' ∷ format_u v.patch)))

module _ (allow_suffix : Bool) where
  step_digit :
      (first : Bool) (c : ℕ) (cs start : Bytes) (s : ParseState)
      → is_digit c ≡ true
      → s.number_start ≡ some start
      → parse_step allow_suffix first c cs s ≡ go s
  unfolding parse_step
  step_digit first c cs start s d n = ground arith

  loop_digits :
      (ds rest start : Bytes) (s : ParseState)
      → All (λ c. is_digit c ≡ true) ds
      → s.number_start ≡ some start
      → parse_loop allow_suffix false (ds ++ rest) s ≡ parse_loop allow_suffix false rest s
  unfolding parse_loop
  loop_digits [] rest start s h n = refl
  loop_digits (c ∷ ds) rest start s h n =
      rw (step_digit false c (ds ++ rest) start s h.0 n, parse_loop)
        (loop_digits ds rest start s h.1 n)

  abbrev numbered : ParseState → ℕ → Bytes → ParseState
  numbered s n text = record s {
    version = set_part s.dot_count n s.version;
    number_start = some text;
  }

  step_number :
      (first : Bool) (c n : ℕ) (cs rest : Bytes) (s : ParseState)
      → is_digit c ≡ true
      → strtol (c ∷ cs) ≡ (pos n, rest)
      → n ≤ int_max
      → s.number_start ≡ none
      → parse_step allow_suffix first c cs s ≡ go (numbered s n (c ∷ cs))
  unfolding parse_step
  step_number first c n cs rest s d e h none_yet = ground arith

  loop_number :
      (first : Bool) (n : ℕ) (ds rest : Bytes) (s : ParseState)
      → IsDecimal n ds
      → n ≤ int_max
      → starts_digit 10 rest ≡ false
      → s.number_start ≡ none
      → parse_loop allow_suffix first (ds ++ rest) s
        ≡ parse_loop allow_suffix false rest (numbered s n (ds ++ rest))
  unfolding parse_loop
  loop_number first n [] rest s d h end none_yet = absurd (unfold starts_digit in cc (d.starts []))
  loop_number first n (c ∷ ds) rest s d h end none_yet =
      rw
        (
          step_number first c n (ds ++ rest) rest s d.digits.0
              (strtol-IsDecimal n (c ∷ ds) rest d (omega arith) end) h none_yet,
          parse_loop,
        )
        (loop_digits ds rest (c ∷ (ds ++ rest)) _ d.digits.1 refl)

  loop_dot :
      (rest start : Bytes) (s : ParseState)
      → s.number_start ≡ some start
      → s.dot_count + 1 < 3
      → parse_loop allow_suffix false (b'.' ∷ rest) s
        ≡ parse_loop allow_suffix false rest
            (record s { number_start = none; dot_count = s.dot_count + 1 })
  unfolding parse_loop parse_step
  loop_dot rest start s n h = ground arith

  dot_stops : (text : Bytes) → starts_digit 10 (b'.' ∷ text) ≡ false
  unfolding starts_digit digit_of
  dot_stops text = refl

  -- the last number, which `atoi` reads once more
  loop_last :
      (n : ℕ) (ds : Bytes) (s : ParseState)
      → IsDecimal n ds
      → n ≤ int_max
      → s.number_start ≡ none
      → parse_loop allow_suffix false ds s
        ≡ (true, set_part s.dot_count n (set_part s.dot_count n s.version))
  loop_last n ds s d h none_yet =
      let text : strtol (ds ++ []) ≡ (pos n, []) =
        strtol-IsDecimal n ds [] d (omega arith) (unfold starts_digit in refl) in
      let value : pos_part (atoi (ds ++ [])) ≡ n = unfold atoi to_int in ground arith in
      ap (λ t. parse_loop allow_suffix false t s) (sym (append-nil ds))
      ∙ loop_number false n ds [] s d h (unfold starts_digit in refl) none_yet
      ∙ (unfold parse_loop in
          ap (λ k. (true, set_part s.dot_count k (set_part s.dot_count n s.version))) value)

  loop_three :
      (first : Bool) (v : Version)
      → v.major ≤ int_max
      → v.minor ≤ int_max
      → v.patch ≤ int_max
      → parse_loop allow_suffix first (format_version v) parse_start ≡ (true, v)
  unfolding format_version set_part
  loop_three first v a b c =
      let patch_text = format_u v.patch in
      let minor_text = format_u v.minor ++ (b'.' ∷ patch_text) in
      let major_text = format_u v.major ++ (b'.' ∷ minor_text) in
      let s1 = numbered parse_start v.major major_text in
      let s2 = numbered (record s1 { number_start = none; dot_count = 1 }) v.minor minor_text in
      loop_number first v.major (format_u v.major) (b'.' ∷ minor_text) parse_start
        (format_u-IsDecimal v.major (omega arith)) a (dot_stops minor_text) refl
      ∙ loop_dot minor_text major_text s1 refl (omega arith)
      ∙ loop_number false v.minor (format_u v.minor) (b'.' ∷ patch_text) _
          (format_u-IsDecimal v.minor (omega arith)) b (dot_stops patch_text) refl
      ∙ loop_dot patch_text minor_text s2 refl (omega arith)
      ∙ loop_last v.patch patch_text (record s2 { number_start = none; dot_count = 2 })
          (format_u-IsDecimal v.patch (omega arith)) c refl

-- A version whose parts fit into an int, printed as `%d.%d.%d`, with a `v` in front or without, is
-- parsed back to itself, and the parser reports success.
pub parse_version-format_version :
    (v : Version) (allow_suffix : Bool)
    → v.major ≤ int_max
    → v.minor ≤ int_max
    → v.patch ≤ int_max
    → (parse_version (format_version v) allow_suffix ≡ (true, v))
      × (parse_version (b'v' ∷ format_version v) allow_suffix ≡ (true, v))
unfolding parse_version
parse_version-format_version v allow_suffix a b c =
    (loop_three allow_suffix true v a b c, loop_three allow_suffix false v a b c)
