-- ===== src/Version/Parse.antt =====
-- src/require_version.c: `parse_version`, its loop over the text as a step function.
pub mod RoundTrip
use csh.Prelude.{
  ℕ, zero, suc, ◌+◌, ◌-◌, ◌*◌, Bytes, codes, bytes_eq, is_digit, Option, none, some, List, [], ◌∷◌,
  ◌++◌, Bool, true, false, ◌&&◌, ◌||◌, not, if◌then◌else◌, ◌==◌, ltb, leb, length, set, take,
  replicate, ◌>>=◌,
}
use csh.Prelude.Int.{ℤ, pos, pos_part, ltb_ℤ}
use csh.Libc.{strtol, atoi, int_max, starts_digit, scan_digits, digit_of}
use csh.Version.{Version, Round, stop, go, num_version_parts}

-- `*semver_out[i] = n`
unfoldable pub set_part : ℕ → ℕ → Version → Version
set_part zero n v = record v { major = n }
set_part (suc zero) n v = record v { minor = n }
set_part (suc (suc i)) n v = record v { patch = n }

-- `number_start` is the text from there on
pub record ParseState : Type 0 where
  pub version : Version
  pub number_start : Option Bytes
  pub dot_count : ℕ

-- the `case` of a digit, at the text that starts with it
unfoldable pub parse_digit : Bytes → ParseState → Option Bytes → Round (Bool × Version) ParseState
parse_digit text s (some start) = go s
parse_digit text s none =
    let n = (strtol text).0 in
    if ltb_ℤ (pos int_max) n
    then stop (false, s.version)
    else go (record s {
      version = set_part s.dot_count (pos_part n) s.version;
      number_start = some text;
    })

-- the `case` of `-` and `.`
unfoldable pub parse_dot : Bool → ParseState → Option Bytes → Round (Bool × Version) ParseState
parse_dot allow_suffix s none = stop (false, s.version)
parse_dot allow_suffix s (some start) =
    if leb num_version_parts (s.dot_count + 1)
    then stop (allow_suffix, s.version)
    else go (record s { number_start = none; dot_count = s.dot_count + 1 })

abbrev is_empty : Bytes → Bool
is_empty [] = true
is_empty (c ∷ cs) = false

-- one round at the byte `c`, which is the first of the text or not, with `cs` behind it
unfoldable pub parse_step : Bool → Bool → ℕ → Bytes → ParseState → Round (Bool × Version) ParseState
unfolding parse_digit parse_dot
parse_step allow_suffix first c cs s =
    if c == b'v' || c == b'V'
    then (if first then go (record s { number_start = none }) else stop (false, s.version))
    else if c == b'-' || c == b'.'
    then parse_dot allow_suffix s s.number_start
    else if not (is_digit c)
    then (if c == b'+' && is_empty cs then go s else stop (false, s.version))
    else parse_digit (c ∷ cs) s s.number_start

-- behind the loop
unfoldable pub parse_last : ParseState → Option Bytes → Bool × Version
unfolding set_part
parse_last s none = (false, s.version)
parse_last s (some start) = (true, set_part s.dot_count (pos_part (atoi start)) s.version)

unfoldable pub parse_loop : Bool → Bool → Bytes → ParseState → Bool × Version
unfolding parse_last
parse_loop allow_suffix first [] s = parse_last s s.number_start
parse_loop allow_suffix first (c ∷ cs) s = elim (parse_step allow_suffix first c cs s) [
  | stop r ↦ r
  | go s' ↦ parse_loop allow_suffix false cs s'
]

abbrev pub parse_start : ParseState
parse_start = record {
  version = record { major = 0; minor = 0; patch = 0 };
  number_start = none;
  dot_count = 0;
}

-- the status that is returned, and what is left in `version_out`
unfoldable pub parse_version : Bytes → Bool → Bool × Version
unfolding parse_loop parse_step strtol atoi digit_of
parse_version text allow_suffix = parse_loop allow_suffix true text parse_start
