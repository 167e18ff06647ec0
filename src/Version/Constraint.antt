-- ===== src/Version/Constraint.antt =====
-- src/require_version.c: `compare_version`. The constraint is cleaned into two small arrays, scanned, and
-- compared as one number.
pub mod Clean
pub mod Laws
use csh.Prelude.{
  ℕ, zero, suc, ◌+◌, ◌-◌, ◌*◌, Bytes, codes, bytes_eq, is_digit, Option, none, some, List, [], ◌∷◌,
  ◌++◌, Bool, true, false, ◌&&◌, ◌||◌, not, if◌then◌else◌, ◌==◌, ltb, leb, length, set, take,
  replicate, ◌>>=◌,
}
use csh.Prelude.Int.{ℤ, pos, pos_part, ltb_ℤ}
use csh.Libc.{strtol, atoi, int_max, starts_digit, scan_digits, digit_of}
use csh.Version.{Version, Round, stop, go, num_version_parts}

abbrev pub operator_maxlen : ℕ
operator_maxlen = 3

abbrev pub constraint_maxlen : ℕ
constraint_maxlen = 18

-- `operator` with all its cells; `constraint` up to `clean_idx`; `wildcard_arr`
pub record CleanState : Type 0 where
  pub operator : Bytes
  pub constraint : Bytes
  pub wildcards : List Bool
  pub dot_count : ℕ

abbrev is_operator : ℕ → Bool
is_operator c = c == b'<' || c == b'>' || c == b'=' || c == b'!'

-- one round at the byte `c` at `dirty_idx`; the only way out is `return false`
unfoldable pub clean_step : ℕ → ℕ → CleanState → Round (Unit {0}) CleanState
clean_step dirty_idx c s =
    if ltb dirty_idx operator_maxlen && is_operator c
    then (let written = set s.operator dirty_idx c in
        if c == b'='
        then go (record s { operator = written })
        else go (record s {
          operator =
              take (dirty_idx + 1) written ++ replicate (operator_maxlen - (dirty_idx + 1)) 0;
        }))
    else if c == b'v' || c == b'V'
    then go s
    else if c == b'-' || c == b'.'
    then (if leb num_version_parts (s.dot_count + 1)
        then stop tt
        else go (record s { constraint = s.constraint ++ b'.' ∷ []; dot_count = s.dot_count + 1 }))
    else if c == b'*'
    then go (record s {
      wildcards = set s.wildcards s.dot_count true;
      constraint = s.constraint ++ b'0' ∷ [];
    })
    else if is_digit c
    then go (record s { constraint = s.constraint ++ c ∷ [] })
    else stop tt

unfoldable pub clean_loop : ℕ → Bytes → CleanState → Round (Unit {0}) CleanState
clean_loop dirty_idx [] s = go s
clean_loop dirty_idx (c ∷ cs) s =
    elim (ltb (length s.constraint) constraint_maxlen && ltb s.dot_count num_version_parts) [
      | false ↦ go s
      | true ↦ elim (clean_step dirty_idx c s) [
        | stop r ↦ stop r
        | go s' ↦ clean_loop (dirty_idx + 1) cs s'
      ]
    ]

abbrev pub clean_start : CleanState
clean_start = record {
  operator = b'=' ∷ b'=' ∷ 0 ∷ [];
  constraint = [];
  wildcards = false ∷ false ∷ false ∷ [];
  dot_count = 0;
}

-- `%d` on digits; `none` is a number that an int cannot hold, which C leaves undefined
unfoldable pub scan_int : Bytes → Option (ℕ × Bytes)
scan_int text =
    let (n, rest) = scan_digits 10 0 text in if ltb int_max n then none else some (n, rest)

-- The conversions after the first: `.%d` for each number that is still wanted. What does not match
-- ends the scan, and the numbers that are left stay 0.
unfoldable pub scan_more : ℕ → Bytes → Option (List ℕ)
scan_more zero text = some []
scan_more (suc k) [] = some (replicate (suc k) 0)
scan_more (suc k) (c ∷ text) = elim (c == b'.' && starts_digit 10 text) [
  | false ↦ some (replicate (suc k) 0)
  | true ↦ do (n, rest) ← scan_int text; ns ← scan_more k rest; some (n ∷ ns)
]

-- `sscanf(constraint, "%d.%d.%d", …)`
unfoldable pub scan_constraint : Bytes → Option (List ℕ)
scan_constraint text = elim (starts_digit 10 text) [
  | false ↦ some (replicate num_version_parts 0)
  | true ↦ do (n, rest) ← scan_int text; ns ← scan_more 2 rest; some (n ∷ ns)
]

-- the operator as a C string: its cells up to a NUL
unfoldable pub c_string : Bytes → Bytes
c_string [] = []
c_string (c ∷ cs) = if c == 0 then [] else c ∷ c_string cs

-- `version_parts[i] * scaling_factors[i]`, added up as far as the first wildcard
unfoldable pub scaled : List Bool → List ℕ → List ℕ → ℕ
scaled (w ∷ ws) (p ∷ ps) (f ∷ fs) = if w then 0 else p * f + scaled ws ps fs
scaled _ _ _ = 0

abbrev pub scaling_factors : List ℕ
scaling_factors = 1000000 ∷ 1000 ∷ 1 ∷ []

-- Behind the `sscanf`. An operator that is not known is printed if `verbose`, and an array with no
-- NUL cannot be.
unfoldable pub evaluate : Bool → Bytes → ℕ → ℕ → Option Bool
unfolding bytes_eq c_string
evaluate verbose operator version constraint =
    let op = c_string operator in
    if bytes_eq op (codes "==")
    then some (version == constraint)
    else if bytes_eq op (codes "!=")
    then some (not (version == constraint))
    else if bytes_eq op (codes ">=")
    then some (leb constraint version)
    else if bytes_eq op (codes "<=")
    then some (leb version constraint)
    else if bytes_eq op (codes ">")
    then some (ltb constraint version)
    else if bytes_eq op (codes "<")
    then some (ltb version constraint)
    else if verbose && length op == operator_maxlen
    then none
    else some false

-- Behind the loop. An array that is full has no NUL, and is no string that `sscanf` can read.
unfoldable pub compare_clean : Bool → Version → Round (Unit {0}) CleanState → Option Bool
compare_clean verbose v (stop r) = some false
compare_clean verbose v (go s) = if length s.constraint == constraint_maxlen then none else do
  parts ← scan_constraint s.constraint
  evaluate verbose s.operator
      (scaled s.wildcards (v.major ∷ v.minor ∷ v.patch ∷ []) scaling_factors)
      (scaled s.wildcards parts scaling_factors)

-- The result; `none` is a behaviour that C leaves undefined.
unfoldable pub compare_version : Bool → Version → Bytes → Option Bool
unfolding compare_clean evaluate scaled scan_constraint scan_more scan_int clean_loop clean_step
    c_string bytes_eq starts_digit scan_digits digit_of
compare_version verbose v constraint_dirty =
    compare_clean verbose v (clean_loop 0 constraint_dirty clean_start)
