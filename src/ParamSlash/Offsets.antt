-- ===== src/ParamSlash/Offsets.antt =====
-- param_slash.c: the indices between brackets behind a parameter's name, "name[0:2,5,-1]".
pub mod Bounds
use csh.Prelude.{
  ℕ, zero, suc, ◌+◌, ◌-◌, Bytes, Option, none, some, List, [], ◌∷◌, ◌++◌, Bool, true, false, ◌||◌,
  if◌then◌else◌, ◌==◌, ltb, leb, length, get_or, bytes_eq, ◌>>=◌,
}
use csh.Prelude.Int.{ℤ, pos, negsuc, ◌+ℤ◌, ltb_ℤ, eq_ℤ}
use csh.Libc.{Numeral, long_of, to_int, atoi, strtoul, scan_number, int_max}

-- `strtok` with one delimiter: the bytes before the first delimiter, not empty at the front of a list
abbrev pub keep : Bytes → List Bytes → List Bytes
keep [] ts = ts
keep (c ∷ cs) ts = (c ∷ cs) ∷ ts

unfoldable pub words : ℕ → Bytes → Bytes × List Bytes
words d [] = ([], [])
words d (c ∷ cs) = let (w, ts) = words d cs in if c == d then ([], keep w ts) else (c ∷ w, ts)

-- all the tokens that repeated calls return
unfoldable pub tokens : ℕ → Bytes → List Bytes
unfolding words
tokens d s = let (w, ts) = words d s in keep w ts

-- what the text is behind a first call of `strtok`: its leading delimiters, and the first token
unfoldable pub until : ℕ → Bytes → Bytes
until d [] = []
until d (c ∷ cs) = if c == d then [] else c ∷ until d cs

unfoldable pub cut : ℕ → Bytes → Bytes
unfolding until
cut d [] = []
cut d (c ∷ cs) = let rest = cut d cs in if c == d then c ∷ rest else c ∷ until d cs

abbrev pub has_byte : ℕ → Bytes → Bool
has_byte d [] = false
has_byte d (c ∷ cs) = c == d || has_byte d cs

-- the last byte of a text that is not empty
abbrev pub last_is : ℕ → Bytes → Bool
last_is c s = get_or s (length s - 1) 0 == c

-- the name, and the text between the brackets if there is one; `none` is an error
unfoldable pub param_get_offset_string : Bytes → Option (Bytes × Option Bytes)
unfolding tokens cut
param_get_offset_string arg = elim (tokens b'[' arg) [
  | first ∷ token ∷ more ↦
      let offsets = cut b']' token in
      if last_is b']' token
      then (if ltb 1 (length token - length offsets)
          then none
          else some (cut b'[' arg, some offsets))
      else none
  | other ↦ some (cut b'[' arg, none)
]

-- What a slice says: an error, or its two ends; `undetermined` is a delimiter that was never read, which
-- needs a token without ':'.
pub data Slice : Type 0 where
  invalid : Slice
  ends : Option ℤ → Option ℤ → Slice
  undetermined : Slice

-- the `int` of "%d"
abbrev pub int_of : Numeral → ℤ
int_of n = to_int (long_of [] (some n)).0

-- the test of a slice with no second number, by the two tokens at ':'
unfoldable pub is_open : List Bytes → Bool
unfolding bytes_eq
is_open [] = true
is_open (first ∷ []) = if (strtoul 10 first).0 == 0 then bytes_eq first (b'0' ∷ []) else true
is_open (first ∷ second ∷ more) = false

abbrev pub open_end : Bytes → Option ℤ → Slice
open_end token start = if is_open (tokens b':' token) then ends start none else invalid

-- behind the first number
unfoldable pub second_scan : Bytes → Option ℤ → Bytes → Slice
unfolding is_open tokens
second_scan token start [] = undetermined
second_scan token start (c ∷ rest) =
    if c == b':'
    then (elim (scan_number 10 rest) [
      | none ↦ open_end token start
      | some n ↦ ends start (some (int_of n))
    ])
    else invalid

unfoldable pub param_slash_parse_slice : Bytes → Slice
unfolding second_scan
param_slash_parse_slice token = elim (scan_number 10 token) [
  | some n ↦ second_scan token (some (int_of n)) n.rest
  | none ↦ second_scan token none token
]

-- INT_MIN stands for an end that was not given
abbrev pub given : Option ℤ → Option ℤ
given none = none
given (some n) = if eq_ℤ n (negsuc int_max) then none else some n

-- a negative index counts from the end
abbrev pub from_end : ℕ → ℤ → ℤ
from_end array_size n = if ltb_ℤ n (pos 0) then pos array_size +ℤ n else n

abbrev pub index_or : ℕ → ℕ → Option ℤ → Option ℕ
index_or array_size other none = some other
index_or array_size other (some n) = elim (from_end array_size n) [
  | pos i ↦ some i
  | negsuc i ↦ none
]

-- the inner `for` loop, for the `n` indices from `i` on
unfoldable pub add_indices : ℕ → ℕ → ℕ → List ℤ → Option (List ℤ)
add_indices array_size zero i offsets = some offsets
add_indices array_size (suc n) i offsets =
    let more = add_indices array_size n (suc i) (offsets ++ pos i ∷ []) in
    if leb array_size (length offsets) then none else more

unfoldable pub add_slice : ℕ → Slice → List ℤ → Option (List ℤ)
unfolding add_indices
add_slice array_size (ends first second) offsets = do
  start_index ← index_or array_size 0 (given first)
  end_index ← index_or array_size array_size (given second)
  if leb end_index start_index || ltb array_size end_index
      then none
      else add_indices array_size (end_index - start_index) start_index offsets
add_slice array_size invalid offsets = none
add_slice array_size undetermined offsets = none

unfoldable pub plain_index : ℕ → Bytes → ℤ
plain_index array_size token = from_end array_size (atoi token)

-- one round of the `while` loop
unfoldable pub add_token : ℕ → Bytes → List ℤ → Option (List ℤ)
unfolding add_slice param_slash_parse_slice plain_index
add_token array_size token offsets =
    if leb array_size (length offsets)
    then none
    else if has_byte b':' token
    then add_slice array_size (param_slash_parse_slice token) offsets
    else some (offsets ++ plain_index array_size token ∷ [])

unfoldable pub add_tokens : ℕ → List Bytes → List ℤ → Option (List ℤ)
unfolding add_token
add_tokens array_size [] offsets = some offsets
add_tokens array_size (token ∷ rest) offsets =
    add_token array_size token offsets >>= add_tokens array_size rest

abbrev pub count_up : ℕ → ℕ → List ℤ
count_up zero i = []
count_up (suc n) i = pos i ∷ count_up n (suc i)

-- `offset_array` up to `expected_value_amount`; `none` is an error
unfoldable pub param_offsets_parse_from_str : ℕ → Option Bytes → Option (List ℤ)
unfolding add_tokens tokens
param_offsets_parse_from_str array_size none = some (count_up array_size 0)
param_offsets_parse_from_str array_size (some arg) = add_tokens array_size (tokens b',' arg) []
