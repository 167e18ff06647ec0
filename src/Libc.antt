-- ===== src/Libc.antt =====
-- The C library's number conversions, as the program uses them: `strtoul`, `strtol`, `atoi` and the
-- `%u`, `%d` and `%02x` conversions of `printf`. `long` has 64 bits and `int` has 32.
pub mod Decimal
use csh.Prelude.{
  ℕ, zero, suc, ◌+◌, ◌-◌, ◌*◌, ◌/◌, ◌%◌, ◌^◌, Bytes, Option, none, some, List, [], ◌∷◌, ◌++◌, Bool,
  true, false, ◌&&◌, ◌||◌, if◌then◌else◌, ◌==◌, ltb, leb,
}
use csh.Prelude.Int.{ℤ, pos, negsuc}

-- `isspace` in the C locale
abbrev pub is_space : ℕ → Bool
is_space c = c == 32 || (leb 9 c && leb c 13)

unfoldable pub skip_space : Bytes → Bytes
skip_space [] = []
skip_space (c ∷ cs) = if is_space c then skip_space cs else c ∷ cs

-- the value of a digit or letter in a base; `none` if the base does not have it
unfoldable pub digit_of : ℕ → ℕ → Option ℕ
digit_of base c =
    let d =
      (if leb b'0' c && leb c b'9'
        then c - b'0'
        else if leb b'a' c && leb c b'z'
        then c - b'a' + 10
        else if leb b'A' c && leb c b'Z'
        then c - b'A' + 10
        else 36) in
    if ltb d base then some d else none

-- the digits at the head of a text, read behind the value `acc`, and what follows them
unfoldable pub scan_digits : ℕ → ℕ → Bytes → ℕ × Bytes
scan_digits base acc [] = (acc, [])
scan_digits base acc (c ∷ cs) = elim (digit_of base c) [
  | none ↦ (acc, c ∷ cs)
  | some d ↦ scan_digits base (acc * base + d) cs
]

unfoldable pub starts_digit : ℕ → Bytes → Bool
starts_digit base [] = false
starts_digit base (c ∷ cs) = elim (digit_of base c) [ none ↦ false | some d ↦ true ]

-- `0x` or `0X` in front of a hexadecimal digit
unfoldable pub skip_prefix : ℕ → Bytes → Bytes
skip_prefix base (z ∷ x ∷ cs) =
    if base == 16 && z == b'0' && (x == b'x' || x == b'X') && starts_digit 16 cs
    then cs
    else z ∷ x ∷ cs
skip_prefix base s = s

pub record Numeral : Type 0 where
  pub negative : Bool
  pub magnitude : ℕ
  pub rest : Bytes

unfoldable pub scan_magnitude : ℕ → Bool → Bytes → Option Numeral
scan_magnitude base negative s =
    let s' = skip_prefix base s in
    if starts_digit base s'
    then (let (n, rest) = scan_digits base 0 s' in
        some (record { negative = negative; magnitude = n; rest = rest }))
    else none

unfoldable pub scan_signed : ℕ → Bytes → Option Numeral
scan_signed base [] = none
scan_signed base (c ∷ cs) =
    if c == b'-'
    then scan_magnitude base true cs
    else if c == b'+'
    then scan_magnitude base false cs
    else scan_magnitude base false (c ∷ cs)

-- white space, a sign, digits; `none` if there is no number
unfoldable pub scan_number : ℕ → Bytes → Option Numeral
scan_number base s = scan_signed base (skip_space s)

-- `strtoul(s, &endptr, base)`: the value, and the text at `endptr`
unfoldable pub strtoul : ℕ → Bytes → ℕ × Bytes
unfolding scan_number scan_signed scan_magnitude skip_prefix starts_digit scan_digits digit_of
    skip_space
strtoul base s = elim (scan_number base s) [
  | none ↦ (0, s)
  | some n ↦ (
    if leb (2 ^ 64) n.magnitude
        then 2 ^ 64 - 1
        else if n.negative
        then (2 ^ 64 - n.magnitude) % 2 ^ 64
        else n.magnitude,
    n.rest,
  )
]

abbrev pub long_max : ℕ
long_max = 2 ^ 63 - 1

abbrev pub int_max : ℕ
int_max = 2 ^ 31 - 1

-- minus a number; its clauses are the two signs of a long
unfoldable pub negate : ℕ → ℤ
negate zero = pos 0
negate (suc n) = negsuc n

-- the result of `strtol` on the text `s`, from the number that was found in it
unfoldable pub long_of : Bytes → Option Numeral → ℤ × Bytes
unfolding negate
long_of s none = (pos 0, s)
long_of s (some n) = (
  if n.negative
      then (if ltb long_max n.magnitude then negsuc long_max else negate n.magnitude)
      else pos (if ltb long_max n.magnitude then long_max else n.magnitude),
  n.rest,
)

-- `strtol(s, &endptr, 10)`
unfoldable pub strtol : Bytes → ℤ × Bytes
unfolding long_of scan_number scan_signed scan_magnitude skip_prefix starts_digit scan_digits
    digit_of skip_space
strtol s = long_of s (scan_number 10 s)

-- `(int)` of a long
unfoldable pub to_int : ℤ → ℤ
to_int (pos n) = let m = n % 2 ^ 32 in if ltb m (2 ^ 31) then pos m else negsuc (2 ^ 32 - 1 - m)
to_int (negsuc n) = let m = n % 2 ^ 32 in if ltb m (2 ^ 31) then negsuc m else pos (2 ^ 32 - 1 - m)

-- `atoi(s)`
unfoldable pub atoi : Bytes → ℤ
unfolding strtol to_int
atoi s = to_int (strtol s).0

-- the decimal digits of a number below `10 ^ fuel`
unfoldable pub print_digits : ℕ → ℕ → Bytes
print_digits zero n = []
print_digits (suc fuel) n =
    let high = print_digits fuel (n / 10) in (if ltb n 10 then [] else high) ++ (b'0' + n % 10) ∷ []

-- `%u` and `%d` of an int
unfoldable pub format_u : ℕ → Bytes
unfolding print_digits
format_u n = print_digits 20 n

unfoldable pub format_d : ℤ → Bytes
unfolding format_u
format_d (pos n) = format_u n
format_d (negsuc n) = b'-' ∷ format_u (suc n)
