-- ===== src/Libc/Decimal.antt =====
-- Reading back what `%d` has printed.
use csh.Prelude.{
  ℕ, zero, suc, ◌+◌, ◌*◌, ◌/◌, ◌%◌, ◌^◌, ◌≤◌, ◌<◌, ◌≡◌, refl, ◌∙◌, Bytes, some, [], ◌∷◌, ◌++◌, true,
  false, ltb, arith, Bool-cases, inl, inr, append_assoc, append-nil, ap, All, All-append, is_digit,
  length, length-append,
}
use csh.Prelude.Int.{pos}
use native.Mathlib.Nat.{pow-suc}
use csh.Libc.{
  long_of, digit_of, scan_digits, print_digits, strtol, format_u, format_d, starts_digit, long_max,
  scan_number, scan_signed, scan_magnitude, skip_prefix, skip_space,
}

digit_of-digit : (d : ℕ) → d < 10 → digit_of 10 (b'0' + d) ≡ some d
unfolding digit_of
digit_of-digit d h = ground arith

scan_digits-digit :
    (acc d : ℕ) (rest : Bytes)
    → d < 10
    → scan_digits 10 acc ((b'0' + d) ∷ rest) ≡ scan_digits 10 (acc * 10 + d) rest
unfolding scan_digits
scan_digits-digit acc d rest h = rw (digit_of-digit d h, scan_digits)

pub scan_digits-print_digits :
    (fuel n : ℕ) (rest : Bytes)
    → n < 10 ^ fuel
    → scan_digits 10 0 (print_digits fuel n ++ rest) ≡ scan_digits 10 n rest
unfolding print_digits
scan_digits-print_digits zero n rest h = let z : n ≡ 0 = omega arith in rw z
scan_digits-print_digits (suc fuel) n rest h =
    let power : 10 ^ suc fuel ≡ 10 ^ fuel * 10 = pow-suc 10 fuel in
    let last = scan_digits-digit (n / 10) (n % 10) rest (omega arith) in
    let whole : n / 10 * 10 + n % 10 ≡ n = omega arith in
    elim (Bool-cases (ltb n 10)) [
      | inl small ↦
          let q : n / 10 ≡ 0 = ground arith in
          rw small (rw q at last ∙ ap (λ k. scan_digits 10 k rest) (rw q at whole))
      | inr large ↦
          rw (large, append_assoc)
            (scan_digits-print_digits fuel (n / 10) ((b'0' + n % 10) ∷ rest) (omega arith)
              ∙ last
              ∙ ap (λ k. scan_digits 10 k rest) whole)
    ]

starts_digit-digit : (d : ℕ) (rest : Bytes) → d < 10 → starts_digit 10 ((b'0' + d) ∷ rest) ≡ true
unfolding starts_digit
starts_digit-digit d rest h = rw (digit_of-digit d h, starts_digit)

pub starts_digit-print_digits :
    (fuel n : ℕ) (rest : Bytes) → starts_digit 10 (print_digits (suc fuel) n ++ rest) ≡ true
unfolding print_digits
starts_digit-print_digits zero n rest =
    ground (arith, starts_digit-digit (n % 10) rest (omega arith))
starts_digit-print_digits (suc fuel) n rest = elim (Bool-cases (ltb n 10)) [
  | inl small ↦ rw small (starts_digit-digit (n % 10) rest (omega arith))
  | inr large ↦
      rw (large, append_assoc) (starts_digit-print_digits fuel (n / 10) ((b'0' + n % 10) ∷ rest))
]

-- A text that starts with a digit is read as a number without a sign.
pub scan_number-digits :
    (s : Bytes)
    → starts_digit 10 s ≡ true
    → scan_number 10 s
      ≡ some (record {
        negative = false;
        magnitude = (scan_digits 10 0 s).0;
        rest = (scan_digits 10 0 s).1;
      })
unfolding scan_number scan_signed scan_magnitude skip_prefix skip_space starts_digit digit_of
scan_number-digits [] h = cc
scan_number-digits (c ∷ []) h = ground arith
scan_number-digits (c ∷ d ∷ cs) h = ground arith

strtol_lem : (s : Bytes) → strtol s ≡ long_of s (scan_number 10 s)
unfolding strtol
strtol_lem s = refl

pub strtol-digits :
    (s rest : Bytes) (n : ℕ)
    → starts_digit 10 s ≡ true
    → scan_digits 10 0 s ≡ (n, rest)
    → n ≤ long_max
    → strtol s ≡ (pos n, rest)
strtol-digits s rest n starts digits h =
    strtol_lem s ∙ rw (scan_number-digits s starts) (rw digits (unfold long_of in ground arith))

print_digits-digits : (fuel n : ℕ) → All (λ c. is_digit c ≡ true) (print_digits fuel n)
unfolding print_digits
print_digits-digits zero n = tt
print_digits-digits (suc fuel) n =
    let last : is_digit (b'0' + n % 10) ≡ true = ground arith in
    elim (Bool-cases (ltb n 10)) [
      | inl small ↦ rw small (last, tt)
      | inr large ↦ rw large (All-append _ _ _ (print_digits-digits fuel (n / 10)) (last, tt))
    ]

pub length-print_digits : (fuel k n : ℕ) → n < 10 ^ suc k → length (print_digits fuel n) ≤ suc k
unfolding print_digits
length-print_digits zero k n h = omega arith
length-print_digits (suc fuel) zero n h =
    let small : ltb n 10 ≡ true = ground (arith, pow-suc 10 0) in rw small (omega arith)
length-print_digits (suc fuel) (suc k) n h =
    let power : 10 ^ suc (suc k) ≡ 10 ^ suc k * 10 = pow-suc 10 (suc k) in
    let high = length-print_digits fuel k (n / 10) (omega arith) in
    elim (Bool-cases (ltb n 10)) [
      | inl small ↦ rw small (omega arith)
      | inr large ↦
          rw large
            (omega (arith, length-append (print_digits fuel (n / 10)) ((b'0' + n % 10) ∷ [])))
    ]

-- `s` spells the number `n` in decimal digits.
pub record IsDecimal (n : ℕ) (s : Bytes) : Type 0 where
  pub digits : All (λ c. is_digit c ≡ true) s
  pub starts : (rest : Bytes) → starts_digit 10 (s ++ rest) ≡ true
  pub scans : (rest : Bytes) → scan_digits 10 0 (s ++ rest) ≡ scan_digits 10 n rest
  pub short : (k : ℕ) → n < 10 ^ suc k → length s ≤ suc k

pub format_u-IsDecimal : (n : ℕ) → n ≤ long_max → IsDecimal n (format_u n)
unfolding format_u
format_u-IsDecimal n h = record {
  digits = print_digits-digits 20 n;
  starts = λ rest. starts_digit-print_digits 19 n rest;
  scans = λ rest. scan_digits-print_digits 20 n rest (omega arith);
  short = λ k. length-print_digits 20 k n;
}

pub scan_digits_stop :
    (base n : ℕ) (rest : Bytes)
    → starts_digit base rest ≡ false
    → scan_digits base n rest ≡ (n, rest)
unfolding scan_digits starts_digit
scan_digits_stop base n [] h = refl
scan_digits_stop base n (c ∷ cs) h = ground arith

-- `strtol` reads a decimal number up to the first byte that is no digit.
pub strtol-IsDecimal :
    (n : ℕ) (s rest : Bytes)
    → IsDecimal n s
    → n ≤ long_max
    → starts_digit 10 rest ≡ false
    → strtol (s ++ rest) ≡ (pos n, rest)
strtol-IsDecimal n s rest d h end =
    strtol-digits (s ++ rest) rest n (d.starts rest) (d.scans rest ∙ scan_digits_stop 10 n rest end)
      h

-- `strtol` reads back what `%d` printed of a number that is not negative, up to the end.
pub strtol-format_d : (n : ℕ) → n ≤ long_max → strtol (format_d (pos n)) ≡ (pos n, [])
unfolding format_d
strtol-format_d n h =
    rw (append-nil (format_u n)) at
      (strtol-IsDecimal n (format_u n) [] (format_u-IsDecimal n h) h (unfold starts_digit in refl))
