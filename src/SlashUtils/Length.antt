-- ===== src/SlashUtils/Length.antt =====
-- slash_utils.c: lengths as they are printed and read.
use csh.Prelude.{
  ℕ, ltb, ◌≤◌, ◌^◌, ◌≡◌, refl, ◌∙◌, append-nil, Bytes, none, some, [], ◌∷◌, true, if◌then◌else◌,
  arith,
}
use csh.Libc.{strtoul, format_u, starts_digit, scan_digits, long_max}
use csh.Libc.Decimal.{scan_number-digits, format_u-IsDecimal, scan_digits_stop}
use csh.Slash.{success, einval}
use csh.KnownHosts.{at_end}
use csh.SlashUtils.{parse_length, length_of}

pub strtoul-format_u : (n : ℕ) → n ≤ long_max → strtoul 10 (format_u n) ≡ (n, [])
unfolding strtoul
strtoul-format_u n h =
    let d = format_u-IsDecimal n h in
    let starts : starts_digit 10 (format_u n) ≡ true =
      rw (append-nil (format_u n)) at (d.starts []) in
    let scans : scan_digits 10 0 (format_u n) ≡ (n, []) =
      rw (append-nil (format_u n)) at
        (d.scans [] ∙ scan_digits_stop 10 n [] (unfold starts_digit in refl)) in
    rw (strtoul, scan_number-digits (format_u n) starts) (rw scans (ground arith))

length_of-format_u : (n : ℕ) → n ≤ long_max → length_of (format_u n) ≡ some n
unfolding length_of at_end
length_of-format_u n h = rw (strtoul-format_u n h) refl

-- `parse_length` of a number printed in decimal succeeds with that number if it is below 2^32, and
-- fails with SLASH_EINVAL if it is from 2^32 up to 2^63 - 1. Both move on to that argument.
pub parse_length-format_u :
    (n : ℕ) (command : Bytes)
    → n ≤ long_max
    → parse_length (command ∷ format_u n ∷ []) 0 ≡ (
        if ltb n (2 ^ 32)
        then record { status = success; argi = 1; stored = some n }
        else record { status = einval; argi = 1; stored = none })
unfolding parse_length
parse_length-format_u n command h = rw (length_of-format_u n h) (ground arith)
