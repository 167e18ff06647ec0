-- ===== src/Version/Constraint/Laws.antt =====
-- require_version.c: what `compare_version` answers on an operator and a version of three numbers.
use csh.Prelude.{
  ℕ, suc, ◌+◌, ◌≤◌, ◌<◌, ◌≡◌, refl, ◌∙◌, ap, Bytes, some, List, [], ◌∷◌, ◌++◌, Bool, true, false,
  not, arith, append-nil, ltb, ◌==◌, length, length-append, ◌&&◌, ◌||◌, ◌^◌, ◌>>=◌,
}
use csh.Libc.{int_max, starts_digit, format_u, digit_of}
use csh.Libc.Decimal.{IsDecimal, format_u-IsDecimal, scan_digits_stop}
use csh.Version.{Version, go}
use csh.Version.Parse.RoundTrip.{format_version}
use csh.Version.Constraint.{
  CleanState, constraint_maxlen, scan_int, scan_more, scan_constraint, scaled, scaling_factors,
  evaluate, compare_clean, compare_version,
}
use csh.Version.Constraint.Clean.{
  Operator, operator_text, equal, holds, weight, cells, cleaned, clean_version, above, below,
  at_least, at_most, not_equal,
}

evaluate-holds :
    (verbose : Bool) (op : Operator) (a b : ℕ)
    → evaluate verbose (cells op) a b ≡ some (holds op a b)
unfolding evaluate
evaluate-holds verbose equal a b = refl
evaluate-holds verbose _ a b = refl

scan_int-IsDecimal :
    (n : ℕ) (ds rest : Bytes)
    → IsDecimal n ds
    → n ≤ int_max
    → starts_digit 10 rest ≡ false
    → scan_int (ds ++ rest) ≡ some (n, rest)
unfolding scan_int
scan_int-IsDecimal n ds rest d h end =
    rw (d.scans rest) (rw (scan_digits_stop 10 n rest end) (ground arith))

dot_stops : (text : Bytes) → starts_digit 10 (b'.' ∷ text) ≡ false
unfolding starts_digit digit_of
dot_stops text = refl

scan_constraint_number :
    (text rest : Bytes) (n : ℕ)
    → starts_digit 10 text ≡ true
    → scan_int text ≡ some (n, rest)
    → scan_constraint text ≡ (scan_more 2 rest >>= λ ns. some (n ∷ ns))
unfolding scan_constraint
scan_constraint_number text rest n starts e = rw (starts, scan_constraint) (rw e)

scan_more_number :
    (k : ℕ) (text rest : Bytes) (n : ℕ)
    → starts_digit 10 text ≡ true
    → scan_int text ≡ some (n, rest)
    → scan_more (suc k) (b'.' ∷ text) ≡ (scan_more k rest >>= λ ns. some (n ∷ ns))
unfolding scan_more
scan_more_number k text rest n starts e = rw (starts, scan_more) (rw e)

scan_version :
    (v : Version)
    → v.major ≤ int_max
    → v.minor ≤ int_max
    → v.patch ≤ int_max
    → scan_constraint (format_version v) ≡ some (v.major ∷ v.minor ∷ v.patch ∷ [])
unfolding format_version
scan_version v a b c =
    let ms = format_u v.major in
    let ns = format_u v.minor in
    let ps = format_u v.patch in
    let dm = format_u-IsDecimal v.major (omega arith) in
    let dn = format_u-IsDecimal v.minor (omega arith) in
    let dp = format_u-IsDecimal v.patch (omega arith) in
    let r2 = b'.' ∷ ps in
    let r1 = b'.' ∷ (ns ++ r2) in
    let last : scan_int ps ≡ some (v.patch, []) =
      rw (append-nil ps) at (scan_int-IsDecimal v.patch ps [] dp c (unfold starts_digit in refl)) in
    let starts_last : starts_digit 10 ps ≡ true = rw (append-nil ps) at (dp.starts []) in
    let more : scan_more 2 r1 ≡ some (v.minor ∷ v.patch ∷ []) =
      scan_more_number 1 (ns ++ r2) r2 v.minor (dn.starts r2)
        (scan_int-IsDecimal v.minor ns r2 dn b (dot_stops ps))
      ∙ rw (scan_more_number 0 ps [] v.patch starts_last last) (unfold scan_more in refl) in
    scan_constraint_number (ms ++ r1) r1 v.major (dm.starts r1)
      (scan_int-IsDecimal v.major ms r1 dm a (dot_stops (ns ++ r2)))
    ∙ rw more

compare_clean-go :
    (verbose : Bool) (v : Version) (s : CleanState) (parts : List ℕ)
    → length s.constraint < constraint_maxlen
    → scan_constraint s.constraint ≡ some parts
    → compare_clean verbose v (go s)
      ≡ evaluate verbose s.operator
          (scaled s.wildcards (v.major ∷ v.minor ∷ v.patch ∷ []) scaling_factors)
          (scaled s.wildcards parts scaling_factors)
unfolding compare_clean
compare_clean-go verbose v s parts size e =
    let room : (length s.constraint == constraint_maxlen) ≡ false = ground arith in rw room (rw e)

scaled-weight :
    (v : Version)
    → scaled (false ∷ false ∷ false ∷ []) (v.major ∷ v.minor ∷ v.patch ∷ []) scaling_factors
      ≡ weight v
unfolding scaled
scaled-weight v = omega arith

-- For a version of three numbers that each fit into an int, whose text is shorter than the array of
-- 18 bytes, and any of the six operators in front of it, the answer is that of the operator on the
-- weights `major * 1000000 + minor * 1000 + patch` of the two versions, printing or not.
pub compare_version-holds :
    (verbose : Bool) (v c : Version) (op : Operator)
    → c.major ≤ int_max
    → c.minor ≤ int_max
    → c.patch ≤ int_max
    → length (format_version c) < constraint_maxlen
    → compare_version verbose v (operator_text op ++ format_version c)
      ≡ some (holds op (weight v) (weight c))
unfolding compare_version
compare_version-holds verbose v c op a b p size =
    ap (compare_clean verbose v) (clean_version op c a b p size)
    ∙ compare_clean-go verbose v (cleaned op c) _ size (scan_version c a b p)
    ∙ rw (scaled-weight v) (rw (scaled-weight c) (evaluate-holds verbose op (weight v) (weight c)))

-- the order of versions, part by part
abbrev pub version_eq : Version → Version → Bool
version_eq a b = a.major == b.major && (a.minor == b.minor && a.patch == b.patch)

abbrev pub version_lt : Version → Version → Bool
version_lt a b =
    ltb a.major b.major
    || (a.major == b.major && (ltb a.minor b.minor || (a.minor == b.minor && ltb a.patch b.patch)))

abbrev pub satisfies : Operator → Version → Version → Bool
satisfies equal v c = version_eq v c
satisfies not_equal v c = not (version_eq v c)
satisfies at_least v c = not (version_lt v c)
satisfies at_most v c = not (version_lt c v)
satisfies above v c = version_lt c v
satisfies below v c = version_lt v c

-- The parts below the major number have at most three digits.
pub record IsSmall (v : Version) : Type 0 where
  pub minor : v.minor < 1000
  pub patch : v.patch < 1000

holds-satisfies :
    (op : Operator) (v c : Version)
    → IsSmall v
    → IsSmall c
    → holds op (weight v) (weight c) ≡ satisfies op v c
holds-satisfies equal v c sv sc = ground arith
holds-satisfies _ v c sv sc = ground arith

pub length-format_version :
    (c : Version) → c.major < 10 ^ 9 → IsSmall c → length (format_version c) < constraint_maxlen
unfolding format_version
length-format_version c big small =
    let ms = format_u c.major in
    let ns = format_u c.minor in
    let ps = format_u c.patch in
    let lm = (format_u-IsDecimal c.major (omega arith)).short 8 (omega arith) in
    let ln = (format_u-IsDecimal c.minor (omega arith)).short 2 (omega arith) in
    let lp = (format_u-IsDecimal c.patch (omega arith)).short 2 (omega arith) in
    omega (arith, length-append ms (b'.' ∷ (ns ++ (b'.' ∷ ps))), length-append ns (b'.' ∷ ps))

-- Where minor and patch numbers are below 1000 on both sides, and the constraint's major number is
-- below 10^9, `compare_version` answers by the order of the versions part by part, for each of the
-- six operators.
pub compare_version-satisfies :
    (verbose : Bool) (v c : Version) (op : Operator)
    → c.major < 10 ^ 9
    → IsSmall v
    → IsSmall c
    → compare_version verbose v (operator_text op ++ format_version c) ≡ some (satisfies op v c)
compare_version-satisfies verbose v c op big sv sc =
    compare_version-holds verbose v c op (omega arith) (omega arith) (omega arith)
      (length-format_version c big sc)
    ∙ ap some (holds-satisfies op v c sv sc)

-- A version whose minor number is 1000 or more passes for the next major version: with 1000 added to
-- the minor number, it satisfies `==` on the version with 1 added to the major number instead.
pub compare_version-collision :
    (verbose : Bool) (c : Version)
    → c.major + 1 < 10 ^ 9
    → IsSmall c
    → compare_version verbose
        (record c { minor = c.minor + 1000 })
        (operator_text equal ++ format_version (record c { major = c.major + 1 }))
      ≡ some true
compare_version-collision verbose c big small =
    let next = record c { major = c.major + 1 } in
    compare_version-holds verbose (record c { minor = c.minor + 1000 }) next equal (omega arith)
      (omega arith) (omega arith)
      (length-format_version next big (record { minor = small.minor; patch = small.patch }))
    ∙ ap some (ground arith)
