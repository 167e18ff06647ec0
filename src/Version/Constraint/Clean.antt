-- ===== src/Version/Constraint/Clean.antt =====
-- require_version.c: the loop that cleans an operator and a version of three numbers.
use csh.Prelude.{
  ℕ, suc, ◌+◌, ◌*◌, ◌≤◌, ◌<◌, ◌≡◌, refl, sym, ◌∙◌, ap, Bytes, [], ◌∷◌, ◌++◌, Bool, true, false, not,
  arith, All, is_digit, append-nil, append_assoc, ltb, leb, ◌==◌, length, length-append,
}
use csh.Libc.{int_max, format_u}
use csh.Libc.Decimal.{format_u-IsDecimal}
use csh.Version.{Version, go}
use csh.Version.Parse.RoundTrip.{format_version}
use csh.Version.Constraint.{CleanState, clean_start, constraint_maxlen, clean_step, clean_loop}

pub data Operator : Type 0 where
  equal not_equal at_least at_most above below : Operator

abbrev pub operator_text : Operator → Bytes
operator_text equal = b'=' ∷ b'=' ∷ []
operator_text not_equal = b'!' ∷ b'=' ∷ []
operator_text at_least = b'>' ∷ b'=' ∷ []
operator_text at_most = b'<' ∷ b'=' ∷ []
operator_text above = b'>' ∷ []
operator_text below = b'<' ∷ []

-- the cells that hold an operator
abbrev pub cells : Operator → Bytes
cells above = b'>' ∷ 0 ∷ 0 ∷ []
cells below = b'<' ∷ 0 ∷ 0 ∷ []
cells op = operator_text op ++ 0 ∷ []

abbrev pub holds : Operator → ℕ → ℕ → Bool
holds equal a b = a == b
holds not_equal a b = not (a == b)
holds at_least a b = leb b a
holds at_most a b = leb a b
holds above a b = ltb b a
holds below a b = ltb a b

-- the single number that versions are compared by
abbrev pub weight : Version → ℕ
weight v = v.major * 1000000 + v.minor * 1000 + v.patch

-- Behind its operator a constraint is cleaned from the state with that operator.
clean_operator :
    (op : Operator) (rest : Bytes)
    → clean_loop 0 (operator_text op ++ rest) clean_start
      ≡ clean_loop (length (operator_text op)) rest (record clean_start { operator = cells op })
unfolding clean_loop clean_step
clean_operator equal rest = refl
clean_operator _ rest = refl

step_digit :
    (i c : ℕ) (s : CleanState)
    → is_digit c ≡ true
    → clean_step i c s ≡ go (record s { constraint = s.constraint ++ c ∷ [] })
unfolding clean_step
step_digit i c s d = ground arith

loop_step :
    (i c : ℕ) (cs : Bytes) (s s' : CleanState)
    → length s.constraint < constraint_maxlen
    → s.dot_count < 3
    → clean_step i c s ≡ go s'
    → clean_loop i (c ∷ cs) s ≡ clean_loop (i + 1) cs s'
unfolding clean_loop
loop_step i c cs s s' size dots e = ground arith

-- The index only matters for operators, so its exact value is left open.
loop_digits :
    (ds rest : Bytes) (i : ℕ) (s : CleanState)
    → All (λ c. is_digit c ≡ true) ds
    → length s.constraint + length ds ≤ constraint_maxlen
    → s.dot_count < 3
    → clean_loop i (ds ++ rest) s
      ≡ clean_loop (i + length ds) rest (record s { constraint = s.constraint ++ ds })
loop_digits [] rest i s h size dots =
    let same : i + 0 ≡ i = omega arith in rw (same, append-nil s.constraint)
loop_digits (c ∷ ds) rest i s h size dots =
    let s' = record s { constraint = s.constraint ++ c ∷ [] } in
    let longer = length-append s.constraint (c ∷ []) in
    let index : i + 1 + length ds ≡ i + suc (length ds) = omega arith in
    loop_step i c (ds ++ rest) s s' (omega arith) dots (step_digit i c s h.0)
    ∙ loop_digits ds rest (i + 1) s' h.1 (omega arith) dots
    ∙ rw (index, append_assoc s.constraint (c ∷ []) ds)

loop_dot :
    (rest : Bytes) (i : ℕ) (s : CleanState)
    → length s.constraint < constraint_maxlen
    → s.dot_count + 1 < 3
    → clean_loop i (b'.' ∷ rest) s
      ≡ clean_loop
          (i + 1)
          rest
          (record s { constraint = s.constraint ++ b'.' ∷ []; dot_count = s.dot_count + 1 })
unfolding clean_loop clean_step
loop_dot rest i s size dots = ground arith

-- the state behind the loop
abbrev pub cleaned : Operator → Version → CleanState
cleaned op v = record {
  operator = cells op;
  constraint = format_version v;
  wildcards = false ∷ false ∷ false ∷ [];
  dot_count = 2;
}

-- The cleaned form of a version that fits is the version itself.
pub clean_version :
    (op : Operator) (v : Version)
    → v.major ≤ int_max
    → v.minor ≤ int_max
    → v.patch ≤ int_max
    → length (format_version v) < constraint_maxlen
    → clean_loop 0 (operator_text op ++ format_version v) clean_start ≡ go (cleaned op v)
unfolding format_version
clean_version op v a b c size =
    let ms = format_u v.major in
    let ns = format_u v.minor in
    let ps = format_u v.patch in
    let dm = format_u-IsDecimal v.major (omega arith) in
    let dn = format_u-IsDecimal v.minor (omega arith) in
    let dp = format_u-IsDecimal v.patch (omega arith) in
    let i0 = length (operator_text op) in
    let s0 = record clean_start { operator = cells op } in
    let s1 = record s0 { constraint = ms } in
    let s2 = record s0 { constraint = ms ++ b'.' ∷ []; dot_count = 1 } in
    let s3 = record s2 { constraint = (ms ++ b'.' ∷ []) ++ ns } in
    let s4 = record s3 { constraint = s3.constraint ++ b'.' ∷ []; dot_count = 2 } in
    let lr = length-append ms (b'.' ∷ (ns ++ (b'.' ∷ ps))) in
    let lr' = length-append ns (b'.' ∷ ps) in
    let l2 = length-append ms (b'.' ∷ []) in
    let l3 = length-append (ms ++ b'.' ∷ []) ns in
    let l4 = length-append s3.constraint (b'.' ∷ []) in
    let whole : s4.constraint ++ ps ≡ format_version v = simp append_assoc in
    clean_operator op (format_version v)
    ∙ loop_digits ms (b'.' ∷ (ns ++ (b'.' ∷ ps))) i0 s0 dm.digits (omega arith) (omega arith)
    ∙ loop_dot (ns ++ (b'.' ∷ ps)) (i0 + length ms) s1 (omega arith) (omega arith)
    ∙ loop_digits ns (b'.' ∷ ps) (i0 + length ms + 1) s2 dn.digits (omega arith) (omega arith)
    ∙ loop_dot ps (i0 + length ms + 1 + length ns) s3 (omega arith) (omega arith)
    ∙ ap (λ t. clean_loop (i0 + length ms + 1 + length ns + 1) t s4) (sym (append-nil ps))
    ∙ loop_digits ps [] (i0 + length ms + 1 + length ns + 1) s4 dp.digits (omega arith)
        (omega arith)
    ∙ (unfold clean_loop in ap (λ t. go (record s4 { constraint = t })) whole)
