-- ===== src/Loki/Add/Fits.antt =====
-- loki.c: loki_add stays within its buffers.
use csh.Prelude.{
  ℕ, zero, suc, ◌+◌, ◌-◌, ◌*◌, ◌/◌, ◌%◌, ◌^◌, ◌≤◌, ◌<◌, ◌≡◌, ◌≢◌, refl, ap, inl, inr, Bytes, codes,
  some, List, [], ◌∷◌, ◌++◌, Bool, true, false, if◌then◌else◌, Bool-cases, ltb, lt→ltb, ◌==◌,
  length, length-append, length-take, take, take_all, arith,
}
use csh.Libc.Decimal.{format_u-IsDecimal}
use csh.Libc.{print_digits, format_u}
use csh.Loki.Strip.{strip_str}
use csh.Loki.Strip.Lines.{nuls, strip_str-IsPlain}
use csh.Loki.Add.{
  push, pieces, is_prompt, entry, log_size, add_lines, json, json_str_max, fault, posted,
  Surroundings, post, end_add, loki_add,
}

length-print_digits : (fuel n : ℕ) → length (print_digits fuel n) ≤ fuel
unfolding print_digits
length-print_digits zero n = omega arith
length-print_digits (suc fuel) n =
    let high = print_digits fuel (n / 10) in
    elim (Bool-cases (ltb n 10)) [
      | inl e ↦ rw e (omega arith)
      | inr e ↦ rw e (
          omega
            (arith, length-append high ((b'0' + n % 10) ∷ []), length-print_digits fuel (n / 10)))
    ]

pub length-format_u : (n : ℕ) → length (format_u n) ≤ 20
unfolding format_u
length-format_u n = length-print_digits 20 n

-- the entry as it is meant, not cut off
abbrev pub whole_entry : ℕ → Bytes → Bytes
whole_entry msec p = codes "[\"" ++ (format_u msec ++ (codes "000\", \"" ++ (p ++ codes "\"],")))

pub length-whole_entry : (msec : ℕ) (p : Bytes) → length (whole_entry msec p) ≤ length p + 32
length-whole_entry msec p = omega (
  arith,
  length-format_u msec,
  length-append (codes "[\"") (format_u msec ++ (codes "000\", \"" ++ (p ++ codes "\"],"))),
  length-append (format_u msec) (codes "000\", \"" ++ (p ++ codes "\"],")),
  length-append (codes "000\", \"") (p ++ codes "\"],"),
  length-append p (codes "\"],"),
)

pub entry_whole : (msec : ℕ) (p : Bytes) → length p ≤ 4015 → entry msec p ≡ whole_entry msec p
entry_whole msec p h = take_all 4047 (whole_entry msec p) (omega (arith, length-whole_entry msec p))

length-entry : (msec : ℕ) (p : Bytes) → length (entry msec p) ≤ length p + 32
length-entry msec p =
    omega (arith, length-take 4047 (whole_entry msec p), length-whole_entry msec p)

length-type : (iscmd : Bool) → length (if iscmd then codes "cmd" else codes "stdout") ≤ 6
length-type true = omega arith
length-type false = omega arith

pub length-json :
    (hostname : Bytes) (node : ℕ) (iscmd : Bool) (values : Bytes)
    → node < 2 ^ 32
    → length (json hostname node iscmd values) ≤ length hostname + length values + 94
length-json hostname node iscmd values h =
    let type = if iscmd then codes "cmd" else codes "stdout" in
    let behind = codes "\"},\"values\": [" ++ (values ++ codes "]}]}") in
    let typed = codes "\",\"type\": \"" ++ (type ++ behind) in
    omega (
      arith,
      (format_u-IsDecimal node (omega arith)).short 9 (omega arith),
      length-type iscmd,
      length-append values (codes "]}]}"),
      length-append type behind,
      length-append (format_u node) typed,
      length-append hostname (codes "\",\"node\": \"" ++ (format_u node ++ typed)),
    )

-- The message is not cut off: its buffer has room for all of it, and its length is that of the text.
pub post_whole :
    (s : Surroundings) (iscmd : Bool) (log : Bytes)
    → s.allocates ≡ true
    → length s.hostname ≤ s.hostname_len
    → s.node < 2 ^ 32
    → 0 < length log
    → let text = json s.hostname s.node iscmd (take (length log - 1) log) in
      post s iscmd log ≡ posted text (length text)
post_whole s iscmd log allocated short small some_log =
    let values = take (length log - 1) log in
    let text = json s.hostname s.node iscmd values in
    let bound : length text ≤ json_str_max s.hostname_len (length log) - 1 =
      omega (
        arith,
        length-json s.hostname s.node iscmd values small,
        length-take (length log - 1) log,
      ) in
    rw allocated (ap (λ (b : Bytes). posted b (length text)) (take_all _ text bound))

abbrev total : List Bytes → ℕ
total [] = 0
total (p ∷ ps) = length p + total ps

push_lem :
    (c : ℕ) (ps : List Bytes)
    → 0 < length ps
    → (length (push c ps) ≡ length ps) × (total (push c ps) ≡ suc (total ps))
push_lem c [] h = absurd (omega arith)
push_lem c (p ∷ ps) h = omega arith

-- One piece more than NULs, with all the other bytes.
pieces_lem :
    (out : Bytes) → (length (pieces out) ≡ nuls out + 1) × (total (pieces out) ≤ length out)
unfolding pieces
pieces_lem [] = omega arith
pieces_lem (c ∷ out) =
    let (number, bytes) = pieces_lem out in
    let (same, more) = push_lem c (pieces out) (omega arith) in
    elim (Bool-cases (c == 0)) [ inl e ↦ rw e (omega arith) | inr e ↦ rw e (omega arith) ]

length-line_entry :
    (msec c : ℕ) (p : Bytes)
    → length (if is_prompt (c ∷ p) then [] else entry msec (c ∷ p)) ≤ 34 * length (c ∷ p)
length-line_entry msec c p = elim (Bool-cases (is_prompt (c ∷ p))) [
  | inl e ↦ rw e (omega arith)
  | inr e ↦ rw e (omega (arith, length-entry msec (c ∷ p)))
]

add_lines-some :
    (clock : ℕ → ℕ) (count i : ℕ) (ps : List Bytes) (log : Bytes)
    → i < count
    → count ≤ i + length ps
    → length log + 34 * total ps < log_size
    → (r : Bytes × ℕ) × (add_lines clock count i ps log ≡ some r)
unfolding add_lines
add_lines-some clock count i [] log lt le room = absurd (omega arith)
add_lines-some clock count i ([] ∷ ps) log lt le room = ((log, i), refl)
add_lines-some clock count i ((c ∷ p) ∷ ps) log lt le room =
    let e = if is_prompt (c ∷ p) then [] else entry (clock i) (c ∷ p) in
    let log' : Bytes = log ++ e in
    let grown : length log' + 34 * total ps < log_size =
      omega (arith, length-append log e, length-line_entry (clock i) c p) in
    rw (lt→ltb (length log') log_size (omega arith)) (elim (Bool-cases (i + 1 == count)) [
      | inl last ↦ rw last ((log', i + 1), refl)
      | inr more ↦
          rw more (add_lines-some clock count (i + 1) ps log' (ground arith) (omega arith) grown)
    ])

end_add-ne-fault :
    (s : Surroundings) (iscmd : Bool) (r : Bytes × ℕ) → end_add s iscmd (some r) ≢ fault
unfolding end_add
end_add-ne-fault s iscmd ([], i) = λ e. cc
end_add-ne-fault s iscmd (c ∷ log, i) = ground arith

-- For any text of fewer than 30837 bytes, `loki_add` reads no line behind its end, and writes nothing
-- beyond the buffer of the formatted log.
pub loki_add-ne-fault :
    (running : Bool) (s : Surroundings) (text : Bytes) (iscmd : Bool)
    → length text < 30837
    → loki_add running s text iscmd ≢ fault
unfolding loki_add
loki_add-ne-fault false s text iscmd h = λ e. cc
loki_add-ne-fault true s text iscmd h =
    let (out, count) = strip_str text in
    let (all_plain, shorter, counted) = strip_str-IsPlain text in
    let (number, bytes) = pieces_lem out in
    elim (Bool-cases (ltb count 1)) [
      | inl none_ended ↦ rw none_ended (λ e. cc)
      | inr some_ended ↦
          let (r, e) =
            add_lines-some s.clock count 0 (pieces out) [] (ground arith) (ground arith)
              (omega arith) in
          rw some_ended (rw e (end_add-ne-fault s iscmd r))
    ]
