-- ===== src/Startup/Prompt/Label.antt =====
-- main.c: the label of the default node in its buffer.
use csh.Prelude.{
  ℕ, ◌+◌, ◌-◌, ◌≤◌, ◌<◌, ◌≡◌, ap, ◌∙◌, Bytes, ◌∷◌, ◌++◌, if◌then◌else◌, ◌==◌, ltb, true, false, inl,
  inr, Bool-cases, length, length-append, length-take, take, take_all, arith,
}
use csh.Prelude.Int.{pos}
use csh.Libc.{format_d, format_u}
use csh.Libc.Decimal.{length-print_digits}
use csh.Startup.Prompt.{node_number, node_idx, append_number}

-- The number with the sign in front of it.
abbrev pub at_node : ℕ → Bytes
at_node node = b'@' ∷ format_d (pos node)

length-at_node : (node : ℕ) → node < 100000 → length (at_node node) ≤ 6
unfolding format_d format_u
length-at_node node h = omega (arith, length-print_digits 20 4 node (omega arith))

node_number_whole : (node : ℕ) → node < 100000 → node_number node ≡ at_node node
node_number_whole node h = take_all 6 (at_node node) (length-at_node node h)

-- What there is room for, in a buffer of `size` bytes.
abbrev pub labelled : ℕ → Bytes → Bytes → Bytes
labelled size name number =
    if ltb (length name + length number) size
    then name ++ number
    else if length name + length number == size
    then name ++ take (length number - 1) number
    else take (size - length number - 1) name ++ number

node_idx_below : (h n k : ℕ) → ltb (n + k) h ≡ true → node_idx h n k ≡ n
node_idx_below h n k e = ground arith

node_idx_same : (h n k : ℕ) → n + k == h ≡ true → node_idx h n k ≡ n
node_idx_same h n k e = ground arith

node_idx_above :
    (h n k : ℕ) → ltb (n + k) h ≡ false → n + k == h ≡ false → k < h → node_idx h n k ≡ h - k - 1
node_idx_above h n k e f g = ground arith

-- the label from the index where the number starts
abbrev placed : ℕ → ℕ → Bytes → Bytes → Bytes
placed size idx name number =
    let kept = take idx name in kept ++ take (size - length kept - 1) number

placed-labelled :
    (size : ℕ) (name number : Bytes)
    → length name < size
    → length number < size
    → placed size (node_idx size (length name) (length number)) name number
      ≡ labelled size name number
placed-labelled size name number fits short =
    let n = length name in
    let k = length number in
    let whole : take n name ≡ name = take_all n name (omega arith) in
    elim (Bool-cases (ltb (n + k) size)) [
      | inl below ↦ rw below (
          ap (λ (i : ℕ). placed size i name number) (node_idx_below size n k below)
          ∙ (ap (λ (b : Bytes). b ++ take (size - length b - 1) number) whole
              ∙ ap (λ (b : Bytes). name ++ b) (take_all (size - n - 1) number (ground arith))))
      | inr other ↦ elim (Bool-cases (n + k == size)) [
        | inl same ↦
            let left : size - n - 1 ≡ k - 1 = ground arith in
            rw other (
              rw same (
                ap (λ (i : ℕ). placed size i name number) (node_idx_same size n k same)
                ∙ (ap (λ (b : Bytes). b ++ take (size - length b - 1) number) whole
                    ∙ ap (λ (i : ℕ). name ++ take i number) left)))
        | inr more ↦
            let kept = take (size - k - 1) name in
            let count = length-take (size - k - 1) name in
            rw other (
              rw more (
                ap (λ (i : ℕ). placed size i name number) (node_idx_above size n k other more short)
                ∙ ap (λ (b : Bytes). kept ++ b)
                    (take_all (size - length kept - 1) number (ground (arith, count)))))
      ]
    ]

length-labelled :
    (size : ℕ) (name number : Bytes)
    → length name < size
    → length number < size
    → length (labelled size name number) < size
length-labelled size name number fits short =
    let n = length name in
    let k = length number in
    elim (Bool-cases (ltb (n + k) size)) [
      | inl below ↦ rw below (ground (arith, length-append name number))
      | inr other ↦ elim (Bool-cases (n + k == size)) [
        | inl same ↦ rw other (
            rw same (
              ground (arith, length-append name (take (k - 1) number), length-take (k - 1) number)))
        | inr more ↦ rw other (
            rw more (
              ground (
                arith,
                length-append (take (size - k - 1) name) number,
                length-take (size - k - 1) name,
              )))
      ]
    ]

-- For a node of at most five digits, in a buffer of at least seven bytes that the name fits into: the label has
-- room for its NUL, and is the name with '@' and the number behind it if these are shorter than the buffer; if
-- they have just its size, the number loses its last character; if they are longer, the name is cut so that the
-- label with its NUL fills the buffer.
pub append_number_lem :
    (hostname_len node : ℕ) (name : Bytes)
    → 7 ≤ hostname_len
    → length name < hostname_len
    → node < 100000
    → (append_number hostname_len node name ≡ labelled hostname_len name (at_node node))
      × (length (append_number hostname_len node name) < hostname_len)
unfolding append_number
append_number_lem hostname_len node name room fits small =
    let short = length-at_node node small in
    let whole = node_number_whole node small in
    let same =
      ap
        (λ (b : Bytes). placed hostname_len (node_idx hostname_len (length name) (length b)) name b)
        whole
      ∙ placed-labelled hostname_len name (at_node node) fits (omega arith) in
    (same, rw same (length-labelled hostname_len name (at_node node) fits (omega arith)))
