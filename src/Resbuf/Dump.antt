-- ===== src/Resbuf/Dump.antt =====
-- resbuf_dump.c: which bytes are dumped, and when the loop ends.
use csh.Prelude.{
  ℕ, ltb→lt, zero, suc, ◌+◌, ◌-◌, ◌≤◌, ◌<◌, ◌%◌, ◌^◌, ◌≡◌, refl, none, some, List, [], ◌∷◌, ◌++◌,
  if◌then◌else◌, leb, ltb, get_or, arith, Bool-cases, inl, inr,
}
use csh.Resbuf.{dump_loop}

-- the bytes from index i on, n of them
abbrev pub slice : ℕ → ℕ → List ℕ → List ℕ
slice i zero cells = []
slice i (suc n) cells = get_or cells i 0 ∷ slice (i + 1) n cells

-- one round that does not end the loop
dump_step :
    (size input : ℕ) (cells : List ℕ) (out fuel : ℕ) (bytes : List ℕ)
    → out + 1 < size
    → size < 2 ^ 16
    → (out + 1 ≡ input → ⊥)
    → dump_loop fuel size input cells (out + 1) ≡ some bytes
    → dump_loop (suc fuel) size input cells out ≡ some (get_or cells out 0 ∷ bytes)
unfolding dump_loop
dump_step size input cells out fuel bytes h s n e = ground (arith, e)

dump_straight :
    (n size input : ℕ) (cells : List ℕ) (out fuel : ℕ)
    → input < size
    → size < 2 ^ 16
    → out + suc n ≡ input
    → suc n ≤ fuel
    → dump_loop fuel size input cells out ≡ some (slice out (suc n) cells)
dump_straight n size input cells out zero h s e f = absurd (omega arith)
dump_straight zero size input cells out (suc fuel) h s e f = unfold dump_loop in ground arith
dump_straight (suc n) size input cells out (suc fuel) h s e f =
    dump_step size input cells out fuel (slice (out + 1) (suc n) cells) (omega arith) s
      (λ k. omega (arith, k, e))
      (dump_straight n size input cells (out + 1) fuel h s (omega arith) (omega arith))

-- the round at the end of the buffer
dump_end :
    (size input : ℕ) (cells : List ℕ) (out fuel : ℕ)
    → 4 ≡ input
    → out + 1 ≡ size
    → size < 2 ^ 16
    → dump_loop (suc fuel) size input cells out ≡ some (get_or cells out 0 ∷ [])
unfolding dump_loop
dump_end size input cells out fuel n e s = ground arith

dump_around :
    (size input : ℕ) (cells : List ℕ) (out fuel : ℕ) (bytes : List ℕ)
    → 4 < input
    → out + 1 ≡ size
    → size < 2 ^ 16
    → dump_loop fuel size input cells 4 ≡ some bytes
    → dump_loop (suc fuel) size input cells out ≡ some (get_or cells out 0 ∷ bytes)
unfolding dump_loop
dump_around size input cells out fuel bytes n e s h = ground (arith, h)

dump_last :
    (k size input : ℕ) (cells : List ℕ) (out fuel : ℕ)
    → input ≤ out
    → size < 2 ^ 16
    → out + 1 ≡ size
    → 4 + k ≡ input
    → k ≤ fuel
    → dump_loop (suc fuel) size input cells out ≡ some (get_or cells out 0 ∷ slice 4 k cells)
dump_last zero size input cells out fuel h s e i f = dump_end size input cells out fuel i e s
dump_last (suc k) size input cells out fuel h s e i f =
    dump_around size input cells out fuel (slice 4 (suc k) cells) (omega arith) e s
      (dump_straight k size input cells 4 fuel (omega arith) s i f)

dump_wrap :
    (n size input : ℕ) (cells : List ℕ) (out fuel : ℕ)
    → 4 ≤ input
    → input ≤ out
    → size < 2 ^ 16
    → out + suc n ≡ size
    → suc n + (input - 4) ≤ fuel
    → dump_loop fuel size input cells out
      ≡ some (slice out (suc n) cells ++ slice 4 (input - 4) cells)
dump_wrap n size input cells out zero l h s e f = absurd (omega arith)
dump_wrap zero size input cells out (suc fuel) l h s e f =
    dump_last (input - 4) size input cells out fuel h s e (omega arith) (omega arith)
dump_wrap (suc n) size input cells out (suc fuel) l h s e f =
    dump_step size input cells out fuel (slice (out + 1) (suc n) cells ++ slice 4 (input - 4) cells)
      (omega arith) s (λ k. omega (arith, k, h))
      (dump_wrap n size input cells (out + 1) fuel l (omega arith) s (omega arith) (omega arith))

-- The bytes of the ring from the output index up to the input index, around its end if the output
-- index is not below the input index.
abbrev pub ring : ℕ → ℕ → ℕ → List ℕ → List ℕ
ring size input out cells =
    if ltb out input
    then slice out (input - out) cells
    else slice out (size - out) cells ++ slice 4 (input - 4) cells

-- For a buffer of at most 65535 bytes, an input index from 4 to the end and an output index in the
-- buffer, the loop ends within as many rounds as the buffer has bytes. It writes the bytes from the
-- output index up to the input index, around the end; the whole ring if the two are equal.
pub dump_loop-ring :
    (size input out : ℕ) (cells : List ℕ)
    → 4 ≤ input
    → input < size
    → out < size
    → size < 2 ^ 16
    → dump_loop size size input cells out ≡ some (ring size input out cells)
dump_loop-ring size input out cells l i o s = elim (Bool-cases (ltb out input)) [
  | inl below ↦
      let n = input - out - 1 in
      let e : suc n ≡ input - out = omega (arith, ltb→lt out input below) in
      rw (below, ← e)
        (dump_straight n size input cells out size i s (omega (arith, ltb→lt out input below))
          (omega arith))
  | inr above ↦
      let n = size - out - 1 in
      let e : suc n ≡ size - out = omega arith in
      let le : input ≤ out = ground arith in
      rw (above, ← e) (dump_wrap n size input cells out size l le s (omega arith) (omega arith))
]

-- With an input index below 4, an output index from 4 to its end and a buffer of 5 to 65535 bytes, the loop
-- does not end, however many rounds it is given.
pub dump_loop_endless :
    (fuel size input out : ℕ) (cells : List ℕ)
    → input < 4
    → 4 ≤ out
    → out < size
    → 4 < size
    → size < 2 ^ 16
    → dump_loop fuel size input cells out ≡ none
unfolding dump_loop
dump_loop_endless zero size input out cells i o b n s = refl
dump_loop_endless (suc fuel) size input out cells i o b n s =
    elim (Bool-cases (leb size ((out + 1) % 2 ^ 16))) [
      | inl last ↦
          ground
            (arith, dump_loop_endless fuel size input 4 cells i (omega arith) (ground arith) n s)
      | inr inside ↦ ground (
        arith,
        dump_loop_endless fuel size input ((out + 1) % 2 ^ 16) cells i (omega arith) (ground arith)
            n s,
      )
    ]
