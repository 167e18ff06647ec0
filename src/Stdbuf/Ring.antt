-- ===== src/Stdbuf/Ring.antt =====
-- stdbuf_mon.c: the cells of the ring that are ahead of an index, and the index behind some of them.
use csh.Prelude.{
  ℕ, zero, suc, ◌+◌, ◌-◌, ◌%◌, ◌^◌, ◌≤◌, ◌<◌, ◌≡◌, refl, inl, inr, List, [], ◌∷◌, ◌++◌,
  if◌then◌else◌, ltb, ◌==◌, arith, Bool-cases,
}
use native.Mathlib.Nat.{mod_self}
use csh.Stdbuf.{peek}

-- how many cells of the ring are ahead
abbrev pub ahead : ℕ → ℕ → ℕ → ℕ
ahead size in_ out = if ltb in_ out then size - out + in_ else in_ - out

abbrev pub wrap : ℕ → ℕ → ℕ
wrap size i = if i == size then 0 else i

-- the cells of the ring from an index on, around its end
abbrev pub ring : (ℕ → ℕ) → ℕ → ℕ → ℕ → List ℕ
ring mem size zero i = []
ring mem size (suc n) i = mem i ∷ ring mem size n (wrap size (suc i))

-- as far as the end of the ring, its cells are those of the memory
pub ring-peek :
    (mem : ℕ → ℕ) (size n rest d i : ℕ)
    → d ≡ n + rest
    → i + n ≤ size
    → i < size
    → ring mem size d i ≡ peek mem i n ++ ring mem size rest (wrap size (i + n))
ring-peek mem size zero rest d i e h hi =
    let same : d ≡ rest = omega (arith, e) in
    let here : wrap size (i + 0) ≡ i = ground arith in rw (same, here) refl
ring-peek mem size (suc n) rest zero i e h hi = absurd (omega arith)
ring-peek mem size (suc zero) rest (suc d) i e h hi =
    let same : d ≡ rest = omega (arith, e) in
    let next : i + 1 ≡ suc i = omega arith in rw (same, next) refl
ring-peek mem size (suc (suc n)) rest (suc d) i e h hi =
    let here : wrap size (suc i) ≡ suc i = ground arith in
    let next : i + suc (suc n) ≡ suc i + suc n = omega arith in
    let ih =
      ring-peek mem size (suc n) rest d (suc i) (omega (arith, e)) (omega arith) (omega arith) in
    rw (here, next, ih) refl

whole_mod : (size : ℕ) → size ≤ 2 ^ 16 → (size % 2 ^ 16) % size ≡ 0
whole_mod size hs = elim (Bool-cases (size == 2 ^ 16)) [
  | inl full ↦ let same : size ≡ 2 ^ 16 = ground arith in rw same refl
  | inr part ↦ let same : size % 2 ^ 16 ≡ size = ground arith in rw same (mod_self size)
]

pub wrap_mod :
    (size x : ℕ) → size ≤ 2 ^ 16 → 0 < size → x ≤ size → (x % 2 ^ 16) % size ≡ wrap size x
wrap_mod size x hs h hx = elim (Bool-cases (x == size)) [
  | inl whole ↦
      let same : x ≡ size = ground arith in
      let start : wrap size size ≡ 0 = ground arith in rw (same, start) (whole_mod size hs)
  | inr part ↦ grind arith
]

-- behind a round that prints `n` cells
pub ahead_less :
    (size in_ out n out' : ℕ)
    → in_ < size
    → out < size
    → n ≤ ahead size in_ out
    → out + n ≤ size
    → out' ≡ wrap size (out + n)
    → (ahead size in_ out ≡ n + ahead size in_ out') × (out' < size)
ahead_less size in_ out n out' hin hout hn h e = (ground (arith, e), ground (arith, e))

pub none_ahead :
    (mem : ℕ → ℕ) (size in_ out : ℕ) → out ≡ in_ → ring mem size (ahead size in_ out) out ≡ []
none_ahead mem size in_ out same =
    let none : ahead size in_ out ≡ 0 = ground (arith, same) in rw none refl
