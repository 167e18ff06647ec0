-- ===== src/Environment/Expand/Reading.antt =====
-- environment.c: what `csh_expand_vars` reads at an index, in terms of the bytes before and behind it.
use csh.Prelude.{
  ℕ, ◌+◌, ◌-◌, ◌<◌, ◌≡◌, sym, ◌∙◌, Bytes, [], ◌∷◌, ◌++◌, Bool, true, false, ◌&&◌, arith, length,
  length-append, append_assoc, ◌==◌, ◌^◌, ltb, get_or, take, drop, get_or-append_self,
  get_or_beyond, drop-append_self, take-append_self,
}
use csh.Environment.Expand.{size_sub}

module _ (input : Bytes) where
  -- whether `$(` at `idx` opens a reference
  abbrev pub opens : ℕ → Bool
  opens idx =
      ltb idx (size_sub (length input) 2)
      && (get_or input idx 0 == b'$' && get_or input (idx + 1) 0 == b'(')

  module _ (short : length input < 2 ^ 64) where
    pub read_at :
        (before : Bytes) (c : ℕ) (rest : Bytes) (idx : ℕ)
        → input ≡ before ++ c ∷ rest
        → idx ≡ length before
        → get_or input idx 0 ≡ c
    read_at before c rest idx e i = rw (e, i) (get_or-append_self before c rest 0)

    pub read_next :
        (before : Bytes) (c d : ℕ) (rest : Bytes) (idx : ℕ)
        → input ≡ before ++ c ∷ d ∷ rest
        → idx ≡ length before
        → get_or input (idx + 1) 0 ≡ d
    read_next before c d rest idx e i =
        read_at (before ++ c ∷ []) d rest (idx + 1)
          (e ∙ sym (append_assoc before (c ∷ []) (d ∷ rest)))
          (omega (arith, length-append before (c ∷ [])))

    input_length :
        (before rest : Bytes) → input ≡ before ++ rest → length input ≡ length before + length rest
    input_length before rest e = rw e (length-append before rest)

    pub ends_shut_one :
        (before : Bytes) (c idx : ℕ)
        → input ≡ before ++ c ∷ []
        → idx ≡ length before
        → opens idx ≡ false
    ends_shut_one before c idx e i =
        let size = input_length before (c ∷ []) e in
        let nul = get_or_beyond input (idx + 1) 0 (omega arith) in ground arith

    pub ends_shut_two :
        (before : Bytes) (c d idx : ℕ)
        → input ≡ before ++ c ∷ d ∷ []
        → idx ≡ length before
        → opens idx ≡ false
    ends_shut_two before c d idx e i =
        let size = input_length before (c ∷ d ∷ []) e in
        let late : ltb idx (size_sub (length input) 2) ≡ false = ground arith in rw late

    pub opens_read :
        (before : Bytes) (c d x : ℕ) (rest : Bytes) (idx : ℕ)
        → input ≡ before ++ c ∷ d ∷ x ∷ rest
        → idx ≡ length before
        → opens idx ≡ (c == b'$' && d == b'(')
    opens_read before c d x rest idx e i =
        let size = input_length before (c ∷ d ∷ x ∷ rest) e in
        let early : ltb idx (size_sub (length input) 2) ≡ true = ground arith in
        rw (early, read_at before c (d ∷ x ∷ rest) idx e i, read_next before c d (x ∷ rest) idx e i)

    pub var_name-read :
        (before name rest : Bytes) (idx var_s : ℕ)
        → input ≡ before ++ (name ++ rest)
        → idx ≡ length before + length name
        → var_s ≡ length before
        → take (idx - var_s) (drop var_s input) ≡ name
    var_name-read before name rest idx var_s e i v =
        let size : idx - var_s ≡ length name = omega arith in
        rw (size, e, v) (rw (drop-append_self before (name ++ rest)) (take-append_self name rest))
