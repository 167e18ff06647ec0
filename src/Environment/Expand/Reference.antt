-- ===== src/Environment/Expand/Reference.antt =====
-- environment.c: what `csh_expand_vars` computes, without indices and buffers.
use csh.Prelude.{
  ℕ, ◌+◌, ◌<◌, ◌≡◌, refl, sym, ◌∙◌, Bytes, Option, none, some, [], ◌∷◌, ◌++◌, Bool, true, false,
  ◌&&◌, length, length-append, append_assoc, append-nil, ◌==◌, ◌^◌, ap, Bool-cases, inl, inr,
}
use csh.Environment.{Env}
use csh.Environment.Expand.Reading.{read_at, ends_shut_one, ends_shut_two, opens_read}
use csh.Environment.Expand.{Expansion, expand_loop, expand_buf, expand_vars, start}
use csh.Environment.Expand.Steps.{value_of, Runs, At, run_copy, run_open, run_inside, run_close}

-- Outside a reference (`none`) bytes are copied, and `$(` opens a reference if at least one byte
-- follows it. Inside (`some name`) bytes up to `)` are collected; a reference that is never closed
-- vanishes with all that follows it.
unfoldable pub expansion : Env → Option Bytes → Bytes → Bytes
expansion env none [] = []
expansion env none (c ∷ []) = c ∷ []
expansion env none (c ∷ d ∷ []) = c ∷ d ∷ []
expansion env none (c ∷ d ∷ x ∷ rest) = elim (c == b'$' && d == b'(') [
  | true ↦ expansion env (some []) (x ∷ rest)
  | false ↦ c ∷ expansion env none (d ∷ x ∷ rest)
]
expansion env (some name) [] = []
expansion env (some name) (c ∷ rest) = elim (c == b')') [
  | true ↦ value_of env name ++ expansion env none rest
  | false ↦ expansion env (some (name ++ c ∷ [])) rest
]

module _ (alloc : ℕ → Bool) (enough : (n : ℕ) → alloc n ≡ true) where
  module _ (env : Env) (input : Bytes) (short : length input < 2 ^ 64) where
    loop_expansion :
        (mode : Option Bytes) (rest before : Bytes) (idx : ℕ) (s : Expansion)
        → At alloc enough env input short mode before idx rest s
        → Runs alloc enough env input short (length rest) idx s (expansion env mode rest)
    unfolding expansion
    loop_expansion none [] before idx s h =
        (s, unfold expand_loop in refl, sym (append-nil s.buf.text))
    loop_expansion (some name) [] before idx s h =
        (s, unfold expand_loop in refl, sym (append-nil s.buf.text))
    loop_expansion none (c ∷ []) before idx s h =
        run_copy alloc enough env input short c [] before idx s [] h
          (ends_shut_one input short before c idx h.0 h.1)
          (λ s1 h1. loop_expansion none [] (before ++ c ∷ []) (idx + 1) s1 h1)
    loop_expansion none (c ∷ d ∷ []) before idx s h =
        run_copy alloc enough env input short c (d ∷ []) before idx s (d ∷ []) h
          (ends_shut_two input short before c d idx h.0 h.1)
          (λ s1 h1. loop_expansion none (d ∷ []) (before ++ c ∷ []) (idx + 1) s1 h1)
    loop_expansion none (c ∷ d ∷ x ∷ rest) before idx s h =
        let here = opens_read input short before c d x rest idx h.0 h.1 in
        elim (Bool-cases (c == b'$' && d == b'(')) [
          | inl open_here ↦
              rw (open_here, expansion)
                (run_open alloc enough env input short c d x rest before idx s _ h open_here
                  (λ s1 h1.
                    loop_expansion (some []) (x ∷ rest) (before ++ c ∷ d ∷ []) (idx + 1 + 1) s1 h1))
          | inr shut ↦
              rw (shut, expansion)
                (run_copy alloc enough env input short c (d ∷ x ∷ rest) before idx s _ h
                  (here ∙ shut)
                  (λ s1 h1. loop_expansion none (d ∷ x ∷ rest) (before ++ c ∷ []) (idx + 1) s1 h1))
        ]
    loop_expansion (some name) (c ∷ rest) before idx s h =
        let here =
          read_at input short (before ++ name) c rest idx
            (h.0 ∙ sym (append_assoc before name (c ∷ rest)))
            (h.1 ∙ sym (length-append before name)) in
        elim (Bool-cases (c == b')')) [
          | inl close ↦
              rw (close, expansion)
                (run_close alloc enough env input short c name rest before idx s _ h (rw here close)
                  (λ s1 h1. loop_expansion none rest ((before ++ name) ++ c ∷ []) (idx + 1) s1 h1))
          | inr more ↦
              rw (more, expansion)
                (run_inside alloc enough env input short c name rest before idx s _ h (rw here more)
                  (λ h1. loop_expansion (some (name ++ c ∷ [])) rest before (idx + 1) s h1))
        ]

-- With allocations that succeed, and for inputs that a size_t can measure, `csh_expand_vars` returns
-- the expansion of its input: what stands outside references is copied in order, and each closed
-- reference is replaced by the variable's value, or by nothing if the variable is not defined.
pub expand_vars-expansion :
    (alloc : ℕ → Bool) (env : Env) (input : Bytes)
    → ((n : ℕ) → alloc n ≡ true)
    → length input < 2 ^ 64
    → expand_vars alloc env input ≡ some (expansion env none input)
unfolding expand_vars expand_buf
expand_vars-expansion alloc env input enough short =
    let (s, e, t) =
      loop_expansion alloc enough env input short none input [] 0 (start alloc env input)
        (refl, refl, refl) in
    rw (enough (length input + 1)) (rw e (ap some t))
