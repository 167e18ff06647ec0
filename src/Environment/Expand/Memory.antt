-- ===== src/Environment/Expand/Memory.antt =====
-- environment.c: the result of `csh_expand_vars` in its memory.
use csh.Prelude.{
  ℕ, zero, suc, ◌+◌, ◌≤◌, ◌<◌, ◌≡◌, ◌==◌, ◌&&◌, if◌then◌else◌, ltb, get_or, true, false, Bytes,
  Option, none, some, [], ◌∷◌, Bool, arith, length, length-append, bind-eq-some, Bool-cases, inl,
  inr,
}
use csh.Environment.{Env, getvar}
use csh.Environment.Expand.{
  CharBuf, Expansion, size_sub, var_name, copy_char_and_grow, copy_value, copy_input, close_var,
  expand_step, expand_loop, expand_buf,
}

-- The text and its NUL, at index `length text`, lie in the bytes that the allocation asked for, and `dest_len` is
-- an index of these. A write outside could not be made good later: the text grows by a byte at a time, and the
-- buffer only when the text has `dest_len` bytes.
abbrev pub Fits : CharBuf → Type 0
Fits b = (length b.text < b.allocated) × (length b.text ≤ b.dest_len) × (b.dest_len < b.allocated)

if-Fits :
    (b : Bool) (x y : Option Expansion) (s' : Expansion)
    → (x ≡ some s' → Fits s'.buf)
    → (y ≡ some s' → Fits s'.buf)
    → (if b then x else y) ≡ some s'
    → Fits s'.buf
if-Fits true x y s' h k e = h e
if-Fits false x y s' h k e = k e

module _ (alloc : ℕ → Bool) where
  copy_char_and_grow-Fits :
      (b b' : CharBuf) (c : ℕ) → Fits b → copy_char_and_grow alloc b c ≡ some b' → Fits b'
  unfolding copy_char_and_grow
  copy_char_and_grow-Fits b b' c f h = ground (arith, length-append b.text (c ∷ []))

  copy_value-Fits :
      (b b' : CharBuf) (cs : Bytes) → Fits b → copy_value alloc b cs ≡ some b' → Fits b'
  unfolding copy_value
  copy_value-Fits b b' [] f h = ground arith
  copy_value-Fits b b' (c ∷ cs) f h =
      let (m, e, later) =
        bind-eq-some (copy_char_and_grow alloc b c) (λ d. copy_value alloc d cs) h in
      copy_value-Fits m b' cs (copy_char_and_grow-Fits b m c f e) later

  copy_input-Fits :
      (s s' : Expansion) (c : ℕ) → Fits s.buf → copy_input alloc s c ≡ some s' → Fits s'.buf
  unfolding copy_input
  copy_input-Fits s s' c f h =
      let (m, e, later) = bind-eq-some (copy_char_and_grow alloc s.buf c) _ h in
      let fits = copy_char_and_grow-Fits s.buf m c f e in ground arith

  module _ (env : Env) (input : Bytes) where
    close_var-Fits :
        (s s' : Expansion) (var_e : ℕ) (o : Option Bytes)
        → Fits s.buf
        → close_var alloc env input s var_e o ≡ some s'
        → Fits s'.buf
    unfolding close_var
    close_var-Fits s s' var_e none f h = ground arith
    close_var-Fits s s' var_e (some v) f h =
        let (m, e, later) = bind-eq-some (copy_value alloc s.buf v) _ h in
        let fits = copy_value-Fits s.buf m v f e in ground arith

    expand_step-Fits :
        (idx : ℕ) (s s' : Expansion)
        → Fits s.buf
        → expand_step alloc env input idx s ≡ some s'
        → Fits s'.buf
    unfolding expand_step
    expand_step-Fits idx s s' f h =
        let c = get_or input idx 0 in
        let copied = copy_input-Fits s s' c f in
        let value = getvar env (var_name alloc env input s.var_s idx) in
        if-Fits s.in_var _ _ s'
          (if-Fits (c == b')') (close_var alloc env input s idx value) (some s) s'
            (close_var-Fits s s' idx value f) (λ e. ground arith))
          (if-Fits (ltb idx (size_sub (length input) 2)) _ (copy_input alloc s c) s'
            (if-Fits (c == b'$' && get_or input (idx + 1) 0 == b'(')
              (some (record s { in_var = true; var_s = idx + 2 })) (copy_input alloc s c) s'
              (λ e. ground arith) copied)
            copied)
          h

    expand_loop-Fits :
        (n idx : ℕ) (s s' : Expansion)
        → Fits s.buf
        → expand_loop alloc env input n idx s ≡ some s'
        → Fits s'.buf
    unfolding expand_loop
    expand_loop-Fits zero idx s s' f h = ground arith
    expand_loop-Fits (suc n) idx s s' f h =
        let (m, e, later) = bind-eq-some (expand_step alloc env input idx s) _ h in
        expand_loop-Fits n (idx + 1) m s' (expand_step-Fits idx s m f e) later

-- Whatever the input, the variables and the outcome of each allocation: when `csh_expand_vars`
-- returns a buffer, its text and the terminating NUL fit into the bytes that its last allocation asked for.
pub expand_buf-Fits :
    (alloc : ℕ → Bool) (env : Env) (input : Bytes) (b : CharBuf)
    → expand_buf alloc env input ≡ some b
    → Fits b
unfolding expand_buf
expand_buf-Fits alloc env input b h = elim (Bool-cases (alloc (length input + 1))) [
  | inl got ↦
      let (s, e, later) =
        bind-eq-some (expand_loop alloc env input (length input) 0 _) _ (rw got at h) in
      let fits = expand_loop-Fits alloc env input (length input) 0 _ s (omega arith) e in
      ground arith
  | inr failed ↦ ground arith
]
