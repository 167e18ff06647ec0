-- ===== src/Environment/Expand/Steps.antt =====
-- environment.c: what each kind of round of `csh_expand_vars` does to the text that is read and the result.
use csh.Prelude.{
  ℕ, suc, ◌+◌, ◌-◌, ◌<◌, ◌≡◌, refl, sym, ◌∙◌, Bytes, Option, none, some, [], ◌∷◌, ◌++◌, Bool, true,
  false, ◌&&◌, arith, length, length-append, append_assoc, append-nil, ◌==◌, ◌^◌, get_or, take,
  drop, ap, Bool-cases, inl, inr,
}
use csh.Environment.{Env, getvar}
use csh.Environment.Expand.Reading.{opens, read_at, read_next, opens_read, var_name-read}
use csh.Environment.Expand.{
  CharBuf, Expansion, copy_char_and_grow, copy_value, copy_input, close_var, expand_step,
  expand_loop, var_name,
}

-- An undefined variable stands for nothing.
abbrev pub value_of : Env → Bytes → Bytes
value_of env name = elim (getvar env name) [ none ↦ [] | some v ↦ v ]

module _ (alloc : ℕ → Bool) (enough : (n : ℕ) → alloc n ≡ true) where
  -- A buffer step that succeeds and appends `out`.
  abbrev Appends : CharBuf → Option CharBuf → Bytes → Type 0
  Appends b r out = (b' : CharBuf) × (r ≡ some b') × (b'.text ≡ b.text ++ out)

  copy_char_and_grow-Appends :
      (b : CharBuf) (c : ℕ) → Appends b (copy_char_and_grow alloc b c) (c ∷ [])
  unfolding copy_char_and_grow
  copy_char_and_grow-Appends b c = elim (Bool-cases (length b.text == b.dest_len)) [
    | inl full ↦ (
      record {
        text = b.text ++ c ∷ [];
        dest_len = b.dest_len + 16;
        allocated = b.dest_len + 16 + 1;
      },
      rw (full, enough (b.dest_len + 16 + 1)),
      refl,
    )
    | inr room ↦ (record b { text = b.text ++ c ∷ [] }, rw room, refl)
  ]

  copy_value-Appends : (b : CharBuf) (cs : Bytes) → Appends b (copy_value alloc b cs) cs
  unfolding copy_value
  copy_value-Appends b [] = (b, refl, sym (append-nil b.text))
  copy_value-Appends b (c ∷ cs) =
      let (b1, e1, t1) = copy_char_and_grow-Appends b c in
      let (b2, e2, t2) = copy_value-Appends b1 cs in (b2, rw e1 e2, t2 ∙ rw (t1, append_assoc))

  module _ (env : Env) (input : Bytes) (short : length input < 2 ^ 64) where
    -- The rest of the loop succeeds and appends `out`.
    abbrev pub Runs : ℕ → ℕ → Expansion → Bytes → Type 0
    Runs n idx s out =
        (s' : Expansion) × (expand_loop alloc env input n idx s ≡ some s')
        × (s'.buf.text ≡ s.buf.text ++ out)

    Runs-step :
        (n idx : ℕ) (s s1 : Expansion) (now later : Bytes)
        → expand_step alloc env input idx s ≡ some s1
        → s1.buf.text ≡ s.buf.text ++ now
        → Runs n (idx + 1) s1 later
        → Runs (suc n) idx s (now ++ later)
    unfolding expand_loop
    Runs-step n idx s s1 now later e t (s2, e2, t2) = (s2, rw e e2, t2 ∙ rw (t, append_assoc))

    step_copy :
        (idx : ℕ) (s : Expansion)
        → s.in_var ≡ false
        → opens input idx ≡ false
        → (s1 : Expansion) × (expand_step alloc env input idx s ≡ some s1)
          × (s1.buf.text ≡ s.buf.text ++ get_or input idx 0 ∷ [])
          × (s1.in_var ≡ false)
    unfolding expand_step copy_input
    step_copy idx s out shut =
        let (b, e, t) = copy_char_and_grow-Appends s.buf (get_or input idx 0) in
        (record s { buf = b }, ground arith, t, out)

    step_open :
        (idx : ℕ) (s : Expansion)
        → s.in_var ≡ false
        → opens input idx ≡ true
        → expand_step alloc env input idx s ≡ some (record s { in_var = true; var_s = idx + 2 })
    unfolding expand_step
    step_open idx s out open_here = ground arith

    step_inside :
        (idx : ℕ) (s : Expansion)
        → s.in_var ≡ true
        → (get_or input idx 0 == b')') ≡ false
        → expand_step alloc env input idx s ≡ some s
    unfolding expand_step
    step_inside idx s inside more = rw (inside, more)

    close_var-Appends :
        (s : Expansion) (var_e : ℕ) (o : Option Bytes)
        → (s1 : Expansion) × (close_var alloc env input s var_e o ≡ some s1)
          × (s1.buf.text ≡ s.buf.text ++ elim o [ none ↦ [] | some v ↦ v ])
          × (s1.in_var ≡ false)
    unfolding close_var
    close_var-Appends s var_e none =
        (record s { in_var = false; var_s = var_e }, refl, sym (append-nil s.buf.text), refl)
    close_var-Appends s var_e (some v) =
        let (b, e, t) = copy_value-Appends s.buf v in
        (record { buf = b; in_var = false; var_s = var_e }, rw e, t, refl)

    step_close :
        (idx : ℕ) (s : Expansion)
        → s.in_var ≡ true
        → (get_or input idx 0 == b')') ≡ true
        → (s1 : Expansion) × (expand_step alloc env input idx s ≡ some s1)
          × (s1.buf.text ≡ s.buf.text ++ value_of env (take (idx - s.var_s) (drop s.var_s input)))
          × (s1.in_var ≡ false)
    unfolding expand_step var_name
    step_close idx s inside here =
        let name = take (idx - s.var_s) (drop s.var_s input) in
        let (s1, e, t, o) = close_var-Appends s idx (getvar env name) in
        (s1, simp (inside, here) e, t, o)

    -- Where the loop stands: `before` is read, `rest` is not, and in a reference `name` is.
    abbrev pub At : Option Bytes → Bytes → ℕ → Bytes → Expansion → Type 0
    At none before idx rest s =
        (input ≡ before ++ rest) × (idx ≡ length before) × (s.in_var ≡ false)
    At (some name) before idx rest s =
        (input ≡ before ++ (name ++ rest))
        × (idx ≡ length before + length name)
        × (s.in_var ≡ true)
        × (s.var_s ≡ length before)

    -- One byte is copied, and the rest of the input runs to `later`.
    pub run_copy :
        (c : ℕ) (rest before : Bytes) (idx : ℕ) (s : Expansion) (later : Bytes)
        → At none before idx (c ∷ rest) s
        → opens input idx ≡ false
        → ((s1 : Expansion)
            → At none (before ++ c ∷ []) (idx + 1) rest s1
            → Runs (length rest) (idx + 1) s1 later)
        → Runs (suc (length rest)) idx s (c ∷ later)
    run_copy c rest before idx s later (e, i, out) shut run =
        let (s1, step, t, out1) = step_copy idx s out shut in
        Runs-step (length rest) idx s s1 (c ∷ []) later step
          (rw (read_at input short before c rest idx e i) at t)
          (run s1 (
            e ∙ sym (append_assoc before (c ∷ []) rest),
            omega (arith, length-append before (c ∷ [])),
            out1,
          ))

    -- A reference is opened by two bytes.
    pub run_open :
        (c d x : ℕ) (rest before : Bytes) (idx : ℕ) (s : Expansion) (later : Bytes)
        → At none before idx (c ∷ d ∷ x ∷ rest) s
        → (c == b'$' && d == b'(') ≡ true
        → ((s1 : Expansion)
            → At (some []) (before ++ c ∷ d ∷ []) (idx + 1 + 1) (x ∷ rest) s1
            → Runs (suc (length rest)) (idx + 1 + 1) s1 later)
        → Runs (suc (suc (suc (length rest)))) idx s later
    run_open c d x rest before idx s later (e, i, out) open_here run =
        let s1 = record s { in_var = true; var_s = idx + 2 } in
        let here = opens_read input short before c d x rest idx e i in
        let paren : (get_or input (idx + 1) 0 == b')') ≡ false =
          rw (read_next input short before c d (x ∷ rest) idx e i) (ground arith) in
        Runs-step (suc (suc (length rest))) idx s s1 [] later
          (step_open idx s out (here ∙ open_here)) (sym (append-nil s.buf.text))
          (Runs-step (suc (length rest)) (idx + 1) s1 s1 [] later
            (step_inside (idx + 1) s1 refl paren) (sym (append-nil s.buf.text))
            (run s1 (
              e ∙ sym (append_assoc before (c ∷ d ∷ []) (x ∷ rest)),
              omega (arith, length-append before (c ∷ d ∷ [])),
              refl,
              omega (arith, length-append before (c ∷ d ∷ [])),
            )))

    -- A byte of a name is passed over.
    pub run_inside :
        (c : ℕ) (name rest before : Bytes) (idx : ℕ) (s : Expansion) (later : Bytes)
        → At (some name) before idx (c ∷ rest) s
        → (get_or input idx 0 == b')') ≡ false
        → (At (some (name ++ c ∷ [])) before (idx + 1) rest s
            → Runs (length rest) (idx + 1) s later)
        → Runs (suc (length rest)) idx s later
    run_inside c name rest before idx s later (e, i, inside, from) more run =
        Runs-step (length rest) idx s s [] later (step_inside idx s inside more)
          (sym (append-nil s.buf.text))
          (run (
            e ∙ ap (λ t. before ++ t) (sym (append_assoc name (c ∷ []) rest)),
            omega (arith, length-append name (c ∷ [])),
            inside,
            from,
          ))

    -- A reference is closed.
    pub run_close :
        (c : ℕ) (name rest before : Bytes) (idx : ℕ) (s : Expansion) (later : Bytes)
        → At (some name) before idx (c ∷ rest) s
        → (get_or input idx 0 == b')') ≡ true
        → ((s1 : Expansion)
            → At none ((before ++ name) ++ c ∷ []) (idx + 1) rest s1
            → Runs (length rest) (idx + 1) s1 later)
        → Runs (suc (length rest)) idx s (value_of env name ++ later)
    run_close c name rest before idx s later (e, i, inside, from) close run =
        let (s1, step, t, out1) = step_close idx s inside close in
        let named = var_name-read input short before name (c ∷ rest) idx s.var_s e i from in
        Runs-step (length rest) idx s s1 (value_of env name) later step (rw named at t) (
          run s1 (
            e
                ∙ (sym (append_assoc before name (c ∷ rest))
                    ∙ sym (append_assoc (before ++ name) (c ∷ []) rest)),
            omega (arith, length-append before name, length-append (before ++ name) (c ∷ [])),
            out1,
          ))
