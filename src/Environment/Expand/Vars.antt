-- ===== src/Environment/Expand/Vars.antt =====
-- environment.c: references to variables that `csh_putvar` has set.
use csh.Prelude.{
  ℕ, ◌<◌, ◌^◌, ◌≡◌, ◌≢◌, refl, sym, ◌∙◌, ap, Bytes, none, some, [], ◌∷◌, ◌++◌, Bool, true, false,
  ◌==◌, arith, All, append_assoc, append-nil, length, bytes_eq_refl,
}
use csh.Environment.{Env, putvar, getvar}
use csh.Environment.Laws.{getvar-putvar}
use csh.Environment.Expand.{expand_vars}
use csh.Environment.Expand.Steps.{value_of}
use csh.Environment.Expand.Reference.{expansion, expand_vars-expansion}

-- A name that a reference can spell.
abbrev pub IsVarName : Bytes → Type 0
IsVarName = All (λ c. c ≢ b')')

-- `$(name)`
abbrev pub reference : Bytes → Bytes
reference name = b'$' ∷ b'(' ∷ (name ++ b')' ∷ [])

value_of-some : (env : Env) (name v : Bytes) → getvar env name ≡ some v → value_of env name ≡ v
value_of-some env name v h = rw (h, value_of)

expansion-name :
    (env : Env) (acc name rest : Bytes)
    → IsVarName name
    → expansion env (some acc) (name ++ b')' ∷ rest)
      ≡ value_of env (acc ++ name) ++ expansion env none rest
unfolding expansion
expansion-name env acc [] rest h = rw (append-nil acc)
expansion-name env acc (c ∷ cs) rest h =
    let more : (c == b')') ≡ false = ground arith in
    rw (more, expansion)
      (expansion-name env (acc ++ c ∷ []) cs rest h.1
        ∙ ap (λ n. value_of env n ++ expansion env none rest) (append_assoc acc (c ∷ []) cs))

-- A reference in front of a text stands for its value in front of the text's expansion.
pub expansion-reference :
    (env : Env) (name rest : Bytes)
    → IsVarName name
    → expansion env none (reference name ++ rest) ≡ value_of env name ++ expansion env none rest
unfolding expansion
expansion-reference env name rest h = rw (append_assoc name (b')' ∷ []) rest) (opened name h)
  where
    opened :
        (n : Bytes)
        → IsVarName n
        → expansion env none (b'$' ∷ b'(' ∷ (n ++ b')' ∷ rest))
          ≡ value_of env n ++ expansion env none rest
    opened [] k = refl
    opened (c ∷ cs) k = expansion-name env [] (c ∷ cs) rest k

-- With allocations that succeed, after `csh_putvar` of a name without `)`, `csh_expand_vars` of the
-- reference `$(name)` returns exactly the value that was set.
pub expand_vars-putvar :
    (alloc : ℕ → Bool) (env : Env) (name value : Bytes)
    → ((n : ℕ) → alloc n ≡ true)
    → length (reference name) < 2 ^ 64
    → IsVarName name
    → expand_vars alloc (putvar name value env) (reference name) ≡ some value
expand_vars-putvar alloc env name value enough short h =
    let env' = putvar name value env in
    let set : getvar env' name ≡ some value =
      getvar-putvar env name value name ∙ rw (bytes_eq_refl name) in
    expand_vars-expansion alloc env' (reference name) enough short
    ∙ ap some (
        ap (expansion env' none) (sym (append-nil (reference name)))
        ∙ expansion-reference env' name [] h
        ∙ rw (value_of-some env' name value set) (unfold expansion in append-nil value))
