-- ===== src/Environment/Tests.antt =====
-- Runs of environment.c on small inputs, and its theorems at inputs that meet their hypotheses.
use csh.Prelude.{ℕ, ◌≡◌, refl, codes, bytes_eq, none, some, [], ◌∷◌, Bool, true, arith, leb}
use csh.Environment.{Env, get_env_entry, getvar}
use csh.Environment.Laws.{AreDistinct}
use csh.Environment.Expand.{
  CharBuf, expand_vars, expand_buf, expand_loop, expand_step, close_var, copy_input, copy_value,
  copy_char_and_grow, var_name,
}
use csh.Environment.Expand.Memory.{Fits, expand_buf-Fits}
use csh.Environment.Expand.Reference.{expansion, expand_vars-expansion}

abbrev any_size : ℕ → Bool
any_size n = true

abbrev vars : Env
vars =
    record { name = codes "JB"; value = codes "SPACEINVENTOR" }
    ∷ record { name = codes "N"; value = codes "7" }
    ∷ []

-- the examples of the disabled `main`
expand_runs :
    expand_vars any_size vars (codes "$(JB) test -v 1 $(JB)")
    ≡ some (codes "SPACEINVENTOR test -v 1 SPACEINVENTOR")
unfolding expand_vars expand_buf expand_loop expand_step close_var copy_input copy_value
    copy_char_and_grow var_name getvar get_env_entry bytes_eq
expand_runs = refl

expand_unclosed : expand_vars any_size vars (codes "-n $(N) $(JB") ≡ some (codes "-n 7 ")
unfolding expand_vars expand_buf expand_loop expand_step close_var copy_input copy_value
    copy_char_and_grow var_name getvar get_env_entry bytes_eq
expand_unclosed = refl

-- The result needs more than the five bytes that can be had.
expand_out_of_memory : expand_vars (λ n. leb n 5) vars (codes "$(JB)") ≡ none
unfolding expand_vars expand_buf expand_loop expand_step close_var copy_input copy_value
    copy_char_and_grow var_name getvar get_env_entry bytes_eq
expand_out_of_memory = refl

vars-AreDistinct : AreDistinct vars
unfolding getvar get_env_entry bytes_eq
vars-AreDistinct = (refl, (refl, tt))

abbrev grown : CharBuf
grown = record { text = codes "SPACEINVENTOR"; dest_len = 21; allocated = 22 }

grown_runs : expand_buf any_size vars (codes "$(JB)") ≡ some grown
unfolding expand_buf expand_loop expand_step close_var copy_input copy_value copy_char_and_grow
    var_name getvar get_env_entry bytes_eq
grown_runs = refl

expand_buf-Fits_example : Fits grown
expand_buf-Fits_example = expand_buf-Fits any_size vars (codes "$(JB)") grown grown_runs

expand_vars-expansion_example :
    expand_vars any_size vars (codes "-n $(N)") ≡ some (expansion vars none (codes "-n $(N)"))
expand_vars-expansion_example =
    expand_vars-expansion any_size vars (codes "-n $(N)") (λ n. refl) (omega arith)
