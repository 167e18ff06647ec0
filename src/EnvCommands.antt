-- ===== src/EnvCommands.antt =====
-- src/slash_env_var_cmds.c: the commands on the shell's variables, and the completion of their names.
pub mod Completer
pub mod RoundTrip
mod Tests
use csh.Prelude.{
  ℕ, ◌+◌, ◌-◌, ◌>>=◌, Bytes, codes, Option, none, some, List, [], ◌∷◌, ◌++◌, Bool, if◌then◌else◌,
  ◌==◌, ltb, length,
}
use csh.Slash.{Status, success, einval, Ran, argument}
use csh.Environment.{Env, getvar, putvar, delvar, clearenv, foreach_var}
use csh.Environment.Expand.{expand_vars}

-- `%s`
abbrev pub shown : Option Bytes → Bytes
shown none = codes "(null)"
shown (some text) = text

abbrev pub refuse : List Bytes → Env → Ran Env
refuse printed env = record { status = einval; printed = printed; state = env }

unfoldable pub slash_var_set : Option ℕ → List Bytes → Env → Ran Env
slash_var_set none argv env = refuse [] env
slash_var_set (some argi) argv env =
    if length argv == argi + 3
    then (let name = argument 1 argv in
        let env' = putvar name (argument 2 argv) env in
        record {
          status = success;
          printed =
              (codes "Variable "
                ++ (name ++ (codes " defined, value=" ++ (shown (getvar env' name) ++ codes "\n"))))
              ∷ [];
          state = env';
        })
    else refuse (codes "Must give NAME and VALUE parameters\n" ∷ []) env

unfoldable pub slash_var_unset : Option ℕ → List Bytes → Env → Ran Env
slash_var_unset none argv env = refuse [] env
slash_var_unset (some argi) argv env =
    if length argv == argi + 2
    then record { status = success; printed = []; state = (delvar (argument 1 argv) env).0 }
    else refuse (codes "Must give NAME, and only NAME parameter\n" ∷ []) env

unfoldable pub slash_var_clear : Option ℕ → List Bytes → Env → Ran Env
slash_var_clear none argv env = refuse [] env
slash_var_clear (some argi) argv env =
    if ltb (argi + 1) (length argv)
    then refuse (codes "var clear takes no parameters\n" ∷ []) env
    else record { status = success; printed = []; state = clearenv env }

abbrev pub value_line : Option Bytes → List Bytes
value_line none = []
value_line (some value) = (value ++ codes "\n") ∷ []

unfoldable pub slash_var_get : Option ℕ → List Bytes → Env → Ran Env
slash_var_get none argv env = refuse [] env
slash_var_get (some argi) argv env =
    if length argv == argi + 2
    then record {
      status = success;
      printed = value_line (getvar env (argument 1 argv));
      state = env;
    }
    else refuse (codes "Must give NAME, and only NAME parameter\n" ∷ []) env

abbrev pub print_var : Env → Bytes → Bytes
print_var env name = name ++ (codes "=" ++ (shown (getvar env name) ++ codes "\n"))

-- `csh_foreach_var(print_var, NULL)`
unfoldable pub print_vars : Env → List Bytes → List Bytes
print_vars env [] = []
print_vars env (name ∷ names) = print_var env name ∷ print_vars env names

unfoldable pub slash_var_show : Option ℕ → List Bytes → Env → Ran Env
unfolding print_vars
slash_var_show none argv env = refuse [] env
slash_var_show (some argi) argv env =
    if ltb (argi + 1) (length argv)
    then refuse (codes "var show takes no parameters\n" ∷ []) env
    else record { status = success; printed = print_vars env (foreach_var env); state = env }

-- `slash_execute` is a parameter; what a refresh of the prompt prints is left out. With `execute`,
-- the result `none` is a copy from a null pointer.
unfoldable pub slash_var_expand :
    (ℕ → Bool) → (Bytes → Env → Ran Env) → Bool → Option ℕ → List Bytes → Env → Option (Ran Env)
slash_var_expand alloc slash_execute execute none argv env = some (refuse [] env)
slash_var_expand alloc slash_execute execute (some argi) argv env =
    if length argv == argi + 2
    then (let expansion = expand_vars alloc env (argument (length argv - 1) argv) in
        if execute
        then (expansion >>= λ text. some (slash_execute text env))
        else some (record {
          status = success;
          printed = (shown expansion ++ codes "\n") ∷ [];
          state = env;
        }))
    else some (refuse (codes "Must give an INPUT parameter\n" ∷ []) env)
