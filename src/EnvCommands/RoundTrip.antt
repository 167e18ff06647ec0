-- ===== src/EnvCommands/RoundTrip.antt =====
-- slash_env_var_cmds.c: a variable that is set by a command and read by a command.
use csh.Prelude.{
  All, ◌≡◌, refl, ◌∙◌, ap, Bytes, codes, some, none, List, [], ◌∷◌, ◌++◌, bytes_eq_refl,
  bytes_eq_iff, arith, bytes_eq, if◌then◌else◌,
}
use csh.Slash.{success, Ran}
use csh.Environment.{Env, EnvEntry, getvar, putvar, foreach_var, clearenv}
use csh.Environment.Laws.{getvar-putvar, getvar-cons, AreDistinct}
use csh.EnvCommands.{
  slash_var_set, slash_var_get, slash_var_show, slash_var_clear, print_vars, value_line,
}

-- the command succeeds, prints these lines and leaves the variables as they are
abbrev pub prints : List Bytes → Env → Ran Env
prints lines env = record { status = success; printed = lines; state = env }

-- After `var set name value`, `var get` prints that value for the name, for any other name what it
-- printed before, and changes no variable.
pub slash_var_get-slash_var_set :
    (env : Env) (set get name value asked : Bytes)
    → let env' = (slash_var_set (some 0) (set ∷ name ∷ value ∷ []) env).state in
      slash_var_get (some 0) (get ∷ asked ∷ []) env'
      ≡ prints (value_line (if bytes_eq asked name then some value else getvar env asked)) env'
unfolding slash_var_set slash_var_get
slash_var_get-slash_var_set env set get name value asked =
    ap (λ v. prints (value_line v) (putvar name value env)) (getvar-putvar env name value asked)

-- the lines of `var show`
abbrev pub lines_of : Env → List Bytes
lines_of [] = []
lines_of (cur ∷ rest) = (cur.name ++ (codes "=" ++ (cur.value ++ codes "\n"))) ∷ lines_of rest

Holds : Env → Env → Type 0
Holds env = All (λ cur. getvar env cur.name ≡ some cur.value)

Holds-cons :
    (cur : EnvEntry) (rest xs : Env)
    → getvar rest cur.name ≡ none
    → Holds rest xs
    → Holds (cur ∷ rest) xs
unfolding Holds
Holds-cons cur rest [] h v = tt
Holds-cons cur rest (x ∷ xs) h v = (
  ground (arith, getvar-cons cur rest x.name, bytes_eq_iff x.name cur.name, v.0),
  Holds-cons cur rest xs h v.1,
)

AreDistinct-Holds : (env : Env) → AreDistinct env → Holds env env
unfolding Holds
AreDistinct-Holds [] d = tt
AreDistinct-Holds (cur ∷ rest) d = (
  getvar-cons cur rest cur.name ∙ rw (bytes_eq_refl cur.name) refl,
  Holds-cons cur rest rest d.0 (AreDistinct-Holds rest d.1),
)

print_vars-Holds : (env xs : Env) → Holds env xs → print_vars env (foreach_var xs) ≡ lines_of xs
unfolding Holds print_vars foreach_var
print_vars-Holds env [] h = refl
print_vars-Holds env (x ∷ xs) h = rw (h.0, print_vars-Holds env xs h.1) refl

cleared :
    (xs : Env)
    → prints (print_vars (clearenv xs) (foreach_var (clearenv xs))) (clearenv xs) ≡ prints [] []
unfolding clearenv print_vars foreach_var
cleared [] = refl
cleared (x ∷ xs) = cleared xs

-- With distinct names, `var show` prints one line with each name and its own value, newest first, and
-- changes no variable; after `var clear` it prints nothing.
pub slash_var_show-lines_of :
    (env : Env) (show clear : Bytes)
    → AreDistinct env
    → (slash_var_show (some 0) (show ∷ []) env ≡ prints (lines_of env) env)
      × (slash_var_show (some 0) (show ∷ []) (slash_var_clear (some 0) (clear ∷ []) env).state
          ≡ prints [] [])
unfolding slash_var_show slash_var_clear
slash_var_show-lines_of env show clear d = (
  ap (λ lines. prints lines env) (print_vars-Holds env env (AreDistinct-Holds env d)),
  cleared env,
)
