-- ===== src/RunEnvironment.antt =====
-- src/slash_run_environment.c: the variables `__FILE__` and `__FILE_DIR__` around a `run` command.
-- `realpath` is a parameter; `calloc` may fail, and `strdup` is taken to succeed.
pub mod Restore
mod Tests
use csh.Prelude.{
  ℕ, Bytes, codes, Option, none, some, [], ◌∷◌, Bool, true, false, if◌then◌else◌, ◌==◌, ◌>>=◌,
}
use csh.Environment.{Env, getvar, putvar, delvar}

abbrev pub env_file : Bytes
env_file = codes "__FILE__"

abbrev pub env_file_dir : Bytes
env_file_dir = codes "__FILE_DIR__"

-- run_context_t; a field that is NULL is `none`
pub record RunContext : Type 0 where
  pub old_file : Option Bytes
  pub old_file_dir : Option Bytes

-- the text before the last `/`, which `strrchr` finds; `none` if there is no `/`
unfoldable pub before_last_slash : Bytes → Option Bytes
before_last_slash [] = none
before_last_slash (c ∷ cs) = elim (before_last_slash cs) [
  | some t ↦ some (c ∷ t)
  | none ↦ if c == b'/' then some [] else none
]

-- What `__FILE_DIR__` is set to. `none` is a write through the null pointer of a `strrchr` that
-- finds nothing.
unfoldable pub file_dir : Bytes → Option Bytes
file_dir [] = some []
file_dir (c ∷ cs) = before_last_slash (c ∷ cs)

abbrev pub path_of : Option Bytes → Bytes
path_of none = []
path_of (some path) = path

-- the variables, and what is stored through `ctx_for_post`
unfoldable pub on_run_pre_hook :
    Bool → (Bytes → Option Bytes) → Bytes → Env → Option (Env × Option RunContext)
unfolding file_dir before_last_slash
on_run_pre_hook calloc realpath filename env =
    let ctx =
      (if calloc
        then some
            (record { old_file = getvar env env_file; old_file_dir = getvar env env_file_dir })
        else none) in
    let pathbuf = path_of (realpath filename) in
    do dir ← file_dir pathbuf; some (putvar env_file_dir dir (putvar env_file pathbuf env), ctx)

-- one of the two variables
unfoldable pub restore : Bytes → Option Bytes → Env → Env
restore name none env = (delvar name env).0
restore name (some old) env = putvar name old env

unfoldable pub on_run_post_hook : Option RunContext → Env → Env
unfolding restore
on_run_post_hook none env = env
on_run_post_hook (some ctx) env =
    restore env_file_dir ctx.old_file_dir (restore env_file ctx.old_file env)
