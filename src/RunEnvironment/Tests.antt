-- ===== src/RunEnvironment/Tests.antt =====
-- slash_run_environment.c on a small input, and its theorem there.
use csh.Prelude.{Bytes, bytes_eq, codes, Option, none, some, [], ◌∷◌, ◌≡◌, refl, true, false}
use csh.Environment.{Env, putvar, get_env_entry, set_value}
use csh.RunEnvironment.{RunContext, env_file, env_file_dir, on_run_pre_hook}
use csh.RunEnvironment.Restore.{Restores, on_run_hooks-Restores}

abbrev to_home : Bytes → Option Bytes
to_home name = some (b'/' ∷ b'h' ∷ b'/' ∷ name)

abbrev nested : Env
nested = record { name = env_file; value = codes "/a/b.csh" } ∷ []

on_run_hooks-Restores_example :
    (started : Env × Option RunContext) × (on_run_pre_hook true to_home (codes "x.csh") nested
      ≡ some started)
    × Restores nested started
on_run_hooks-Restores_example =
    on_run_hooks-Restores to_home (codes "x.csh") nested (λ name path e. (b'h' ∷ b'/' ∷ name, cc))

dir_runs :
    on_run_pre_hook false to_home (codes "x") []
    ≡ some (
      record { name = env_file_dir; value = codes "/h" }
          ∷ record { name = env_file; value = codes "/h/x" }
          ∷ [],
      none,
    )
unfolding on_run_pre_hook putvar get_env_entry bytes_eq set_value
dir_runs = refl
