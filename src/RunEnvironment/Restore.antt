-- ===== src/RunEnvironment/Restore.antt =====
-- slash_run_environment.c: what the hooks restore.
use csh.Prelude.{
  Bytes, bytes_eq, bytes_eq_iff, Option, none, some, [], ◌∷◌, ◌≡◌, true, false, if◌then◌else◌, ◌||◌,
  arith, inl, inr, Option-cases,
}
use csh.Environment.{Env, getvar, putvar}
use csh.Environment.Laws.{AreDistinct, getvar-putvar, putvar-AreDistinct, delvar_lem}
use csh.RunEnvironment.{
  env_file, env_file_dir, RunContext, before_last_slash, file_dir, path_of, on_run_pre_hook,
  restore, on_run_post_hook,
}

getvar-restore :
    (name j : Bytes) (old : Option Bytes) (env : Env)
    → AreDistinct env
    → getvar (restore name old env) j ≡ (if bytes_eq j name then old else getvar env j)
unfolding restore
getvar-restore name j none env d = (delvar_lem env name j d).lookups
getvar-restore name j (some old) env d = getvar-putvar env name old j

restore-AreDistinct :
    (name : Bytes) (old : Option Bytes) (env : Env)
    → AreDistinct env
    → AreDistinct (restore name old env)
unfolding restore
restore-AreDistinct name none env d = (delvar_lem env name name d).distinct
restore-AreDistinct name (some old) env d = putvar-AreDistinct env name old d

-- an absolute path has a `/`
before_last_slash-absolute : (t : Bytes) → (dir : Bytes) × (before_last_slash (b'/' ∷ t) ≡ some dir)
unfolding before_last_slash
before_last_slash-absolute t = elim (Option-cases (before_last_slash t)) [
  | inl missing ↦ ([], rw (missing, before_last_slash))
  | inr (d, e) ↦ (b'/' ∷ d, rw (e, before_last_slash))
]

-- `realpath` is documented to return absolute paths.
abbrev pub IsRealpath : (Bytes → Option Bytes) → Type 0
IsRealpath realpath =
    (filename path : Bytes) → realpath filename ≡ some path → (t : Bytes) × (path ≡ b'/' ∷ t)

file_dir-some :
    (realpath : Bytes → Option Bytes) (filename : Bytes)
    → IsRealpath realpath
    → (dir : Bytes) × (file_dir (path_of (realpath filename)) ≡ some dir)
unfolding file_dir
file_dir-some realpath filename abs = elim (Option-cases (realpath filename)) [
  | inl missing ↦ ([], rw missing)
  | inr (path, e) ↦
      let (t, p) = abs filename path e in
      let (dir, found) = before_last_slash-absolute t in (dir, rw (e, p) found)
]

-- What a `run` command does to a variable `j`: `inner` are the variables as the script has left
-- them.
pub record Restores (outer : Env) (started : Env × Option RunContext) : Type 0 where
  pub sets_file :
      (j : Bytes)
      → (bytes_eq j env_file || bytes_eq j env_file_dir) ≡ false
      → getvar started.0 j ≡ getvar outer j
  pub restores :
      (inner : Env) (j : Bytes)
      → AreDistinct inner
      → getvar (on_run_post_hook started.1 inner) j ≡ (
          if bytes_eq j env_file || bytes_eq j env_file_dir then getvar outer j else getvar inner j)

-- With memory for the context and a `realpath` that returns absolute paths, the hook before a script
-- comes to an end without a fault, and sets no variable but `__FILE__` and `__FILE_DIR__`. Whatever
-- variables the script then leaves, with distinct names, after the second hook these two have the
-- values, or are as undefined, as before the first hook, and all others are as the script left them.
pub on_run_hooks-Restores :
    (realpath : Bytes → Option Bytes) (filename : Bytes) (outer : Env)
    → IsRealpath realpath
    → (started : Env × Option RunContext) × (on_run_pre_hook true realpath filename outer
        ≡ some started)
      × Restores outer started
unfolding on_run_pre_hook on_run_post_hook
on_run_hooks-Restores realpath filename outer abs =
    let (dir, found) = file_dir-some realpath filename abs in
    let path = path_of (realpath filename) in
    let file = getvar outer env_file in
    let old_dir = getvar outer env_file_dir in
    (
      (
        putvar env_file_dir dir (putvar env_file path outer),
        some (record { old_file = file; old_file_dir = old_dir }),
      ),
      rw found,
      record {
        sets_file = λ j other. ground (
          arith,
          getvar-putvar (putvar env_file path outer) env_file_dir dir j,
          getvar-putvar outer env_file path j,
        );
        restores = λ inner j d. ground (
          arith,
          getvar-restore env_file_dir j old_dir (restore env_file file inner)
              (restore-AreDistinct env_file file inner d),
          getvar-restore env_file j file inner d,
          bytes_eq_iff j env_file,
          bytes_eq_iff j env_file_dir,
        );
      },
    )
