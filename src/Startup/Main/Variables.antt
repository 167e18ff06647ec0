-- ===== src/Startup/Main/Variables.antt =====
-- main.c: the variables that the init script finds.
use csh.Prelude.{
  ℕ, ◌≡◌, ◌≢◌, refl, ap, ◌∙◌, ◌⊎◌, inl, inr, Bytes, bytes_eq, bytes_eq_iff, Option, none, some, [],
  ◌∷◌, ◌++◌, false, if◌then◌else◌, ◌==◌, Bool-cases, Option-cases, All, arith,
}
use csh.Environment.{Env, getvar, putvar}
use csh.Environment.Laws.{getvar-putvar}
use csh.RunEnvironment.{before_last_slash, file_dir, path_of}
use csh.Startup.Main.{init_file, init_dir, init_vars, set_init_vars}

none-no_slash : (path : Bytes) → before_last_slash path ≡ none → All (λ c. c ≢ b'/') path
unfolding before_last_slash
none-no_slash [] h = tt
none-no_slash (c ∷ path) h = elim (Option-cases (before_last_slash path)) [
  | inl e ↦ elim (Bool-cases (c == b'/')) [
    | inl slash ↦ absurd (cc (rw (e, slash) at h))
    | inr other ↦ (ground arith, none-no_slash path e)
  ]
  | inr (d, e) ↦ absurd (cc (rw e at h))
]

later_slash :
    (c : ℕ) (path d : Bytes)
    → before_last_slash path ≡ some d
    → before_last_slash (c ∷ path) ≡ some (c ∷ d)
unfolding before_last_slash
later_slash c path d e = rw (e, before_last_slash) refl

first_slash :
    (c : ℕ) (path : Bytes)
    → before_last_slash path ≡ none
    → before_last_slash (c ∷ path) ≡ (if c == b'/' then some [] else none)
unfolding before_last_slash
first_slash c path e = rw (e, before_last_slash) refl

-- A path is a directory, a slash, and a name without one.
before_last_slash-splits :
    (path dir : Bytes)
    → before_last_slash path ≡ some dir
    → (name : Bytes) × (path ≡ dir ++ b'/' ∷ name) × All (λ c. c ≢ b'/') name
before_last_slash-splits [] dir h = unfold before_last_slash in absurd (cc h)
before_last_slash-splits (c ∷ path) dir h = elim (Option-cases (before_last_slash path)) [
  | inl e ↦ elim (Bool-cases (c == b'/')) [
    | inl slash ↦
        let is : dir ≡ [] = cc (first_slash c path e, h, slash) in
        let c_is : c ≡ b'/' = ground arith in
        (path, rw is (ap (λ (k : ℕ). k ∷ path) c_is), none-no_slash path e)
    | inr other ↦ absurd (cc (first_slash c path e, h, other))
  ]
  | inr (d, e) ↦
      let is : dir ≡ c ∷ d = cc (later_slash c path d e, h) in
      let (name, split, plain) = before_last_slash-splits path d e in
      (name, rw is (ap (λ (p : Bytes). c ∷ p) split), plain)
]

absolute-some : (path : Bytes) → (dir : Bytes) × (before_last_slash (b'/' ∷ path) ≡ some dir)
unfolding before_last_slash
absolute-some path = elim (Option-cases (before_last_slash path)) [
  | inl e ↦ ([], rw (e, before_last_slash) refl)
  | inr (dir, e) ↦ (b'/' ∷ dir, rw (e, before_last_slash) refl)
]

module _ (dir path : Bytes) (env : Env) where
  abbrev vars : Env
  vars = putvar init_dir dir (putvar init_file path env)

  vars-file : getvar vars init_file ≡ some path
  unfolding bytes_eq
  vars-file =
      getvar-putvar (putvar init_file path env) init_dir dir init_file
      ∙ getvar-putvar env init_file path init_file

  vars-dir : getvar vars init_dir ≡ some dir
  unfolding bytes_eq
  vars-dir = getvar-putvar (putvar init_file path env) init_dir dir init_dir

  vars-other : (k : Bytes) → k ≢ init_file → k ≢ init_dir → getvar vars k ≡ getvar env k
  vars-other k f d =
      let not_dir : bytes_eq k init_dir ≡ false = ground (arith, bytes_eq_iff k init_dir) in
      let not_file : bytes_eq k init_file ≡ false = ground (arith, bytes_eq_iff k init_file) in
      getvar-putvar (putvar init_file path env) init_dir dir k
      ∙ rw not_dir (getvar-putvar env init_file path k ∙ rw not_file refl)

init_vars-vars :
    (env : Env) (dir p : Bytes) → file_dir p ≡ some dir → init_vars p env ≡ some (vars dir p env)
unfolding init_vars
init_vars-vars env dir p found = rw (found, init_vars) refl

set_init_vars-vars :
    (realpath : Bytes → Option Bytes) (buildpath : Bytes) (env : Env) (dir p : Bytes)
    → path_of (realpath buildpath) ≡ p
    → file_dir p ≡ some dir
    → set_init_vars realpath buildpath env ≡ some (vars dir p env)
set_init_vars-vars realpath buildpath env dir p is found =
    ap (λ (q : Bytes). init_vars q env) is ∙ init_vars-vars env dir p found

-- With the absolute path of the init script from `realpath`, the script finds the path in INIT_FILE and its
-- directory in INIT_DIR: the path is that directory, a slash, and a name without one. If there is no such
-- path both are empty. All other variables are as they were.
pub set_init_vars-getvar :
    (realpath : Bytes → Option Bytes) (buildpath : Bytes) (env : Env)
    → ((p : Bytes) → realpath buildpath ≡ some p → (rest : Bytes) × (p ≡ b'/' ∷ rest))
    → (env' : Env) × (set_init_vars realpath buildpath env ≡ some env')
      × (getvar env' init_file ≡ some (path_of (realpath buildpath)))
      × ((dir : Bytes) × (getvar env' init_dir ≡ some dir)
          × ((realpath buildpath ≡ none) × (dir ≡ [])
              ⊎ (name : Bytes) × (path_of (realpath buildpath) ≡ dir ++ b'/' ∷ name)
                × All (λ c. c ≢ b'/') name))
      × ((k : Bytes) → k ≢ init_file → k ≢ init_dir → getvar env' k ≡ getvar env k)
set_init_vars-getvar realpath buildpath env absolute = elim (Option-cases (realpath buildpath)) [
  | inl e ↦ (
    vars [] [] env,
    set_init_vars-vars realpath buildpath env [] [] (rw e refl) (unfold file_dir in refl),
    vars-file [] [] env ∙ rw e refl,
    ([], vars-dir [] [] env, inl (e, refl)),
    vars-other [] [] env,
  )
  | inr (p, e) ↦
      let (rest, p_is) = absolute p e in
      let (dir, found) = absolute-some rest in
      let (name, split, plain) = before_last_slash-splits (b'/' ∷ rest) dir found in
      (
        vars dir p env,
        set_init_vars-vars realpath buildpath env dir p (rw e refl)
            (unfold file_dir in ap file_dir p_is ∙ found),
        vars-file dir p env ∙ rw e refl,
        (dir, vars-dir dir p env, inr (name, rw e (p_is ∙ split), plain)),
        vars-other dir p env,
      )
]
