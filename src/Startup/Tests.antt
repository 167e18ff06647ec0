-- ===== src/Startup/Tests.antt =====
-- main.c on small inputs, and its theorems at inputs that meet their hypotheses.
use csh.Prelude.{
  ◌<◌, ◌≡◌, ◌≢◌, ◌⊎◌, refl, Bytes, codes, Option, none, some, [], ◌∷◌, ◌++◌, false, if◌then◌else◌,
  ltb, length, All, arith,
}
use csh.Environment.{Env, getvar, putvar}
use csh.RunEnvironment.{path_of}
use csh.Slash.{success}
use csh.Libc.{format_d}
use csh.Startup.Prompt.{append_number}
use csh.Startup.Prompt.Label.{at_node, labelled, append_number_lem}
use csh.Startup.Main.{System, batch, i, main, build_command, init_file, init_dir, set_init_vars}
use csh.Startup.Main.Batch.{with_blanks, build_command-joined}
use csh.Startup.Main.Variables.{set_init_vars-getvar}

abbrev name : Bytes
name = codes "satellite-with-16"

append_number_lem_example :
    (append_number 20 5421 name ≡ labelled 20 name (at_node 5421))
    × (length (append_number 20 5421 name) < 20)
append_number_lem_example = append_number_lem 20 5421 name (omega arith) (omega arith) (omega arith)

-- With three characters left of twenty, the second digit of the number is lost.
digit_lost : append_number 20 12 name ≡ codes "satellite-with-16@1"
unfolding append_number format_d
digit_lost = refl

build_command-joined_example : build_command (codes "node" ∷ codes "12" ∷ []) ≡ (
    if ltb (length (codes "node" ++ with_blanks (codes "12" ∷ []))) 512
    then some (codes "node" ++ with_blanks (codes "12" ∷ []))
    else none)
build_command-joined_example = build_command-joined (codes "node") (codes "12" ∷ [])

abbrev to_path : Bytes → Option Bytes
to_path p = some (codes "/home/csh/init.csh")

to_path_absolute :
    (p : Bytes) → to_path (codes "init.csh") ≡ some p → (rest : Bytes) × (p ≡ b'/' ∷ rest)
to_path_absolute p e = (codes "home/csh/init.csh", cc)

set_init_vars-getvar_example :
    (env' : Env) × (set_init_vars to_path (codes "init.csh") [] ≡ some env')
    × (getvar env' init_file ≡ some (path_of (to_path (codes "init.csh"))))
    × ((dir : Bytes) × (getvar env' init_dir ≡ some dir)
        × ((to_path (codes "init.csh") ≡ none) × (dir ≡ [])
            ⊎ (name : Bytes) × (path_of (to_path (codes "init.csh")) ≡ dir ++ b'/' ∷ name)
              × All (λ c. c ≢ b'/') name))
    × ((k : Bytes) → k ≢ init_file → k ≢ init_dir → getvar env' k ≡ getvar [] k)
set_init_vars-getvar_example = set_init_vars-getvar to_path (codes "init.csh") [] to_path_absolute

abbrev system : System
system = record {
  home = none;
  exists = λ p. false;
  realpath = λ p. none;
  slash_run = λ p env. (success, env);
}

-- With an empty name for the init file, no script is run.
batch_run :
    main system (i [] ∷ []) (codes "ping" ∷ codes "5" ∷ []) []
    ≡ batch (codes "ping 5") (putvar init_dir [] (putvar init_file [] []))
unfolding main build_command
batch_run = refl
