-- ===== src/Startup/Main.antt =====
-- main.c: from the arguments to the first command. The option parser gives a list of what it finds; `slash_run` runs
-- a script, and changes the variables; `access` and `realpath` ask the file system.
pub mod Variables
pub mod Batch
use csh.Prelude.{
  ℕ, ◌+◌, Bytes, codes, Option, none, some, List, [], ◌∷◌, ◌++◌, Bool, true, false, ◌&&◌, ◌||◌,
  if◌then◌else◌, ◌==◌, leb, ltb, length, take,
}
use csh.Environment.{Env, putvar}
use csh.RunEnvironment.{file_dir, path_of}
use csh.Slash.{Status, success, exit}

-- LINE_SIZE
abbrev pub line_size : ℕ
line_size = 512

-- What `getopt` returns; `missing` is ':' with `optopt`.
pub data Opt : Type 0 where
  h : Opt
  i : Bytes → Opt
  missing : ℕ → Opt
  unknown : Opt

-- `dirname` and `initfile`
pub record Init : Type 0 where
  pub dirname : Option Bytes
  pub initfile : Bytes

pub data Parsed : Type 0 where
  exits : Bool → Parsed
  runs : Init → Parsed

-- the loop over the options
unfoldable pub parse_options : List Opt → Init → Parsed
parse_options [] s = runs s
parse_options (h ∷ opts) s = exits true
parse_options (i file ∷ opts) s = parse_options opts (record { dirname = some []; initfile = file })
parse_options (missing c ∷ opts) s =
    let rest = parse_options opts (record { dirname = some []; initfile = [] }) in
    if c == b'i' then rest else exits false
parse_options (unknown ∷ opts) s = exits false

-- a directory and a file, or the file alone, in 100 bytes
unfoldable pub path_in : Option Bytes → Bytes → Bytes
path_in none file = take 99 file
path_in (some []) file = take 99 file
path_in (some (c ∷ dir)) file = take 99 ((c ∷ dir) ++ b'/' ∷ file)

abbrev pub init_file : Bytes
init_file = codes "INIT_FILE"

abbrev pub init_dir : Bytes
init_dir = codes "INIT_DIR"

-- The variables for the init script, from its real path; none for a path without a '/'.
unfoldable pub init_vars : Bytes → Env → Option Env
init_vars pathbuf env = elim (file_dir pathbuf) [
  | none ↦ none
  | some dir ↦ some (putvar init_dir dir (putvar init_file pathbuf env))
]

abbrev pub set_init_vars : (Bytes → Option Bytes) → Bytes → Env → Option Env
set_init_vars realpath buildpath env = init_vars (path_of (realpath buildpath)) env

-- What the file system and `slash_run` answer.
pub record System : Type 0 where
  pub home : Option Bytes
  pub exists : Bytes → Bool
  pub realpath : Bytes → Option Bytes
  pub slash_run : Bytes → Env → Status × Env

-- the init script, if there is one, from its path on; `dirname` is not null
unfoldable pub run_init : System → Bytes → Bytes → Bytes → Env → Status × Env
run_init system dirname initfile buildpath env =
    if (length dirname == 0 && ltb 0 (length initfile)) || system.exists buildpath
    then system.slash_run buildpath env
    else (success, env)

-- The arguments behind the first, each behind a blank; none for a write beyond `ex`. The bound given to
-- `strncat` is the size of `ex` each time.
unfoldable pub add_args : List Bytes → Bytes → Option Bytes
add_args [] ex = some ex
add_args (arg ∷ args) ex =
    let ex' = ex ++ 32 ∷ take line_size arg in
    let rest = add_args args ex' in if leb line_size (length ex') then none else rest

-- the command of the arguments that are left
unfoldable pub build_command : List Bytes → Option Bytes
unfolding add_args
build_command [] = some []
build_command (arg ∷ args) =
    let ex = take line_size arg in if leb line_size (length ex) then none else add_args args ex

-- How the start ends: with an exit of the program, a fault, a command to run, or the loop.
pub data Started : Type 0 where
  exited : Bool → Started
  fault : Started
  batch : Bytes → Env → Started
  interactive : Env → Started
  ended : Env → Started

-- from the variables on
unfoldable pub start_init : System → Init → List Bytes → Env → Started
unfolding path_in init_vars file_dir run_init build_command
start_init system init args env =
    let buildpath = path_in init.dirname init.initfile in
    elim (set_init_vars system.realpath buildpath env) [
      | none ↦ fault
      | some env' ↦ elim init.dirname [
        | none ↦ fault
        | some dirname ↦
            let (ret, env'') = run_init system dirname init.initfile buildpath env' in
            elim ret [
              | exit ↦ ended env''
              | _ ↦ elim args [
                | [] ↦ interactive env''
                | arg ∷ more ↦ elim (build_command (arg ∷ more)) [
                  | none ↦ fault
                  | some ex ↦ batch ex env''
                ]
              ]
            ]
      ]
    ]

-- `main`, with the options and the arguments behind them
unfoldable pub main : System → List Opt → List Bytes → Env → Started
unfolding parse_options start_init path_in
main system opts args env =
    let hosts = path_in system.home (codes "csh_hosts") in
    elim (parse_options opts (record { dirname = system.home; initfile = codes "init.csh" })) [
      | exits well ↦ exited well
      | runs init ↦
          start_init system init args
            (if system.exists hosts then (system.slash_run hosts env).1 else env)
    ]
