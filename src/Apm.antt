-- ===== src/Apm.antt =====
-- src/slash_apm.c: finding the add-on modules (APM), loading them, and the list of those loaded.
-- `dlopen`, `dlsym` and the walk over a directory are parameters.
pub mod Queue
pub mod Search
mod Tests
use csh.Prelude.{
  ℕ, zero, suc, ◌-◌, ◌+◌, Bytes, codes, bytes_eq, Option, none, some, List, [], ◌∷◌, ◌++◌, Bool,
  true, false, ◌&&◌, ◌||◌, not, if◌then◌else◌, ltb, leb, ◌==◌, length, take, drop,
}
use csh.Slash.{Status, success, eusage}

abbrev pub walkdir_max_path_size : ℕ
walkdir_max_path_size = 256

abbrev pub walkdir_max_entries : ℕ
walkdir_max_entries = 32

-- `apm_entry_t`, without the handle and the addresses
pub record ApmEntry : Type 0 where
  pub path : Bytes
  pub file : Bytes
  pub apm_init_version : ℕ

-- `strcmp(a, b) > 0`
unfoldable pub bytes_gt : Bytes → Bytes → Bool
bytes_gt [] b = false
bytes_gt (x ∷ a) [] = true
bytes_gt (x ∷ a) (y ∷ b) = let later = bytes_gt a b in if x == y then later else ltb y x

unfoldable pub apm_queue_add : ApmEntry → List ApmEntry → List ApmEntry
unfolding bytes_gt
apm_queue_add e [] = e ∷ []
apm_queue_add e (next ∷ rest) =
    let later = apm_queue_add e rest in
    if bytes_gt e.file next.file then next ∷ later else e ∷ next ∷ rest

-- `strrchr(path, '/')`, one further
unfoldable pub after_slash : Bytes → Option Bytes
after_slash [] = none
after_slash (c ∷ cs) = elim (after_slash cs) [
  | some name ↦ some name
  | none ↦ if c == b'/' then some cs else none
]

-- the name behind the last '/', or the whole path without one
unfoldable pub file_name : Bytes → Bytes
unfolding after_slash
file_name path = elim (after_slash path) [ some name ↦ name | none ↦ path ]

-- what `dlopen` and `dlsym` give: the symbol `apm_init_version`, and the result of `libmain`, 1 without
pub record Library : Type 0 where
  pub apm_init_version : Option ℕ
  pub libmain : ℕ

-- what loading comes to: an entry, an error, or a read at a null pointer
pub data Loaded : Type 0 where
  entry : ApmEntry → Library → Loaded
  failed : Loaded
  null_read : Loaded

unfoldable pub load_apm : (Bytes → Option Library) → Bytes → Loaded
unfolding file_name
load_apm dlopen path = elim (dlopen path) [
  | none ↦ failed
  | some handle ↦ elim handle.apm_init_version [
    | none ↦ null_read
    | some version ↦
        let kept = take (walkdir_max_path_size - 1) path in
        entry (record { path = kept; file = file_name kept; apm_init_version = version }) handle
  ]
]

-- a program goes on, or ends by `exit(1)`
pub data Initialized : Type 0 where
  returned : Bool → Initialized
  exits : Initialized

-- from the call of `libmain` on
abbrev pub run_libmain : Library → Initialized
run_libmain handle = if handle.libmain == 0 then returned true else exits

-- `returned true` is the result 0, `returned false` the result -1. The first argument is
-- `APM_INIT_VERSION` of the shell.
unfoldable pub initialize_apm : ℕ → Library → Initialized
initialize_apm apm_init_version handle = elim handle.apm_init_version [
  | none ↦ returned false
  | some version ↦
      if apm_init_version == version
      then run_libmain handle
      else if apm_init_version == 9 && version == 8
      then run_libmain handle
      else returned false
]

-- `strstr(text, word) != NULL`
abbrev pub starts : Bytes → Bytes → Bool
starts [] text = true
starts (c ∷ word) [] = false
starts (c ∷ word) (d ∷ text) = c == d && starts word text

unfoldable pub strstr : Bytes → Bytes → Bool
strstr [] word = starts word []
strstr (c ∷ text) word = starts word (c ∷ text) || strstr text word

-- the files that a list of entries, or of paths, names
unfoldable pub is_loaded : Bytes → List ApmEntry → Bool
is_loaded name [] = false
is_loaded name (e ∷ rest) = bytes_eq e.file name || is_loaded name rest

unfoldable pub is_found : Bytes → List Bytes → Bool
unfolding file_name
is_found name [] = false
is_found name (path ∷ rest) = bytes_eq (file_name path) name || is_found name rest

abbrev pub has_search_str : Option Bytes → Bytes → Bool
has_search_str none name = true
has_search_str (some search_str) name = strstr name search_str

-- `search->libs`, its first `lib_count` paths, after the callback for a file
unfoldable pub file_callback :
    Option Bytes → List ApmEntry → Bytes → Bytes → List Bytes → List Bytes
unfolding strstr is_loaded is_found
file_callback search_str apm_queue path_and_file last_entry libs =
    if leb walkdir_max_entries (length libs)
    then libs
    else if not (has_search_str search_str last_entry)
    then libs
    else if not (strstr last_entry (codes "libcsh_"))
    then libs
    else if not (strstr last_entry (codes ".so"))
    then libs
    else if is_loaded last_entry apm_queue
    then libs
    else if is_found last_entry libs
    then libs
    else libs ++ take (walkdir_max_path_size - 1) path_and_file ∷ []

-- The directories that `build_apm_list` walks. `wpath` is the string in its array, and `segment` what
-- was read of `path` since the last ';'. A `strncpy` of a part before a ';' writes no NUL.
unfoldable pub search_paths : Bytes → Bytes → Bytes → List Bytes
search_paths wpath [] [] = []
search_paths wpath (c ∷ segment) [] = (c ∷ segment) ∷ []
search_paths wpath segment (c ∷ path) =
    let here = segment ++ drop (length segment) wpath in
    let next = search_paths here [] path in
    let longer = search_paths wpath (segment ++ c ∷ []) path in
    if c == b';' then here ∷ next else longer

-- the files that a walk finds, each handed to the callback
unfoldable pub find_files :
    Option Bytes → List ApmEntry → List (Bytes × Bytes) → List Bytes → List Bytes
unfolding file_callback
find_files search_str apm_queue [] libs = libs
find_files search_str apm_queue ((path, name) ∷ files) libs =
    find_files search_str apm_queue files (file_callback search_str apm_queue path name libs)

unfoldable pub walk_all :
    (Bytes → List (Bytes × Bytes))
    → Option Bytes
    → List ApmEntry
    → List Bytes
    → List Bytes
    → List Bytes
unfolding find_files
walk_all walkdir search_str apm_queue [] libs = libs
walk_all walkdir search_str apm_queue (wpath ∷ paths) libs =
    walk_all walkdir search_str apm_queue paths
      (find_files search_str apm_queue (walkdir wpath) libs)

unfoldable pub build_apm_list :
    (Bytes → List (Bytes × Bytes)) → Option Bytes → List ApmEntry → Bytes → List Bytes
unfolding walk_all search_paths
build_apm_list walkdir search_str apm_queue path =
    walk_all walkdir search_str apm_queue (search_paths [] [] path) []

-- How `apm_load_search` ends, with the list of loaded modules.
pub data LoadEnd : Type 0 where
  done : Status → List ApmEntry → LoadEnd
  exited : LoadEnd
  crashed : LoadEnd

-- an entry that was loaded, from the result of `initialize_apm`, and the rest of the loop
unfoldable pub add_initialized :
    Initialized → ApmEntry → List ApmEntry → (List ApmEntry → LoadEnd) → LoadEnd
unfolding apm_queue_add
add_initialized exits e apm_queue rest = exited
add_initialized (returned false) e apm_queue rest = rest apm_queue
add_initialized (returned true) e apm_queue rest = rest (apm_queue_add e apm_queue)

-- one round of the loop, from the result of `load_apm`
unfoldable pub add_loaded : ℕ → Loaded → List ApmEntry → (List ApmEntry → LoadEnd) → LoadEnd
unfolding add_initialized initialize_apm
add_loaded apm_init_version failed apm_queue rest = done eusage apm_queue
add_loaded apm_init_version null_read apm_queue rest = crashed
add_loaded apm_init_version (entry e handle) apm_queue rest =
    add_initialized (initialize_apm apm_init_version handle) e apm_queue rest

-- the loop of `apm_load_search` over the libraries found
unfoldable pub load_found : ℕ → (Bytes → Option Library) → List Bytes → List ApmEntry → LoadEnd
unfolding load_apm add_loaded
load_found apm_init_version dlopen [] apm_queue = done success apm_queue
load_found apm_init_version dlopen (lib ∷ libs) apm_queue =
    add_loaded apm_init_version (load_apm dlopen lib) apm_queue
      (λ q. load_found apm_init_version dlopen libs q)
