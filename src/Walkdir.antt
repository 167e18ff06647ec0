-- ===== src/Walkdir.antt =====
-- src/walkdir.c: the walk over a directory, which extends one path in a buffer and cuts it back. The directory is
-- the tree of its entries, in the order of `readdir`; one that does not open has no entries. The callback of a
-- file is called with the paths of the result, in their order.
pub mod Restored
pub mod Ends
mod Tests
use csh.Prelude.{
  ℕ, zero, suc, ◌-◌, Bytes, Option, none, some, List, [], ◌∷◌, ◌++◌, Bool, true, false, ◌&&◌, not,
  if◌then◌else◌, ◌==◌, length, take,
}
use csh.ParamSlash.Offsets.{last_is}

-- What follows in a directory: nothing, a file, a directory with its own entries, or an entry of another kind.
pub data Entries : Type 0 where
  done : Entries
  file : Bytes → Entries → Entries
  directory : Bytes → Entries → Entries → Entries
  special : Bytes → Entries → Entries

-- What `opendir` finds at the outermost path.
pub data Opened : Type 0 where
  not_directory : Opened
  fails : Opened
  opened : Entries → Opened

abbrev pub is_hidden : Bytes → Bool
is_hidden [] = false
is_hidden (c ∷ name) = c == b'.'

-- `strncat(path, text, path_size - strlen(path))`
abbrev pub strncat : ℕ → Bytes → Bytes → Bytes
strncat path_size path text = path ++ take (path_size - length path) text

-- The path of an entry. A path that is empty is read in front of its first byte, and no caller gives one.
unfoldable pub extend : ℕ → Bytes → Bytes → Bytes
extend path_size path name =
    strncat path_size (if last_is b'/' path then path else strncat path_size path (b'/' ∷ [])) name

-- `*signal == SIGINT`, from the number of tests of it that are made before it comes; none if it never comes
abbrev pub is_stopped : Option ℕ → Bool
is_stopped none = false
is_stopped (some zero) = true
is_stopped (some (suc n)) = false

abbrev pub tested : Option ℕ → Option ℕ
tested none = none
tested (some zero) = some zero
tested (some (suc n)) = some n

-- the paths of the files, the path that is left in the buffer, and the tests before the signal
abbrev pub Walked : Type 0
Walked = List Bytes × Bytes × Option ℕ

abbrev pub callback : Bool → Bytes → Option ℕ → Walked
callback called path signal = (if called then path ∷ [] else [], path, signal)

-- An entry and those that follow it, from `if(signal && *signal == SIGINT)` on.
abbrev pub followed : Walked → Walked → Walked
followed (found, path, signal) (more, path', signal') =
    if is_stopped signal then (found, path, signal) else (found ++ more, path', signal')

module _ (path_size : ℕ) (dir_cb : Bytes → Bytes → Bool) where
  -- Behind an entry, `take (length path)` is `path[path_len] = 0`.
  unfoldable pub walkdir : ℕ → Bytes → Option ℕ → Entries → Walked
  unfolding extend
  walkdir depth path signal done = ([], path, signal)
  walkdir depth path signal (file name rest) =
      let here = callback (not (is_hidden name)) (extend path_size path name) signal in
      followed here (walkdir depth (take (length path) here.1) (tested here.2) rest)
  walkdir depth path signal (special name rest) =
      let here = callback false (extend path_size path name) signal in
      followed here (walkdir depth (take (length path) here.1) (tested here.2) rest)
  walkdir zero path signal (directory name children rest) =
      let here = callback false (extend path_size path name) signal in
      followed here (walkdir zero (take (length path) here.1) (tested here.2) rest)
  walkdir (suc depth) path signal (directory name children rest) =
      let inside = walkdir depth (extend path_size path name) signal children in
      let here =
        if not (is_hidden name) && dir_cb (extend path_size path name) name
        then inside
        else callback false (extend path_size path name) signal in
      followed here (walkdir (suc depth) (take (length path) here.1) (tested here.2) rest)

  -- the call, with what `opendir` finds
  unfoldable pub walkdir_open : ℕ → Bytes → Option ℕ → Opened → Walked
  unfolding walkdir
  walkdir_open depth path signal not_directory = callback true path signal
  walkdir_open depth path signal fails = ([], path, signal)
  walkdir_open depth path signal (opened entries) = walkdir depth path signal entries
