-- ===== src/Walkdir/Ends.antt =====
-- walkdir.c: which files the walk calls, and what it leaves in the buffer.
use csh.Prelude.{ℕ, Bytes, Option, List, [], Bool, false, ◌&&◌, not, if◌then◌else◌}
use csh.Walkdir.{Entries, extend, is_hidden, Walked, callback, walkdir}
use csh.Walkdir.Restored.{entry_path, files_below}

module _ (path_size : ℕ) (dir_cb : Bytes → Bytes → Bool) where
  -- a directory that is walked if it is not hidden and the callback says so
  entered : ℕ → Bytes → Bytes → Option ℕ → Entries → Walked
  entered depth path name signal children =
      if not (is_hidden name) && dir_cb (extend path_size path name) name
      then walkdir path_size dir_cb depth (extend path_size path name) signal children
      else callback false (extend path_size path name) signal

  found_in : ℕ → Bytes → Bytes → Entries → List Bytes
  found_in depth path name children =
      if is_hidden name
      then []
      else if dir_cb (entry_path path_size path name) name
      then files_below path_size dir_cb depth (entry_path path_size path name) children
      else []
