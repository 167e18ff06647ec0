-- ===== src/Walkdir/Tests.antt =====
-- walkdir.c on a small directory.
use csh.Prelude.{◌≡◌, refl, Bytes, codes, some, [], ◌∷◌, Bool, true}
use csh.Walkdir.{Entries, done, file, directory, extend, walkdir}

abbrev tree : Entries
tree = file (codes "a") (directory (codes "d") (file (codes "b") done) (file (codes "c") done))

abbrev enter : Bytes → Bytes → Bool
enter path name = true

-- The signal comes behind the file in the directory, and its path is left in the buffer.
stopped :
    walkdir 20 enter 10 (codes ".") (some 1) tree
    ≡ (codes "./a" ∷ codes "./d/b" ∷ [], codes "./d/b", some 0)
unfolding walkdir extend
stopped = refl
