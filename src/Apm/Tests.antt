-- ===== src/Apm/Tests.antt =====
-- slash_apm.c on small inputs.
use csh.Prelude.{inl, ◌≡◌, refl, Bytes, bytes_eq, codes, none, some, Option, List, [], ◌∷◌}
use csh.Apm.{ApmEntry, Library, load_found, find_files}
use csh.Apm.Queue.{IsQueue, EndsWith, load_found-IsQueue}

abbrev queue : List ApmEntry
queue =
    record { path = codes "/lib/libcsh_b.so"; file = codes "libcsh_b.so"; apm_init_version = 9 }
    ∷ []

abbrev open_library : Bytes → Option Library
open_library path = some (record { apm_init_version = some 8; libmain = 0 })

queue-IsQueue : IsQueue 9 queue
queue-IsQueue = (tt, (inl refl, tt))

load_found-IsQueue_example :
    EndsWith (IsQueue 9) (load_found 9 open_library (codes "/lib/libcsh_a.so" ∷ []) queue)
load_found-IsQueue_example =
    load_found-IsQueue 9 open_library (codes "/lib/libcsh_a.so" ∷ []) queue queue-IsQueue

abbrev files : List (Bytes × Bytes)
files =
    (codes "/lib/libcsh_a.so", codes "libcsh_a.so")
    ∷ (codes "/lib/libcsh_b.so", codes "libcsh_b.so")
    ∷ (codes "/lib/x.txt", codes "x.txt")
    ∷ []

found : find_files none queue files [] ≡ codes "/lib/libcsh_a.so" ∷ []
unfolding find_files bytes_eq
found = refl
