-- ===== src/Locks/Tests.antt =====
-- lock.c on small inputs.
use csh.Prelude.{◌≡◌, refl, some, none, List, [], ◌∷◌, true, false}
use csh.Prelude.Int.{pos, negsuc}
use csh.Locks.{Timespec, Locks, free, deadline}
use csh.Locks.Binary.{Call, take, give}

abbrev now : Timespec
now = record { tv_sec = 100; tv_nsec = 900000000 }

later : deadline (pos 2500) now ≡ record { tv_sec = 103; tv_nsec = 400000000 }
unfolding deadline
later = refl

abbrev calls : List Call
calls =
    take (negsuc 0) none (λ t. free)
    ∷ give
    ∷ give
    ∷ take (pos 10) (some now) (λ t. free)
    ∷ give
    ∷ []

abbrev table : Locks
table = record { lock_taken = true ∷ false ∷ false ∷ []; locks = 0 ∷ 0 ∷ 0 ∷ [] }
