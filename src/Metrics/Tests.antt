-- ===== src/Metrics/Tests.antt =====
-- victoria_metrics.c on small inputs.
use csh.Prelude.{◌<◌, ◌≡◌, refl, codes, List, [], ◌∷◌, ◌++◌, true, false, arith, length}
use csh.Metrics.{Push, buffer_size, vm_add, vm_push}
use csh.Metrics.Delivery.{Round, add, push, run_rounds, stream, taken_all, run_rounds-stream}

abbrev empty : Push
empty = record { buffer = []; posted = [] }

abbrev rounds : List Round
rounds =
    add (codes "a 1\n") ∷ push false ∷ add (codes "b 2\n") ∷ push true ∷ add (codes "c 3\n") ∷ []

run_rounds-stream_example :
    (stream (run_rounds rounds empty) ≡ stream empty ++ taken_all rounds empty)
    × (length (run_rounds rounds empty).buffer < buffer_size)
run_rounds-stream_example = run_rounds-stream rounds empty (omega arith)

posted : (run_rounds rounds empty).posted ≡ codes "a 1\nb 2\n" ∷ []
unfolding vm_add vm_push
posted = refl
