-- ===== src/Resbuf/Tests.antt =====
-- resbuf_dump.c on a small ring.
use csh.Prelude.{ℕ, ◌≡◌, refl, some, List, [], ◌∷◌, arith}
use csh.Slash.{success}
use csh.Resbuf.{dump_loop, dump_buffer}
use csh.Resbuf.Dump.{dump_loop-ring}

-- input index 5, output index 7
abbrev cells : List ℕ
cells = 5 ∷ 0 ∷ 7 ∷ 0 ∷ 65 ∷ 66 ∷ 67 ∷ 68 ∷ []

dumped : dump_buffer 8 8 cells ≡ some (success, 68 ∷ 65 ∷ [])
unfolding dump_buffer
dumped = refl

dump_loop-ring_example : dump_loop 8 8 5 cells 7 ≡ some (68 ∷ 65 ∷ [])
dump_loop-ring_example =
    dump_loop-ring 8 5 7 cells (omega arith) (omega arith) (omega arith) (omega arith)
