-- ===== src/Stdbuf/Tests.antt =====
-- stdbuf_mon.c on a small ring, and its theorem at an input that meets its hypotheses.
use csh.Prelude.{ℕ, ◌≡◌, refl, List, [], ◌∷◌, arith, ◌+◌, Bool, true, false, if◌then◌else◌}
use csh.Stdbuf.{Answers, Monitor, stdbuf_get, get_ahead, monitor_round, run_rounds}
use csh.Stdbuf.Live.{IsCaughtUp, run_rounds-IsCaughtUp}

abbrev monitor : Monitor
monitor = record { node_out = 6; in_ = 0; out = 0; printed = [] }

abbrev cell : ℕ → ℕ
cell i = 100 + i

abbrev store : Bool → ℕ → ℕ → ℕ
store pushed new old = if pushed then new else old

abbrev replies : Answers
replies = record { pulled = true; peeked = true; pushed = true }

abbrev no_peek : Answers
no_peek = record { pulled = true; peeked = false; pushed = true }

abbrev no_push : Answers
no_push = record { pulled = true; peeked = true; pushed = false }

abbrev rounds : List Answers
rounds = replies ∷ no_peek ∷ replies ∷ replies ∷ replies ∷ []

run_rounds-IsCaughtUp_example :
    IsCaughtUp cell 8 2 monitor (run_rounds store cell 8 2 rounds monitor)
run_rounds-IsCaughtUp_example =
    run_rounds-IsCaughtUp store cell 8 2 rounds monitor
      ((refl, refl), ((refl, refl), ((refl, refl), ((refl, refl), ((refl, refl), tt)))))
      (omega arith) (omega arith) (omega arith) (omega arith)

wraps_around :
    (run_rounds store cell 8 2 (replies ∷ no_peek ∷ replies ∷ []) monitor).printed
    ≡ 106 ∷ 107 ∷ 100 ∷ 101 ∷ []
unfolding run_rounds monitor_round get_ahead stdbuf_get
wraps_around = refl

-- Behind a push that is not answered, the same cells are printed again.
prints_again :
    (run_rounds store cell 8 2 (no_push ∷ replies ∷ []) monitor).printed
    ≡ 106 ∷ 107 ∷ 106 ∷ 107 ∷ []
unfolding run_rounds monitor_round get_ahead stdbuf_get
prints_again = refl
