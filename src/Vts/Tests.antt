-- ===== src/Vts/Tests.antt =====
-- vts.c on a few samples, and its theorem at an input that meets its hypotheses.
use csh.Prelude.{ℕ, ◌≡◌, refl, List, [], ◌∷◌}
use csh.Vts.{time, orbit_sim_quat, Vts, Sample, vts_add, add_samples}
use csh.Vts.Times.{IsStream, add_samples-IsStream}

abbrev start : Vts ℕ
start = record { last_q_hat_time = 0; last_pos_time = 0; sent = [] }

abbrev attitude : ℕ → Sample ℕ
attitude time_ms = record { arr = 0 ∷ 0 ∷ 0 ∷ 1 ∷ []; id = 305; count = 4; time_ms = time_ms }

abbrev samples : List (Sample ℕ)
samples = attitude 5000 ∷ attitude 4000 ∷ attitude 5500 ∷ attitude 6000 ∷ []

add_samples-IsStream_example : IsStream (add_samples samples start)
add_samples-IsStream_example = add_samples-IsStream samples start ((tt, tt), (tt, tt))

-- The second is late.
late_is_dropped :
    (add_samples (attitude 5000 ∷ attitude 4000 ∷ []) start).sent
    ≡ time 5 ∷ orbit_sim_quat 5 (0 ∷ 0 ∷ 0 ∷ 1 ∷ []) ∷ time 4 ∷ []
unfolding add_samples vts_add
late_is_dropped = refl
