-- ===== src/Vts/Times.antt =====
-- vts.c: the times of the attitudes and of the positions that are sent.
use csh.Prelude.{
  ℕ, ◌/◌, ◌≤◌, ◌<◌, ◌≡◌, refl, ap, List, [], ◌∷◌, ◌++◌, ◌&&◌, ◌==◌, ltb, All, All-append,
  append-nil, arith, Bool-cases, inl, inr,
}
use csh.Vts.{
  q_hat_id, orbit_pos, Line, time, orbit_sim_quat, orbit_prop_pos, Vts, Sample, send_quat, send_pos,
  vts_add, add_samples,
}

-- Each time is before those behind it.
abbrev pub AreIncreasing : List ℕ → Type 0
AreIncreasing [] = Unit
AreIncreasing (t ∷ ts) = All (λ u. t < u) ts × AreIncreasing ts

snoc-AreIncreasing :
    (ts : List ℕ) (t : ℕ) → AreIncreasing ts → All (λ u. u < t) ts → AreIncreasing (ts ++ t ∷ [])
snoc-AreIncreasing [] t h below = (tt, tt)
snoc-AreIncreasing (u ∷ ts) t h below =
    (All-append (λ v. u < v) ts (t ∷ []) h.0 (below.0, tt), snoc-AreIncreasing ts t h.1 below.1)

module _ {D : Type 0} where
  abbrev pub quat_times : List (Line D) → List ℕ
  quat_times [] = []
  quat_times (time t ∷ lines) = quat_times lines
  quat_times (orbit_sim_quat t arr ∷ lines) = t ∷ quat_times lines
  quat_times (orbit_prop_pos t arr ∷ lines) = quat_times lines

  abbrev pub pos_times : List (Line D) → List ℕ
  pos_times [] = []
  pos_times (time t ∷ lines) = pos_times lines
  pos_times (orbit_sim_quat t arr ∷ lines) = pos_times lines
  pos_times (orbit_prop_pos t arr ∷ lines) = t ∷ pos_times lines

  quat_times-append : (l k : List (Line D)) → quat_times (l ++ k) ≡ quat_times l ++ quat_times k
  quat_times-append [] k = refl
  quat_times-append (time t ∷ l) k = quat_times-append l k
  quat_times-append (orbit_sim_quat t arr ∷ l) k =
      ap (λ (ts : List ℕ). t ∷ ts) (quat_times-append l k)
  quat_times-append (orbit_prop_pos t arr ∷ l) k = quat_times-append l k

  pos_times-append : (l k : List (Line D)) → pos_times (l ++ k) ≡ pos_times l ++ pos_times k
  pos_times-append [] k = refl
  pos_times-append (time t ∷ l) k = pos_times-append l k
  pos_times-append (orbit_sim_quat t arr ∷ l) k = pos_times-append l k
  pos_times-append (orbit_prop_pos t arr ∷ l) k =
      ap (λ (ts : List ℕ). t ∷ ts) (pos_times-append l k)

-- Increasing times, none behind the last one that is kept.
abbrev pub UpTo : ℕ → List ℕ → Type 0
UpTo last ts = AreIncreasing ts × All (λ t. t ≤ last) ts

weaken :
    (last next : ℕ) (ts : List ℕ) → last < next → All (λ t. t ≤ last) ts → All (λ t. t < next) ts
weaken last next [] h all = tt
weaken last next (t ∷ ts) h all = (omega (arith, all.0, h), weaken last next ts h all.1)

below-le : (next : ℕ) (ts : List ℕ) → All (λ t. t < next) ts → All (λ t. t ≤ next) ts
below-le next [] all = tt
below-le next (t ∷ ts) all = (omega (arith, all.0), below-le next ts all.1)

snoc-UpTo : (last next : ℕ) (ts : List ℕ) → last < next → UpTo last ts → UpTo next (ts ++ next ∷ [])
snoc-UpTo last next ts h up =
    let below = weaken last next ts h up.1 in
    (
      snoc-AreIncreasing ts next up.0 below,
      All-append (λ t. t ≤ next) ts (next ∷ []) (below-le next ts below) (omega arith, tt),
    )

module _ {D : Type 0} where
  -- The times of each kind of line increase.
  abbrev pub IsStream : Vts D → Type 0
  IsStream s = UpTo s.last_q_hat_time (quat_times s.sent) × UpTo s.last_pos_time (pos_times s.sent)

  -- a line of the time
  time-IsStream :
      (t : ℕ) (s : Vts D) → IsStream s → IsStream (record s { sent = s.sent ++ time t ∷ [] })
  time-IsStream t s h =
      rw
        (
          quat_times-append s.sent (time t ∷ []),
          pos_times-append s.sent (time t ∷ []),
          append-nil (quat_times s.sent),
          append-nil (pos_times s.sent),
        )
        h

  send_quat-IsStream : (x : Sample D) (s : Vts D) → IsStream s → IsStream (send_quat x s)
  send_quat-IsStream x s h =
      let t = x.time_ms / 1000 in
      elim (Bool-cases (x.id == q_hat_id && x.count == 4 && ltb s.last_q_hat_time t)) [
        | inl later ↦
            let up =
              snoc-UpTo s.last_q_hat_time t (quat_times s.sent) (ground (arith, later)) h.0 in
            rw
              (
                later,
                quat_times-append s.sent (orbit_sim_quat t x.arr ∷ []),
                pos_times-append s.sent (orbit_sim_quat t x.arr ∷ []),
                append-nil (pos_times s.sent),
              )
              (up, h.1)
        | inr old ↦ rw old h
      ]

  send_pos-IsStream : (x : Sample D) (s : Vts D) → IsStream s → IsStream (send_pos x s)
  send_pos-IsStream x s h =
      let t = x.time_ms / 1000 in
      elim (Bool-cases (x.id == orbit_pos && x.count == 3 && ltb s.last_pos_time t)) [
        | inl later ↦
            let up = snoc-UpTo s.last_pos_time t (pos_times s.sent) (ground (arith, later)) h.1 in
            rw
              (
                later,
                quat_times-append s.sent (orbit_prop_pos t x.arr ∷ []),
                pos_times-append s.sent (orbit_prop_pos t x.arr ∷ []),
                append-nil (quat_times s.sent),
              )
              (h.0, up)
        | inr old ↦ rw old h
      ]

  -- Whatever the samples and their order, the attitudes that are sent have increasing times in seconds, and so
  -- have the positions: a sample that is late or of the same second is not sent.
  pub add_samples-IsStream :
      (xs : List (Sample D)) (s : Vts D) → IsStream s → IsStream (add_samples xs s)
  unfolding add_samples vts_add
  add_samples-IsStream [] s h = h
  add_samples-IsStream (x ∷ xs) s h =
      let timed : Vts D = record s { sent = s.sent ++ time (x.time_ms / 1000) ∷ [] } in
      add_samples-IsStream xs (send_pos x (send_quat x timed)) (
        send_pos-IsStream x (send_quat x timed)
          (send_quat-IsStream x timed (time-IsStream (x.time_ms / 1000) s h)))
