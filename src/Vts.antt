-- ===== src/Vts.antt =====
-- src/vts.c: which samples are sent to the visualisation tool. The time of a sample is in milliseconds; a line is
-- sent whether or not the socket takes it, and nothing is kept of that.
pub mod Times
mod Tests
use csh.Prelude.{
  ℕ, ◌/◌, List, [], ◌∷◌, ◌++◌, Bool, true, false, ◌&&◌, ◌||◌, if◌then◌else◌, ◌==◌, ltb,
}

abbrev pub q_hat_id : ℕ
q_hat_id = 305

abbrev pub orbit_pos : ℕ
orbit_pos = 357

-- Whether a value goes to the tool, from `vts_running` and `adcs_node`.
unfoldable pub check_vts : Bool → ℕ → ℕ → ℕ → Bool
check_vts vts_running adcs_node node id =
    vts_running && node == adcs_node && (id == q_hat_id || id == orbit_pos)

-- A line: the time, or the time and the values of an attitude or of a position.
pub data Line (D : Type 0) : Type 0 where
  time : ℕ → Line D
  orbit_sim_quat : ℕ → List D → Line D
  orbit_prop_pos : ℕ → List D → Line D

pub record Vts (D : Type 0) : Type 0 where
  pub last_q_hat_time : ℕ
  pub last_pos_time : ℕ
  pub sent : List (Line D)

-- the arguments of `vts_add`
pub record Sample (D : Type 0) : Type 0 where
  pub arr : List D
  pub id : ℕ
  pub count : ℕ
  pub time_ms : ℕ

module _ {D : Type 0} where
  abbrev pub send_quat : Sample D → Vts D → Vts D
  send_quat x s =
      let timestamp = x.time_ms / 1000 in
      if x.id == q_hat_id && x.count == 4 && ltb s.last_q_hat_time timestamp
      then record s {
        last_q_hat_time = timestamp;
        sent = s.sent ++ orbit_sim_quat timestamp x.arr ∷ [];
      }
      else s

  abbrev pub send_pos : Sample D → Vts D → Vts D
  send_pos x s =
      let timestamp = x.time_ms / 1000 in
      if x.id == orbit_pos && x.count == 3 && ltb s.last_pos_time timestamp
      then record s {
        last_pos_time = timestamp;
        sent = s.sent ++ orbit_prop_pos timestamp x.arr ∷ [];
      }
      else s

  unfoldable pub vts_add : Sample D → Vts D → Vts D
  vts_add x s =
      send_pos x (send_quat x (record s { sent = s.sent ++ time (x.time_ms / 1000) ∷ [] }))

  -- samples as they come
  unfoldable pub add_samples : List (Sample D) → Vts D → Vts D
  unfolding vts_add
  add_samples [] s = s
  add_samples (x ∷ xs) s = add_samples xs (vts_add x s)
