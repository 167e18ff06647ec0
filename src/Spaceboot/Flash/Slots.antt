-- ===== src/Spaceboot/Flash/Slots.antt =====
-- spaceboot_slash.c: what a switch does to the node's slots, and to the list of parameters.
use csh.Prelude.{
  ℕ, ◌%◌, ◌≡◌, refl, ap, Option, none, some, List, [], ◌∷◌, Bool, true, false, not, ◌&&◌, ◌||◌,
  if◌then◌else◌, ◌==◌, arith, Bool-cases, inl, inr,
}
use csh.Prelude.Int.{ℤ}
use csh.Spaceboot.Flash.{
  ParamList, param_id, BootImg, find_or_add, setup, remove_added, Setting, Event, push_queue,
  reboot, ping, boot_queue, slot_id, flash_events, reset_to_flash,
}

abbrev pub is_listed : ℕ → List ℕ → Bool
is_listed j [] = false
is_listed j (i ∷ is) = i == j || is_listed j is

-- the value of a parameter behind the settings of a queue
abbrev pub applied : List Setting → ℕ → ℕ → ℕ
applied [] id v = v
applied (s ∷ queue) id v = applied queue id (if s.id == id then s.value else v)

-- The node's answer to a switch: nothing for a slot that is not there. Else one queue is sent, then a reboot and
-- a ping; behind the queue the slot's parameter has the low byte of the count, the other three are 0, and no
-- other parameter has changed.
abbrev pub Switches : Option ℕ → ℕ → List Event → Type 0
Switches none times events = events ≡ []
Switches (some slot) times events =
    (queue : List Setting) × (events ≡ push_queue queue ∷ reboot ∷ ping ∷ [])
    × ((id v : ℕ)
        → applied queue id v
          ≡ (if slot == id then times % 256 else if is_listed id param_id then 0 else v))

applied-boot_queue :
    (slot times id v : ℕ)
    → applied (boot_queue slot times) id v
      ≡ (if slot == id then times % 256 else if is_listed id param_id then 0 else v)
applied-boot_queue slot times id v = ground arith

-- What `reset_to_flash` sends, for each number of a slot.
pub flash_events-Switches :
    (flash : ℤ) (times : ℕ) → Switches (slot_id flash) times (flash_events flash times)
unfolding flash_events
flash_events-Switches flash times =
    elim (slot_id flash)
      as (λ o.
        Switches o times (elim o [
          | none ↦ []
          | some id ↦ push_queue (boot_queue id times) ∷ reboot ∷ ping ∷ []
        ])) [
          | none ↦ refl
          | some slot ↦ (boot_queue slot times, refl, applied-boot_queue slot times)
        ]

abbrev pub is_removed : ℕ → List BootImg → Bool
is_removed j [] = false
is_removed j (img ∷ imgs) = (img.id == j && not img.exist) || is_removed j imgs

-- What the param library says of its operations, as seen by `param_list_find_id`.
abbrev pub Finds : {L : Type 0} → ParamList L → Type 0
Finds {L} params =
    ((i j : ℕ) (l : L)
      → params.param_list_find_id j (params.param_list_add i l).1
        ≡ (i == j || params.param_list_find_id j l))
    × ((i : ℕ) (l : L)
        → params.param_list_find_id i l ≡ false
        → (params.param_list_add i l).0 ≡ false)
    × ((i j : ℕ) (l : L)
        → params.param_list_find_id j (params.param_list_remove_specific i l)
          ≡ (not (i == j) && params.param_list_find_id j l))

module _ {L : Type 0} (params : ParamList L) (laws : Finds params) where
  find : ℕ → L → Bool
  find j l = params.param_list_find_id j l

  find_or_add_lem :
      (i j : ℕ) (l : L)
      → (find j (find_or_add params i l).1 ≡ (i == j || find j l))
        × ((find_or_add params i l).0.exist ≡ find i l)
        × ((find_or_add params i l).0.id ≡ i)
  unfolding find
  find_or_add_lem i j l = elim (Bool-cases (params.param_list_find_id i l)) [
    | inl found ↦ rw found (elim (Bool-cases (i == j)) [
      | inl same ↦ (ground (arith, found), refl, refl)
      | inr other ↦ (rw other refl, refl, refl)
    ])
    | inr missing ↦ rw missing (laws.0 i j l, laws.1 i l missing, refl)
  ]

  same_find : (i j : ℕ) (l : L) → (i == j) ≡ true → find i l ≡ find j l
  same_find i j l same = ap (λ (k : ℕ). find k l) (ground arith)

  -- behind the first loop
  setup_lem :
      (ids : List ℕ) (j : ℕ) (l : L)
      → (find j (setup params ids l).1 ≡ (is_listed j ids || find j l))
        × (is_removed j (setup params ids l).0 ≡ (is_listed j ids && not (find j l)))
  unfolding setup
  setup_lem [] j l = (refl, refl)
  setup_lem (i ∷ is) j l =
      let one = (find_or_add params i l).1 in
      let (found, removed) = setup_lem is j one in
      let (there, exist, id) = find_or_add_lem i j l in
      ground (arith, found, removed, there, exist, id, same_find i j l)

  -- behind the last loop
  remove_added_lem :
      (imgs : List BootImg) (j : ℕ) (l : L)
      → find j (remove_added params imgs l) ≡ (not (is_removed j imgs) && find j l)
  unfolding remove_added find
  remove_added_lem [] j l = refl
  remove_added_lem (img ∷ imgs) j l =
      let ih =
        remove_added_lem imgs j
          (if img.exist then l else params.param_list_remove_specific img.id l) in
      ground (arith, ih, laws.2 img.id j l)

  -- The list of parameters behind `reset_to_flash`: for a slot that is there, it has just the parameters that
  -- it had before; for any other slot it has the four boot parameters besides.
  pub reset_to_flash-find :
      (flash : ℤ) (times j : ℕ) (l : L)
      → params.param_list_find_id j (reset_to_flash params flash times l).1 ≡ elim (slot_id flash) [
        | none ↦ is_listed j param_id || params.param_list_find_id j l
        | some slot ↦ params.param_list_find_id j l
      ]
  unfolding reset_to_flash find
  reset_to_flash-find flash times j l =
      let (found, removed) = setup_lem param_id j l in
      let l' = (setup params param_id l).1 in
      let imgs = (setup params param_id l).0 in
      elim (slot_id flash)
        as (λ o.
          params.param_list_find_id j (elim o [ none ↦ l' | some id ↦ remove_added params imgs l' ])
          ≡ elim o [
            | none ↦ is_listed j param_id || params.param_list_find_id j l
            | some slot ↦ params.param_list_find_id j l
          ]) [
            | none ↦ found
            | some slot ↦ ground (arith, remove_added_lem imgs j l', found, removed)
          ]
