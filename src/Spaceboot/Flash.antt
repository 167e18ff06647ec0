-- ===== src/Spaceboot/Flash.antt =====
-- spaceboot_slash.c: switching to a slot of the flash. The list of parameters is the param library's; it is
-- a value of some type, with the library's three operations on it. The remote node is the log of what is
-- sent to it. The queue has room for its five entries.
pub mod Slots
use csh.Prelude.{
  ℕ, ◌-◌, ◌%◌, ◌^◌, Option, none, some, List, [], ◌∷◌, ◌++◌, Bool, true, if◌then◌else◌, map,
  get_elem?,
}
use csh.Prelude.Int.{ℤ, pos, negsuc, pos_part}

-- Of the parameters of one node, by their ids: whether the list has it, the list with a new remote
-- parameter and the result of `param_list_add`, and the list without it.
pub record ParamList (L : Type 0) : Type 0 where
  pub param_list_find_id : ℕ → L → Bool
  pub param_list_add : ℕ → L → Bool × L
  pub param_list_remove_specific : ℕ → L → L

abbrev pub param_id : List ℕ
param_id = 21 ∷ 20 ∷ 22 ∷ 23 ∷ []

-- a parameter that is set up, and `boot_img_exist`
pub record BootImg : Type 0 where
  pub id : ℕ
  pub exist : Bool

module _ {L : Type 0} (params : ParamList L) where
  abbrev pub find_or_add : ℕ → L → BootImg × L
  find_or_add id l =
      let (exist, added) = params.param_list_add id l in
      if params.param_list_find_id id l
      then (record { id = id; exist = true }, l)
      else (record { id = id; exist = exist }, added)

  -- the first `for` loop
  unfoldable pub setup : List ℕ → L → List BootImg × L
  setup [] l = ([], l)
  setup (id ∷ ids) l =
      let (img, one) = find_or_add id l in let (imgs, l') = setup ids one in (img ∷ imgs, l')

  -- the last `for` loop
  unfoldable pub remove_added : List BootImg → L → L
  remove_added [] l = l
  remove_added (img ∷ imgs) l =
      remove_added imgs (if img.exist then l else params.param_list_remove_specific img.id l)

-- one entry of a queue: a parameter, and the value it is set to
pub record Setting : Type 0 where
  pub id : ℕ
  pub value : ℕ

-- What the remote node gets: a queue, a reboot, an identification request, an upload to an address.
pub data Event : Type 0 where
  push_queue : List Setting → Event
  reboot : Event
  ping : Event
  upload : ℕ → List ℕ → Event

-- a parameter is one byte: the first of the `int` in memory
abbrev pub clear_all : List Setting
clear_all = map (λ id. record { id = id; value = 0 }) param_id

abbrev pub boot_queue : ℕ → ℕ → List Setting
boot_queue id times = clear_all ++ record { id = id; value = times % 256 } ∷ []

-- the id of the slot, unless `flash < 0 || flash >= NUM_SLOTS`
abbrev pub slot_id : ℤ → Option ℕ
slot_id (pos n) = get_elem? param_id n
slot_id (negsuc n) = none

-- what is sent to the node
unfoldable pub flash_events : ℤ → ℕ → List Event
flash_events flash times = elim (slot_id flash) [
  | none ↦ []
  | some id ↦ push_queue (boot_queue id times) ∷ reboot ∷ ping ∷ []
]

module _ {L : Type 0} (params : ParamList L) where
  unfoldable pub reset_to_flash : ℤ → ℕ → L → List Event × L
  unfolding setup remove_added flash_events
  reset_to_flash flash times l =
      let (imgs, l') = setup params param_id l in
      (
        flash_events flash times,
        elim (slot_id flash) [ none ↦ l' | some id ↦ remove_added params imgs l' ],
      )
