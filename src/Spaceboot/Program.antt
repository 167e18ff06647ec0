-- ===== src/Spaceboot/Program.antt =====
-- spaceboot_slash.c: choosing an image, and the commands `switch`, `program` and `sps`. What the libraries,
-- the remote node and the user answer is an argument; `bin_info` and what is sent are the state, which stays
-- after an error.
pub mod Monad
pub mod Logs
pub mod Verified
pub mod Switch
pub mod Confirm
use csh.Prelude.{
  ℕ, suc, ◌+◌, ◌-◌, Bytes, codes, bytes_eq, Option, none, some, List, [], ◌∷◌, ◌++◌, Bool, true,
  false, not, ◌&&◌, ◌||◌, if◌then◌else◌, ◌==◌, leb, ltb, length, take, set, get_elem?, ◌%◌, ◌^◌,
}
use csh.Prelude.Int.{ℤ, pos, negsuc}
use csh.Libc.{atoi, format_u}
use csh.Locks.{to_uint32}
use csh.Slash.{Status, success, einval, eusage, eio, argument, is_success}
use csh.Spaceboot.Upload.{Uploaded, do_upload, compare_crc32, upload_and_verify}
use csh.Spaceboot.Image.{
  Area, Ident, Verdict, refused, identified, vector, image_get, is_valid_binary,
}
use csh.Spaceboot.Flash.{ParamList, Event, ping, upload, reset_to_flash}
use csh.Spaceboot.Program.Monad.{
  BinInfo, World, Outcome, done, stop, fault, Action, pure, ◌>>=◌, ◌>>◌, modify, return_if,
  or_fault, gets, send, stop_with, succeeds,
}

-- `vmem_list_t`; `size` is 0 if the node has no area of the name
pub record Vmem : Type 0 where
  pub vaddr : ℕ
  pub size : ℕ

-- The answers: the areas of the node by name, the paths that the walk visits in their order and whether it
-- was interrupted, the files, the two lines that the user types, whether the node answers a ping, the
-- RDP window and VMEM_SERVER_MTU, the transfers and the checksum.
pub record Answers : Type 0 where
  pub vmem_client_find : Bytes → Vmem
  pub visited : List Bytes
  pub interrupted : Bool
  pub files : Bytes → Option (List ℕ)
  pub selection : Bytes
  pub confirmation : Bytes
  pub ping : Bool
  pub window : ℕ
  pub mtu : ℕ
  pub vmem_upload : ℕ → List ℕ → Uploaded
  pub vmem_download : ℕ → ℕ → List ℕ
  pub csp_crc32_memory : List ℕ → ℕ
  pub vmem_client_calc_crc32 : ℕ → ℕ → Option ℕ

abbrev pub max_entries : ℕ
max_entries = 32

-- `identified` has the strings of the image; `vector` is an image with no strings
unfoldable pub add_file : Verdict → Bytes → BinInfo → BinInfo
add_file verdict path b =
    if ltb b.count max_entries
    then record b {
      idents = set b.idents b.count verdict;
      files = set b.files b.count path;
      count = suc b.count;
    }
    else b

-- `none` is a fault
unfoldable pub file_callback : (Bytes → Option (List ℕ)) → Area → Bytes → BinInfo → Option BinInfo
unfolding is_valid_binary add_file
file_callback files area path b = elim (is_valid_binary files area path) [
  | none ↦ none
  | some refused ↦ some b
  | some (identified ident) ↦ some (add_file (identified ident) path b)
  | some vector ↦ some (add_file vector path b)
]

-- the walk, by the files that it visits
unfoldable pub walk_files : (Bytes → Option (List ℕ)) → Area → List Bytes → BinInfo → Option BinInfo
unfolding file_callback
walk_files files area [] b = some b
walk_files files area (path ∷ paths) b = elim (file_callback files area path b) [
  | none ↦ none
  | some b' ↦ walk_files files area paths b'
]

-- "fl%u" in a buffer of five bytes
abbrev pub vmem_name : ℕ → Bytes
vmem_name slot = take 4 (codes "fl" ++ format_u slot)

-- `bin_info.files[index]`
abbrev pub file_at : ℤ → List Bytes → Option Bytes
file_at (pos i) files = get_elem? files i
file_at (negsuc i) files = none

abbrev pub area_of : Vmem → Area
area_of vmem = record {
  addr_min = vmem.vaddr % 2 ^ 32;
  addr_max = (vmem.vaddr + vmem.size - 1) % 2 ^ 32;
}

module _ {L : Type 0} (params : ParamList L) (answers : Answers) where
  abbrev pub use_file : Bytes → World L → World L
  use_file filename w = record w {
    bin_info = record w.bin_info { files = set w.bin_info.files 0 (take 255 filename); count = 0 };
  }

  abbrev pub walked : Option BinInfo → Action L (Unit {0})
  walked none w = (fault, w)
  walked (some b) w = (done tt, record w { bin_info = b })

  unfoldable pub walkdir : Area → Action L (Unit {0})
  unfolding walk_files
  walkdir area w =
      walked (walk_files answers.files area answers.visited (record w.bin_info { count = 0 })) w

  unfoldable pub search_files : Option Bytes → Vmem → Action L (Unit {0})
  unfolding walkdir
  search_files (some filename) vmem = modify (use_file filename)
  search_files none vmem = do
    walkdir (area_of vmem)
    return_if answers.interrupted einval
    n ← gets (λ w. w.bin_info.count)
    return_if (n == 0) einval

  unfoldable pub select_file : Action L Bytes
  select_file = do
    b ← gets (λ w. w.bin_info)
    return_if (ltb 1 b.count && length answers.selection == 0) eusage
    or_fault (file_at (if ltb 1 b.count then atoi answers.selection else pos 0) b.files)

  abbrev pub vmem_of : ℕ → Vmem
  vmem_of slot = answers.vmem_client_find (vmem_name slot)

  abbrev pub load : Bytes → Action L (List ℕ)
  load path = do
    return_if (elim (image_get (answers.files path)) [ none ↦ true | some image ↦ false ]) eio
    or_fault (image_get (answers.files path))

  -- up to the transfer; `program` asks for a confirmation unless it is forced
  unfoldable pub prepare : Option Bytes → Bool → ℕ → Action L (List ℕ)
  unfolding search_files select_file
  prepare filename confirmed slot = do
    return_if ((vmem_of slot).size == 0) einval
    search_files filename (vmem_of slot)
    path ← select_file
    send (ping ∷ [])
    return_if (not answers.ping) einval
    return_if (not confirmed) eusage
    load path

  -- With a checksum, a failed upload returns at once.
  unfoldable pub transfer : Bool → Vmem → List ℕ → Action L Status
  unfolding do_upload compare_crc32 upload_and_verify
  transfer do_crc32 vmem image =
      let uploaded = answers.vmem_upload vmem.vaddr image in
      let size = length image in
      let res = (do_upload answers.window answers.mtu size uploaded).status in
      send (upload vmem.vaddr image ∷ [])
      >> (if do_crc32
          then (succeeds res
              >> pure (
                  compare_crc32 success (answers.csp_crc32_memory image)
                    (answers.vmem_client_calc_crc32 vmem.vaddr size)))
          else pure (
              upload_and_verify answers.window answers.mtu uploaded
                (answers.vmem_download vmem.vaddr size) image))

  abbrev pub finish : Status → Action L Status
  finish result w = (done result, record w { rdp_opt = false })

  abbrev pub switch_to : ℤ → ℕ → Action L (Unit {0})
  switch_to flash times w =
      let (events, params') = reset_to_flash params flash times w.params in
      (done tt, record w { events = w.events ++ events; params = params' })

  -- `if (result == SLASH_SUCCESS)`
  abbrev pub switch_if : Bool → ℤ → Action L (Unit {0})
  switch_if true flash w = switch_to flash 1 w
  switch_if false flash w = (done tt, w)

  unfoldable pub slash_csp_switch : Option ℕ → List Bytes → ℕ → Action L Status
  unfolding reset_to_flash
  slash_csp_switch none argv times = stop_with einval
  slash_csp_switch (some argi) argv times =
      if leb (length argv) (argi + 1)
      then stop_with einval
      else switch_to (atoi (argument (argi + 1) argv)) times >> pure success

  unfoldable pub slash_csp_program :
      Option ℕ → List Bytes → Option Bytes → Bool → Bool → Action L Status
  unfolding prepare transfer bytes_eq
  slash_csp_program none argv filename force do_crc32 = stop_with einval
  slash_csp_program (some argi) argv filename force do_crc32 = do
    return_if (leb (length argv) (argi + 1)) einval
    let slot = to_uint32 (atoi (argument (argi + 1) argv))
    image ← prepare filename (force || bytes_eq answers.confirmation (codes "yes")) slot
    result ← transfer do_crc32 (vmem_of slot) image
    finish result

  unfoldable pub slash_sps : Option ℕ → List Bytes → Option Bytes → Bool → Action L Status
  unfolding prepare transfer reset_to_flash
  slash_sps none argv filename do_crc32 = return_if true einval >> pure einval
  slash_sps (some argi) argv filename do_crc32 = do
    modify (λ w. record w { rdp_opt = true })
    return_if (leb (length argv) (argi + 1)) einval
    return_if (leb (length argv) (argi + 2)) einval
    switch_to (atoi (argument (argi + 1) argv)) 1
    let to = atoi (argument (argi + 2) argv)
    image ← prepare filename true (to_uint32 to)
    result ← transfer do_crc32 (vmem_of (to_uint32 to)) image
    switch_if (is_success result) to
    finish result
