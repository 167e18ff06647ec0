-- ===== src/Spaceboot/Tests.antt =====
-- spaceboot_slash.c on small inputs, and its theorems at inputs that meet their hypotheses.
use csh.Prelude.{
  ℕ, ◌≡◌, refl, codes, Bytes, some, List, [], ◌∷◌, ◌++◌, true, false, ◌&&◌, not, ◌==◌, replicate,
  length-replicate, if◌then◌else◌, arith, length,
}
use csh.Prelude.Int.{pos}
use csh.Libc.{atoi}
use csh.Locks.{to_uint32}
use csh.Spaceboot.Upload.{count}
use csh.Spaceboot.Image.{Area, refused, test_image}
use csh.Spaceboot.Image.Accepts.{Judged, test_image-Judged}
use csh.Spaceboot.Flash.{ParamList, Event, reset_to_flash}
use csh.Spaceboot.Flash.Slots.{is_listed, Finds, reset_to_flash-find}
use csh.Spaceboot.Program.{Answers, slash_csp_program}
use csh.Spaceboot.Program.Monad.{World}
use csh.Spaceboot.Program.Confirm.{ProgramEnds, slash_csp_program-ProgramEnds}

abbrev image : List ℕ
image = 1 ∷ 2 ∷ 3 ∷ 4 ∷ []

abbrev area : Area
area = record { addr_min = 256; addr_max = 1024 }

-- the word at 4 is 0x0104
abbrev plain_image : List ℕ
plain_image = 0 ∷ 0 ∷ 0 ∷ 0 ∷ 4 ∷ 1 ∷ 0 ∷ 0 ∷ replicate 704 9

test_image-Judged_example : Judged area plain_image (test_image area plain_image)
test_image-Judged_example = test_image-Judged area plain_image (omega arith)

-- a list of parameters, as the list of their ids
abbrev remove_id : ℕ → List ℕ → List ℕ
remove_id i [] = []
remove_id i (j ∷ js) = let rest = remove_id i js in if i == j then rest else j ∷ rest

abbrev ids : ParamList (List ℕ)
ids = record {
  param_list_find_id = is_listed;
  param_list_add = λ i l. (is_listed i l, i ∷ l);
  param_list_remove_specific = remove_id;
}

is_listed-remove_id :
    (i j : ℕ) (l : List ℕ) → is_listed j (remove_id i l) ≡ (not (i == j) && is_listed j l)
is_listed-remove_id i j [] = ground arith
is_listed-remove_id i j (k ∷ l) = ground (arith, is_listed-remove_id i j l)

ids-Finds : Finds ids
ids-Finds = (λ i j l. refl, λ i l e. e, is_listed-remove_id)

reset_to_flash-find_example : is_listed 7 (reset_to_flash ids (pos 2) 1 (7 ∷ 21 ∷ [])).1 ≡ true
reset_to_flash-find_example = reset_to_flash-find ids ids-Finds (pos 2) 1 7 (7 ∷ 21 ∷ [])

abbrev answers : Answers
answers = record {
  vmem_client_find = λ name. record { vaddr = 256; size = 768 };
  visited = [];
  interrupted = false;
  files = λ path. some image;
  selection = [];
  confirmation = codes "no";
  ping = true;
  window = 1;
  mtu = 10;
  vmem_upload = λ addr bytes. count (pos (length bytes));
  vmem_download = λ addr len. replicate len 0;
  csp_crc32_memory = λ bytes. length bytes;
  vmem_client_calc_crc32 = λ addr len. some len;
}

abbrev world : World (List ℕ)
world = record {
  bin_info = record { count = 0; idents = replicate 32 refused; files = replicate 32 [] };
  events = [];
  rdp_opt = false;
  params = [];
}

abbrev sps_argv : List Bytes
sps_argv = codes "sps" ∷ codes "1" ∷ codes "2" ∷ []

abbrev program_argv : List Bytes
program_argv = codes "program" ∷ codes "1" ∷ []

slash_csp_program-ProgramEnds_example :
    (es : List Event) × ((slash_csp_program ids answers
        (some 0)
        program_argv
        (some (codes "a.bin"))
        true
        true
        world).1.events
      ≡ [] ++ es)
    × ProgramEnds ids answers true
        (to_uint32 (atoi (codes "1")))
        (slash_csp_program ids answers
          (some 0)
          program_argv
          (some (codes "a.bin"))
          true
          true
          world).0
        es
slash_csp_program-ProgramEnds_example =
    slash_csp_program-ProgramEnds ids answers (λ addr len. length-replicate len 0) 0 program_argv
      (some (codes "a.bin")) true true (omega arith) world
