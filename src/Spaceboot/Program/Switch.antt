-- ===== src/Spaceboot/Program/Switch.antt =====
-- spaceboot_slash.c: what `sps` sends to the node, from its start to each of its ends.
use csh.Prelude.{
  ℕ, ◌+◌, ◌≤◌, ◌<◌, ◌≡◌, ◌⊎◌, inl, inr, Bytes, Option, none, some, List, [], ◌∷◌, ◌++◌, Bool, true,
  length,
}
use csh.Prelude.Int.{ℤ}
use csh.Libc.{atoi}
use csh.Locks.{to_uint32}
use csh.Slash.{Status, success, einval, argument, is_success}
use csh.Spaceboot.Flash.{ParamList, Event, ping, upload, flash_events}
use csh.Spaceboot.Program.{Answers, prepare, transfer, finish, vmem_of, switch_if}
use csh.Spaceboot.Program.Monad.{Outcome, done, stop, Action, ◌>>=◌}
use csh.Spaceboot.Program.Logs.{Logs, Fails}
use csh.Spaceboot.Program.Verified.{IsFile, IsVerified}

-- What a run has sent that did not succeed, behind the first switch.
abbrev pub Partial : List Event → Type 0
Partial es =
    (es ≡ [])
    ⊎ ((es ≡ ping ∷ []) ⊎ ((addr : ℕ) × (image : List ℕ) × (es ≡ ping ∷ upload addr image ∷ [])))

pub at_most_ping : {es : List Event} → (es ≡ []) ⊎ (es ≡ ping ∷ []) → Partial es
at_most_ping (inl e) = inl e
at_most_ping (inr e) = inr (inl e)

module _ {L : Type 0} (params : ParamList L) (answers : Answers) where
  -- How `sps` ends behind the switch to the first slot.
  abbrev pub Written : Bool → ℤ → Outcome Status → List Event → Type 0
  Written crc to r es =
      ((image : List ℕ) × (r ≡ done success)
        × (es
            ≡ ping ∷ upload (vmem_of params answers (to_uint32 to)).vaddr image ∷ flash_events to 1)
        × IsFile params answers image
        × IsVerified params answers crc (vmem_of params answers (to_uint32 to)) image)
      ⊎ (Fails r × Partial es)

  -- How `sps` ends: stopped by its arguments, with nothing sent, or behind the first switch.
  abbrev pub SpsEnds : Option ℕ → List Bytes → Bool → Outcome Status → List Event → Type 0
  SpsEnds none argv crc r es = (r ≡ stop einval) × (es ≡ [])
  SpsEnds (some argi) argv crc r es =
      ((r ≡ stop einval) × (es ≡ []) × (length argv ≤ argi + 2))
      ⊎ ((tail : List Event) × (es ≡ flash_events (atoi (argument (argi + 1) argv)) 1 ++ tail)
          × (argi + 2 < length argv)
          × Written crc (atoi (argument (argi + 2) argv)) r tail)

  -- `sps` behind its first switch
  abbrev write_and_switch : Option Bytes → Bool → ℤ → Action L Status
  write_and_switch filename crc to =
      prepare params answers filename true (to_uint32 to) >>= λ image.
      transfer params answers crc (vmem_of params answers (to_uint32 to)) image >>= λ result.
      switch_if params answers (is_success result) to >>= λ _. finish params answers result
