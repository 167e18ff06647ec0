-- ===== src/Spaceboot/Program/Confirm.antt =====
-- spaceboot_slash.c: what `program` sends to the node.
use csh.Prelude.{
  ℕ, ◌+◌, ◌<◌, ◌≡◌, ◌≢◌, refl, sym, ap, ◌⊎◌, inl, inr, append-nil, arith, Bytes, codes, bytes_eq,
  bytes_eq_iff, Option, none, some, List, [], ◌∷◌, ◌++◌, Bool, true, false, not, ◌||◌, leb, length,
  ◌==◌,
}
use csh.Libc.{atoi}
use csh.Locks.{to_uint32}
use csh.Slash.{Status, success, einval, eusage, argument, is_success, is_success-success}
use csh.Spaceboot.Flash.{ParamList, Event, ping, upload}
use csh.Spaceboot.Program.{
  Answers, search_files, select_file, prepare, transfer, finish, vmem_of, slash_csp_program,
}
use csh.Spaceboot.Program.Monad.{Outcome, done, stop, Action, ◌>>=◌, return_if}
use csh.Spaceboot.Program.Logs.{
  Logs, Fails, Logs-bind, Logs-return_if, Logs-quiet, Logs-last, Logs-send, Quiet-return_if,
}
use csh.Spaceboot.Program.Verified.{
  IsFile, done-eq-done, stop-eq-stop, Prepared, prepare-Prepared, IsVerified, Transferred,
  IsComplete, transfer-Transferred, search_files-Quiet, select_file-Quiet,
}
use csh.Spaceboot.Program.Switch.{Partial, at_most_ping}
use mathlib.Core.Path.{subst}

-- Not done, with a ping sent at most.
abbrev pub Refused : {A : Type 0} → Outcome A → List Event → Type 0
Refused {A} r es = ((a : A) → r ≢ done a) × (r ≢ stop success) × ((es ≡ []) ⊎ (es ≡ ping ∷ []))

module _ {L : Type 0} (params : ParamList L) (answers : Answers) where
  -- `program` behind its arguments
  abbrev write_slot : Option Bytes → Bool → Bool → ℕ → Action L Status
  write_slot filename confirmed crc slot =
      prepare params answers filename confirmed slot >>= λ image.
      transfer params answers crc (vmem_of params answers slot) image >>= λ result.
      finish params answers result

  -- How `program` ends for a slot.
  abbrev pub ProgramEnds : Bool → ℕ → Outcome Status → List Event → Type 0
  ProgramEnds crc slot r es =
      ((image : List ℕ) × (r ≡ done success)
        × (es ≡ ping ∷ upload (vmem_of params answers slot).vaddr image ∷ [])
        × IsFile params answers image
        × IsVerified params answers crc (vmem_of params answers slot) image)
      ⊎ (Fails r × Partial es)

  finish-ProgramEnds :
      (crc : Bool) (slot : ℕ) (image : List ℕ) (result : Status) (b : Bool)
      → is_success result ≡ b
      → IsFile params answers image
      → (result ≡ success → IsVerified params answers crc (vmem_of params answers slot) image)
      → ProgramEnds crc slot
          (done result)
          (ping ∷ upload (vmem_of params answers slot).vaddr image ∷ [])
  finish-ProgramEnds crc slot image result true e file verified =
      let same = is_success-success result e in inl (image, ap done same, refl, file, verified same)
  finish-ProgramEnds crc slot image result false e file verified = inr (
    (λ same. cc (ap is_success (done-eq-done same)), λ e. cc),
    inr (inr ((vmem_of params answers slot).vaddr, image, refl)),
  )

  transferred :
      (complete : IsComplete params answers) (crc : Bool) (slot : ℕ) (image : List ℕ)
      → IsFile params answers image
      → Logs
          (transfer params answers crc (vmem_of params answers slot) image >>= λ result.
            finish params answers result)
          (λ r es. ProgramEnds crc slot r (ping ∷ es))
  transferred complete crc slot image file =
      let vmem = vmem_of params answers slot in
      Logs-bind (Transferred params answers crc vmem image)
        (λ r es. ProgramEnds crc slot r (ping ∷ es)) (transfer params answers crc vmem image) _
        (transfer-Transferred params answers complete crc vmem image)
        (λ result es p.
          subst
            (λ es.
              Logs (finish params answers result)
                (λ r es'. ProgramEnds crc slot r (ping ∷ es ++ es')))
            (sym (p.0))
            (λ w. (
              [],
              sym (append-nil w.events),
              finish-ProgramEnds crc slot image result (is_success result) refl file
                  (λ e. p.2 (ap done e)),
            )))
        (λ s es p.
          inr (
            (λ e. cc, p.3),
            inr (inr (vmem.vaddr, image, ap (λ (l : List Event). ping ∷ l) (p.0))),
          ))
        (λ es p. absurd (p.1 refl))

  write_slot-ProgramEnds :
      (complete : IsComplete params answers) (filename : Option Bytes) (confirmed crc : Bool)
      (slot : ℕ)
      → Logs (write_slot filename confirmed crc slot) (ProgramEnds crc slot)
  write_slot-ProgramEnds complete filename confirmed crc slot =
      Logs-bind (Prepared params answers) (ProgramEnds crc slot)
        (prepare params answers filename confirmed slot) _
        (prepare-Prepared params answers filename confirmed slot)
        (λ image es p.
          subst
            (λ es.
              Logs
                (transfer params answers crc (vmem_of params answers slot) image >>= λ result.
                  finish params answers result)
                (λ r es'. ProgramEnds crc slot r (es ++ es')))
            (sym (p.0)) (transferred complete crc slot image (p.1)))
        (λ s es p. inr ((λ e. cc, λ e. p.0 (stop-eq-stop e)), at_most_ping p.1))
        (λ es p. inr ((λ e. cc, λ e. cc), at_most_ping p))

  -- Behind an argument for the slot, `program` has written a file to the area of the slot's name, which was
  -- verified, or it does not return success, neither early nor at its end; it sends a ping and one upload
  -- at most. As many bytes are read back as are asked for.
  pub slash_csp_program-ProgramEnds :
      (complete : IsComplete params answers) (argi : ℕ) (argv : List Bytes)
      (filename : Option Bytes) (force crc : Bool)
      → argi + 1 < length argv
      → Logs
          (slash_csp_program params answers (some argi) argv filename force crc)
          (ProgramEnds crc (to_uint32 (atoi (argument (argi + 1) argv))))
  unfolding slash_csp_program
  slash_csp_program-ProgramEnds complete argi argv filename force crc h =
      let slot = to_uint32 (atoi (argument (argi + 1) argv)) in
      Logs-return_if (ProgramEnds crc slot) (leb (length argv) (argi + 1)) einval _
        (λ e. absurd (ground arith))
        (λ _.
          write_slot-ProgramEnds complete filename
            (force || bytes_eq answers.confirmation (codes "yes")) crc slot)

  prepare-Refused :
      (filename : Option Bytes) (slot : ℕ)
      → Logs (prepare params answers filename false slot) Refused
  unfolding prepare
  prepare-Refused filename slot =
      let vmem = vmem_of params answers slot in
      Logs-quiet Refused (return_if (vmem.size == 0) einval) _
        (Quiet-return_if (vmem.size == 0) einval (λ e. cc))
        (λ _.
          Logs-quiet Refused (search_files params answers filename vmem) _
            (search_files-Quiet params answers filename vmem)
            (λ _.
              Logs-quiet Refused (select_file params answers) _ (select_file-Quiet params answers)
                (λ path. Logs-send Refused (ping ∷ []) _ (
                  Logs-quiet (λ r es. Refused r (ping ∷ es)) (return_if (not answers.ping) einval) _
                    (Quiet-return_if (not answers.ping) einval (λ e. cc))
                    (λ _.
                      Logs-return_if (λ r es. Refused r (ping ∷ es)) true eusage _
                        (λ e. (λ a e. cc, λ e. cc, inr refl)) (λ e. cc))
                    (λ s n. (λ a e. cc, λ e. n (stop-eq-stop e), inr refl))
                    (λ a e. cc, λ e. cc, inr refl)))
                (λ s n. (λ a e. cc, λ e. n (stop-eq-stop e), inl refl))
                (λ a e. cc, λ e. cc, inl refl))
            (λ s n. (λ a e. cc, λ e. n (stop-eq-stop e), inl refl)) (λ a e. cc, λ e. cc, inl refl))
        (λ s n. (λ a e. cc, λ e. n (stop-eq-stop e), inl refl)) (λ a e. cc, λ e. cc, inl refl)

  write_slot-Refused :
      (filename : Option Bytes) (confirmed crc : Bool) (slot : ℕ)
      → confirmed ≡ false
      → Logs (write_slot filename confirmed crc slot) Refused
  write_slot-Refused filename confirmed crc slot e = rw e (
      Logs-bind Refused Refused (prepare params answers filename false slot) _
        (prepare-Refused filename slot) (λ image es p. absurd (p.0 image refl))
        (λ s es p. (λ a e. cc, λ e. p.1 (ap stop (stop-eq-stop e)), p.2))
        (λ es p. (λ a e. cc, λ e. cc, p.2)))

  -- Unless it is forced or the user types "yes", `program` does not reach its end: it returns early with
  -- another status than success, or faults, and sends a ping at most.
  pub slash_csp_program-Refused :
      (argi : Option ℕ) (argv : List Bytes) (filename : Option Bytes) (crc : Bool)
      → answers.confirmation ≢ codes "yes"
      → Logs (slash_csp_program params answers argi argv filename false crc) Refused
  unfolding slash_csp_program
  slash_csp_program-Refused none argv filename crc h =
      Logs-last Refused (slash_csp_program params answers none argv filename false crc) (λ w. refl)
        (λ w. (λ a e. cc, λ e. cc, inl refl))
  slash_csp_program-Refused (some argi) argv filename crc h =
      Logs-return_if Refused (leb (length argv) (argi + 1)) einval _
        (λ e. (λ a e. cc, λ e. cc, inl refl))
        (λ _.
          write_slot-Refused filename (bytes_eq answers.confirmation (codes "yes")) crc
            (to_uint32 (atoi (argument (argi + 1) argv)))
            (ground (arith, bytes_eq_iff answers.confirmation (codes "yes"), h)))
