-- ===== src/Spaceboot/Program/Verified.antt =====
-- spaceboot_slash.c: what `program` and `sps` send to the node, and when they succeed.
use csh.Prelude.{
  ℕ, ◌≡◌, ◌≢◌, refl, sym, ap, ◌⊎◌, inl, inr, Bytes, Option, none, some, List, [], ◌∷◌, ◌++◌, Bool,
  true, false, not, ◌&&◌, if◌then◌else◌, length, append-nil, ltb, ◌==◌, arith,
}
use csh.Prelude.Int.{pos}
use csh.Libc.{atoi}
use csh.Slash.{Status, success, einval, eusage, enomem, ebreak, exit, eio, enospc}
use csh.Spaceboot.Upload.{count, do_upload, compare_crc32}
use csh.Spaceboot.Upload.Checked.{do_upload-success, upload_and_verify-success}
use csh.Spaceboot.Image.{image_get}
use csh.Spaceboot.Flash.{ParamList, Event, ping, upload}
use csh.Spaceboot.Program.{
  Vmem, Answers, search_files, select_file, vmem_of, load, prepare, transfer, walkdir, walked,
  file_at, walk_files, area_of,
}
use csh.Spaceboot.Program.Monad.{
  BinInfo, Outcome, done, stop, fault, pure, return_if, or_fault, gets, succeeds,
}
use csh.Spaceboot.Program.Logs.{
  Logs, Quiet, Logs-bind, Logs-quiet, Logs-last, Logs-send, Quiet-bind, Quiet-return_if,
  Quiet-or_fault,
}

abbrev pub Succeeded : Status → Outcome (Unit {0}) → List Event → Type 0
Succeeded s r es =
    (es ≡ []) × (r ≢ fault) × ((a : Unit {0}) → r ≡ done a → s ≡ success) × (r ≢ stop success)

succeeds-Succeeded : {L : Type 0} (s : Status) → Logs {L = L} (succeeds s) (Succeeded s)
succeeds-Succeeded success w =
    ([], sym (append-nil w.events), (refl, λ e. cc, λ a e. refl, λ e. cc))
succeeds-Succeeded einval w =
    ([], sym (append-nil w.events), (refl, λ e. cc, λ a e. absurd (cc), λ e. cc))
succeeds-Succeeded eusage w =
    ([], sym (append-nil w.events), (refl, λ e. cc, λ a e. absurd (cc), λ e. cc))
succeeds-Succeeded enomem w =
    ([], sym (append-nil w.events), (refl, λ e. cc, λ a e. absurd (cc), λ e. cc))
succeeds-Succeeded ebreak w =
    ([], sym (append-nil w.events), (refl, λ e. cc, λ a e. absurd (cc), λ e. cc))
succeeds-Succeeded exit w =
    ([], sym (append-nil w.events), (refl, λ e. cc, λ a e. absurd (cc), λ e. cc))
succeeds-Succeeded eio w =
    ([], sym (append-nil w.events), (refl, λ e. cc, λ a e. absurd (cc), λ e. cc))
succeeds-Succeeded enospc w =
    ([], sym (append-nil w.events), (refl, λ e. cc, λ a e. absurd (cc), λ e. cc))

pub stop-eq-stop : {A : Type 0} {s t : Status} → ◌≡◌ {A = Outcome A} (stop s) (stop t) → s ≡ t
stop-eq-stop e = cc

pub done-eq-done : {A : Type 0} {a b : A} → done a ≡ done b → a ≡ b
done-eq-done e = cc

module _ {L : Type 0} (params : ParamList L) (answers : Answers) where
  walked-Quiet : (o : Option BinInfo) → Quiet (walked params answers o)
  walked-Quiet none w = (refl, λ e. cc)
  walked-Quiet (some b) w = (refl, λ e. cc)

  walkdir-Quiet : (vmem : Vmem) → Quiet (walkdir params answers (area_of vmem))
  unfolding walkdir
  walkdir-Quiet vmem w =
      walked-Quiet
        (walk_files answers.files (area_of vmem) answers.visited (record w.bin_info { count = 0 }))
        w

  pub search_files-Quiet :
      (filename : Option Bytes) (vmem : Vmem) → Quiet (search_files params answers filename vmem)
  unfolding search_files
  search_files-Quiet (some filename) vmem w = (refl, λ e. cc)
  search_files-Quiet none vmem w =
      Quiet-bind (walkdir params answers (area_of vmem)) _ (walkdir-Quiet vmem)
        (λ _.
          Quiet-bind (return_if answers.interrupted einval) _
            (Quiet-return_if answers.interrupted einval (λ e. cc))
            (λ _.
              Quiet-bind (gets (λ w. w.bin_info.count)) _ (λ w. (refl, λ e. cc))
                (λ n. Quiet-return_if (n == 0) einval (λ e. cc))))
        w

  pub select_file-Quiet : Quiet (select_file params answers)
  unfolding select_file
  select_file-Quiet =
      Quiet-bind (gets (λ w. w.bin_info)) _ (λ w. (refl, λ e. cc))
        (λ b.
          Quiet-bind (return_if (ltb 1 b.count && length answers.selection == 0) eusage) _
            (Quiet-return_if (ltb 1 b.count && length answers.selection == 0) eusage (λ e. cc))
            (λ _.
              Quiet-or_fault
                (file_at (if ltb 1 b.count then atoi answers.selection else pos 0) b.files)))

  abbrev pub IsFile : List ℕ → Type 0
  IsFile image = (path : Bytes) × (image_get (answers.files path) ≡ some image)

  -- The preparation sends a ping at most; when it is done it has sent it, and read a file.
  abbrev pub Prepared : Outcome (List ℕ) → List Event → Type 0
  Prepared (done image) es = (es ≡ ping ∷ []) × IsFile image
  Prepared (stop s) es = (s ≢ success) × ((es ≡ []) ⊎ (es ≡ ping ∷ []))
  Prepared fault es = (es ≡ []) ⊎ (es ≡ ping ∷ [])

  image_or_fault :
      (path : Bytes) (o : Option (List ℕ))
      → image_get (answers.files path) ≡ o
      → Logs {L = L} (or_fault o) (λ r es. Prepared r (ping ∷ es))
  image_or_fault path none e w = ([], sym (append-nil w.events), inr refl)
  image_or_fault path (some image) e w = ([], sym (append-nil w.events), (refl, (path, e)))

  load-Prepared : (path : Bytes) → Logs (load params answers path) (λ r es. Prepared r (ping ∷ es))
  load-Prepared path =
      Logs-quiet (λ r es. Prepared r (ping ∷ es)) (return_if no_image eio) _
        (Quiet-return_if no_image eio (λ e. cc))
        (λ _. image_or_fault path (image_get (answers.files path)) refl) (λ s n. (n, inr refl))
        (inr refl)
    where
      no_image : Bool
      no_image = elim (image_get (answers.files path)) [ none ↦ true | some image ↦ false ]

  pub prepare-Prepared :
      (filename : Option Bytes) (confirmed : Bool) (slot : ℕ)
      → Logs (prepare params answers filename confirmed slot) Prepared
  unfolding prepare
  prepare-Prepared filename confirmed slot =
      let no_vmem = (vmem_of params answers slot).size == 0 in
      Logs-quiet Prepared (return_if no_vmem einval) _ (Quiet-return_if no_vmem einval (λ e. cc))
        (λ _.
          Logs-quiet Prepared (search_files params answers filename (vmem_of params answers slot)) _
            (search_files-Quiet filename (vmem_of params answers slot))
            (λ _.
              Logs-quiet Prepared (select_file params answers) _ select_file-Quiet
                (λ path. Logs-send Prepared (ping ∷ []) _ (
                  Logs-quiet (λ r es. Prepared r (ping ∷ es)) (return_if (not answers.ping) einval)
                    _ (Quiet-return_if (not answers.ping) einval (λ e. cc))
                    (λ _.
                      Logs-quiet (λ r es. Prepared r (ping ∷ es)) (return_if (not confirmed) eusage)
                        _ (Quiet-return_if (not confirmed) eusage (λ e. cc))
                        (λ _. load-Prepared path) (λ s n. (n, inr refl)) (inr refl))
                    (λ s n. (n, inr refl)) (inr refl)))
                (λ s n. (n, inl refl)) (inl refl))
            (λ s n. (n, inl refl)) (inl refl))
        (λ s n. (n, inl refl)) (inl refl)

  -- What a transfer has done when it answers `success`.
  abbrev pub IsVerified : Bool → Vmem → List ℕ → Type 0
  IsVerified true vmem image =
      (answers.vmem_upload vmem.vaddr image ≡ count (pos (length image)))
      × (answers.vmem_client_calc_crc32 vmem.vaddr (length image)
          ≡ some (answers.csp_crc32_memory image))
  IsVerified false vmem image =
      (answers.vmem_upload vmem.vaddr image ≡ count (pos (length image)))
      × (answers.vmem_download vmem.vaddr (length image) ≡ image)

  abbrev pub Transferred : Bool → Vmem → List ℕ → Outcome Status → List Event → Type 0
  Transferred crc vmem image r es =
      (es ≡ upload vmem.vaddr image ∷ [])
      × (r ≢ fault)
      × (r ≡ done success → IsVerified crc vmem image)
      × (r ≢ stop success)

  -- as many bytes are read back as are asked for
  abbrev pub IsComplete : Type 0
  IsComplete = (addr len : ℕ) → length (answers.vmem_download addr len) ≡ len

  compare_crc32-success :
      (crc : ℕ) (crc_node : Option ℕ)
      → compare_crc32 success crc crc_node ≡ success
      → crc_node ≡ some crc
  unfolding compare_crc32
  compare_crc32-success crc none e = cc
  compare_crc32-success crc (some node) e = ap some (ground arith)

  compare_crc32-IsVerified :
      (vmem : Vmem) (image : List ℕ)
      → (do_upload answers.window answers.mtu
          (length image)
          (answers.vmem_upload vmem.vaddr image)).status
        ≡ success
      → compare_crc32 success
          (answers.csp_crc32_memory image)
          (answers.vmem_client_calc_crc32 vmem.vaddr (length image))
        ≡ success
      → IsVerified true vmem image
  compare_crc32-IsVerified vmem image up equal = (
    do_upload-success answers.window answers.mtu (length image)
        (answers.vmem_upload vmem.vaddr image) up,
    compare_crc32-success (answers.csp_crc32_memory image)
        (answers.vmem_client_calc_crc32 vmem.vaddr (length image)) equal,
  )

  pub transfer-Transferred :
      (complete : IsComplete) (crc : Bool) (vmem : Vmem) (image : List ℕ)
      → Logs (transfer params answers crc vmem image) (Transferred crc vmem image)
  unfolding transfer
  transfer-Transferred complete true vmem image =
      let up =
        (do_upload answers.window answers.mtu (length image)
          (answers.vmem_upload vmem.vaddr image)).status in
      let compared =
        compare_crc32 success (answers.csp_crc32_memory image)
          (answers.vmem_client_calc_crc32 vmem.vaddr (length image)) in
      Logs-send (Transferred true vmem image) (upload vmem.vaddr image ∷ []) _ (
        Logs-bind (Succeeded up)
          (λ r es. Transferred true vmem image r (upload vmem.vaddr image ∷ es)) (succeeds up) _
          (succeeds-Succeeded up)
          (λ a es p.
            Logs-last (λ r es'. Transferred true vmem image r (upload vmem.vaddr image ∷ es ++ es'))
              (pure compared) (λ w. refl)
              (λ w. (
                rw (p.0) refl,
                λ e. cc,
                λ e. compare_crc32-IsVerified vmem image (p.2 a refl) (done-eq-done e),
                λ e. cc,
              )))
          (λ s es p.
            (rw (p.0) refl, λ e. cc, λ e. absurd (cc), λ e. p.3 (ap stop (stop-eq-stop e))))
          (λ es p. absurd (p.1 refl)))
  transfer-Transferred complete false vmem image =
      let verify =
        upload_and_verify-success answers.window answers.mtu (answers.vmem_upload vmem.vaddr image)
          (answers.vmem_download vmem.vaddr (length image)) image
          (complete vmem.vaddr (length image)) in
      Logs-send (Transferred false vmem image) (upload vmem.vaddr image ∷ []) _ (λ w.
        ([], sym (append-nil w.events), (refl, λ e. cc, λ e. verify.0 (done-eq-done e), λ e. cc)))
