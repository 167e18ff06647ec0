-- ===== src/VmemClient/Download/Resumed.antt =====
-- vmem_client_slash_ftp.c: what `download` leaves in the file and in the status file.
use csh.Prelude.{
  ℕ, zero, suc, ◌+◌, ◌-◌, ◌%◌, ◌^◌, ◌≤◌, ◌<◌, ◌≡◌, refl, sym, ap, ◌∙◌, ◌⊎◌, inl, inr, Bytes, codes,
  bytes_eq, bytes_eq_iff, bytes_eq_refl, Option, none, some, [], ◌∷◌, ◌++◌, append-nil, true, false,
  Bool-cases, ltb, length, length-append, take, take_all, arith,
}
use csh.Prelude.Int.{ℤ, pos, negsuc, eq_ℤ}
use csh.Libc.{starts_digit, format_u, to_int, long_max}
use csh.Libc.Decimal.{scan_number-digits, format_u-IsDecimal}
use csh.Slash.{Status, success, einval}
use csh.SlashUtils.Length.{strtoul-format_u}
use csh.VmemClient.Download.{
  Files, write_file, append_file, CspErrors, Answers, World, scanf_u, status_name, open_file,
  note_progress, save_reply, receive, download_file,
}

-- the bytes of an area of memory
abbrev pub slice : (ℕ → ℕ) → ℕ → ℕ → Bytes
slice memory address zero = []
slice memory address (suc size) = memory address ∷ slice memory (address + 1) size

pub slice_add :
    (memory : ℕ → ℕ) (address m n : ℕ)
    → slice memory address (m + n) ≡ slice memory address m ++ slice memory (address + m) n
slice_add memory address zero n =
    let e : address + 0 ≡ address = omega arith in let z : 0 + n ≡ n = omega arith in rw (e, z)
slice_add memory address (suc m) n =
    let e : address + 1 + m ≡ address + suc m = omega arith in
    let z : suc m + n ≡ suc (m + n) = omega arith in rw (z, slice_add memory (address + 1) m n, e)

pub scanf_u-format_u : (n : ℕ) → n < 2 ^ 32 → scanf_u (format_u n) ≡ some n
unfolding scanf_u
scanf_u-format_u n h =
    let le : n ≤ long_max = omega arith in
    let starts : starts_digit 10 (format_u n) ≡ true =
      rw (append-nil (format_u n)) at ((format_u-IsDecimal n le).starts []) in
    let small : n % 2 ^ 32 ≡ n = omega arith in
    rw (scan_number-digits (format_u n) starts, scanf_u) (rw (strtoul-format_u n le, small) refl)

module _ (path : Bytes) (content : Option Bytes) (files : Files) where
  pub write_file_self : write_file path content files path ≡ content
  write_file_self = rw (bytes_eq_refl path)

  pub write_file_ne :
      (p : Bytes) → bytes_eq path p ≡ false → write_file path content files p ≡ files p
  write_file_ne p e = rw e

pub append_file_self :
    (path content before : Bytes) (files : Files)
    → files path ≡ some before
    → append_file path content files path ≡ some (before ++ content)
unfolding append_file
append_file_self path content before files e = rw (bytes_eq_refl path, e)

pub append_file_ne :
    (path content p : Bytes) (files : Files)
    → bytes_eq path p ≡ false
    → append_file path content files p ≡ files p
unfolding append_file
append_file_ne path content p files e = rw e

module _ (file : Bytes) (short : length file ≤ 123) where
  pub length-status_name : length (status_name file) ≡ length file + 4
  length-status_name =
      rw (take_all 127 file (omega arith)) (omega (arith, length-append file (codes "stat")))

  status_name_fits : ltb 127 (length (status_name file)) ≡ false
  status_name_fits = rw length-status_name (ground arith)

  pub file-ne-status : bytes_eq file (status_name file) ≡ false
  file-ne-status = elim (Bool-cases (bytes_eq file (status_name file))) [
    | inl e ↦ absurd (
        omega (
          arith,
          length-status_name,
          ap (length {A = ℕ}) ((bytes_eq_iff file (status_name file)).0 e),
        ))
    | inr e ↦ e
  ]

  pub status-ne-file : bytes_eq (status_name file) file ≡ false
  status-ne-file = elim (Bool-cases (bytes_eq (status_name file) file)) [
    | inl e ↦ absurd (
        omega (
          arith,
          length-status_name,
          ap (length {A = ℕ}) ((bytes_eq_iff (status_name file) file).0 e),
        ))
    | inr e ↦ e
  ]

not_beyond : {m n : ℕ} → m ≤ n → ltb n m ≡ false
not_beyond h = ground arith

to_int_small : (n : ℕ) → n < 2 ^ 31 → to_int (pos n) ≡ pos n
unfolding to_int
to_int_small n h = ground arith

-- A download stands at an offset: nothing is noted, or the offset is noted and the file holds the bytes
-- below it.
abbrev pub StandsAt : (ℕ → ℕ) → ℕ → Bytes → ℕ → Files → Type 0
StandsAt memory address file offset files =
    ((offset ≡ 0) × (files (status_name file) ≡ none))
    ⊎ ((files (status_name file) ≡ some (format_u offset))
        × (files file ≡ some (slice memory address offset)))

-- The file holds the whole area, and nothing is noted.
abbrev pub IsComplete : (ℕ → ℕ) → ℕ → Bytes → ℕ → Files → Type 0
IsComplete memory address file size files =
    (files (status_name file) ≡ none) × (files file ≡ some (slice memory address size))

-- The library's promise: what it counts has been received, and is what the memory holds.
abbrev pub IsHonest : (ℕ → ℕ) → Answers → Type 0
IsHonest memory a =
    (address size count : ℕ)
    → (a.vmem_download address size).0 ≡ pos count
    → (count ≤ size) × (take count (a.vmem_download address size).1 ≡ slice memory address count)

-- The user resumes, and files can be opened.
abbrev pub IsResumed : Answers → Type 0
IsResumed a = (a.line ≡ codes "yes") × (a.opens ≡ true) × (a.opens_status ≡ true)

-- An error number is negative.
abbrev pub IsError : ℤ → Type 0
IsError z = (n : ℕ) → eq_ℤ (pos n) z ≡ false

-- How a download of `size` bytes from an offset ends, by the library's answer: without a connection, with
-- all bytes, or with some.
abbrev pub Ends : (ℕ → ℕ) → ℕ → ℕ → Bytes → ℕ → ℤ → Status → Files → Type 0
Ends memory address size file offset answer status files =
    ((status ≡ einval)
      × ((n : ℕ) × (answer ≡ negsuc n))
      × StandsAt memory address file offset files)
    ⊎ (((status ≡ success)
          × (answer ≡ pos (size - offset))
          × IsComplete memory address file size files)
        ⊎ ((status ≡ success)
            × ((count : ℕ) × (answer ≡ pos count)
                × (offset + count < size)
                × (files (status_name file) ≡ some (format_u (offset + count)))
                × (files file ≡ some (slice memory address (offset + count))))))

module _ (memory : ℕ → ℕ) (a : Answers) (address : ℕ) (file : Bytes)
    (short : length file ≤ 123) where
  -- the file behind it is opened
  pub open_file-StandsAt :
      IsResumed a
      → (offset : ℕ) (files : Files) → offset < 2 ^ 32
      → StandsAt memory address file offset files
      → (files' : Files) × (open_file a file files ≡ some (offset, files'))
        × (files' file ≡ some (slice memory address offset))
        × StandsAt memory address file offset files'
  unfolding open_file bytes_eq
  open_file-StandsAt (line, opens, opens') offset files h (inl (e, none_noted)) =
      let files' = write_file file (some []) files in
      let empty : files' file ≡ some (slice memory address offset) =
        rw (e, write_file_self file (some []) files) refl in
      (
        files',
        rw (none_noted, open_file) (rw (opens, e) refl),
        empty,
        inl (
          e,
          write_file_ne file (some []) files (status_name file) (file-ne-status file short)
              ∙ none_noted,
        ),
      )
  open_file-StandsAt (line, opens, opens') offset files h (inr (noted, held)) =
      let files' = append_file file [] files in
      let same : files' file ≡ some (slice memory address offset) =
        append_file_self file [] (slice memory address offset) files held
        ∙ ap some (append-nil (slice memory address offset)) in
      let noted' : files' (status_name file) ≡ some (format_u offset) =
        append_file_ne file [] (status_name file) files (file-ne-status file short) ∙ noted in
      (
        files',
        rw (noted, open_file) (rw (scanf_u-format_u offset h, opens, line) refl),
        same,
        inr (noted', same),
      )

  module _ (c : CspErrors) (timedout : IsError c.timedout) (nobufs : IsError c.nobufs) where
    -- from the reply on, with the bytes below the offset in the file
    save_reply-Ends :
        IsResumed a
        → (size offset : ℕ) → offset ≤ size
        → size < 2 ^ 31
        → (w : World) → w.files file ≡ some (slice memory address offset)
        → StandsAt memory address file offset w.files
        → (answer : ℤ) (reply : Bytes)
        → ((count : ℕ)
            → answer ≡ pos count
            → (count ≤ size - offset) × (take count reply ≡ slice memory (address + offset) count))
        → Ends memory address size file offset answer
            (save_reply c a file (size - offset) offset answer reply w).0
            (save_reply c a file (size - offset) offset answer reply w).1.files
    unfolding save_reply note_progress
    save_reply-Ends resumed size offset le small w held stands (negsuc n) reply honest =
        inl (refl, (n, refl), stands)
    save_reply-Ends (line, opens, opens') size offset le small w held stands (pos count) reply
          honest =
        let (bound, same) = honest count refl in
        let files = append_file file (take count reply) w.files in
        let more : files file ≡ some (slice memory address (offset + count)) =
          append_file_self file (take count reply) (slice memory address offset) w.files held
          ∙ ap (λ (s : Bytes). some (slice memory address offset ++ s)) same
          ∙ ap some (sym (slice_add memory address offset count)) in
        let left = to_int_small (size - offset) (omega arith) in
        rw (timedout count) (
          rw (nobufs count) (
            rw left (elim (Bool-cases (eq_ℤ (pos count) (pos (size - offset)))) [
              | inl all ↦ rw all (
                  let whole : offset + count ≡ size = ground arith in
                  inr (
                    inl (
                      refl,
                      ap pos (ground arith),
                      (
                        write_file_self (status_name file) none files,
                        write_file_ne (status_name file) none files file (status-ne-file file short)
                            ∙ more
                            ∙ ap (λ (n : ℕ). some (slice memory address n)) whole,
                      ),
                    )))
              | inr part ↦
                  rw (part, opens')
                    (let n = (count + offset) % 2 ^ 32 in
                      let sum : n ≡ offset + count = omega arith in
                      let note = some (format_u n) in
                      inr (
                        inr (
                          refl,
                          (
                            count,
                            refl,
                            ground arith,
                            write_file_self (status_name file) note files
                                ∙ ap (λ (n : ℕ). some (format_u n)) sum,
                            write_file_ne (status_name file) note files file
                                  (status-ne-file file short)
                                ∙ more,
                          ),
                        )))
            ])))

    -- `download` from the name of the file on
    pub download_file-Ends :
        IsHonest memory a
        → IsResumed a
        → (size offset : ℕ) → offset ≤ size
        → size < 2 ^ 31
        → address + size < 2 ^ 64
        → (w : World) → StandsAt memory address file offset w.files
        → (status : Status) × (w' : World) × (download_file c a address size file w
            ≡ some (status, w'))
          × Ends memory address size file offset
              (a.vmem_download (address + offset) (size - offset)).0
              status
              w'.files
    unfolding download_file receive
    download_file-Ends honest resumed size offset le small room w stands =
        let (files', opened, held, stands') =
          open_file-StandsAt resumed offset w.files (omega arith) stands in
        let w' = record w { files = files' } in
        let at = address + offset in
        let (answer, reply) = a.vmem_download at (size - offset) in
        let at' : (address + offset) % 2 ^ 64 ≡ at = omega arith in
        let end = save_reply c a file (size - offset) offset answer reply w' in
        (
          end.0,
          end.1,
          rw (status_name_fits file short)
              (rw (opened, download_file) (rw (at', not_beyond le) refl)),
          save_reply-Ends resumed size offset le small w' held stands' answer reply
              (honest at (size - offset)),
        )
