-- ===== src/VmemClient/Download/Runs.antt =====
-- vmem_client_slash_ftp.c: the command `download`, and its runs until the area is complete.
use csh.Prelude.{
  ℕ, ◌+◌, ◌-◌, ◌^◌, ◌≤◌, ◌<◌, ◌≡◌, ◌∙◌, ap, inl, inr, Bytes, none, some, List, [], ◌∷◌, false, leb,
  length, All, arith,
}
use csh.Prelude.Int.{pos}
use csh.KnownHosts.{at_end}
use csh.Libc.{strtoul}
use csh.Slash.{Status, success, argument}
use csh.SlashUtils.{parse_length}
use csh.VmemClient.Rdp.{rdp_opt_add, rdp_opt_set}
use csh.VmemClient.Download.{
  CspErrors, Answers, World, status_name, download_file, download_length, slash_download,
}
use csh.VmemClient.Download.Resumed.{
  StandsAt, IsComplete, IsHonest, IsResumed, IsError, Ends, download_file-Ends,
}

-- a command line with an address, a length and a file
pub record IsCommand (argv : List Bytes) (argi address size : ℕ) (file : Bytes) : Type 0 where
  pub has_address : argi + 1 < length argv
  pub address_read : strtoul 16 (argument (argi + 1) argv) ≡ (address, [])
  pub size_read :
      parse_length argv (argi + 1)
      ≡ record { status = success; argi = argi + 2; stored = some size }
  pub has_file : argi + 3 < length argv
  pub file_given : argument (argi + 3) argv ≡ file

module _ (c : CspErrors) (timedout : IsError c.timedout) (nobufs : IsError c.nobufs)
    (memory : ℕ → ℕ) (argv : List Bytes) (argi address size : ℕ) (file : Bytes)
    (command : IsCommand argv argi address size file) (short : length file ≤ 123)
    (small : size < 2 ^ 31) (room : address + size < 2 ^ 64) where
  slash_download_parsed :
      (a : Answers) (w : World)
      → slash_download c a (some argi) argv w
        ≡ download_file c a address size file
            (record w { rdp = rdp_opt_set (rdp_opt_add a.stored w.rdp) })
  unfolding slash_download download_length at_end
  slash_download_parsed a w =
      let w' = record w { rdp = rdp_opt_set (rdp_opt_add a.stored w.rdp) } in
      let there : leb (length argv) (argi + 1) ≡ false = ground (arith, command.has_address) in
      let there' : leb (length argv) ((parse_length argv (argi + 1)).argi + 1) ≡ false =
        rw (command.size_read) (ground (arith, command.has_file)) in
      let last : argi + 2 + 1 ≡ argi + 3 = omega arith in
      let given : argument ((parse_length argv (argi + 1)).argi + 1) argv ≡ file =
        rw (command.size_read) (rw last (command.file_given)) in
      rw (command.address_read) (
        rw there (
          rw (command.size_read, download_length)
            (rw there' (ap (λ (f : Bytes). download_file c a address size f w') given))))

  -- A user's answer that resumes, with files that open, by a library that keeps its promise, for an area below 2^31
  -- bytes that ends in the address space and a file whose name has at most 123 bytes: `download` of an area that stands at an offset asks for the rest of the area. Without a connection it fails and stands
  -- there still; with all bytes it succeeds, the file is the area, and no status file is left; with fewer it
  -- succeeds too, and stands behind the bytes that were received.
  pub slash_download-Ends :
      (a : Answers)
      → IsHonest memory a
      → IsResumed a
      → (offset : ℕ) → offset ≤ size
      → (w : World) → StandsAt memory address file offset w.files
      → (status : Status) × (w' : World) × (slash_download c a (some argi) argv w
          ≡ some (status, w'))
        × Ends memory address size file offset
            (a.vmem_download (address + offset) (size - offset)).0
            status
            w'.files
  slash_download-Ends a honest resumed offset le w stands =
      let (status, w', e, ends) =
        download_file-Ends memory a address file short c timedout nobufs honest resumed size offset
          le small room (record w { rdp = rdp_opt_set (rdp_opt_add a.stored w.rdp) }) stands in
      (status, w', slash_download_parsed a w ∙ e, ends)

-- The user repeats the command while a status file is left.
pub resume_downloads : CspErrors → ℕ → List Bytes → Bytes → List Answers → World → World
resume_downloads c argi argv file [] w = w
resume_downloads c argi argv file (a ∷ runs) w = elim (slash_download c a (some argi) argv w) [
  | none ↦ w
  | some (status, w') ↦ elim (w'.files (status_name file)) [
    | none ↦ w'
    | some noted ↦ resume_downloads c argi argv file runs w'
  ]
]

-- A run that receives at least one of the bytes it asks for.
abbrev pub Receives : Answers → Type 0
Receives a =
    (address size : ℕ)
    → 0 < size
    → (count : ℕ) × ((a.vmem_download address size).0 ≡ pos count) × (0 < count)

abbrev pub GoodRun : (ℕ → ℕ) → Answers → Type 0
GoodRun memory a = IsHonest memory a × IsResumed a × Receives a

module _ (c : CspErrors) (timedout : IsError c.timedout) (nobufs : IsError c.nobufs)
    (memory : ℕ → ℕ) (argv : List Bytes) (argi address size : ℕ) (file : Bytes)
    (command : IsCommand argv argi address size file) (short : length file ≤ 123)
    (small : size < 2 ^ 31) (room : address + size < 2 ^ 64) where
  -- For an area below 2^31 bytes that ends in the address space, and a file whose name has at most 123 bytes: let
  -- every run of `download` open its files, and the user answer each question of a resume with yes; let the library
  -- count only bytes that it has received from the memory, no more than it was asked for, and in each run at least
  -- one. From no status file, or one that counts just the bytes in the file, as many runs as bytes are missing
  -- leave the whole area in the file, and no status file.
  pub resume_downloads-IsComplete :
      (runs : List Answers)
      → All (GoodRun memory) runs
      → (offset : ℕ) → offset < size
      → size - offset ≤ length runs
      → (w : World) → StandsAt memory address file offset w.files
      → IsComplete memory address file size (resume_downloads c argi argv file runs w).files
  unfolding resume_downloads
  resume_downloads-IsComplete [] good offset lt enough w stands = absurd (omega arith)
  resume_downloads-IsComplete (a ∷ runs) ((honest, resumed, receives), good) offset lt enough w
        stands =
      let (status, w', e, ends) =
        slash_download-Ends c timedout nobufs memory argv argi address size file command short small
          room a honest resumed offset (omega arith) w stands in
      let (count, got, some_byte) = receives (address + offset) (size - offset) (omega arith) in
      rw (e, resume_downloads)
        (elim ends [
          | inl (failed, (n, none_got), there) ↦ absurd (cc)
          | inr (inl (done, all, complete)) ↦ rw (complete.0, resume_downloads) complete
          | inr (inr (done, (count', got', less, noted, held))) ↦
              rw (noted, resume_downloads)
                (resume_downloads-IsComplete runs good (offset + count') less (ground arith) w'
                  (inr (noted, held)))
        ])
