-- ===== src/VmemClient/Download.antt =====
-- vmem_client_slash_ftp.c: `download`, which keeps how far it came in a status file and resumes there. Files
-- are written in full, and the buffer for the reply is allocated.
pub mod Resumed
pub mod Runs
use csh.Prelude.{
  ℕ, ◌+◌, ◌-◌, ◌%◌, ◌^◌, Bytes, codes, bytes_eq, Option, none, some, List, [], ◌++◌, Bool, true,
  false, if◌then◌else◌, ltb, leb, length, take,
}
use csh.Prelude.Int.{ℤ, pos, negsuc, eq_ℤ}
use csh.KnownHosts.{at_end}
use csh.Libc.{strtoul, scan_number, format_u, to_int}
use csh.Slash.{Status, success, einval, eusage, eio, enomem, argument}
use csh.SlashUtils.{Parsed, parse_length}
use csh.VmemClient.Rdp.{Rdp, RdpOptions, rdp_opt_add, rdp_opt_set, rdp_opt_reset}

-- the files by their paths
abbrev pub Files : Type 0
Files = Bytes → Option Bytes

abbrev pub write_file : Bytes → Option Bytes → Files → Files
write_file path content files p = if bytes_eq path p then content else files p

-- what is appended to a file that may be new
unfoldable pub append_file : Bytes → Bytes → Files → Files
append_file path content files =
    write_file path
      (elim (files path) [ none ↦ some content | some before ↦ some (before ++ content) ]) files

-- The error numbers of the CSP library.
pub record CspErrors : Type 0 where
  pub timedout : ℤ
  pub nobufs : ℤ

-- What stands outside: the option parser, whether files can be opened, the line that the user types, and
-- `vmem_download`, with the bytes that the buffer then holds.
pub record Answers : Type 0 where
  pub stored : RdpOptions → RdpOptions
  pub opens : Bool
  pub opens_status : Bool
  pub line : Bytes
  pub vmem_download : ℕ → ℕ → ℤ × Bytes

pub record World : Type 0 where
  pub files : Files
  pub rdp : Rdp

-- `fscanf` with `%u`
unfoldable pub scanf_u : Bytes → Option ℕ
scanf_u text = elim (scan_number 10 text) [
  | none ↦ none
  | some n ↦ some ((strtoul 10 text).0 % 2 ^ 32)
]

-- `file_status`: at most 127 bytes of the name
abbrev pub status_name : Bytes → Bytes
status_name file = take 127 file ++ codes "stat"

-- the offset to go on from, and the files when the file is opened; none for an early return
unfoldable pub open_file : Answers → Bytes → Files → Option (ℕ × Files)
unfolding scanf_u append_file
open_file a file files = elim (files (status_name file)) [
  | none ↦ if a.opens then some (0, write_file file (some []) files) else none
  | some text ↦ elim (scanf_u text) [
    | none ↦ none
    | some offset ↦
        if a.opens
        then (if bytes_eq a.line (codes "yes")
            then some (offset, append_file file [] files)
            else some (0, write_file file (some []) files))
        else none
  ]
]

-- The status file, behind `count` bytes of the `left` that were asked for.
unfoldable pub note_progress : Answers → Bytes → ℕ → ℕ → ℕ → Files → Files
note_progress a file left offset count files =
    if eq_ℤ (pos count) (to_int (pos left))
    then write_file (status_name file) none files
    else if a.opens_status
    then write_file (status_name file) (some (format_u ((count + offset) % 2 ^ 32))) files
    else files

-- from the reply on
unfoldable pub save_reply : CspErrors → Answers → Bytes → ℕ → ℕ → ℤ → Bytes → World → Status × World
unfolding append_file note_progress rdp_opt_reset
save_reply c a file left offset (negsuc n) reply w = (einval, w)
save_reply c a file left offset (pos count) reply w =
    let files = append_file file (take count reply) w.files in
    let rdp = rdp_opt_reset w.rdp in
    if eq_ℤ (pos count) c.timedout
    then (eio, record w { files = files; rdp = rdp })
    else if eq_ℤ (pos count) c.nobufs
    then (enomem, record w { files = files; rdp = rdp })
    else (success, record w { files = note_progress a file left offset count files; rdp = rdp })

-- from the test of the offset on
unfoldable pub receive : CspErrors → Answers → ℕ → ℕ → Bytes → ℕ → World → Status × World
unfolding save_reply
receive c a address size file offset w =
    let (count, reply) = a.vmem_download ((address + offset) % 2 ^ 64) (size - offset) in
    if ltb size offset
    then (einval, w)
    else save_reply c a file (size - offset) offset count reply w

-- from the name of the file on; none for a write beyond `file_status`
unfoldable pub download_file : CspErrors → Answers → ℕ → ℕ → Bytes → World → Option (Status × World)
unfolding open_file receive
download_file c a address size file w =
    if ltb 127 (length (status_name file)) then none else elim (open_file a file w.files) [
      | none ↦ some (einval, w)
      | some (offset, files) ↦
          some (receive c a address size file offset (record w { files = files }))
    ]

-- from the length on, whose argument is the one behind `argi`
unfoldable pub download_length :
    CspErrors → Answers → List Bytes → ℕ → ℕ → World → Option (Status × World)
unfolding download_file parse_length
download_length c a argv argi address w =
    let parsed = parse_length argv argi in
    elim parsed.stored [
      | none ↦ some (parsed.status, w)
      | some size ↦
          if leb (length argv) (parsed.argi + 1)
          then some (einval, w)
          else download_file c a address size (argument (parsed.argi + 1) argv) w
    ]

unfoldable pub slash_download :
    CspErrors → Answers → Option ℕ → List Bytes → World → Option (Status × World)
unfolding download_length rdp_opt_add rdp_opt_set
slash_download c a none argv w = some (einval, record w { rdp = rdp_opt_add a.stored w.rdp })
slash_download c a (some argi) argv w =
    let w' = record w { rdp = rdp_opt_set (rdp_opt_add a.stored w.rdp) } in
    let (address, endptr) = strtoul 16 (argument (argi + 1) argv) in
    if leb (length argv) (argi + 1)
    then some (einval, w')
    else if at_end endptr
    then download_length c a argv (argi + 1) address w'
    else some (eusage, w')
