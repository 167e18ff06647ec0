-- ===== src/VmemClient/Upload.antt =====
-- vmem_client_slash_ftp.c: `upload`, which suggests where to resume, and `crc32`. A file below 2^63 bytes.
pub mod Suggested
use csh.Prelude.{
  ℕ, ◌+◌, ◌-◌, ◌*◌, ◌%◌, ◌^◌, Bytes, Option, none, some, List, Bool, if◌then◌else◌, ltb, leb, ◌==◌,
  length, drop,
}
use csh.Prelude.Int.{ℤ, pos, negsuc, ◌+ℤ◌, eq_ℤ}
use csh.KnownHosts.{at_end}
use csh.Libc.{strtoul}
use csh.Locks.{to_uint32}
use csh.Slash.{Status, success, einval, eusage, eio, enomem, argument}
use csh.VmemClient.Rdp.{RdpOptions, Rdp, rdp_opt_add, rdp_opt_set, rdp_opt_reset}
use csh.VmemClient.Download.{CspErrors, World}

-- The option parser, the option for the offset, and `vmem_upload` with VMEM_SERVER_MTU.
pub record UploadAnswers : Type 0 where
  pub stored : RdpOptions → RdpOptions
  pub offset : ℕ
  pub vmem_upload : ℕ → Bytes → ℤ
  pub mtu : ℕ

-- the status, the offset that is suggested, what was uploaded to which address, and the state
pub record Uploaded : Type 0 where
  pub status : Status
  pub suggested : Option ℕ
  pub sent : Option (ℕ × Bytes)
  pub world : World

-- for `reached` bytes of the file, and a window with `window` bytes; both are unsigned int
abbrev pub suggested_offset : ℕ → ℕ → ℕ
suggested_offset reached window = if ltb window reached then reached - window else 0

unfoldable pub upload_end : CspErrors → UploadAnswers → ℕ → Bytes → ℤ → World → Uploaded
unfolding ◌+ℤ◌ rdp_opt_reset
upload_end c a address bytes count w =
    let window = (w.rdp.csp.window + 1) * a.mtu % 2 ^ 32 in
    let reached = to_uint32 (pos a.offset +ℤ count) in
    let ran : Status → Option ℕ → Uploaded = λ s o. record {
      status = s;
      suggested = o;
      sent = some (address, bytes);
      world = record w { rdp = rdp_opt_reset w.rdp };
    } in
    if eq_ℤ count c.timedout
    then ran eio none
    else if eq_ℤ count c.nobufs
    then ran enomem none
    else if eq_ℤ count (pos (length bytes))
    then ran success none
    else ran eio (some (suggested_offset reached window))

abbrev refused : Status → World → Uploaded
refused s w = record { status = s; suggested = none; sent = none; world = w }

-- from the test of the file on
unfoldable pub upload_file : CspErrors → UploadAnswers → Option Bytes → ℕ → World → Uploaded
unfolding upload_end
upload_file c a none address w = refused einval w
upload_file c a (some content) address w =
    let bytes = drop a.offset content in
    let to = (address + a.offset) % 2 ^ 64 in upload_end c a to bytes (a.vmem_upload to bytes) w

unfoldable pub slash_upload : CspErrors → UploadAnswers → Option ℕ → List Bytes → World → Uploaded
unfolding upload_file rdp_opt_add rdp_opt_set
slash_upload c a none argv w = refused einval (record w { rdp = rdp_opt_add a.stored w.rdp })
slash_upload c a (some argi) argv w =
    let w' = record w { rdp = rdp_opt_set (rdp_opt_add a.stored w.rdp) } in
    let (address, endptr) = strtoul 16 (argument (argi + 2) argv) in
    if leb (length argv) (argi + 1)
    then refused einval w'
    else if leb (length argv) (argi + 2)
    then refused einval w'
    else if at_end endptr
    then upload_file c a (w'.files (argument (argi + 1) argv)) address w'
    else refused eusage w'

-- What stands outside of `crc32`: its file, an allocation, the checksum of bytes, and the node's answer.
pub record CrcAnswers : Type 0 where
  pub file : Option Bytes
  pub allocates : Bool
  pub csp_crc32_memory : Bytes → ℕ
  pub vmem_client_calc_crc32 : ℕ → ℕ → ℤ × ℕ

-- the status, and whether the checksums were reported as equal
abbrev pub Crc32Ran : Type 0
Crc32Ran = Status × Option Bool

-- from the request on: `-1` and `-2` of the library have a status of their own
unfoldable pub crc32_end : CrcAnswers → ℕ → ℕ → Option ℕ → Crc32Ran
crc32_end a address size crc_file =
    let (res, crc) = a.vmem_client_calc_crc32 address size in
    (
      if eq_ℤ res (negsuc 0) then enomem else if eq_ℤ res (negsuc 1) then eio else success,
      elim crc_file [ none ↦ none | some expected ↦ some (expected == crc) ],
    )

-- the length of the command line, in base 10 or 16
unfoldable pub crc32_length : CrcAnswers → List Bytes → ℕ → ℕ → Crc32Ran
unfolding crc32_end
crc32_length a argv argi address =
    let (decimal, endptr) = strtoul 10 (argument argi argv) in
    let (hexadecimal, endptr') = strtoul 16 (argument argi argv) in
    if leb (length argv) argi
    then (einval, none)
    else if at_end endptr
    then crc32_end a address (decimal % 2 ^ 32) none
    else if at_end endptr'
    then crc32_end a address (hexadecimal % 2 ^ 32) none
    else (eusage, none)

-- with a file, which is read in full if its size is an unsigned int
unfoldable pub crc32_file : CrcAnswers → Option Bytes → ℕ → Crc32Ran
unfolding crc32_end
crc32_file a none address = (einval, none)
crc32_file a (some content) address =
    if a.allocates
    then (if ltb (length content) (2 ^ 32)
        then crc32_end a address (length content) (some (a.csp_crc32_memory content))
        else (einval, none))
    else (enomem, none)

unfoldable pub slash_crc32 : CrcAnswers → Option ℕ → List Bytes → World → Crc32Ran
unfolding crc32_length crc32_file
slash_crc32 a none argv w = (einval, none)
slash_crc32 a (some argi) argv w =
    let (address, endptr) = strtoul 16 (argument (argi + 1) argv) in
    if leb (length argv) (argi + 1)
    then (einval, none)
    else if at_end endptr
    then elim a.file [
      | none ↦ crc32_length a argv (argi + 2) address
      | some file ↦ crc32_file a (w.files file) address
    ]
    else (eusage, none)
