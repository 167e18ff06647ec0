-- ===== src/SlashUtils.antt =====
-- src/slash_utils.c and src/url_utils.c: reading addresses, lengths and URLs from a command line.
pub mod Length
mod Tests
use csh.Prelude.{
  ℕ, ◌+◌, ◌-◌, ◌^◌, Bytes, codes, bytes_eq, Option, none, some, List, [], ◌∷◌, Bool, true, false,
  ◌&&◌, ◌||◌, not, if◌then◌else◌, ltb, leb, length, take,
}
use csh.Libc.{strtoul}
use csh.Slash.{Status, success, einval, eusage, argument}
use csh.KnownHosts.{at_end}
use csh.Apm.{strstr}

-- the status, the new `*argi`, and what is stored through the pointer
pub record Parsed : Type 0 where
  pub status : Status
  pub argi : ℕ
  pub stored : Option ℕ

unfoldable pub parse_vmem_address : List Bytes → ℕ → Parsed
parse_vmem_address argv argi =
    if leb (length argv) (argi + 1)
    then record { status = eusage; argi = argi + 1; stored = none }
    else (let (address, endptr) = strtoul 16 (argument (argi + 1) argv) in
        record {
          status = if at_end endptr then success else einval;
          argi = argi + 1;
          stored = some address;
        })

-- the number that `parse_length` reads, or none where it fails to parse
unfoldable pub length_of : Bytes → Option ℕ
length_of text =
    let (decimal, endptr) = strtoul 10 text in
    let (hexadecimal, endptr') = strtoul 16 text in
    if at_end endptr
    then some decimal
    else if not (at_end endptr') || not (bytes_eq (take 2 text) (codes "0x"))
    then none
    else some hexadecimal

unfoldable pub parse_length : List Bytes → ℕ → Parsed
unfolding length_of
parse_length argv argi =
    if leb (length argv) (argi + 1)
    then record { status = einval; argi = argi + 1; stored = none }
    else elim (length_of (argument (argi + 1) argv)) [
      | none ↦ record { status = eusage; argi = argi + 1; stored = none }
      | some length64 ↦
          if ltb (2 ^ 32 - 1) length64
          then record { status = einval; argi = argi + 1; stored = none }
          else record { status = success; argi = argi + 1; stored = some length64 }
    ]

-- A null pointer is `none`.
unfoldable pub is_http_url : Option Bytes → Bool
unfolding strstr
is_http_url none = false
is_http_url (some input) =
    if ltb (length input) 10
    then false
    else if strstr input (codes "http://")
    then true
    else if strstr input (codes "https://")
    then not (ltb (length input) 11)
    else false
