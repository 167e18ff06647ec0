-- ===== src/RequireCommand.antt =====
-- src/require_version_cmd.c: the command that checks the shell's version for a script.
pub mod Outcome
mod Tests
use csh.Prelude.{
  ℕ, ◌+◌, Bytes, codes, Option, none, some, List, [], ◌∷◌, ◌++◌, Bool, true, false, ◌&&◌, ◌||◌, not,
  if◌then◌else◌, ◌==◌, leb, length,
}
use csh.Slash.{Status, success, einval, ebreak, exit, argument}
use csh.Version.{Version}
use csh.Version.Parse.{parse_version}
use csh.Version.Constraint.{compare_version}

-- `tolower`
abbrev pub tolower : ℕ → ℕ
tolower c = if leb b'A' c && leb c b'Z' then c + 32 else c

abbrev pub starts_nocase : Bytes → Bytes → Bool
starts_nocase [] text = true
starts_nocase (c ∷ word) [] = false
starts_nocase (c ∷ word) (d ∷ text) = tolower c == tolower d && starts_nocase word text

-- `strcasestr(haystack, needle) != NULL`
abbrev pub strcasestr : Bytes → Bytes → Bool
strcasestr [] needle = starts_nocase needle []
strcasestr (c ∷ haystack) needle = starts_nocase needle (c ∷ haystack) || strcasestr haystack needle

-- `*error_action = tolower(*error_action)`
abbrev pub lower_first : Bytes → Bytes
lower_first [] = []
lower_first (c ∷ cs) = tolower c ∷ cs

-- `err_ret`, or `none` for a word that is refused
unfoldable pub error_status : Bytes → Option Status
error_status error_action =
    if strcasestr (codes "quit") error_action
    then some exit
    else if strcasestr (codes "error") error_action
    then some ebreak
    else if strcasestr (codes "warn") error_action
    then some einval
    else none

-- what the command returns and prints
pub record Checked : Type 0 where
  pub status : Status
  pub printed : List Bytes

abbrev pub user_lines : Option Bytes → Bytes
user_lines none = []
user_lines (some user_message) = codes "\n" ++ user_message

-- from the comparison on
unfoldable pub report : Bool → Bytes → Bytes → Option Bytes → Status → Option Bool → Option Checked
report verbose version_string constraint user_message err_ret none = none
report verbose version_string constraint user_message err_ret (some false) = some (record {
  status = err_ret;
  printed =
      (27 ∷ codes "[31mVersion "
        ++ (version_string ++ (codes " does not satisfy constraint " ++ constraint)))
      ∷ user_lines user_message
      ∷ (27 ∷ codes "[0m\n")
      ∷ [];
})
report verbose version_string constraint user_message err_ret (some true) = some (record {
  status = success;
  printed =
      if verbose
      then (codes "Version "
          ++ (version_string ++ (codes " satisfies constraint " ++ (constraint ++ codes "\n"))))
        ∷ []
      else [];
})

-- from the error action on, which is known
unfoldable pub check_version : Bool → Bytes → Bytes → Option Bytes → Status → Option Checked
unfolding report
check_version verbose version_string constraint user_message err_ret =
    let (parsed, csh_version) = parse_version version_string true in
    if parsed
    then report verbose version_string constraint user_message err_ret
        (compare_version true csh_version constraint)
    else some (record {
      status = err_ret;
      printed =
          (codes "CSH is tagged with a non semver compliant version '"
            ++ (version_string ++ codes "'\n"))
          ∷ [];
    })

abbrev pub refuse : Bytes → Option Checked
refuse line = some (record { status = einval; printed = line ∷ [] })

-- What the comparison itself prints is left out. `none` is a comparison that reads memory it should not. The version is the one of the build.
unfoldable pub slash_require_version_csh_cmd : Bytes → Bool → Option ℕ → List Bytes → Option Checked
unfolding check_version error_status
slash_require_version_csh_cmd version_string verbose none argv =
    some (record { status = einval; printed = [] })
slash_require_version_csh_cmd version_string verbose (some argi) argv =
    if leb (length argv) (argi + 1)
    then refuse (codes "missing version constraint parameter\n")
    else if leb (length argv) (argi + 2)
    then refuse (codes "missing error-action parameter\n")
    else (let error_action = lower_first (argument (argi + 2) argv) in
        let user_message =
          if leb (length argv) (argi + 3) then none else some (argument (argi + 3) argv) in
        elim (error_status error_action) [
          | none ↦ refuse (
              codes "Unknown error type specfied: '"
              ++ (error_action ++ codes "'. Choices are: Quit, Error, Warn\n"))
          | some err_ret ↦
              check_version verbose version_string (argument (argi + 1) argv) user_message err_ret
        ])

-- `compiled` is the date of the build.
unfoldable pub slash_version_cmd : Bytes → Bytes → Bool → Option ℕ → Checked
slash_version_cmd version_string compiled verbose none = record { status = einval; printed = [] }
slash_version_cmd version_string compiled verbose (some argi) = record {
  status = success;
  printed =
      (if verbose then (codes "Compiled: " ++ (compiled ++ codes " ")) ∷ [] else [])
      ++ (codes "git: " ++ (version_string ++ codes "\n")) ∷ [];
}
