-- ===== src/RequireCommand/Outcome.antt =====
-- require_version_cmd.c: what the command decides.
use csh.Prelude.{
  ◌<◌, ◌^◌, ◌≡◌, refl, Bytes, Option, none, some, [], ◌∷◌, ◌++◌, Bool, true, false, if◌then◌else◌,
  arith,
}
use csh.Slash.{Status, success}
use csh.Version.{Version}
use csh.Version.Parse.RoundTrip.{format_version, parse_version-format_version}
use csh.Version.Constraint.{compare_version}
use csh.Version.Constraint.Clean.{Operator, operator_text}
use csh.Version.Constraint.Laws.{IsSmall, satisfies, compare_version-satisfies}
use csh.RequireCommand.{
  Checked, error_status, lower_first, report, check_version, slash_require_version_csh_cmd,
}

-- the status alone
abbrev pub status_of : Option Checked → Option Status
status_of none = none
status_of (some c) = some c.status

report-status :
    (verbose : Bool) (text constraint : Bytes) (message : Option Bytes) (err_ret : Status)
    (holds : Bool)
    → status_of (report verbose text constraint message err_ret (some holds))
      ≡ some (if holds then success else err_ret)
unfolding report
report-status verbose text constraint message err_ret true = refl
report-status verbose text constraint message err_ret false = refl

check_version-status :
    (verbose : Bool) (v : Version) (constraint : Bytes) (message : Option Bytes) (err_ret : Status)
    (holds : Bool)
    → v.major < 10 ^ 9
    → IsSmall v
    → compare_version true v constraint ≡ some holds
    → status_of (check_version verbose (format_version v) constraint message err_ret)
      ≡ some (if holds then success else err_ret)
unfolding check_version
check_version-status verbose v constraint message err_ret holds big small h =
    let parsed = parse_version-format_version v true (omega arith) (omega arith) (omega arith) in
    let text = format_version v in
    rw parsed.0 (rw h (report-status verbose text constraint message err_ret holds))

-- For a build of version v and the constraint of an operator and a version c, majors below 10^9 and
-- all other parts below 1000, `require version csh` with a known error action succeeds if v satisfies
-- the constraint in the order of versions, and otherwise returns the status of that action.
pub require_version-satisfies :
    (verbose : Bool) (v c : Version) (op : Operator) (command action : Bytes) (err_ret : Status)
    → v.major < 10 ^ 9
    → c.major < 10 ^ 9
    → IsSmall v
    → IsSmall c
    → error_status (lower_first action) ≡ some err_ret
    → status_of (
        slash_require_version_csh_cmd
          (format_version v)
          verbose
          (some 0)
          (command ∷ (operator_text op ++ format_version c) ∷ action ∷ []))
      ≡ some (if satisfies op v c then success else err_ret)
unfolding slash_require_version_csh_cmd
require_version-satisfies verbose v c op command action err_ret big big' small small' known =
    rw known (
      check_version-status verbose v (operator_text op ++ format_version c) none err_ret
        (satisfies op v c) big small (compare_version-satisfies true v c op big' small small'))
