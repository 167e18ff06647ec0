-- ===== src/RequireCommand/Tests.antt =====
-- require_version_cmd.c on small inputs.
use csh.Prelude.{◌≡◌, refl, codes, some, [], ◌∷◌, ◌++◌, false, arith}
use csh.Slash.{ebreak, exit}
use csh.Version.{Version}
use csh.Version.Parse.RoundTrip.{format_version}
use csh.Version.Constraint.Clean.{operator_text, at_least}
use csh.RequireCommand.{error_status, lower_first, slash_require_version_csh_cmd}
use csh.RequireCommand.Outcome.{status_of, require_version-satisfies}

abbrev v2_5_20 : Version
v2_5_20 = record { major = 2; minor = 5; patch = 20 }

abbrev v2_6_1 : Version
v2_6_1 = record { major = 2; minor = 6; patch = 1 }

action : error_status (lower_first (codes "E")) ≡ some ebreak
unfolding error_status
action = refl

-- an empty word is taken for "quit"
no_action : error_status (lower_first []) ≡ some exit
unfolding error_status
no_action = refl

require_version-satisfies_example :
    status_of (
      slash_require_version_csh_cmd
        (format_version v2_5_20)
        false
        (some 0)
        (codes "csh" ∷ (operator_text at_least ++ format_version v2_6_1) ∷ codes "E" ∷ []))
    ≡ some ebreak
require_version-satisfies_example =
    require_version-satisfies false v2_5_20 v2_6_1 at_least (codes "csh") (codes "E") ebreak
      (omega arith) (omega arith) (record { minor = omega arith; patch = omega arith })
      (record { minor = omega arith; patch = omega arith }) action
