-- ===== src/Version/Tests.antt =====
-- require_version.c on small inputs, and its theorems at inputs that meet their hypotheses.
use csh.Prelude.{◌++◌, ◌≡◌, refl, codes, none, some, ◌∷◌, true, false, arith}
use csh.Version.{Version}
use csh.Version.Parse.{parse_version}
use csh.Version.Constraint.{compare_version}
use csh.Version.Parse.RoundTrip.{format_version, parse_version-format_version}
use csh.Version.Constraint.Clean.{operator_text, below}
use csh.Version.Constraint.Laws.{satisfies, compare_version-satisfies, IsSmall}

abbrev v2_5_20 : Version
v2_5_20 = record { major = 2; minor = 5; patch = 20 }

parse_dash : parse_version (codes "v2.5-20+") false ≡ (true, v2_5_20)
unfolding parse_version
parse_dash = refl

parse_suffix : parse_version (codes "2.5.20-3-gabc") true ≡ (true, v2_5_20)
unfolding parse_version
parse_suffix = refl

parse_trailing_dot : (parse_version (codes "2.5.") true).0 ≡ false
unfolding parse_version
parse_trailing_dot = refl

compare_at_least : compare_version true v2_5_20 (codes ">=2.5-20") ≡ some true
unfolding compare_version
compare_at_least = refl

compare_wildcard : compare_version true v2_5_20 (codes "<2.6.*") ≡ some true
unfolding compare_version
compare_wildcard = refl

-- Three operator characters fill the array, and its text cannot be printed.
compare_three : compare_version true v2_5_20 (codes "===2") ≡ none
unfolding compare_version
compare_three = refl

parse_version-format_version_example :
    (parse_version (format_version v2_5_20) true ≡ (true, v2_5_20))
    × (parse_version (b'v' ∷ format_version v2_5_20) true ≡ (true, v2_5_20))
parse_version-format_version_example =
    parse_version-format_version v2_5_20 true (omega arith) (omega arith) (omega arith)

v2_5_20-IsSmall : IsSmall v2_5_20
v2_5_20-IsSmall = omega arith

abbrev v2_6_0 : Version
v2_6_0 = record { major = 2; minor = 6; patch = 0 }

compare_version-satisfies_example :
    compare_version true v2_5_20 (operator_text below ++ format_version v2_6_0)
    ≡ some (satisfies below v2_5_20 v2_6_0)
compare_version-satisfies_example =
    compare_version-satisfies true v2_5_20 v2_6_0 below (omega arith) (omega arith) (omega arith)
