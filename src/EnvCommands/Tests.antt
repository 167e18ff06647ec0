-- ===== src/EnvCommands/Tests.antt =====
-- slash_env_var_cmds.c on small inputs.
use csh.Prelude.{◌≡◌, refl, Bytes, codes, bytes_eq, some, List, [], ◌∷◌}
use csh.Environment.{Env}
use csh.EnvCommands.Completer.{prefix_length, is_match}
use csh.EnvCommands.Completer.Prefix.{matching, completed}

abbrev vars : Env
vars =
    record { name = codes "CMD"; value = codes "list" }
    ∷ record { name = codes "TIME"; value = codes "20" }
    ∷ []

abbrev names : List Bytes
names = codes "ABC" ∷ codes "AXX" ∷ codes "ABD" ∷ []

completed-names : completed (matching (codes "A") names) ≡ (some (codes "ABC"), 2)
unfolding prefix_length is_match bytes_eq
completed-names = refl

abbrev two_names : List Bytes
two_names = codes "CMD" ∷ codes "TIME" ∷ codes "CMP" ∷ []
