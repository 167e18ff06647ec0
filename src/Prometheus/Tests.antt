-- ===== src/Prometheus/Tests.antt =====
-- prometheus.c on small inputs.
use csh.Prelude.{codes, List, [], ◌∷◌}
use csh.Prometheus.{Exporter}
use csh.Prometheus.Requests.{Turn, add, request}

abbrev waiting : Exporter
waiting = record { buf = codes "a 1\n"; sent = [] }

abbrev turns : List Turn
turns = add (codes "b 2\n") ∷ request (codes "GET /metrics HTTP/1.1") ∷ add (codes "c 3\n") ∷ []
