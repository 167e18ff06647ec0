-- ===== src/Prometheus.antt =====
-- src/prometheus.c: the buffer of metric lines that a request takes. The thread that serves requests
-- holds no lock, so a line can be added between its send and its clear: these are steps of their own.
pub mod Requests
mod Tests
use csh.Prelude.{
  ℕ, ◌+◌, ◌*◌, Bytes, codes, List, [], ◌∷◌, ◌++◌, Bool, true, false, if◌then◌else◌, ltb, length,
}
use csh.Apm.{starts}

-- `prometheus_buf` as far as `prometheus_buf_len`, and the bodies that were sent, in order
pub record Exporter : Type 0 where
  pub buf : Bytes
  pub sent : List Bytes

unfoldable pub prometheus_add : Bytes → Exporter → Exporter
prometheus_add str s =
    if ltb (length s.buf + length str) (1024 * 1024 * 10)
    then record s { buf = s.buf ++ str }
    else s

unfoldable pub prometheus_clear : Exporter → Exporter
prometheus_clear s = record s { buf = [] }

-- `strncmp(in, "GET /metrics", 12) == 0`
abbrev pub is_metrics_request : Bytes → Bool
is_metrics_request request = starts (codes "GET /metrics") request

-- the part of a round of `prometheus_exporter` up to the second send
unfoldable pub send_metrics : Bytes → Exporter → Exporter
send_metrics request s =
    if is_metrics_request request then record s { sent = s.sent ++ s.buf ∷ [] } else s

-- the part behind it, which other requests do not reach
unfoldable pub end_request : Bytes → Exporter → Exporter
unfolding prometheus_clear
end_request request s = if is_metrics_request request then prometheus_clear s else s
