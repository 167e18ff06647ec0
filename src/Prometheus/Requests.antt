-- ===== src/Prometheus/Requests.antt =====
-- prometheus.c: the lines over requests, and a line that is added during one.
use csh.Prelude.{
  ◌+◌, ◌*◌, ◌≡◌, refl, ◌∙◌, sym, ap, Bytes, List, [], ◌∷◌, ◌++◌, append-nil, append_assoc, true,
  if◌then◌else◌, ltb, length, Bool-cases, inl, inr,
}
use csh.Metrics.Delivery.{concat, concat-snoc}
use csh.Prometheus.{
  Exporter, prometheus_add, prometheus_clear, is_metrics_request, send_metrics, end_request,
}

-- A line that is added, or a request that is served with no line added meanwhile.
pub data Turn : Type 0 where
  add : Bytes → Turn
  request : Bytes → Turn

abbrev pub run_turn : Turn → Exporter → Exporter
run_turn (add str) s = prometheus_add str s
run_turn (request text) s = end_request text (send_metrics text s)

abbrev pub run_turns : List Turn → Exporter → Exporter
run_turns [] s = s
run_turns (t ∷ ts) s = run_turns ts (run_turn t s)

abbrev pub output : Exporter → Bytes
output s = concat s.sent ++ s.buf

-- the bytes that are taken in: the line, if it fits when it is added
abbrev pub taken_in : Turn → Exporter → Bytes
taken_in (add str) s = if ltb (length s.buf + length str) (1024 * 1024 * 10) then str else []
taken_in (request text) s = []

abbrev pub taken_turns : List Turn → Exporter → Bytes
taken_turns [] s = []
taken_turns (t ∷ ts) s = taken_in t s ++ taken_turns ts (run_turn t s)

output-turn : (t : Turn) (s : Exporter) → output (run_turn t s) ≡ output s ++ taken_in t s
unfolding prometheus_add prometheus_clear send_metrics end_request
output-turn (add str) s = elim (Bool-cases (ltb (length s.buf + length str) (1024 * 1024 * 10))) [
  | inl room ↦ rw room (sym (append_assoc (concat s.sent) s.buf str))
  | inr full ↦ rw full (sym (append-nil (output s)))
]
output-turn (request text) s = elim (Bool-cases (is_metrics_request text)) [
  | inl metrics ↦ rw metrics (ap (λ t. t ++ []) (concat-snoc s.sent s.buf))
  | inr other ↦ rw other (sym (append-nil (output s)))
]

-- Over any lines and requests, when no line is added during a request: what was sent followed by what
-- waits is what was there before followed by the lines that were taken in, each once and in order.
pub run_turns-output :
    (ts : List Turn) (s : Exporter) → output (run_turns ts s) ≡ output s ++ taken_turns ts s
run_turns-output [] s = sym (append-nil (output s))
run_turns-output (t ∷ ts) s =
    run_turns-output ts (run_turn t s)
    ∙ ap (λ x. x ++ taken_turns ts (run_turn t s)) (output-turn t s)
    ∙ append_assoc (output s) (taken_in t s) (taken_turns ts (run_turn t s))

-- A line that is added between the send and the clear of a request for the metrics has no effect: the
-- state is the one without that line.
pub prometheus_add_lost :
    (text str : Bytes) (s : Exporter)
    → is_metrics_request text ≡ true
    → end_request text (prometheus_add str (send_metrics text s))
      ≡ end_request text (send_metrics text s)
unfolding prometheus_add prometheus_clear send_metrics end_request
prometheus_add_lost text str s h =
    elim (Bool-cases (ltb (length s.buf + length str) (1024 * 1024 * 10))) [
      | inl room ↦ rw (h, room) refl
      | inr full ↦ rw (h, full) refl
    ]
