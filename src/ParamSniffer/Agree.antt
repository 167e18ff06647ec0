-- ===== src/ParamSniffer/Agree.antt =====
-- param_sniffer.c: what the sinks have behind a text that they are given.
use csh.Prelude.{
  ◌+◌, ◌*◌, ◌≤◌, ◌<◌, ◌≡◌, refl, ap, Bytes, Option, none, some, [], ◌++◌, append-nil, append_assoc,
  Bool, true, false, if◌then◌else◌, lt→ltb, length, length-append, arith,
}
use csh.Metrics.{Push, vm_add, buffer_size}
use csh.Prometheus.{Exporter, prometheus_add}
use csh.ParamSniffer.{Sinks, give}

-- A text behind the one that a running sink has.
abbrev pub vm_given : Bool → Bytes → Push → Push
vm_given true text p = record p { buffer = p.buffer ++ text }
vm_given false text p = p

abbrev pub prometheus_given : Bool → Bytes → Exporter → Exporter
prometheus_given true text p = record p { buf = p.buf ++ text }
prometheus_given false text p = p

abbrev pub log_given : Option Bytes → Bytes → Option Bytes
log_given none text = none
log_given (some before) text = some (before ++ text)

abbrev pub with_text : {D : Type 0} → Bytes → Sinks D → Sinks D
with_text text s = record s {
  vm = vm_given s.vm_running text s.vm;
  prometheus = prometheus_given s.prometheus_started text s.prometheus;
  logfile = log_given s.logfile text;
}

-- The two buffers have room for a text.
abbrev pub Room : {D : Type 0} → Bytes → Sinks D → Type 0
Room text s =
    (length s.vm.buffer + length text < buffer_size)
    × (length s.prometheus.buf + length text < 1024 * 1024 * 10)

vm_given-append :
    (b : Bool) (t u : Bytes) (p : Push) → vm_given b u (vm_given b t p) ≡ vm_given b (t ++ u) p
vm_given-append true t u p = ap (λ (x : Bytes). record p { buffer = x }) (append_assoc p.buffer t u)
vm_given-append false t u p = refl

prometheus_given-append :
    (b : Bool) (t u : Bytes) (p : Exporter)
    → prometheus_given b u (prometheus_given b t p) ≡ prometheus_given b (t ++ u) p
prometheus_given-append true t u p =
    ap (λ (x : Bytes). record p { buf = x }) (append_assoc p.buf t u)
prometheus_given-append false t u p = refl

log_given-append :
    (l : Option Bytes) (t u : Bytes) → log_given (log_given l t) u ≡ log_given l (t ++ u)
log_given-append none t u = refl
log_given-append (some x) t u = ap some (append_assoc x t u)

vm_given-nil : (b : Bool) (p : Push) → vm_given b [] p ≡ p
vm_given-nil true p = ap (λ (x : Bytes). record p { buffer = x }) (append-nil p.buffer)
vm_given-nil false p = refl

prometheus_given-nil : (b : Bool) (p : Exporter) → prometheus_given b [] p ≡ p
prometheus_given-nil true p = ap (λ (x : Bytes). record p { buf = x }) (append-nil p.buf)
prometheus_given-nil false p = refl

log_given-nil : (l : Option Bytes) → log_given l [] ≡ l
log_given-nil none = refl
log_given-nil (some x) = ap some (append-nil x)

vm_given-room :
    (b : Bool) (t : Bytes) (p : Push) → length (vm_given b t p).buffer ≤ length p.buffer + length t
vm_given-room true t p = omega (arith, length-append (p.buffer) t)
vm_given-room false t p = omega arith

prometheus_given-room :
    (b : Bool) (t : Bytes) (p : Exporter)
    → length (prometheus_given b t p).buf ≤ length p.buf + length t
prometheus_given-room true t p = omega (arith, length-append (p.buf) t)
prometheus_given-room false t p = omega arith

vm_add-with_text :
    (b : Bool) (t : Bytes) (p : Push)
    → length p.buffer + length t < buffer_size
    → (if b then vm_add t p else p) ≡ vm_given b t p
unfolding vm_add
vm_add-with_text true t p h = rw (lt→ltb (length p.buffer + length t) buffer_size h) refl
vm_add-with_text false t p h = refl

prometheus_add-with_text :
    (b : Bool) (t : Bytes) (p : Exporter)
    → length p.buf + length t < 1024 * 1024 * 10
    → (if b then prometheus_add t p else p) ≡ prometheus_given b t p
unfolding prometheus_add
prometheus_add-with_text true t p h =
    rw (lt→ltb (length p.buf + length t) (1024 * 1024 * 10) h) refl
prometheus_add-with_text false t p h = refl

log_add-with_text :
    (l : Option Bytes) (t : Bytes)
    → ◌≡◌ {A = Option Bytes} (elim l [ none ↦ none | some text ↦ some (text ++ t) ]) (log_given l t)
log_add-with_text none t = refl
log_add-with_text (some x) t = refl

module _ {D : Type 0} (s : Sinks D) where
  pub with_text-append : (t u : Bytes) → with_text u (with_text t s) ≡ with_text (t ++ u) s
  with_text-append t u i = record s {
    vm = vm_given-append s.vm_running t u s.vm i;
    prometheus = prometheus_given-append s.prometheus_started t u s.prometheus i;
    logfile = log_given-append s.logfile t u i;
  }

  pub with_text-nil : with_text [] s ≡ s
  with_text-nil i = record s {
    vm = vm_given-nil s.vm_running s.vm i;
    prometheus = prometheus_given-nil s.prometheus_started s.prometheus i;
    logfile = log_given-nil s.logfile i;
  }

  pub give-with_text : (t : Bytes) → Room t s → give t s ≡ with_text t s
  unfolding give
  give-with_text t (vm_room, prometheus_room) i = record s {
    vm = vm_add-with_text s.vm_running t s.vm vm_room i;
    prometheus = prometheus_add-with_text s.prometheus_started t s.prometheus prometheus_room i;
    logfile = log_add-with_text s.logfile t i;
  }

  pub Room-first : (t u : Bytes) → Room (t ++ u) s → Room t s
  Room-first t u r = omega (arith, length-append t u)

  pub Room-with_text : (t u : Bytes) → Room (t ++ u) s → Room u (with_text t s)
  Room-with_text t u (r, r') = (
    omega (arith, length-append t u, vm_given-room s.vm_running t s.vm),
    omega (arith, length-append t u, prometheus_given-room s.prometheus_started t s.prometheus),
  )
