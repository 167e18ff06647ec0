-- ===== src/ParamSniffer/Tests.antt =====
-- param_sniffer.c on two values, and its theorem at an input that meets its hypotheses.
use csh.Prelude.{ℕ, ◌≡◌, refl, inl, codes, some, [], ◌∷◌, true, false, ltb, arith}
use csh.Prelude.Int.{pos}
use csh.Libc.{format_u}
use csh.Vts.{check_vts}
use csh.ParamSniffer.{unsigned, Param, Reader, Sinks, param_sniffer_log}
use csh.ParamSniffer.Agree.{with_text}
use csh.ParamSniffer.Logged.{IsShort, lines_from, all_good, param_sniffer_log-with_text}

-- values that are printed as a letter and fail from 9 on
abbrev reader : Reader ℕ ℕ
reader = record {
  print = λ kind item. codes "v";
  to_double = λ item. item;
  fails = λ kind item. ltb 8 item;
}

abbrev param : Param
param = record { kind = unsigned; name = codes "temp"; node = 7; id = 12 }

abbrev sinks : Sinks ℕ
sinks = record {
  vm_running = true;
  vm = record { buffer = []; posted = [] };
  prometheus_started = false;
  prometheus = record { buf = []; sent = [] };
  logfile = some (codes "x");
  vts_running = false;
  adcs_node = 0;
  vts = record { last_q_hat_time = 0; last_pos_time = 0; sent = [] };
}

param-IsShort : IsShort reader param 5000
param-IsShort = record { number = refl; name = omega arith; print = λ item. omega arith }

param_sniffer_log-with_text_example :
    (s' : Sinks ℕ) × (param_sniffer_log reader [] param (pos 2) 5000 (1 ∷ 9 ∷ []) sinks
      ≡ some (s', all_good reader param 5000 (1 ∷ 9 ∷ [])))
    × (s'.vm ≡ (with_text (lines_from reader param 5000 2 (1 ∷ 9 ∷ [])) sinks).vm)
    × (s'.prometheus ≡ (with_text (lines_from reader param 5000 2 (1 ∷ 9 ∷ [])) sinks).prometheus)
    × (s'.logfile ≡ (with_text (lines_from reader param 5000 2 (1 ∷ 9 ∷ [])) sinks).logfile)
unfolding check_vts format_u
param_sniffer_log-with_text_example =
    param_sniffer_log-with_text reader param 5000 param-IsShort [] (pos 2) (1 ∷ 9 ∷ []) sinks
      (inl refl) (omega arith)

one_line :
    lines_from reader param 5000 2 (1 ∷ 9 ∷ []) ≡ codes "temp{node=\"7\", idx=\"2\"} v 5000\n"
unfolding format_u
one_line = refl
