-- ===== src/Loki/Tests.antt =====
-- loki.c on small texts, and its theorems at inputs that meet their hypotheses.
use csh.Prelude.{
  ◌+◌, ◌-◌, ◌≤◌, ◌≡◌, ◌≢◌, ◌↔◌, refl, Bytes, codes, none, some, List, [], ◌∷◌, ◌++◌, true, false,
  if◌then◌else◌, leb, length, map, take, arith,
}
use csh.Prelude.Int.{pos}
use csh.Apm.{strstr}
use csh.Libc.{format_u}
use csh.Loki.Strip.{strip_str}
use csh.Loki.Strip.Lines.{PlainOrNul, nuls, text_of, requote, strip_str-IsPlain}
use csh.Loki.Add.{Surroundings, skipped, posted, fault, loki_add, json}
use csh.Loki.Add.Fits.{loki_add-ne-fault}
use csh.Loki.Add.Posted.{entries, loki_add-entries}
use csh.Loki.Post.{post_thread}
use csh.Loki.Post.Stops.{poster, SixFail, post_thread-SixFail}
use csh.Loki.Start.{LokiState, StartAnswers, loki_start_cmd}
use csh.Loki.Start.Running.{Says, loki_start_cmd-Says}
use csh.Prelude.{All}

abbrev around : Surroundings
around = record {
  clock = λ i. 1700000000000000 + i;
  allocates = true;
  hostname = codes "csh";
  hostname_len = 20;
  node = 12;
}

abbrev lines : List Bytes
lines = codes "a \"b\"" ∷ codes "ok" ∷ []

-- Colours and tabs go, and a third line that has not ended counts.
stripped :
    strip_str (10 ∷ 27 ∷ codes "[31mred" ++ (10 ∷ 13 ∷ 9 ∷ codes "x" ++ (10 ∷ codes "y")))
    ≡ (codes "red" ++ (0 ∷ codes "x" ++ (0 ∷ codes "y")), 3)
unfolding strip_str
stripped = refl

strip_str-IsPlain_example :
    All PlainOrNul (strip_str (text_of lines)).0
    × (length (strip_str (text_of lines)).0 ≤ length (text_of lines))
    × ((strip_str (text_of lines)).1 ≡ (
        if leb 2 (nuls (strip_str (text_of lines)).0)
        then nuls (strip_str (text_of lines)).0 + 1
        else nuls (strip_str (text_of lines)).0))
strip_str-IsPlain_example = strip_str-IsPlain (text_of lines)

loki_add-ne-fault_example : loki_add true around (text_of lines) false ≢ fault
loki_add-ne-fault_example = loki_add-ne-fault true around (text_of lines) false (omega arith)

abbrev log : Bytes
log = entries (around.clock) 0 (map (map requote) lines)

abbrev message : Bytes
message = json (codes "csh") 12 false (take (length log - 1) log)

loki_add-entries_example :
    (log ≢ [] → loki_add true around (text_of lines) false ≡ posted message (length message))
    × (log ≡ [] → loki_add true around (text_of lines) false ≡ skipped)
unfolding format_u strstr
loki_add-entries_example =
    loki_add-entries around false lines ((λ e. cc, omega arith), ((λ e. cc, omega arith), tt))
      (omega arith) (omega arith) refl (omega arith) (omega arith)

post_thread-SixFail_example :
    ((post_thread (some false ∷ none ∷ some true ∷ []) (poster true 0 4)).running ≡ false)
    ↔ SixFail (some false ∷ none ∷ some true ∷ [])
post_thread-SixFail_example = post_thread-SixFail (some false ∷ none ∷ some true ∷ []) 4

abbrev idle : LokiState
idle = record {
  running = false;
  args = record {
    use_ssl = false;
    port = pos 0;
    skip_verify = false;
    verbose = false;
    username = none;
    password = none;
    server_ip = none;
    api_root = none;
  };
  protocol_s = false;
  curl = none;
  queue_created = false;
}

abbrev answers : StartAnswers
answers = record {
  stored = λ a. a;
  tmp_username = none;
  tmp_password = none;
  key_file = none;
  home = none;
  read_file = λ p. none;
  allocates = true;
  curl_easy_init = true;
  pipe = true;
  dup2 = true;
}

loki_start_cmd-Says_example :
    Says (loki_start_cmd answers (some 0) (codes "start" ∷ codes "10.0.0.1" ∷ []) idle)
loki_start_cmd-Says_example =
    loki_start_cmd-Says answers 0 (codes "start" ∷ codes "10.0.0.1" ∷ []) idle
