-- ===== src/Stdbuf.antt =====
-- src/stdbuf_mon.c: the monitor of a node's ring buffer of text, by its rounds, up to the one behind which the user
-- ends it. The two indices are parameters of the node, of which the parameter library keeps local values; each
-- request to the node may stay without an answer. The node writes nothing while a call of `run_rounds` lasts.
pub mod Ring
pub mod Live
mod Tests
use csh.Prelude.{ℕ, zero, suc, ◌+◌, ◌-◌, ◌%◌, ◌^◌, List, [], ◌∷◌, ◌++◌, Bool, if◌then◌else◌, ltb}

-- `len` of `stdbuf_get`
abbrev pub chunk : ℕ → ℕ
chunk len = if ltb 200 len then 200 else len

-- `n` cells of the memory from an index on
abbrev pub peek : (ℕ → ℕ) → ℕ → ℕ → List ℕ
peek mem from zero = []
peek mem from (suc n) = mem from ∷ peek mem (suc from) n

-- what `stdbuf_get` returns and prints; `peeked` is whether the node answers `csp_cmp_peek`
unfoldable pub stdbuf_get : (ℕ → ℕ) → Bool → ℕ → ℕ → ℕ × List ℕ
stdbuf_get mem peeked from to =
    let len = chunk (to - from) in if peeked then (len, peek mem from len) else (0, [])

-- Whether the node answers the pull of the indices, the peek, and the push of the index in a round.
pub record Answers : Type 0 where
  pub pulled : Bool
  pub peeked : Bool
  pub pushed : Bool

-- the index that the node keeps, the local values of both, and what is printed
pub record Monitor : Type 0 where
  pub node_out : ℕ
  pub in_ : ℕ
  pub out : ℕ
  pub printed : List ℕ

-- `got` and the text, by the two indices
unfoldable pub get_ahead : (ℕ → ℕ) → ℕ → Bool → ℕ → ℕ → ℕ × List ℕ
unfolding stdbuf_get
get_ahead mem size peeked in_ out =
    if ltb out in_
    then stdbuf_get mem peeked out in_
    else if ltb in_ out
    then stdbuf_get mem peeked out size
    else (0, [])

-- `out_push`, which the node keeps if it answers; `stores` is the local value that the library leaves behind
-- a push, from the answer, the value pushed and the value before
abbrev pub advance : (Bool → ℕ → ℕ → ℕ) → ℕ → Bool → ℕ × List ℕ → Monitor → Monitor
advance stores size pushed (got, text) m =
    let out_push = ((m.out + got) % 2 ^ 16) % size in
    record m {
      node_out = if pushed then out_push else m.node_out;
      out = stores pushed out_push m.out;
      printed = m.printed ++ text;
    }

-- one round of the `while` loop; `node_in` is the other index, at the node
unfoldable pub monitor_round : (Bool → ℕ → ℕ → ℕ) → (ℕ → ℕ) → ℕ → ℕ → Answers → Monitor → Monitor
unfolding get_ahead
monitor_round stores mem size node_in a m =
    let m' = if a.pulled then record m { in_ = node_in; out = m.node_out } else m in
    advance stores size a.pushed (get_ahead mem size a.peeked m'.in_ m'.out) m'

unfoldable pub run_rounds : (Bool → ℕ → ℕ → ℕ) → (ℕ → ℕ) → ℕ → ℕ → List Answers → Monitor → Monitor
unfolding monitor_round
run_rounds stores mem size node_in [] m = m
run_rounds stores mem size node_in (a ∷ rounds) m =
    run_rounds stores mem size node_in rounds (monitor_round stores mem size node_in a m)
