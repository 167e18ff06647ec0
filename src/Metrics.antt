-- ===== src/Metrics.antt =====
-- src/victoria_metrics.c: the buffer of metric lines that one thread fills and another one posts. Both
-- hold `buffer_mutex` for a whole round, so the rounds are the steps. The post is a parameter.
pub mod Delivery
mod Tests
use csh.Prelude.{
  ℕ, zero, suc, ◌+◌, ◌*◌, Bytes, codes, List, [], ◌∷◌, ◌++◌, Bool, true, false, if◌then◌else◌, ◌==◌,
  ltb, length, take,
}
use csh.Prelude.Int.{ℤ, pos, negsuc}
use csh.Libc.{format_u}

-- BUFFER_SIZE
abbrev pub buffer_size : ℕ
buffer_size = 10 * 1024 * 1024

-- The part of `buffer` that is filled, and the bodies of the posts that succeeded, in order.
pub record Push : Type 0 where
  pub buffer : Bytes
  pub posted : List Bytes

unfoldable pub vm_add : Bytes → Push → Push
vm_add metric_line s =
    if ltb (length s.buffer + length metric_line) buffer_size
    then record s { buffer = s.buffer ++ metric_line }
    else s

-- One round of the loop of `vm_push`; `ok` says how `curl_easy_perform` ends.
unfoldable pub vm_push : Bool → Push → Push
vm_push ok s =
    if length s.buffer == 0
    then s
    else if ok
    then record { buffer = []; posted = s.posted ++ s.buffer ∷ [] }
    else s

pub data ParamType : Type 0 where
  string : ParamType
  bytes : ParamType
  other : ParamType

-- The fields of `param_t` that are read; `value` is `param_value_str`, cut to 99 bytes.
pub record Param : Type 0 where
  pub kind : ParamType
  pub name : Bytes
  pub node : ℕ
  pub array_size : ℤ
  pub value : ℕ → Bytes

-- `snprintf` to `outstr`, an array of 1000 bytes
abbrev pub metric_line : Param → ℕ → ℕ → Bytes
metric_line param time_ms j = take 999 (
    param.name
    ++ (codes "{node=\""
        ++ (format_u param.node
            ++ (codes "\", idx=\""
                ++ (format_u j
                    ++ (codes "\"} "
                        ++ (take 99 (param.value j)
                            ++ (codes " " ++ (format_u time_ms ++ codes "\n")))))))))

-- the `for` loop, with the number of items left, from index j on
unfoldable pub add_items : Param → ℕ → ℕ → ℕ → Push → Push
unfolding vm_add
add_items param time_ms zero j s = s
add_items param time_ms (suc n) j s =
    add_items param time_ms n (j + 1) (vm_add (metric_line param time_ms j) s)

-- `arr_cnt`
abbrev pub item_count : ℤ → ℕ
item_count (pos n) = n
item_count (negsuc n) = 1

unfoldable pub vm_add_param : Param → ℕ → Push → Push
unfolding add_items
vm_add_param param time_ms s = elim param.kind [
  | string ↦ s
  | bytes ↦ s
  | other ↦ add_items param time_ms (item_count param.array_size) 0 s
]
