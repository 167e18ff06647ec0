-- ===== src/ParamSlash/Tests.antt =====
-- param_slash.c on small inputs, and its theorems at inputs that meet their hypotheses.
use csh.Prelude.{
  ℕ, ◌≡◌, ◌≢◌, refl, codes, bytes_eq, Bytes, some, List, [], ◌∷◌, true, false, map, ap, arith,
  length, ltb, All,
}
use csh.Prelude.Int.{pos, ◌+ℤ◌}
use csh.Libc.{
  atoi, strtol, strtoul, scan_number, scan_signed, scan_magnitude, skip_prefix, starts_digit,
  scan_digits, digit_of, skip_space, long_of, negate, to_int,
}
use csh.ParamSlash.Offsets.{
  tokens, words, is_open, second_scan, param_slash_parse_slice, add_indices, add_slice, plain_index,
  add_token, add_tokens, param_offsets_parse_from_str,
}
use csh.ParamSlash.Offsets.Bounds.{IsPlain, Within, tokens_of, param_offsets_parse_from_str-Within}
use csh.ParamSlash.Values.{
  has_duplicates, parse_slash_values, Entries, close_bracket, add_single, value_loop, Param, fault,
  applied, SetArguments, check_offsets, set_targets, set_values, set_param,
}
use csh.ParamSlash.Values.Whole.{offset_of}
use csh.ParamSlash.Values.Brackets.{set_values_inside}
use csh.ParamSlash.Values.Sets.{queue_of, AreDistinct, set_param-offsets}
use csh.ParamSlash.Get.{GetArguments, get_loop, node_list}
use csh.ParamSlash.Get.Answered.{GetEnds, wanted, get_loop-GetEnds}
use csh.ParamSlash.Queue.{
  Param as QueueParam, no_mask, Queue, empty, AddArguments, Edit, new, add, cmd_run, run_edits,
}
use csh.ParamSlash.Queue.Kinds.{IsSent, cmd_run-run_edits}

-- "1:3,-1" of an array of five
indices : param_offsets_parse_from_str 5 (some (codes "1:3,-1")) ≡ some (pos 1 ∷ pos 2 ∷ pos 4 ∷ [])
unfolding param_offsets_parse_from_str add_tokens add_token add_slice add_indices plain_index
    param_slash_parse_slice second_scan is_open tokens words atoi strtol strtoul scan_number
    scan_signed scan_magnitude skip_prefix starts_digit scan_digits digit_of skip_space long_of
    negate to_int ◌+ℤ◌
indices = refl

-- "[]" is taken for the index 0
empty_brackets : param_offsets_parse_from_str 5 (some (codes "]")) ≡ some (pos 0 ∷ [])
unfolding param_offsets_parse_from_str add_tokens add_token add_slice add_indices plain_index
    param_slash_parse_slice second_scan is_open tokens words atoi strtol strtoul scan_number
    scan_signed scan_magnitude skip_prefix starts_digit scan_digits digit_of skip_space long_of
    negate to_int ◌+ℤ◌
empty_brackets = refl

plain : All (IsPlain 5) (tokens_of (some (codes "1:3,-1")))
unfolding plain_index tokens words atoi strtol strtoul scan_number scan_signed scan_magnitude
    skip_prefix starts_digit scan_digits digit_of skip_space long_of negate to_int ◌+ℤ◌
plain = (λ e. absurd (cc), (λ e. omega arith, tt))

param_offsets_parse_from_str-Within_example : Within 5 (pos 1 ∷ pos 2 ∷ pos 4 ∷ [])
param_offsets_parse_from_str-Within_example =
    param_offsets_parse_from_str-Within 5 (some (codes "1:3,-1")) (pos 1 ∷ pos 2 ∷ pos 4 ∷ []) plain
      indices

abbrev array : Param
array = record { node = 0; is_text = false; array_size = 5; is_readonly = false }

abbrev arguments : SetArguments ℕ
arguments = record {
  node = 0;
  server = 0;
  force = false;
  find_param = λ node name. some array;
  str_to_value = λ p text. some (length text);
  has_room = λ queue. ltb (length queue) 20;
  answers = true;
}

abbrev values : List Bytes
values = codes "[7" ∷ codes "88" ∷ codes "999]" ∷ []

set_values_inside_example : set_values arguments array values (pos 1 ∷ pos 2 ∷ pos 4 ∷ []) ≢ fault
set_values_inside_example =
    set_values_inside arguments array values (pos 1 ∷ pos 2 ∷ pos 4 ∷ [])
      (omega arith, (omega arith, (omega arith, tt))) (omega arith) (omega arith)

abbrev three : Entries ℕ
three = (pos 1, 1) ∷ (pos 2, 2) ∷ (pos 4, 3) ∷ []

sets_three : (set_param arguments (codes "a", some (codes "1:3,-1")) values).effect ≡ applied three
unfolding set_param set_values set_targets check_offsets has_duplicates parse_slash_values
    value_loop close_bracket add_single param_offsets_parse_from_str add_tokens add_token add_slice
    add_indices plain_index param_slash_parse_slice second_scan is_open tokens words atoi strtol
    strtoul scan_number scan_signed scan_magnitude skip_prefix starts_digit scan_digits digit_of
    skip_space long_of negate to_int ◌+ℤ◌
sets_three = refl

three_parsed : param_offsets_parse_from_str 5 (some (codes "1:3,-1")) ≡ some (map offset_of three)
three_parsed = indices

set_param-offsets_example :
    (param_offsets_parse_from_str 5 (some (codes "1:3,-1")) ≡ some (map offset_of three))
    × AreDistinct (map offset_of three)
    × (All (IsPlain 5) (tokens_of (some (codes "1:3,-1"))) → Within 5 (map offset_of three))
set_param-offsets_example =
    set_param-offsets arguments 20 (λ queue h. ground arith) array (codes "a")
      (some (codes "1:3,-1")) values three refl refl
      (λ offsets e.
        let same : map offset_of three ≡ offsets = cc (three_parsed, e) in
        omega (arith, ap length same))
      (ap queue_of sets_three)

abbrev closed : Queue ℕ
closed = record { type = empty; name = []; version = pos 2; entries = [] }

abbrev add_arguments : AddArguments ℕ
add_arguments = record {
  node = 0;
  include_mask = 0;
  exclude_mask = 0;
  force = false;
  params = [];
  strmatch = bytes_eq;
  find_param = λ name. some (record { node = 0; id = 3; name = name; mask = 0 });
  str_to_value = λ p text. some (length text);
  has_room = λ entries. true;
  pm_readonly = 1;
}

abbrev edits : List (Edit ℕ)
edits =
    new 20 (pos 2) (some 0) (codes "new" ∷ codes "set" ∷ codes "c" ∷ [])
    ∷ add add_arguments (some (codes "a", codes "5" ∷ []))
    ∷ []

cmd_run-run_edits_example : IsSent (cmd_run true (some 0) (run_edits edits closed)).1
cmd_run-run_edits_example = cmd_run-run_edits edits closed true (some 0) (omega arith, (tt, tt)) tt

abbrev obc : QueueParam
obc = record { node = 5; id = 1; name = codes "a"; mask = 0 }

abbrev get_arguments : GetArguments
get_arguments = record {
  node = 5;
  server = pos 0;
  mask = no_mask;
  strmatch = λ name pattern. true;
  answers = λ p. false;
}

get_loop-GetEnds_example :
    GetEnds get_arguments
      (wanted get_arguments (codes "a") (obc ∷ []))
      (get_loop get_arguments (codes "a") (obc ∷ []))
get_loop-GetEnds_example = get_loop-GetEnds get_arguments (codes "a") (obc ∷ [])

-- "a" is stepped over behind an empty part
skipped :
    node_list (λ name. (1, some (pos (length name)))) ([] ∷ codes "a" ∷ codes "bc" ∷ [])
    ≡ pos 0 ∷ pos 2 ∷ []
unfolding node_list
skipped = refl
