-- ===== src/Environment/Expand.antt =====
-- src/environment.c: `csh_expand_vars`, the loop over the input with its growing result buffer.
-- `alloc n` says whether an allocation of `n` bytes succeeds; a failed one ends the loop with NULL.
pub mod Memory
pub mod Reading
pub mod Steps
pub mod Reference
pub mod Vars
use csh.Prelude.{
  ℕ, zero, suc, ◌+◌, ◌-◌, ◌%◌, ◌^◌, Bytes, Option, none, some, [], ◌∷◌, ◌++◌, Bool, true, false,
  ◌&&◌, if◌then◌else◌, ◌==◌, ltb, length, get_or, take, drop, ◌>>=◌,
}
use csh.Environment.{Env, getvar}

-- `res`, of which the first `res_idx` bytes are written, `res_len`, and the size that the last allocation of
-- `res` asked for.
pub record CharBuf : Type 0 where
  pub text : Bytes
  pub dest_len : ℕ
  pub allocated : ℕ

pub record Expansion : Type 0 where
  pub buf : CharBuf
  pub in_var : Bool
  pub var_s : ℕ

-- a - b on size_t
abbrev pub size_sub : ℕ → ℕ → ℕ
size_sub a b = (a + 2 ^ 64 - b) % 2 ^ 64

module _ (alloc : ℕ → Bool) where
  -- `at` is always `res_idx`, the number of bytes written
  unfoldable pub copy_char_and_grow : CharBuf → ℕ → Option CharBuf
  copy_char_and_grow dest c =
      if length dest.text == dest.dest_len
      then (let dest_len = dest.dest_len + 16 in
          let size = dest_len + 1 in
          if alloc size
          then some (record { text = dest.text ++ c ∷ []; dest_len = dest_len; allocated = size })
          else none)
      else some (record dest { text = dest.text ++ c ∷ [] })

  -- the `for` loop over `var_value`
  unfoldable pub copy_value : CharBuf → Bytes → Option CharBuf
  copy_value dest [] = some dest
  copy_value dest (c ∷ cs) = do dest' ← copy_char_and_grow dest c; copy_value dest' cs

  unfoldable pub copy_input : Expansion → ℕ → Option Expansion
  copy_input s c = do buf ← copy_char_and_grow s.buf c; some (record s { buf = buf })

  module _ (env : Env) (input : Bytes) where
    -- the text of a reference that ends before `var_e`
    unfoldable pub var_name : ℕ → ℕ → Bytes
    var_name var_s var_e = take (var_e - var_s) (drop var_s input)

    unfoldable pub close_var : Expansion → ℕ → Option Bytes → Option Expansion
    close_var s var_e none = some (record s { in_var = false; var_s = var_e })
    close_var s var_e (some value) = do
      buf ← copy_value s.buf value
      some (record { buf = buf; in_var = false; var_s = var_e })

    -- one round; a read at the end of the input gives the terminating NUL
    unfoldable pub expand_step : ℕ → Expansion → Option Expansion
    expand_step idx s =
        let c = get_or input idx 0 in
        if s.in_var
        then if c == b')' then close_var s idx (getvar env (var_name s.var_s idx)) else some s
        else if ltb idx (size_sub (length input) 2)
        then if c == b'$' && get_or input (idx + 1) 0 == b'('
          then some (record s { in_var = true; var_s = idx + 2 })
          else copy_input s c
        else copy_input s c

    -- `while (idx < input_len && res)`, by the rounds that are left
    unfoldable pub expand_loop : ℕ → ℕ → Expansion → Option Expansion
    expand_loop zero idx s = some s
    expand_loop (suc n) idx s = do s' ← expand_step idx s; expand_loop n (idx + 1) s'

    -- `strdup(input)`, whose contents the loop overwrites
    abbrev pub start : Expansion
    start = record {
      buf = record { text = []; dest_len = length input; allocated = length input + 1 };
      in_var = false;
      var_s = 0;
    }

    unfoldable pub expand_buf : Option CharBuf
    expand_buf =
        if alloc (length input + 1)
        then (do s ← expand_loop (length input) 0 start; some s.buf)
        else none

    unfoldable pub expand_vars : Option Bytes
    expand_vars = do buf ← expand_buf; some buf.text
