-- ===== src/Startup/Main/Batch.antt =====
-- main.c: the command that is made of the arguments.
use csh.Prelude.{
  ℕ, ◌≤◌, ◌<◌, ◌≡◌, refl, ap, ◌∙◌, inl, inr, Bytes, Option, none, some, List, [], ◌∷◌, ◌++◌,
  append-nil, append_assoc, false, if◌then◌else◌, Bool-cases, ltb, leb, leb→le, length,
  length-append, length-take, take, take_all, arith,
}
use csh.Startup.Main.{line_size, add_args, build_command}

-- The words with a blank in front of each.
abbrev pub with_blanks : List Bytes → Bytes
with_blanks [] = []
with_blanks (arg ∷ args) = 32 ∷ (arg ++ with_blanks args)

abbrev fitting : Bytes → Option Bytes
fitting command = if ltb (length command) line_size then some command else none

too_long : (n : ℕ) → 512 ≤ n → ltb n 512 ≡ false
too_long n h = ground arith

leb_below : (n : ℕ) → leb 512 n ≡ false → n < 512
leb_below n h = ground arith

add_args-fitting :
    (args : List Bytes) (ex : Bytes)
    → length ex < line_size
    → add_args args ex ≡ fitting (ex ++ with_blanks args)
unfolding add_args
add_args-fitting [] ex h = let e = append-nil ex in rw e (ground arith)
add_args-fitting (arg ∷ args) ex h =
    let grown = ex ++ 32 ∷ take line_size arg in
    let all = ex ++ 32 ∷ (arg ++ with_blanks args) in
    let size = length-append ex (32 ∷ take line_size arg) in
    let all_size = length-append ex (32 ∷ (arg ++ with_blanks args)) in
    let arg_size = length-append arg (with_blanks args) in
    let taken = length-take line_size arg in
    elim (Bool-cases (leb line_size (length grown))) [
      | inl e ↦
          let beyond = leb→le line_size (length grown) e in
          rw e (rw (too_long (length all) (omega (arith, taken, size, all_size, arg_size))) refl)
      | inr e ↦
          let below = leb_below (length grown) e in
          let whole : take line_size arg ≡ arg =
            take_all line_size arg (omega (arith, taken, size)) in
          let joined : grown ++ with_blanks args ≡ all =
            append_assoc ex (32 ∷ take line_size arg) (with_blanks args)
            ∙ ap (λ (b : Bytes). ex ++ 32 ∷ (b ++ with_blanks args)) whole in
          rw e (add_args-fitting args grown below ∙ ap fitting joined)
    ]

-- The command of a call with arguments is these, with a blank between each two, if that is below 512 bytes; else
-- there is a write behind the buffer.
pub build_command-joined :
    (arg : Bytes) (args : List Bytes)
    → build_command (arg ∷ args) ≡ (
        if ltb (length (arg ++ with_blanks args)) 512 then some (arg ++ with_blanks args) else none)
unfolding build_command
build_command-joined arg args =
    let taken = length-take line_size arg in
    let all = arg ++ with_blanks args in
    elim (Bool-cases (leb line_size (length (take line_size arg)))) [
      | inl e ↦
          let beyond = leb→le line_size (length (take line_size arg)) e in
          rw e (
            rw (too_long (length all) (omega (arith, taken, length-append arg (with_blanks args))))
              refl)
      | inr e ↦
          let below = leb_below (length (take line_size arg)) e in
          let whole : take line_size arg ≡ arg = take_all line_size arg (omega (arith, taken)) in
          rw e (
            add_args-fitting args (take line_size arg) below
            ∙ ap (λ (b : Bytes). fitting (b ++ with_blanks args)) whole)
    ]
