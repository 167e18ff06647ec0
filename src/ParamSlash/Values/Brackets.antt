-- ===== src/ParamSlash/Values/Brackets.antt =====
-- param_slash.c: the values of a `set` command stay with the offsets.
use csh.Prelude.{
  ℕ, zero, suc, ◌+◌, ◌≤◌, ◌<◌, ◌≡◌, ◌≢◌, refl, inl, inr, Bytes, Option, some, List, [], ◌∷◌, ◌++◌,
  Bool, true, false, ◌&&◌, ◌||◌, not, if◌then◌else◌, ◌==◌, ltb, length, get_elem?, drop, Bool-cases,
  Option-cases, arith, All,
}
use csh.Prelude.Int.{ℤ}
use csh.ParamSlash.Offsets.{has_byte}
use csh.ParamSlash.Values.{
  Entries, Filled, failed, out_of_bounds, filled, close_bracket, add_single, end_round, add_value,
  value_loop, Param, fault, SetArguments, parse_slash_values, set_values, send,
}

abbrev pub IsText : Bytes → Type 0
IsText s = length s ≢ 0

get_elem-inside :
    {A : Type 0} (xs : List A) (i : ℕ) → i < length xs → (a : A) × (get_elem? xs i ≡ some a)
get_elem-inside [] i h = elim h [ ]
get_elem-inside (x ∷ xs) zero h = (x, refl)
get_elem-inside (x ∷ xs) (suc i) h = get_elem-inside xs i (omega arith)

module _ {V : Type 0} (str_to_value : Bytes → Option V) (has_room : Entries V → Bool) where
  end_round_inside :
      (offsets : List ℤ) (iterations : ℕ) (closes : Bool) (queue : Entries V)
      (continue : Entries V → Filled V)
      → ((q : Entries V) → continue q ≢ out_of_bounds)
      → end_round str_to_value has_room offsets iterations closes queue continue ≢ out_of_bounds
  end_round_inside offsets iterations false queue continue hc e = hc queue e
  end_round_inside offsets iterations true queue continue hc e =
      elim (Bool-cases (suc iterations == length offsets)) [
        | inl whole ↦ cc (rw whole at e)
        | inr part ↦ cc (rw part at e)
      ]

  add_value_inside :
      (offsets : List ℤ) (iterations : ℕ) (closes : Bool) (v : V) (queue : Entries V)
      (continue : Entries V → Filled V)
      → iterations < length offsets
      → ((q : Entries V) → continue q ≢ out_of_bounds)
      → add_value str_to_value has_room offsets iterations closes v queue continue ≢ out_of_bounds
  add_value_inside offsets iterations closes v queue continue h hc e =
      let (offset, found) = get_elem-inside offsets iterations h in
      let under : ltb (length offsets) iterations ≡ false = ground arith in
      elim (Bool-cases (has_room queue)) [
        | inl room ↦
            end_round_inside offsets iterations closes (queue ++ (offset, v) ∷ []) continue hc
              (rw (under, found, room) at e)
        | inr full ↦ cc (rw (under, found, full) at e)
      ]

  -- one value for each offset at most
  value_loop_inside :
      (offsets : List ℤ) (args : List Bytes) (iterations : ℕ) (queue : Entries V)
      → All IsText args
      → iterations + length args ≤ length offsets
      → value_loop str_to_value has_room offsets args iterations queue ≢ out_of_bounds
  unfolding value_loop
  value_loop_inside offsets [] iterations queue ht h e = cc
  value_loop_inside offsets (arg ∷ args) iterations queue ht h e =
      let opens = has_byte b'[' arg in
      let b = close_bracket (if opens then drop 1 arg else arg) in
      let text : (length arg == 0) ≡ false = ground (arith, ht.0) in
      elim (Bool-cases (opens && length offsets == 1)) [
        | inl indexed ↦ cc (rw indexed at e)
        | inr array ↦ elim (Option-cases (str_to_value b.text)) [
          | inl no_value ↦ cc (rw (array, text, no_value) at e)
          | inr (v, value) ↦ elim (Bool-cases (not opens && not b.closes && iterations == 0)) [
            | inl single ↦ cc (rw (array, text, value, single) at e)
            | inr several ↦
                add_value_inside offsets iterations b.closes v queue
                  (value_loop str_to_value has_room offsets args (suc iterations)) (omega arith)
                  (λ q. value_loop_inside offsets args (suc iterations) q ht.1 (omega arith))
                  (rw (array, text, value, several) at e)
          ]
        ]
      ]

  -- Without a bracket in the first value, it is set at all the offsets, and the values behind it are ignored.
  pub value_loop_single :
      (offsets : List ℤ) (arg : Bytes) (args : List Bytes) (v : V)
      → IsText arg
      → has_byte b'[' arg ≡ false
      → (close_bracket arg).closes ≡ false
      → str_to_value (close_bracket arg).text ≡ some v
      → value_loop str_to_value has_room offsets (arg ∷ args) 0 []
        ≡ filled (add_single str_to_value has_room offsets v [])
  unfolding value_loop
  value_loop_single offsets arg args v ht opens closes value =
      let text : (length arg == 0) ≡ false = ground (arith, ht) in
      let b = close_bracket (if has_byte b'[' arg then drop 1 arg else arg) in
      let same : b ≡ close_bracket arg = rw opens refl in
      let value' : str_to_value b.text ≡ some v = rw same value in
      let closes' : b.closes ≡ false = rw same closes in
      let single : (not (has_byte b'[' arg) && not b.closes) ≡ true =
        ground (arith, opens, closes') in
      let array : (has_byte b'[' arg && length offsets == 1) ≡ false = ground (arith, opens) in
      rw (array, text, value') (ground (arith, single))

send_fault :
    {V : Type 0} (a : SetArguments V) (p : Param) (f : Filled V)
    → send a p f ≡ fault
    → f ≡ out_of_bounds
send_fault a p failed e = cc
send_fault a p out_of_bounds e = refl
send_fault a p (filled queue) e = elim (Bool-cases (p.node == 0)) [
  | inl here ↦ absurd (cc (rw here at e))
  | inr there ↦ absurd (cc (rw there at e))
]

-- With fewer than 100 arguments for the values, none of them empty, an array of offsets that has one at least is never
-- read behind its end: the test of the number of values is enough for the loop over them.
pub set_values_inside :
    {V : Type 0} (a : SetArguments V) (p : Param) (args : List Bytes) (offsets : List ℤ)
    → All IsText args
    → length args < 100
    → 0 < length offsets
    → set_values a p args offsets ≢ fault
unfolding set_values parse_slash_values
set_values_inside a p args offsets ht few some_offset e =
    let refused =
      (p.array_size == 1 && ltb 1 (length offsets))
      || (p.is_readonly && not a.force)
      || length args == 0
      || not (parse_slash_values args (length offsets)) in
    elim (Bool-cases refused) [
      | inl stopped ↦ cc (rw stopped at e)
      | inr passed ↦
          value_loop_inside (a.str_to_value p) a.has_room offsets args 0 [] ht (ground arith) (
            send_fault a p (value_loop (a.str_to_value p) a.has_room offsets args 0 [])
              (rw passed at e))
    ]
