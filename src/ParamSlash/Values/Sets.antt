-- ===== src/ParamSlash/Values/Sets.antt =====
-- param_slash.c: what a `set` command sends, from its texts to the queue.
use csh.Prelude.{
  ℕ, ◌<◌, ◌≤◌, ◌≡◌, ◌≢◌, refl, sym, ap, ◌∙◌, Bytes, Option, none, some, List, [], ◌∷◌, true, false,
  ◌&&◌, ◌||◌, not, ◌==◌, ltb, length, map, Bool-cases, inl, inr, arith, All,
}
use csh.Prelude.Int.{ℤ, eq_ℤ, pos_part, neg_part}
use csh.ParamSlash.Offsets.{param_offsets_parse_from_str}
use csh.ParamSlash.Offsets.Bounds.{IsPlain, Within, tokens_of, param_offsets_parse_from_str-Within}
use csh.ParamSlash.Values.{
  is_member, has_duplicates, Entries, Filled, failed, out_of_bounds, filled, value_loop, Param,
  Effect, error, fault, applied, pushed, SetArguments, Targets, refused, freed_twice, targets,
  check_offsets, set_targets, set_values, set_at, set_param, send, parse_slash_values,
}
use csh.ParamSlash.Values.Whole.{offset_of, value_loop-offsets}

abbrev pub AreDistinct : List ℤ → Type 0
AreDistinct [] = Unit
AreDistinct (x ∷ xs) = All (λ y. x ≢ y) xs × AreDistinct xs

is_member_none : (x : ℤ) (xs : List ℤ) → is_member x xs ≡ false → All (λ y. x ≢ y) xs
is_member_none x [] h = tt
is_member_none x (y ∷ ys) h = elim (Bool-cases (eq_ℤ x y)) [
  | inl same ↦ absurd (cc (rw same at h))
  | inr other ↦ (
    λ e. ground (arith, other, ap pos_part e, ap neg_part e),
    is_member_none x ys (rw other at h),
  )
]

has_duplicates-AreDistinct : (xs : List ℤ) → has_duplicates xs ≡ false → AreDistinct xs
unfolding has_duplicates
has_duplicates-AreDistinct [] h = tt
has_duplicates-AreDistinct (x ∷ xs) h = elim (Bool-cases (is_member x xs)) [
  | inl again ↦ absurd (cc (rw again at h))
  | inr new ↦ (is_member_none x xs new, has_duplicates-AreDistinct xs (rw new at h))
]

check_offsets-AreDistinct :
    (o : Option (List ℤ)) (offsets : List ℤ)
    → check_offsets o ≡ targets offsets
    → AreDistinct offsets × (o ≡ some offsets)
unfolding check_offsets
check_offsets-AreDistinct none offsets e = cc
check_offsets-AreDistinct (some []) offsets e = cc
check_offsets-AreDistinct (some (x ∷ xs)) offsets e = elim (Bool-cases (has_duplicates (x ∷ xs))) [
  | inl again ↦ absurd (cc (rw again at e))
  | inr distinct ↦
      let same : x ∷ xs ≡ offsets = cc (rw distinct at e) in
      rw (sym same) (has_duplicates-AreDistinct (x ∷ xs) distinct, refl)
]

-- the queue that is applied or pushed
abbrev pub queue_of : {V : Type 0} → Effect V → Option (Entries V)
queue_of (error s) = none
queue_of fault = none
queue_of (applied queue) = some queue
queue_of (pushed s dest queue) = some queue

module _ {V : Type 0} (a : SetArguments V) (most : ℕ)
    (room : (queue : Entries V) → length queue < most → a.has_room queue ≡ true) where
  send-filled :
      (p : Param) (f : Filled V) (queue : Entries V)
      → queue_of (send a p f) ≡ some queue
      → f ≡ filled queue
  send-filled p failed queue e = cc
  send-filled p out_of_bounds queue e = cc
  send-filled p (filled q) queue e = elim (Bool-cases (p.node == 0)) [
    | inl here ↦ cc (rw here at e)
    | inr there ↦ cc (rw there at e)
  ]

  set_values-offsets :
      (p : Param) (args : List Bytes) (offsets : List ℤ) (queue : Entries V)
      → length offsets ≤ most
      → queue_of (set_values a p args offsets) ≡ some queue
      → map offset_of queue ≡ offsets
  unfolding set_values
  set_values-offsets p args offsets queue few e =
      let stopped =
        (p.array_size == 1 && ltb 1 (length offsets))
        || (p.is_readonly && not a.force)
        || length args == 0
        || not (parse_slash_values args (length offsets)) in
      elim (Bool-cases stopped) [
        | inl early ↦ absurd (cc (rw early at e))
        | inr passed ↦
            value_loop-offsets (a.str_to_value p) a.has_room most room offsets args queue few (
              send-filled p (value_loop (a.str_to_value p) a.has_room offsets args 0 []) queue
                (rw passed at e))
      ]

  set_at-targets :
      (p : Param) (args : List Bytes) (t : Targets) (queue : Entries V)
      → ((offsets : List ℤ) → t ≡ targets offsets → length offsets ≤ most)
      → queue_of (set_at a p args t) ≡ some queue
      → t ≡ targets (map offset_of queue)
  set_at-targets p args refused queue few e = cc
  set_at-targets p args freed_twice queue few e = cc
  set_at-targets p args (targets offsets) queue few e =
      ap targets (sym (set_values-offsets p args offsets queue (few offsets refl) e))

  set_param_found :
      (p : Param) (name : Bytes) (token : Option Bytes) (args : List Bytes)
      → a.find_param a.node name ≡ some p
      → (set_param a (name, token) args).effect ≡ set_at a p args (set_targets p token)
  unfolding set_param
  set_param_found p name token args found = rw (found, set_param) refl

  -- Where the text between the brackets names at most as many indices as the queue has room for entries, a `set` of
  -- an array of numbers that applies or pushes a queue has one entry for each index that it names, in their order
  -- and no index twice; where the tokens without ':' name cells, all are cells of the array.
  pub set_param-offsets :
      (p : Param) (name : Bytes) (token : Option Bytes) (args : List Bytes) (queue : Entries V)
      → a.find_param a.node name ≡ some p
      → p.is_text ≡ false
      → ((offsets : List ℤ)
          → param_offsets_parse_from_str p.array_size token ≡ some offsets
          → length offsets ≤ most)
      → queue_of (set_param a (name, token) args).effect ≡ some queue
      → (param_offsets_parse_from_str p.array_size token ≡ some (map offset_of queue))
        × AreDistinct (map offset_of queue)
        × (All (IsPlain p.array_size) (tokens_of token) → Within p.array_size (map offset_of queue))
  unfolding set_targets
  set_param-offsets p name token args queue found number few e =
      let few_targets = λ (offsets : List ℤ) (parsed : set_targets p token ≡ targets offsets).
        few offsets
          (check_offsets-AreDistinct (param_offsets_parse_from_str p.array_size token) offsets
            (rw number at parsed)).1 in
      let t =
        set_at-targets p args (set_targets p token) queue few_targets
          (ap queue_of (sym (set_param_found p name token args found)) ∙ e) in
      let (distinct, parsed) =
        check_offsets-AreDistinct (param_offsets_parse_from_str p.array_size token)
          (map offset_of queue) (rw number at t) in
      (
        parsed,
        distinct,
        λ plain.
            param_offsets_parse_from_str-Within p.array_size token (map offset_of queue) plain
              parsed,
      )
