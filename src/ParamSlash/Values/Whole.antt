-- ===== src/ParamSlash/Values/Whole.antt =====
-- param_slash.c: which offsets a `set` command sets.
use csh.Prelude.{
  ℕ, zero, suc, ◌≡◌, ◌≢◌, refl, sym, ap, ◌∙◌, ◌⊎◌, inl, inr, Bytes, Option, some, List, [], ◌∷◌,
  ◌++◌, Bool, true, false, ◌&&◌, not, if◌then◌else◌, ◌==◌, ltb, length, length-map, length-append,
  length-take, ◌+◌, ◌<◌, ◌≤◌, take, take_all, get_elem?, map, drop, Bool-cases, Option-cases, arith,
  append-nil, append_assoc,
}
use csh.Prelude.Int.{ℤ}
use csh.ParamSlash.Offsets.{has_byte}
use csh.ParamSlash.Values.{
  Entries, filled, close_bracket, queue_add, add_single, add_value, end_round, value_loop,
}

abbrev pub offset_of : {V : Type 0} → ℤ × V → ℤ
offset_of (offset, v) = offset

get_elem?_below : (xs : List ℤ) (i : ℕ) (x : ℤ) → get_elem? xs i ≡ some x → i < length xs
get_elem?_below [] i x h = cc
get_elem?_below (y ∷ xs) zero x h = omega arith
get_elem?_below (y ∷ xs) (suc i) x h = omega (arith, get_elem?_below xs i x h)

module _ {V : Type 0} (str_to_value : Bytes → Option V) (has_room : Entries V → Bool) (most : ℕ)
    (room : (queue : Entries V) → length queue < most → has_room queue ≡ true) where
  map-snoc :
      (queue : Entries V) (offset : ℤ) (v : V)
      → map offset_of (queue ++ (offset, v) ∷ []) ≡ map offset_of queue ++ offset ∷ []
  map-snoc [] offset v = refl
  map-snoc (e ∷ queue) offset v = ap (λ (l : List ℤ). offset_of e ∷ l) (map-snoc queue offset v)

  map-queue_add :
      (queue : Entries V) (offset : ℤ) (v : V)
      → length queue < most
      → map offset_of (queue_add str_to_value has_room queue offset v)
        ≡ map offset_of queue ++ offset ∷ []
  map-queue_add queue offset v h = rw (room queue h) (map-snoc queue offset v)

  map-add_single :
      (offsets : List ℤ) (v : V) (queue : Entries V)
      → length queue + length offsets ≤ most
      → map offset_of (add_single str_to_value has_room offsets v queue)
        ≡ map offset_of queue ++ offsets
  unfolding add_single
  map-add_single [] v queue h = sym (append-nil (map offset_of queue))
  map-add_single (offset ∷ offsets) v queue h =
      let grown = map-queue_add queue offset v (omega arith) in
      let length_is = length-map (queue_add str_to_value has_room queue offset v) offset_of in
      let size =
        ap length grown
        ∙ length-append (map offset_of queue) (offset ∷ [])
        ∙ ap (λ (n : ℕ). n + 1) (length-map queue offset_of) in
      map-add_single offsets v (queue_add str_to_value has_room queue offset v)
        (omega (arith, h, length_is, size))
      ∙ (ap (λ (l : List ℤ). l ++ offsets) grown
          ∙ append_assoc (map offset_of queue) (offset ∷ []) offsets)

  Ended : List ℤ → List Bytes → ℕ → Entries V → Entries V → Type 0
  Ended offsets args iterations queue q =
      ((suc iterations ≡ length offsets) × (queue ≡ q))
      ⊎ (value_loop str_to_value has_room offsets args (suc iterations) queue ≡ filled q)

  end_round-Ended :
      (offsets : List ℤ) (args : List Bytes) (iterations : ℕ) (closes : Bool) (queue q : Entries V)
      → end_round str_to_value has_room offsets iterations closes queue
          (value_loop str_to_value has_room offsets args (suc iterations))
        ≡ filled q
      → Ended offsets args iterations queue q
  unfolding Ended
  end_round-Ended offsets args iterations false queue q e = inr e
  end_round-Ended offsets args iterations true queue q e =
      elim (Bool-cases (suc iterations == length offsets)) [
        | inl whole ↦ inl (ground arith, cc (rw whole at e))
        | inr part ↦ absurd (cc (rw part at e))
      ]

  -- What a round has done when the loop ends with a queue.
  Round : List ℤ → List Bytes → ℕ → Entries V → Entries V → Type 0
  Round offsets args iterations queue q =
      ((iterations ≡ 0) × ((v : V) × (add_single str_to_value has_room offsets v queue ≡ q)))
      ⊎ ((offset : ℤ) × (v : V) × (get_elem? offsets iterations ≡ some offset)
          × Ended offsets args iterations (queue_add str_to_value has_room queue offset v) q)

  add_value-Round :
      (offsets : List ℤ) (args : List Bytes) (iterations : ℕ) (closes : Bool) (v : V)
      (queue q : Entries V)
      → add_value str_to_value has_room offsets iterations closes v queue
          (value_loop str_to_value has_room offsets args (suc iterations))
        ≡ filled q
      → Round offsets args iterations queue q
  unfolding Round
  add_value-Round offsets args iterations closes v queue q e =
      elim (Bool-cases (ltb (length offsets) iterations)) [
        | inl over ↦ absurd (cc (rw over at e))
        | inr under ↦ elim (Option-cases (get_elem? offsets iterations)) [
          | inl no_offset ↦ absurd (cc (rw (under, no_offset) at e))
          | inr (offset, found) ↦ elim (Bool-cases (has_room queue)) [
            | inr full ↦ absurd (cc (rw (under, found, full) at e))
            | inl room' ↦ inr (
              offset,
              v,
              found,
              rw room' (
                  end_round-Ended offsets args iterations closes (queue ++ (offset, v) ∷ []) q
                    (rw (under, found, room') at e)),
            )
          ]
        ]
      ]

  value_loop-Round :
      (offsets : List ℤ) (arg : Bytes) (args : List Bytes) (iterations : ℕ) (queue q : Entries V)
      → value_loop str_to_value has_room offsets (arg ∷ args) iterations queue ≡ filled q
      → Round offsets args iterations queue q
  unfolding value_loop Round
  value_loop-Round offsets arg args iterations queue q e =
      let opens = has_byte b'[' arg in
      let b = close_bracket (if opens then drop 1 arg else arg) in
      elim (Bool-cases (opens && length offsets == 1)) [
        | inl indexed ↦ absurd (cc (rw indexed at e))
        | inr array ↦ elim (Bool-cases (length arg == 0)) [
          | inl empty ↦ absurd (cc (rw (array, empty) at e))
          | inr text ↦ elim (Option-cases (str_to_value b.text)) [
            | inl no_value ↦ absurd (cc (rw (array, text, no_value) at e))
            | inr (v, value) ↦ elim (Bool-cases (not opens && not b.closes && iterations == 0)) [
              | inl single ↦
                  inl (ground (arith, single), (v, cc (rw (array, text, value, single) at e)))
              | inr several ↦
                  add_value-Round offsets args iterations b.closes v queue q
                    (rw (array, text, value, several) at e)
            ]
          ]
        ]
      ]

  take-suc :
      (n : ℕ) (xs : List ℤ) (x : ℤ)
      → get_elem? xs n ≡ some x
      → take (suc n) xs ≡ take n xs ++ x ∷ []
  take-suc n [] x h = cc
  take-suc zero (y ∷ xs) x h = cc
  take-suc (suc n) (y ∷ xs) x h = ap (λ (l : List ℤ). y ∷ l) (take-suc n xs x h)

  no_values :
      (offsets : List ℤ) (iterations : ℕ) (queue q : Entries V)
      → value_loop str_to_value has_room offsets [] iterations queue ≢ filled q
  unfolding value_loop
  no_values offsets iterations queue q e = cc

  map-value_loop :
      (offsets : List ℤ) (args : List Bytes) (iterations : ℕ) (queue q : Entries V)
      → length offsets ≤ most
      → map offset_of queue ≡ take iterations offsets
      → value_loop str_to_value has_room offsets args iterations queue ≡ filled q
      → map offset_of q ≡ offsets
  unfolding Round Ended
  map-value_loop offsets [] iterations queue q few h e =
      absurd (no_values offsets iterations queue q e)
  map-value_loop offsets (arg ∷ args) iterations queue q few h e =
      let size =
        sym (length-map queue offset_of) ∙ (ap length h ∙ length-take iterations offsets) in
      elim (value_loop-Round offsets arg args iterations queue q e) [
        | inl (first, (v, added)) ↦
            ap (map offset_of) (sym added)
            ∙ (map-add_single offsets v queue (omega (arith, first, size))
                ∙ ap (λ (l : List ℤ). l ++ offsets) (h ∙ ap (λ (n : ℕ). take n offsets) first))
        | inr (offset, v, found, ended) ↦
            let grown =
              map-queue_add queue offset v
                (omega (arith, size, get_elem?_below offsets iterations offset found))
              ∙ (ap (λ (l : List ℤ). l ++ offset ∷ []) h
                  ∙ sym (take-suc iterations offsets offset found)) in
            elim ended [
              | inl (whole, same) ↦
                  ap (map offset_of) (sym same)
                  ∙ (grown ∙ take_all (suc iterations) offsets (omega (arith, whole)))
              | inr more ↦
                  map-value_loop offsets args (suc iterations)
                    (queue_add str_to_value has_room queue offset v) q few grown more
            ]
      ]

  -- Where a queue of fewer entries than there are offsets has room, a loop over values that ends with a queue has set each of the offsets once, in
  -- their order: too few values, or too many, are refused.
  pub value_loop-offsets :
      (offsets : List ℤ) (args : List Bytes) (q : Entries V)
      → length offsets ≤ most
      → value_loop str_to_value has_room offsets args 0 [] ≡ filled q
      → map offset_of q ≡ offsets
  value_loop-offsets offsets args q few e = map-value_loop offsets args 0 [] q few refl e
