-- ===== src/ParamSlash/Offsets/Bounds.antt =====
-- param_slash.c: the indices stay in the array.
use csh.Prelude.{
  ℕ, zero, suc, ◌+◌, ◌-◌, ◌≤◌, ◌<◌, ◌≡◌, refl, sym, ap, inl, inr, Bytes, Option, none, some, List,
  [], ◌∷◌, ◌++◌, false, ◌||◌, ltb, leb, length, All, All-append, Bool-cases, bind-eq-some, arith,
  length-append,
}
use csh.Prelude.Int.{ℤ, pos, negsuc}
use csh.ParamSlash.Offsets.{
  tokens, has_byte, Slice, invalid, ends, undetermined, param_slash_parse_slice, given, index_or,
  add_indices, add_slice, plain_index, add_token, add_tokens, count_up,
  param_offsets_parse_from_str,
}

abbrev pub InRange : ℕ → ℤ → Type 0
InRange array_size (pos i) = i < array_size
InRange array_size (negsuc i) = ⊥

-- At most as many indices as cells, each of a cell.
abbrev pub Within : ℕ → List ℤ → Type 0
Within array_size offsets = (length offsets ≤ array_size) × All (InRange array_size) offsets

snoc-Within :
    (array_size : ℕ) (offsets : List ℤ) (x : ℤ)
    → Within array_size offsets
    → leb array_size (length offsets) ≡ false
    → InRange array_size x
    → Within array_size (offsets ++ x ∷ [])
snoc-Within array_size offsets x h room hx = (
  ground (arith, length-append offsets (x ∷ []), h.0),
  All-append (InRange array_size) offsets (x ∷ []) h.1 (hx, tt),
)

add_indices-Within :
    (array_size n i : ℕ) (offsets result : List ℤ)
    → Within array_size offsets
    → i + n ≤ array_size
    → add_indices array_size n i offsets ≡ some result
    → Within array_size result
unfolding add_indices
add_indices-Within array_size zero i offsets result h hi e =
    let same : offsets ≡ result = cc in rw (sym same) h
add_indices-Within array_size (suc n) i offsets result h hi e =
    elim (Bool-cases (leb array_size (length offsets))) [
      | inl full ↦ absurd (cc (rw full at e))
      | inr room ↦
          add_indices-Within array_size n (suc i) (offsets ++ pos i ∷ []) result
            (snoc-Within array_size offsets (pos i) h room (omega arith)) (omega arith)
            (rw room at e)
    ]

add_slice-Within :
    (array_size : ℕ) (slice : Slice) (offsets result : List ℤ)
    → Within array_size offsets
    → add_slice array_size slice offsets ≡ some result
    → Within array_size result
unfolding add_slice
add_slice-Within array_size (ends first second) offsets result h e =
    let (start, e1, e2) = bind-eq-some (index_or array_size 0 (given first)) _ e in
    let (end, e3, e4) = bind-eq-some (index_or array_size array_size (given second)) _ e2 in
    elim (Bool-cases (leb end start || ltb array_size end)) [
      | inl outside ↦ absurd (cc (rw outside at e4))
      | inr inside ↦
          add_indices-Within array_size (end - start) start offsets result h (ground arith)
            (rw inside at e4)
    ]
add_slice-Within array_size invalid offsets result h e = cc
add_slice-Within array_size undetermined offsets result h e = cc

-- A token without ':' names a cell.
abbrev pub IsPlain : ℕ → Bytes → Type 0
IsPlain array_size token =
    has_byte b':' token ≡ false → InRange array_size (plain_index array_size token)

add_token-Within :
    (array_size : ℕ) (token : Bytes) (offsets result : List ℤ)
    → IsPlain array_size token
    → Within array_size offsets
    → add_token array_size token offsets ≡ some result
    → Within array_size result
unfolding add_token
add_token-Within array_size token offsets result hp h e =
    elim (Bool-cases (leb array_size (length offsets))) [
      | inl full ↦ absurd (cc (rw full at e))
      | inr room ↦ elim (Bool-cases (has_byte b':' token)) [
        | inl slice ↦
            add_slice-Within array_size (param_slash_parse_slice token) offsets result h
              (rw (room, slice) at e)
        | inr plain ↦
            let same : offsets ++ plain_index array_size token ∷ [] ≡ result =
              cc (rw (room, plain) at e) in
            rw (sym same)
              (snoc-Within array_size offsets (plain_index array_size token) h room (hp plain))
      ]
    ]

add_tokens-Within :
    (array_size : ℕ) (ts : List Bytes) (offsets result : List ℤ)
    → All (IsPlain array_size) ts
    → Within array_size offsets
    → add_tokens array_size ts offsets ≡ some result
    → Within array_size result
unfolding add_tokens
add_tokens-Within array_size [] offsets result hp h e =
    let same : offsets ≡ result = cc in rw (sym same) h
add_tokens-Within array_size (token ∷ ts) offsets result hp h e =
    let (more, e1, e2) =
      bind-eq-some (add_token array_size token offsets) (add_tokens array_size ts) e in
    add_tokens-Within array_size ts more result hp.1
      (add_token-Within array_size token offsets more hp.0 h e1) e2

count_up-Within :
    (array_size n i : ℕ)
    → i + n ≡ array_size
    → (length (count_up n i) ≡ n) × All (InRange array_size) (count_up n i)
count_up-Within array_size zero i h = (refl, tt)
count_up-Within array_size (suc n) i h =
    let (len, all) = count_up-Within array_size n (suc i) (omega arith) in
    (ap suc len, (omega arith, all))

abbrev pub tokens_of : Option Bytes → List Bytes
tokens_of none = []
tokens_of (some arg) = tokens b',' arg

-- Where the tokens without ':' name cells of the array, all the indices that are read from the text, or taken
-- without one, are cells of it, those of every slice included, and there are not more of them than cells.
pub param_offsets_parse_from_str-Within :
    (array_size : ℕ) (arg : Option Bytes) (result : List ℤ)
    → All (IsPlain array_size) (tokens_of arg)
    → param_offsets_parse_from_str array_size arg ≡ some result
    → Within array_size result
unfolding param_offsets_parse_from_str
param_offsets_parse_from_str-Within array_size none result hp e =
    let same : count_up array_size 0 ≡ result = cc in
    let (len, all) = count_up-Within array_size array_size 0 (omega arith) in
    rw (sym same) (omega (arith, len), all)
param_offsets_parse_from_str-Within array_size (some arg) result hp e =
    add_tokens-Within array_size (tokens b',' arg) [] result hp (omega arith, tt) e
