-- ===== src/EnvCommands/Completer/Prefix.antt =====
-- slash_env_var_cmds.c: how much of the first matching name is completed.
use csh.Prelude.{
  ℕ, ◌≡◌, refl, Bytes, Option, none, some, List, [], ◌∷◌, true, false, if◌then◌else◌, ◌==◌, length,
  take, ap, sym, ◌∙◌, arith, Bool-cases, inl, inr,
}
use csh.EnvCommands.Completer.{
  Completion, prefix_length, is_match, add_match, env_var_completer_csh_foreach_var_cb,
  foreach_name, start,
}

-- the names that match, in the order of the callback
abbrev pub matching : Bytes → List Bytes → List Bytes
matching to_match [] = []
matching to_match (name ∷ names) =
    let rest = matching to_match names in if is_match to_match name then name ∷ rest else rest

-- the length that is kept for the first match, after the matches that follow it
abbrev pub kept : Bytes → ℕ → List Bytes → ℕ
kept first n [] = n
kept first n (name ∷ names) = kept first (prefix_length name first) names

callback_again :
    (to_match first name : Bytes) (ctx : Completion)
    → ctx.previous_match ≡ some first
    → let ctx' = env_var_completer_csh_foreach_var_cb to_match name ctx in
      (ctx'.previous_match ≡ some first)
      × (ctx'.prev_match_length
          ≡ (if is_match to_match name then prefix_length name first else ctx.prev_match_length))
unfolding env_var_completer_csh_foreach_var_cb
callback_again to_match first name ctx h = elim (Bool-cases (is_match to_match name)) [
  | inl matched ↦ rw (matched, h) (refl, refl)
  | inr other ↦ elim (Bool-cases (ctx.matches == 2)) [
    | inl two ↦ rw (other, two) (h, refl)
    | inr n ↦ rw (other, n) (h, refl)
  ]
]

foreach_name-kept :
    (to_match first : Bytes) (names : List Bytes) (ctx : Completion)
    → ctx.previous_match ≡ some first
    → ((foreach_name to_match names ctx).previous_match ≡ some first)
      × ((foreach_name to_match names ctx).prev_match_length
          ≡ kept first ctx.prev_match_length (matching to_match names))
unfolding foreach_name
foreach_name-kept to_match first [] ctx h = (h, refl)
foreach_name-kept to_match first (name ∷ names) ctx h =
    let (again, len) = callback_again to_match first name ctx h in
    let ctx' : Completion = env_var_completer_csh_foreach_var_cb to_match name ctx in
    let (first', rest) = foreach_name-kept to_match first names ctx' again in
    (
      first',
      elim (Bool-cases (is_match to_match name)) [
        | inl matched ↦
            rw matched
              (rest ∙ ap (λ n. kept first n (matching to_match names)) (len ∙ rw matched refl))
        | inr other ↦
            rw other (rest ∙ ap (λ n. kept first n (matching to_match names)) (len ∙ rw other refl))
      ],
    )

-- What the completion keeps for the names that match: the first of them, and a length.
abbrev pub completed : List Bytes → Option Bytes × ℕ
completed [] = (none, 0)
completed (first ∷ names) = (some first, kept first (length first) names)

abbrev pub kept_of : Completion → Option Bytes × ℕ
kept_of ctx = (ctx.previous_match, ctx.prev_match_length)

kept_of_eq :
    (ctx : Completion) (first : Bytes) (n : ℕ)
    → ctx.previous_match ≡ some first
    → ctx.prev_match_length ≡ n
    → kept_of ctx ≡ (some first, n)
kept_of_eq ctx first n h k = rw (h, k) refl

callback_first :
    (to_match name : Bytes)
    → is_match to_match name ≡ true
    → env_var_completer_csh_foreach_var_cb to_match name start ≡ add_match name start
unfolding env_var_completer_csh_foreach_var_cb
callback_first to_match name h = rw h refl

callback_other :
    (to_match name : Bytes)
    → is_match to_match name ≡ false
    → env_var_completer_csh_foreach_var_cb to_match name start ≡ start
unfolding env_var_completer_csh_foreach_var_cb
callback_other to_match name h = rw h refl

-- Over any variables, the completion keeps the first name that matches and, as the length to copy of
-- it, what that name shares with the last name that matches: the names between the two have no effect.
pub foreach_name-completed :
    (to_match : Bytes) (names : List Bytes)
    → kept_of (foreach_name to_match names start) ≡ completed (matching to_match names)
unfolding foreach_name
foreach_name-completed to_match [] = refl
foreach_name-completed to_match (name ∷ names) =
    let after : Completion → Option Bytes × ℕ = λ ctx. kept_of (foreach_name to_match names ctx) in
    elim (Bool-cases (is_match to_match name)) [
      | inl matched ↦
          let (first, len) = foreach_name-kept to_match name names (add_match name start) refl in
          let n = kept name (length name) (matching to_match names) in
          rw matched (
            ap after (callback_first to_match name matched)
            ∙ kept_of_eq (foreach_name to_match names (add_match name start)) name n first len)
      | inr other ↦
          rw other
            (ap after (callback_other to_match name other) ∙ foreach_name-completed to_match names)
    ]

take-prefix_length : (s1 s2 : Bytes) → take (prefix_length s1 s2) s1 ≡ take (prefix_length s1 s2) s2
unfolding prefix_length
take-prefix_length (x ∷ s1) (y ∷ s2) = elim (Bool-cases (x == y)) [
  | inl same ↦
      let e : x ≡ y = ground arith in rw same (rw e (ap (λ xs. y ∷ xs) (take-prefix_length s1 s2)))
  | inr differ ↦ rw differ refl
]
take-prefix_length _ _ = refl

-- When exactly two names match, what is copied of the first is a prefix of the second.
pub foreach_name_two :
    (to_match first second : Bytes) (names : List Bytes)
    → matching to_match names ≡ first ∷ second ∷ []
    → let ctx = foreach_name to_match names start in
      (ctx.previous_match ≡ some first)
      × (take ctx.prev_match_length first ≡ take ctx.prev_match_length second)
foreach_name_two to_match first second names h =
    let e = foreach_name-completed to_match names ∙ ap completed h in
    (ap (λ p. p.0) e, rw (ap (λ p. p.1) e) (sym (take-prefix_length second first)))
