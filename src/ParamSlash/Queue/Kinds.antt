-- ===== src/ParamSlash/Queue/Kinds.antt =====
-- param_slash.c: a command that sets has values, and one that gets has none.
use csh.Prelude.{
  ℕ, ◌+◌, ◌≡◌, refl, ◌∙◌, ◌⊎◌, inl, inr, Bytes, codes, bytes_eq, ◌<◌, Option, none, some, List, [],
  ◌∷◌, Bool, true, false, ◌&&◌, not, leb, length, Bool-cases, Option-cases, arith, All, All-append,
}
use csh.Prelude.Int.{ℤ, negsuc}
use csh.Slash.{success, argument}
use csh.ParamSlash.Queue.{
  QueueType, empty, get, set, Param, Entry, Queue, meets, param_slash_parse, is_included, type_of,
  cmd_new, cmd_done, param_queue_add, add_included, AddArguments, add_value, add_set, cmd_add, Sent,
  nothing, push, pull, cmd_run, Edit, new, add, leave, run_edits,
}

type_cases : (t : QueueType) → (t ≡ empty) ⊎ ((t ≡ get) ⊎ (t ≡ set))
type_cases empty = inl refl
type_cases get = inr (inl refl)
type_cases set = inr (inr refl)

module _ {V : Type 0} where
  abbrev pub Fits : QueueType → Entry V → Type 0
  Fits empty e = Unit
  Fits get e = e.value ≡ none
  Fits set e = (v : V) × (e.value ≡ some v)

  -- Each entry fits the type of the command; a command that is done says nothing.
  abbrev pub IsQueue : Queue V → Type 0
  IsQueue q = All (Fits q.type) q.entries

  param_queue_add-IsQueue :
      (has_room : List (Entry V) → Bool) (id : ℕ) (offset : ℤ) (value : Option V) (q : Queue V)
      → Fits q.type (record { id = id; offset = offset; value = value })
      → IsQueue q
      → IsQueue (param_queue_add has_room id offset value q)
  param_queue_add-IsQueue has_room id offset value q fit h =
      elim (Bool-cases (has_room q.entries)) [
        | inl room ↦ rw room (
            All-append (Fits q.type) q.entries
              (record { id = id; offset = offset; value = value } ∷ []) h (fit, tt))
        | inr full ↦ rw full h
      ]

  param_queue_add_type :
      (has_room : List (Entry V) → Bool) (id : ℕ) (offset : ℤ) (value : Option V) (q : Queue V)
      → (param_queue_add has_room id offset value q).type ≡ q.type
  param_queue_add_type has_room id offset value q = elim (Bool-cases (has_room q.entries)) [
    | inl room ↦ rw room refl
    | inr full ↦ rw full refl
  ]

  add_included-IsQueue :
      (has_room : List (Entry V) → Bool) (included : Param → Bool) (params : List Param)
      (q : Queue V)
      → q.type ≡ get
      → IsQueue q
      → IsQueue (add_included has_room included params q)
  unfolding add_included
  add_included-IsQueue has_room included [] q same h = h
  add_included-IsQueue has_room included (p ∷ params) q same h = elim (Bool-cases (included p)) [
    | inl wanted ↦
        rw (wanted, add_included)
          (add_included-IsQueue has_room included params
            (param_queue_add has_room p.id (negsuc 0) none q)
            (param_queue_add_type has_room p.id (negsuc 0) none q ∙ same)
            (param_queue_add-IsQueue has_room p.id (negsuc 0) none q (rw same refl) h))
    | inr other ↦ rw (other, add_included) (add_included-IsQueue has_room included params q same h)
  ]

  add_value-IsQueue :
      (a : AddArguments V) (p : Param) (offset : ℤ) (args : List Bytes) (q : Queue V)
      → q.type ≡ set
      → IsQueue q
      → IsQueue (add_value a p offset args q).queue
  unfolding add_value
  add_value-IsQueue a p offset [] q same h = h
  add_value-IsQueue a p offset (arg ∷ args) q same h =
      elim (Bool-cases (meets p.mask a.pm_readonly && not a.force)) [
        | inl readonly ↦ rw readonly h
        | inr writable ↦ elim (Option-cases (a.str_to_value p arg)) [
          | inl no_value ↦ rw (writable, no_value) h
          | inr (v, value) ↦
              rw (writable, value)
                (param_queue_add-IsQueue a.has_room p.id offset (some v) q (rw same (v, refl)) h)
        ]
      ]

  add_set-IsQueue :
      (a : AddArguments V) (name : Bytes) (args : List Bytes) (q : Queue V)
      → q.type ≡ set
      → IsQueue q
      → IsQueue (add_set a name args q).queue
  unfolding add_set
  add_set-IsQueue a name args q same h =
      elim (Option-cases (a.find_param (param_slash_parse name).0)) [
        | inl missing ↦ rw (missing, add_set) h
        | inr (p, found) ↦
            rw (found, add_set) (add_value-IsQueue a p (param_slash_parse name).1 args q same h)
      ]

  cmd_add-IsQueue :
      (a : AddArguments V) (arguments : Option (Bytes × List Bytes)) (q : Queue V)
      → IsQueue q
      → IsQueue (cmd_add a arguments q).queue
  unfolding cmd_add
  cmd_add-IsQueue a none q h = h
  cmd_add-IsQueue a (some (name, args)) q h = elim (type_cases q.type) [
    | inl nothing_open ↦ rw (nothing_open, cmd_add) h
    | inr (inl getting) ↦
        rw (getting, cmd_add)
          (add_included-IsQueue a.has_room
            (is_included a.strmatch a.node a.include_mask a.exclude_mask name) a.params q getting h)
    | inr (inr setting) ↦ rw (setting, cmd_add) (add_set-IsQueue a name args q setting h)
  ]

  -- A new command has a name.
  abbrev pub HasName : Edit V → Type 0
  HasName (new room paramver none argv) = Unit
  HasName (new room paramver (some argi) argv) = argi + 2 < length argv
  HasName (add a arguments) = Unit
  HasName leave = Unit

  cmd_new-IsQueue :
      (room : ℕ) (paramver : ℤ) (argi : Option ℕ) (argv : List Bytes) (q : Queue V)
      → HasName (new room paramver argi argv)
      → IsQueue q
      → IsQueue (cmd_new room paramver argi argv q).queue
  unfolding cmd_new
  cmd_new-IsQueue room paramver none argv q hn h = h
  cmd_new-IsQueue room paramver (some argi) argv q hn h =
      let one : leb (length argv) (argi + 1) ≡ false = ground arith in
      let two : leb (length argv) (argi + 2) ≡ false = ground arith in
      elim (Option-cases (type_of (argument (argi + 1) argv))) [
        | inl other ↦ rw (one, other) h
        | inr (type, word) ↦ rw (one, word, two) tt
      ]

  done-IsQueue : (entries : List (Entry V)) → All (Fits empty) entries
  done-IsQueue [] = tt
  done-IsQueue (e ∷ entries) = (tt, done-IsQueue entries)

  run_edits-IsQueue :
      (edits : List (Edit V)) (q : Queue V)
      → All HasName edits
      → IsQueue q
      → IsQueue (run_edits edits q)
  unfolding run_edits cmd_done
  run_edits-IsQueue [] q hn h = h
  run_edits-IsQueue (new room paramver argi argv ∷ edits) q hn h =
      run_edits-IsQueue edits (cmd_new room paramver argi argv q).queue hn.1
        (cmd_new-IsQueue room paramver argi argv q hn.0 h)
  run_edits-IsQueue (add a arguments ∷ edits) q hn h =
      run_edits-IsQueue edits (cmd_add a arguments q).queue hn.1 (cmd_add-IsQueue a arguments q h)
  run_edits-IsQueue (leave ∷ edits) q hn h =
      run_edits-IsQueue edits (cmd_done q).queue hn.1 (done-IsQueue q.entries)

  -- A push has a value in each entry, and a pull in none.
  abbrev pub IsSent : Sent V → Type 0
  IsSent nothing = Unit
  IsSent (push entries) = All (Fits set) entries
  IsSent (pull entries) = All (Fits get) entries

  cmd_run-IsSent :
      (answers : Bool) (argi : Option ℕ) (q : Queue V)
      → IsQueue q
      → IsSent (cmd_run answers argi q).1
  unfolding cmd_run
  cmd_run-IsSent answers none q h = tt
  cmd_run-IsSent answers (some argi) q h = elim (type_cases q.type) [
    | inl closed ↦ rw (closed, cmd_run) tt
    | inr (inl getting) ↦ rw (getting, cmd_run) (rw getting at h)
    | inr (inr setting) ↦ rw (setting, cmd_run) (rw setting at h)
  ]

  -- From a queue that a command has kept by its type, behind any command lines that edit a command, each `cmd new` among them with a name, `cmd run` pushes only
  -- entries with a value and pulls only entries without.
  pub cmd_run-run_edits :
      (edits : List (Edit V)) (q : Queue V) (answers : Bool) (argi : Option ℕ)
      → All HasName edits
      → IsQueue q
      → IsSent (cmd_run answers argi (run_edits edits q)).1
  cmd_run-run_edits edits q answers argi hn h =
      cmd_run-IsSent answers argi (run_edits edits q) (run_edits-IsQueue edits q hn h)

  -- `cmd new set` without a name makes a command that sets of the entries of one that gets.
  pub cmd_new_unnamed :
      (room argi : ℕ) (paramver : ℤ) (argv : List Bytes) (q : Queue V)
      → argi + 2 ≡ length argv
      → argument (argi + 1) argv ≡ codes "set"
      → cmd_run true (some argi) (cmd_new room paramver (some argi) argv q).queue
        ≡ (success, push q.entries)
  unfolding cmd_new cmd_run
  cmd_new_unnamed room argi paramver argv q h word =
      let one : leb (length argv) (argi + 1) ≡ false = ground arith in
      let two : leb (length argv) (argi + 2) ≡ true = ground arith in
      let type : type_of (argument (argi + 1) argv) ≡ some set =
        rw word (unfold bytes_eq in refl) in
      rw (one, type, two) refl
