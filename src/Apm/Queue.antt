-- ===== src/Apm/Queue.antt =====
-- slash_apm.c: the list of loaded modules, its order and the versions in it.
use csh.Prelude.{
  ℕ, Option-cases, ◌&&◌, ◌⊎◌, ◌≡◌, refl, Bytes, List, [], ◌∷◌, Option, some, true, false, ◌==◌,
  arith, Bool-cases, inl, inr, All,
}
use csh.Apm.{
  add_initialized, add_loaded, ApmEntry, bytes_gt, apm_queue_add, Library, Loaded, entry, failed,
  null_read, load_apm, Initialized, returned, exits, initialize_apm, LoadEnd, done, load_found,
  crashed, exited,
}

-- Each file name is at most the next.
abbrev pub AreSorted : List ApmEntry → Type 0
AreSorted [] = Unit
AreSorted (e ∷ []) = Unit
AreSorted (e ∷ next ∷ rest) = (bytes_gt e.file next.file ≡ false) × AreSorted (next ∷ rest)

bytes_gt_asym : (a b : Bytes) → bytes_gt a b ≡ true → bytes_gt b a ≡ false
unfolding bytes_gt
bytes_gt_asym [] b h = cc
bytes_gt_asym (x ∷ a) [] h = refl
bytes_gt_asym (x ∷ a) (y ∷ b) h = ground (arith, bytes_gt_asym a b)

add-AreSorted :
    (e : ApmEntry) (queue : List ApmEntry) → AreSorted queue → AreSorted (apm_queue_add e queue)
unfolding apm_queue_add
add-AreSorted e [] s = tt
add-AreSorted e (next ∷ []) s = elim (Bool-cases (bytes_gt e.file next.file)) [
  | inr before ↦ rw before (before, tt)
  | inl after ↦ rw after (bytes_gt_asym e.file next.file after, tt)
]
add-AreSorted e (next ∷ third ∷ rest) s =
    let ih = add-AreSorted e (third ∷ rest) s.1 in
    elim (Bool-cases (bytes_gt e.file next.file)) [
      | inr before ↦ rw before (before, s)
      | inl after ↦ elim (Bool-cases (bytes_gt e.file third.file)) [
        | inr here ↦ rw (after, here) (bytes_gt_asym e.file next.file after, (here, s.1))
        | inl later ↦ rw (after, later) (s.0, rw later at ih)
      ]
    ]

-- the versions that the shell's own version takes
abbrev pub IsCompatible : ℕ → ApmEntry → Type 0
IsCompatible own e = (own ≡ e.apm_init_version) ⊎ ((own ≡ 9) × (e.apm_init_version ≡ 8))

abbrev pub IsQueue : ℕ → List ApmEntry → Type 0
IsQueue own queue = AreSorted queue × All (IsCompatible own) queue

add-IsCompatible :
    (own : ℕ) (e : ApmEntry) (queue : List ApmEntry)
    → IsCompatible own e
    → All (IsCompatible own) queue
    → All (IsCompatible own) (apm_queue_add e queue)
unfolding apm_queue_add
add-IsCompatible own e [] f h = (f, tt)
add-IsCompatible own e (next ∷ rest) f h =
    let ih = add-IsCompatible own e rest f h.1 in
    elim (Bool-cases (bytes_gt e.file next.file)) [
      | inr before ↦ rw before (f, h)
      | inl after ↦ rw after (h.0, ih)
    ]

-- The list is left as `P` wants it, if the program goes on.
abbrev pub EndsWith : (List ApmEntry → Type 0) → LoadEnd → Type 0
EndsWith P (done status queue) = P queue
EndsWith P exited = Unit
EndsWith P crashed = Unit

initialized-IsCompatible :
    (own : ℕ) (handle : Library) (version : ℕ) (path file : Bytes)
    → handle.apm_init_version ≡ some version
    → initialize_apm own handle ≡ returned true
    → IsCompatible own (record { path = path; file = file; apm_init_version = version })
unfolding initialize_apm
initialized-IsCompatible own handle version path file v h = elim (Bool-cases (own == version)) [
  | inl same ↦ inl (ground arith)
  | inr differ ↦ elim (Bool-cases (own == 9 && version == 8)) [
    | inl old ↦ inr (ground arith)
    | inr other ↦ absurd (cc (rw (v, differ, other) at h))
  ]
]

-- the version of an entry is the one in its library
abbrev IsOf : Loaded → Type 0
IsOf (entry e handle) = handle.apm_init_version ≡ some e.apm_init_version
IsOf failed = Unit
IsOf null_read = Unit

load_apm-IsOf : (dlopen : Bytes → Option Library) (path : Bytes) → IsOf (load_apm dlopen path)
unfolding load_apm
load_apm-IsOf dlopen path = elim (Option-cases (dlopen path)) [
  | inl missing ↦ rw (missing, IsOf) tt
  | inr (handle, found) ↦ elim (Option-cases handle.apm_init_version) [
    | inl unset ↦ rw (found, unset, IsOf) tt
    | inr (version, v) ↦ rw (found, v, IsOf) v
  ]
]

add_initialized-IsQueue :
    (own : ℕ) (i : Initialized) (e : ApmEntry) (queue : List ApmEntry)
    (rest : List ApmEntry → LoadEnd)
    → IsQueue own queue
    → (i ≡ returned true → IsCompatible own e)
    → ((q : List ApmEntry) → IsQueue own q → EndsWith (IsQueue own) (rest q))
    → EndsWith (IsQueue own) (add_initialized i e queue rest)
unfolding add_initialized
add_initialized-IsQueue own exits e queue rest h fit next = tt
add_initialized-IsQueue own (returned false) e queue rest h fit next = next queue h
add_initialized-IsQueue own (returned true) e queue rest h fit next =
    next (apm_queue_add e queue)
      (add-AreSorted e queue h.0, add-IsCompatible own e queue (fit refl) h.1)

add_loaded-IsQueue :
    (own : ℕ) (loaded : Loaded) (queue : List ApmEntry) (rest : List ApmEntry → LoadEnd)
    → IsQueue own queue
    → IsOf loaded
    → ((q : List ApmEntry) → IsQueue own q → EndsWith (IsQueue own) (rest q))
    → EndsWith (IsQueue own) (add_loaded own loaded queue rest)
unfolding add_loaded
add_loaded-IsQueue own failed queue rest h of next = h
add_loaded-IsQueue own null_read queue rest h of next = tt
add_loaded-IsQueue own (entry e handle) queue rest h of next =
    add_initialized-IsQueue own (initialize_apm own handle) e queue rest h
      (initialized-IsCompatible own handle e.apm_init_version e.path e.file of) next

-- Loading any libraries keeps the list of loaded modules, wherever the loop ends without the program:
-- sorted by file name, and with only modules of the shell's own interface version or, for a shell of
-- version 9, of version 8.
pub load_found-IsQueue :
    (own : ℕ) (dlopen : Bytes → Option Library) (libs : List Bytes) (queue : List ApmEntry)
    → IsQueue own queue
    → EndsWith (IsQueue own) (load_found own dlopen libs queue)
unfolding load_found
load_found-IsQueue own dlopen [] queue h = h
load_found-IsQueue own dlopen (lib ∷ libs) queue h =
    add_loaded-IsQueue own (load_apm dlopen lib) queue (λ q. load_found own dlopen libs q) h
      (load_apm-IsOf dlopen lib) (λ q v. load_found-IsQueue own dlopen libs q v)
