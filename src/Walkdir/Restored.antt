-- ===== src/Walkdir/Restored.antt =====
-- walkdir.c: the path is restored, and the walk is the recursion on the tree.
use csh.Prelude.{
  ℕ, zero, suc, ◌-◌, ◌≡◌, ◌⊎◌, refl, sym, ap, ◌∙◌, Bytes, Option, none, some, List, [], ◌∷◌, ◌++◌,
  Bool, true, false, if◌then◌else◌, ◌==◌, length, length-append, take, take-append_self,
  append_assoc, Bool-cases, inl, inr, arith, get_or,
}
use csh.ParamSlash.Offsets.{last_is}
use csh.Walkdir.{
  Entries, done, file, directory, special, extend, is_hidden, is_stopped, Walked, followed,
  callback,
}

-- The slash that is needed behind a path.
abbrev pub separator : Bytes → Bytes
separator [] = b'/' ∷ []
separator (c ∷ []) = if c == b'/' then [] else b'/' ∷ []
separator (c ∷ d ∷ path) = separator (d ∷ path)

-- The path, a slash if it does not end in one, and the name, as far as the buffer has room for these.
abbrev pub entry_path : ℕ → Bytes → Bytes → Bytes
entry_path path_size path name = path ++ take (path_size - length path) (separator path ++ name)

last_is-separator : (path : Bytes) → separator path ≡ (if last_is b'/' path then [] else b'/' ∷ [])
last_is-separator [] = refl
last_is-separator (c ∷ []) = refl
last_is-separator (c ∷ d ∷ path) =
    let a : length (c ∷ d ∷ path) - 1 ≡ suc (length path) = omega arith in
    let b : length (d ∷ path) - 1 ≡ length path = omega arith in
    last_is-separator (d ∷ path)
    ∙ ap (λ (i : ℕ). if get_or (d ∷ path) i 0 == b'/' then [] else b'/' ∷ []) b
    ∙ sym (ap (λ (i : ℕ). if get_or (c ∷ d ∷ path) i 0 == b'/' then [] else b'/' ∷ []) a)

take_nil : (k : ℕ) → take {A = ℕ} k [] ≡ []
take_nil zero = refl
take_nil (suc k) = refl

-- A text of one byte, and then another text in the room that is left.
take-one :
    (k c : ℕ) (name : Bytes)
    → take k (c ∷ []) ++ take (k - length (take k (c ∷ []))) name ≡ take k (c ∷ name)
take-one zero c name = refl
take-one (suc k) c name =
    let left : suc k - 1 ≡ k = omega arith in
    ap (λ (l : Bytes). c ∷ (l ++ take (suc k - length (c ∷ l)) name)) (take_nil k)
    ∙ ap (λ (n : ℕ). c ∷ take n name) left

pub extend-entry_path :
    (path_size : ℕ) (path name : Bytes)
    → extend path_size path name ≡ entry_path path_size path name
unfolding extend
extend-entry_path path_size path name = elim (Bool-cases (last_is b'/' path)) [
  | inl slash ↦ rw (last_is-separator path) (rw slash refl)
  | inr plain ↦
      let r = path_size - length path in
      let slash = take r (b'/' ∷ []) in
      let left : path_size - length (path ++ slash) ≡ r - length slash =
        omega (arith, length-append path slash) in
      rw (last_is-separator path) (
        rw plain (
          ap (λ (n : ℕ). (path ++ slash) ++ take n name) left
          ∙ append_assoc path slash (take (r - length slash) name)
          ∙ ap (λ (l : Bytes). path ++ l) (take-one r b'/' name)))
]

module _ (path_size : ℕ) (dir_cb : Bytes → Bytes → Bool) where
  -- the files below a directory, by recursion on the tree, each with the path from the top
  abbrev pub files_below : ℕ → Bytes → Entries → List Bytes
  files_below depth path done = []
  files_below depth path (file name rest) =
      (if is_hidden name then [] else entry_path path_size path name ∷ [])
      ++ files_below depth path rest
  files_below depth path (special name rest) = files_below depth path rest
  files_below zero path (directory name children rest) = files_below zero path rest
  files_below (suc depth) path (directory name children rest) =
      let inside = files_below depth (entry_path path_size path name) children in
      (if is_hidden name
        then []
        else if dir_cb (entry_path path_size path name) name
        then inside
        else [])
      ++ files_below (suc depth) path rest

-- A walk over files, from a path: it has called all and restored the path, or the signal has come, it has called the
-- first ones only, and the buffer holds the path with something behind it.
abbrev pub WalkEnds : Bytes → List Bytes → Walked → Type 0
WalkEnds path files (found, path', signal) =
    ((found ≡ files) × (path' ≡ path))
    ⊎ ((signal ≡ some 0)
        × ((rest : List Bytes) × (found ++ rest ≡ files))
        × ((tail : Bytes) × (path' ≡ path ++ tail)))

-- the same behind one entry, where the path is not yet restored
abbrev pub EntryEnds : Bytes → List Bytes → Walked → Type 0
EntryEnds path files (found, path', signal) =
    ((tail : Bytes) × (path' ≡ path ++ tail))
    × ((found ≡ files) ⊎ ((signal ≡ some 0) × ((rest : List Bytes) × (found ++ rest ≡ files))))

is_stopped_zero : (signal : Option ℕ) → is_stopped signal ≡ true → signal ≡ some 0
is_stopped_zero none h = cc
is_stopped_zero (some zero) h = refl
is_stopped_zero (some (suc n)) h = cc

appended :
    (found rest inside more : List Bytes)
    → found ++ rest ≡ inside
    → found ++ (rest ++ more) ≡ inside ++ more
appended found rest inside more e =
    sym (append_assoc found rest more) ∙ ap (λ (l : List Bytes). l ++ more) e

pub followed-WalkEnds :
    (path : Bytes) (inside files : List Bytes) (here more : Walked)
    → EntryEnds path inside here
    → WalkEnds path files more
    → WalkEnds path (inside ++ files) (followed here more)
followed-WalkEnds path inside files (found, path', signal) (more, path'', signal') (longer, ends)
      later =
    elim (Bool-cases (is_stopped signal)) [
      | inl stop ↦
          let came = is_stopped_zero signal stop in
          rw stop (
            inr (
              came,
              elim ends [
                | inl all ↦ (files, ap (λ (l : List Bytes). l ++ files) all)
                | inr (came', (rest, part)) ↦ (rest ++ files, appended found rest inside files part)
              ],
              longer,
            ))
      | inr going ↦ rw going (elim ends [
        | inr (came, part) ↦ absurd (cc (rw came at going))
        | inl all ↦ elim later [
          | inl (every, restored) ↦ inl (
            ap (λ (l : List Bytes). l ++ more) all ∙ ap (λ (l : List Bytes). inside ++ l) every,
            restored,
          )
          | inr (came, (rest, part), longer') ↦ inr (
            came,
            (
              rest,
              append_assoc found more rest
                  ∙ (ap (λ (l : List Bytes). l ++ (more ++ rest)) all
                      ∙ ap (λ (l : List Bytes). inside ++ l) part),
            ),
            longer',
          )
        ]
      ])
    ]

module _ (path_size : ℕ) (dir_cb : Bytes → Bytes → Bool) where
  take-extend : (path name : Bytes) → take (length path) (extend path_size path name) ≡ path
  take-extend path name =
      ap (take (length path)) (extend-entry_path path_size path name)
      ∙ take-append_self path (take (path_size - length path) (separator path ++ name))

  pub callback-EntryEnds :
      (path name : Bytes) (called : Bool) (signal : Option ℕ)
      → EntryEnds path
          (if called then entry_path path_size path name ∷ [] else [])
          (callback called (extend path_size path name) signal)
  callback-EntryEnds path name true signal =
      let e = extend-entry_path path_size path name in
      (
        (take (path_size - length path) (separator path ++ name), e),
        inl (ap (λ (p : Bytes). p ∷ []) e),
      )
  callback-EntryEnds path name false signal =
      let e = extend-entry_path path_size path name in
      ((take (path_size - length path) (separator path ++ name), e), inl refl)

  pub inside-EntryEnds :
      (path name : Bytes) (files : List Bytes) (here : Walked)
      → WalkEnds (entry_path path_size path name) files here
      → EntryEnds path files here
  inside-EntryEnds path name files (found, path', signal) (inl (all, restored)) =
      ((take (path_size - length path) (separator path ++ name), restored), inl all)
  inside-EntryEnds path name files (found, path', signal) (inr (came, part, (tail, longer))) =
      let added = take (path_size - length path) (separator path ++ name) in
      ((added ++ tail, longer ∙ append_assoc path added tail), inr (came, part))
