-- ===== src/Apm/Search.antt =====
-- slash_apm.c: the files that are found, and the directories that are searched.
use csh.Prelude.{
  ℕ, ◌⊎◌, zero, suc, ◌-◌, ◌≤◌, ◌<◌, ◌≡◌, refl, ◌∙◌, ap, Bytes, bytes_eq, bytes_eq_iff, Option, List,
  [], ◌∷◌, ◌++◌, append_assoc, append-nil, false, ◌||◌, length, length-append, take, take_all, drop,
  All, arith, inl, inr, ◌≢◌,
}
use csh.Apm.{
  ApmEntry, file_name, is_loaded, is_found, file_callback, find_files, search_paths,
  walkdir_max_entries, walkdir_max_path_size,
}

-- What was found so far: it fits the array, names no file twice, and none that is loaded.
abbrev pub AreNew : List ApmEntry → List Bytes → Type 0
AreNew queue [] = Unit
AreNew queue (path ∷ rest) =
    (is_found (file_name path) rest ≡ false)
    × (is_loaded (file_name path) queue ≡ false)
    × AreNew queue rest

pub record IsFound (queue : List ApmEntry) (libs : List Bytes) : Type 0 where
  pub fits : length libs ≤ walkdir_max_entries
  pub new : AreNew queue libs

found-append :
    (libs : List Bytes) (path name : Bytes)
    → is_found name (libs ++ path ∷ []) ≡ (is_found name libs || bytes_eq (file_name path) name)
unfolding is_found
found-append [] path name = ground arith
found-append (x ∷ libs) path name = ground (arith, found-append libs path name)

AreNew-append :
    (queue : List ApmEntry) (libs : List Bytes) (path : Bytes)
    → is_found (file_name path) libs ≡ false
    → is_loaded (file_name path) queue ≡ false
    → AreNew queue libs
    → AreNew queue (libs ++ path ∷ [])
unfolding is_found
AreNew-append queue [] path f l h = (refl, l, tt)
AreNew-append queue (x ∷ libs) path f l h = ground (
  arith,
  found-append libs path (file_name x),
  bytes_eq_iff (file_name x) (file_name path),
  bytes_eq_iff (file_name path) (file_name x),
  AreNew-append queue libs path,
)

-- the last entry of a path is its file name, and the path fits its array
abbrev pub IsEntry : Bytes × Bytes → Type 0
IsEntry (path, name) = (file_name path ≡ name) × (length path ≤ walkdir_max_path_size - 1)

callback_cases :
    (search_str : Option Bytes) (queue : List ApmEntry) (path name : Bytes) (libs : List Bytes)
    → (file_callback search_str queue path name libs ≡ libs)
      ⊎ ((length libs < walkdir_max_entries)
          × (is_loaded name queue ≡ false)
          × (is_found name libs ≡ false)
          × (file_callback search_str queue path name libs
              ≡ libs ++ take (walkdir_max_path_size - 1) path ∷ []))
unfolding file_callback
callback_cases search_str queue path name libs = ground arith

callback-IsFound :
    (search_str : Option Bytes) (queue : List ApmEntry) (path name : Bytes) (libs : List Bytes)
    → file_name path ≡ name
    → length path ≤ walkdir_max_path_size - 1
    → IsFound queue libs
    → IsFound queue (file_callback search_str queue path name libs)
callback-IsFound search_str queue path name libs same short h =
    elim (callback_cases search_str queue path name libs) [
      | inl e ↦ rw e h
      | inr (room, new, first, e) ↦
          rw (e, take_all (walkdir_max_path_size - 1) path short)
            (record {
              fits = ground (arith, length-append libs (path ∷ []));
              new = AreNew-append queue libs path (rw same first) (rw same new) h.new;
            })
    ]

-- Over any files, each with a path that ends in its name and has at most 255 bytes, the search keeps
-- at most 32 libraries, no file name twice, and none that is loaded already.
pub find_files-IsFound :
    (search_str : Option Bytes) (queue : List ApmEntry) (files : List (Bytes × Bytes))
    (libs : List Bytes)
    → All IsEntry files
    → IsFound queue libs
    → IsFound queue (find_files search_str queue files libs)
unfolding find_files
find_files-IsFound search_str queue [] libs v h = h
find_files-IsFound search_str queue ((path, name) ∷ files) libs v h =
    find_files-IsFound search_str queue files (file_callback search_str queue path name libs) v.1
      (callback-IsFound search_str queue path name libs v.0.0 v.0.1 h)

abbrev pub IsPath : Bytes → Type 0
IsPath = All (λ c. c ≢ b';')

search_segment :
    (wpath segment a path : Bytes)
    → IsPath a
    → search_paths wpath segment (a ++ b';' ∷ path)
      ≡ ((segment ++ a) ++ drop (length (segment ++ a)) wpath)
        ∷ search_paths ((segment ++ a) ++ drop (length (segment ++ a)) wpath) [] path
unfolding search_paths
search_segment wpath segment [] path h = rw (append-nil segment) refl
search_segment wpath segment (c ∷ a) path h =
    ground
      (arith, search_segment wpath (segment ++ c ∷ []) a path h.1, append_assoc segment (c ∷ []) a)

search_last :
    (wpath segment a : Bytes)
    → IsPath a
    → 0 < length (segment ++ a)
    → search_paths wpath segment a ≡ (segment ++ a) ∷ []
unfolding search_paths
search_last wpath [] [] h n = absurd (omega arith)
search_last wpath (c ∷ segment) [] h n = rw (append-nil segment) refl
search_last wpath segment (c ∷ a) h n =
    ground (arith, search_last wpath (segment ++ c ∷ []) a h.1, append_assoc segment (c ∷ []) a)

drop_nil : (n : ℕ) → drop {A = ℕ} n [] ≡ []
drop_nil zero = refl
drop_nil (suc n) = refl

-- Of three directories separated by ';', the first and the last are searched as they are written. The
-- one between is searched with the rest of a longer first directory behind it.
pub search_paths_three :
    (a b c : Bytes)
    → IsPath a
    → IsPath b
    → IsPath c
    → 0 < length c
    → search_paths [] [] (a ++ b';' ∷ (b ++ b';' ∷ c)) ≡ a ∷ (b ++ drop (length b) a) ∷ c ∷ []
search_paths_three a b c ha hb hc n =
    let rest = b ++ b';' ∷ c in
    let clean : a ++ drop (length a) [] ≡ a = rw (drop_nil (length a)) (append-nil a) in
    search_segment [] [] a rest ha
    ∙ rw clean (
        ap (λ xs. a ∷ xs)
          (search_segment a [] b c hb
            ∙ ap (λ xs. (b ++ drop (length b) a) ∷ xs)
                (search_last (b ++ drop (length b) a) [] c hc n)))
