-- ===== src/Environment/Laws.antt =====
-- environment.c: what the operations on variables do to `getvar`, and the invariant of the list.
use csh.Prelude.{
  ℕ, Bytes, bytes_eq, bytes_eq_iff, none, some, [], ◌∷◌, ◌≡◌, refl, if◌then◌else◌, arith,
  Bool-cases, inl, inr, Option-cases,
}
use csh.Environment.{
  EnvEntry, Env, get_env_entry, getvar, set_value, putvar, remove_entry, delvar, clearenv,
}

pub getvar-cons :
    (cur : EnvEntry) (rest : Env) (j : Bytes)
    → getvar (cur ∷ rest) j ≡ (if bytes_eq j cur.name then some cur.value else getvar rest j)
unfolding getvar get_env_entry
getvar-cons cur rest j = ground arith

getvar-set_value :
    (env : Env) (k v j : Bytes) (old : EnvEntry)
    → get_env_entry k env ≡ some old
    → getvar (set_value k v env) j ≡ (if bytes_eq j k then some v else getvar env j)
unfolding getvar get_env_entry set_value
getvar-set_value [] k v j old h = cc
getvar-set_value (cur ∷ rest) k v j old h = ground (
  arith,
  getvar-set_value rest k v j old,
  bytes_eq_iff k cur.name,
  bytes_eq_iff j cur.name,
  bytes_eq_iff j k,
)

-- After a `putvar`, the variable that was set has its new value, and every other variable has the
-- value, or is as undefined, as before.
pub getvar-putvar :
    (env : Env) (k v j : Bytes)
    → getvar (putvar k v env) j ≡ (if bytes_eq j k then some v else getvar env j)
unfolding putvar
getvar-putvar env k v j = elim (Option-cases (get_env_entry k env)) [
  | inl new ↦ rw (new, putvar) (getvar-cons (record { name = k; value = v }) env j)
  | inr (old, e) ↦ rw (e, putvar) (getvar-set_value env k v j old e)
]

-- No two entries have one name.
abbrev pub AreDistinct : Env → Type 0
AreDistinct [] = Unit
AreDistinct (cur ∷ rest) = (getvar rest cur.name ≡ none) × AreDistinct rest

set_value-AreDistinct :
    (env : Env) (k v : Bytes) (old : EnvEntry)
    → get_env_entry k env ≡ some old
    → AreDistinct env
    → AreDistinct (set_value k v env)
unfolding set_value get_env_entry
set_value-AreDistinct [] k v old h d = d
set_value-AreDistinct (cur ∷ rest) k v old h d = elim (Bool-cases (bytes_eq k cur.name)) [
  | inl e ↦ rw e d
  | inr e ↦
      let later : get_env_entry k rest ≡ some old = ground arith in
      rw e (
        ground (
          arith,
          getvar-set_value rest k v cur.name old later,
          bytes_eq_iff cur.name k,
          bytes_eq_iff k cur.name,
        ),
        set_value-AreDistinct rest k v old later d.1,
      )
]

-- `putvar` keeps the names distinct.
pub putvar-AreDistinct : (env : Env) (k v : Bytes) → AreDistinct env → AreDistinct (putvar k v env)
unfolding putvar getvar
putvar-AreDistinct env k v d = elim (Option-cases (get_env_entry k env)) [
  | inl new ↦ rw (new, putvar) (rw (new, getvar), d)
  | inr (old, e) ↦ rw (e, putvar) (set_value-AreDistinct env k v old e d)
]

getvar-remove_entry :
    (env : Env) (k j : Bytes)
    → AreDistinct env
    → getvar (remove_entry k env) j ≡ (if bytes_eq j k then none else getvar env j)
unfolding remove_entry
getvar-remove_entry [] k j d = unfold getvar get_env_entry in ground arith
getvar-remove_entry (cur ∷ rest) k j d = ground (
  arith,
  getvar-remove_entry rest k j d.1,
  getvar-cons cur rest j,
  getvar-cons cur (remove_entry k rest) j,
  bytes_eq_iff k cur.name,
  bytes_eq_iff j cur.name,
  bytes_eq_iff j k,
)

remove_entry-AreDistinct :
    (env : Env) (k : Bytes) → AreDistinct env → AreDistinct (remove_entry k env)
unfolding remove_entry
remove_entry-AreDistinct [] k d = d
remove_entry-AreDistinct (cur ∷ rest) k d =
    ground (arith, remove_entry-AreDistinct rest k d.1, getvar-remove_entry rest k cur.name d.1)

get_env_entry-none : (env : Env) (k : Bytes) → get_env_entry k env ≡ none → getvar env k ≡ none
unfolding getvar
get_env_entry-none env k h = rw (h, getvar)

-- What `delvar` leaves in the list, and the status that it returns.
pub record Deleted (env : Env) (k j : Bytes) (after : Env × ℕ) : Type 0 where
  pub lookups : getvar after.0 j ≡ (if bytes_eq j k then none else getvar env j)
  pub status : after.1 ≡ elim (getvar env k) [ none ↦ 1 | some v ↦ 0 ]
  pub distinct : AreDistinct after.0

-- With distinct names, `delvar` of a defined variable returns 0, leaves it undefined and every other
-- variable as it was; of an undefined one it returns 1 and leaves every variable as it was. The
-- names stay distinct.
pub delvar_lem : (env : Env) (k j : Bytes) → AreDistinct env → Deleted env k j (delvar k env)
unfolding delvar
delvar_lem env k j d = elim (Option-cases (get_env_entry k env)) [
  | inl missing ↦
      let undefined = get_env_entry-none env k missing in
      rw (missing, delvar)
        (record { lookups = ground (arith, bytes_eq_iff j k); status = rw undefined; distinct = d })
  | inr (old, e) ↦
      rw (e, delvar)
        (record {
          lookups = getvar-remove_entry env k j d;
          status = unfold getvar in rw (e, getvar);
          distinct = remove_entry-AreDistinct env k d;
        })
]

-- After `clearenv` no variable is defined.
pub getvar-clearenv : (env : Env) (j : Bytes) → getvar (clearenv env) j ≡ none
unfolding clearenv
getvar-clearenv [] j = unfold getvar get_env_entry in refl
getvar-clearenv (cur ∷ rest) j = getvar-clearenv rest j
