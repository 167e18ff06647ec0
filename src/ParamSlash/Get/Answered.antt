-- ===== src/ParamSlash/Get/Answered.antt =====
-- param_slash.c: what `get` has shown at each of its ends.
use csh.Prelude.{
  arith, ◌≡◌, refl, ap, ◌∙◌, ◌⊎◌, Bool, ◌==◌, inl, inr, Bytes, List, [], ◌∷◌, ◌++◌, true, false,
  ◌||◌, if◌then◌else◌, map, All, Bool-cases,
}
use csh.Slash.{Status, success, eio}
use csh.ParamSlash.Queue.{Param, meets, no_mask}
use csh.Prelude.Int.{ℤ, pos, ltb_ℤ, eq_ℤ}
use csh.ParamSlash.Get.{GetArguments, Shown, printed, pulled, is_selected, is_local, show, get_loop}

-- What is asked for: the name matches, the node is the one of the options, and so is the mask if there is one.
abbrev pub wants : GetArguments → Bytes → Param → Bool
wants a name p =
    if a.strmatch p.name name
    then if p.node == a.node then if a.mask == no_mask then true else meets p.mask a.mask else false
    else false

abbrev pub wanted : GetArguments → Bytes → List Param → List Param
wanted a name [] = []
wanted a name (p ∷ params) =
    let rest = wanted a name params in if wants a name p then p ∷ rest else rest

-- Without a server, a parameter of node 0 is printed; else it is pulled from the server, or without one from the
-- node of the options.
abbrev pub shows : GetArguments → Param → Shown
shows a p =
    if eq_ℤ a.server (pos 0)
    then if p.node == 0 then printed p else pulled p (pos a.node)
    else if ltb_ℤ (pos 0) a.server
    then pulled p a.server
    else pulled p (pos a.node)

-- It is printed, or its pull is answered.
abbrev pub answered : GetArguments → Param → Bool
answered a p =
    if eq_ℤ a.server (pos 0) then if p.node == 0 then true else a.answers p else a.answers p

no_server : (s : ℤ) → eq_ℤ s (pos 0) ≡ true → ltb_ℤ (pos 0) s ≡ false
no_server s h = ground arith

is_selected-wants :
    (a : GetArguments) (name : Bytes) (p : Param) → is_selected a name p ≡ wants a name p
is_selected-wants a name p = elim (Bool-cases (a.strmatch p.name name)) [
  | inl e ↦ rw e (elim (Bool-cases (p.node == a.node)) [
    | inl f ↦ rw f (elim (Bool-cases (a.mask == no_mask)) [ inl g ↦ rw g refl | inr g ↦ rw g refl ])
    | inr f ↦ rw f refl
  ])
  | inr e ↦ rw e refl
]

is_local-answered : (a : GetArguments) (p : Param) → (is_local a p || a.answers p) ≡ answered a p
is_local-answered a p = elim (Bool-cases (eq_ℤ a.server (pos 0))) [
  | inl e ↦ rw e (elim (Bool-cases (p.node == 0)) [ inl f ↦ rw f refl | inr f ↦ rw f refl ])
  | inr e ↦ rw e (elim (Bool-cases (p.node == 0)) [ inl f ↦ rw f refl | inr f ↦ rw f refl ])
]

show-shows : (a : GetArguments) (p : Param) → show a p ≡ shows a p
show-shows a p = elim (Bool-cases (eq_ℤ a.server (pos 0))) [
  | inl e ↦ rw e (
      rw (no_server a.server e)
        (elim (Bool-cases (p.node == 0)) [ inl f ↦ rw f refl | inr f ↦ rw f refl ]))
  | inr e ↦ rw e (elim (Bool-cases (ltb_ℤ (pos 0) a.server)) [
    | inl g ↦ rw g (elim (Bool-cases (p.node == 0)) [ inl f ↦ rw f refl | inr f ↦ rw f refl ])
    | inr g ↦ rw g (elim (Bool-cases (p.node == 0)) [ inl f ↦ rw f refl | inr f ↦ rw f refl ])
  ])
]

abbrev pub IsAnswered : GetArguments → Param → Type 0
IsAnswered a p = answered a p ≡ true

-- All the wanted parameters are shown, with success; or those in front of the first one that is pulled
-- without an answer are, and that one is the last that is tried.
abbrev pub GetEnds : GetArguments → List Param → Status × List Shown → Type 0
GetEnds a ps (status, shown) =
    ((status ≡ success) × (shown ≡ map (shows a) ps) × All (IsAnswered a) ps)
    ⊎ ((status ≡ eio)
        × ((p : Param) × (front : List Param) × (back : List Param) × (ps ≡ front ++ p ∷ back)
            × All (IsAnswered a) front
            × (answered a p ≡ false)
            × (shown ≡ map (shows a) front ++ shows a p ∷ [])))

more-GetEnds :
    (a : GetArguments) (p : Param) (ps : List Param) (r : Status × List Shown)
    → IsAnswered a p
    → GetEnds a ps r
    → GetEnds a (p ∷ ps) (r.0, shows a p ∷ r.1)
more-GetEnds a p ps (status, shown) done (inl (ok, all, every)) =
    inl (ok, ap (λ (l : List Shown). shows a p ∷ l) all, (done, every))
more-GetEnds a p ps (status, shown) done
      (inr (failed, (q, front, back, split, before, silent, tried))) =
    inr (
      failed,
      (
        q,
        p ∷ front,
        back,
        ap (λ (l : List Param). p ∷ l) split,
        (done, before),
        silent,
        ap (λ (l : List Shown). shows a p ∷ l) tried,
      ),
    )

wanted_step :
    (a : GetArguments) (name : Bytes) (p : Param) (params : List Param)
    → wants a name p ≡ true
    → wanted a name (p ∷ params) ≡ p ∷ wanted a name params
wanted_step a name p params want = rw want refl

answered_step :
    (a : GetArguments) (name : Bytes) (p : Param) (params : List Param)
    → wants a name p ≡ true
    → answered a p ≡ true
    → get_loop a name (p ∷ params)
      ≡ ((get_loop a name params).0, shows a p ∷ (get_loop a name params).1)
unfolding get_loop
answered_step a name p params want done =
    let selected = is_selected-wants a name p ∙ want in
    let local = is_local-answered a p ∙ done in
    rw (selected, local, get_loop)
      (ap (λ (s : Shown). ((get_loop a name params).0, s ∷ (get_loop a name params).1))
        (show-shows a p))

silent_step :
    (a : GetArguments) (name : Bytes) (p : Param) (params : List Param)
    → wants a name p ≡ true
    → answered a p ≡ false
    → get_loop a name (p ∷ params) ≡ (eio, shows a p ∷ [])
unfolding get_loop
silent_step a name p params want silent =
    let selected = is_selected-wants a name p ∙ want in
    let local = is_local-answered a p ∙ silent in
    rw (selected, local, get_loop) (ap (λ (s : Shown). (eio, s ∷ [])) (show-shows a p))

-- `get` shows the parameters whose name matches, that are of the node of its options and meet its mask, in the
-- order of the list: one of node 0 is printed if there is no server, and any other is pulled from the server, or
-- without one from the node. It ends with success behind all of them, or with SLASH_EIO behind the first whose
-- pull is not answered.
pub get_loop-GetEnds :
    (a : GetArguments) (name : Bytes) (params : List Param)
    → GetEnds a (wanted a name params) (get_loop a name params)
unfolding get_loop
get_loop-GetEnds a name [] = inl (refl, refl, tt)
get_loop-GetEnds a name (p ∷ params) = elim (Bool-cases (wants a name p)) [
  | inr other ↦
      let selected = is_selected-wants a name p ∙ other in
      rw (other, selected, get_loop) (get_loop-GetEnds a name params)
  | inl want ↦ elim (Bool-cases (answered a p)) [
    | inl done ↦
        rw (wanted_step a name p params want, answered_step a name p params want done)
          (more-GetEnds a p (wanted a name params) (get_loop a name params) done
            (get_loop-GetEnds a name params))
    | inr silent ↦
        rw (wanted_step a name p params want, silent_step a name p params want silent)
          (inr (refl, (p, [], wanted a name params, refl, tt, silent, refl)))
  ]
]
