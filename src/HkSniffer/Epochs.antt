-- ===== src/HkSniffer/Epochs.antt =====
-- hk_param_sniffer.c: the invariant of the epoch table, and lookups after an update.
use mathlib.Core.Path.{subst}
use csh.Prelude.{
  ℕ, ◌≤◌, ◌≡◌, refl, Option, none, some, List, [], ◌∷◌, ◌++◌, Bool, true, false, ◌&&◌,
  if◌then◌else◌, ◌==◌, leb, suc, ap, length, length-append, arith, Option-cases, Bool-cases, inl,
  inr,
}
use csh.Prelude.Int.{ℤ, pos, ◌-ℤ◌, ◌≤ℤ◌, ltb_ℤ}
use csh.HkSniffer.{
  max_hks, first_epoch, Hk, update_hk, update_epoch, is_illegal, hk_set_epoch, hk_get_epoch,
}

-- No node stands twice, and no epoch lies before 2020.
abbrev pub AreEpochs : List Hk → Type 0
AreEpochs [] = Unit
AreEpochs (hk ∷ rest) =
    (first_epoch ≤ℤ hk.local_epoch) × (hk_get_epoch hk.node rest ≡ none) × AreEpochs rest

pub record IsTable (hks : List Hk) : Type 0 where
  pub fits : length hks ≤ max_hks
  pub entries : AreEpochs hks

-- what an update leaves of an old epoch
abbrev pub merged : ℤ → Bool → ℤ → ℤ
merged epoch auto_sync old = if auto_sync && ltb_ℤ (pos 86400) (old -ℤ epoch) then old else epoch

update_epoch-none :
    (epoch : ℤ) (node : ℕ) (auto_sync : Bool) (hks : List Hk)
    → update_epoch epoch node auto_sync hks ≡ none
    → hk_get_epoch node hks ≡ none
unfolding update_epoch hk_get_epoch
update_epoch-none epoch node auto_sync [] h = refl
update_epoch-none epoch node auto_sync (hk ∷ rest) h =
    ground (arith, update_epoch-none epoch node auto_sync rest)

-- A table in which the loop has found the node.
record Updated (hks : List Hk) (node : ℕ) (epoch : ℤ) (hks' : List Hk) : Type 0 where
  lookup : (k : ℕ) → hk_get_epoch k hks' ≡ (if k == node then some epoch else hk_get_epoch k hks)
  size : length hks' ≡ length hks
  entries : first_epoch ≤ℤ epoch → AreEpochs hks → AreEpochs hks'

update_epoch-Updated :
    (epoch old : ℤ) (node : ℕ) (auto_sync : Bool) (hks : List Hk)
    → hk_get_epoch node hks ≡ some old
    → (hks' : List Hk) × (update_epoch epoch node auto_sync hks ≡ some hks')
      × Updated hks node (merged epoch auto_sync old) hks'
unfolding update_epoch hk_get_epoch
update_epoch-Updated epoch old node auto_sync [] h = cc
update_epoch-Updated epoch old node auto_sync (hk ∷ rest) h = elim (Bool-cases (hk.node == node)) [
  | inl here ↦
      let same : node ≡ hk.node = ground arith in
      let value : hk.local_epoch ≡ old = ground arith in
      (
        update_hk epoch auto_sync hk ∷ rest,
        rw here,
        record { lookup = λ k. ground arith; size = refl; entries = λ late e. ground arith },
      )
  | inr later ↦
      let older : hk_get_epoch node rest ≡ some old = ground arith in
      let (rest', e, u) = update_epoch-Updated epoch old node auto_sync rest older in
      (
        hk ∷ rest',
        rw later (rw e),
        record {
          lookup = λ k. ground (arith, u.lookup k);
          size = ap suc u.size;
          entries = λ late v. ground (arith, u.lookup hk.node, u.entries late v.2);
        },
      )
]

hk_get_epoch-append :
    (hks : List Hk) (hk : Hk) (k : ℕ)
    → hk_get_epoch hk.node hks ≡ none
    → hk_get_epoch k (hks ++ hk ∷ [])
      ≡ (if k == hk.node then some hk.local_epoch else hk_get_epoch k hks)
unfolding hk_get_epoch
hk_get_epoch-append [] hk k h = refl
hk_get_epoch-append (x ∷ hks) hk k h = ground (arith, hk_get_epoch-append hks hk k)

AreEpochs-append :
    (hks : List Hk) (hk : Hk)
    → first_epoch ≤ℤ hk.local_epoch
    → hk_get_epoch hk.node hks ≡ none
    → AreEpochs hks
    → AreEpochs (hks ++ hk ∷ [])
unfolding hk_get_epoch
AreEpochs-append [] hk late new v = ground arith
AreEpochs-append (x ∷ hks) hk late new v =
    let new' : hk_get_epoch hk.node hks ≡ none = ground arith in
    ground (arith, hk_get_epoch-append hks hk x.node new', AreEpochs-append hks hk late new' v.2)

update_epoch_unknown :
    (epoch : ℤ) (node : ℕ) (auto_sync : Bool) (hks : List Hk)
    → hk_get_epoch node hks ≡ none
    → update_epoch epoch node auto_sync hks ≡ none
unfolding update_epoch hk_get_epoch
update_epoch_unknown epoch node auto_sync [] h = refl
update_epoch_unknown epoch node auto_sync (hk ∷ rest) h =
    ground (arith, update_epoch_unknown epoch node auto_sync rest)

-- the epoch of a node after `hk_set_epoch`, from its epoch before and the number of nodes
abbrev pub epoch_after : ℤ → ℤ → Bool → ℕ → Option ℤ → Option ℤ
epoch_after current_epoch epoch auto_sync count old =
    if ltb_ℤ current_epoch epoch then old else if ltb_ℤ epoch first_epoch then old else elim old [
      | some before ↦ some (merged epoch auto_sync before)
      | none ↦ if leb max_hks count then none else some epoch
    ]

-- the same, by the code's test
abbrev epoch_by : ℤ → ℤ → Bool → ℕ → Option ℤ → Option ℤ
epoch_by current_epoch epoch auto_sync count old =
    if is_illegal current_epoch epoch then old else elim old [
      | some before ↦ some (merged epoch auto_sync before)
      | none ↦ if leb max_hks count then none else some epoch
    ]

epoch_by-epoch_after :
    (current_epoch epoch : ℤ) (auto_sync : Bool) (count : ℕ) (old : Option ℤ)
    → epoch_by current_epoch epoch auto_sync count old
      ≡ epoch_after current_epoch epoch auto_sync count old
unfolding is_illegal
epoch_by-epoch_after current_epoch epoch auto_sync count old =
    elim (Bool-cases (ltb_ℤ current_epoch epoch)) [
      | inl future ↦ rw future refl
      | inr present ↦ elim (Bool-cases (ltb_ℤ epoch first_epoch)) [
        | inl early ↦ rw (present, early) refl
        | inr late ↦ rw (present, late) refl
      ]
    ]

-- What `hk_set_epoch` leaves: a table with unique nodes, in its array, with the epoch of the node
-- set and all others as before.
pub record SetEpoch (hks : List Hk) (node : ℕ) (epoch : Option ℤ) (after : List Hk) : Type 0 where
  pub table : IsTable after
  pub lookup : (k : ℕ) → hk_get_epoch k after ≡ (if k == node then epoch else hk_get_epoch k hks)

known-late :
    (hks : List Hk) (node : ℕ) (old : ℤ)
    → AreEpochs hks
    → hk_get_epoch node hks ≡ some old
    → first_epoch ≤ℤ old
unfolding hk_get_epoch
known-late [] node old v h = cc
known-late (hk ∷ hks) node old v h = ground (arith, known-late hks node old v.2)

legal_late :
    (current_epoch epoch : ℤ) → is_illegal current_epoch epoch ≡ false → first_epoch ≤ℤ epoch
unfolding is_illegal
legal_late current_epoch epoch h = ground arith

merged_late :
    (current_epoch epoch old : ℤ) (auto_sync : Bool)
    → is_illegal current_epoch epoch ≡ false
    → first_epoch ≤ℤ old
    → first_epoch ≤ℤ merged epoch auto_sync old
merged_late current_epoch epoch old auto_sync h late =
    ground (arith, legal_late current_epoch epoch h)

set_known :
    (current_epoch epoch old : ℤ) (node : ℕ) (auto_sync : Bool) (hks : List Hk)
    → IsTable hks
    → is_illegal current_epoch epoch ≡ false
    → hk_get_epoch node hks ≡ some old
    → SetEpoch hks node
        (some (merged epoch auto_sync old))
        (hk_set_epoch current_epoch epoch node auto_sync hks)
unfolding hk_set_epoch
set_known current_epoch epoch old node auto_sync hks v legal known =
    let (hks', e, u) = update_epoch-Updated epoch old node auto_sync hks known in
    let late : first_epoch ≤ℤ merged epoch auto_sync old =
      merged_late current_epoch epoch old auto_sync legal
        (known-late hks node old v.entries known) in
    rw (legal, e)
      (record {
        table = record { fits = omega (arith, u.size, v.fits); entries = u.entries late v.entries };
        lookup = u.lookup;
      })

pub set_refused :
    (current_epoch epoch : ℤ) (node : ℕ) (auto_sync : Bool) (hks : List Hk)
    → is_illegal current_epoch epoch ≡ true
    → hk_set_epoch current_epoch epoch node auto_sync hks ≡ hks
unfolding hk_set_epoch
set_refused current_epoch epoch node auto_sync hks h = rw h refl

set_new :
    (current_epoch epoch : ℤ) (node : ℕ) (auto_sync : Bool) (hks : List Hk)
    → IsTable hks
    → is_illegal current_epoch epoch ≡ false
    → hk_get_epoch node hks ≡ none
    → SetEpoch hks node
        (if leb max_hks (length hks) then none else some epoch)
        (hk_set_epoch current_epoch epoch node auto_sync hks)
unfolding hk_set_epoch
set_new current_epoch epoch node auto_sync hks v legal new =
    let late : first_epoch ≤ℤ epoch = legal_late current_epoch epoch legal in
    let hk : Hk = record { node = node; local_epoch = epoch } in
    elim (Bool-cases (leb max_hks (length hks))) [
      | inl full ↦
          rw (legal, update_epoch_unknown epoch node auto_sync hks new, full)
            (record { table = v; lookup = λ k. ground arith })
      | inr room ↦
          rw (legal, update_epoch_unknown epoch node auto_sync hks new, room)
            (record {
              table = record {
                fits = ground (arith, length-append hks (hk ∷ []));
                entries = AreEpochs-append hks hk late new v.entries;
              };
              lookup = λ k. hk_get_epoch-append hks hk k new;
            })
    ]

set_by-SetEpoch :
    (current_epoch epoch : ℤ) (node : ℕ) (auto_sync : Bool) (hks : List Hk)
    → IsTable hks
    → SetEpoch hks node
        (epoch_by current_epoch epoch auto_sync (length hks) (hk_get_epoch node hks))
        (hk_set_epoch current_epoch epoch node auto_sync hks)
set_by-SetEpoch current_epoch epoch node auto_sync hks v =
    elim (Bool-cases (is_illegal current_epoch epoch)) [
      | inl refused ↦
          rw (refused, set_refused current_epoch epoch node auto_sync hks refused)
            (record { table = v; lookup = λ k. ground arith })
      | inr legal ↦ elim (Option-cases (hk_get_epoch node hks)) [
        | inl new ↦ rw (legal, new) (set_new current_epoch epoch node auto_sync hks v legal new)
        | inr (old, known) ↦
            rw (legal, known) (set_known current_epoch epoch old node auto_sync hks v legal known)
      ]
    ]

-- In a valid table, `hk_set_epoch` changes at most the epoch of its node, by this rule: an epoch in
-- the future or before 2020 is refused; for a known node the new epoch is taken, unless it comes from
-- a packet and lies more than a day before the old one; a new node is added if the array has room.
-- The table stays valid: at most 16 nodes, none twice, and no epoch before 2020.
pub hk_set_epoch-SetEpoch :
    (current_epoch epoch : ℤ) (node : ℕ) (auto_sync : Bool) (hks : List Hk)
    → IsTable hks
    → SetEpoch hks node
        (epoch_after current_epoch epoch auto_sync (length hks) (hk_get_epoch node hks))
        (hk_set_epoch current_epoch epoch node auto_sync hks)
hk_set_epoch-SetEpoch current_epoch epoch node auto_sync hks v =
    let old = hk_get_epoch node hks in
    subst (λ o. SetEpoch hks node o (hk_set_epoch current_epoch epoch node auto_sync hks))
      (epoch_by-epoch_after current_epoch epoch auto_sync (length hks) old)
      (set_by-SetEpoch current_epoch epoch node auto_sync hks v)
