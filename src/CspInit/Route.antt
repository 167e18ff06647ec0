-- ===== src/CspInit/Route.antt =====
-- csp_init_cmd.c: `csp add route`, whose two arguments are copied into one buffer. The library's table is an argument.
use csh.Prelude.{
  ℕ, ◌+◌, ◌<◌, ◌≡◌, refl, inl, inr, Bytes, Option, none, some, List, ◌∷◌, ◌++◌, true, false,
  Bool-cases, if◌then◌else◌, ltb, leb, length, length-append, arith,
}
use csh.Prelude.Int.{ℤ, pos, eq_ℤ}
use csh.Slash.{Status, success, einval, argument}

-- `char route[50]`
abbrev pub route_size : ℕ
route_size = 50

-- `route`, or none for a write behind it: the first argument with a blank and its end, then the second
unfoldable pub join_route : Bytes → Bytes → Option Bytes
join_route network ifname =
    if leb route_size (length network + 1)
    then none
    else if leb route_size (length (network ++ 32 ∷ ifname))
    then none
    else some (network ++ 32 ∷ ifname)

-- the answer to the number of routes that the library has added
abbrev answer {ℓ} : {T : Type ℓ} → ℤ × T → Status × T
answer (added, table) = (if eq_ℤ added (pos 1) then success else einval, table)

unfoldable pub csp_routeadd_cmd {ℓ} :
    {T : Type ℓ} → (Bytes → T → ℤ × T) → Option ℕ → List Bytes → T → Option (Status × T)
unfolding join_route
csp_routeadd_cmd csp_rtable_load none argv table = some (einval, table)
csp_routeadd_cmd csp_rtable_load (some argi) argv table =
    let network = argument (argi + 1) argv in
    if leb (length argv) (argi + 1)
    then some (einval, table)
    else if leb (length argv) (argi + 2)
    then (if leb route_size (length network + 1) then none else some (einval, table))
    else elim (join_route network (argument (argi + 2) argv)) [
      | none ↦ none
      | some route ↦ some (answer (csp_rtable_load route table))
    ]

join_route-fits :
    (network ifname : Bytes)
    → join_route network ifname ≡ (
        if ltb (length network + length ifname + 1) 50 then some (network ++ 32 ∷ ifname) else none)
unfolding join_route
join_route-fits network ifname = rw (length-append network (32 ∷ ifname)) (ground arith)

-- Behind the option parser and with both arguments, `csp add route` hands the library these with a blank between
-- them if the two have at most 48 bytes together, and returns success if the library has added just one route, an
-- error's status for any other number, with the library's table in both cases; else there is a write behind the
-- buffer.
pub csp_routeadd_cmd-joined {ℓ} :
    {T : Type ℓ}
    → (csp_rtable_load : Bytes → T → ℤ × T) (argi : ℕ) (argv : List Bytes) (table : T)
    → argi + 2 < length argv
    → csp_routeadd_cmd csp_rtable_load (some argi) argv table ≡ (
        let network = argument (argi + 1) argv in
        let ifname = argument (argi + 2) argv in
        if leb (length network + length ifname) 48
        then (let (added, table') = csp_rtable_load (network ++ 32 ∷ ifname) table in
            some (if eq_ℤ added (pos 1) then success else einval, table'))
        else none)
unfolding csp_routeadd_cmd
csp_routeadd_cmd-joined csp_rtable_load argi argv table h =
    let network = argument (argi + 1) argv in
    let ifname = argument (argi + 2) argv in
    let first : leb (length argv) (argi + 1) ≡ false = ground arith in
    let second : leb (length argv) (argi + 2) ≡ false = ground arith in
    rw first (
      rw second (
        rw (join_route-fits network ifname)
          (elim (Bool-cases (leb (length network + length ifname) 48)) [
            | inl e ↦
                let fits : ltb (length network + length ifname + 1) 50 ≡ true = ground arith in
                rw e (rw fits refl)
            | inr e ↦
                let beyond : ltb (length network + length ifname + 1) 50 ≡ false = ground arith in
                rw e (rw beyond refl)
          ])))
