-- ===== src/CspInit/Names.antt =====
-- csp_init_cmd.c: the names of the interfaces that the commands add.
use csh.Prelude.{
  ℕ, ◌+◌, ◌-◌, ◌≤◌, ◌<◌, ◌≡◌, ◌≢◌, refl, sym, ap, ◌∙◌, Bytes, bytes_eq_refl, none, some, List, [],
  ◌∷◌, ◌++◌, if◌then◌else◌, leb, length, length-append, drop, get_or, take_all, All, arith,
}
use csh.Prelude.Int.{ℤ, pos, negsuc}
use csh.Libc.{format_u, format_d, strtol}
use csh.Libc.Decimal.{strtol-format_d, length-print_digits}
use csh.CspInit.{Kind, zmq, kiss, can, eth, udp, tun, prefix_of, Iface, iface_name, next_idx}

-- The kind of a name's first letter.
abbrev kind_of : ℕ → Kind
kind_of c =
    if leb 90 c
    then zmq
    else if leb 85 c
    then udp
    else if leb 84 c
    then tun
    else if leb 75 c
    then kiss
    else if leb 69 c
    then eth
    else can

abbrev pub name_of : Kind → ℕ → Bytes
name_of k n = prefix_of k ++ format_u n

kind_of-name_of : (k : Kind) (n : ℕ) → kind_of (get_or (name_of k n) 0 0) ≡ k
kind_of-name_of zmq n = refl
kind_of-name_of kiss n = refl
kind_of-name_of can n = refl
kind_of-name_of eth n = refl
kind_of-name_of udp n = refl
kind_of-name_of tun n = refl

number_of-name_of : (k : Kind) (n : ℕ) → drop (length (prefix_of k)) (name_of k n) ≡ format_u n
number_of-name_of zmq n = refl
number_of-name_of kiss n = refl
number_of-name_of can n = refl
number_of-name_of eth n = refl
number_of-name_of udp n = refl
number_of-name_of tun n = refl

name_of-kind : (k j : Kind) (n m : ℕ) → name_of k n ≡ name_of j m → k ≡ j
name_of-kind k j n m e =
    sym (kind_of-name_of k n) ∙ ap (λ (s : Bytes). kind_of (get_or s 0 0)) e ∙ kind_of-name_of j m

abbrev magnitude : ℤ → ℕ
magnitude (pos n) = n
magnitude (negsuc n) = n

format_u-number : (n m : ℕ) → n < 100000 → m < 100000 → format_u n ≡ format_u m → n ≡ m
unfolding format_d
format_u-number n m h i e =
    sym (ap (λ p. magnitude p.0) (strtol-format_d n (omega arith)))
    ∙ ap (λ (s : Bytes). magnitude (strtol s).0) e
    ∙ ap (λ p. magnitude p.0) (strtol-format_d m (omega arith))

name_of-number : (k : Kind) (n m : ℕ) → n < 100000 → m < 100000 → name_of k n ≡ name_of k m → n ≡ m
name_of-number k n m h i e = format_u-number n m h i (
    sym (number_of-name_of k n)
    ∙ ap (λ (s : Bytes). drop (length (prefix_of k)) s) e
    ∙ number_of-name_of k m)

length-prefix_of : (k : Kind) → length (prefix_of k) ≤ 4
length-prefix_of zmq = omega arith
length-prefix_of kiss = omega arith
length-prefix_of can = omega arith
length-prefix_of eth = omega arith
length-prefix_of udp = omega arith
length-prefix_of tun = omega arith

-- A name with at most five digits is whole.
pub iface_name_whole :
    (name_max : ℕ) (k : Kind) (n : ℕ)
    → 10 ≤ name_max
    → n < 100000
    → iface_name name_max k n ≡ name_of k n
unfolding iface_name format_u
iface_name_whole name_max k n h i = take_all (name_max - 1) (name_of k n) (
    omega (
      arith,
      length-append (prefix_of k) (format_u n),
      length-prefix_of k,
      length-print_digits 20 4 n (omega arith),
    ))

-- The names that the commands have given.
abbrev pub named : List Iface → List Bytes
named [] = []
named (i ∷ rest) = elim i.name [ none ↦ named rest | some s ↦ s ∷ named rest ]

abbrev pub AreDistinct : List Bytes → Type 0
AreDistinct [] = Unit
AreDistinct (s ∷ rest) = All (λ t. s ≢ t) rest × AreDistinct rest

-- The name has a kind's prefix and a number below the kind's counter.
abbrev IsNumbered : (Kind → ℕ) → Bytes → Type 0
IsNumbered ifidx s = (k : Kind) × (n : ℕ) × (n < ifidx k) × (s ≡ name_of k n)

-- The names are numbered and distinct, with counters that have run at most so far.
abbrev pub HasNames : ℕ → (Kind → ℕ) → List Bytes → Type 0
HasNames m ifidx names =
    All (IsNumbered ifidx) names × (AreDistinct names × ((k : Kind) → ifidx k ≤ m))

next_idx_le : (k : Kind) (ifidx : Kind → ℕ) (j : Kind) → ifidx j ≤ next_idx k ifidx j
unfolding next_idx
next_idx_le k ifidx j = ground arith

next_idx_most : (k : Kind) (ifidx : Kind → ℕ) (j : Kind) → next_idx k ifidx j ≤ ifidx j + 1
unfolding next_idx
next_idx_most k ifidx j = ground arith

next_idx_self : (k : Kind) (ifidx : Kind → ℕ) → next_idx k ifidx k ≡ ifidx k + 1
unfolding next_idx
next_idx_self k ifidx = rw (bytes_eq_refl (prefix_of k)) refl

IsNumbered-next_idx :
    (k : Kind) (ifidx : Kind → ℕ) (names : List Bytes)
    → All (IsNumbered ifidx) names
    → All (IsNumbered (next_idx k ifidx)) names
IsNumbered-next_idx k ifidx [] h = tt
IsNumbered-next_idx k ifidx (s ∷ names) ((j, n, below, e), h) =
    ((j, n, omega (arith, next_idx_le k ifidx j), e), IsNumbered-next_idx k ifidx names h)

-- The next name of a kind is new.
is_new :
    (k : Kind) (ifidx : Kind → ℕ) (names : List Bytes)
    → ((j : Kind) → ifidx j < 100000)
    → All (IsNumbered ifidx) names
    → All (λ t. name_of k (ifidx k) ≢ t) names
is_new k ifidx [] small h = tt
is_new k ifidx (s ∷ names) small ((j, n, below, e), h) = (
  λ same.
      let same_kind : k ≡ j = name_of-kind k j (ifidx k) n (same ∙ e) in
      let numbers : ifidx k ≡ n =
        name_of-number k (ifidx k) n (small k) (omega (arith, small j))
          (same ∙ e ∙ ap (λ (j' : Kind). name_of j' n) (sym same_kind)) in
      let counters : ifidx k ≡ ifidx j = ap ifidx same_kind in omega arith,
  is_new k ifidx names small h,
)

-- One name more, that of a kind's counter, which goes up by one; or none.
pub HasNames-next :
    (m : ℕ) (k : Kind) (ifidx : Kind → ℕ) (names : List Bytes)
    → m < 100000
    → HasNames m ifidx names
    → HasNames (m + 1) (next_idx k ifidx) (name_of k (ifidx k) ∷ names)
HasNames-next m k ifidx names room (numbered, (distinct, below)) = (
  (
    (k, ifidx k, omega (arith, next_idx_self k ifidx), refl),
    IsNumbered-next_idx k ifidx names numbered,
  ),
  (
    (is_new k ifidx names (λ j. omega (arith, below j)) numbered, distinct),
    λ j. omega (arith, below j, next_idx_most k ifidx j),
  ),
)

pub HasNames-same :
    (m : ℕ) (k : Kind) (ifidx : Kind → ℕ) (names : List Bytes)
    → HasNames m ifidx names
    → HasNames (m + 1) (next_idx k ifidx) names
HasNames-same m k ifidx names (numbered, (distinct, below)) = (
  IsNumbered-next_idx k ifidx names numbered,
  (distinct, λ j. omega (arith, below j, next_idx_most k ifidx j)),
)
