-- ===== src/Stdbuf/Live.antt =====
-- stdbuf_mon.c: the monitor catches up.
use csh.Prelude.{
  ℕ, ◌+◌, ◌%◌, ◌^◌, ◌≤◌, ◌<◌, ◌≡◌, ◌≢◌, refl, sym, ap, ◌∙◌, inl, inr, List, [], ◌∷◌, ◌++◌,
  if◌then◌else◌, ltb, ◌==◌, arith, append-nil, append_assoc, Bool, Bool-cases, true, false, All,
}
use csh.Stdbuf.Ring.{ahead, wrap, ring, ring-peek, wrap_mod, ahead_less, none_ahead}
use csh.Stdbuf.{peek, stdbuf_get, get_ahead, Answers, Monitor, monitor_round, run_rounds}

-- A peek that has cells ahead and is answered gets the first of them, at least one, from the memory.
abbrev Gets : (ℕ → ℕ) → ℕ → ℕ → ℕ → ℕ × List ℕ → Type 0
Gets mem size in_ out (n, text) =
    (0 < n) × (n ≤ ahead size in_ out) × (out + n ≤ size) × (text ≡ peek mem out n)

get_ahead-Gets :
    (mem : ℕ → ℕ) (size in_ out : ℕ)
    → in_ < size
    → out < size
    → out ≢ in_
    → Gets mem size in_ out (get_ahead mem size true in_ out)
unfolding get_ahead stdbuf_get
get_ahead-Gets mem size in_ out hin hout other = elim (Bool-cases (ltb out in_)) [
  | inl before ↦ rw before (ground arith, ground arith, ground arith, refl)
  | inr behind ↦
      let after : ltb in_ out ≡ true = ground arith in
      rw (behind, after) (ground arith, ground arith, ground arith, refl)
]

-- With nothing ahead, or without an answer, nothing is got.
get_ahead_reached :
    (mem : ℕ → ℕ) (size in_ out : ℕ) (peeked : Bool)
    → out ≡ in_
    → get_ahead mem size peeked in_ out ≡ (0, [])
unfolding get_ahead
get_ahead_reached mem size in_ out peeked same =
    let before : ltb out in_ ≡ false = ground (arith, same) in
    let after : ltb in_ out ≡ false = ground (arith, same) in rw (before, after) refl

get_ahead_silent : (mem : ℕ → ℕ) (size in_ out : ℕ) → get_ahead mem size false in_ out ≡ (0, [])
unfolding get_ahead stdbuf_get
get_ahead_silent mem size in_ out = elim (Bool-cases (ltb out in_)) [
  | inl before ↦ rw before refl
  | inr behind ↦ elim (Bool-cases (ltb in_ out)) [
    | inl after ↦ rw (behind, after) refl
    | inr same ↦ rw (behind, same) refl
  ]
]

-- The node answers the pull of the indices, and the push of its own.
abbrev pub IsIndexed : Answers → Type 0
IsIndexed a = (a.pulled ≡ true) × (a.pushed ≡ true)

-- the rounds whose peek is answered
abbrev pub answered : List Answers → ℕ
answered [] = 0
answered (a ∷ rounds) = let rest = answered rounds in if a.peeked then rest + 1 else rest

-- The monitor has caught up: its index is the node's, and the cells ahead follow what was printed before.
abbrev pub IsCaughtUp : (ℕ → ℕ) → ℕ → ℕ → Monitor → Monitor → Type 0
IsCaughtUp mem size in_ m m' =
    (m'.node_out ≡ in_)
    × (m'.printed ≡ m.printed ++ ring mem size (ahead size in_ m.node_out) m.node_out)

module _ (stores : Bool → ℕ → ℕ → ℕ) (mem : ℕ → ℕ) (size in_ : ℕ) where
  -- What a round with its indices answered has done, by what it has got.
  round_got :
      (a : Answers) (m : Monitor) (got : ℕ × List ℕ)
      → IsIndexed a
      → get_ahead mem size a.peeked in_ m.node_out ≡ got
      → ((monitor_round stores mem size in_ a m).node_out ≡ ((m.node_out + got.0) % 2 ^ 16) % size)
        × ((monitor_round stores mem size in_ a m).printed ≡ m.printed ++ got.1)
  unfolding monitor_round
  round_got a m got (pulled, pushed) e = rw (pulled, pushed, e) (refl, refl)

  -- a round that has got nothing
  idle :
      (a : Answers) (m : Monitor)
      → IsIndexed a
      → size ≤ 2 ^ 16
      → m.node_out < size
      → get_ahead mem size a.peeked in_ m.node_out ≡ (0, [])
      → ((monitor_round stores mem size in_ a m).node_out ≡ m.node_out)
        × ((monitor_round stores mem size in_ a m).printed ≡ m.printed)
  idle a m indexed hs hout e =
      let (moved, text) = round_got a m (0, []) indexed e in
      let stays = wrap_mod size (m.node_out + 0) hs (omega arith) (omega arith) in
      let here : wrap size (m.node_out + 0) ≡ m.node_out = ground arith in
      (moved ∙ stays ∙ here, text ∙ append-nil m.printed)

  idle-IsCaughtUp :
      (m m' m'' : Monitor)
      → m'.node_out ≡ m.node_out
      → m'.printed ≡ m.printed
      → IsCaughtUp mem size in_ m' m''
      → IsCaughtUp mem size in_ m m''
  idle-IsCaughtUp m m' m'' stays quiet (arrived, all) = (
    arrived,
    all
        ∙ (ap (λ (i : ℕ). m'.printed ++ ring mem size (ahead size in_ i) i) stays
            ∙ ap (λ (l : List ℕ). l ++ ring mem size (ahead size in_ m.node_out) m.node_out) quiet),
  )

  -- a round that has got cells
  moves-IsCaughtUp :
      (m m' m'' : Monitor) (n : ℕ)
      → m.node_out < size
      → m.node_out + n ≤ size
      → m'.node_out ≡ wrap size (m.node_out + n)
      → m'.printed ≡ m.printed ++ peek mem m.node_out n
      → ahead size in_ m.node_out ≡ n + ahead size in_ m'.node_out
      → IsCaughtUp mem size in_ m' m''
      → IsCaughtUp mem size in_ m m''
  moves-IsCaughtUp m m' m'' n hout hend moved text less (arrived, all) =
      let rest = ring mem size (ahead size in_ m'.node_out) m'.node_out in
      let split =
        ring-peek mem size n (ahead size in_ m'.node_out) (ahead size in_ m.node_out) m.node_out
          less hend hout
        ∙ ap (λ (i : ℕ). peek mem m.node_out n ++ ring mem size (ahead size in_ m'.node_out) i)
            (sym moved) in
      (
        arrived,
        all
            ∙ (ap (λ (l : List ℕ). l ++ rest) text
                ∙ (append_assoc m.printed (peek mem m.node_out n) rest
                    ∙ ap (λ (l : List ℕ). m.printed ++ l) (sym split))),
      )

  -- For a ring of at most 2^16 cells, with both of the node's indices in it, and rounds in which the node answers
  -- the pull of the indices and the push of its own, and writes nothing: if it answers at least as many peeks as
  -- cells are ahead, and any others not, the monitor catches up. The index is then the one up to which the node had
  -- written, and just the cells that were ahead have been printed, in their order around the end of the ring.
  pub run_rounds-IsCaughtUp :
      (rounds : List Answers) (m : Monitor)
      → All IsIndexed rounds
      → size ≤ 2 ^ 16
      → in_ < size
      → m.node_out < size
      → ahead size in_ m.node_out ≤ answered rounds
      → IsCaughtUp mem size in_ m (run_rounds stores mem size in_ rounds m)
  unfolding run_rounds
  run_rounds-IsCaughtUp [] m indexed hs hin hout h =
      let same : m.node_out ≡ in_ = ground arith in
      (
        same,
        sym (append-nil m.printed)
            ∙ ap (λ (l : List ℕ). m.printed ++ l) (sym (none_ahead mem size in_ m.node_out same)),
      )
  run_rounds-IsCaughtUp (a ∷ rounds) m (indexed, later) hs hin hout h =
      let m' = monitor_round stores mem size in_ a m in
      let m'' = run_rounds stores mem size in_ rounds m' in
      elim (Bool-cases a.peeked) [
        | inr silent ↦
            let got : get_ahead mem size a.peeked in_ m.node_out ≡ (0, []) =
              rw silent (get_ahead_silent mem size in_ m.node_out) in
            let (stays, quiet) = idle a m indexed hs hout got in
            let enough : ahead size in_ m.node_out ≤ answered rounds = rw silent at h in
            idle-IsCaughtUp m m' m'' stays quiet (
              run_rounds-IsCaughtUp rounds m' later hs hin (omega (arith, stays)) (rw stays enough))
        | inl replies ↦ elim (Bool-cases (m.node_out == in_)) [
          | inl reached ↦
              let same : m.node_out ≡ in_ = ground arith in
              let (stays, quiet) =
                idle a m indexed hs hout
                  (get_ahead_reached mem size in_ m.node_out a.peeked same) in
              idle-IsCaughtUp m m' m'' stays quiet (
                run_rounds-IsCaughtUp rounds m' later hs hin (omega (arith, stays))
                  (ground (arith, stays)))
          | inr other ↦
              let got = get_ahead mem size true in_ m.node_out in
              let (some_cell, hn, hend, text) =
                get_ahead-Gets mem size in_ m.node_out hin hout (ground (arith, other)) in
              let (moved, prints) = round_got a m got indexed (rw replies refl) in
              let moved' = moved ∙ wrap_mod size (m.node_out + got.0) hs (omega arith) hend in
              let prints' = prints ∙ ap (λ (l : List ℕ). m.printed ++ l) text in
              let (less, inside) =
                ahead_less size in_ m.node_out got.0 m'.node_out hin hout hn hend moved' in
              let enough : ahead size in_ m.node_out ≤ answered rounds + 1 = rw replies at h in
              moves-IsCaughtUp m m' m'' got.0 hout hend moved' prints' less (
                run_rounds-IsCaughtUp rounds m' later hs hin inside
                  (omega (arith, less, some_cell, enough)))
        ]
      ]
