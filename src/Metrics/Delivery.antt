-- ===== src/Metrics/Delivery.antt =====
-- victoria_metrics.c: the lines of both threads over any interleaving of their rounds.
use csh.Prelude.{
  ◌+◌, ◌<◌, ◌≡◌, ◌∙◌, sym, ap, Bytes, List, [], ◌∷◌, ◌++◌, append-nil, append_assoc, Bool, true,
  false, if◌then◌else◌, ◌==◌, ltb, length, length-append, arith, Bool-cases, inl, inr,
}
use csh.Metrics.{Push, buffer_size, vm_add, vm_push}

-- a round of one of the two threads
pub data Round : Type 0 where
  add : Bytes → Round
  push : Bool → Round

abbrev pub run_round : Round → Push → Push
run_round (add line) s = vm_add line s
run_round (push ok) s = vm_push ok s

abbrev pub run_rounds : List Round → Push → Push
run_rounds [] s = s
run_rounds (r ∷ rs) s = run_rounds rs (run_round r s)

abbrev pub concat : List Bytes → Bytes
concat [] = []
concat (x ∷ xs) = x ++ concat xs

-- what was posted, and then what waits
abbrev pub stream : Push → Bytes
stream s = concat s.posted ++ s.buffer

-- the bytes that a round takes in: the line, if it fits when it is added
abbrev pub taken : Round → Push → Bytes
taken (add line) s = if ltb (length s.buffer + length line) buffer_size then line else []
taken (push ok) s = []

abbrev pub taken_all : List Round → Push → Bytes
taken_all [] s = []
taken_all (r ∷ rs) s = taken r s ++ taken_all rs (run_round r s)

pub concat-snoc : (xs : List Bytes) (x : Bytes) → concat (xs ++ x ∷ []) ≡ concat xs ++ x
concat-snoc [] x = append-nil x
concat-snoc (y ∷ xs) x = ap (λ t. y ++ t) (concat-snoc xs x) ∙ sym (append_assoc y (concat xs) x)

stream-round : (r : Round) (s : Push) → stream (run_round r s) ≡ stream s ++ taken r s
unfolding vm_add vm_push
stream-round (add line) s = elim (Bool-cases (ltb (length s.buffer + length line) buffer_size)) [
  | inl room ↦ rw room (sym (append_assoc (concat s.posted) s.buffer line))
  | inr full ↦ rw full (sym (append-nil (stream s)))
]
stream-round (push ok) s = elim (Bool-cases (length s.buffer == 0)) [
  | inl empty ↦ rw empty (sym (append-nil (stream s)))
  | inr some_lines ↦ rw some_lines (posted ok)
]
  where
    posted :
        (o : Bool)
        → stream (if o then record { buffer = []; posted = s.posted ++ s.buffer ∷ [] } else s)
          ≡ stream s ++ []
    posted true = ap (λ t. t ++ []) (concat-snoc s.posted s.buffer)
    posted false = sym (append-nil (stream s))

round-fits :
    (r : Round) (s : Push)
    → length s.buffer < buffer_size
    → length (run_round r s).buffer < buffer_size
unfolding vm_add vm_push
round-fits (add line) s h = ground (arith, length-append s.buffer line)
round-fits (push ok) s h = ground arith

-- Over any interleaving of added lines and posts, failed ones included, that starts with less than
-- 10 MiB waiting: what was posted followed by what waits is what was there before followed by the
-- lines taken in, each once and in order; and always less than 10 MiB wait.
pub run_rounds-stream :
    (rs : List Round) (s : Push)
    → length s.buffer < buffer_size
    → (stream (run_rounds rs s) ≡ stream s ++ taken_all rs s)
      × (length (run_rounds rs s).buffer < buffer_size)
run_rounds-stream [] s h = (sym (append-nil (stream s)), h)
run_rounds-stream (r ∷ rs) s h =
    let (e, size) = run_rounds-stream rs (run_round r s) (round-fits r s h) in
    (
      e
          ∙ ap (λ t. t ++ taken_all rs (run_round r s)) (stream-round r s)
          ∙ append_assoc (stream s) (taken r s) (taken_all rs (run_round r s)),
      size,
    )
