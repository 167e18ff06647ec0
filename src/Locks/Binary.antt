-- ===== src/Locks/Binary.antt =====
-- lock.c: the value of a lock over sequences of calls, and the table of locks.
use csh.Prelude.{
  ℕ, zero, suc, ◌∙◌, set, All, ap, ◌⊎◌, inl, inr, ◌+◌, ◌≤◌, ◌≡◌, refl, Option, none, some, List, [],
  ◌∷◌, Bool, true, false, arith, length, get_elem?,
}
use csh.Prelude.Int.{ℤ, pos, negsuc}
use csh.Locks.{
  Timespec, waited, deadline, Sem, Wait, free, timed_out, Locks, si_lock_take, si_lock_give,
  init_loop, si_lock_init,
}

-- A call of the library on a lock. A wait without a limit is -1.
pub data Call : Type 0 where
  take : ℤ → Option Timespec → (Option Timespec → Wait) → Call
  give : Call

abbrev pub run_call : Call → Sem → ℤ × Sem
run_call (take block_time_ms clock wait) value = si_lock_take block_time_ms clock wait value
run_call give value = si_lock_give value

abbrev pub run_calls : List Call → Sem → Sem
run_calls [] value = value
run_calls (call ∷ calls) value = run_calls calls (run_call call value).1

waited_le : (w : Wait) (value : Sem) → value ≤ 1 → (waited w value).1 ≤ 1
unfolding waited
waited_le free value h = omega arith
waited_le timed_out value h = h

run_call_le : (call : Call) (value : Sem) → value ≤ 1 → (run_call call value).1 ≤ 1
unfolding si_lock_take si_lock_give
run_call_le (take (negsuc zero) clock wait) value h = waited_le (wait none) value h
run_call_le (take (negsuc (suc n)) none wait) value h = h
run_call_le (take (negsuc (suc n)) (some ts) wait) value h =
    waited_le (wait (some (deadline (negsuc (suc n)) ts))) value h
run_call_le (take (pos n) none wait) value h = h
run_call_le (take (pos n) (some ts) wait) value h =
    waited_le (wait (some (deadline (pos n) ts))) value h
run_call_le give value h = ground arith

-- A lock that starts free or taken never holds more than one: after any sequence of takes and gives
-- on it, whatever their block times and the ends of their waits, its value is at most 1.
pub run_calls_le : (calls : List Call) (value : Sem) → value ≤ 1 → run_calls calls value ≤ 1
run_calls_le [] value h = h
run_calls_le (call ∷ calls) value h =
    run_calls_le calls (run_call call value).1 (run_call_le call value h)

-- A lock was handed out: it was not taken; it is then taken and free to use, all others are as before.
pub record Handed (k : ℕ) (lock_taken : List Bool) (locks : List Sem) (after : Locks × Option ℕ)
    : Type 0 where
  pub index : ℕ
  pub was_free : get_elem? lock_taken index ≡ some false
  pub flags : after.0.lock_taken ≡ set lock_taken index true
  pub values : after.0.locks ≡ set locks index 1
  pub result : after.1 ≡ some (k + index)

-- No lock is left, and nothing changes.
pub record Full (lock_taken : List Bool) (locks : List Sem) (after : Locks × Option ℕ)
    : Type 0 where
  pub taken : All (λ t. t ≡ true) lock_taken
  pub flags : after.0.lock_taken ≡ lock_taken
  pub values : after.0.locks ≡ locks
  pub result : after.1 ≡ none

init_loop_lem :
    (k : ℕ) (lock_taken : List Bool) (locks : List Sem)
    → length lock_taken ≡ length locks
    → Handed k lock_taken locks (init_loop k lock_taken locks)
      ⊎ Full lock_taken locks (init_loop k lock_taken locks)
unfolding init_loop
init_loop_lem k [] locks h = inr (record { taken = tt; flags = refl; values = refl; result = refl })
init_loop_lem k (t ∷ ts) [] h = cc
init_loop_lem k (false ∷ ts) (l ∷ ls) h = inl (record {
  index = 0;
  was_free = refl;
  flags = refl;
  values = refl;
  result = ap some (omega arith);
})
init_loop_lem k (true ∷ ts) (l ∷ ls) h = elim (init_loop_lem (suc k) ts ls (omega arith)) [
  | inl g ↦ inl (record {
    index = suc g.index;
    was_free = g.was_free;
    flags = ap (λ xs. true ∷ xs) g.flags;
    values = ap (λ xs. l ∷ xs) g.values;
    result = g.result ∙ ap some (omega arith);
  })
  | inr f ↦ inr (record {
    taken = (refl, f.taken);
    flags = ap (λ xs. true ∷ xs) f.flags;
    values = ap (λ xs. l ∷ xs) f.values;
    result = f.result;
  })
]

-- With as many flags as locks, `si_lock_init` hands out a lock that was not taken, by its index: it
-- is then taken and has the value 1, and all other locks are as before. If it hands out none, every
-- lock is taken and nothing changes.
pub si_lock_init_lem :
    (s : Locks)
    → length s.lock_taken ≡ length s.locks
    → Handed 0 s.lock_taken s.locks (si_lock_init s) ⊎ Full s.lock_taken s.locks (si_lock_init s)
unfolding si_lock_init
si_lock_init_lem s h = init_loop_lem 0 s.lock_taken s.locks h
