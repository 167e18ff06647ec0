-- ===== src/Locks.antt =====
-- src/lock.c: the locks of the parameter library, POSIX semaphores. `sem_wait`, `sem_timedwait`,
-- `clock_gettime` and `sem_init` are calls of the system, with the semaphore's value as the state.
pub mod Binary
pub mod Deadline
mod Tests
use csh.Prelude.{
  ℕ, zero, suc, ◌+◌, ◌-◌, ◌*◌, ◌/◌, ◌%◌, ◌^◌, Option, none, some, List, [], ◌∷◌, Bool, true, false,
  if◌then◌else◌, ltb, leb, ◌==◌,
}
use csh.Prelude.Int.{ℤ, pos, negsuc}

-- struct timespec
pub record Timespec : Type 0 where
  pub tv_sec : ℕ
  pub tv_nsec : ℕ

abbrev pub to_uint32 : ℤ → ℕ
to_uint32 (pos n) = n % 2 ^ 32
to_uint32 (negsuc n) = 2 ^ 32 - 1 - n % 2 ^ 32

-- `block_time_ms / 1000`
abbrev pub seconds : ℤ → ℕ
seconds (pos n) = n / 1000
seconds (negsuc n) = (2 ^ 32 - (suc n / 1000) % 2 ^ 32) % 2 ^ 32

-- `(block_time_ms - 1000 * sec) * 1000000`
abbrev pub nanoseconds : ℤ → ℕ
nanoseconds block_time_ms =
    (to_uint32 block_time_ms + (2 ^ 32 - (1000 * seconds block_time_ms) % 2 ^ 32))
    % 2 ^ 32
    * 1000000
    % 2 ^ 32

-- what the time becomes before `sem_timedwait`
unfoldable pub deadline : ℤ → Timespec → Timespec
deadline block_time_ms ts =
    let nsec = nanoseconds block_time_ms in
    let sec = ts.tv_sec + seconds block_time_ms in
    record {
      tv_sec = if leb 1000000000 (ts.tv_nsec + nsec) then sec + 1 else sec;
      tv_nsec = (ts.tv_nsec + nsec) % 1000000000;
    }

-- the semaphore that is handed to the library, by its value
abbrev pub Sem : Type 0
Sem = ℕ

-- how a call that waits ends: the semaphore was free in time, the time ran out, or an error
pub data Wait : Type 0 where
  free : Wait
  timed_out : Wait

-- A wait that is free in time takes one from the value that the semaphore has then.
unfoldable pub waited : Wait → Sem → ℤ × Sem
waited free value = (pos 0, value - 1)
waited timed_out value = (negsuc 0, value)

-- The status, and the semaphore. `clock` is `none` if `clock_gettime` fails; `wait` has no deadline
-- for `sem_wait`, and the deadline of `sem_timedwait`.
unfoldable pub si_lock_take : ℤ → Option Timespec → (Option Timespec → Wait) → Sem → ℤ × Sem
unfolding deadline waited
si_lock_take (negsuc zero) clock wait value = waited (wait none) value
si_lock_take block_time_ms none wait value = (negsuc 0, value)
si_lock_take block_time_ms (some ts) wait value =
    waited (wait (some (deadline block_time_ms ts))) value

unfoldable pub si_lock_give : Sem → ℤ × Sem
si_lock_give value = if ltb 0 value then (pos 0, value) else (pos 0, value + 1)

-- `lock_taken` and `locks`
pub record Locks : Type 0 where
  pub lock_taken : List Bool
  pub locks : List Sem

abbrev pub num_locks : ℕ
num_locks = 3

-- the loop of `si_lock_init` from index i on: the index of the lock that is returned
unfoldable pub init_loop : ℕ → List Bool → List Sem → Locks × Option ℕ
init_loop i (taken ∷ rest) (sem ∷ sems) =
    let (s, found) = init_loop (suc i) rest sems in
    if taken
    then (record { lock_taken = true ∷ s.lock_taken; locks = sem ∷ s.locks }, found)
    else (record { lock_taken = true ∷ rest; locks = 1 ∷ sems }, some i)
init_loop i lock_taken locks = (record { lock_taken = lock_taken; locks = locks }, none)

unfoldable pub si_lock_init : Locks → Locks × Option ℕ
unfolding init_loop
si_lock_init s = init_loop 0 s.lock_taken s.locks
