-- ===== src/Locks/Deadline.antt =====
-- lock.c: the deadline of a timed wait.
use csh.Prelude.{ℕ, ◌+◌, ◌-◌, ◌*◌, ◌/◌, ◌%◌, ◌^◌, ◌<◌, ◌≡◌, arith}
use csh.Prelude.Int.{pos}
use csh.Locks.{Timespec, deadline, nanoseconds}

-- a time in nanoseconds
abbrev pub in_nanoseconds : Timespec → ℕ
in_nanoseconds ts = ts.tv_sec * 1000000000 + ts.tv_nsec

-- A deadline is a valid time that lies the given number of milliseconds after another.
pub record IsAfter (ms : ℕ) (ts : Timespec) (after : Timespec) : Type 0 where
  pub normal : after.tv_nsec < 1000000000
  pub exact : in_nanoseconds after ≡ in_nanoseconds ts + ms * 1000000

milliseconds : (ms : ℕ) → ms < 2 ^ 31 → nanoseconds (pos ms) ≡ ms % 1000 * 1000000
milliseconds ms h =
    let a : (ms % 2 ^ 32 + (2 ^ 32 - (1000 * (ms / 1000)) % 2 ^ 32)) % 2 ^ 32 ≡ ms % 1000 =
      omega (arith, h) in
    rw a (omega arith)

-- For a block time from 0 to 2^31 - 1 ms and a valid time of the clock, the deadline that is computed
-- has less than a second of nanoseconds and lies exactly the block time after the clock.
pub deadline-IsAfter :
    (ms : ℕ) (ts : Timespec)
    → ms < 2 ^ 31
    → ts.tv_nsec < 1000000000
    → IsAfter ms ts (deadline (pos ms) ts)
unfolding deadline
deadline-IsAfter ms ts h n =
    let e = milliseconds ms h in record { normal = omega arith; exact = ground (arith, e) }
