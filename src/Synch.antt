-- ===== src/Synch.antt =====
-- a3/src/kern/thread/synch.c: semaphores and locks, over `thread_sleep` and `thread_wakeup` of
-- a3/src/kern/thread/thread.c.
-- A call runs with interrupts off, so what it does up to its return or to `thread_sleep` is one step.
-- `sleepers` are the threads asleep on the address of this one semaphore or lock, the last one
-- first; all are woken together. A call that sleeps goes on with the next round of its loop, once it
-- is awake and it is its turn.
pub mod Exclusion
pub mod Counting
mod Tests
pub use csc.Base.{int_limit}
use csc.Base.{
  ℕ, zero, suc, ◌+◌, ◌-◌, ◌^◌, Bool, true, false, not, ◌||◌, Option, none, some, List, [], ◌∷◌, ltb,
  ◌==◌, if◌then◌else◌, Run, ok, panic, ◌>>=◌, ◌>>◌, assert,
}

-- Whether a call has returned or sleeps.
pub data Outcome : Type 0 where
  done asleep : Outcome

-- `struct lock`
pub record Lock : Type 0 where
  pub owner : Option ℕ
  pub sleepers : List ℕ

abbrev pub holds : Option ℕ → ℕ → Bool
holds none cur = false
holds (some p) cur = p == cur

pub lock_do_i_hold : ℕ → Lock → Bool
lock_do_i_hold cur k = holds k.owner cur

abbrev pub acquire_on : ℕ → Lock → Option ℕ → Lock × Outcome
acquire_on cur k (some p) = (record k { sleepers = cur ∷ k.sleepers }, asleep)
acquire_on cur k none = (record k { owner = some cur }, done)

-- One round of the loop of `lock_acquire`, and the rest of it if the loop ends.
pub acquire_round : ℕ → Lock → Lock × Outcome
acquire_round cur k = acquire_on cur k k.owner

-- The flag is `in_interrupt`.
pub lock_acquire : Bool → ℕ → Lock → Run (Lock × Outcome)
unfolding acquire_round lock_do_i_hold
lock_acquire in_interrupt cur k = do
  assert (not in_interrupt)
  assert (not (lock_do_i_hold cur k))
  ok (acquire_round cur k)

pub lock_release : ℕ → Lock → Run Lock
unfolding lock_do_i_hold
lock_release cur k = do assert (lock_do_i_hold cur k); ok (record { owner = none; sleepers = [] })

-- `struct semaphore`
pub record Semaphore : Type 0 where
  pub count : ℕ
  pub sleepers : List ℕ

-- One round of the loop of `P`, and the rest of it if the loop ends.
pub p_round : ℕ → Semaphore → Run (Semaphore × Outcome)
p_round cur sem =
    if sem.count == 0
    then ok (record sem { sleepers = cur ∷ sem.sleepers }, asleep)
    else (do assert (ltb 0 sem.count); ok (record sem { count = sem.count - 1 }, done))

pub sem_p : Bool → ℕ → Semaphore → Run (Semaphore × Outcome)
sem_p in_interrupt cur sem = do assert (not in_interrupt); p_round cur sem

-- A count that overflows is negative, and fails the assertion.
pub sem_v : Semaphore → Run Semaphore
sem_v sem = do
  assert (ltb (sem.count + 1) int_limit)
  ok (record { count = sem.count + 1; sleepers = [] })
