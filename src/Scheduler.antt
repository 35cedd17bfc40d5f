-- ===== src/Scheduler.antt =====
-- a3/src/kern/thread/scheduler.c, and the part of `mi_switch` of a3/src/kern/thread/thread.c that
-- puts a thread that stays ready back into the run queue and picks the next one.
-- `spl` is `curspl`. A thread is a number. `cpu_idle` lets interrupts happen, which make threads
-- runnable: what each call of it brings is given as a list, `none` as a result says that the
-- processor still idles when the list is used up.
pub mod Yield
mod Tests
use csc.Base.{
  ℕ, zero, suc, ◌+◌, Bool, true, false, Option, none, some, List, [], ◌∷◌, ltb, if◌then◌else◌, Run,
  ok, panic, ◌>>=◌, ◌>>◌, assert, Result, success, failure,
}
use csc.Queue.{Queue, q_create, q_preallocate, q_addtail, q_remhead, q_empty, q_destroy}

pub scheduler_bootstrap : Bool → Bool → Run (Queue ℕ)
scheduler_bootstrap mem mem_data = elim (q_create {A = ℕ} mem mem_data 32) [
  | none ↦ panic
  | some q ↦ ok q
]

pub scheduler_preallocate : Bool → ℕ → Queue ℕ → ℕ → Run (Queue ℕ × Result (Unit {0}))
scheduler_preallocate mem spl q nthreads = do assert (ltb 0 spl); q_preallocate mem q nthreads

-- The loop of `scheduler_killall`, with the threads that it drops.
pub kill_loop : ℕ → Queue ℕ → Run (List ℕ × Queue ℕ)
kill_loop zero q = if q_empty q then ok ([], q) else panic
kill_loop (suc fuel) q =
    let round : Run (List ℕ × Queue ℕ) = do
      (t, q') ← q_remhead q
      (rest, q'') ← kill_loop fuel q'
      ok (t ∷ rest, q'')
    in if q_empty q then ok ([], q) else round

pub scheduler_killall : ℕ → Queue ℕ → Run (List ℕ × Queue ℕ)
scheduler_killall spl q = do assert (ltb 0 spl); kill_loop q.size q

pub scheduler_shutdown : ℕ → Queue ℕ → Run (List ℕ)
unfolding scheduler_killall
scheduler_shutdown spl q = do
  (dropped, q') ← scheduler_killall spl q
  assert (ltb 0 spl)
  q_destroy q'
  ok dropped

pub make_runnable : Bool → ℕ → Queue ℕ → ℕ → Run (Queue ℕ × Result (Unit {0}))
make_runnable mem spl q t = do assert (ltb 0 spl); q_addtail mem q t

-- A caller of `make_runnable` asserts that it does not fail.
pub must_run : Bool → ℕ → Queue ℕ → ℕ → Run (Queue ℕ)
unfolding make_runnable
must_run mem spl q t = do
  (q', result) ← make_runnable mem spl q t
  elim result [ success _ ↦ ok q' | failure _ ↦ panic ]

-- The threads that one call of `cpu_idle` makes runnable.
pub arrive : Bool → ℕ → List ℕ → Queue ℕ → Run (Queue ℕ)
unfolding must_run
arrive mem spl [] q = ok q
arrive mem spl (t ∷ ts) q = do q' ← must_run mem spl q t; arrive mem spl ts q'

pub idle_loop : Bool → ℕ → List (List ℕ) → Queue ℕ → Run (Option (ℕ × Queue ℕ))
idle_loop mem spl [] q =
    if q_empty q then ok none else (do (t, q') ← q_remhead q; ok (some (t, q')))
idle_loop mem spl (ts ∷ idles) q =
    let round : Run (Option (ℕ × Queue ℕ)) = do q' ← arrive mem spl ts q; idle_loop mem spl idles q'
    in if q_empty q then round else (do (t, q') ← q_remhead q; ok (some (t, q')))

pub scheduler : Bool → ℕ → List (List ℕ) → Queue ℕ → Run (Option (ℕ × Queue ℕ))
unfolding idle_loop
scheduler mem spl idles q = do assert (ltb 0 spl); idle_loop mem spl idles q

-- `mi_switch(S_READY)`: the current thread goes to the end of the run queue, so the queue is not
-- empty and the processor does not idle.
pub switch_ready : Bool → ℕ → ℕ × Queue ℕ → Run (Option (ℕ × Queue ℕ))
unfolding must_run
switch_ready mem spl (cur, q) = do
  assert (ltb 0 spl)
  q' ← must_run mem spl q cur
  scheduler mem spl [] q'

-- `n` such switches in a row.
pub switches : Bool → ℕ → ℕ → ℕ × Queue ℕ → Run (Option (ℕ × Queue ℕ))
switches mem spl zero s = ok (some s)
switches mem spl (suc n) s = do
  next ← switch_ready mem spl s
  elim next [ none ↦ ok none | some s' ↦ switches mem spl n s' ]
