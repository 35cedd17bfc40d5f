-- ===== src/Scheduler/Yield.antt =====
-- The run queue of a3/src/kern/thread/scheduler.c is served in turn.
use csc.Base.{
  ℕ, zero, suc, ◌+◌, ◌*◌, ◌≤◌, ◌<◌, ◌≡◌, Bool, false, some, List, [], ◌∷◌, ◌++◌, append_assoc,
  arith, lt→ltb, ne→==, length, length-append, ok, panic, success, failure, enomem,
}
use csc.Queue.{Queue, int_limit}
use csc.Queue.Window.{Represents, stored_at}
use csc.Queue.Refine.{
  q_preallocate-enough, q_addtail-room, q_addtail-full, q_remhead_lem, q_empty_lem, q_destroy-empty,
}
use csc.Scheduler.{
  kill_loop, scheduler_shutdown, make_runnable, must_run, scheduler, switch_ready, switches,
  scheduler_preallocate,
}

kill_loop_lem :
    (fuel : ℕ) (q : Queue ℕ) (xs : List ℕ)
    → Represents q xs
    → length xs ≤ fuel
    → (q' : Queue ℕ) × (kill_loop fuel q ≡ ok (xs, q')) × Represents q' []
unfolding kill_loop
kill_loop_lem zero q [] h f = (q, rw (q_empty_lem q [] h), h)
kill_loop_lem zero q (x ∷ xs) h f = absurd (omega arith)
kill_loop_lem (suc fuel) q [] h f = (q, rw (q_empty_lem q [] h), h)
kill_loop_lem (suc fuel) q (x ∷ xs) h f =
    let (q', taken, rest, same) = q_remhead_lem q x xs h in
    let (q'', run, done) = kill_loop_lem fuel q' xs rest (omega arith) in
    (q'', rw (q_empty_lem q (x ∷ xs) h, ne→== (suc (length xs)) 0 (omega arith), taken, run), done)

-- Shutting down with interrupts off drops every thread of the run queue, in order, and the queue is
-- empty when it is destroyed, so no assertion fails.
pub scheduler_shutdown_lem :
    (spl : ℕ) (q : Queue ℕ) (xs : List ℕ)
    → 0 < spl
    → Represents q xs
    → scheduler_shutdown spl q ≡ ok xs
unfolding scheduler_shutdown
scheduler_shutdown_lem spl q xs off h =
    let (q', run, empty) = kill_loop_lem q.size q xs h (omega (arith, h.room)) in
    rw (lt→ltb 0 spl off, run, q_destroy-empty q' empty)

-- One switch with a cell to spare: the current thread goes last, the first of the queue runs.
switch_ready_lem :
    (mem : Bool) (spl cur next : ℕ) (q : Queue ℕ) (xs : List ℕ)
    → 0 < spl
    → Represents q (next ∷ xs)
    → length xs + 2 < q.size
    → (q' : Queue ℕ) × (switch_ready mem spl (cur, q) ≡ ok (some (next, q')))
      × Represents q' (xs ++ cur ∷ [])
      × (q'.size ≡ q.size)
unfolding switch_ready scheduler
switch_ready_lem mem spl cur next q xs off h room =
    let (run, all) = q_addtail-room mem q cur (next ∷ xs) h (omega arith) in
    let (q', taken, rest, same) = q_remhead_lem (stored_at q cur) next (xs ++ cur ∷ []) all in
    (
      q',
      rw (
        lt→ltb 0 spl off,
        run,
        q_empty_lem (stored_at q cur) (next ∷ xs ++ cur ∷ []) all,
        ne→== (suc (length (xs ++ cur ∷ []))) 0 (omega arith),
        taken,
      ),
      rest,
      same,
    )

-- Round robin: with interrupts off and one cell more than the threads need, whatever memory is
-- left, the thread behind `ys` in the run queue runs after as many switches as there are threads
-- before it, and one. No assertion fails, and the others keep their order: those behind it come
-- first, then the thread that ran at the start, then `ys`.
pub switches_round_robin :
    (mem : Bool) (spl cur t : ℕ) (q : Queue ℕ) (ys zs : List ℕ)
    → 0 < spl
    → Represents q (ys ++ t ∷ zs)
    → length ys + length zs + 2 < q.size
    → (q' : Queue ℕ) × (switches mem spl (suc (length ys)) (cur, q) ≡ ok (some (t, q')))
      × Represents q' (zs ++ cur ∷ ys)
unfolding switches
switches_round_robin mem spl cur t q [] zs off h room =
    let (q', run, rest, same) = switch_ready_lem mem spl cur t q zs off h (omega arith) in
    (q', rw run, rest)
switches_round_robin mem spl cur t q (y ∷ ys) zs off h room =
    let longer = length-append ys (t ∷ zs) in
    let (q', run, rest, same) =
      switch_ready_lem mem spl cur y q (ys ++ t ∷ zs) off h (omega (arith, longer)) in
    let longer' = length-append zs (cur ∷ []) in
    let (q'', run', rest') =
      switches_round_robin mem spl y t q' ys (zs ++ cur ∷ []) off
        (rw (append_assoc ys (t ∷ zs) (cur ∷ [])) at rest) (omega (arith, longer')) in
    (q'', rw run run', rw (append_assoc zs (cur ∷ []) (y ∷ ys)) at rest')

-- `scheduler_preallocate` leaves the array alone if it has `nthreads` cells. A run queue of one
-- thread fewer then has no room for one more: `make_runnable` needs memory, and fails without.
pub scheduler_preallocate_short :
    (spl t : ℕ) (q : Queue ℕ) (xs : List ℕ)
    → 0 < spl
    → Represents q xs
    → length xs + 1 ≡ q.size
    → (q.size + 1) * 2 ≤ int_limit
    → (scheduler_preallocate false spl q q.size ≡ ok (q, success tt))
      × (make_runnable false spl q t ≡ ok (q, failure enomem))
      × (must_run false spl q t ≡ panic)
unfolding scheduler_preallocate make_runnable must_run
scheduler_preallocate_short spl t q xs off h full lim =
    let on = lt→ltb 0 spl off in
    let kept = q_preallocate-enough false q q.size (omega (arith, h.read_in)) (omega arith) in
    let fails = q_addtail-full q t xs h full lim in (rw (on, kept), rw (on, fails), rw (on, fails))
