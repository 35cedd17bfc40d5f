-- ===== src/Synch/Tests.antt =====
-- A lock and a semaphore in short schedules.
use csc.Base.{ℕ, ◌≡◌, refl, arith, some, if◌then◌else◌, ◌==◌, [], ◌∷◌, ok, Returns}
use csc.Synch.{acquire_round, lock_acquire, lock_release, lock_do_i_hold}
use csc.Synch.Exclusion
use csc.Synch.Exclusion.{
  run, step, inside, outside, waiting, lock_runs, lock_excludes, start-IsSafe,
}
use csc.Synch.Counting
use csc.Synch.Counting.{wait, post, semaphore_runs, IsBalanced, start-IsBalanced}

-- Thread 1 takes the lock, 2 sleeps on it, 1 gives it back, and 2 takes it.
abbrev handed_over : Exclusion.System
handed_over = record {
  lock = record { owner = some 2; sleepers = [] };
  place = λ p.
      if 2 == p
      then inside
      else (if 1 == p
          then outside
          else (if 2 == p then waiting else (if 1 == p then inside else outside)));
}

handed_over_runs : Exclusion.run (1 ∷ 2 ∷ 1 ∷ 2 ∷ []) Exclusion.start ≡ ok handed_over
unfolding run step lock_acquire lock_release lock_do_i_hold acquire_round
handed_over_runs = refl

abbrev second : ℕ
second = 2

lock_excludes_example : second ≡ second
lock_excludes_example =
    lock_excludes (1 ∷ 2 ∷ 1 ∷ 2 ∷ []) handed_over second second handed_over_runs refl refl

lock_runs_example : Returns Exclusion.IsSafe (Exclusion.run (1 ∷ 2 ∷ 1 ∷ 2 ∷ []) Exclusion.start)
lock_runs_example = lock_runs (1 ∷ 2 ∷ 1 ∷ 2 ∷ []) Exclusion.start start-IsSafe

semaphore_runs_example :
    Returns
      (IsBalanced 0)
      (Counting.run ((1, wait) ∷ (2, post) ∷ (1, wait) ∷ []) (Counting.start 0))
semaphore_runs_example =
    semaphore_runs 0 ((1, wait) ∷ (2, post) ∷ (1, wait) ∷ []) (Counting.start 0)
      (start-IsBalanced 0) (omega arith)
