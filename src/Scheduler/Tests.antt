-- ===== src/Scheduler/Tests.antt =====
-- The run queue on small inputs.
use native.Mathlib.Nat.{zero-add}
use csc.Base.{
  ℕ, zero, suc, ◌+◌, ◌%◌, ◌<◌, ◌≡◌, refl, false, none, some, [], ◌∷◌, arith, get_elem?, ok, panic,
  success, failure, enomem, replicate,
}
use csc.Queue.{Queue}
use csc.Queue.Window.{Represents}
use csc.Scheduler.{scheduler_preallocate, make_runnable, must_run, switches}
use csc.Scheduler.Yield.{switches_round_robin, scheduler_preallocate_short}

-- Threads 7 and 8, and `n` more cells than these and the free one.
abbrev pair : ℕ → Queue ℕ
pair n = record {
  size = 3 + n;
  nextwrite = 2;
  nextread = 0;
  items = some 7 ∷ some 8 ∷ none ∷ replicate n none;
}

pair_cells : (k : ℕ) → k < 2 → get_elem? (pair 2).items (k % 5) ≡ some (get_elem? (7 ∷ 8 ∷ []) k)
pair_cells zero h = refl
pair_cells (suc zero) h = refl
pair_cells (suc (suc k)) h = absurd (omega arith)

pair-Represents : Represents (pair 2) (7 ∷ 8 ∷ [])
pair-Represents = record {
  stored = refl;
  read_in = omega arith;
  room = omega arith;
  write_at = refl;
  cells = λ k h. rw zero-add (pair_cells k h);
}

tight_cells : (k : ℕ) → k < 2 → get_elem? (pair 0).items (k % 3) ≡ some (get_elem? (7 ∷ 8 ∷ []) k)
tight_cells zero h = refl
tight_cells (suc zero) h = refl
tight_cells (suc (suc k)) h = absurd (omega arith)

tight-Represents : Represents (pair 0) (7 ∷ 8 ∷ [])
tight-Represents = record {
  stored = refl;
  read_in = omega arith;
  room = omega arith;
  write_at = refl;
  cells = λ k h. rw zero-add (tight_cells k h);
}

switches_round_robin_example :
    (q' : Queue ℕ) × (switches false 1 2 (5, pair 2) ≡ ok (some (8, q')))
    × Represents q' (5 ∷ 7 ∷ [])
switches_round_robin_example =
    switches_round_robin false 1 5 8 (pair 2) (7 ∷ []) [] (omega arith) pair-Represents
      (omega arith)

scheduler_preallocate_short_example :
    (scheduler_preallocate false 1 (pair 0) 3 ≡ ok (pair 0, success tt))
    × (make_runnable false 1 (pair 0) 9 ≡ ok (pair 0, failure enomem))
    × (must_run false 1 (pair 0) 9 ≡ panic)
scheduler_preallocate_short_example =
    scheduler_preallocate_short 1 9 (pair 0) (7 ∷ 8 ∷ []) (omega arith) tight-Represents refl
      (omega arith)
