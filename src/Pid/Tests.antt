-- ===== src/Pid/Tests.antt =====
-- The process table's functions on small inputs.
use csc.Base.{
  ℕ, ◌≡◌, refl, true, some, arith, ok, ◌>>=◌, ◌==◌, ==→eq, Bool-cases, inl, inr, Returns, [], ◌∷◌,
  pos, success,
}
use csc.Pid.{
  PidTable, Signalled, update, max_loops, find_free, pid_alloc, pid_unalloc, pid_setexited,
  pid_join, join_finish, pid_detach,
}
use csc.Pid.Valid.{IsValid, EntryOk, EntriesOk-update, count_used}
use csc.Pid.Alloc.{fresh, Candidate, find_free_total, AllocResult, pid_alloc_lem}
use csc.Pid.Exit.{Exited, pid_setexited_lem}
use csc.Pid.Waiting.{dropped, JoinResult, DetachResult, pid_join_lem, pid_detach_lem}
use csc.Pid.Boot.{booted, booted-IsValid, alloc-unalloc}
use csc.Pid.System.{System, fork, exit, running, sleeping, set_state, run}
use csc.Pid.System.Waits.{IsSafe}
use csc.Pid.System.Safety.{run-IsSafe}
use csc.Pid.System.Delivery.{join_delivers}

-- The first thread, and its children 2 and 3.
abbrev family : PidTable
family = record {
  info = update (update booted.info 2 (some (fresh 2 1))) 3 (some (fresh 3 1));
  nextpid = 4;
  nprocs = 3;
}

child-EntryOk_two : EntryOk 2 (fresh 2 1)
child-EntryOk_two = record {
  placed = refl;
  valid = omega arith;
  small = omega arith;
  foreign = omega arith;
  owned = λ e. absurd (cc);
  detached = λ e. absurd (cc);
  orphan = λ e h. absurd (omega arith);
}

child-EntryOk_three : EntryOk 3 (fresh 3 1)
child-EntryOk_three = record {
  placed = refl;
  valid = omega arith;
  small = omega arith;
  foreign = omega arith;
  owned = λ e. absurd (cc);
  detached = λ e. absurd (cc);
  orphan = λ e h. absurd (omega arith);
}

family-IsValid : IsValid family
unfolding count_used
family-IsValid = record {
  entries =
      EntriesOk-update (update booted.info 2 (some (fresh 2 1))) 3 (some (fresh 3 1))
        (EntriesOk-update booted.info 2 (some (fresh 2 1)) booted-IsValid.entries child-EntryOk_two)
        child-EntryOk_three;
  next_low = omega arith;
  next_high = omega arith;
  counted = refl;
}

abbrev parent_asleep : System
parent_asleep = record { table = family; state = set_state (λ p. running) 1 (sleeping 2) }

parent_asleep-IsSafe : IsSafe parent_asleep
parent_asleep-IsSafe = record {
  table = family-IsValid;
  waiting = λ p. elim (Bool-cases (1 == p)) [
    | inl e ↦
        rw (e, ← ==→eq 1 p e)
          (fresh 2 1, record { found = refl; named = refl; parent = refl; joinable = refl }, refl)
    | inr e ↦ rw e tt
  ];
}

alloc_runs : (pid_alloc true true 1 family >>= λ (t, r). ok r) ≡ ok (success 4)
unfolding pid_alloc find_free
alloc_runs = refl

find_free_total_example :
    (p : ℕ) × (find_free max_loops family.info 4 ≡ ok p) × Candidate family.info p
unfolding count_used
find_free_total_example = find_free_total family.info 4 (omega arith) (omega arith) (omega arith)

pid_alloc_lem_example :
    Returns (λ r. IsValid r.0 × AllocResult true family 1 r) (pid_alloc true true 1 family)
pid_alloc_lem_example =
    pid_alloc_lem true true 1 family family-IsValid (omega arith) (fresh 1 0) refl

pid_setexited_lem_example :
    (r : Signalled) × (pid_setexited 2 7 family ≡ ok r) × Exited 2 7 (fresh 2 1) family r
pid_setexited_lem_example =
    pid_setexited_lem 2 7 family (fresh 2 1) family-IsValid (omega arith) (omega arith) refl refl
      refl

pid_join_lem_example :
    Returns (λ r. IsValid r.0 × JoinResult 1 2 family r) (pid_join 1 (pos 2) family)
pid_join_lem_example = pid_join_lem 1 2 family family-IsValid

pid_detach_lem_example :
    Returns (λ r. IsValid r.0 × DetachResult 1 3 family r) (pid_detach 1 (pos 3) family)
pid_detach_lem_example = pid_detach_lem 1 3 family family-IsValid

run-IsSafe_example : Returns IsSafe (run ((2, exit 7) ∷ (3, fork true true) ∷ []) parent_asleep)
run-IsSafe_example =
    run-IsSafe ((2, exit 7) ∷ (3, fork true true) ∷ []) parent_asleep parent_asleep-IsSafe
      (omega arith)

join_delivers_example :
    Returns
      (λ s'. join_finish 2 s'.table ≡ ok (dropped 2 s'.table, success 7))
      (run ((2, exit 7) ∷ (3, fork true true) ∷ []) parent_asleep)
join_delivers_example =
    join_delivers 1 2 7 ((3, fork true true) ∷ []) parent_asleep parent_asleep-IsSafe refl refl
      (omega arith) (tt, tt) (omega arith)

alloc-unalloc_example :
    (pid : ℕ) × (t' : PidTable) × (u : PidTable) × (pid_alloc true true 1 family
      ≡ ok (t', success pid))
    × (pid_unalloc 1 pid t' ≡ ok u)
    × (u.info ≡ family.info)
    × (u.nprocs ≡ 3)
    × IsValid u
alloc-unalloc_example =
    alloc-unalloc 1 family family-IsValid (omega arith) (fresh 1 0) refl (omega arith)
