-- ===== src/Pid/Boot.antt =====
-- `pid_bootstrap` and `pid_unalloc`, also after `pid_alloc`, of a3/src/kern/thread/pid.c.
use csc.Base.{
  ℕ, ◌≤◌, ◌≡◌, refl, sym, ap, ◌∙◌, true, false, Bool, ◌&&◌, Option, none, some, arith, eq→==,
  if◌then◌else◌, ok, panic, ◌≢◌, Result, success, failure, eagain, enomem, Returns-inv,
}
use csc.Pid.{
  PidInfo, PidTable, update, slot, pid_min, pid_max, invalid_pid, bootup_pid, pid_bootstrap,
  pid_unalloc, pid_alloc, procs_max,
}
use csc.Pid.Valid.{
  EntryOk, IsValid, EntriesOk-update, count_used, update-update, update_same, pi_drop_marked,
  pi_get-found, in_range-true, free-IsValid,
}
use csc.Pid.Alloc.{Allocated, AllocResult, pid_alloc_lem, fresh}
use csc.Pid.Waiting.{dropped}

boot-EntryOk : EntryOk bootup_pid (fresh bootup_pid invalid_pid)
boot-EntryOk = record {
  placed = refl;
  valid = omega arith;
  small = omega arith;
  foreign = omega arith;
  owned = λ e. absurd (cc);
  detached = λ e. absurd (cc);
  orphan = λ e h. absurd (h refl);
}

-- What `pid_bootstrap` leaves: the first thread's entry, and nothing else.
abbrev pub booted : PidTable
booted = record {
  info = update (λ j. none) bootup_pid (some (fresh bootup_pid invalid_pid));
  nextpid = pid_min;
  nprocs = 1;
}

pub booted-IsValid : IsValid booted
unfolding count_used
booted-IsValid = record {
  entries =
      EntriesOk-update (λ j. none) bootup_pid (some (fresh bootup_pid invalid_pid)) (λ j h. tt)
        boot-EntryOk;
  next_low = omega arith;
  next_high = omega arith;
  counted = refl;
}

-- `pid_bootstrap` leaves a valid table if the lock and the memory are there, and panics if not.
pub pid_bootstrap_lem :
    (lock mem cv : Bool)
    → (pid_bootstrap lock mem cv ≡ (if lock && (mem && cv) then ok booted else panic))
      × IsValid booted
unfolding pid_bootstrap
pid_bootstrap_lem true true true = (refl, booted-IsValid)
pid_bootstrap_lem true true false = (refl, booted-IsValid)
pid_bootstrap_lem true false cv = (refl, booted-IsValid)
pid_bootstrap_lem false mem cv = (refl, booted-IsValid)

-- `pid_unalloc` of a child of the caller that runs no code yet frees its slot, and nothing else.
pub pid_unalloc_lem :
    (cur pid : ℕ) (t : PidTable) (them : PidInfo)
    → IsValid t
    → pid_min ≤ pid
    → pid ≤ pid_max
    → t.info (slot pid) ≡ some them
    → them.pid ≡ pid
    → them.exited ≡ false
    → them.ppid ≡ cur
    → (pid_unalloc cur pid t ≡ ok (dropped pid t)) × IsValid (dropped pid t)
unfolding pid_unalloc
pid_unalloc_lem cur pid t them v low high at p x parent = (
  rw (
    in_range-true pid low high,
    pi_get-found pid them t (omega arith) at p,
    pid_unalloc,
    x,
    eq→== them.ppid cur parent,
    pi_drop_marked pid (record them { exitstatus = 0xdead; exited = true; ppid = invalid_pid }) t p
        refl refl,
  ),
  free-IsValid t v (slot pid) (omega arith) them at,
)

-- What `pid_unalloc` does after an allocation.
Allocated-unalloc :
    (cur pid : ℕ) (t t' : PidTable)
    → IsValid t'
    → Allocated t cur pid t'
    → (u : PidTable) × (pid_unalloc cur pid t' ≡ ok u)
      × (u.info ≡ t.info)
      × (u.nprocs ≡ t.nprocs)
      × IsValid u
Allocated-unalloc cur pid t t' v a =
    let at : t'.info (slot pid) ≡ some (fresh pid cur) =
      ap (λ (f : ℕ → Option PidInfo). f (slot pid)) a.entry ∙ ground arith in
    let done = pid_unalloc_lem cur pid t' (fresh pid cur) v a.low a.high at refl refl refl in
    (
      dropped pid t',
      done.0,
      rw a.entry (
          update-update t.info (slot pid) (some (fresh pid cur)) none
          ∙ sym (update_same t.info (slot pid) none a.was_free)),
      omega (arith, a.counted),
      done.1,
    )

-- In a valid table that is not full, when memory is there, `pid_alloc` called by a thread of the table
-- gives out a pid, and `pid_unalloc` of it by the same thread returns: the slots and the count are as
-- before `pid_alloc`, and the table is valid.
pub alloc-unalloc :
    (cur : ℕ) (t : PidTable)
    → IsValid t
    → cur ≢ invalid_pid
    → (caller : PidInfo) → t.info (slot cur) ≡ some caller
    → t.nprocs ≢ procs_max
    → (pid : ℕ) × (t' : PidTable) × (u : PidTable) × (pid_alloc true true cur t
        ≡ ok (t', success pid))
      × (pid_unalloc cur pid t' ≡ ok u)
      × (u.info ≡ t.info)
      × (u.nprocs ≡ t.nprocs)
      × IsValid u
alloc-unalloc cur t v c caller alive room =
    let (r, run, result) =
      Returns-inv (λ (r : PidTable × Result ℕ). IsValid r.0 × AllocResult true t cur r)
        (pid_alloc true true cur t) (pid_alloc_lem true true cur t v c caller alive) in
    handed_out r run result
  where
    handed_out :
        (r : PidTable × Result ℕ)
        → pid_alloc true true cur t ≡ ok r
        → IsValid r.0 × AllocResult true t cur r
        → (pid : ℕ) × (t' : PidTable) × (u : PidTable) × (pid_alloc true true cur t
            ≡ ok (t', success pid))
          × (pid_unalloc cur pid t' ≡ ok u)
          × (u.info ≡ t.info)
          × (u.nprocs ≡ t.nprocs)
          × IsValid u
    handed_out (t', success pid) run (v', (a, there)) =
        let (u, back, info, count, valid) = Allocated-unalloc cur pid t t' v' a in
        (pid, t', u, run, back, info, count, valid)
    handed_out (t', failure eagain) run (v', (same, full)) = absurd (room full)
    handed_out (t', failure enomem) run (v', (gone, same, count)) = absurd (ground (arith, gone))
    handed_out (t', failure e) run (v', none_such) = absurd none_such
