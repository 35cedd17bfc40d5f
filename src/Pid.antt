-- ===== src/Pid.antt =====
-- a3/src/kern/thread/pid.c: the process table.
-- Every function runs under `pi_lock`, so each is one atomic step. `pid_join` gives the lock up
-- while it waits, and is two steps: `pid_join` and `join_finish`.
-- An entry's condition variable is named by the entry's pid. Exit statuses are only moved, so a
-- status is its bit pattern. `kmalloc` and `cv_create` may fail: two flags say whether they do not.
pub mod Valid
pub mod Alloc
pub mod Exit
pub mod Waiting
pub mod Boot
mod Tests
pub mod System
use csc.Base.{
  ℕ, zero, suc, ◌+◌, ◌-◌, ◌*◌, ◌%◌, Bool, true, false, not, ◌&&◌, Option, none, some, ltb, leb,
  ◌==◌, if◌then◌else◌, ℤ, pos, negsuc, Run, ok, panic, ◌>>=◌, ◌>>◌, assert, Result, success,
  failure, einval, enomem, eagain, esrch,
}

abbrev pub procs_max : ℕ
procs_max = 128

abbrev pub pid_min : ℕ
pid_min = 2

abbrev pub pid_max : ℕ
pid_max = 32767

abbrev pub invalid_pid : ℕ
invalid_pid = 0

abbrev pub bootup_pid : ℕ
bootup_pid = 1

-- `struct pidinfo`
pub record PidInfo : Type 0 where
  pub pid : ℕ
  pub ppid : ℕ
  pub exited : Bool
  pub exitstatus : ℕ
  pub joinable : Bool

-- The slots of `pidinfo[]`; those from `procs_max` on are never used.
abbrev pub Slots : Type 0
Slots = ℕ → Option PidInfo

-- `pidinfo[i] = v`
abbrev pub update : Slots → ℕ → Option PidInfo → Slots
update f i v j = if i == j then v else f j

pub record PidTable : Type 0 where
  pub info : Slots
  pub nextpid : ℕ
  pub nprocs : ℕ

-- `pid % PROCS_MAX`
abbrev pub slot : ℕ → ℕ
slot pid = pid % procs_max

abbrev pub is_used : Option PidInfo → Bool
is_used none = false
is_used (some pi) = true

pub pidinfo_create : Bool → Bool → ℕ → ℕ → Run (Option PidInfo)
pidinfo_create mem cv pid ppid = do
  assert (not (pid == invalid_pid))
  ok (
      if mem && cv
      then some
          (record { pid = pid; ppid = ppid; exited = false; exitstatus = 0xbeef; joinable = true })
      else none)

pub pidinfo_destroy : PidInfo → Run (Unit {0})
pidinfo_destroy pi = do assert pi.exited; assert (pi.ppid == invalid_pid)

boot_entry : Option PidInfo → Run PidTable
boot_entry none = panic
boot_entry (some pi) =
    ok (record { info = update (λ _. none) bootup_pid (some pi); nextpid = pid_min; nprocs = 1 })

-- The first flag says whether `lock_create` succeeds.
pub pid_bootstrap : Bool → Bool → Bool → Run PidTable
unfolding boot_entry pidinfo_create
pid_bootstrap lock mem cv = do
  assert lock
  boot_entry (← pidinfo_create mem cv bootup_pid invalid_pid)

abbrev pub matching : ℕ → Option PidInfo → Option PidInfo
matching pid none = none
matching pid (some pi) = if pi.pid == pid then some pi else none

pub pi_get : ℕ → PidTable → Run (Option PidInfo)
pi_get pid t = do assert (not (pid == invalid_pid)); ok (matching pid (t.info (slot pid)))

pub pi_put : ℕ → PidInfo → PidTable → Run PidTable
pi_put pid pi t = do
  assert (not (pid == invalid_pid))
  assert (not (is_used (t.info (slot pid))))
  ok (record t { info = update t.info (slot pid) (some pi); nprocs = t.nprocs + 1 })

pub drop_entry : ℕ → PidTable → Option PidInfo → Run PidTable
drop_entry pid t none = panic
drop_entry pid t (some pi) = do
  assert (pi.pid == pid)
  pidinfo_destroy pi
  ok (record t { info = update t.info (slot pid) none; nprocs = t.nprocs - 1 })

pub pi_drop : ℕ → PidTable → Run PidTable
unfolding drop_entry pidinfo_destroy
pi_drop pid t = drop_entry pid t (t.info (slot pid))

pub inc_nextpid : ℕ → ℕ
inc_nextpid next = if ltb pid_max (next + 1) then pid_min else next + 1

-- The `while` of `pid_alloc`. The argument is what is left of the asserted bound on `count`.
pub find_free : ℕ → Slots → ℕ → Run ℕ
unfolding inc_nextpid
find_free zero info next = if is_used (info (slot next)) then panic else ok next
find_free (suc left) info next =
    let rest = find_free left info (inc_nextpid next) in
    if is_used (info (slot next)) then rest else ok next

abbrev pub max_loops : ℕ
max_loops = procs_max * 2 + 5

pub alloc_entry : PidTable → ℕ → Option PidInfo → Run (PidTable × Result ℕ)
alloc_entry t pid none = ok (record t { nextpid = pid }, failure enomem)
alloc_entry t pid (some pi) = do
  t' ← pi_put pid pi (record t { nextpid = pid })
  ok (record t' { nextpid = inc_nextpid t'.nextpid }, success pid)

-- `cur` is `curthread->t_pid`, here and below.
pub pid_alloc : Bool → Bool → ℕ → PidTable → Run (PidTable × Result ℕ)
unfolding alloc_entry pidinfo_create pi_put inc_nextpid
pid_alloc mem cv cur t = do
  assert (not (cur == invalid_pid))
  if t.nprocs == procs_max then ok (t, failure eagain) else (do
    pid ← find_free max_loops t.info t.nextpid
    pi ← pidinfo_create mem cv pid cur
    alloc_entry t pid pi)

pub in_range : ℕ → Bool
in_range who = leb pid_min who && leb who pid_max

pub unalloc_entry : ℕ → ℕ → PidTable → Option PidInfo → Run PidTable
unalloc_entry pid cur t none = panic
unalloc_entry pid cur t (some them) = do
  assert (not them.exited)
  assert (them.ppid == cur)
  let gone = record them { exitstatus = 0xdead; exited = true; ppid = invalid_pid }
  pi_drop pid (record t { info = update t.info (slot pid) (some gone) })

pub pid_unalloc : ℕ → ℕ → PidTable → Run PidTable
unfolding unalloc_entry pi_drop pi_get in_range
pid_unalloc cur theirpid t = do
  assert (in_range theirpid)
  unalloc_entry theirpid cur t (← pi_get theirpid t)

-- One round of the loop of `pid_setexited` that detaches the children.
pub orphan_slot : ℕ → ℕ → PidTable → Option PidInfo → Run PidTable
orphan_slot i done t none = ok t
orphan_slot i done t (some pi) =
    let left = record pi { ppid = invalid_pid; joinable = false } in
    let t' = record t { info = update t.info i (some left) } in
    if pi.ppid == done then (if pi.exited then pi_drop pi.pid t' else ok t') else ok t

-- `n` rounds of that loop, from slot `i` on.
pub orphan_children : ℕ → ℕ → ℕ → PidTable → Run PidTable
unfolding orphan_slot pi_drop
orphan_children zero i done t = ok t
orphan_children (suc n) i done t = do
  t' ← orphan_slot i done t (t.info i)
  orphan_children n (i + 1) done t'

-- What a call leaves: the table, and the pid whose condition variable it signals.
abbrev pub Signalled : Type 0
Signalled = PidTable × Option ℕ

pub mark_done : ℕ → ℕ → PidTable → Option PidInfo → Run Signalled
mark_done pid code t none = panic
mark_done pid code t (some pi) = do
  assert (not pi.exited)
  let finished = record pi { exitstatus = code; exited = true }
  let t' = record t { info = update t.info (slot pid) (some finished) }
  if pi.joinable then ok (t', some pid) else (do t'' ← pi_drop pid t'; ok (t'', none))

pub pid_setexited : ℕ → ℕ → PidTable → Run Signalled
unfolding pi_get in_range
pid_setexited donepid code t = do
  assert (in_range donepid)
  t' ← orphan_children procs_max 0 donepid t
  mark_done donepid code t' (← pi_get donepid t')

pub detach_entry : ℕ → ℕ → PidTable → Option PidInfo → Run (PidTable × Result (Unit {0}))
detach_entry who cur t none = ok (t, failure esrch)
detach_entry who cur t (some pi) =
    let left = record pi { joinable = false; ppid = invalid_pid } in
    let t' = record t { info = update t.info (slot who) (some left) } in
    if not (pi.ppid == cur)
    then ok (t, failure einval)
    else (if not pi.joinable
        then ok (t, failure einval)
        else (if pi.exited
            then (do t'' ← pi_drop who t'; ok (t'', success tt))
            else ok (t', success tt)))

pub pid_detach : ℕ → ℤ → PidTable → Run (PidTable × Result (Unit {0}))
unfolding detach_entry pi_get pi_drop in_range
pid_detach cur (negsuc _) t = ok (t, failure einval)
pid_detach cur (pos who) t =
    if in_range who then (do detach_entry who cur t (← pi_get who t)) else ok (t, failure einval)

-- How the first part of `pid_join` ends: it returns, or it sleeps on the child's variable.
pub data Join : Type 0 where
  returned : Result ℕ → Join
  waits : ℕ → Join

pub finish_entry : ℕ → PidTable → Option PidInfo → Run (PidTable × Result ℕ)
finish_entry who t none = panic
finish_entry who t (some pi) = do
  assert pi.exited
  let left = record pi { ppid = invalid_pid }
  t' ← pi_drop who (record t { info = update t.info (slot who) (some left) })
  ok (t', success pi.exitstatus)

-- What `pid_join` does after `cv_wait`: `pi_who` still points to the entry in its slot.
pub join_finish : ℕ → PidTable → Run (PidTable × Result ℕ)
unfolding finish_entry pi_drop
join_finish who t = finish_entry who t (t.info (slot who))

pub join_entry : ℕ → ℕ → PidTable → Option PidInfo → Run (PidTable × Join)
join_entry who cur t none = ok (t, returned (failure esrch))
join_entry who cur t (some pi) =
    if not (pi.ppid == cur)
    then ok (t, returned (failure einval))
    else (if not pi.joinable
        then ok (t, returned (failure einval))
        else (if pi.exited
            then (do (t', r) ← join_finish who t; ok (t', returned r))
            else ok (t, waits who)))

pub pid_join : ℕ → ℤ → PidTable → Run (PidTable × Join)
unfolding join_entry join_finish pi_get in_range
pid_join cur (negsuc _) t = ok (t, returned (failure einval))
pid_join cur (pos who) t =
    if in_range who
    then (do join_entry who cur t (← pi_get who t))
    else ok (t, returned (failure einval))
