-- ===== src/Pid/Valid.antt =====
-- The invariant of the process table of a3/src/kern/thread/pid.c.
use csc.Base.{
  ℕ, zero, suc, ◌+◌, ◌-◌, ◌≤◌, ◌<◌, ◌≡◌, refl, sym, ap, ◌∙◌, ◌≢◌, fun_ext, true, false, Option,
  none, some, arith, ◌==◌, Bool-cases, eq→==, ne→==, Option-cases, inl, inr, ok,
}
use csc.Pid.{
  PidInfo, Slots, PidTable, update, slot, procs_max, pid_min, pid_max, invalid_pid, bootup_pid,
  pi_drop, pi_get, in_range,
}
use mathlib.Core.Path.{subst}

-- An entry stands in the slot of its pid, and is not its own parent; one that has exited still has a parent to wait for it;
-- one that is detached has no parent; and only the first thread is without a parent otherwise.
pub record EntryOk (j : ℕ) (pi : PidInfo) : Type 0 where
  pub placed : slot pi.pid ≡ j
  pub valid : pi.pid ≢ invalid_pid
  pub small : pi.pid ≤ pid_max
  pub foreign : pi.ppid ≢ pi.pid
  pub owned : pi.exited ≡ true → pi.ppid ≢ invalid_pid
  pub detached : pi.joinable ≡ false → pi.ppid ≡ invalid_pid
  pub orphan : pi.ppid ≡ invalid_pid → pi.pid ≢ bootup_pid → pi.joinable ≡ false

abbrev pub SlotOk : ℕ → Option PidInfo → Type 0
SlotOk j none = Unit
SlotOk j (some pi) = EntryOk j pi

abbrev pub EntriesOk : Slots → Type 0
EntriesOk f = (j : ℕ) → j < procs_max → SlotOk j (f j)

abbrev pub weight : Option PidInfo → ℕ
weight none = 0
weight (some pi) = 1

-- How many of the first `n` slots are in use.
unfoldable pub count_used : ℕ → Slots → ℕ
count_used zero f = 0
count_used (suc n) f = weight (f n) + count_used n f

pub record IsValid (t : PidTable) : Type 0 where
  pub entries : EntriesOk t.info
  pub next_low : pid_min ≤ t.nextpid
  pub next_high : t.nextpid ≤ pid_max
  pub counted : t.nprocs ≡ count_used procs_max t.info

pub EntriesOk-update :
    (f : Slots) (i : ℕ) (v : Option PidInfo) → EntriesOk f → SlotOk i v → EntriesOk (update f i v)
EntriesOk-update f i v h new j lt = elim (Bool-cases (i == j)) [
  | inl e ↦ let same : i ≡ j = ground arith in rw e (subst (λ k. SlotOk k v) same new)
  | inr e ↦ rw e (h j lt)
]

pub update-update :
    (f : Slots) (i : ℕ) (v w : Option PidInfo) → update (update f i v) i w ≡ update f i w
update-update f i v w = fun_ext λ j. ground arith

pub update_self : (f : Slots) (i : ℕ) (v : Option PidInfo) → update f i v i ≡ v
update_self f i v = ground arith

pub update_same : (f : Slots) (i : ℕ) (v : Option PidInfo) → f i ≡ v → f ≡ update f i v
update_same f i v h = fun_ext λ j. elim (Bool-cases (i == j)) [
  | inl e ↦ let same : i ≡ j = ground arith in rw (e, ← same) h
  | inr e ↦ rw e
]

count-update_above :
    (n : ℕ) (f : Slots) (i : ℕ) (v : Option PidInfo)
    → n ≤ i
    → count_used n (update f i v) ≡ count_used n f
unfolding count_used
count-update_above zero f i v h = refl
count-update_above (suc n) f i v h = ground (arith, count-update_above n f i v)

-- A write to a slot changes the count by that slot's own weight.
pub count-update :
    (n : ℕ) (f : Slots) (i : ℕ) (v : Option PidInfo)
    → i < n
    → count_used n (update f i v) + weight (f i) ≡ count_used n f + weight v
unfolding count_used
count-update zero f i v h = absurd (omega arith)
count-update (suc n) f i v h = elim (Bool-cases (i == n)) [
  | inl e ↦
      let same : i ≡ n = ground arith in rw (e, ← same) (ground (arith, count-update_above i f i v))
  | inr e ↦ ground (arith, count-update n f i v)
]

module _ (f : Slots) (i : ℕ) (lt : i < procs_max) where
  pub count-fill :
      (pi : PidInfo)
      → f i ≡ none
      → count_used procs_max f + 1 ≡ count_used procs_max (update f i (some pi))
  count-fill pi e =
      let h = count-update procs_max f i (some pi) lt in let h' = rw e at h in omega arith

  pub count-keep :
      (pi pi' : PidInfo)
      → f i ≡ some pi
      → count_used procs_max f ≡ count_used procs_max (update f i (some pi'))
  count-keep pi pi' e =
      let h = count-update procs_max f i (some pi') lt in let h' = rw e at h in omega arith

  pub count-free :
      (pi : PidInfo)
      → f i ≡ some pi
      → count_used procs_max f - 1 ≡ count_used procs_max (update f i none)
  count-free pi e = let h = count-update procs_max f i none lt in let h' = rw e at h in omega arith

-- With a count below the number of slots some slot is free.
pub free_slot : (n : ℕ) (f : Slots) → count_used n f < n → (j : ℕ) × (j < n) × (f j ≡ none)
unfolding count_used
free_slot zero f h = absurd (omega arith)
free_slot (suc n) f h = elim (Option-cases (f n)) [
  | inl e ↦ (n, omega arith, e)
  | inr (pi, e) ↦ let (j, lt, free) = free_slot n f (ground arith) in (j, omega arith, free)
]

pub count-le : (n : ℕ) (f : Slots) → count_used n f ≤ n
unfolding count_used
count-le zero f = omega arith
count-le (suc n) f = ground (arith, count-le n f)

-- `pi_drop` of an entry that has exited and has no parent frees its slot.
pub pi_drop_lem :
    (pid : ℕ) (pi : PidInfo) (t : PidTable)
    → t.info (slot pid) ≡ some pi
    → pi.pid ≡ pid
    → pi.exited ≡ true
    → pi.ppid ≡ invalid_pid
    → pi_drop pid t ≡ ok (record t { info = update t.info (slot pid) none; nprocs = t.nprocs - 1 })
unfolding pi_drop
pi_drop_lem pid pi t e p x o = rw (e, pi_drop) (ground arith)

-- The table stays valid when an entry is freed, and when it is replaced by one that is in order.
module _ (t : PidTable) (v : IsValid t) (i : ℕ) (lt : i < procs_max) (pi : PidInfo)
    (at : t.info i ≡ some pi) where
  pub free-IsValid : IsValid (record t { info = update t.info i none; nprocs = t.nprocs - 1 })
  free-IsValid = record {
    entries = EntriesOk-update t.info i none v.entries tt;
    next_low = v.next_low;
    next_high = v.next_high;
    counted = ap (λ (k : ℕ). k - 1) v.counted ∙ count-free t.info i lt pi at;
  }

  pub keep-IsValid :
      (pi' : PidInfo) → EntryOk i pi' → IsValid (record t { info = update t.info i (some pi') })
  keep-IsValid pi' good = record {
    entries = EntriesOk-update t.info i (some pi') v.entries good;
    next_low = v.next_low;
    next_high = v.next_high;
    counted = v.counted ∙ count-keep t.info i lt pi pi' at;
  }

  -- An entry of a valid table is in order.
  pub entry-EntryOk : EntryOk i pi
  entry-EntryOk = rw at at (v.entries i lt)

-- Marking an entry as exited and without a parent, and then dropping it, frees its slot.
pub pi_drop_marked :
    (pid : ℕ) (pi : PidInfo) (t : PidTable)
    → pi.pid ≡ pid
    → pi.exited ≡ true
    → pi.ppid ≡ invalid_pid
    → pi_drop pid (record t { info = update t.info (slot pid) (some pi) })
      ≡ ok (record t { info = update t.info (slot pid) none; nprocs = t.nprocs - 1 })
pi_drop_marked pid pi t p x o = rw (
  pi_drop_lem pid pi (record t { info = update t.info (slot pid) (some pi) })
      (update_self t.info (slot pid) (some pi)) p x o,
  update-update,
)

-- `pi_get` finds the entry of a pid in its slot.
pub pi_get-found :
    (pid : ℕ) (pi : PidInfo) (t : PidTable)
    → pid ≢ invalid_pid
    → t.info (slot pid) ≡ some pi
    → pi.pid ≡ pid
    → pi_get pid t ≡ ok (some pi)
unfolding pi_get
pi_get-found pid pi t v at p = rw (ne→== pid invalid_pid v, at, eq→== pi.pid pid p)

pub in_range-true : (who : ℕ) → pid_min ≤ who → who ≤ pid_max → in_range who ≡ true
unfolding in_range
in_range-true who low high = ground arith

pub in_range-valid : (who : ℕ) → in_range who ≡ true → who ≢ invalid_pid
unfolding in_range
in_range-valid who h = ground arith

-- A detached entry that is still running is in order.
pub EntryOk-detached :
    (i : ℕ) (pi : PidInfo)
    → EntryOk i pi
    → EntryOk i (record pi { ppid = invalid_pid; exited = false; joinable = false })
EntryOk-detached i pi good = record {
  placed = good.placed;
  valid = good.valid;
  small = good.small;
  foreign = λ e. good.valid (sym e);
  owned = λ e. cc;
  detached = λ e. refl;
  orphan = λ e f. refl;
}
