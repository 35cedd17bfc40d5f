-- ===== src/Pid/Alloc.antt =====
-- `pid_alloc` of a3/src/kern/thread/pid.c.
use csc.Base.{
  ℕ, zero, suc, ◌+◌, ◌-◌, ◌%◌, ◌≤◌, ◌<◌, ◌≡◌, refl, ap, ◌∙◌, ◌≢◌, Bool, true, false, none, some,
  arith, ◌==◌, ltb, ◌&&◌, if◌then◌else◌, Bool-cases, Option-cases, inl, inr, ok, Returns,
  Returns-inv, Result, success, failure, eagain, enomem,
}
use csc.Pid.{
  PidInfo, Slots, PidTable, update, slot, procs_max, pid_min, pid_max, invalid_pid, max_loops,
  find_free, inc_nextpid, pid_alloc,
}
use csc.Pid.Valid.{EntryOk, IsValid, count_used, count-fill, count-le, EntriesOk-update, free_slot}

inc_nextpid-lt : (next : ℕ) → next < pid_max → inc_nextpid next ≡ next + 1
unfolding inc_nextpid
inc_nextpid-lt next h = ground arith

inc_nextpid-last : (next : ℕ) → (next == pid_max) ≡ true → inc_nextpid next ≡ pid_min
unfolding inc_nextpid
inc_nextpid-last next h = ground arith

inc_nextpid_bounds :
    (next : ℕ) → pid_min ≤ next → (pid_min ≤ inc_nextpid next) × (inc_nextpid next ≤ pid_max)
unfolding inc_nextpid
inc_nextpid_bounds next h = ground arith

used-ne-free :
    (info : Slots) {pi : PidInfo} (a b : ℕ) → info (slot a) ≡ some pi → info (slot b) ≡ none → a ≢ b
used-ne-free info a b used free same =
    let e : info (slot a) ≡ info (slot b) = ap (λ (k : ℕ). info (slot k)) same in cc

-- Going up from `next`, the search ends at `goal` at the latest.
find_free-ok :
    (left : ℕ) (info : Slots) (next goal : ℕ)
    → pid_min ≤ next
    → next ≤ goal
    → goal ≤ pid_max
    → info (slot goal) ≡ none
    → goal ≤ next + left
    → Returns
        (λ p. (pid_min ≤ p) × (p ≤ pid_max) × (info (slot p) ≡ none))
        (find_free left info next)
unfolding find_free
find_free-ok zero info next goal l h m free fuel =
    let same : goal ≡ next = omega arith in rw (← same, free) (omega arith, omega arith, free)
find_free-ok (suc left) info next goal l h m free fuel = elim (Option-cases (info (slot next))) [
  | inl e ↦ rw e (l, omega arith, e)
  | inr (pi, e) ↦
      let apart : next ≢ goal = used-ne-free info next goal e free in
      rw (e, inc_nextpid-lt next (omega arith))
        (find_free-ok left info (next + 1) goal (omega arith) (omega arith) m free (omega arith))
]

slot_again : (j : ℕ) → j < procs_max → slot (if ltb j pid_min then j + procs_max else j) ≡ j
slot_again j h = elim (Bool-cases (ltb j pid_min)) [
  | inl e ↦ rw e (omega arith)
  | inr e ↦ rw e (omega arith)
]

-- Past the largest pid the search goes on at the smallest, from where it meets every slot.
find_free-wraps :
    (left : ℕ) (info : Slots) (next j : ℕ)
    → pid_min ≤ next
    → next ≤ pid_max
    → j < procs_max
    → info j ≡ none
    → pid_max + 1 + procs_max ≤ next + left
    → Returns
        (λ p. (pid_min ≤ p) × (p ≤ pid_max) × (info (slot p) ≡ none))
        (find_free left info next)
unfolding find_free
find_free-wraps zero info next j l h jl free fuel = absurd (omega arith)
find_free-wraps (suc left) info next j l h jl free fuel = elim (Option-cases (info (slot next))) [
  | inl e ↦ rw e (l, h, e)
  | inr (pi, e) ↦ elim (Bool-cases (next == pid_max)) [
    | inl last ↦
        rw (e, inc_nextpid-last next last)
          (find_free-ok left info pid_min (if ltb j pid_min then j + procs_max else j) (omega arith)
            (ground arith) (ground arith) (rw (slot_again j jl) free) (ground arith))
    | inr before ↦
        rw (e, inc_nextpid-lt next (ground arith))
          (find_free-wraps left info (next + 1) j (omega arith) (ground arith) jl free
            (omega arith))
  ]
]

slot_reached :
    (next j : ℕ) → j < procs_max → slot (next + (j + procs_max - slot next) % procs_max) ≡ j
slot_reached next j h = omega arith

-- A pid in range whose slot is free.
abbrev pub Candidate : Slots → ℕ → Type 0
Candidate info p = (pid_min ≤ p) × (p ≤ pid_max) × (info (slot p) ≡ none)

find_free-Returns :
    (info : Slots) (next : ℕ)
    → pid_min ≤ next
    → next ≤ pid_max
    → count_used procs_max info < procs_max
    → Returns (Candidate info) (find_free max_loops info next)
find_free-Returns info next l h room =
    let (j, jl, free) = free_slot procs_max info room in
    elim (Bool-cases (ltb next 32635)) [
      | inl e ↦
          find_free-ok max_loops info next (next + (j + procs_max - slot next) % procs_max) l
            (omega arith) (ground arith) (rw (slot_reached next j jl) free) (omega arith)
      | inr e ↦ find_free-wraps max_loops info next j l h jl free (ground arith)
    ]

-- With a free slot the search of `pid_alloc` ends within the bound that it asserts, at a pid in
-- range whose slot is free.
pub find_free_total :
    (info : Slots) (next : ℕ)
    → pid_min ≤ next
    → next ≤ pid_max
    → count_used procs_max info < procs_max
    → (p : ℕ) × (find_free max_loops info next ≡ ok p) × Candidate info p
find_free_total info next l h room =
    Returns-inv (Candidate info) (find_free max_loops info next)
      (find_free-Returns info next l h room)

abbrev pub fresh : ℕ → ℕ → PidInfo
fresh pid cur = record {
  pid = pid;
  ppid = cur;
  exited = false;
  exitstatus = 0xbeef;
  joinable = true;
}

-- The table after `pid` was given out to a child of `cur`.
pub record Allocated (t : PidTable) (cur pid : ℕ) (t' : PidTable) : Type 0 where
  pub low : pid_min ≤ pid
  pub high : pid ≤ pid_max
  pub was_free : t.info (slot pid) ≡ none
  pub entry : t'.info ≡ update t.info (slot pid) (some (fresh pid cur))
  pub counted : t'.nprocs ≡ t.nprocs + 1

-- What each result of `pid_alloc` says of the table before and after.
abbrev pub AllocResult : Bool → PidTable → ℕ → PidTable × Result ℕ → Type 0
AllocResult memory t cur (t', success pid) = Allocated t cur pid t' × (memory ≡ true)
AllocResult memory t cur (t', failure eagain) = (t' ≡ t) × (t.nprocs ≡ procs_max)
AllocResult memory t cur (t', failure enomem) =
    (memory ≡ false) × (t'.info ≡ t.info) × (t'.nprocs ≡ t.nprocs)
AllocResult memory t cur (t', failure _) = ⊥

module _ (cur p : ℕ) (t : PidTable) (v : IsValid t) (c : cur ≢ invalid_pid) (caller : PidInfo)
    (alive : t.info (slot cur) ≡ some caller) where
  fresh-ok : Candidate t.info p → EntryOk (slot p) (fresh p cur)
  fresh-ok spot = record {
    placed = refl;
    valid = ground arith;
    small = spot.1;
    foreign = used-ne-free t.info cur p alive spot.2;
    owned = λ e. cc;
    detached = λ e. cc;
    orphan = λ e. absurd (c e);
  }

  pid_alloc-found :
      (mem cv : Bool)
      → t.nprocs ≢ procs_max
      → find_free max_loops t.info t.nextpid ≡ ok p
      → Candidate t.info p
      → Returns (λ r. IsValid r.0 × AllocResult (mem && cv) t cur r) (pid_alloc mem cv cur t)
  unfolding pid_alloc
  pid_alloc-found mem cv room found spot =
      let known : (cur == invalid_pid) ≡ false = ground arith in
      let more : (t.nprocs == procs_max) ≡ false = ground arith in
      let named : (p == invalid_pid) ≡ false = ground arith in
      rw (known, more, found, named)
        (elim (Bool-cases (mem && cv)) [
          | inl e ↦
              rw (e, pid_alloc, named, spot.2)
                (
                  record {
                    entries =
                        EntriesOk-update t.info (slot p) (some (fresh p cur)) v.entries
                          (fresh-ok spot);
                    next_low = (inc_nextpid_bounds p spot.0).0;
                    next_high = (inc_nextpid_bounds p spot.0).1;
                    counted =
                        ap (λ (k : ℕ). k + 1) v.counted
                        ∙ count-fill t.info (slot p) (omega arith) (fresh p cur) spot.2;
                  },
                  (
                    record {
                      low = spot.0;
                      high = spot.1;
                      was_free = spot.2;
                      entry = refl;
                      counted = refl;
                    },
                    refl,
                  ),
                )
          | inr e ↦
              rw (e, pid_alloc)
                (
                  record {
                    entries = v.entries;
                    next_low = spot.0;
                    next_high = spot.1;
                    counted = v.counted;
                  },
                  (refl, refl, refl),
                )
        ])

-- Called by a thread that is in a valid table, `pid_alloc` returns, its table is valid, and its
-- result is as `AllocResult` says: a pid in range whose slot was free, for a new entry that is a
-- child of the caller; or EAGAIN with the table untouched, only if the table is full; or ENOMEM
-- with the entries untouched, only if memory ran out.
pub pid_alloc_lem :
    (mem cv : Bool) (cur : ℕ) (t : PidTable)
    → IsValid t
    → cur ≢ invalid_pid
    → (caller : PidInfo) → t.info (slot cur) ≡ some caller
    → Returns (λ r. IsValid r.0 × AllocResult (mem && cv) t cur r) (pid_alloc mem cv cur t)
unfolding pid_alloc
pid_alloc_lem mem cv cur t v c caller alive = elim (Bool-cases (t.nprocs == procs_max)) [
  | inl full ↦
      let known : (cur == invalid_pid) ≡ false = ground arith in
      rw (known, full) (v, (refl, ground arith))
  | inr room ↦
      let below : count_used procs_max t.info < procs_max =
        ground (arith, v.counted, count-le procs_max t.info) in
      let found = find_free_total t.info t.nextpid v.next_low v.next_high below in
      pid_alloc-found cur found.0 t v c caller alive mem cv (ground arith) found.1 found.2
]
