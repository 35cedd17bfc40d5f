-- ===== src/Pid/Waiting.antt =====
-- `pid_join` and `pid_detach` of a3/src/kern/thread/pid.c.
use csc.Base.{
  ℕ, ◌-◌, ◌≡◌, refl, ap, true, false, Option, none, some, arith, ◌==◌, ==→eq, ne→==, if◌then◌else◌,
  Bool-cases, Option-cases, inl, inr, ok, Returns, pos, negsuc, Result, success, failure, einval,
  esrch,
}
use csc.Pid.{
  PidInfo, PidTable, update, slot, invalid_pid, Join, returned, waits, in_range, matching, pid_join,
  join_entry, join_finish, pid_detach, detach_entry,
}
use csc.Pid.Valid.{
  IsValid, pi_drop_marked, in_range-valid, free-IsValid, keep-IsValid, EntryOk-detached,
  entry-EntryOk,
}

-- `pi` is the entry of `who`, a child that `me` may wait for.
pub record IsChild (me who : ℕ) (t : PidTable) (pi : PidInfo) : Type 0 where
  pub found : t.info (slot who) ≡ some pi
  pub named : pi.pid ≡ who
  pub parent : pi.ppid ≡ me
  pub joinable : pi.joinable ≡ true

-- The table without the entry of `who`.
abbrev pub dropped : ℕ → PidTable → PidTable
dropped who t = record t { info = update t.info (slot who) none; nprocs = t.nprocs - 1 }

-- What each result of `pid_join` and `pid_detach` says of the table before and after.
abbrev pub JoinResult : ℕ → ℕ → PidTable → PidTable × Join → Type 0
JoinResult me who t (t', waits w) =
    (t' ≡ t) × (w ≡ who) × ((pi : PidInfo) × IsChild me who t pi × (pi.exited ≡ false))
JoinResult me who t (t', returned (success status)) =
    (pi : PidInfo) × IsChild me who t pi
    × (pi.exited ≡ true)
    × (status ≡ pi.exitstatus)
    × (t' ≡ dropped who t)
JoinResult me who t (t', returned (failure esrch)) =
    (t' ≡ t) × (in_range who ≡ true) × (matching who (t.info (slot who)) ≡ none)
JoinResult me who t (t', returned (failure einval)) =
    (t' ≡ t) × ((in_range who ≡ true) → (pi : PidInfo) → ¬ IsChild me who t pi)
JoinResult me who t (t', returned (failure _)) = ⊥

-- A waiting parent that finds its child exited gets the status, and the entry is gone.
pub join_finish_lem :
    (me who : ℕ) (t : PidTable) (pi : PidInfo)
    → IsChild me who t pi
    → pi.exited ≡ true
    → join_finish who t ≡ ok (dropped who t, success pi.exitstatus)
unfolding join_finish
join_finish_lem me who t pi c x = rw (
  c.found,
  join_finish,
  x,
  pi_drop_marked who (record pi { exited = true; ppid = invalid_pid }) t c.named refl refl,
)

pub dropped-IsValid :
    (me who : ℕ) (t : PidTable) (pi : PidInfo)
    → IsValid t
    → IsChild me who t pi
    → IsValid (dropped who t)
dropped-IsValid me who t pi v c = free-IsValid t v (slot who) (omega arith) pi c.found

child-same :
    (me who : ℕ) (t : PidTable) (pi qi : PidInfo)
    → t.info (slot who) ≡ some pi
    → IsChild me who t qi
    → pi ≡ qi
child-same me who t pi qi at c = let found = c.found in cc

not-IsChild_by_parent :
    (me who : ℕ) (t : PidTable) (pi qi : PidInfo)
    → t.info (slot who) ≡ some pi
    → (pi.ppid == me) ≡ false
    → ¬ IsChild me who t qi
not-IsChild_by_parent me who t pi qi at e c =
    let q = child-same me who t pi qi at c in
    ground (arith, ap (λ (k : PidInfo). k.ppid) q, c.parent)

not-IsChild_by_detached :
    (me who : ℕ) (t : PidTable) (pi qi : PidInfo)
    → t.info (slot who) ≡ some pi
    → pi.joinable ≡ false
    → ¬ IsChild me who t qi
not-IsChild_by_detached me who t pi qi at j c =
    let q = ap (λ (k : PidInfo). k.joinable) (child-same me who t pi qi at c) in
    let c' = c.joinable in cc

-- The checks of `pid_join` on the entry that it finds.
join_entry_lem :
    (me who : ℕ) (t : PidTable) (pi : PidInfo)
    → IsValid t
    → t.info (slot who) ≡ some pi
    → pi.pid ≡ who
    → Returns (λ r. IsValid r.0 × JoinResult me who t r) (join_entry who me t (some pi))
unfolding join_entry
join_entry_lem me who t pi v at p = elim (Bool-cases (pi.ppid == me)) [
  | inr e ↦ rw e (v, (refl, λ h qi c. not-IsChild_by_parent me who t pi qi at e c))
  | inl e ↦ elim (Bool-cases pi.joinable) [
    | inr j ↦ rw (e, j) (v, (refl, λ h qi c. not-IsChild_by_detached me who t pi qi at j c))
    | inl j ↦
        let c : IsChild me who t pi = record {
          found = at;
          named = p;
          parent = ==→eq pi.ppid me e;
          joinable = j;
        } in
        elim (Bool-cases pi.exited) [
          | inl x ↦
              rw (e, j, x, join_finish_lem me who t pi c x)
                (dropped-IsValid me who t pi v c, (pi, c, x, refl, refl))
          | inr x ↦ rw (e, j, x) (v, (refl, refl, (pi, c, x)))
        ]
  ]
]

matching-some :
    (who : ℕ) (o : Option PidInfo) (pi : PidInfo)
    → matching who o ≡ some pi
    → (o ≡ some pi) × (pi.pid ≡ who)
matching-some who none pi h = absurd (cc)
matching-some who (some qi) pi h = elim (Bool-cases (qi.pid == who)) [
  | inl e ↦ let same : some qi ≡ some pi = rw e at h in (same, ground (arith, same, e))
  | inr e ↦ let none_left : none ≡ some pi = rw e at h in absurd (cc)
]

-- Called by a thread on a valid table, `pid_join` never fails an assertion before it waits, keeps
-- the table valid, and its result is as `JoinResult` says: the exit status of a child of the caller
-- that has exited, whose entry is then gone; or a wait for a child that has not; or ESRCH if the
-- pid has no entry; or EINVAL, only if the pid is out of range or not a child to wait for. But for
-- the first, the table is untouched.
pub pid_join_lem :
    (me who : ℕ) (t : PidTable)
    → IsValid t
    → Returns (λ r. IsValid r.0 × JoinResult me who t r) (pid_join me (pos who) t)
unfolding pid_join
pid_join_lem me who t v = elim (Bool-cases (in_range who)) [
  | inr out ↦ rw out (v, (refl, λ h pi c. absurd (cc)))
  | inl ok_range ↦
      let valid : (who == invalid_pid) ≡ false =
        ne→== who invalid_pid (in_range-valid who ok_range) in
      elim (Option-cases (matching who (t.info (slot who)))) [
        | inl e ↦ rw (ok_range, valid, e, join_entry) (v, (refl, ok_range, e))
        | inr (pi, e) ↦
            let found = matching-some who (t.info (slot who)) pi e in
            rw (ok_range, valid, e) (join_entry_lem me who t pi v found.0 found.1)
      ]
]

-- What each result of `pid_detach` says.
abbrev pub DetachResult : ℕ → ℕ → PidTable → PidTable × Result (Unit {0}) → Type 0
DetachResult me who t (t', success u) =
    (pi : PidInfo) × IsChild me who t pi
    × (t'.info
        ≡ update t.info (slot who)
            (if pi.exited then none else some (record pi { ppid = invalid_pid; joinable = false })))
DetachResult me who t (t', failure esrch) =
    (t' ≡ t) × (in_range who ≡ true) × (matching who (t.info (slot who)) ≡ none)
DetachResult me who t (t', failure einval) =
    (t' ≡ t) × ((in_range who ≡ true) → (pi : PidInfo) → ¬ IsChild me who t pi)
DetachResult me who t (t', failure _) = ⊥

detach_entry_lem :
    (me who : ℕ) (t : PidTable) (pi : PidInfo)
    → IsValid t
    → t.info (slot who) ≡ some pi
    → pi.pid ≡ who
    → Returns (λ r. IsValid r.0 × DetachResult me who t r) (detach_entry who me t (some pi))
unfolding detach_entry
detach_entry_lem me who t pi v at p = elim (Bool-cases (pi.ppid == me)) [
  | inr e ↦ rw e (v, (refl, λ h qi c. not-IsChild_by_parent me who t pi qi at e c))
  | inl e ↦ elim (Bool-cases pi.joinable) [
    | inr j ↦ rw (e, j) (v, (refl, λ h qi c. not-IsChild_by_detached me who t pi qi at j c))
    | inl j ↦
        let c : IsChild me who t pi = record {
          found = at;
          named = p;
          parent = ==→eq pi.ppid me e;
          joinable = j;
        } in
        let good = entry-EntryOk t v (slot who) (omega arith) pi at in
        elim (Bool-cases pi.exited) [
          | inl x ↦
              rw
                (
                  e,
                  j,
                  x,
                  pi_drop_marked who
                      (record pi { exited = true; ppid = invalid_pid; joinable = false }) t p refl
                      refl,
                )
                (dropped-IsValid me who t pi v c, (pi, c, rw x))
          | inr x ↦
              rw (e, j, x)
                (
                  keep-IsValid t v (slot who) (omega arith) pi at
                      (record pi { ppid = invalid_pid; exited = false; joinable = false })
                      (EntryOk-detached (slot who) pi good),
                  (pi, c, rw x),
                )
        ]
  ]
]

-- Called by a thread on a valid table, `pid_detach` never fails an assertion, keeps the table valid,
-- and its result is as `DetachResult` says: the entry of a child of the caller is detached, or gone
-- if the child has exited; or ESRCH if the pid has no entry; or EINVAL, only if the pid is out of
-- range or not a child to wait for. In the last two cases the table is untouched.
pub pid_detach_lem :
    (me who : ℕ) (t : PidTable)
    → IsValid t
    → Returns (λ r. IsValid r.0 × DetachResult me who t r) (pid_detach me (pos who) t)
unfolding pid_detach
pid_detach_lem me who t v = elim (Bool-cases (in_range who)) [
  | inr out ↦ rw out (v, (refl, λ h pi c. absurd (cc)))
  | inl ok_range ↦
      let valid : (who == invalid_pid) ≡ false =
        ne→== who invalid_pid (in_range-valid who ok_range) in
      elim (Option-cases (matching who (t.info (slot who)))) [
        | inl e ↦ rw (ok_range, valid, e, detach_entry) (v, (refl, ok_range, e))
        | inr (pi, e) ↦
            let found = matching-some who (t.info (slot who)) pi e in
            rw (ok_range, valid, e) (detach_entry_lem me who t pi v found.0 found.1)
      ]
]

pub pid_join-negative :
    (me n : ℕ) (t : PidTable) → pid_join me (negsuc n) t ≡ ok (t, returned (failure einval))
unfolding pid_join
pid_join-negative me n t = refl

pub pid_detach-negative :
    (me n : ℕ) (t : PidTable) → pid_detach me (negsuc n) t ≡ ok (t, failure einval)
unfolding pid_detach
pid_detach-negative me n t = refl
