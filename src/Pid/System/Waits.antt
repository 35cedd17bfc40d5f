-- ===== src/Pid/System/Waits.antt =====
-- The invariant of the threads that call a3/src/kern/thread/pid.c, and what keeps it.
use csc.Base.{
  ℕ, ◌≡◌, refl, sym, ap, ◌∙◌, ◌≢◌, true, false, Option, some, arith, ◌==◌, ==→eq, ne→==, Bool-cases,
  Option-cases, inl, inr, ok, Returns, pos,
}
use csc.Pid.{PidInfo, PidTable, slot, Join, returned, waits, pid_join}
use csc.Pid.Valid.{IsValid}
use csc.Pid.Exit.{Exited}
use csc.Pid.Waiting.{IsChild, JoinResult}
use csc.Pid.System.{Wait, running, sleeping, woken, System, join, set_state, signal, call}
use csc.Pid.System.Frame.{join_keeps, exit_keeps}

-- A sleeping thread waits for a child that runs, and one that was woken for a child that has exited.
abbrev pub WaitOk : PidTable → ℕ → Wait → Type 0
WaitOk t p running = Unit
WaitOk t p (sleeping w) = (pi : PidInfo) × IsChild p w t pi × (pi.exited ≡ false)
WaitOk t p (woken w) = (pi : PidInfo) × IsChild p w t pi × (pi.exited ≡ true)

pub record IsSafe (s : System) : Type 0 where
  pub table : IsValid s.table
  pub waiting : (p : ℕ) → WaitOk s.table p (s.state p)

abbrev pub Keeps : ℕ → PidTable → PidTable → Type 0
Keeps p t t' = (q w : ℕ) (pi : PidInfo) → q ≢ p → IsChild q w t pi → IsChild q w t' pi

WaitOk-Keeps :
    (p q : ℕ) (t t' : PidTable) (w : Wait) → Keeps p t t' → q ≢ p → WaitOk t q w → WaitOk t' q w
WaitOk-Keeps p q t t' running k ne h = tt
WaitOk-Keeps p q t t' (sleeping w) k ne (pi, c, x) = (pi, k q w pi ne c, x)
WaitOk-Keeps p q t t' (woken w) k ne (pi, c, x) = (pi, k q w pi ne c, x)

-- The others still wait rightly when `p` changes its own state to `v`, and keeps their children.
pub IsSafe-set :
    (p : ℕ) (s : System) (t' : PidTable) (v : Wait)
    → IsSafe s
    → IsValid t'
    → Keeps p s.table t'
    → WaitOk t' p v
    → IsSafe (record { table = t'; state = set_state s.state p v })
IsSafe-set p s t' v h valid k own = record {
  table = valid;
  waiting = λ q. elim (Bool-cases (p == q)) [
    | inl e ↦ rw (e, ← ==→eq p q e) own
    | inr e ↦ rw e (WaitOk-Keeps p q s.table t' (s.state q) k (ground arith) (h.waiting q))
  ];
}

pub IsSafe-table :
    (p : ℕ) (s : System) (t' : PidTable)
    → IsSafe s
    → s.state p ≡ running
    → IsValid t'
    → Keeps p s.table t'
    → IsSafe (record s { table = t' })
IsSafe-table p s t' h r valid k = record {
  table = valid;
  waiting = λ q. elim (Bool-cases (q == p)) [
    | inl e ↦ rw (==→eq q p e, r) tt
    | inr e ↦ WaitOk-Keeps p q s.table t' (s.state q) k (ground arith) (h.waiting q)
  ];
}

pub join-IsSafe :
    (p who : ℕ) (s : System) (r : PidTable × Join)
    → IsSafe s
    → s.state p ≡ running
    → IsValid r.0 × JoinResult p who s.table r
    → pid_join p (pos who) s.table ≡ ok r
    → Returns IsSafe (call p (join (pos who)) s)
unfolding call
join-IsSafe p who s (t, returned x) h r (v, j) e =
    rw e
      (IsSafe-table p s t h r v (λ q w pi ne. join_keeps p q w who s.table pi (t, returned x) ne j))
join-IsSafe p who s (t, waits w) h r (v, j) e = rw e (
    IsSafe-set p s t (sleeping w) h v
      (λ q u pi ne. join_keeps p q u who s.table pi (t, waits w) ne j) (rw (j.0, j.1) j.2))

-- The thread `p` exits with `code`, and `q` waits in state `w`.
module _ (p code : ℕ) (t : PidTable) (own : PidInfo) (r : PidTable × Option ℕ)
    (x : Exited p code own t r) (at : t.info (slot p) ≡ some own) (named : own.pid ≡ p)
    (alive : own.exited ≡ false) where
  child-own : (q : ℕ) (pi : PidInfo) → IsChild q p t pi → pi ≡ own
  child-own q pi c = let found = c.found in cc

  -- The child that `q` waits for exits: `q` is signalled, and its child's entry holds the code.
  pub exit-wakes :
      (q : ℕ) (pi : PidInfo)
      → IsChild q p t pi
      → (r.1 ≡ some p) × IsChild q p r.0 (record own { exitstatus = code; exited = true })
  exit-wakes q pi c =
      let e = child-own q pi c in
      let j : own.joinable ≡ true = ap (λ (k : PidInfo). k.joinable) (sym e) ∙ c.joinable in
      let done = x.marked j in
      (
        done.0,
        record {
          found = done.1;
          named = named;
          parent = ap (λ (k : PidInfo). k.ppid) (sym e) ∙ c.parent;
          joinable = j;
        },
      )

  pub signal-other :
      (w : ℕ) → w ≢ p → (f : ℕ → Wait) (q : ℕ) → f q ≡ sleeping w → signal r.1 f q ≡ sleeping w
  signal-other w ne f q e = elim (Bool-cases own.joinable) [
    | inl j ↦ rw ((x.marked j).0, e, ne→== w p ne)
    | inr j ↦ rw ((x.dropped j).0, e)
  ]

  pub exit-WaitOk :
      (f : ℕ → Wait) (q : ℕ) (w : Wait)
      → f q ≡ w
      → (w ≢ running → q ≢ p)
      → WaitOk t q w
      → WaitOk r.0 q (signal r.1 f q)
  exit-WaitOk f q running e ne h = elim (Option-cases r.1) [
    | inl n ↦ rw (n, e) tt
    | inr (u, n) ↦ rw (n, e) tt
  ]
  exit-WaitOk f q (sleeping w) e ne (pi, c, a) = elim (Bool-cases (w == p)) [
    | inl same ↦
        let d = exit-wakes q pi (rw (==→eq w p same) at c) in
        rw (d.0, e, same)
          (record own { exitstatus = code; exited = true }, rw (==→eq w p same) d.1, refl)
    | inr other ↦
        rw (signal-other w (ground arith) f q e)
          (pi, exit_keeps p q w code t pi own r (ne λ z. cc) (ground arith) x at named c, a)
  ]
  exit-WaitOk f q (woken w) e ne (pi, c, a) = elim (Bool-cases (w == p)) [
    | inl same ↦
        let g = ap (λ (k : PidInfo). k.exited) (child-own q pi (rw (==→eq w p same) at c)) in
        absurd (ground arith)
    | inr other ↦
        let kept : WaitOk r.0 q (woken w) =
          (pi, exit_keeps p q w code t pi own r (ne λ z. cc) (ground arith) x at named c, a) in
        elim (Option-cases r.1) [ inl n ↦ rw (n, e) kept | inr (u, n) ↦ rw (n, e) kept ]
  ]
