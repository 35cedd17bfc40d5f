-- ===== src/Pid/System/Delivery.antt =====
-- A parent that waits gets the status that its child passed to `pid_setexited`, whatever the other
-- threads do before it runs again.
use csc.Base.{
  ℕ, ◌≤◌, ◌≡◌, refl, sym, ap, ◌∙◌, ◌≢◌, true, false, ◌&&◌, Option, none, some, arith, eq→==, ne→==,
  Bool-cases, inl, inr, ok, Returns, Returns-inv, pos, negsuc, success, List, [], ◌∷◌,
}
use csc.Pid.{
  PidInfo, PidTable, slot, pid_min, Join, returned, waits, pid_alloc, pid_detach, pid_join,
  join_finish,
}
use csc.Pid.Valid.{IsValid, entry-EntryOk}
use csc.Pid.Alloc.{AllocResult, pid_alloc_lem}
use csc.Pid.Exit.{pid_setexited_lem}
use csc.Pid.Waiting.{
  IsChild, JoinResult, DetachResult, dropped, join_finish_lem, pid_join_lem, pid_join-negative,
  pid_detach_lem, pid_detach-negative,
}
use csc.Pid.System.{
  Wait, running, sleeping, woken, System, Action, fork, exit, detach, join, resume, set_state,
  signal, is_live, call, act, step, run,
}
use csc.Pid.System.Frame.{alloc_keeps, detach_keeps, dropped_keeps, join_keeps, exit_keeps}
use csc.Pid.System.Waits.{IsSafe, exit-wakes}
use csc.Pid.System.Safety.{MayAct, AllMayAct, live-entry, resume_lem, step-IsSafe}

-- `q` was woken after its child `w` exited, and `pi` is the child's entry.
pub record IsDue (q w : ℕ) (pi : PidInfo) (s : System) : Type 0 where
  pub state : s.state q ≡ woken w
  pub child : IsChild q w s.table pi
  pub exited : pi.exited ≡ true

module _ (p q w : ℕ) (ne : q ≢ p) (pi : PidInfo) (s : System) (h : IsSafe s)
    (due : IsDue q w pi s) where
  IsDue-table : (t' : PidTable) → IsChild q w t' pi → IsDue q w pi (record s { table = t' })
  IsDue-table t' c = record { state = due.state; child = c; exited = due.exited }

  IsDue-set :
      (t' : PidTable) (v : Wait)
      → IsChild q w t' pi
      → IsDue q w pi (record { table = t'; state = set_state s.state p v })
  IsDue-set t' v c = record {
    state = rw (ne→== p q (λ e. ne (sym e))) due.state;
    child = c;
    exited = due.exited;
  }

  IsDue-join :
      (who : ℕ) (r : PidTable × Join)
      → JoinResult p who s.table r
      → pid_join p (pos who) s.table ≡ ok r
      → Returns (IsDue q w pi) (call p (join (pos who)) s)
  unfolding call
  IsDue-join who (t, returned x) j e =
      rw e (IsDue-table t (join_keeps p q w who s.table pi (t, returned x) ne j due.child))
  IsDue-join who (t, waits u) j e =
      rw e (IsDue-set t (sleeping u) (join_keeps p q w who s.table pi (t, waits u) ne j due.child))

  signal-woken : (o : Option ℕ) → signal o s.state q ≡ woken w
  signal-woken none = due.state
  signal-woken (some u) = rw due.state

  module _ (own : PidInfo) (at : s.table.info (slot p) ≡ some own) (named : own.pid ≡ p)
      (alive : own.exited ≡ false) where
    due-apart : w ≢ p
    due-apart e =
        let found = due.child.found in
        let at' = ap (λ (k : ℕ). s.table.info (slot k)) e in
        let one : pi ≡ own = cc in
        let x = due.exited in let y = ap (λ (k : PidInfo). k.exited) one in cc

    IsDue-exit : (code : ℕ) → pid_min ≤ p → Returns (IsDue q w pi) (call p (exit code) s)
    unfolding call
    IsDue-exit code low =
        let good = entry-EntryOk s.table h.table (slot p) (omega arith) own at in
        let done =
          pid_setexited_lem p code s.table own h.table low (omega (arith, good.small)) at named
            alive in
        rw done.1 (record {
          state = signal-woken done.0.1;
          child =
              exit_keeps p q w code s.table pi own done.0 ne due-apart done.2 at named due.child;
          exited = due.exited;
        })

    IsDue-call : (a : Action) → MayAct p a → Returns (IsDue q w pi) (call p a s)
    unfolding call
    IsDue-call (fork mem cv) m =
        let good = entry-EntryOk s.table h.table (slot p) (omega arith) own at in
        let done =
          Returns-inv (λ k. IsValid k.0 × AllocResult (mem && cv) s.table p k)
            (pid_alloc mem cv p s.table)
            (pid_alloc_lem mem cv p s.table h.table (λ e. good.valid (named ∙ e)) own at) in
        rw done.1 (
          IsDue-table done.0.0 (alloc_keeps (mem && cv) p q w s.table pi done.0 done.2.1 due.child))
    IsDue-call (exit code) m = IsDue-exit code m
    IsDue-call (detach (pos who)) m =
        let done =
          Returns-inv (λ k. IsValid k.0 × DetachResult p who s.table k)
            (pid_detach p (pos who) s.table) (pid_detach_lem p who s.table h.table) in
        rw done.1
          (IsDue-table done.0.0 (detach_keeps p q w who s.table pi done.0 ne done.2.1 due.child))
    IsDue-call (detach (negsuc n)) m = rw (pid_detach-negative p n s.table) due
    IsDue-call (join (pos who)) m =
        let done =
          Returns-inv (λ k. IsValid k.0 × JoinResult p who s.table k) (pid_join p (pos who) s.table)
            (pid_join_lem p who s.table h.table) in
        IsDue-join who done.0 done.2.1 done.1
    IsDue-call (join (negsuc n)) m = rw (pid_join-negative p n s.table) due
    IsDue-call resume m = due

    IsDue-act :
        (a : Action) (v : Wait) → s.state p ≡ v → MayAct p a → Returns (IsDue q w pi) (act p a s v)
    unfolding act
    IsDue-act a running r m = IsDue-call a m
    IsDue-act resume (woken u) r m =
        let (qi, c, x) = rw r at (h.waiting p) in
        rw (resume_lem p u s qi c x) (
          IsDue-set (dropped u s.table) running
            (dropped_keeps p q w u s.table pi qi ne c due.child))
    IsDue-act a v r m = due

-- What another thread does leaves a thread that was woken, and its child's entry.
step-IsDue :
    (p q w : ℕ) (pi : PidInfo) (a : Action) (s : System)
    → q ≢ p
    → IsSafe s
    → MayAct p a
    → IsDue q w pi s
    → Returns (IsDue q w pi) (step p a s)
unfolding step
step-IsDue p q w pi a s ne h m due = elim (Bool-cases (is_live p (s.table.info (slot p)))) [
  | inr e ↦ rw e due
  | inl e ↦
      let (own, at, named, alive) = live-entry p (s.table.info (slot p)) e in
      rw e (IsDue-act p q w ne pi s h due own at named alive a (s.state p) refl m)
]

-- The schedule in which `q` does nothing.
abbrev pub IsIdle : ℕ → List (ℕ × Action) → Type 0
IsIdle q [] = Unit
IsIdle q ((p, a) ∷ rest) = (q ≢ p) × IsIdle q rest

run-IsDue :
    (q w : ℕ) (pi : PidInfo) (l : List (ℕ × Action)) (s : System)
    → IsSafe s
    → AllMayAct l
    → IsIdle q l
    → IsDue q w pi s
    → Returns (IsDue q w pi) (run l s)
unfolding run
run-IsDue q w pi [] s h m idle due = due
run-IsDue q w pi ((p, a) ∷ rest) s h m idle due =
    let one = Returns-inv IsSafe (step p a s) (step-IsSafe p a s h m.0) in
    let due' = rw one.1 at (step-IsDue p q w pi a s idle.0 h m.0 due) in
    rw one.1 (run-IsDue q w pi rest one.0 one.2 m.1 idle.1 due')

-- The exit of a child on which `q` sleeps wakes `q`, and leaves the code in the child's entry.
exit-IsDue :
    (q w code : ℕ) (s : System)
    → IsSafe s
    → s.state q ≡ sleeping w
    → s.state w ≡ running
    → pid_min ≤ w
    → (pi : PidInfo) × (pi.exitstatus ≡ code) × Returns (IsDue q w pi) (step w (exit code) s)
unfolding step act call
exit-IsDue q w code s h asleep r low =
    let (pi, c, x) = rw asleep at (h.waiting q) in
    let good = entry-EntryOk s.table h.table (slot w) (omega arith) pi c.found in
    let done =
      pid_setexited_lem w code s.table pi h.table low (ground (arith, good.small, c.named)) c.found
        c.named x in
    let woke = exit-wakes w code s.table pi done.0 done.2 c.found c.named x q pi c in
    (
      record pi { exitstatus = code; exited = true },
      refl,
      rw (c.found, eq→== pi.pid w c.named, x, r, done.1, woke.0)
          (record { state = rw (asleep, eq→== w w refl); child = woke.1; exited = refl }),
    )

-- A thread `q` sleeps in `pid_join` on its child `w`, and `w` exits with `code`. After the exit and
-- any schedule in which `q` does not act and the first thread does not exit, no assertion has
-- failed, and the rest of `q`'s `pid_join` returns `code` and drops the entry of `w`.
pub join_delivers :
    (q w code : ℕ) (l : List (ℕ × Action)) (s : System)
    → IsSafe s
    → s.state q ≡ sleeping w
    → s.state w ≡ running
    → pid_min ≤ w
    → AllMayAct l
    → IsIdle q l
    → Returns
        (λ s'. join_finish w s'.table ≡ ok (dropped w s'.table, success code))
        (run ((w, exit code) ∷ l) s)
unfolding run
join_delivers q w code l s h asleep r low m idle =
    let (pi, same, due) = exit-IsDue q w code s h asleep r low in
    let one = Returns-inv IsSafe (step w (exit code) s) (step-IsSafe w (exit code) s h low) in
    let due' = rw one.1 at due in
    let last =
      Returns-inv (IsDue q w pi) (run l one.0) (run-IsDue q w pi l one.0 one.2 m idle due') in
    rw (one.1, last.1)
      (rw (join_finish_lem q w last.0.table pi last.2.child last.2.exited)
        (ap (λ (k : ℕ). ok (dropped w last.0.table, success k)) same))
