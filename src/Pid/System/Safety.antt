-- ===== src/Pid/System/Safety.antt =====
-- Every schedule of calls of a3/src/kern/thread/pid.c keeps the invariant, and a join returns the
-- status that the child exited with.
use csc.Base.{
  ℕ, ◌≤◌, ◌≡◌, refl, ap, ◌∙◌, true, false, ◌&&◌, Option, none, some, arith, Bool-cases, inl, inr,
  ok, Returns, Returns-inv, pos, negsuc, List, [], ◌∷◌,
}
use csc.Pid.{PidInfo, slot, pid_min, pid_alloc, pid_detach, pid_join}
use csc.Pid.Valid.{IsValid, entry-EntryOk}
use csc.Pid.Alloc.{AllocResult, pid_alloc_lem}
use csc.Pid.Exit.{pid_setexited_lem}
use csc.Pid.Waiting.{
  IsChild, JoinResult, DetachResult, dropped, join_finish_lem, pid_join_lem, pid_join-negative,
  pid_detach_lem, pid_detach-negative, dropped-IsValid,
}
use csc.Pid.System.{
  Wait, running, woken, System, Action, fork, exit, detach, join, resume, set_state, is_live, call,
  act, step, run,
}
use csc.Pid.System.Frame.{alloc_keeps, detach_keeps, dropped_keeps}
use csc.Pid.System.Waits.{IsSafe, IsSafe-set, IsSafe-table, join-IsSafe, exit-WaitOk}

-- The first thread does not exit through `thread_exit`.
abbrev pub MayAct : ℕ → Action → Type 0
MayAct p (exit code) = pid_min ≤ p
MayAct p (fork mem cv) = Unit
MayAct p (detach who) = Unit
MayAct p (join who) = Unit
MayAct p resume = Unit

pub live-entry :
    (p : ℕ) (o : Option PidInfo)
    → is_live p o ≡ true
    → (own : PidInfo) × (o ≡ some own) × (own.pid ≡ p) × (own.exited ≡ false)
live-entry p none h = absurd (cc)
live-entry p (some own) h = (own, refl, ground arith, ground arith)

exit-IsSafe :
    (p code : ℕ) (s : System) (own : PidInfo)
    → IsSafe s
    → s.state p ≡ running
    → pid_min ≤ p
    → s.table.info (slot p) ≡ some own
    → own.pid ≡ p
    → own.exited ≡ false
    → Returns IsSafe (call p (exit code) s)
unfolding call
exit-IsSafe p code s own h r low at named alive =
    let good = entry-EntryOk s.table h.table (slot p) (omega arith) own at in
    let done =
      pid_setexited_lem p code s.table own h.table low (omega (arith, good.small)) at named alive in
    rw done.1 (record {
      table = done.2.valid;
      waiting = λ q.
          exit-WaitOk p code s.table own done.0 done.2 at named alive s.state q (s.state q) refl
            (λ ne e. ne (ap s.state e ∙ r)) (h.waiting q);
    })

call-IsSafe :
    (p : ℕ) (a : Action) (s : System) (own : PidInfo)
    → IsSafe s
    → s.state p ≡ running
    → MayAct p a
    → s.table.info (slot p) ≡ some own
    → own.pid ≡ p
    → own.exited ≡ false
    → Returns IsSafe (call p a s)
unfolding call
call-IsSafe p (fork mem cv) s own h r m at named alive =
    let good = entry-EntryOk s.table h.table (slot p) (omega arith) own at in
    let done =
      Returns-inv (λ k. IsValid k.0 × AllocResult (mem && cv) s.table p k)
        (pid_alloc mem cv p s.table)
        (pid_alloc_lem mem cv p s.table h.table (λ e. good.valid (named ∙ e)) own at) in
    rw done.1 (
      IsSafe-table p s done.0.0 h r done.2.0
        (λ q w pi ne. alloc_keeps (mem && cv) p q w s.table pi done.0 done.2.1))
call-IsSafe p (exit code) s own h r m at named alive = exit-IsSafe p code s own h r m at named alive
call-IsSafe p (detach (pos who)) s own h r m at named alive =
    let done =
      Returns-inv (λ k. IsValid k.0 × DetachResult p who s.table k) (pid_detach p (pos who) s.table)
        (pid_detach_lem p who s.table h.table) in
    rw done.1 (
      IsSafe-table p s done.0.0 h r done.2.0
        (λ q w pi ne. detach_keeps p q w who s.table pi done.0 ne done.2.1))
call-IsSafe p (detach (negsuc n)) s own h r m at named alive =
    rw (pid_detach-negative p n s.table) h
call-IsSafe p (join (pos who)) s own h r m at named alive =
    let done =
      Returns-inv (λ k. IsValid k.0 × JoinResult p who s.table k) (pid_join p (pos who) s.table)
        (pid_join_lem p who s.table h.table) in
    join-IsSafe p who s done.0 h r done.2 done.1
call-IsSafe p (join (negsuc n)) s own h r m at named alive = rw (pid_join-negative p n s.table) h
call-IsSafe p resume s own h r m at named alive = h

-- What a woken thread does next: it takes the status of its child, whose entry is then gone.
pub resume_lem :
    (p w : ℕ) (s : System) (pi : PidInfo)
    → IsChild p w s.table pi
    → pi.exited ≡ true
    → act p resume s (woken w)
      ≡ ok (record { table = dropped w s.table; state = set_state s.state p running })
unfolding act
resume_lem p w s pi c x = rw (join_finish_lem p w s.table pi c x)

act-IsSafe :
    (p : ℕ) (a : Action) (s : System) (own : PidInfo) (w : Wait)
    → IsSafe s
    → s.state p ≡ w
    → MayAct p a
    → s.table.info (slot p) ≡ some own
    → own.pid ≡ p
    → own.exited ≡ false
    → Returns IsSafe (act p a s w)
unfolding act
act-IsSafe p a s own running h r m at named alive = call-IsSafe p a s own h r m at named alive
act-IsSafe p resume s own (woken w) h r m at named alive =
    let (pi, c, x) = rw r at (h.waiting p) in
    rw (resume_lem p w s pi c x) (
      IsSafe-set p s (dropped w s.table) running h (dropped-IsValid p w s.table pi h.table c)
        (λ q u qi ne. dropped_keeps p q u w s.table qi pi ne c) tt)
act-IsSafe p a s own w h r m at named alive = h

-- No assertion of the table's functions fails, whatever a thread calls next: its step returns, and
-- the table stays valid, every sleeping thread waits for a running child of its own, and every
-- woken one for an exited child of its own. The first thread does not exit.
pub step-IsSafe :
    (p : ℕ) (a : Action) (s : System) → IsSafe s → MayAct p a → Returns IsSafe (step p a s)
unfolding step
step-IsSafe p a s h m = elim (Bool-cases (is_live p (s.table.info (slot p)))) [
  | inr e ↦ rw e h
  | inl e ↦
      let (own, at, named, alive) = live-entry p (s.table.info (slot p)) e in
      rw e (act-IsSafe p a s own (s.state p) h refl m at named alive)
]

abbrev pub AllMayAct : List (ℕ × Action) → Type 0
AllMayAct [] = Unit
AllMayAct ((p, a) ∷ rest) = MayAct p a × AllMayAct rest

-- From a safe state, any schedule in which the first thread does not exit returns, so no assertion of the table's functions fails, and ends in a safe state: the table is
-- valid, every sleeping thread waits for a running child of its own, and every woken one for an
-- exited child of its own.
pub run-IsSafe :
    (l : List (ℕ × Action)) (s : System) → IsSafe s → AllMayAct l → Returns IsSafe (run l s)
unfolding run
run-IsSafe [] s h m = h
run-IsSafe ((p, a) ∷ rest) s h m =
    let one = Returns-inv IsSafe (step p a s) (step-IsSafe p a s h m.0) in
    rw one.1 (run-IsSafe rest one.0 one.2 m.1)
