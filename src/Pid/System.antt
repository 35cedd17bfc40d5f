-- ===== src/Pid/System.antt =====
-- Threads that call a3/src/kern/thread/pid.c in any order. A thread in `pid_join` sleeps on its
-- child's condition variable until `pid_setexited` signals it, and resumes after `cv_wait`, when
-- it has `pi_lock` again, at any later time. Threads exit through `thread_exit`, so a thread marks
-- only itself. `pid_unalloc` serves `thread_fork` alone, before the child runs, and is no action.
pub mod Frame
pub mod Waits
pub mod Safety
pub mod Delivery
use csc.Base.{
  ℕ, Bool, false, not, ◌&&◌, Option, none, some, ◌==◌, if◌then◌else◌, Run, ok, ◌>>=◌, ℤ, List, [],
  ◌∷◌,
}
use csc.Pid.{
  PidInfo, PidTable, slot, Join, returned, waits, pid_alloc, pid_setexited, pid_detach, pid_join,
  join_finish,
}

pub data Wait : Type 0 where
  running : Wait
  sleeping : ℕ → Wait
  woken : ℕ → Wait

pub record System : Type 0 where
  pub table : PidTable
  pub state : ℕ → Wait

-- What a thread may do next.
pub data Action : Type 0 where
  fork : Bool → Bool → Action
  exit : ℕ → Action
  detach : ℤ → Action
  join : ℤ → Action
  resume : Action

abbrev pub set_state : (ℕ → Wait) → ℕ → Wait → ℕ → Wait
set_state f p v q = if p == q then v else f q

abbrev pub wake : ℕ → Wait → Wait
wake w running = running
wake w (sleeping v) = if v == w then woken v else sleeping v
wake w (woken v) = woken v

-- `cv_signal`: a child has one parent, so at most one thread sleeps on its variable.
abbrev pub signal : Option ℕ → (ℕ → Wait) → ℕ → Wait
signal none f = f
signal (some w) f = λ p. wake w (f p)

abbrev pub is_live : ℕ → Option PidInfo → Bool
is_live p none = false
is_live p (some pi) = (pi.pid == p) && not pi.exited

joined : ℕ → System → PidTable × Join → System
joined p s (t, returned r) = record s { table = t }
joined p s (t, waits w) = record { table = t; state = set_state s.state p (sleeping w) }

pub call : ℕ → Action → System → Run System
unfolding joined
call p (fork mem cv) s = do (t, r) ← pid_alloc mem cv p s.table; ok (record s { table = t })
call p (exit code) s = do
  (t, w) ← pid_setexited p code s.table
  ok (record { table = t; state = signal w s.state })
call p (detach who) s = do (t, r) ← pid_detach p who s.table; ok (record s { table = t })
call p (join who) s = do r ← pid_join p who s.table; ok (joined p s r)
call p resume s = ok s

pub act : ℕ → Action → System → Wait → Run System
act p a s running = call p a s
act p resume s (woken w) = do
  (t, r) ← join_finish w s.table
  ok (record { table = t; state = set_state s.state p running })
act p a s w = ok s

-- Only a thread that is in the table and has not exited acts.
pub step : ℕ → Action → System → Run System
step p a s = if is_live p (s.table.info (slot p)) then act p a s (s.state p) else ok s

-- A schedule: who acts, and what it does.
pub run : List (ℕ × Action) → System → Run System
run [] s = ok s
run ((p, a) ∷ rest) s = step p a s >>= run rest
