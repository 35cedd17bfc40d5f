-- ===== src/Synch/Counting.antt =====
-- Threads that call `P` and `V` of a semaphore of a3/src/kern/thread/synch.c, in any order.
use csc.Base.{
  ℕ, suc, ◌+◌, ◌≤◌, ◌<◌, ◌≡◌, refl, Bool, true, false, List, [], ◌∷◌, lt→ltb, ◌==◌, ==→eq, arith,
  if◌then◌else◌, Bool-cases, inl, inr, length, Run, ok, ◌>>=◌, Returns, Returns-inv,
}
use csc.Synch.{Semaphore, Outcome, done, asleep, int_limit, p_round, sem_p, sem_v}

pub data Call : Type 0 where
  wait post : Call

-- Who is in `P`, and how many calls of `P` and `V` have returned.
pub record System : Type 0 where
  pub sem : Semaphore
  pub in_p : ℕ → Bool
  pub passed : ℕ
  pub posted : ℕ

abbrev set_flag : (ℕ → Bool) → ℕ → Bool → ℕ → Bool
set_flag f t b u = if t == u then b else f u

abbrev sleeps : List ℕ → ℕ → Bool
sleeps [] t = false
sleeps (u ∷ l) t = if u == t then true else sleeps l t

abbrev tried : ℕ → System → Semaphore × Outcome → System
tried t s (sem, done) = record s {
  sem = sem;
  in_p = set_flag s.in_p t false;
  passed = s.passed + 1;
}
tried t s (sem, asleep) = record s { sem = sem; in_p = set_flag s.in_p t true }

abbrev fresh_call : ℕ → Call → System → Run System
fresh_call t wait s = do r ← sem_p false t s.sem; ok (tried t s r)
fresh_call t post s = do sem ← sem_v s.sem; ok (record s { sem = sem; posted = s.posted + 1 })

-- A thread that is in `P` goes on there if it is awake; another makes its call.
pub step : ℕ → Call → System → Run System
step t c s =
    if s.in_p t
    then (if sleeps s.sem.sleepers t then ok s else (do r ← p_round t s.sem; ok (tried t s r)))
    else fresh_call t c s

pub run : List (ℕ × Call) → System → Run System
run [] s = ok s
run ((t, c) ∷ rest) s = step t c s >>= run rest

-- Of a semaphore that started at `first`: what is left is what it started with and what was posted,
-- less what has passed; and while any is left, nobody sleeps.
pub record IsBalanced (first : ℕ) (s : System) : Type 0 where
  pub balance : s.sem.count + s.passed ≡ first + s.posted
  pub awake : 0 < s.sem.count → s.sem.sleepers ≡ []

-- What a step keeps: the balance, and a count that has grown by one at most.
abbrev Stepped : ℕ → System → System → Type 0
Stepped first s s' = IsBalanced first s' × (s'.sem.count ≤ suc s.sem.count)

tried_lem :
    (first t : ℕ) (s : System)
    → IsBalanced first s
    → Returns (Stepped first s) (p_round t s.sem >>= λ r. ok (tried t s r))
unfolding p_round
tried_lem first t s h = elim (Bool-cases (s.sem.count == 0)) [
  | inl e ↦
      let empty : s.sem.count ≡ 0 = ==→eq s.sem.count 0 e in
      rw e (record { balance = h.balance; awake = λ more. absurd (omega arith) }, omega arith)
  | inr e ↦
      let more : 0 < s.sem.count = ground arith in
      rw (e, lt→ltb 0 s.sem.count more)
        (record { balance = omega (arith, h.balance); awake = λ z. h.awake more }, omega arith)
]

step_lem :
    (first t : ℕ) (c : Call) (s : System)
    → IsBalanced first s
    → s.sem.count + 1 < int_limit
    → Returns (Stepped first s) (step t c s)
unfolding step sem_p sem_v
step_lem first t c s h room = elim (Bool-cases (s.in_p t)) [
  | inl e ↦ elim (Bool-cases (sleeps s.sem.sleepers t)) [
    | inl e' ↦ rw (e, e') (h, omega arith)
    | inr e' ↦ rw (e, e') (tried_lem first t s h)
  ]
  | inr e ↦ rw e (call c)
]
  where
    call : (k : Call) → Returns (Stepped first s) (fresh_call t k s)
    call wait = tried_lem first t s h
    call post =
        rw (lt→ltb (s.sem.count + 1) int_limit room)
          (record { balance = omega (arith, h.balance); awake = λ z. refl }, omega arith)

-- In any schedule of threads that call `P` and `V` of a semaphore, if its count and the number of
-- steps together stay below the range of an `int`, no assertion fails, and in the end the count is
-- what it was at first and what was posted, less what has passed `P`; and while it is not 0, no
-- thread sleeps on it.
pub semaphore_runs :
    (first : ℕ) (l : List (ℕ × Call)) (s : System)
    → IsBalanced first s
    → s.sem.count + length l < int_limit
    → Returns (IsBalanced first) (run l s)
unfolding run
semaphore_runs first [] s h room = h
semaphore_runs first ((t, c) ∷ rest) s h room =
    let one = Returns-inv (Stepped first s) (step t c s) (step_lem first t c s h (omega arith)) in
    rw one.1 (semaphore_runs first rest one.0 one.2.0 (omega (arith, one.2.1)))

-- A semaphore as `sem_create` leaves it, and no thread in `P`.
abbrev pub start : ℕ → System
start first = record {
  sem = record { count = first; sleepers = [] };
  in_p = λ t. false;
  passed = 0;
  posted = 0;
}

pub start-IsBalanced : (first : ℕ) → IsBalanced first (start first)
start-IsBalanced first = record { balance = omega arith; awake = λ more. refl }
