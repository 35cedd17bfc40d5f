-- ===== src/Synch/Exclusion.antt =====
-- Threads that take a lock of a3/src/kern/thread/synch.c and give it back, over and over.
use csc.Base.{
  ℕ, ◌≡◌, refl, sym, ap, ◌∙◌, ◌≢◌, Bool, true, false, Option, none, some, some-eq, List, [], ◌∷◌,
  ◌==◌, ==→eq, eq→==, ne→==, arith, if◌then◌else◌, Bool-cases, inl, inr, Run, ok, ◌>>=◌, Returns,
  Returns-inv,
}
use csc.Synch.{
  Lock, Outcome, done, asleep, holds, acquire_on, acquire_round, lock_acquire, lock_release,
  lock_do_i_hold,
}

-- Where a thread is: outside, in `lock_acquire`, or between it and `lock_release`.
pub data Place : Type 0 where
  outside waiting inside : Place

pub record System : Type 0 where
  pub lock : Lock
  pub place : ℕ → Place

abbrev set_place : (ℕ → Place) → ℕ → Place → ℕ → Place
set_place f p v q = if p == q then v else f q

abbrev sleeps : List ℕ → ℕ → Bool
sleeps [] p = false
sleeps (q ∷ l) p = if q == p then true else sleeps l p

abbrev arrived : Outcome → Place
arrived done = inside
arrived asleep = waiting

abbrev entered : ℕ → System → Lock × Outcome → System
entered p s (k, o) = record { lock = k; place = set_place s.place p (arrived o) }

abbrev turn : ℕ → System → Place → Run System
turn p s outside = do r ← lock_acquire false p s.lock; ok (entered p s r)
turn p s waiting =
    if sleeps s.lock.sleepers p then ok s else ok (entered p s (acquire_round p s.lock))
turn p s inside = do
  k ← lock_release p s.lock
  ok (record { lock = k; place = set_place s.place p outside })

-- Thread `p` does what it does next; a thread that is asleep does nothing.
unfoldable pub step : ℕ → System → Run System
step p s = turn p s (s.place p)

unfoldable pub run : List ℕ → System → Run System
run [] s = ok s
run (p ∷ rest) s = step p s >>= run rest

-- The threads inside are the owner, and nobody sleeps while there is none.
pub record IsSafe (s : System) : Type 0 where
  pub owned : (p : ℕ) → s.place p ≡ inside → s.lock.owner ≡ some p
  pub kept : (p : ℕ) → s.lock.owner ≡ some p → s.place p ≡ inside
  pub awake : s.lock.owner ≡ none → s.lock.sleepers ≡ []

outside_ne : outside ≢ inside
outside_ne e = absurd (cc)

waiting_ne : waiting ≢ inside
waiting_ne e = absurd (cc)

none_ne : (p : ℕ) → none ≢ some p
none_ne p e = absurd (cc)

set_place_ne : (f : ℕ → Place) (p q : ℕ) (v : Place) → p ≢ q → set_place f p v q ≡ f q
set_place_ne f p q v h = rw (ne→== p q h) refl

set_place_self : (f : ℕ → Place) (p : ℕ) (v : Place) → set_place f p v p ≡ v
set_place_self f p v = rw (eq→== p p refl) refl

entered-IsSafe :
    (p : ℕ) (s : System)
    → IsSafe s
    → s.place p ≢ inside
    → (o : Option ℕ) → s.lock.owner ≡ o
    → IsSafe (entered p s (acquire_on p s.lock o))
entered-IsSafe p s h away none free = record {
  owned = λ q e. elim (Bool-cases (p == q)) [
    | inl same ↦ ap some (==→eq p q same)
    | inr other ↦
        let old : s.place q ≡ inside = rw other at e in
        absurd (none_ne q (sym free ∙ h.owned q old))
  ];
  kept = λ q e. rw (← some-eq e) (set_place_self s.place p inside);
  awake = λ e. absurd (none_ne p (sym e));
}
entered-IsSafe p s h away (some w) taken = record {
  owned = λ q e. elim (Bool-cases (p == q)) [
    | inl same ↦ let z : waiting ≡ inside = rw same at e in absurd (waiting_ne z)
    | inr other ↦ let old : s.place q ≡ inside = rw other at e in h.owned q old
  ];
  kept = λ q e.
      let in_it = h.kept q e in
      set_place_ne s.place p q waiting (λ z. away (ap s.place z ∙ in_it)) ∙ in_it;
  awake = λ e. absurd (none_ne w (sym e ∙ taken));
}

not_holding : (p : ℕ) (o : Option ℕ) → (o ≢ some p) → holds o p ≡ false
not_holding p none h = refl
not_holding p (some q) h = ne→== q p (λ e. h (ap some e))

step-IsSafe : (p : ℕ) (s : System) → IsSafe s → Returns IsSafe (step p s)
unfolding step lock_acquire lock_release lock_do_i_hold acquire_round
step-IsSafe p s h = at (s.place p) refl
  where
    at : (w : Place) → s.place p ≡ w → Returns IsSafe (turn p s w)
    at outside e =
        let away : s.place p ≢ inside = λ z. outside_ne (sym e ∙ z) in
        rw (not_holding p s.lock.owner (λ z. away (h.kept p z)))
          (entered-IsSafe p s h away s.lock.owner refl)
    at waiting e = elim (Bool-cases (sleeps s.lock.sleepers p)) [
      | inl z ↦ rw z h
      | inr z ↦ rw z (entered-IsSafe p s h (λ y. waiting_ne (sym e ∙ y)) s.lock.owner refl)
    ]
    at inside e =
        let mine : s.lock.owner ≡ some p = h.owned p e in
        rw (mine, eq→== p p refl)
          (record {
            owned = λ q z. elim (Bool-cases (p == q)) [
              | inl same ↦ let y : outside ≡ inside = rw same at z in absurd (outside_ne y)
              | inr other ↦
                  let old : s.place q ≡ inside = rw other at z in
                  let same : p ≡ q = some-eq (sym mine ∙ h.owned q old) in
                  absurd (ground (arith, eq→== p q same))
            ];
            kept = λ q z. absurd (none_ne q z);
            awake = λ z. refl;
          })

-- In any schedule of threads that take and give back a lock, from a safe state, no assertion of the
-- lock's functions fails, and the state in the end is safe: every thread that is inside is the owner,
-- the owner is inside, and no thread sleeps while there is no owner.
pub lock_runs : (l : List ℕ) (s : System) → IsSafe s → Returns IsSafe (run l s)
unfolding run
lock_runs [] s h = h
lock_runs (p ∷ rest) s h =
    let one = Returns-inv IsSafe (step p s) (step-IsSafe p s h) in
    rw one.1 (lock_runs rest one.0 one.2)

abbrev pub start : System
start = record { lock = record { owner = none; sleepers = [] }; place = λ p. outside }

pub start-IsSafe : IsSafe start
start-IsSafe = record {
  owned = λ p e. absurd (outside_ne e);
  kept = λ p e. absurd (none_ne p e);
  awake = λ e. refl;
}

-- Mutual exclusion: after any schedule, from a free lock with all threads outside, two threads that
-- are inside are the same. Every such schedule runs to its end, by `lock_runs`.
pub lock_excludes :
    (l : List ℕ) (s : System) (p q : ℕ)
    → run l start ≡ ok s
    → s.place p ≡ inside
    → s.place q ≡ inside
    → p ≡ q
lock_excludes l s p q e hp hq =
    let safe : Returns IsSafe (ok s) = rw e at (lock_runs l start start-IsSafe) in
    some-eq (sym (safe.owned p hp) ∙ safe.owned q hq)
