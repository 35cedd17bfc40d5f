-- ===== src/File/Closing.antt =====
-- `file_close` and `filetable_destroy` of a3/src/kern/userprog/file.c on tables without sharing.
use csc.Base.{
  ℕ, zero, suc, ◌+◌, ◌≤◌, ◌<◌, ◌≡◌, refl, sym, ap, fun_ext, ◌∙◌, Option, none, some, ◌∷◌, ltb,
  ltb→lt, ◌==◌, ==→eq, eq→==, set_at, arith, Bool-cases, Option-cases, inl, inr, ◌⊎◌, pos, ok,
  Result, success, failure, ebadf, Returns, Returns-inv,
}
use csc.File.{
  Openfile, Files, fopen_max, filetable_findfile, release, close_found, file_close, close_if_open,
  destroy_from, filetable_destroy,
}
use csc.File.Exclusive.{IsOwned, IsExclusive, none_ne, load-ok}

-- What closing the only descriptor of an object leaves.
abbrev pub closed_at : ℕ → ℕ → Openfile → Files → Files
closed_at fd p of f = record {
  table = set_at f.table fd none;
  heap = set_at f.heap p none;
  closed = of.vnode ∷ f.closed;
}

release-owned :
    (fd p : ℕ) (of : Openfile) (f : Files) → IsOwned of → release fd p of f ≡ closed_at fd p of f
unfolding release
release-owned fd p of f own = rw own.one refl

closed_at-IsExclusive :
    (fd p : ℕ) (of : Openfile) (f : Files)
    → IsExclusive f
    → fd < fopen_max
    → f.table fd ≡ some p
    → IsExclusive (closed_at fd p of f)
closed_at-IsExclusive fd p of f v low at = record {
  live = λ k q lt e. elim (Bool-cases (fd == k)) [
    | inl same ↦ let gone : none ≡ some q = rw same at e in absurd (none_ne q gone)
    | inr other ↦
        let old : f.table k ≡ some q = rw other at e in
        elim (Bool-cases (p == q)) [
          | inl hit ↦
              let shared : f.table k ≡ some p = rw (==→eq p q hit) old in
              absurd (ground (arith, eq→== fd k (v.single fd k p low lt at shared)))
          | inr miss ↦ rw miss (v.live k q lt old)
        ]
  ];
  single = λ i j q hi hj a b. elim (Bool-cases (fd == i)) [
    | inl x ↦ let gone : none ≡ some q = rw x at a in absurd (none_ne q gone)
    | inr x ↦ elim (Bool-cases (fd == j)) [
      | inl y ↦ let gone : none ≡ some q = rw y at b in absurd (none_ne q gone)
      | inr y ↦
          let old : f.table i ≡ some q = rw x at a in
          let old' : f.table j ≡ some q = rw y at b in v.single i j q hi hj old old'
    ]
  ];
}

-- What `file_close` promises.
abbrev pub CloseResult : ℕ → Files → Files × Result (Unit {0}) → Type 0
CloseResult fd f (f', success _) =
    (p : ℕ) × (of : Openfile) × (fd < fopen_max)
    × (f.table fd ≡ some p)
    × (f.heap p ≡ some of)
    × (f' ≡ closed_at fd p of f)
    × IsExclusive f'
CloseResult fd f (f', failure e) = (e ≡ ebadf) × (f' ≡ f) × ((fopen_max ≤ fd) ⊎ (f.table fd ≡ none))

-- Where no two descriptors share a file, `file_close` returns: an open descriptor is free afterwards,
-- its object is given back, its vnode is closed, and nothing else has changed; otherwise it is EBADF,
-- and nothing has changed.
pub file_close_lem :
    (fd : ℕ) (f : Files) → IsExclusive f → Returns (CloseResult fd f) (file_close (pos fd) f)
unfolding file_close close_found filetable_findfile
file_close_lem fd f v = elim (Bool-cases (ltb fd fopen_max)) [
  | inr out ↦ rw out (refl, refl, inl (ground arith))
  | inl e ↦
      let low = ltb→lt fd fopen_max e in
      elim (Option-cases (f.table fd)) [
        | inl free ↦ rw (e, free) (refl, refl, inr free)
        | inr (p, at) ↦
            let (of, live, own) = v.live fd p low at in
            rw (e, at, load-ok p f live, release-owned fd p of f own)
              (p, of, low, at, live, refl, closed_at-IsExclusive fd p of f v low at)
      ]
]

-- One round of the loop: the descriptor is closed if it was open.
close_if_open_lem :
    (fd : ℕ) (f : Files)
    → IsExclusive f
    → fd < fopen_max
    → (f' : Files) × (close_if_open fd (f.table fd) f ≡ ok f')
      × IsExclusive f'
      × (f'.table ≡ set_at f.table fd none)
unfolding close_if_open
close_if_open_lem fd f v low = elim (Option-cases (f.table fd)) [
  | inl free ↦ (f, rw free refl, v, fun_ext (λ k. same k free))
  | inr (p, at) ↦
      let done = Returns-inv (CloseResult fd f) (file_close (pos fd) f) (file_close_lem fd f v) in
      finish p at done.0.0 done.0.1 done.1 done.2
]
  where
    same : (k : ℕ) → f.table fd ≡ none → f.table k ≡ set_at f.table fd none k
    same k free = elim (Bool-cases (fd == k)) [
      | inl e ↦ rw (e, ← ==→eq fd k e) free
      | inr e ↦ rw e refl
    ]

    finish :
        (p : ℕ)
        → f.table fd ≡ some p
        → (f' : Files) (r : Result (Unit {0})) → file_close (pos fd) f ≡ ok (f', r)
        → CloseResult fd f (f', r)
        → (g : Files) × (close_if_open fd (f.table fd) f ≡ ok g)
          × IsExclusive g
          × (g.table ≡ set_at f.table fd none)
    finish p at f' (success u) run (q, of, low', at', live, leaves, own) =
        (f', rw (at, run) refl, own, ap Files.table leaves)
    finish p at f' (failure e) run (code, leaves, inl out) = absurd (omega arith)
    finish p at f' (failure e) run (code, leaves, inr free) = absurd (none_ne p (sym free ∙ at))

-- What the loop leaves: every descriptor from `fd` on is free.
destroy_from_lem :
    (n fd : ℕ) (f : Files)
    → IsExclusive f
    → fd + n ≤ fopen_max
    → ((k : ℕ) → k < fd → f.table k ≡ none)
    → (f' : Files) × (destroy_from n fd f ≡ ok f')
      × IsExclusive f'
      × ((k : ℕ) → k < fd + n → f'.table k ≡ none)
unfolding destroy_from
destroy_from_lem zero fd f v fits before = (f, refl, v, λ k lt. before k (omega arith))
destroy_from_lem (suc n) fd f v fits before =
    let (f', run, v', table) = close_if_open_lem fd f v (omega arith) in
    let (g, rest, w, all) =
      destroy_from_lem n (fd + 1) f' v' (omega arith)
        (λ k lt. ap (λ (t : ℕ → Option ℕ). t k) table ∙ cleared k lt) in
    (g, rw run rest, w, λ k lt. all k (omega arith))
  where
    cleared : (k : ℕ) → k < fd + 1 → set_at f.table fd none k ≡ none
    cleared k lt = elim (Bool-cases (fd == k)) [
      | inl e ↦ rw e refl
      | inr e ↦ rw e (before k (ground arith))
    ]

-- `filetable_destroy` of a table without sharing returns, and every descriptor is free.
pub filetable_destroy_lem :
    (f : Files)
    → IsExclusive f
    → (f' : Files) × (filetable_destroy f ≡ ok f')
      × IsExclusive f'
      × ((fd : ℕ) → fd < fopen_max → f'.table fd ≡ none)
unfolding filetable_destroy
filetable_destroy_lem f v =
    destroy_from_lem fopen_max 0 f v (omega arith) (λ k lt. absurd (omega arith))
