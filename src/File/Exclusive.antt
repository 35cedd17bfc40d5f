-- ===== src/File/Exclusive.antt =====
-- Tables in which no two descriptors share an open file, as they are without `dup2`.
use csc.Base.{
  ℕ, zero, suc, ◌+◌, ◌^◌, ◌≤◌, ◌<◌, ◌≡◌, refl, sym, ap, ◌∙◌, ◌≢◌, Option, none, some, ltb, lt→ltb,
  ltb→lt, ◌==◌, ==→eq, set_at, arith, Bool-cases, Option-cases, inl, inr, pos, ok, success,
}
use csc.File.{Openfile, Files, fopen_max, load, getfd_from, filetable_getfd, filetable_findfile}

pub none_ne {ℓ} : {A : Type ℓ} (x : A) → none ≢ some x
none_ne x e = absurd (cc)

-- Every open descriptor points to an object of its own, which counts one reference, at an offset that
-- is not negative.
pub record IsOwned (of : Openfile) : Type 0 where
  pub one : of.refcount ≡ 1
  pub seekable : of.offset < 2 ^ 31

pub record IsExclusive (f : Files) : Type 0 where
  pub live :
      (fd p : ℕ)
      → fd < fopen_max
      → f.table fd ≡ some p
      → (of : Openfile) × (f.heap p ≡ some of) × IsOwned of
  pub single :
      (i j p : ℕ) → i < fopen_max → j < fopen_max → f.table i ≡ some p → f.table j ≡ some p → i ≡ j

-- What the search for a descriptor finds: the first that is free, or none below the end.
pub record IsLeast (table : ℕ → Option ℕ) (from fd : ℕ) : Type 0 where
  pub after : from ≤ fd
  pub used : (k : ℕ) → from ≤ k → k < fd → table k ≢ none

pub getfd_from_lem :
    (n from : ℕ) (table : ℕ → Option ℕ)
    → IsLeast table from (getfd_from n from table)
      × (getfd_from n from table ≤ from + n)
      × (getfd_from n from table < from + n → table (getfd_from n from table) ≡ none)
unfolding getfd_from
getfd_from_lem zero from table = (
  record { after = omega arith; used = λ k a b. absurd (omega arith) },
  omega arith,
  λ lt. absurd (omega arith),
)
getfd_from_lem (suc n) from table = elim (Option-cases (table from)) [
  | inl e ↦
      rw (e, getfd_from)
        (record { after = omega arith; used = λ k a b. absurd (omega arith) }, omega arith, λ lt. e)
  | inr (p, e) ↦
      let (least, bound, free) = getfd_from_lem n (from + 1) table in
      rw (e, getfd_from)
        (
          record {
            after = omega (arith, least.after);
            used = λ k a b. elim (Bool-cases (from == k)) [
              | inl same ↦ λ z. none_ne p (sym z ∙ rw (← ==→eq from k same) e)
              | inr other ↦ least.used k (ground arith) b
            ];
          },
          omega arith,
          λ lt. free (omega arith),
        )
]

-- `filetable_getfd` finds the first free descriptor, and the end of the table if there is none.
pub filetable_getfd_lem :
    (f : Files)
    → IsLeast f.table 0 (filetable_getfd f)
      × (filetable_getfd f ≤ fopen_max)
      × (filetable_getfd f < fopen_max → f.table (filetable_getfd f) ≡ none)
unfolding filetable_getfd
filetable_getfd_lem f = getfd_from_lem fopen_max 0 f.table

pub load-ok : (p : ℕ) (f : Files) {of : Openfile} → f.heap p ≡ some of → load p f ≡ ok of
unfolding load
load-ok p f e = rw (e, load)

pub find_open :
    (fd p : ℕ) (f : Files)
    → fd < fopen_max
    → f.table fd ≡ some p
    → filetable_findfile (pos fd) f ≡ success p
unfolding filetable_findfile
find_open fd p f h e = rw (lt→ltb fd fopen_max h, e)

-- What is found is in range, and in the table.
pub found_open :
    (fd p : ℕ) (f : Files)
    → filetable_findfile (pos fd) f ≡ success p
    → (fd < fopen_max) × (f.table fd ≡ some p)
unfolding filetable_findfile
found_open fd p f e = elim (Bool-cases (ltb fd fopen_max)) [
  | inr out ↦ absurd (ground (arith, e))
  | inl low ↦ elim (Option-cases (f.table fd)) [
    | inl free ↦ absurd (ground (arith, e))
    | inr (q, at) ↦
        let found : success q ≡ success p = rw (low, at) at e in
        (ltb→lt fd fopen_max low, at ∙ ap some (ground arith))
  ]
]

-- An object of one descriptor changes, and stays owned.
pub change-IsExclusive :
    (f : Files) (fd p : ℕ) (of : Openfile)
    → IsExclusive f
    → fd < fopen_max
    → f.table fd ≡ some p
    → IsOwned of
    → IsExclusive (record f { heap = set_at f.heap p (some of) })
change-IsExclusive f fd p of v low at own = record {
  live = λ k q lt e. elim (Bool-cases (p == q)) [
    | inl same ↦ rw same (of, refl, own)
    | inr other ↦ rw other (v.live k q lt e)
  ];
  single = v.single;
}
