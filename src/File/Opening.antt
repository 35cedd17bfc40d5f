-- ===== src/File/Opening.antt =====
-- `file_open` and `file_close` of a3/src/kern/userprog/file.c on tables without sharing.
use csc.Base.{
  ℕ, ◌<◌, ◌≡◌, refl, sym, ap, ◌∙◌, ◌≢◌, true, Option, none, some, ◌==◌, ==→eq, eq→==, set_at,
  some-eq, arith, Bool-cases, inl, inr, ◌⊎◌, ok, Result, success, failure, enomem, emfile, Returns,
}
use csc.File.{Openfile, Files, fopen_max, filetable_getfd, open_at, file_open}
use csc.File.Exclusive.{IsExclusive, filetable_getfd_lem, none_ne}

abbrev fresh_file : ℕ → ℕ → Openfile
fresh_file vnode flags = record { vnode = vnode; offset = 0; accmode = flags; refcount = 1 }

-- The table after descriptor `fd` is given to a new object at `p`.
abbrev pub opened : ℕ → ℕ → ℕ → ℕ → Files → Files
opened fd p vnode flags f = record f {
  table = set_at f.table fd (some p);
  heap = set_at f.heap p (some (fresh_file vnode flags));
}

pub opened-IsExclusive :
    (fd p vnode flags : ℕ) (f : Files)
    → IsExclusive f
    → f.heap p ≡ none
    → IsExclusive (opened fd p vnode flags f)
opened-IsExclusive fd p vnode flags f v unused = record {
  live = λ k q lt e. elim (Bool-cases (p == q)) [
    | inl same ↦
        rw same (fresh_file vnode flags, refl, record { one = refl; seekable = omega arith })
    | inr other ↦ elim (Bool-cases (fd == k)) [
      | inl here ↦
          let now : some p ≡ some q = rw here at e in
          absurd (ground (arith, eq→== p q (some-eq now)))
      | inr there ↦ let old : f.table k ≡ some q = rw there at e in rw other (v.live k q lt old)
    ]
  ];
  single = λ i j q hi hj a b. elim (Bool-cases (fd == i)) [
    | inl x ↦ elim (Bool-cases (fd == j)) [
      | inl y ↦ omega (arith, ==→eq fd i x, ==→eq fd j y)
      | inr y ↦
          let now : some p ≡ some q = rw x at a in
          let old : f.table j ≡ some q = rw y at b in
          let (of, at, own) = v.live j q hj old in
          absurd (none_ne of (sym unused ∙ ap f.heap (some-eq now) ∙ at))
    ]
    | inr x ↦
        let old : f.table i ≡ some q = rw x at a in
        elim (Bool-cases (fd == j)) [
          | inl y ↦
              let now : some p ≡ some q = rw y at b in
              let (of, at, own) = v.live i q hi old in
              absurd (none_ne of (sym unused ∙ ap f.heap (some-eq now) ∙ at))
          | inr y ↦ let old' : f.table j ≡ some q = rw y at b in v.single i j q hi hj old old'
        ]
  ];
}

-- Descriptor `fd` was the first free one.
pub record FirstFree (f : Files) (fd : ℕ) : Type 0 where
  pub inside : fd < fopen_max
  pub was_free : f.table fd ≡ none
  pub used : (k : ℕ) → k < fd → f.table k ≢ none

-- What `file_open` promises, for what `kmalloc` and `vfs_open` answer.
abbrev pub OpenResult : Option ℕ → Result ℕ → ℕ → Files → Files × Result ℕ → Type 0
OpenResult (some p) (success vnode) flags f (f', success fd) =
    FirstFree f fd × (f' ≡ opened fd p vnode flags f)
OpenResult none vfs flags f (f', success fd) = ⊥
OpenResult (some p) (failure e) flags f (f', success fd) = ⊥
OpenResult none vfs flags f (f', failure e) = (f' ≡ f) × ((e ≡ enomem) ⊎ (e ≡ emfile))
OpenResult (some p) (failure e') flags f (f', failure e) = (f' ≡ f) × ((e ≡ e') ⊎ (e ≡ emfile))
OpenResult (some p) (success vnode) flags f (f', failure e) =
    (f' ≡ f) × (e ≡ emfile) × ((fd : ℕ) → fd < fopen_max → f.table fd ≢ none)

-- `file_open` returns if `kfree` of the pointer that was not set does no harm; its result is the first
-- free descriptor, for a new object with offset 0 and one reference; or an error, with nothing
-- changed: EMFILE, and only ENOMEM without memory or the error of `vfs_open` instead.
pub file_open_lem :
    (mem : Option ℕ) (vfs : Result ℕ) (flags : ℕ) (f : Files)
    → Returns (OpenResult mem vfs flags f) (file_open mem vfs true flags f)
unfolding file_open open_at
file_open_lem mem vfs flags f =
    let (least, bound, free) = filetable_getfd_lem f in
    elim (Bool-cases (filetable_getfd f == fopen_max)) [
      | inl e ↦
          let top = ==→eq (filetable_getfd f) fopen_max e in
          rw e (full mem vfs (λ fd lt. least.used fd (omega arith) (omega (arith, top))))
      | inr e ↦
          let low : filetable_getfd f < fopen_max = ground (arith, bound) in
          rw e (
            answer mem vfs (record {
              inside = low;
              was_free = free low;
              used = λ k lt. least.used k (omega arith) lt;
            }))
    ]
  where
    full :
        (m : Option ℕ) (v : Result ℕ)
        → ((fd : ℕ) → fd < fopen_max → f.table fd ≢ none)
        → OpenResult m v flags f (f, failure emfile)
    full none v used = (refl, inr refl)
    full (some p) (failure e) used = (refl, inr refl)
    full (some p) (success vnode) used = (refl, refl, used)

    answer :
        (m : Option ℕ) (v : Result ℕ)
        → FirstFree f (filetable_getfd f)
        → Returns (OpenResult m v flags f) (elim m [
          | none ↦ ok (f, failure enomem)
          | some p ↦ open_at (filetable_getfd f) p v true flags f
        ])
    answer none v first = (refl, inl refl)
    answer (some p) (failure e) first = (refl, inl refl)
    answer (some p) (success vnode) first = (first, refl)
