-- ===== src/File/RoundTrip.antt =====
-- `file_open` followed by `file_close`, of a3/src/kern/userprog/file.c.
use csc.Base.{
  ℕ, ◌<◌, ◌≡◌, refl, sym, fun_ext, true, Option, none, some, ◌∷◌, ◌==◌, ==→eq, set_at, set_at_self,
  Bool-cases, inl, inr, ok, pos, Result, success, failure, Returns-inv,
}
use csc.File.{Files, fopen_max, file_open, release, close_found, file_close}
use csc.File.Exclusive.{load-ok, find_open}
use csc.File.Opening.{FirstFree, opened, OpenResult, file_open_lem}

-- What `file_close` does after an opening.
opened-close :
    (fd p vnode flags : ℕ) (f : Files)
    → FirstFree f fd
    → f.heap p ≡ none
    → (f' : Files) × (file_close (pos fd) (opened fd p vnode flags f) ≡ ok (f', success tt))
      × (f'.table ≡ f.table)
      × (f'.heap ≡ f.heap)
      × (f'.closed ≡ vnode ∷ f.closed)
unfolding file_close close_found release
opened-close fd p vnode flags f first unused =
    let g = opened fd p vnode flags f in
    (
      record {
        table = set_at g.table fd none;
        heap = set_at g.heap p none;
        closed = vnode ∷ f.closed;
      },
      rw (
        find_open fd p (opened fd p vnode flags f) first.inside (set_at_self f.table fd (some p)),
        load-ok p (opened fd p vnode flags f) (set_at_self f.heap p _),
      ),
      fun_ext (λ k. back f.table fd (some p) k first.was_free),
      fun_ext (λ k. back f.heap p _ k unused),
      refl,
    )
  where
    back :
        {A : Type 0} (h : ℕ → Option A) (i : ℕ) (x : Option A) (k : ℕ)
        → h i ≡ none
        → set_at (set_at h i x) i none k ≡ h k
    back h i x k e = elim (Bool-cases (i == k)) [
      | inl same ↦ rw same (sym (rw (← ==→eq i k same) e))
      | inr other ↦ rw other refl
    ]

-- With a free descriptor and memory at an unused place, `file_open` of what `vfs_open` answers returns
-- a descriptor, and `file_close` of it returns: the table and the objects are as before `file_open`,
-- and the vnode that was opened is closed.
pub open-close :
    (k p vnode flags : ℕ) (f : Files)
    → k < fopen_max
    → f.table k ≡ none
    → f.heap p ≡ none
    → (fd : ℕ) × (g : Files) × (f' : Files) × (file_open (some p) (success vnode) true flags f
        ≡ ok (g, success fd))
      × (file_close (pos fd) g ≡ ok (f', success tt))
      × (f'.table ≡ f.table)
      × (f'.heap ≡ f.heap)
      × (f'.closed ≡ vnode ∷ f.closed)
open-close k p vnode flags f low free unused =
    let (r, run, result) =
      Returns-inv (OpenResult (some p) (success vnode) flags f)
        (file_open (some p) (success vnode) true flags f)
        (file_open_lem (some p) (success vnode) flags f) in
    closes r run result
  where
    closes :
        (r : Files × Result ℕ)
        → file_open (some p) (success vnode) true flags f ≡ ok r
        → OpenResult (some p) (success vnode) flags f r
        → (fd : ℕ) × (g : Files) × (f' : Files) × (file_open (some p) (success vnode) true flags f
            ≡ ok (g, success fd))
          × (file_close (pos fd) g ≡ ok (f', success tt))
          × (f'.table ≡ f.table)
          × (f'.heap ≡ f.heap)
          × (f'.closed ≡ vnode ∷ f.closed)
    closes (g, success fd) run (first, leaves) =
        let done = opened-close fd p vnode flags f first unused in
        let (f', gone, table, heap, closed) = done in
        (fd, g, f', run, rw leaves gone, table, heap, closed)
    closes (g, failure e) run (same, code, full) = absurd (full k low free)
