-- ===== src/File/Session.antt =====
-- A process that opens, closes, reads, writes and seeks in any order, without `dup2`.
use csc.Base.{
  ℕ, ◌^◌, ◌<◌, ◌≡◌, refl, true, Option, none, some, List, [], ◌∷◌, inl, inr, pos, Run, ok, ◌>>=◌,
  Result, success, failure, Errno, ebadf, Returns, Returns-inv,
}
use csc.File.{
  Files, Heap, Whence, filetable_findfile, file_open, file_close, sys_transfer, sys_lseek,
  seek_found, seek_target,
}
use csc.File.Exclusive.{IsExclusive, none_ne}
use csc.File.Opening.{OpenResult, file_open_lem, opened-IsExclusive}
use csc.File.Closing.{CloseResult, file_close_lem}
use csc.File.Moving.{
  AnswerOk, TransferResult, sys_transfer_lem, IsOpen-cases, sys_lseek-seek_target, SeekResult,
}

-- `kmalloc`, as far as open files go: what it returns is not in use.
pub record Allocator : Type 0 where
  pub kmalloc : Heap → Option ℕ
  pub unused : (h : Heap) (p : ℕ) → kmalloc h ≡ some p → h p ≡ none

-- A call, with what the file system answers.
pub data Action : Type 0 where
  open_file : Result ℕ → ℕ → Action
  close_file : ℕ → Action
  move_bytes : ℕ → ℕ → Result (ℕ × ℕ) → Action
  seek : ℕ → ℕ → Whence → ℕ → Option Errno → Action

module _ (m : Allocator) where
  open m use {kmalloc, unused}

  -- One call. `kfree` of a pointer that `vfs_open` did not set is taken to do no harm.
  pub step : Action → Files → Run Files
  step (open_file vfs flags) f = do (f', r) ← file_open (kmalloc f.heap) vfs true flags f; ok f'
  step (close_file fd) f = do (f', r) ← file_close (pos fd) f; ok f'
  step (move_bytes fd size moved) f = do (f', r) ← sys_transfer (pos fd) size moved f; ok f'
  step (seek fd offset whence size tryseek) f = do
    (f', r) ← sys_lseek (pos fd) offset whence size tryseek f
    ok f'

  pub run : List Action → Files → Run Files
  run [] f = ok f
  run (a ∷ rest) f = step a f >>= run rest

-- What a vnode answers to a read or a write is as it should be.
abbrev pub AnswersOk : List Action → Type 0
AnswersOk [] = Unit
AnswersOk (move_bytes fd size moved ∷ rest) = (size < 2 ^ 32) × AnswerOk size moved × AnswersOk rest
AnswersOk (a ∷ rest) = AnswersOk rest

open-IsExclusive :
    (mem : Option ℕ) (vfs : Result ℕ) (flags : ℕ) (f : Files) (r : Files × Result ℕ)
    → IsExclusive f
    → ((p : ℕ) → mem ≡ some p → f.heap p ≡ none)
    → OpenResult mem vfs flags f r
    → IsExclusive r.0
open-IsExclusive (some p) (success vnode) flags f (f', success fd) v fresh (first, e) =
    rw e (opened-IsExclusive fd p vnode flags f v (fresh p refl))
open-IsExclusive none vfs flags f (f', success fd) v fresh h = absurd h
open-IsExclusive (some p) (failure e) flags f (f', success fd) v fresh h = absurd h
open-IsExclusive none vfs flags f (f', failure e) v fresh (same, code) = rw same v
open-IsExclusive (some p) (failure e') flags f (f', failure e) v fresh (same, code) = rw same v
open-IsExclusive (some p) (success vnode) flags f (f', failure e) v fresh (same, code, all) =
    rw same v

close-IsExclusive :
    (fd : ℕ) (f : Files) (r : Files × Result (Unit {0}))
    → IsExclusive f
    → CloseResult fd f r
    → IsExclusive r.0
close-IsExclusive fd f (f', success u) v (p, of, low, at, live, leaves, own) = own
close-IsExclusive fd f (f', failure e) v (code, same, why) = rw same v

move-IsExclusive :
    (fd size : ℕ) (moved : Result (ℕ × ℕ)) (f : Files) (r : Files × Result ℕ)
    → IsExclusive f
    → TransferResult fd size moved f r
    → IsExclusive r.0
move-IsExclusive fd size (success (o, d)) f (f', success n) v (p, of, is, sum, leaves, own) = own
move-IsExclusive fd size (failure e) f (f', success n) v h = absurd h
move-IsExclusive fd size (success (o, d)) f (f', failure e) v (code, same) = rw same v
move-IsExclusive fd size (failure e') f (f', failure e) v (code, same) = rw same v

seek-closed :
    (fd offset size : ℕ) (whence : Whence) (tryseek : Option Errno) (f : Files)
    → filetable_findfile (pos fd) f ≡ failure ebadf
    → sys_lseek (pos fd) offset whence size tryseek f ≡ ok (f, failure ebadf)
unfolding sys_lseek seek_found
seek-closed fd offset size whence tryseek f e = rw e refl

module _ (m : Allocator) where
  open m use {kmalloc, unused}

  step-IsExclusive :
      (a : Action) (rest : List Action) (f : Files)
      → IsExclusive f
      → AnswersOk (a ∷ rest)
      → Returns IsExclusive (step m a f) × AnswersOk rest
  unfolding step
  step-IsExclusive (open_file vfs flags) rest f v h =
      let (r, run, result) =
        Returns-inv (OpenResult (kmalloc f.heap) vfs flags f)
          (file_open (kmalloc f.heap) vfs true flags f)
          (file_open_lem (kmalloc f.heap) vfs flags f) in
      (rw run (open-IsExclusive (kmalloc f.heap) vfs flags f r v (unused f.heap) result), h)
  step-IsExclusive (close_file fd) rest f v h =
      let (r, run, result) =
        Returns-inv (CloseResult fd f) (file_close (pos fd) f) (file_close_lem fd f v) in
      (rw run (close-IsExclusive fd f r v result), h)
  step-IsExclusive (move_bytes fd size moved) rest f v (small, fine, h) =
      let (r, run, result) =
        Returns-inv (TransferResult fd size moved f) (sys_transfer (pos fd) size moved f)
          (sys_transfer_lem fd size moved f v small fine) in
      (rw run (move-IsExclusive fd size moved f r v result), h)
  step-IsExclusive (seek fd offset whence size tryseek) rest f v h = elim (IsOpen-cases fd f v) [
    | inr closed ↦ (rw (seek-closed fd offset size whence tryseek f closed) v, h)
    | inl (p, of, o) ↦
        let (r, run, result) =
          Returns-inv
            (λ (r : Files × Result ℕ).
              SeekResult p (seek_target whence offset of.offset size) tryseek f r × IsExclusive r.0)
            (sys_lseek (pos fd) offset whence size tryseek f)
            (sys_lseek-seek_target fd p offset size of whence tryseek f v o) in
        (rw run result.1, h)
  ]

  -- A process that opens, closes, reads, writes and seeks in any order never makes a fault, and no two
  -- of its descriptors share an open file: each one points to an object of its own with one reference,
  -- at an offset that is not negative. `kmalloc` gives only what is not in use; the file system may
  -- fail, but a read or a write that it does leaves an offset below 2 ^ 31 and a residue that is at
  -- most the size; and the `kfree` of a pointer that a failed `vfs_open` left unset does no harm.
  pub run-IsExclusive :
      (l : List Action) (f : Files) → IsExclusive f → AnswersOk l → Returns IsExclusive (run m l f)
  unfolding run
  run-IsExclusive [] f v h = v
  run-IsExclusive (a ∷ rest) f v h =
      let (now, later) = step-IsExclusive a rest f v h in
      let (f', one, v') = Returns-inv IsExclusive (step m a f) now in
      rw one (run-IsExclusive rest f' v' later)

-- The table of a process before anything is opened.
abbrev pub no_files : Files
no_files = record { table = λ fd. none; heap = λ p. none; closed = [] }

pub no_files-IsExclusive : IsExclusive no_files
no_files-IsExclusive = record {
  live = λ fd p lt e. absurd (none_ne p e);
  single = λ i j p hi hj a b. absurd (none_ne p a);
}
