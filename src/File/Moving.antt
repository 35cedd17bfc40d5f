-- ===== src/File/Moving.antt =====
-- `sys_read`, `sys_write`, `sys_getdirentry` and `sys_lseek` of
-- a3/src/kern/userprog/file_syscalls.c on tables without sharing.
use csc.Base.{
  ℕ, ◌+◌, ◌^◌, ◌≤◌, ◌<◌, ◌≡◌, refl, Option, none, some, ltb, ltb→lt, set_at, arith, Bool-cases,
  Option-cases, inl, inr, ◌⊎◌, pos, Result, success, failure, Errno, einval, ebadf, Returns,
}
use csc.File.{
  Openfile, Files, fopen_max, filetable_findfile, transfer_found, sys_transfer, Whence, seek_target,
  seek_to, seek_found, sys_lseek,
}
use csc.File.Exclusive.{IsOwned, IsExclusive, load-ok, find_open, change-IsExclusive}

-- The state in which the file of an open descriptor has another offset.
abbrev pub moved_to : ℕ → Openfile → ℕ → Files → Files
moved_to p of offset f = record f { heap = set_at f.heap p (some (record of { offset = offset })) }

-- Descriptor `fd` is open: its object is `of`, at `p`.
pub record IsOpen (f : Files) (fd p : ℕ) (of : Openfile) : Type 0 where
  pub low : fd < fopen_max
  pub entry : f.table fd ≡ some p
  pub live : f.heap p ≡ some of
  pub own : IsOwned of

-- Whether a descriptor is open, in a table without sharing.
pub IsOpen-cases :
    (fd : ℕ) (f : Files)
    → IsExclusive f
    → (((p : ℕ) × (of : Openfile) × IsOpen f fd p of))
      ⊎ (filetable_findfile (pos fd) f ≡ failure ebadf)
unfolding filetable_findfile
IsOpen-cases fd f v = elim (Bool-cases (ltb fd fopen_max)) [
  | inr out ↦ inr (rw out refl)
  | inl e ↦
      let low = ltb→lt fd fopen_max e in
      elim (Option-cases (f.table fd)) [
        | inl free ↦ inr (rw (e, free) refl)
        | inr (p, at) ↦
            let (of, live, own) = v.live fd p low at in
            inl (p, of, record { low = low; entry = at; live = live; own = own })
      ]
]

pub moved_to-IsExclusive :
    (f : Files) (fd p offset : ℕ) (of : Openfile)
    → IsExclusive f
    → IsOpen f fd p of
    → offset < 2 ^ 31
    → IsExclusive (moved_to p of offset f)
moved_to-IsExclusive f fd p offset of v o h =
    change-IsExclusive f fd p (record of { offset = offset }) v o.low o.entry
      (record { one = o.own.one; seekable = h })

-- What a read or a write of `size` bytes promises, for what the vnode answers.
abbrev pub TransferResult : ℕ → ℕ → Result (ℕ × ℕ) → Files → Files × Result ℕ → Type 0
TransferResult fd size (success (offset, resid)) f (f', success count) =
    (p : ℕ) × (of : Openfile) × IsOpen f fd p of
    × (count + resid ≡ size)
    × (f' ≡ moved_to p of offset f)
    × IsExclusive f'
TransferResult fd size (failure e) f (f', success count) = ⊥
TransferResult fd size (success (offset, resid)) f (f', failure e) = (e ≡ ebadf) × (f' ≡ f)
TransferResult fd size (failure e') f (f', failure e) = ((e ≡ e') ⊎ (e ≡ ebadf)) × (f' ≡ f)

-- What is known of the answer of a vnode: no more is left than was asked for, and the offset is not
-- negative.
abbrev pub AnswerOk : ℕ → Result (ℕ × ℕ) → Type 0
AnswerOk size (failure e) = Unit
AnswerOk size (success (offset, resid)) = (resid ≤ size) × (offset < 2 ^ 31)

-- `sys_read`, `sys_write` and `sys_getdirentry` return: the number of bytes that were moved, with the
-- offset of the open file where the vnode left it and nothing else changed; or the error of the
-- vnode, or EBADF, with nothing changed.
pub sys_transfer_lem :
    (fd size : ℕ) (moved : Result (ℕ × ℕ)) (f : Files)
    → IsExclusive f
    → size < 2 ^ 32
    → AnswerOk size moved
    → Returns (TransferResult fd size moved f) (sys_transfer (pos fd) size moved f)
unfolding sys_transfer transfer_found
sys_transfer_lem fd size moved f v small fine = elim (IsOpen-cases fd f v) [
  | inr closed ↦ rw closed (not_open moved)
  | inl (p, of, o) ↦ rw (find_open fd p f o.low o.entry) (is_open p of o moved fine)
]
  where
    not_open : (m : Result (ℕ × ℕ)) → TransferResult fd size m f (f, failure ebadf)
    not_open (success (offset, resid)) = (refl, refl)
    not_open (failure e) = (inr refl, refl)

    is_open :
        (p : ℕ) (of : Openfile)
        → IsOpen f fd p of
        → (m : Result (ℕ × ℕ)) → AnswerOk size m
        → Returns (TransferResult fd size m f) (transfer_found size m (success p) f)
    is_open p of o (failure e) h = rw (load-ok p f o.live) (inl refl, refl)
    is_open p of o (success (offset, resid)) (h, low) =
        rw (load-ok p f o.live)
          (p, of, o, omega arith, refl, moved_to-IsExclusive f fd p offset of v o low)

-- What `sys_lseek` promises of a target: the new offset, not negative; or EINVAL for one that is
-- negative or not to be computed; or what `VOP_TRYSEEK` says.
abbrev pub SeekResult : ℕ → Option ℕ → Option Errno → Files → Files × Result ℕ → Type 0
SeekResult p (some target) none f (f', success at) =
    (at ≡ target)
    × (target < 2 ^ 31)
    × ((of : Openfile) × (f.heap p ≡ some of) × (f' ≡ moved_to p of target f))
SeekResult p (some target) (some e') f (f', success at) = ⊥
SeekResult p none tryseek f (f', success at) = ⊥
SeekResult p (some target) (some e') f (f', failure e) = ((e ≡ e') ⊎ (e ≡ einval)) × (f' ≡ f)
SeekResult p (some target) none f (f', failure e) = (e ≡ einval) × (2 ^ 31 ≤ target) × (f' ≡ f)
SeekResult p none tryseek f (f', failure e) = (e ≡ einval) × (f' ≡ f)

-- `sys_lseek` on an open descriptor, for the word that `seek_target` computes.
pub sys_lseek-seek_target :
    (fd p offset size : ℕ) (of : Openfile) (whence : Whence) (tryseek : Option Errno) (f : Files)
    → IsExclusive f
    → IsOpen f fd p of
    → Returns
        (λ (r : Files × Result ℕ).
          SeekResult p (seek_target whence offset of.offset size) tryseek f r × IsExclusive r.0)
        (sys_lseek (pos fd) offset whence size tryseek f)
unfolding sys_lseek seek_found seek_to
sys_lseek-seek_target fd p offset size of whence tryseek f v o =
    rw (find_open fd p f o.low o.entry, load-ok p f o.live)
      (goes (seek_target whence offset of.offset size) tryseek)
  where
    goes :
        (t : Option ℕ) (e : Option Errno)
        → SeekResult p t e f (seek_to p of t e f) × IsExclusive (seek_to p of t e f).0
    goes none none = ((refl, refl), v)
    goes none (some e) = ((refl, refl), v)
    goes (some t) e = elim (Bool-cases (ltb t (2 ^ 31))) [
      | inl low ↦ rw low (fits t (ltb→lt t (2 ^ 31) low) e)
      | inr high ↦ rw high (out t (ground arith) e)
    ]
      where
        out :
            (t : ℕ)
            → 2 ^ 31 ≤ t
            → (e : Option Errno) → SeekResult p (some t) e f (f, failure einval) × IsExclusive f
        out t h none = ((refl, h, refl), v)
        out t h (some e) = ((inr refl, refl), v)

        fits :
            (t : ℕ)
            → t < 2 ^ 31
            → (e : Option Errno)
            → let r : Files × Result ℕ = elim e [
              | some x ↦ (f, failure x)
              | none ↦ (moved_to p of t f, success t)
            ] in
              SeekResult p (some t) e f r × IsExclusive r.0
        fits t h none = ((refl, h, (of, o.live, refl)), moved_to-IsExclusive f fd p t of v o h)
        fits t h (some e) = ((inl refl, refl), v)
