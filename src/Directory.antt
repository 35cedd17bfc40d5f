-- ===== src/Directory.antt =====
-- a3/src/kern/fs/sfs/sfs_vnode.c, directories. A directory is the list of its slots. `sfs_readdir` and
-- `sfs_writedir` are a read and a write of one slot by `sfs_io`; a slot lies in one block. What the
-- device and memory answer are arguments: `reads` says for each slot whether reading it fails, and a
-- `Write` how a write ends. Each operation holds the locks of what it changes, so it is one step. Of the
-- references that a vnode counts those are here that are let go under the vnode's own lock, in
-- `sfs_rename` and `sfs_mkdir`, where the last one stops the machine; the others are left, and so is
-- what `sfs_reclaim` does.
pub mod Names
pub mod Scan
pub mod Finding
pub mod Counts
pub mod Linking
pub mod Failing
pub mod Calls
pub mod Subdirs
pub mod Unlinking
mod Tests
use csc.Base.{
  ℕ, zero, suc, ◌+◌, ◌-◌, ◌%◌, ◌^◌, Bool, true, false, not, ◌&&◌, Option, none, some, List, [], ◌∷◌,
  ltb, ◌==◌, set_at, if◌then◌else◌, length, get_or, Run, ok, panic, ◌>>=◌, ◌>>◌, assert, Result,
  success, failure, Errno, eexist, enoent, enametoolong, eisdir, enotdir,
}

-- `struct sfs_dir`: the name is the string in its field. Number 0 marks a free slot.
pub record Slot : Type 0 where
  pub ino : ℕ
  pub name : List ℕ

abbrev pub empty : Slot
empty = record { ino = 0; name = [] }

-- `!strcmp(a, b)`
pub same : List ℕ → List ℕ → Bool
same [] [] = true
same [] (y ∷ ys) = false
same (x ∷ xs) [] = false
same (x ∷ xs) (y ∷ ys) = x == y && same xs ys

-- How a write of a slot ends: it is done, or fails before `uiomove`, or after it, when the new slot
-- lies within the size already though nothing was written there.
pub data Write : Type 0 where
  done : Write
  refused lost : Errno → Write

-- A slot that is written past the end leaves empty ones before it.
pub put : List Slot → ℕ → Slot → List Slot
put [] zero s = s ∷ []
put [] (suc k) s = empty ∷ put [] k s
put (x ∷ d) zero s = s ∷ d
put (x ∷ d) (suc k) s = x ∷ put d k s

pub sfs_writedir : Write → List Slot → ℕ → Slot → List Slot × Result (Unit {0})
sfs_writedir done d k s = (put d k s, success tt)
sfs_writedir (refused e) d k s = (d, failure e)
sfs_writedir (lost e) d k s = (put d k (get_or d k empty), failure e)

-- The locals of `sfs_dir_findname`, and what it stores for its caller.
pub record Search : Type 0 where
  pub found : Bool
  pub ino : ℕ
  pub slot : ℕ
  pub emptyslot : Option ℕ

-- One slot that has been read.
pub visit : List ℕ → Slot → ℕ → Search → Run Search
visit name s i a =
    if s.ino == 0
    then ok (record a { emptyslot = some i })
    else (if same s.name name
        then (do assert (not a.found); ok (record a { found = true; ino = s.ino; slot = i }))
        else ok a)

-- The loop of `sfs_dir_findname`, from slot `i` on.
pub find_from :
    (ℕ → Option Errno) → List ℕ → List Slot → ℕ → Search → Run (Search × Result (Unit {0}))
find_from reads name [] i a = ok (a, if a.found then success tt else failure enoent)
find_from reads name (s ∷ d) i a = elim (reads i) [
  | some e ↦ ok (a, failure e)
  | none ↦ visit name s i a >>= find_from reads name d (i + 1)
]

abbrev pub no_search : Search
no_search = record { found = false; ino = 0; slot = 0; emptyslot = none }

pub sfs_dir_findname : (ℕ → Option Errno) → List ℕ → List Slot → Run (Search × Result (Unit {0}))
sfs_dir_findname reads name d = find_from reads name d 0 no_search

pub is_enoent : Errno → Bool
is_enoent enoent = true
is_enoent e = false

abbrev pub namelen : ℕ
namelen = 60

-- The slot for a new entry: the one that the search found, or else the end.
pub free_slot : List Slot → Option ℕ → ℕ
free_slot d none = length d
free_slot d (some k) = k

-- `sfs_dir_link` with a name that was not found. The result is the slot.
pub place : Write → List ℕ → ℕ → List Slot → Option ℕ → List Slot × Result ℕ
place w name ino d emptyslot =
    let k = free_slot d emptyslot in
    let (d', r) = sfs_writedir w d k (record { ino = ino; name = name }) in
    (d', elim r [ success u ↦ success k | failure e ↦ failure e ])

pub link_found : Write → List ℕ → ℕ → List Slot → Search × Result (Unit {0}) → List Slot × Result ℕ
link_found w name ino d (a, success u) = (d, failure eexist)
link_found w name ino d (a, failure e) =
    if is_enoent e
    then (if ltb namelen (length name + 1)
        then (d, failure enametoolong)
        else place w name ino d a.emptyslot)
    else (d, failure e)

pub sfs_dir_link : (ℕ → Option Errno) → Write → List ℕ → ℕ → List Slot → Run (List Slot × Result ℕ)
sfs_dir_link reads w name ino d = do
  found ← sfs_dir_findname reads name d
  ok (link_found w name ino d found)

pub sfs_dir_unlink : Write → ℕ → List Slot → List Slot × Result (Unit {0})
sfs_dir_unlink w k d = sfs_writedir w d k empty
