-- ===== src/Directory/Subdirs.antt =====
-- `sfs_mkdir` and `sfs_rmdir` of a3/src/kern/fs/sfs/sfs_vnode.c. What the calls below them answer is in
-- two records. `sfs_mkdir` lets go of the new vnode, which has one reference, when it fails.
pub mod Entries
pub mod Making
pub mod Long
pub mod Taking
use csc.Base.{
  ℕ, ◌+◌, Bool, true, false, not, ◌||◌, Option, none, some, List, [], ◌∷◌, ltb, ◌==◌, if◌then◌else◌,
  drop, Run, ok, panic, ◌>>=◌, Result, success, failure, Errno, einval, eexist, enotdir, enotempty,
}
use csc.Directory.{Slot, Write, Search, same, sfs_dir_findname, sfs_dir_link, sfs_dir_unlink}
use csc.Directory.Calls.{
  Tree, type_dir, set_slots, more_links, fewer_links, sfs_makeobj, sfs_lookonce, vnode_decref,
}

-- `.` and `..`
abbrev pub dot : List ℕ
dot = 46 ∷ []

abbrev pub dot_dot : List ℕ
dot_dot = 46 ∷ 46 ∷ []

-- An entry is made for `ino` in the directory. If that fails, `sfs_mkdir` lets go of the new vnode,
-- which has one reference, under its lock, and returns the error.
unfoldable pub enter :
    (ℕ → Option Errno)
    → Write
    → ℕ
    → List ℕ
    → ℕ
    → Tree
    → (Tree → Run (Tree × Result ℕ))
    → Run (Tree × Result ℕ)
enter reads w dir name ino t next = sfs_dir_link reads w name ino (t.slots dir) >>= λ (d, r).
    elim r [
      | failure e ↦ vnode_decref 1 true >>= λ left. ok (set_slots dir d t, failure e)
      | success slot ↦ next (set_slots dir d t)
    ]

pub record MkdirAnswers : Type 0 where
  pub reads : ℕ → Option Errno
  pub made : Result ℕ
  pub reads_dot : ℕ → Option Errno
  pub write_dot : Write
  pub reads_dot_dot : ℕ → Option Errno
  pub write_dot_dot : Write
  pub reads_again : ℕ → Option Errno
  pub write : Write

-- The link counts of the new directory and of its parent, and the end without the locks.
unfoldable pub count_links : ℕ → ℕ → Tree → Run (Tree × Result ℕ)
count_links n dir t =
    vnode_decref 1 false >>= λ left. ok (more_links dir (more_links n t), success n)

unfoldable pub mkdir_made : MkdirAnswers → ℕ → List ℕ → Tree × Result ℕ → Run (Tree × Result ℕ)
mkdir_made a dir name (t, failure e) = ok (t, failure e)
mkdir_made a dir name (t, success n) = enter a.reads_dot a.write_dot n dot n t (λ t1.
    enter a.reads_dot_dot a.write_dot_dot n dot_dot dir t1
      (λ t2. enter a.reads_again a.write dir name n t2 (count_links n dir)))

unfoldable pub mkdir_found :
    MkdirAnswers → ℕ → List ℕ → Tree → Search × Result (Unit {0}) → Run (Tree × Result ℕ)
mkdir_found a dir name t (found, success u) = ok (t, failure eexist)
mkdir_found a dir name t (found, failure e) = mkdir_made a dir name (sfs_makeobj a.made type_dir t)

unfoldable pub sfs_mkdir : MkdirAnswers → ℕ → List ℕ → Tree → Run (Tree × Result ℕ)
sfs_mkdir a dir name t =
    if t.kind dir == type_dir
    then (do found ← sfs_dir_findname a.reads name (t.slots dir); mkdir_found a dir name t found)
    else ok (t, failure enotdir)

pub record RmdirAnswers : Type 0 where
  pub reads : ℕ → Option Errno
  pub load : Option Errno
  pub reads_victim : ℕ → Option Errno
  pub write_dot : Write
  pub write_dot_dot : Write
  pub write : Write

-- The loop over the slots of the victim, from slot `i` on.
pub entries_from : (ℕ → Option Errno) → List Slot → ℕ → ℕ → Result ℕ
entries_from reads [] i size = success size
entries_from reads (s ∷ d) i size =
    let rest = entries_from reads d (i + 1) (if s.ino == 0 then size else size + 1) in
    elim (reads i) [ some e ↦ failure e | none ↦ rest ]

-- A slot of a directory is freed, and an error is returned at once.
pub free_entry :
    Write → ℕ → ℕ → Tree → (Tree → Run (Tree × Result (Unit {0}))) → Run (Tree × Result (Unit {0}))
free_entry w dir slot t next =
    let (d, r) = sfs_dir_unlink w slot (t.slots dir) in
    elim r [ failure e ↦ ok (set_slots dir d t, failure e) | success u ↦ next (set_slots dir d t) ]

pub removed : Tree → Run (Tree × Result (Unit {0}))
removed t = ok (t, success tt)

pub rmdir_counted : RmdirAnswers → ℕ → ℕ → ℕ → Tree → Result ℕ → Run (Tree × Result (Unit {0}))
rmdir_counted a dir ino slot t (failure e) = ok (t, failure e)
rmdir_counted a dir ino slot t (success size) =
    if ltb 0 size
    then ok (t, failure enotempty)
    else free_entry a.write_dot ino 0 t (λ t1.
      free_entry a.write_dot_dot ino 1 t1
        (λ t2. free_entry a.write dir slot (fewer_links dir t2) removed))

pub rmdir_found : RmdirAnswers → ℕ → Tree → Result (ℕ × ℕ) → Run (Tree × Result (Unit {0}))
rmdir_found a dir t (failure e) = ok (t, failure e)
rmdir_found a dir t (success (ino, slot)) =
    if t.kind ino == type_dir
    then rmdir_counted a dir ino slot t (entries_from a.reads_victim (drop 2 (t.slots ino)) 2 0)
    else ok (t, failure enotdir)

pub sfs_rmdir : RmdirAnswers → ℕ → List ℕ → Tree → Run (Tree × Result (Unit {0}))
sfs_rmdir a dir name t =
    if same name dot || same name dot_dot
    then ok (t, failure einval)
    else (do found ← sfs_lookonce a.reads a.load name dir t; rmdir_found a dir t found)
