-- ===== src/Directory/Calls.antt =====
-- The operations of a3/src/kern/fs/sfs/sfs_vnode.c on the names of a directory. `load` says whether
-- `sfs_loadvnode` fails, and `made` is what `sfs_balloc` and `sfs_loadvnode` give for a new inode.
pub mod Links
pub mod Entering
pub mod Creating
pub mod Removing
pub mod Renaming
pub mod Alone
use csc.Base.{
  ℕ, zero, suc, ◌+◌, ◌-◌, ◌%◌, ◌^◌, Bool, true, false, not, ◌&&◌, Option, none, some, List, [], ◌∷◌,
  ltb, ◌==◌, set_at, if◌then◌else◌, Run, ok, panic, ◌>>=◌, ◌>>◌, assert, Result, success, failure,
  Errno, eexist, eisdir, enotdir,
}
use csc.Directory.{
  Slot, Write, Search, same, sfs_dir_findname, sfs_dir_link, sfs_dir_unlink, is_enoent,
}

abbrev pub type_file : ℕ
type_file = 1

abbrev pub type_dir : ℕ
type_dir = 2

-- The inodes, each under its number, with the slots of those that are directories.
pub record Tree : Type 0 where
  pub slots : ℕ → List Slot
  pub linkcount : ℕ → ℕ
  pub kind : ℕ → ℕ

abbrev pub set_slots : ℕ → List Slot → Tree → Tree
set_slots dir d t = record t { slots = set_at t.slots dir d }

-- `sfi_linkcount++` and `sfi_linkcount--`, on 16 bits.
abbrev pub more_links : ℕ → Tree → Tree
more_links n t = record t { linkcount = set_at t.linkcount n ((t.linkcount n + 1) % 2 ^ 16) }

abbrev pub fewer_links : ℕ → Tree → Tree
fewer_links n t = record t {
  linkcount = set_at t.linkcount n ((t.linkcount n + 2 ^ 16 - 1) % 2 ^ 16);
}

-- A new inode is a cleared block.
unfoldable pub sfs_makeobj : Result ℕ → ℕ → Tree → Tree × Result ℕ
sfs_makeobj (failure e) type t = (t, failure e)
sfs_makeobj (success n) type t = (
  record {
    slots = set_at t.slots n [];
    linkcount = set_at t.linkcount n 0;
    kind = set_at t.kind n type;
  },
  success n,
)

-- `sfs_lookonce` after the search. The result is the inode and the slot.
pub look_found : Option Errno → Tree → Search × Result (Unit {0}) → Run (Result (ℕ × ℕ))
look_found load t (a, failure e) = ok (failure e)
look_found (some e) t (a, success u) = ok (failure e)
look_found none t (a, success u) = do
  assert (not (t.linkcount a.ino == 0))
  ok (success (a.ino, a.slot))

pub sfs_lookonce : (ℕ → Option Errno) → Option Errno → List ℕ → ℕ → Tree → Run (Result (ℕ × ℕ))
sfs_lookonce reads load name dir t = do
  found ← sfs_dir_findname reads name (t.slots dir)
  look_found load t found

-- The end of `sfs_creat` and of `sfs_link`: an entry was made for the inode `n`, or not.
pub linked : ℕ → Tree → Result ℕ → Tree × Result ℕ
linked n t (failure e) = (t, failure e)
linked n t (success slot) = (more_links n t, success n)

pub sfs_link : (ℕ → Option Errno) → Write → ℕ → List ℕ → ℕ → Tree → Run (Tree × Result ℕ)
sfs_link reads w dir name file t = do
  (d, r) ← sfs_dir_link reads w name file (t.slots dir)
  ok (linked file (set_slots dir d t) r)

pub creat_made : (ℕ → Option Errno) → Write → ℕ → List ℕ → Tree × Result ℕ → Run (Tree × Result ℕ)
creat_made reads w dir name (t, failure e) = ok (t, failure e)
creat_made reads w dir name (t, success n) = do
  (d, r) ← sfs_dir_link reads w name n (t.slots dir)
  ok (linked n (set_slots dir d t) r)

-- What the calls of the file system answer to one `sfs_creat`.
pub record CreatAnswers : Type 0 where
  pub reads : ℕ → Option Errno
  pub load : Option Errno
  pub made : Result ℕ
  pub reads_again : ℕ → Option Errno
  pub write : Write

pub creat_found :
    CreatAnswers → Bool → ℕ → List ℕ → Tree → Search × Result (Unit {0}) → Run (Tree × Result ℕ)
creat_found a excl dir name t (found, success u) =
    if excl
    then ok (t, failure eexist)
    else ok (t, elim a.load [ some e ↦ failure e | none ↦ success found.ino ])
creat_found a excl dir name t (found, failure e) =
    if is_enoent e
    then creat_made a.reads_again a.write dir name (sfs_makeobj a.made type_file t)
    else ok (t, failure e)

pub sfs_creat : CreatAnswers → Bool → ℕ → List ℕ → Tree → Run (Tree × Result ℕ)
sfs_creat a excl dir name t = do
  found ← sfs_dir_findname a.reads name (t.slots dir)
  creat_found a excl dir name t found

pub remove_slot : ℕ → ℕ → Tree → List Slot × Result (Unit {0}) → Run (Tree × Result (Unit {0}))
remove_slot dir ino t (d, failure e) = ok (set_slots dir d t, failure e)
remove_slot dir ino t (d, success u) = do
  assert (ltb 0 (t.linkcount ino))
  ok (fewer_links ino (set_slots dir d t), success tt)

pub remove_found : Write → ℕ → Tree → Result (ℕ × ℕ) → Run (Tree × Result (Unit {0}))
remove_found w dir t (failure e) = ok (t, failure e)
remove_found w dir t (success (ino, slot)) =
    if t.kind ino == type_dir
    then ok (t, failure eisdir)
    else remove_slot dir ino t (sfs_dir_unlink w slot (t.slots dir))

pub sfs_remove :
    (ℕ → Option Errno) → Option Errno → Write → ℕ → List ℕ → Tree → Run (Tree × Result (Unit {0}))
sfs_remove reads load w dir name t = do
  found ← sfs_lookonce reads load name dir t
  remove_found w dir t found

-- `VOP_DECREF`, with the references that the vnode has and whether the caller holds its lock. The last
-- one is for `sfs_reclaim`, which takes the lock, and `lock_acquire` asserts that its caller does not
-- hold it. What `sfs_reclaim` does then is left. The result is the number of references.
unfoldable pub vnode_decref : ℕ → Bool → Run ℕ
vnode_decref refcount locked = do
  assert (ltb 0 refcount)
  if ltb 1 refcount then ok (refcount - 1) else (do assert (not locked); ok 0)

-- What the device and memory answer to one `sfs_rename`, and the references to the vnode of the file
-- after `sfs_lookonce`.
pub record RenameAnswers : Type 0 where
  pub reads : ℕ → Option Errno
  pub load : Option Errno
  pub reads_again : ℕ → Option Errno
  pub link : Write
  pub unlink : Write
  pub undo : Write
  pub refcount : ℕ

-- `puke_harder` and `puke`
pub rename_undo :
    Errno → ℕ → ℕ → ℕ → Tree → List Slot × Result (Unit {0}) → Run (Tree × Result (Unit {0}))
rename_undo e refcount dir ino t (d, failure e') = panic
rename_undo e refcount dir ino t (d, success u) = do
  left ← vnode_decref refcount true
  ok (fewer_links ino (set_slots dir d t), failure e)

pub rename_unlinked :
    Write → ℕ → ℕ → ℕ → ℕ → Tree → List Slot × Result (Unit {0}) → Run (Tree × Result (Unit {0}))
rename_unlinked undo refcount dir ino slot2 t (d, success u) = do
  assert (ltb 0 (t.linkcount ino))
  left ← vnode_decref refcount true
  ok (fewer_links ino (set_slots dir d t), success tt)
rename_unlinked undo refcount dir ino slot2 t (d, failure e) =
    rename_undo e refcount dir ino t (sfs_dir_unlink undo slot2 d)

pub rename_linked :
    RenameAnswers → ℕ → ℕ → ℕ → Tree → List Slot × Result ℕ → Run (Tree × Result (Unit {0}))
rename_linked a dir ino slot1 t (d, failure e) = do
  left ← vnode_decref a.refcount true
  ok (set_slots dir d t, failure e)
rename_linked a dir ino slot1 t (d, success slot2) =
    rename_unlinked a.undo a.refcount dir ino slot2 (more_links ino (set_slots dir d t))
      (sfs_dir_unlink a.unlink slot1 d)

pub rename_found :
    RenameAnswers → ℕ → List ℕ → Tree → Result (ℕ × ℕ) → Run (Tree × Result (Unit {0}))
rename_found a dir n2 t (failure e) = ok (t, failure e)
rename_found a dir n2 t (success (ino, slot1)) = do
  assert (t.kind ino == type_file)
  linked ← sfs_dir_link a.reads_again a.link n2 ino (t.slots dir)
  rename_linked a dir ino slot1 t linked

-- `in_root` says whether both directories are the root.
pub sfs_rename : RenameAnswers → Bool → ℕ → List ℕ → List ℕ → Tree → Run (Tree × Result (Unit {0}))
sfs_rename a in_root dir n1 n2 t = do
  assert in_root
  found ← sfs_lookonce a.reads a.load n1 dir t
  rename_found a dir n2 t found
