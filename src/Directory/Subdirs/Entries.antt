-- ===== src/Directory/Subdirs/Entries.antt =====
-- How `sfs_mkdir` of a3/src/kern/fs/sfs/sfs_vnode.c makes an entry.
use csc.Base.{
  ℕ, ◌<◌, ◌≡◌, ◌≢◌, Option, some, List, ok, panic, Run, Returns-inv, Result, success, failure,
  Errno, enoent, true, ◌>>=◌,
}
use csc.Directory.{Slot, Write, sfs_dir_link}
use csc.Directory.Names.{Distinct}
use csc.Directory.Linking.{Added, LinkResult, sfs_dir_link_lem}
use csc.Directory.Failing.{Hindered, LinkCause, Returns-both, sfs_dir_link_cause}
use csc.Directory.Calls.{Tree, set_slots, vnode_decref}
use csc.Directory.Calls.Alone.{last_locked}
use csc.Directory.Subdirs.{enter}

-- An entry is made, and `next` follows; or something hinders that, and the machine stops.
pub enter_lem :
    (P : Run (Tree × Result ℕ) → Type 0) (reads : ℕ → Option Errno) (w : Write) (dir : ℕ)
    (name : List ℕ) (ino : ℕ) (t : Tree) (next : Tree → Run (Tree × Result ℕ)) (d : List Slot)
    → t.slots dir ≡ d
    → Distinct d
    → 0 < ino
    → ((j : ℕ) → reads j ≢ some enoent)
    → (Hindered reads w name d → P panic)
    → ((d' : List Slot) (slot : ℕ) → Added name ino d slot d' → P (next (set_slots dir d' t)))
    → P (enter reads w dir name ino t next)
unfolding enter
enter_lem P reads w dir name ino t next d at v positive device fails goes =
    let (r, run, (result, cause)) =
      Returns-inv
        (λ (r : List Slot × Result ℕ). LinkResult name ino d r × LinkCause reads w name d r)
        (sfs_dir_link reads w name ino d)
        (Returns-both (LinkResult name ino d) (LinkCause reads w name d)
          (sfs_dir_link reads w name ino d) (sfs_dir_link_lem reads w name ino d v positive device)
          (sfs_dir_link_cause reads w name ino d v)) in
    rw (at, run) (entered r result cause)
  where
    entered :
        (r : List Slot × Result ℕ)
        → LinkResult name ino d r
        → LinkCause reads w name d r
        → P (elim r.1 [
          | failure e ↦ vnode_decref 1 true >>= λ left. ok (set_slots dir r.0 t, failure e)
          | success slot ↦ next (set_slots dir r.0 t)
        ])
    entered (d', failure e) same h = rw last_locked (fails h)
    entered (d', success slot) a h = goes d' slot a
