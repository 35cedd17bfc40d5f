-- ===== src/Directory/Calls/Alone.antt =====
-- `sfs_rename` of a3/src/kern/fs/sfs/sfs_vnode.c, of a file that no one has in use.
use csc.Base.{
  ap, ◌∙◌, ℕ, ◌≡◌, refl, false, true, List, ltb, ◌==◌, Run, ok, panic, ◌>>=◌, assert, Result,
  success, failure, Errno,
}
use csc.Directory.{Slot, Write, sfs_dir_link, sfs_dir_unlink}
use csc.Directory.Calls.{
  Tree, type_file, more_links, set_slots, RenameAnswers, vnode_decref, rename_undo, rename_unlinked,
  rename_linked, rename_found, sfs_lookonce, sfs_rename,
}

bind_panic {ℓ κ} :
    {A : Type ℓ} {B : Type κ} (m : Run A) (k : A → Run B)
    → ((a : A) → k a ≡ panic)
    → (m >>= k) ≡ panic
bind_panic (ok a) k h = h a
bind_panic panic k h = refl

-- `sfs_reclaim` takes a lock that the caller of `vnode_decref` holds.
pub last_locked : vnode_decref 1 true ≡ panic
unfolding vnode_decref
last_locked = refl

-- Without the lock the last reference goes.
pub last_unlocked : vnode_decref 1 false ≡ ok 0
unfolding vnode_decref
last_unlocked = refl

rename_undo_alone :
    (e : Errno) (dir ino : ℕ) (t : Tree) (r : List Slot × Result (Unit {0}))
    → rename_undo e 1 dir ino t r ≡ panic
unfolding rename_undo
rename_undo_alone e dir ino t (d, failure e') = refl
rename_undo_alone e dir ino t (d, success u) = rw last_locked refl

rename_unlinked_alone :
    (undo : Write) (dir ino slot2 : ℕ) (t : Tree) (r : List Slot × Result (Unit {0}))
    → rename_unlinked undo 1 dir ino slot2 t r ≡ panic
unfolding rename_unlinked
rename_unlinked_alone undo dir ino slot2 t (d, failure e) =
    rename_undo_alone e dir ino t (sfs_dir_unlink undo slot2 d)
rename_unlinked_alone undo dir ino slot2 t (d, success u) =
    bind_panic (assert (ltb 0 (t.linkcount ino))) _ (λ z. rw last_locked refl)

rename_linked_alone :
    (a : RenameAnswers) (dir ino slot1 : ℕ) (t : Tree) (r : List Slot × Result ℕ)
    → a.refcount ≡ 1
    → rename_linked a dir ino slot1 t r ≡ panic
unfolding rename_linked
rename_linked_alone a dir ino slot1 t (d, failure e) one = rw (one, last_locked) refl
rename_linked_alone a dir ino slot1 t (d, success slot2) one =
    ap
      (λ (c : ℕ).
        rename_unlinked a.undo c dir ino slot2 (more_links ino (set_slots dir d t))
          (sfs_dir_unlink a.unlink slot1 d))
      one
    ∙ rename_unlinked_alone a.undo dir ino slot2 (more_links ino (set_slots dir d t))
        (sfs_dir_unlink a.unlink slot1 d)

-- If the file that is found has no other reference than that of `sfs_lookonce`, `sfs_rename` panics,
-- whatever the device answers: it lets the reference go while it holds the lock of the vnode.
pub sfs_rename_alone :
    (a : RenameAnswers) (dir : ℕ) (n1 n2 : List ℕ) (t : Tree) (ino slot1 : ℕ)
    → a.refcount ≡ 1
    → sfs_lookonce a.reads a.load n1 dir t ≡ ok (success (ino, slot1))
    → sfs_rename a true dir n1 n2 t ≡ panic
unfolding sfs_rename rename_found
sfs_rename_alone a dir n1 n2 t ino slot1 one found = rw found (
    bind_panic (assert (t.kind ino == type_file)) _ (λ z.
      bind_panic (sfs_dir_link a.reads_again a.link n2 ino (t.slots dir)) _
        (λ r. rename_linked_alone a dir ino slot1 t r one)))
