-- ===== src/Directory/Calls/Entering.antt =====
-- `sfs_link` of a3/src/kern/fs/sfs/sfs_vnode.c.
use csc.Base.{
  ℕ, suc, ◌+◌, ◌%◌, ◌^◌, ◌<◌, ◌≡◌, refl, ap, ◌∙◌, ◌≢◌, Option, some, List, arith, set_at_self,
  set_at_ne, Returns, Returns-inv, Result, success, failure, Errno, enoent,
}
use csc.Directory.{Slot, Write, sfs_dir_link}
use csc.Directory.Names.{lookup, renamed}
use csc.Directory.Linking.{LinkResult, sfs_dir_link_lem}
use csc.Directory.Calls.{Tree, set_slots, linked, sfs_link}
use csc.Directory.Calls.Links.{IsValid, Same-IsValid, more-IsValid, Kept, Kept-Same}

-- A name that was not there is that of the inode, which counts one link more.
pub record Entered (dir : ℕ) (name : List ℕ) (ino : ℕ) (t t' : Tree) : Type 0 where
  pub absent : lookup (t.slots dir) name ≡ 0
  pub names : (n : List ℕ) → lookup (t'.slots dir) n ≡ renamed name ino (lookup (t.slots dir)) n
  pub one_more : t'.linkcount ino ≡ suc (t.linkcount ino)
  pub others : (i : ℕ) → ino ≢ i → t'.linkcount i ≡ t.linkcount i

abbrev pub EnterResult : ℕ → List ℕ → ℕ → Tree → Tree × Result ℕ → Type 0
EnterResult dir name ino t (t', success n) = (n ≡ ino) × Entered dir name ino t t'
EnterResult dir name ino t (t', failure e) = Kept dir t t'

linked_lem :
    (outside : ℕ → ℕ) (dir : ℕ) (name : List ℕ) (ino : ℕ) (t : Tree) (r : List Slot × Result ℕ)
    → IsValid outside dir t
    → t.linkcount ino + 1 < 2 ^ 16
    → LinkResult name ino (t.slots dir) r
    → EnterResult dir name ino t (linked ino (set_slots dir r.0 t) r.1)
      × IsValid outside dir (linked ino (set_slots dir r.0 t) r.1).0
      × ((linked ino (set_slots dir r.0 t) r.1).0.kind ≡ t.kind)
unfolding linked
linked_lem outside dir name ino t (d, failure e) v low s =
    (Kept-Same dir t d s, Same-IsValid outside dir t d v s, refl)
linked_lem outside dir name ino t (d, success k) v low a = (
  (
    refl,
    record {
      absent = a.absent;
      names = λ n. ap (λ (l : List Slot). lookup l n) (set_at_self t.slots dir d) ∙ a.names n;
      one_more = set_at_self t.linkcount ino ((t.linkcount ino + 1) % 2 ^ 16) ∙ omega (arith, low);
      others = λ i ne. set_at_ne t.linkcount ino i ((t.linkcount ino + 1) % 2 ^ 16) ne;
    },
  ),
  more-IsValid outside dir ino t d v a.distinct a.counts low,
  refl,
)

-- In a valid directory `sfs_link` to a file that can count another link returns, and leaves it valid.
-- The file may be a directory as well, of which the code makes no test.
-- Either the name was not there and is the file's now, no other name changes and the file counts one
-- link more; or there is an error, and the names and the link counts are as before. No inode changes
-- its kind. The hypothesis on the device is that no read fails with ENOENT.
pub sfs_link_lem :
    (outside : ℕ → ℕ) (reads : ℕ → Option Errno) (w : Write) (dir : ℕ) (name : List ℕ) (file : ℕ)
    (t : Tree)
    → IsValid outside dir t
    → 0 < file
    → t.linkcount file + 1 < 2 ^ 16
    → ((j : ℕ) → reads j ≢ some enoent)
    → Returns
        (λ (r : Tree × Result ℕ).
          EnterResult dir name file t r × IsValid outside dir r.0 × (r.0.kind ≡ t.kind))
        (sfs_link reads w dir name file t)
unfolding sfs_link
sfs_link_lem outside reads w dir name file t v positive low device =
    let (r, run, result) =
      Returns-inv (LinkResult name file (t.slots dir))
        (sfs_dir_link reads w name file (t.slots dir))
        (sfs_dir_link_lem reads w name file (t.slots dir) v.distinct positive device) in
    rw run (linked_lem outside dir name file t r v low result)
