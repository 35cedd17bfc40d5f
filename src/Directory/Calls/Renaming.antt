-- ===== src/Directory/Calls/Renaming.antt =====
-- `sfs_rename` of a3/src/kern/fs/sfs/sfs_vnode.c.
use csc.Base.{
  ℕ, ◌+◌, ◌%◌, ◌^◌, ◌<◌, ◌≡◌, refl, sym, ap, ◌∙◌, ◌≢◌, true, some, List, ◌==◌, eq→==, ==→eq, lt→ltb,
  if◌then◌else◌, arith, Bool-cases, inl, inr, get_or, set_at, set_at_self, ok, ◌-◌, Returns,
  Returns-inv, Result, success, failure, enoent,
}
use csc.Directory.{put, sfs_writedir, Slot, empty, Write, done, sfs_dir_link, sfs_dir_unlink, same}
use csc.Directory.Names.{lookup, renamed, same→eq}
use csc.Directory.Counts.{one, count}
use csc.Directory.Scan.{Names}
use csc.Directory.Linking.{Added, LinkResult, sfs_dir_link_lem}
use csc.Directory.Unlinking.{Removed, UnlinkResult, sfs_dir_unlink_lem}
use csc.Directory.Calls.{
  Tree, set_slots, more_links, fewer_links, type_file, RenameAnswers, rename_undo, rename_unlinked,
  rename_linked, vnode_decref, rename_found, sfs_lookonce, sfs_rename,
}
use csc.Directory.Calls.Links.{
  IsValid, Same-IsValid, more-IsValid, fewer-IsValid, Kept, Kept-Same, LookResult, sfs_lookonce_lem,
}

-- The first name was there, and the second was not; now it is the other way round, and the second
-- has the inode of the first.
pub record Renamed (dir : ℕ) (n1 n2 : List ℕ) (t t' : Tree) : Type 0 where
  pub was : 0 < lookup (t.slots dir) n1
  pub absent : lookup (t.slots dir) n2 ≡ 0
  pub names :
      (n : List ℕ)
      → lookup (t'.slots dir) n
        ≡ renamed n1 0 (renamed n2 (lookup (t.slots dir) n1) (lookup (t.slots dir))) n
  pub counts : (i : ℕ) → t'.linkcount i ≡ t.linkcount i

abbrev pub RenameResult : ℕ → List ℕ → List ℕ → Tree → Tree × Result (Unit {0}) → Type 0
RenameResult dir n1 n2 t (t', success u) = Renamed dir n1 n2 t t'
RenameResult dir n1 n2 t (t', failure e) = Kept dir t t'

-- One link more and then one less.
abbrev back : ℕ → ℕ → List Slot → List Slot → Tree → Tree
back ino dir d d' t = fewer_links ino (set_slots dir d' (more_links ino (set_slots dir d t)))

back-linkcount :
    (ino dir : ℕ) (d d' : List Slot) (t : Tree) (i : ℕ)
    → t.linkcount ino + 1 < 2 ^ 16
    → (back ino dir d d' t).linkcount i ≡ t.linkcount i
back-linkcount ino dir d d' t i low = elim (Bool-cases (ino == i)) [
  | inl e ↦
      let same_i = ap t.linkcount (==→eq ino i e) in
      rw (e, eq→== ino ino refl) (omega (arith, low, same_i))
  | inr e ↦ rw e refl
]

back-slots : (ino dir : ℕ) (d d' : List Slot) (t : Tree) → (back ino dir d d' t).slots dir ≡ d'
back-slots ino dir d d' t = set_at_self (set_slots dir d t).slots dir d'

-- A vnode that is in use elsewhere keeps a reference.
vnode_decref-used : (refcount : ℕ) → 1 < refcount → vnode_decref refcount true ≡ ok (refcount - 1)
unfolding vnode_decref
vnode_decref-used refcount h = rw (lt→ltb 0 refcount (omega arith), lt→ltb 1 refcount h) refl

module _ (outside : ℕ → ℕ) (dir : ℕ) (n1 n2 : List ℕ) (t : Tree) (ino slot1 slot2 : ℕ)
    (d : List Slot) (v : IsValid outside dir t) (positive : 0 < ino)
    (low : t.linkcount ino + 1 < 2 ^ 16) (e1 : ino ≡ lookup (t.slots dir) n1)
    (e2 : ino ≡ (get_or (t.slots dir) slot1 empty).ino) (names : Names (t.slots dir) slot1 n1)
    (a : Added n2 ino (t.slots dir) slot2 d) where
  valid : IsValid outside dir (more_links ino (set_slots dir d t))
  valid = more-IsValid outside dir ino t d v a.distinct a.counts low

  -- A slot that had an entry for the inode in the directory with both names is freed.
  back-IsValid :
      (slot : ℕ) (d' : List Slot)
      → (get_or d slot empty).ino ≡ ino
      → Removed d slot d'
      → IsValid outside dir (back ino dir d d' t)
  back-IsValid slot d' is r =
      let here : (more_links ino (set_slots dir d t)).slots dir ≡ d = set_at_self t.slots dir d in
      fewer-IsValid outside dir ino (more_links ino (set_slots dir d t)) d' valid r.distinct
        positive
        (λ i h.
          ap (λ (m : ℕ). count i d' + one (m == i)) (sym is)
          ∙ r.counts i h
          ∙ ap (count i) (sym here))

  old_slot : get_or d slot1 empty ≡ get_or (t.slots dir) slot1 empty
  old_slot =
      a.others slot1
        (λ e.
          omega
            (arith, names.live, a.was_free, ap (λ (k : ℕ). (get_or (t.slots dir) k empty).ino) e))
        names.live

  back_names :
      (n : List ℕ) (d' : List Slot) → lookup ((back ino dir d d' t).slots dir) n ≡ lookup d' n
  back_names n d' = ap (λ (l : List Slot). lookup l n) (back-slots ino dir d d' t)

  -- The name that was added is taken away again.
  undone :
      (n : List ℕ) → renamed n2 0 (renamed n2 ino (lookup (t.slots dir))) n ≡ lookup (t.slots dir) n
  undone n = elim (Bool-cases (same n2 n)) [
    | inl e ↦ rw e (sym a.absent ∙ ap (lookup (t.slots dir)) (same→eq n2 n e))
    | inr e ↦ rw e refl
  ]

  unlinked_lem :
      (undo : Write) (refcount : ℕ) (r : List Slot × Result (Unit {0}))
      → undo ≡ done
      → 1 < refcount
      → UnlinkResult d slot1 r
      → Returns
          (λ (r : Tree × Result (Unit {0})). RenameResult dir n1 n2 t r × IsValid outside dir r.0)
          (rename_unlinked undo refcount dir ino slot2 (more_links ino (set_slots dir d t)) r)
  unfolding rename_unlinked rename_undo sfs_dir_unlink sfs_writedir
  unlinked_lem undo refcount (d', success u) un used r =
      let some_links : 0 < set_at t.linkcount ino ((t.linkcount ino + 1) % 2 ^ 16) ino =
        omega (arith, set_at_self t.linkcount ino ((t.linkcount ino + 1) % 2 ^ 16), low) in
      rw
        (
          lt→ltb 0 (set_at t.linkcount ino ((t.linkcount ino + 1) % 2 ^ 16) ino) some_links,
          vnode_decref-used refcount used,
        )
        (
          record {
            was = omega (arith, positive, e1);
            absent = a.absent;
            names = λ n. back_names n d' ∙ r.names n ∙ moved n;
            counts = λ i. back-linkcount ino dir d d' t i low;
          },
          back-IsValid slot1 d' (ap (λ (s : Slot). s.ino) old_slot ∙ sym e2) r,
        )
    where
      moved :
          (n : List ℕ)
          → renamed (get_or d slot1 empty).name 0 (lookup d) n
            ≡ renamed n1 0 (renamed n2 (lookup (t.slots dir) n1) (lookup (t.slots dir))) n
      moved n =
          let first : (get_or d slot1 empty).name ≡ n1 =
            ap (λ (s : Slot). s.name) old_slot ∙ names.named in
          ap (λ (m : List ℕ). renamed m 0 (lookup d) n) first
          ∙ ap (λ (x : ℕ). if same n1 n then 0 else x) (a.names n)
          ∙ ap (λ (x : ℕ). renamed n1 0 (renamed n2 x (lookup (t.slots dir))) n) e1
  unlinked_lem undo refcount (d', failure e) un used same_d =
      let live : 0 < (get_or d slot2 empty).ino =
        omega (arith, ap (λ (s : Slot). s.ino) a.here, positive) in
      let r : Removed d slot2 (put d slot2 empty) =
        sfs_dir_unlink_lem done slot2 d a.distinct live in
      rw (un, same_d, vnode_decref-used refcount used)
        (
          record {
            names = λ n.
                back_names n (put d slot2 empty)
                ∙ r.names n
                ∙ ap (λ (m : List ℕ). renamed m 0 (lookup d) n) (ap (λ (s : Slot). s.name) a.here)
                ∙ ap (λ (x : ℕ). if same n2 n then 0 else x) (a.names n)
                ∙ undone n;
            counts = λ i. back-linkcount ino dir d (put d slot2 empty) t i low;
          },
          back-IsValid slot2 (put d slot2 empty) (ap (λ (s : Slot). s.ino) a.here) r,
        )

-- In a valid directory `sfs_rename` returns, and leaves it valid. Either the first name was there and
-- the second was not, the second has the inode of the first now, the first is gone and no other name
-- changes; or there is an error, and the names are as before. The link counts are as before in both
-- cases. The hypotheses: the first name, if it is there, is that of a file that can count another
-- link, and whose vnode someone else has in use, so that `sfs_lookonce` leaves two references or more;
-- no read fails with ENOENT, and the write that takes back the new name does not fail.
pub sfs_rename_lem :
    (outside : ℕ → ℕ) (a : RenameAnswers) (dir : ℕ) (n1 n2 : List ℕ) (t : Tree)
    → IsValid outside dir t
    → (0 < lookup (t.slots dir) n1 → t.kind (lookup (t.slots dir) n1) ≡ type_file)
    → t.linkcount (lookup (t.slots dir) n1) + 1 < 2 ^ 16
    → ((j : ℕ) → a.reads_again j ≢ some enoent)
    → a.undo ≡ done
    → 1 < a.refcount
    → Returns
        (λ (r : Tree × Result (Unit {0})). RenameResult dir n1 n2 t r × IsValid outside dir r.0)
        (sfs_rename a true dir n1 n2 t)
unfolding sfs_rename rename_found rename_linked
sfs_rename_lem outside a dir n1 n2 t v file low device un used =
    let (r, run, result) =
      Returns-inv (LookResult a.reads a.load n1 (t.slots dir))
        (sfs_lookonce a.reads a.load n1 dir t)
        (sfs_lookonce_lem outside a.reads a.load n1 dir t v) in
    rw run (found r result)
  where
    linked :
        (ino slot1 : ℕ) (r : List Slot × Result ℕ)
        → ino ≡ lookup (t.slots dir) n1
        → ino ≡ (get_or (t.slots dir) slot1 empty).ino
        → Names (t.slots dir) slot1 n1
        → LinkResult n2 ino (t.slots dir) r
        → Returns
            (λ (r : Tree × Result (Unit {0})). RenameResult dir n1 n2 t r × IsValid outside dir r.0)
            (rename_linked a dir ino slot1 t r)
    linked ino slot1 (d, failure e) e1 e2 names s =
        rw (vnode_decref-used a.refcount used)
          (Kept-Same dir t d s, Same-IsValid outside dir t d v s)
    linked ino slot1 (d, success slot2) e1 e2 names added =
        let positive : 0 < ino = omega (arith, e2, names.live) in
        let room : t.linkcount ino + 1 < 2 ^ 16 = omega (arith, low, ap t.linkcount e1) in
        let old =
          old_slot outside dir n1 n2 t ino slot1 slot2 d v positive room e1 e2 names added in
        let live : 0 < (get_or d slot1 empty).ino =
          omega (arith, ap (λ (s : Slot). s.ino) old, names.live) in
        unlinked_lem outside dir n1 n2 t ino slot1 slot2 d v positive room e1 e2 names added a.undo
          a.refcount (sfs_dir_unlink a.unlink slot1 d) un used
          (sfs_dir_unlink_lem a.unlink slot1 d added.distinct live)

    found :
        (r : Result (ℕ × ℕ))
        → LookResult a.reads a.load n1 (t.slots dir) r
        → Returns
            (λ (r : Tree × Result (Unit {0})). RenameResult dir n1 n2 t r × IsValid outside dir r.0)
            (rename_found a dir n2 t r)
    found (failure e) h = (record { names = λ n. refl; counts = λ i. refl }, v)
    found (success (ino, slot1)) (e1, e2, names) =
        let positive : 0 < ino = omega (arith, e2, names.live) in
        let is_file : t.kind ino == type_file ≡ true =
          eq→== (t.kind ino) type_file (ap t.kind e1 ∙ file (omega (arith, positive, e1))) in
        let (r, run, result) =
          Returns-inv (LinkResult n2 ino (t.slots dir))
            (sfs_dir_link a.reads_again a.link n2 ino (t.slots dir))
            (sfs_dir_link_lem a.reads_again a.link n2 ino (t.slots dir) v.distinct positive
              device) in
        rw (is_file, run) (linked ino slot1 r e1 e2 names result)
