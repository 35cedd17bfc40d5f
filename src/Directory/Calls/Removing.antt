-- ===== src/Directory/Calls/Removing.antt =====
-- `sfs_remove` of a3/src/kern/fs/sfs/sfs_vnode.c.
use csc.Base.{
  ℕ, suc, ◌+◌, ◌-◌, ◌%◌, ◌^◌, ◌<◌, ◌≡◌, refl, sym, ap, ◌∙◌, ◌≢◌, Option, List, ◌==◌, eq→==, lt→ltb,
  arith, Bool-cases, inl, inr, get_or, set_at_self, set_at_ne, Returns, Returns-inv, Result,
  success, failure, Errno,
}
use csc.Directory.{Slot, empty, Write, sfs_dir_unlink}
use csc.Directory.Names.{lookup, renamed}
use csc.Directory.Counts.{one, count, Same, Same-refl}
use csc.Directory.Scan.{Names}
use csc.Directory.Unlinking.{UnlinkResult, sfs_dir_unlink_lem}
use csc.Directory.Calls.{
  Tree, set_slots, fewer_links, type_dir, remove_slot, remove_found, sfs_lookonce, sfs_remove,
}
use csc.Directory.Calls.Links.{
  Kept, Kept-Same, IsValid, Same-IsValid, fewer-IsValid, LookResult, sfs_lookonce_lem,
}

-- What a removal leaves.
pub record Taken (dir : ℕ) (name : List ℕ) (t t' : Tree) : Type 0 where
  pub was : 0 < lookup (t.slots dir) name
  pub file : t.kind (lookup (t.slots dir) name) ≢ type_dir
  pub names : (n : List ℕ) → lookup (t'.slots dir) n ≡ renamed name 0 (lookup (t.slots dir)) n
  pub one_less :
      suc (t'.linkcount (lookup (t.slots dir) name)) ≡ t.linkcount (lookup (t.slots dir) name)
  pub others : (i : ℕ) → lookup (t.slots dir) name ≢ i → t'.linkcount i ≡ t.linkcount i

abbrev pub RemoveResult : ℕ → List ℕ → Tree → Tree × Result (Unit {0}) → Type 0
RemoveResult dir name t (t', success u) = Taken dir name t t'
RemoveResult dir name t (t', failure e) = Kept dir t t'

-- In a valid directory `sfs_remove` returns, and leaves it valid. Either the name is gone, and no
-- other, and the inode that it had, which is no directory, counts one link less; or there is an
-- error, and the names and the link counts are as before.
pub sfs_remove_lem :
    (others : ℕ → ℕ) (reads : ℕ → Option Errno) (load : Option Errno) (w : Write) (dir : ℕ)
    (name : List ℕ) (t : Tree)
    → IsValid others dir t
    → Returns
        (λ (r : Tree × Result (Unit {0})). RemoveResult dir name t r × IsValid others dir r.0)
        (sfs_remove reads load w dir name t)
unfolding sfs_remove remove_found remove_slot
sfs_remove_lem others reads load w dir name t v =
    let (r, run, result) =
      Returns-inv (LookResult reads load name (t.slots dir)) (sfs_lookonce reads load name dir t)
        (sfs_lookonce_lem others reads load name dir t v) in
    rw run (found r result)
  where
    unlinked :
        (ino slot : ℕ) (r : List Slot × Result (Unit {0}))
        → ino ≡ lookup (t.slots dir) name
        → ino ≡ (get_or (t.slots dir) slot empty).ino
        → Names (t.slots dir) slot name
        → t.kind ino ≢ type_dir
        → UnlinkResult (t.slots dir) slot r
        → Returns
            (λ (r : Tree × Result (Unit {0})). RemoveResult dir name t r × IsValid others dir r.0)
            (remove_slot dir ino t r)
    unlinked ino slot (d, failure e) e1 e2 names file e3 =
        let s : Same (t.slots dir) d = rw e3 (Same-refl (t.slots dir) v.distinct) in
        (Kept-Same dir t d s, Same-IsValid others dir t d v s)
    unlinked ino slot (d, success u) e1 e2 names file r =
        let positive : 0 < ino = omega (arith, e2, names.live) in
        let counts : (i : ℕ) → 0 < i → count i d + one (ino == i) ≡ count i (t.slots dir) =
          λ i h. ap (λ (m : ℕ). count i d + one (m == i)) e2 ∙ r.counts i h in
        let own : one (ino == ino) ≡ 1 = ap one (eq→== ino ino refl) in
        let some_links : 0 < t.linkcount ino =
          omega (arith, v.links ino positive, counts ino positive, own) in
        rw (lt→ltb 0 (t.linkcount ino) some_links) (
          record {
            was = omega (arith, positive, e1);
            file = λ z. file (ap t.kind e1 ∙ z);
            names = λ n.
                ap (λ (l : List Slot). lookup l n) (set_at_self t.slots dir d)
                ∙ r.names n
                ∙ ap (λ (m : List ℕ). renamed m 0 (lookup (t.slots dir)) n) names.named;
            one_less = rw (← e1) (less some_links);
            others = λ i ne.
                set_at_ne t.linkcount ino i ((t.linkcount ino + 2 ^ 16 - 1) % 2 ^ 16)
                  (λ z. ne (sym e1 ∙ z));
          },
          fewer-IsValid others dir ino t d v r.distinct positive counts,
        )
      where
        less :
            0 < t.linkcount ino
            → suc ((fewer_links ino (set_slots dir d t)).linkcount ino) ≡ t.linkcount ino
        less h = rw (eq→== ino ino refl) (omega (arith, h, v.words ino))

    found :
        (r : Result (ℕ × ℕ))
        → LookResult reads load name (t.slots dir) r
        → Returns
            (λ (r : Tree × Result (Unit {0})). RemoveResult dir name t r × IsValid others dir r.0)
            (remove_found w dir t r)
    found (failure e) h = (record { names = λ n. refl; counts = λ i. refl }, v)
    found (success (ino, slot)) (e1, e2, names) = elim (Bool-cases (t.kind ino == type_dir)) [
      | inl z ↦ rw z (record { names = λ n. refl; counts = λ i. refl }, v)
      | inr z ↦ rw z (
          unlinked ino slot (sfs_dir_unlink w slot (t.slots dir)) e1 e2 names (λ e. ground arith)
            (sfs_dir_unlink_lem w slot (t.slots dir) v.distinct names.live))
    ]
