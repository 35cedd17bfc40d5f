-- ===== src/Directory/Unlinking.antt =====
-- `sfs_dir_unlink` of a3/src/kern/fs/sfs/sfs_vnode.c.
use csc.Base.{
  ℕ, zero, suc, ◌+◌, ◌<◌, ◌≡◌, refl, List, [], ◌∷◌, ◌==◌, false, ne→==, arith, get_or, length,
  Result, success, failure, ap,
}
use csc.Directory.{Slot, empty, Write, done, refused, lost, sfs_writedir, sfs_dir_unlink}
use csc.Directory.Names.{lookup, Distinct, renamed, drop-lookup, drop-Distinct}
use csc.Directory.Counts.{one, count, put-count, put-old}

-- The entry of a slot is gone, and no other.
pub record Removed (d : List Slot) (slot : ℕ) (d' : List Slot) : Type 0 where
  pub distinct : Distinct d'
  pub names : (n : List ℕ) → lookup d' n ≡ renamed (get_or d slot empty).name 0 (lookup d) n
  pub counts : (i : ℕ) → 0 < i → count i d' + one ((get_or d slot empty).ino == i) ≡ count i d

abbrev pub UnlinkResult : List Slot → ℕ → List Slot × Result (Unit {0}) → Type 0
UnlinkResult d slot (d', success u) = Removed d slot d'
UnlinkResult d slot (d', failure e) = d' ≡ d

live-low : (d : List Slot) (k : ℕ) → 0 < (get_or d k empty).ino → k < length d
live-low [] k h = absurd (omega (arith, h))
live-low (x ∷ d) zero h = omega arith
live-low (x ∷ d) (suc k) h = omega (arith, live-low d k h)

-- Freeing a slot in use takes its entry away, or fails and leaves the directory as it is.
pub sfs_dir_unlink_lem :
    (w : Write) (slot : ℕ) (d : List Slot)
    → Distinct d
    → 0 < (get_or d slot empty).ino
    → UnlinkResult d slot (sfs_dir_unlink w slot d)
unfolding sfs_dir_unlink sfs_writedir
sfs_dir_unlink_lem done slot d v live = record {
  distinct = drop-Distinct d slot v live;
  names = λ n. drop-lookup d slot n v live;
  counts = λ i h.
      let c = put-count d slot i empty h in
      let z : 0 == i ≡ false = ne→== 0 i (λ e. omega (arith, e, h)) in omega (arith, c, ap one z);
}
sfs_dir_unlink_lem (refused e) slot d v live = refl
sfs_dir_unlink_lem (lost e) slot d v live = put-old d slot (live-low d slot live)
