-- ===== src/Directory/Finding.antt =====
-- `sfs_dir_findname` of a3/src/kern/fs/sfs/sfs_vnode.c.
use csc.Base.{
  ℕ, ◌+◌, ◌<◌, ◌≡◌, sym, ap, ◌∙◌, Option, none, some, List, arith, inl, inr, ◌⊎◌, get_or, length,
  Returns, Returns-inv, Result, success, failure, Errno, enoent,
}
use csc.Directory.{Slot, empty, Search, find_from, no_search, sfs_dir_findname}
use csc.Directory.Names.{lookup, Distinct}
use csc.Directory.Scan.{Names, Spare, Scanned, find_from_lem}

-- What `sfs_dir_findname` promises: the inode and the slot of a name; or ENOENT if no slot in use has
-- the name, with a free slot if it came by one; or the error of a read.
abbrev pub FindResult :
    (ℕ → Option Errno) → List ℕ → List Slot → Search × Result (Unit {0}) → Type 0
FindResult reads name d (a, success u) = (a.ino ≡ lookup d name) × Names d a.slot name
FindResult reads name d (a, failure e) =
    ((e ≡ enoent)
      × (lookup d name ≡ 0)
      × ((a.emptyslot ≡ none)
          ⊎ ((k : ℕ) × (a.emptyslot ≡ some k) × (k < length d) × ((get_or d k empty).ino ≡ 0))))
    ⊎ ((j : ℕ) × (reads j ≡ some e))

-- In a directory where no two slots in use have the same name `sfs_dir_findname` returns: the inode
-- and the slot of the name; or ENOENT, if no slot in use has it, with a free slot if it came by one;
-- or the error of a read that failed.
pub sfs_dir_findname_lem :
    (reads : ℕ → Option Errno) (name : List ℕ) (d : List Slot)
    → Distinct d
    → Returns (FindResult reads name d) (sfs_dir_findname reads name d)
unfolding sfs_dir_findname
sfs_dir_findname_lem reads name d v =
    let (r, run, result) =
      Returns-inv (Scanned reads name d 0 no_search) (find_from reads name d 0 no_search)
        (find_from_lem reads name d 0 no_search v (λ f. absurd (ground (arith, f)))) in
    rw run (whole r result)
  where
    spare :
        (a : Search)
        → Spare d 0 no_search a
        → (a.emptyslot ≡ none)
          ⊎ ((k : ℕ) × (a.emptyslot ≡ some k) × (k < length d) × ((get_or d k empty).ino ≡ 0))
    spare a (inl e) = inl e
    spare a (inr (k, at, low, free)) =
        let same_k : 0 + k ≡ k = omega arith in inr (k, at ∙ ap some same_k, low, free)

    whole :
        (r : Search × Result (Unit {0}))
        → Scanned reads name d 0 no_search r
        → FindResult reads name d r
    whole (a, success u) (f, inl (absent, f', n, k), e) = absurd (ground (arith, f, f'))
    whole (a, success u) (f, inr (f', n, (k, at, names)), e) =
        let here : a.slot ≡ k = omega (arith, at) in (n, rw here names)
    whole (a, failure e) (inr (j, at)) =
        let here : 0 + j ≡ j = omega arith in inr (j, ap reads (sym here) ∙ at)
    whole (a, failure e) (inl (c, f, inl (absent, f', n, k), e')) = inl (c, absent, spare a e')
    whole (a, failure e) (inl (c, f, inr (f', n, k), e')) = absurd (ground (arith, f, f'))
