-- ===== src/Directory/Failing.antt =====
-- Why `sfs_dir_link` of a3/src/kern/fs/sfs/sfs_vnode.c fails.
use csc.Base.{
  refl, ℕ, ◌+◌, ◌≤◌, ◌<◌, ◌≡◌, ap, sym, ◌∙◌, Bool, true, false, Option, some, List, ltb,
  if◌then◌else◌, arith, inl, inr, ◌⊎◌, length, Run, ok, panic, Returns, Returns-inv, Result,
  success, failure, Errno, enametoolong,
}
use csc.Directory.{
  Slot, Search, Write, done, refused, lost, sfs_writedir, namelen, place, link_found, is_enoent,
  sfs_dir_link, sfs_dir_findname,
}
use csc.Directory.Names.{lookup, Distinct, Distinct-lookup}
use csc.Directory.Scan.{Names}
use csc.Directory.Finding.{FindResult, sfs_dir_findname_lem}

-- Some read fails.
abbrev pub Fails : (ℕ → Option Errno) → Type 0
Fails reads = (j : ℕ) × (e : Errno) × (reads j ≡ some e)

-- The write fails.
abbrev pub IsFailing : Write → Type 0
IsFailing done = ⊥
IsFailing (refused e) = Unit
IsFailing (lost e) = Unit

-- The name is there, or too long, or the device fails.
abbrev pub Hindered : (ℕ → Option Errno) → Write → List ℕ → List Slot → Type 0
Hindered reads w name d = (0 < lookup d name) ⊎ (namelen ≤ length name) ⊎ Fails reads ⊎ IsFailing w

abbrev pub LinkCause :
    (ℕ → Option Errno) → Write → List ℕ → List Slot → List Slot × Result ℕ → Type 0
LinkCause reads w name d (d', success slot) = Unit
LinkCause reads w name d (d', failure e) = Hindered reads w name d

pub Returns-both {ℓ} :
    {A : Type ℓ} (P Q : A → Type 0) (r : Run A)
    → Returns P r
    → Returns Q r
    → Returns (λ a. P a × Q a) r
Returns-both P Q (ok a) p q = (p, q)
Returns-both P Q panic p q = absurd p

-- A name that was found is there.
pub Names-lookup :
    (d : List Slot) (slot : ℕ) (name : List ℕ) → Distinct d → Names d slot name → 0 < lookup d name
Names-lookup d slot name v n =
    omega (arith, n.live, ap (lookup d) (sym n.named) ∙ Distinct-lookup d slot v n.live)

place-LinkCause :
    (reads : ℕ → Option Errno) (w : Write) (name : List ℕ) (ino : ℕ) (d : List Slot)
    (spare : Option ℕ)
    → LinkCause reads w name d (place w name ino d spare)
unfolding place sfs_writedir
place-LinkCause reads done name ino d spare = tt
place-LinkCause reads (refused e) name ino d spare = inr (inr (inr tt))
place-LinkCause reads (lost e) name ino d spare = inr (inr (inr tt))

-- `sfs_dir_link` fails only if the name is there or too long, or a read or the write fails.
pub sfs_dir_link_cause :
    (reads : ℕ → Option Errno) (w : Write) (name : List ℕ) (ino : ℕ) (d : List Slot)
    → Distinct d
    → Returns (LinkCause reads w name d) (sfs_dir_link reads w name ino d)
unfolding sfs_dir_link link_found is_enoent
sfs_dir_link_cause reads w name ino d v =
    let (r, run, result) =
      Returns-inv (FindResult reads name d) (sfs_dir_findname reads name d)
        (sfs_dir_findname_lem reads name d v) in
    rw run (linked r result)
  where
    named :
        (a : Search) (long : Bool)
        → ltb namelen (length name + 1) ≡ long
        → LinkCause reads w name d
            (if long then (d, failure enametoolong) else place w name ino d a.emptyslot)
    named a true e = inr (inl (ground arith))
    named a false e = place-LinkCause reads w name ino d a.emptyslot

    unread :
        (a : Search) (e : Errno) (b : Bool)
        → Fails reads
        → LinkCause reads w name d (
            if b
            then (if ltb namelen (length name + 1)
                then (d, failure enametoolong)
                else place w name ino d a.emptyslot)
            else (d, failure e))
    unread a e true h = named a (ltb namelen (length name + 1)) refl
    unread a e false h = inr (inr (inl h))

    linked :
        (r : Search × Result (Unit {0}))
        → FindResult reads name d r
        → LinkCause reads w name d (link_found w name ino d r)
    linked (a, success u) (is, names) = inl (Names-lookup d a.slot name v names)
    linked (a, failure e) (inr (j, at)) = unread a e (is_enoent e) (j, e, at)
    linked (a, failure e) (inl (c, absent, spare)) =
        rw c (named a (ltb namelen (length name + 1)) refl)
