-- ===== src/Directory/Linking.antt =====
-- `sfs_dir_link` and `sfs_dir_unlink` of a3/src/kern/fs/sfs/sfs_vnode.c.
use csc.Base.{
  ℕ, zero, suc, ◌+◌, ◌<◌, ◌≡◌, refl, ap, ◌∙◌, ◌≢◌, Bool, true, false, Option, none, some, List, [],
  ◌∷◌, ltb, ◌==◌, ne→==, if◌then◌else◌, arith, inl, inr, ◌⊎◌, get_or, length, Returns, Returns-inv,
  Result, success, failure, Errno, enoent, enametoolong,
}
use csc.Directory.{
  Slot, empty, put, Search, Write, done, refused, lost, sfs_writedir, namelen, free_slot, place,
  link_found, is_enoent, sfs_dir_link, sfs_dir_findname,
}
use csc.Directory.Names.{lookup, Distinct, renamed, put-lookup, put-Distinct}
use csc.Directory.Counts.{one, count, put-count, Same, Same-refl, put-blank}
use csc.Directory.Finding.{FindResult, sfs_dir_findname_lem}

-- A name that was not there is that of an inode.
pub record Added (name : List ℕ) (ino : ℕ) (d : List Slot) (slot : ℕ) (d' : List Slot)
    : Type 0 where
  pub absent : lookup d name ≡ 0
  pub short : length name < namelen
  pub was_free : (get_or d slot empty).ino ≡ 0
  pub distinct : Distinct d'
  pub names : (n : List ℕ) → lookup d' n ≡ renamed name ino (lookup d) n
  pub counts : (i : ℕ) → 0 < i → count i d' ≡ count i d + one (ino == i)
  pub here : get_or d' slot empty ≡ record { ino = ino; name = name }
  pub others :
      (k : ℕ) → k ≢ slot → 0 < (get_or d k empty).ino → get_or d' k empty ≡ get_or d k empty

-- What `sfs_dir_link` promises.
abbrev pub LinkResult : List ℕ → ℕ → List Slot → List Slot × Result ℕ → Type 0
LinkResult name ino d (d', success slot) = Added name ino d slot d'
LinkResult name ino d (d', failure e) = Same d d'

pub get_or-put_self : (d : List Slot) (k : ℕ) (s : Slot) → get_or (put d k s) k empty ≡ s
unfolding put
get_or-put_self [] zero s = refl
get_or-put_self [] (suc k) s = get_or-put_self [] k s
get_or-put_self (x ∷ d) zero s = refl
get_or-put_self (x ∷ d) (suc k) s = get_or-put_self d k s

pub get_or-put_ne :
    (d : List Slot) (k j : ℕ) (s : Slot) → j ≢ k → get_or (put d k s) j empty ≡ get_or d j empty
unfolding put
get_or-put_ne [] zero zero s h = absurd (h refl)
get_or-put_ne [] zero (suc j) s h = refl
get_or-put_ne [] (suc k) zero s h = refl
get_or-put_ne [] (suc k) (suc j) s h = get_or-put_ne [] k j s (λ e. h (ap suc e))
get_or-put_ne (x ∷ d) zero zero s h = absurd (h refl)
get_or-put_ne (x ∷ d) zero (suc j) s h = refl
get_or-put_ne (x ∷ d) (suc k) zero s h = refl
get_or-put_ne (x ∷ d) (suc k) (suc j) s h = get_or-put_ne d k j s (λ e. h (ap suc e))

get_or-end : (d : List Slot) → (get_or d (length d) empty).ino ≡ 0
get_or-end [] = refl
get_or-end (x ∷ d) = get_or-end d

place_lem :
    (w : Write) (name : List ℕ) (ino : ℕ) (d : List Slot) (spare : Option ℕ)
    → Distinct d
    → 0 < ino
    → lookup d name ≡ 0
    → length name < namelen
    → (get_or d (free_slot d spare) empty).ino ≡ 0
    → LinkResult name ino d (place w name ino d spare)
unfolding place sfs_writedir
place_lem done name ino d spare v live absent short free =
    let s : Slot = record { ino = ino; name = name } in
    let k = free_slot d spare in
    record {
      absent = absent;
      short = short;
      was_free = free;
      distinct =
          put-Distinct d (free_slot d spare) (record { ino = ino; name = name }) v free live absent;
      names = λ n.
          put-lookup d (free_slot d spare) (record { ino = ino; name = name }) n free live absent;
      counts = λ i h. counted i h;
      here = get_or-put_self d (free_slot d spare) (record { ino = ino; name = name });
      others =
          λ j ne used. get_or-put_ne d (free_slot d spare) j (record { ino = ino; name = name }) ne;
    }
  where
    counted :
        (i : ℕ)
        → 0 < i
        → count i (put d (free_slot d spare) (record { ino = ino; name = name }))
          ≡ count i d + one (ino == i)
    counted i h =
        let c = put-count d (free_slot d spare) i (record { ino = ino; name = name }) h in
        let z : (get_or d (free_slot d spare) empty).ino == i ≡ false =
          ne→== (get_or d (free_slot d spare) empty).ino i (λ e. omega (arith, e, free, h)) in
        omega (arith, c, ap one z)
place_lem (refused e) name ino d spare v live absent short free = Same-refl d v
place_lem (lost e) name ino d spare v live absent short free =
    put-blank d (free_slot d spare) (get_or d (free_slot d spare) empty) free free v

other : (e : Errno) → e ≢ enoent → is_enoent e ≡ false
unfolding is_enoent
other enoent h = absurd (h refl)
other e h = refl

-- Linking a name to an inode in a directory without duplicates returns. Either the name was not
-- there and is not too long: it is the inode's now, all other names are as before, and the inode has one entry more;
-- or there is an error, and all names and all numbers of entries are as before. The directory has no
-- duplicates again.
pub sfs_dir_link_lem :
    (reads : ℕ → Option Errno) (w : Write) (name : List ℕ) (ino : ℕ) (d : List Slot)
    → Distinct d
    → 0 < ino
    → ((j : ℕ) → reads j ≢ some enoent)
    → Returns (LinkResult name ino d) (sfs_dir_link reads w name ino d)
unfolding sfs_dir_link link_found free_slot is_enoent
sfs_dir_link_lem reads w name ino d v live device =
    let (r, run, result) =
      Returns-inv (FindResult reads name d) (sfs_dir_findname reads name d)
        (sfs_dir_findname_lem reads name d v) in
    rw run (linked r result)
  where
    free :
        (a : Search)
        → (a.emptyslot ≡ none)
          ⊎ ((k : ℕ) × (a.emptyslot ≡ some k) × (k < length d) × ((get_or d k empty).ino ≡ 0))
        → (get_or d (free_slot d a.emptyslot) empty).ino ≡ 0
    free a (inl e) = rw e (get_or-end d)
    free a (inr (k, at, low, none_there)) = rw at none_there

    named :
        (a : Search)
        → lookup d name ≡ 0
        → (get_or d (free_slot d a.emptyslot) empty).ino ≡ 0
        → (long : Bool) → ltb namelen (length name + 1) ≡ long
        → LinkResult name ino d
            (if long then (d, failure enametoolong) else place w name ino d a.emptyslot)
    named a absent spare true e = Same-refl d v
    named a absent spare false e =
        place_lem w name ino d a.emptyslot v live absent (ground arith) spare

    linked :
        (r : Search × Result (Unit {0}))
        → FindResult reads name d r
        → LinkResult name ino d (link_found w name ino d r)
    linked (a, success u) h = Same-refl d v
    linked (a, failure e) (inr (j, at)) =
        rw (other e (λ z. device j (at ∙ ap some z))) (Same-refl d v)
    linked (a, failure e) (inl (c, absent, spare)) =
        rw c (named a absent (free a spare) (ltb namelen (length name + 1)) refl)
