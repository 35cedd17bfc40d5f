-- ===== src/Directory/Calls/Links.antt =====
-- The link counts of the inodes of a3/src/kern/fs/sfs/sfs_vnode.c, and `sfs_lookonce`.
use csc.Base.{
  ℕ, ◌+◌, ◌^◌, ◌<◌, ◌≡◌, refl, sym, ap, ◌∙◌, false, Option, none, some, List, ◌==◌, ==→eq, ne→==,
  arith, Bool-cases, inl, inr, ◌⊎◌, get_or, set_at_self, Returns, Returns-inv, Result, success,
  failure, Errno, enoent,
}
use csc.Directory.{Slot, empty, Search, sfs_dir_findname}
use csc.Directory.Names.{lookup, Distinct, Distinct-lookup}
use csc.Directory.Counts.{one, count, Same, live-count}
use csc.Directory.Scan.{Names}
use csc.Directory.Finding.{FindResult, sfs_dir_findname_lem}
use csc.Directory.Calls.{Tree, set_slots, more_links, fewer_links, look_found, sfs_lookonce}

-- No two entries of the directory have the same name, and each inode counts its links: its entries
-- here, and the `others` that it has elsewhere.
pub record IsValid (others : ℕ → ℕ) (dir : ℕ) (t : Tree) : Type 0 where
  pub distinct : Distinct (t.slots dir)
  pub links : (i : ℕ) → 0 < i → t.linkcount i ≡ count i (t.slots dir) + others i
  pub words : (i : ℕ) → t.linkcount i < 2 ^ 16

pub IsValid-of :
    (others : ℕ → ℕ) (dir : ℕ) (t : Tree) (d : List Slot)
    → t.slots dir ≡ d
    → Distinct d
    → ((i : ℕ) → 0 < i → t.linkcount i ≡ count i d + others i)
    → ((i : ℕ) → t.linkcount i < 2 ^ 16)
    → IsValid others dir t
IsValid-of others dir t d e distinct links words = record {
  distinct = rw e distinct;
  links = λ i h. rw e (links i h);
  words = words;
}

pub Same-IsValid :
    (others : ℕ → ℕ) (dir : ℕ) (t : Tree) (d : List Slot)
    → IsValid others dir t
    → Same (t.slots dir) d
    → IsValid others dir (set_slots dir d t)
Same-IsValid others dir t d v s =
    IsValid-of others dir (set_slots dir d t) d (set_at_self t.slots dir d) s.distinct
      (λ i h. omega (arith, v.links i h, s.counts i h)) v.words

pub more-IsValid :
    (others : ℕ → ℕ) (dir n : ℕ) (t : Tree) (d : List Slot)
    → IsValid others dir t
    → Distinct d
    → ((i : ℕ) → 0 < i → count i d ≡ count i (t.slots dir) + one (n == i))
    → t.linkcount n + 1 < 2 ^ 16
    → IsValid others dir (more_links n (set_slots dir d t))
more-IsValid others dir n t d v distinct counts low =
    IsValid-of others dir (more_links n (set_slots dir d t)) d (set_at_self t.slots dir d) distinct
      (λ i h. linked i h) (λ i. word i)
  where
    linked : (i : ℕ) → 0 < i → (more_links n (set_slots dir d t)).linkcount i ≡ count i d + others i
    linked i h = elim (Bool-cases (n == i)) [
      | inl e ↦
          let same_i = ==→eq n i e in
          rw e (omega (arith, low, ap t.linkcount same_i, v.links i h, counts i h, ap one e))
      | inr e ↦ rw e (omega (arith, v.links i h, counts i h, ap one e))
    ]

    word : (i : ℕ) → (more_links n (set_slots dir d t)).linkcount i < 2 ^ 16
    word i = elim (Bool-cases (n == i)) [
      | inl e ↦ rw e (omega (arith, low))
      | inr e ↦ rw e (v.words i)
    ]

pub fewer-IsValid :
    (others : ℕ → ℕ) (dir n : ℕ) (t : Tree) (d : List Slot)
    → IsValid others dir t
    → Distinct d
    → 0 < n
    → ((i : ℕ) → 0 < i → count i d + one (n == i) ≡ count i (t.slots dir))
    → IsValid others dir (fewer_links n (set_slots dir d t))
fewer-IsValid others dir n t d v distinct positive counts =
    IsValid-of others dir (fewer_links n (set_slots dir d t)) d (set_at_self t.slots dir d) distinct
      (λ i h. linked i h) (λ i. word i)
  where
    linked :
        (i : ℕ) → 0 < i → (fewer_links n (set_slots dir d t)).linkcount i ≡ count i d + others i
    linked i h = elim (Bool-cases (n == i)) [
      | inl e ↦
          let same_i = ==→eq n i e in
          rw e (omega (arith, v.words i, ap t.linkcount same_i, v.links i h, counts i h, ap one e))
      | inr e ↦ rw e (omega (arith, v.links i h, counts i h, ap one e))
    ]

    word : (i : ℕ) → (fewer_links n (set_slots dir d t)).linkcount i < 2 ^ 16
    word i = elim (Bool-cases (n == i)) [ inl e ↦ rw e (omega arith) | inr e ↦ rw e (v.words i) ]

-- What a call that fails leaves: the names and the link counts are as before.
pub record Kept (dir : ℕ) (t t' : Tree) : Type 0 where
  pub names : (n : List ℕ) → lookup (t'.slots dir) n ≡ lookup (t.slots dir) n
  pub counts : (i : ℕ) → t'.linkcount i ≡ t.linkcount i

pub Kept-Same :
    (dir : ℕ) (t : Tree) (d : List Slot) → Same (t.slots dir) d → Kept dir t (set_slots dir d t)
Kept-Same dir t d s = record {
  names = λ n. ap (λ (l : List Slot). lookup l n) (set_at_self t.slots dir d) ∙ s.names n;
  counts = λ i. refl;
}

-- What `sfs_lookonce` promises: the inode and the slot of the name, or an error.
abbrev pub LookResult :
    (ℕ → Option Errno) → Option Errno → List ℕ → List Slot → Result (ℕ × ℕ) → Type 0
LookResult reads load name d (success (ino, slot)) =
    (ino ≡ lookup d name) × (ino ≡ (get_or d slot empty).ino) × Names d slot name
LookResult reads load name d (failure e) =
    ((e ≡ enoent) × (lookup d name ≡ 0)) ⊎ ((j : ℕ) × (reads j ≡ some e)) ⊎ (load ≡ some e)

-- On a valid directory `sfs_lookonce` returns: no inode that an entry names has a link count of 0.
pub sfs_lookonce_lem :
    (others : ℕ → ℕ) (reads : ℕ → Option Errno) (load : Option Errno) (name : List ℕ) (dir : ℕ)
    (t : Tree)
    → IsValid others dir t
    → Returns (LookResult reads load name (t.slots dir)) (sfs_lookonce reads load name dir t)
unfolding sfs_lookonce look_found
sfs_lookonce_lem others reads load name dir t v =
    let (r, run, result) =
      Returns-inv (FindResult reads name (t.slots dir)) (sfs_dir_findname reads name (t.slots dir))
        (sfs_dir_findname_lem reads name (t.slots dir) v.distinct) in
    rw run (looked load r result)
  where
    looked :
        (l : Option Errno) (r : Search × Result (Unit {0}))
        → FindResult reads name (t.slots dir) r
        → Returns (LookResult reads l name (t.slots dir)) (look_found l t r)
    looked l (a, failure e) (inl (c, absent, spare)) = inl (c, absent)
    looked l (a, failure e) (inr at) = inr (inl at)
    looked (some e) (a, success u) h = inr (inr refl)
    looked none (a, success u) (e, names) =
        let slot : Slot = get_or (t.slots dir) a.slot empty in
        let found = Distinct-lookup (t.slots dir) a.slot v.distinct names.live in
        let here : a.ino ≡ (get_or (t.slots dir) a.slot empty).ino =
          e ∙ ap (lookup (t.slots dir)) (sym names.named) ∙ found in
        let some_links = live-count (t.slots dir) a.slot names.live in
        let counted = v.links (get_or (t.slots dir) a.slot empty).ino names.live in
        let positive : t.linkcount a.ino == 0 ≡ false =
          ne→== (t.linkcount a.ino) 0
            (λ z. omega (arith, z, ap t.linkcount here, counted, some_links)) in
        rw positive (e, here, names)
