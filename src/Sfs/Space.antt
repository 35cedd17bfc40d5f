-- ===== src/Sfs/Space.antt =====
-- `sfs_balloc` and `sfs_bused` of a3/src/kern/fs/sfs/sfs_vnode.c.
use csc.Base.{
  ℕ, ◌≤◌, ◌<◌, ◌≡◌, refl, ◌∙◌, ◌≢◌, Bool, true, false, ◌||◌, List, ltb, leb, ltb→lt, ◌==◌, ==→eq,
  set_at, set_at_self, set_at_ne, arith, Bool-cases, inl, inr, ok, Returns, Returns-inv, Result,
  success, failure, enospc, eio, ◌⊎◌,
}
use csc.Bitmap.{Bitmap, bitmap_alloc}
use csc.Bitmap.Laws.{bit, bitmap_isset_lem}
use csc.Bitmap.Laws
use csc.Bitmap.Alloc.{AllocResult, bitmap_alloc_lem}
use csc.Sfs.{Volume, zeros, clear_block, balloc_found, sfs_balloc, sfs_bused}

-- Whether a block of the disk is in use.
abbrev pub in_use : Volume → ℕ → Bool
in_use v block = bit v.freemap block

-- The map of free blocks is valid, covers the disk, and has the first block and those past the end of
-- the disk in use.
pub record IsValid (v : Volume) : Type 0 where
  pub map : Laws.IsValid v.freemap
  pub covers : v.nblocks ≤ v.freemap.nbits
  pub nonempty : 0 < v.nblocks
  pub first : in_use v 0 ≡ true
  pub past : (i : ℕ) → v.nblocks ≤ i → i < v.freemap.nbits → in_use v i ≡ true

-- A volume on which more blocks are in use: those that were so before have their contents still.
pub record Grows (v v' : Volume) : Type 0 where
  pub valid : IsValid v'
  pub same_size : v'.nblocks ≡ v.nblocks
  pub still : (i : ℕ) → in_use v i ≡ true → in_use v' i ≡ true
  pub kept : (i : ℕ) → in_use v i ≡ true → v'.disk i ≡ v.disk i

-- A block that was free is in use, and is cleared.
pub record Taken (v : Volume) (block : ℕ) (v' : Volume) : Type 0 where
  pub positive : 0 < block
  pub inside : block < v.nblocks
  pub was_free : in_use v block ≡ false
  pub now_used : (i : ℕ) → in_use v' i ≡ (block == i || in_use v i)
  pub cleared : v'.disk block ≡ zeros

abbrev pub BallocResult : Volume → Volume × Result ℕ → Type 0
BallocResult v (v', success block) = Taken v block v' × Grows v v'
BallocResult v (v', failure e) = Grows v v' × ((e ≡ enospc) ⊎ (e ≡ eio))

or_of : (a b : Bool) → b ≡ true → (a || b) ≡ true
or_of true b h = refl
or_of false b h = h

free_ne : (v : Volume) (n i : ℕ) → in_use v n ≡ false → in_use v i ≡ true → n ≢ i
free_ne v n i a b e = let c : in_use v i ≡ false = rw (← e) a in ground arith

leb-gt : (m n : ℕ) → n < m → leb m n ≡ false
leb-gt m n h = ground arith

-- The volume with block `n` marked, whatever the disk holds at free blocks.
marked-Grows :
    (v : Volume) (n : ℕ) (b : Bitmap) (dirty : Bool) (disk : ℕ → List ℕ)
    → IsValid v
    → Laws.IsValid b
    → (b.nbits ≡ v.freemap.nbits)
    → ((i : ℕ) → bit b i ≡ (n == i || in_use v i))
    → ((i : ℕ) → in_use v i ≡ true → disk i ≡ v.disk i)
    → Grows v (record { freemap = b; freemapdirty = dirty; nblocks = v.nblocks; disk = disk })
marked-Grows v n b dirty disk h valid size marks same = record {
  valid = record {
    map = valid;
    covers = omega (arith, h.covers, size);
    nonempty = h.nonempty;
    first = marks 0 ∙ or_of (n == 0) (in_use v 0) h.first;
    past = λ i out lt. marks i ∙ or_of (n == i) (in_use v i) (h.past i out (omega (arith, size)));
  };
  same_size = refl;
  still = λ i u. marks i ∙ or_of (n == i) (in_use v i) u;
  kept = same;
}

found_inside :
    (v : Volume) (n : ℕ) → IsValid v → n < v.freemap.nbits → in_use v n ≡ false → n < v.nblocks
found_inside v n h lt clear = elim (Bool-cases (ltb n v.nblocks)) [
  | inl e ↦ ltb→lt n v.nblocks e
  | inr e ↦ let used = h.past n (ground arith) lt in absurd (ground arith)
]

-- On a valid volume `sfs_balloc` returns: a block that was free, is in range and is not the first, and
-- is in use and cleared now; or ENOSPC or EIO. What was in use still is, with its contents.
pub sfs_balloc_lem :
    (io : Bool) (v : Volume) → IsValid v → Returns (BallocResult v) (sfs_balloc io v)
unfolding sfs_balloc balloc_found clear_block
sfs_balloc_lem io v h =
    let (r, run, result) =
      Returns-inv (AllocResult v.freemap) (bitmap_alloc v.freemap)
        (bitmap_alloc_lem v.freemap h.map) in
    rw run (found r.0 r.1 result)
  where
    found :
        (b : Bitmap) (r : Result ℕ)
        → AllocResult v.freemap (b, r)
        → Returns (BallocResult v) (balloc_found io v b r)
    found b (failure e) (code, same, full) = (
      record {
        valid = rw same (record {
          map = h.map;
          covers = h.covers;
          nonempty = h.nonempty;
          first = h.first;
          past = h.past;
        });
        same_size = refl;
        still = λ i u. rw same u;
        kept = λ i u. refl;
      },
      inl code,
    )
    found b (success n) (lt, clear, before, valid, size, marks) =
        let inside = found_inside v n h lt clear in rw (leb-gt v.nblocks n inside) (cleared io)
      where
        cleared :
            (flag : Bool)
            → BallocResult v (clear_block flag n (record v { freemap = b; freemapdirty = true }))
        cleared true = (
          record {
            positive = elim (Bool-cases (n == 0)) [
              | inl z ↦ absurd (free_ne v n 0 clear h.first (==→eq n 0 z))
              | inr z ↦ ground arith
            ];
            inside = found_inside v n h lt clear;
            was_free = clear;
            now_used = marks;
            cleared = set_at_self v.disk n zeros;
          },
          marked-Grows v n b true (set_at v.disk n zeros) h valid size marks
              (λ i u. set_at_ne v.disk n i zeros (free_ne v n i clear u)),
        )
        cleared false = (marked-Grows v n b true v.disk h valid size marks (λ i u. refl), inr refl)

-- `sfs_bused` of a block in range tells whether it is in use.
pub sfs_bused_lem :
    (block : ℕ) (v : Volume)
    → IsValid v
    → block < v.nblocks
    → sfs_bused block v ≡ ok (in_use v block)
unfolding sfs_bused
sfs_bused_lem block v h lt =
    rw (leb-gt v.nblocks block lt)
      (bitmap_isset_lem v.freemap block h.map (omega (arith, h.covers)))
