-- ===== src/Sfs.antt =====
-- a3/src/kern/fs/sfs/sfs_vnode.c, the allocation of disk blocks and the map from the blocks of a file
-- to those of the disk. Every function runs under the lock of the file, so each is one step. A block
-- of the disk is the list of its 128 words. The device and `kmalloc` may fail: flags say whether each
-- call does not; a write that fails leaves the disk as it is.
pub mod Space
pub mod Map
pub mod Bmap
pub mod Index
pub mod Lookup
pub mod Truncate
mod Tests
use csc.Base.{
  ℕ, zero, suc, ◌+◌, ◌-◌, ◌/◌, ◌%◌, Bool, true, false, not, ◌&&◌, Option, none, some, List, ltb,
  leb, ◌==◌, set_at, if◌then◌else◌, get_elem?, set, replicate, Run, ok, panic, ◌>>=◌, ◌>>◌, assert,
  Result, success, failure, einval, enomem, eio,
}
use csc.Bitmap.{Bitmap, bitmap_alloc, bitmap_unmark, bitmap_isset}

abbrev pub ndirect : ℕ
ndirect = 15

abbrev pub dbperidb : ℕ
dbperidb = 128

-- `struct sfs_inode`
pub record Inode : Type 0 where
  pub size : ℕ
  pub kind : ℕ
  pub linkcount : ℕ
  pub direct : List ℕ
  pub indirect : ℕ

-- What a file system has in memory of its disk, and the disk.
pub record Volume : Type 0 where
  pub freemap : Bitmap
  pub freemapdirty : Bool
  pub nblocks : ℕ
  pub disk : ℕ → List ℕ

-- `struct sfs_vnode`, with its file system.
pub record Vnode : Type 0 where
  pub volume : Volume
  pub inode : Inode
  pub dirty : Bool

abbrev pub zeros : List ℕ
zeros = replicate dbperidb 0

-- `sfs_clearblock`, and with `io` its result.
pub clear_block : Bool → ℕ → Volume → Volume × Result ℕ
clear_block io block v =
    if io then (record v { disk = set_at v.disk block zeros }, success block) else (v, failure eio)

-- `sfs_balloc` after `bitmap_alloc`.
pub balloc_found : Bool → Volume → Bitmap → Result ℕ → Run (Volume × Result ℕ)
balloc_found io v b (failure e) = ok (record v { freemap = b }, failure e)
balloc_found io v b (success block) = do
  assert (not (leb v.nblocks block))
  ok (clear_block io block (record v { freemap = b; freemapdirty = true }))

pub sfs_balloc : Bool → Volume → Run (Volume × Result ℕ)
sfs_balloc io v = do (b, r) ← bitmap_alloc v.freemap; balloc_found io v b r

pub sfs_bfree : ℕ → Volume → Run Volume
sfs_bfree block v = do
  b ← bitmap_unmark v.freemap block
  ok (record v { freemap = b; freemapdirty = true })

pub sfs_bused : ℕ → Volume → Run Bool
sfs_bused block v = do assert (not (leb v.nblocks block)); bitmap_isset v.freemap block

-- What the device and `kmalloc` answer in one call of `sfs_bmap`.
pub record Answers : Type 0 where
  pub mem : Bool
  pub clear_index : Bool
  pub read_index : Bool
  pub clear_data : Bool
  pub write_index : Bool

-- The end of `sfs_bmap`: a block that is handed back must be in use.
pub hand_back : ℕ → Vnode → Run (Vnode × Result ℕ)
hand_back block s =
    if block == 0
    then ok (s, success 0)
    else (do used ← sfs_bused block s.volume; assert used; ok (s, success block))

-- `a[i]`, of an array in memory: a fault out of range.
pub at : List ℕ → ℕ → Run ℕ
at a i = elim (get_elem? a i) [ none ↦ panic | some x ↦ ok x ]

-- A direct block: what follows `sfs_balloc`.
pub direct_new : ℕ → Vnode → Volume → Result ℕ → Run (Vnode × Result ℕ)
direct_new k s v (failure e) = ok (record s { volume = v }, failure e)
direct_new k s v (success block) = hand_back block (record {
  volume = v;
  inode = record (s.inode) { direct = set s.inode.direct k block };
  dirty = true;
})

pub bmap_direct : Answers → Bool → ℕ → Vnode → Run (Vnode × Result ℕ)
unfolding at
bmap_direct a doalloc k s = do
  block ← at s.inode.direct k
  if (block == 0) && doalloc
      then (do (v, r) ← sfs_balloc a.clear_data s.volume; direct_new k s v r)
      else hand_back block s

-- A block of the indirect block: what follows the second `sfs_balloc`, with the buffer `words`.
pub index_new : Bool → ℕ → List ℕ → ℕ → Vnode → Volume → Result ℕ → Run (Vnode × Result ℕ)
index_new io idblock words idoff s v (failure e) = ok (record s { volume = v }, failure e)
index_new io idblock words idoff s v (success block) =
    let v' = record v { disk = set_at v.disk idblock (set words idoff block) } in
    if io
    then hand_back block (record s { volume = v' })
    else ok (record s { volume = v }, failure eio)

pub bmap_index : Answers → Bool → ℕ → List ℕ → ℕ → Vnode → Run (Vnode × Result ℕ)
unfolding at
bmap_index a doalloc idblock words idoff s = do
  block ← at words idoff
  if (block == 0) && doalloc
      then (do
        (v, r) ← sfs_balloc a.clear_data s.volume
        index_new a.write_index idblock words idoff s v r)
      else hand_back block s

-- What follows the first `sfs_balloc`: the indirect block is new, and the buffer is cleared.
pub indirect_new : Answers → Bool → ℕ → Vnode → Volume → Result ℕ → Run (Vnode × Result ℕ)
indirect_new a doalloc idoff s v (failure e) = ok (record s { volume = v }, failure e)
indirect_new a doalloc idoff s v (success idblock) =
    bmap_index a doalloc idblock zeros idoff
      (record { volume = v; inode = record (s.inode) { indirect = idblock }; dirty = true })

-- A block past the direct ones, at offset `idoff` of the indirect block.
pub bmap_indirect : Answers → Bool → ℕ → Vnode → Run (Vnode × Result ℕ)
bmap_indirect a doalloc idoff s =
    let idblock = s.inode.indirect in
    if idblock == 0
    then (if doalloc
        then (do (v, r) ← sfs_balloc a.clear_index s.volume; indirect_new a doalloc idoff s v r)
        else ok (s, success 0))
    else (if a.read_index
        then bmap_index a doalloc idblock (s.volume.disk idblock) idoff s
        else ok (s, failure eio))

pub sfs_bmap : Answers → Bool → ℕ → Vnode → Run (Vnode × Result ℕ)
sfs_bmap a doalloc fileblock s =
    if ltb fileblock ndirect
    then bmap_direct a doalloc fileblock s
    else (let idnum = (fileblock - ndirect) / dbperidb in
        let idoff = (fileblock - ndirect) % dbperidb in
        if ltb 0 idnum
        then ok (s, failure einval)
        else (if a.mem then bmap_indirect a doalloc idoff s else ok (s, failure enomem)))
