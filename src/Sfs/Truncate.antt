-- ===== src/Sfs/Truncate.antt =====
-- `sfs_dotruncate` of a3/src/kern/fs/sfs/sfs_vnode.c. `mem` says whether its `kmalloc` succeeds, which it
-- does not test.
pub mod Discard
pub mod Shrink
pub mod Phases
pub mod Index
pub mod Whole
use csc.Base.{
  ℕ, ◌+◌, ◌-◌, ◌/◌, Bool, true, false, not, ◌&&◌, ◌||◌, List, [], ◌∷◌, ltb, leb, ◌==◌, set_at,
  if◌then◌else◌, Run, ok, panic, ◌>>=◌, ◌>>◌, assert, Result, success, failure, eio,
}
use csc.Sfs.{Volume, Vnode, Inode, ndirect, dbperidb, sfs_bfree}

-- A loop over block numbers, from index `i` on: those that are past the new end are freed. Besides
-- the numbers that are left, the result says whether there was one.
pub discard : (ℕ → Bool) → ℕ → List ℕ → Volume → Run (List ℕ × Bool × Volume)
discard past i [] v = ok ([], false, v)
discard past i (block ∷ rest) v =
    let later = discard past (i + 1) rest in
    if past i && not (block == 0)
    then (do v' ← sfs_bfree block v; (l, cut, v'') ← later v'; ok (0 ∷ l, true, v''))
    else (do (l, cut, v') ← later v; ok (block ∷ l, cut, v'))

-- `hasnonzero`
pub any_block : List ℕ → Bool
any_block [] = false
any_block (block ∷ rest) = if block == 0 then any_block rest else true

pub record TruncateAnswers : Type 0 where
  pub mem : Bool
  pub read_index : Bool
  pub write_index : Bool

-- The direct blocks.
pub truncate_direct : ℕ → Vnode → Run Vnode
truncate_direct blocklen s = do
  (l, cut, v) ← discard (leb blocklen) 0 s.inode.direct s.volume
  ok (record { volume = v; inode = record (s.inode) { direct = l }; dirty = s.dirty || cut })

-- The indirect block after the loop over it, with the buffer `words`, which was changed or not.
pub index_cut : Bool → ℕ → List ℕ → Bool → Vnode → Run (Vnode × Bool)
index_cut io idblock words iddirty s =
    let written = record s {
      volume = record (s.volume) { disk = set_at s.volume.disk idblock words };
    } in
    if any_block words
    then (if iddirty then (if io then ok (written, true) else ok (s, false)) else ok (s, true))
    else (do
      v ← sfs_bfree idblock s.volume
      ok (record { volume = v; inode = record (s.inode) { indirect = 0 }; dirty = true }, true))

-- The indirect block. The result says whether all went well.
pub truncate_index : TruncateAnswers → ℕ → Vnode → Run (Vnode × Bool)
truncate_index a blocklen s =
    let idblock = s.inode.indirect in
    if ltb blocklen (ndirect + dbperidb - 1) && not (idblock == 0)
    then (do
      assert a.mem
      if a.read_index
          then (do
            (words, cut, v) ←
                discard (λ j. ltb blocklen (ndirect + j)) 0 (s.volume.disk idblock) s.volume
            index_cut a.write_index idblock words cut (record s { volume = v }))
          else ok (s, false))
    else ok (s, true)

-- The size is set only if all went well.
pub truncated : ℕ → Vnode × Bool → Vnode × Result (Unit {0})
truncated len (s, false) = (s, failure eio)
truncated len (s, true) =
    (record s { inode = record (s.inode) { size = len }; dirty = true }, success tt)

pub sfs_dotruncate : TruncateAnswers → ℕ → Vnode → Run (Vnode × Result (Unit {0}))
sfs_dotruncate a len s = do
  s1 ← truncate_direct ((len + 511) / 512) s
  r ← truncate_index a ((len + 511) / 512) s1
  ok (truncated len r)
