-- ===== src/Sfs/Lookup.antt =====
-- `sfs_bmap` of a3/src/kern/fs/sfs/sfs_vnode.c, all of it.
use csc.Base.{
  ℕ, ◌+◌, ◌-◌, ◌/◌, ◌%◌, ◌≤◌, ◌<◌, ◌≡◌, refl, sym, ap, ◌∙◌, ◌≢◌, Bool, true, false, List, ltb,
  lt→ltb, ltb→lt, ◌==◌, eq→==, ==→eq, if◌then◌else◌, arith, Bool-cases, inl, inr, ◌⊎◌, length,
  length-replicate, get_or, get_or-replicate, ok, ◌>>=◌, Returns, Returns-inv, Result, success,
  failure, einval, enomem, eio,
}
use csc.Sfs.{
  Volume, Vnode, Answers, ndirect, dbperidb, zeros, bmap_index, indirect_new, bmap_indirect,
  sfs_balloc, sfs_bmap,
}
use csc.Sfs.Space.{in_use, Grows, Taken, BallocResult, sfs_balloc_lem}
use csc.Sfs.Map.{
  block_of, IndexOk, FileOk, max_blocks, used_ne, block_of-direct, block_of-index, block_of-none,
  on_volume-block_of, same_map-FileOk,
}
use csc.Sfs.Bmap.{Keeps, Source, BmapResult, Keeps-refl, Keeps-Grows, bmap_direct_lem}
use csc.Sfs.Index.{HasIndex, bmap_index_lem}

-- The file gets an empty indirect block, `n`.
abbrev with_index : ℕ → Volume → Vnode → Vnode
with_index n v s = record { volume = v; inode = record (s.inode) { indirect = n }; dirty = true }

with_index-block_of :
    (n : ℕ) (v : Volume) (s : Vnode) (k : ℕ)
    → s.inode.indirect ≡ 0
    → 0 < n
    → v.disk n ≡ zeros
    → block_of (with_index n v s) k ≡ block_of s k
with_index-block_of n v s k none positive cleared = elim (Bool-cases (ltb k ndirect)) [
  | inl e ↦
      let low = ltb→lt k ndirect e in
      block_of-direct (with_index n v s) k low ∙ sym (block_of-direct s k low)
  | inr e ↦
      let out : ndirect ≤ k = ground arith in
      block_of-index (with_index n v s) k out positive
      ∙ ap (λ (l : List ℕ). get_or l (k - ndirect) 0) cleared
      ∙ get_or-replicate {A = ℕ} dbperidb 0 (k - ndirect)
      ∙ sym (block_of-none s k out none)
]

with_index-HasIndex :
    (n : ℕ) (v : Volume) (s : Vnode)
    → FileOk s
    → s.inode.indirect ≡ 0
    → Taken s.volume n v
    → Grows s.volume v
    → HasIndex (with_index n v s) n zeros
with_index-HasIndex n v s h none t g =
    let mine : in_use v n ≡ true = t.now_used n ∙ rw (eq→== n n refl) refl in
    let size : length zeros ≡ dbperidb = length-replicate {A = ℕ} dbperidb 0 in
    record {
      file =
          same_map-FileOk s (with_index n v s) h g h.directs
            (inr (t.positive, mine, ap length t.cleared ∙ size))
            (λ k lt. with_index-block_of n v s k none t.positive t.cleared)
            (λ k lt positive e. fresh k (h.mapped k lt) positive (sym e));
      named = refl;
      positive = t.positive;
      used = mine;
      holds = t.cleared;
      size = size;
    }
  where
    fresh :
        (k : ℕ)
        → (block_of s k ≡ 0)
          ⊎ ((block_of s k < s.volume.nblocks) × (in_use s.volume (block_of s k) ≡ true))
        → 0 < block_of s k
        → n ≢ block_of s k
    fresh k (inl empty) positive e = absurd (omega arith)
    fresh k (inr (lt, used)) positive e = used_ne s.volume n (block_of s k) t.was_free used e

-- What is so of the call on the file with the empty indirect block is so of the call on the file.
through_index :
    (doalloc : Bool) (k n : ℕ) (v : Volume) (s : Vnode) (r : Vnode × Result ℕ)
    → k < max_blocks
    → s.inode.indirect ≡ 0
    → Taken s.volume n v
    → Grows s.volume v
    → BmapResult doalloc k (with_index n v s) r
    → BmapResult doalloc k s r
through_index doalloc k n v s (s', r) low none t g = result r
  where
    same : (j : ℕ) → block_of (with_index n v s) j ≡ block_of s j
    same j = with_index-block_of n v s j none t.positive t.cleared

    keeps : Keeps (with_index n v s) s' → Keeps s s'
    keeps kept = record {
      file = kept.file;
      still = λ i u. kept.still i (g.still i u);
      contents = λ i u ne.
          kept.contents i (g.still i u) (λ z. used_ne s.volume n i t.was_free u (sym z))
          ∙ g.kept i u;
    }

    still_free : (b : ℕ) → in_use v b ≡ false → in_use s.volume b ≡ false
    still_free b e = elim (Bool-cases (in_use s.volume b)) [
      | inl u ↦ let used = g.still b u in absurd (ground arith)
      | inr u ↦ u
    ]

    source : (b : ℕ) → Source doalloc k (with_index n v s) b → Source doalloc k s b
    source b (inl (e, p)) = inl (e ∙ same k, p)
    source b (inr (d, e, p, u)) = inr (d, sym (same k) ∙ e, p, still_free b u)

    result :
        (r : Result ℕ)
        → BmapResult doalloc k (with_index n v s) (s', r)
        → BmapResult doalloc k s (s', r)
    result (success b) (now, from, others, kept) =
        (now, source b from, λ j lt ne. others j lt ne ∙ same j, keeps kept)
    result (failure e) (others, kept) = (λ j lt. others j lt ∙ same j, keeps kept)

indirect_new_lem :
    (a : Answers) (o : ℕ) (s : Vnode) (v : Volume) (r : Result ℕ)
    → FileOk s
    → o < dbperidb
    → s.inode.indirect ≡ 0
    → BallocResult s.volume (v, r)
    → Returns (BmapResult true (ndirect + o) s) (indirect_new a true o s v r)
unfolding indirect_new
indirect_new_lem a o s v (failure e) h low none (g, code) =
    (λ j lt. on_volume-block_of s v j h g, Keeps-Grows s v h g)
indirect_new_lem a o s v (success n) h low none (t, g) =
    let s1 = with_index n v s in
    let (r, run, result) =
      Returns-inv (BmapResult true (ndirect + o) (with_index n v s))
        (bmap_index a true n zeros o (with_index n v s))
        (bmap_index_lem a true n o zeros (with_index n v s) (with_index-HasIndex n v s h none t g)
          low) in
    rw run (through_index true (ndirect + o) n v s r (omega arith) none t g result)

bmap_indirect_lem :
    (a : Answers) (doalloc : Bool) (o : ℕ) (s : Vnode)
    → FileOk s
    → o < dbperidb
    → Returns (BmapResult doalloc (ndirect + o) s) (bmap_indirect a doalloc o s)
unfolding bmap_indirect
bmap_indirect_lem a doalloc o s h low = elim (Bool-cases (s.inode.indirect == 0)) [
  | inl e ↦ rw e (without doalloc (==→eq s.inode.indirect 0 e))
  | inr e ↦ rw e (loaded a.read_index h.index (ground arith))
]
  where
    without :
        (d : Bool)
        → s.inode.indirect ≡ 0
        → Returns (BmapResult d (ndirect + o) s) (
            if d
            then (sfs_balloc a.clear_index s.volume >>= λ (v, r). indirect_new a d o s v r)
            else ok (s, success 0))
    without false none =
        let empty = block_of-none s (ndirect + o) (omega arith) none in
        (empty, inl (sym empty, inr refl), λ j lt ne. refl, Keeps-refl s h)
    without true none =
        let (r, run, result) =
          Returns-inv (BallocResult s.volume) (sfs_balloc a.clear_index s.volume)
            (sfs_balloc_lem a.clear_index s.volume h.volume) in
        rw run (indirect_new_lem a o s r.0 r.1 h low none result)

    loaded :
        (io : Bool)
        → IndexOk s
        → 0 < s.inode.indirect
        → Returns (BmapResult doalloc (ndirect + o) s) (
            if io
            then bmap_index a doalloc s.inode.indirect (s.volume.disk s.inode.indirect) o s
            else ok (s, failure eio))
    loaded io (inl none) positive = absurd (omega arith)
    loaded false (inr (p, used, size)) positive = (λ j lt. refl, Keeps-refl s h)
    loaded true (inr (p, used, size)) positive =
        bmap_index_lem a doalloc s.inode.indirect o (s.volume.disk s.inode.indirect) s
          (record {
            file = h;
            named = refl;
            positive = positive;
            used = used;
            holds = refl;
            size = size;
          })
          low

-- On a file whose blocks are in use and apart, `sfs_bmap` of a block that a file can have returns,
-- whatever the device and the memory answer, and the file's blocks are in use and apart again. Its
-- result is the disk block that the file had there, or, if it was asked to get one and there was none,
-- one that was free and is now the file's; the map of all other blocks is as it was. On an error all
-- of the map is. Blocks in use stay so, with their contents but for the file's indirect block.
pub sfs_bmap_lem :
    (a : Answers) (doalloc : Bool) (k : ℕ) (s : Vnode)
    → FileOk s
    → k < max_blocks
    → Returns (BmapResult doalloc k s) (sfs_bmap a doalloc k s)
unfolding sfs_bmap
sfs_bmap_lem a doalloc k s h low = elim (Bool-cases (ltb k ndirect)) [
  | inl e ↦ rw e (bmap_direct_lem a doalloc k s h (ltb→lt k ndirect e))
  | inr e ↦
      let inside : (k - ndirect) / dbperidb ≡ 0 = ground arith in
      let off : (k - ndirect) % dbperidb ≡ k - ndirect = ground arith in
      let back : ndirect + (k - ndirect) ≡ k = ground arith in
      rw (e, inside, off)
        (memory a.mem (rw back at (bmap_indirect_lem a doalloc (k - ndirect) s h (ground arith))))
]
  where
    memory :
        (m : Bool)
        → Returns (BmapResult doalloc k s) (bmap_indirect a doalloc (k - ndirect) s)
        → Returns
            (BmapResult doalloc k s)
            (if m then bmap_indirect a doalloc (k - ndirect) s else ok (s, failure enomem))
    memory true r = r
    memory false r = (λ j lt. refl, Keeps-refl s h)

-- Past the last block that a file can have, `sfs_bmap` returns EINVAL, and changes nothing.
pub sfs_bmap_end :
    (a : Answers) (doalloc : Bool) (k : ℕ) (s : Vnode)
    → max_blocks ≤ k
    → sfs_bmap a doalloc k s ≡ ok (s, failure einval)
unfolding sfs_bmap
sfs_bmap_end a doalloc k s h =
    let past : ltb k ndirect ≡ false = ground arith in
    let out : ltb 0 ((k - ndirect) / dbperidb) ≡ true =
      lt→ltb 0 ((k - ndirect) / dbperidb) (omega arith) in
    rw (past, out)
