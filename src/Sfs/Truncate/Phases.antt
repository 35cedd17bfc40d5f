-- ===== src/Sfs/Truncate/Phases.antt =====
-- The two phases of `sfs_dotruncate` of a3/src/kern/fs/sfs/sfs_vnode.c.
use csc.Base.{
  ℕ, ◌+◌, ◌-◌, ◌≤◌, ◌<◌, ◌≡◌, refl, sym, ap, ◌∙◌, Bool, true, false, ◌&&◌, ◌||◌, List, ltb, leb,
  ltb→lt, ◌==◌, ==→eq, if◌then◌else◌, arith, Bool-cases, inl, inr, ◌⊎◌, length, get_or, Returns,
  Returns-inv,
}
use csc.Sfs.{Volume, Vnode, ndirect}
use csc.Sfs.Space.{in_use}
use csc.Sfs.Map.{
  FileOk, IndexOk, block_of, max_blocks, block_of-direct, block_of-index, block_of-none,
}
use csc.Sfs.Truncate.{discard, truncate_direct}
use csc.Sfs.Truncate.Discard.{Discarded, discard_lem}
use csc.Sfs.Truncate.Shrink.{shrunk-FileOk, Part, Part-Blocks, left_used, part_in}

-- The map past the direct blocks depends on the indirect block alone.
pub far_same :
    (s s' : Vnode) (k : ℕ)
    → ndirect ≤ k
    → s'.inode.indirect ≡ s.inode.indirect
    → s'.volume.disk ≡ s.volume.disk
    → block_of s' k ≡ block_of s k
far_same s s' k far e e' = elim (Bool-cases (s.inode.indirect == 0)) [
  | inl z ↦
      let none = ==→eq s.inode.indirect 0 z in
      block_of-none s' k far (e ∙ none) ∙ sym (block_of-none s k far none)
  | inr z ↦
      let positive : 0 < s.inode.indirect = ground arith in
      block_of-index s' k far (omega (arith, positive, e))
      ∙ ap (λ (i : ℕ). get_or (s'.volume.disk i) (k - ndirect) 0) e
      ∙ ap (λ (d : ℕ → List ℕ). get_or (d s.inode.indirect) (k - ndirect) 0) e'
      ∙ sym (block_of-index s k far positive)
]

-- What the loop over the direct blocks leaves.
pub record DirectCut (blocklen : ℕ) (s s1 : Vnode) : Type 0 where
  pub file : FileOk s1
  pub same_size : s1.volume.nblocks ≡ s.volume.nblocks
  pub same_index : s1.inode.indirect ≡ s.inode.indirect
  pub near : (k : ℕ) → k < ndirect → block_of s1 k ≡ (if leb blocklen k then 0 else block_of s k)
  pub far : (k : ℕ) → ndirect ≤ k → block_of s1 k ≡ block_of s k
  pub freed :
      (k : ℕ)
      → k < ndirect
      → leb blocklen k ≡ true
      → 0 < block_of s k
      → in_use s1.volume (block_of s k) ≡ false

direct_Part : (s : Vnode) → FileOk s → Part s 0 s.inode.direct
direct_Part s h = record {
  fits = omega (arith, h.directs);
  is = λ j lt.
      let same_j : 0 + j ≡ j = omega arith in
      sym (block_of-direct s j (omega (arith, lt, h.directs))) ∙ ap (block_of s) (sym same_j);
}

-- The indirect block is not one of those that the loop frees.
pub index_kept :
    (past : ℕ → Bool) (s : Vnode) (first : ℕ) (l : List ℕ) (r : List ℕ × Bool × Volume)
    → FileOk s
    → Part s first l
    → Discarded past 0 l s.volume r
    → 0 < s.inode.indirect
    → in_use s.volume s.inode.indirect ≡ true
    → in_use r.2 s.inode.indirect ≡ true
index_kept past s first l r h part d positive used =
    d.kept s.inode.indirect (λ j e p same_b.
      let inside = part_in s first l j p in
      h.not_index (first + j) (omega (arith, part.fits, inside))
        (omega (arith, part.is j inside, p)) (sym (part.is j inside) ∙ same_b))
    ∙ used

pub truncate_direct_lem :
    (blocklen : ℕ) (s : Vnode)
    → FileOk s
    → Returns (DirectCut blocklen s) (truncate_direct blocklen s)
unfolding truncate_direct
truncate_direct_lem blocklen s h =
    let part = direct_Part s h in
    let (r, run, d) =
      Returns-inv (Discarded (leb blocklen) 0 s.inode.direct s.volume)
        (discard (leb blocklen) 0 s.inode.direct s.volume)
        (discard_lem (leb blocklen) 0 s.inode.direct s.volume h.volume
          (Part-Blocks s 0 s.inode.direct h part)) in
    rw run (cut r d)
  where
    after : List ℕ × Bool × Volume → Vnode
    after (l, c, v) = record {
      volume = v;
      inode = record (s.inode) { direct = l };
      dirty = s.dirty || c;
    }

    near :
        (r : List ℕ × Bool × Volume)
        → Discarded (leb blocklen) 0 s.inode.direct s.volume r
        → (k : ℕ) → k < ndirect
        → block_of (after r) k ≡ (if leb blocklen k then 0 else block_of s k)
    near r d k lt =
        let same_k : 0 + k ≡ k = omega arith in
        block_of-direct (after r) k lt
        ∙ d.left k
        ∙ ap (λ (j : ℕ). if leb blocklen j then 0 else get_or s.inode.direct k 0) same_k
        ∙ ap (λ (x : ℕ). if leb blocklen k then 0 else x) (sym (block_of-direct s k lt))

    index :
        (r : List ℕ × Bool × Volume)
        → Discarded (leb blocklen) 0 s.inode.direct s.volume r
        → IndexOk s
        → IndexOk (after r)
    index r d (inl none) = inl none
    index r d (inr (positive, used, size)) = inr (
      positive,
      index_kept (leb blocklen) s 0 s.inode.direct r h (direct_Part s h) d positive used,
      ap (λ (f : ℕ → List ℕ). length (f s.inode.indirect)) d.same_disk ∙ size,
    )

    left :
        (r : List ℕ × Bool × Volume)
        → Discarded (leb blocklen) 0 s.inode.direct s.volume r
        → (k : ℕ) → k < max_blocks
        → (block_of (after r) k ≡ 0)
          ⊎ ((block_of (after r) k ≡ block_of s k)
              × (0 < block_of s k → in_use r.2 (block_of s k) ≡ true))
    left r d k lt = elim (Bool-cases (ltb k ndirect && leb blocklen k)) [
      | inl e ↦
          let low : k < ndirect = ground arith in
          let out : leb blocklen k ≡ true = ground arith in
          inl (near r d k low ∙ ap (λ (b : Bool). if b then 0 else block_of s k) out)
      | inr e ↦ inr (
        same_block (Bool-cases (ltb k ndirect)) e,
        λ p.
            left_used (leb blocklen) s 0 s.inode.direct r k h (direct_Part s h) d lt
              (λ j inside place.
                let same_j : j ≡ k = omega (arith, place) in
                let low : k < ndirect = omega (arith, same_j, inside, h.directs) in
                ap (leb blocklen) same_j ∙ within low e)
              p,
      )
    ]
      where
        within : k < ndirect → (ltb k ndirect && leb blocklen k) ≡ false → leb blocklen k ≡ false
        within low e = ground arith

        same_block :
            (ltb k ndirect ≡ true) ⊎ (ltb k ndirect ≡ false)
            → (ltb k ndirect && leb blocklen k) ≡ false
            → block_of (after r) k ≡ block_of s k
        same_block (inl z) e =
            let low = ltb→lt k ndirect z in
            near r d k low ∙ ap (λ (b : Bool). if b then 0 else block_of s k) (within low e)
        same_block (inr z) e = far_same s (after r) k (ground arith) refl d.same_disk

    cut :
        (r : List ℕ × Bool × Volume)
        → Discarded (leb blocklen) 0 s.inode.direct s.volume r
        → DirectCut blocklen s (after r)
    cut r d = record {
      file =
          shrunk-FileOk s (after r) h d.valid d.same_size (d.same_length ∙ h.directs)
            (index r d h.index) (inl refl) (λ k lt. left r d k lt);
      same_size = d.same_size;
      same_index = refl;
      near = near r d;
      far = λ k far. far_same s (after r) k far refl d.same_disk;
      freed = λ k lt e p.
          let here : 0 + k ≡ k = omega arith in
          let at = block_of-direct s k lt in
          ap (in_use r.2) at ∙ d.freed k (ap (leb blocklen) here ∙ e) (omega (arith, at, p));
    }
