-- ===== src/Sfs/Map.antt =====
-- The map of a file of a3/src/kern/fs/sfs/sfs_vnode.c, from its blocks to those of the disk.
use csc.Base.{
  ℕ, ◌-◌, ◌≤◌, ◌<◌, ◌≡◌, refl, sym, ap, ◌∙◌, ◌≢◌, Bool, true, false, ◌||◌, ltb, lt→ltb, ◌==◌, eq→==,
  ==→eq, ne→==, if◌then◌else◌, arith, Bool-cases, inl, inr, ◌⊎◌, length, get_or,
}
use csc.Sfs.{Volume, Vnode, ndirect, dbperidb}
use csc.Sfs.Space
use csc.Sfs.Space.{in_use, Grows, Taken}

-- How many blocks a file can have.
abbrev pub max_blocks : ℕ
max_blocks = 143

-- The disk block of block `k` of the file, and 0 if it has none.
pub block_of : Vnode → ℕ → ℕ
block_of s k =
    if ltb k ndirect
    then get_or s.inode.direct k 0
    else (if s.inode.indirect == 0
        then 0
        else get_or (s.volume.disk s.inode.indirect) (k - ndirect) 0)

-- The indirect block, if there is one, is in use.
abbrev pub IndexOk : Vnode → Type 0
IndexOk s =
    (s.inode.indirect ≡ 0)
    ⊎ ((0 < s.inode.indirect)
        × (in_use s.volume s.inode.indirect ≡ true)
        × (length (s.volume.disk s.inode.indirect) ≡ dbperidb))

-- No block of the file is free, or shared with another block of the file or the indirect block.
pub record FileOk (s : Vnode) : Type 0 where
  pub volume : Space.IsValid s.volume
  pub directs : length s.inode.direct ≡ ndirect
  pub index : IndexOk s
  pub mapped :
      (k : ℕ)
      → k < max_blocks
      → (block_of s k ≡ 0)
        ⊎ ((block_of s k < s.volume.nblocks) × (in_use s.volume (block_of s k) ≡ true))
  pub apart :
      (j k : ℕ)
      → j < max_blocks
      → k < max_blocks
      → 0 < block_of s j
      → block_of s j ≡ block_of s k
      → j ≡ k
  pub not_index : (k : ℕ) → k < max_blocks → 0 < block_of s k → block_of s k ≢ s.inode.indirect

pub used_ne : (v : Volume) (n i : ℕ) → in_use v n ≡ false → in_use v i ≡ true → n ≢ i
used_ne v n i a b e = let c : in_use v i ≡ false = rw (← e) a in ground arith

pub block_of-direct : (s : Vnode) (k : ℕ) → k < ndirect → block_of s k ≡ get_or s.inode.direct k 0
unfolding block_of
block_of-direct s k h = rw (lt→ltb k ndirect h)

pub block_of-index :
    (s : Vnode) (k : ℕ)
    → ndirect ≤ k
    → 0 < s.inode.indirect
    → block_of s k ≡ get_or (s.volume.disk s.inode.indirect) (k - ndirect) 0
unfolding block_of
block_of-index s k h h' =
    let past : ltb k ndirect ≡ false = ground arith in
    rw (past, ne→== s.inode.indirect 0 (λ z. omega arith))

pub block_of-none : (s : Vnode) (k : ℕ) → ndirect ≤ k → s.inode.indirect ≡ 0 → block_of s k ≡ 0
unfolding block_of
block_of-none s k h e = let past : ltb k ndirect ≡ false = ground arith in rw (past, e)

-- The map depends on the inode and on the indirect block alone.
pub block_of-same :
    (s s' : Vnode) (k : ℕ)
    → s'.inode ≡ s.inode
    → ((s.inode.indirect ≡ 0) ⊎ (s'.volume.disk s.inode.indirect ≡ s.volume.disk s.inode.indirect))
    → block_of s' k ≡ block_of s k
unfolding block_of
block_of-same s s' k e (inl none) = rw (e, none)
block_of-same s s' k e (inr same) = rw (e, same)

-- The file on a volume where more blocks are in use.
abbrev pub on_volume : Volume → Vnode → Vnode
on_volume v s = record s { volume = v }

pub on_volume-block_of :
    (s : Vnode) (v : Volume) (k : ℕ)
    → FileOk s
    → Grows s.volume v
    → block_of (on_volume v s) k ≡ block_of s k
on_volume-block_of s v k h g = block_of-same s (on_volume v s) k refl (kept h.index)
  where
    kept :
        IndexOk s
        → (s.inode.indirect ≡ 0) ⊎ (v.disk s.inode.indirect ≡ s.volume.disk s.inode.indirect)
    kept (inl none) = inl none
    kept (inr (positive, used, size)) = inr (g.kept s.inode.indirect used)

pub IndexOk-Grows :
    (s : Vnode) (v : Volume) → IndexOk s → Grows s.volume v → IndexOk (on_volume v s)
IndexOk-Grows s v (inl none) g = inl none
IndexOk-Grows s v (inr (positive, used, size)) g =
    inr (positive, g.still s.inode.indirect used, ap length (g.kept s.inode.indirect used) ∙ size)

-- A file is as it was when its map is the same and more blocks are in use.
pub same_map-FileOk :
    (s s' : Vnode)
    → FileOk s
    → Grows s.volume s'.volume
    → length s'.inode.direct ≡ ndirect
    → IndexOk s'
    → ((k : ℕ) → k < max_blocks → block_of s' k ≡ block_of s k)
    → ((k : ℕ) → k < max_blocks → 0 < block_of s k → block_of s k ≢ s'.inode.indirect)
    → FileOk s'
same_map-FileOk s s' h g directs index same other = record {
  volume = g.valid;
  directs = directs;
  index = index;
  mapped = λ k lt. rw (same k lt) (grown k (h.mapped k lt));
  apart = λ j k hj hk positive e.
      let e' : block_of s j ≡ block_of s k = sym (same j hj) ∙ e ∙ same k hk in
      h.apart j k hj hk (omega (arith, same j hj)) e';
  not_index = λ k lt positive e. other k lt (omega (arith, same k lt)) (sym (same k lt) ∙ e);
}
  where
    grown :
        (k : ℕ)
        → (block_of s k ≡ 0)
          ⊎ ((block_of s k < s.volume.nblocks) × (in_use s.volume (block_of s k) ≡ true))
        → (block_of s k ≡ 0)
          ⊎ ((block_of s k < s'.volume.nblocks) × (in_use s'.volume (block_of s k) ≡ true))
    grown k (inl none) = inl none
    grown k (inr (lt, used)) = inr (omega (arith, g.same_size), g.still (block_of s k) used)

pub on_volume-FileOk :
    (s : Vnode) (v : Volume) → FileOk s → Grows s.volume v → FileOk (on_volume v s)
on_volume-FileOk s v h g =
    same_map-FileOk s (on_volume v s) h g h.directs (IndexOk-Grows s v h.index g)
      (λ k lt. on_volume-block_of s v k h g) h.not_index

-- Block `k`, which had none, gets a disk block that was free; the others keep theirs.
pub record Extended (s : Vnode) (k n : ℕ) (s' : Vnode) : Type 0 where
  pub positive : 0 < n
  pub inside : n < s.volume.nblocks
  pub was_free : in_use s.volume n ≡ false
  pub valid : Space.IsValid s'.volume
  pub same_size : s'.volume.nblocks ≡ s.volume.nblocks
  pub marks : (i : ℕ) → in_use s'.volume i ≡ (n == i || in_use s.volume i)
  pub directs : length s'.inode.direct ≡ ndirect
  pub index : IndexOk s'
  pub same_index : s'.inode.indirect ≡ s.inode.indirect
  pub new : block_of s' k ≡ n
  pub others : (j : ℕ) → j < max_blocks → j ≢ k → block_of s' j ≡ block_of s j

or_of : (a b : Bool) → b ≡ true → (a || b) ≡ true
or_of true b h = refl
or_of false b h = h

pub Extended-FileOk :
    (s : Vnode) (k n : ℕ) (s' : Vnode) → k < max_blocks → FileOk s → Extended s k n s' → FileOk s'
Extended-FileOk s k n s' low h x = record {
  volume = x.valid;
  directs = x.directs;
  index = x.index;
  mapped = λ j lt. elim (Bool-cases (j == k)) [
    | inl e ↦
        let now : block_of s' j ≡ n = ap (block_of s') (==→eq j k e) ∙ x.new in
        rw now (inr (omega (arith, x.inside, x.same_size), x.marks n ∙ rw (eq→== n n refl) refl))
    | inr e ↦ rw (x.others j lt (λ z. ground arith)) (grown j (h.mapped j lt))
  ];
  apart = λ i j hi hj positive e. both i j hi hj positive e;
  not_index = λ j lt positive e. elim (Bool-cases (j == k)) [
    | inl z ↦
        let now : block_of s' j ≡ n = ap (block_of s') (==→eq j k z) ∙ x.new in
        index_ne h.index (sym now ∙ e ∙ x.same_index)
    | inr z ↦
        let old = x.others j lt (λ y. ground arith) in
        h.not_index j lt (omega (arith, old)) (sym old ∙ e ∙ x.same_index)
  ];
}
  where
    index_ne : IndexOk s → n ≢ s.inode.indirect
    index_ne (inl none) e = absurd (omega (arith, x.positive))
    index_ne (inr (positive, used, size)) e = used_ne s.volume n s.inode.indirect x.was_free used e

    grown :
        (j : ℕ)
        → (block_of s j ≡ 0)
          ⊎ ((block_of s j < s.volume.nblocks) × (in_use s.volume (block_of s j) ≡ true))
        → (block_of s j ≡ 0)
          ⊎ ((block_of s j < s'.volume.nblocks) × (in_use s'.volume (block_of s j) ≡ true))
    grown j (inl none) = inl none
    grown j (inr (lt, used)) =
        inr (omega (arith, x.same_size), x.marks (block_of s j) ∙ or_of _ _ used)

    free_ne : (j : ℕ) → j < max_blocks → n ≢ block_of s j
    free_ne j lt e = elim (h.mapped j lt) [
      | inl none ↦ absurd (omega (arith, x.positive))
      | inr (inside, used) ↦ used_ne s.volume n (block_of s j) x.was_free used e
    ]

    both :
        (i j : ℕ)
        → i < max_blocks
        → j < max_blocks
        → 0 < block_of s' i
        → block_of s' i ≡ block_of s' j
        → i ≡ j
    both i j hi hj positive e = elim (Bool-cases (i == k)) [
      | inl a ↦ elim (Bool-cases (j == k)) [
        | inl b ↦ ==→eq i k a ∙ sym (==→eq j k b)
        | inr b ↦
            let now : block_of s' i ≡ n = ap (block_of s') (==→eq i k a) ∙ x.new in
            let old = x.others j hj (λ y. ground arith) in absurd (free_ne j hj (sym now ∙ e ∙ old))
      ]
      | inr a ↦
          let old = x.others i hi (λ y. ground arith) in
          elim (Bool-cases (j == k)) [
            | inl b ↦
                let now : block_of s' j ≡ n = ap (block_of s') (==→eq j k b) ∙ x.new in
                absurd (free_ne i hi (sym now ∙ sym e ∙ old))
            | inr b ↦
                let old' = x.others j hj (λ y. ground arith) in
                h.apart i j hi hj (omega (arith, old)) (sym old ∙ e ∙ old')
          ]
    ]
