-- ===== src/Sfs/Truncate/Index.antt =====
-- The indirect block in `sfs_dotruncate` of a3/src/kern/fs/sfs/sfs_vnode.c.
use csc.Base.{
  ℕ, zero, suc, ◌+◌, ◌-◌, ◌≤◌, ◌<◌, ◌≡◌, refl, sym, ap, ◌∙◌, Bool, true, false, not, List, [], ◌∷◌,
  ltb, ltb→lt, ◌==◌, ==→eq, ne→==, if◌then◌else◌, arith, Bool-cases, inl, inr, ◌⊎◌, length, get_or,
  ok, Returns, Returns-inv, set_at, set_at_self,
}
use csc.Sfs.{Volume, Vnode, ndirect, dbperidb, sfs_bfree}
use csc.Sfs.Space.{in_use}
use csc.Sfs.Map.{FileOk, block_of, max_blocks, block_of-direct, block_of-index, block_of-none}
use csc.Sfs.Truncate.{any_block, index_cut}
use csc.Sfs.Truncate.Discard.{Discarded, Freed, sfs_bfree_lem, and_false}
use csc.Sfs.Truncate.Shrink.{shrunk-FileOk, Part, left_used}
use csc.Sfs.Truncate.Phases.{index_kept}

-- What the second phase leaves of a file.
pub record IndexCut (blocklen : ℕ) (s s' : Vnode) : Type 0 where
  pub file : FileOk s'
  pub near : (k : ℕ) → k < ndirect → block_of s' k ≡ block_of s k
  pub far :
      (k : ℕ)
      → ndirect ≤ k
      → k < max_blocks
      → block_of s' k ≡ (if ltb blocklen k then 0 else block_of s k)
  pub freed :
      (k : ℕ)
      → ndirect ≤ k
      → k < max_blocks
      → ltb blocklen k ≡ true
      → 0 < block_of s k
      → in_use s'.volume (block_of s k) ≡ false
  pub only : (b : ℕ) → in_use s.volume b ≡ false → in_use s'.volume b ≡ false

if_inv : (z x : Bool) → (if z then x else true) ≡ false → (z ≡ true) × (x ≡ false)
if_inv true x e = (refl, e)
if_inv false x e = absurd (ground (arith, e))

-- What the second phase promises: it fails only if the device does.
abbrev pub IndexResult : Bool → ℕ → Vnode → Vnode × Bool → Type 0
IndexResult io blocklen s (s', true) = IndexCut blocklen s s'
IndexResult io blocklen s (s', false) = io ≡ false

any_block-none : (l : List ℕ) → any_block l ≡ false → (j : ℕ) → get_or l j 0 ≡ 0
unfolding any_block
any_block-none [] e j = refl
any_block-none (b ∷ l) e zero = ==→eq b 0 (if_inv (b == 0) (any_block l) e).0
any_block-none (b ∷ l) e (suc j) = any_block-none l (if_inv (b == 0) (any_block l) e).1 j

pub near_same :
    (s s' : Vnode) (k : ℕ)
    → s'.inode.direct ≡ s.inode.direct
    → k < ndirect
    → block_of s' k ≡ block_of s k
near_same s s' k e lt =
    block_of-direct s' k lt ∙ ap (λ (l : List ℕ). get_or l k 0) e ∙ sym (block_of-direct s k lt)

module _ (blocklen : ℕ) (s : Vnode) (h : FileOk s) (positive : 0 < s.inode.indirect)
    (used : in_use s.volume s.inode.indirect ≡ true)
    (size : length (s.volume.disk s.inode.indirect) ≡ dbperidb)
    (inside : s.inode.indirect < s.volume.nblocks) where
  abbrev pub past : ℕ → Bool
  past j = ltb blocklen (ndirect + j)

  abbrev pub words : List ℕ
  words = s.volume.disk s.inode.indirect

  pub index_Part : Part s ndirect words
  index_Part = record {
    fits = omega (arith, size);
    is = λ j lt.
        let same_j : ndirect + j - ndirect ≡ j = omega arith in
        ap (λ (i : ℕ). get_or words i 0) (sym same_j)
        ∙ sym (block_of-index s (ndirect + j) (omega arith) positive);
  }

  module _ (r : List ℕ × Bool × Volume) (d : Discarded past 0 words s.volume r) where
    word_left :
        (k : ℕ)
        → ndirect ≤ k
        → get_or r.0 (k - ndirect) 0 ≡ (if ltb blocklen k then 0 else block_of s k)
    word_left k far =
        let place : ndirect + (0 + (k - ndirect)) ≡ k = omega arith in
        d.left (k - ndirect)
        ∙ ap (λ (i : ℕ). if ltb blocklen i then 0 else get_or words (k - ndirect) 0) place
        ∙ ap (λ (x : ℕ). if ltb blocklen k then 0 else x) (sym (block_of-index s k far positive))

    -- A block that is not cut is in use after the loop.
    spared :
        (k : ℕ)
        → k < max_blocks
        → (ndirect ≤ k → ltb blocklen k ≡ false)
        → 0 < block_of s k
        → in_use r.2 (block_of s k) ≡ true
    spared k lt within p =
        left_used past s ndirect words r k h index_Part d lt
          (λ j inside place. ap (ltb blocklen) place ∙ within (omega (arith, place))) p

    word_freed :
        (k : ℕ)
        → ndirect ≤ k
        → ltb blocklen k ≡ true
        → 0 < block_of s k
        → in_use r.2 (block_of s k) ≡ false
    word_freed k far e p =
        let at = block_of-index s k far positive in
        let place : ndirect + (0 + (k - ndirect)) ≡ k = omega arith in
        ap (in_use r.2) at
        ∙ d.freed (k - ndirect) (ap (ltb blocklen) place ∙ e) (omega (arith, at, p))

    left_of :
        (s' : Vnode)
        → ((k : ℕ) → k < ndirect → block_of s' k ≡ block_of s k)
        → ((k : ℕ) → ndirect ≤ k → block_of s' k ≡ (if ltb blocklen k then 0 else block_of s k))
        → ((k : ℕ)
            → k < max_blocks
            → (ndirect ≤ k → ltb blocklen k ≡ false)
            → 0 < block_of s k
            → in_use s'.volume (block_of s k) ≡ true)
        → (k : ℕ) → k < max_blocks
        → (block_of s' k ≡ 0)
          ⊎ ((block_of s' k ≡ block_of s k)
              × (0 < block_of s k → in_use s'.volume (block_of s k) ≡ true))
    left_of s' near far used k lt = elim (Bool-cases (ltb k ndirect)) [
      | inl z ↦
          let low = ltb→lt k ndirect z in inr (near k low, used k lt (λ out. absurd (omega arith)))
      | inr z ↦
          let out : ndirect ≤ k = ground arith in
          elim (Bool-cases (ltb blocklen k)) [
            | inl e ↦ inl (far k out ∙ ap (λ (b : Bool). if b then 0 else block_of s k) e)
            | inr e ↦
                inr (
                  far k out ∙ ap (λ (b : Bool). if b then 0 else block_of s k) e,
                  used k lt (λ o. e),
                )
          ]
    ]

    -- The indirect block has the words that are left.
    present :
        (disk : ℕ → List ℕ)
        → disk s.inode.indirect ≡ r.0
        → IndexCut blocklen s (record s { volume = record (r.2) { disk = disk } })
    present disk at =
        let near = λ (k : ℕ) (lt : k < ndirect).
          near_same s (record s { volume = record (r.2) { disk = disk } }) k refl lt in
        let far : (k : ℕ)
            → ndirect ≤ k
            → block_of (record s { volume = record (r.2) { disk = disk } }) k
              ≡ (if ltb blocklen k then 0 else block_of s k) =
          λ k out.
            block_of-index (record s { volume = record (r.2) { disk = disk } }) k out positive
            ∙ ap (λ (l : List ℕ). get_or l (k - ndirect) 0) at
            ∙ word_left k out in
        record {
          file =
              shrunk-FileOk s (record s { volume = record (r.2) { disk = disk } }) h
                (record {
                  map = d.valid.map;
                  covers = d.valid.covers;
                  nonempty = d.valid.nonempty;
                  first = d.valid.first;
                  past = d.valid.past;
                })
                d.same_size h.directs
                (inr (
                  positive,
                  index_kept past s ndirect words r h index_Part d positive used,
                  ap length at ∙ d.same_length ∙ size,
                ))
                (inl refl)
                (left_of (record s { volume = record (r.2) { disk = disk } }) near far spared);
          near = near;
          far = λ k out lt. far k out;
          freed = λ k out lt e p. word_freed k out e p;
          only = d.only;
        }

    abbrev gone : Volume → Vnode
    gone v = record { volume = v; inode = record (s.inode) { indirect = 0 }; dirty = true }

    -- The indirect block is given back.
    absent :
        (v : Volume)
        → Freed r.2 s.inode.indirect v
        → any_block r.0 ≡ false
        → IndexCut blocklen s
            (record { volume = v; inode = record (s.inode) { indirect = 0 }; dirty = true })
    absent v f empty =
        let s' : Vnode = record {
          volume = v;
          inode = record (s.inode) { indirect = 0 };
          dirty = true;
        } in
        let near = λ (k : ℕ) (lt : k < ndirect). near_same s (gone v) k refl lt in
        let far : (k : ℕ)
            → ndirect ≤ k
            → block_of (gone v) k ≡ (if ltb blocklen k then 0 else block_of s k) =
          λ k out.
            block_of-none (gone v) k out refl
            ∙ sym (any_block-none r.0 empty (k - ndirect))
            ∙ word_left k out in
        record {
          file =
              shrunk-FileOk s (gone v) h f.valid (f.same_size ∙ d.same_size) h.directs (inl refl)
                (inr refl)
                (left_of (gone v) near far (λ k lt within p.
                  let ne =
                    ne→== s.inode.indirect (block_of s k) (λ e. h.not_index k lt p (sym e)) in
                  f.marks (block_of s k) ∙ rw ne (spared k lt within p)));
          near = near;
          far = λ k out lt. far k out;
          freed = λ k out lt e p.
              f.marks (block_of s k)
              ∙ and_false (not (s.inode.indirect == block_of s k)) (in_use r.2 (block_of s k))
                  (word_freed k out e p);
          only = λ b u.
              f.marks b ∙ and_false (not (s.inode.indirect == b)) (in_use r.2 b) (d.only b u);
        }

    pub cut_lem :
        (io : Bool)
        → Returns
            (IndexResult io blocklen s)
            (index_cut io s.inode.indirect r.0 r.1 (record s { volume = r.2 }))
    unfolding index_cut
    cut_lem io = elim (Bool-cases (any_block r.0)) [
      | inl e ↦ rw e (some_left io r.1 refl)
      | inr e ↦
          let low : s.inode.indirect < r.2.nblocks = omega (arith, inside, d.same_size) in
          let (v, run, f) =
            Returns-inv (Freed r.2 s.inode.indirect) (sfs_bfree s.inode.indirect r.2) (
              sfs_bfree_lem r.2 s.inode.indirect d.valid positive low
                (index_kept past s ndirect words r h index_Part d positive used)) in
          rw (e, run) (absent v f e)
    ]
      where
        some_left :
            (b c : Bool)
            → r.1 ≡ c
            → Returns (IndexResult b blocklen s) (
                if c
                then (if b
                    then ok (
                      record s {
                        volume = record (r.2) { disk = set_at r.2.disk s.inode.indirect r.0 };
                      },
                      true,
                    )
                    else ok (record s { volume = r.2 }, false))
                else ok (record s { volume = r.2 }, true))
        some_left true true e =
            present (set_at r.2.disk s.inode.indirect r.0)
              (set_at_self r.2.disk s.inode.indirect r.0)
        some_left false true e = refl
        some_left b false e =
            present r.2.disk
              (ap (λ (f : ℕ → List ℕ). f s.inode.indirect) d.same_disk ∙ sym (d.uncut e))
