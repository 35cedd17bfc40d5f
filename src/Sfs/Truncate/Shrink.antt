-- ===== src/Sfs/Truncate/Shrink.antt =====
-- A file of a3/src/kern/fs/sfs/sfs_vnode.c that loses blocks to `sfs_dotruncate`.
use csc.Base.{
  ℕ, zero, suc, ◌+◌, ◌≤◌, ◌<◌, ◌≡◌, refl, sym, ap, ◌∙◌, Bool, true, false, List, [], ◌∷◌, ltb,
  ltb→lt, ◌==◌, ==→eq, arith, Bool-cases, inl, inr, ◌⊎◌, length, get_or,
}
use csc.Sfs.{Volume, Vnode, ndirect}
use csc.Sfs.Space
use csc.Sfs.Space.{in_use}
use csc.Sfs.Map.{FileOk, IndexOk, block_of, max_blocks}
use csc.Sfs.Truncate.Discard.{Blocks, Discarded}

-- Some blocks of the file are gone; those that are left are in use.
pub shrunk-FileOk :
    (s s' : Vnode)
    → FileOk s
    → Space.IsValid s'.volume
    → s'.volume.nblocks ≡ s.volume.nblocks
    → length s'.inode.direct ≡ ndirect
    → IndexOk s'
    → (s'.inode.indirect ≡ s.inode.indirect) ⊎ (s'.inode.indirect ≡ 0)
    → ((k : ℕ)
        → k < max_blocks
        → (block_of s' k ≡ 0)
          ⊎ ((block_of s' k ≡ block_of s k)
              × (0 < block_of s k → in_use s'.volume (block_of s k) ≡ true)))
    → FileOk s'
shrunk-FileOk s s' h valid size directs index same_index left = record {
  volume = valid;
  directs = directs;
  index = index;
  mapped = λ k lt. elim (left k lt) [
    | inl gone ↦ inl gone
    | inr (same_k, used) ↦ elim (h.mapped k lt) [
      | inl none ↦ inl (same_k ∙ none)
      | inr (inside, was) ↦ elim (Bool-cases (block_of s k == 0)) [
        | inl z ↦ inl (same_k ∙ ==→eq (block_of s k) 0 z)
        | inr z ↦
            let positive : 0 < block_of s k = ground arith in
            inr (omega (arith, same_k, inside, size), ap (in_use s'.volume) same_k ∙ used positive)
      ]
    ]
  ];
  apart = λ j k hj hk positive e. elim (left j hj) [
    | inl gone ↦ absurd (omega (arith, gone, positive))
    | inr (same_j, used) ↦ elim (left k hk) [
      | inl gone ↦ absurd (omega (arith, gone, positive, e))
      | inr (same_k, used') ↦
          h.apart j k hj hk (omega (arith, same_j, positive)) (sym same_j ∙ e ∙ same_k)
    ]
  ];
  not_index = λ k lt positive e. elim (left k lt) [
    | inl gone ↦ absurd (omega (arith, gone, positive))
    | inr (same_k, used) ↦ elim same_index [
      | inl i ↦ h.not_index k lt (omega (arith, same_k, positive)) (sym same_k ∙ e ∙ i)
      | inr i ↦ absurd (omega (arith, positive, e, i))
    ]
  ];
}

get_or-past : (l : List ℕ) (j : ℕ) → length l ≤ j → get_or l j 0 ≡ 0
get_or-past [] j h = refl
get_or-past (x ∷ l) zero h = absurd (omega (arith, h))
get_or-past (x ∷ l) (suc j) h = get_or-past l j (omega (arith, h))

-- A list that is the part of the map from `first` on.
pub record Part (s : Vnode) (first : ℕ) (l : List ℕ) : Type 0 where
  pub fits : first + length l ≤ max_blocks
  pub is : (j : ℕ) → j < length l → get_or l j 0 ≡ block_of s (first + j)

pub part_in : (s : Vnode) (first : ℕ) (l : List ℕ) (j : ℕ) → 0 < get_or l j 0 → j < length l
part_in s first l j p = elim (Bool-cases (ltb j (length l))) [
  | inl e ↦ ltb→lt j (length l) e
  | inr e ↦ absurd (omega (arith, get_or-past l j (ground arith), p))
]

pub Part-Blocks :
    (s : Vnode) (first : ℕ) (l : List ℕ) → FileOk s → Part s first l → Blocks s.volume l
Part-Blocks s first l h part = record {
  inside = λ j p. elim (h.mapped (first + j) (low j p)) [
    | inl none ↦ absurd (omega (arith, at j p, none, p))
    | inr (inside, used) ↦ omega (arith, at j p, inside)
  ];
  used = λ j p. elim (h.mapped (first + j) (low j p)) [
    | inl none ↦ absurd (omega (arith, at j p, none, p))
    | inr (inside, used) ↦ ap (in_use s.volume) (at j p) ∙ used
  ];
  apart = λ j k p e.
      let p' : 0 < get_or l k 0 = omega (arith, p, e) in
      let same_place =
        h.apart (first + j) (first + k) (low j p) (low k p') (omega (arith, at j p, p))
          (sym (at j p) ∙ e ∙ at k p') in
      omega (arith, same_place);
}
  where
    low : (j : ℕ) → 0 < get_or l j 0 → first + j < max_blocks
    low j p = omega (arith, part.fits, part_in s first l j p)

    at : (j : ℕ) → 0 < get_or l j 0 → get_or l j 0 ≡ block_of s (first + j)
    at j p = part.is j (part_in s first l j p)

-- A block of the file that is not among those that the loop frees is in use after it.
pub left_used :
    (past : ℕ → Bool) (s : Vnode) (first : ℕ) (l : List ℕ) (r : List ℕ × Bool × Volume) (k : ℕ)
    → FileOk s
    → Part s first l
    → Discarded past 0 l s.volume r
    → k < max_blocks
    → ((j : ℕ) → j < length l → first + j ≡ k → past j ≡ false)
    → 0 < block_of s k
    → in_use r.2 (block_of s k) ≡ true
left_used past s first l r k h part d low spared positive =
    d.kept (block_of s k) (λ j e p same_b.
      let here : 0 + j ≡ j = omega arith in
      let inside = part_in s first l j p in
      let place : first + j ≡ k =
        h.apart (first + j) k (omega (arith, part.fits, inside)) low
          (omega (arith, part.is j inside, p)) (sym (part.is j inside) ∙ same_b) in
      let not_past = spared j inside place in
      absurd (ground (arith, sym (ap past here) ∙ e, not_past)))
    ∙ elim (h.mapped k low) [
      | inl none ↦ absurd (omega (arith, none, positive))
      | inr (inside, used) ↦ used
    ]
