-- ===== src/Sfs/Truncate/Discard.antt =====
-- The loops of `sfs_dotruncate` of a3/src/kern/fs/sfs/sfs_vnode.c, and `sfs_bfree`.
use csc.Base.{
  ℕ, zero, suc, ◌+◌, ◌<◌, ◌≡◌, refl, sym, ap, ◌∙◌, ◌≢◌, Bool, true, false, not, ◌&&◌, List, [], ◌∷◌,
  ◌==◌, eq→==, ne→==, if◌then◌else◌, arith, Bool-cases, inl, inr, length, get_or, Returns,
  Returns-inv,
}
use csc.Bitmap.Laws.{bitmap_unmark_lem}
use csc.Sfs.{Volume, sfs_bfree}
use csc.Sfs.Space.{IsValid, in_use}
use csc.Sfs.Truncate.{discard}

-- One block is free, and nothing else changes.
pub record Freed (v : Volume) (block : ℕ) (v' : Volume) : Type 0 where
  pub valid : IsValid v'
  pub same_size : v'.nblocks ≡ v.nblocks
  pub same_disk : v'.disk ≡ v.disk
  pub marks : (i : ℕ) → in_use v' i ≡ (not (block == i) && in_use v i)

pub sfs_bfree_lem :
    (v : Volume) (block : ℕ)
    → IsValid v
    → 0 < block
    → block < v.nblocks
    → in_use v block ≡ true
    → Returns (Freed v block) (sfs_bfree block v)
unfolding sfs_bfree
sfs_bfree_lem v block h positive low used =
    let (b, run, valid, size, marks) =
      bitmap_unmark_lem v.freemap block h.map (omega (arith, h.covers)) used in
    rw run (record {
      valid = record {
        map = valid;
        covers = omega (arith, h.covers, size);
        nonempty = h.nonempty;
        first = marks 0 ∙ (let ne = ne→== block 0 (λ e. omega arith) in rw ne h.first);
        past = λ i out lt.
            marks i
            ∙ (let ne = ne→== block i (λ e. omega arith) in
                rw ne (h.past i out (omega (arith, size))));
      };
      same_size = refl;
      same_disk = refl;
      marks = marks;
    })

-- The blocks of a list: in use and apart. 0 stands for none.
pub record Blocks (v : Volume) (l : List ℕ) : Type 0 where
  pub inside : (j : ℕ) → 0 < get_or l j 0 → get_or l j 0 < v.nblocks
  pub used : (j : ℕ) → 0 < get_or l j 0 → in_use v (get_or l j 0) ≡ true
  pub apart : (j k : ℕ) → 0 < get_or l j 0 → get_or l j 0 ≡ get_or l k 0 → j ≡ k

-- What the loop promises.
pub record Discarded (past : ℕ → Bool) (i : ℕ) (l : List ℕ) (v : Volume)
    (r : List ℕ × Bool × Volume) : Type 0 where
  pub valid : IsValid r.2
  pub same_size : r.2.nblocks ≡ v.nblocks
  pub same_disk : r.2.disk ≡ v.disk
  pub same_length : length r.0 ≡ length l
  pub left : (j : ℕ) → get_or r.0 j 0 ≡ (if past (i + j) then 0 else get_or l j 0)
  pub uncut : r.1 ≡ false → r.0 ≡ l
  pub kept :
      (b : ℕ)
      → ((j : ℕ) → past (i + j) ≡ true → 0 < get_or l j 0 → get_or l j 0 ≢ b)
      → in_use r.2 b ≡ in_use v b
  pub only : (b : ℕ) → in_use v b ≡ false → in_use r.2 b ≡ false
  pub freed : (j : ℕ) → past (i + j) ≡ true → 0 < get_or l j 0 → in_use r.2 (get_or l j 0) ≡ false

nothing : (c : Bool) (b : ℕ) → c ≡ true → (c && not (b == 0)) ≡ false → b ≡ 0
nothing true b at e = ground arith
nothing false b at e = absurd (ground (arith, at))

same_zero : (b : Bool) → ◌≡◌ {A = ℕ} 0 (if b then 0 else 0)
same_zero true = refl
same_zero false = refl

and-inv : (a b : Bool) → (a && b) ≡ true → (a ≡ true) × (b ≡ true)
and-inv true b h = (refl, h)
and-inv false b h = absurd (ground (arith, h))

pub and_false : (a b : Bool) → b ≡ false → (a && b) ≡ false
and_false true b h = h
and_false false b h = refl

-- The tail of a list of blocks.
tail-Blocks : (b : ℕ) (l : List ℕ) (v : Volume) → Blocks v (b ∷ l) → Blocks v l
tail-Blocks b l v bs = record {
  inside = λ j p. bs.inside (suc j) p;
  used = λ j p. bs.used (suc j) p;
  apart = λ j k p e. let same_place = bs.apart (suc j) (suc k) p e in omega (arith, same_place);
}

other_block :
    (b : ℕ) (l : List ℕ) (v : Volume) (j : ℕ) → Blocks v (b ∷ l) → 0 < b → get_or l j 0 ≢ b
other_block b l v j bs p e =
    let same_place = bs.apart zero (suc j) p (sym e) in absurd (omega (arith, same_place))

module _ (past : ℕ → Bool) (i b : ℕ) (l : List ℕ) (v : Volume) (bs : Blocks v (b ∷ l)) where
  here : past (i + 0) ≡ past i
  here = ap past (omega arith)

  there : (j : ℕ) → past (i + suc j) ≡ past (i + 1 + j)
  there j = ap past (omega arith)

  Freed-Blocks : (v' : Volume) → Freed v b v' → 0 < b → Blocks v' l
  Freed-Blocks v' f p = record {
    inside = λ j q. omega (arith, bs.inside (suc j) q, f.same_size);
    used = λ j q.
        let ne = ne→== b (get_or l j 0) (λ e. other_block b l v j bs p (sym e)) in
        f.marks (get_or l j 0) ∙ rw ne (bs.used (suc j) q);
    apart = λ j k q e. let same_place = bs.apart (suc j) (suc k) q e in omega (arith, same_place);
  }

  -- The block at the front is freed.
  front-Freed :
      (v' : Volume) (r : List ℕ × Bool × Volume)
      → past i ≡ true
      → 0 < b
      → Freed v b v'
      → Discarded past (i + 1) l v' r
      → Discarded past i (b ∷ l) v (0 ∷ r.0, true, r.2)
  front-Freed v' r at p f d = record {
    valid = d.valid;
    same_size = d.same_size ∙ f.same_size;
    same_disk = d.same_disk ∙ f.same_disk;
    same_length = ap suc d.same_length;
    left = λ j. left j;
    uncut = λ e. absurd (ground (arith, e));
    kept = λ x apart.
        let ne = ne→== b x (apart zero (here ∙ at) p) in
        d.kept x (λ j e q. apart (suc j) (there j ∙ e) q) ∙ f.marks x ∙ rw ne refl;
    only = λ x u. d.only x (f.marks x ∙ and_false (not (b == x)) (in_use v x) u);
    freed = λ j. freed j;
  }
    where
      left : (j : ℕ) → get_or (0 ∷ r.0) j 0 ≡ (if past (i + j) then 0 else get_or (b ∷ l) j 0)
      left zero = rw (here, at) refl
      left (suc j) = d.left j ∙ ap (λ (c : Bool). if c then 0 else get_or l j 0) (sym (there j))

      freed :
          (j : ℕ)
          → past (i + j) ≡ true
          → 0 < get_or (b ∷ l) j 0
          → in_use r.2 (get_or (b ∷ l) j 0) ≡ false
      freed zero e q =
          let it = eq→== b b refl in
          d.kept b (λ k e q'. other_block b l v k bs p) ∙ f.marks b ∙ rw it refl
      freed (suc j) e q = d.freed j (sym (there j) ∙ e) q

  -- It is not.
  front_kept :
      (r : List ℕ × Bool × Volume)
      → (past i ≡ true → b ≡ 0)
      → Discarded past (i + 1) l v r
      → Discarded past i (b ∷ l) v (b ∷ r.0, r.1, r.2)
  front_kept r none d = record {
    valid = d.valid;
    same_size = d.same_size;
    same_disk = d.same_disk;
    same_length = ap suc d.same_length;
    left = λ j. left j;
    uncut = λ e. ap (◌∷◌ b) (d.uncut e);
    kept = λ x apart. d.kept x (λ j e q. apart (suc j) (there j ∙ e) q);
    only = λ x u. d.only x u;
    freed = λ j. freed j;
  }
    where
      left : (j : ℕ) → get_or (b ∷ r.0) j 0 ≡ (if past (i + j) then 0 else get_or (b ∷ l) j 0)
      left zero = elim (Bool-cases (past i)) [
        | inl e ↦ rw (here, e) (none e)
        | inr e ↦ rw (here, e) refl
      ]
      left (suc j) = d.left j ∙ ap (λ (c : Bool). if c then 0 else get_or l j 0) (sym (there j))

      freed :
          (j : ℕ)
          → past (i + j) ≡ true
          → 0 < get_or (b ∷ l) j 0
          → in_use r.2 (get_or (b ∷ l) j 0) ≡ false
      freed zero e q = absurd (omega (arith, none (sym here ∙ e), q))
      freed (suc j) e q = d.freed j (sym (there j) ∙ e) q

pub discard_lem :
    (past : ℕ → Bool) (i : ℕ) (l : List ℕ) (v : Volume)
    → IsValid v
    → Blocks v l
    → Returns (Discarded past i l v) (discard past i l v)
unfolding discard
discard_lem past i [] v h bs = record {
  valid = h;
  same_size = refl;
  same_disk = refl;
  same_length = refl;
  left = λ j. same_zero (past (i + j));
  uncut = λ e. refl;
  kept = λ b e. refl;
  only = λ b u. u;
  freed = λ j e p. absurd (omega (arith, p));
}
discard_lem past i (b ∷ l) v h bs = elim (Bool-cases (past i && not (b == 0))) [
  | inl e ↦
      let (at, live) = and-inv (past i) (not (b == 0)) e in
      let p : 0 < b = ground arith in
      let (v', run, f) =
        Returns-inv (Freed v b) (sfs_bfree b v)
          (sfs_bfree_lem v b h p (bs.inside zero p) (bs.used zero p)) in
      let (r, run', d) =
        Returns-inv (Discarded past (i + 1) l v') (discard past (i + 1) l v')
          (discard_lem past (i + 1) l v' f.valid (Freed-Blocks past i b l v bs v' f p)) in
      rw (e, run, run') (front-Freed past i b l v bs v' r at p f d)
  | inr e ↦
      let (r, run', d) =
        Returns-inv (Discarded past (i + 1) l v) (discard past (i + 1) l v)
          (discard_lem past (i + 1) l v h (tail-Blocks b l v bs)) in
      rw (e, run') (front_kept past i b l v bs r (λ at. nothing (past i) b at e) d)
]
