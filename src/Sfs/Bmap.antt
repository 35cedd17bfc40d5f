-- ===== src/Sfs/Bmap.antt =====
-- `sfs_bmap` of a3/src/kern/fs/sfs/sfs_vnode.c.
use csc.Base.{
  ℕ, ◌-◌, ◌≤◌, ◌<◌, ◌≡◌, refl, sym, ap, ◌∙◌, ◌≢◌, Bool, true, false, ◌&&◌, ◌||◌, List, ltb, ltb→lt,
  ◌==◌, ==→eq, arith, Bool-cases, inl, inr, ◌⊎◌, length, length-set, get_elem?-eq-get_or, get_or,
  get_or-set_self, get_or-set_ne, set, ok, ◌>>=◌, Returns, Returns-inv, Result, success, failure,
}
use csc.Sfs.{Volume, Vnode, Answers, ndirect, at, hand_back, direct_new, bmap_direct, sfs_balloc}
use csc.Sfs.Space.{in_use, Grows, BallocResult, sfs_balloc_lem, sfs_bused_lem}
use csc.Sfs.Map.{
  block_of, IndexOk, FileOk, max_blocks, block_of-direct, block_of-index, block_of-none, on_volume,
  on_volume-block_of, on_volume-FileOk, IndexOk-Grows, Extended, Extended-FileOk,
}

-- What every call keeps: blocks in use stay so, and those that are not the file's indirect block keep
-- their contents.
pub record Keeps (s s' : Vnode) : Type 0 where
  pub file : FileOk s'
  pub still : (i : ℕ) → in_use s.volume i ≡ true → in_use s'.volume i ≡ true
  pub contents :
      (i : ℕ) → in_use s.volume i ≡ true → i ≢ s.inode.indirect → s'.volume.disk i ≡ s.volume.disk i

-- The block that is handed back is the one that the file had, or one that was free and is now its.
abbrev pub Source : Bool → ℕ → Vnode → ℕ → Type 0
Source doalloc k s b =
    ((b ≡ block_of s k) × ((0 < b) ⊎ (doalloc ≡ false)))
    ⊎ ((doalloc ≡ true) × (block_of s k ≡ 0) × (0 < b) × (in_use s.volume b ≡ false))

-- What `sfs_bmap` promises of block `k`.
abbrev pub BmapResult : Bool → ℕ → Vnode → Vnode × Result ℕ → Type 0
BmapResult doalloc k s (s', success b) =
    (block_of s' k ≡ b)
    × Source doalloc k s b
    × ((j : ℕ) → j < max_blocks → j ≢ k → block_of s' j ≡ block_of s j)
    × Keeps s s'
BmapResult doalloc k s (s', failure e) =
    ((j : ℕ) → j < max_blocks → block_of s' j ≡ block_of s j) × Keeps s s'

pub Keeps-refl : (s : Vnode) → FileOk s → Keeps s s
Keeps-refl s h = record { file = h; still = λ i u. u; contents = λ i u ne. refl }

pub Keeps-Grows : (s : Vnode) (v : Volume) → FileOk s → Grows s.volume v → Keeps s (on_volume v s)
Keeps-Grows s v h g = record {
  file = on_volume-FileOk s v h g;
  still = g.still;
  contents = λ i u ne. g.kept i u;
}

pub at-ok : (a : List ℕ) (i : ℕ) → i < length a → at a i ≡ ok (get_or a i 0)
unfolding at
at-ok a i h = rw (get_elem?-eq-get_or a i 0 h, at)

-- A block of the file is handed back.
hand_back_lem :
    (s : Vnode) (k b : ℕ)
    → FileOk s
    → k < max_blocks
    → block_of s k ≡ b
    → hand_back b s ≡ ok (s, success b)
unfolding hand_back
hand_back_lem s k b h low e = elim (Bool-cases (b == 0)) [
  | inl z ↦ rw (z, ==→eq b 0 z)
  | inr z ↦ elim (h.mapped k low) [
    | inl none ↦ absurd (ground (arith, e))
    | inr (lt, used) ↦
        let inside : b < s.volume.nblocks = omega (arith, e) in
        let in_it : in_use s.volume b ≡ true = ap (in_use s.volume) (sym e) ∙ used in
        rw (z, sfs_bused_lem b s.volume h.volume inside, in_it)
  ]
]

-- A block that the file has, or is not asked to get.
pub old_result :
    (doalloc : Bool) (k b : ℕ) (s : Vnode)
    → FileOk s
    → k < max_blocks
    → block_of s k ≡ b
    → ((b == 0) && doalloc) ≡ false
    → Returns (BmapResult doalloc k s) (hand_back b s)
old_result doalloc k b s h low e stay =
    rw (hand_back_lem s k b h low e)
      (e, inl (sym e, source doalloc stay), λ j lt ne. refl, Keeps-refl s h)
  where
    source : (d : Bool) → ((b == 0) && d) ≡ false → (0 < b) ⊎ (d ≡ false)
    source true n = inl (ground arith)
    source false n = inr refl

-- A block that the file has got.
pub new_result :
    (k b : ℕ) (s s' : Vnode)
    → FileOk s
    → k < max_blocks
    → block_of s k ≡ 0
    → Extended s k b s'
    → ((i : ℕ)
        → in_use s.volume i ≡ true
        → i ≢ s.inode.indirect
        → s'.volume.disk i ≡ s.volume.disk i)
    → Returns (BmapResult true k s) (hand_back b s')
new_result k b s s' h low empty x same =
    let h' = Extended-FileOk s k b s' low h x in
    rw (hand_back_lem s' k b h' low x.new) (
      x.new,
      inr (refl, empty, x.positive, x.was_free),
      x.others,
      record {
        file = h';
        still = λ i u. x.marks i ∙ or_of (b == i) (in_use s.volume i) u;
        contents = same;
      },
    )
  where
    or_of : (a c : Bool) → c ≡ true → (a || c) ≡ true
    or_of true c e = refl
    or_of false c e = e

Grows-size : (v v' : Volume) → Grows v v' → v'.nblocks ≡ v.nblocks
Grows-size v v' g = g.same_size

abbrev with_direct : ℕ → ℕ → Volume → Vnode → Vnode
with_direct k b v s = record {
  volume = v;
  inode = record (s.inode) { direct = set s.inode.direct k b };
  dirty = true;
}

direct_new_lem :
    (k : ℕ) (s : Vnode) (v : Volume) (r : Result ℕ)
    → FileOk s
    → k < ndirect
    → block_of s k ≡ 0
    → BallocResult s.volume (v, r)
    → Returns (BmapResult true k s) (direct_new k s v r)
unfolding direct_new
direct_new_lem k s v (failure e) h low empty (g, code) =
    (λ j lt. on_volume-block_of s v j h g, Keeps-Grows s v h g)
direct_new_lem k s v (success b) h low empty (t, g) =
    new_result k b s (with_direct k b v s) h (omega arith) empty
      (record {
        positive = t.positive;
        inside = t.inside;
        was_free = t.was_free;
        valid = g.valid;
        same_size = g.same_size;
        marks = t.now_used;
        directs = length-set s.inode.direct k b ∙ h.directs;
        index = IndexOk-Grows s v h.index g;
        same_index = refl;
        new =
            block_of-direct (with_direct k b v s) k low
            ∙ get_or-set_self s.inode.direct k b 0 (omega (arith, h.directs));
        others = others;
      })
      (λ i u ne. g.kept i u)
  where
    others : (j : ℕ) → j < max_blocks → j ≢ k → block_of (with_direct k b v s) j ≡ block_of s j
    others j lt ne = elim (Bool-cases (ltb j ndirect)) [
      | inl e ↦
          let low' = ltb→lt j ndirect e in
          block_of-direct (with_direct k b v s) j low'
          ∙ get_or-set_ne s.inode.direct k j b 0 (λ z. ne (sym z))
          ∙ sym (block_of-direct s j low')
      | inr e ↦ past (ground arith) h.index
    ]
      where
        past : ndirect ≤ j → IndexOk s → block_of (with_direct k b v s) j ≡ block_of s j
        past out (inl none) =
            block_of-none (with_direct k b v s) j out none ∙ sym (block_of-none s j out none)
        past out (inr (positive, used, size)) =
            block_of-index (with_direct k b v s) j out positive
            ∙ ap (λ (l : List ℕ). get_or l (j - ndirect) 0) (g.kept s.inode.indirect used)
            ∙ sym (block_of-index s j out positive)

pub bmap_direct_lem :
    (a : Answers) (doalloc : Bool) (k : ℕ) (s : Vnode)
    → FileOk s
    → k < ndirect
    → Returns (BmapResult doalloc k s) (bmap_direct a doalloc k s)
unfolding bmap_direct
bmap_direct_lem a doalloc k s h low =
    let b = get_or s.inode.direct k 0 in
    let e = block_of-direct s k low in
    rw (at-ok s.inode.direct k (omega (arith, h.directs)))
      (elim (Bool-cases ((b == 0) && doalloc)) [
        | inr stay ↦ rw stay (old_result doalloc k b s h (omega arith) e stay)
        | inl get_it ↦ rw get_it (get doalloc get_it)
      ])
  where
    get :
        (d : Bool)
        → ((get_or s.inode.direct k 0 == 0) && d) ≡ true
        → Returns
            (BmapResult d k s)
            (sfs_balloc a.clear_data s.volume >>= λ (v, r). direct_new k s v r)
    get false get_it = absurd (ground arith)
    get true get_it =
        let (r, run, result) =
          Returns-inv (BallocResult s.volume) (sfs_balloc a.clear_data s.volume)
            (sfs_balloc_lem a.clear_data s.volume h.volume) in
        let empty : block_of s k ≡ 0 = block_of-direct s k low ∙ ground arith in
        rw run (direct_new_lem k s r.0 r.1 h low empty result)
