-- ===== src/Sfs/Index.antt =====
-- `sfs_bmap` of a3/src/kern/fs/sfs/sfs_vnode.c for the blocks of the indirect block.
use csc.Base.{
  ℕ, ◌+◌, ◌-◌, ◌≤◌, ◌<◌, ◌≡◌, refl, sym, ap, ◌∙◌, Bool, true, false, ◌&&◌, List, ltb, ltb→lt, ◌==◌,
  set_at, set_at_self, set_at_ne, arith, Bool-cases, inl, inr, length, length-set, get_or,
  get_or-set_self, get_or-set_ne, set, ◌>>=◌, Returns, Returns-inv, Result, success, failure,
}
use csc.Sfs.{Volume, Vnode, Answers, ndirect, dbperidb, index_new, bmap_index, sfs_balloc}
use csc.Sfs.Space.{in_use, Grows, Taken, BallocResult, sfs_balloc_lem}
use csc.Sfs.Map.{block_of, FileOk, block_of-direct, block_of-index, on_volume-block_of, Extended}
use csc.Sfs.Bmap.{BmapResult, Keeps-Grows, at-ok, old_result, new_result}

-- The file has the indirect block `idblock`, and `words` is what it holds.
pub record HasIndex (s : Vnode) (idblock : ℕ) (words : List ℕ) : Type 0 where
  pub file : FileOk s
  pub named : s.inode.indirect ≡ idblock
  pub positive : 0 < idblock
  pub used : in_use s.volume idblock ≡ true
  pub holds : s.volume.disk idblock ≡ words
  pub size : length words ≡ dbperidb

abbrev with_entry : ℕ → List ℕ → ℕ → ℕ → Volume → Vnode → Vnode
with_entry idblock words o b v s = record s {
  volume = record v { disk = set_at v.disk idblock (set words o b) };
}

index_block_of :
    (s : Vnode) (idblock : ℕ) (words : List ℕ) (k : ℕ)
    → ndirect ≤ k
    → s.inode.indirect ≡ idblock
    → 0 < idblock
    → s.volume.disk idblock ≡ words
    → block_of s k ≡ get_or words (k - ndirect) 0
index_block_of s idblock words k out named positive holds =
    block_of-index s k out (omega (arith, named))
    ∙ ap (λ (n : ℕ). get_or (s.volume.disk n) (k - ndirect) 0) named
    ∙ ap (λ (l : List ℕ). get_or l (k - ndirect) 0) holds

entry-Extended :
    (idblock o b : ℕ) (words : List ℕ) (s : Vnode) (v : Volume)
    → HasIndex s idblock words
    → o < dbperidb
    → Taken s.volume b v
    → Grows s.volume v
    → Extended s (ndirect + o) b (with_entry idblock words o b v s)
entry-Extended idblock o b words s v x low t g = record {
  positive = t.positive;
  inside = t.inside;
  was_free = t.was_free;
  valid = record {
    map = g.valid.map;
    covers = g.valid.covers;
    nonempty = g.valid.nonempty;
    first = g.valid.first;
    past = g.valid.past;
  };
  same_size = g.same_size;
  marks = t.now_used;
  directs = x.file.directs;
  index = inr (
    omega (arith, x.named, x.positive),
    ap (in_use v) x.named ∙ g.still idblock x.used,
    ap (λ (n : ℕ). length (set_at v.disk idblock (set words o b) n)) x.named
        ∙ ap length (set_at_self v.disk idblock (set words o b))
        ∙ length-set words o b
        ∙ x.size,
  );
  same_index = refl;
  new =
      index_block_of (with_entry idblock words o b v s) idblock (set words o b) (ndirect + o)
        (omega arith) x.named x.positive (set_at_self v.disk idblock (set words o b))
      ∙ ap (λ (n : ℕ). get_or (set words o b) n 0) (omega arith)
      ∙ get_or-set_self words o b 0 (omega (arith, x.size));
  others = λ j lt ne. elim (Bool-cases (ltb j ndirect)) [
    | inl e ↦
        let low' = ltb→lt j ndirect e in
        block_of-direct (with_entry idblock words o b v s) j low' ∙ sym (block_of-direct s j low')
    | inr e ↦
        let out : ndirect ≤ j = ground arith in
        index_block_of (with_entry idblock words o b v s) idblock (set words o b) j out x.named
          x.positive (set_at_self v.disk idblock (set words o b))
        ∙ get_or-set_ne words o (j - ndirect) b 0 (λ z. ne (omega arith))
        ∙ sym (index_block_of s idblock words j out x.named x.positive x.holds)
  ];
}

index_new_lem :
    (io : Bool) (idblock o : ℕ) (words : List ℕ) (s : Vnode) (v : Volume) (r : Result ℕ)
    → HasIndex s idblock words
    → o < dbperidb
    → block_of s (ndirect + o) ≡ 0
    → BallocResult s.volume (v, r)
    → Returns (BmapResult true (ndirect + o) s) (index_new io idblock words o s v r)
unfolding index_new
index_new_lem io idblock o words s v (failure e) x low empty (g, code) =
    (λ j lt. on_volume-block_of s v j x.file g, Keeps-Grows s v x.file g)
index_new_lem false idblock o words s v (success b) x low empty (t, g) =
    (λ j lt. on_volume-block_of s v j x.file g, Keeps-Grows s v x.file g)
index_new_lem true idblock o words s v (success b) x low empty (t, g) =
    new_result (ndirect + o) b s (with_entry idblock words o b v s) x.file (omega arith) empty
      (entry-Extended idblock o b words s v x low t g)
      (λ i u ne.
        set_at_ne v.disk idblock i (set words o b) (λ z. ne (sym z ∙ sym x.named)) ∙ g.kept i u)

pub bmap_index_lem :
    (a : Answers) (doalloc : Bool) (idblock o : ℕ) (words : List ℕ) (s : Vnode)
    → HasIndex s idblock words
    → o < dbperidb
    → Returns (BmapResult doalloc (ndirect + o) s) (bmap_index a doalloc idblock words o s)
unfolding bmap_index
bmap_index_lem a doalloc idblock o words s x low =
    let b = get_or words o 0 in
    rw (at-ok words o (omega (arith, x.size))) (elim (Bool-cases ((b == 0) && doalloc)) [
      | inr stay ↦ rw stay (old_result doalloc (ndirect + o) b s x.file (omega arith) found stay)
      | inl get_it ↦ rw get_it (get doalloc get_it)
    ])
  where
    found : block_of s (ndirect + o) ≡ get_or words o 0
    found =
        index_block_of s idblock words (ndirect + o) (omega arith) x.named x.positive x.holds
        ∙ ap (λ (n : ℕ). get_or words n 0) (omega arith)

    get :
        (d : Bool)
        → ((get_or words o 0 == 0) && d) ≡ true
        → Returns (BmapResult d (ndirect + o) s) (
            sfs_balloc a.clear_data s.volume >>= λ (v, r).
            index_new a.write_index idblock words o s v r)
    get false get_it = absurd (ground arith)
    get true get_it =
        let (r, run, result) =
          Returns-inv (BallocResult s.volume) (sfs_balloc a.clear_data s.volume)
            (sfs_balloc_lem a.clear_data s.volume x.file.volume) in
        let empty : block_of s (ndirect + o) ≡ 0 = found ∙ ground arith in
        rw run (index_new_lem a.write_index idblock o words s r.0 r.1 x low empty result)
