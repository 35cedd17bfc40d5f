-- ===== src/Sfs/Truncate/Whole.antt =====
-- `sfs_dotruncate` of a3/src/kern/fs/sfs/sfs_vnode.c, all of it.
use csc.Base.{
  ℕ, ◌+◌, ◌-◌, ◌/◌, ◌≤◌, ◌<◌, ◌≡◌, refl, sym, ap, ◌∙◌, Bool, true, false, not, ◌&&◌, ltb, leb,
  ltb→lt, lt→ltb, ◌==◌, if◌then◌else◌, arith, Bool-cases, inl, inr, ◌⊎◌, ok, ◌>>=◌, Returns,
  Returns-inv, Result, success, failure, eio,
}
use csc.Sfs.{Vnode, ndirect, dbperidb}
use csc.Sfs.Space.{in_use}
use csc.Sfs.Map.{FileOk, IndexOk, block_of, max_blocks, block_of-none}
use csc.Sfs.Truncate.{
  TruncateAnswers, discard, truncate_direct, index_cut, truncate_index, truncated, sfs_dotruncate,
}
use csc.Sfs.Truncate.Discard.{Discarded, discard_lem}
use csc.Sfs.Truncate.Shrink.{Part-Blocks, shrunk-FileOk}
use csc.Sfs.Truncate.Phases.{DirectCut, truncate_direct_lem, far_same}
use csc.Sfs.Truncate.Index.{IndexCut, IndexResult, near_same, index_Part, cut_lem}

-- Nothing is to be cut.
uncut :
    (blocklen : ℕ) (s : Vnode)
    → FileOk s
    → (ltb blocklen (ndirect + dbperidb - 1) && not (s.inode.indirect == 0)) ≡ false
    → IndexCut blocklen s s
uncut blocklen s h skip = record {
  file = h;
  near = λ k lt. refl;
  far = λ k out lt. elim (Bool-cases (ltb blocklen k)) [
    | inl e ↦ rw e (block_of-none s k out (no_index k lt e))
    | inr e ↦ rw e refl
  ];
  freed = λ k out lt e p. absurd (omega (arith, p, block_of-none s k out (no_index k lt e)));
  only = λ b u. u;
}
  where
    no_index : (k : ℕ) → k < max_blocks → ltb blocklen k ≡ true → s.inode.indirect ≡ 0
    no_index k lt e =
        let low : blocklen < ndirect + dbperidb - 1 = omega (arith, ltb→lt blocklen k e, lt) in
        let test = lt→ltb blocklen (ndirect + dbperidb - 1) low in ground (arith, test, skip)

truncate_index_lem :
    (a : TruncateAnswers) (blocklen : ℕ) (s : Vnode)
    → FileOk s
    → s.inode.indirect < s.volume.nblocks
    → a.mem ≡ true
    → Returns (IndexResult (a.read_index && a.write_index) blocklen s) (truncate_index a blocklen s)
unfolding truncate_index
truncate_index_lem a blocklen s h inside mem =
    elim (Bool-cases (ltb blocklen (ndirect + dbperidb - 1) && not (s.inode.indirect == 0))) [
      | inr z ↦ rw z (uncut blocklen s h z)
      | inl z ↦ rw (z, mem) (loaded a.read_index h.index (ground arith))
    ]
  where
    loaded :
        (io : Bool)
        → IndexOk s
        → 0 < s.inode.indirect
        → Returns (IndexResult (io && a.write_index) blocklen s) (
            if io
            then (discard
                  (λ j. ltb blocklen (ndirect + j))
                  0
                  (s.volume.disk s.inode.indirect)
                  s.volume
                >>= λ (words, cut, v).
                    index_cut a.write_index s.inode.indirect words cut (record s { volume = v }))
            else ok (s, false))
    loaded io (inl none) positive = absurd (omega (arith, none, positive))
    loaded false (inr (p, used, size)) positive = refl
    loaded true (inr (p, used, size)) positive =
        let part = index_Part blocklen s h positive used size inside in
        let (r, run, d) =
          Returns-inv
            (Discarded (λ j. ltb blocklen (ndirect + j)) 0 (s.volume.disk s.inode.indirect)
              s.volume)
            (discard (λ j. ltb blocklen (ndirect + j)) 0 (s.volume.disk s.inode.indirect) s.volume)
            (discard_lem (λ j. ltb blocklen (ndirect + j)) 0 (s.volume.disk s.inode.indirect)
              s.volume h.volume (Part-Blocks s ndirect (s.volume.disk s.inode.indirect) h part)) in
        rw run (cut_lem blocklen s h positive used size inside r d a.write_index)

-- Whether block `k` stays in a file that is cut to `blocklen` blocks.
abbrev pub stays : ℕ → ℕ → Bool
stays blocklen k = if ltb k ndirect then not (leb blocklen k) else not (ltb blocklen k)

-- What a truncation leaves.
pub record Truncated (len : ℕ) (s s' : Vnode) : Type 0 where
  pub file : FileOk s'
  pub size : s'.inode.size ≡ len
  pub blocks :
      (k : ℕ)
      → k < max_blocks
      → block_of s' k ≡ (if stays ((len + 511) / 512) k then block_of s k else 0)
  pub freed :
      (k : ℕ)
      → k < max_blocks
      → stays ((len + 511) / 512) k ≡ false
      → 0 < block_of s k
      → in_use s'.volume (block_of s k) ≡ false

abbrev pub TruncateResult : TruncateAnswers → ℕ → Vnode → Vnode × Result (Unit {0}) → Type 0
TruncateResult a len s (s', success u) = Truncated len s s'
TruncateResult a len s (s', failure e) = (e ≡ eio) × ((a.read_index && a.write_index) ≡ false)

-- The file with its new size.
abbrev sized : ℕ → Vnode → Vnode
sized len s = record s { inode = record (s.inode) { size = len }; dirty = true }

sized-block_of : (len : ℕ) (s : Vnode) (k : ℕ) → block_of (sized len s) k ≡ block_of s k
sized-block_of len s k = elim (Bool-cases (ltb k ndirect)) [
  | inl z ↦ near_same s (sized len s) k refl (ltb→lt k ndirect z)
  | inr z ↦ far_same s (sized len s) k (ground arith) refl refl
]

sized-FileOk : (len : ℕ) (s : Vnode) → FileOk s → FileOk (sized len s)
sized-FileOk len s h =
    shrunk-FileOk s (sized len s) h h.volume refl h.directs h.index (inl refl)
      (λ k lt. same_k k lt (h.mapped k lt))
  where
    same_k :
        (k : ℕ)
        → k < max_blocks
        → (block_of s k ≡ 0)
          ⊎ ((block_of s k < s.volume.nblocks) × (in_use s.volume (block_of s k) ≡ true))
        → (block_of (sized len s) k ≡ 0)
          ⊎ ((block_of (sized len s) k ≡ block_of s k)
              × (0 < block_of s k → in_use s.volume (block_of s k) ≡ true))
    same_k k lt (inl none) = inl (sized-block_of len s k ∙ none)
    same_k k lt (inr (inside, used)) = inr (sized-block_of len s k, λ p. used)

flip : (b : Bool) (x : ℕ) → (if b then 0 else x) ≡ (if not b then x else 0)
flip true x = refl
flip false x = refl

not-false : (b : Bool) → not b ≡ false → b ≡ true
not-false true e = refl
not-false false e = absurd (ground (arith, e))

both_cut :
    (len : ℕ) (s s1 s2 : Vnode)
    → DirectCut ((len + 511) / 512) s s1
    → IndexCut ((len + 511) / 512) s1 s2
    → Truncated len s (sized len s2)
both_cut len s s1 s2 dc ic = record {
  file = sized-FileOk len s2 ic.file;
  size = refl;
  blocks = λ k lt. elim (Bool-cases (ltb k ndirect)) [
    | inl z ↦
        let low = ltb→lt k ndirect z in
        sized-block_of len s2 k
        ∙ ic.near k low
        ∙ dc.near k low
        ∙ (rw z (flip (leb ((len + 511) / 512) k) (block_of s k)))
    | inr z ↦
        let out : ndirect ≤ k = ground arith in
        sized-block_of len s2 k
        ∙ ic.far k out lt
        ∙ ap (λ (x : ℕ). if ltb ((len + 511) / 512) k then 0 else x) (dc.far k out)
        ∙ (rw z (flip (ltb ((len + 511) / 512) k) (block_of s k)))
  ];
  freed = λ k lt e p. elim (Bool-cases (ltb k ndirect)) [
    | inl z ↦
        let low = ltb→lt k ndirect z in
        let cut =
          ap
            (λ (b : Bool).
              if b then not (leb ((len + 511) / 512) k) else not (ltb ((len + 511) / 512) k))
            (sym z)
          ∙ e in
        ic.only (block_of s k) (dc.freed k low (not-false (leb ((len + 511) / 512) k) cut) p)
    | inr z ↦
        let out : ndirect ≤ k = ground arith in
        let cut =
          ap
            (λ (b : Bool).
              if b then not (leb ((len + 511) / 512) k) else not (ltb ((len + 511) / 512) k))
            (sym z)
          ∙ e in
        ap (in_use s2.volume) (sym (dc.far k out))
        ∙ ic.freed k out lt (not-false (ltb ((len + 511) / 512) k) cut)
            (omega (arith, dc.far k out, p))
  ];
}

-- On a file whose blocks are in use and apart `sfs_dotruncate` returns, if its `kmalloc` succeeds and the
-- indirect block is one of the disk. If the device does not fail, the file has the new size, its
-- blocks are in use and apart, the map keeps the blocks that `stays` names and no others, and the
-- disk blocks of the others are free. `stays` names the direct blocks before the new end and the
-- indirect ones before it, but also the first indirect one past it. On a failure the result is EIO.
pub sfs_dotruncate_lem :
    (a : TruncateAnswers) (len : ℕ) (s : Vnode)
    → FileOk s
    → s.inode.indirect < s.volume.nblocks
    → a.mem ≡ true
    → Returns (TruncateResult a len s) (sfs_dotruncate a len s)
unfolding sfs_dotruncate truncated
sfs_dotruncate_lem a len s h inside mem =
    let (s1, run, dc) =
      Returns-inv (DirectCut ((len + 511) / 512) s) (truncate_direct ((len + 511) / 512) s)
        (truncate_direct_lem ((len + 511) / 512) s h) in
    let (r, run', ic) =
      Returns-inv (IndexResult (a.read_index && a.write_index) ((len + 511) / 512) s1)
        (truncate_index a ((len + 511) / 512) s1)
        (truncate_index_lem a ((len + 511) / 512) s1 dc.file
          (omega (arith, dc.same_index, dc.same_size, inside)) mem) in
    rw (run, run') (ends s1 dc r ic)
  where
    ends :
        (s1 : Vnode)
        → DirectCut ((len + 511) / 512) s s1
        → (r : Vnode × Bool) → IndexResult (a.read_index && a.write_index) ((len + 511) / 512) s1 r
        → TruncateResult a len s (truncated len r)
    ends s1 dc (s2, true) ic = both_cut len s s1 s2 dc ic
    ends s1 dc (s2, false) e = (refl, e)
