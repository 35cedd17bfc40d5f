-- ===== src/Sfs/Tests.antt =====
-- The blocks of a file on small inputs.
use csc.Base.{
  ℕ, zero, suc, ◌∷◌, get_or, if◌then◌else◌, ne→==, ==→eq, ap, sym, ◌⊎◌, ◌≡◌, refl, true, false,
  ◌||◌, ◌==◌, arith, replicate, inl, inr, Returns, ok, some, ltb, ltb→lt, Bool-cases, ◌∙◌,
  get_or-replicate,
}
use csc.Bitmap.{Bitmap, bitmap_mark, bitmap_create}
use csc.Bitmap.Laws
use csc.Bitmap.Laws.{bit, bitmap_mark_lem}
use csc.Bitmap.Create.{Created}
use csc.Swap.Boot.{created}
use csc.Sfs.{Volume, Vnode, Answers, sfs_bmap, ndirect}
use csc.Sfs.Space
use csc.Sfs.Space.{BallocResult, sfs_balloc_lem}
use csc.Sfs.Map.{FileOk, block_of, block_of-direct, block_of-none}
use csc.Sfs.Bmap.{BmapResult}
use csc.Sfs.Lookup.{sfs_bmap_lem}
use csc.Sfs.Truncate.{TruncateAnswers, sfs_dotruncate}
use csc.Sfs.Truncate.Whole.{TruncateResult, sfs_dotruncate_lem}

-- A bitmap of sixteen blocks, all free.
abbrev sixteen : (b : Bitmap) × (bitmap_create true true 16 ≡ ok (some b)) × Created 16 b
sixteen = created 16 (omega arith)

-- The first block is in use.
abbrev boot_used :
    (b' : Bitmap) × (bitmap_mark sixteen.0 0 ≡ ok b')
    × Laws.IsValid b'
    × (b'.nbits ≡ sixteen.0.nbits)
    × ((i : ℕ) → bit b' i ≡ (0 == i || bit sixteen.0 i))
boot_used =
    bitmap_mark_lem sixteen.0 0 sixteen.2.0 (omega (arith, sixteen.2.1))
      (sixteen.2.2 0 (omega arith))

abbrev small : Volume
small = record {
  freemap = boot_used.0;
  freemapdirty = false;
  nblocks = 16;
  disk = λ i. replicate 128 7;
}

small-IsValid : Space.IsValid small
small-IsValid = record {
  map = boot_used.2;
  covers = omega (arith, boot_used.3, sixteen.2.1);
  nonempty = omega arith;
  first = boot_used.4 0;
  past = λ i out lt. absurd (omega (arith, boot_used.3, sixteen.2.1));
}

abbrev answers : Answers
answers = record {
  mem = true;
  clear_index = true;
  read_index = true;
  clear_data = true;
  write_index = true;
}

abbrev empty_file : Vnode
empty_file = record {
  volume = small;
  inode = record { size = 0; kind = 1; linkcount = 1; direct = replicate 15 0; indirect = 0 };
  dirty = false;
}

empty_file-block_of : (k : ℕ) → block_of empty_file k ≡ 0
empty_file-block_of k = elim (Bool-cases (ltb k ndirect)) [
  | inl e ↦ block_of-direct empty_file k (ltb→lt k ndirect e) ∙ get_or-replicate {A = ℕ} 15 0 k
  | inr e ↦ block_of-none empty_file k (ground arith) refl
]

empty_file-FileOk : FileOk empty_file
empty_file-FileOk = record {
  volume = small-IsValid;
  directs = refl;
  index = inl refl;
  mapped = λ k lt. inl (empty_file-block_of k);
  apart = λ j k hj hk positive e. absurd (omega (arith, empty_file-block_of j));
  not_index = λ k lt positive e. absurd (omega (arith, empty_file-block_of k));
}

sfs_bmap_lem_example : Returns (BmapResult true 20 empty_file) (sfs_bmap answers true 20 empty_file)
sfs_bmap_lem_example = sfs_bmap_lem answers true 20 empty_file empty_file-FileOk (omega arith)

abbrev all_well : TruncateAnswers
all_well = record { mem = true; read_index = true; write_index = true }

-- Block 5 is in use besides.
five_clear : bit boot_used.0 5 ≡ false
five_clear = boot_used.4 5 ∙ sixteen.2.2 5 (omega arith)

abbrev five_used :
    (b' : Bitmap) × (bitmap_mark boot_used.0 5 ≡ ok b')
    × Laws.IsValid b'
    × (b'.nbits ≡ boot_used.0.nbits)
    × ((i : ℕ) → bit b' i ≡ (5 == i || bit boot_used.0 i))
five_used =
    bitmap_mark_lem boot_used.0 5 boot_used.2 (omega (arith, boot_used.3, sixteen.2.1)) five_clear

-- It is block 1 of a file.
abbrev used_file : Vnode
used_file = record {
  volume = record {
    freemap = five_used.0;
    freemapdirty = true;
    nblocks = 16;
    disk = λ i. replicate 128 7;
  };
  inode = record {
    size = 1024;
    kind = 1;
    linkcount = 1;
    direct = 0 ∷ 5 ∷ replicate 13 0;
    indirect = 0;
  };
  dirty = false;
}

used_direct : (k : ℕ) → get_or {A = ℕ} (0 ∷ 5 ∷ replicate 13 0) k 0 ≡ (if k == 1 then 5 else 0)
used_direct zero = refl
used_direct (suc zero) = refl
used_direct (suc (suc k)) =
    let other = ne→== (suc (suc k)) 1 (λ e. omega arith) in
    rw other (get_or-replicate {A = ℕ} 13 0 k)

used_file-block_of : (k : ℕ) → block_of used_file k ≡ (if k == 1 then 5 else 0)
used_file-block_of k = elim (Bool-cases (ltb k ndirect)) [
  | inl e ↦ block_of-direct used_file k (ltb→lt k ndirect e) ∙ used_direct k
  | inr e ↦
      let other : k == 1 ≡ false = ground arith in
      block_of-none used_file k (ground arith) refl ∙ rw other refl
]

used_file-at : (k : ℕ) → (block_of used_file k ≡ 0) ⊎ ((k ≡ 1) × (block_of used_file k ≡ 5))
used_file-at k = elim (Bool-cases (k == 1)) [
  | inl e ↦ inr (==→eq k 1 e, used_file-block_of k ∙ rw e refl)
  | inr e ↦ inl (used_file-block_of k ∙ rw e refl)
]

used_file-FileOk : FileOk used_file
used_file-FileOk = record {
  volume = record {
    map = five_used.2;
    covers = omega (arith, five_used.3, boot_used.3, sixteen.2.1);
    nonempty = omega arith;
    first = five_used.4 0 ∙ boot_used.4 0;
    past = λ i out lt. absurd (omega (arith, five_used.3, boot_used.3, sixteen.2.1));
  };
  directs = refl;
  index = inl refl;
  mapped = λ k lt. elim (used_file-at k) [
    | inl none ↦ inl none
    | inr (one, five) ↦ inr (omega (arith, five), ap (bit five_used.0) five ∙ five_used.4 5)
  ];
  apart = λ j k hj hk positive e. elim (used_file-at j) [
    | inl none ↦ absurd (omega (arith, none))
    | inr (one, five) ↦ elim (used_file-at k) [
      | inl none' ↦ absurd (omega (arith, none', e))
      | inr (one', five') ↦ one ∙ sym one'
    ]
  ];
  not_index = λ k lt positive e. absurd (omega (arith, positive, e));
}

sfs_dotruncate_lem_example :
    Returns (TruncateResult all_well 512 used_file) (sfs_dotruncate all_well 512 used_file)
sfs_dotruncate_lem_example =
    sfs_dotruncate_lem all_well 512 used_file used_file-FileOk (omega arith) refl
