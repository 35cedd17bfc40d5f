-- ===== src/Bitmap/Alloc.antt =====
-- `bitmap_create` and `bitmap_alloc` of a3/src/kern/lib/bitmap.c.
use csc.Base.{
  ℕ, zero, suc, ◌+◌, ◌-◌, ◌*◌, ◌/◌, ◌%◌, ◌≤◌, ◌<◌, ◌≡◌, refl, ◌∙◌, ◌≢◌, true, false, ◌||◌, Option,
  none, some, arith, ltb, lt→ltb, ltb→lt, ◌==◌, ==→eq, Bool-cases, inl, inr, length, Returns,
  Result, success, failure, enospc,
}
use csc.Bitmap.{
  Bitmap, words_for, word_allbits, test, mark_word, find_offset, alloc_at, alloc_from, bitmap_alloc,
}
use csc.Bitmap.Byte.{test-allbits, allbits_of_tests}
use csc.Bitmap.Laws.{word_at, bit, IsValid, with_word, load-ok, mark-IsValid, bit-mark, bit-at}

-- What the inner loop finds in `w` from `offset` on, in `n` rounds.
abbrev FirstClear : ℕ → ℕ → ℕ → Option ℕ → Type 0
FirstClear n offset w none = (o : ℕ) → offset ≤ o → o < offset + n → test w o ≡ true
FirstClear n offset w (some k) =
    (k < offset + n) × (test w k ≡ false) × ((o : ℕ) → offset ≤ o → o < k → test w o ≡ true)

FirstClear-suc :
    (n offset w : ℕ) (r : Option ℕ)
    → test w offset ≡ true
    → FirstClear n (offset + 1) w r
    → FirstClear (suc n) offset w r
FirstClear-suc n offset w none e h = λ o low high. elim (Bool-cases (offset == o)) [
  | inl same ↦ rw (← ==→eq offset o same) e
  | inr other ↦ h o (ground arith) (omega arith)
]
FirstClear-suc n offset w (some k) e (below, clear, marked) = (
  omega arith,
  clear,
  λ o low high. elim (Bool-cases (offset == o)) [
    | inl same ↦ rw (← ==→eq offset o same) e
    | inr other ↦ marked o (ground arith) high
  ],
)

find_offset_lem : (n offset w : ℕ) → FirstClear n offset w (find_offset n offset w)
unfolding find_offset
find_offset_lem zero offset w = λ o low high. absurd (omega arith)
find_offset_lem (suc n) offset w = elim (Bool-cases (test w offset)) [
  | inl e ↦ rw e (
      FirstClear-suc n offset w (find_offset n (offset + 1) w) e (find_offset_lem n (offset + 1) w))
  | inr e ↦ rw e (omega arith, e, λ o low high. absurd (omega arith))
]

-- What `bitmap_alloc` promises.
abbrev pub AllocResult : Bitmap → Bitmap × Result ℕ → Type 0
AllocResult b (b', success n) =
    (n < b.nbits)
    × (bit b n ≡ false)
    × ((i : ℕ) → i < n → bit b i ≡ true)
    × IsValid b'
    × (b'.nbits ≡ b.nbits)
    × ((i : ℕ) → bit b' i ≡ (n == i || bit b i))
AllocResult b (b', failure e) = (e ≡ enospc) × (b' ≡ b) × ((i : ℕ) → i < b.nbits → bit b i ≡ true)

-- The bits below byte `ix` are marked.
abbrev AllMarked : Bitmap → ℕ → Type 0
AllMarked b n = (i : ℕ) → i < n → bit b i ≡ true

AllMarked-step :
    (b : Bitmap) (ix k : ℕ)
    → k ≤ 8
    → AllMarked b (ix * 8)
    → ((o : ℕ) → o < k → test (word_at b ix) o ≡ true)
    → AllMarked b (ix * 8 + k)
AllMarked-step b ix k h before here i lt = elim (Bool-cases (ltb i (ix * 8))) [
  | inl e ↦ before i (ltb→lt i (ix * 8) e)
  | inr e ↦
      let split : i ≡ ix * 8 + (i - ix * 8) = ground arith in
      rw split (bit-at b ix (i - ix * 8) (ground arith) ∙ here (i - ix * 8) (ground arith))
]

found_inside :
    (b : Bitmap) (ix k : ℕ)
    → IsValid b
    → ix < length b.v
    → k < 8
    → test (word_at b ix) k ≡ false
    → ix * 8 + k < b.nbits
found_inside b ix k v inside h clear = elim (Bool-cases (ltb (ix * 8 + k) b.nbits)) [
  | inl e ↦ ltb→lt (ix * 8 + k) b.nbits e
  | inr e ↦
      let marked = v.leftover (ix * 8 + k) (ground arith) (omega arith) in
      let same = bit-at b ix k h in absurd (ground arith)
]

marked_result :
    (b : Bitmap) (n : ℕ)
    → IsValid b
    → n < b.nbits
    → bit b n ≡ false
    → AllMarked b n
    → AllocResult b (with_word b (n / 8) (mark_word (word_at b (n / 8)) (n % 8)), success n)
marked_result b n v lt clear before =
    let inside : n / 8 < length b.v = omega (arith, v.enough) in
    (lt, clear, before, mark-IsValid b n v inside, refl, λ i. bit-mark b n i v inside)

alloc_at_lem :
    (b : Bitmap) (ix : ℕ) (o : Option ℕ)
    → IsValid b
    → ix < length b.v
    → word_at b ix ≢ word_allbits
    → AllMarked b (ix * 8)
    → FirstClear 8 0 (word_at b ix) o
    → Returns (AllocResult b) (alloc_at b ix (word_at b ix) o)
unfolding alloc_at
alloc_at_lem b ix none v inside spare before full = absurd (
    spare (
      allbits_of_tests (word_at b ix) (v.bytes ix inside)
        (λ o lt. full o (omega arith) (omega arith))))
alloc_at_lem b ix (some k) v inside spare before (below, clear, marked) =
    let n = ix * 8 + k in
    let at : n / 8 ≡ ix = omega arith in
    let off : n % 8 ≡ k = omega arith in
    let lt = found_inside b ix k v inside below clear in
    let result =
      marked_result b n v lt (bit-at b ix k below ∙ clear)
        (AllMarked-step b ix k (omega arith) before (λ o h. marked o (omega arith) h)) in
    rw (lt→ltb n b.nbits lt) (rw (at, off) at result)

alloc_from_lem :
    (n ix : ℕ) (b : Bitmap)
    → IsValid b
    → n + ix ≡ length b.v
    → AllMarked b (ix * 8)
    → Returns (AllocResult b) (alloc_from n ix b)
unfolding alloc_from
alloc_from_lem zero ix b v end before = (refl, refl, λ i lt. before i (omega (arith, v.enough)))
alloc_from_lem (suc n) ix b v end before =
    let inside : ix < length b.v = omega arith in
    rw (load-ok b.v ix inside) (elim (Bool-cases (word_at b ix == word_allbits)) [
      | inl e ↦
          let full = ==→eq (word_at b ix) word_allbits e in
          let before' =
            AllMarked-step b ix 8 (omega arith) before (λ o lt. rw full (test-allbits o lt)) in
          rw e (alloc_from_lem n (ix + 1) b v (omega arith) (λ i lt. before' i (omega arith)))
      | inr e ↦ rw e (
          alloc_at_lem b ix (find_offset 8 0 (word_at b ix)) v inside (λ z. ground arith) before
            (find_offset_lem 8 0 (word_at b ix)))
    ])

-- On a valid bitmap `bitmap_alloc` returns the first clear bit, in range, and has marked it and no
-- other in a bitmap that is valid again; or, when no bit in range is clear, `ENOSPC`, and the
-- bitmap as it was.
pub bitmap_alloc_lem : (b : Bitmap) → IsValid b → Returns (AllocResult b) (bitmap_alloc b)
unfolding bitmap_alloc
bitmap_alloc_lem b v =
    alloc_from_lem (words_for b.nbits) 0 b v (omega (arith, v.sized)) (λ i lt. absurd (omega arith))
