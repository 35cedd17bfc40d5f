-- ===== src/Bitmap/Laws.antt =====
-- The bits of a bitmap of a3/src/kern/lib/bitmap.c, and what its operations do to them.
use csc.Base.{
  ℕ, ◌+◌, ◌*◌, ◌/◌, ◌%◌, ◌≤◌, ◌<◌, ◌≡◌, refl, ap, ◌∙◌, ◌≢◌, Bool, true, false, not, ◌&&◌, ◌||◌,
  List, arith, lt→ltb, ◌==◌, eq→==, ==→eq, ne→==, if◌then◌else◌, Bool-cases, inl, inr, length,
  get_or, set, length-set, get_or-set_self, get_or-set_ne, get_elem?-eq-get_or, ok,
}
use csc.Bitmap.{
  Bitmap, load, words_for, test, mark_word, unmark_word, bitmap_mark, bitmap_unmark, bitmap_isset,
}
use csc.Bitmap.Byte.{test-mark_word, test-unmark_word, word_bounds}

-- The byte of a bit, and the bit.
abbrev pub word_at : Bitmap → ℕ → ℕ
word_at b ix = get_or b.v ix 0

pub bit : Bitmap → ℕ → Bool
bit b i = test (word_at b (i / 8)) (i % 8)

-- The array has a byte for every eight bits, and the bits past the end are marked.
pub record IsValid (b : Bitmap) : Type 0 where
  pub sized : length b.v ≡ words_for b.nbits
  pub enough : b.nbits ≤ 8 * length b.v
  pub bytes : (ix : ℕ) → ix < length b.v → word_at b ix < 256
  pub leftover : (i : ℕ) → b.nbits ≤ i → i < 8 * length b.v → bit b i ≡ true

-- Byte `ix` is replaced.
abbrev pub with_word : Bitmap → ℕ → ℕ → Bitmap
with_word b ix w = record b { v = set b.v ix w }

pub bit-with_word :
    (b : Bitmap) (ix w i : ℕ)
    → ix < length b.v
    → bit (with_word b ix w) i ≡ (if ix == i / 8 then test w (i % 8) else bit b i)
unfolding bit
bit-with_word b ix w i h = elim (Bool-cases (ix == i / 8)) [
  | inl e ↦ rw (e, ← ==→eq ix (i / 8) e, get_or-set_self b.v ix w 0 h)
  | inr e ↦ let ne : ix ≢ i / 8 = λ z. ground arith in rw (e, get_or-set_ne b.v ix (i / 8) w 0 ne)
]

or_true : (b : Bool) → (b || true) ≡ true
or_true true = refl
or_true false = refl

pub load-ok : (v : List ℕ) (ix : ℕ) → ix < length v → load v ix ≡ ok (get_or v ix 0)
unfolding load
load-ok v ix h = rw (get_elem?-eq-get_or v ix 0 h, load)

pub bit-of : (b : Bitmap) (i : ℕ) → bit b i ≡ test (word_at b (i / 8)) (i % 8)
unfolding bit
bit-of b i = refl

bit-test : (b : Bitmap) (n : ℕ) {x : Bool} → bit b n ≡ x → test (word_at b (n / 8)) (n % 8) ≡ x
unfolding bit
bit-test b n h = h

pub bit-at : (b : Bitmap) (ix o : ℕ) → o < 8 → bit b (ix * 8 + o) ≡ test (word_at b ix) o
unfolding bit
bit-at b ix o h =
    let at : (ix * 8 + o) / 8 ≡ ix = omega arith in
    let off : (ix * 8 + o) % 8 ≡ o = omega arith in rw (at, off)

same_bit : (n i : ℕ) → n / 8 ≡ i / 8 → (n % 8 == i % 8) ≡ (n == i)
same_bit n i h = elim (Bool-cases (n == i)) [
  | inl e ↦ rw e (eq→== (n % 8) (i % 8) (ap (λ (k : ℕ). k % 8) (==→eq n i e)))
  | inr e ↦ rw e (ne→== (n % 8) (i % 8) (λ z. let same : n ≡ i = omega arith in ground arith))
]

-- Marking bit `n` in its byte marks it in the bitmap, and changes no other.
pub bit-mark :
    (b : Bitmap) (n i : ℕ)
    → IsValid b
    → n / 8 < length b.v
    → bit (with_word b (n / 8) (mark_word (word_at b (n / 8)) (n % 8))) i ≡ (n == i || bit b i)
unfolding bit
bit-mark b n i v h = elim (Bool-cases (n / 8 == i / 8)) [
  | inl e ↦
      let same = ==→eq (n / 8) (i / 8) e in
      bit-with_word b (n / 8) (mark_word (word_at b (n / 8)) (n % 8)) i h
      ∙ rw (
        e,
        test-mark_word (word_at b (n / 8)) (n % 8) (i % 8) (v.bytes (n / 8) h) (omega arith)
            (omega arith),
        same_bit n i same,
        same,
      )
  | inr e ↦
      bit-with_word b (n / 8) (mark_word (word_at b (n / 8)) (n % 8)) i h
      ∙ rw (e, ne→== n i (λ z. ground (arith, ap (λ (k : ℕ). k / 8) z)))
]

-- Unmarking bit `n` in its byte clears it in the bitmap, and changes no other.
pub bit-unmark :
    (b : Bitmap) (n i : ℕ)
    → IsValid b
    → n / 8 < length b.v
    → bit (with_word b (n / 8) (unmark_word (word_at b (n / 8)) (n % 8))) i
      ≡ (not (n == i) && bit b i)
unfolding bit
bit-unmark b n i v h = elim (Bool-cases (n / 8 == i / 8)) [
  | inl e ↦
      let same = ==→eq (n / 8) (i / 8) e in
      bit-with_word b (n / 8) (unmark_word (word_at b (n / 8)) (n % 8)) i h
      ∙ rw (
        e,
        test-unmark_word (word_at b (n / 8)) (n % 8) (i % 8) (v.bytes (n / 8) h) (omega arith)
            (omega arith),
        same_bit n i same,
        same,
      )
  | inr e ↦
      bit-with_word b (n / 8) (unmark_word (word_at b (n / 8)) (n % 8)) i h
      ∙ rw (e, ne→== n i (λ z. ground (arith, ap (λ (k : ℕ). k / 8) z)))
]

-- A byte may be replaced by another, if the bits past the end stay marked.
pub with_word-IsValid :
    (b : Bitmap) (ix w : ℕ)
    → IsValid b
    → w < 256
    → ((i : ℕ) → b.nbits ≤ i → i < 8 * length b.v → bit (with_word b ix w) i ≡ true)
    → IsValid (with_word b ix w)
with_word-IsValid b ix w v small kept = record {
  sized = length-set b.v ix w ∙ v.sized;
  enough = rw (length-set b.v ix w) v.enough;
  bytes = λ k lt. elim (Bool-cases (ix == k)) [
    | inl e ↦
        let same = ==→eq ix k e in
        rw (← same, get_or-set_self b.v ix w 0 (omega (arith, length-set b.v ix w))) small
    | inr e ↦
        rw (get_or-set_ne b.v ix k w 0 (λ z. ground arith))
          (v.bytes k (omega (arith, length-set b.v ix w)))
  ];
  leftover = λ i out lt. kept i out (omega (arith, length-set b.v ix w));
}

word_in : (b : Bitmap) (n : ℕ) → IsValid b → n < b.nbits → n / 8 < length b.v
word_in b n v h = omega (arith, v.enough)

pub mark-IsValid :
    (b : Bitmap) (n : ℕ)
    → IsValid b
    → n / 8 < length b.v
    → IsValid (with_word b (n / 8) (mark_word (word_at b (n / 8)) (n % 8)))
mark-IsValid b n v h =
    with_word-IsValid b (n / 8) (mark_word (word_at b (n / 8)) (n % 8)) v
      (word_bounds (word_at b (n / 8)) (n % 8) (v.bytes (n / 8) h) (omega arith)).0
      (λ i out lt. bit-mark b n i v h ∙ rw (v.leftover i out lt) (or_true (n == i)))

unmark-IsValid :
    (b : Bitmap) (n : ℕ)
    → IsValid b
    → n < b.nbits
    → IsValid (with_word b (n / 8) (unmark_word (word_at b (n / 8)) (n % 8)))
unmark-IsValid b n v h =
    let inside = word_in b n v h in
    with_word-IsValid b (n / 8) (unmark_word (word_at b (n / 8)) (n % 8)) v
      (word_bounds (word_at b (n / 8)) (n % 8) (v.bytes (n / 8) inside) (omega arith)).1
      (λ i out lt. bit-unmark b n i v inside ∙ rw (v.leftover i out lt, ne→== n i (omega arith)))

-- Of a bit in range `bitmap_isset` tells whether it is marked.
pub bitmap_isset_lem :
    (b : Bitmap) (n : ℕ) → IsValid b → n < b.nbits → bitmap_isset b n ≡ ok (bit b n)
unfolding bitmap_isset bit
bitmap_isset_lem b n v h = rw (load-ok b.v (n / 8) (word_in b n v h))

-- `bitmap_mark` of a clear bit marks it, and no other.
pub bitmap_mark_lem :
    (b : Bitmap) (n : ℕ)
    → IsValid b
    → n < b.nbits
    → bit b n ≡ false
    → (b' : Bitmap) × (bitmap_mark b n ≡ ok b')
      × IsValid b'
      × (b'.nbits ≡ b.nbits)
      × ((i : ℕ) → bit b' i ≡ (n == i || bit b i))
unfolding bitmap_mark
bitmap_mark_lem b n v h clear =
    let inside = word_in b n v h in
    (
      with_word b (n / 8) (mark_word (word_at b (n / 8)) (n % 8)),
      rw (lt→ltb n b.nbits h, load-ok b.v (n / 8) inside, bit-test b n clear),
      mark-IsValid b n v inside,
      refl,
      λ i. bit-mark b n i v inside,
    )

-- `bitmap_unmark` of a marked bit clears it, and no other.
pub bitmap_unmark_lem :
    (b : Bitmap) (n : ℕ)
    → IsValid b
    → n < b.nbits
    → bit b n ≡ true
    → (b' : Bitmap) × (bitmap_unmark b n ≡ ok b')
      × IsValid b'
      × (b'.nbits ≡ b.nbits)
      × ((i : ℕ) → bit b' i ≡ (not (n == i) && bit b i))
unfolding bitmap_unmark
bitmap_unmark_lem b n v h marked =
    let inside = word_in b n v h in
    (
      with_word b (n / 8) (unmark_word (word_at b (n / 8)) (n % 8)),
      rw (lt→ltb n b.nbits h, load-ok b.v (n / 8) inside, bit-test b n marked),
      unmark-IsValid b n v h,
      refl,
      λ i. bit-unmark b n i v inside,
    )
