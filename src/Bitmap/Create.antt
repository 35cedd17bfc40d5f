-- ===== src/Bitmap/Create.antt =====
-- `bitmap_create` of a3/src/kern/lib/bitmap.c.
use csc.Base.{
  ℕ, ◌+◌, ◌-◌, ◌*◌, ◌/◌, ◌%◌, ◌^◌, ◌≤◌, ◌<◌, ◌≡◌, refl, ap, ◌∙◌, Bool, true, false, not, ◌&&◌,
  Option, none, some, List, arith, ltb, lt→ltb, ltb→lt, ◌==◌, eq→==, ==→eq, Bool-cases, inl, inr,
  length, length-set, get_or-set_self, get_or-set_ne, Returns, length-replicate, get_or-replicate,
  get_or, replicate, ok,
}
use csc.Bitmap.{Bitmap, words_for, mark_over, mark_leftover, bitmap_create}
use csc.Bitmap.Byte.{test-zero, mark_over_lem}
use csc.Bitmap.Laws.{bit, bit-of, IsValid, with_word, load-ok, bit-with_word}

abbrev zeros : ℕ → List ℕ
zeros n = replicate n 0

length-zeros : (n : ℕ) → length (zeros n) ≡ n
length-zeros n = length-replicate {A = ℕ} n 0

zeros-at : (n ix : ℕ) → get_or (zeros n) ix 0 ≡ 0
zeros-at n ix = get_or-replicate {A = ℕ} n 0 ix

abbrev clear_map : ℕ → Bitmap
clear_map nbits = record { nbits = nbits; v = zeros (words_for nbits) }

bit-clear_map : (nbits i : ℕ) → bit (clear_map nbits) i ≡ false
bit-clear_map nbits i =
    rw (bit-of (clear_map nbits) i, zeros-at (words_for nbits) (i / 8))
      (test-zero (i % 8) (omega arith))

-- The bitmap that `bitmap_create` leaves.
abbrev pub Created : ℕ → Bitmap → Type 0
Created nbits b = IsValid b × (b.nbits ≡ nbits) × ((i : ℕ) → i < nbits → bit b i ≡ false)

even-Created :
    (nbits : ℕ)
    → nbits + 8 ≤ 2 ^ 32
    → ltb (nbits / 8) (words_for nbits) ≡ false
    → Created nbits (clear_map nbits)
even-Created nbits h even =
    let len = length-zeros (words_for nbits) in
    (
      record {
        sized = len;
        enough = ground arith;
        bytes = λ ix lt. rw (zeros-at (words_for nbits) ix) (omega arith);
        leftover = λ i out lt. absurd (ground arith);
      },
      refl,
      λ i lt. bit-clear_map nbits i,
    )

abbrev left_over : ℕ → Bitmap
left_over nbits = with_word (clear_map nbits) (nbits / 8) (mark_over (8 - nbits % 8) (nbits % 8) 0)

bit-left_over :
    (nbits i : ℕ)
    → nbits / 8 < words_for nbits
    → i < 8 * words_for nbits
    → nbits + 8 ≤ 2 ^ 32
    → bit (left_over nbits) i ≡ not (ltb i nbits)
bit-left_over nbits i inside lt h =
    let len : length (zeros (words_for nbits)) ≡ words_for nbits = length-zeros (words_for nbits) in
    let w = mark_over (8 - nbits % 8) (nbits % 8) 0 in
    bit-with_word (clear_map nbits) (nbits / 8) w i (omega arith)
    ∙ elim (Bool-cases (nbits / 8 == i / 8)) [
      | inl e ↦
          let same = ==→eq (nbits / 8) (i / 8) e in
          rw e (
            (mark_over_lem (nbits % 8) (i % 8) (omega arith) (omega arith)).0
            ∙ ap not (ground arith))
      | inr e ↦ rw (e, bit-clear_map nbits i) (ground arith)
    ]

odd-Created :
    (nbits : ℕ) → nbits + 8 ≤ 2 ^ 32 → nbits / 8 < words_for nbits → Created nbits (left_over nbits)
odd-Created nbits h odd =
    let len : length (zeros (words_for nbits)) ≡ words_for nbits = length-zeros (words_for nbits) in
    let len' : length (left_over nbits).v ≡ words_for nbits =
      length-set (zeros (words_for nbits)) (nbits / 8) (mark_over (8 - nbits % 8) (nbits % 8) 0)
      ∙ len in
    (
      record {
        sized = len';
        enough = omega arith;
        bytes = λ ix lt. elim (Bool-cases (nbits / 8 == ix)) [
          | inl e ↦
              rw
                (
                  ← ==→eq (nbits / 8) ix e,
                  get_or-set_self (zeros (words_for nbits)) (nbits / 8)
                      (mark_over (8 - nbits % 8) (nbits % 8) 0) 0 (omega arith),
                )
                (mark_over_lem (nbits % 8) 0 (omega arith) (omega arith)).1
          | inr e ↦
              rw
                (
                  get_or-set_ne (zeros (words_for nbits)) (nbits / 8) ix
                      (mark_over (8 - nbits % 8) (nbits % 8) 0) 0 (λ z. ground arith),
                  zeros-at (words_for nbits) ix,
                )
                (omega arith)
        ];
        leftover = λ i out lt. bit-left_over nbits i odd (omega arith) h ∙ ground arith;
      },
      refl,
      λ i lt. bit-left_over nbits i odd (omega arith) h ∙ ground arith,
    )

-- What `bitmap_create` promises.
abbrev pub CreateResult : Bool → ℕ → Option Bitmap → Type 0
CreateResult memory nbits none = memory ≡ false
CreateResult memory nbits (some b) = (memory ≡ true) × Created nbits b

mark_leftover_lem :
    (nbits : ℕ)
    → nbits + 8 ≤ 2 ^ 32
    → nbits / 8 < words_for nbits
    → mark_leftover (clear_map nbits) (words_for nbits) ≡ ok (left_over nbits)
unfolding mark_leftover
mark_leftover_lem nbits h odd =
    let len : length (zeros (words_for nbits)) ≡ words_for nbits = length-zeros (words_for nbits) in
    let last : words_for nbits - 1 ≡ nbits / 8 = omega arith in
    let over : nbits - nbits / 8 * 8 ≡ nbits % 8 = omega arith in
    rw (
      last,
      over,
      eq→== (nbits / 8) (nbits / 8) refl,
      lt→ltb 0 (nbits % 8) (omega arith),
      lt→ltb (nbits % 8) 8 (omega arith),
      load-ok (zeros (words_for nbits)) (nbits / 8) (omega arith),
      zeros-at (words_for nbits) (nbits / 8),
    )

-- Of a number of bits that leaves eight below 2 ^ 32, `bitmap_create` returns a valid bitmap of so
-- many clear bits if memory does not run out, and a null pointer if it does; no assertion stops it.
pub bitmap_create_lem :
    (mem mem_words : Bool) (nbits : ℕ)
    → nbits + 8 ≤ 2 ^ 32
    → Returns (CreateResult (mem && mem_words) nbits) (bitmap_create mem mem_words nbits)
unfolding bitmap_create
bitmap_create_lem false mem_words nbits h = refl
bitmap_create_lem true false nbits h = refl
bitmap_create_lem true true nbits h = elim (Bool-cases (ltb (nbits / 8) (words_for nbits))) [
  | inl e ↦
      let odd = ltb→lt (nbits / 8) (words_for nbits) e in
      rw (e, mark_leftover_lem nbits h odd) (refl, odd-Created nbits h odd)
  | inr e ↦ rw e (refl, even-Created nbits h e)
]
