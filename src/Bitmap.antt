-- ===== src/Bitmap.antt =====
-- a3/src/kern/lib/bitmap.c: an array of bits in bytes. `kmalloc` may fail: two flags say whether its
-- calls do not. Bits past `nbits` in the last byte are marked, so that they are never given out.
pub mod Byte
pub mod Laws
pub mod Alloc
pub mod Create
mod Tests
use Prim.Native.Nat.{bit_and, bit_or}
use csc.Base.{
  ℕ, zero, suc, ◌+◌, ◌-◌, ◌*◌, ◌/◌, ◌%◌, ◌^◌, Bool, true, false, not, Option, none, some, List, ltb,
  ◌==◌, if◌then◌else◌, get_elem?, set, replicate, Run, ok, panic, ◌>>=◌, ◌>>◌, assert, Result,
  success, failure, enospc,
}

-- `struct bitmap`
pub record Bitmap : Type 0 where
  pub nbits : ℕ
  pub v : List ℕ

abbrev pub bits_per_word : ℕ
bits_per_word = 8

abbrev pub word_allbits : ℕ
word_allbits = 0xff

-- `DIVROUNDUP(nbits, BITS_PER_WORD)`, of `u_int32_t`
abbrev pub words_for : ℕ → ℕ
words_for nbits = (nbits + bits_per_word - 1) % 2 ^ 32 / bits_per_word

-- `(w & ((WORD_TYPE)1 << offset)) != 0`
pub test : ℕ → ℕ → Bool
test w offset = not (bit_and w (2 ^ offset) == 0)

-- `w |= (WORD_TYPE)1 << offset`
pub mark_word : ℕ → ℕ → ℕ
mark_word w offset = bit_or w (2 ^ offset)

-- `w &= ~mask`, in eight bits
pub unmark_word : ℕ → ℕ → ℕ
unmark_word w offset = bit_and w (word_allbits - 2 ^ offset)

-- `for (j=overbits; j<BITS_PER_WORD; j++)`, `n` rounds.
pub mark_over : ℕ → ℕ → ℕ → ℕ
mark_over zero j w = w
mark_over (suc n) j w = mark_over n (j + 1) (mark_word w j)

pub load : List ℕ → ℕ → Run ℕ
load v ix = elim (get_elem? v ix) [ none ↦ panic | some w ↦ ok w ]

-- The byte with the bits past the end, which `bitmap_create` marks.
pub mark_leftover : Bitmap → ℕ → Run Bitmap
mark_leftover b words = do
  let ix = words - 1
  let overbits = b.nbits - ix * bits_per_word
  assert (b.nbits / bits_per_word == words - 1)
  assert (ltb 0 overbits)
  assert (ltb overbits bits_per_word)
  w ← load b.v ix
  ok (record b { v = set b.v ix (mark_over (bits_per_word - overbits) overbits w) })

pub bitmap_create : Bool → Bool → ℕ → Run (Option Bitmap)
unfolding mark_leftover
bitmap_create mem mem_words nbits =
    let words = words_for nbits in
    let b : Bitmap = record { nbits = nbits; v = replicate words 0 } in
    if mem
    then (if mem_words
        then (if ltb (nbits / bits_per_word) words
            then (do b' ← mark_leftover b words; ok (some b'))
            else ok (some b))
        else ok none)
    else ok none

pub bitmap_getdata : Bitmap → List ℕ
bitmap_getdata b = b.v

-- The inner loop of `bitmap_alloc`: the first offset whose bit is clear.
pub find_offset : ℕ → ℕ → ℕ → Option ℕ
find_offset zero offset w = none
find_offset (suc n) offset w =
    let rest = find_offset n (offset + 1) w in if test w offset then rest else some offset

unfoldable alloc_at : Bitmap → ℕ → ℕ → Option ℕ → Run (Bitmap × Result ℕ)
alloc_at b ix w none = panic
alloc_at b ix w (some offset) = do
  assert (ltb (ix * bits_per_word + offset) b.nbits)
  ok (record b { v = set b.v ix (mark_word w offset) }, success (ix * bits_per_word + offset))

-- `n` rounds of its outer loop.
pub alloc_from : ℕ → ℕ → Bitmap → Run (Bitmap × Result ℕ)
unfolding alloc_at
alloc_from zero ix b = ok (b, failure enospc)
alloc_from (suc n) ix b =
    let rest = alloc_from n (ix + 1) b in
    (do
      w ← load b.v ix
      if w == word_allbits then rest else alloc_at b ix w (find_offset bits_per_word 0 w))

pub bitmap_alloc : Bitmap → Run (Bitmap × Result ℕ)
bitmap_alloc b = alloc_from (words_for b.nbits) 0 b

-- `bitmap_translate`, up to the mask: the byte and the offset in it.
pub bitmap_translate : ℕ → ℕ × ℕ
bitmap_translate bitno = (bitno / bits_per_word, bitno % bits_per_word)

pub bitmap_mark : Bitmap → ℕ → Run Bitmap
unfolding bitmap_translate
bitmap_mark b index = do
  assert (ltb index b.nbits)
  let (ix, offset) = bitmap_translate index
  w ← load b.v ix
  assert (not (test w offset))
  ok (record b { v = set b.v ix (mark_word w offset) })

pub bitmap_unmark : Bitmap → ℕ → Run Bitmap
unfolding bitmap_translate
bitmap_unmark b index = do
  assert (ltb index b.nbits)
  let (ix, offset) = bitmap_translate index
  w ← load b.v ix
  assert (test w offset)
  ok (record b { v = set b.v ix (unmark_word w offset) })

pub bitmap_isset : Bitmap → ℕ → Run Bool
unfolding bitmap_translate
bitmap_isset b index = do
  let (ix, offset) = bitmap_translate index
  w ← load b.v ix
  ok (test w offset)
