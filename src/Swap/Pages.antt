-- ===== src/Swap/Pages.antt =====
-- The swap file of a3/src/kern/vm/swap.c: its counters agree with its bitmap.
use csc.Base.{
  ℕ, suc, ◌-◌, ◌*◌, ◌%◌, ◌^◌, ◌≤◌, ◌<◌, ◌≡◌, refl, ◌∙◌, ◌≢◌, Bool, true, false, ◌||◌, le→leb,
  lt→ltb, ◌==◌, arith, ok, ◌>>=◌, Returns, Returns-inv, Result, success, failure,
}
use csc.Bitmap.{Bitmap, bitmap_alloc}
use csc.Bitmap.Laws.{bit, bitmap_isset_lem, bitmap_unmark_lem}
use csc.Bitmap.Laws
use csc.Bitmap.Alloc.{AllocResult, bitmap_alloc_lem}
use csc.Swap.{Swap, page_size, must_succeed, swap_alloc}
use csc.Swap.Count.{clear_count, clear_count_none, clear_count_mark, clear_count_le}

-- The counter of free pages counts the clear bits, what is reserved is free, the first page is
-- never given out, and an address in the file fits its type.
pub record IsValid (s : Swap) : Type 0 where
  pub map : Laws.IsValid s.map
  pub covered : s.map.nbits ≡ s.total_pages
  pub fits : s.total_pages * page_size ≤ 2 ^ 31
  pub nonempty : 0 < s.total_pages
  pub first : bit s.map 0 ≡ true
  pub counted : clear_count (bit s.map) s.total_pages ≡ s.free_pages
  pub spoken : s.reserved_pages ≤ s.free_pages

pub bounded : (s : Swap) → IsValid s → s.free_pages ≤ s.total_pages
bounded s v = omega (arith, v.counted, clear_count_le (bit s.map) s.total_pages)

-- What `swap_alloc` leaves: a page that was free and is not the first, with its address; it and no
-- other is taken; one page fewer is free, and one fewer reserved.
pub record Allocated (s : Swap) (addr : ℕ) (s' : Swap) : Type 0 where
  pub index : ℕ
  pub address : addr ≡ index * page_size
  pub positive : 0 < index
  pub inside : index < s.total_pages
  pub was_free : bit s.map index ≡ false
  pub taken : (i : ℕ) → bit s'.map i ≡ (index == i || bit s.map i)
  pub total : s'.total_pages ≡ s.total_pages
  pub fewer : suc s'.free_pages ≡ s.free_pages
  pub used : suc s'.reserved_pages ≡ s.reserved_pages

abbrev after_alloc : Swap → Bitmap → Swap
after_alloc s b = record s {
  map = b;
  reserved_pages = s.reserved_pages - 1;
  free_pages = s.free_pages - 1;
}

or_zero : (b : Bool) → (b || true) ≡ true
or_zero true = refl
or_zero false = refl

after_alloc-Allocated :
    (s : Swap) (b : Bitmap) (index : ℕ)
    → IsValid s
    → 0 < s.reserved_pages
    → AllocResult s.map (b, success index)
    → Allocated s (index * page_size % 2 ^ 32) (after_alloc s b) × IsValid (after_alloc s b)
after_alloc-Allocated s b index v r (lt, clear, before, valid, size, marked) =
    let inside : index < s.total_pages = omega (arith, v.covered) in
    let count = clear_count_mark (bit s.map) (bit b) index s.total_pages inside clear marked in
    let other : index ≢ 0 =
      λ z. let c : bit s.map 0 ≡ false = rw (← z) clear in let f = v.first in ground arith in
    (
      record {
        index = index;
        address = omega (arith, v.fits);
        positive = omega arith;
        inside = inside;
        was_free = clear;
        taken = marked;
        total = refl;
        fewer = omega (arith, v.counted, count);
        used = omega arith;
      },
      record {
        map = valid;
        covered = size ∙ v.covered;
        fits = v.fits;
        nonempty = v.nonempty;
        first = marked 0 ∙ rw v.first (or_zero (index == 0));
        counted = omega (arith, v.counted, count);
        spoken = omega (arith, v.spoken);
      },
    )

-- With a page reserved `swap_alloc` returns: no assertion fails, neither on a counter nor that
-- `bitmap_alloc` finds a page. It leaves what `Allocated` says, and the counters agree again.
pub swap_alloc_lem :
    (s : Swap)
    → IsValid s
    → 0 < s.reserved_pages
    → Returns (λ (r : ℕ × Swap). Allocated s r.0 r.1 × IsValid r.1) (swap_alloc s)
unfolding swap_alloc
swap_alloc_lem s v r =
    let done =
      Returns-inv (AllocResult s.map) (bitmap_alloc s.map) (bitmap_alloc_lem s.map v.map) in
    let free : 0 < s.free_pages = omega (arith, v.spoken) in
    rw
      (
        le→leb s.free_pages s.total_pages (bounded s v),
        le→leb s.reserved_pages s.free_pages v.spoken,
        lt→ltb 0 s.reserved_pages r,
        lt→ltb 0 s.free_pages free,
        done.1,
      )
      (finish done.0.0 done.0.1 done.2)
  where
    finish :
        (b : Bitmap) (rv : Result ℕ)
        → AllocResult s.map (b, rv)
        → Returns
            (λ (r : ℕ × Swap). Allocated s r.0 r.1 × IsValid r.1)
            (must_succeed rv >>= λ index. ok (index * page_size % 2 ^ 32, after_alloc s b))
    finish b (success index) h = after_alloc-Allocated s b index v r h
    finish b (failure e) (code, same, full) =
        let none_left =
          clear_count_none (bit s.map) s.total_pages (λ i lt. full i (omega (arith, v.covered))) in
        absurd (omega (arith, v.counted, v.spoken, none_left))
