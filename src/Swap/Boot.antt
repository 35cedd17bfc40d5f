-- ===== src/Swap/Boot.antt =====
-- `swap_bootstrap` of a3/src/kern/vm/swap.c.
use csc.Base.{
  ℕ, suc, ◌+◌, ◌-◌, ◌/◌, ◌^◌, ◌≤◌, ◌<◌, ◌≡◌, refl, ◌∙◌, Bool, true, false, ◌||◌, Option, none, some,
  ◌==◌, arith, ok, Returns-inv,
}
use csc.Bitmap.{Bitmap, bitmap_create}
use csc.Bitmap.Laws.{bit, bitmap_mark_lem}
use csc.Bitmap.Create.{Created, CreateResult, bitmap_create_lem}
use csc.Swap.{Swap, page_size, swap_bootstrap, too_small}
use csc.Swap.Count.{clear_count, clear_count_mark, clear_count_all}
use csc.Swap.Pages.{IsValid}

-- What `swap_bootstrap` leaves: the first page is taken, and all others are free.
pub record Booted (st_size : ℕ) (s : Swap) : Type 0 where
  pub valid : IsValid s
  pub total : s.total_pages ≡ st_size / page_size
  pub free : suc s.free_pages ≡ s.total_pages
  pub unreserved : s.reserved_pages ≡ 0
  pub pages : (i : ℕ) → i < s.total_pages → bit s.map i ≡ (0 == i)

pub created :
    (nbits : ℕ)
    → nbits + 8 ≤ 2 ^ 32
    → (b : Bitmap) × (bitmap_create true true nbits ≡ ok (some b)) × Created nbits b
created nbits h =
    let done =
      Returns-inv (CreateResult true nbits) (bitmap_create true true nbits)
        (bitmap_create_lem true true nbits h) in
    some_of done.0 done.1 done.2
  where
    some_of :
        (o : Option Bitmap)
        → bitmap_create true true nbits ≡ ok o
        → CreateResult true nbits o
        → (b : Bitmap) × (bitmap_create true true nbits ≡ ok (some b)) × Created nbits b
    some_of none run h = absurd (ground (arith, h))
    some_of (some b) run h = (b, run, h.1)

-- If the swap file opens, holds at least one page and is as large as it must be, and memory does not
-- run out, `swap_bootstrap` returns, and leaves what `Booted` says: a valid state in which the first
-- page is taken and all others are free.
pub swap_bootstrap_lem :
    (st_size pmemsize : ℕ)
    → page_size ≤ st_size
    → st_size < 2 ^ 31
    → too_small st_size pmemsize ≡ false
    → (s : Swap) × (swap_bootstrap true true true true st_size pmemsize ≡ ok s) × Booted st_size s
unfolding swap_bootstrap
swap_bootstrap_lem st_size pmemsize large small enough =
    let total = st_size / page_size in
    let (b, run, (valid, size, clear)) = created (st_size / page_size) (omega arith) in
    let positive : 0 < b.nbits = omega (arith, size) in
    let (b', run', valid', size', marked) =
      bitmap_mark_lem b 0 valid positive (clear 0 (omega arith)) in
    let count : clear_count (bit b) (st_size / page_size)
        ≡ suc (clear_count (bit b') (st_size / page_size)) =
      clear_count_mark (bit b) (bit b') 0 (st_size / page_size) (omega arith)
        (clear 0 (omega arith)) marked in
    let all = clear_count_all (bit b) (st_size / page_size) clear in
    (
      record {
        map = b';
        total_pages = st_size / page_size;
        free_pages = st_size / page_size - 1;
        reserved_pages = 0;
      },
      rw (enough, run, run'),
      record {
        valid = record {
          map = valid';
          covered = size' ∙ size;
          fits = omega arith;
          nonempty = omega arith;
          first = marked 0;
          counted = omega (arith, count, all);
          spoken = omega arith;
        };
        total = refl;
        free = omega arith;
        unreserved = refl;
        pages = λ i lt. marked i ∙ rw (clear i lt) (or_false (0 == i));
      },
    )
  where
    or_false : (x : Bool) → (x || false) ≡ x
    or_false true = refl
    or_false false = refl
