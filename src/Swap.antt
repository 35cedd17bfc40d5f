-- ===== src/Swap.antt =====
-- a3/src/kern/vm/swap.c: which pages of the swap file are taken, and how many are spoken for.
-- Every function runs under `swaplock`, so each is one step. Counters are 32 bits, and so is an
-- address in the file. What `vfs_open` and `VOP_STAT` find of the file is given.
pub mod Count
pub mod Pages
pub mod Boot
pub mod Reserve
mod Tests
use csc.Base.{
  ℕ, zero, suc, ◌+◌, ◌-◌, ◌*◌, ◌/◌, ◌%◌, ◌^◌, Bool, true, false, not, ◌&&◌, Option, none, some,
  List, [], ◌∷◌, ltb, leb, ◌==◌, if◌then◌else◌, Run, ok, panic, ◌>>=◌, ◌>>◌, assert, Result,
  success, failure, enomem,
}
use csc.Bitmap.{Bitmap, bitmap_create, bitmap_alloc, bitmap_mark, bitmap_unmark, bitmap_isset}

-- `swapmap` and the counters.
pub record Swap : Type 0 where
  pub map : Bitmap
  pub total_pages : ℕ
  pub free_pages : ℕ
  pub reserved_pages : ℕ

abbrev pub page_size : ℕ
page_size = 4096

abbrev pub invalid_swapaddr : ℕ
invalid_swapaddr = 0

-- `st.st_size < minsize`: `minsize` is `pmemsize*10` as a signed number, and a negative one is below
-- every size.
pub too_small : ℕ → ℕ → Bool
too_small st_size pmemsize =
    let minsize = pmemsize * 10 % 2 ^ 32 in ltb minsize (2 ^ 31) && ltb st_size minsize

abbrev pub allocated : Option Bitmap → Run Bitmap
allocated none = panic
allocated (some b) = ok b

-- The flags say whether the swap file opens, and whether the `kmalloc` calls and `lock_create`
-- succeed.
pub swap_bootstrap : Bool → Bool → Bool → Bool → ℕ → ℕ → Run Swap
unfolding too_small
swap_bootstrap opened mem mem_words lock st_size pmemsize = do
  assert opened
  assert (not (too_small st_size pmemsize))
  b ← allocated (← bitmap_create mem mem_words (st_size / page_size))
  assert lock
  b' ← bitmap_mark b 0
  let total = st_size / page_size
  ok (record { map = b'; total_pages = total; free_pages = total - 1; reserved_pages = 0 })

-- `assert(rv==0)`
abbrev pub must_succeed : Result ℕ → Run ℕ
must_succeed (success index) = ok index
must_succeed (failure e) = panic

pub swap_alloc : Swap → Run (ℕ × Swap)
swap_alloc s = do
  assert (leb s.free_pages s.total_pages)
  assert (leb s.reserved_pages s.free_pages)
  assert (ltb 0 s.reserved_pages)
  assert (ltb 0 s.free_pages)
  (b, rv) ← bitmap_alloc s.map
  index ← must_succeed rv
  ok (
    index * page_size % 2 ^ 32,
    record s { map = b; reserved_pages = s.reserved_pages - 1; free_pages = s.free_pages - 1 },
  )

pub swap_free : ℕ → Swap → Run Swap
swap_free swapaddr s = do
  assert (not (swapaddr == invalid_swapaddr))
  assert (swapaddr % page_size == 0)
  assert (ltb s.free_pages s.total_pages)
  assert (leb s.reserved_pages s.free_pages)
  set ← bitmap_isset s.map (swapaddr / page_size)
  assert set
  b ← bitmap_unmark s.map (swapaddr / page_size)
  ok (record s { map = b; free_pages = (s.free_pages + 1) % 2 ^ 32 })

pub swap_reserve : ℕ → Swap → Run (Swap × Result (Unit {0}))
swap_reserve npages s = do
  assert (leb s.free_pages s.total_pages)
  assert (leb s.reserved_pages s.free_pages)
  if ltb (s.free_pages - s.reserved_pages) npages then ok (s, failure enomem) else (do
    let reserved = (s.reserved_pages + npages) % 2 ^ 32
    assert (leb reserved s.free_pages)
    ok (record s { reserved_pages = reserved }, success tt))

pub swap_unreserve : ℕ → Swap → Run Swap
swap_unreserve npages s = do
  assert (leb s.free_pages s.total_pages)
  assert (leb s.reserved_pages s.free_pages)
  assert (leb npages s.reserved_pages)
  ok (record s { reserved_pages = s.reserved_pages - npages })

-- `n` calls of `swap_alloc` in a row, and the pages that they return.
pub alloc_times : ℕ → Swap → Run (List ℕ × Swap)
alloc_times zero s = ok ([], s)
alloc_times (suc n) s = do
  (page, s') ← swap_alloc s
  (pages, s'') ← alloc_times n s'
  ok (page ∷ pages, s'')
