-- ===== src/Bitmap/Tests.antt =====
-- The bitmap on small inputs.
use csc.Base.{ℕ, ◌≡◌, refl, true, ◌||◌, ◌==◌, arith, ◌∷◌, [], Returns, ok, ◌>>=◌, success, some}
use csc.Bitmap.{
  load, Bitmap, bitmap_create, bitmap_alloc, bitmap_mark, mark_leftover, alloc_from, find_offset,
  test, mark_word, mark_over,
}
use csc.Bitmap.Laws.{bit, IsValid, bitmap_mark_lem}
use csc.Bitmap.Alloc.{AllocResult, bitmap_alloc_lem}
use csc.Bitmap.Create.{CreateResult, Created, bitmap_create_lem}

abbrev twelve : Bitmap
twelve = record { nbits = 12; v = 0 ∷ 0xf0 ∷ [] }

create_runs : bitmap_create true true 12 ≡ ok (some twelve)
unfolding bitmap_create mark_leftover mark_over mark_word load
create_runs = refl

alloc_runs : (do (b, r) ← bitmap_alloc twelve; (b', r') ← bitmap_alloc b; ok r') ≡ ok (success 1)
unfolding bitmap_alloc alloc_from find_offset test mark_word load
alloc_runs = refl

twelve-Created : Created 12 twelve
unfolding bitmap_create mark_leftover mark_over mark_word load
twelve-Created = (bitmap_create_lem true true 12 (omega arith)).1

bitmap_create_lem_example : Returns (CreateResult true 12) (bitmap_create true true 12)
bitmap_create_lem_example = bitmap_create_lem true true 12 (omega arith)

bitmap_alloc_lem_example : Returns (AllocResult twelve) (bitmap_alloc twelve)
bitmap_alloc_lem_example = bitmap_alloc_lem twelve twelve-Created.0

-- Bit 9 is marked besides.
abbrev nine :
    (b' : Bitmap) × (bitmap_mark twelve 9 ≡ ok b')
    × IsValid b'
    × (b'.nbits ≡ 12)
    × ((i : ℕ) → bit b' i ≡ (9 == i || bit twelve i))
nine = bitmap_mark_lem twelve 9 twelve-Created.0 (omega arith) (twelve-Created.2 9 (omega arith))
