-- ===== src/Array/Refine.antt =====
-- The operations of a3/src/kern/lib/array.c on the list of elements that the array holds.
use csc.Base.{
  ℕ, le→leb, ◌*◌, ◌≤◌, ◌<◌, ◌≡◌, refl, ap, ◌∙◌, Bool, true, false, ◌&&◌, Option, none, some, List,
  ltb, ◌==◌, if◌then◌else◌, arith, Bool-cases, inl, inr, length, length-replicate, get_elem?,
  replicate, ok, ◌>>=◌, Returns, Returns-inv, Result, success, failure, enomem,
}
use csc.Array.{Array, cells, int_limit, is_null, copy_cells, array_preallocate, array_setsize}
use csc.Array.Cells.{copy_cells_lem, grown_max_lem}

module _ {A : Type 0} where
  -- The array has as many cells as it says, and no more elements.
  pub record IsValid (a : Array A) : Type 0 where
    pub fits : a.num ≤ a.max
    pub size : length (cells a.v) ≡ a.max

  -- The array holds these elements, in order.
  pub record Represents (a : Array A) (xs : List (Option A)) : Type 0 where
    pub valid : IsValid a
    pub num : a.num ≡ length xs
    pub elems : (k : ℕ) → k < length xs → get_elem? (cells a.v) k ≡ get_elem? xs k

  -- The array has `n` elements; what it had before, below `n`, is still there.
  pub record Resized (a : Array A) (n : ℕ) (a' : Array A) : Type 0 where
    pub valid : IsValid a'
    pub num : a'.num ≡ n
    pub kept : (k : ℕ) → k < a.num → k < n → get_elem? (cells a'.v) k ≡ get_elem? (cells a.v) k

  -- What `array_preallocate` leaves.
  pub record Grown (a : Array A) (n : ℕ) (a' : Array A) : Type 0 where
    pub valid : IsValid a'
    pub num : a'.num ≡ a.num
    pub enough : n ≤ a'.max
    pub kept : (k : ℕ) → k < a.num → get_elem? (cells a'.v) k ≡ get_elem? (cells a.v) k

  abbrev pub GrowResult : Bool → Array A → ℕ → Array A × Result (Unit {0}) → Type 0
  GrowResult mem a n (a', success _) = Grown a n a'
  GrowResult mem a n (a', failure e) = (mem ≡ false) × (e ≡ enomem) × (a' ≡ a)

  -- With twice the number below the range of an `int`, `array_preallocate` returns and keeps the
  -- elements in an array with room for so many; or, only without memory, ENOMEM and the same array.
  pub array_preallocate_lem :
      (mem : Bool) (a : Array A) (n : ℕ)
      → IsValid a
      → n * 2 < int_limit
      → Returns (GrowResult mem a n) (array_preallocate mem a n)
  unfolding array_preallocate
  array_preallocate_lem mem a n v lim =
      let (top, run, big, up) = grown_max_lem 31 a.max n (omega arith) lim in
      rw (le→leb a.num a.max v.fits, run) (on_memory mem top big up)
    where
      on_memory :
          (m : Bool) (top : ℕ)
          → n ≤ top
          → a.max ≤ top
          → Returns (GrowResult m a n) (
              if m
              then (do
                newv ← copy_cells a.num 0 0 (cells a.v) (replicate top none)
                ok (record a { max = top; v = some newv }, success tt))
              else ok (a, failure enomem))
      on_memory false top big up = (refl, refl, refl)
      on_memory true top big up =
          let len : length (replicate {A = Option A} top none) ≡ top = length-replicate top none in
          let (new, run, c) =
            copy_cells_lem a.num 0 0 (cells a.v) (replicate top none) (omega (arith, v.fits))
              (omega (arith, v.fits, v.size)) in
          rw run (record {
            valid = record { fits = omega (arith, v.fits); size = c.size ∙ len };
            num = refl;
            enough = big;
            kept = λ k lt.
                c.moved k (omega arith) (omega arith) ∙ ap (get_elem? (cells a.v)) (omega arith);
          })

  -- What `array_setsize` leaves.
  abbrev pub SizeResult : Bool → Array A → ℕ → Array A × Result (Unit {0}) → Type 0
  SizeResult mem a n (a', success _) = Resized a n a'
  SizeResult mem a n (a', failure e) = (mem ≡ false) × (a.max < n) × (e ≡ enomem) × (a' ≡ a)

  not_null : (v : Option (List (Option A))) → 0 < length (cells v) → is_null v ≡ false
  not_null none h = absurd (omega arith)
  not_null (some v) h = refl

  grow_step :
      (mem : Bool) (a : Array A) (n : ℕ) (r : Array A × Result (Unit {0}))
      → a.max < n
      → GrowResult mem a n r
      → Returns (SizeResult mem a n) (elim r.1 [
        | success _ ↦ ok (record (r.0) { num = n }, success tt)
        | failure e ↦ ok (r.0, failure e)
      ])
  grow_step mem a n (a', success u) lt g = record {
    valid = record { fits = g.enough; size = g.valid.size };
    num = refl;
    kept = λ k low high. g.kept k low;
  }
  grow_step mem a n (a', failure e) lt (none_left, code, same) = (none_left, lt, code, same)

  -- On a valid array, with twice the number below the range of an `int`, `array_setsize` returns and
  -- leaves a valid array of so many elements, those below the old and the new number kept; or, only
  -- without memory for a larger array, ENOMEM and the same array.
  pub array_setsize_lem :
      (mem : Bool) (a : Array A) (n : ℕ)
      → IsValid a
      → n * 2 < int_limit
      → Returns (SizeResult mem a n) (array_setsize mem a n)
  unfolding array_setsize
  array_setsize_lem mem a n v lim = elim (Bool-cases (ltb a.max n)) [
    | inl e ↦
        let grown =
          Returns-inv (GrowResult mem a n) (array_preallocate mem a n)
            (array_preallocate_lem mem a n v lim) in
        rw (le→leb a.num a.max v.fits, e, grown.1)
          (grow_step mem a n grown.0 (ground arith) grown.2)
    | inr e ↦ elim (Bool-cases ((n == 0) && ltb 16 a.max)) [
      | inl e' ↦
          let empty : n ≡ 0 = ground arith in
          let filled : 16 < a.max = ground arith in
          rw (le→leb a.num a.max v.fits, e, e', not_null a.v (omega (arith, v.size)))
            (record {
              valid = record { fits = omega arith; size = refl };
              num = refl;
              kept = λ k low high. absurd (omega arith);
            })
      | inr e' ↦
          rw (le→leb a.num a.max v.fits, e, e')
            (record {
              valid = record { fits = ground arith; size = v.size };
              num = refl;
              kept = λ k low high. refl;
            })
    ]
  ]
