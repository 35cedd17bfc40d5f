-- ===== src/Array.antt =====
-- a3/src/kern/lib/array.c: an array of pointers that grows.
-- A pointer is any value, and a cell that was never written is `none`. `kmalloc` may fail: a flag
-- says whether it does not. Sizes are C `int`s; one that overflows is undefined in C, and
-- stops the model.
pub mod Cells
pub mod Refine
pub mod Change
mod Tests
pub use csc.Base.{int_limit}
use csc.Base.{
  ℕ, zero, suc, ◌+◌, ◌-◌, ◌*◌, ◌^◌, Bool, true, false, not, ◌&&◌, Option, none, some, List, [], ltb,
  leb, ◌==◌, if◌then◌else◌, get_elem?, set, replicate, Run, ok, panic, ◌>>=◌, ◌>>◌, assert, Result,
  success, failure, enomem,
}

-- `struct array`: `v` may be a null pointer.
pub record Array {ℓ} (A : Type ℓ) : Type ℓ where
  pub num : ℕ
  pub max : ℕ
  pub v : Option (List (Option A))

-- `while (nguys > newmax) newmax = (newmax+1)*2`, on the rounds that are left.
pub grown_max : ℕ → ℕ → ℕ → Run ℕ
grown_max zero newmax nguys = if ltb newmax nguys then panic else ok newmax
grown_max (suc fuel) newmax nguys =
    let wider = (newmax + 1) * 2 in
    let rest = grown_max fuel wider nguys in
    if ltb newmax nguys then (if ltb wider int_limit then rest else panic) else ok newmax

module _ {ℓ} {A : Type ℓ} where
  abbrev pub cells : Option (List (Option A)) → List (Option A)
  cells none = []
  cells (some v) = v

  pub array_create : Bool → Option (Array A)
  array_create mem = if mem then some (record { num = 0; max = 0; v = none }) else none

  pub array_getnum : Array A → ℕ
  array_getnum a = a.num

  -- `v[i]`, a fault out of range.
  pub load : List (Option A) → ℕ → Run (Option A)
  load v i = elim (get_elem? v i) [ none ↦ panic | some x ↦ ok x ]

  -- `v[i] = x`, a fault out of range.
  pub store : List (Option A) → ℕ → Option A → Run (List (Option A))
  store v i x = elim (get_elem? v i) [ none ↦ panic | some old ↦ ok (set v i x) ]

  pub array_getguy : Array A → ℕ → Run (Option A)
  array_getguy a index = do
    assert (leb a.num a.max)
    assert (ltb index a.num)
    load (cells a.v) index

  -- `n` rounds, from `i` on, of a loop that sets `new[i]` to `old[i+d]`.
  pub copy_cells : ℕ → ℕ → ℕ → List (Option A) → List (Option A) → Run (List (Option A))
  unfolding load store
  copy_cells zero i d old new = ok new
  copy_cells (suc n) i d old new = do
    x ← load old (i + d)
    new' ← store new i x
    copy_cells n (i + 1) d old new'

  pub array_preallocate : Bool → Array A → ℕ → Run (Array A × Result (Unit {0}))
  unfolding grown_max copy_cells
  array_preallocate mem a nguys = do
    assert (leb a.num a.max)
    newmax ← grown_max 31 a.max nguys
    if mem
        then (do
          newv ← copy_cells a.num 0 0 (cells a.v) (replicate newmax none)
          ok (record a { max = newmax; v = some newv }, success tt))
        else ok (a, failure enomem)

  -- `assert(a->v!=NULL)`
  abbrev pub is_null : Option (List (Option A)) → Bool
  is_null none = true
  is_null (some v) = false

  pub array_setsize : Bool → Array A → ℕ → Run (Array A × Result (Unit {0}))
  array_setsize mem a nguys = do
    assert (leb a.num a.max)
    if ltb a.max nguys
        then (do
          (a', result) ← array_preallocate mem a nguys
          elim result [
            | success _ ↦ ok (record a' { num = nguys }, success tt)
            | failure e ↦ ok (a', failure e)
          ])
        else (if (nguys == 0) && ltb 16 a.max
            then (do
              assert (not (is_null a.v))
              ok (record { num = nguys; max = 0; v = none }, success tt))
            else ok (record a { num = nguys }, success tt))

  pub array_setguy : Array A → ℕ → A → Run (Array A)
  unfolding store
  array_setguy a index ptr = do
    assert (leb a.num a.max)
    assert (ltb index a.num)
    v ← store (cells a.v) index (some ptr)
    ok (record a { v = some v })

  pub array_add : Bool → Array A → A → Run (Array A × Result (Unit {0}))
  unfolding store
  array_add mem a guy = do
    (a', result) ← array_setsize mem a (a.num + 1)
    elim result [
      | success _ ↦ (do
        v ← store (cells a'.v) a.num (some guy)
        ok (record a' { v = some v }, success tt))
      | failure e ↦ ok (a', failure e)
    ]

  -- `memmove` to a lower address copies from the front.
  pub move_down : ℕ → ℕ → List (Option A) → Run (List (Option A))
  unfolding load store
  move_down zero i v = ok v
  move_down (suc n) i v = do x ← load v (i + 1); v' ← store v i x; move_down n (i + 1) v'

  pub array_remove : Array A → ℕ → Run (Array A)
  unfolding move_down
  array_remove a index = do
    assert (leb a.num a.max)
    assert (ltb index a.num)
    v ← move_down (a.num - (index + 1)) index (cells a.v)
    ok (record a { num = a.num - 1; v = some v })
