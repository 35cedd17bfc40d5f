-- ===== src/Queue.antt =====
-- a3/src/kern/lib/queue.c: a queue of pointers in an array that doubles when it is full.
-- A pointer is any value. `kmalloc` may fail: a flag says whether it does not. Sizes are C `int`s:
-- a doubling that overflows becomes negative, and fails the assertion that follows it.
pub mod Window
pub mod Grow
pub mod Refine
mod Tests
pub use csc.Base.{int_limit}
use csc.Base.{
  ℕ, zero, suc, ◌+◌, ◌-◌, ◌*◌, ◌%◌, ◌^◌, ◌<◌, Bool, true, false, not, Option, none, some, List, [],
  ltb, ◌==◌, if◌then◌else◌, get_elem?, set, replicate, Run, ok, panic, ◌>>=◌, ◌>>◌, assert, Result,
  success, failure, enomem,
}

-- `struct queue`. An element that was never written is `none`.
pub record Queue {ℓ} (A : Type ℓ) : Type ℓ where
  pub size : ℕ
  pub nextwrite : ℕ
  pub nextread : ℕ
  pub items : List (Option A)

module _ {ℓ} {A : Type ℓ} where
  -- `kmalloc(n * sizeof(void *))`
  abbrev pub fresh_items : ℕ → List (Option A)
  fresh_items n = replicate n none

  -- The two flags say whether each `kmalloc` succeeds.
  pub q_create : Bool → Bool → ℕ → Option (Queue A)
  q_create mem mem_data size =
      if mem
      then (if mem_data
          then some (record { size = size; nextwrite = 0; nextread = 0; items = fresh_items size })
          else none)
      else none

  pub q_empty : Queue A → Bool
  q_empty q = q.nextwrite == q.nextread

  -- `data[i]`, a fault out of range or where nothing was written.
  pub load : List (Option A) → ℕ → Run A
  load items i = elim (get_elem? items i) [ some (some x) ↦ ok x | _ ↦ panic ]

  -- `data[i] = x`, a fault out of range.
  pub store : List (Option A) → ℕ → A → Run (List (Option A))
  store items i x = elim (get_elem? items i) [ none ↦ panic | some old ↦ ok (set items i (some x)) ]

  -- What `q_addtail` does when there is room.
  pub put : Queue A → A → Run (Queue A)
  unfolding store
  put q x = do
    items ← store q.items q.nextwrite x
    ok (record q { items = items; nextwrite = (q.nextwrite + 1) % q.size })

-- `while (nsize < targetsize) nsize *= 2`, on the rounds that are left.
pub grown_size : ℕ → ℕ → ℕ → Run ℕ
grown_size zero nsize target = if ltb nsize target then panic else ok nsize
grown_size (suc fuel) nsize target =
    let rest = grown_size fuel (nsize * 2) target in
    if ltb nsize target then (if ltb (nsize * 2) int_limit then rest else panic) else ok nsize

module _ {ℓ} {A : Type ℓ} where
  -- The loop of `q_grow`: `add` is `q_addtail`, which it asserts to succeed.
  pub copy_items :
      (Queue A → A → Run (Queue A × Result (Unit {0})))
      → ℕ
      → List (Option A)
      → ℕ
      → ℕ
      → ℕ
      → Queue A
      → Run (Queue A)
  copy_items add zero old osize i last q = if i == last then ok q else panic
  copy_items add (suc fuel) old osize i last q =
      let round : Run (Queue A) = do
        x ← load old i
        (q', result) ← add q x
        elim result [
          | success _ ↦ copy_items add fuel old osize ((i + 1) % osize) last q'
          | failure _ ↦ panic
        ]
      in if i == last then ok q else round

  -- `q_grow` over the `q_addtail` that it calls.
  pub grow_with :
      (Queue A → A → Run (Queue A × Result (Unit {0})))
      → Bool
      → Queue A
      → ℕ
      → Run (Queue A × Result (Unit {0}))
  unfolding load
  grow_with add mem q target = do
    nsize ← grown_size 31 q.size target
    if mem
        then (do
          q' ←
              copy_items add q.size q.items q.size q.nextread q.nextwrite
                (record { size = nsize; nextwrite = 0; nextread = 0; items = fresh_items nsize })
          ok (q', success tt))
        else ok (q, failure enomem)

  -- `q_addtail` over the `q_grow` that it calls.
  pub addtail_with :
      (Queue A → ℕ → Run (Queue A × Result (Unit {0})))
      → Queue A
      → A
      → Run (Queue A × Result (Unit {0}))
  unfolding put
  addtail_with grow q x = do
    assert (ltb 0 q.size)
    if (q.nextwrite + 1) % q.size == q.nextread
        then (do
          (q', result) ← grow q (q.size + 1)
          elim result [
            | success _ ↦ (do q'' ← put q' x; ok (q'', success tt))
            | failure e ↦ ok (q', failure e)
          ])
        else (do q' ← put q x; ok (q', success tt))

  -- The two call each other. The depth of the calls is counted: one within another would panic, and
  -- there is none, because the larger array has room for what is copied.
  pub grow_depth : ℕ → Bool → Queue A → ℕ → Run (Queue A × Result (Unit {0}))
  unfolding grow_with addtail_with
  grow_depth zero mem q target = panic
  grow_depth (suc depth) mem q target =
      grow_with (λ q' x. addtail_with (grow_depth depth mem) q' x) mem q target

  pub q_grow : Bool → Queue A → ℕ → Run (Queue A × Result (Unit {0}))
  unfolding grow_depth
  q_grow mem q target = grow_depth 1 mem q target

  pub q_addtail : Bool → Queue A → A → Run (Queue A × Result (Unit {0}))
  unfolding addtail_with
  q_addtail mem q x = addtail_with (q_grow mem) q x

  pub q_preallocate : Bool → Queue A → ℕ → Run (Queue A × Result (Unit {0}))
  q_preallocate mem q size = do
    assert (ltb 0 q.size)
    if ltb q.size size then q_grow mem q size else ok (q, success tt)

  pub q_remhead : Queue A → Run (A × Queue A)
  unfolding load q_empty
  q_remhead q = do
    assert (ltb 0 q.size)
    assert (not (q_empty q))
    x ← load q.items q.nextread
    ok (x, record q { nextread = (q.nextread + 1) % q.size })

  pub q_destroy : Queue A → Run (Unit {0})
  unfolding q_empty
  q_destroy q = assert (q_empty q)

  -- The debugging accessors.
  pub q_getstart : Queue A → ℕ
  q_getstart q = q.nextread

  pub q_getend : Queue A → ℕ
  q_getend q = q.nextwrite

  pub q_getsize : Queue A → ℕ
  q_getsize q = q.size

  pub q_getguy : Queue A → ℕ → Run (Option A)
  q_getguy q i = do
    assert (ltb i q.size)
    elim (get_elem? q.items i) [ none ↦ panic | some x ↦ ok x ]
