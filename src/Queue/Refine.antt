-- ===== src/Queue/Refine.antt =====
-- The queue of a3/src/kern/lib/queue.c is a first-in first-out list, without a bound but memory.
use native.Mathlib.Nat.{mod-eq_of_lt, add-zero}
use csc.Base.{
  ℕ, suc, ◌+◌, ◌*◌, ◌%◌, ◌≤◌, ◌<◌, ◌≡◌, refl, sym, ◌∙◌, Bool, true, false, none, some, List, [],
  ◌∷◌, ◌++◌, arith, ◌==◌, ne→==, ltb, lt→ltb, Bool-cases, inl, inr, length, get_elem?,
  length-replicate, ok, panic, Result, success, failure, enomem,
}
use csc.Queue.{
  Queue, int_limit, load, grow_depth, q_grow, q_addtail, q_remhead, q_create, q_preallocate,
  q_destroy, q_empty, fresh_items,
}
use csc.Queue.Window.{
  Represents, round_lem, round_suc, stored_at, stored_at-Represents, put-ok, write_in,
  full_test_end, empty_test,
}
use csc.Queue.Grow.{grow_fuel, grown_size_lem, copy_items_lem, addtail_with-room, Remains}

module _ {ℓ} {A : Type ℓ} where
  abbrev fresh_queue : ℕ → Queue A
  fresh_queue n = record { size = n; nextwrite = 0; nextread = 0; items = fresh_items n }

  fresh-Represents : (n : ℕ) → 0 < n → Represents (fresh_queue n) []
  fresh-Represents n h = record {
    stored = length-replicate n none;
    read_in = h;
    room = h;
    write_at = sym (mod-eq_of_lt h);
    cells = λ k lt. absurd (omega arith);
  }

  -- A new queue is empty.
  pub q_create_lem :
      (mem mem_data : Bool) (size : ℕ) (q : Queue A)
      → 0 < size
      → q_create mem mem_data size ≡ some q
      → Represents q [] × (q.size ≡ size)
  unfolding q_create
  q_create_lem true true size q h e =
      let same : fresh_queue size ≡ q = cc in rw (← same) (fresh-Represents size h, refl)
  q_create_lem true false size q h e = absurd (cc)
  q_create_lem false mem_data size q h e = absurd (cc)

  Represents-Remains :
      (q : Queue A) (xs : List A)
      → Represents q xs
      → Remains q.items q.size q.nextread q.nextwrite xs
  Represents-Remains q xs h = record {
    inside = h.read_in;
    room = h.room;
    at_end = h.write_at;
    cells = h.cells;
  }

  -- Growing keeps the elements, and makes room for the target.
  grow_lem :
      (q : Queue A) (xs : List A) (target : ℕ)
      → Represents q xs
      → target * 2 ≤ int_limit
      → (q' : Queue A) × (q_grow true q target ≡ ok (q', success tt))
        × Represents q' xs
        × (target ≤ q'.size)
        × (q.size ≤ q'.size)
  unfolding q_grow
  grow_lem q xs target h lim =
      let (n, sized, big, up) =
        grown_size_lem 31 q.size target (grow_fuel q.size target (omega (arith, h.read_in)) lim)
          lim in
      let start = fresh-Represents n (omega (arith, h.read_in)) in
      let (q', run, all, same) =
        copy_items_lem (grow_depth 0 true) q.size q.items q.size q.nextread q.nextwrite
          (fresh_queue n) [] xs (Represents-Remains q xs h) (omega (arith, h.room)) start
          (omega (arith, h.room)) in
      (q', rw (sized, run), all, rw same big, rw same up)

  grow-enomem :
      (q : Queue A) (xs : List A) (target : ℕ)
      → Represents q xs
      → target * 2 ≤ int_limit
      → q_grow false q target ≡ ok (q, failure enomem)
  unfolding q_grow
  grow-enomem q xs target h lim =
      let (n, sized, big, up) =
        grown_size_lem 31 q.size target (grow_fuel q.size target (omega (arith, h.read_in)) lim)
          lim in
      rw sized

  -- What `q_addtail` leaves: the element at the end; or, only if the array is full and there is no
  -- memory for a larger one, the same queue and ENOMEM.
  pub data AddResult (mem : Bool) (q : Queue A) (xs : List A) (x : A)
      : Queue A × Result (Unit {0}) → Type ℓ where
    added : {q' : Queue A} → Represents q' (xs ++ x ∷ []) → AddResult mem q xs x (q', success tt)
    refused : mem ≡ false → length xs + 1 ≡ q.size → AddResult mem q xs x (q, failure enomem)

  -- On a queue that holds `xs` `q_addtail` returns, and leaves what `AddResult` says, if twice the
  -- size after one more cell fits a C int.
  pub q_addtail_lem :
      (mem : Bool) (q : Queue A) (xs : List A) (x : A)
      → Represents q xs
      → (q.size + 1) * 2 ≤ int_limit
      → (r : Queue A × Result (Unit {0})) × (q_addtail mem q x ≡ ok r) × AddResult mem q xs x r
  unfolding q_addtail
  q_addtail_lem mem q xs x h lim = elim (Bool-cases (ltb (length xs + 1) q.size)) [
    | inl e ↦ (
      (stored_at q x, success tt),
      addtail_with-room (q_grow mem) q x xs h (ground arith),
      added (stored_at-Represents q x xs h (ground arith)),
    )
    | inr e ↦ by_memory mem (omega (arith, h.room, leb_of_not e))
  ]
    where
      leb_of_not : ltb (length xs + 1) q.size ≡ false → q.size ≤ length xs + 1
      leb_of_not e = ground arith

      by_memory :
          (m : Bool)
          → length xs + 1 ≡ q.size
          → (r : Queue A × Result (Unit {0})) × (q_addtail m q x ≡ ok r) × AddResult m q xs x r
      by_memory false full = (
        (q, failure enomem),
        rw (
          lt→ltb 0 q.size (omega arith),
          full_test_end q xs h full,
          grow-enomem q xs (q.size + 1) h lim,
        ),
        refused refl full,
      )
      by_memory true full =
          let (q', run, all, big, up) = grow_lem q xs (q.size + 1) h lim in
          (
            (stored_at q' x, success tt),
            rw (
              lt→ltb 0 q.size (omega arith),
              full_test_end q xs h full,
              run,
              put-ok q' x (rw all.stored (write_in q' xs all)),
            ),
            added (stored_at-Represents q' x xs all (omega arith)),
          )

  q_empty-cons : (q : Queue A) (x : A) (xs : List A) → Represents q (x ∷ xs) → q_empty q ≡ false
  unfolding q_empty
  q_empty-cons q x xs h = empty_test q (x ∷ xs) h ∙ ne→== (suc (length xs)) 0 (omega arith)

  -- `q_empty` holds exactly of a queue with no element.
  pub q_empty_lem : (q : Queue A) (xs : List A) → Represents q xs → q_empty q ≡ (length xs == 0)
  unfolding q_empty
  q_empty_lem q xs h = empty_test q xs h

  -- `q_remhead` takes the first element, and leaves the others in order.
  pub q_remhead_lem :
      (q : Queue A) (x : A) (xs : List A)
      → Represents q (x ∷ xs)
      → (q' : Queue A) × (q_remhead q ≡ ok (x, q')) × Represents q' xs × (q'.size ≡ q.size)
  unfolding q_remhead
  q_remhead_lem q x xs h =
      let first : get_elem? q.items q.nextread ≡ some (some x) =
        rw (add-zero, mod-eq_of_lt h.read_in) at (h.cells 0 (omega arith)) in
      (
        record q { nextread = (q.nextread + 1) % q.size },
        rw (
          lt→ltb 0 q.size (omega (arith, h.read_in)),
          empty_test q (x ∷ xs) h,
          ne→== (suc (length xs)) 0 (omega arith),
          first,
          q_remhead,
          load,
        ),
        record {
          stored = h.stored;
          read_in =
              rw (round_lem q.size q.nextread 1 h.read_in (omega (arith, h.room)))
                (ground (arith, h.read_in));
          room = omega (arith, h.room);
          write_at = h.write_at ∙ sym (round_suc q.size q.nextread (length xs) h.read_in h.room);
          cells = λ k lt.
              rw (round_suc q.size q.nextread k h.read_in (omega (arith, h.room)))
                (h.cells (suc k) (omega arith));
        },
        refl,
      )

  -- `q_remhead` of an empty queue stops the machine.
  pub q_remhead-empty : (q : Queue A) → Represents q [] → q_remhead q ≡ panic
  unfolding q_remhead
  q_remhead-empty q h = rw (lt→ltb 0 q.size (omega (arith, h.read_in)), empty_test q [] h)

  pub q_addtail-room :
      (mem : Bool) (q : Queue A) (x : A) (xs : List A)
      → Represents q xs
      → length xs + 1 < q.size
      → (q_addtail mem q x ≡ ok (stored_at q x, success tt))
        × Represents (stored_at q x) (xs ++ x ∷ [])
  unfolding q_addtail
  q_addtail-room mem q x xs h more =
      (addtail_with-room (q_grow mem) q x xs h more, stored_at-Represents q x xs h more)

  -- A full array without memory for a larger one.
  pub q_addtail-full :
      (q : Queue A) (x : A) (xs : List A)
      → Represents q xs
      → length xs + 1 ≡ q.size
      → (q.size + 1) * 2 ≤ int_limit
      → q_addtail false q x ≡ ok (q, failure enomem)
  unfolding q_addtail
  q_addtail-full q x xs h full lim = rw (
    lt→ltb 0 q.size (omega arith),
    full_test_end q xs h full,
    grow-enomem q xs (q.size + 1) h lim,
  )

  pub q_destroy-empty : (q : Queue A) → Represents q [] → q_destroy q ≡ ok tt
  unfolding q_destroy
  q_destroy-empty q h = rw (empty_test q [] h)

  -- `q_preallocate` leaves a large enough array alone, and grows a smaller one, elements kept.
  pub q_preallocate_lem :
      (q : Queue A) (xs : List A) (size : ℕ)
      → Represents q xs
      → size * 2 ≤ int_limit
      → (q' : Queue A) × (q_preallocate true q size ≡ ok (q', success tt))
        × Represents q' xs
        × (size ≤ q'.size)
  unfolding q_preallocate
  q_preallocate_lem q xs size h lim = elim (Bool-cases (ltb q.size size)) [
    | inr e ↦ (q, rw (lt→ltb 0 q.size (omega (arith, h.read_in)), e), h, ground arith)
    | inl e ↦
        let (q', run, all, big, up) = grow_lem q xs size h lim in
        (q', rw (lt→ltb 0 q.size (omega (arith, h.read_in)), e) run, all, big)
  ]

  pub q_preallocate-enough :
      (mem : Bool) (q : Queue A) (size : ℕ)
      → 0 < q.size
      → size ≤ q.size
      → q_preallocate mem q size ≡ ok (q, success tt)
  unfolding q_preallocate
  q_preallocate-enough mem q size pos h =
      let e : ltb q.size size ≡ false = ground arith in rw (lt→ltb 0 q.size pos, e)
