-- ===== src/Queue/Window.antt =====
-- The elements that a queue of a3/src/kern/lib/queue.c holds, read off its array.
use native.Mathlib.Nat.{mod-eq_of_lt, mod-eq-sub-mod, mod-add-mod, add-zero}
use csc.Base.{
  ℕ, suc, ◌+◌, ◌-◌, ◌%◌, ◌≤◌, ◌<◌, ◌≡◌, refl, sym, ap, ◌∙◌, ◌≢◌, true, false, some, List, [], ◌∷◌,
  ◌++◌, arith, ◌==◌, eq→==, ==→eq, ne→==, ltb, Bool-cases, inl, inr, if◌then◌else◌, length,
  get_elem?, set, length-append, length-set, get_elem?-append, get_elem?-append_end,
  get_elem?-set_self, get_elem?-set_ne, get_elem?-lt, ok,
}
use csc.Queue.{Queue, put, store}

-- Going round an array from an index in it.
pub round_lem :
    (size r k : ℕ)
    → r < size
    → k < size
    → (r + k) % size ≡ (if ltb (r + k) size then r + k else r + k - size)
round_lem size r k hr hk = elim (Bool-cases (ltb (r + k) size)) [
  | inl e ↦ rw e (mod-eq_of_lt (ground arith))
  | inr e ↦
      let le : size ≤ r + k = ground arith in rw e (mod-eq-sub-mod le ∙ mod-eq_of_lt (omega arith))
]

-- Different numbers of steps, fewer than the size, end at different indices.
pub round_ne : (size r j k : ℕ) → r < size → j < k → k < size → (r + j) % size ≢ (r + k) % size
round_ne size r j k hr hj hk =
    rw (round_lem size r j hr (omega arith), round_lem size r k hr hk) (λ e. ground arith)

pub round_suc :
    (size r k : ℕ) → r < size → suc k < size → ((r + 1) % size + k) % size ≡ (r + suc k) % size
round_suc size r k hr hk =
    rw (round_lem size r 1 hr (omega arith), round_lem size r (suc k) hr hk)
      (elim (Bool-cases (ltb (r + 1) size)) [
        | inl e ↦ rw (e, round_lem size (r + 1) k (ground arith) (omega arith)) (ground arith)
        | inr e ↦
            rw (e, round_lem size (r + 1 - size) k (ground arith) (omega arith)) (ground arith)
      ])

module _ {ℓ} {A : Type ℓ} where
  -- The queue holds exactly `xs`, in order, and leaves at least one cell of its array free.
  pub record Represents (q : Queue A) (xs : List A) : Type ℓ where
    pub stored : length q.items ≡ q.size
    pub read_in : q.nextread < q.size
    pub room : length xs < q.size
    pub write_at : q.nextwrite ≡ (q.nextread + length xs) % q.size
    pub cells :
        (k : ℕ)
        → k < length xs
        → get_elem? q.items ((q.nextread + k) % q.size) ≡ some (get_elem? xs k)

  pub write_in : (q : Queue A) (xs : List A) → Represents q xs → q.nextwrite < q.size
  write_in q xs h =
      rw (h.write_at, round_lem q.size q.nextread (length xs) h.read_in h.room)
        (elim (Bool-cases (ltb (q.nextread + length xs) q.size)) [
          | inl e ↦ rw e (ground arith)
          | inr e ↦ let r = h.read_in in let n = h.room in rw e (ground arith)
        ])

  -- `nextwrite` stepped once more.
  pub write_next :
      (q : Queue A) (xs : List A)
      → Represents q xs
      → length xs + 1 < q.size
      → (q.nextwrite + 1) % q.size ≡ (q.nextread + suc (length xs)) % q.size
  write_next q xs h more = rw (h.write_at, mod-add-mod) (ap (λ (k : ℕ). k % q.size) (omega arith))

  -- The queue after `x` was stored at `nextwrite`.
  abbrev pub stored_at : Queue A → A → Queue A
  stored_at q x = record q {
    items = set q.items q.nextwrite (some x);
    nextwrite = (q.nextwrite + 1) % q.size;
  }

  stored_cells :
      (q : Queue A) (x : A) (xs : List A)
      → Represents q xs
      → (k : ℕ) → k < length xs + 1
      → get_elem? (stored_at q x).items ((q.nextread + k) % q.size)
        ≡ some (get_elem? (xs ++ x ∷ []) k)
  stored_cells q x xs h k lt = elim (Bool-cases (k == length xs)) [
    | inl e ↦
        rw (==→eq k (length xs) e, ← h.write_at, get_elem?-append_end xs x)
          (get_elem?-set_self q.items q.nextwrite (some x) (rw h.stored (write_in q xs h)))
    | inr e ↦
        let below : k < length xs = ground arith in
        get_elem?-set_ne q.items q.nextwrite ((q.nextread + k) % q.size) (some x) (λ same.
          round_ne q.size q.nextread k (length xs) h.read_in below h.room (sym same ∙ h.write_at))
        ∙ h.cells k below
        ∙ ap some (sym (get_elem?-append xs (x ∷ []) k below))
  ]

  pub stored_at-Represents :
      (q : Queue A) (x : A) (xs : List A)
      → Represents q xs
      → length xs + 1 < q.size
      → Represents (stored_at q x) (xs ++ x ∷ [])
  stored_at-Represents q x xs h more =
      let longer = length-append xs (x ∷ []) in
      record {
        stored = length-set q.items q.nextwrite (some x) ∙ h.stored;
        read_in = h.read_in;
        room = omega (arith, longer);
        write_at =
            write_next q xs h more
            ∙ ap (λ (k : ℕ). (q.nextread + k) % q.size) (omega (arith, longer));
        cells = λ k lt. stored_cells q x xs h k (omega (arith, longer));
      }

  pub put-ok : (q : Queue A) (x : A) → q.nextwrite < length q.items → put q x ≡ ok (stored_at q x)
  unfolding put
  put-ok q x h = let (old, e) = get_elem?-lt q.items q.nextwrite h in rw (e, store)

  -- The test of `q_addtail`: the queue is full just when one cell is left.
  pub full_test :
      (q : Queue A) (xs : List A)
      → Represents q xs
      → length xs + 1 < q.size
      → ((q.nextwrite + 1) % q.size == q.nextread) ≡ false
  full_test q xs h more = ne→== ((q.nextwrite + 1) % q.size) q.nextread λ e.
      round_ne q.size q.nextread 0 (suc (length xs)) h.read_in (omega arith) (omega arith)
        (rw (add-zero, mod-eq_of_lt h.read_in) (sym e ∙ write_next q xs h more))

  pub full_test_end :
      (q : Queue A) (xs : List A)
      → Represents q xs
      → length xs + 1 ≡ q.size
      → ((q.nextwrite + 1) % q.size == q.nextread) ≡ true
  full_test_end q xs h more =
      let sum : q.nextread + length xs + 1 ≡ q.nextread + q.size = omega arith in
      let cut : q.nextread + q.size - q.size ≡ q.nextread = omega arith in
      let le : q.size ≤ q.nextread + q.size = omega arith in
      rw (h.write_at, mod-add-mod, sum, mod-eq-sub-mod le, cut, mod-eq_of_lt h.read_in)
        (eq→== q.nextread q.nextread refl)

  -- `q_empty` tells whether there are elements.
  pub empty_test :
      (q : Queue A) (xs : List A) → Represents q xs → (q.nextwrite == q.nextread) ≡ (length xs == 0)
  empty_test q xs h = elim (Bool-cases (length xs == 0)) [
    | inl e ↦
        rw (e, h.write_at, ==→eq (length xs) 0 e, add-zero, mod-eq_of_lt h.read_in)
          (eq→== q.nextread q.nextread refl)
    | inr e ↦ rw e (
        ne→== q.nextwrite q.nextread λ same.
          round_ne q.size q.nextread 0 (length xs) h.read_in (ground arith) h.room
            (rw (add-zero, mod-eq_of_lt h.read_in) (sym same ∙ h.write_at)))
  ]
