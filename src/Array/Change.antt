-- ===== src/Array/Change.antt =====
-- `array_add` and `array_remove` of a3/src/kern/lib/array.c.
use csc.Base.{
  ℕ, le→leb, zero, suc, ◌+◌, ◌-◌, ◌*◌, ◌≤◌, ◌<◌, ◌≡◌, refl, sym, ap, ◌∙◌, Bool, false, Option, some,
  List, [], ◌∷◌, ◌++◌, ltb, lt→ltb, ltb→lt, ◌==◌, ==→eq, arith, Bool-cases, inl, inr, length,
  length-set, length-append, get_elem?, get_elem?-set_self, get_elem?-set_ne, get_elem?-append_end,
  get_elem?-append, set, ok, ◌>>=◌, Returns, Returns-inv, Result, success, failure, enomem,
}
use csc.Array.{Array, cells, int_limit, store, array_setsize, array_add, array_remove}
use csc.Array.Cells.{store-at, move_down_lem}
use csc.Array.Refine.{Represents, SizeResult, array_setsize_lem}

-- The list without its element number `i`.
abbrev pub remove_at {ℓ} : {A : Type ℓ} → ℕ → List A → List A
remove_at i [] = []
remove_at zero (x ∷ xs) = xs
remove_at (suc i) (x ∷ xs) = x ∷ remove_at i xs

module _ {A : Type 0} where
  -- What `array_add` leaves of an array that held `xs`.
  abbrev pub AddResult : Bool → Array A → List (Option A) → A → Array A × Result (Unit {0}) → Type 0
  AddResult mem a xs guy (a', success _) = Represents a' (xs ++ some guy ∷ [])
  AddResult mem a xs guy (a', failure e) =
      (mem ≡ false) × (a.max ≡ length xs) × (e ≡ enomem) × (a' ≡ a)

  add_step :
      (mem : Bool) (a : Array A) (xs : List (Option A)) (guy : A) (r : Array A × Result (Unit {0}))
      → Represents a xs
      → SizeResult mem a (a.num + 1) r
      → Returns (AddResult mem a xs guy) (elim r.1 [
        | success _ ↦ (do
          v ← store (cells (r.0).v) a.num (some guy)
          ok (record (r.0) { v = some v }, success tt))
        | failure e ↦ ok (r.0, failure e)
      ])
  add_step mem a xs guy (a', failure e) h (none_left, full, code, same) =
      (none_left, omega (arith, h.num, h.valid.fits), code, same)
  add_step mem a xs guy (a', success u) h g =
      let room : a.num < length (cells a'.v) = omega (arith, g.num, g.valid.fits, g.valid.size) in
      let len : length (set (cells a'.v) a.num (some guy)) ≡ length (cells a'.v) =
        length-set (cells a'.v) a.num (some guy) in
      let longer : length (xs ++ some guy ∷ []) ≡ length xs + 1 =
        length-append xs (some guy ∷ []) in
      rw (store-at (cells a'.v) a.num (some guy) room) (record {
        valid = record { fits = g.valid.fits; size = len ∙ g.valid.size };
        num = omega (arith, g.num, h.num);
        elems = λ k lt. elim (Bool-cases (a.num == k)) [
          | inl e ↦
              let same = ==→eq a.num k e in
              let at : k ≡ length xs = omega (arith, h.num) in
              let new : get_elem? (set (cells a'.v) a.num (some guy)) a.num ≡ some (some guy) =
                get_elem?-set_self (cells a'.v) a.num (some guy) room in
              let last : get_elem? (set (cells a'.v) a.num (some guy)) k ≡ some (some guy) =
                rw (← same) new in
              last ∙ rw at (sym (get_elem?-append_end xs (some guy)))
          | inr e ↦
              let below : k < length xs = ground (arith, h.num) in
              get_elem?-set_ne (cells a'.v) a.num k (some guy) (λ z. ground arith)
              ∙ g.kept k (ground (arith, h.num)) (omega (arith, h.num))
              ∙ h.elems k below
              ∙ sym (get_elem?-append xs (some guy ∷ []) k below)
        ];
      })

  -- On an array that holds `xs`, with twice the new length below the range of an `int`, `array_add`
  -- returns, and the array holds `xs` and the new element behind them; or, only if it is full and
  -- there is no memory for a larger one, ENOMEM and the same array.
  pub array_add_lem :
      (mem : Bool) (a : Array A) (xs : List (Option A)) (guy : A)
      → Represents a xs
      → (length xs + 1) * 2 < int_limit
      → Returns (AddResult mem a xs guy) (array_add mem a guy)
  unfolding array_add
  array_add_lem mem a xs guy h lim =
      let sized =
        Returns-inv (SizeResult mem a (a.num + 1)) (array_setsize mem a (a.num + 1))
          (array_setsize_lem mem a (a.num + 1) h.valid (omega (arith, h.num))) in
      rw sized.1 (add_step mem a xs guy sized.0 h sized.2)

  length-remove_at :
      (i : ℕ) (xs : List (Option A)) → i < length xs → suc (length (remove_at i xs)) ≡ length xs
  length-remove_at i [] h = absurd (omega arith)
  length-remove_at zero (x ∷ xs) h = refl
  length-remove_at (suc i) (x ∷ xs) h = ap suc (length-remove_at i xs (omega arith))

  remove_at-below :
      (i k : ℕ) (xs : List (Option A)) → k < i → get_elem? (remove_at i xs) k ≡ get_elem? xs k
  remove_at-below i k [] h = refl
  remove_at-below zero k (x ∷ xs) h = absurd (omega arith)
  remove_at-below (suc i) zero (x ∷ xs) h = refl
  remove_at-below (suc i) (suc k) (x ∷ xs) h = remove_at-below i k xs (omega arith)

  remove_at-above :
      (i k : ℕ) (xs : List (Option A)) → i ≤ k → get_elem? (remove_at i xs) k ≡ get_elem? xs (suc k)
  remove_at-above i k [] h = refl
  remove_at-above zero k (x ∷ xs) h = refl
  remove_at-above (suc i) zero (x ∷ xs) h = absurd (omega arith)
  remove_at-above (suc i) (suc k) (x ∷ xs) h = remove_at-above i k xs (omega arith)

  -- `array_remove` of an index in range returns, and the array holds the other elements, in order.
  pub array_remove_lem :
      (a : Array A) (xs : List (Option A)) (i : ℕ)
      → Represents a xs
      → i < length xs
      → (a' : Array A) × (array_remove a i ≡ ok a') × Represents a' (remove_at i xs)
  unfolding array_remove
  array_remove_lem a xs i h lt =
      let inside : i < a.num = omega (arith, h.num) in
      let (v, run, m) =
        move_down_lem (a.num - (i + 1)) i (cells a.v) (omega (arith, h.valid.fits, h.valid.size)) in
      let len : suc (length (remove_at i xs)) ≡ length xs = length-remove_at i xs lt in
      (
        record a { num = a.num - 1; v = some v },
        rw (le→leb a.num a.max h.valid.fits, lt→ltb i a.num inside, run),
        record {
          valid = record { fits = omega (arith, h.valid.fits); size = m.size ∙ h.valid.size };
          num = omega (arith, h.num);
          elems = λ k below. elim (Bool-cases (ltb k i)) [
            | inl e ↦
                let first : k < i = ltb→lt k i e in
                m.kept k first ∙ h.elems k (omega arith) ∙ sym (remove_at-below i k xs first)
            | inr e ↦
                let later : i ≤ k = ground arith in
                let next : get_elem? (cells a.v) (suc k) ≡ get_elem? xs (suc k) =
                  h.elems (suc k) (omega arith) in
                m.moved k later (omega (arith, h.num))
                ∙ ap (get_elem? (cells a.v)) (omega arith)
                ∙ next
                ∙ sym (remove_at-above i k xs later)
          ];
        },
      )
