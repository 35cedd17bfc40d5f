-- ===== src/Queue/Grow.antt =====
-- `q_grow` of a3/src/kern/lib/queue.c keeps what the queue holds.
use native.Mathlib.Nat.{mod-eq_of_lt, add-zero, pow-suc}
use csc.Base.{
  ℕ, zero, suc, ◌+◌, ◌*◌, ◌%◌, ◌^◌, ◌≤◌, ◌<◌, ◌≡◌, refl, sym, ◌∙◌, true, false, Option, some, List,
  [], ◌∷◌, ◌++◌, arith, ◌==◌, eq→==, ne→==, ltb, lt→ltb, Bool-cases, inl, inr, length, get_elem?,
  length-append, append-nil, append_assoc, ok, Run, Result, success,
}
use csc.Queue.{Queue, int_limit, grown_size, load, copy_items, addtail_with}
use csc.Queue.Window.{
  Represents, round_lem, round_ne, round_suc, stored_at, stored_at-Represents, put-ok, write_in,
  full_test,
}

double-pow : (n fuel : ℕ) → n * 2 ^ suc fuel ≡ n * 2 * 2 ^ fuel
double-pow n fuel = rw pow-suc (omega arith)

-- The doubling ends, at a size that is large enough, if the target is at most half of the range.
pub grown_size_lem :
    (fuel nsize target : ℕ)
    → target ≤ nsize * 2 ^ fuel
    → target * 2 ≤ int_limit
    → (n : ℕ) × (grown_size fuel nsize target ≡ ok n) × (target ≤ n) × (nsize ≤ n)
unfolding grown_size
grown_size_lem zero nsize target h lim = (nsize, ground arith, omega arith, omega arith)
grown_size_lem (suc fuel) nsize target h lim = elim (Bool-cases (ltb nsize target)) [
  | inr e ↦ (nsize, rw e, ground arith, omega arith)
  | inl e ↦
      let wider : target ≤ nsize * 2 * 2 ^ fuel = rw (double-pow nsize fuel) at h in
      let (n, run, big, up) = grown_size_lem fuel (nsize * 2) target wider lim in
      (n, rw (e, lt→ltb (nsize * 2) int_limit (ground arith)) run, big, omega arith)
]

pub grow_fuel : (size target : ℕ) → 0 < size → target * 2 ≤ int_limit → target ≤ size * 2 ^ 31
grow_fuel size target h lim = omega arith

module _ {ℓ} {A : Type ℓ} where
  -- With room for one more `q_addtail` stores the element, whatever a growth would do.
  pub addtail_with-room :
      (grow : Queue A → ℕ → Run (Queue A × Result (Unit {0}))) (q : Queue A) (x : A) (xs : List A)
      → Represents q xs
      → length xs + 1 < q.size
      → addtail_with grow q x ≡ ok (stored_at q x, success tt)
  unfolding addtail_with
  addtail_with-room grow q x xs h more = rw (
    lt→ltb 0 q.size (omega arith),
    full_test q xs h more,
    put-ok q x (rw h.stored (write_in q xs h)),
  )

  -- What is left to copy: from index `i` on the old array holds `zs`.
  pub record Remains (old : List (Option A)) (osize i last : ℕ) (zs : List A) : Type ℓ where
    pub inside : i < osize
    pub room : length zs < osize
    pub at_end : last ≡ (i + length zs) % osize
    pub cells : (k : ℕ) → k < length zs → get_elem? old ((i + k) % osize) ≡ some (get_elem? zs k)

  Remains-next :
      (old : List (Option A)) (osize i last : ℕ) (z : A) (zs : List A)
      → Remains old osize i last (z ∷ zs)
      → Remains old osize ((i + 1) % osize) last zs
  Remains-next old osize i last z zs h = record {
    inside = rw (round_lem osize i 1 h.inside (omega (arith, h.room))) (ground (arith, h.inside));
    room = omega (arith, h.room);
    at_end = h.at_end ∙ sym (round_suc osize i (length zs) h.inside h.room);
    cells = λ k lt.
        rw (round_suc osize i k h.inside (omega (arith, h.room))) (h.cells (suc k) (omega arith));
  }

  Remains-end :
      (old : List (Option A)) (osize i last : ℕ) (zs : List A)
      → Remains old osize i last zs
      → length zs ≡ 0
      → (zs ≡ []) × ((i == last) ≡ true)
  Remains-end old osize i last [] h e =
      (refl, eq→== i last (sym (h.at_end ∙ rw (add-zero) (mod-eq_of_lt h.inside))))
  Remains-end old osize i last (z ∷ zs) h e = absurd (omega arith)

  Remains-more :
      (old : List (Option A)) (osize i last : ℕ) (z : A) (zs : List A)
      → Remains old osize i last (z ∷ zs)
      → (i == last) ≡ false
  Remains-more old osize i last z zs h = ne→== i last λ e.
      round_ne osize i 0 (suc (length zs)) h.inside (omega arith) h.room
        (rw (add-zero, mod-eq_of_lt h.inside) (e ∙ h.at_end))

  Remains-load :
      (old : List (Option A)) (osize i last : ℕ) (z : A) (zs : List A)
      → Remains old osize i last (z ∷ zs)
      → load old i ≡ ok z
  unfolding load
  Remains-load old osize i last z zs h =
      let at : get_elem? old i ≡ some (some z) =
        rw (add-zero, mod-eq_of_lt h.inside) at (h.cells 0 (omega arith)) in
      rw (at, load)

  pub copy_items_lem :
      (grow : Queue A → ℕ → Run (Queue A × Result (Unit {0}))) (fuel : ℕ) (old : List (Option A))
      (osize i last : ℕ) (q : Queue A) (ys zs : List A)
      → Remains old osize i last zs
      → length zs ≤ fuel
      → Represents q ys
      → length ys + length zs < q.size
      → (q' : Queue A) × (copy_items (addtail_with grow) fuel old osize i last q ≡ ok q')
        × Represents q' (ys ++ zs)
        × (q'.size ≡ q.size)
  unfolding copy_items
  copy_items_lem grow zero old osize i last q ys zs h f r more =
      let (none_left, at) = Remains-end old osize i last zs h (omega arith) in
      (q, rw at, rw (none_left, append-nil) r, refl)
  copy_items_lem grow (suc fuel) old osize i last q ys [] h f r more =
      let (none_left, at) = Remains-end old osize i last [] h refl in
      (q, rw at, rw append-nil r, refl)
  copy_items_lem grow (suc fuel) old osize i last q ys (z ∷ zs) h f r more =
      let longer = length-append ys (z ∷ []) in
      let step = stored_at-Represents q z ys r (omega arith) in
      let (q', run, all, same) =
        copy_items_lem grow fuel old osize ((i + 1) % osize) last (stored_at q z) (ys ++ z ∷ []) zs
          (Remains-next old osize i last z zs h) (omega arith) step (omega (arith, longer)) in
      (
        q',
        rw
            (
              Remains-more old osize i last z zs h,
              Remains-load old osize i last z zs h,
              addtail_with-room grow q z ys r (omega arith),
            )
            run,
        rw (← append_assoc ys (z ∷ []) zs) all,
        same,
      )
