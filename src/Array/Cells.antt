-- ===== src/Array/Cells.antt =====
-- The loops of a3/src/kern/lib/array.c over the cells.
use native.Mathlib.Nat.{pow-suc}
use csc.Base.{
  ℕ, zero, suc, ◌+◌, ◌*◌, ◌^◌, ◌≤◌, ◌<◌, ◌≡◌, refl, sym, ◌∙◌, Option, some, List, ltb, lt→ltb, ◌==◌,
  ==→eq, arith, Bool-cases, inl, inr, length, length-set, get_elem?, get_elem?-lt,
  get_elem?-set_self, get_elem?-set_ne, set, ok,
}
use csc.Array.{load, store, copy_cells, move_down, grown_max, int_limit}

module _ {ℓ} {A : Type ℓ} where
  pub load-at :
      (v : List (Option A)) (i : ℕ) {x : Option A} → get_elem? v i ≡ some x → load v i ≡ ok x
  unfolding load
  load-at v i e = rw (e, load)

  pub store-at :
      (v : List (Option A)) (i : ℕ) (x : Option A) → i < length v → store v i x ≡ ok (set v i x)
  unfolding store
  store-at v i x h = let (old, e) = get_elem?-lt v i h in rw (e, store)

  -- What the loop that copies leaves.
  pub record Copied (n i d : ℕ) (old new new' : List (Option A)) : Type ℓ where
    pub size : length new' ≡ length new
    pub moved : (k : ℕ) → i ≤ k → k < i + n → get_elem? new' k ≡ get_elem? old (k + d)
    pub kept : (k : ℕ) → k < i → get_elem? new' k ≡ get_elem? new k

  pub copy_cells_lem :
      (n i d : ℕ) (old new : List (Option A))
      → i + n ≤ length new
      → i + d + n ≤ length old
      → (new' : List (Option A)) × (copy_cells n i d old new ≡ ok new') × Copied n i d old new new'
  unfolding copy_cells
  copy_cells_lem zero i d old new h h' = (
    new,
    refl,
    record { size = refl; moved = λ k low high. absurd (omega arith); kept = λ k lt. refl },
  )
  copy_cells_lem (suc n) i d old new h h' =
      let (x, at) = get_elem?-lt old (i + d) (omega arith) in
      let len : length (set new i x) ≡ length new = length-set new i x in
      let (new', run, c) =
        copy_cells_lem n (i + 1) d old (set new i x) (omega arith) (omega arith) in
      (
        new',
        rw (load-at old (i + d) at, store-at new i x (omega arith)) run,
        record {
          size = c.size ∙ len;
          moved = λ k low high. elim (Bool-cases (i == k)) [
            | inl e ↦
                let same = ==→eq i k e in
                rw (← same)
                  (c.kept i (omega arith) ∙ get_elem?-set_self new i x (omega arith) ∙ sym at)
            | inr e ↦ c.moved k (ground arith) (omega arith)
          ];
          kept = λ k lt. c.kept k (omega arith) ∙ get_elem?-set_ne new i k x (λ z. omega arith);
        },
      )

  -- What `memmove` leaves: `n` cells have moved down by one.
  pub record Moved (n i : ℕ) (v v' : List (Option A)) : Type ℓ where
    pub size : length v' ≡ length v
    pub moved : (k : ℕ) → i ≤ k → k < i + n → get_elem? v' k ≡ get_elem? v (k + 1)
    pub kept : (k : ℕ) → k < i → get_elem? v' k ≡ get_elem? v k

  pub move_down_lem :
      (n i : ℕ) (v : List (Option A))
      → i + n + 1 ≤ length v
      → (v' : List (Option A)) × (move_down n i v ≡ ok v') × Moved n i v v'
  unfolding move_down
  move_down_lem zero i v h = (
    v,
    refl,
    record { size = refl; moved = λ k low high. absurd (omega arith); kept = λ k lt. refl },
  )
  move_down_lem (suc n) i v h =
      let (x, at) = get_elem?-lt v (i + 1) (omega arith) in
      let len : length (set v i x) ≡ length v = length-set v i x in
      let (v', run, m) = move_down_lem n (i + 1) (set v i x) (omega arith) in
      (
        v',
        rw (load-at v (i + 1) at, store-at v i x (omega arith)) run,
        record {
          size = m.size ∙ len;
          moved = λ k low high. elim (Bool-cases (i == k)) [
            | inl e ↦
                let same = ==→eq i k e in
                rw (← same)
                  (m.kept i (omega arith) ∙ get_elem?-set_self v i x (omega arith) ∙ sym at)
            | inr e ↦
                m.moved k (ground arith) (omega arith)
                ∙ get_elem?-set_ne v i (k + 1) x (λ z. omega arith)
          ];
          kept = λ k lt. m.kept k (omega arith) ∙ get_elem?-set_ne v i k x (λ z. omega arith);
        },
      )

double-pow : (n fuel : ℕ) → n * 2 ^ suc fuel ≡ n * 2 * 2 ^ fuel
double-pow n fuel = rw pow-suc (omega arith)

-- The growth ends, at a size that is large enough, if the target is at most half of the range.
pub grown_max_lem :
    (fuel newmax nguys : ℕ)
    → nguys + 2 ≤ (newmax + 2) * 2 ^ fuel
    → nguys * 2 < int_limit
    → (n : ℕ) × (grown_max fuel newmax nguys ≡ ok n) × (nguys ≤ n) × (newmax ≤ n)
unfolding grown_max
grown_max_lem zero newmax nguys h lim = (newmax, ground arith, omega arith, omega arith)
grown_max_lem (suc fuel) newmax nguys h lim = elim (Bool-cases (ltb newmax nguys)) [
  | inr e ↦ (newmax, rw e, ground arith, omega arith)
  | inl e ↦
      let wide : nguys + 2 ≤ (newmax + 2) * 2 * 2 ^ fuel = rw (double-pow (newmax + 2) fuel) at h in
      let same : (newmax + 2) * 2 ≡ (newmax + 1) * 2 + 2 = omega arith in
      let wider : nguys + 2 ≤ ((newmax + 1) * 2 + 2) * 2 ^ fuel = rw same at wide in
      let (n, run, big, up) = grown_max_lem fuel ((newmax + 1) * 2) nguys wider lim in
      (n, rw (e, lt→ltb ((newmax + 1) * 2) int_limit (ground arith)) run, big, omega arith)
]
