-- ===== src/Swap/Count.antt =====
-- The number of clear bits, which the counter of free pages in a3/src/kern/vm/swap.c keeps.
use csc.Base.{
  ℕ, zero, suc, ◌+◌, ◌≤◌, ◌<◌, ◌≡◌, refl, sym, ◌∙◌, Bool, true, false, ◌||◌, arith, ◌==◌, ==→eq,
  ne→==, Bool-cases, inl, inr,
}

abbrev pub clear_weight : Bool → ℕ
clear_weight true = 0
clear_weight false = 1

-- How many of the bits below `n` are clear.
abbrev pub clear_count : (ℕ → Bool) → ℕ → ℕ
clear_count f zero = 0
clear_count f (suc n) = clear_weight (f n) + clear_count f n

clear_count_same :
    (f g : ℕ → Bool) (n : ℕ) → ((i : ℕ) → i < n → f i ≡ g i) → clear_count f n ≡ clear_count g n
clear_count_same f g zero h = refl
clear_count_same f g (suc n) h =
    rw (h n (omega arith), clear_count_same f g n (λ i lt. h i (omega arith)))

pub clear_count_none : (f : ℕ → Bool) (n : ℕ) → ((i : ℕ) → i < n → f i ≡ true) → clear_count f n ≡ 0
clear_count_none f zero h = refl
clear_count_none f (suc n) h =
    rw (h n (omega arith), clear_count_none f n (λ i lt. h i (omega arith)))

pub clear_count_all : (f : ℕ → Bool) (n : ℕ) → ((i : ℕ) → i < n → f i ≡ false) → clear_count f n ≡ n
clear_count_all f zero h = refl
clear_count_all f (suc n) h =
    rw (h n (omega arith), clear_count_all f n (λ i lt. h i (omega arith))) (omega arith)

-- One more marked bit is one fewer clear one.
pub clear_count_mark :
    (f g : ℕ → Bool) (k n : ℕ)
    → k < n
    → f k ≡ false
    → ((i : ℕ) → g i ≡ (k == i || f i))
    → clear_count f n ≡ suc (clear_count g n)
clear_count_mark f g k zero lt clear h = absurd (omega arith)
clear_count_mark f g k (suc n) lt clear h = elim (Bool-cases (k == n)) [
  | inl e ↦
      let same = ==→eq k n e in
      let below =
        clear_count_same f g n (λ i lt'. sym (h i ∙ rw (ne→== k i (λ z. omega arith)) refl)) in
      let old : f n ≡ false = rw (← same) clear in
      let new : g n ≡ true = h n ∙ rw e refl in rw (old, new, below) (omega arith)
  | inr e ↦
      let rest = clear_count_mark f g k n (ground arith) clear h in
      let same : g n ≡ f n = h n ∙ rw e refl in rw (same, rest) (omega arith)
]

pub clear_count_le : (f : ℕ → Bool) (n : ℕ) → clear_count f n ≤ n
clear_count_le f zero = omega arith
clear_count_le f (suc n) = weight (f n) (clear_count_le f n)
  where
    weight : (b : Bool) → clear_count f n ≤ n → clear_weight b + clear_count f n ≤ suc n
    weight true h = omega arith
    weight false h = omega arith
