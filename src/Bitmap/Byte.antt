-- ===== src/Bitmap/Byte.antt =====
-- What the operators of a3/src/kern/lib/bitmap.c do to the bits of a byte: every byte is checked.
use csc.Base.{
  ℕ, if◌then◌else◌, Bool-cases, inl, inr, ==→eq, zero, suc, ◌-◌, ◌<◌, ◌≡◌, refl, sym, Bool, true,
  false, not, ◌&&◌, ◌||◌, arith, ◌==◌, ltb, ltb→lt,
}
use csc.Bitmap.{test, mark_word, unmark_word, word_allbits, mark_over}

-- Every number under the limit passes the test.
passes_to : (ℕ → Bool) → ℕ → Bool
passes_to f zero = true
passes_to f (suc top) = if f top then passes_to f top else false

passes_to-lt : (f : ℕ → Bool) (top k : ℕ) → passes_to f top ≡ true → k < top → f k ≡ true
unfolding passes_to
passes_to-lt f zero k all below = absurd (omega arith)
passes_to-lt f (suc top) k all below = elim (Bool-cases (f top)) [
  | inl here ↦ elim (Bool-cases (k == top)) [
    | inl e ↦ rw (==→eq k top e) here
    | inr e ↦ passes_to-lt f top k (ground arith) (ground arith)
  ]
  | inr e ↦ absurd (ground arith)
]

eqb : Bool → Bool → Bool
eqb true b = b
eqb false b = not b

eqb_sound : (a b : Bool) → eqb a b ≡ true → a ≡ b
unfolding eqb
eqb_sound true b h = sym h
eqb_sound false b h = ground arith

and_left : (a b : Bool) → (a && b) ≡ true → a ≡ true
and_left true b h = refl
and_left false b h = h

and_right : (a b : Bool) → (a && b) ≡ true → b ≡ true
and_right true b h = h
and_right false b h = absurd (ground arith)

-- A test of each byte, and of each pair of offsets.
each : (ℕ → ℕ → ℕ → Bool) → Bool
each p = passes_to (λ w. passes_to (λ o. passes_to (λ i. p w o i) 8) 8) 256

each_sound :
    (p : ℕ → ℕ → ℕ → Bool) (w o i : ℕ) → each p ≡ true → w < 256 → o < 8 → i < 8 → p w o i ≡ true
unfolding each
each_sound p w o i h hw ho hi =
    let byte = passes_to-lt (λ x. passes_to (λ y. passes_to (λ z. p x y z) 8) 8) 256 w h hw in
    let offset = passes_to-lt (λ y. passes_to (λ z. p w y z) 8) 8 o byte ho in
    passes_to-lt (λ z. p w o z) 8 i offset hi

mark_table : each (λ w o i. eqb (test (mark_word w o) i) (o == i || test w i)) ≡ true
unfolding each passes_to test eqb mark_word
mark_table = refl

unmark_table : each (λ w o i. eqb (test (unmark_word w o) i) (not (o == i) && test w i)) ≡ true
unfolding each passes_to test eqb unmark_word
unmark_table = refl

bound_table : each (λ w o i. ltb (mark_word w o) 256 && ltb (unmark_word w o) 256) ≡ true
unfolding each passes_to unmark_word mark_word
bound_table = refl

-- Marking a bit sets that bit, and no other.
pub test-mark_word :
    (w o i : ℕ) → w < 256 → o < 8 → i < 8 → test (mark_word w o) i ≡ (o == i || test w i)
test-mark_word w o i hw ho hi = eqb_sound _ _ (each_sound _ w o i mark_table hw ho hi)

-- Unmarking clears that bit, and no other.
pub test-unmark_word :
    (w o i : ℕ) → w < 256 → o < 8 → i < 8 → test (unmark_word w o) i ≡ (not (o == i) && test w i)
test-unmark_word w o i hw ho hi = eqb_sound _ _ (each_sound _ w o i unmark_table hw ho hi)

pub word_bounds : (w o : ℕ) → w < 256 → o < 8 → (mark_word w o < 256) × (unmark_word w o < 256)
word_bounds w o hw ho = let h = each_sound _ w o 0 bound_table hw ho (omega arith) in ground arith

full_table : passes_to (λ w. not (passes_to (λ o. test w o) 8) || w == word_allbits) 256 ≡ true
unfolding passes_to test
full_table = refl

zero_table : passes_to (λ o. not (test 0 o)) 8 ≡ true
unfolding passes_to test
zero_table = refl

pub test-zero : (o : ℕ) → o < 8 → test 0 o ≡ false
test-zero o h = let e = passes_to-lt (λ k. not (test 0 k)) 8 o zero_table h in ground arith

allbits_table : passes_to (λ o. test word_allbits o) 8 ≡ true
unfolding passes_to test
allbits_table = refl

pub test-allbits : (o : ℕ) → o < 8 → test word_allbits o ≡ true
test-allbits o h = passes_to-lt (λ k. test word_allbits k) 8 o allbits_table h

passes_to-all : (f : ℕ → Bool) (top : ℕ) → ((k : ℕ) → k < top → f k ≡ true) → passes_to f top ≡ true
unfolding passes_to
passes_to-all f zero every = refl
passes_to-all f (suc top) every =
    rw (every top (omega arith), passes_to-all f top (λ k below. every k (omega arith)))

-- A byte whose bits are all set is the one that `bitmap_alloc` skips.
pub allbits_of_tests : (w : ℕ) → w < 256 → ((o : ℕ) → o < 8 → test w o ≡ true) → w ≡ word_allbits
allbits_of_tests w hw h =
    let all = passes_to-all (λ o. test w o) 8 h in
    let e =
      passes_to-lt (λ k. not (passes_to (λ o. test k o) 8) || k == word_allbits) 256 w full_table
        hw in
    ground arith

over_table :
    passes_to
      (λ k.
        passes_to
          (λ i.
            eqb (test (mark_over (8 - k) k 0) i) (not (ltb i k)) && ltb (mark_over (8 - k) k 0) 256)
          8)
      8
    ≡ true
unfolding passes_to test eqb mark_over mark_word
over_table = refl

-- The loop of `bitmap_create` marks the bits from the first one over on, in a byte.
pub mark_over_lem :
    (k i : ℕ)
    → k < 8
    → i < 8
    → (test (mark_over (8 - k) k 0) i ≡ not (ltb i k)) × (mark_over (8 - k) k 0 < 256)
mark_over_lem k i hk hi =
    let row =
      passes_to-lt
        (λ k.
          passes_to
            (λ i.
              eqb (test (mark_over (8 - k) k 0) i) (not (ltb i k))
              && ltb (mark_over (8 - k) k 0) 256)
            8)
        8 k over_table hk in
    let h =
      passes_to-lt
        (λ i.
          eqb (test (mark_over (8 - k) k 0) i) (not (ltb i k)) && ltb (mark_over (8 - k) k 0) 256)
        8 i row hi in
    (eqb_sound _ _ (and_left _ _ h), ltb→lt _ _ (and_right _ _ h))
