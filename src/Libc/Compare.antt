-- ===== src/Libc/Compare.antt =====
-- a3/src/lib/libc/strcmp.c and memcmp.c.
use csc.Base.{
  ℕ, zero, suc, ◌-◌, ◌≤◌, ◌<◌, ◌≡◌, refl, ap, ◌≢◌, not, ◌&&◌, List, [], ◌∷◌, arith, ◌==◌, ◌⊎◌, ◌↔◌,
  ==→eq, ne→==, ltb, if◌then◌else◌, length, take, ℤ, pos, negsuc, Bool-cases, inl, inr, Run, ok,
  Bool, true, false, lt→ltb, sym, panic,
}
use mathlib.Core.List.{tail}
use csc.Libc.Str.{IsText, in_buffer}

-- A `char` with the code `c`: it is signed, so the codes from 128 on are those of negative numbers.
unfoldable pub char_value : ℕ → ℤ
char_value c = if ltb c 128 then pos c else negsuc (255 - c)

unfoldable pub ltb_ℤ : ℤ → ℤ → Bool
ltb_ℤ (pos a) (pos b) = ltb a b
ltb_ℤ (pos a) (negsuc b) = false
ltb_ℤ (negsuc a) (pos b) = true
ltb_ℤ (negsuc a) (negsuc b) = ltb b a

-- What `strcmp` returns for the characters at which its loop stops.
unfoldable pub char_order : ℕ → ℕ → ℤ
char_order a b =
    if ltb_ℤ (char_value b) (char_value a) then pos 1 else if a == b then pos 0 else negsuc 0

unfoldable pub strcmp : List ℕ → List ℕ → Run ℤ
strcmp [] b = panic
strcmp (x ∷ a) [] = panic
strcmp (x ∷ a) (y ∷ b) =
    let rest = strcmp a b in if not (x == 0) && (x == y) then rest else ok (char_order x y)

-- `(int)(a[i] - b[i])`, of unsigned bytes.
pub byte_difference : ℕ → ℕ → ℤ
byte_difference a b = if ltb a b then negsuc (b - a - 1) else pos (a - b)

pub memcmp : ℕ → List ℕ → List ℕ → Run ℤ
memcmp zero a b = ok (pos 0)
memcmp (suc len) (x ∷ a) (y ∷ b) =
    let rest = memcmp len a b in if x == y then rest else ok (byte_difference x y)
memcmp (suc len) a b = panic

-- The codes from 128 on come before all others.
abbrev pub Lower : ℕ → ℕ → Type 0
Lower x y = ((128 ≤ x) × (y < 128)) ⊎ ((x < y) × ((y < 128) ⊎ (128 ≤ x)))

-- The order of a dictionary. The end of a text counts as the code 0.
abbrev pub Before : List ℕ → List ℕ → Type 0
Before [] [] = ⊥
Before [] (y ∷ t) = Lower 0 y
Before (x ∷ s) [] = Lower x 0
Before (x ∷ s) (y ∷ t) = Lower x y ⊎ ((x ≡ y) × Before s t)

abbrev pub IsBytes : List ℕ → Type 0
IsBytes [] = Unit
IsBytes (x ∷ s) = (x < 256) × IsBytes s

-- What each result of `strcmp` says of the texts.
abbrev pub CompareResult : List ℕ → List ℕ → ℤ → Type 0
CompareResult s t (pos zero) = s ≡ t
CompareResult s t (pos (suc zero)) = Before t s
CompareResult s t (negsuc zero) = Before s t
CompareResult s t r = ⊥

CompareResult-cons :
    (x : ℕ) (s t : List ℕ) (r : ℤ) → CompareResult s t r → CompareResult (x ∷ s) (x ∷ t) r
CompareResult-cons x s t (pos zero) h = ap (◌∷◌ x) h
CompareResult-cons x s t (pos (suc zero)) h = inr (refl, h)
CompareResult-cons x s t (pos (suc (suc n))) h = h
CompareResult-cons x s t (negsuc zero) h = inr (refl, h)
CompareResult-cons x s t (negsuc (suc n)) h = h

char_order_zero : char_order 0 0 ≡ pos 0
unfolding char_order char_value ltb_ℤ
char_order_zero = refl

Lower-cases : (x y : ℕ) → x ≢ y → Lower x y ⊎ Lower y x
Lower-cases x y h = ground arith

low_value : (c : ℕ) → c < 128 → char_value c ≡ pos c
unfolding char_value
low_value c h = rw (lt→ltb c 128 h) refl

high_value : (c : ℕ) → 128 ≤ c → char_value c ≡ negsuc (255 - c)
unfolding char_value
high_value c h = ground arith

Lower-ltb_ℤ : (x y : ℕ) → x < 256 → y < 256 → Lower x y → ltb_ℤ (char_value x) (char_value y) ≡ true
unfolding ltb_ℤ
Lower-ltb_ℤ x y hx hy (inl (a, b)) = rw (high_value x a, low_value y b) refl
Lower-ltb_ℤ x y hx hy (inr (a, inl b)) =
    rw (low_value x (omega arith), low_value y b) (lt→ltb x y a)
Lower-ltb_ℤ x y hx hy (inr (a, inr b)) =
    rw (high_value x b, high_value y (omega arith)) (lt→ltb (255 - y) (255 - x) (omega arith))

ltb_ℤ-asym : (i j : ℤ) → ltb_ℤ i j ≡ true → ltb_ℤ j i ≡ false
unfolding ltb_ℤ
ltb_ℤ-asym (pos a) (pos b) h = ground arith
ltb_ℤ-asym (pos a) (negsuc b) h = absurd (ground arith)
ltb_ℤ-asym (negsuc a) (pos b) h = refl
ltb_ℤ-asym (negsuc a) (negsuc b) h = ground arith

char_order-Lower : (x y : ℕ) → x < 256 → y < 256 → Lower x y → char_order x y ≡ negsuc 0
unfolding char_order
char_order-Lower x y hx hy l =
    let other : x ≢ y = λ e. absurd (omega (arith, l, e)) in
    rw (ltb_ℤ-asym (char_value x) (char_value y) (Lower-ltb_ℤ x y hx hy l), ne→== x y other) refl

char_order-Higher : (x y : ℕ) → x < 256 → y < 256 → Lower y x → char_order x y ≡ pos 1
unfolding char_order
char_order-Higher x y hx hy l = rw (Lower-ltb_ℤ y x hy hx l) refl

-- On two texts of bytes `strcmp` returns 0 if they are the same, 1 if the second comes first in the
-- order of a dictionary, -1 if the first does, and nothing else. In that order the codes from 128 on,
-- which are negative, come before all others, also before the end of a text.
pub strcmp_lem :
    (s t rest rest' : List ℕ)
    → IsText s
    → IsText t
    → IsBytes s
    → IsBytes t
    → (r : ℤ) × (strcmp (in_buffer s rest) (in_buffer t rest') ≡ ok r) × CompareResult s t r
unfolding strcmp
strcmp_lem [] [] rest rest' hs ht bs bt = (pos 0, ap (λ (r : ℤ). ok r) char_order_zero, refl)
strcmp_lem [] (y ∷ t) rest rest' hs ht bs bt = elim (Lower-cases 0 y (λ e. ht.0 (sym e))) [
  | inl l ↦ (negsuc 0, ap (λ (r : ℤ). ok r) (char_order-Lower 0 y (omega arith) bt.0 l), l)
  | inr l ↦ (pos 1, ap (λ (r : ℤ). ok r) (char_order-Higher 0 y (omega arith) bt.0 l), l)
]
strcmp_lem (x ∷ s) [] rest rest' hs ht bs bt = elim (Lower-cases x 0 hs.0) [
  | inl l ↦ (
    negsuc 0,
    rw (ne→== x 0 hs.0) (ap (λ (r : ℤ). ok r) (char_order-Lower x 0 bs.0 (omega arith) l)),
    l,
  )
  | inr l ↦ (
    pos 1,
    rw (ne→== x 0 hs.0) (ap (λ (r : ℤ). ok r) (char_order-Higher x 0 bs.0 (omega arith) l)),
    l,
  )
]
strcmp_lem (x ∷ s) (y ∷ t) rest rest' hs ht bs bt = elim (Bool-cases (x == y)) [
  | inl e ↦
      let (r, run, result) = strcmp_lem s t rest rest' hs.1 ht.1 bs.1 bt.1 in
      (r, rw (ne→== x 0 hs.0, e) run, rw (==→eq x y e) (CompareResult-cons y s t r result))
  | inr e ↦ elim (Lower-cases x y (λ z. absurd (ground (arith, e, z)))) [
    | inl l ↦ (
      negsuc 0,
      rw (ne→== x 0 hs.0, e) (ap (λ (r : ℤ). ok r) (char_order-Lower x y bs.0 bt.0 l)),
      inl l,
    )
    | inr l ↦ (
      pos 1,
      rw (ne→== x 0 hs.0, e) (ap (λ (r : ℤ). ok r) (char_order-Higher x y bs.0 bt.0 l)),
      inl l,
    )
  ]
]

byte_difference_ne : (x y : ℕ) → x ≢ y → byte_difference x y ≢ pos 0
unfolding byte_difference
byte_difference_ne x y h e = ground arith

-- `memcmp` of two buffers that both hold `len` bytes returns 0 exactly if these are the same.
pub memcmp_lem :
    (len : ℕ) (a b : List ℕ)
    → len ≤ length a
    → len ≤ length b
    → (r : ℤ) × (memcmp len a b ≡ ok r) × ((r ≡ pos 0) ↔ (take len a ≡ take len b))
unfolding memcmp
memcmp_lem zero a b ha hb = (pos 0, refl, (λ e. refl, λ e. refl))
memcmp_lem (suc len) [] b ha hb = absurd (omega arith)
memcmp_lem (suc len) (x ∷ a) [] ha hb = absurd (omega arith)
memcmp_lem (suc len) (x ∷ a) (y ∷ b) ha hb = elim (Bool-cases (x == y)) [
  | inl e ↦
      let (r, run, (to, from)) = memcmp_lem len a b (omega arith) (omega arith) in
      let same : x ≡ y = ==→eq x y e in
      (r, rw e run, (λ z. rw same (ap (◌∷◌ y) (to z)), λ z. from (ap tail z)))
  | inr e ↦ (
    byte_difference x y,
    rw e,
    (
      λ z. absurd (byte_difference_ne x y (λ s. ground arith) z),
      λ z. let s : x ≡ y = cc in absurd (ground arith),
    ),
  )
]
