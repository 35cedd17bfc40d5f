-- ===== src/Libc/Search.antt =====
-- a3/src/lib/libc/strchr.c and strrchr.c. The pointer that they return is given as an index.
use csc.Base.{
  ℕ, zero, suc, ◌+◌, ◌≤◌, ◌<◌, ◌≡◌, refl, sym, ap, ◌∙◌, ◌≢◌, false, List, [], ◌∷◌, ◌++◌, Option,
  none, some, arith, ◌==◌, ==→eq, ne→==, some-eq, if◌then◌else◌, length, length-append, get_elem?,
  get_elem?-lt, Bool-cases, inl, inr, Run, ok, panic, ◌>>=◌,
}
use csc.Libc.Str.{IsText, in_buffer, strlen, strlen_lem}

-- The scan of `strchr`, `i` characters on.
pub strchr_from : ℕ → List ℕ → ℕ → Run (Option ℕ)
strchr_from i [] ch = panic
strchr_from i (c ∷ s) ch =
    let rest = strchr_from (i + 1) s ch in
    if c == 0
    then (if c == ch then ok (some i) else ok none)
    else (if c == ch then ok (some i) else rest)

pub strchr : List ℕ → ℕ → Run (Option ℕ)
strchr s ch = strchr_from 0 s ch

-- The loop of `strrchr`, from index `i` down.
pub strrchr_from : ℕ → List ℕ → ℕ → Run (Option ℕ)
strrchr_from zero s ch = ok none
strrchr_from (suc i) s ch =
    let rest = strrchr_from i s ch in
    elim (get_elem? s i) [ none ↦ panic | some c ↦ if c == ch then ok (some i) else rest ]

pub strrchr : List ℕ → ℕ → Run (Option ℕ)
strrchr s ch = do n ← strlen s; strrchr_from (n + 1) s ch

-- What the scan finds of a string whose first character is number `i`: the number of the first
-- character, terminator included, that is `ch`; or nothing, and none is.
abbrev pub IsFirst : ℕ → List ℕ → ℕ → Option ℕ → Type 0
IsFirst i s ch none = (k : ℕ) → k ≤ length s → get_elem? (s ++ 0 ∷ []) k ≢ some ch
IsFirst i s ch (some n) =
    (j : ℕ) × (n ≡ i + j)
    × (get_elem? (s ++ 0 ∷ []) j ≡ some ch)
    × ((k : ℕ) → k < j → get_elem? (s ++ 0 ∷ []) k ≢ some ch)

IsFirst-cons :
    (i c : ℕ) (s : List ℕ) (ch : ℕ) (o : Option ℕ)
    → c ≢ ch
    → IsFirst (i + 1) s ch o
    → IsFirst i (c ∷ s) ch o
IsFirst-cons i c s ch none ne h = λ k le. later k le
  where
    later : (k : ℕ) → k ≤ suc (length s) → get_elem? (c ∷ s ++ 0 ∷ []) k ≢ some ch
    later zero le e = ne (some-eq e)
    later (suc k) le e = h k (omega arith) e
IsFirst-cons i c s ch (some n) ne (j, at, found, before) = (suc j, omega arith, found, earlier)
  where
    earlier : (k : ℕ) → k < suc j → get_elem? (c ∷ s ++ 0 ∷ []) k ≢ some ch
    earlier zero le e = ne (some-eq e)
    earlier (suc k) le e = before k (omega arith) e

strchr_from_lem :
    (i : ℕ) (s rest : List ℕ) (ch : ℕ)
    → IsText s
    → (o : Option ℕ) × (strchr_from i (in_buffer s rest) ch ≡ ok o) × IsFirst i s ch o
unfolding strchr_from
strchr_from_lem i [] rest ch h = elim (Bool-cases (0 == ch)) [
  | inl e ↦ (some i, rw e, (0, omega arith, ap some (==→eq 0 ch e), λ k lt. absurd (omega arith)))
  | inr e ↦ (none, rw e, λ k le. only k le e)
]
  where
    only : (k : ℕ) → k ≤ 0 → (0 == ch) ≡ false → get_elem? (0 ∷ []) k ≢ some ch
    only zero le e same = let z : 0 ≡ ch = some-eq same in absurd (ground arith)
    only (suc k) le e same = absurd (omega arith)
strchr_from_lem i (c ∷ s) rest ch h = elim (Bool-cases (c == ch)) [
  | inl e ↦ (
    some i,
    rw (ne→== c 0 h.0, e),
    (0, omega arith, ap some (==→eq c ch e), λ k lt. absurd (omega arith)),
  )
  | inr e ↦
      let (o, run, first) = strchr_from_lem (i + 1) s rest ch h.1 in
      (o, rw (ne→== c 0 h.0, e) run, IsFirst-cons i c s ch o (λ z. ground arith) first)
]

-- On a text `strchr` returns a pointer to the first character, terminator included, that is `ch`,
-- and a null pointer exactly if there is none.
pub strchr_lem :
    (s rest : List ℕ) (ch : ℕ)
    → IsText s
    → (o : Option ℕ) × (strchr (in_buffer s rest) ch ≡ ok o) × IsFirst 0 s ch o
unfolding strchr
strchr_lem s rest ch h = strchr_from_lem 0 s rest ch h

-- What the loop of `strrchr` finds below index `n`: the last character that is `ch`.
abbrev pub IsLast : ℕ → List ℕ → ℕ → Option ℕ → Type 0
IsLast n s ch none = (k : ℕ) → k < n → get_elem? s k ≢ some ch
IsLast n s ch (some i) =
    (i < n) × (get_elem? s i ≡ some ch) × ((k : ℕ) → i < k → k < n → get_elem? s k ≢ some ch)

IsLast-suc :
    (n : ℕ) (s : List ℕ) (ch c : ℕ) (o : Option ℕ)
    → get_elem? s n ≡ some c
    → c ≢ ch
    → IsLast n s ch o
    → IsLast (suc n) s ch o
IsLast-suc n s ch c none at ne h = λ k lt e. elim (Bool-cases (k == n)) [
  | inl same ↦
      let e' : get_elem? s n ≡ some ch = rw (==→eq k n same) at e in ne (some-eq (sym at ∙ e'))
  | inr other ↦ h k (ground arith) e
]
IsLast-suc n s ch c (some i) at ne (below, found, after) = (
  omega arith,
  found,
  λ k above lt e. elim (Bool-cases (k == n)) [
    | inl same ↦
        let e' : get_elem? s n ≡ some ch = rw (==→eq k n same) at e in ne (some-eq (sym at ∙ e'))
    | inr other ↦ after k above (ground arith) e
  ],
)

strrchr_from_lem :
    (n : ℕ) (s : List ℕ) (ch : ℕ)
    → n ≤ length s
    → (o : Option ℕ) × (strrchr_from n s ch ≡ ok o) × IsLast n s ch o
unfolding strrchr_from
strrchr_from_lem zero s ch h = (none, refl, λ k lt. absurd (omega arith))
strrchr_from_lem (suc n) s ch h =
    let (c, at) = get_elem?-lt s n (omega arith) in
    elim (Bool-cases (c == ch)) [
      | inl e ↦ (
        some n,
        rw (at, strrchr_from, e),
        (omega arith, at ∙ ap some (==→eq c ch e), λ k above lt. absurd (omega arith)),
      )
      | inr e ↦
          let (o, run, last) = strrchr_from_lem n s ch (omega arith) in
          (o, rw (at, strrchr_from, e) run, IsLast-suc n s ch c o at (λ z. ground arith) last)
    ]

-- On a text `strrchr` returns a pointer to the last character, terminator included, that is `ch`,
-- and a null pointer exactly if there is none.
pub strrchr_lem :
    (s rest : List ℕ) (ch : ℕ)
    → IsText s
    → (o : Option ℕ) × (strrchr (in_buffer s rest) ch ≡ ok o)
      × IsLast (length s + 1) (in_buffer s rest) ch o
unfolding strrchr
strrchr_lem s rest ch h = rw (strlen_lem s rest h) (
    strrchr_from_lem (length s + 1) (in_buffer s rest) ch
      (omega (arith, length-append s (0 ∷ rest))))
