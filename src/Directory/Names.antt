-- ===== src/Directory/Names.antt =====
-- What name a directory of a3/src/kern/fs/sfs/sfs_vnode.c gives to which inode, and what a change of a
-- slot does to that.
use csc.Base.{
  ℕ, zero, suc, ◌<◌, ◌≡◌, refl, sym, ap, ◌∙◌, ◌≢◌, Bool, true, false, not, ◌&&◌, List, [], ◌∷◌,
  ◌==◌, eq→==, ==→eq, ne→==, if◌then◌else◌, arith, Bool-cases, inl, inr, ◌⊎◌, get_or,
}
use csc.Directory.{Slot, empty, same, put}

pub same_self : (n : List ℕ) → same n n ≡ true
unfolding same
same_self [] = refl
same_self (x ∷ n) = rw (eq→== x x refl) (same_self n)

and-inv : (a b : Bool) → (a && b) ≡ true → (a ≡ true) × (b ≡ true)
and-inv true b h = (refl, h)
and-inv false b h = absurd (ground (arith, h))

pub same→eq : (m n : List ℕ) → same m n ≡ true → m ≡ n
unfolding same
same→eq [] [] h = refl
same→eq (x ∷ m) (y ∷ n) h =
    let (head, tail) = and-inv (x == y) (same m n) h in rw (==→eq x y head, same→eq m n tail) refl
same→eq [] (y ∷ n) h = absurd (ground (arith, h))
same→eq (x ∷ m) [] h = absurd (ground (arith, h))

-- Whether a slot is in use and has the name.
pub hits : Slot → List ℕ → Bool
hits s n = not (s.ino == 0) && same s.name n

-- The inode of a name, and 0 if the directory does not have it.
unfoldable pub lookup : List Slot → List ℕ → ℕ
lookup [] n = 0
lookup (s ∷ d) n = if hits s n then s.ino else lookup d n

-- No two slots in use have the same name.
abbrev pub Distinct : List Slot → Type 0
Distinct [] = Unit
Distinct (s ∷ d) = (0 < s.ino → lookup d s.name ≡ 0) × Distinct d

-- The directory after the name `m` was given to `ino`.
abbrev pub renamed : List ℕ → ℕ → (List ℕ → ℕ) → List ℕ → ℕ
renamed m ino f n = if same m n then ino else f n

pub hits-live : (s : Slot) (n : List ℕ) → 0 < s.ino → hits s n ≡ same s.name n
unfolding hits
hits-live s n live = rw (ne→== s.ino 0 (λ e. omega arith)) refl

pub hits-free : (s : Slot) (n : List ℕ) → s.ino ≡ 0 → hits s n ≡ false
unfolding hits
hits-free s n free = rw (eq→== s.ino 0 free) refl

pub hits-inv : (s : Slot) (n : List ℕ) → hits s n ≡ true → (0 < s.ino) × (s.name ≡ n)
hits-inv s n h = elim (Bool-cases (s.ino == 0)) [
  | inl z ↦ absurd (let f = hits-free s n (==→eq s.ino 0 z) in ground (arith, h, f))
  | inr z ↦
      let live : 0 < s.ino = ground arith in (live, same→eq s.name n (sym (hits-live s n live) ∙ h))
]

pub lookup-nil : (n : List ℕ) → lookup [] n ≡ 0
unfolding lookup
lookup-nil n = refl

-- A name that is found is that of a slot in use.
pub lookup-cons :
    (s : Slot) (d : List Slot) (n : List ℕ)
    → (hits s n ≡ true) × (lookup (s ∷ d) n ≡ s.ino)
      ⊎ (hits s n ≡ false) × (lookup (s ∷ d) n ≡ lookup d n)
unfolding lookup
lookup-cons s d n = elim (Bool-cases (hits s n)) [
  | inl e ↦ inl (e, rw e refl)
  | inr e ↦ inr (e, rw e refl)
]

pub put-lookup :
    (d : List Slot) (k : ℕ) (s : Slot) (n : List ℕ)
    → (get_or d k empty).ino ≡ 0
    → 0 < s.ino
    → lookup d s.name ≡ 0
    → lookup (put d k s) n ≡ renamed s.name s.ino (lookup d) n
unfolding put lookup
put-lookup [] zero s n free live absent = rw (hits-live s n live) refl
put-lookup [] (suc k) s n free live absent =
    rw (hits-free empty n refl) (put-lookup [] k s n refl live refl)
put-lookup (x ∷ d) zero s n free live absent = rw (hits-live s n live, hits-free x n free) refl
put-lookup (x ∷ d) (suc k) s n free live absent = elim (lookup-cons x d s.name) [
  | inl (hit, e) ↦ let at = hits-inv x s.name hit in absurd (omega (arith, at.0, e, absent))
  | inr (miss, e) ↦
      let rest = put-lookup d k s n free live (sym e ∙ absent) in
      elim (lookup-cons x d n) [
        | inl (hit, e') ↦ rw hit (elim (Bool-cases (same s.name n)) [
          | inl z ↦
              let hit' : hits x s.name ≡ true = ap (hits x) (same→eq s.name n z) ∙ hit in
              absurd (ground (arith, hit', miss))
          | inr z ↦ rw z refl
        ])
        | inr (miss', e') ↦ rw miss' rest
      ]
]

-- A slot in use that has the name is the one that is found, if no other slot in use has it.
pub Distinct-lookup :
    (d : List Slot) (k : ℕ)
    → Distinct d
    → 0 < (get_or d k empty).ino
    → lookup d (get_or d k empty).name ≡ (get_or d k empty).ino
unfolding lookup
Distinct-lookup [] k v live = absurd (omega (arith, live))
Distinct-lookup (x ∷ d) zero v live = rw (hits-live x x.name live, same_self x.name) refl
Distinct-lookup (x ∷ d) (suc k) v live =
    let rest = Distinct-lookup d k v.1 live in
    elim (lookup-cons x d (get_or d k empty).name) [
      | inl (hit, e) ↦
          let (positive, name) = hits-inv x (get_or d k empty).name hit in
          let other = v.0 positive in absurd (omega (arith, live, ap (lookup d) name, other, rest))
      | inr (miss, e) ↦ e ∙ rest
    ]

pub Distinct-apart :
    (x : Slot) (d : List Slot) (k : ℕ)
    → Distinct (x ∷ d)
    → 0 < x.ino
    → 0 < (get_or d k empty).ino
    → x.name ≢ (get_or d k empty).name
Distinct-apart x d k v positive live e =
    omega (arith, live, v.0 positive, ap (lookup d) e, Distinct-lookup d k v.1 live)

-- Freeing the slot of a name takes the name away, and no other.
pub drop-lookup :
    (d : List Slot) (k : ℕ) (n : List ℕ)
    → Distinct d
    → 0 < (get_or d k empty).ino
    → lookup (put d k empty) n ≡ renamed (get_or d k empty).name 0 (lookup d) n
unfolding put lookup
drop-lookup [] k n v live = absurd (omega (arith, live))
drop-lookup (x ∷ d) zero n v live = elim (Bool-cases (same x.name n)) [
  | inl e ↦ rw (hits-free empty n refl, e) (ap (lookup d) (sym (same→eq x.name n e)) ∙ v.0 live)
  | inr e ↦ rw (hits-free empty n refl, hits-live x n live, e) refl
]
drop-lookup (x ∷ d) (suc k) n v live =
    let rest = drop-lookup d k n v.1 live in
    elim (Bool-cases (hits x n)) [
      | inl hit ↦ rw hit (elim (Bool-cases (same (get_or d k empty).name n)) [
        | inl z ↦
            let (positive, name) = hits-inv x n hit in
            absurd (
              Distinct-apart x d k v positive live
                (name ∙ sym (same→eq (get_or d k empty).name n z)))
        | inr z ↦ rw z refl
      ])
      | inr miss ↦ rw miss rest
    ]

-- The slots before and behind are as they were.
pub put-Distinct :
    (d : List Slot) (k : ℕ) (s : Slot)
    → Distinct d
    → (get_or d k empty).ino ≡ 0
    → 0 < s.ino
    → lookup d s.name ≡ 0
    → Distinct (put d k s)
unfolding put lookup
put-Distinct [] zero s v free live absent = (λ p. refl, tt)
put-Distinct [] (suc k) s v free live absent =
    (λ p. absurd (omega (arith, p)), put-Distinct [] k s tt refl live refl)
put-Distinct (x ∷ d) zero s v free live absent = elim (lookup-cons x d s.name) [
  | inl (hit, e) ↦ absurd (omega (arith, free, (hits-inv x s.name hit).0))
  | inr (miss, e) ↦ (λ p. sym e ∙ absent, v.1)
]
put-Distinct (x ∷ d) (suc k) s v free live absent = elim (lookup-cons x d s.name) [
  | inl (hit, e) ↦ absurd (omega (arith, e, absent, (hits-inv x s.name hit).0))
  | inr (miss, e) ↦
      let absent' = sym e ∙ absent in
      (
        λ p. put-lookup d k s x.name free live absent' ∙ elim (Bool-cases (same s.name x.name)) [
          | inl z ↦
              let hit : hits x s.name ≡ true =
                ap (hits x) (same→eq s.name x.name z) ∙ hits-live x x.name p ∙ same_self x.name in
              absurd (ground (arith, hit, miss))
          | inr z ↦ rw z (v.0 p)
        ],
        put-Distinct d k s v.1 free live absent',
      )
]

pub drop-Distinct :
    (d : List Slot) (k : ℕ) → Distinct d → 0 < (get_or d k empty).ino → Distinct (put d k empty)
unfolding put lookup
drop-Distinct [] k v live = absurd (omega (arith, live))
drop-Distinct (x ∷ d) zero v live = (λ p. absurd (omega (arith, p)), v.1)
drop-Distinct (x ∷ d) (suc k) v live = (
  λ p. drop-lookup d k x.name v.1 live ∙ elim (Bool-cases (same (get_or d k empty).name x.name)) [
    | inl z ↦ rw z refl
    | inr z ↦ rw z (v.0 p)
  ],
  drop-Distinct d k v.1 live,
)
