-- ===== src/Directory/Scan.antt =====
-- The loop of `sfs_dir_findname` of a3/src/kern/fs/sfs/sfs_vnode.c.
use csc.Base.{
  ℕ, suc, ◌+◌, ◌<◌, ◌≡◌, refl, sym, ap, ◌∙◌, Bool, true, false, not, Option, none, some, List, [],
  ◌∷◌, ◌==◌, ==→eq, ne→==, if◌then◌else◌, arith, Bool-cases, inl, inr, ◌⊎◌, get_or, length, Run, ok,
  ◌>>=◌, ◌>>◌, assert, Returns, Returns-inv, Result, success, failure, Errno, enoent,
}
use csc.Directory.{Slot, empty, same, Search, visit, find_from}
use csc.Directory.Names.{
  hits-live, hits-inv, lookup, lookup-cons, lookup-nil, same_self, Distinct, Distinct-lookup,
}

-- Slot `k` is in use and has the name.
pub record Names (d : List Slot) (k : ℕ) (name : List ℕ) : Type 0 where
  pub live : 0 < (get_or d k empty).ino
  pub named : (get_or d k empty).name ≡ name

-- What the search leaves of the name, from slot `i` on.
abbrev pub Noted : List ℕ → List Slot → ℕ → Search → Search → Type 0
Noted name d i a a' =
    ((lookup d name ≡ 0) × (a'.found ≡ a.found) × (a'.ino ≡ a.ino) × (a'.slot ≡ a.slot))
    ⊎ ((a'.found ≡ true)
        × (a'.ino ≡ lookup d name)
        × ((k : ℕ) × (a'.slot ≡ i + k) × Names d k name))

-- What it leaves of a free slot.
abbrev pub Spare : List Slot → ℕ → Search → Search → Type 0
Spare d i a a' =
    (a'.emptyslot ≡ a.emptyslot)
    ⊎ ((k : ℕ) × (a'.emptyslot ≡ some (i + k)) × (k < length d) × ((get_or d k empty).ino ≡ 0))

abbrev pub Scanned :
    (ℕ → Option Errno) → List ℕ → List Slot → ℕ → Search → Search × Result (Unit {0}) → Type 0
Scanned reads name d i a (a', success u) = (a'.found ≡ true) × Noted name d i a a' × Spare d i a a'
Scanned reads name d i a (a', failure e) =
    ((e ≡ enoent) × (a'.found ≡ false) × Noted name d i a a' × Spare d i a a')
    ⊎ ((j : ℕ) × (reads (i + j) ≡ some e))

Scanned-cons :
    (reads : ℕ → Option Errno) (name : List ℕ) (s : Slot) (d : List Slot) (i : ℕ) (a b : Search)
    (r : Search × Result (Unit {0}))
    → ((a' : Search) → Noted name d (i + 1) b a' → Noted name (s ∷ d) i a a')
    → ((a' : Search) → Spare d (i + 1) b a' → Spare (s ∷ d) i a a')
    → Scanned reads name d (i + 1) b r
    → Scanned reads name (s ∷ d) i a r
Scanned-cons reads name s d i a b (a', success u) noted spare (f, n, e) =
    (f, noted a' n, spare a' e)
Scanned-cons reads name s d i a b (a', failure e) noted spare (inl (c, f, n, e')) =
    inl (c, f, noted a' n, spare a' e')
Scanned-cons reads name s d i a b (a', failure e) noted spare (inr (j, at)) =
    let next : i + suc j ≡ i + 1 + j = omega arith in inr (suc j, ap reads next ∙ at)

-- The slot at the front does not have the name.
Noted-skip :
    (name : List ℕ) (s : Slot) (d : List Slot) (i : ℕ) (a b a' : Search)
    → lookup (s ∷ d) name ≡ lookup d name
    → (b.found ≡ a.found) × (b.ino ≡ a.ino) × (b.slot ≡ a.slot)
    → Noted name d (i + 1) b a'
    → Noted name (s ∷ d) i a a'
Noted-skip name s d i a b a' e (f, n, k) (inl (absent, f', n', k')) =
    inl (e ∙ absent, f' ∙ f, n' ∙ n, k' ∙ k)
Noted-skip name s d i a b a' e kept (inr (f, n, (k, at, names))) =
    inr
      (f, n ∙ sym e, (suc k, omega (arith, at), record { live = names.live; named = names.named }))

Spare-skip :
    (s : Slot) (d : List Slot) (i : ℕ) (a b a' : Search)
    → b.emptyslot ≡ a.emptyslot
    → Spare d (i + 1) b a'
    → Spare (s ∷ d) i a a'
Spare-skip s d i a b a' e (inl e') = inl (e' ∙ e)
Spare-skip s d i a b a' e (inr (k, at, low, free)) =
    let next : i + 1 + k ≡ i + suc k = omega arith in
    inr (suc k, at ∙ ap some next, omega (arith, low), free)

-- The end of the loop.
ended :
    (reads : ℕ → Option Errno) (name : List ℕ) (i : ℕ) (a : Search) (found : Bool)
    → a.found ≡ found
    → Scanned reads name [] i a (a, if found then success tt else failure enoent)
ended reads name i a true e = (e, inl (lookup-nil name, refl, refl, refl), inl refl)
ended reads name i a false e = inl (refl, e, inl (lookup-nil name, refl, refl, refl), inl refl)

-- The assertion that a name is found once.
first_found :
    (found : Bool)
    → found ≡ false
    → (P : Search × Result (Unit {0}) → Type 0) → (f : Search → Run (Search × Result (Unit {0})))
    → (b : Search) → Returns P (f b)
    → Returns P ((assert (not found) >> ok b) >>= f)
first_found found e P f b h = rw e h

module _ (reads : ℕ → Option Errno) (name : List ℕ) (s : Slot) (d : List Slot) (i : ℕ)
    (a : Search) where
  -- The rest of the loop, from the locals `b`.
  onward :
      (b : Search)
      → Returns (Scanned reads name d (i + 1) b) (find_from reads name d (i + 1) b)
      → ((a' : Search) → Noted name d (i + 1) b a' → Noted name (s ∷ d) i a a')
      → ((a' : Search) → Spare d (i + 1) b a' → Spare (s ∷ d) i a a')
      → Returns (Scanned reads name (s ∷ d) i a) (find_from reads name d (i + 1) b)
  onward b rest noted spare =
      let (r, run, result) =
        Returns-inv (Scanned reads name d (i + 1) b) (find_from reads name d (i + 1) b) rest in
      rw run (Scanned-cons reads name s d i a b r noted spare result)

  -- The slot at the front has been read; the rest of the loop does what it should.
  visit_lem :
      Distinct (s ∷ d)
      → (a.found ≡ true → lookup (s ∷ d) name ≡ 0)
      → ((b : Search)
          → (b.found ≡ true → lookup d name ≡ 0)
          → Returns (Scanned reads name d (i + 1) b) (find_from reads name d (i + 1) b))
      → Returns
          (Scanned reads name (s ∷ d) i a)
          (visit name s i a >>= find_from reads name d (i + 1))
  unfolding visit
  visit_lem v once rest = elim (lookup-cons s d name) [
    | inr (miss, skip) ↦ elim (Bool-cases (s.ino == 0)) [
      | inl z ↦
          let b : Search = record a { emptyslot = some i } in
          rw z (
            onward b (rest b (λ f. sym skip ∙ once f))
              (λ a'. Noted-skip name s d i a b a' skip (refl, refl, refl))
              (λ a' e. spare_here z a' e))
      | inr z ↦
          let other : same s.name name ≡ false = sym (hits-live s name (ground arith)) ∙ miss in
          rw (z, other)
            (onward a (rest a (λ f. sym skip ∙ once f))
              (λ a'. Noted-skip name s d i a a a' skip (refl, refl, refl))
              (λ a'. Spare-skip s d i a a a' refl))
    ]
    | inl (hit, now) ↦ found_here now (hits-inv s name hit)
  ]
    where
      spare_here :
          (s.ino == 0) ≡ true
          → (a' : Search) → Spare d (i + 1) (record a { emptyslot = some i }) a'
          → Spare (s ∷ d) i a a'
      spare_here z a' (inl e) =
          let here : i ≡ i + 0 = omega arith in
          inr (0, e ∙ ap some here, omega arith, ==→eq s.ino 0 z)
      spare_here z a' (inr (k, at, low, free)) =
          let next : i + 1 + k ≡ i + suc k = omega arith in
          inr (suc k, at ∙ ap some next, omega (arith, low), free)

      noted_here :
          lookup (s ∷ d) name ≡ s.ino
          → 0 < s.ino
          → s.name ≡ name
          → lookup d name ≡ 0
          → (a' : Search)
          → Noted name d (i + 1) (record a { found = true; ino = s.ino; slot = i }) a'
          → Noted name (s ∷ d) i a a'
      noted_here now live named only a' (inl (absent, f, n, k)) =
          inr (f, n ∙ sym now, (0, omega (arith, k), record { live = live; named = named }))
      noted_here now live named only a' (inr (f, n, (k, at, names))) =
          let found = Distinct-lookup d k v.1 names.live in
          absurd (omega (arith, found, names.live, ap (lookup d) names.named, only))

      found_here :
          lookup (s ∷ d) name ≡ s.ino
          → (0 < s.ino) × (s.name ≡ name)
          → Returns
              (Scanned reads name (s ∷ d) i a)
              (visit name s i a >>= find_from reads name d (i + 1))
      found_here now (live, named) =
          let b : Search = record a { found = true; ino = s.ino; slot = i } in
          let inuse : s.ino == 0 ≡ false = ne→== s.ino 0 (λ e. omega arith) in
          let it : same s.name name ≡ true = rw named (same_self name) in
          let only : lookup d name ≡ 0 = ap (lookup d) (sym named) ∙ v.0 live in
          let first : a.found ≡ false = elim (Bool-cases a.found) [
            | inl f ↦ absurd (omega (arith, once f, now, live))
            | inr f ↦ f
          ] in
          rw (inuse, it)
            (first_found a.found first (Scanned reads name (s ∷ d) i a)
              (find_from reads name d (i + 1)) b
              (onward b (rest b (λ f. only)) (λ a' n. noted_here now live named only a' n)
                (λ a'. Spare-skip s d i a b a' refl)))

pub find_from_lem :
    (reads : ℕ → Option Errno) (name : List ℕ) (d : List Slot) (i : ℕ) (a : Search)
    → Distinct d
    → (a.found ≡ true → lookup d name ≡ 0)
    → Returns (Scanned reads name d i a) (find_from reads name d i a)
unfolding find_from
find_from_lem reads name [] i a v once = ended reads name i a a.found refl
find_from_lem reads name (s ∷ d) i a v once =
    read (reads i) refl (λ b h. find_from_lem reads name d (i + 1) b v.1 h)
  where
    read :
        (o : Option Errno)
        → reads i ≡ o
        → ((b : Search)
            → (b.found ≡ true → lookup d name ≡ 0)
            → Returns (Scanned reads name d (i + 1) b) (find_from reads name d (i + 1) b))
        → Returns (Scanned reads name (s ∷ d) i a) (elim o [
          | some e ↦ ok (a, failure e)
          | none ↦ visit name s i a >>= find_from reads name d (i + 1)
        ])
    read (some e) at rest = inr (0, ap reads (omega arith) ∙ at)
    read none at rest = visit_lem reads name s d i a v once rest
