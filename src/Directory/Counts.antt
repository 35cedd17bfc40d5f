-- ===== src/Directory/Counts.antt =====
-- How many entries of a directory of a3/src/kern/fs/sfs/sfs_vnode.c an inode has, and writes that
-- change no entry.
use csc.Base.{
  ℕ, zero, suc, ◌+◌, ◌<◌, ◌≡◌, refl, ap, ◌∙◌, Bool, true, false, List, [], ◌∷◌, ◌==◌, eq→==, ne→==,
  arith, Bool-cases, inl, inr, get_or, length,
}
use csc.Directory.{Slot, empty, put}
use csc.Directory.Names.{hits, hits-free, lookup, Distinct}

abbrev pub one : Bool → ℕ
one true = 1
one false = 0

unfoldable pub count : ℕ → List Slot → ℕ
count i [] = 0
count i (s ∷ d) = one (s.ino == i) + count i d

pub put-count :
    (d : List Slot) (k i : ℕ) (s : Slot)
    → 0 < i
    → count i (put d k s) + one ((get_or d k empty).ino == i) ≡ count i d + one (s.ino == i)
unfolding put count
put-count [] zero i s h = rw (ne→== 0 i (λ e. omega arith)) (omega arith)
put-count [] (suc k) i s h =
    let rest = put-count [] k i s h in
    omega (arith, rest, ap one (ne→== 0 i (λ e. omega (arith, e, h))))
put-count (x ∷ d) zero i s h = omega arith
put-count (x ∷ d) (suc k) i s h = omega (arith, put-count d k i s h)

pub live-count :
    (d : List Slot) (k : ℕ) → 0 < (get_or d k empty).ino → 0 < count (get_or d k empty).ino d
unfolding count
live-count [] k h = absurd (omega (arith, h))
live-count (x ∷ d) zero h = rw (eq→== x.ino x.ino refl) (omega arith)
live-count (x ∷ d) (suc k) h = omega (arith, live-count d k h)

-- The same entries.
pub record Same (d d' : List Slot) : Type 0 where
  pub distinct : Distinct d'
  pub names : (n : List ℕ) → lookup d' n ≡ lookup d n
  pub counts : (i : ℕ) → 0 < i → count i d' ≡ count i d

pub Same-refl : (d : List Slot) → Distinct d → Same d d
Same-refl d v = record { distinct = v; names = λ n. refl; counts = λ i h. refl }

-- A write of what is there.
pub put-old : (d : List Slot) (k : ℕ) → k < length d → put d k (get_or d k empty) ≡ d
unfolding put
put-old [] k h = absurd (omega (arith, h))
put-old (x ∷ d) zero h = refl
put-old (x ∷ d) (suc k) h = ap (◌∷◌ x) (put-old d k (omega (arith, h)))

blank-lookup :
    (d : List Slot) (k : ℕ) (s : Slot) (n : List ℕ)
    → (get_or d k empty).ino ≡ 0
    → s.ino ≡ 0
    → lookup (put d k s) n ≡ lookup d n
unfolding put lookup
blank-lookup [] zero s n free free' = rw (hits-free s n free') refl
blank-lookup [] (suc k) s n free free' =
    rw (hits-free empty n refl) (blank-lookup [] k s n refl free')
blank-lookup (x ∷ d) zero s n free free' = rw (hits-free s n free', hits-free x n free) refl
blank-lookup (x ∷ d) (suc k) s n free free' = elim (Bool-cases (hits x n)) [
  | inl hit ↦ rw hit refl
  | inr miss ↦ rw miss (blank-lookup d k s n free free')
]

blank-Distinct :
    (d : List Slot) (k : ℕ) (s : Slot)
    → (get_or d k empty).ino ≡ 0
    → s.ino ≡ 0
    → Distinct d
    → Distinct (put d k s)
unfolding put lookup
blank-Distinct [] zero s free free' v = (λ p. refl, tt)
blank-Distinct [] (suc k) s free free' v =
    (λ p. absurd (omega (arith, p)), blank-Distinct [] k s refl free' tt)
blank-Distinct (x ∷ d) zero s free free' v = (λ p. absurd (omega (arith, p, free')), v.1)
blank-Distinct (x ∷ d) (suc k) s free free' v =
    (λ p. blank-lookup d k s x.name free free' ∙ v.0 p, blank-Distinct d k s free free' v.1)

-- A free slot that is written over by a free one.
pub put-blank :
    (d : List Slot) (k : ℕ) (s : Slot)
    → (get_or d k empty).ino ≡ 0
    → s.ino ≡ 0
    → Distinct d
    → Same d (put d k s)
put-blank d k s free free' v = record {
  distinct = blank-Distinct d k s free free' v;
  names = λ n. blank-lookup d k s n free free';
  counts = λ i h.
      let c = put-count d k i s h in
      let a : (get_or d k empty).ino == i ≡ false =
        ne→== (get_or d k empty).ino i (λ e. omega (arith, e, free, h)) in
      let b : s.ino == i ≡ false = ne→== s.ino i (λ e. omega (arith, e, free', h)) in
      omega (arith, c, ap one a, ap one b);
}
