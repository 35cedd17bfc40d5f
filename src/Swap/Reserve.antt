-- ===== src/Swap/Reserve.antt =====
-- Giving pages back and reserving them in a3/src/kern/vm/swap.c.
use csc.Base.{
  ℕ, le→leb, zero, suc, ◌+◌, ◌-◌, ◌*◌, ◌/◌, ◌%◌, ◌^◌, ◌≤◌, ◌<◌, ◌≡◌, refl, sym, ap, ◌∙◌, ◌≢◌, Bool,
  true, false, not, ◌&&◌, ◌||◌, List, [], ◌∷◌, ltb, lt→ltb, ◌==◌, eq→==, ==→eq, ne→==, arith,
  Bool-cases, inl, inr, length, ok, Returns, Returns-inv, Result, success, failure, enomem,
}
use csc.Bitmap.Laws.{bit, bitmap_isset_lem, bitmap_unmark_lem}
use csc.Swap.{Swap, page_size, swap_alloc, swap_free, swap_reserve, swap_unreserve, alloc_times}
use csc.Swap.Count.{clear_count, clear_count_mark, clear_count_le}
use csc.Swap.Pages.{IsValid, Allocated, bounded, swap_alloc_lem}

-- What `swap_free` leaves: the page is free, and no other has changed.
pub record Freed (s : Swap) (index : ℕ) (s' : Swap) : Type 0 where
  pub cleared : (i : ℕ) → bit s'.map i ≡ (not (index == i) && bit s.map i)
  pub more : s'.free_pages ≡ suc s.free_pages
  pub reserve : s'.reserved_pages ≡ s.reserved_pages

add_back : (k i : ℕ) (b : Bool) → (k ≡ i → b ≡ true) → b ≡ (k == i || (not (k == i) && b))
add_back k i b h = elim (Bool-cases (k == i)) [ inl e ↦ rw e (h (==→eq k i e)) | inr e ↦ rw e refl ]

-- `swap_free` of the address of a taken page that is not the first returns, and the counters agree
-- again.
pub swap_free_lem :
    (s : Swap) (index : ℕ)
    → IsValid s
    → 0 < index
    → index < s.total_pages
    → bit s.map index ≡ true
    → (s' : Swap) × (swap_free (index * page_size) s ≡ ok s') × Freed s index s' × IsValid s'
unfolding swap_free
swap_free_lem s index v positive inside taken =
    let lt : index < s.map.nbits = omega (arith, v.covered) in
    let (b, run, valid, size, cleared) = bitmap_unmark_lem s.map index v.map lt taken in
    let gone : bit b index ≡ false = cleared index ∙ rw (eq→== index index refl) refl in
    let count : clear_count (bit b) s.total_pages ≡ suc (clear_count (bit s.map) s.total_pages) =
      clear_count_mark (bit b) (bit s.map) index s.total_pages inside gone
        (λ i. add_back index i (bit s.map i) (λ e. rw (← e) taken) ∙ rw (← cleared i) refl) in
    let fewer : s.free_pages < s.total_pages =
      omega (arith, v.counted, count, clear_count_le (bit b) s.total_pages) in
    let whole : index * page_size % page_size ≡ 0 = omega arith in
    let at : index * page_size / page_size ≡ index = omega arith in
    let same : (s.free_pages + 1) % 2 ^ 32 ≡ suc s.free_pages = omega (arith, v.fits) in
    let other : 0 ≢ index = λ z. omega arith in
    (
      record s { map = b; free_pages = suc s.free_pages },
      rw (
        ne→== (index * page_size) 0 (λ z. omega arith),
        whole,
        lt→ltb s.free_pages s.total_pages fewer,
        le→leb s.reserved_pages s.free_pages v.spoken,
        at,
        bitmap_isset_lem s.map index v.map lt,
        taken,
        run,
        same,
      ),
      record { cleared = cleared; more = refl; reserve = refl },
      record {
        map = valid;
        covered = size ∙ v.covered;
        fits = v.fits;
        nonempty = v.nonempty;
        first = cleared 0 ∙ rw (ne→== index 0 (λ z. omega arith), v.first);
        counted = omega (arith, count, v.counted);
        spoken = omega (arith, v.spoken);
      },
    )

abbrev pub with_reserved : Swap → ℕ → Swap
with_reserved s n = record s { reserved_pages = n }

pub with_reserved-IsValid :
    (s : Swap) (n : ℕ) → IsValid s → n ≤ s.free_pages → IsValid (with_reserved s n)
with_reserved-IsValid s n v h = record {
  map = v.map;
  covered = v.covered;
  fits = v.fits;
  nonempty = v.nonempty;
  first = v.first;
  counted = v.counted;
  spoken = h;
}

-- What `swap_reserve` leaves: so many more pages reserved, which are free besides those reserved
-- before; or ENOMEM, only if there are not so many, and nothing changed.
abbrev pub ReserveResult : ℕ → Swap → Swap × Result (Unit {0}) → Type 0
ReserveResult n s (s', success _) =
    (s.reserved_pages + n ≤ s.free_pages) × (s' ≡ with_reserved s (s.reserved_pages + n))
ReserveResult n s (s', failure e) = (e ≡ enomem) × (s.free_pages < s.reserved_pages + n) × (s' ≡ s)

-- On a valid state `swap_reserve` returns, leaves what `ReserveResult` says, and a valid state.
pub swap_reserve_lem :
    (n : ℕ) (s : Swap)
    → IsValid s
    → Returns
        (λ (r : Swap × Result (Unit {0})). ReserveResult n s r × IsValid r.0)
        (swap_reserve n s)
unfolding swap_reserve
swap_reserve_lem n s v =
    rw
      (
        le→leb s.free_pages s.total_pages (bounded s v),
        le→leb s.reserved_pages s.free_pages v.spoken,
      )
      (elim (Bool-cases (ltb (s.free_pages - s.reserved_pages) n)) [
        | inl e ↦ rw e ((refl, ground (arith, v.spoken), refl), v)
        | inr e ↦
            let fits : s.reserved_pages + n ≤ s.free_pages = ground (arith, v.spoken) in
            let same : (s.reserved_pages + n) % 2 ^ 32 ≡ s.reserved_pages + n =
              omega (arith, v.fits, bounded s v) in
            rw (e, same, le→leb (s.reserved_pages + n) s.free_pages fits)
              ((fits, refl), with_reserved-IsValid s (s.reserved_pages + n) v fits)
      ])

-- Of pages that are reserved `swap_unreserve` releases so many, and changes nothing else.
pub swap_unreserve_lem :
    (n : ℕ) (s : Swap)
    → IsValid s
    → n ≤ s.reserved_pages
    → (swap_unreserve n s ≡ ok (with_reserved s (s.reserved_pages - n)))
      × IsValid (with_reserved s (s.reserved_pages - n))
unfolding swap_unreserve
swap_unreserve_lem n s v h = (
  rw (
    le→leb s.free_pages s.total_pages (bounded s v),
    le→leb s.reserved_pages s.free_pages v.spoken,
    le→leb n s.reserved_pages h,
  ),
  with_reserved-IsValid s (s.reserved_pages - n) v (omega (arith, v.spoken)),
)

-- The pages are all different, none is taken by `f`, and none is the first.
abbrev pub AllFresh : (ℕ → Bool) → List ℕ → Type 0
AllFresh f [] = Unit
AllFresh f (page ∷ pages) =
    (index : ℕ) × (page ≡ index * page_size)
    × (0 < index)
    × (f index ≡ false)
    × AllFresh (λ i. index == i || f i) pages

AllFresh-same : (f g : ℕ → Bool) (l : List ℕ) → ((i : ℕ) → f i ≡ g i) → AllFresh f l → AllFresh g l
AllFresh-same f g [] h a = tt
AllFresh-same f g (page ∷ pages) h (index, address, positive, clear, rest) = (
  index,
  address,
  positive,
  sym (h index) ∙ clear,
  AllFresh-same (λ i. index == i || f i) (λ i. index == i || g i) pages (λ i. rw (h i)) rest,
)

-- What so many calls of `swap_alloc` leave.
abbrev pub AllocatedAll : ℕ → Swap → List ℕ × Swap → Type 0
AllocatedAll n s (pages, s') =
    (length pages ≡ n)
    × AllFresh (bit s.map) pages
    × (s'.reserved_pages + n ≡ s.reserved_pages)
    × IsValid s'

-- A reservation is a promise: with `n` pages reserved, `n` calls of `swap_alloc` return, no
-- assertion fails, and the pages that they return are all different, none was taken before, and
-- none is at the invalid address. The counters agree in the end, and `n` fewer pages are reserved.
pub alloc_times_lem :
    (n : ℕ) (s : Swap)
    → IsValid s
    → n ≤ s.reserved_pages
    → Returns (AllocatedAll n s) (alloc_times n s)
unfolding alloc_times
alloc_times_lem zero s v h = (refl, tt, omega arith, v)
alloc_times_lem (suc n) s v h =
    let one =
      Returns-inv (λ (r : ℕ × Swap). Allocated s r.0 r.1 × IsValid r.1) (swap_alloc s)
        (swap_alloc_lem s v (omega arith)) in
    let got = one.2.0 in
    let all =
      Returns-inv (AllocatedAll n one.0.1) (alloc_times n one.0.1)
        (alloc_times_lem n one.0.1 one.2.1 (omega (arith, got.used))) in
    rw (one.1, all.1)
      (
        ap suc all.2.0,
        (
          got.index,
          got.address,
          got.positive,
          got.was_free,
          AllFresh-same (bit one.0.1.map) (λ i. got.index == i || bit s.map i) all.0.0 got.taken
              all.2.1,
        ),
        omega (arith, got.used, all.2.2),
        all.2.3,
      )
