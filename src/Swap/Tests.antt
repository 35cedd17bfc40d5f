-- ===== src/Swap/Tests.antt =====
-- The swap file on small inputs.
use csc.Base.{ℕ, ◌≡◌, refl, true, false, arith, ok, Returns}
use csc.Swap.{Swap, swap_bootstrap, too_small, swap_alloc, alloc_times}
use csc.Swap.Pages.{IsValid, Allocated, swap_alloc_lem}
use csc.Swap.Reserve.{with_reserved, with_reserved-IsValid, AllocatedAll, alloc_times_lem}
use csc.Swap.Boot.{Booted, swap_bootstrap_lem}

not_small : too_small 16384 1000 ≡ false
unfolding too_small
not_small = refl

-- A swap file of four pages.
abbrev four : (s : Swap) × (swap_bootstrap true true true true 16384 1000 ≡ ok s) × Booted 16384 s
four = swap_bootstrap_lem 16384 1000 (omega arith) (omega arith) not_small

-- Two pages of it are reserved.
abbrev two_reserved : Swap
two_reserved = with_reserved four.0 2

two_reserved-IsValid : IsValid two_reserved
two_reserved-IsValid =
    with_reserved-IsValid four.0 2 four.2.valid (omega (arith, four.2.free, four.2.total))

swap_alloc_lem_example :
    Returns
      (λ (r : ℕ × Swap). Allocated two_reserved r.0 r.1 × IsValid r.1)
      (swap_alloc two_reserved)
swap_alloc_lem_example = swap_alloc_lem two_reserved two_reserved-IsValid (omega arith)

alloc_times_lem_example : Returns (AllocatedAll 2 two_reserved) (alloc_times 2 two_reserved)
alloc_times_lem_example = alloc_times_lem 2 two_reserved two_reserved-IsValid (omega arith)
