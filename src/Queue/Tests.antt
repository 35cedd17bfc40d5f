-- ===== src/Queue/Tests.antt =====
-- The queue on small inputs.
use csc.Base.{
  ℕ, ◌+◌, ◌<◌, ◌≡◌, refl, true, none, some, [], ◌∷◌, arith, ok, ◌>>=◌, Result, zero, suc, get_elem?,
  ◌%◌,
}
use csc.Queue.{Queue, copy_items, grown_size, q_addtail, q_grow, q_remhead}
use csc.Queue.Window.{Represents}
use csc.Queue.Refine.{AddResult, q_addtail_lem, q_remhead_lem}

-- Two elements in an array of three cells, round its end: the next one makes it grow.
abbrev wrapped : Queue ℕ
wrapped = record { size = 3; nextwrite = 1; nextread = 2; items = some 8 ∷ none ∷ some 7 ∷ [] }

wrapped-Represents : Represents wrapped (7 ∷ 8 ∷ [])
wrapped-Represents = record {
  stored = refl;
  read_in = omega arith;
  room = omega arith;
  write_at = refl;
  cells = wrapped_cells;
}
  where
    wrapped_cells :
        (k : ℕ) → k < 2 → get_elem? wrapped.items ((2 + k) % 3) ≡ some (get_elem? (7 ∷ 8 ∷ []) k)
    wrapped_cells zero h = refl
    wrapped_cells (suc zero) h = refl
    wrapped_cells (suc (suc k)) h = absurd (omega arith)

grow_runs :
    (q_addtail true wrapped 9 >>= λ (q, r). ok q.items)
    ≡ ok (some 7 ∷ some 8 ∷ some 9 ∷ none ∷ none ∷ none ∷ [])
unfolding q_addtail q_grow copy_items grown_size
grow_runs = refl

q_addtail_lem_example :
    (r : Queue ℕ × Result (Unit {0})) × (q_addtail true wrapped 9 ≡ ok r)
    × AddResult true wrapped (7 ∷ 8 ∷ []) 9 r
q_addtail_lem_example = q_addtail_lem true wrapped (7 ∷ 8 ∷ []) 9 wrapped-Represents (omega arith)

q_remhead_lem_example :
    (q' : Queue ℕ) × (q_remhead wrapped ≡ ok (7, q')) × Represents q' (8 ∷ []) × (q'.size ≡ 3)
q_remhead_lem_example = q_remhead_lem wrapped 7 (8 ∷ []) wrapped-Represents
