-- ===== src/Array/Tests.antt =====
-- The array on small inputs.
use csc.Base.{
  ℕ, ◌≡◌, refl, true, arith, some, none, [], ◌∷◌, ◌++◌, Option, List, ok, Returns, Result,
}
use csc.Array.{
  Array, load, store, grown_max, copy_cells, array_setsize, array_preallocate, array_add,
  array_remove,
}
use csc.Array.Refine.{Represents}
use csc.Array.Change.{AddResult, array_add_lem, array_remove_lem}

-- Three elements, and room for no more.
abbrev three : Array ℕ
three = record { num = 3; max = 3; v = some (some 5 ∷ some 6 ∷ some 7 ∷ []) }

abbrev held : List (Option ℕ)
held = some 5 ∷ some 6 ∷ some 7 ∷ []

three-Represents : Represents three held
three-Represents = record {
  valid = record { fits = omega arith; size = refl };
  num = refl;
  elems = λ k lt. refl;
}

add_runs :
    array_add true three 8
    ≡ ok (
      record { num = 4; max = 8; v = some (held ++ some 8 ∷ none ∷ none ∷ none ∷ none ∷ []) },
      Result.success tt,
    )
unfolding array_add array_setsize array_preallocate grown_max copy_cells load store
add_runs = refl

array_add_lem_example : Returns (AddResult true three held 8) (array_add true three 8)
array_add_lem_example = array_add_lem true three held 8 three-Represents (omega arith)

array_remove_lem_example :
    (a' : Array ℕ) × (array_remove three 1 ≡ ok a') × Represents a' (some 5 ∷ some 7 ∷ [])
array_remove_lem_example = array_remove_lem three held 1 three-Represents (omega arith)
