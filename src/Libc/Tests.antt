-- ===== src/Libc/Tests.antt =====
-- The string functions on small inputs.
use csc.Base.{ℕ, ◌≡◌, arith, ◌∷◌, [], List, ok, ℤ, pos, refl}
use csc.Libc.Str.{in_buffer, IsText}
use csc.Libc.Compare.{strcmp, char_order, char_value, ltb_ℤ, CompareResult, IsBytes, strcmp_lem}

-- "cat", and a text with the code 233 in place of the `t`.
abbrev cat : List ℕ
cat = 99 ∷ 97 ∷ 116 ∷ []

abbrev accented : List ℕ
accented = 99 ∷ 97 ∷ 233 ∷ []

abbrev cat-IsText : IsText cat
cat-IsText = (omega arith, (omega arith, (omega arith, tt)))

abbrev accented-IsText : IsText accented
accented-IsText = (omega arith, (omega arith, (omega arith, tt)))

abbrev cat-IsBytes : IsBytes cat
cat-IsBytes = (omega arith, (omega arith, (omega arith, tt)))

abbrev accented-IsBytes : IsBytes accented
accented-IsBytes = (omega arith, (omega arith, (omega arith, tt)))

abbrev room : List ℕ
room = 7 ∷ 7 ∷ 7 ∷ 7 ∷ 7 ∷ []

-- The accented letter is negative.
strcmp_runs : strcmp (in_buffer cat room) (in_buffer accented []) ≡ ok (pos 1)
unfolding strcmp char_order char_value ltb_ℤ
strcmp_runs = refl

strcmp_lem_example :
    (r : ℤ) × (strcmp (in_buffer cat room) (in_buffer accented []) ≡ ok r)
    × CompareResult cat accented r
strcmp_lem_example =
    strcmp_lem cat accented room [] cat-IsText accented-IsText cat-IsBytes accented-IsBytes
