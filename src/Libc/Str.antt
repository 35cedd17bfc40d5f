-- ===== src/Libc/Str.antt =====
-- a3/src/lib/libc/strlen.c, strcpy.c and strcat.c.
use csc.Base.{
  ℕ, suc, ◌+◌, ◌≤◌, ◌≡◌, refl, sym, ap, ◌∙◌, ◌≢◌, List, [], ◌∷◌, ◌++◌, append_assoc, arith, ◌==◌,
  ne→==, if◌then◌else◌, length, take, drop, Run, ok, panic, ◌>>=◌,
}

-- The loop of `strlen`, with `ret` characters passed.
pub strlen_from : ℕ → List ℕ → Run ℕ
strlen_from ret [] = panic
strlen_from ret (c ∷ s) = let rest = strlen_from (ret + 1) s in if c == 0 then ok ret else rest

pub strlen : List ℕ → Run ℕ
unfolding strlen_from
strlen s = strlen_from 0 s

-- The buffer at `dest` after the copy. The two do not overlap.
pub strcpy : List ℕ → List ℕ → Run (List ℕ)
strcpy dest [] = panic
strcpy [] (c ∷ src) = panic
strcpy (d ∷ dest) (c ∷ src) =
    let rest : Run (List ℕ) = do dest' ← strcpy dest src; ok (c ∷ dest')
    in if c == 0 then ok (0 ∷ dest) else rest

pub strcat : List ℕ → List ℕ → Run (List ℕ)
unfolding strlen strcpy
strcat dest src = do
  offset ← strlen dest
  copied ← strcpy (drop offset dest) src
  ok (take offset dest ++ copied)

-- The characters of a C string: none is the terminator.
abbrev pub IsText : List ℕ → Type 0
IsText [] = Unit
IsText (c ∷ s) = (c ≢ 0) × IsText s

-- A text with its terminator, and what the buffer holds behind it.
abbrev pub in_buffer : List ℕ → List ℕ → List ℕ
in_buffer s rest = s ++ 0 ∷ rest

strlen_from_lem :
    (ret : ℕ) (s rest : List ℕ)
    → IsText s
    → strlen_from ret (in_buffer s rest) ≡ ok (ret + length s)
unfolding strlen_from
strlen_from_lem ret [] rest h = ap (λ (n : ℕ). ok n) (omega arith)
strlen_from_lem ret (c ∷ s) rest h =
    rw (ne→== c 0 h.0, strlen_from_lem (ret + 1) s rest h.1) (ap (λ (n : ℕ). ok n) (omega arith))

-- `strlen` returns the number of characters before the terminator.
pub strlen_lem : (s rest : List ℕ) → IsText s → strlen (in_buffer s rest) ≡ ok (length s)
unfolding strlen
strlen_lem s rest h = strlen_from_lem 0 s rest h ∙ ap (λ (n : ℕ). ok n) (omega arith)

-- `strcpy` into a buffer with room for the text and its terminator writes exactly these, and leaves
-- the bytes behind them.
pub strcpy_lem :
    (dest s rest : List ℕ)
    → IsText s
    → suc (length s) ≤ length dest
    → strcpy dest (in_buffer s rest) ≡ ok (in_buffer s (drop (suc (length s)) dest))
unfolding strcpy
strcpy_lem [] s rest h room = absurd (omega arith)
strcpy_lem (d ∷ dest) [] rest h room = refl
strcpy_lem (d ∷ dest) (c ∷ s) rest h room =
    rw (ne→== c 0 h.0, strcpy_lem dest s rest h.1 (omega arith))

-- `strcpy` into a smaller buffer writes past its end.
pub strcpy_overflow :
    (dest s rest : List ℕ)
    → IsText s
    → length dest ≤ length s
    → strcpy dest (in_buffer s rest) ≡ panic
unfolding strcpy
strcpy_overflow [] [] rest h small = refl
strcpy_overflow [] (c ∷ s) rest h small = refl
strcpy_overflow (d ∷ dest) [] rest h small = absurd (omega arith)
strcpy_overflow (d ∷ dest) (c ∷ s) rest h small =
    rw (ne→== c 0 h.0, strcpy_overflow dest s rest h.1 (omega arith))

drop_text : (s rest : List ℕ) → drop (length s) (s ++ rest) ≡ rest
drop_text [] rest = refl
drop_text (c ∷ s) rest = drop_text s rest

take_text : (s rest : List ℕ) → take (length s) (s ++ rest) ≡ s
take_text [] rest = refl
take_text (c ∷ s) rest = ap (◌∷◌ c) (take_text s rest)

-- `strcat` of two texts, into a buffer with room behind the first, leaves the text of both.
pub strcat_lem :
    (s t room rest : List ℕ)
    → IsText s
    → IsText t
    → length t ≤ length room
    → strcat (in_buffer s room) (in_buffer t rest) ≡ ok (in_buffer (s ++ t) (drop (length t) room))
unfolding strcat
strcat_lem s t room rest hs ht fits =
    rw
      (
        strlen_lem s room hs,
        drop_text s (0 ∷ room),
        take_text s (0 ∷ room),
        strcpy_lem (0 ∷ room) t rest ht (omega arith),
      )
      (ap (λ (b : List ℕ). ok b) (sym (append_assoc s t (0 ∷ drop (length t) room))))
