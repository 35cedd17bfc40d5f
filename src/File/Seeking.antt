-- ===== src/File/Seeking.antt =====
-- `sys_lseek` of a3/src/kern/userprog/file_syscalls.c, whose offset is a signed number of 32 bits.
use csc.Base.{
  ℕ, suc, ◌+◌, ◌-◌, ◌^◌, ◌≤◌, ◌<◌, ◌≡◌, refl, Option, none, some, ltb, ltb→lt, arith, Bool-cases,
  inl, inr, ◌⊎◌, ℤ, pos, negsuc, Result, success, failure, Errno, einval, Returns,
}
use csc.File.{
  Openfile, Files, Whence, seek_set, seek_cur, seek_end, other, seek_target, seek_to, seek_found,
  sys_lseek,
}
use csc.File.Exclusive.{IsExclusive, load-ok, find_open}
use csc.File.Moving.{moved_to, IsOpen, moved_to-IsExclusive}

-- The word of a signed number of 32 bits.
abbrev pub word : ℤ → ℕ
word (pos n) = n
word (negsuc n) = 2 ^ 32 - 1 - n

abbrev pub IsSmall : ℤ → Type 0
IsSmall (pos n) = n < 2 ^ 31
IsSmall (negsuc n) = n < 2 ^ 31

-- The sum of a number and an offset is `t`, which is not negative.
abbrev pub Sum : ℤ → ℕ → ℕ → Type 0
Sum (pos n) from t = t ≡ from + n
Sum (negsuc n) from t = t + suc n ≡ from

-- `whence` and an offset ask for the place `t`. The end of a file is taken to be one byte before it.
abbrev pub Lands : Whence → ℤ → ℕ → ℕ → ℕ → Type 0
Lands seek_set d current size t = Sum d 0 t
Lands seek_cur d current size t = Sum d current t
Lands seek_end d current size t = Sum d size (suc t)
Lands other d current size t = ⊥

-- What `sys_lseek` promises of an offset, at an open file and its size.
abbrev pub SeekOutcome :
    Whence → ℤ → ℕ → ℕ → Openfile → Option Errno → Files → Files × Result ℕ → Type 0
SeekOutcome whence d size p of tryseek f (f', success at) =
    Lands whence d of.offset size at × (at < 2 ^ 31) × (tryseek ≡ none) × (f' ≡ moved_to p of at f)
SeekOutcome whence d size p of tryseek f (f', failure e) =
    (f' ≡ f)
    × (((e ≡ einval) × ((t : ℕ) → Lands whence d of.offset size t → 2 ^ 31 ≤ t))
        ⊎ ((tryseek ≡ some e) × ((t : ℕ) × Lands whence d of.offset size t × (t < 2 ^ 31))))

-- The word that is computed is the place that is asked for, or there is no such place below 2 ^ 31.
abbrev Aims : Whence → ℤ → ℕ → ℕ → Option ℕ → Type 0
Aims whence d current size none = (t : ℕ) → Lands whence d current size t → 2 ^ 31 ≤ t
Aims whence d current size (some w) =
    (w < 2 ^ 31 → Lands whence d current size w)
    × (2 ^ 31 ≤ w → (t : ℕ) → Lands whence d current size t → 2 ^ 31 ≤ t)

seek_target-Aims :
    (whence : Whence) (d : ℤ) (current size : ℕ)
    → IsSmall d
    → current < 2 ^ 31
    → size < 2 ^ 31
    → (0 < size) ⊎ (word d < 2 ^ 31) ⊎ (2 ^ 31 < word d)
    → Aims whence d current size (seek_target whence (word d) current size)
unfolding seek_target
seek_target-Aims seek_set (pos n) current size h c s z =
    (λ l. omega arith, λ g t e. omega (arith, g, e))
seek_target-Aims seek_set (negsuc n) current size h c s z =
    (λ l. absurd (omega (arith, l, h)), λ g t e. absurd (omega (arith, e)))
seek_target-Aims seek_cur (pos n) current size h c s z =
    (λ l. omega (arith, l, h, c), λ g t e. omega (arith, g, e, h, c))
seek_target-Aims seek_cur (negsuc n) current size h c s z =
    (λ l. omega (arith, l, h, c), λ g t e. omega (arith, g, e, h, c))
seek_target-Aims seek_end (pos n) current size h c s z =
    (λ l. omega (arith, l, h, s, z), λ g t e. omega (arith, g, e, h, s, z))
seek_target-Aims seek_end (negsuc n) current size h c s z =
    (λ l. omega (arith, l, h, s, z), λ g t e. omega (arith, g, e, h, s, z))
seek_target-Aims other d current size h c s z = λ t e. absurd e

-- Where no two descriptors share a file, so that each open file has one reference, `sys_lseek` on an
-- open descriptor returns, for a file below 2 ^ 31 bytes and any signed offset of 32 bits, except
-- for -2 ^ 31 on an empty file. Either its result is the place that `whence` and the offset ask for, not negative and below 2 ^ 31, where
-- `VOP_TRYSEEK` says nothing against it, and the open file is moved there and nothing else has changed;
-- or nothing has changed, and it is EINVAL, when there is no such place, or the error of `VOP_TRYSEEK`,
-- when there is one. No two descriptors share a file afterwards. For SEEK_END the place is counted
-- from one byte before the end of the file.
pub sys_lseek_lem :
    (fd p size : ℕ) (d : ℤ) (of : Openfile) (whence : Whence) (tryseek : Option Errno) (f : Files)
    → IsExclusive f
    → IsOpen f fd p of
    → size < 2 ^ 31
    → IsSmall d
    → (0 < size) ⊎ (word d < 2 ^ 31) ⊎ (2 ^ 31 < word d)
    → Returns
        (λ (r : Files × Result ℕ). SeekOutcome whence d size p of tryseek f r × IsExclusive r.0)
        (sys_lseek (pos fd) (word d) whence size tryseek f)
unfolding sys_lseek seek_found seek_to
sys_lseek_lem fd p size d of whence tryseek f v o low small room =
    rw (find_open fd p f o.low o.entry, load-ok p f o.live)
      (goes (seek_target whence (word d) of.offset size) tryseek
        (seek_target-Aims whence d of.offset size small o.own.seekable low room))
  where
    goes :
        (t : Option ℕ) (e : Option Errno)
        → Aims whence d of.offset size t
        → SeekOutcome whence d size p of e f (seek_to p of t e f)
          × IsExclusive (seek_to p of t e f).0
    goes none e nowhere = ((refl, inl (refl, nowhere)), v)
    goes (some w) e (aimed, away) = elim (Bool-cases (ltb w (2 ^ 31))) [
      | inr high ↦ rw high ((refl, inl (refl, away (ground arith))), v)
      | inl below ↦ let here = ltb→lt w (2 ^ 31) below in rw below (fits w here (aimed here) e)
    ]
      where
        fits :
            (w : ℕ)
            → w < 2 ^ 31
            → Lands whence d of.offset size w
            → (e : Option Errno)
            → let r : Files × Result ℕ = elim e [
              | some x ↦ (f, failure x)
              | none ↦ (moved_to p of w f, success w)
            ] in
              SeekOutcome whence d size p of e f r × IsExclusive r.0
        fits w h l none = ((l, h, refl, refl), moved_to-IsExclusive f fd p w of v o h)
        fits w h l (some x) = ((refl, inr (refl, (w, l, h))), v)
