-- ===== src/Base/Outcome.antt =====
-- How a kernel function ends: it returns, or an `assert` or `panic` stops the machine.
-- A function that returns an error code returns a `Result`.
use mathlib.Core.Path.{◌≡◌, refl}
use mathlib.Core.Bool.{Bool, true, false}

-- The codes of kern/include/kern/errno.h that the modelled functions return.
pub data Errno : Type 0 where
  einval enomem eagain enospc emfile ebadf esrch eio eexist enoent enametoolong espipe : Errno
  eisdir enotdir enotempty : Errno

pub data Result {ℓ} (A : Type ℓ) : Type ℓ where
  success : A → Result A
  failure : Errno → Result A

pub data Run {ℓ} (A : Type ℓ) : Type ℓ where
  ok : A → Run A
  panic : Run A

infixl 5 ◌>>=◌ ◌>>◌
abbrev pub ◌>>=◌ {ℓ κ} : {A : Type ℓ} {B : Type κ} → Run A → (A → Run B) → Run B
ok a >>= f = f a
panic >>= f = panic

abbrev pub ◌>>◌ {ℓ} : {B : Type ℓ} → Run (Unit {0}) → Run B → Run B
m >> k = m >>= λ _. k

abbrev pub assert : Bool → Run (Unit {0})
assert true = ok tt
assert false = panic

-- The run returns, and what it returns satisfies `P`.
abbrev pub Returns {ℓ} : {A : Type ℓ} → (A → Type 0) → Run A → Type 0
Returns P (ok a) = P a
Returns P panic = ⊥

pub Returns-inv {ℓ} :
    {A : Type ℓ} (P : A → Type 0) (r : Run A) → Returns P r → (a : A) × (r ≡ ok a) × P a
Returns-inv P (ok a) h = (a, refl, h)
Returns-inv P panic h = absurd h
