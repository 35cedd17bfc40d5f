-- ===== src/Directory/Subdirs/Long.antt =====
-- `sfs_mkdir` of a3/src/kern/fs/sfs/sfs_vnode.c with a name that is too long.
use csc.Base.{
  ℕ, ◌≤◌, ◌<◌, ◌+◌, ◌^◌, ◌≡◌, ◌≢◌, refl, some, List, length, arith, inl, inr, Run, ok, panic,
  Result, success, failure, enoent,
}
use csc.Directory.{namelen}
use csc.Directory.Names.{lookup, Distinct}
use csc.Directory.Calls.{Tree, type_dir}
use csc.Directory.Subdirs.{MkdirAnswers, sfs_mkdir}
use csc.Directory.Subdirs.Making.{MkdirResult, Unused, sfs_mkdir_lem}

-- A new name of 60 characters or more makes `sfs_mkdir` panic once the inode is made.
pub sfs_mkdir_long :
    (a : MkdirAnswers) (dir : ℕ) (name : List ℕ) (t : Tree) (n : ℕ)
    → Distinct (t.slots dir)
    → 0 < dir
    → t.linkcount dir + 1 < 2 ^ 16
    → ((n : ℕ) → a.made ≡ success n → Unused dir n t)
    → ((j : ℕ) → a.reads_dot j ≢ some enoent)
    → ((j : ℕ) → a.reads_dot_dot j ≢ some enoent)
    → ((j : ℕ) → a.reads_again j ≢ some enoent)
    → t.kind dir ≡ type_dir
    → lookup (t.slots dir) name ≡ 0
    → a.made ≡ success n
    → namelen ≤ length name
    → sfs_mkdir a dir name t ≡ panic
sfs_mkdir_long a dir name t n v positive low fresh fine fine' fine'' is absent at long =
    ends (sfs_mkdir a dir name t)
      (sfs_mkdir_lem a dir name t v positive low fresh fine fine' fine'')
  where
    ends : (r : Run (Tree × Result ℕ)) → MkdirResult a dir name t r → r ≡ panic
    ends panic h = refl
    ends (ok (t', success m)) (made, h) = absurd (omega (arith, h.short, long))
    ends (ok (t', failure e)) (same, inl (code, kind)) = absurd (kind is)
    ends (ok (t', failure e)) (same, inr (inl (code, there))) =
        absurd (omega (arith, there, absent))
    ends (ok (t', failure e)) (same, inr (inr failed)) = absurd (cc)
