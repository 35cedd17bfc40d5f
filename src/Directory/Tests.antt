-- ===== src/Directory/Tests.antt =====
-- Directories on small inputs.
use csc.Base.{
  ◌>>=◌, ℕ, ◌^◌, ◌+◌, ◌<◌, ◌≡◌, refl, ◌≢◌, true, Option, none, some, List, [], ◌∷◌, ◌==◌, ne→==,
  arith, Bool-cases, inl, inr, ok, Returns, Result, success, failure, Errno, enoent, eio, set_at,
}
use csc.Directory.{
  Slot, empty, done, refused, lost, same, put, visit, find_from, free_slot, place, link_found,
  is_enoent, sfs_writedir, sfs_dir_findname, sfs_dir_link,
}
use csc.Directory.Names.{lookup, hits-free, Distinct, Distinct-lookup}
use csc.Directory.Counts.{count}
use csc.Directory.Finding.{FindResult, sfs_dir_findname_lem}
use csc.Directory.Linking.{LinkResult, sfs_dir_link_lem}
use csc.Directory.Calls.{
  Tree, vnode_decref, sfs_makeobj, CreatAnswers, RenameAnswers, sfs_link, sfs_creat, sfs_remove,
  sfs_rename,
}
use csc.Directory.Calls.Links.{IsValid}
use csc.Directory.Subdirs.{
  dot, dot_dot, MkdirAnswers, sfs_mkdir, mkdir_found, mkdir_made, enter, count_links, RmdirAnswers,
  sfs_rmdir,
}
use csc.Directory.Subdirs.Making.{MkdirResult, Unused, sfs_mkdir_lem}
use csc.Directory.Subdirs.Taking.{RmdirResult, sfs_rmdir_lem}
use csc.Directory.Calls.Entering.{EnterResult, sfs_link_lem}
use csc.Directory.Calls.Creating.{CreatResult, Fresh, sfs_creat_lem}
use csc.Directory.Calls.Removing.{RemoveResult, sfs_remove_lem}
use csc.Directory.Calls.Renaming.{RenameResult, sfs_rename_lem}

abbrev a_name : List ℕ
a_name = 97 ∷ []

abbrev b_name : List ℕ
b_name = 98 ∷ []

-- Inode 2 is called `a`, and a slot is free.
abbrev two_slots : List Slot
two_slots = record { ino = 2; name = a_name } ∷ empty ∷ []

two_slots-Distinct : Distinct two_slots
unfolding lookup
two_slots-Distinct = (λ p. rw (hits-free empty a_name refl) refl, (λ p. refl, tt))

-- A device that does not fail.
abbrev reads : ℕ → Option Errno
reads j = none

none_ne : {e : Errno} → none ≢ some e
none_ne e = absurd (ground (arith, e))

reads-fine : (j : ℕ) → reads j ≢ some enoent
reads-fine j e = none_ne e

link_runs :
    sfs_dir_link reads done b_name 3 two_slots
    ≡ ok (record { ino = 2; name = a_name } ∷ record { ino = 3; name = b_name } ∷ [], success 1)
unfolding sfs_dir_link sfs_dir_findname find_from visit link_found is_enoent place free_slot
    sfs_writedir put same
link_runs = refl

-- A write that fails late leaves an empty slot at the end.
lost_runs : sfs_dir_link reads (lost eio) a_name 3 [] ≡ ok (empty ∷ [], failure eio)
unfolding sfs_dir_link sfs_dir_findname find_from link_found is_enoent place free_slot sfs_writedir
    put
lost_runs = refl

abbrev tree : Tree
tree = record {
  slots = set_at (λ i. []) 1 two_slots;
  linkcount = set_at (λ i. 0) 2 1;
  kind = λ i. 1;
}

abbrev nowhere : ℕ → ℕ
nowhere i = 0

tree-linkcount : (i : ℕ) → tree.linkcount i < 2
tree-linkcount i = elim (Bool-cases (2 == i)) [
  | inl e ↦ rw e (omega arith)
  | inr e ↦ rw e (omega arith)
]

tree-links : (i : ℕ) → 0 < i → tree.linkcount i ≡ count i two_slots + nowhere i
unfolding count
tree-links i h =
    let free = ne→== 0 i (λ z. omega (arith, z, h)) in
    elim (Bool-cases (2 == i)) [ inl e ↦ rw (e, free) refl | inr e ↦ rw (e, free) refl ]

tree-IsValid : IsValid nowhere 1 tree
tree-IsValid = record {
  distinct = two_slots-Distinct;
  links = tree-links;
  words = λ i. omega (arith, tree-linkcount i);
}

sfs_dir_findname_lem_example :
    Returns (FindResult reads a_name two_slots) (sfs_dir_findname reads a_name two_slots)
sfs_dir_findname_lem_example = sfs_dir_findname_lem reads a_name two_slots two_slots-Distinct

sfs_dir_link_lem_example :
    Returns (LinkResult b_name 3 two_slots) (sfs_dir_link reads done b_name 3 two_slots)
sfs_dir_link_lem_example =
    sfs_dir_link_lem reads done b_name 3 two_slots two_slots-Distinct (omega arith) reads-fine

sfs_link_lem_example :
    Returns
      (λ (r : Tree × Result ℕ).
        EnterResult 1 b_name 2 tree r × IsValid nowhere 1 r.0 × (r.0.kind ≡ tree.kind))
      (sfs_link reads done 1 b_name 2 tree)
sfs_link_lem_example =
    sfs_link_lem nowhere reads done 1 b_name 2 tree tree-IsValid (omega arith) (omega arith)
      reads-fine

sfs_remove_lem_example :
    Returns
      (λ (r : Tree × Result (Unit {0})). RemoveResult 1 a_name tree r × IsValid nowhere 1 r.0)
      (sfs_remove reads none done 1 a_name tree)
sfs_remove_lem_example = sfs_remove_lem nowhere reads none done 1 a_name tree tree-IsValid

abbrev creat_answers : CreatAnswers
creat_answers = record {
  reads = reads;
  load = none;
  made = success 5;
  reads_again = reads;
  write = done;
}

success-eq : {m n : ℕ} → success m ≡ success n → m ≡ n
success-eq e = cc

fresh : Fresh nowhere 1 5 tree
unfolding count
fresh = record {
  positive = omega arith;
  elsewhere = λ z. absurd (omega (arith, z));
  unnamed = refl;
  unlinked = refl;
}

five-Fresh : (n : ℕ) → creat_answers.made ≡ success n → Fresh nowhere 1 n tree
five-Fresh n e = rw (← success-eq e) fresh

sfs_creat_lem_example :
    Returns
      (λ (r : Tree × Result ℕ).
        CreatResult creat_answers true 1 b_name tree r × IsValid nowhere 1 r.0)
      (sfs_creat creat_answers true 1 b_name tree)
sfs_creat_lem_example =
    sfs_creat_lem nowhere creat_answers true 1 b_name tree tree-IsValid five-Fresh reads-fine

abbrev rename_answers : RenameAnswers
rename_answers = record {
  reads = reads;
  load = none;
  reads_again = reads;
  link = done;
  unlink = refused eio;
  undo = done;
  refcount = 2;
}

sfs_rename_lem_example :
    Returns
      (λ (r : Tree × Result (Unit {0})).
        RenameResult 1 a_name b_name tree r × IsValid nowhere 1 r.0)
      (sfs_rename rename_answers true 1 a_name b_name tree)
sfs_rename_lem_example =
    sfs_rename_lem nowhere rename_answers 1 a_name b_name tree tree-IsValid (λ p. refl)
      (omega (arith, tree-linkcount (lookup two_slots a_name))) reads-fine refl (omega arith)

abbrev mkdir_answers : MkdirAnswers
mkdir_answers = record {
  reads = reads;
  made = success 5;
  reads_dot = reads;
  write_dot = done;
  reads_dot_dot = reads;
  write_dot_dot = done;
  reads_again = reads;
  write = done;
}

-- The same, with 1 for a directory.
abbrev home : Tree
home = record tree { kind = set_at (λ i. 1) 1 2 }

five-Unused : (n : ℕ) → mkdir_answers.made ≡ success n → Unused 1 n home
five-Unused n e = rw (← success-eq e) unused
  where
    unused : Unused 1 5 home
    unused = record {
      positive = omega arith;
      elsewhere = λ z. absurd (omega (arith, z));
      unlinked = refl;
    }

-- The new directory is made: nothing is in the way.
mkdir_runs : (sfs_mkdir mkdir_answers 1 b_name home >>= λ (t, r). ok r) ≡ ok (success 5)
unfolding sfs_mkdir mkdir_found mkdir_made enter count_links vnode_decref sfs_makeobj sfs_dir_link
    sfs_dir_findname find_from visit link_found is_enoent place free_slot sfs_writedir put same
mkdir_runs = refl

sfs_mkdir_lem_example :
    MkdirResult mkdir_answers 1 b_name home (sfs_mkdir mkdir_answers 1 b_name home)
sfs_mkdir_lem_example =
    sfs_mkdir_lem mkdir_answers 1 b_name home two_slots-Distinct (omega arith) (omega arith)
      five-Unused reads-fine reads-fine reads-fine

-- Inode 5 is a directory without entries, and called `a` in directory 1.
abbrev one_entry : List Slot
one_entry = record { ino = 5; name = a_name } ∷ []

one_entry-Distinct : Distinct one_entry
unfolding lookup
one_entry-Distinct = (λ p. refl, tt)

abbrev family : Tree
family = record {
  slots =
      set_at (set_at (λ i. []) 1 one_entry) 5
        (record { ino = 5; name = dot } ∷ record { ino = 1; name = dot_dot } ∷ []);
  linkcount = set_at (λ i. 2) 5 1;
  kind = λ i. 2;
}

-- Two links of each inode but the last are in other directories.
abbrev beyond : ℕ → ℕ
beyond = set_at (λ i. 2) 5 0

family-links : (i : ℕ) → 0 < i → family.linkcount i ≡ count i one_entry + beyond i
unfolding count
family-links i h = elim (Bool-cases (5 == i)) [ inl e ↦ rw e refl | inr e ↦ rw e refl ]

family-words : (i : ℕ) → family.linkcount i < 2 ^ 16
family-words i = elim (Bool-cases (5 == i)) [
  | inl e ↦ rw e (omega arith)
  | inr e ↦ rw e (omega arith)
]

family-IsValid : IsValid beyond 1 family
family-IsValid = record {
  distinct = one_entry-Distinct;
  links = family-links;
  words = family-words;
}

abbrev rmdir_answers : RmdirAnswers
rmdir_answers = record {
  reads = reads;
  load = none;
  reads_victim = reads;
  write_dot = done;
  write_dot_dot = done;
  write = done;
}

other_directory : lookup one_entry a_name ≢ 1
other_directory e =
    let five : lookup one_entry a_name ≡ 5 =
      Distinct-lookup one_entry 0 one_entry-Distinct (omega arith) in
    absurd (omega (arith, five, e))

sfs_rmdir_lem_example :
    Returns (RmdirResult 1 a_name family) (sfs_rmdir rmdir_answers 1 a_name family)
sfs_rmdir_lem_example =
    sfs_rmdir_lem beyond rmdir_answers 1 a_name family family-IsValid (omega arith) other_directory
