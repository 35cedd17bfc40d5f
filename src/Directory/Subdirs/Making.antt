-- ===== src/Directory/Subdirs/Making.antt =====
-- `sfs_mkdir` of a3/src/kern/fs/sfs/sfs_vnode.c.
use csc.Base.{
  panic, length, ◌≤◌, ◌⊎◌, enotdir, eexist, ℕ, suc, ◌+◌, ◌%◌, ◌^◌, ◌<◌, ◌≡◌, refl, sym, ap, ◌∙◌,
  ◌≢◌, some, List, [], ◌==◌, ==→eq, if◌then◌else◌, arith, Bool-cases, inl, inr, ok, Run, set_at,
  set_at_self, set_at_ne, Returns-inv, Result, success, failure, enoent,
}
use csc.Directory.{namelen, same, Slot, Search, sfs_dir_findname}
use csc.Directory.Names.{lookup, Distinct, renamed}
use csc.Directory.Finding.{FindResult, sfs_dir_findname_lem}
use csc.Directory.Linking.{Added}
use csc.Directory.Calls.{Tree, type_dir, set_slots, sfs_makeobj}
use csc.Directory.Failing.{Fails, IsFailing, Hindered, Names-lookup}
use csc.Directory.Calls.Alone.{last_unlocked}
use csc.Directory.Subdirs.Entries.{enter_lem}
use csc.Directory.Subdirs.{
  dot, dot_dot, enter, MkdirAnswers, count_links, mkdir_made, mkdir_found, sfs_mkdir,
}

-- A new directory with its entries for itself and its parent, and an entry in the parent.
pub record Made (dir : ℕ) (name : List ℕ) (n : ℕ) (t t' : Tree) : Type 0 where
  pub absent : lookup (t.slots dir) name ≡ 0
  pub short : length name < namelen
  pub names : (m : List ℕ) → lookup (t'.slots dir) m ≡ renamed name n (lookup (t.slots dir)) m
  pub dots :
      (m : List ℕ) → lookup (t'.slots n) m ≡ renamed dot_dot dir (renamed dot n (lookup [])) m
  pub distinct : Distinct (t'.slots dir) × Distinct (t'.slots n)
  pub directory : t'.kind n ≡ type_dir
  pub own : t'.linkcount n ≡ 1
  pub parent : t'.linkcount dir ≡ suc (t.linkcount dir)

-- The name is too long, or a read or a write fails.
abbrev pub Trouble : MkdirAnswers → List ℕ → Type 0
Trouble a name =
    (namelen ≤ length name)
    ⊎ (Fails a.reads ⊎ Fails a.reads_dot ⊎ Fails a.reads_dot_dot ⊎ Fails a.reads_again)
    ⊎ (IsFailing a.write_dot ⊎ IsFailing a.write_dot_dot ⊎ IsFailing a.write)

-- What each end of `sfs_mkdir` says.
abbrev pub MkdirResult : MkdirAnswers → ℕ → List ℕ → Tree → Run (Tree × Result ℕ) → Type 0
MkdirResult a dir name t (ok (t', success n)) = (a.made ≡ success n) × Made dir name n t t'
MkdirResult a dir name t (ok (t', failure e)) =
    (t' ≡ t)
    × ((e ≡ enotdir) × (t.kind dir ≢ type_dir)
        ⊎ (e ≡ eexist) × (0 < lookup (t.slots dir) name)
        ⊎ (a.made ≡ failure e))
MkdirResult a dir name t panic = Trouble a name

-- The number of a new inode, which counts no links.
pub record Unused (dir n : ℕ) (t : Tree) : Type 0 where
  pub positive : 0 < n
  pub elsewhere : n ≢ dir
  pub unlinked : t.linkcount n ≡ 0

module _ (a : MkdirAnswers) (dir : ℕ) (name : List ℕ) (t : Tree) (n : ℕ)
    (v : Distinct (t.slots dir)) (positive : 0 < dir) (low : t.linkcount dir + 1 < 2 ^ 16)
    (made : a.made ≡ success n) (f : Unused dir n t)
    (searched : (lookup (t.slots dir) name ≡ 0) ⊎ Fails a.reads) where
  abbrev t0 : Tree
  t0 = (sfs_makeobj (success n) type_dir t).0

  abbrev t1 : List Slot → Tree
  t1 d1 = set_slots n d1 t0

  abbrev t2 : List Slot → List Slot → Tree
  t2 d1 d2 = set_slots n d2 (t1 d1)

  counts : (i : ℕ) → t0.linkcount i ≡ t.linkcount i
  unfolding sfs_makeobj
  counts i = elim (Bool-cases (n == i)) [
    | inl e ↦ rw e (sym f.unlinked ∙ ap t.linkcount (==→eq n i e))
    | inr e ↦ rw e refl
  ]

  parent0 : t0.slots dir ≡ t.slots dir
  unfolding sfs_makeobj
  parent0 = set_at_ne t.slots n dir [] f.elsewhere

  parent1 : (d1 : List Slot) → (t1 d1).slots dir ≡ t.slots dir
  parent1 d1 = set_at_ne t0.slots n dir d1 f.elsewhere ∙ parent0

  parent2 : (d1 d2 : List Slot) → (t2 d1 d2).slots dir ≡ t.slots dir
  parent2 d1 d2 = set_at_ne (t1 d1).slots n dir d2 f.elsewhere ∙ parent1 d1

  Hindered-dot : Hindered a.reads_dot a.write_dot dot [] → Trouble a name
  unfolding lookup
  Hindered-dot (inl there) = absurd (omega (arith, there))
  Hindered-dot (inr (inl long)) = absurd (omega (arith, long))
  Hindered-dot (inr (inr (inl h))) = inr (inl (inr (inl h)))
  Hindered-dot (inr (inr (inr h))) = inr (inr (inl h))

  Hindered-dot_dot :
      (d1 : List Slot) (s1 : ℕ)
      → Added dot n [] s1 d1
      → Hindered a.reads_dot_dot a.write_dot_dot dot_dot d1
      → Trouble a name
  unfolding lookup same
  Hindered-dot_dot d1 s1 a1 (inl there) = absurd (omega (arith, there, a1.names dot_dot))
  Hindered-dot_dot d1 s1 a1 (inr (inl long)) = absurd (omega (arith, long))
  Hindered-dot_dot d1 s1 a1 (inr (inr (inl h))) = inr (inl (inr (inr (inl h))))
  Hindered-dot_dot d1 s1 a1 (inr (inr (inr h))) = inr (inr (inr (inl h)))

  Hindered-name : Hindered a.reads_again a.write name (t.slots dir) → Trouble a name
  Hindered-name (inl there) = elim searched [
    | inl absent ↦ absurd (omega (arith, there, absent))
    | inr h ↦ inr (inl (inl h))
  ]
  Hindered-name (inr (inl long)) = inl long
  Hindered-name (inr (inr (inl h))) = inr (inl (inr (inr (inr h))))
  Hindered-name (inr (inr (inr h))) = inr (inr (inr (inr h)))

  -- All three entries are made.
  finished :
      (d1 d2 d3 : List Slot) (s1 s2 s3 : ℕ)
      → Added dot n [] s1 d1
      → Added dot_dot dir d1 s2 d2
      → Added name n (t.slots dir) s3 d3
      → MkdirResult a dir name t (count_links n dir (set_slots dir d3 (t2 d1 d2)))
  unfolding count_links sfs_makeobj
  finished d1 d2 d3 s1 s2 s3 a1 a2 a3 =
      let back : dir ≢ n = λ e. f.elsewhere (sym e) in
      let t3 = set_slots dir d3 (t2 d1 d2) in
      let own_slots : t3.slots n ≡ d2 =
        set_at_ne (t2 d1 d2).slots dir n d3 back ∙ set_at_self (t1 d1).slots n d2 in
      let parent_slots : t3.slots dir ≡ d3 = set_at_self (t2 d1 d2).slots dir d3 in
      let lc0 = t0.linkcount in
      let lc1 = set_at t0.linkcount n ((t0.linkcount n + 1) % 2 ^ 16) in
      let more_n : lc1 n ≡ (t0.linkcount n + 1) % 2 ^ 16 =
        set_at_self t0.linkcount n ((t0.linkcount n + 1) % 2 ^ 16) in
      let same_dir : lc1 dir ≡ t0.linkcount dir =
        set_at_ne t0.linkcount n dir ((t0.linkcount n + 1) % 2 ^ 16) f.elsewhere in
      rw last_unlocked (
        made,
        record {
          absent = a3.absent;
          short = a3.short;
          names = λ m. ap (λ (l : List Slot). lookup l m) parent_slots ∙ a3.names m;
          dots = λ m.
              ap (λ (l : List Slot). lookup l m) own_slots
              ∙ a2.names m
              ∙ ap (λ (x : ℕ). if same dot_dot m then dir else x) (a1.names m);
          distinct = (rw parent_slots a3.distinct, rw own_slots a2.distinct);
          directory = set_at_self t.kind n type_dir;
          own =
              set_at_ne lc1 dir n ((lc1 dir + 1) % 2 ^ 16) back
              ∙ more_n
              ∙ omega (arith, counts n, f.unlinked);
          parent =
              set_at_self lc1 dir ((lc1 dir + 1) % 2 ^ 16)
              ∙ omega (arith, same_dir, counts dir, low);
        },
      )

  creation :
      ((j : ℕ) → a.reads_dot j ≢ some enoent)
      → ((j : ℕ) → a.reads_dot_dot j ≢ some enoent)
      → ((j : ℕ) → a.reads_again j ≢ some enoent)
      → MkdirResult a dir name t (mkdir_made a dir name (sfs_makeobj (success n) type_dir t))
  unfolding mkdir_made sfs_makeobj
  creation fine fine' fine'' =
      enter_lem (MkdirResult a dir name t) a.reads_dot a.write_dot n dot n t0
        (λ t1.
          enter a.reads_dot_dot a.write_dot_dot n dot_dot dir t1
            (λ t2. enter a.reads_again a.write dir name n t2 (count_links n dir)))
        [] (set_at_self t.slots n []) tt f.positive fine Hindered-dot
        (λ d1 s1 a1.
          enter_lem (MkdirResult a dir name t) a.reads_dot_dot a.write_dot_dot n dot_dot dir (t1 d1)
            (λ t2. enter a.reads_again a.write dir name n t2 (count_links n dir)) d1
            (set_at_self t0.slots n d1) a1.distinct positive fine' (Hindered-dot_dot d1 s1 a1)
            (λ d2 s2 a2.
              enter_lem (MkdirResult a dir name t) a.reads_again a.write dir name n (t2 d1 d2)
                (count_links n dir) (t.slots dir) (parent2 d1 d2) v f.positive fine'' Hindered-name
                (λ d3 s3 a3. finished d1 d2 d3 s1 s2 s3 a1 a2 a3)))

-- What `sfs_mkdir` does in a directory without duplicates. When it succeeds, the name was not there
-- and has at most 59 characters, and it is that of the new inode now: a directory in which `.` is
-- itself, `..` is its parent and no other name is there, with one link, while its parent has one link
-- more and no other name changes; no directory of the two has duplicates. When it returns an error,
-- nothing has changed, and it is ENOTDIR for what is no directory, EEXIST for a name that is there, or
-- the error of `sfs_makeobj`. It panics only if the name is longer, or a read or a write of a slot
-- fails: then the new vnode is let go under its own lock. The hypotheses are that the parent's
-- number is not 0, that a new inode is another one and counts no links, that the parent can count
-- another link, and that no read of the searches within `sfs_dir_link` fails with ENOENT.
pub sfs_mkdir_lem :
    (a : MkdirAnswers) (dir : ℕ) (name : List ℕ) (t : Tree)
    → Distinct (t.slots dir)
    → 0 < dir
    → t.linkcount dir + 1 < 2 ^ 16
    → ((n : ℕ) → a.made ≡ success n → Unused dir n t)
    → ((j : ℕ) → a.reads_dot j ≢ some enoent)
    → ((j : ℕ) → a.reads_dot_dot j ≢ some enoent)
    → ((j : ℕ) → a.reads_again j ≢ some enoent)
    → MkdirResult a dir name t (sfs_mkdir a dir name t)
unfolding sfs_mkdir mkdir_found mkdir_made sfs_makeobj
sfs_mkdir_lem a dir name t v positive low fresh fine fine' fine'' =
    elim (Bool-cases (t.kind dir == type_dir)) [
      | inr z ↦ rw z (refl, inl (refl, λ e. absurd (ground (arith, z, e))))
      | inl z ↦
          let (r, run, result) =
            Returns-inv (FindResult a.reads name (t.slots dir))
              (sfs_dir_findname a.reads name (t.slots dir))
              (sfs_dir_findname_lem a.reads name (t.slots dir) v) in
          rw (z, run) (found r result)
    ]
  where
    begun :
        (m : Result ℕ)
        → a.made ≡ m
        → (lookup (t.slots dir) name ≡ 0) ⊎ Fails a.reads
        → MkdirResult a dir name t (mkdir_made a dir name (sfs_makeobj m type_dir t))
    begun (failure e) at searched = (refl, inr (inr at))
    begun (success n) at searched =
        creation a dir name t n v positive low at (fresh n at) searched fine fine' fine''

    found :
        (r : Search × Result (Unit {0}))
        → FindResult a.reads name (t.slots dir) r
        → MkdirResult a dir name t (mkdir_found a dir name t r)
    found (f, success u) (is, names) =
        (refl, inr (inl (refl, Names-lookup (t.slots dir) f.slot name v names)))
    found (f, failure e) (inl (c, absent, spare)) = begun a.made refl (inl absent)
    found (f, failure e) (inr (j, at)) = begun a.made refl (inr (j, e, at))
