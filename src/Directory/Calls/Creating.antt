-- ===== src/Directory/Calls/Creating.antt =====
-- `sfs_creat` of a3/src/kern/fs/sfs/sfs_vnode.c.
use csc.Base.{
  ℕ, suc, ◌+◌, ◌^◌, ◌<◌, ◌≡◌, refl, sym, ap, ◌∙◌, ◌≢◌, Bool, true, false, Option, none, some, List,
  [], ◌==◌, ==→eq, if◌then◌else◌, arith, Bool-cases, inl, inr, ◌⊎◌, ok, set_at, set_at_self,
  set_at_ne, Returns, Returns-inv, Result, success, failure, Errno, enoent, eexist,
}
use csc.Directory.{Slot, Search, sfs_dir_findname, is_enoent}
use csc.Directory.Names.{lookup, Distinct-lookup, renamed}
use csc.Directory.Counts.{count}
use csc.Directory.Finding.{FindResult, sfs_dir_findname_lem}
use csc.Directory.Calls.{
  Tree, type_file, sfs_makeobj, sfs_link, CreatAnswers, creat_made, creat_found, sfs_creat,
}
use csc.Directory.Calls.Links.{IsValid, IsValid-of, Kept}
use csc.Directory.Calls.Entering.{Entered, EnterResult, sfs_link_lem}

-- An inode that nothing refers to.
pub record Fresh (outside : ℕ → ℕ) (dir n : ℕ) (t : Tree) : Type 0 where
  pub positive : 0 < n
  pub elsewhere : n ≢ dir
  pub unnamed : count n (t.slots dir) ≡ 0
  pub unlinked : outside n ≡ 0

-- What `sfs_creat` promises.
abbrev pub CreatResult : CreatAnswers → Bool → ℕ → List ℕ → Tree → Tree × Result ℕ → Type 0
CreatResult a excl dir name t (t', success ino) =
    ((excl ≡ false) × (0 < ino) × (ino ≡ lookup (t.slots dir) name) × (t' ≡ t))
    ⊎ ((a.made ≡ success ino) × Entered dir name ino t t' × (t'.kind ino ≡ type_file))
CreatResult a excl dir name t (t', failure e) = Kept dir t t'

made_lem :
    (outside : ℕ → ℕ) (dir n : ℕ) (t : Tree)
    → IsValid outside dir t
    → Fresh outside dir n t
    → let t' = (sfs_makeobj (success n) type_file t).0 in
      (t'.slots dir ≡ t.slots dir)
      × ((i : ℕ) → t'.linkcount i ≡ t.linkcount i)
      × IsValid outside dir t'
unfolding sfs_makeobj
made_lem outside dir n t v f =
    let other : set_at t.slots n [] dir ≡ t.slots dir = set_at_ne t.slots n dir [] f.elsewhere in
    (
      other,
      counts,
      IsValid-of outside dir (sfs_makeobj (success n) type_file t).0 (t.slots dir) other v.distinct
          (λ i h. counts i ∙ v.links i h) (λ i. rw (counts i) (v.words i)),
    )
  where
    counts : (i : ℕ) → set_at t.linkcount n 0 i ≡ t.linkcount i
    counts i = elim (Bool-cases (n == i)) [
      | inl e ↦
          let same_i = ap t.linkcount (==→eq n i e) in
          rw e (omega (arith, same_i, v.links n f.positive, f.unnamed, f.unlinked))
      | inr e ↦ rw e refl
    ]

-- A state with the same names and link counts, in what is said of a link.
EnterResult-from :
    (dir : ℕ) (name : List ℕ) (ino : ℕ) (t t1 : Tree) (r : Tree × Result ℕ)
    → t1.slots dir ≡ t.slots dir
    → ((i : ℕ) → t1.linkcount i ≡ t.linkcount i)
    → EnterResult dir name ino t1 r
    → EnterResult dir name ino t r
EnterResult-from dir name ino t t1 (t', success n) slots counts (same_n, e) = (
  same_n,
  record {
    absent = ap (λ (l : List Slot). lookup l name) (sym slots) ∙ e.absent;
    names = λ n. e.names n ∙ ap (λ (l : List Slot). renamed name ino (lookup l) n) slots;
    one_more = e.one_more ∙ ap suc (counts ino);
    others = λ i ne. e.others i ne ∙ counts i;
  },
)
EnterResult-from dir name ino t t1 (t', failure e) slots counts k = record {
  names = λ n. k.names n ∙ ap (λ (l : List Slot). lookup l n) slots;
  counts = λ i. k.counts i ∙ counts i;
}

creat_made_lem :
    (outside : ℕ → ℕ) (a : CreatAnswers) (excl : Bool) (dir : ℕ) (name : List ℕ) (t : Tree) (n : ℕ)
    → IsValid outside dir t
    → a.made ≡ success n
    → Fresh outside dir n t
    → ((j : ℕ) → a.reads_again j ≢ some enoent)
    → Returns
        (λ (r : Tree × Result ℕ). CreatResult a excl dir name t r × IsValid outside dir r.0)
        (creat_made a.reads_again a.write dir name (sfs_makeobj (success n) type_file t))
unfolding creat_made sfs_makeobj sfs_link
creat_made_lem outside a excl dir name t n v made f device =
    let (slots, counts, v1) = made_lem outside dir n t v f in
    let t1 = (sfs_makeobj (success n) type_file t).0 in
    let low : t1.linkcount n + 1 < 2 ^ 16 =
      omega (arith, counts n, v.links n f.positive, f.unnamed, f.unlinked) in
    let (r, run, (entered, valid, kinds)) =
      Returns-inv
        (λ (r : Tree × Result ℕ).
          EnterResult dir name n (sfs_makeobj (success n) type_file t).0 r
          × IsValid outside dir r.0
          × (r.0.kind ≡ (sfs_makeobj (success n) type_file t).0.kind))
        (sfs_link a.reads_again a.write dir name n (sfs_makeobj (success n) type_file t).0)
        (sfs_link_lem outside a.reads_again a.write dir name n t1 v1 f.positive low device) in
    rw run (created r (EnterResult-from dir name n t t1 r slots counts entered) kinds, valid)
  where
    created :
        (r : Tree × Result ℕ)
        → EnterResult dir name n t r
        → r.0.kind ≡ set_at t.kind n type_file
        → CreatResult a excl dir name t r
    created (t', success m) (same_n, e) kinds =
        let file : t'.kind n ≡ type_file =
          ap (λ (k : ℕ → ℕ). k n) kinds ∙ set_at_self t.kind n type_file in
        rw same_n (inr (made, e, file))
    created (t', failure e) k kinds = k

-- In a valid directory `sfs_creat` returns, and leaves it valid. Either the name was there and may be:
-- nothing changes, and the result is its inode. Or the name was not there: it is that of the new
-- inode, a file that counts one link more than before, and no other name changes. Or there is an
-- error, and the names and the link counts are as before. The hypotheses are that a new inode is one
-- that nothing refers to, and that no read fails with ENOENT.
pub sfs_creat_lem :
    (outside : ℕ → ℕ) (a : CreatAnswers) (excl : Bool) (dir : ℕ) (name : List ℕ) (t : Tree)
    → IsValid outside dir t
    → ((n : ℕ) → a.made ≡ success n → Fresh outside dir n t)
    → ((j : ℕ) → a.reads_again j ≢ some enoent)
    → Returns
        (λ (r : Tree × Result ℕ). CreatResult a excl dir name t r × IsValid outside dir r.0)
        (sfs_creat a excl dir name t)
unfolding sfs_creat creat_found creat_made sfs_makeobj
sfs_creat_lem outside a excl dir name t v fresh device =
    let (r, run, result) =
      Returns-inv (FindResult a.reads name (t.slots dir))
        (sfs_dir_findname a.reads name (t.slots dir))
        (sfs_dir_findname_lem a.reads name (t.slots dir) v.distinct) in
    rw run (found r result)
  where
    kept : Kept dir t t
    kept = record { names = λ n. refl; counts = λ i. refl }

    opened :
        (f : Search) (x : Bool) (l : Option Errno)
        → excl ≡ x
        → f.ino ≡ lookup (t.slots dir) name
        → 0 < f.ino
        → Returns
            (λ (r : Tree × Result ℕ). CreatResult a excl dir name t r × IsValid outside dir r.0)
            (if x
              then ok (t, failure eexist)
              else ok (t, elim l [ some e ↦ failure e | none ↦ success f.ino ]))
    opened f true l e at positive = (kept, v)
    opened f false (some e') e at positive = (kept, v)
    opened f false none e at positive = (inl (e, positive, at, refl), v)

    made :
        (m : Result ℕ)
        → a.made ≡ m
        → Returns
            (λ (r : Tree × Result ℕ). CreatResult a excl dir name t r × IsValid outside dir r.0)
            (creat_made a.reads_again a.write dir name (sfs_makeobj m type_file t))
    made (failure e) at = (kept, v)
    made (success n) at = creat_made_lem outside a excl dir name t n v at (fresh n at) device

    found :
        (r : Search × Result (Unit {0}))
        → FindResult a.reads name (t.slots dir) r
        → Returns
            (λ (r : Tree × Result ℕ). CreatResult a excl dir name t r × IsValid outside dir r.0)
            (creat_found a excl dir name t r)
    found (f, success u) (e, names) = opened f excl a.load refl e (
        omega (
          arith,
          e,
          names.live,
          Distinct-lookup (t.slots dir) f.slot v.distinct names.live,
          ap (lookup (t.slots dir)) names.named,
        ))
    found (f, failure e) h = elim (Bool-cases (is_enoent e)) [
      | inl z ↦ rw z (made a.made refl)
      | inr z ↦ rw z (kept, v)
    ]
