-- ===== src/Directory/Subdirs/Taking.antt =====
-- `sfs_rmdir` of a3/src/kern/fs/sfs/sfs_vnode.c.
use csc.Base.{
  ℕ, zero, suc, ◌+◌, ◌-◌, ◌%◌, ◌^◌, ◌<◌, ◌≡◌, refl, sym, ap, ◌∙◌, ◌≢◌, Bool, true, false, Option,
  none, some, List, [], ◌∷◌, ◌==◌, ==→eq, ltb, ◌||◌, if◌then◌else◌, arith, Bool-cases, inl, inr,
  ◌⊎◌, Run, set_at_self, set_at_ne, Returns, Returns-inv, Result, success, failure, Errno, get_or,
  drop, length,
}
use csc.Directory.{Slot, empty, put, same, Write, done, refused, lost, sfs_writedir, sfs_dir_unlink}
use csc.Directory.Names.{lookup, hits-free, Distinct, renamed, drop-lookup, drop-Distinct}
use csc.Directory.Counts.{put-old}
use csc.Directory.Scan.{Names}
use csc.Directory.Calls.{Tree, type_dir, set_slots, fewer_links, sfs_lookonce}
use csc.Directory.Calls.Links.{IsValid, LookResult, sfs_lookonce_lem}
use csc.Directory.Subdirs.{
  dot, dot_dot, RmdirAnswers, entries_from, free_entry, removed, rmdir_counted, rmdir_found,
  sfs_rmdir,
}

-- A slot is freed, or not; then `next` follows.
free_lem :
    (P : Tree × Result (Unit {0}) → Type 0) (w : Write) (dir slot : ℕ) (t : Tree)
    (next : Tree → Run (Tree × Result (Unit {0}))) (d : List Slot)
    → t.slots dir ≡ d
    → ((d' : List Slot) (e : Errno)
        → (d' ≡ d) ⊎ (d' ≡ put d slot (get_or d slot empty))
        → P (set_slots dir d' t, failure e))
    → Returns P (next (set_slots dir (put d slot empty) t))
    → Returns P (free_entry w dir slot t next)
unfolding free_entry sfs_dir_unlink sfs_writedir
free_lem P done dir slot t next d at fails goes = rw at goes
free_lem P (refused e) dir slot t next d at fails goes = rw at (fails d e (inl refl))
free_lem P (lost e) dir slot t next d at fails goes =
    rw at (fails (put d slot (get_or d slot empty)) e (inr refl))

success-eq : {m n : ℕ} → success m ≡ success n → m ≡ n
success-eq e = cc

failure-ne : (e : Errno) (n : ℕ) (r : Result ℕ) → r ≡ failure e → r ≢ success n
failure-ne e n r is is' = absurd (ground (arith, is, is'))

-- What is counted is an entry.
none_counted : (free : Bool) (n : ℕ) → (if free then n else n + 1) ≡ 0 → (free ≡ true) × (n ≡ 0)
none_counted true n e = (refl, e)
none_counted false n e = absurd (omega (arith, e))

-- The loop of `sfs_rmdir` counts no entry only if there is none.
entries_from-none :
    (reads : ℕ → Option Errno) (d : List Slot) (i size : ℕ)
    → entries_from reads d i size ≡ success 0
    → (size ≡ 0) × ((k : ℕ) → (get_or d k empty).ino ≡ 0)
unfolding entries_from
entries_from-none reads [] i size e = (success-eq e, λ k. refl)
entries_from-none reads (s ∷ d) i size e =
    counted (reads i) e
      (λ e'. entries_from-none reads d (i + 1) (if s.ino == 0 then size else size + 1) e')
  where
    free :
        (k : ℕ)
        → s.ino ≡ 0
        → ((j : ℕ) → (get_or d j empty).ino ≡ 0)
        → (get_or (s ∷ d) k empty).ino ≡ 0
    free zero now later = now
    free (suc k) now later = later k

    counted :
        (o : Option Errno)
        → elim o [
          | some e ↦ failure e
          | none ↦ entries_from reads d (i + 1) (if s.ino == 0 then size else size + 1)
        ]
          ≡ success 0
        → (entries_from reads d (i + 1) (if s.ino == 0 then size else size + 1) ≡ success 0
            → ((if s.ino == 0 then size else size + 1) ≡ 0)
              × ((k : ℕ) → (get_or d k empty).ino ≡ 0))
        → (size ≡ 0) × ((k : ℕ) → (get_or (s ∷ d) k empty).ino ≡ 0)
    counted (some e') e rest = absurd (failure-ne e' 0 (failure e') refl e)
    counted none e rest =
        let (small, later) = rest e in
        let (now, none_yet) = none_counted (s.ino == 0) size small in
        (none_yet, λ k. free k (==→eq s.ino 0 now) later)

all_free-lookup :
    (d : List Slot) (m : List ℕ) → ((k : ℕ) → (get_or d k empty).ino ≡ 0) → lookup d m ≡ 0
unfolding lookup
all_free-lookup [] m free = refl
all_free-lookup (s ∷ d) m free =
    rw (hits-free s m (free 0)) (all_free-lookup d m (λ k. free (suc k)))

emptied-lookup :
    (d : List Slot) (m : List ℕ)
    → ((k : ℕ) → (get_or (drop 2 d) k empty).ino ≡ 0)
    → lookup (put (put d 0 empty) 1 empty) m ≡ 0
unfolding put lookup
emptied-lookup [] m free = rw (hits-free empty m refl) refl
emptied-lookup (x ∷ []) m free = rw (hits-free empty m refl) refl
emptied-lookup (x ∷ y ∷ d) m free = rw (hits-free empty m refl) (all_free-lookup d m free)

-- The name is gone, and the directory that it was has no entries any more; but it keeps its links.
pub record Gone (dir : ℕ) (name : List ℕ) (t t' : Tree) : Type 0 where
  pub was : 0 < lookup (t.slots dir) name
  pub directory : t.kind (lookup (t.slots dir) name) ≡ type_dir
  pub vacant : (k : ℕ) → (get_or (drop 2 (t.slots (lookup (t.slots dir) name))) k empty).ino ≡ 0
  pub names : (m : List ℕ) → lookup (t'.slots dir) m ≡ renamed name 0 (lookup (t.slots dir)) m
  pub distinct : Distinct (t'.slots dir)
  pub emptied : (m : List ℕ) → lookup (t'.slots (lookup (t.slots dir) name)) m ≡ 0
  pub parent : suc (t'.linkcount dir) ≡ t.linkcount dir
  pub own : t'.linkcount (lookup (t.slots dir) name) ≡ t.linkcount (lookup (t.slots dir) name)

-- The parent is as it was, but perhaps for its link count.
abbrev pub RmdirResult : ℕ → List ℕ → Tree → Tree × Result (Unit {0}) → Type 0
RmdirResult dir name t (t', success u) = Gone dir name t t'
RmdirResult dir name t (t', failure e) = t'.slots dir ≡ t.slots dir

live-low : (d : List Slot) (k : ℕ) → 0 < (get_or d k empty).ino → k < length d
live-low [] k h = absurd (omega (arith, h))
live-low (x ∷ d) zero h = omega arith
live-low (x ∷ d) (suc k) h = omega (arith, live-low d k h)

module _ (outside : ℕ → ℕ) (a : RmdirAnswers) (dir : ℕ) (name : List ℕ) (t : Tree) (ino slot : ℕ)
    (v : IsValid outside dir t) (linked : 0 < t.linkcount dir) (elsewhere : ino ≢ dir)
    (e1 : ino ≡ lookup (t.slots dir) name) (e2 : ino ≡ (get_or (t.slots dir) slot empty).ino)
    (names : Names (t.slots dir) slot name) (directory : t.kind ino ≡ type_dir) where
  abbrev t1 : List Slot → Tree
  t1 d1 = set_slots ino d1 t

  abbrev t2 : List Slot → List Slot → Tree
  t2 d1 d2 = set_slots ino d2 (t1 d1)

  parent1 : (d1 : List Slot) → (t1 d1).slots dir ≡ t.slots dir
  parent1 d1 = set_at_ne t.slots ino dir d1 elsewhere

  parent2 : (d1 d2 : List Slot) → (t2 d1 d2).slots dir ≡ t.slots dir
  parent2 d1 d2 = set_at_ne (t1 d1).slots ino dir d2 elsewhere ∙ parent1 d1

  abbrev t3 : List Slot → Tree
  t3 dv = fewer_links dir (t2 (put dv 0 empty) (put (put dv 0 empty) 1 empty))

  gone :
      ((k : ℕ) → (get_or (drop 2 (t.slots ino)) k empty).ino ≡ 0)
      → Gone dir name t (set_slots dir (put (t.slots dir) slot empty) (t3 (t.slots ino)))
  gone vacant =
      let dp = put (t.slots dir) slot empty in
      let t3 =
        fewer_links dir
          (t2 (put (t.slots ino) 0 empty) (put (put (t.slots ino) 0 empty) 1 empty)) in
      let parent_slots : (set_slots dir dp t3).slots dir ≡ dp = set_at_self t3.slots dir dp in
      let own_slots : (set_slots dir dp t3).slots ino ≡ put (put (t.slots ino) 0 empty) 1 empty =
        set_at_ne t3.slots dir ino dp (λ e. elsewhere (sym e))
        ∙ set_at_self (t1 (put (t.slots ino) 0 empty)).slots ino
            (put (put (t.slots ino) 0 empty) 1 empty) in
      record {
        was = omega (arith, e1, e2, names.live);
        directory = ap t.kind (sym e1) ∙ directory;
        vacant = rw (← e1) vacant;
        names = λ m.
            ap (λ (l : List Slot). lookup l m) parent_slots
            ∙ drop-lookup (t.slots dir) slot m v.distinct names.live
            ∙ ap (λ (x : List ℕ). renamed x 0 (lookup (t.slots dir)) m) names.named;
        distinct = rw parent_slots (drop-Distinct (t.slots dir) slot v.distinct names.live);
        emptied = λ m.
            ap (λ (i : ℕ). lookup ((set_slots dir dp t3).slots i) m) (sym e1)
            ∙ ap (λ (l : List Slot). lookup l m) own_slots
            ∙ emptied-lookup (t.slots ino) m vacant;
        parent =
            ap suc (set_at_self t.linkcount dir ((t.linkcount dir + 2 ^ 16 - 1) % 2 ^ 16))
            ∙ omega (arith, linked, v.words dir);
        own =
            ap t3.linkcount (sym e1)
            ∙ set_at_ne t.linkcount dir ino ((t.linkcount dir + 2 ^ 16 - 1) % 2 ^ 16)
                (λ e. elsewhere (sym e))
            ∙ ap t.linkcount e1;
      }

  old_slots :
      (d3 : List Slot)
      → (d3 ≡ t.slots dir) ⊎ (d3 ≡ put (t.slots dir) slot (get_or (t.slots dir) slot empty))
      → d3 ≡ t.slots dir
  old_slots d3 (inl e) = e
  old_slots d3 (inr e) = e ∙ put-old (t.slots dir) slot (live-low (t.slots dir) slot names.live)

  freed :
      ((k : ℕ) → (get_or (drop 2 (t.slots ino)) k empty).ino ≡ 0)
      → Returns (RmdirResult dir name t) (
          free_entry a.write_dot ino 0 t (λ t1.
            free_entry a.write_dot_dot ino 1 t1
              (λ t2. free_entry a.write dir slot (fewer_links dir t2) removed)))
  unfolding removed
  freed vacant =
      let dv = t.slots ino in
      free_lem (RmdirResult dir name t) a.write_dot ino 0 t
        (λ t1.
          free_entry a.write_dot_dot ino 1 t1
            (λ t2. free_entry a.write dir slot (fewer_links dir t2) removed))
        (t.slots ino) refl (λ d1 e same_d. parent1 d1)
        (free_lem (RmdirResult dir name t) a.write_dot_dot ino 1 (t1 (put dv 0 empty))
          (λ t2. free_entry a.write dir slot (fewer_links dir t2) removed) (put dv 0 empty)
          (set_at_self t.slots ino (put dv 0 empty)) (λ d2 e same_d. parent2 (put dv 0 empty) d2)
          (free_lem (RmdirResult dir name t) a.write dir slot (t3 dv) removed (t.slots dir)
            (parent2 (put dv 0 empty) (put (put dv 0 empty) 1 empty))
            (λ d3 e same_d. set_at_self (t3 dv).slots dir d3 ∙ old_slots d3 same_d) (gone vacant)))

-- `sfs_rmdir` in a valid directory returns. Either the name was that of a directory whose slots past
-- the first two are free: the name is gone and no other, no entry is left in the directory that it
-- was, and the parent has one link less; but that directory has as many links as before. Or there is
-- an error, and the slots of the parent are as before. The hypotheses are that the parent has a link
-- and that the name is not one of the parent itself.
pub sfs_rmdir_lem :
    (outside : ℕ → ℕ) (a : RmdirAnswers) (dir : ℕ) (name : List ℕ) (t : Tree)
    → IsValid outside dir t
    → 0 < t.linkcount dir
    → lookup (t.slots dir) name ≢ dir
    → Returns (RmdirResult dir name t) (sfs_rmdir a dir name t)
unfolding sfs_rmdir rmdir_found rmdir_counted
sfs_rmdir_lem outside a dir name t v linked elsewhere =
    elim (Bool-cases (same name dot || same name dot_dot)) [
      | inl z ↦ rw z refl
      | inr z ↦
          let (r, run, result) =
            Returns-inv (LookResult a.reads a.load name (t.slots dir))
              (sfs_lookonce a.reads a.load name dir t)
              (sfs_lookonce_lem outside a.reads a.load name dir t v) in
          rw (z, run) (found r result)
    ]
  where
    counted :
        (ino slot : ℕ) (c : Result ℕ)
        → entries_from a.reads_victim (drop 2 (t.slots ino)) 2 0 ≡ c
        → ino ≡ lookup (t.slots dir) name
        → ino ≡ (get_or (t.slots dir) slot empty).ino
        → Names (t.slots dir) slot name
        → t.kind ino ≡ type_dir
        → Returns (RmdirResult dir name t) (rmdir_counted a dir ino slot t c)
    counted ino slot (failure e) is e1 e2 names directory = refl
    counted ino slot (success size) is e1 e2 names directory = elim (Bool-cases (ltb 0 size)) [
      | inl z ↦ rw z refl
      | inr z ↦
          let nothing : size ≡ 0 = ground arith in
          let vacant =
            entries_from-none a.reads_victim (drop 2 (t.slots ino)) 2 0 (is ∙ ap success nothing) in
          rw z (
            freed outside a dir name t ino slot v linked (λ e. elsewhere (sym e1 ∙ e)) e1 e2 names
              directory vacant.1)
    ]

    found :
        (r : Result (ℕ × ℕ))
        → LookResult a.reads a.load name (t.slots dir) r
        → Returns (RmdirResult dir name t) (rmdir_found a dir t r)
    found (failure e) h = refl
    found (success (ino, slot)) (e1, e2, names) = elim (Bool-cases (t.kind ino == type_dir)) [
      | inl z ↦ rw z (
          counted ino slot (entries_from a.reads_victim (drop 2 (t.slots ino)) 2 0) refl e1 e2 names
            (==→eq (t.kind ino) type_dir z))
      | inr z ↦ rw z refl
    ]
