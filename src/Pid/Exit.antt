-- ===== src/Pid/Exit.antt =====
-- `pid_setexited` and `pid_unalloc` of a3/src/kern/thread/pid.c.
use csc.Base.{
  ℕ, zero, suc, ◌+◌, ◌-◌, ◌≤◌, ◌<◌, ◌≡◌, refl, sym, ap, ◌∙◌, ◌≢◌, true, false, Option, none, some,
  arith, ◌==◌, eq→==, ==→eq, ne→==, if◌then◌else◌, Bool-cases, inl, inr, ok,
}
use csc.Pid.{
  PidInfo, Slots, PidTable, Signalled, update, slot, procs_max, pid_min, pid_max, invalid_pid,
  orphan_slot, orphan_children, mark_done, pid_setexited,
}
use csc.Pid.Valid.{
  IsValid, update_self, update_same, pi_drop_marked, pi_get-found, in_range-true, free-IsValid,
  keep-IsValid, entry-EntryOk,
}

-- What an exiting parent makes of a slot: its child is detached, and one that has exited is gone.
unfoldable pub orphaned : ℕ → Option PidInfo → Option PidInfo
orphaned done none = none
orphaned done (some pi) =
    if pi.ppid == done
    then (if pi.exited then none else some (record pi { ppid = invalid_pid; joinable = false }))
    else some pi

-- The loop drops an exited child by its pid, which names the slot that the loop is at.
orphan_drop :
    (i done : ℕ) (t : PidTable) (pi : PidInfo)
    → slot pi.pid ≡ i
    → pi.ppid ≡ done
    → pi.exited ≡ true
    → orphan_slot i done t (some pi)
      ≡ ok (record t { info = update t.info i none; nprocs = t.nprocs - 1 })
unfolding orphan_slot
orphan_drop i done t pi at p x =
    rw (eq→== pi.ppid done p, x, ← at)
      (pi_drop_marked pi.pid (record pi { exited = true; ppid = invalid_pid; joinable = false }) t
        refl refl refl)

-- One round detaches the child in the slot, if it is one, and keeps the table valid.
orphan_slot_lem :
    (i done : ℕ) (t : PidTable) (o : Option PidInfo)
    → t.info i ≡ o
    → IsValid t
    → i < procs_max
    → (t' : PidTable) × (orphan_slot i done t o ≡ ok t')
      × IsValid t'
      × (t'.info ≡ update t.info i (orphaned done o))
unfolding orphan_slot orphaned
orphan_slot_lem i done t none e v lt = (t, refl, v, update_same t.info i none e)
orphan_slot_lem i done t (some pi) e v lt =
    let good = entry-EntryOk t v i lt pi e in
    elim (Bool-cases (pi.ppid == done)) [
      | inr other ↦ (t, rw other, v, rw other (update_same t.info i (some pi) e))
      | inl child ↦ elim (Bool-cases pi.exited) [
        | inl x ↦ (
          record t { info = update t.info i none; nprocs = t.nprocs - 1 },
          orphan_drop i done t pi good.placed (==→eq pi.ppid done child) x,
          free-IsValid t v i lt pi e,
          rw (child, x),
        )
        | inr x ↦ (
          record t {
            info = update t.info i (some (record pi { ppid = invalid_pid; joinable = false }));
          },
          rw (child, x),
          keep-IsValid t v i lt pi e (record pi { ppid = invalid_pid; joinable = false })
              (record {
                placed = good.placed;
                valid = good.valid;
                foreign = λ y. good.valid (sym y);
                small = good.small;
                owned = λ y. cc;
                detached = λ y. refl;
                orphan = λ y z. refl;
              }),
          rw (child, x),
        )
      ]
    ]

-- The table after the rounds from slot `i` on.
pub record Orphaned (i n done : ℕ) (t t' : PidTable) : Type 0 where
  pub valid : IsValid t'
  pub inside : (j : ℕ) → i ≤ j → j < i + n → t'.info j ≡ orphaned done (t.info j)
  pub below : (j : ℕ) → j < i → t'.info j ≡ t.info j

orphan_children_lem :
    (n i done : ℕ) (t : PidTable)
    → IsValid t
    → i + n ≤ procs_max
    → (t' : PidTable) × (orphan_children n i done t ≡ ok t') × Orphaned i n done t t'
unfolding orphan_children
orphan_children_lem zero i done t v fits =
    (t, refl, record { valid = v; inside = λ j l h. absurd (omega arith); below = λ j h. refl })
orphan_children_lem (suc n) i done t v fits =
    let first = orphan_slot_lem i done t (t.info i) refl v (omega arith) in
    let rest = orphan_children_lem n (i + 1) done first.0 first.2 (omega arith) in
    (rest.0, rw first.1 rest.1, later first.0 first.3 rest.0 rest.2)
  where
    later :
        (t₁ : PidTable)
        → t₁.info ≡ update t.info i (orphaned done (t.info i))
        → (t₂ : PidTable) → Orphaned (i + 1) n done t₁ t₂
        → Orphaned i (suc n) done t t₂
    later t₁ e t₂ o =
        let here = λ (j : ℕ). ap (λ (f : Slots). f j) e in
        record {
          valid = o.valid;
          inside = λ j l h. elim (Bool-cases (i == j)) [
            | inl at ↦
                let same : i ≡ j = ==→eq i j at in
                rw (← same) (
                  o.below i (omega arith)
                  ∙ here i
                  ∙ update_self t.info i (orphaned done (t.info i)))
            | inr off ↦
                let kept : t₁.info j ≡ t.info j = here j ∙ rw off in
                o.inside j (ground arith) (omega arith) ∙ ap (orphaned done) kept
          ];
          below = λ j h. o.below j (omega arith) ∙ here j ∙ rw (ne→== i j (omega arith));
        }

-- The table after `done` exited with `code`: its children are detached, and it is marked or gone.
pub record Exited (done code : ℕ) (pi : PidInfo) (t : PidTable) (r : Signalled) : Type 0 where
  pub valid : IsValid r.0
  pub others : (j : ℕ) → j < procs_max → j ≢ slot done → r.0.info j ≡ orphaned done (t.info j)
  pub marked :
      pi.joinable ≡ true
      → (r.1 ≡ some done)
        × (r.0.info (slot done) ≡ some (record pi { exitstatus = code; exited = true }))
  pub dropped : pi.joinable ≡ false → (r.1 ≡ none) × (r.0.info (slot done) ≡ none)

pub orphaned_self : (done : ℕ) (pi : PidInfo) → pi.ppid ≢ done → orphaned done (some pi) ≡ some pi
unfolding orphaned
orphaned_self done pi h = rw (ne→== pi.ppid done h)

mark_done_lem :
    (done code : ℕ) (t t' : PidTable) (pi : PidInfo)
    → Orphaned 0 procs_max done t t'
    → t.info (slot done) ≡ some pi
    → t'.info (slot done) ≡ some pi
    → pi.pid ≡ done
    → pi.exited ≡ false
    → pid_min ≤ done
    → (r : Signalled) × (mark_done done code t' (some pi) ≡ ok r) × Exited done code pi t r
unfolding mark_done
mark_done_lem done code t t' pi o at at' p x low =
    let good = entry-EntryOk t' o.valid (slot done) (omega arith) pi at' in
    let finished = record pi { exitstatus = code; exited = true } in
    elim (Bool-cases pi.joinable) [
      | inl j ↦ (
        (record t' { info = update t'.info (slot done) (some finished) }, some done),
        rw (x, j),
        record {
          valid = keep-IsValid t' o.valid (slot done) (omega arith) pi at' finished (record {
            placed = good.placed;
            valid = good.valid;
            small = good.small;
            foreign = good.foreign;
            owned = λ y z. let gone = good.orphan z (omega arith) in cc;
            detached = good.detached;
            orphan = good.orphan;
          });
          others =
              λ k h ne. rw (ne→== (slot done) k (λ e. ne (sym e))) (o.inside k (omega arith) h);
          marked = λ y. (refl, update_self t'.info (slot done) (some finished));
          dropped = λ y. cc;
        },
      )
      | inr j ↦ (
        (record t' { info = update t'.info (slot done) none; nprocs = t'.nprocs - 1 }, none),
        rw (
          x,
          j,
          pi_drop_marked done (record finished { joinable = false }) t' p refl (good.detached j),
        ),
        record {
          valid = free-IsValid t' o.valid (slot done) (omega arith) pi at';
          others =
              λ k h ne. rw (ne→== (slot done) k (λ e. ne (sym e))) (o.inside k (omega arith) h);
          marked = λ y. cc;
          dropped = λ y. (refl, update_self t'.info (slot done) none);
        },
      )
    ]

-- A live thread that exits with `code` detaches all its children, and leaves alone every other
-- entry. Its own entry then holds the code and its parent is signalled, if someone may still wait
-- for it; otherwise the entry is gone and nobody is signalled. The table stays valid.
pub pid_setexited_lem :
    (done code : ℕ) (t : PidTable) (pi : PidInfo)
    → IsValid t
    → pid_min ≤ done
    → done ≤ pid_max
    → t.info (slot done) ≡ some pi
    → pi.pid ≡ done
    → pi.exited ≡ false
    → (r : Signalled) × (pid_setexited done code t ≡ ok r) × Exited done code pi t r
unfolding pid_setexited
pid_setexited_lem done code t pi v low high at p x =
    let loop = orphan_children_lem procs_max 0 done t v (omega arith) in
    let good = entry-EntryOk t v (slot done) (omega arith) pi at in
    let own : loop.0.info (slot done) ≡ some pi =
      loop.2.inside (slot done) (omega arith) (omega arith)
      ∙ ap (orphaned done) at
      ∙ orphaned_self done pi (λ e. good.foreign (e ∙ sym p)) in
    let last = mark_done_lem done code t loop.0 pi loop.2 at own p x low in
    (
      last.0,
      rw (
        in_range-true done low high,
        loop.1,
        pi_get-found done pi loop.0 (omega arith) own p,
        last.1,
      ),
      last.2,
    )
