-- ===== src/Pid/System/Frame.antt =====
-- What an action of one thread leaves of the children of the others.
use csc.Base.{
  ℕ, ◌≡◌, refl, sym, ap, ◌∙◌, ◌≢◌, Bool, Option, none, some, arith, ne→==, Result, success, failure,
  eagain, enomem, einval, esrch,
}
use csc.Pid.{PidInfo, PidTable, Signalled, update, slot, Join, returned, waits}
use csc.Pid.Alloc.{AllocResult}
use csc.Pid.Exit.{Exited, orphaned, orphaned_self}
use csc.Pid.Waiting.{IsChild, JoinResult, DetachResult, dropped}

-- A write to a slot that does not hold the entry leaves the child.
IsChild-update :
    (q w i : ℕ) (t t' : PidTable) (v : Option PidInfo) (pi : PidInfo)
    → IsChild q w t pi
    → slot w ≢ i
    → t'.info ≡ update t.info i v
    → IsChild q w t' pi
IsChild-update q w i t t' v pi c ne e = record {
  found =
      ap (λ (f : ℕ → Option PidInfo). f (slot w)) e
      ∙ rw (ne→== i (slot w) (λ h. ne (sym h))) c.found;
  named = c.named;
  parent = c.parent;
  joinable = c.joinable;
}

-- The children of two parents stand in different slots.
IsChild-apart :
    (p q w who : ℕ) (t : PidTable) (pi qi : PidInfo)
    → q ≢ p
    → IsChild q w t pi
    → IsChild p who t qi
    → slot w ≢ slot who
IsChild-apart p q w who t pi qi ne c d same =
    let at = ap (λ (k : ℕ). t.info k) same in
    let found = c.found in
    let found' = d.found in
    let e : some pi ≡ some qi = cc in
    let one : pi ≡ qi = cc in ground (arith, ap (λ (k : PidInfo). k.ppid) one, c.parent, d.parent)

-- `pid_alloc` takes a free slot.
pub alloc_keeps :
    (memory : Bool) (p q w : ℕ) (t : PidTable) (pi : PidInfo) (r : PidTable × Result ℕ)
    → AllocResult memory t p r
    → IsChild q w t pi
    → IsChild q w r.0 pi
alloc_keeps memory p q w t pi (t', success pid) a c =
    IsChild-update q w (slot pid) t t' _ pi c
      (λ same.
        let at = ap (λ (k : ℕ). t.info k) same in
        let found = c.found in let free = a.0.was_free in cc)
      a.0.entry
alloc_keeps memory p q w t pi (t', failure eagain) a c = rw a.0 c
alloc_keeps memory p q w t pi (t', failure enomem) a c = record {
  found = ap (λ (f : ℕ → Option PidInfo). f (slot w)) a.1 ∙ c.found;
  named = c.named;
  parent = c.parent;
  joinable = c.joinable;
}
alloc_keeps memory p q w t pi (t', failure _) a c = absurd a

-- `pid_detach` and the end of `pid_join` change only the entry of a child of the caller.
pub detach_keeps :
    (p q w who : ℕ) (t : PidTable) (pi : PidInfo) (r : PidTable × Result (Unit {0}))
    → q ≢ p
    → DetachResult p who t r
    → IsChild q w t pi
    → IsChild q w r.0 pi
detach_keeps p q w who t pi (t', success _) ne (qi, d, e) c =
    IsChild-update q w (slot who) t t' _ pi c (IsChild-apart p q w who t pi qi ne c d) e
detach_keeps p q w who t pi (t', failure esrch) ne d c = rw d.0 c
detach_keeps p q w who t pi (t', failure einval) ne d c = rw d.0 c
detach_keeps p q w who t pi (t', failure _) ne d c = absurd d

pub dropped_keeps :
    (p q w who : ℕ) (t : PidTable) (pi qi : PidInfo)
    → q ≢ p
    → IsChild p who t qi
    → IsChild q w t pi
    → IsChild q w (dropped who t) pi
dropped_keeps p q w who t pi qi ne d c =
    IsChild-update q w (slot who) t (dropped who t) none pi c
      (IsChild-apart p q w who t pi qi ne c d) refl

pub join_keeps :
    (p q w who : ℕ) (t : PidTable) (pi : PidInfo) (r : PidTable × Join)
    → q ≢ p
    → JoinResult p who t r
    → IsChild q w t pi
    → IsChild q w r.0 pi
join_keeps p q w who t pi (t', waits _) ne d c = rw d.0 c
join_keeps p q w who t pi (t', returned (success _)) ne (qi, d, x, s, e) c =
    rw e (dropped_keeps p q w who t pi qi ne d c)
join_keeps p q w who t pi (t', returned (failure esrch)) ne d c = rw d.0 c
join_keeps p q w who t pi (t', returned (failure einval)) ne d c = rw d.0 c
join_keeps p q w who t pi (t', returned (failure _)) ne d c = absurd d

-- An exit leaves the children of other threads, but for the thread that exits.
pub exit_keeps :
    (p q w code : ℕ) (t : PidTable) (pi own : PidInfo) (r : Signalled)
    → q ≢ p
    → w ≢ p
    → Exited p code own t r
    → t.info (slot p) ≡ some own
    → own.pid ≡ p
    → IsChild q w t pi
    → IsChild q w r.0 pi
exit_keeps p q w code t pi own r ne wp x at named c = record {
  found =
      x.others (slot w) (omega arith) (λ same.
        let at' = ap (λ (k : ℕ). t.info k) same in
        let found = c.found in
        let one : pi ≡ own = cc in
        wp (ground (arith, ap (λ (k : PidInfo). k.pid) one, c.named, named)))
      ∙ ap (orphaned p) c.found
      ∙ orphaned_self p pi (λ e. ne (sym c.parent ∙ e));
  named = c.named;
  parent = c.parent;
  joinable = c.joinable;
}
