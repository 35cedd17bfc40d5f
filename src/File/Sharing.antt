-- ===== src/File/Sharing.antt =====
-- Two descriptors of one open file, as `sys_dup2` of a3/src/kern/userprog/file_syscalls.c makes them.
use csc.Base.{
  ℕ, ◌<◌, ◌≡◌, sym, ap, ◌∙◌, ◌≢◌, Option, none, some, ◌∷◌, lt→ltb, set_at, set_at_self, set_at_ne,
  pos, ok, panic, Result, success, failure,
}
use csc.File.{
  Openfile, Files, fopen_max, load, release, close_found, file_close, close_if_open, transfer_found,
  sys_transfer, share, dup2_found, sys_dup2,
}
use csc.File.Exclusive.{none_ne, load-ok, find_open}
use csc.File.Moving.{IsOpen}

-- Both descriptors point to the object, which counts `count` references.
abbrev pub shared : ℕ → ℕ → Openfile → ℕ → Files → Files
shared newfd p of count f = record f {
  table = set_at f.table newfd (some p);
  heap = set_at f.heap p (some (record of { refcount = count }));
}

-- `dup2` of an open descriptor to a free one lets both point to the open file, with two references.
pub dup2_free :
    (oldfd newfd p : ℕ) (of : Openfile) (f : Files)
    → IsOpen f oldfd p of
    → newfd < fopen_max
    → f.table newfd ≡ none
    → sys_dup2 (pos oldfd) (pos newfd) f ≡ ok (shared newfd p of 2 f, success newfd)
unfolding sys_dup2 dup2_found close_if_open share
dup2_free oldfd newfd p of f o low free = rw (
  find_open oldfd p f o.low o.entry,
  lt→ltb newfd fopen_max low,
  free,
  load-ok p f o.live,
  o.own.one,
)

-- The state after one of the two is closed twice.
abbrev pub dangling : ℕ → ℕ → ℕ → Openfile → Files → Files
dangling oldfd newfd p of f = record {
  table = set_at (set_at f.table newfd (some p)) oldfd none;
  heap =
      set_at
        (set_at (set_at f.heap p (some (record of { refcount = 2 }))) p
          (some (record of { refcount = 1 })))
        p none;
  closed = of.vnode ∷ f.closed;
}

close_once :
    (oldfd newfd p : ℕ) (of : Openfile) (f : Files)
    → IsOpen f oldfd p of
    → newfd ≢ oldfd
    → file_close (pos oldfd) (shared newfd p of 2 f)
      ≡ ok (
        shared newfd p of 1
            (record f { heap = set_at f.heap p (some (record of { refcount = 2 })) }),
        success tt,
      )
unfolding file_close close_found release
close_once oldfd newfd p of f o ne = rw (
  find_open oldfd p (shared newfd p of 2 f) o.low
      (set_at_ne f.table newfd oldfd (some p) ne ∙ o.entry),
  load-ok p (shared newfd p of 2 f) (set_at_self f.heap p _),
)

close_twice :
    (oldfd newfd p : ℕ) (of : Openfile) (f : Files)
    → IsOpen f oldfd p of
    → newfd ≢ oldfd
    → file_close (pos oldfd) (
        shared newfd p of 1
          (record f { heap = set_at f.heap p (some (record of { refcount = 2 })) }))
      ≡ ok (dangling oldfd newfd p of f, success tt)
unfolding file_close close_found release
close_twice oldfd newfd p of f o ne =
    let h : ℕ → Option Openfile = set_at f.heap p (some (record of { refcount = 2 })) in
    rw (
      find_open oldfd p (shared newfd p of 1 (record f { heap = h })) o.low
          (set_at_ne f.table newfd oldfd (some p) ne ∙ o.entry),
      load-ok p (shared newfd p of 1 (record f { heap = h })) (set_at_self h p _),
    )

load-fault : (p : ℕ) (f : Files) → f.heap p ≡ none → load p f ≡ panic
unfolding load
load-fault p f e = rw (e, load)

transfer-dangling :
    (oldfd newfd p size : ℕ) (of : Openfile) (moved : Result (ℕ × ℕ)) (f : Files)
    → newfd < fopen_max
    → oldfd ≢ newfd
    → sys_transfer (pos newfd) size moved (dangling oldfd newfd p of f) ≡ panic
unfolding sys_transfer transfer_found load
transfer-dangling oldfd newfd p size of moved f low ne =
    let at : (dangling oldfd newfd p of f).table newfd ≡ some p =
      set_at_ne (set_at f.table newfd (some p)) oldfd newfd none ne
      ∙ set_at_self f.table newfd (some p) in
    let gone : (dangling oldfd newfd p of f).heap p ≡ none =
      set_at_self
        (set_at (set_at f.heap p (some (record of { refcount = 2 }))) p
          (some (record of { refcount = 1 })))
        p none in
    rw (find_open newfd p (dangling oldfd newfd p of f) low at) (fault moved gone)
  where
    fault :
        (m : Result (ℕ × ℕ))
        → (dangling oldfd newfd p of f).heap p ≡ none
        → transfer_found size m (success p) (dangling oldfd newfd p of f) ≡ panic
    fault (success (a, b)) e = rw (load-fault p (dangling oldfd newfd p of f) e)
    fault (failure x) e = rw (load-fault p (dangling oldfd newfd p of f) e)

-- What is left of two descriptors of one open file when one of them is closed twice.
pub record Dangles (oldfd newfd p : ℕ) (f : Files) : Type 0 where
  pub twice : Files
  pub once : Files
  pub both : Files
  pub copied : sys_dup2 (pos oldfd) (pos newfd) f ≡ ok (both, success newfd)
  pub first : file_close (pos oldfd) both ≡ ok (once, success tt)
  pub still_open : once.table oldfd ≡ some p
  pub second : file_close (pos oldfd) once ≡ ok (twice, success tt)
  pub points : twice.table newfd ≡ some p
  pub freed : twice.heap p ≡ none
  pub faults :
      (size : ℕ) (moved : Result (ℕ × ℕ)) → sys_transfer (pos newfd) size moved twice ≡ panic

-- After `dup2` of an open descriptor, whose open file has one reference and an offset below 2 ^ 31, to
-- a free one, closing the old descriptor leaves it open; closing it again succeeds too, and gives the object back while the new descriptor still points to it, so
-- that every read and write through the new descriptor is a fault.
pub dup2-Dangles :
    (oldfd newfd p : ℕ) (of : Openfile) (f : Files)
    → IsOpen f oldfd p of
    → newfd < fopen_max
    → f.table newfd ≡ none
    → Dangles oldfd newfd p f
dup2-Dangles oldfd newfd p of f o low free =
    let ne : newfd ≢ oldfd = λ e. none_ne p (sym free ∙ ap f.table e ∙ o.entry) in
    let ne' : oldfd ≢ newfd = λ e. ne (sym e) in
    record {
      both = shared newfd p of 2 f;
      once =
          shared newfd p of 1
            (record f { heap = set_at f.heap p (some (record of { refcount = 2 })) });
      twice = dangling oldfd newfd p of f;
      copied = dup2_free oldfd newfd p of f o low free;
      first = close_once oldfd newfd p of f o ne;
      still_open = set_at_ne f.table newfd oldfd (some p) ne ∙ o.entry;
      second = close_twice oldfd newfd p of f o ne;
      points =
          set_at_ne (set_at f.table newfd (some p)) oldfd newfd none ne'
          ∙ set_at_self f.table newfd (some p);
      freed =
          set_at_self
            (set_at (set_at f.heap p (some (record of { refcount = 2 }))) p
              (some (record of { refcount = 1 })))
            p none;
      faults = λ size moved. transfer-dangling oldfd newfd p size of moved f low ne';
    }

-- `dup2` of a descriptor of its own open file to itself gives the object back, and then counts a
-- reference in it: a fault.
pub dup2_self :
    (fd p : ℕ) (of : Openfile) (f : Files) → IsOpen f fd p of → sys_dup2 (pos fd) (pos fd) f ≡ panic
unfolding sys_dup2 dup2_found close_if_open share file_close close_found release
dup2_self fd p of f o =
    let g : Files = record {
      table = set_at f.table fd none;
      heap = set_at f.heap p none;
      closed = of.vnode ∷ f.closed;
    } in
    rw (
      find_open fd p f o.low o.entry,
      lt→ltb fd fopen_max o.low,
      o.entry,
      find_open fd p f o.low o.entry,
      load-ok p f o.live,
      o.own.one,
      load-fault p g (set_at_self f.heap p none),
    )
