-- ===== src/File.antt =====
-- a3/src/kern/userprog/file.c and the calls of a3/src/kern/userprog/file_syscalls.c that work on
-- descriptors. An open file is an object in memory that descriptors point to, so the table holds
-- addresses and the heap the objects; a read or a write at an address that holds none is a fault.
-- `kmalloc` is a parameter. What the file system answers to a call is an argument of the call. The
-- counts and the offsets are words of 32 bits, and stand for signed numbers.
pub mod Exclusive
pub mod Opening
pub mod Closing
pub mod RoundTrip
pub mod Sharing
pub mod Session
pub mod Moving
pub mod Seeking
mod Tests
use csc.Base.{
  ℕ, zero, suc, ◌+◌, ◌-◌, ◌%◌, ◌^◌, Bool, true, false, Option, none, some, List, [], ◌∷◌, ltb, ◌==◌,
  set_at, if◌then◌else◌, ℤ, pos, negsuc, Run, ok, panic, ◌>>=◌, ◌>>◌, assert, Result, success,
  failure, Errno, einval, enomem, emfile, ebadf,
}

-- `struct openfile`
pub record Openfile : Type 0 where
  pub vnode : ℕ
  pub offset : ℕ
  pub accmode : ℕ
  pub refcount : ℕ

abbrev pub Heap : Type 0
Heap = ℕ → Option Openfile

-- The table of the current process, the objects, and the vnodes that were given to `vfs_close`.
pub record Files : Type 0 where
  pub table : ℕ → Option ℕ
  pub heap : Heap
  pub closed : List ℕ

abbrev pub fopen_max : ℕ
fopen_max = 16

-- `of->...`
pub load : ℕ → Files → Run Openfile
load p f = elim (f.heap p) [ none ↦ panic | some of ↦ ok of ]

-- The loop of `filetable_getfd`, from `fd` on with `n` descriptors left.
pub getfd_from : ℕ → ℕ → (ℕ → Option ℕ) → ℕ
getfd_from zero fd table = fd
getfd_from (suc n) fd table =
    let rest = getfd_from n (fd + 1) table in elim (table fd) [ none ↦ fd | some p ↦ rest ]

pub filetable_getfd : Files → ℕ
filetable_getfd f = getfd_from fopen_max 0 f.table

abbrev pub entry : Option ℕ → Result ℕ
entry none = failure ebadf
entry (some p) = success p

pub filetable_findfile : ℤ → Files → Result ℕ
filetable_findfile (negsuc n) f = failure ebadf
filetable_findfile (pos fd) f = if ltb fd fopen_max then entry (f.table fd) else failure ebadf

-- `file_open` with a free descriptor `fd` and memory at `p`. When `vfs_open` fails, `of->of_vnode` has
-- not been set, and `kfree` is called on it all the same: the flag says whether that does no harm.
pub open_at : ℕ → ℕ → Result ℕ → Bool → ℕ → Files → Run (Files × Result ℕ)
open_at fd p (failure e) harmless flags f = do assert harmless; ok (f, failure e)
open_at fd p (success vnode) harmless flags f =
    let of : Openfile = record { vnode = vnode; offset = 0; accmode = flags; refcount = 1 } in
    ok (
      record f { table = set_at f.table fd (some p); heap = set_at f.heap p (some of) },
      success fd,
    )

pub file_open : Option ℕ → Result ℕ → Bool → ℕ → Files → Run (Files × Result ℕ)
file_open mem vfs harmless flags f =
    let fd = filetable_getfd f in
    if fd == fopen_max
    then ok (f, failure emfile)
    else elim mem [ none ↦ ok (f, failure enomem) | some p ↦ open_at fd p vfs harmless flags f ]

-- `of->of_refcount -= 1`, and what follows it.
pub release : ℕ → ℕ → Openfile → Files → Files
release fd p of f =
    let count = (of.refcount + 2 ^ 32 - 1) % 2 ^ 32 in
    if count == 0
    then record {
      table = set_at f.table fd none;
      heap = set_at f.heap p none;
      closed = of.vnode ∷ f.closed;
    }
    else record f { heap = set_at f.heap p (some (record of { refcount = count })) }

pub close_found : ℕ → Result ℕ → Files → Run (Files × Result (Unit {0}))
close_found fd (failure e) f = ok (f, failure e)
close_found fd (success p) f = do of ← load p f; ok (release fd p of f, success tt)

pub file_close : ℤ → Files → Run (Files × Result (Unit {0}))
file_close (negsuc n) f = ok (f, failure ebadf)
file_close (pos fd) f = close_found fd (filetable_findfile (pos fd) f) f

-- The end of a step of `filetable_init`: an error is returned at once.
abbrev pub and_then :
    Run (Files × Result ℕ) → (Files → Run (Files × Result ℕ)) → Run (Files × Result ℕ)
and_then run next = run >>= λ (f, r). elim r [ success fd ↦ next f | failure e ↦ ok (f, failure e) ]

-- What memory and the file system answer to one opening of the console.
pub record Answer : Type 0 where
  pub mem : Option ℕ
  pub vfs : Result ℕ
  pub harmless : Bool

abbrev pub o_rdwr : ℕ
o_rdwr = 2

pub open_console : Answer → Files → Run (Files × Result ℕ)
open_console a f = file_open a.mem a.vfs a.harmless o_rdwr f

-- The table of a new process, over the objects and the vnodes that there are.
pub filetable_init : Bool → Answer → Answer → Answer → Files → Run (Files × Result ℕ)
filetable_init mem a b c f =
    if mem
    then and_then (open_console a (record f { table = λ fd. none }))
        (λ f'. and_then (open_console b f') (open_console c))
    else ok (f, failure enomem)

-- `if (ft_openfiles[fd] != NULL) file_close(fd)`
pub close_if_open : ℕ → Option ℕ → Files → Run Files
close_if_open fd none f = ok f
close_if_open fd (some p) f = do (f', r) ← file_close (pos fd) f; ok f'

-- The loop of `filetable_destroy`, from descriptor `fd` on with `n` left.
pub destroy_from : ℕ → ℕ → Files → Run Files
unfolding close_if_open
destroy_from zero fd f = ok f
destroy_from (suc n) fd f = do f' ← close_if_open fd (f.table fd) f; destroy_from n (fd + 1) f'

pub filetable_destroy : Files → Run Files
filetable_destroy f = destroy_from fopen_max 0 f

-- What follows the call of the file system in `sys_read`, `sys_write` and `sys_getdirentry`: `moved`
-- is its error, or the offset and the residue that it leaves.
pub transfer_found : ℕ → Result (ℕ × ℕ) → Result ℕ → Files → Run (Files × Result ℕ)
transfer_found size moved (failure e) f = ok (f, failure e)
transfer_found size (failure e) (success p) f = do of ← load p f; ok (f, failure e)
transfer_found size (success (offset, resid)) (success p) f = do
  of ← load p f
  ok (
    record f { heap = set_at f.heap p (some (record of { offset = offset })) },
    success ((size + 2 ^ 32 - resid) % 2 ^ 32),
  )

pub sys_transfer : ℤ → ℕ → Result (ℕ × ℕ) → Files → Run (Files × Result ℕ)
sys_transfer fd size moved f = transfer_found size moved (filetable_findfile fd f) f

abbrev pub sys_read : ℤ → ℕ → Result (ℕ × ℕ) → Files → Run (Files × Result ℕ)
sys_read = sys_transfer

abbrev pub sys_write : ℤ → ℕ → Result (ℕ × ℕ) → Files → Run (Files × Result ℕ)
sys_write = sys_transfer

abbrev pub sys_getdirentry : ℤ → ℕ → Result (ℕ × ℕ) → Files → Run (Files × Result ℕ)
sys_getdirentry = sys_transfer

abbrev pub sys_close : ℤ → Files → Run (Files × Result (Unit {0}))
sys_close = file_close

pub data Whence : Type 0 where
  seek_set seek_cur seek_end other : Whence

-- `pos`, for the offset of the open file and the size of the file.
pub seek_target : Whence → ℕ → ℕ → ℕ → Option ℕ
seek_target seek_set offset current size = some offset
seek_target seek_cur offset current size = some ((current + offset) % 2 ^ 32)
seek_target seek_end offset current size = some ((size + 2 ^ 32 - 1 + offset) % 2 ^ 32)
seek_target other offset current size = none

-- `sys_lseek` from `pos < 0` on. `tryseek` is what `VOP_TRYSEEK` answers.
pub seek_to : ℕ → Openfile → Option ℕ → Option Errno → Files → Files × Result ℕ
seek_to p of none tryseek f = (f, failure einval)
seek_to p of (some target) tryseek f =
    if ltb target (2 ^ 31)
    then elim tryseek [
      | some e ↦ (f, failure e)
      | none ↦ (
        record f { heap = set_at f.heap p (some (record of { offset = target })) },
        success target,
      )
    ]
    else (f, failure einval)

pub seek_found : ℕ → Whence → ℕ → Option Errno → Result ℕ → Files → Run (Files × Result ℕ)
seek_found offset whence size tryseek (failure e) f = ok (f, failure e)
seek_found offset whence size tryseek (success p) f = do
  of ← load p f
  ok (seek_to p of (seek_target whence offset of.offset size) tryseek f)

-- `size` is the size in `statbuf` after `VOP_STAT`, whose result is not looked at.
pub sys_lseek : ℤ → ℕ → Whence → ℕ → Option Errno → Files → Run (Files × Result ℕ)
sys_lseek fd offset whence size tryseek f =
    seek_found offset whence size tryseek (filetable_findfile fd f) f

-- The end of `sys_dup2`.
pub share : ℕ → ℕ → Files → Run (Files × Result ℕ)
share p newfd f = do
  of ← load p f
  let more = record of { refcount = (of.refcount + 1) % 2 ^ 32 }
  ok (
    record f { table = set_at f.table newfd (some p); heap = set_at f.heap p (some more) },
    success newfd,
  )

pub dup2_found : ℕ → Result ℕ → Files → Run (Files × Result ℕ)
dup2_found newfd (failure e) f = ok (f, failure e)
dup2_found newfd (success p) f =
    if ltb newfd fopen_max
    then (do f' ← close_if_open newfd (f.table newfd) f; share p newfd f')
    else ok (f, failure ebadf)

pub sys_dup2 : ℤ → ℤ → Files → Run (Files × Result ℕ)
sys_dup2 oldfd (negsuc n) f =
    ok (f, elim (filetable_findfile oldfd f) [ failure e ↦ failure e | success p ↦ failure ebadf ])
sys_dup2 oldfd (pos newfd) f = dup2_found newfd (filetable_findfile oldfd f) f
