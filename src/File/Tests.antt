-- ===== src/File/Tests.antt =====
-- Open files on small inputs.
use csc.Base.{
  inl, ℕ, ◌≡◌, refl, true, some, none, Option, [], ◌∷◌, ok, panic, pos, negsuc, success, Result,
  Returns, arith, ◌<◌, some-eq,
}
use csc.File.{
  Openfile, Files, Heap, fopen_max, file_open, file_close, filetable_destroy, sys_lseek, sys_dup2,
  seek_target, seek_cur, seek_end,
}
use csc.File.Exclusive.{IsExclusive, none_ne}
use csc.File.Opening.{OpenResult, file_open_lem, opened, opened-IsExclusive}
use csc.File.Closing.{CloseResult, file_close_lem, filetable_destroy_lem}
use csc.File.RoundTrip.{open-close}
use csc.File.Moving.{IsOpen, moved_to, moved_to-IsExclusive}
use csc.File.Seeking.{SeekOutcome, sys_lseek_lem}
use csc.File.Sharing.{Dangles, dup2-Dangles, dup2_self}
use csc.File.Session.{
  Allocator, no_files, no_files-IsExclusive, open_file, close_file, move_bytes, seek, run,
  run-IsExclusive,
}

-- One file is open: descriptor 0, vnode 7, at address 100.
abbrev one_file : Files
one_file = opened 0 100 7 2 no_files

one_file-IsExclusive : IsExclusive one_file
one_file-IsExclusive = opened-IsExclusive 0 100 7 2 no_files no_files-IsExclusive refl

abbrev seven : Openfile
seven = record { vnode = 7; offset = 0; accmode = 2; refcount = 1 }

one_file-IsOpen : IsOpen one_file 0 100 seven
one_file-IsOpen = record {
  low = omega arith;
  entry = refl;
  live = refl;
  own = record { one = refl; seekable = omega arith };
}

file_open_lem_example :
    Returns
      (OpenResult (some 101) (success 8) 0 one_file)
      (file_open (some 101) (success 8) true 0 one_file)
file_open_lem_example = file_open_lem (some 101) (success 8) 0 one_file

file_close_lem_example : Returns (CloseResult 0 one_file) (file_close (pos 0) one_file)
file_close_lem_example = file_close_lem 0 one_file one_file-IsExclusive

open-close_example :
    (fd : ℕ) × (g : Files) × (f' : Files) × (file_open (some 101) (success 8) true 0 one_file
      ≡ ok (g, success fd))
    × (file_close (pos fd) g ≡ ok (f', success tt))
    × (f'.table ≡ one_file.table)
    × (f'.heap ≡ one_file.heap)
    × (f'.closed ≡ 8 ∷ [])
open-close_example = open-close 5 101 8 0 one_file (omega arith) refl refl

filetable_destroy_lem_example :
    (f' : Files) × (filetable_destroy one_file ≡ ok f')
    × IsExclusive f'
    × ((fd : ℕ) → fd < fopen_max → f'.table fd ≡ none)
filetable_destroy_lem_example = filetable_destroy_lem one_file one_file-IsExclusive

-- Descriptor 0 is at byte 9.
abbrev nine : Openfile
nine = record { vnode = 7; offset = 9; accmode = 2; refcount = 1 }

nine-IsOpen : IsOpen (moved_to 100 seven 9 one_file) 0 100 nine
nine-IsOpen = record {
  low = omega arith;
  entry = refl;
  live = refl;
  own = record { one = refl; seekable = omega arith };
}

sys_lseek_lem_example :
    Returns
      (λ (r : Files × Result ℕ).
        SeekOutcome seek_cur (negsuc 4) 80 100 nine none (moved_to 100 seven 9 one_file) r
        × IsExclusive r.0)
      (sys_lseek (pos 0) 0xfffffffb seek_cur 80 none (moved_to 100 seven 9 one_file))
sys_lseek_lem_example =
    sys_lseek_lem 0 100 80 (negsuc 4) nine seek_cur none (moved_to 100 seven 9 one_file)
      (moved_to-IsExclusive one_file 0 100 9 seven one_file-IsExclusive one_file-IsOpen
        (omega arith))
      nine-IsOpen (omega arith) (omega arith) (inl (omega arith))

-- The end of a file of 80 bytes is not where `SEEK_END` puts it.
end_of_file : seek_target seek_end 0 0 80 ≡ some 79
unfolding seek_target
end_of_file = refl

dup2-Dangles_example : Dangles 0 3 100 one_file
dup2-Dangles_example = dup2-Dangles 0 3 100 seven one_file one_file-IsOpen (omega arith) refl

dup2_self_example : sys_dup2 (pos 0) (pos 0) one_file ≡ panic
dup2_self_example = dup2_self 0 100 seven one_file one_file-IsOpen

-- Memory for one file at a time.
abbrev one_place : Allocator
one_place = record {
  kmalloc = λ h. elim (h 100) [ none ↦ some 100 | some of ↦ none ];
  unused = λ h p e. free_place (h 100) h p refl e;
}
  where
    free_place :
        (o : Option Openfile) (h : Heap) (p : ℕ)
        → h 100 ≡ o
        → (elim o [ none ↦ some 100 | some of ↦ none ]) ≡ some p
        → h p ≡ none
    free_place none h p at e = rw (← some-eq e) at
    free_place (some of) h p at e = absurd (none_ne p e)

run-IsExclusive_example : Returns IsExclusive (
    run one_place
      (open_file (success 7) 2
        ∷ move_bytes 0 10 (success (10, 0))
        ∷ seek 0 5 seek_cur 80 none
        ∷ close_file 0
        ∷ [])
      no_files)
run-IsExclusive_example =
    run-IsExclusive one_place
      (open_file (success 7) 2
        ∷ move_bytes 0 10 (success (10, 0))
        ∷ seek 0 5 seek_cur 80 none
        ∷ close_file 0
        ∷ [])
      no_files no_files-IsExclusive (omega arith, (omega arith, omega arith), tt)
