-- ===== src/Copy/Files/Tests.antt =====
-- A file of two blocks that `copyFile` of Lab6/main.c copies.
use os_posix.Prelude.{◌≡◌, refl, true, false, some, List, [], ◌∷◌, ◌++◌}
use os_posix.Copy.{wrote, interrupted, write_block}
use os_posix.Copy.Files.{
  at_end, Opening, opened, too_many, open_file, Copying, ended, running, new_file, copy_file,
  copy_loop, copy_block, errno_after, got,
}
use os_posix.Copy.Files.Turns.{Block, reads}
use os_posix.Copy.Files.Success.{copy_file-ok}
use os_posix.Copy.Files.Ends.{ends, copy_file-reads, interrupted_copy_runs}

abbrev blocks : List Block
blocks = (1, 2 ∷ [], wrote 1 ∷ wrote 1 ∷ []) ∷ (3, [], wrote 1 ∷ []) ∷ []

abbrev opens : List Opening
opens = too_many ∷ opened ∷ []

opens_run : open_file opens ≡ some true
unfolding open_file
opens_run = refl

abbrev whole : Copying
whole = record { file = 1 ∷ 2 ∷ 3 ∷ []; eintr = false; ok = true }

copy_file-reads_example :
    copy_file opens opens (reads blocks ++ (at_end, []) ∷ []) true true ≡ ended whole
copy_file-reads_example =
    copy_file-reads opens opens blocks [] [] opens_run opens_run ((tt, tt), ((tt, tt), tt))

copies : copy_file opens opens (reads blocks ++ (at_end, []) ∷ []) true true ≡ ended whole
unfolding copy_file copy_loop copy_block write_block errno_after open_file
copies = refl

copy_file-ok_example : whole.file ≡ 1 ∷ 2 ∷ 3 ∷ []
copy_file-ok_example = copy_file-ok opens opens blocks (at_end, []) true true copies refl

interrupted_copy_runs_example :
    copy_loop ((got 1 (2 ∷ []), interrupted ∷ wrote 2 ∷ wrote 1 ∷ []) ∷ ends 9) new_file ≡ running
interrupted_copy_runs_example =
    interrupted_copy_runs 1 (2 ∷ []) (wrote 2 ∷ wrote 1 ∷ []) new_file 9 tt
