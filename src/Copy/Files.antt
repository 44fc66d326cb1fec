-- ===== src/Copy/Files.antt =====
-- `copyFile` of Lab6/main.c: the loop over the blocks of a file, with the errors of `read` and
-- `write`, and what its callers see of it.
pub mod Ends
pub mod Success
pub mod Turns
mod Tests
use os_posix.Prelude.{
  ℕ, ◌+◌, Bool, true, false, ◌&&◌, Option, none, some, List, [], ◌∷◌, ◌++◌, ◌==◌, if◌then◌else◌,
  length, drop,
}
use os_posix.Proxy.Memory.{Bytes}
use os_posix.Copy.{Write, wrote, interrupted, failed, write_block}

-- What a `read` does: some bytes, the end of the file, an interruption, or another error.
pub data Read : Type 0 where
  got : ℕ → Bytes → Read
  at_end broken_off refused : Read

-- The file that is written, whether `errno` is EINTR, and whether `returnValue` is EXIT_SUCCESS.
pub record Copying : Type 0 where
  pub file : Bytes
  pub eintr : Bool
  pub ok : Bool

-- The results may run out before the loop ends. An overrun is a `write` of (size_t) -1 bytes.
pub data Copied : Type 0 where
  running overrun : Copied
  ended : Copying → Copied

-- `errno` after the loop that writes a block. No call that succeeds changes it.
unfoldable pub errno_after : List Write → Bytes → Bool → Bool
errno_after [] left eintr = eintr
errno_after (failed ∷ ws) left eintr = false
errno_after (interrupted ∷ ws) left eintr =
    let rest = errno_after ws left true in if length left == 0 then true else rest
errno_after (wrote n ∷ ws) left eintr =
    let rest = errno_after ws (drop n left) eintr in
    if length (drop n left) == 0 then eintr else rest

abbrev pub wrote_block : List Write → Bytes → Copying → Option (Bytes × Bool) → Option Copying
wrote_block ws left s none = none
wrote_block ws left s (some (file, good)) =
    some (record { file = file; eintr = errno_after ws left s.eintr; ok = s.ok && good })

unfoldable pub copy_block : List Write → Bytes → Copying → Option Copying
copy_block ws left s = wrote_block ws left s (write_block ws left s.file)

abbrev pub after : (Copying → Copied) → Option Copying → Copied
after k none = running
after k (some s) = k s

-- What each turn of the loop meets: its `read`, and the calls of `write` for the block.
abbrev pub Turn : Type 0
Turn = Read × List Write

unfoldable pub copy_loop : List Turn → Copying → Copied
copy_loop [] s = running
copy_loop ((got b bs, ws) ∷ ts) s = after (λ s'. copy_loop ts s') (copy_block ws (b ∷ bs) s)
copy_loop ((at_end, ws) ∷ ts) s =
    let again = after (λ s'. copy_loop ts s') (copy_block ws [] s) in
    if s.eintr then again else ended s
copy_loop ((broken_off, ws) ∷ ts) s = overrun
copy_loop ((refused, ws) ∷ ts) s = ended (record s { eintr = false; ok = false })

-- What an `open` does: it may find too many files open, and is tried again.
pub data Opening : Type 0 where
  opened too_many denied : Opening

unfoldable pub open_file : List Opening → Option Bool
open_file [] = none
open_file (opened ∷ os) = some true
open_file (too_many ∷ os) = open_file os
open_file (denied ∷ os) = some false

abbrev pub close_files : Bool → Bool → Copied → Copied
close_files close_in close_out running = running
close_files close_in close_out overrun = overrun
close_files close_in close_out (ended s) = ended (record s { ok = s.ok && (close_in && close_out) })

abbrev pub on_open : Option Bool → Copied → Copied → Copied
on_open none yes_case no_case = running
on_open (some true) yes_case no_case = yes_case
on_open (some false) yes_case no_case = no_case

-- The new file is empty, and is not made if it is there already.
abbrev pub new_file : Copying
new_file = record { file = []; eintr = false; ok = true }

abbrev pub error : Copied
error = ended (record new_file { ok = false })

unfoldable pub copy_file : List Opening → List Opening → List Turn → Bool → Bool → Copied
copy_file sources destinations ts close_in close_out =
    on_open (open_file sources)
      (on_open (open_file destinations) (close_files close_in close_out (copy_loop ts new_file))
        error)
      error
